-- ===== src/Rounds/Kept.antt =====
-- What the handlers of ckernelwifi.cc that carry frames leave as it is.
use vwifi.Prelude.{
  ℕ, ◌≡◌, refl, ◌∙◌, Bool, true, not, ◌&&◌, Option, none, some, List, [], ◌∷◌, if◌then◌else◌,
  if_both, ◌==◌,
}
use vwifi.Prelude.Results.{both_Option, Holds, Holds-bind, Holds-all}
use vwifi.Prelude.Int.{ℤ, pos, negsuc, ltb_ℤ, ◌+ℤ◌}
use vwifi.Platform.{Platform, Net}
use vwifi.Select.{Select, wait, scheduler_error, node_has_action}
use vwifi.Socket.{is_socket_error}
use vwifi.Wifi.{recv_signal}
use vwifi.Devices.{WirelessDevice, same_bytes}
use vwifi.Kernel.{
  Kernel, Attribute, Message, attr_addr_transmitter, attr_frame, attr_flags, attr_tx_info,
  attr_cookie,
}
use vwifi.Prelude.Ordered.{==_ℤ}
use vwifi.Radio.{
  Radio, nlmsg_type, cmd, hwsim_cmd_frame, with_world, nl_send, build_and_send,
  send_cloned_frame_msg, send_tx_info_frame_nl, clone_to_others, clone_to_all, manage_server_crash,
  send_to_server, recv_from_socket,
}
use vwifi.Radio.Forwarding.{
  forward_frame, relay_frame, process_messages, deliver, receive, recv_from_server,
}
use vwifi.Rounds.{process_all}

both_ℤ :
    {A : Type 0}
    → (P : A → Type 0) (z : ℤ) {f g : ℕ → A} → ((d : ℕ) → P (f d))
    → ((d : ℕ) → P (g d))
    → P (elim z [ negsuc d ↦ g d | pos d ↦ f d ])
both_ℤ P (pos d) a b = a d
both_ℤ P (negsuc d) a b = b d

module _ {p : Platform} where
  -- The devices, the connection and the descriptors watched are the same; the flag is not set anew.
  pub record Keeps (r r' : Radio p) : Type 0 where
    pub devices : r'.list_winterfaces ≡ r.list_winterfaces
    pub client : r'.client ≡ r.client
    pub watched : r'.scheduler.master ≡ r.scheduler.master
    pub flag : r'.connected_to_server ≡ true → r.connected_to_server ≡ true

  pub Keeps-refl : (r : Radio p) → Keeps r r
  Keeps-refl r = record { devices = refl; client = refl; watched = refl; flag = λ e. e }

  pub Keeps-trans : (r₁ r₂ r₃ : Radio p) → Keeps r₁ r₂ → Keeps r₂ r₃ → Keeps r₁ r₃
  Keeps-trans r₁ r₂ r₃ a b = record {
    devices = b.devices ∙ a.devices;
    client = b.client ∙ a.client;
    watched = b.watched ∙ a.watched;
    flag = λ e. a.flag (b.flag e);
  }

  pub after :
      (r r' : Radio p) (o : Option (Radio p)) → Keeps r r' → Holds (Keeps r') o → Holds (Keeps r) o
  after r r' none h g = tt
  after r r' (some r₂) h g = Keeps-trans r r' r₂ h g

  crash-Keeps : (r : Radio p) → Keeps r (manage_server_crash r)
  unfolding manage_server_crash
  crash-Keeps r = record { devices = refl; client = refl; watched = refl; flag = λ e. cc }

  module _ (k : Kernel p) where
    build_and_send-Keeps : (m : Message) (r : Radio p) → Keeps r (build_and_send k m r).1
    unfolding build_and_send nl_send
    build_and_send-Keeps m r =
        if_both (λ (x : Bool × Radio p). Keeps r x.1) (ltb_ℤ r.family_id (pos 0)) (Keeps-refl r)
          (if_both (λ (x : Bool × Radio p). Keeps r x.1) (k.build r.family_id m r.net.world).0
            (record { devices = refl; client = refl; watched = refl; flag = λ e. e })
            (record { devices = refl; client = refl; watched = refl; flag = λ e. e }))

    clone_to_others-Keeps :
        (src frame : List ℕ) (signal : ℤ) (f : ℕ) (ds : List WirelessDevice) (r : Radio p)
        → Keeps r (clone_to_others k src frame signal f ds r)
    unfolding clone_to_others send_cloned_frame_msg
    clone_to_others-Keeps src frame signal f [] r = Keeps-refl r
    clone_to_others-Keeps src frame signal f (d ∷ ds) r =
        Keeps-trans r _ _
          (if_both (Keeps r) (same_bytes src d.machwsim) (Keeps-refl r) (build_and_send-Keeps _ r))
          (clone_to_others-Keeps src frame signal f ds _)

    clone_to_all-Keeps :
        (frame : List ℕ) (signal : ℤ) (f : ℕ) (ds : List WirelessDevice) (r : Radio p)
        → Keeps r (clone_to_all k frame signal f ds r)
    unfolding clone_to_all send_cloned_frame_msg
    clone_to_all-Keeps frame signal f [] r = Keeps-refl r
    clone_to_all-Keeps frame signal f (d ∷ ds) r =
        Keeps-trans r _ _ (build_and_send-Keeps _ r) (clone_to_all-Keeps frame signal f ds _)

  pub only_net : (r : Radio p) (n : Net p) → Keeps r (record r { net = n })
  only_net r n = record { devices = refl; client = refl; watched = refl; flag = λ e. e }

  send_to_server-Keeps :
      (power : ℤ) (bytes : List ℕ) (r : Radio p) → Keeps r (send_to_server power bytes r).1
  unfolding send_to_server
  send_to_server-Keeps power bytes r =
      both_ℤ (λ (x : Option ℕ × Radio p). Keeps r x.1) r.client.master (λ d. only_net r _)
        (λ d. Keeps-refl r)

  forward_frame-Keeps :
      (power : ℤ) (bytes : List ℕ) (r : Radio p) → Keeps r (forward_frame power bytes r)
  unfolding forward_frame
  forward_frame-Keeps power bytes r =
      let (value, r') = send_to_server power bytes r in
      let kept = send_to_server-Keeps power bytes r in
      both_Option (Keeps r) value (Keeps-trans r r' _ kept (crash-Keeps r')) (λ n. kept)

  recv_from_socket-Keeps :
      (power : ℤ) (r : Radio p) → Holds (λ x. Keeps r x.2) (recv_from_socket power r)
  unfolding recv_from_socket
  recv_from_socket-Keeps power r =
      let Goal = Holds (λ (x : ℤ × ℤ × Radio p). Keeps r x.2) in
      both_ℤ Goal r.client.master
        (λ d.
          Holds-all (λ x. Keeps r x.2) (recv_signal p d power r.buffer r.net.world) _
            (λ (ret, power', buffer, w). record {
              devices = refl;
              client = refl;
              watched = refl;
              flag = λ e. e;
            }))
        (λ d. Keeps-refl r)

  waited :
      (r : Radio p)
      → Keeps r (record (with_world (wait p r.scheduler r.net.world).2 r) {
        scheduler = (wait p r.scheduler r.net.world).1;
      })
  unfolding wait
  waited r =
      let s = λ (x : ℤ × Select × p.World). x.1.master ≡ r.scheduler.master in
      record {
        devices = refl;
        client = refl;
        watched =
            if_both s
              (ltb_ℤ
                  (p.pselect (r.scheduler.max_descriptor +ℤ pos 1) r.scheduler.master r.net.world).0
                  (pos 0)
                && not
                    (p.pselect (r.scheduler.max_descriptor +ℤ pos 1) r.scheduler.master
                      r.net.world).1)
              refl refl;
        flag = λ e. e;
      }

  module _ (k : Kernel p) where
    relay_frame-Keeps :
        (t : Attribute) (msg : List ℕ) (r : Radio p) → Holds (Keeps r) (relay_frame k t msg r)
    unfolding relay_frame send_tx_info_frame_nl
    relay_frame-Keeps t msg r = Holds-all (Keeps r) (k.parse msg attr_flags) _ (λ flags.
        Holds-all (Keeps r) (k.parse msg attr_tx_info) _ (λ tx_info.
          Holds-all (Keeps r) (k.parse msg attr_cookie) _ (λ cookie.
            Holds-all (Keeps r) (k.parse msg attr_frame) _ (λ frame.
              Keeps-trans r _ _ (build_and_send-Keeps k _ r) (
                Keeps-trans _ _ _ (forward_frame-Keeps _ _ _)
                  (clone_to_others-Keeps k _ _ _ _ _ _))))))

    process_messages-Keeps :
        (msg : List ℕ) (r : Radio p) → Holds (λ x. Keeps r x.1) (process_messages k msg r)
    unfolding process_messages
    process_messages-Keeps msg r =
        let Goal = Holds (λ (x : ℕ × Radio p). Keeps r x.1) in
        let still : Goal (some (1, r)) = Keeps-refl r in
        if_both Goal (not r.connected_to_server) still (
          if_both Goal (not (==_ℤ (pos (nlmsg_type msg)) r.family_id)) still (
            if_both Goal (not (cmd msg == hwsim_cmd_frame)) still (
              both_Option Goal (k.parse msg attr_addr_transmitter) still (λ t.
                Holds-bind (Keeps r) (λ (x : ℕ × Radio p). Keeps r x.1) (relay_frame k t msg r) _
                  (relay_frame-Keeps t msg r) (λ r' h. h)))))

    pub process_all-Keeps :
        (msgs : List (List ℕ)) (r : Radio p) → Holds (Keeps r) (process_all k msgs r)
    unfolding process_all
    process_all-Keeps [] r = Keeps-refl r
    process_all-Keeps (msg ∷ msgs) r =
        Holds-bind (λ x. Keeps r x.1) (Keeps r) (process_messages k msg r) _
          (process_messages-Keeps msg r) (λ (ret, r') h. after r r' _ h (process_all-Keeps msgs r'))

    deliver-Keeps : (signal : ℤ) (r : Radio p) → Holds (Keeps r) (deliver k signal r)
    unfolding deliver
    deliver-Keeps signal r =
        let msg = r.buffer.buffer in
        if_both (Holds (Keeps r)) (not (cmd msg == hwsim_cmd_frame)) (Keeps-refl r) (
          both_Option (Holds (Keeps r)) (k.parse msg attr_addr_transmitter) (Keeps-refl r) (λ t.
            Holds-all (Keeps r) (k.parse msg attr_frame) _
              (λ frame. clone_to_all-Keeps k _ _ _ _ r)))

    receive-Keeps : (r : Radio p) → Holds (Keeps r) (receive k r)
    unfolding receive
    receive-Keeps r =
        Holds-bind (λ x. Keeps r x.2) (Keeps r) (recv_from_socket _ r) _
          (recv_from_socket-Keeps _ r)
          (λ (ret, power, r') h.
            let r₂ = if is_socket_error ret then manage_server_crash r' else r' in
            let h₂ =
              if_both (Keeps r) (is_socket_error ret) (Keeps-trans r r' _ h (crash-Keeps r')) h in
            after r r₂ _ h₂ (deliver-Keeps power r₂))

    pub recv_from_server-Keeps : (r : Radio p) → Holds (Keeps r) (recv_from_server k r)
    unfolding recv_from_server wait
    recv_from_server-Keeps r =
        let (activity, s, w) = wait p r.scheduler r.net.world in
        let r' : Radio p = record (with_world w r) { scheduler = s } in
        let h : Keeps r r' = waited r in
        if_both (Holds (Keeps r)) (not r.connected_to_server) (Keeps-refl r) (
          if_both (Holds (Keeps r)) (==_ℤ activity scheduler_error) h (
            Holds-all (Keeps r) (node_has_action 0 s) _
              (λ b. if_both (Holds (Keeps r)) b (after r r' _ h (receive-Keeps r')) h)))
