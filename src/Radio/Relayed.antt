-- ===== src/Radio/Relayed.antt =====
-- What a frame of the driver leads to: process_messages of ckernelwifi.cc.
use vwifi.Prelude.{
  ℕ, ◌+◌, ◌≡◌, refl, ap, ◌∙◌, inl, inr, Bool-cases, Bool, true, false, some, ◌>>=◌, List, ◌∷◌, ◌++◌,
  arith, take, if◌then◌else◌, append_assoc,
}
use vwifi.Prelude.Int.{ℤ, pos, negsuc}
use vwifi.Prelude.Bytes.{of_le, pattern_of}
use vwifi.Platform.{Platform}
use vwifi.WifiServer.Sending.{Answers, signal_calls, send_signal_answer}
use vwifi.Devices.{list_devices}
use vwifi.Client.{SocketClient}
use vwifi.Kernel.{
  Kernel, Attribute, Message, tx_info_frame, attr_addr_transmitter, attr_frame, attr_flags,
  attr_tx_info, attr_cookie,
}
use vwifi.Radio.{
  Radio, eth_alen, hwsim_cmd_frame, with_ack, bytes_at, nlmsg_len, nlmsg_type, cmd,
  manage_server_crash, send_to_server, build_and_send, send_tx_info_frame_nl, clone_to_others,
}
use vwifi.Radio.Forwarding.{
  frequency_of, power_of_source, with_source, forward_frame, relay_frame, process_messages,
}
use vwifi.Radio.Requests.{
  Builds, others, clones, for_family, build_and_send-Asks, clone_to_others-Asks,
}

-- A message of the driver's family that carries a frame, with the attributes that are followed.
pub record IsFrame {p : Platform} (k : Kernel p) (f : ℕ) (msg : List ℕ) : Type 0 where
  pub of_family : nlmsg_type msg ≡ f
  pub of_frame : cmd msg ≡ hwsim_cmd_frame
  pub transmitter : Attribute
  pub flags : Attribute
  pub tx_info : Attribute
  pub cookie : Attribute
  pub frame : Attribute
  pub has_transmitter : k.parse msg attr_addr_transmitter ≡ some transmitter
  pub has_flags : k.parse msg attr_flags ≡ some flags
  pub has_tx_info : k.parse msg attr_tx_info ≡ some tx_info
  pub has_cookie : k.parse msg attr_cookie ≡ some cookie
  pub has_frame : k.parse msg attr_frame ≡ some frame

module _ {p : Platform} {k : Kernel p} {f : ℕ} {msg : List ℕ} (h : IsFrame k f msg) where
  abbrev pub src : List ℕ
  src = bytes_at h.transmitter.offset eth_alen msg

  abbrev pub framesrc : List ℕ
  framesrc = bytes_at (h.frame.offset + 10) eth_alen msg

  abbrev pub ack : Message
  ack =
      tx_info_frame src (with_ack (of_le (bytes_at h.flags.offset 4 msg)))
        (pattern_of 32 (negsuc 9)) (bytes_at h.tx_info.offset 8 msg)
        (bytes_at h.cookie.offset 8 msg)

  abbrev pub msg_out : List ℕ
  msg_out = with_source framesrc src msg

  -- What a frame of the driver leads to over descriptor `d`.
  pub record Relays (up : ℕ → Bool) (d : ℕ) (r r' : Radio p) : Type 0 where
    pub requests :
        r'.requests
        ≡ r.requests
          ++ for_family (pos f) (
              ack
              ∷ clones
                  (bytes_at h.frame.offset h.frame.size msg_out)
                  (power_of_source framesrc r)
                  (frequency_of k msg msg_out)
                  (others src (list_devices r.list_winterfaces)))
    pub calls :
        r'.net.calls
        ≡ r.net.calls
          ++ signal_calls up (power_of_source framesrc r) (take (nlmsg_len msg) msg_out) d
    pub connected : r'.connected_to_server ≡ up d

both_true : (a b : Bool) → b ≡ true → (if a then b else false) ≡ a
both_true true b h = h
both_true false b h = refl

module _ {p : Platform} (up : ℕ → Bool) (net : Answers p up) (d : ℕ) where
  -- The server's part of a frame.
  record Forwards (power : ℤ) (bytes : List ℕ) (r r' : Radio p) : Type 0 where
    calls : r'.net.calls ≡ r.net.calls ++ signal_calls up power bytes d
    connected : r'.connected_to_server ≡ (if up d then r.connected_to_server else false)
    requests : r'.requests ≡ r.requests
    family : r'.family_id ≡ r.family_id

  forward_frame-Forwards :
      (power : ℤ) (bytes : List ℕ) (r : Radio p)
      → r.client.master ≡ pos d
      → Forwards power bytes r (forward_frame power bytes r)
  unfolding forward_frame send_to_server manage_server_crash
  forward_frame-Forwards power bytes r e =
      let (n, e', c) = send_signal_answer {p = p} up net d power bytes r.net in
      elim (Bool-cases (up d)) [
        | inl on ↦ ground (arith, e, e', c, on)
        | inr off ↦ ground (arith, e, e', c, off)
      ]

  module _ (k : Kernel p) (builds : Builds p k) (f : ℕ) where
    passes_guards :
        (msg : List ℕ) (r : Radio p) (h : IsFrame k f msg)
        → r.connected_to_server ≡ true
        → r.family_id ≡ pos f
        → process_messages k msg r ≡ (relay_frame k h.transmitter msg r >>= λ r'. some (0, r'))
    unfolding process_messages
    passes_guards msg r h on fam =
        ground (arith, on, fam, h.of_family, h.of_frame, h.has_transmitter)

    -- Where the driver's messages can be built and a descriptor takes all that is sent to it or
    -- nothing, process_messages on a connected client and a message of its family that is a frame
    -- with its attributes succeeds: it asks the driver for one acknowledgement and then, in the
    -- order of their indices, for one copy of the frame to each radio whose address is not the
    -- transmitter's, all at the power of the frame's source; it sends the server this power and
    -- the message with the frame's source in it, and stays connected exactly if the server can be
    -- reached.
    pub process_messages-Relays :
        (msg : List ℕ) (r : Radio p) (h : IsFrame k f msg)
        → r.connected_to_server ≡ true
        → r.family_id ≡ pos f
        → r.client.master ≡ pos d
        → (r' : Radio p) × (process_messages k msg r ≡ some (0, r')) × Relays h up d r r'
    unfolding relay_frame send_tx_info_frame_nl
    process_messages-Relays msg r h on fam m =
        let acked = (build_and_send k (ack h) r).1 in
        let a = build_and_send-Asks k builds f (ack h) r fam in
        let power = power_of_source (framesrc h) r in
        let bytes = take (nlmsg_len msg) (msg_out h) in
        let b =
          forward_frame-Forwards power bytes acked
            (ap (λ (c : SocketClient). c.master) a.client ∙ m) in
        let radios = others (src h) (list_devices r.list_winterfaces) in
        let frame = bytes_at h.frame.offset h.frame.size (msg_out h) in
        let r₃ = forward_frame power bytes acked in
        let c =
          clone_to_others-Asks k builds f (src h) frame power (frequency_of k msg (msg_out h))
            (list_devices r.list_winterfaces) r₃ (b.family ∙ a.family) in
        (
          clone_to_others k (src h) frame power (frequency_of k msg (msg_out h))
              (list_devices r.list_winterfaces) r₃,
          passes_guards msg r h on fam ∙ rw (h.has_flags, h.has_tx_info, h.has_cookie, h.has_frame),
          record {
            requests =
                c.requests
                ∙ ap
                    (λ q.
                      q
                      ++ for_family (pos f)
                          (clones frame power (frequency_of k msg (msg_out h)) radios))
                    (b.requests ∙ a.requests)
                ∙ append_assoc r.requests _ _;
            calls = c.calls ∙ b.calls ∙ ap (λ q. q ++ signal_calls up power bytes d) a.calls;
            connected =
                c.connected
                ∙ b.connected
                ∙ both_true (up d) acked.connected_to_server (a.connected ∙ on);
          },
        )
