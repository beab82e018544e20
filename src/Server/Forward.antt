-- ===== src/Server/Forward.antt =====
-- ForwardData of vwifi-server.cc ends without a failed assertion, keeps the lists well formed, and
-- waits on the sockets of the clients that stay.
use vwifi.Prelude.{
  ℕ, zero, suc, ◌+◌, ◌≤◌, ◌<◌, ◌≡◌, refl, if_split, if_both, Bool, true, false, Option, none, some,
  List, [], ◌∷◌, arith, ltb, ◌==◌, if◌then◌else◌, count, get_elem?, get_elem?_lt, erase_at, lt→ltb,
  ltb→lt, take,
}
use vwifi.Prelude.Int.{ℤ, pos, pos_part, ltb_ℤ}
use vwifi.Platform.{Platform}
use vwifi.Info.{InfoSocket}
use vwifi.Select.{del_node, descriptor_has_action}
use vwifi.Select.Nodes.{count-del_node}
use vwifi.Select.Maximum.{Watches, del_node-Watches}
use vwifi.Wifi.{recv_signal, get_frequency, default_frequency}
use vwifi.Socket.{DynBuffer}
use vwifi.Wifi.Signal.{recv_signal_total}
use vwifi.WifiServer.{get_number_client, get_socket_client, is_enable}
use vwifi.WifiServer.Registry.{descriptors}
use vwifi.WifiServer.Registry
use vwifi.WifiServer.Closing.{close_client-IsValid}
use vwifi.WifiServer.Effects.{
  send_all_clients-Keeps, send_all_other_clients-Keeps, send_all_other_clients_lossy-Keeps,
}
use vwifi.Server.{
  Relay, remove_client, forward_signal, receive_from, forward_client, forward_loop, forward_data,
}

-- Both servers are well formed, and the scheduler has, as often, the descriptors of their clients
-- and others that `rest` counts;
-- it waits on no descriptor that it has not, and in the strict sense on exactly these.
pub record IsSound {p : Platform} (strict : Bool) (rest : ℕ → ℕ) (r : Relay p) : Type 0 where
  pub src_valid : Registry.IsValid r.src
  pub dst_valid : Registry.IsValid r.other_dst
  pub balanced :
      (d : ℕ)
      → count d r.scheduler.list_nodes
        ≡ count d (descriptors r.src.info_sockets)
          + count d (descriptors r.other_dst.info_sockets)
          + rest d
  pub watched : Watches strict r.scheduler

count-erase_at :
    (d i : ℕ) (ss : List InfoSocket) (s : InfoSocket)
    → get_elem? ss i ≡ some s
    → count d (descriptors (erase_at ss i)) + (if s.descriptor == d then 1 else 0)
      ≡ count d (descriptors ss)
count-erase_at d i [] s e = cc
count-erase_at d zero (x ∷ ss) s e = ground arith
count-erase_at d (suc i) (x ∷ ss) s e = ground (arith, count-erase_at d i ss s e)

-- genlmsg_parse does not fail on a message that RecvSignal gives.
abbrev pub ParsesMessages : Platform → Type 0
ParsesMessages p =
    (d : ℕ) (power : ℤ) (buffer : DynBuffer) (w : p.World) (valread power' : ℤ)
    (buffer' : DynBuffer) (w' : p.World)
    → recv_signal p d power buffer w ≡ some (valread, power', buffer', w')
    → ltb_ℤ (pos 0) valread ≡ true
    → (attr : Option ℕ) × (p.frequency_attr (take (pos_part valread) buffer'.buffer) ≡ some attr)

abbrev pub Ends : {p : Platform} → Bool → (ℕ → ℕ) → Option (Relay p) → Type 0
Ends {p} strict rest x = (r' : Relay p) × (x ≡ some r') × IsSound strict rest r'

module _ {p : Platform} (strict : Bool) (rest : ℕ → ℕ) (parses : ParsesMessages p) where
  abbrev Removes : Relay p → Option (Relay p) → Type 0
  Removes r x =
      (r' : Relay p) × (x ≡ some r')
      × IsSound strict rest r'
      × (get_number_client r'.src + 1 ≡ get_number_client r.src)

  remove_client-IsSound :
      (i : ℕ) (s : InfoSocket) (r : Relay p)
      → IsSound strict rest r
      → i < get_number_client r.src
      → get_elem? r.src.info_sockets i ≡ some s
      → Removes r (remove_client i s.descriptor r)
  unfolding remove_client
  remove_client-IsSound i s r v h e =
      let (src, n, ec, vs, len, ss, ws, _, _) = close_client-IsValid i r.src r.net v.src_valid h in
      (
        record r { src = src; net = n; scheduler = del_node s.descriptor r.scheduler },
        rw (lt→ltb _ _ h, ec) refl,
        record {
          src_valid = vs;
          dst_valid = v.dst_valid;
          balanced = λ d. rw ss (
              omega (
                arith,
                count-del_node d s.descriptor r.scheduler,
                count-erase_at d i r.src.info_sockets s e,
                v.balanced d,
              ));
          watched = del_node-Watches strict s.descriptor r.scheduler v.watched;
        },
        len,
      )

  abbrev Sends : Relay p → Option (Relay p) → Type 0
  Sends r x =
      (r' : Relay p) × (x ≡ some r')
      × IsSound strict rest r'
      × (get_number_client r'.src ≡ get_number_client r.src)

  forward_signal-IsSound :
      (scale : p.Real) (can_lose spy : Bool) (i : ℕ) (power : ℤ) (bytes : List ℕ) (attr : Option ℕ)
      (r : Relay p)
      → IsSound strict rest r
      → i < get_number_client r.src
      → p.frequency_attr bytes ≡ some attr
      → Sends r (forward_signal scale can_lose spy i power bytes r)
  unfolding forward_signal get_frequency
  forward_signal-IsSound scale can_lose true i power bytes attr r v h parsed =
      let (src, n₁, _, e₁, v₁, d₁, l₁, _, _, _) =
        send_all_other_clients-Keeps i power bytes r.src r.net v.src_valid in
      let (dst, n₂, _, e₂, v₂, d₂, _, _, _, _) =
        send_all_clients-Keeps power bytes r.other_dst n₁ v.dst_valid in
      (
        record r { src = src; other_dst = dst; net = n₂ },
        rw (e₁, e₂) refl,
        record {
          src_valid = v₁;
          dst_valid = v₂;
          balanced = λ d. rw (d₁, d₂) (v.balanced d);
          watched = v.watched;
        },
        l₁,
      )
  forward_signal-IsSound scale can_lose false i power bytes attr r v h parsed =
      let (src, n₁, _, e₁, v₁, d₁, l₁, _, _, _) =
        send_all_other_clients_lossy-Keeps scale can_lose i power bytes r.src r.net
          (elim attr [ none ↦ default_frequency | some f ↦ f ]) v.src_valid h (rw parsed refl) in
      let (dst, n₂, _, e₂, v₂, d₂, _, _, _, _) =
        send_all_clients-Keeps power bytes r.other_dst n₁ v.dst_valid in
      (
        record r { src = src; other_dst = dst; net = n₂ },
        rw (e₁, e₂) refl,
        record {
          src_valid = v₁;
          dst_valid = v₂;
          balanced = λ d. rw (d₁, d₂) (v.balanced d);
          watched = v.watched;
        },
        l₁,
      )

  -- A round goes on to the next client, or removes one.
  abbrev Rounds : Relay p → Option (Bool × Relay p) → Type 0
  Rounds r x =
      (advance : Bool) × (r' : Relay p) × (x ≡ some (advance, r'))
      × IsSound strict rest r'
      × (get_number_client r'.src + (if advance then 0 else 1) ≡ get_number_client r.src)

  receive_from-IsSound :
      (scale : p.Real) (can_lose spy : Bool) (i : ℕ) (s : InfoSocket) (r : Relay p)
      → IsSound strict rest r
      → i < get_number_client r.src
      → get_elem? r.src.info_sockets i ≡ some s
      → Rounds r (receive_from scale can_lose spy i s.descriptor r)
  unfolding receive_from
  receive_from-IsSound scale can_lose spy i s r v h e =
      let ((valread, power, buffer, w), er, _) =
        recv_signal_total p s.descriptor (pos 0) r.buffer r.net.world in
      let r₁ : Relay p = record r { buffer = buffer; net = record (r.net) { world = w } } in
      let v₁ : IsSound strict rest r₁ = record {
        src_valid = v.src_valid;
        dst_valid = v.dst_valid;
        balanced = v.balanced;
        watched = v.watched;
      } in
      let bytes = take (pos_part valread) buffer.buffer in
      rw (er, receive_from)
        (if_split (Rounds r) (ltb_ℤ (pos 0) valread)
          (λ more.
            let (attr, parsed) =
              parses s.descriptor (pos 0) r.buffer r.net.world valread power buffer w er more in
            let (r₂, e₂, v₂, l₂) =
              forward_signal-IsSound scale can_lose spy i power bytes attr r₁ v₁ h parsed in
            (true, r₂, rw e₂ refl, v₂, omega arith))
          (λ _.
            let (r₂, e₂, v₂, l₂) = remove_client-IsSound i s r₁ v₁ h e in
            (false, r₂, rw e₂ refl, v₂, omega arith)))

  forward_client-IsSound :
      (scale : p.Real) (can_lose spy : Bool) (i : ℕ) (r : Relay p)
      → IsSound strict rest r
      → i < get_number_client r.src
      → Rounds r (forward_client scale can_lose spy i r)
  unfolding forward_client get_socket_client is_enable
  forward_client-IsSound scale can_lose spy i r v h =
      let (s, e) = get_elem?_lt r.src.info_sockets i h in
      rw e (
        if_both (Rounds r) s.enable
          (if_both (Rounds r) (descriptor_has_action s.descriptor r.scheduler)
            (receive_from-IsSound scale can_lose spy i s r v h e) (true, r, refl, v, omega arith))
          (let (r₂, e₂, v₂, l₂) = remove_client-IsSound i s r v h e in
            (false, r₂, rw e₂ refl, v₂, l₂)))

  forward_loop-Ends :
      (fuel : ℕ) (scale : p.Real) (can_lose spy : Bool) (i : ℕ) (r : Relay p)
      → IsSound strict rest r
      → get_number_client r.src ≤ i + fuel
      → Ends strict rest (forward_loop fuel scale can_lose spy i r)
  unfolding forward_loop
  forward_loop-Ends zero scale can_lose spy i r v h =
      if_split (Ends strict rest) (ltb i (get_number_client r.src))
        (λ more. absurd (omega (arith, ltb→lt i (get_number_client r.src) more)))
        (λ _. (r, refl, v))
  forward_loop-Ends (suc fuel) scale can_lose spy i r v h =
      if_split (Ends strict rest) (ltb i (get_number_client r.src))
        (λ more.
          let (advance, r₁, e₁, v₁, l₁) =
            forward_client-IsSound scale can_lose spy i r v (ltb→lt _ _ more) in
          rw e₁ (
            forward_loop-Ends fuel scale can_lose spy (if advance then suc i else i) r₁ v₁
              (ground arith)))
        (λ _. (r, refl, v))

  -- Where genlmsg_parse does not fail on a message that RecvSignal gives, ForwardData from well-
  -- formed lists ends within as many rounds as there were clients and keeps the lists well formed;
  -- the nodes of the scheduler are the sockets of the clients that stay and the others that it
  -- had, each as often as before. The set that is given to pselect has no other descriptor then;
  -- where before the set had exactly the nodes, each of them once, and the highest descriptor was
  -- the highest of them, this is so then as well.
  pub forward_data-Ends :
      (scale : p.Real) (can_lose spy : Bool) (r : Relay p)
      → IsSound strict rest r
      → Ends strict rest (forward_data scale can_lose spy r)
  unfolding forward_data
  forward_data-Ends scale can_lose spy r v =
      forward_loop-Ends (get_number_client r.src) scale can_lose spy 0 r v (omega arith)
