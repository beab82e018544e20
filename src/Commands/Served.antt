-- ===== src/Commands/Served.antt =====
-- An order from vwifi-ctrl.cc to what it does in cctrlserver.cc.
use vwifi.Prelude.{
  ℕ, ◌≡◌, refl, ap, ◌∙◌, true, none, some, List, [], ◌++◌, ◌==◌, length, arith, get_elem?,
}
use vwifi.Prelude.Bytes.{le, of_le, length-le}
use vwifi.Platform.{Platform, IsDocumented, Net, Call}
use vwifi.Info.{InfoSocket}
use vwifi.Socket.Sent.{bytes_sent, TakesAll}
use vwifi.Server.{Server}
use vwifi.Ctrl.Orders.{Order, order_of}
use vwifi.Ctrl.{handle, get_order, serve_order, state_of, u32_bytes}
use vwifi.CtrlClient.{code}
use vwifi.Commands.{
  Command, place_at, name_as, lose_packets, scale_to, close_all, IsCarried, ask, order, word_bytes,
  command_bytes, obey, hang_up,
}
use vwifi.Commands.Said.{ask-Asks}
use vwifi.Commands.Obeyed.{
  Arrives, at, ctrl_read-Hears, change_coordinate-Obeys, change_name-Obeys,
  change_packet_loss-Obeys, change_scale-Obeys,
}

-- The calls that vwifi-ctrl has made when it is through with an order.
abbrev pub calls_of_order : {q : Platform} → ℕ → Command q → Net q → List Call
calls_of_order d c n = elim (ask d c n) [ none ↦ [] | some (r, n') ↦ n'.calls ]

order_lem : {q : Platform} (c : Command q) → order_of (of_le (u32_bytes (code (order c)))) ≡ order c
unfolding order_of of_le le
order_lem (place_at cid coo) = refl
order_lem (name_as cid word) = refl
order_lem (lose_packets b) = refl
order_lem (scale_to scale) = refl
order_lem close_all = refl

module _ {p : Platform} (known : IsDocumented p) (socket : InfoSocket) (stream : p.World → List ℕ)
    (net : Arrives p socket.descriptor stream) where
  handle-Obeys :
      (q : Platform) (c : Command q) (s : Server p)
      → get_elem? s.ctrl_sockets 0 ≡ some socket
      → IsCarried c
      → stream s.net.world ≡ word_bytes c
      → (w : p.World) × (state_of (handle (order c) s) ≡ obey c (at w s))
  unfolding handle obey
  handle-Obeys q (place_at cid coo) s e h there =
      change_coordinate-Obeys known socket stream net q cid coo s e h there
  handle-Obeys q (name_as cid word) s e h there =
      change_name-Obeys known socket stream net q cid word s e h there
  handle-Obeys q (lose_packets b) s e h there =
      change_packet_loss-Obeys known socket stream net q b s e there
  handle-Obeys q (scale_to scale) s e h there =
      change_scale-Obeys known socket stream net q scale s e h there
  handle-Obeys q close_all s e h there = (s.net.world, refl)

  get_order-Hears :
      (q : Platform) (c : Command q) (s : Server p)
      → length s.ctrl_sockets ≡ 1
      → get_elem? s.ctrl_sockets 0 ≡ some socket
      → stream s.net.world ≡ command_bytes c
      → (w : p.World) × (get_order s ≡ some (order c, at w s)) × (stream w ≡ word_bytes c)
  unfolding get_order
  get_order-Hears q c s one e there =
      let bytes = u32_bytes (code (order c)) in
      let (w, e', t) =
        ctrl_read-Hears known socket stream net 4 bytes (word_bytes c) s e
          (length-le 4 (code (order c))) (omega arith) there in
      let alone : (length s.ctrl_sockets == 1) ≡ true = ground (arith, one) in
      (w, rw (alone, e') (ap (λ (o : Order). some (o, at w s)) (order_lem c)), t)

  pub serve_order-Obeys :
      (q : Platform) (c : Command q) (s : Server p)
      → length s.ctrl_sockets ≡ 1
      → get_elem? s.ctrl_sockets 0 ≡ some socket
      → IsCarried c
      → stream s.net.world ≡ command_bytes c
      → (w : p.World) × (serve_order s ≡ hang_up (obey c (at w s)))
  unfolding serve_order
  serve_order-Obeys q c s one e h there =
      let (w₁, e₁, t₁) = get_order-Hears q c s one e there in
      let (w₂, e₂) = handle-Obeys q c (at w₁ s) e h t₁ in (w₂, rw (e₁, serve_order, e₂) refl)

  -- For an order of vwifi-ctrl that places or names a client, sets the loss of packets or the
  -- scale or closes all clients, with words that fit their variables, sent over a descriptor that
  -- takes all bytes: vwifi-ctrl ends well, and a server with the one control connection over which
  -- exactly the bytes sent arrive, where recv gives of what is left as much as it is asked for,
  -- does to its state just what the order stands for, of a name at most its first 12 bytes, and
  -- closes the connection.
  pub serve_order-ask :
      {q : Platform} (d : ℕ) (c : Command q) (n : Net q) (s : Server p)
      → TakesAll q d
      → n.calls ≡ []
      → length s.ctrl_sockets ≡ 1
      → get_elem? s.ctrl_sockets 0 ≡ some socket
      → IsCarried c
      → stream s.net.world ≡ bytes_sent d (calls_of_order d c n)
      → ((n' : Net q) × (ask d c n ≡ some (some tt, n')))
        × ((w : p.World) × (serve_order s ≡ hang_up (obey c (at w s))))
  serve_order-ask {q} d c n s takes fresh one e h there =
      let (n', e', b) = ask-Asks d takes c n in
      let calls : calls_of_order d c n ≡ n'.calls = rw (e', calls_of_order) refl in
      let first : bytes_sent d n.calls ≡ [] = ap (bytes_sent d) fresh in
      (
        (n', e'),
        serve_order-Obeys q c s one e h (
            there
            ∙ (ap (bytes_sent d) calls ∙ (b ∙ ap (λ (bs : List ℕ). bs ++ command_bytes c) first))),
      )
