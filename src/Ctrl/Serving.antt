-- ===== src/Ctrl/Serving.antt =====
-- ReceiveOrder of cctrlserver.cc: an order is served from the acceptance of its connection to the
-- closing.
pub mod Changes
use Changes.{
  edit-IsSound, change_coordinate-SafeAt, send_distance-SafeAt, close_clients_and_spies-SafeAt,
}
use vwifi.Prelude.{
  Bool, ℕ, suc, ◌-◌, ◌≡◌, refl, inl, inr, Option-cases, true, none, some, List, [], ◌∷◌, ◌++◌,
  arith, ltb, length, length-append, length-erase_at, get_elem?, get_elem?_lt, erase_at,
}
use vwifi.Prelude.Bytes.{of_le}
use vwifi.Platform.{Platform, Net}
use vwifi.Info.{InfoSocket, close_socket, set_descriptor, max_size_name, tcid_guest_min}
use vwifi.Socket.{read, write_at}
use vwifi.Server.{Server}
use vwifi.Server.Sound.{IsSound, Continues}
use vwifi.Ctrl.Orders.{Order, order_of}
use vwifi.Ctrl.{
  Handler, ◌>>=◌, checked, ctrl_client, ctrl_read, ctrl_read_over, c_string, change_coordinate,
  change_name, handle, get_order, close_ctrl_client, serve_order, receive_order,
}
use vwifi.Ctrl.Safety
use vwifi.Ctrl.Edits.{rename-Edits}

module _ {p : Platform} where
  pub ctrl_client_lem :
      (socket : InfoSocket) (s : Server p)
      → get_elem? s.ctrl_sockets 0 ≡ some socket
      → ctrl_client s ≡ some (some socket.descriptor, s)
  unfolding ctrl_client ◌>>=◌
  ctrl_client_lem socket s e = rw (e, checked)

  ctrl_read-none :
      (size : ℕ) (socket : InfoSocket) (s : Server p)
      → get_elem? s.ctrl_sockets 0 ≡ some socket
      → (read p socket.descriptor size s.net.world).0 ≡ none
      → ctrl_read size s
        ≡ some (
          none,
          record s {
            net = record (s.net) { world = (read p socket.descriptor size s.net.world).1 };
          },
        )
  unfolding ctrl_read ◌>>=◌
  ctrl_read-none size socket s e er = rw (ctrl_client_lem socket s e, er, ◌>>=◌) refl

  pub ctrl_read-some :
      (size : ℕ) (socket : InfoSocket) (s : Server p) (bs : List ℕ)
      → get_elem? s.ctrl_sockets 0 ≡ some socket
      → (read p socket.descriptor size s.net.world).0 ≡ some bs
      → ctrl_read size s
        ≡ some (
          some (write_at 0 bs (p.uninit size s.net.world)),
          record s {
            net = record (s.net) { world = (read p socket.descriptor size s.net.world).1 };
          },
        )
  unfolding ctrl_read ◌>>=◌
  ctrl_read-some size socket s bs e er = rw (ctrl_client_lem socket s e, er, ◌>>=◌) refl

  pub ctrl_read_over-some :
      (old : List ℕ) (socket : InfoSocket) (s : Server p) (bs : List ℕ)
      → get_elem? s.ctrl_sockets 0 ≡ some socket
      → (read p socket.descriptor (length old) s.net.world).0 ≡ some bs
      → ctrl_read_over old s
        ≡ some (
          some (write_at 0 bs old),
          record s {
            net = record (s.net) { world = (read p socket.descriptor (length old) s.net.world).1 };
          },
        )
  unfolding ctrl_read_over ◌>>=◌
  ctrl_read_over-some old socket s bs e er = rw (ctrl_client_lem socket s e, er, ◌>>=◌) refl

-- The bytes of a name that a client of the control server sends have a zero among them.
abbrev pub TerminatesNames : Platform → Type 0
TerminatesNames p =
    (d : ℕ) (w : p.World) (bs : List ℕ)
    → (read p d 13 w).0 ≡ some bs
    → (cs : List ℕ) × (c_string (write_at 0 bs (p.uninit 13 w)) ≡ some cs)

module _ {p : Platform} {strict : Bool} (names : TerminatesNames p) where
  read_name-SafeAt :
      {B : Type 0} (f : List ℕ → Handler p B) (s : Server p)
      → IsSound strict 1 s
      → ((bytes cs : List ℕ) (s' : Server p)
          → c_string bytes ≡ some cs
          → IsSound strict 1 s'
          → Safety.SafeAt strict (f bytes) s')
      → Safety.SafeAt strict (ctrl_read (suc max_size_name) >>= f) s
  unfolding ◌>>=◌
  read_name-SafeAt f s v next =
      let (socket, e) = get_elem?_lt s.ctrl_sockets 0 (omega (arith, v.orders)) in
      let n : Net p = record (s.net) { world = (read p socket.descriptor 13 s.net.world).1 } in
      let s' : Server p = record s { net = n } in
      elim (Option-cases (read p socket.descriptor 13 s.net.world).0) [
        | inl none_read ↦ (
          none,
          s',
          rw (ctrl_read-none 13 socket s e none_read, ◌>>=◌) refl,
          Safety.IsSound-net s n v,
        )
        | inr (bs, some_read) ↦
            let (cs, terminated) = names socket.descriptor s.net.world bs some_read in
            let (r, s₂, e₂, v₂) =
              next (write_at 0 bs (p.uninit 13 s.net.world)) cs s' terminated
                (Safety.IsSound-net s n v) in
            (r, s₂, rw (ctrl_read-some 13 socket s bs e some_read, ◌>>=◌) e₂, v₂)
      ]

  change_name-SafeAt : (s : Server p) → IsSound strict 1 s → Safety.SafeAt strict change_name s
  unfolding change_name
  change_name-SafeAt s v =
      Safety.bind-SafeAt _ _ s (Safety.ctrl_read-SafeAt 4 s v) λ cid_bytes s₁ v₁.
        Safety.bind-SafeAt _ _ s₁ (Safety.ctrl_read-SafeAt 4 s₁ v₁) λ size_name s₂ v₂.
          read_name-SafeAt _ s₂ v₂ λ bytes cs s₃ terminated v₃. Safety.get-SafeAt _ s₃ (
            Safety.unless-SafeAt (ltb (of_le cid_bytes) tcid_guest_min) _ s₃ v₃ λ _.
              let (ec, es) =
                rename-Edits (of_le cid_bytes) cs s₃.clients s₃.spies v₃.clients_valid
                  v₃.spies_valid in
              Safety.checked-SafeAt _ _ s₃ terminated
                (some tt, _, refl, edit-IsSound s₃ _ _ v₃ ec es))

  -- Every order, known or not, ends without a failed assertion and keeps the invariant.
  handle-SafeAt :
      (order : Order) (s : Server p) → IsSound strict 1 s → Safety.SafeAt strict (handle order) s
  unfolding handle
  handle-SafeAt Order.no s v = (some tt, s, refl, v)
  handle-SafeAt Order.list s v = Safety.send_list-SafeAt s v
  handle-SafeAt Order.show s v = Safety.send_show-SafeAt s v
  handle-SafeAt Order.change_coordinate s v = change_coordinate-SafeAt s v
  handle-SafeAt Order.set_name s v = change_name-SafeAt s v
  handle-SafeAt Order.packet_loss s v = Safety.change_packet_loss-SafeAt s v
  handle-SafeAt Order.status s v = Safety.send_status-SafeAt s v
  handle-SafeAt Order.distance_between_cid s v = send_distance-SafeAt s v
  handle-SafeAt Order.set_scale s v = Safety.change_scale-SafeAt s v
  handle-SafeAt Order.close_all_client s v = close_clients_and_spies-SafeAt s v
  handle-SafeAt Order.other s v = (some tt, s, refl, v)

  get_order-IsSound :
      (s : Server p)
      → IsSound strict 1 s
      → (order : Order) × (s' : Server p) × (get_order s ≡ some (order, s')) × IsSound strict 1 s'
  unfolding get_order
  get_order-IsSound s v =
      let (r, s', e, v') = Safety.ctrl_read-SafeAt 4 s v in
      elim (Option-cases r) [
        | inl n ↦ (Order.no, s', rw (v.orders, e, n) refl, v')
        | inr (bytes, b) ↦ (order_of (of_le bytes), s', rw (v.orders, e, b) refl, v')
      ]

  close_ctrl_client-IsSound :
      (s : Server p)
      → IsSound strict 1 s
      → (s' : Server p) × (close_ctrl_client s ≡ some (some tt, s')) × IsSound strict 0 s'
  unfolding close_ctrl_client ◌>>=◌
  close_ctrl_client-IsSound s v =
      let (socket, e) = get_elem?_lt s.ctrl_sockets 0 (omega (arith, v.orders)) in
      (
        record s { ctrl_sockets = erase_at s.ctrl_sockets 0; net = (close_socket socket s.net).1 },
        rw (e, checked) refl,
        record {
          clients_valid = v.clients_valid;
          spies_valid = v.spies_valid;
          orders =
              omega (arith, v.orders, length-erase_at s.ctrl_sockets 0 (omega (arith, v.orders)));
          balanced = v.balanced;
          watched = v.watched;
        },
      )

  serve_order-IsSound : (s : Server p) → IsSound strict 1 s → Continues strict 0 (serve_order s)
  unfolding serve_order
  serve_order-IsSound s v =
      let (order, s₁, e₁, v₁) = get_order-IsSound s v in
      let (r, s₂, e₂, v₂) = handle-SafeAt order s₁ v₁ in
      let (s₃, e₃, v₃) = close_ctrl_client-IsSound s₂ v₂ in
      (s₃, rw (e₁, e₂, e₃, serve_order) refl, v₃)

  -- Where names come with a zero, ReceiveOrder on a server in its invariant ends without a failed
  -- assertion whatever order is sent; then the lists of clients and spies are well formed, the
  -- nodes of the scheduler are, each as often as it stands there, exactly their sockets and the
  -- listening ones, and the connection to the control server is gone. The set that is given to
  -- pselect has no other descriptor then; where before the set had exactly the nodes, each of them
  -- once, and the highest descriptor was the highest of them, this is so then as well.
  pub receive_order-IsSound :
      (s : Server p) → IsSound strict 0 s → Continues strict 0 (receive_order s)
  unfolding receive_order set_descriptor
  receive_order-IsSound s v =
      let n : Net p = record (s.net) { world = (p.accept_inet s.endpoints.ctrl s.net.world).1 } in
      elim (Option-cases (p.accept_inet s.endpoints.ctrl s.net.world).0) [
        | inl e ↦ (
          record s { net = n },
          rw (e, receive_order) refl,
          record {
            clients_valid = v.clients_valid;
            spies_valid = v.spies_valid;
            orders = v.orders;
            balanced = v.balanced;
            watched = v.watched;
          },
        )
        | inr ((d, from), e) ↦
            let socket : InfoSocket = record { descriptor = d; enable = true } in
            rw (e, receive_order)
              (serve_order-IsSound
                (record s { net = n; ctrl_sockets = s.ctrl_sockets ++ socket ∷ [] })
                (record {
                  clients_valid = v.clients_valid;
                  spies_valid = v.spies_valid;
                  orders = omega (arith, v.orders, length-append s.ctrl_sockets (socket ∷ []));
                  balanced = v.balanced;
                  watched = v.watched;
                }))
      ]
