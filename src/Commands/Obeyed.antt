-- ===== src/Commands/Obeyed.antt =====
-- What becomes of the server of cctrlserver.cc when an order of vwifi-ctrl.cc reaches it.
use vwifi.Prelude.{
  ℕ, zero, suc, ◌≤◌, ◌<◌, ◌≡◌, refl, ap, sym, ◌∙◌, inl, inr, Bool, Bool-cases, true, false,
  Option-cases, some, List, [], ◌∷◌, ◌++◌, ltb, ◌==◌, if◌then◌else◌, length, length-append,
  length-take, take, drop, arith, append-nil, get_elem?, All,
}
use vwifi.Prelude.Slices.{take-append, drop-append, take_short}
use vwifi.Prelude.Int.{pos}
use vwifi.Prelude.Bytes.{le, of_le, length-le, of_le-le, pattern_of}
use vwifi.Platform.{Platform, IsDocumented}
use vwifi.Info.{Coordinate, InfoSocket, tcid_guest_min, max_size_name}
use vwifi.Socket.{read, write_at}
use vwifi.Server.{Server}
use vwifi.Ctrl.{
  Handler, ◌>>=◌, return_early, checked, get_state, put_state, ctrl_read, c_string, place, rename,
  zero_coordinate, ctrl_read_over, change_coordinate, change_name, change_packet_loss, change_scale,
  state_of, u32_bytes, s32_bytes, coordinate_bytes,
}
use vwifi.Ctrl.Serving.{ctrl_read_over-some, ctrl_read-some}
use vwifi.CtrlClient.Bytes.{
  NonZero, name_buffer, coordinate_of-coordinate_bytes, length-coordinate_bytes, write_all,
}
use vwifi.Commands.{place_at, name_as, lose_packets, scale_to, IsCarried, word_bytes, obey}

-- All bytes have come over a connection: `recv` gives what is left of them, as far as it is asked.
abbrev pub Arrives : (p : Platform) → ℕ → (p.World → List ℕ) → Type 0
Arrives p c stream =
    (n : ℕ) (w : p.World)
    → ((p.recv c n w).0 ≡ some (take n (stream w))) × (stream (p.recv c n w).1 ≡ drop n (stream w))

abbrev pub at : {p : Platform} → p.World → Server p → Server p
at w s = record s { net = record (s.net) { world = w } }

flag_lem :
    (b : Bool) → (if of_le (s32_bytes (pos (if b then 1 else 0))) == 0 then false else true) ≡ b
unfolding of_le le pattern_of
flag_lem true = refl
flag_lem false = refl

All-take : (n : ℕ) (bs : List ℕ) → All NonZero bs → All NonZero (take n bs)
All-take zero bs h = tt
All-take (suc n) [] h = tt
All-take (suc n) (b ∷ bs) (h, hs) = (h, All-take n bs hs)

module _ {p : Platform} where
  pub bind_at :
      {A B : Type 0} (m : Handler p A) (f : A → Handler p B) (s s' : Server p) (a : A)
      → m s ≡ some (some a, s')
      → (m >>= f) s ≡ f a s'
  unfolding ◌>>=◌
  bind_at m f s s' a e = rw (e, ◌>>=◌) refl

  placed :
      (q : Platform) (cid : ℕ) (coo : Coordinate) (s : Server p)
      → state_of (
          (get_state >>= λ t.
          if ltb cid tcid_guest_min
          then return_early
          else (checked (place cid coo t.clients) >>= λ clients.
              put_state (record t { clients = clients })))
            s)
        ≡ obey {q = q} (place_at cid coo) s
  unfolding ◌>>=◌ obey
  placed q cid coo s = elim (Bool-cases (ltb cid tcid_guest_min)) [
    | inl t ↦ rw t refl
    | inr f ↦ rw f (elim (Option-cases (place cid coo s.clients)) [
      | inl e ↦ rw (e, checked) refl
      | inr (clients, e) ↦ rw (e, checked) refl
    ])
  ]

  renamed :
      (q : Platform) (cid : ℕ) (buffer word : List ℕ) (s : Server p)
      → c_string buffer ≡ some (take max_size_name word)
      → state_of (
          (get_state >>= λ t.
          if ltb cid tcid_guest_min
          then return_early
          else (checked (c_string buffer) >>= λ name.
              let (clients, spies) = rename cid name t.clients t.spies in
              put_state (record t { clients = clients; spies = spies })))
            s)
        ≡ obey {q = q} (name_as cid word) s
  unfolding ◌>>=◌ obey
  renamed q cid buffer word s e = elim (Bool-cases (ltb cid tcid_guest_min)) [
    | inl t ↦ rw t refl
    | inr f ↦ rw (f, e, checked) refl
  ]

  module _ (known : IsDocumented p) (socket : InfoSocket) (stream : p.World → List ℕ)
      (net : Arrives p socket.descriptor stream) where
    recv-Arrives :
        (size : ℕ) (bytes rest : List ℕ) (w : p.World)
        → stream w ≡ bytes ++ rest
        → 0 < length bytes
        → take size (bytes ++ rest) ≡ bytes
        → ((read p socket.descriptor size w).0 ≡ some bytes)
    unfolding read
    recv-Arrives size [] rest w e h t = elim h [ ]
    recv-Arrives size (b ∷ bytes) rest w e h t =
        let given : (p.recv socket.descriptor size w).0 ≡ some (b ∷ bytes) =
          (net size w).0 ∙ ap some (ap (take size) e ∙ t) in
        rw (given, read) refl

    recv-rest :
        (size : ℕ) (w : p.World) → stream (read p socket.descriptor size w).1 ≡ drop size (stream w)
    unfolding read
    recv-rest size w = (net size w).1

    -- A read of a variable that its bytes fill.
    pub ctrl_read-Hears :
        (size : ℕ) (bytes rest : List ℕ) (s : Server p)
        → get_elem? s.ctrl_sockets 0 ≡ some socket
        → length bytes ≡ size
        → 0 < size
        → stream s.net.world ≡ bytes ++ rest
        → (w : p.World) × (ctrl_read size s ≡ some (some bytes, at w s)) × (stream w ≡ rest)
    ctrl_read-Hears size bytes rest s e k h there =
        let w = (read p socket.descriptor size s.net.world).1 in
        let given =
          recv-Arrives size bytes rest s.net.world there (omega (arith, k, h))
            (take-append size bytes rest k) in
        (
          w,
          ctrl_read-some size socket s bytes e given
              ∙ ap (λ (bs : List ℕ). some (some bs, at w s))
                  (write_all bytes (p.uninit size s.net.world)
                    (known.uninit_size size s.net.world ∙ sym k)),
          recv-rest size s.net.world ∙ (ap (drop size) there ∙ drop-append size bytes rest k),
        )

    -- A read over a variable that its bytes fill.
    ctrl_read_over-Hears :
        (old bytes rest : List ℕ) (s : Server p)
        → get_elem? s.ctrl_sockets 0 ≡ some socket
        → length bytes ≡ length old
        → 0 < length old
        → stream s.net.world ≡ bytes ++ rest
        → (w : p.World) × (ctrl_read_over old s ≡ some (some bytes, at w s)) × (stream w ≡ rest)
    ctrl_read_over-Hears old bytes rest s e k h there =
        let size = length old in
        let w = (read p socket.descriptor size s.net.world).1 in
        let given =
          recv-Arrives size bytes rest s.net.world there (omega (arith, k, h))
            (take-append size bytes rest k) in
        (
          w,
          ctrl_read_over-some old socket s bytes e given
              ∙ ap (λ (bs : List ℕ). some (some bs, at w s)) (write_all bytes old (sym k)),
          recv-rest size s.net.world ∙ (ap (drop size) there ∙ drop-append size bytes rest k),
        )

    -- A read of more than there is: the bytes stand at the front of the variable.
    ctrl_read_short-Hears :
        (size : ℕ) (bytes : List ℕ) (s : Server p)
        → get_elem? s.ctrl_sockets 0 ≡ some socket
        → length bytes ≤ size
        → 0 < length bytes
        → stream s.net.world ≡ bytes
        → (w : p.World) × (ctrl_read size s
            ≡ some (some (write_at 0 bytes (p.uninit size s.net.world)), at w s))
    ctrl_read_short-Hears size bytes s e k h there =
        let given =
          recv-Arrives size bytes [] s.net.world (there ∙ sym (append-nil bytes)) h
            (ap (take size) (append-nil bytes) ∙ take_short size bytes k) in
        ((read p socket.descriptor size s.net.world).1, ctrl_read-some size socket s bytes e given)

    pub change_coordinate-Obeys :
        (q : Platform) (cid : ℕ) (coo : Coordinate) (s : Server p)
        → get_elem? s.ctrl_sockets 0 ≡ some socket
        → IsCarried {q = q} (place_at cid coo)
        → stream s.net.world ≡ word_bytes {q = q} (place_at cid coo)
        → (w : p.World) × (state_of (change_coordinate s)
            ≡ obey {q = q} (place_at cid coo) (at w s))
    unfolding change_coordinate
    change_coordinate-Obeys q cid coo s e (hc, hx, hy, hz) there =
        let (w₁, e₁, t₁) =
          ctrl_read-Hears 4 (u32_bytes cid) (coordinate_bytes coo) s e (length-le 4 cid)
            (omega arith) there in
        let (w₂, e₂, t₂) =
          ctrl_read_over-Hears zero_coordinate (coordinate_bytes coo) [] (at w₁ s) e
            (length-coordinate_bytes coo) (omega arith)
            (t₁ ∙ sym (append-nil (coordinate_bytes coo))) in
        (
          w₂,
          ap state_of (bind_at _ _ s (at w₁ s) _ e₁ ∙ bind_at _ _ (at w₁ s) (at w₂ s) _ e₂)
              ∙ rw (of_le-le 4 cid hc, coordinate_of-coordinate_bytes coo hx hy hz)
                  (placed q cid coo (at w₂ s)),
        )

    pub change_name-Obeys :
        (q : Platform) (cid : ℕ) (word : List ℕ) (s : Server p)
        → get_elem? s.ctrl_sockets 0 ≡ some socket
        → IsCarried {q = q} (name_as cid word)
        → stream s.net.world ≡ word_bytes {q = q} (name_as cid word)
        → (w : p.World) × (state_of (change_name s) ≡ obey {q = q} (name_as cid word) (at w s))
    unfolding change_name
    change_name-Obeys q cid word s e (hc, hn) there =
        let name = take max_size_name word in
        let size = s32_bytes (pos (length name)) in
        let short : length name ≤ 12 = omega (arith, length-take max_size_name word) in
        let (w₁, e₁, t₁) =
          ctrl_read-Hears 4 (u32_bytes cid) (size ++ (name ++ 0 ∷ [])) s e (length-le 4 cid)
            (omega arith) there in
        let (w₂, e₂, t₂) =
          ctrl_read-Hears 4 size (name ++ 0 ∷ []) (at w₁ s) e
            (length-le 4 (pattern_of 32 (pos (length name)))) (omega arith) t₁ in
        let (w₃, e₃) =
          ctrl_read_short-Hears 13 (name ++ 0 ∷ []) (at w₂ s) e
            (omega (arith, length-append name (0 ∷ []), short))
            (omega (arith, length-append name (0 ∷ []))) t₂ in
        let buffer = write_at 0 (name ++ 0 ∷ []) (p.uninit 13 w₂) in
        (
          w₃,
          ap state_of (
                bind_at _ _ s (at w₁ s) _ e₁
                ∙ (bind_at _ _ (at w₁ s) (at w₂ s) _ e₂ ∙ bind_at _ _ (at w₂ s) (at w₃ s) _ e₃))
              ∙ rw (of_le-le 4 cid hc) (
                  renamed q cid buffer word (at w₃ s)
                    (name_buffer name (p.uninit 13 w₂) (All-take max_size_name word hn))),
        )

    pub change_packet_loss-Obeys :
        (q : Platform) (b : Bool) (s : Server p)
        → get_elem? s.ctrl_sockets 0 ≡ some socket
        → stream s.net.world ≡ word_bytes {q = q} (lose_packets b)
        → (w : p.World) × (state_of (change_packet_loss s) ≡ obey {q = q} (lose_packets b) (at w s))
    unfolding change_packet_loss obey ◌>>=◌
    change_packet_loss-Obeys q b s e there =
        let bytes = s32_bytes (pos (if b then 1 else 0)) in
        let (w, e', t) =
          ctrl_read-Hears 4 bytes [] s e (length-le 4 (pattern_of 32 (pos (if b then 1 else 0))))
            (omega arith) (there ∙ sym (append-nil bytes)) in
        let after : Bool → Server p = λ (x : Bool). record (at w s) { can_lost_packets = x } in
        let step : change_packet_loss s
            ≡ some (some tt, after (if of_le bytes == 0 then false else true)) =
          rw (e', ◌>>=◌) refl in
        (w, ap state_of step ∙ ap (λ (x : Bool). some (after x)) (flag_lem b))

    pub change_scale-Obeys :
        (q : Platform) (scale : q.Real) (s : Server p)
        → get_elem? s.ctrl_sockets 0 ≡ some socket
        → length (q.to_bytes scale) ≡ 8
        → stream s.net.world ≡ q.to_bytes scale
        → (w : p.World) × (state_of (change_scale s) ≡ obey {q = q} (scale_to scale) (at w s))
    unfolding change_scale obey ◌>>=◌
    change_scale-Obeys q scale s e k there =
        let bytes = q.to_bytes scale in
        let (w, e', t) =
          ctrl_read-Hears 8 bytes [] s e k (omega arith) (there ∙ sym (append-nil bytes)) in
        let step : change_scale s ≡ some (some tt, record (at w s) { scale = p.of_bytes bytes }) =
          rw (e', ◌>>=◌) refl in
        (w, ap state_of step)
