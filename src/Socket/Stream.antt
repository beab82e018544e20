-- ===== src/Socket/Stream.antt =====
-- ReadEqualSize of csocket.cc ends, and puts the byte stream of the peer together, however it is
-- cut into pieces.
use vwifi.Prelude.{
  ℕ, zero, suc, ◌+◌, ◌-◌, ◌<◌, ◌≡◌, ◌⊎◌, refl, inl, inr, Option-cases, Bool, not, Option, some,
  List, arith, ltb, length, ltb→lt, ◌==◌, if◌then◌else◌, if_split,
}
use vwifi.Prelude.Int.{ℤ, pos_part}
use vwifi.Platform.{Platform}
use vwifi.Socket.{DynBuffer, write_at, needed_size, read, read_loop, read_equal_size, socket_error}

module _ (p : Platform) where
  -- A read that succeeds brings at least one byte.
  read-some : (d n : ℕ) (w : p.World) (bs : List ℕ) → (read p d n w).0 ≡ some bs → 0 < length bs
  unfolding read
  read-some d n w bs e = ground arith

  abbrev Finishes : Option (Bool × List ℕ × p.World) → Type 0
  Finishes r = (x : Bool × List ℕ × p.World) × (r ≡ some x)

  read_loop_total :
      (fuel d offset remaining : ℕ) (buffer : List ℕ) (w : p.World)
      → remaining < fuel
      → Finishes (read_loop p fuel d offset remaining buffer w)
  unfolding read_loop
  read_loop_total zero d offset remaining buffer w h = absurd (omega arith)
  read_loop_total (suc fuel) d offset remaining buffer w h =
      if_split Finishes (ltb 0 remaining)
        (λ more. elim (Option-cases (read p d remaining w).0) [
          | inl e ↦ rw e (_, refl)
          | inr (bs, e) ↦ rw e (
              read_loop_total fuel d (offset + length bs) (remaining - length bs)
                (write_at offset bs buffer) (read p d remaining w).1
                (omega (arith, read-some d remaining w bs e, ltb→lt 0 remaining more)))
        ])
        (λ _. (_, refl))

  -- ReadEqualSize ends whatever the peer sends, with the size asked for or with an error.
  pub read_equal_size_total :
      (d : ℕ) (b : DynBuffer) (already : ℕ) (size : ℤ) (w : p.World)
      → (r : ℤ × DynBuffer × p.World) × (read_equal_size p d b already size w ≡ some r)
        × ((r.0 ≡ size) ⊎ (r.0 ≡ socket_error))
  unfolding read_equal_size
  read_equal_size_total d b already size w =
      let b' = needed_size p size (not (already == 0)) b w in
      let remaining = pos_part size - already in
      let ((complete, bytes, w'), e) =
        read_loop_total (suc remaining) d already remaining b'.buffer w (omega arith) in
      (
        (if complete then size else socket_error, record b' { buffer = bytes }, w'),
        rw e refl,
        if_split (λ z. (z ≡ size) ⊎ (z ≡ socket_error)) complete (λ _. inl refl) (λ _. inr refl),
      )
