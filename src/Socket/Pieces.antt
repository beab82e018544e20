-- ===== src/Socket/Pieces.antt =====
-- The bytes that ReadEqualSize of csocket.cc puts together, however the stream is cut into pieces.
mod Written
use Written.{length-write_at, write_at-nil, write_at-write_at}
use vwifi.Prelude.{
  ℕ, zero, suc, ◌+◌, ◌-◌, ◌≤◌, ◌<◌, ◌≡◌, refl, ap, sym, ◌∙◌, true, false, not, some, List, [], ◌∷◌,
  ◌++◌, arith, lt→ltb, length, length-append, length-take, take, drop, ◌==◌, if_split,
}
use vwifi.Prelude.Slices.{take-behind, drop-behind, take_of-take, take-front, take-append}
use vwifi.Prelude.Int.{pos, ltb_ℤ}
use vwifi.Platform.{Platform, IsDocumented}
use vwifi.Socket.{DynBuffer, write_at, needed_size, allocate, read, read_loop, read_equal_size}

-- Where the bytes that come are known: `recv` gives some of them, at least one if there are any.
abbrev pub Pieces : (p : Platform) → ℕ → (p.World → List ℕ) → Type 0
Pieces p d stream =
    (n : ℕ) (w : p.World)
    → 0 < n
    → 0 < length (stream w)
    → (bs : List ℕ) × (0 < length bs)
      × (length bs ≤ n)
      × ((p.recv d n w).0 ≡ some bs)
      × (stream w ≡ bs ++ stream (p.recv d n w).1)

module _ (p : Platform) (d : ℕ) where
  read-some :
      (n : ℕ) (w : p.World) (bs : List ℕ)
      → (p.recv d n w).0 ≡ some bs
      → 0 < length bs
      → (read p d n w).0 ≡ some bs
  unfolding read
  read-some n w [] e h = elim h [ ]
  read-some n w (b ∷ bs) e h = rw (e, read) refl

  read-world : (n : ℕ) (w : p.World) → (read p d n w).1 ≡ (p.recv d n w).1
  unfolding read
  read-world n w = refl

  read_loop_step :
      (fuel offset m : ℕ) (buffer bs : List ℕ) (w : p.World)
      → (read p d (suc m) w).0 ≡ some bs
      → read_loop p (suc fuel) d offset (suc m) buffer w
        ≡ read_loop p fuel d
            (offset + length bs)
            (suc m - length bs)
            (write_at offset bs buffer)
            (read p d (suc m) w).1
  unfolding read_loop
  read_loop_step fuel offset m buffer bs w e = rw (lt→ltb 0 (suc m) (omega arith), e) refl

  module _ (stream : p.World → List ℕ) (net : Pieces p d stream) where
    one_byte :
        (bs tail rest : List ℕ) (v : ℕ)
        → 0 < length bs
        → length bs ≤ 1
        → v ∷ rest ≡ bs ++ tail
        → (bs ≡ v ∷ []) × (tail ≡ rest)
    one_byte [] tail rest v h le e = elim h [ ]
    one_byte (b ∷ []) tail rest v h le e = (cc, cc)
    one_byte (b ∷ c ∷ bs) tail rest v h le e = absurd (omega (arith, le))

    pub read_byte :
        (v : ℕ) (rest : List ℕ) (w : p.World)
        → stream w ≡ v ∷ rest
        → ((read p d 1 w).0 ≡ some (v ∷ [])) × (stream (read p d 1 w).1 ≡ rest)
    read_byte v rest w e =
        let (bs, one, at_most, r, s) = net 1 w (omega arith) (omega (arith, ap length e)) in
        let (same, left) = one_byte bs (stream (p.recv d 1 w).1) rest v one at_most (sym e ∙ s) in
        (read-some 1 w bs r one ∙ ap some same, ap stream (read-world 1 w) ∙ left)

    abbrev Loops : ℕ → ℕ → ℕ → List ℕ → p.World → Type 0
    Loops fuel offset remaining buffer w =
        (w' : p.World) × (read_loop p fuel d offset remaining buffer w
          ≡ some (true, write_at offset (take remaining (stream w)) buffer, w'))
        × (stream w' ≡ drop remaining (stream w))

    read_loop-Reads :
        (fuel offset remaining : ℕ) (buffer : List ℕ) (w : p.World)
        → remaining < fuel
        → remaining ≤ length (stream w)
        → offset + remaining ≤ length buffer
        → Loops fuel offset remaining buffer w
    unfolding read_loop
    read_loop-Reads zero offset remaining buffer w f h b = absurd (omega (arith, f))
    read_loop-Reads (suc fuel) offset zero buffer w f h b =
        (w, ap (λ (bs : List ℕ). some (true, bs, w)) (sym (write_at-nil offset buffer)), refl)
    read_loop-Reads (suc fuel) offset (suc m) buffer w f h b =
        let (bs, one, at_most, r, s) = net (suc m) w (omega arith) (omega (arith, h)) in
        let left = suc m - length bs in
        let w₁ = (read p d (suc m) w).1 in
        let s₁ : stream w ≡ bs ++ stream w₁ =
          s ∙ ap (λ (v : p.World). bs ++ stream v) (sym (read-world (suc m) w)) in
        let buffer' = write_at offset bs buffer in
        let cut : length bs + left ≡ suc m = omega (arith, at_most) in
        let (w', e, s') =
          read_loop-Reads fuel (offset + length bs) left buffer' w₁ (omega (arith, f, one))
            (omega (arith, h, ap length s₁, length-append bs (stream w₁)))
            (omega
              (arith, b, at_most, length-write_at offset bs buffer (omega (arith, b, at_most)))) in
        let written : write_at (offset + length bs) (take left (stream w₁)) buffer'
            ≡ write_at offset (take (suc m) (stream w)) buffer =
          write_at-write_at offset (length bs) bs (take left (stream w₁)) buffer refl
            (omega (arith, b, at_most))
          ∙ ap (λ (cs : List ℕ). write_at offset cs buffer)
              (sym (ap (take (suc m)) s₁ ∙ take-behind (suc m) left bs (stream w₁) cut)) in
        (
          w',
          read_loop_step fuel offset m buffer bs w (read-some (suc m) w bs r one)
              ∙ (e ∙ ap (λ (cs : List ℕ). some (true, cs, w')) written),
          s' ∙ sym (ap (drop (suc m)) s₁ ∙ drop-behind (suc m) left bs (stream w₁) cut),
        )

-- `Size` is the size of the memory.
abbrev pub IsBuffer : DynBuffer → Type 0
IsBuffer b = length b.buffer ≡ b.size

module _ (p : Platform) (known : IsDocumented p) where
  -- Memory of `size` bytes at least, with the first bytes kept.
  abbrev Holds : ℕ → ℕ → DynBuffer → DynBuffer → Type 0
  Holds size already b b' =
      IsBuffer b' × (size ≤ b'.size) × (take already b'.buffer ≡ take already b.buffer)

  allocate-Holds :
      (size already : ℕ) (b : DynBuffer) (w : p.World)
      → IsBuffer b
      → already ≤ b.size
      → b.size ≤ size
      → Holds size already b (allocate p size (not (already == 0)) b w)
  unfolding allocate
  allocate-Holds size zero b w v h le = (known.uninit_size size w, omega arith, refl)
  allocate-Holds size (suc n) b w v h le =
      let old = take b.size b.buffer in
      let fresh = p.uninit size w in
      let whole : length old ≡ b.size = omega (arith, v, length-take b.size b.buffer) in
      let kept : (suc n == 0) ≡ false = ground arith in
      rw kept (
        length-write_at 0 old fresh (omega (arith, whole, le, known.uninit_size size w))
            ∙ known.uninit_size size w,
        omega arith,
        take-front (suc n) old (drop (0 + length old) fresh) (omega (arith, whole, h))
            ∙ take_of-take (suc n) b.size b.buffer h,
      )

  needed_size-Holds :
      (size already : ℕ) (b : DynBuffer) (w : p.World)
      → IsBuffer b
      → already ≤ b.size
      → Holds size already b (needed_size p (pos size) (not (already == 0)) b w)
  unfolding needed_size
  needed_size-Holds size already b w v h =
      if_split (Holds size already b) (ltb_ℤ (pos b.size) (pos size))
        (λ t. allocate-Holds size already b w v h (ground (arith, t)))
        (λ f. (v, ground (arith, f), refl))

  module _ (d : ℕ) (stream : p.World → List ℕ) (net : Pieces p d stream) where
    -- Where the stream holds the bytes that are missing, and the buffer has its size and the bytes
    -- already read, ReadEqualSize, however the stream is cut into pieces, returns the size asked
    -- for, keeps the bytes already read, has exactly the missing ones behind them, in a buffer of
    -- at least that size, and leaves the rest of the stream.
    pub read_equal_size-Reads :
        (b : DynBuffer) (already size : ℕ) (w : p.World)
        → IsBuffer b
        → already ≤ b.size
        → already ≤ size
        → size - already ≤ length (stream w)
        → (b' : DynBuffer) × (w' : p.World) × (read_equal_size p d b already (pos size) w
            ≡ some (pos size, b', w'))
          × IsBuffer b'
          × (size ≤ b'.size)
          × (take size b'.buffer ≡ take already b.buffer ++ take (size - already) (stream w))
          × (stream w' ≡ drop (size - already) (stream w))
    unfolding read_equal_size
    read_equal_size-Reads b already size w v h le there =
        let b₁ = needed_size p (pos size) (not (already == 0)) b w in
        let (v₁, room, kept) = needed_size-Holds size already b w v h in
        let more = take (size - already) (stream w) in
        let long : length more ≡ size - already =
          omega (arith, length-take (size - already) (stream w), there) in
        let fits : already + length more ≤ length b₁.buffer = omega (arith, long, le, v₁, room) in
        let (w', e, s) =
          read_loop-Reads p d stream net (suc (size - already)) already (size - already) b₁.buffer w
            (omega arith) there (omega (arith, le, v₁, room)) in
        (
          record b₁ { buffer = write_at already more b₁.buffer },
          w',
          rw e refl,
          length-write_at already more b₁.buffer fits ∙ v₁,
          room,
          take-behind size (size - already) (take already b₁.buffer)
                (more ++ drop (already + length more) b₁.buffer)
                (omega (arith, length-take already b₁.buffer, fits, le))
              ∙ (ap
                    (λ (cs : List ℕ).
                      cs ++ take (size - already) (more ++ drop (already + length more) b₁.buffer))
                    kept
                  ∙ ap (λ (cs : List ℕ). take already b.buffer ++ cs)
                      (take-append (size - already) more _ long)),
          s,
        )
