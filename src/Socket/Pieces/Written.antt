-- ===== src/Socket/Pieces/Written.antt =====
-- What stands in a buffer after one copy of bytes into it, and after two.
use vwifi.Prelude.{
  ℕ, ◌+◌, ◌≤◌, ◌≡◌, refl, ap, sym, ◌∙◌, List, [], ◌++◌, append_assoc, arith, length, length-append,
  length-take, length-drop, take, drop,
}
use vwifi.Prelude.Slices.{take-drop, drop-drop, take-append, drop-append}
use vwifi.Socket.{write_at}

pub length-write_at :
    (o : ℕ) (xs old : List ℕ) → o + length xs ≤ length old → length (write_at o xs old) ≡ length old
length-write_at o xs old h = omega (
  arith,
  length-append (take o old) (xs ++ drop (o + length xs) old),
  length-append xs (drop (o + length xs) old),
  length-take o old,
  length-drop (o + length xs) old,
)

pub write_at-nil : (o : ℕ) (old : List ℕ) → write_at o [] old ≡ old
write_at-nil o old = ap (λ (j : ℕ). take o old ++ drop j old) (omega arith) ∙ take-drop o old

-- Bytes written behind others are written with them.
pub write_at-write_at :
    (o k : ℕ) (xs ys old : List ℕ)
    → length xs ≡ k
    → o + k ≤ length old
    → write_at (o + k) ys (write_at o xs old) ≡ write_at o (xs ++ ys) old
write_at-write_at o k xs ys old e h =
    let front = take o old in
    let behind = drop (o + length xs) old in
    let size : length front ≡ o = omega (arith, length-take o old) in
    let both : length (front ++ xs) ≡ o + k = omega (arith, length-append front xs, size, e) in
    let whole = sym (append_assoc front xs behind) in
    let first : take (o + k) (front ++ (xs ++ behind)) ≡ front ++ xs =
      ap (take (o + k)) whole ∙ take-append (o + k) (front ++ xs) behind both in
    let back : drop (o + k) (front ++ (xs ++ behind)) ≡ behind =
      ap (drop (o + k)) whole ∙ drop-append (o + k) (front ++ xs) behind both in
    let rest : drop (o + k + length ys) (front ++ (xs ++ behind))
        ≡ drop (o + length (xs ++ ys)) old =
      sym (drop-drop (o + k) (length ys) (o + k + length ys) (front ++ (xs ++ behind)) refl)
      ∙ (ap (drop (length ys)) back
          ∙ drop-drop (o + length xs) (length ys) (o + length (xs ++ ys)) old
              (omega (arith, length-append xs ys))) in
    rw (first, rest)
      (append_assoc front xs (ys ++ drop (o + length (xs ++ ys)) old)
        ∙ ap (λ (bs : List ℕ). front ++ bs)
            (sym (append_assoc xs ys (drop (o + length (xs ++ ys)) old))))
