-- ===== src/CtrlClient/Words.antt =====
-- The words of the orders of vwifi-ctrl.cc. `none` is a `return 1` before any connection.
use vwifi.Prelude.{
  ℕ, ◌+◌, ◌*◌, ◌-◌, Bool, true, false, Option, none, some, ◌>>=◌, ◌>>◌, assert, List, [], ◌∷◌, leb,
  ◌==◌, if◌then◌else◌,
}
use vwifi.Prelude.Int.{ℤ, pos, ◌-ℤ◌}
use vwifi.Prelude.Bytes.{pattern_of}
use vwifi.Tools.{is_digit, is_int, is_positive_int}
use vwifi.Info.{Coordinate, tcid_guest_min}

-- `atoi`, without the bound of `int`, behind which it is undefined.
unfoldable pub digits_value : ℕ → List ℕ → ℕ
digits_value value [] = value
digits_value value (c ∷ cs) =
    let rest = digits_value (10 * value + (c - b'0')) cs in if is_digit c then rest else value

unfoldable pub atoi : List ℕ → ℤ
atoi [] = pos 0
atoi (c ∷ cs) =
    if c == b'-'
    then pos 0 -ℤ pos (digits_value 0 cs)
    else if c == b'+'
    then pos (digits_value 0 cs)
    else pos (digits_value 0 (c ∷ cs))

-- The CID in a word, as a TCID.
unfoldable pub cid_of_word : List ℕ → Option ℕ
cid_of_word word = do
  assert (is_positive_int word)
  assert (leb tcid_guest_min (pattern_of 32 (atoi word)))
  some (pattern_of 32 (atoi word))

-- The words of `set`, without the name of the order.
unfoldable pub set_words : List (List ℕ) → Option (ℕ × Coordinate)
set_words (word ∷ x ∷ y ∷ z ∷ []) = do
  cid ← cid_of_word word
  assert (is_int x)
  assert (is_int y)
  assert (is_int z)
  some (cid, record { x = atoi x; y = atoi y; z = atoi z })
set_words _ = none

unfoldable pub setname_words : List (List ℕ) → Option (ℕ × List ℕ)
setname_words (word ∷ name ∷ []) = do cid ← cid_of_word word; some (cid, name)
setname_words _ = none

-- `strcmp` against a literal.
unfoldable pub same_word : List ℕ → List ℕ → Bool
same_word [] [] = true
same_word [] (b ∷ bs) = false
same_word (a ∷ rest_a) [] = false
same_word (a ∷ rest_a) (b ∷ bs) = let rest = same_word rest_a bs in if a == b then rest else false

unfoldable pub loss_words : List (List ℕ) → Option Bool
loss_words (word ∷ []) =
    if same_word word (b'y' ∷ b'e' ∷ b's' ∷ [])
    then some true
    else if same_word word (b'n' ∷ b'o' ∷ [])
    then some false
    else none
loss_words _ = none

unfoldable pub distance_words : List (List ℕ) → Option (ℕ × ℕ)
distance_words (word1 ∷ word2 ∷ []) = do
  cid1 ← cid_of_word word1
  cid2 ← cid_of_word word2
  some (cid1, cid2)
distance_words _ = none
