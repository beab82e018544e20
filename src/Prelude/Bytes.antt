-- ===== src/Prelude/Bytes.antt =====
-- Numbers as bytes in memory, little-endian, and the signed integers that the bytes stand for.

use native.Mathlib.Nat.{pow-suc}
use vwifi.Prelude.{
  ℕ, zero, suc, ◌+◌, ◌-◌, ◌*◌, ◌/◌, ◌%◌, ◌^◌, ◌≤◌, ◌<◌, ◌≡◌, refl, ap, List, [], ◌∷◌, arith, length,
  ltb, if◌then◌else◌,
}
use vwifi.Prelude.Int.{ℤ, pos, negsuc, pos_part, neg_part}

-- The `n` bytes of an unsigned number, and the number that bytes hold.
unfoldable pub le : ℕ → ℕ → List ℕ
le zero v = []
le (suc n) v = (v % 256) ∷ le n (v / 256)

unfoldable pub of_le : List ℕ → ℕ
of_le [] = 0
of_le (b ∷ bs) = b + 256 * of_le bs

pub length-le : (n v : ℕ) → length (le n v) ≡ n
unfolding le
length-le zero v = refl
length-le (suc n) v = ap suc (length-le n (v / 256))

quotient-lt : (v m : ℕ) → v < 256 * m → v / 256 < m
quotient-lt v m h = omega arith

pub of_le-le : (n v : ℕ) → v < 256 ^ n → of_le (le n v) ≡ v
unfolding le of_le
of_le-le zero v h = omega arith
of_le-le (suc n) v h =
    omega (arith, of_le-le n (v / 256) (quotient-lt v (256 ^ n) (omega (arith, pow-suc 256 n))))

-- An `int32_t` and a `char` by their bit patterns.
unfoldable pub signed : ℕ → ℕ → ℤ
signed w v = if ltb v (2 ^ (w - 1)) then pos v else negsuc (2 ^ w - v - 1)

unfoldable pub pattern_of : ℕ → ℤ → ℕ
pattern_of w (pos n) = n % 2 ^ w
pattern_of w (negsuc n) = 2 ^ w - 1 - n % 2 ^ w

pub pattern_of-lt : (z : ℤ) → pattern_of 32 z < 2 ^ 32
unfolding pattern_of
pattern_of-lt (pos n) = omega arith
pattern_of-lt (negsuc n) = omega arith

abbrev pub FitsS32 : ℤ → Type 0
FitsS32 z = (pos_part z < 2 ^ 31) × (neg_part z ≤ 2 ^ 31)

pub signed-pattern_of : (z : ℤ) → FitsS32 z → signed 32 (pattern_of 32 z) ≡ z
unfolding signed pattern_of
signed-pattern_of (pos n) h = ground arith
signed-pattern_of (negsuc n) h = ground arith
