-- ===== src/Info/Distance.antt =====
-- The arithmetic of DistanceWith of ccoordinate.cc: where the squares do not leave `int`.
use native.Mathlib.Nat.{mul-le-mul_left, mul-le-mul_right}
use vwifi.Prelude.{ℕ, ◌+◌, ◌*◌, ◌≤◌, ◌≡◌, arith}
use vwifi.Prelude.Int.{ℤ, pos, negsuc, pos_part, neg_part, ◌-ℤ◌, ◌*ℤ◌, ◌+ℤ◌}
use vwifi.Prelude.Bytes.{signed-pattern_of}
use vwifi.Info.{Coordinate, square_distance, square_distance_int}

abbrev pub magnitude : ℤ → ℕ
magnitude z = pos_part z + neg_part z

-- Within 13377 of the origin on each axis.
abbrev pub IsNear : Coordinate → Type 0
IsNear c = (magnitude c.x ≤ 13377) × (magnitude c.y ≤ 13377) × (magnitude c.z ≤ 13377)

difference-bound :
    (a b : ℤ) → magnitude a ≤ 13377 → magnitude b ≤ 13377 → magnitude (a -ℤ b) ≤ 26754
unfolding ◌-ℤ◌
difference-bound a b h k = ground arith

square_lem : (z : ℤ) → z *ℤ z ≡ pos (magnitude z * magnitude z)
unfolding ◌*ℤ◌
square_lem (pos n) = ground arith
square_lem (negsuc n) = ground arith

square-bound : (n : ℕ) → n ≤ 26754 → n * n ≤ 715776516
square-bound n h = omega (arith, mul-le-mul_left n h, mul-le-mul_right 26754 h)

pos-sum : (m n : ℕ) → pos m +ℤ pos n ≡ pos (m + n)
unfolding ◌+ℤ◌
pos-sum m n = ground arith

-- Between places within 13377 of the origin the squared distance is computed exactly: the sum of
-- the squares of the differences, without overflow of int.
pub square_distance_int-exact :
    (a b : Coordinate)
    → IsNear a
    → IsNear b
    → square_distance_int a b
      ≡ pos (
          magnitude (a.x -ℤ b.x) * magnitude (a.x -ℤ b.x)
          + magnitude (a.y -ℤ b.y) * magnitude (a.y -ℤ b.y)
          + magnitude (a.z -ℤ b.z) * magnitude (a.z -ℤ b.z))
unfolding square_distance_int square_distance
square_distance_int-exact a b (hx, hy, hz) (kx, ky, kz) =
    rw (square_lem (a.x -ℤ b.x), square_lem (a.y -ℤ b.y), square_lem (a.z -ℤ b.z), pos-sum, pos-sum)
      (signed-pattern_of (pos _) (
        omega (
          arith,
          square-bound _ (difference-bound a.x b.x hx kx),
          square-bound _ (difference-bound a.y b.y hy ky),
          square-bound _ (difference-bound a.z b.z hz kz),
        ),
        omega arith,
      ))
