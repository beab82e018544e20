-- ===== src/Tools/Words.antt =====
-- Which words isIntOrFloat of tools.cc takes.
use vwifi.Prelude.{
  ℕ, ◌+◌, ◌≡◌, Bool, true, false, ◌&&◌, ◌||◌, List, [], ◌∷◌, arith, ltb, leb, ◌==◌, if◌then◌else◌,
}
use vwifi.Tools.{is_sign, is_digit, float_loop, is_int_or_float}

abbrev occurrences : (ℕ → Bool) → List ℕ → ℕ
occurrences test [] = 0
occurrences test (c ∷ cs) = (if test c then 1 else 0) + occurrences test cs

abbrev is_dot : ℕ → Bool
is_dot c = c == b'.'

abbrev is_other : ℕ → Bool
is_other c = if is_dot c || is_digit c then false else true

-- At least one digit, at most one dot, and nothing else.
abbrev pub is_number : List ℕ → Bool
is_number cs =
    ltb 0 (occurrences is_digit cs)
    && (leb (occurrences is_dot cs) 1 && (occurrences is_other cs == 0))

float_loop_lem :
    (see_dot see_digit : Bool) (cs : List ℕ)
    → float_loop see_dot see_digit cs ≡ (
        ltb 0 ((if see_digit then 1 else 0) + occurrences is_digit cs)
        && (leb ((if see_dot then 1 else 0) + occurrences is_dot cs) 1
            && (occurrences is_other cs == 0)))
unfolding float_loop
float_loop_lem see_dot see_digit [] = ground arith
float_loop_lem see_dot see_digit (c ∷ cs) =
    ground (arith, float_loop_lem true see_digit cs, float_loop_lem see_dot true cs)

abbrev pub without_sign : List ℕ → List ℕ
without_sign [] = []
without_sign (c ∷ cs) = if is_sign c then cs else c ∷ cs

-- isIntOrFloat takes exactly the words that are, after one sign at most, a number with at least
-- one digit and at most one dot.
pub is_int_or_float_lem : (cs : List ℕ) → is_int_or_float cs ≡ is_number (without_sign cs)
unfolding is_int_or_float
is_int_or_float_lem [] = float_loop_lem false false []
is_int_or_float_lem (c ∷ cs) =
    ground (arith, float_loop_lem false false cs, float_loop_lem false false (c ∷ cs))
