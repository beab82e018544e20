-- ===== src/Tools.antt =====
-- tools.cc: the checks of command-line words and the hash of an internet address. A C string is
-- the list of its characters before the terminating zero.
pub mod Words
pub mod Hash
use vwifi.Prelude.{
  ℕ, ◌+◌, ◌*◌, ◌/◌, ◌%◌, ◌^◌, Bool, true, false, ◌||◌, List, [], ◌∷◌, ltb, ◌==◌, if◌then◌else◌,
}
use vwifi.Platform.{SockaddrIn}

-- Octet `i` of `s_addr`, by a shift and a mask.
abbrev pub octet : ℕ → ℕ → ℕ
octet addr i = addr / 2 ^ (8 * i) % 256

-- The sum stays far below the range of `unsigned long`, so it cannot wrap; the callers keep it in
-- a 32-bit TCID.
unfoldable pub hash_ipaddr : Bool → SockaddrIn → ℕ
hash_ipaddr hash_uses_port addr =
    let res =
      octet addr.s_addr 3 * 256
      + octet addr.s_addr 2 * 256
      + octet addr.s_addr 1 * 256
      + octet addr.s_addr 0 in
    if hash_uses_port then res + addr.sin_port else res

abbrev pub is_sign : ℕ → Bool
is_sign c = (c == b'-') || (c == b'+')

abbrev pub is_digit : ℕ → Bool
is_digit c = if (ltb c b'0') || (ltb b'9' c) then false else true

unfoldable pub digits_only : List ℕ → Bool
digits_only [] = true
digits_only (c ∷ cs) = let rest = digits_only cs in if is_digit c then rest else false

unfoldable pub is_int : List ℕ → Bool
is_int [] = digits_only []
is_int (c ∷ cs) = if is_sign c then digits_only cs else digits_only (c ∷ cs)

unfoldable pub is_positive_int : List ℕ → Bool
is_positive_int [] = is_int []
is_positive_int (c ∷ cs) = if c == b'-' then false else is_int (c ∷ cs)

-- The loop of `isIntOrFloat`, over `seeDot` and `seeDigit`.
unfoldable pub float_loop : Bool → Bool → List ℕ → Bool
float_loop see_dot see_digit [] = see_digit
float_loop see_dot see_digit (c ∷ cs) =
    let dot = float_loop true see_digit cs in
    let digit = float_loop see_dot true cs in
    if c == b'.' then (if see_dot then false else dot) else if is_digit c then digit else false

unfoldable pub is_int_or_float : List ℕ → Bool
is_int_or_float [] = float_loop false false []
is_int_or_float (c ∷ cs) =
    if is_sign c then float_loop false false cs else float_loop false false (c ∷ cs)
