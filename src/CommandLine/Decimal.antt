-- ===== src/CommandLine/Decimal.antt =====
-- Numbers as words, and what tools.cc, atoi and stoi make of them.
use mathlib.Core.Path.{subst}
use vwifi.Prelude.{
  ℕ, zero, suc, ◌+◌, ◌*◌, ◌-◌, ◌/◌, ◌%◌, ◌≤◌, ◌<◌, ◌^◌, ◌≡◌, refl, sym, ◌∙◌, ap, Bool, true, false,
  some, List, [], ◌∷◌, ◌++◌, arith, ltb, if◌then◌else◌, if_split,
}
use vwifi.Prelude.Int.{ℤ, pos, negsuc, ◌-ℤ◌}
use vwifi.Prelude.Bytes.{pattern_of}
use vwifi.Tools.{is_digit, digits_only, is_int, is_positive_int}
use vwifi.Info.{tcid_guest_min}
use vwifi.CtrlClient.Words.{digits_value, atoi, cid_of_word}
use vwifi.CommandLine.{stoi_digits, stoi, int_behind}

-- The digits of a number below ten to the power of `suc fuel`.
unfoldable pub digits_of : ℕ → ℕ → List ℕ
digits_of zero n = (b'0' + n % 10) ∷ []
digits_of (suc fuel) n =
    let front = digits_of fuel (n / 10) in
    if ltb n 10 then (b'0' + n) ∷ [] else front ++ (b'0' + n % 10) ∷ []

abbrev pub decimal : ℕ → List ℕ
decimal n = digits_of n n

abbrev pub decimal_ℤ : ℤ → List ℕ
decimal_ℤ (pos n) = decimal n
decimal_ℤ (negsuc n) = b'-' ∷ decimal (suc n)

both : (b r : Bool) → (if b then r else false) ≡ true → (b ≡ true) × (r ≡ true)
both true r h = (refl, h)
both false r h = cc

digits_only-append :
    (xs : List ℕ) (c : ℕ)
    → digits_only xs ≡ true
    → is_digit c ≡ true
    → digits_only (xs ++ c ∷ []) ≡ true
unfolding digits_only
digits_only-append [] c h d = ground (arith, d)
digits_only-append (x ∷ xs) c h d = ground (arith, h, digits_only-append xs c, d)

digits_value-append :
    (xs : List ℕ) (v c : ℕ)
    → digits_only xs ≡ true
    → is_digit c ≡ true
    → digits_value v (xs ++ c ∷ []) ≡ 10 * digits_value v xs + (c - b'0')
unfolding digits_only digits_value
digits_value-append [] v c h d = ground (arith, d)
digits_value-append (x ∷ xs) v c h d =
    let (e, h') = both (is_digit x) (digits_only xs) h in
    let next = digits_value-append xs (10 * v + (x - b'0')) c h' d in ground (arith, e, next)

-- A word of digits, one at least.
pub record IsDigits (w : List ℕ) : Type 0 where
  pub front : ℕ
  pub back : List ℕ
  pub word : w ≡ front ∷ back
  pub first : is_digit front ≡ true
  pub digits : digits_only w ≡ true

digits_of-digits : (fuel n : ℕ) → digits_only (digits_of fuel n) ≡ true
unfolding digits_of digits_only
digits_of-digits zero n = ground arith
digits_of-digits (suc fuel) n =
    if_split (λ w. digits_only w ≡ true) (ltb n 10) (λ t. ground (arith, t))
      (λ f.
        digits_only-append (digits_of fuel (n / 10)) _ (digits_of-digits fuel (n / 10))
          (ground arith))

digits_of-value : (fuel n : ℕ) → n ≤ fuel → digits_value 0 (digits_of fuel n) ≡ n
unfolding digits_of digits_value
digits_of-value zero n h = ground (arith, h)
digits_of-value (suc fuel) n h =
    if_split (λ w. digits_value 0 w ≡ n) (ltb n 10) (λ t. ground (arith, t))
      (λ f.
        let front = digits_of-value fuel (n / 10) (ground (arith, h, f)) in
        let whole =
          digits_value-append (digits_of fuel (n / 10)) 0 (b'0' + n % 10)
            (digits_of-digits fuel (n / 10)) (ground arith) in
        whole ∙ omega (arith, front))

IsDigits-append :
    (xs : List ℕ) (c : ℕ) → digits_only (xs ++ c ∷ []) ≡ true → IsDigits (xs ++ c ∷ [])
unfolding digits_only
IsDigits-append [] c h = record {
  front = c;
  back = [];
  word = refl;
  first = (both (is_digit c) true h).0;
  digits = h;
}
IsDigits-append (x ∷ xs) c h = record {
  front = x;
  back = xs ++ c ∷ [];
  word = refl;
  first = (both (is_digit x) (digits_only (xs ++ c ∷ [])) h).0;
  digits = h;
}

digits_of-IsDigits : (fuel n : ℕ) → IsDigits (digits_of fuel n)
unfolding digits_of digits_only
digits_of-IsDigits zero n = IsDigits-append [] (b'0' + n % 10) (digits_of-digits zero n)
digits_of-IsDigits (suc fuel) n =
    if_split IsDigits (ltb n 10) (λ t. IsDigits-append [] (b'0' + n) (ground (arith, t)))
      (λ f. IsDigits-append (digits_of fuel (n / 10)) (b'0' + n % 10) (
        digits_only-append (digits_of fuel (n / 10)) _ (digits_of-digits fuel (n / 10))
          (ground arith)))

pub decimal-IsDigits : (n : ℕ) → IsDigits (decimal n)
decimal-IsDigits n = digits_of-IsDigits n n

decimal-value : (n : ℕ) → digits_value 0 (decimal n) ≡ n
decimal-value n = digits_of-value n n (omega arith)

IsDigits-positive : (w : List ℕ) → IsDigits w → is_positive_int w ≡ true
unfolding is_positive_int is_int
IsDigits-positive w h =
    subst (λ x. digits_only x ≡ true → is_positive_int x ≡ true) (sym h.word)
      (λ d. ground (arith, h.first, d)) h.digits

IsDigits-atoi : (w : List ℕ) → IsDigits w → atoi w ≡ pos (digits_value 0 w)
unfolding atoi
IsDigits-atoi w h =
    subst (λ x. atoi x ≡ pos (digits_value 0 x)) (sym h.word) (ground (arith, h.first))

pub cid_of_word-decimal :
    (cid : ℕ) → tcid_guest_min ≤ cid → cid < 2 ^ 31 → cid_of_word (decimal cid) ≡ some cid
unfolding cid_of_word pattern_of
cid_of_word-decimal cid h lt =
    rw
      (
        IsDigits-positive _ (decimal-IsDigits cid),
        IsDigits-atoi _ (decimal-IsDigits cid),
        decimal-value cid,
      )
      (ground (arith, h, lt))

pub is_int-decimal : (a : ℤ) → is_int (decimal_ℤ a) ≡ true
unfolding is_int
is_int-decimal (pos n) =
    let h = decimal-IsDigits n in
    subst (λ x. digits_only x ≡ true → is_int x ≡ true) (sym h.word)
      (λ d. ground (arith, h.first, d)) h.digits
is_int-decimal (negsuc n) = digits_of-digits (suc n) (suc n)

pub atoi-decimal : (a : ℤ) → atoi (decimal_ℤ a) ≡ a
unfolding atoi ◌-ℤ◌
atoi-decimal (pos n) = IsDigits-atoi _ (decimal-IsDigits n) ∙ ap pos (decimal-value n)
atoi-decimal (negsuc n) = rw (decimal-value (suc n)) (ground arith)

stoi-decimal : (n : ℕ) → n < 2 ^ 31 → stoi (decimal n) ≡ some n
unfolding stoi stoi_digits
stoi-decimal n lt =
    let h = decimal-IsDigits n in
    subst (λ x. digits_value 0 x ≡ n → stoi x ≡ some n) (sym h.word)
      (λ v. ground (arith, h.first, v, lt)) (decimal-value n)

pub int_behind-decimal :
    (n : ℕ) (rest : List (List ℕ)) → n < 2 ^ 31 → int_behind (decimal n ∷ rest) ≡ some (some n)
unfolding int_behind stoi stoi_digits
int_behind-decimal n rest lt = rw (IsDigits-positive _ (decimal-IsDigits n), stoi-decimal n lt) refl
