-- ===== src/CommandLine/Typed.antt =====
-- What main of vwifi-ctrl.cc makes of the words of an order.
mod Plain
pub use Plain.{IsPlain}
use Plain.{checked-IsPlain, decimal-IsPlain, decimal_ℤ-IsPlain, parse_options}
use vwifi.Prelude.{
  ℕ, length, ◌≤◌, ◌<◌, ◌%◌, ◌^◌, ◌≡◌, refl, Bool, true, false, ◌||◌, Option, none, some, ◌>>=◌,
  List, [], ◌∷◌, ◌++◌, arith, All, if◌then◌else◌,
}
use vwifi.Prelude.Int.{ℤ}
use vwifi.Prelude.Bytes.{FitsS32}
use vwifi.Platform.{Platform, Net}
use vwifi.Tools.{is_int_or_float}
use vwifi.Info.{tcid_guest_min}
use vwifi.Devices.{same_bytes}
use vwifi.Kernel.{Kernel}
use vwifi.CtrlClient.Words.{set_words, setname_words, loss_words, same_word}
use vwifi.CtrlClient.Bytes.{NonZero}
use vwifi.Commands.{IsCarried, Command, place_at, name_as, lose_packets, scale_to, close_all}
use vwifi.CommandLine.{codes, is_option}
use vwifi.CommandLine.Decimal.{
  decimal, decimal_ℤ, cid_of_word-decimal, is_int-decimal, atoi-decimal,
}
use vwifi.CommandLine.Orders.{
  CtrlOptions, same_order, lower, scale_words, Request, change, request_of, run_request, returned,
  do_order, vwifi_ctrl,
}

abbrev yes_no : Bool → List ℕ
yes_no b = if b then codes "yes" else codes "no"

-- The words of an order that changes the server. `atoi` and `atof` know no bounds, the numbers here
-- fit an `int`.
pub data Types {p : Platform} (atof : List ℕ → p.Real) (at_most_zero : p.Real → Bool)
    : Command p → List (List ℕ) → Type 0 where
  set :
      (cid : ℕ) (x y z : ℤ)
      → tcid_guest_min ≤ cid
      → cid < 2 ^ 31
      → FitsS32 x × FitsS32 y × FitsS32 z
      → Types atof at_most_zero
          (place_at cid (record { x = x; y = y; z = z }))
          (codes "set" ∷ decimal cid ∷ decimal_ℤ x ∷ decimal_ℤ y ∷ decimal_ℤ z ∷ [])
  setname :
      (cid : ℕ) (word : List ℕ)
      → tcid_guest_min ≤ cid
      → cid < 2 ^ 31
      → IsPlain word
      → All NonZero word
      → Types atof at_most_zero (name_as cid word) (codes "setname" ∷ decimal cid ∷ word ∷ [])
  loss : (b : Bool) → Types atof at_most_zero (lose_packets b) (codes "loss" ∷ yes_no b ∷ [])
  scale :
      (word : List ℕ)
      → is_int_or_float word ≡ true
      → at_most_zero (atof word) ≡ false
      → IsPlain word
      → length (p.to_bytes (atof word)) ≡ 8
      → Types atof at_most_zero (scale_to (atof word)) (codes "scale" ∷ word ∷ [])
  close : Types atof at_most_zero close_all (codes "close" ∷ [])

set_words-decimal :
    (cid : ℕ) (x y z : ℤ)
    → tcid_guest_min ≤ cid
    → cid < 2 ^ 31
    → set_words (decimal cid ∷ decimal_ℤ x ∷ decimal_ℤ y ∷ decimal_ℤ z ∷ [])
      ≡ some (cid, record { x = x; y = y; z = z })
unfolding set_words
set_words-decimal cid x y z h lt =
    rw
      (
        cid_of_word-decimal cid h lt,
        is_int-decimal x,
        is_int-decimal y,
        is_int-decimal z,
        atoi-decimal x,
        atoi-decimal y,
        atoi-decimal z,
      )
      refl

setname_words-decimal :
    (cid : ℕ) (word : List ℕ)
    → tcid_guest_min ≤ cid
    → cid < 2 ^ 31
    → setname_words (decimal cid ∷ word ∷ []) ≡ some (cid, word)
unfolding setname_words
setname_words-decimal cid word h lt = rw (cid_of_word-decimal cid h lt) refl

module _ {p : Platform} (k : Kernel p) (inet_addr : List ℕ → ℕ) (htons : ℕ → ℕ)
    (atof : List ℕ → p.Real) (at_most_zero : p.Real → Bool) where
  abbrev requested : List (List ℕ) → Option (Request p)
  requested [] = none
  requested (name ∷ words) = request_of k inet_addr htons atof at_most_zero name words

  request_of-Types :
      (c : Command p) (words : List (List ℕ))
      → Types atof at_most_zero c words
      → requested words ≡ some (change c)
  unfolding request_of same_order same_word lower scale_words loss_words
  request_of-Types c words (set cid x y z h lt fits) = rw (set_words-decimal cid x y z h lt) refl
  request_of-Types c words (setname cid word h lt plain text) =
      rw (setname_words-decimal cid word h lt) refl
  request_of-Types c words (loss true) = refl
  request_of-Types c words (loss false) = refl
  request_of-Types c words (scale word float positive plain double) = rw (float, positive) refl
  request_of-Types c words close = refl

  IsPlain-Types :
      (c : Command p) (words : List (List ℕ)) → Types atof at_most_zero c words → All IsPlain words
  unfolding is_option same_bytes
  IsPlain-Types c words (set cid x y z h lt fits) = (
    checked-IsPlain _ refl,
    (decimal-IsPlain cid, (decimal_ℤ-IsPlain x, (decimal_ℤ-IsPlain y, (decimal_ℤ-IsPlain z, tt)))),
  )
  IsPlain-Types c words (setname cid word h lt plain text) =
      (checked-IsPlain _ refl, (decimal-IsPlain cid, (plain, tt)))
  IsPlain-Types c words (loss true) = (checked-IsPlain _ refl, (checked-IsPlain _ refl, tt))
  IsPlain-Types c words (loss false) = (checked-IsPlain _ refl, (checked-IsPlain _ refl, tt))
  IsPlain-Types c words (scale word float positive plain double) =
      (checked-IsPlain _ refl, (plain, tt))
  IsPlain-Types c words close = (checked-IsPlain _ refl, tt)

  do_order-some :
      (fuel : ℕ) (o : CtrlOptions) (words : List (List ℕ)) (r : Request p) (n : Net p)
      → requested words ≡ some r
      → do_order k inet_addr htons atof at_most_zero fuel o words n ≡ (
          run_request k inet_addr htons atof at_most_zero fuel o r n >>= λ answer.
          some (returned k inet_addr htons atof at_most_zero answer))
  unfolding do_order
  do_order-some fuel o [] r n e = cc
  do_order-some fuel o (name ∷ words) r n e = rw (e, do_order) refl

  pub IsCarried-Types :
      (c : Command p) (words : List (List ℕ)) → Types atof at_most_zero c words → IsCarried c
  IsCarried-Types c words (set cid x y z h lt fits) = (omega (arith, lt), fits.0, fits.1, fits.2)
  IsCarried-Types c words (setname cid word h lt plain text) = (omega (arith, lt), text)
  IsCarried-Types c words (loss b) = tt
  IsCarried-Types c words (scale word float positive plain double) = double
  IsCarried-Types c words close = tt

  pub vwifi_ctrl-Types :
      (c : Command p) (words : List (List ℕ)) (ip : List ℕ) (port fuel : ℕ) (n : Net p)
      → Types atof at_most_zero c words
      → port < 2 ^ 16
      → vwifi_ctrl k inet_addr htons atof at_most_zero fuel
          (codes "-i" ∷ ip ∷ codes "-p" ∷ decimal port ∷ words)
          n
        ≡ (run_request k inet_addr htons atof at_most_zero fuel
              (record { ip_ctrl = ip; port_ctrl = port })
              (change c)
              n
            >>= λ answer. some (returned k inet_addr htons atof at_most_zero answer))
  unfolding vwifi_ctrl
  vwifi_ctrl-Types c words ip port fuel n t lt =
      rw (parse_options ip port words lt (IsPlain-Types c words t))
        (do_order-some fuel _ words (change c) n (request_of-Types c words t))
