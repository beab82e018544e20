-- ===== src/CommandLine/Typed/Plain.antt =====
-- The words that the loop of main of vwifi-ctrl.cc keeps for the order.
use mathlib.Core.Path.{subst}
use vwifi.Prelude.{
  ℕ, suc, append-nil, ◌<◌, ◌%◌, ◌^◌, ◌≡◌, sym, ap, false, ◌||◌, some, List, [], ◌∷◌, ◌++◌, arith,
  All, append_assoc,
}
use vwifi.Prelude.Int.{ℤ, pos, negsuc}
use vwifi.Devices.{same_bytes}
use vwifi.CommandLine.{runs, codes, is_option}
use vwifi.CommandLine.Decimal.{decimal, decimal_ℤ, decimal-IsDigits, int_behind-decimal}
use vwifi.CommandLine.Orders.{CtrlOptions, default_ctrl, parse_ctrl}

-- A word that none of the options of vwifi-ctrl is.
pub record IsPlain (w : List ℕ) : Type 0 where
  pub version : is_option "-v" "--version" w ≡ false
  pub help : is_option "-h" "--help" w ≡ false
  pub port : is_option "-p" "--port" w ≡ false
  pub ip : is_option "-i" "--ip" w ≡ false

pub checked-IsPlain :
    (w : List ℕ)
    → is_option "-v" "--version" w
        || is_option "-h" "--help" w
        || is_option "-p" "--port" w
        || is_option "-i" "--ip" w
      ≡ false
    → IsPlain w
checked-IsPlain w h = record {
  version = ground (arith, h);
  help = ground (arith, h);
  port = ground (arith, h);
  ip = ground (arith, h);
}

pub decimal-IsPlain : (n : ℕ) → IsPlain (decimal n)
unfolding is_option same_bytes
decimal-IsPlain n =
    let h = decimal-IsDigits n in
    subst IsPlain (sym h.word) (record {
      version = ground (arith, h.first);
      help = ground (arith, h.first);
      port = ground (arith, h.first);
      ip = ground (arith, h.first);
    })

pub decimal_ℤ-IsPlain : (a : ℤ) → IsPlain (decimal_ℤ a)
unfolding is_option same_bytes
decimal_ℤ-IsPlain (pos n) = decimal-IsPlain n
decimal_ℤ-IsPlain (negsuc n) =
    let h = decimal-IsDigits (suc n) in
    subst (λ w. IsPlain (b'-' ∷ w)) (sym h.word)
      (record {
        version = ground (arith, h.first);
        help = ground (arith, h.first);
        port = ground (arith, h.first);
        ip = ground (arith, h.first);
      })

parse-plain :
    (ws : List (List ℕ)) (o : CtrlOptions) (before : List (List ℕ))
    → All IsPlain ws
    → parse_ctrl false ws o before ≡ some (runs (o, before ++ ws))
unfolding parse_ctrl
parse-plain [] o before h = ap (λ ws. some (runs (o, ws))) (sym (append-nil before))
parse-plain (w ∷ rest) o before (h, t) =
    rw (h.version, h.help, h.port, h.ip, parse-plain rest o (before ++ w ∷ []) t)
      (ap (λ ws. some (runs (o, ws))) (append_assoc before (w ∷ []) rest))

pub parse_options :
    (ip : List ℕ) (port : ℕ) (words : List (List ℕ))
    → port < 2 ^ 16
    → All IsPlain words
    → parse_ctrl false (codes "-i" ∷ ip ∷ codes "-p" ∷ decimal port ∷ words) default_ctrl []
      ≡ some (runs (record { ip_ctrl = ip; port_ctrl = port }, words))
unfolding parse_ctrl is_option same_bytes
parse_options ip port words lt h =
    let small : port % 2 ^ 16 ≡ port = omega (arith, lt) in
    rw (int_behind-decimal port words (omega (arith, lt)), small) (parse-plain words _ [] h)
