-- ===== src/Examples/Network.antt =====
-- A network for the examples: every descriptor but 9 can be reached, and every read is answered.
use mathlib.Core.Path.{subst}
use mathlib.Core.Option.{some-injective}
use vwifi.Prelude.{
  ℕ, suc, ◌+◌, ◌-◌, ◌*◌, ◌≡◌, refl, ap, inr, Bool, true, false, not, none, some, List, [], ◌∷◌,
  arith, length, replicate, ◌==◌, if◌then◌else◌,
}
use vwifi.Prelude.Int.{pos, pos_part, neg_part}
use vwifi.Prelude.Bytes.{le, of_le}
use vwifi.Server.Forward.{ParsesMessages}
use vwifi.Platform.{Platform, SockaddrIn}
use vwifi.Tools.{hash_ipaddr}
use vwifi.Socket.{read, write_at}
use vwifi.WifiServer.Registry.{IsCid}
use vwifi.WifiServer.Sending.{Answers}
use vwifi.Ctrl.{c_string}
use vwifi.Ctrl.Serving.{TerminatesNames}
use vwifi.MainLoop.Running.{HasCids}

-- The order to set a name, or the CID 4; the header of a message of 20 bytes; zeros otherwise.
abbrev reply : ℕ → List ℕ
reply n =
    if n == 4 then 4 ∷ 0 ∷ 0 ∷ 0 ∷ [] else if n == 16 then 20 ∷ replicate 15 0 else replicate n 0

-- 192.168.0.5
abbrev peer : SockaddrIn
peer = record { s_addr = 192 + 256 * 168 + 256 * 256 * 256 * 5; sin_port = 80 }

abbrev pub up : ℕ → Bool
up d = not (d == 9)

abbrev pub wired : Platform
wired = record {
  World = ℕ;
  send = λ d bytes w. (if up d then some (length bytes) else none, suc w);
  recv = λ d n w. (some (reply n), suc w);
  close = λ d w. suc w;
  accept_inet = λ d w. (some (20 + w, peer), suc w);
  accept_vsock = λ d w. (some (20 + w, 7), suc w);
  pselect = λ n set w. (pos 1, false, set, suc w);
  rand = λ w. (w, suc w);
  uninit = λ n w. replicate n 170;
  frequency_attr = λ bytes. some none;
  Real = ℕ;
  ratio = λ n d. n;
  of_int = λ z. pos_part z + neg_part z;
  add = λ a b. a + b;
  sub = λ a b. a - b;
  mul = λ a b. a * b;
  sqrt = λ a. a;
  log10 = λ a. a;
  is_zero = λ a. a == 0;
  truncate = pos;
  to_bytes = le 8;
  of_bytes = of_le;
}

pub wired-Answers : Answers wired up
wired-Answers d bytes w = refl

pub wired-ParsesMessages : ParsesMessages wired
wired-ParsesMessages d power buffer w valread power' buffer' w' e more = (none, refl)

pub wired-TerminatesNames : TerminatesNames wired
unfolding read c_string
wired-TerminatesNames d w bs e = (
  [],
  subst (λ (x : List ℕ). c_string (write_at 0 x (replicate 13 170)) ≡ some [])
      (some-injective (replicate 13 0) bs e) refl,
)

peer-IsCid : (with_port : Bool) → IsCid (hash_ipaddr with_port peer)
unfolding hash_ipaddr
peer-IsCid true = inr (omega arith)
peer-IsCid false = inr (omega arith)

pub wired-HasCids : HasCids wired
wired-HasCids = record {
  vsock = λ d w socket cid e.
      subst IsCid (ap (λ (x : ℕ × ℕ). x.1) (some-injective (20 + w, 7) (socket, cid) e))
        (inr (omega arith));
  inet = λ d w socket addr with_port e.
      subst (λ (x : SockaddrIn). IsCid (hash_ipaddr with_port x))
        (ap (λ (x : ℕ × SockaddrIn). x.1) (some-injective (20 + w, peer) (socket, addr) e))
        (peer-IsCid with_port);
}
