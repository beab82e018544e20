-- ===== src/Socket/Sent.antt =====
-- The bytes that go over a descriptor, by the calls of Send in csocket.cc.
use vwifi.Prelude.{
  ℕ, ◌≡◌, refl, sym, true, some, List, [], ◌∷◌, ◌++◌, arith, ◌==◌, if◌then◌else◌, length,
  append_assoc, append-nil,
}
use vwifi.Platform.{Platform, Net, Call, sent, closed}
use vwifi.Socket.{send}

-- All bytes that were sent over a descriptor, in order.
abbrev pub bytes_sent : ℕ → List Call → List ℕ
bytes_sent d [] = []
bytes_sent d (sent e bs ∷ calls) = (if e == d then bs else []) ++ bytes_sent d calls
bytes_sent d (closed e ∷ calls) = bytes_sent d calls

pub bytes_sent-append :
    (d : ℕ) (first second : List Call)
    → bytes_sent d (first ++ second) ≡ bytes_sent d first ++ bytes_sent d second
bytes_sent-append d [] second = refl
bytes_sent-append d (sent e bs ∷ first) second =
    rw (bytes_sent-append d first second) (sym (append_assoc (if e == d then bs else []) _ _))
bytes_sent-append d (closed e ∷ first) second = bytes_sent-append d first second

pub same_descriptor : (d : ℕ) (bytes : List ℕ) → bytes_sent d (sent d bytes ∷ []) ≡ bytes
same_descriptor d bytes = let same : (d == d) ≡ true = ground arith in rw same (append-nil bytes)

-- A descriptor that takes all bytes that are sent over it.
abbrev pub TakesAll : Platform → ℕ → Type 0
TakesAll p d = (bytes : List ℕ) (w : p.World) → (p.send d bytes w).0 ≡ some (length bytes)

module _ {p : Platform} (d : ℕ) (net : TakesAll p d) where
  pub send_all : (bytes : List ℕ) (n : Net p) → (send p d bytes n).0 ≡ some (length bytes)
  unfolding send
  send_all bytes n = ground (arith, net bytes n.world)

  pub send-calls :
      (bytes : List ℕ) (n : Net p) → (send p d bytes n).1.calls ≡ n.calls ++ sent d bytes ∷ []
  unfolding send
  send-calls bytes n = refl

  -- Sending succeeds, and the bytes are behind those sent before.
  pub send-bytes :
      (bytes : List ℕ) (n : Net p)
      → bytes_sent d (send p d bytes n).1.calls ≡ bytes_sent d n.calls ++ bytes
  send-bytes bytes n =
      rw
        (
          send-calls bytes n,
          bytes_sent-append d n.calls (sent d bytes ∷ []),
          same_descriptor d bytes,
        )
        refl
