-- ===== src/Client/Connection.antt =====
-- csocketclient.cc: what an attempt to connect leaves behind.
use mathlib.Core.Path.{subst}
use vwifi.Prelude.{
  ℕ, ◌≡◌, refl, sym, ◌⊎◌, inl, inr, Option-cases, Bool, true, false, none, some, [], ◌∷◌, ◌++◌,
  arith, if◌then◌else◌,
}
use vwifi.Prelude.Int.{pos}
use vwifi.Platform.{Platform, Net, closed}
use vwifi.Socket.{socket_error}
use vwifi.Kernel.{Kernel}
use vwifi.Client.{SocketClient, close, configure, give_up, connect}

module _ {p : Platform} where
  module _ (k : Kernel p) where
    -- The descriptor that socket gives, and how the attempt to connect it ends.
    abbrev pub Tried : ℕ → Bool → SocketClient → Net p → Type 0
    Tried d ok s n =
        ((k.socket s.server n.world).0 ≡ some d)
        × ((k.connect (pos d) s.server (k.socket s.server n.world).1).0 ≡ ok)

    -- A success holds the descriptor that socket gave; a failure holds none, and has closed the
    -- one that socket gave, if any.
    abbrev pub Connects : SocketClient → Net p → Bool × SocketClient × Net p → Type 0
    Connects s n (true, s', n') =
        (d : ℕ) × Tried d true s n
        × (s'.master ≡ pos d)
        × (s'.is_connected ≡ true)
        × (n'.calls ≡ n.calls)
    Connects s n (false, s', n') =
        (s'.master ≡ socket_error)
        × (s'.is_connected ≡ s.is_connected)
        × ((((k.socket s.server n.world).0 ≡ none) × (n'.calls ≡ n.calls))
            ⊎ ((d : ℕ) × Tried d false s n × (n'.calls ≡ n.calls ++ closed d ∷ [])))

    -- The state with its new descriptor, and what `connect` then does.
    abbrev attempt : ℕ → SocketClient → Net p → Bool × SocketClient × Net p
    attempt d s n =
        let s' : SocketClient = record s { master = pos d } in
        let (ok, w) = k.connect s'.master s'.server n.world in
        let n' : Net p = record n { world = w } in
        if ok then (true, record s' { is_connected = true }, n') else give_up k s' n'

    attempt-Connects :
        (d : ℕ) (s : SocketClient) (n : Net p) (ok : Bool)
        → Tried d ok s n
        → Connects s n (
            let n' : Net p = record n {
              world = (k.connect (pos d) s.server (k.socket s.server n.world).1).1;
            } in
            let s' : SocketClient = record s { master = pos d } in
            if ok then (true, record s' { is_connected = true }, n') else give_up k s' n')
    unfolding give_up close
    attempt-Connects d s n true t = (d, t, refl, refl, refl)
    attempt-Connects d s n false t = (refl, refl, inr (d, t, refl))

    pub connect-none :
        (s : SocketClient) (n : Net p)
        → (k.socket s.server n.world).0 ≡ none
        → connect k s n ≡ (
          false,
          record s { master = socket_error },
          record n { world = (k.socket s.server n.world).1 },
        )
    unfolding connect configure
    connect-none s n e = ground (arith, e)

    pub connect-some :
        (s : SocketClient) (n : Net p) (d : ℕ)
        → (k.socket s.server n.world).0 ≡ some d
        → connect k s n ≡ attempt d s (record n { world = (k.socket s.server n.world).1 })
    unfolding connect configure
    connect-some s n d e = ground (arith, e)

    -- An attempt to connect that succeeds holds the descriptor that socket gave and that the
    -- system's connect succeeded on, is connected and has closed nothing; one that fails holds no
    -- descriptor and leaves IsConnected as it was, and either socket gave none and nothing was
    -- closed, or the system's connect failed on the descriptor that socket gave and this one was
    -- closed and nothing else.
    pub connect-Connects : (s : SocketClient) (n : Net p) → Connects s n (connect k s n)
    connect-Connects s n =
        let w = (k.socket s.server n.world).1 in
        elim (Option-cases (k.socket s.server n.world).0) [
          | inl e ↦ subst (Connects s n) (sym (connect-none s n e)) (refl, refl, inl (e, refl))
          | inr (d, e) ↦
              subst (Connects s n) (sym (connect-some s n d e))
                (attempt-Connects d s n (k.connect (pos d) s.server w).0 (e, refl))
        ]
