-- ===== src/WifiServer/Effects/Visits.antt =====
-- What one round of a sending loop of cwifiserver.cc can do at most.
use vwifi.Prelude.{
  ℕ, suc, ◌+◌, ◌≤◌, ◌<◌, ◌≡◌, ◌⊎◌, refl, ap, ◌∙◌, inl, inr, Option-cases, Bool, true, false, Option,
  some, List, [], ◌∷◌, ◌++◌, arith, length, if_both, append-nil, append_assoc, All, All-append,
}
use vwifi.Prelude.Int.{ℤ}
use vwifi.Prelude.Bytes.{pattern_of}
use vwifi.Platform.{Platform, Net, Call, sent}
use vwifi.Info.{InfoSocket}
use vwifi.Socket.{send}
use vwifi.Wifi.{send_signal, packet_is_lost}
use vwifi.WifiServer.{each_client, send_or_disable, send_unless_lost}
use vwifi.WifiServer.Registry.{descriptors}

-- A call that sends something to client `i`, which is enabled and not skipped.
abbrev pub SendsToClient : (ℕ → Bool) → ℕ → InfoSocket → Call → Type 0
SendsToClient skip i s c =
    (s.enable ≡ true) × (skip i ≡ false) × ((bytes : List ℕ) × (c ≡ sent s.descriptor bytes))

-- A call that sends something to one of the clients of a list that begins with client `i`.
abbrev pub SendsToSome : (ℕ → Bool) → ℕ → List InfoSocket → Call → Type 0
SendsToSome skip i [] c = ⊥
SendsToSome skip i (s ∷ ss) c = SendsToClient skip i s c ⊎ SendsToSome skip (suc i) ss c

later :
    (skip : ℕ → Bool) (i : ℕ) (s : InfoSocket) (ss : List InfoSocket) (cs : List Call)
    → All (SendsToSome skip (suc i) ss) cs
    → All (SendsToSome skip i (s ∷ ss)) cs
later skip i s ss [] h = tt
later skip i s ss (c ∷ cs) h = (inr h.0, later skip i s ss cs h.1)

now :
    (skip : ℕ → Bool) (i : ℕ) (s : InfoSocket) (ss : List InfoSocket) (cs : List Call)
    → All (SendsToClient skip i s) cs
    → All (SendsToSome skip i (s ∷ ss)) cs
now skip i s ss [] h = tt
now skip i s ss (c ∷ cs) h = (inl h.0, now skip i s ss cs h.1)

module _ {p : Platform} where
  -- A round may disable the client, and sends to it alone.
  abbrev pub Tame : (ℕ → Bool) → ℕ → InfoSocket → Net p → Option (InfoSocket × Net p) → Type 0
  Tame skip i s n r =
      (s' : InfoSocket) × (n' : Net p) × (cs : List Call) × (r ≡ some (s', n'))
      × (s'.descriptor ≡ s.descriptor)
      × (s'.enable ≡ true → s.enable ≡ true)
      × (n'.calls ≡ n.calls ++ cs)
      × All (SendsToClient skip i s) cs

  abbrev pub TameList :
      (ℕ → Bool) → ℕ → List InfoSocket → Net p → Option (List InfoSocket × Net p) → Type 0
  TameList skip i ss n r =
      (ss' : List InfoSocket) × (n' : Net p) × (cs : List Call) × (r ≡ some (ss', n'))
      × (descriptors ss' ≡ descriptors ss)
      × (length ss' ≡ length ss)
      × (n'.calls ≡ n.calls ++ cs)
      × All (SendsToSome skip i ss) cs

  pub each_client-TameList :
      (visit : ℕ → InfoSocket → Net p → Option (InfoSocket × Net p)) (skip : ℕ → Bool) (bound : ℕ)
      → ((i : ℕ) (s : InfoSocket) (n : Net p) → i < bound → Tame skip i s n (visit i s n))
      → (i : ℕ) (ss : List InfoSocket) (n : Net p) → i + length ss ≤ bound
      → TameList skip i ss n (each_client visit i ss n)
  unfolding each_client
  each_client-TameList visit skip bound law i [] n h =
      ([], n, [], refl, refl, refl, rw append-nil, tt)
  each_client-TameList visit skip bound law i (s ∷ ss) n h =
      let (s', n₁, cs₁, e₁, d₁, on₁, c₁, a₁) = law i s n (omega arith) in
      let (ss', n₂, cs₂, e₂, d₂, l₂, c₂, a₂) =
        each_client-TameList visit skip bound law (suc i) ss n₁ (omega arith) in
      (
        s' ∷ ss',
        n₂,
        cs₁ ++ cs₂,
        rw (e₁, e₂),
        cc,
        ap suc l₂,
        rw (c₂, c₁, append_assoc),
        All-append (SendsToSome skip i (s ∷ ss)) cs₁ cs₂ (now skip i s ss cs₁ a₁)
            (later skip i s ss cs₂ a₂),
      )

  send-calls :
      (d : ℕ) (bytes : List ℕ) (n : Net p)
      → (send p d bytes n).1.calls ≡ n.calls ++ sent d bytes ∷ []
  unfolding send
  send-calls d bytes n = refl

  send_signal-calls :
      (d : ℕ) (power : ℤ) (bytes : List ℕ) (n : Net p)
      → ((send_signal p d power bytes n).1.calls ≡ n.calls ++ sent d (pattern_of 8 power ∷ []) ∷ [])
        ⊎ ((send_signal p d power bytes n).1.calls
            ≡ n.calls ++ sent d (pattern_of 8 power ∷ []) ∷ sent d bytes ∷ [])
  unfolding send_signal
  send_signal-calls d power bytes n =
      let pw = pattern_of 8 power ∷ [] in
      let n₁ = (send p d pw n).1 in
      elim (Option-cases (send p d pw n).0) [
        | inl e ↦ inl (rw (e, send_signal) (send-calls d pw n))
        | inr (k, e) ↦ inr (
            rw (e, send_signal)
              (send-calls d bytes n₁
                ∙ ap (λ c. c ++ sent d bytes ∷ []) (send-calls d pw n)
                ∙ append_assoc n.calls _ _))
      ]

  -- Any sending of a signal to an enabled client that is not skipped is tame.
  pub send_or_disable-Tame :
      (skip : ℕ → Bool) (i : ℕ) (power : ℤ) (bytes : List ℕ) (s : InfoSocket) (n : Net p)
      → s.enable ≡ true
      → skip i ≡ false
      → Tame skip i s n (some (send_or_disable power bytes s n))
  unfolding send_or_disable
  send_or_disable-Tame skip i power bytes s n on k =
      elim (send_signal-calls s.descriptor power bytes n) [
        | inl c ↦ (
          _,
          _,
          sent s.descriptor (pattern_of 8 power ∷ []) ∷ [],
          refl,
          ground arith,
          λ _. on,
          c,
          ((on, k, (_, refl)), tt),
        )
        | inr c ↦ (
          _,
          _,
          sent s.descriptor (pattern_of 8 power ∷ []) ∷ sent s.descriptor bytes ∷ [],
          refl,
          ground arith,
          λ _. on,
          c,
          ((on, k, (_, refl)), ((on, k, (_, refl)), tt)),
        )
      ]

  pub pass-Tame :
      (skip : ℕ → Bool) (i : ℕ) (s : InfoSocket) (n : Net p) → Tame skip i s n (some (s, n))
  pass-Tame skip i s n = (s, n, [], refl, refl, λ e. e, rw append-nil, tt)

  pub send_unless_lost-Tame :
      (skip : ℕ → Bool) (i : ℕ) (can_lose : Bool) (level : ℤ) (bytes : List ℕ) (s : InfoSocket)
      (n : Net p)
      → s.enable ≡ true
      → skip i ≡ false
      → Tame skip i s n (some (send_unless_lost can_lose level bytes s n))
  unfolding send_unless_lost
  send_unless_lost-Tame skip i false level bytes s n on k =
      send_or_disable-Tame skip i level bytes s n on k
  send_unless_lost-Tame skip i true level bytes s n on k =
      let n' : Net p = record n { world = (packet_is_lost p level n.world).1 } in
      if_both (λ (r : InfoSocket × Net p). Tame skip i s n (some r))
        (packet_is_lost p level n.world).0 (s, n', [], refl, refl, λ e. e, rw append-nil, tt)
        (send_or_disable-Tame skip i level bytes s n' on k)
