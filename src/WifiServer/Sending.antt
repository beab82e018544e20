-- ===== src/WifiServer/Sending.antt =====
-- Who is sent a signal by the loops of cwifiserver.cc, and which clients a failure disables.
use vwifi.Prelude.{
  ℕ, suc, ◌+◌, ◌≤◌, ◌<◌, ◌≡◌, refl, ap, ◌∙◌, inl, inr, Bool-cases, Bool, true, false, Option, none,
  some, List, [], ◌∷◌, ◌++◌, arith, length, ◌==◌, if◌then◌else◌, append-nil, append_assoc,
}
use vwifi.Prelude.Int.{ℤ}
use vwifi.Prelude.Bytes.{pattern_of}
use vwifi.Platform.{Platform, Net, Call, sent}
use vwifi.Info.{InfoSocket, disable_it}
use vwifi.Socket.{send}
use vwifi.Wifi.{send_signal}
use vwifi.WifiServer.{
  WifiServer, get_number_client, each_client, with_sockets, send_or_disable,
  send_all_clients_without_loss, send_all_other_clients_without_loss,
}

-- A network in which a descriptor takes all that is sent to it, or nothing.
abbrev pub Answers : Platform → (ℕ → Bool) → Type 0
Answers p up =
    (d : ℕ) (bytes : List ℕ) (w : p.World)
    → (p.send d bytes w).0 ≡ (if up d then some (length bytes) else none)

-- The calls for one signal: the power, and the message if the power went through.
abbrev pub signal_calls : (ℕ → Bool) → ℤ → List ℕ → ℕ → List Call
signal_calls up power bytes d =
    sent d (pattern_of 8 power ∷ []) ∷ (if up d then sent d bytes ∷ [] else [])

-- What the loops should do, client by client: `out` are the calls and `after` the entry.
abbrev pub calls_from : (ℕ → InfoSocket → List Call) → ℕ → List InfoSocket → List Call
calls_from out i [] = []
calls_from out i (s ∷ ss) = out i s ++ calls_from out (suc i) ss

abbrev pub sockets_from : (ℕ → InfoSocket → InfoSocket) → ℕ → List InfoSocket → List InfoSocket
sockets_from after i [] = []
sockets_from after i (s ∷ ss) = after i s ∷ sockets_from after (suc i) ss

abbrev pub reached : (ℕ → Bool) → (ℕ → InfoSocket → Bool) → ℕ → InfoSocket → InfoSocket
reached up chosen i s = if chosen i s then (if up s.descriptor then s else disable_it s) else s

abbrev pub reaching :
    (ℕ → Bool) → (ℕ → InfoSocket → Bool) → (ℕ → ℤ) → List ℕ → ℕ → InfoSocket → List Call
reaching up chosen power bytes i s =
    if chosen i s then signal_calls up (power i) bytes s.descriptor else []

module _ {p : Platform} where
  abbrev pub Visits :
      (ℕ → InfoSocket → InfoSocket)
      → (ℕ → InfoSocket → List Call)
      → ℕ
      → InfoSocket
      → Net p
      → Option (InfoSocket × Net p)
      → Type 0
  Visits after out i s n r =
      (n' : Net p) × (r ≡ some (after i s, n')) × (n'.calls ≡ n.calls ++ out i s)

  -- A loop whose rounds do as they should, does as it should.
  pub each_client-Visits :
      (visit : ℕ → InfoSocket → Net p → Option (InfoSocket × Net p))
      (after : ℕ → InfoSocket → InfoSocket) (out : ℕ → InfoSocket → List Call) (bound : ℕ)
      → ((i : ℕ) (s : InfoSocket) (n : Net p) → i < bound → Visits after out i s n (visit i s n))
      → (i : ℕ) (ss : List InfoSocket) (n : Net p) → i + length ss ≤ bound
      → (n' : Net p) × (each_client visit i ss n ≡ some (sockets_from after i ss, n'))
        × (n'.calls ≡ n.calls ++ calls_from out i ss)
  unfolding each_client
  each_client-Visits visit after out bound law i [] n h = (n, refl, rw append-nil)
  each_client-Visits visit after out bound law i (s ∷ ss) n h =
      let (n₁, e₁, c₁) = law i s n (omega arith) in
      let (n₂, e₂, c₂) = each_client-Visits visit after out bound law (suc i) ss n₁ (omega arith) in
      (n₂, rw (e₁, e₂), rw (c₂, c₁, append_assoc))

  -- What a loop should do to the server: the clients that it passes over keep their entry; the
  -- others are sent the signal, at the power of their index, and those that cannot be reached are
  -- disabled.
  abbrev pub SendsTo :
      (ℕ → Bool)
      → (ℕ → InfoSocket → Bool)
      → (ℕ → ℤ)
      → List ℕ
      → WifiServer
      → Net p
      → Option (WifiServer × Net p)
      → Type 0
  SendsTo up chosen power bytes s n r =
      (n' : Net p) × (r
        ≡ some (record s { info_sockets = sockets_from (reached up chosen) 0 s.info_sockets }, n'))
      × (n'.calls ≡ n.calls ++ calls_from (reaching up chosen power bytes) 0 s.info_sockets)

  pub SendsTo-of_Visits :
      (up : ℕ → Bool) (chosen : ℕ → InfoSocket → Bool) (power : ℕ → ℤ) (bytes : List ℕ)
      (s : WifiServer) (n : Net p) (visit : ℕ → InfoSocket → Net p → Option (InfoSocket × Net p))
      → ((i : ℕ) (socket : InfoSocket) (n : Net p)
          → i < get_number_client s
          → Visits
              (reached up chosen)
              (reaching up chosen power bytes)
              i
              socket
              n
              (visit i socket n))
      → SendsTo up chosen power bytes s n (with_sockets s (each_client visit 0 s.info_sockets n))
  SendsTo-of_Visits up chosen power bytes s n visit law =
      let (n', e, c) =
        each_client-Visits visit (reached up chosen) (reaching up chosen power bytes)
          (get_number_client s) law 0 s.info_sockets n (omega arith) in
      (n', rw e, c)

  module _ (up : ℕ → Bool) (net : Answers p up) where
    send_answer :
        (d : ℕ) (bytes : List ℕ) (n : Net p)
        → (n' : Net p) × (send p d bytes n ≡ (if up d then some (length bytes) else none, n'))
          × (n'.calls ≡ n.calls ++ sent d bytes ∷ [])
    unfolding send
    send_answer d bytes n = (
      record { world = (p.send d bytes n.world).1; calls = n.calls ++ sent d bytes ∷ [] },
      ground (arith, net d bytes n.world),
      refl,
    )

    pub send_signal_answer :
        (d : ℕ) (power : ℤ) (bytes : List ℕ) (n : Net p)
        → (n' : Net p) × (send_signal p d power bytes n
            ≡ (if up d then some (length bytes) else none, n'))
          × (n'.calls ≡ n.calls ++ signal_calls up power bytes d)
    unfolding send_signal
    send_signal_answer d power bytes n =
        let (n₁, e₁, c₁) = send_answer d (pattern_of 8 power ∷ []) n in
        let (n₂, e₂, c₂) = send_answer d bytes n₁ in
        elim (Bool-cases (up d)) [
          | inl on ↦ (
            n₂,
            ground (arith, e₁, e₂, on),
            rw on (c₂ ∙ ap (λ c. c ++ sent d bytes ∷ []) c₁ ∙ append_assoc n.calls _ _),
          )
          | inr off ↦ (n₁, ground (arith, e₁, off), rw off c₁)
        ]

    pub send_or_disable_answer :
        (power : ℤ) (bytes : List ℕ) (s : InfoSocket) (n : Net p)
        → (n' : Net p) × (send_or_disable power bytes s n
            ≡ ((if up s.descriptor then s else disable_it s), n'))
          × (n'.calls ≡ n.calls ++ signal_calls up power bytes s.descriptor)
    unfolding send_or_disable
    send_or_disable_answer power bytes s n =
        let (n', e, c) = send_signal_answer s.descriptor power bytes n in (n', ground (arith, e), c)

    -- One round of a loop, by its tests.
    visit_if :
        (b : Bool) (power : ℤ) (bytes : List ℕ) (s : InfoSocket) (n : Net p)
        → (n' : Net p) × ((if b then some (send_or_disable power bytes s n) else some (s, n))
            ≡ some ((if b then (if up s.descriptor then s else disable_it s) else s), n'))
          × (n'.calls ≡ n.calls ++ (if b then signal_calls up power bytes s.descriptor else []))
    visit_if true power bytes s n =
        let (n', e, c) = send_or_disable_answer power bytes s n in (n', ap some e, c)
    visit_if false power bytes s n = (n, refl, rw append-nil)

    pub visit_unless :
        (a b : Bool) (power : ℤ) (bytes : List ℕ) (s : InfoSocket) (n : Net p)
        → (n' : Net p) × ((if a
              then some (s, n)
              else if b
              then some (send_or_disable power bytes s n)
              else some (s, n))
            ≡ some (
              (if (if a then false else b)
                  then (if up s.descriptor then s else disable_it s)
                  else s),
              n',
            ))
          × (n'.calls
              ≡ n.calls
                ++ (if (if a then false else b)
                    then signal_calls up power bytes s.descriptor
                    else []))
    visit_unless true b power bytes s n = (n, refl, rw append-nil)
    visit_unless false b power bytes s n = visit_if b power bytes s n

    -- On a network where a descriptor takes all or nothing, SendAllClientsWithoutLoss sends to
    -- every enabled client and no other, and disables exactly those that cannot be reached.
    pub send_all_clients-SendsTo :
        (power : ℤ) (bytes : List ℕ) (s : WifiServer) (n : Net p)
        → SendsTo up
            (λ i socket. socket.enable)
            (λ i. power)
            bytes
            s
            n
            (send_all_clients_without_loss power bytes s n)
    unfolding send_all_clients_without_loss
    send_all_clients-SendsTo power bytes s n =
        SendsTo-of_Visits up (λ i socket. socket.enable) (λ i. power) bytes s n _
          (λ i socket n h. visit_if socket.enable power bytes socket n)

    -- On a network where a descriptor takes all or nothing, SendAllOtherClientsWithoutLoss sends
    -- to every enabled client but the sender and to no other, and disables exactly those of them
    -- that cannot be reached.
    pub send_all_other_clients-SendsTo :
        (index : ℕ) (power : ℤ) (bytes : List ℕ) (s : WifiServer) (n : Net p)
        → SendsTo up
            (λ i socket. if i == index then false else socket.enable)
            (λ i. power)
            bytes
            s
            n
            (send_all_other_clients_without_loss index power bytes s n)
    unfolding send_all_other_clients_without_loss
    send_all_other_clients-SendsTo index power bytes s n =
        SendsTo-of_Visits up (λ i socket. if i == index then false else socket.enable) (λ i. power)
          bytes s n _ (λ i socket n h. visit_unless (i == index) socket.enable power bytes socket n)
