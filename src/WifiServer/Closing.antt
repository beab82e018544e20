-- ===== src/WifiServer/Closing.antt =====
-- Closing clients of cwifiserver.cc: what stays in the lists, and which sockets are closed.
use vwifi.Prelude.{
  ℕ, zero, suc, ◌+◌, ◌<◌, ◌≡◌, refl, inl, inr, Bool-cases, Option, none, some, List, [], ◌∷◌, ◌++◌,
  arith, length, length-append, length-erase_at, get_elem?, get_elem?_lt, All, All-append,
  All-erase_at, lt→ltb, erase_at, if◌then◌else◌, append-nil, append_assoc,
}
use mathlib.Core.Path.{subst}
use mathlib.Core.Option.{some-injective}
use vwifi.Platform.{Platform, Net, Call, closed}
use vwifi.Info.{InfoWifi, InfoSocket, close_socket}
use vwifi.WifiServer.{WifiServer, get_number_client, close_client, close_clients, close_all_client}
use vwifi.WifiServer.Registry.{NameFits, IsValid, trim, trim-NameFits, length-trim, remember_total}

-- The calls of `close` that removing a client makes: none if the client was disabled before.
abbrev pub close_calls : Option InfoSocket → List Call
close_calls none = []
close_calls (some s) = if s.enable then closed s.descriptor ∷ [] else []

abbrev pub ClosesTo : {p : Platform} → ℕ → WifiServer → Net p → Option (WifiServer × Net p) → Type 0
ClosesTo {p} i s n r =
    (s' : WifiServer) × (n' : Net p) × (r ≡ some (s', n'))
    × IsValid s'
    × (get_number_client s' + 1 ≡ get_number_client s)
    × (s'.info_sockets ≡ erase_at s.info_sockets i)
    × (s'.info_wifis ≡ erase_at s.info_wifis i)
    × (n'.calls ≡ n.calls ++ close_calls (get_elem? s.info_sockets i))
    × ((w : InfoWifi) × (get_elem? s.info_wifis i ≡ some w)
        × (s'.info_wifis_deconnected
            ≡ trim s.max_client_deconnected s.info_wifis_deconnected ++ w ∷ []))

pub All_get_elem? {κ} :
    {A : Type 0} (P : A → Type κ) (xs : List A) (i : ℕ) (a : A)
    → All P xs
    → get_elem? xs i ≡ some a
    → P a
All_get_elem? P [] i a h e = cc
All_get_elem? P (x ∷ xs) zero a h e = subst P (some-injective x a e) h.0
All_get_elem? P (x ∷ xs) (suc i) a h e = All_get_elem? P xs i a h.1 e

module _ {p : Platform} where
  close_socket-calls :
      (s : InfoSocket) (n : Net p) → (close_socket s n).1.calls ≡ n.calls ++ close_calls (some s)
  unfolding close_socket
  close_socket-calls s n = elim (Bool-cases s.enable) [
    | inl on ↦ simp on
    | inr off ↦ simp (off, append-nil)
  ]

  -- Closing a client that exists, in well-formed lists, succeeds, keeps the lists well formed,
  -- removes exactly its entry of both lists, remembers it, and calls close on its descriptor
  -- exactly if it was enabled.
  pub close_client-IsValid :
      (i : ℕ) (s : WifiServer) (n : Net p)
      → IsValid s
      → i < get_number_client s
      → ClosesTo i s n (close_client i s n)
  unfolding close_client
  close_client-IsValid i s n v h =
      let (socket, es) = get_elem?_lt s.info_sockets i h in
      let (w, ew) = get_elem?_lt s.info_wifis i (omega (arith, v.paired)) in
      let s₁ : WifiServer = record s { info_sockets = erase_at s.info_sockets i } in
      let max = s.max_client_deconnected in
      let ws = trim max s.info_wifis_deconnected in
      (
        record s {
          info_sockets = erase_at s.info_sockets i;
          info_wifis = erase_at s.info_wifis i;
          info_wifis_deconnected = ws ++ w ∷ [];
        },
        (close_socket socket n).1,
        rw (lt→ltb _ _ h, es, ew, remember_total w s₁ v.room) refl,
        record {
          paired = omega (
            arith,
            v.paired,
            length-erase_at s.info_sockets i h,
            length-erase_at s.info_wifis i (omega (arith, v.paired)),
          );
          room = v.room;
          bounded =
              rw (length-append ws (w ∷ []))
                (omega (arith, length-trim max s.info_wifis_deconnected v.room v.bounded));
          names = All-erase_at NameFits s.info_wifis i v.names;
          names_deconnected =
              All-append NameFits ws (w ∷ [])
                (trim-NameFits max s.info_wifis_deconnected v.names_deconnected)
                (All_get_elem? NameFits s.info_wifis i w v.names ew, tt);
        },
        length-erase_at s.info_sockets i h,
        refl,
        refl,
        rw es (close_socket-calls socket n),
        (w, ew, refl),
      )

abbrev pub closes : List InfoSocket → List Call
closes [] = []
closes (s ∷ ss) = close_calls (some s) ++ closes ss

abbrev pub ClosesAllTo : {p : Platform} → WifiServer → Net p → Option (WifiServer × Net p) → Type 0
ClosesAllTo {p} s n r =
    (s' : WifiServer) × (n' : Net p) × (r ≡ some (s', n'))
    × IsValid s'
    × (s'.info_sockets ≡ [])
    × (s'.info_wifis ≡ [])
    × (n'.calls ≡ n.calls ++ closes s.info_sockets)

nil_of_length : {A : Type 0} (xs : List A) → length xs ≡ 0 → xs ≡ []
nil_of_length [] h = refl
nil_of_length (x ∷ xs) h = absurd (omega arith)

closes-cons :
    (ss : List InfoSocket)
    → 0 < length ss
    → closes ss ≡ close_calls (get_elem? ss 0) ++ closes (erase_at ss 0)
closes-cons [] h = absurd (omega arith)
closes-cons (s ∷ ss) h = refl

module _ {p : Platform} where
  close_clients-ClosesAllTo :
      (k : ℕ) (s : WifiServer) (n : Net p)
      → IsValid s
      → get_number_client s ≡ k
      → ClosesAllTo s n (close_clients k s n)
  unfolding close_clients
  close_clients-ClosesAllTo zero s n v h =
      let none_left = nil_of_length s.info_sockets h in
      (
        s,
        n,
        refl,
        v,
        none_left,
        nil_of_length s.info_wifis (omega (arith, v.paired)),
        rw (none_left, append-nil),
      )
  close_clients-ClosesAllTo (suc k) s n v h =
      let (s₁, n₁, e₁, v₁, len, ss, ws, calls₁, _) = close_client-IsValid 0 s n v (omega arith) in
      let (s₂, n₂, e₂, v₂, no_ss, no_ws, calls₂) =
        close_clients-ClosesAllTo k s₁ n₁ v₁ (omega arith) in
      (
        s₂,
        n₂,
        rw e₁ e₂,
        v₂,
        no_ss,
        no_ws,
        rw (calls₂, calls₁, ss, append_assoc, closes-cons s.info_sockets (omega arith)) refl,
      )

  -- From well-formed lists CloseAllClient ends with no client in the lists, having called close
  -- once, in order, for each enabled client.
  pub close_all_client-ClosesAllTo :
      (s : WifiServer) (n : Net p) → IsValid s → ClosesAllTo s n (close_all_client s n)
  unfolding close_all_client
  close_all_client-ClosesAllTo s n v = close_clients-ClosesAllTo _ s n v refl
