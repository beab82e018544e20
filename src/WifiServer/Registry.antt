-- ===== src/WifiServer/Registry.antt =====
-- The lists of cwifiserver.cc stay well formed: one entry of each list for each client, a bounded
-- memory of disconnected clients, and names that fit the buffers of the control protocol.
use vwifi.Prelude.{
  ℕ, suc, ◌>>=◌, ◌==◌, if◌then◌else◌, if_both, if_split, ◌+◌, ◌≤◌, ◌<◌, ◌≡◌, refl, ap, ltb→lt, ◌∙◌,
  ◌⊎◌, inl, inr, true, Option, none, some, List, [], ◌∷◌, ◌++◌, arith, ltb, length, length-append,
  length-take, All, All-append, lt→ltb, map, Bool-cases,
}
use mathlib.Core.List.{map-append}
use native.Mathlib.Numerals.{add-one}
use native.Mathlib.Nat.{le_refl}
use vwifi.Info.{
  Coordinate, InfoWifi, InfoSocket, set_descriptor, new_info_wifi, set_cid, set_name, max_size_name,
}
use vwifi.WifiServer.{
  WifiServer, listen, get_number_client, recover_infos_of_info_wifi_deconnected,
  recover_infos_of_info_wifi, recover_infos, accept, with_infos, find_cid,
  add_info_wifi_deconnected,
}

abbrev pub NameFits : InfoWifi → Type 0
NameFits w = length w.name ≤ max_size_name

abbrev pub IsCid : ℕ → Type 0
IsCid cid = (cid ≡ 0) ⊎ (3 ≤ cid)

abbrev pub descriptors : List InfoSocket → List ℕ
descriptors = map (λ s. s.descriptor)

pub record IsValid (s : WifiServer) : Type 0 where
  pub paired : length s.info_sockets ≡ length s.info_wifis
  pub room : 0 < s.max_client_deconnected
  pub bounded : length s.info_wifis_deconnected ≤ s.max_client_deconnected
  pub names : All NameFits s.info_wifis
  pub names_deconnected : All NameFits s.info_wifis_deconnected

pub listen-IsValid : (max : ℕ) → 0 < max → IsValid (listen max)
unfolding listen
listen-IsValid max h = record {
  paired = refl;
  room = h;
  bounded = omega arith;
  names = tt;
  names_deconnected = tt;
}

pub set_name-NameFits : (name : List ℕ) (w : InfoWifi) → NameFits (set_name name w)
unfolding set_name
set_name-NameFits name w = ground (arith, length-take 12 name)

with_infos-NameFits : (found : Option (Coordinate × List ℕ)) → NameFits (with_infos found)
unfolding new_info_wifi
with_infos-NameFits none = omega arith
with_infos-NameFits (some (coo, name)) = set_name-NameFits name _

pub set_cid_total :
    (cid : ℕ) (w : InfoWifi) → IsCid cid → set_cid cid w ≡ some (record w { cid = cid })
unfolding set_cid
set_cid_total cid w h = ground arith

-- What is left of the memory when an entry is taken out of it.
abbrev Leaves : List InfoWifi → Option ((Coordinate × List ℕ) × List InfoWifi) → Type 0
Leaves ws none = Unit
Leaves ws (some (found, rest)) =
    (length rest + 1 ≡ length ws) × (All NameFits ws → All NameFits rest)

Leaves-cons :
    (w : InfoWifi) (ws : List InfoWifi) (r : Option ((Coordinate × List ℕ) × List InfoWifi))
    → Leaves ws r
    → Leaves (w ∷ ws) (r >>= λ (found, rest). some (found, w ∷ rest))
Leaves-cons w ws none h = tt
Leaves-cons w ws (some (found, rest)) h = (omega arith, λ n. (n.0, h.1 n.1))

recover_deconnected-Leaves :
    (cid : ℕ) (ws : List InfoWifi) → Leaves ws (recover_infos_of_info_wifi_deconnected cid ws)
unfolding recover_infos_of_info_wifi_deconnected
recover_deconnected-Leaves cid [] = tt
recover_deconnected-Leaves cid (w ∷ ws) =
    if_both (Leaves (w ∷ ws)) (w.cid == cid) (add-one (length ws), λ n. n.1)
      (Leaves-cons w ws _ (recover_deconnected-Leaves cid ws))

-- Looking among the connected clients succeeds, and keeps the sockets but for one that it disables.
abbrev Searched : List InfoSocket → Option (Option (Coordinate × List ℕ) × List InfoSocket) → Type 0
Searched ss none = ⊥
Searched ss (some (found, ss')) = (length ss' ≡ length ss) × (descriptors ss' ≡ descriptors ss)

Searched-cons :
    (s : InfoSocket) (ss : List InfoSocket)
    (r : Option (Option (Coordinate × List ℕ) × List InfoSocket))
    → Searched ss r
    → Searched (s ∷ ss) (r >>= λ (found, ss'). some (found, s ∷ ss'))
Searched-cons s ss none h = h
Searched-cons s ss (some (found, ss')) h = (ap suc h.0, ap (λ ds. s.descriptor ∷ ds) h.1)

recover_connected-Searched :
    (cid : ℕ) (ss : List InfoSocket) (ws : List InfoWifi)
    → length ws ≤ length ss
    → Searched ss (recover_infos_of_info_wifi cid ss ws)
unfolding recover_infos_of_info_wifi
recover_connected-Searched cid ss [] h = (refl, refl)
recover_connected-Searched cid [] (w ∷ ws) h = absurd (omega arith)
recover_connected-Searched cid (s ∷ ss) (w ∷ ws) h =
    let later = Searched-cons s ss _ (recover_connected-Searched cid ss ws (omega arith)) in
    if_both (Searched (s ∷ ss)) s.enable
      (if_both (Searched (s ∷ ss)) (w.cid == cid) (refl, refl) later) later

-- One of the two searches answers, and the lists stay as long as they were but for the entry that
-- was found in the memory.
abbrev Recovered : WifiServer → Option (Option (Coordinate × List ℕ) × WifiServer) → Type 0
Recovered s none = ⊥
Recovered s (some (found, s')) =
    (length s'.info_sockets ≡ length s.info_sockets)
    × (descriptors s'.info_sockets ≡ descriptors s.info_sockets)
    × (s'.info_wifis ≡ s.info_wifis)
    × (s'.max_client_deconnected ≡ s.max_client_deconnected)
    × (length s'.info_wifis_deconnected ≤ length s.info_wifis_deconnected)
    × (All NameFits s.info_wifis_deconnected → All NameFits s'.info_wifis_deconnected)

Recovered-connected :
    (s : WifiServer) (r : Option (Option (Coordinate × List ℕ) × List InfoSocket))
    → Searched s.info_sockets r
    → Recovered s (r >>= λ (found, ss). some (found, record s { info_sockets = ss }))
Recovered-connected s none h = h
Recovered-connected s (some (found, ss)) h = (h.0, h.1, refl, refl, le_refl _, λ n. n)

recover_infos-Recovered :
    (cid : ℕ) (s : WifiServer)
    → length s.info_wifis ≤ length s.info_sockets
    → Recovered s (recover_infos cid s)
unfolding recover_infos
recover_infos-Recovered cid s h =
    go (recover_infos_of_info_wifi_deconnected cid s.info_wifis_deconnected)
      (recover_deconnected-Leaves cid s.info_wifis_deconnected)
  where
    go :
        (r : Option ((Coordinate × List ℕ) × List InfoWifi))
        → Leaves s.info_wifis_deconnected r
        → Recovered s (elim r [
          | some (found, rest) ↦ some (some found, record s { info_wifis_deconnected = rest })
          | none ↦ do
            (found, ss) ← recover_infos_of_info_wifi cid s.info_sockets s.info_wifis
            some (found, record s { info_sockets = ss })
        ])
    go none l =
        Recovered-connected s _ (recover_connected-Searched cid s.info_sockets s.info_wifis h)
    go (some (found, rest)) l = (refl, refl, refl, refl, omega arith, l.1)

abbrev pub AcceptsTo : ℕ → WifiServer → Option WifiServer → Type 0
AcceptsTo d s r =
    (s' : WifiServer) × (r ≡ some s')
    × IsValid s'
    × (get_number_client s' ≡ get_number_client s + 1)
    × (descriptors s'.info_sockets ≡ descriptors s.info_sockets ++ d ∷ [])

-- Accepting a client whose CID is 0 or at least 3, into well-formed lists, succeeds, keeps the
-- lists well formed and adds one client with the new descriptor at the end.
pub accept-IsValid :
    (d cid : ℕ) (s : WifiServer) → IsValid s → IsCid cid → AcceptsTo d s (accept d cid s)
unfolding accept set_descriptor
accept-IsValid d cid s v c = go _ (recover_infos-Recovered cid s₁ (omega (arith, v.paired, len)))
  where
    s₁ : WifiServer
    s₁ = record s { info_sockets = s.info_sockets ++ record { descriptor = d; enable = true } ∷ [] }

    len : length s₁.info_sockets ≡ length s.info_sockets + 1
    len = length-append s.info_sockets (record { descriptor = d; enable = true } ∷ [])

    go :
        (r : Option (Option (Coordinate × List ℕ) × WifiServer))
        → Recovered s₁ r
        → AcceptsTo d s (
            r >>= λ (found, s'). set_cid cid (with_infos found) >>= λ w.
            some (record s' { info_wifis = s'.info_wifis ++ w ∷ [] }))
    go none h = absurd h
    go (some (found, s')) (n, ds, e, m, b, names) =
        let w : InfoWifi = record (with_infos found) { cid = cid } in
        (
          record s' { info_wifis = s'.info_wifis ++ w ∷ [] },
          rw (set_cid_total cid _ c),
          record {
            paired = rw (length-append s'.info_wifis (w ∷ [])) (omega (arith, len, ap length e));
            room = omega arith;
            bounded = omega arith;
            names =
                All-append NameFits s'.info_wifis (w ∷ []) (rw e v.names)
                  (with_infos-NameFits found, tt);
            names_deconnected = names v.names_deconnected;
          },
          omega (arith, len),
          ds ∙ map-append (λ (x : InfoSocket). x.descriptor) s.info_sockets _,
        )

-- The memory with room made for one more: the oldest entry is dropped at the bound.
abbrev pub trim : ℕ → List InfoWifi → List InfoWifi
trim max [] = []
trim max (d ∷ ds) = if ltb (suc (length ds)) max then d ∷ ds else ds

pub trim-NameFits : (max : ℕ) (ds : List InfoWifi) → All NameFits ds → All NameFits (trim max ds)
trim-NameFits max [] n = n
trim-NameFits max (d ∷ ds) n = if_both (All NameFits) (ltb (suc (length ds)) max) n n.1

pub length-trim :
    (max : ℕ) (ds : List InfoWifi) → 0 < max → length ds ≤ max → length (trim max ds) < max
length-trim max [] room b = room
length-trim max (d ∷ ds) room b =
    if_split (λ ws. length ws < max) (ltb (suc (length ds)) max) (ltb→lt _ _) (λ _. b)

pub find_cid-trim :
    (cid max : ℕ) (ds : List InfoWifi) → find_cid cid ds ≡ none → find_cid cid (trim max ds) ≡ none
unfolding find_cid
find_cid-trim cid max [] e = e
find_cid-trim cid max (d ∷ ds) e = ground arith

-- Remembering a client never fails while the memory may hold one.
pub remember_total :
    (w : InfoWifi) (s : WifiServer)
    → 0 < s.max_client_deconnected
    → add_info_wifi_deconnected w s
      ≡ some (record s {
        info_wifis_deconnected = trim s.max_client_deconnected s.info_wifis_deconnected ++ w ∷ [];
      })
unfolding add_info_wifi_deconnected
remember_total w s room = go s.info_wifis_deconnected
  where
    go :
        (ds : List InfoWifi)
        → (if ltb (length ds) s.max_client_deconnected
            then some (record s { info_wifis_deconnected = ds ++ w ∷ [] })
            else (elim ds [
              | [] ↦ none
              | _ ∷ rest ↦ some (record s { info_wifis_deconnected = rest ++ w ∷ [] })
            ]))
          ≡ some (record s { info_wifis_deconnected = trim s.max_client_deconnected ds ++ w ∷ [] })
    go [] = rw (lt→ltb 0 _ room)
    go (d ∷ ds) = elim (Bool-cases (ltb (suc (length ds)) s.max_client_deconnected)) [
      | inl t ↦ rw t
      | inr f ↦ rw f
    ]
