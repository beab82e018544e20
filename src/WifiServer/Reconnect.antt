-- ===== src/WifiServer/Reconnect.antt =====
-- What a client that comes back finds, by cwifiserver.cc: its place and its name are kept, and an
-- older connection with its CID is disabled.
mod Counted
pub use Counted.{count_enabled}
use Counted.{new_socket, Disables, count_enabled-append, search-Disables}
use vwifi.Prelude.{
  ℕ, ◌+◌, ◌-◌, ◌<◌, ◌≡◌, ◌≢◌, ◌⊎◌, is_none, Option-cases, refl, ap, ◌∙◌, inl, inr, Option, none,
  some, ◌>>=◌, List, [], ◌∷◌, ◌++◌, arith, get_elem?, ◌==◌, erase_at, if◌then◌else◌,
}
use mathlib.Core.Path.{subst}
use vwifi.Platform.{Platform, Net}
use vwifi.Info.{Coordinate, InfoWifi, InfoSocket, set_descriptor, set_name, new_info_wifi}
use vwifi.WifiServer.{
  WifiServer, get_number_client, recover_infos_of_info_wifi_deconnected, recover_infos_of_info_wifi,
  recover_infos, accept, find_cid, close_client, with_infos,
}
use vwifi.WifiServer.Registry.{NameFits, IsCid, IsValid, set_cid_total, trim, find_cid-trim}
use vwifi.WifiServer.Closing.{All_get_elem?, close_client-IsValid}

abbrev with_new : ℕ → WifiServer → WifiServer
with_new d s = record s { info_sockets = s.info_sockets ++ new_socket d ∷ [] }

-- The entry for a client with what was recovered of it.
abbrev entry : ℕ → Option (Coordinate × List ℕ) → InfoWifi
entry cid found = record (with_infos found) { cid = cid }

recover_absent :
    (cid : ℕ) (ws : List InfoWifi)
    → find_cid cid ws ≡ none
    → recover_infos_of_info_wifi_deconnected cid ws ≡ none
unfolding find_cid recover_infos_of_info_wifi_deconnected
recover_absent cid [] e = refl
recover_absent cid (w ∷ ws) e = ground (arith, recover_absent cid ws)

recover_last :
    (cid : ℕ) (ws : List InfoWifi) (w : InfoWifi)
    → find_cid cid ws ≡ none
    → w.cid ≡ cid
    → recover_infos_of_info_wifi_deconnected cid (ws ++ w ∷ []) ≡ some ((w.coordinate, w.name), ws)
unfolding find_cid recover_infos_of_info_wifi_deconnected
recover_last cid [] w e h = ground arith
recover_last cid (x ∷ ws) w e h = ground (arith, recover_last cid ws w)

recover_infos_known :
    (cid : ℕ) (s : WifiServer) (info : Coordinate × List ℕ) (rest : List InfoWifi)
    → recover_infos_of_info_wifi_deconnected cid s.info_wifis_deconnected ≡ some (info, rest)
    → recover_infos cid s ≡ some (some info, record s { info_wifis_deconnected = rest })
unfolding recover_infos
recover_infos_known cid s info rest e = rw (e, recover_infos)

recover_infos_unknown :
    (cid : ℕ) (s : WifiServer) {found : Option (Coordinate × List ℕ)} {ss : List InfoSocket}
    → recover_infos_of_info_wifi_deconnected cid s.info_wifis_deconnected ≡ none
    → recover_infos_of_info_wifi cid s.info_sockets s.info_wifis ≡ some (found, ss)
    → recover_infos cid s ≡ some (found, record s { info_sockets = ss })
unfolding recover_infos
recover_infos_unknown cid s e h = rw (e, recover_infos, h)

accept_known :
    (d cid : ℕ) (s : WifiServer) (info : Coordinate × List ℕ) (rest : List InfoWifi)
    → IsCid cid
    → recover_infos_of_info_wifi_deconnected cid s.info_wifis_deconnected ≡ some (info, rest)
    → accept d cid s
      ≡ some (record s {
        info_sockets = s.info_sockets ++ new_socket d ∷ [];
        info_wifis = s.info_wifis ++ entry cid (some info) ∷ [];
        info_wifis_deconnected = rest;
      })
unfolding accept set_descriptor
accept_known d cid s info rest c e =
    rw
      (
        recover_infos_known cid (with_new d s) info rest e,
        accept,
        set_cid_total cid (with_infos (some info)) c,
      )
      refl

accept_unknown :
    (d cid : ℕ) (s : WifiServer) (found : Option (Coordinate × List ℕ)) (ss : List InfoSocket)
    → IsCid cid
    → recover_infos_of_info_wifi_deconnected cid s.info_wifis_deconnected ≡ none
    → recover_infos_of_info_wifi cid (s.info_sockets ++ new_socket d ∷ []) s.info_wifis
      ≡ some (found, ss)
    → accept d cid s
      ≡ some (record s { info_sockets = ss; info_wifis = s.info_wifis ++ entry cid found ∷ [] })
unfolding accept set_descriptor
accept_unknown d cid s found ss c e h =
    rw
      (recover_infos_unknown cid (with_new d s) e h, accept, set_cid_total cid (with_infos found) c)
      refl

known_iff :
    (cid : ℕ) (ws : List InfoWifi)
    → is_none (find_cid cid ws) ≡ is_none (recover_infos_of_info_wifi_deconnected cid ws)
unfolding find_cid recover_infos_of_info_wifi_deconnected
known_iff cid [] = refl
known_iff cid (w ∷ ws) = ground (arith, known_iff cid ws)

abbrev pub CountsAfter : ℕ → ℕ → WifiServer → Option WifiServer → Type 0
CountsAfter cid c s r =
    (s' : WifiServer) × (r ≡ some s')
    × (count_enabled c s'.info_sockets s'.info_wifis ≡ (
        if c == cid
        then (if is_none (find_cid cid s.info_wifis_deconnected)
            then count_enabled c s.info_sockets s.info_wifis - 1
            else count_enabled c s.info_sockets s.info_wifis)
          + 1
        else count_enabled c s.info_sockets s.info_wifis))

accept_absent :
    (d cid c : ℕ) (s : WifiServer)
    → IsValid s
    → IsCid cid
    → recover_infos_of_info_wifi_deconnected cid s.info_wifis_deconnected ≡ none
    → CountsAfter cid c s (accept d cid s)
accept_absent d cid c s v k e =
    elim (Option-cases (recover_infos_of_info_wifi cid (with_new d s).info_sockets s.info_wifis)) [
      | inl h ↦ absurd (
          subst (Disables cid c s.info_sockets s.info_wifis new_info_wifi) h
            (search-Disables cid c d new_info_wifi s.info_sockets s.info_wifis v.paired))
      | inr ((found, ss), h) ↦ (
        record s { info_sockets = ss; info_wifis = s.info_wifis ++ entry cid found ∷ [] },
        accept_unknown d cid s found ss k e h,
        ground (
          arith,
          known_iff cid s.info_wifis_deconnected,
          e,
          subst (Disables cid c s.info_sockets s.info_wifis (entry cid found)) h
              (search-Disables cid c d (entry cid found) s.info_sockets s.info_wifis v.paired),
        ),
      )
    ]

-- In well-formed lists, accepting a client with a CID of 0 or at least 3: if the memory has no
-- entry with the CID, an older enabled connection with it, where there is one, is disabled; if it
-- has one, none is disabled; the numbers of enabled clients with other CIDs stay.
pub count_enabled-accept :
    (d cid c : ℕ) (s : WifiServer) → IsValid s → IsCid cid → CountsAfter cid c s (accept d cid s)
count_enabled-accept d cid c s v k =
    elim (Option-cases (recover_infos_of_info_wifi_deconnected cid s.info_wifis_deconnected)) [
      | inl e ↦ accept_absent d cid c s v k e
      | inr ((info, rest), e) ↦ (
        record s {
          info_sockets = s.info_sockets ++ new_socket d ∷ [];
          info_wifis = s.info_wifis ++ entry cid (some info) ∷ [];
          info_wifis_deconnected = rest;
        },
        accept_known d cid s info rest k e,
        ground (
          arith,
          known_iff cid s.info_wifis_deconnected,
          e,
          count_enabled-append c d (entry cid (some info)) s.info_sockets s.info_wifis v.paired,
        ),
      )
    ]

entry_self : (w : InfoWifi) → NameFits w → entry w.cid (some (w.coordinate, w.name)) ≡ w
unfolding set_name new_info_wifi
entry_self w fits = ground arith

-- In well-formed lists, a client with a CID of 0 or at least 3 that is closed and comes back with
-- its CID, of which the memory had no older entry, has its coordinates and name again, and its
-- entry leaves the memory.
pub accept-close_client :
    {p : Platform} (i d : ℕ) (s : WifiServer) (n : Net p) (w : InfoWifi)
    → IsValid s
    → i < get_number_client s
    → get_elem? s.info_wifis i ≡ some w
    → IsCid w.cid
    → find_cid w.cid s.info_wifis_deconnected ≡ none
    → (s₁ s₂ : WifiServer) × (n₁ : Net p) × (close_client i s n ≡ some (s₁, n₁))
      × (accept d w.cid s₁ ≡ some s₂)
      × (s₂.info_wifis ≡ erase_at s.info_wifis i ++ w ∷ [])
      × (s₂.info_wifis_deconnected ≡ trim s.max_client_deconnected s.info_wifis_deconnected)
accept-close_client i d s n w v h e c absent =
    let (s₁, n₁, closed, v₁, _, _, ws, _, (w', e', memory)) = close_client-IsValid i s n v h in
    let max = s.max_client_deconnected in
    let same : w' ≡ w = cc in
    let remembered : s₁.info_wifis_deconnected ≡ trim max s.info_wifis_deconnected ++ w ∷ [] =
      memory ∙ ap (λ x. trim max s.info_wifis_deconnected ++ x ∷ []) same in
    (
      s₁,
      record s₁ {
        info_sockets = s₁.info_sockets ++ new_socket d ∷ [];
        info_wifis = s₁.info_wifis ++ entry w.cid (some (w.coordinate, w.name)) ∷ [];
        info_wifis_deconnected = trim max s.info_wifis_deconnected;
      },
      n₁,
      closed,
      accept_known d w.cid s₁ (w.coordinate, w.name) (trim max s.info_wifis_deconnected) c
          (rw remembered (
            recover_last w.cid (trim max s.info_wifis_deconnected) w
              (find_cid-trim w.cid max s.info_wifis_deconnected absent) refl)),
      rw (ws, entry_self w (All_get_elem? NameFits s.info_wifis i w v.names e)) refl,
      refl,
    )
