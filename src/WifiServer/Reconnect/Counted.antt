-- ===== src/WifiServer/Reconnect/Counted.antt =====
-- How many clients with a CID are enabled, as RecoverInfosOfInfoWifi of cwifiserver.cc searches them.
use vwifi.Prelude.{
  ℕ, ◌+◌, ◌-◌, ◌≡◌, ◌≢◌, ◌⊎◌, inl, inr, true, false, Option, none, some, ◌>>=◌, List, [], ◌∷◌, ◌++◌,
  arith, length, if_split, ◌==◌, if◌then◌else◌,
}
use vwifi.Info.{Coordinate, InfoWifi, InfoSocket}
use vwifi.WifiServer.{recover_infos_of_info_wifi}

-- How many enabled clients have a CID.
abbrev pub count_enabled : ℕ → List InfoSocket → List InfoWifi → ℕ
count_enabled cid [] ws = 0
count_enabled cid (s ∷ ss) [] = 0
count_enabled cid (s ∷ ss) (w ∷ ws) =
    (if s.enable then (if w.cid == cid then 1 else 0) else 0) + count_enabled cid ss ws

abbrev pub new_socket : ℕ → InfoSocket
new_socket d = record { descriptor = d; enable = true }

-- The new counts after the search among the connected clients, whose list is one longer than that
-- of the entries.
abbrev pub Disables :
    ℕ
    → ℕ
    → List InfoSocket
    → List InfoWifi
    → InfoWifi
    → Option (Option (Coordinate × List ℕ) × List InfoSocket)
    → Type 0
Disables cid c ss ws new none = ⊥
Disables cid c ss ws new (some (found, ss')) =
    count_enabled c ss' (ws ++ new ∷ [])
    ≡ (if c == cid then count_enabled c ss ws - 1 else count_enabled c ss ws)
      + (if new.cid == c then 1 else 0)

pub Disables-skip :
    (cid c : ℕ) (s : InfoSocket) (ss : List InfoSocket) (w : InfoWifi) (ws : List InfoWifi)
    (new : InfoWifi) (r : Option (Option (Coordinate × List ℕ) × List InfoSocket))
    → (s.enable ≡ false) ⊎ (w.cid ≢ cid)
    → Disables cid c ss ws new r
    → Disables cid c (s ∷ ss) (w ∷ ws) new (r >>= λ (found, ss'). some (found, s ∷ ss'))
Disables-skip cid c s ss w ws new none h k = k
Disables-skip cid c s ss w ws new (some (found, ss')) h k = ground arith

pub count_enabled-append :
    (c d : ℕ) (new : InfoWifi) (ss : List InfoSocket) (ws : List InfoWifi)
    → length ss ≡ length ws
    → count_enabled c (ss ++ new_socket d ∷ []) (ws ++ new ∷ [])
      ≡ count_enabled c ss ws + (if new.cid == c then 1 else 0)
count_enabled-append c d new [] [] h = omega arith
count_enabled-append c d new [] (w ∷ ws) h = absurd (omega arith)
count_enabled-append c d new (s ∷ ss) [] h = absurd (omega arith)
count_enabled-append c d new (s ∷ ss) (w ∷ ws) h =
    ground (arith, count_enabled-append c d new ss ws (omega arith))

pub search-Disables :
    (cid c d : ℕ) (new : InfoWifi) (ss : List InfoSocket) (ws : List InfoWifi)
    → length ss ≡ length ws
    → Disables cid c ss ws new (recover_infos_of_info_wifi cid (ss ++ new_socket d ∷ []) ws)
unfolding recover_infos_of_info_wifi
search-Disables cid c d new [] [] h = ground arith
search-Disables cid c d new (s ∷ ss) [] h = absurd (omega arith)
search-Disables cid c d new [] (w ∷ ws) h = absurd (omega arith)
search-Disables cid c d new (s ∷ ss) (w ∷ ws) h =
    let later = search-Disables cid c d new ss ws (omega arith) in
    let skip =
      λ (k : (s.enable ≡ false) ⊎ (w.cid ≢ cid)). Disables-skip cid c s ss w ws new _ k later in
    if_split (Disables cid c (s ∷ ss) (w ∷ ws) new) s.enable
      (λ on.
        if_split (Disables cid c (s ∷ ss) (w ∷ ws) new) (w.cid == cid)
          (λ e. ground (arith, on, count_enabled-append c d new ss ws (omega arith)))
          (λ ne. skip (inr (λ e. ground arith))))
      (λ off. skip (inl off))
