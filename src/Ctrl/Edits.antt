-- ===== src/Ctrl/Edits.antt =====
-- What placing and renaming a client do to the lists of a server, for cctrlserver.cc.
use vwifi.Prelude.{
  ℕ, ◌≤◌, ◌≡◌, refl, inl, inr, Option-cases, some, List, [], ◌∷◌, ◌++◌, arith, length-append,
  All-append,
}
use vwifi.Info.{Coordinate, InfoWifi, set_name, set_coordinate, info_wifi, new_info_wifi}
use vwifi.WifiServer.{WifiServer, find_cid}
use vwifi.WifiServer.Registry.{
  NameFits, IsCid, set_name-NameFits, set_cid_total, descriptors, trim, length-trim, trim-NameFits,
  remember_total,
}
use vwifi.WifiServer.Registry
use vwifi.Ctrl.{place, rename, change_connected, change_deconnected}
use vwifi.Ctrl.Safety

-- The same clients, in well-formed lists.
abbrev pub Edits : WifiServer → WifiServer → Type 0
Edits s s' = Registry.IsValid s' × (s'.info_sockets ≡ s.info_sockets)

change_connected-Edits :
    (f : InfoWifi → InfoWifi) (i : ℕ) (s : WifiServer)
    → ((w : InfoWifi) → NameFits w → NameFits (f w))
    → Registry.IsValid s
    → Edits s (change_connected f i s)
change_connected-Edits f i s keep v = (
  record {
    paired = omega (arith, v.paired, Safety.length-change_at f i s.info_wifis);
    room = v.room;
    bounded = v.bounded;
    names = Safety.change_at-NameFits f i s.info_wifis keep v.names;
    names_deconnected = v.names_deconnected;
  },
  refl,
)

change_deconnected-Edits :
    (f : InfoWifi → InfoWifi) (i : ℕ) (s : WifiServer)
    → ((w : InfoWifi) → NameFits w → NameFits (f w))
    → Registry.IsValid s
    → Edits s (change_deconnected f i s)
change_deconnected-Edits f i s keep v = (
  record {
    paired = v.paired;
    room = v.room;
    bounded = omega (arith, v.bounded, Safety.length-change_at f i s.info_wifis_deconnected);
    names = v.names;
    names_deconnected =
        Safety.change_at-NameFits f i s.info_wifis_deconnected keep v.names_deconnected;
  },
  refl,
)

remember-Edits :
    (w : InfoWifi) (s : WifiServer)
    → NameFits w
    → Registry.IsValid s
    → Edits s (record s {
      info_wifis_deconnected = trim s.max_client_deconnected s.info_wifis_deconnected ++ w ∷ [];
    })
remember-Edits w s fits v =
    let ds = s.info_wifis_deconnected in
    let ws = trim s.max_client_deconnected ds in
    (
      record {
        paired = v.paired;
        room = v.room;
        bounded =
            rw (length-append ws (w ∷ []))
              (omega (arith, length-trim s.max_client_deconnected ds v.room v.bounded));
        names = v.names;
        names_deconnected =
            All-append NameFits ws (w ∷ [])
              (trim-NameFits s.max_client_deconnected ds v.names_deconnected) (fits, tt);
      },
      refl,
    )

-- Placing a client succeeds for every CID of a guest, known or not, and keeps well-formed lists
-- so, and the sockets as they were.
pub place-Edits :
    (cid : ℕ) (coo : Coordinate) (s : WifiServer)
    → Registry.IsValid s
    → 3 ≤ cid
    → (s' : WifiServer) × (place cid coo s ≡ some s') × Edits s s'
unfolding place info_wifi new_info_wifi
place-Edits cid coo s v h = elim (Option-cases (find_cid cid s.info_wifis)) [
  | inr (i, e) ↦ (
    change_connected (set_coordinate coo) i s,
    rw (e, place) refl,
    change_connected-Edits (set_coordinate coo) i s (λ w n. n) v,
  )
  | inl e ↦ elim (Option-cases (find_cid cid s.info_wifis_deconnected)) [
    | inr (i, e') ↦ (
      change_deconnected (set_coordinate coo) i s,
      rw (e, e', place) refl,
      change_deconnected-Edits (set_coordinate coo) i s (λ w n. n) v,
    )
    | inl e' ↦
        let w : InfoWifi = record { coordinate = coo; cid = cid; name = [] } in
        (
          _,
          rw
              (
                e,
                e',
                place,
                set_cid_total cid (set_coordinate coo new_info_wifi) (inr h),
                remember_total w s v.room,
              )
              refl,
          remember-Edits w s (omega arith) v,
        )
  ]
]

pub rename-Edits :
    (cid : ℕ) (name : List ℕ) (clients spies : WifiServer)
    → Registry.IsValid clients
    → Registry.IsValid spies
    → Edits clients (rename cid name clients spies).0
      × Edits spies (rename cid name clients spies).1
unfolding rename
rename-Edits cid name clients spies vc vs = elim (Option-cases (find_cid cid clients.info_wifis)) [
  | inr (i, e) ↦
      rw (e, rename) (change_connected-Edits (set_name name) i clients fits vc, (vs, refl))
  | inl e ↦ elim (Option-cases (find_cid cid clients.info_wifis_deconnected)) [
    | inr (i, e') ↦
        rw (e, e', rename) (change_deconnected-Edits (set_name name) i clients fits vc, (vs, refl))
    | inl e' ↦ elim (Option-cases (find_cid cid spies.info_wifis)) [
      | inr (i, e'') ↦
          rw (e, e', e'', rename)
            ((vc, refl), change_connected-Edits (set_name name) i spies fits vs)
      | inl e'' ↦ rw (e, e', e'', rename) ((vc, refl), (vs, refl))
    ]
  ]
]
  where
    fits : (w : InfoWifi) → NameFits w → NameFits (set_name name w)
    fits w _ = set_name-NameFits name w
