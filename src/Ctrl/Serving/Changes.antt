-- ===== src/Ctrl/Serving/Changes.antt =====
-- The orders of cctrlserver.cc that change the lists or close the clients, and SendDistance.
use vwifi.Prelude.{Bool, ℕ, ◌-◌, ◌≡◌, refl, Option, none, some, List, [], ◌∷◌, arith, ltb, count}
use vwifi.Prelude.Bytes.{of_le}
use vwifi.Platform.{Platform}
use vwifi.Info.{InfoWifi, InfoSocket, tcid_guest_min}
use vwifi.Select.{Select, del_node}
use vwifi.Select.Nodes.{count-del_node}
use vwifi.Select.Maximum.{Watches, del_node-Watches}
use vwifi.WifiServer.{WifiServer}
use vwifi.WifiServer.Registry.{descriptors}
use vwifi.WifiServer.Closing.{close_all_client-ClosesAllTo}
use vwifi.Server.{Server}
use vwifi.Server.Sound.{IsSound}
use vwifi.Ctrl.{
  zero_coordinate, change_coordinate, send_distance, send_distance_of, del_nodes,
  close_clients_and_spies,
}
use vwifi.Ctrl.Safety
use vwifi.Ctrl.Edits.{Edits, place-Edits}

count-del_nodes :
    (d : ℕ) (ss : List InfoSocket) (scheduler : Select)
    → count d (del_nodes ss scheduler).list_nodes
      ≡ count d scheduler.list_nodes - count d (descriptors ss)
count-del_nodes d [] scheduler = omega arith
count-del_nodes d (s ∷ ss) scheduler = ground (
  arith,
  count-del_nodes d ss (del_node s.descriptor scheduler),
  count-del_node d s.descriptor scheduler,
)

del_nodes-Watches :
    (strict : Bool) (ss : List InfoSocket) (scheduler : Select)
    → Watches strict scheduler
    → Watches strict (del_nodes ss scheduler)
del_nodes-Watches strict [] scheduler v = v
del_nodes-Watches strict (s ∷ ss) scheduler v =
    del_nodes-Watches strict ss (del_node s.descriptor scheduler)
      (del_node-Watches strict s.descriptor scheduler v)

module _ {p : Platform} {strict : Bool} where
  pub edit-IsSound :
      (s : Server p) (clients spies : WifiServer)
      → IsSound strict 1 s
      → Edits s.clients clients
      → Edits s.spies spies
      → IsSound strict 1 (record s { clients = clients; spies = spies })
  edit-IsSound s clients spies v (vc, ec) (vs, es) = record {
    clients_valid = vc;
    spies_valid = vs;
    orders = v.orders;
    balanced = λ d. rw (ec, es) (v.balanced d);
    watched = v.watched;
  }

  pub change_coordinate-SafeAt :
      (s : Server p) → IsSound strict 1 s → Safety.SafeAt strict change_coordinate s
  unfolding change_coordinate
  change_coordinate-SafeAt s v =
      Safety.bind-SafeAt _ _ s (Safety.ctrl_read-SafeAt 4 s v) λ cid_bytes s₁ v₁.
        Safety.bind-SafeAt _ _ s₁ (Safety.ctrl_read_over-SafeAt zero_coordinate s₁ v₁)
          λ coo_bytes s₂ v₂. Safety.get-SafeAt _ s₂ (
            Safety.unless-SafeAt (ltb (of_le cid_bytes) tcid_guest_min) _ s₂ v₂ λ guest.
              let (clients, e, edits) =
                place-Edits (of_le cid_bytes) _ s₂.clients v₂.clients_valid (ground arith) in
              Safety.checked-SafeAt _ _ s₂ e (
                some tt,
                record s₂ { clients = clients },
                refl,
                edit-IsSound s₂ clients s₂.spies v₂ edits (v₂.spies_valid, refl),
              ))

  send_distance_of-SafeAt :
      (w1 w2 : Option InfoWifi) (s : Server p)
      → IsSound strict 1 s
      → Safety.SafeAt strict (send_distance_of w1 w2) s
  unfolding send_distance_of
  send_distance_of-SafeAt none w2 s v = Safety.ctrl_send-SafeAt _ s v
  send_distance_of-SafeAt (some w1) none s v = Safety.ctrl_send-SafeAt _ s v
  send_distance_of-SafeAt (some w1) (some w2) s v =
      Safety.get-SafeAt _ s (Safety.after_send _ _ s v λ s₁ v₁. Safety.ctrl_send-SafeAt _ s₁ v₁)

  pub send_distance-SafeAt :
      (s : Server p) → IsSound strict 1 s → Safety.SafeAt strict send_distance s
  unfolding send_distance
  send_distance-SafeAt s v = Safety.bind-SafeAt _ _ s (Safety.ctrl_read-SafeAt 4 s v) λ cid1 s₁ v₁.
      Safety.bind-SafeAt _ _ s₁ (Safety.ctrl_read-SafeAt 4 s₁ v₁)
        λ cid2 s₂ v₂. Safety.get-SafeAt _ s₂ (send_distance_of-SafeAt _ _ s₂ v₂)

  pub close_clients_and_spies-SafeAt :
      (s : Server p) → IsSound strict 1 s → Safety.SafeAt strict close_clients_and_spies s
  unfolding close_clients_and_spies
  close_clients_and_spies-SafeAt s v =
      let (clients, n₁, e₁, v₁, no_clients, _, _) =
        close_all_client-ClosesAllTo s.clients s.net v.clients_valid in
      let (spies, n₂, e₂, v₂, no_spies, _, _) =
        close_all_client-ClosesAllTo s.spies n₁ v.spies_valid in
      Safety.get-SafeAt _ s (
        Safety.checked-SafeAt _ _ s e₁ (
          Safety.checked-SafeAt _ _ s e₂ (
            some tt,
            _,
            refl,
            record {
              clients_valid = v₁;
              spies_valid = v₂;
              orders = v.orders;
              balanced = λ d.
                  rw (no_clients, no_spies)
                    (omega (
                      arith,
                      count-del_nodes d s.spies.info_sockets
                          (del_nodes s.clients.info_sockets s.scheduler),
                      count-del_nodes d s.clients.info_sockets s.scheduler,
                      v.balanced d,
                    ));
              watched =
                  del_nodes-Watches strict s.spies.info_sockets _
                    (del_nodes-Watches strict s.clients.info_sockets s.scheduler v.watched);
            },
          )))
