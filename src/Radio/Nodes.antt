-- ===== src/Radio/Nodes.antt =====
-- The nodes of the scheduler over the connections of cwificlient.h.
use vwifi.Prelude.{◌≡◌, refl, Bool, [], ◌∷◌, ◌++◌, if◌then◌else◌, if_both, append-nil}
use vwifi.Prelude.Int.{pos_part}
use vwifi.Platform.{Platform}
use vwifi.Select.{add_node}
use vwifi.Client.{connect}
use vwifi.Kernel.{Kernel}
use vwifi.Radio.{Radio}
use vwifi.Radio.Connecting.{enroll, connect_radio, reconnect_to_server}

module _ {p : Platform} where
  -- One node more for a connection, and none taken away.
  abbrev pub Adds : Radio p → Bool × Radio p → Type 0
  Adds r (ok, r') =
      r'.scheduler.list_nodes
      ≡ r.scheduler.list_nodes ++ (if ok then pos_part r'.client.master ∷ [] else [])

module _ {p : Platform} (k : Kernel p) (hash_uses_port : Bool) where
  connect_radio-Adds : (r : Radio p) → Adds r (connect_radio k hash_uses_port r)
  unfolding connect_radio enroll add_node
  connect_radio-Adds r = if_both (Adds r) (connect k r.client r.net).0 refl (rw append-nil)

  -- reconnect_to_server keeps all nodes of the scheduler and, if it succeeds, puts the new
  -- descriptor behind them.
  pub reconnect_to_server-Adds : (r : Radio p) → Adds r (reconnect_to_server k hash_uses_port r)
  unfolding reconnect_to_server
  reconnect_to_server-Adds r = connect_radio-Adds _
