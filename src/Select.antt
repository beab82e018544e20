-- ===== src/Select.antt =====
-- cselect.cc and cselect.h: the sockets that the program waits on. A descriptor that is added is
-- not negative; `fd_set` is a test on descriptors.
pub mod Maximum
pub mod Nodes
use vwifi.Prelude.{
  ℕ, ◌+◌, Bool, true, false, not, ◌&&◌, ◌>>=◌, Option, some, List, [], ◌∷◌, ◌++◌, ◌==◌,
  if◌then◌else◌, get_elem?, ltb,
}
use vwifi.Prelude.Int.{ℤ, pos, negsuc, ltb_ℤ, ◌+ℤ◌}
use vwifi.Platform.{Platform}

abbrev pub scheduler_error : ℤ
scheduler_error = negsuc 0

pub record Select : Type 0 where
  pub master : ℕ → Bool
  pub dup : ℕ → Bool
  pub max_descriptor : ℤ
  pub list_nodes : List ℕ
  -- No FD_SET has written behind the end of a set so far: what the sets hold is only known then.
  pub intact : Bool

-- Of the headers of the system.
abbrev pub fd_setsize : ℕ
fd_setsize = 1024

-- FD_SET and FD_CLR.
abbrev pub fd_set : ℕ → (ℕ → Bool) → ℕ → Bool
fd_set d s x = if x == d then true else s x

abbrev pub fd_clr : ℕ → (ℕ → Bool) → ℕ → Bool
fd_clr d s x = if x == d then false else s x

unfoldable pub init : Select
init = record {
  master = λ _. false;
  dup = λ _. false;
  max_descriptor = negsuc 0;
  list_nodes = [];
  intact = true;
}

abbrev pub update_max_descriptor : ℕ → ℤ → ℤ
update_max_descriptor d m = if ltb_ℤ m (pos d) then pos d else m

unfoldable pub add_node : ℕ → Select → Select
add_node d s = record s {
  list_nodes = s.list_nodes ++ d ∷ [];
  master = fd_set d s.master;
  max_descriptor = update_max_descriptor d s.max_descriptor;
  intact = s.intact && ltb d fd_setsize;
}

-- The second loop of `DelNode`, over the nodes behind the one that is deleted.
unfoldable pub update_all : List ℕ → ℤ → ℤ
update_all [] m = m
update_all (d ∷ ds) m = update_all ds (update_max_descriptor d m)

-- The first loop of `DelNode`: the maximum, the nodes that stay, and whether one was found.
unfoldable pub del_loop : ℕ → List ℕ → ℤ → ℤ × List ℕ × Bool
del_loop d [] m = (m, [], false)
del_loop d (x ∷ xs) m =
    let (m', xs', found) = del_loop d xs (update_max_descriptor x m) in
    if x == d then (update_all xs m, xs, true) else (m', x ∷ xs', found)

unfoldable pub del_node : ℕ → Select → Select
del_node d s =
    let (m, nodes, found) = del_loop d s.list_nodes (negsuc 0) in
    record s {
      max_descriptor = m;
      list_nodes = nodes;
      master = if found then fd_clr d s.master else s.master;
    }

unfoldable pub descriptor_has_action : ℕ → Select → Bool
descriptor_has_action d s = s.dup d

-- `none`: the assertion on the index fails.
unfoldable pub node_has_action : ℕ → Select → Option Bool
node_has_action index s = do node ← get_elem? s.list_nodes index; some (s.dup node)

module _ (p : Platform) where
  unfoldable pub wait : Select → p.World → ℤ × Select × p.World
  wait s w =
      let (activity, interrupted, ready, w') = p.pselect (s.max_descriptor +ℤ pos 1) s.master w in
      let s' : Select = record s { dup = ready } in
      if ltb_ℤ activity (pos 0) && not interrupted
      then (scheduler_error, s', w')
      else (activity, s', w')
