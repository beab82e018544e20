-- ===== src/Select/Nodes.antt =====
-- The nodes of cselect.cc, counted: which additions and removals there were.
use vwifi.Prelude.{
  ℕ, ◌+◌, ◌-◌, ◌<◌, ◌≡◌, ◌⊎◌, refl, inl, inr, Bool-cases, true, false, List, [], ◌∷◌, arith, ◌==◌,
  if◌then◌else◌, count, count-append,
}
use vwifi.Prelude.Int.{ℤ, negsuc}
use vwifi.Select.{
  Select, init, fd_clr, update_max_descriptor, update_all, del_loop, add_node, del_node,
}

-- The nodes without the first that is `d`.
abbrev pub remove_first : ℕ → List ℕ → List ℕ
remove_first d [] = []
remove_first d (x ∷ xs) = if x == d then xs else x ∷ remove_first d xs

pub count-remove_first :
    (d x : ℕ) (xs : List ℕ) → count d (remove_first x xs) ≡ count d xs - (if x == d then 1 else 0)
count-remove_first d x [] = ground arith
count-remove_first d x (y ∷ ys) = ground (arith, count-remove_first d x ys)

-- Both loops of `DelNode` together: the maximum is that of the nodes that stay.
pub del_loop_lem :
    (d : ℕ) (xs : List ℕ) (m : ℤ)
    → del_loop d xs m ≡ (
      update_all (remove_first d xs) m,
      remove_first d xs,
      (if count d xs == 0 then false else true),
    )
unfolding del_loop update_all
del_loop_lem d [] m = refl
del_loop_lem d (x ∷ xs) m = elim (Bool-cases (x == d)) [
  | inl e ↦ rw e (ground arith)
  | inr e ↦ rw (e, del_loop_lem d xs (update_max_descriptor x m)) (ground arith)
]

pub list_nodes-del_node :
    (d : ℕ) (s : Select) → (del_node d s).list_nodes ≡ remove_first d s.list_nodes
unfolding del_node
list_nodes-del_node d s = rw (del_loop_lem d s.list_nodes (negsuc 0))

pub count-del_node :
    (d x : ℕ) (s : Select)
    → count d (del_node x s).list_nodes ≡ count d s.list_nodes - (if x == d then 1 else 0)
count-del_node d x s = rw (list_nodes-del_node x s) (count-remove_first d x s.list_nodes)

pub count-add_node :
    (d x : ℕ) (s : Select)
    → count d (add_node x s).list_nodes ≡ count d s.list_nodes + (if x == d then 1 else 0)
unfolding add_node
count-add_node d x s = rw (count-append d s.list_nodes (x ∷ [])) (ground arith)

-- The set that is given to pselect has no descriptor that is not one of the nodes.
abbrev pub WatchesNodes : Select → Type 0
WatchesNodes s = (d : ℕ) → (s.master d ≡ false) ⊎ (0 < count d s.list_nodes)

pub init-WatchesNodes : WatchesNodes init
unfolding init
init-WatchesNodes d = inl refl

pub add_node-WatchesNodes : (x : ℕ) (s : Select) → WatchesNodes s → WatchesNodes (add_node x s)
unfolding add_node
add_node-WatchesNodes x s v d = elim (Bool-cases (d == x)) [
  | inl e ↦ inr (ground (arith, e, count-add_node d x s))
  | inr e ↦ elim (v d) [
    | inl off ↦ inl (kept e off)
    | inr h ↦ inr (omega (arith, h, count-add_node d x s))
  ]
]
  where
    kept : (d == x) ≡ false → s.master d ≡ false → (add_node x s).master d ≡ false
    kept e off = rw (e, off) refl

-- Where the deleted descriptor is a node, it is cleared; another keeps its nodes.
pub del_node-WatchesNodes : (x : ℕ) (s : Select) → WatchesNodes s → WatchesNodes (del_node x s)
unfolding del_node
del_node-WatchesNodes x s v = rw (del_loop_lem x s.list_nodes (negsuc 0)) λ d. watched_after d (v d)
  where
    watched_after :
        (d : ℕ)
        → (s.master d ≡ false) ⊎ (0 < count d s.list_nodes)
        → ((if (if count x s.list_nodes == 0 then false else true)
                then fd_clr x s.master
                else s.master)
              d
            ≡ false)
          ⊎ (0 < count d (remove_first x s.list_nodes))
    watched_after d (inl off) = inl (ground (arith, off))
    watched_after d (inr h) = elim (Bool-cases (d == x)) [
      | inl e ↦ inl (ground (arith, h, e))
      | inr e ↦ inr (ground (arith, h, e, count-remove_first d x s.list_nodes))
    ]
