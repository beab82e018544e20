-- ===== src/Select/Maximum.antt =====
-- The set and the highest descriptor of cselect.cc agree with its nodes.
use vwifi.Prelude.{
  ℕ, ◌≤◌, ◌<◌, ◌≡◌, ◌⊎◌, refl, inl, inr, if_split, append-nil, append_assoc, Bool, true, false,
  List, [], ◌∷◌, ◌++◌, arith, ltb, ◌==◌, if◌then◌else◌, count, count-append,
}
use mathlib.Core.Path.{subst}
use vwifi.Prelude.Int.{ℤ, negsuc, pos, ◌≤ℤ◌, ltb_ℤ}
use vwifi.Select.{Select, init, update_max_descriptor, update_all, add_node, del_node, fd_clr}
use vwifi.Select.Nodes.{
  WatchesNodes, del_node-WatchesNodes, remove_first, count-remove_first, del_loop_lem,
}

-- `m` is the highest of the nodes, and -1 where there are none.
pub record IsMax (m : ℤ) (nodes : List ℕ) : Type 0 where
  pub above : (d : ℕ) → 0 < count d nodes → pos d ≤ℤ m
  pub reached : (m ≡ negsuc 0) ⊎ ((x : ℕ) × (m ≡ pos x) × (0 < count x nodes))

-- Each descriptor stands once at most, and the set holds those that stand there.
pub record IsValid (s : Select) : Type 0 where
  pub distinct : (d : ℕ) → count d s.list_nodes ≤ 1
  pub watched : (d : ℕ) → s.master d ≡ ltb 0 (count d s.list_nodes)
  pub highest : IsMax s.max_descriptor s.list_nodes

pub init-IsValid : IsValid init
unfolding init
init-IsValid = record {
  distinct = λ d. omega arith;
  watched = λ d. refl;
  highest = record { above = λ d h. absurd (omega arith); reached = inl refl };
}

IsMax-add :
    (d : ℕ) (m : ℤ) (xs : List ℕ) → IsMax m xs → IsMax (update_max_descriptor d m) (xs ++ d ∷ [])
IsMax-add d m xs v = record {
  above = λ x h. ground (arith, count-append x xs (d ∷ []), v.above x);
  reached =
      if_split (λ z. (z ≡ negsuc 0) ⊎ ((x : ℕ) × (z ≡ pos x) × (0 < count x (xs ++ d ∷ []))))
        (ltb_ℤ m (pos d)) (λ _. inr (d, refl, ground (arith, count-append d xs (d ∷ []))))
        (λ keep. elim v.reached [
          | inl e ↦ absurd (negative_below m d e keep)
          | inr (x, e, k) ↦ inr (x, e, omega (arith, count-append x xs (d ∷ [])))
        ]);
}
  where
    negative_below : (m : ℤ) (d : ℕ) → m ≡ negsuc 0 → ltb_ℤ m (pos d) ≡ false → ⊥
    negative_below m d e h = ground arith

IsMax-update_all : (xs pre : List ℕ) (m : ℤ) → IsMax m pre → IsMax (update_all xs m) (pre ++ xs)
unfolding update_all
IsMax-update_all [] pre m v = rw append-nil v
IsMax-update_all (x ∷ xs) pre m v =
    subst (IsMax (update_all xs (update_max_descriptor x m))) (append_assoc pre (x ∷ []) xs)
      (IsMax-update_all xs (pre ++ x ∷ []) (update_max_descriptor x m) (IsMax-add x m pre v))

-- Adding a descriptor that is not there keeps the set, the nodes, each of which stands there once,
-- and the highest descriptor in agreement.
pub add_node-IsValid :
    (d : ℕ) (s : Select) → IsValid s → count d s.list_nodes ≡ 0 → IsValid (add_node d s)
unfolding add_node
add_node-IsValid d s v h = record {
  distinct = λ x. ground (arith, count-append x s.list_nodes (d ∷ []), v.distinct x);
  watched = λ x. ground (arith, count-append x s.list_nodes (d ∷ []), v.watched x);
  highest = IsMax-add d s.max_descriptor s.list_nodes v.highest;
}

-- Deleting any descriptor keeps the set, the nodes, each of which stands there once, and the
-- highest descriptor in agreement.
pub del_node-IsValid : (d : ℕ) (s : Select) → IsValid s → IsValid (del_node d s)
unfolding del_node
del_node-IsValid d s v = rw (del_loop_lem d s.list_nodes (negsuc 0)) (record {
  distinct = λ x. omega (arith, count-remove_first x d s.list_nodes, v.distinct x);
  watched = λ x. watched_after x;
  highest =
      IsMax-update_all (remove_first d s.list_nodes) [] (negsuc 0)
        (record { above = λ x h. absurd (omega arith); reached = inl refl });
})
  where
    watched_after :
        (x : ℕ)
        → (if (if count d s.list_nodes == 0 then false else true)
              then fd_clr d s.master
              else s.master)
            x
          ≡ ltb 0 (count x (remove_first d s.list_nodes))
    watched_after x =
        ground (arith, count-remove_first x d s.list_nodes, v.distinct x, v.distinct d, v.watched x)

-- The set has no descriptor that is not a node; in the strict sense it has exactly the nodes, each
-- of which stands there once, and the highest descriptor is the highest of them.
abbrev pub Watches : Bool → Select → Type 0
Watches true s = IsValid s
Watches false s = WatchesNodes s

pub del_node-Watches :
    (strict : Bool) (d : ℕ) (s : Select) → Watches strict s → Watches strict (del_node d s)
del_node-Watches true d s v = del_node-IsValid d s v
del_node-Watches false d s v = del_node-WatchesNodes d s v
