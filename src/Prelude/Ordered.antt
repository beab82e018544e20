-- ===== src/Prelude/Ordered.antt =====
-- The `std::map` with `int` keys that cwirelessdevicelist.cc uses, as pairs in the order of their
-- keys, and what it does to the function from keys to values that it stands for.
use vwifi.Prelude.{
  ◌+◌, ◌<◌, ◌≡◌, refl, inl, inr, Bool, Bool-cases, Option, none, some, List, [], ◌∷◌, arith, ◌==◌,
  if◌then◌else◌, if_both, if_split, All,
}
use vwifi.Prelude.Int.{ℤ, pos_part, neg_part, ltb_ℤ, ◌≤ℤ◌}

abbrev pub ==_ℤ : ℤ → ℤ → Bool
==_ℤ a b = pos_part a + neg_part b == pos_part b + neg_part a

infix 50 ◌<ℤ◌
abbrev pub ◌<ℤ◌ : ℤ → ℤ → Type 0
a <ℤ b = pos_part a + neg_part b < pos_part b + neg_part a

module _ {V : Type 0} where
  -- `m[key] = value`.
  unfoldable pub insert : ℤ → V → List (ℤ × V) → List (ℤ × V)
  insert k v [] = (k, v) ∷ []
  insert k v ((j, u) ∷ rest) =
      let behind = insert k v rest in
      if ltb_ℤ k j
      then (k, v) ∷ (j, u) ∷ rest
      else if ltb_ℤ j k
      then (j, u) ∷ behind
      else (k, v) ∷ rest

  -- `m.erase(key)`.
  unfoldable pub erase : ℤ → List (ℤ × V) → List (ℤ × V)
  erase k [] = []
  erase k ((j, u) ∷ rest) = let behind = erase k rest in if ==_ℤ j k then rest else (j, u) ∷ behind

  -- The value under a key, by a search of all pairs.
  unfoldable pub lookup : ℤ → List (ℤ × V) → Option V
  lookup k [] = none
  lookup k ((j, u) ∷ rest) = let behind = lookup k rest in if ==_ℤ j k then some u else behind

  abbrev pub Above : ℤ → List (ℤ × V) → Type 0
  Above k m = All (λ (e : ℤ × V). k <ℤ e.0) m

  -- Each key once, in increasing order.
  abbrev pub IsSorted : List (ℤ × V) → Type 0
  IsSorted [] = Unit
  IsSorted ((k, v) ∷ rest) = Above k rest × IsSorted rest

  -- A function, changed at one key.
  abbrev pub update : (ℤ → Option V) → ℤ → Option V → ℤ → Option V
  update f k o j = if ==_ℤ k j then o else f j

  Above-insert : (b k : ℤ) (v : V) (m : List (ℤ × V)) → b <ℤ k → Above b m → Above b (insert k v m)
  unfolding insert
  Above-insert b k v [] h a = (h, tt)
  Above-insert b k v ((j, u) ∷ rest) h a =
      if_both (Above b) (ltb_ℤ k j) (h, a)
        (if_both (Above b) (ltb_ℤ j k) (a.0, Above-insert b k v rest h a.1) (h, a.1))

  Above-lower : (a b : ℤ) (m : List (ℤ × V)) → a ≤ℤ b → Above b m → Above a m
  Above-lower a b [] h s = tt
  Above-lower a b ((j, u) ∷ rest) h s = (omega arith, Above-lower a b rest h s.1)

  pub insert-IsSorted : (k : ℤ) (v : V) (m : List (ℤ × V)) → IsSorted m → IsSorted (insert k v m)
  unfolding insert
  insert-IsSorted k v [] s = (tt, tt)
  insert-IsSorted k v ((j, u) ∷ rest) s =
      if_split IsSorted (ltb_ℤ k j)
        (λ t. ((ground arith, Above-lower k j rest (ground arith) s.0), s))
        (λ f.
          if_split IsSorted (ltb_ℤ j k)
            (λ t. (Above-insert j k v rest (ground arith) s.0, insert-IsSorted k v rest s.1))
            (λ g. (Above-lower k j rest (ground arith) s.0, s.1)))

  Above-erase : (b k : ℤ) (m : List (ℤ × V)) → Above b m → Above b (erase k m)
  unfolding erase
  Above-erase b k [] a = tt
  Above-erase b k ((j, u) ∷ rest) a =
      if_both (Above b) (==_ℤ j k) a.1 (a.0, Above-erase b k rest a.1)

  pub erase-IsSorted : (k : ℤ) (m : List (ℤ × V)) → IsSorted m → IsSorted (erase k m)
  unfolding erase
  erase-IsSorted k [] s = tt
  erase-IsSorted k ((j, u) ∷ rest) s =
      if_both IsSorted (==_ℤ j k) s.1 (Above-erase j k rest s.0, erase-IsSorted k rest s.1)

  pub lookup-insert :
      (k : ℤ) (v : V) (m : List (ℤ × V)) (j : ℤ)
      → lookup j (insert k v m) ≡ update (λ i. lookup i m) k (some v) j
  unfolding lookup insert
  lookup-insert k v [] j = ground arith
  lookup-insert k v ((i, u) ∷ rest) j = ground (arith, lookup-insert k v rest j)

  pub lookup-Above : (k j : ℤ) (m : List (ℤ × V)) → Above k m → j ≤ℤ k → lookup j m ≡ none
  unfolding lookup
  lookup-Above k j [] a e = refl
  lookup-Above k j ((i, u) ∷ rest) a e = ground (arith, lookup-Above k j rest a.1 e)

  pub lookup-erase :
      (k : ℤ) (m : List (ℤ × V)) (j : ℤ)
      → IsSorted m
      → lookup j (erase k m) ≡ update (λ i. lookup i m) k none j
  unfolding lookup erase
  lookup-erase k [] j s = ground arith
  lookup-erase k ((i, u) ∷ rest) j s =
      ground (arith, lookup-erase k rest j s.1, lookup-Above i j rest s.0)

  pub lookup-some_above :
      (k j : ℤ) (v : V) (m : List (ℤ × V)) → Above k m → lookup j m ≡ some v → k <ℤ j
  lookup-some_above k j v m a e = elim (Bool-cases (ltb_ℤ k j)) [
    | inl t ↦ ground arith
    | inr f ↦ cc (lookup-Above k j m a (ground arith))
  ]
