-- ===== src/Prelude/Slices.antt =====
-- Pieces of a sequence, cut off and put together.
use Prim.Native.Nat.{ℕ, zero, suc, ◌+◌, ◌≤◌}
use mathlib.Core.Path.{◌≡◌, refl, ap}
use mathlib.Core.List.{List, [], ◌∷◌, ◌++◌}
use native.Mathlib.Omega.{arith}
use vwifi.Prelude.Lists.{length, take, drop}

module _ {ℓ} {A : Type ℓ} where
  pub take-append :
      (n : ℕ) (front back : List A) → length front ≡ n → take n (front ++ back) ≡ front
  take-append zero [] back h = refl
  take-append zero (b ∷ front) back h = absurd (omega arith)
  take-append (suc n) [] back h = absurd (omega arith)
  take-append (suc n) (b ∷ front) back h =
      ap (λ (bs : List A). b ∷ bs) (take-append n front back (omega arith))

  pub drop-append : (n : ℕ) (front back : List A) → length front ≡ n → drop n (front ++ back) ≡ back
  drop-append zero [] back h = refl
  drop-append zero (b ∷ front) back h = absurd (omega arith)
  drop-append (suc n) [] back h = absurd (omega arith)
  drop-append (suc n) (b ∷ front) back h = drop-append n front back (omega arith)

  pub take_all : (n : ℕ) (bs : List A) → length bs ≡ n → take n bs ≡ bs
  take_all zero [] h = refl
  take_all zero (b ∷ bs) h = absurd (omega arith)
  take_all (suc n) [] h = absurd (omega arith)
  take_all (suc n) (b ∷ bs) h = ap (λ (cs : List A). b ∷ cs) (take_all n bs (omega arith))

  pub drop_all : (n : ℕ) (bs : List A) → length bs ≡ n → drop n bs ≡ []
  drop_all zero [] h = refl
  drop_all zero (b ∷ bs) h = absurd (omega arith)
  drop_all (suc n) [] h = absurd (omega arith)
  drop_all (suc n) (b ∷ bs) h = drop_all n bs (omega arith)

  pub take-drop : (n : ℕ) (xs : List A) → take n xs ++ drop n xs ≡ xs
  take-drop zero xs = refl
  take-drop (suc n) [] = refl
  take-drop (suc n) (x ∷ xs) = ap (λ (ys : List A). x ∷ ys) (take-drop n xs)

  drop_nil : (m : ℕ) → drop {A = A} m [] ≡ []
  drop_nil zero = refl
  drop_nil (suc m) = refl

  pub take-behind :
      (n m : ℕ) (front back : List A)
      → length front + m ≡ n
      → take n (front ++ back) ≡ front ++ take m back
  take-behind n m [] back h = ap (λ (j : ℕ). take j back) (omega (arith, h))
  take-behind zero m (x ∷ front) back h = absurd (omega (arith, h))
  take-behind (suc n) m (x ∷ front) back h =
      ap (λ (ys : List A). x ∷ ys) (take-behind n m front back (omega (arith, h)))

  pub drop-behind :
      (n m : ℕ) (front back : List A) → length front + m ≡ n → drop n (front ++ back) ≡ drop m back
  drop-behind n m [] back h = ap (λ (j : ℕ). drop j back) (omega (arith, h))
  drop-behind zero m (x ∷ front) back h = absurd (omega (arith, h))
  drop-behind (suc n) m (x ∷ front) back h = drop-behind n m front back (omega (arith, h))

  pub drop-drop : (k m n : ℕ) (xs : List A) → k + m ≡ n → drop m (drop k xs) ≡ drop n xs
  drop-drop zero m n xs h = ap (λ (j : ℕ). drop j xs) (omega (arith, h))
  drop-drop (suc k) m zero xs h = absurd (omega (arith, h))
  drop-drop (suc k) m (suc n) [] h = drop_nil m
  drop-drop (suc k) m (suc n) (x ∷ xs) h = drop-drop k m n xs (omega (arith, h))

  -- A piece of a piece.
  pub take_of-take : (k n : ℕ) (xs : List A) → k ≤ n → take k (take n xs) ≡ take k xs
  take_of-take zero n xs h = refl
  take_of-take (suc k) zero xs h = elim h [ ]
  take_of-take (suc k) (suc n) [] h = refl
  take_of-take (suc k) (suc n) (x ∷ xs) h =
      ap (λ (ys : List A). x ∷ ys) (take_of-take k n xs (omega arith))

  pub take-front :
      (k : ℕ) (front back : List A) → k ≤ length front → take k (front ++ back) ≡ take k front
  take-front zero front back h = refl
  take-front (suc k) [] back h = elim h [ ]
  take-front (suc k) (x ∷ front) back h =
      ap (λ (ys : List A). x ∷ ys) (take-front k front back (omega arith))

  pub take_short : (n : ℕ) (xs : List A) → length xs ≤ n → take n xs ≡ xs
  take_short zero [] h = refl
  take_short zero (x ∷ xs) h = elim h [ ]
  take_short (suc n) [] h = refl
  take_short (suc n) (x ∷ xs) h = ap (λ (ys : List A). x ∷ ys) (take_short n xs (omega (arith, h)))
