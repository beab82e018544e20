-- ===== src/Prelude/Results.antt =====
-- What holds of the result of a computation that may have none.
use mathlib.Core.Option.{Option, none, some}
use vwifi.Prelude.Tests.{◌>>=◌}

pub both_Option {ℓ κ} :
    {A : Type ℓ} {B : Type κ}
    → (P : A → Type 0) (o : Option B) {x : A} {f : B → A} → P x
    → ((b : B) → P (f b))
    → P (elim o [ none ↦ x | some b ↦ f b ])
both_Option P none a b = a
both_Option P (some y) a b = b y

-- What holds of the result, where there is one.
abbrev pub Holds {ℓ} : {A : Type ℓ} → (A → Type 0) → Option A → Type 0
Holds P none = Unit
Holds P (some a) = P a

pub Holds-bind {ℓ κ} :
    {A : Type ℓ} {B : Type κ}
    → (P : A → Type 0) (Q : B → Type 0) (o : Option A) (f : A → Option B) → Holds P o
    → ((a : A) → P a → Holds Q (f a))
    → Holds Q (o >>= f)
Holds-bind P Q none f h g = tt
Holds-bind P Q (some a) f h g = g a h

pub Holds-all {ℓ κ} :
    {A : Type ℓ} {B : Type κ}
    → (Q : B → Type 0) (o : Option A) (f : A → Option B) → ((a : A) → Holds Q (f a))
    → Holds Q (o >>= f)
Holds-all Q none f g = tt
Holds-all Q (some a) f g = g a

pub Holds-map {ℓ} :
    {A : Type ℓ} → (P Q : A → Type 0) (o : Option A) → Holds P o → ((a : A) → P a → Q a) → Holds Q o
Holds-map P Q none h g = tt
Holds-map P Q (some a) h g = g a h
