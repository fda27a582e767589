-- ===== src/Prelude/Fallible.antt =====
-- A chain of steps of which each may fail: `none` is an error that the caller of the chain handles.
use mathlib.Core.Path.{◌≡◌, refl, subst}
use mathlib.Core.Option.{Option, none, some, some-injective}

infixl 5 ◌>>=◌
abbrev pub ◌>>=◌ {ℓ κ} : {A : Type ℓ} {B : Type κ} → Option A → (A → Option B) → Option B
none >>= f = none
some a >>= f = f a

-- The first step of a chain that succeeds has succeeded.
pub >>=-eq-some {ℓ κ} :
    {A : Type ℓ} {B : Type κ} (m : Option A) (f : A → Option B) {b : B}
    → (m >>= f) ≡ some b
    → (a : A) × (m ≡ some a) × (f a ≡ some b)
>>=-eq-some none f h = cc
>>=-eq-some (some a) f h = (a, refl, h)

-- A chain gives nothing, or a value with the property.
pub data Yields {ℓ κ} {A : Type ℓ} (P : A → Type κ) : Option A → Type (ℓ ⊔ κ) where
  fails : Yields P none
  gives : (a : A) → P a → Yields P (some a)

module _ {ℓ κ ι ο} {A : Type ℓ} {B : Type κ} {P : A → Type ι} {Q : B → Type ο} where
  infixl 1 ◌▷◌
  pub ◌▷◌ :
      {m : Option A} {f : A → Option B}
      → Yields P m
      → ((a : A) → P a → Yields Q (f a))
      → Yields Q (m >>= f)
  fails ▷ k = fails
  gives a h ▷ k = k a h

module _ {ℓ κ} {A : Type ℓ} {P : A → Type κ} where
  pub Yields-some : {m : Option A} {a : A} → Yields P m → m ≡ some a → P a
  Yields-some fails e = absurd (cc)
  Yields-some (gives b h) e = subst P (some-injective _ _ e) h

  pub Yields-of : (m : Option A) → ((a : A) → m ≡ some a → P a) → Yields P m
  Yields-of none h = fails
  Yields-of (some a) h = gives a (h a refl)
