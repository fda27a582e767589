-- ===== src/Prelude/Effects.antt =====
-- Asynchronous steps over a state of services: a step answers or throws, and leaves a state in both
-- cases.
use mathlib.Core.Path.{◌≡◌, refl}
use mathlib.Core.Option.{Option, none, some}

-- An asynchronous step: `none` is a rejected promise.
abbrev pub Effect : Type 0 → Type 0 → Type 0
Effect S A = S → Option A × S

abbrev pub pure : {S A : Type 0} → A → Effect S A
pure a s = (some a, s)

abbrev pub continue : {S A B : Type 0} → (A → Effect S B) → Option A × S → Option B × S
continue f (none, t) = (none, t)
continue f (some a, t) = f a t

infixl 5 ◌>>=◌ ◌>>◌
abbrev pub ◌>>=◌ : {S A B : Type 0} → Effect S A → (A → Effect S B) → Effect S B
◌>>=◌ m f s = continue f (m s)

abbrev pub ◌>>◌ : {S B : Type 0} → Effect S (Unit {0}) → Effect S B → Effect S B
◌>>◌ m k s = continue (λ _. k) (m s)

-- `try { m } catch { … }`, where `none` is the rejection.
abbrev pub caught : {S A : Type 0} → Effect S A → Effect S (Option A)
caught m s = let (answer, t) = m s in (some answer, t)

-- A step that throws if there is no value.
abbrev pub lift : {S A : Type 0} → Option A → Effect S A
lift o s = (o, s)

-- A chain that answers has a first step that answers.
pub continue-eq-some :
    {S A B : Type 0} (f : A → Effect S B) (x : Option A × S) {b : B} {u : S}
    → continue f x ≡ (some b, u)
    → (a : A) × (t : S) × (x ≡ (some a, t)) × (f a t ≡ (some b, u))
continue-eq-some f (none, t) h = absurd (cc)
continue-eq-some f (some a, t) h = (a, t, refl, h)

-- A step that is done answers its value and keeps the state.
pub pure-eq-some :
    {S A : Type 0} (a : A) (s : S) {b : A} {u : S} → pure a s ≡ (some b, u) → (a ≡ b) × (s ≡ u)
pure-eq-some a s h = (cc, cc)
