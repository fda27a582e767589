-- ===== src/Prelude/Lists.antt =====
-- Lists measured by native numbers, and Boolean searches in them.
use Prim.Native.Nat.{ℕ, suc, ◌+◌}
use mathlib.Core.Path.{◌≡◌, subst}
use mathlib.Core.Logic.{inl, inr}
use mathlib.Core.Bool.{Bool, true, false, ◌&&◌, ◌||◌}
use mathlib.Core.List.{List, [], ◌∷◌, ◌++◌, Mem, mem-cons_of_mem, mem-cons_self}
use mathlib.Core.Option.{Option, none, some}
use native.Mathlib.Omega.{arith}
use waw_discord_bot.Prelude.Tests.{Bool-cases}

module _ {ℓ} {A : Type ℓ} where
  abbrev pub length : List A → ℕ
  length [] = 0
  length (x ∷ xs) = suc (length xs)

  -- The first element that passes the test: `rows[0]` of a query.
  abbrev pub find : (A → Bool) → List A → Option A
  find p [] = none
  find p (x ∷ xs) = elim (p x) [ true ↦ some x | false ↦ find p xs ]

  abbrev pub any : (A → Bool) → List A → Bool
  any p [] = false
  any p (x ∷ xs) = p x || any p xs

  abbrev pub all : (A → Bool) → List A → Bool
  all p [] = true
  all p (x ∷ xs) = p x && all p xs

  -- A predicate that holds of every element.
  abbrev pub All {κ} : (A → Type κ) → List A → Type κ
  All P [] = Unit
  All P (x ∷ xs) = P x × All P xs

  pub length-append : (xs ys : List A) → length (xs ++ ys) ≡ length xs + length ys
  length-append [] ys = omega arith
  length-append (x ∷ xs) ys = omega (arith, length-append xs ys)

pub All-const {ℓ} : {A : Type ℓ} (xs : List A) → All (λ x. Unit {0}) xs
All-const [] = tt
All-const (x ∷ xs) = (tt, All-const xs)

-- What a search finds passes its test, and has what every element has.
pub find-All {ℓ κ} :
    {A : Type ℓ} (P : A → Type κ) (p : A → Bool) (xs : List A) {x : A}
    → All P xs
    → find p xs ≡ some x
    → (p x ≡ true) × P x
find-All P p [] h e = cc
find-All P p (y ∷ xs) {x} h e = elim (Bool-cases (p y)) [
  | inl t ↦ let same : y ≡ x = ground arith in (rw (← same) t, subst P same h.0)
  | inr f ↦ find-All P p xs h.1 (ground arith)
]

-- What a search finds is in the list, and passes the test.
pub find-Mem {ℓ} :
    {A : Type ℓ} (p : A → Bool) (xs : List A) {x : A} → find p xs ≡ some x → Mem x xs × (p x ≡ true)
find-Mem p [] e = absurd (cc)
find-Mem p (y ∷ xs) {x} e = elim (Bool-cases (p y)) [
  | inl t ↦
      let same : y ≡ x = ground arith in
      (subst (λ z. Mem z (y ∷ xs)) same mem-cons_self, subst (λ z. p z ≡ true) same t)
  | inr f ↦
      let (inside, passes) = find-Mem p xs (ground arith) in (mem-cons_of_mem y inside, passes)
]
