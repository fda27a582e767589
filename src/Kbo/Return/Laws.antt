-- ===== src/Kbo/Return/Laws.antt =====
-- What a payout can be, in terms of the score alone.
use waw_discord_bot.Prelude.{
  Bool, Bool-cases, inl, inr, ◌⊎◌, false, ℕ, ◌*◌, ◌≤◌, ◌<◌, ◌≡◌, ◌↔◌, refl, suc, zero, negsuc,
  Number, not_integer, ◌≤ℤ◌, true, is_safe_integer, Option, none, some, arith, pos, ◌*ℤ◌, int,
  max_safe_integer,
}
use waw_discord_bot.Kbo.Return.{
  is_score, is_positive_safe, value, outcome_eq, pay_hit, game_outcome, KboGameOutcome, home_win,
  draw, away_win, FinalBetReturn, Result, ok, err, Input, pay, miss, result_hit, exact_score_hit,
  calculate_final_bet_return,
}

-- The prediction came true.
abbrev pub Wins : KboGameOutcome → ℕ → ℕ → Type 0
Wins home_win home away = away < home
Wins draw home away = home ≡ away
Wins away_win home away = home < away

-- Both scores were predicted, and are the final ones.
abbrev pub IsExact : Option (ℕ × ℕ) → ℕ → ℕ → Type 0
IsExact none home away = ⊥
IsExact (some (h, a)) home away = (h ≡ home) × (a ≡ away)

abbrev pub IsInRange : Option (ℕ × ℕ) → Type 0
IsInRange none = Unit
IsInRange (some (h, a)) = (h ≤ max_safe_integer) × (a ≤ max_safe_integer)

abbrev pub home_of : Option (ℕ × ℕ) → Option ℕ
home_of none = none
home_of (some (h, a)) = some h

abbrev pub away_of : Option (ℕ × ℕ) → Option ℕ
away_of none = none
away_of (some (h, a)) = some a

abbrev pub bet_on :
    (stake : ℕ) (prediction : KboGameOutcome) (guess : Option (ℕ × ℕ)) (home away : ℕ) → Input
bet_on stake prediction none home away = record {
  stake = int (pos stake);
  prediction = prediction;
  predicted_home_score = none;
  predicted_away_score = none;
  final_home_score = int (pos home);
  final_away_score = int (pos away);
}
bet_on stake prediction (some (h, a)) home away = record {
  stake = int (pos stake);
  prediction = prediction;
  predicted_home_score = some (int (pos h));
  predicted_away_score = some (int (pos a));
  final_home_score = int (pos home);
  final_away_score = int (pos away);
}

pub record IsFair (stake : ℕ) (prediction : KboGameOutcome) (guess : Option (ℕ × ℕ)) (home away : ℕ)
    (r : FinalBetReturn) : Type 0 where
  pub amount : r.return_amount ≡ pos (stake * r.multiplier)
  pub lost : ¬ Wins prediction home away → (r.multiplier ≡ 0) × (r.classification ≡ miss)
  pub hit :
      Wins prediction home away
      → ¬ IsExact guess home away
      → (r.multiplier ≡ 2) × (r.classification ≡ result_hit)
  pub exact :
      Wins prediction home away
      → IsExact guess home away
      → (r.multiplier ≡ 3) × (r.classification ≡ exact_score_hit)

-- A result that is no error and satisfies `P`.
abbrev pub Returns : Result → (FinalBetReturn → Type 0) → Type 0
Returns (ok r) P = P r
Returns (err e) P = ⊥

pay-IsFair :
    (stake : ℕ) (prediction : KboGameOutcome) (guess : Option (ℕ × ℕ)) (home away : ℕ)
    → 3 * stake ≤ max_safe_integer
    → Returns
        (pay (bet_on stake prediction guess home away))
        (IsFair stake prediction guess home away)
unfolding pay pay_hit game_outcome ◌*ℤ◌
pay-IsFair stake home_win none home away k = ground arith
pay-IsFair stake draw none home away k = ground arith
pay-IsFair stake away_win none home away k = ground arith
pay-IsFair stake home_win (some (h, a)) home away k = ground arith
pay-IsFair stake draw (some (h, a)) home away k = ground arith
pay-IsFair stake away_win (some (h, a)) home away k = ground arith

-- On inputs that pass the checks the checks are passed.
calculate-pay :
    (stake : ℕ) (prediction : KboGameOutcome) (guess : Option (ℕ × ℕ)) (home away : ℕ)
    → 1 ≤ stake
    → stake ≤ max_safe_integer
    → home ≤ max_safe_integer
    → away ≤ max_safe_integer
    → IsInRange guess
    → calculate_final_bet_return (bet_on stake prediction guess home away)
      ≡ pay (bet_on stake prediction guess home away)
unfolding calculate_final_bet_return is_score is_positive_safe
calculate-pay stake prediction none home away h k a b g = ground arith
calculate-pay stake prediction (some (x, y)) home away h k a b g = ground arith

-- For a positive stake whose triple is a safe integer, and safe scores, the result is no error: the
-- stake comes back trebled for the exact score, doubled for the right outcome, and else not at all.
pub calculate-IsFair :
    (stake : ℕ) (prediction : KboGameOutcome) (guess : Option (ℕ × ℕ)) (home away : ℕ)
    → 1 ≤ stake
    → 3 * stake ≤ max_safe_integer
    → home ≤ max_safe_integer
    → away ≤ max_safe_integer
    → IsInRange guess
    → Returns
        (calculate_final_bet_return (bet_on stake prediction guess home away))
        (IsFair stake prediction guess home away)
calculate-IsFair stake prediction guess home away h k a b g =
    rw (calculate-pay stake prediction guess home away h (omega arith) a b g)
      (pay-IsFair stake prediction guess home away k)

pay_of_calculate :
    (i : Input) (r : FinalBetReturn)
    → calculate_final_bet_return i ≡ ok r
    → (pay i ≡ ok r) × (is_positive_safe i.stake ≡ true)
unfolding calculate_final_bet_return
pay_of_calculate i r e = ground arith

is_positive_safe-pos : (n : Number) → is_positive_safe n ≡ true → (k : ℕ) × (value n ≡ pos (suc k))
unfolding is_positive_safe
is_positive_safe-pos (int (pos zero)) h = absurd (ground arith)
is_positive_safe-pos (int (pos (suc k))) h = (k, refl)
is_positive_safe-pos (int (negsuc k)) h = absurd (ground arith)
is_positive_safe-pos not_integer h = cc

-- A safe amount, not negative, and zero exactly for a miss.
abbrev IsBounded : FinalBetReturn → Type 0
IsBounded r =
    (is_safe_integer (int r.return_amount) ≡ true)
    × (pos 0 ≤ℤ r.return_amount)
    × ((r.return_amount ≡ pos 0) ↔ (r.classification ≡ miss))

pay_hit-bounds :
    (exact : Bool) (k : ℕ) (r : FinalBetReturn) → pay_hit exact (pos (suc k)) ≡ ok r → IsBounded r
unfolding pay_hit ◌*ℤ◌
pay_hit-bounds true k r e = ground arith
pay_hit-bounds false k r e = ground arith

missed : FinalBetReturn
missed = record { classification = miss; multiplier = 0; return_amount = pos 0 }

pay_cases :
    (i : Input) (r : FinalBetReturn)
    → pay i ≡ ok r
    → (r ≡ missed) ⊎ ((exact : Bool) × (pay_hit exact (value i.stake) ≡ ok r))
unfolding pay missed
pay_cases i r e =
    elim (Bool-cases (
      outcome_eq i.prediction
        (game_outcome (value i.final_home_score) (value i.final_away_score)))) [
          | inl won ↦ inr (_, rw (won, pay) at e)
          | inr lost ↦ inl (ground arith)
        ]

pay-bounds :
    (i : Input) (r : FinalBetReturn) (k : ℕ)
    → value i.stake ≡ pos (suc k)
    → pay i ≡ ok r
    → IsBounded r
unfolding missed
pay-bounds i r k v e = elim (pay_cases i r e) [
  | inl lost ↦ rw lost (refl, omega arith, ((λ _. refl), (λ _. refl)))
  | inr (exact, hit) ↦ pay_hit-bounds exact k r (rw v at hit)
]

-- Whatever the input, an amount that is returned is a safe integer, not negative, and zero exactly
-- for a miss.
pub return_amount-bounds :
    (i : Input) (r : FinalBetReturn)
    → calculate_final_bet_return i ≡ ok r
    → (is_safe_integer (int r.return_amount) ≡ true)
      × (pos 0 ≤ℤ r.return_amount)
      × ((r.return_amount ≡ pos 0) ↔ (r.classification ≡ miss))
return_amount-bounds i r e =
    let (paid, positive) = pay_of_calculate i r e in
    let (k, v) = is_positive_safe-pos i.stake positive in pay-bounds i r k v paid
