-- ===== src/Kbo/Return.antt =====
-- The payout of a finished game: src/kbo/bet-return.ts. An `Error` that the source throws is a
-- value of `ReturnError`; its message is the constructor's name.
pub mod Laws
use waw_discord_bot.Prelude.{
  ℕ, ◌≡◌, Bool, true, false, not, ◌&&◌, ◌||◌, Option, none, some, ℤ, pos, ◌*ℤ◌, ltb_ℤ, leb_ℤ, eqb_ℤ,
  Number, int, not_integer, is_safe_integer, is_some, if◌then◌else◌,
}

pub data KboGameOutcome : Type 0 where
  home_win draw away_win : KboGameOutcome

pub data Classification : Type 0 where
  miss result_hit exact_score_hit : Classification

pub record FinalBetReturn : Type 0 where
  pub classification : Classification
  pub multiplier : ℕ
  pub return_amount : ℤ

pub data ReturnError : Type 0 where
  invalid_stake invalid_final_home_score invalid_final_away_score : ReturnError
  predicted_scores_must_be_provided_together : ReturnError
  invalid_predicted_home_score invalid_predicted_away_score : ReturnError
  return_amount_is_too_large : ReturnError

pub data Result : Type 0 where
  ok : FinalBetReturn → Result
  err : ReturnError → Result

pub record Input : Type 0 where
  pub stake : Number
  pub prediction : KboGameOutcome
  pub predicted_home_score : Option Number
  pub predicted_away_score : Option Number
  pub final_home_score : Number
  pub final_away_score : Number

-- `===` on numbers; NaN and fractions that passed no test do not reach it equal.
abbrev pub number_eq : Number → Number → Bool
number_eq (int a) (int b) = eqb_ℤ a b
number_eq _ _ = false

abbrev pub predicted_eq : Option Number → Number → Bool
predicted_eq none b = false
predicted_eq (some a) b = number_eq a b

abbrev pub outcome_eq : KboGameOutcome → KboGameOutcome → Bool
outcome_eq home_win home_win = true
outcome_eq draw draw = true
outcome_eq away_win away_win = true
outcome_eq _ _ = false

-- `Number.isSafeInteger(value) && value >= 0`
unfoldable pub is_score : Number → Bool
is_score (int z) = is_safe_integer (int z) && leb_ℤ (pos 0) z
is_score not_integer = false

-- `Number.isSafeInteger(value) && value > 0`
unfoldable pub is_positive_safe : Number → Bool
is_positive_safe (int z) = is_safe_integer (int z) && ltb_ℤ (pos 0) z
is_positive_safe not_integer = false

abbrev pub is_predicted_score : Option Number → Bool
is_predicted_score none = true
is_predicted_score (some n) = is_score n

abbrev pub value : Number → ℤ
value (int z) = z
value not_integer = pos 0

unfoldable pub game_outcome : ℤ → ℤ → KboGameOutcome
game_outcome home away =
    if ltb_ℤ away home then home_win else if ltb_ℤ home away then away_win else draw

-- The payout of a prediction that came true.
unfoldable pub pay_hit : Bool → ℤ → Result
pay_hit exact stake =
    let multiplier : ℕ = if exact then 3 else 2 in
    let amount = stake *ℤ pos multiplier in
    if not (is_safe_integer (int amount))
    then err return_amount_is_too_large
    else ok (record {
      classification = if exact then exact_score_hit else result_hit;
      multiplier = multiplier;
      return_amount = amount;
    })

-- The part below the input checks.
unfoldable pub pay : Input → Result
pay i =
    if not
      (outcome_eq i.prediction (game_outcome (value i.final_home_score) (value i.final_away_score)))
    then ok (record { classification = miss; multiplier = 0; return_amount = pos 0 })
    else pay_hit
        (predicted_eq i.predicted_home_score i.final_home_score
          && predicted_eq i.predicted_away_score i.final_away_score)
        (value i.stake)

unfoldable pub calculate_final_bet_return : Input → Result
calculate_final_bet_return i =
    if not (is_positive_safe i.stake)
    then err invalid_stake
    else if not (is_score i.final_home_score)
    then err invalid_final_home_score
    else if not (is_score i.final_away_score)
    then err invalid_final_away_score
    else if is_some i.predicted_home_score && not (is_some i.predicted_away_score)
        || not (is_some i.predicted_home_score) && is_some i.predicted_away_score
    then err predicted_scores_must_be_provided_together
    else if not (is_predicted_score i.predicted_home_score)
    then err invalid_predicted_home_score
    else if not (is_predicted_score i.predicted_away_score)
    then err invalid_predicted_away_score
    else pay i
