-- ===== src/Kbo/Tests.antt =====
-- The rules of the prediction game on concrete inputs.
use waw_discord_bot.Prelude.{
  ℕ, ◌≡◌, ◌<◌, ◌↔◌, ◌≤ℤ◌, refl, true, false, none, some, String, arith, pos, negsuc, instant, int,
  not_integer, is_safe_integer, ◌*ℤ◌, ◌+ℤ◌, ◌-ℤ◌,
}
use waw_discord_bot.Kbo.Identifiers.{is_operation_id, is_opaque_id, is_game_id, is_snowflake}
use waw_discord_bot.Kbo.Return.{
  home_win, draw, FinalBetReturn, ok, err, miss, result_hit, invalid_stake,
  return_amount_is_too_large, is_score, is_positive_safe, game_outcome, pay_hit, pay,
  calculate_final_bet_return,
}
use waw_discord_bot.Kbo.Return.Laws.{
  bet_on, Returns, IsFair, calculate-IsFair, return_amount-bounds,
}
use waw_discord_bot.Kbo.Placement
use waw_discord_bot.Kbo.Placement.{
  KboBetPlacementInput, KboBetRegistrationInput, accepted, denied, evaluate_kbo_bet_placement,
  assert_input, is_stake, are_scores, decide_placement, assert_kbo_bet_registration_input,
}
use waw_discord_bot.Kbo.Placement.Laws.{
  IsAcceptable, HasIds, IsStake, AreScores, evaluate-accepted_iff, assert_registration_iff,
}
use waw_discord_bot.Kbo.Settlement.{DeltaInput, allocated, allocate_settlement_delta}
use waw_discord_bot.Kbo.Settlement
use waw_discord_bot.Kbo.Settlement.Laws.{allocate_settlement_delta-IsSound}
use waw_discord_bot.Kbo.Credit.{allocate_daily_credit}
use waw_discord_bot.Kbo.Credit
use waw_discord_bot.Kbo.Credit.Laws.{allocate_daily_credit-IsSplit}

calculate-IsFair_example :
    Returns
      (calculate_final_bet_return (bet_on 5000 home_win (some (3, 1)) 3 1))
      (IsFair 5000 home_win (some (3, 1)) 3 1)
calculate-IsFair_example =
    calculate-IsFair 5000 home_win (some (3, 1)) 3 1 (omega arith) (omega arith) (omega arith)
      (omega arith) (omega arith)

abbrev doubled : FinalBetReturn
doubled = record { classification = result_hit; multiplier = 2; return_amount = pos 10000 }

doubled_run : calculate_final_bet_return (bet_on 5000 draw none 2 2) ≡ ok doubled
unfolding calculate_final_bet_return pay pay_hit game_outcome is_score is_positive_safe ◌*ℤ◌
doubled_run = refl

return_amount-bounds_example :
    (is_safe_integer (int doubled.return_amount) ≡ true)
    × (pos 0 ≤ℤ doubled.return_amount)
    × ((doubled.return_amount ≡ pos 0) ↔ (doubled.classification ≡ miss))
return_amount-bounds_example = return_amount-bounds (bet_on 5000 draw none 2 2) doubled doubled_run

-- A fractional stake is refused, and so is one whose triple leaves the safe integers.
refused_stakes :
    (calculate_final_bet_return (record (bet_on 1 draw none 2 2) { stake = not_integer })
      ≡ err invalid_stake)
    × (calculate_final_bet_return (bet_on 4503599627370496 draw none 2 2)
        ≡ err return_amount_is_too_large)
unfolding calculate_final_bet_return pay pay_hit game_outcome is_score is_positive_safe ◌*ℤ◌
refused_stakes = (refl, refl)

abbrev on_day : ℕ → String
on_day t = "2026-07-29"

abbrev bet : KboBetPlacementInput
bet = record {
  now = instant 1000;
  scheduled_start_at = instant 2000;
  enrollment_status = Placement.active;
  rights_status = Placement.authorized;
  evidence_status = Placement.fresh;
  game_status = Placement.scheduled;
  available_balance = pos 60000;
  correction_debt = pos 0;
  daily_net_stake = pos 20000;
  stake = pos 30000;
  prediction = home_win;
  predicted_home_score = some (int (pos 4));
  predicted_away_score = some (int (pos 2));
}

accepted_run : evaluate_kbo_bet_placement on_day bet ≡ accepted "2026-07-29"
unfolding evaluate_kbo_bet_placement assert_input is_stake are_scores decide_placement ◌+ℤ◌
accepted_run = refl

evaluate-accepted_iff_example :
    (evaluate_kbo_bet_placement on_day bet ≡ accepted "2026-07-29") ↔ IsAcceptable bet 1000 2000
evaluate-accepted_iff_example = evaluate-accepted_iff on_day bet 1000 2000 refl refl

-- At the start of the game the market is closed.
closed_run :
    evaluate_kbo_bet_placement on_day (record bet { now = instant 2000 })
    ≡ denied Placement.betting_closed
unfolding evaluate_kbo_bet_placement assert_input is_stake are_scores decide_placement
closed_run = refl

abbrev registration : KboBetRegistrationInput
registration = record {
  operation_id = "op-00000001";
  bet_id = "bet-000000000001";
  guild_id = "123456789012345678";
  discord_user_id = "223456789012345678";
  game_id = "game-00000001";
  rights_status = Placement.authorized;
  stake = pos 30000;
  prediction = home_win;
  predicted_home_score = none;
  predicted_away_score = none;
  placed_at = instant 1000;
}

registered_run : assert_kbo_bet_registration_input on_day registration ≡ true
unfolding assert_kbo_bet_registration_input evaluate_kbo_bet_placement assert_input is_stake
    are_scores decide_placement is_operation_id is_opaque_id is_game_id is_snowflake ◌+ℤ◌
registered_run = refl

assert_registration_iff_example :
    (assert_kbo_bet_registration_input on_day registration ≡ true)
    ↔ ((1000 < 8640000000000000) × HasIds registration × IsStake (pos 30000) × AreScores none none)
assert_registration_iff_example = assert_registration_iff on_day registration 1000 refl

abbrev correction : DeltaInput
correction = record {
  available_balance = pos 700;
  correction_debt = pos 50;
  delta = negsuc 999;
  void_refund = false;
}

correction_run :
    allocate_settlement_delta correction
    ≡ allocated (record { available_delta = negsuc 699; debt_delta = pos 300 })
unfolding allocate_settlement_delta ◌-ℤ◌
correction_run = refl

allocate_settlement_delta-IsSound_example :
    Settlement.Laws.Allocates correction (allocate_settlement_delta correction)
allocate_settlement_delta-IsSound_example =
    allocate_settlement_delta-IsSound correction (omega arith) (omega arith) (λ e. cc)

allocate_daily_credit-IsSplit_example :
    Credit.Laws.Allocates (pos 20000) (allocate_daily_credit (pos 20000))
allocate_daily_credit-IsSplit_example = allocate_daily_credit-IsSplit (pos 20000) (omega arith)
