-- ===== src/Kbo/Placement/Laws.antt =====
-- When a bet is accepted, and when a registration passes its checks.
use waw_discord_bot.Prelude.{
  ℕ, ◌*◌, ◌/◌, ◌≤◌, ◌<◌, ◌≡◌, ◌↔◌, inl, inr, true, not, ◌&&◌, Option, none, some, arith, ℤ, pos,
  negsuc, ◌+ℤ◌, ◌≤ℤ◌, ltb, instant, String, Number, int, Bool-cases,
}
use waw_discord_bot.Kbo.Placement.{
  is_invalid, active, authorized, fresh, scheduled, KboBetPlacementInput, accepted, is_stake,
  are_scores, assert_input, decide_placement, evaluate_kbo_bet_placement, KboBetRegistrationInput,
  probe, last_instant, assert_kbo_bet_registration_input,
}
use waw_discord_bot.Kbo.Identifiers.{is_operation_id, is_opaque_id, is_game_id, is_snowflake}

-- A stake of 1 to 50 thousand.
abbrev pub IsStake : ℤ → Type 0
IsStake stake = (k : ℕ) × (stake ≡ pos (1000 * k)) × (1 ≤ k) × (k ≤ 50)

-- No score, or both, each in the range of a `smallint`.
abbrev pub AreScores : Option Number → Option Number → Type 0
AreScores none none = Unit
AreScores (some (int (pos h))) (some (int (pos a))) = (h ≤ 32767) × (a ≤ 32767)
AreScores _ _ = ⊥

is_stake_sound : (stake : ℤ) → is_stake stake ≡ true → IsStake stake
unfolding is_stake
is_stake_sound (pos n) h = (n / 1000, ground arith, ground arith, ground arith)
is_stake_sound (negsuc n) h = absurd (ground arith)

is_stake_complete : (stake : ℤ) → IsStake stake → is_stake stake ≡ true
unfolding is_stake
is_stake_complete stake (k, e, lo, hi) = rw e (ground arith)

IsStake-le : (stake balance : ℤ) → IsStake stake → stake ≤ℤ balance → pos 0 ≤ℤ balance
IsStake-le stake balance (k, e, lo, hi) h = ground arith

are_scores_iff : (home away : Option Number) → (are_scores home away ≡ true) ↔ AreScores home away
unfolding are_scores
are_scores_iff none none = ground arith
are_scores_iff (some (int (pos h))) (some (int (pos a))) = ground arith
are_scores_iff _ _ = ground arith

-- What it takes to place a bet at the instant `now` on a game that starts at `start`.
pub record IsAcceptable (i : KboBetPlacementInput) (now start : ℕ) : Type 0 where
  pub enrolled : i.enrollment_status ≡ active
  pub rights : i.rights_status ≡ authorized
  pub evidence : i.evidence_status ≡ fresh
  pub market : i.game_status ≡ scheduled
  pub before : now < start
  pub no_debt : i.correction_debt ≡ pos 0
  pub affordable : i.stake ≤ℤ i.available_balance
  pub spent : pos 0 ≤ℤ i.daily_net_stake
  pub daily : i.daily_net_stake +ℤ i.stake ≤ℤ pos 50000
  pub stake : IsStake i.stake
  pub scores : AreScores i.predicted_home_score i.predicted_away_score

-- The parts of a placement that pass the input check, with the tests on the scores and the stake
-- kept as they are.
record IsChecked (i : KboBetPlacementInput) : Type 0 where
  balance : pos 0 ≤ℤ i.available_balance
  debt : pos 0 ≤ℤ i.correction_debt
  spent : pos 0 ≤ℤ i.daily_net_stake
  stake : is_stake i.stake ≡ true
  scores : are_scores i.predicted_home_score i.predicted_away_score ≡ true

module _ (i : KboBetPlacementInput) (now start : ℕ) (at_now : i.now ≡ instant now)
    (at_start : i.scheduled_start_at ≡ instant start) where
  assert_input_iff : (assert_input i ≡ true) ↔ IsChecked i
  unfolding assert_input
  assert_input_iff = ground arith

  decide-accepted :
      (format_kst : ℕ → String) (date : String)
      → IsChecked i
      → decide_placement format_kst i ≡ accepted date
      → (format_kst now ≡ date) × IsAcceptable i now start
  unfolding decide_placement
  decide-accepted format_kst date c e = (
    ground arith,
    record {
      enrolled = ground arith;
      rights = ground arith;
      evidence = ground arith;
      market = ground arith;
      before = ground arith;
      no_debt = ground arith;
      affordable = ground arith;
      spent = c.spent;
      daily = ground arith;
      stake = is_stake_sound i.stake c.stake;
      scores = (are_scores_iff i.predicted_home_score i.predicted_away_score).0 c.scores;
    },
  )

  accepted-decide :
      (format_kst : ℕ → String)
      → IsAcceptable i now start
      → decide_placement format_kst i ≡ accepted (format_kst now)
  unfolding decide_placement
  accepted-decide format_kst a = ground arith

  IsAcceptable-IsChecked : IsAcceptable i now start → IsChecked i
  IsAcceptable-IsChecked a = record {
    balance = IsStake-le i.stake i.available_balance a.stake a.affordable;
    debt = ground arith;
    spent = a.spent;
    stake = is_stake_complete i.stake a.stake;
    scores = (are_scores_iff i.predicted_home_score i.predicted_away_score).1 a.scores;
  }

-- An accepted bet carries the date of its instant, and was acceptable.
pub accepted-IsAcceptable :
    (format_kst : ℕ → String) (i : KboBetPlacementInput) (now start : ℕ) (date : String)
    → i.now ≡ instant now
    → i.scheduled_start_at ≡ instant start
    → evaluate_kbo_bet_placement format_kst i ≡ accepted date
    → (format_kst now ≡ date) × IsAcceptable i now start
unfolding evaluate_kbo_bet_placement
accepted-IsAcceptable format_kst i now start date at_now at_start e =
    elim (Bool-cases (assert_input i)) [
      | inl c ↦
          decide-accepted i now start at_now at_start format_kst date
            ((assert_input_iff i now start at_now at_start).0 c)
            (rw (c, evaluate_kbo_bet_placement) at e)
      | inr c ↦ absurd (ground arith)
    ]

-- A bet is accepted, under the date of its instant, exactly if the account is enrolled and free of
-- debt, the game's data may be used and is fresh, the game is scheduled and has not started, the
-- stake is a whole number of thousands from 1000 to 50000 that the balance covers, the day's total
-- is at least 0 and with it at most 50000, and the scores are both left out or both between 0 and
-- 32767.
pub evaluate-accepted_iff :
    (format_kst : ℕ → String) (i : KboBetPlacementInput) (now start : ℕ)
    → i.now ≡ instant now
    → i.scheduled_start_at ≡ instant start
    → (evaluate_kbo_bet_placement format_kst i ≡ accepted (format_kst now))
      ↔ IsAcceptable i now start
unfolding evaluate_kbo_bet_placement
evaluate-accepted_iff format_kst i now start at_now at_start = (
  λ e. (accepted-IsAcceptable format_kst i now start (format_kst now) at_now at_start e).1,
  λ a.
      rw
        ((assert_input_iff i now start at_now at_start).1
          (IsAcceptable-IsChecked i now start at_now at_start a))
        (accepted-decide i now start at_now at_start format_kst a),
)

probe_valid :
    (format_kst : ℕ → String) (i : KboBetRegistrationInput) (now : ℕ)
    → i.placed_at ≡ instant now
    → not (is_invalid (evaluate_kbo_bet_placement format_kst (probe i))) ≡ (
        ltb now last_instant
        && is_stake i.stake
        && are_scores i.predicted_home_score i.predicted_away_score)
unfolding evaluate_kbo_bet_placement assert_input decide_placement is_stake
probe_valid format_kst i now e = ground arith

-- The identifiers of a registration match their patterns.
pub record HasIds (i : KboBetRegistrationInput) : Type 0 where
  pub operation : is_operation_id i.operation_id ≡ true
  pub bet : is_opaque_id i.bet_id ≡ true
  pub guild : is_snowflake i.guild_id ≡ true
  pub user : is_snowflake i.discord_user_id ≡ true
  pub game : is_game_id i.game_id ≡ true

-- The placement that the check of a registration evaluates is invalid only for its own stake or
-- scores, or after the last instant of a date: a registration at a valid instant passes exactly if
-- that is before the last one, its identifiers match their patterns, its stake is a whole number of thousands from 1000 to 50000, and its scores are in range.
pub assert_registration_iff :
    (format_kst : ℕ → String) (i : KboBetRegistrationInput) (now : ℕ)
    → i.placed_at ≡ instant now
    → (assert_kbo_bet_registration_input format_kst i ≡ true) ↔ (
        (now < last_instant)
        × HasIds i
        × IsStake i.stake
        × AreScores i.predicted_home_score i.predicted_away_score)
unfolding assert_kbo_bet_registration_input
assert_registration_iff format_kst i now e =
    let scores = are_scores_iff i.predicted_home_score i.predicted_away_score in
    let valid = probe_valid format_kst i now e in
    (
      λ h. (
        ground arith,
        ground arith,
        is_stake_sound i.stake (ground arith),
        scores.0 (ground arith),
      ),
      λ (before, ids, stake, fair).
          let s = is_stake_complete i.stake stake in let r = scores.1 fair in ground arith,
    )
