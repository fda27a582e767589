-- ===== src/Kbo/Placement.antt =====
-- Placing a bet: src/kbo/bet-placement.ts. Instants are milliseconds; the formatter of dates in the
-- time zone Asia/Seoul is a parameter, as in `Kbo.Credit`.
pub mod Laws
use waw_discord_bot.Prelude.{
  ℕ, ◌+◌, ◌-◌, ◌*◌, ◌%◌, ◌≡◌, Bool, true, false, not, ◌&&◌, ◌||◌, Option, none, some, String, ℤ,
  pos, negsuc, ◌+ℤ◌, ltb_ℤ, leb_ℤ, Date, invalid_date, instant, is_finite, Number, int, not_integer,
  ltb, leb, ◌==◌, is_some, if◌then◌else◌,
}
use waw_discord_bot.Kbo.Identifiers.{is_operation_id, is_opaque_id, is_game_id, is_snowflake}
use waw_discord_bot.Kbo.Credit.{to_kst_claim_date}
use waw_discord_bot.Kbo.Return.{KboGameOutcome}

pub data EnrollmentStatus : Type 0 where
  active inactive missing : EnrollmentStatus

pub data RightsStatus : Type 0 where
  authorized unavailable : RightsStatus

pub data EvidenceStatus : Type 0 where
  fresh stale unknown : EvidenceStatus

pub data GameStatus : Type 0 where
  scheduled postponed cancelled no_game suspended in_progress final_pending final unknown :
      GameStatus

pub record KboBetPlacementInput : Type 0 where
  pub now : Date
  pub scheduled_start_at : Date
  pub enrollment_status : EnrollmentStatus
  pub rights_status : RightsStatus
  pub evidence_status : EvidenceStatus
  pub game_status : GameStatus
  pub available_balance : ℤ
  pub correction_debt : ℤ
  pub daily_net_stake : ℤ
  pub stake : ℤ
  pub prediction : KboGameOutcome
  pub predicted_home_score : Option Number
  pub predicted_away_score : Option Number

pub data DenialReason : Type 0 where
  not_enrolled game_data_unavailable betting_closed correction_debt insufficient_balance :
      DenialReason
  daily_limit_exceeded : DenialReason

-- `invalid_input` is the thrown `KboBetPlacementInputError`.
pub data KboBetPlacementResult : Type 0 where
  accepted : (stake_date : String) → KboBetPlacementResult
  denied : DenialReason → KboBetPlacementResult
  invalid_input : KboBetPlacementResult

abbrev pub kbo_bet_evidence_max_age_ms : ℕ
kbo_bet_evidence_max_age_ms = 5 * 60000

abbrev pub is_active : EnrollmentStatus → Bool
is_active active = true
is_active _ = false

abbrev pub is_authorized : RightsStatus → Bool
is_authorized authorized = true
is_authorized _ = false

abbrev pub is_fresh : EvidenceStatus → Bool
is_fresh fresh = true
is_fresh _ = false

abbrev pub is_scheduled : GameStatus → Bool
is_scheduled scheduled = true
is_scheduled _ = false

abbrev pub valid_amount : ℤ → Bool
valid_amount v = leb_ℤ (pos 0) v

abbrev pub valid_score : Option Number → Bool
valid_score (some (int v)) = leb_ℤ (pos 0) v && leb_ℤ v (pos 32767)
valid_score _ = false

-- `stake % 1_000n === 0n`; the remainder of a negative number has the magnitude of its opposite's.
abbrev pub is_whole_thousands : ℤ → Bool
is_whole_thousands (pos n) = (n % 1000) == 0
is_whole_thousands (negsuc n) = ((n + 1) % 1000) == 0

abbrev pub same : Bool → Bool → Bool
same true b = b
same false b = not b

-- `a < b` and `a <= b` on dates; the invalid date compares false.
abbrev pub date_lt : Date → Date → Bool
date_lt (instant a) (instant b) = ltb a b
date_lt _ _ = false

abbrev pub date_le : Date → Date → Bool
date_le (instant a) (instant b) = leb a b
date_le _ _ = false

unfoldable pub is_stake : ℤ → Bool
is_stake stake =
    not (ltb_ℤ stake (pos 1000)) && not (ltb_ℤ (pos 50000) stake) && is_whole_thousands stake

unfoldable pub are_scores : Option Number → Option Number → Bool
are_scores home away =
    same (is_some home) (is_some away)
    && (not (is_some home) || valid_score home)
    && (not (is_some away) || valid_score away)

-- Whether `assertInput` returns; the tests that the types of the fields make are left out.
unfoldable pub assert_input : KboBetPlacementInput → Bool
assert_input i =
    is_finite i.now
    && is_finite i.scheduled_start_at
    && valid_amount i.available_balance
    && valid_amount i.correction_debt
    && valid_amount i.daily_net_stake
    && is_stake i.stake
    && are_scores i.predicted_home_score i.predicted_away_score

-- `none` is the error that `toKstClaimDate` throws.
abbrev pub accept_on : Option String → KboBetPlacementResult
accept_on none = invalid_input
accept_on (some stake_date) = accepted stake_date

-- The chain of denials, below the input check.
unfoldable pub decide_placement : (ℕ → String) → KboBetPlacementInput → KboBetPlacementResult
decide_placement format_kst i =
    if not (is_active i.enrollment_status)
    then denied not_enrolled
    else if not (is_authorized i.rights_status) || not (is_fresh i.evidence_status)
    then denied game_data_unavailable
    else if not (is_scheduled i.game_status) || date_le i.scheduled_start_at i.now
    then denied betting_closed
    else if ltb_ℤ (pos 0) i.correction_debt
    then denied correction_debt
    else if ltb_ℤ i.available_balance i.stake
    then denied insufficient_balance
    else if ltb_ℤ (pos 50000) (i.daily_net_stake +ℤ i.stake)
    then denied daily_limit_exceeded
    else accept_on (to_kst_claim_date format_kst i.now)

unfoldable pub evaluate_kbo_bet_placement :
    (ℕ → String) → KboBetPlacementInput → KboBetPlacementResult
evaluate_kbo_bet_placement format_kst i =
    if assert_input i then decide_placement format_kst i else invalid_input

-- `isKboBetEvidenceFresh`
unfoldable pub is_kbo_bet_evidence_fresh : (now source_updated_at collected_at : Date) → Bool
is_kbo_bet_evidence_fresh (instant now) (instant updated) (instant collected) =
    leb updated collected && leb collected now && leb (now - updated) kbo_bet_evidence_max_age_ms
is_kbo_bet_evidence_fresh _ _ _ = false

pub record KboBetRegistrationInput : Type 0 where
  pub operation_id : String
  pub bet_id : String
  pub guild_id : String
  pub discord_user_id : String
  pub game_id : String
  pub rights_status : RightsStatus
  pub stake : ℤ
  pub prediction : KboGameOutcome
  pub predicted_home_score : Option Number
  pub predicted_away_score : Option Number
  pub placed_at : Date

abbrev pub is_invalid : KboBetPlacementResult → Bool
is_invalid invalid_input = true
is_invalid _ = false

-- The last instant of a `Date`.
abbrev pub last_instant : ℕ
last_instant = 8640000000000000

-- The instant a millisecond later: `new Date(placedAt.getTime() + 1)`, which is invalid after the last.
abbrev pub next_instant : Date → Date
next_instant invalid_date = invalid_date
next_instant (instant t) = if ltb t last_instant then instant (t + 1) else invalid_date

-- The placement that a registration is tested with.
abbrev pub probe : KboBetRegistrationInput → KboBetPlacementInput
probe i = record {
  now = i.placed_at;
  scheduled_start_at = next_instant i.placed_at;
  enrollment_status = active;
  rights_status = i.rights_status;
  evidence_status = fresh;
  game_status = scheduled;
  available_balance = i.stake;
  correction_debt = pos 0;
  daily_net_stake = pos 0;
  stake = i.stake;
  prediction = i.prediction;
  predicted_home_score = i.predicted_home_score;
  predicted_away_score = i.predicted_away_score;
}

-- Whether `assertKboBetRegistrationInput` returns; it throws where this is false.
unfoldable pub assert_kbo_bet_registration_input : (ℕ → String) → KboBetRegistrationInput → Bool
assert_kbo_bet_registration_input format_kst i =
    is_operation_id i.operation_id
    && is_opaque_id i.bet_id
    && is_snowflake i.guild_id
    && is_snowflake i.discord_user_id
    && is_game_id i.game_id
    && is_finite i.placed_at
    && not (is_invalid (evaluate_kbo_bet_placement format_kst (probe i)))
