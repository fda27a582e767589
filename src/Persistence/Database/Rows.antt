-- ===== src/Persistence/Database/Rows.antt =====
-- The rows of the tables of migrations/0001, 0013 to 0018, with the columns that the KBO stores of
-- src/persistence read or write. A `timestamptz` is a number of milliseconds, a `bigint` that can be
-- negative an integer.
use waw_discord_bot.Prelude.{ℕ, String, Option, ℤ, Number}
use waw_discord_bot.Kbo.Return.{KboGameOutcome}
use waw_discord_bot.Kbo.Placement.{GameStatus}

-- credit_account
pub record AccountRow : Type 0 where
  pub account_id : String
  pub available_balance : ℤ
  pub correction_debt : ℤ
  pub version : ℕ
  pub created_at : ℕ
  pub updated_at : ℕ

pub data EnrollmentState : Type 0 where
  active departed : EnrollmentState

-- betting_enrollment
pub record EnrollmentRow : Type 0 where
  pub enrollment_id : String
  pub account_id : String
  pub guild_id : String
  pub discord_user_id : Option String
  pub status : EnrollmentState
  pub policy_version : Number
  pub enrolled_at : ℕ
  pub departed_at : Option ℕ

pub data OperationOutcome : Type 0 where
  accepted denied : OperationOutcome

-- operation_ledger
pub record OperationRow : Type 0 where
  pub operation_id : String
  pub actor_id : String
  pub accepted_at : ℕ
  pub outcome : OperationOutcome
  pub reason_code : String

pub data LedgerReason : Type 0 where
  daily_claim bet_stake bet_payout bet_void_refund settlement_correction admin_adjustment :
      LedgerReason

pub data ActorType : Type 0 where
  system : ActorType
  administrator : (actor_id : String) → ActorType

-- credit_ledger_entry
pub record LedgerRow : Type 0 where
  pub entry_id : ℕ
  pub account_id : String
  pub reason_code : LedgerReason
  pub available_delta : ℤ
  pub debt_delta : ℤ
  pub available_before : ℤ
  pub available_after : ℤ
  pub debt_before : ℤ
  pub debt_after : ℤ
  pub operation_id : String
  pub source_type : String
  pub source_id : String
  pub actor : ActorType
  pub occurred_at : ℕ

-- daily_credit_claim
pub record ClaimRow : Type 0 where
  pub claim_id : String
  pub account_id : String
  pub claim_date : String
  pub operation_id : String
  pub ledger_entry_id : ℕ
  pub claimed_at : ℕ

-- kbo_game
pub record GameRow : Type 0 where
  pub game_id : String
  pub scheduled_start_at : ℕ
  pub status : GameStatus
  pub home_score : Option ℕ
  pub away_score : Option ℕ
  pub current_revision : ℤ
  pub market_version : ℕ
  pub source_updated_at : ℕ
  pub collected_at : ℕ

pub data BetStatus : Type 0 where
  pending settled void : BetStatus

-- kbo_bet
pub record BetRow : Type 0 where
  pub bet_id : String
  pub guild_id : String
  pub account_id : String
  pub game_id : String
  pub market_version : ℕ
  pub prediction : KboGameOutcome
  pub predicted_home_score : Option ℕ
  pub predicted_away_score : Option ℕ
  pub stake : ℤ
  pub stake_date : String
  pub status : BetStatus
  pub operation_id : String
  pub ledger_entry_id : ℕ
  pub placed_at : ℕ
  pub current_settlement_id : Option String

pub data SettlementOutcome : Type 0 where
  lost outcome_hit score_hit void : SettlementOutcome

-- bet_settlement
pub record SettlementRow : Type 0 where
  pub settlement_id : String
  pub bet_id : String
  pub game_id : String
  pub game_revision : ℤ
  pub result : SettlementOutcome
  pub multiplier : ℕ
  pub return_amount : ℤ
  pub applied_delta : ℤ
  pub operation_id : String
  pub ledger_entry_id : Option ℕ
  pub supersedes_settlement_id : Option String
  pub settled_at : ℕ

-- audit_event
pub record AuditRow : Type 0 where
  pub event_id : String
  pub operation_id : String
  pub occurred_at : ℕ
  pub event_type : String
  pub actor_id : Option String
  pub outcome : String
  pub reason_code : String
  pub guild_id : Option String
