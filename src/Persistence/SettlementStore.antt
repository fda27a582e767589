-- ===== src/Persistence/SettlementStore.antt =====
-- Settling a bet: src/persistence/postgres-kbo-settlement-store.ts. A transaction is a function from
-- the tables to a result and the new tables, or `none` for an error in a statement or a calculation.
pub mod Transaction
pub mod Laws
pub mod Payment
pub mod Settled
use waw_discord_bot.Prelude.{
  ℕ, ◌+◌, ◌≡◌, Bool, true, false, not, ◌&&◌, ◌||◌, Option, none, some, List, [], ◌∷◌, String,
  str_eq, ℤ, pos, ◌+ℤ◌, ◌-ℤ◌, find, ◌>>=◌, Date, invalid_date, instant, Number, int, ltb_ℤ, eqb_ℤ,
  is_none, if◌then◌else◌,
}
use mathlib.Core.Option
use waw_discord_bot.Kbo.Return
use waw_discord_bot.Kbo.Return.{FinalBetReturn, calculate_final_bet_return}
use waw_discord_bot.Kbo.Placement.{GameStatus}
use waw_discord_bot.Kbo.Settlement.{
  KboSettlementInput, RightsStatus, authorized, unauthorized, DeltaAllocation, Allocation,
  allocated, invalid_account_projection, invalid_void_refund, allocate_settlement_delta,
  assert_kbo_settlement_input,
}
use waw_discord_bot.Persistence.Database
use waw_discord_bot.Persistence.Database.{
  Db, AccountRow, LedgerRow, LedgerReason, BetRow, BetStatus, GameRow, SettlementRow,
  SettlementOutcome, bet_payout, bet_void_refund, settlement_correction, system, update_account,
  insert_operation, insert_ledger, insert_settlement, insert_audit, update_bet,
}
use waw_discord_bot.Persistence.Queries.{
  Outcome, input_error, finish, tagged, find_account, lock_game,
}

pub data DenialReason : Type 0 where
  rights_unauthorized bet_not_found game_data_unavailable revision_not_current revision_not_newer :
      DenialReason
  game_not_terminal already_settled : DenialReason

-- The fields of a settled result.
pub record SettledBet : Type 0 where
  pub settlement_id : String
  pub result : SettlementOutcome
  pub multiplier : ℕ
  pub return_amount : ℤ
  pub applied_delta : ℤ
  pub available_delta : ℤ
  pub debt_delta : ℤ
  pub game_revision : ℤ

pub data KboSettlementResult : Type 0 where
  settled : SettledBet → KboSettlementResult
  denied : DenialReason → KboSettlementResult
  duplicate_operation : KboSettlementResult

-- `none` for the reason stands for "settled".
abbrev code_of : Option DenialReason → String
code_of none = "kbo_settlement_settled"
code_of (some rights_unauthorized) = "kbo_settlement_rights_unauthorized"
code_of (some bet_not_found) = "kbo_settlement_bet_not_found"
code_of (some game_data_unavailable) = "kbo_settlement_game_data_unavailable"
code_of (some revision_not_current) = "kbo_settlement_revision_not_current"
code_of (some revision_not_newer) = "kbo_settlement_revision_not_newer"
code_of (some game_not_terminal) = "kbo_settlement_game_not_terminal"
code_of (some already_settled) = "kbo_settlement_already_settled"

abbrev outcome_of : Option DenialReason → Database.OperationOutcome
outcome_of none = Database.OperationOutcome.accepted
outcome_of (some reason) = Database.OperationOutcome.denied

abbrev audited_as : Option DenialReason → String
audited_as none = "success"
audited_as (some reason) = "denied"

unfoldable pub claim_operation : KboSettlementInput → ℕ → Option DenialReason → Db → Option Db
claim_operation i now result = insert_operation (record {
  operation_id = i.operation_id;
  actor_id = "system:kbo-settlement";
  accepted_at = now;
  outcome = outcome_of result;
  reason_code = code_of result;
})

unfoldable pub append_audit : KboSettlementInput → ℕ → Option DenialReason → Db → Option Db
append_audit i now result = insert_audit (record {
  event_id = tagged "kbo-settlement:" i.operation_id;
  operation_id = i.operation_id;
  occurred_at = now;
  event_type = "kbo.settlement";
  actor_id = none;
  outcome = audited_as result;
  reason_code = code_of result;
  guild_id = some i.guild_id;
})

unfoldable pub commit_denied :
    KboSettlementInput → ℕ → DenialReason → Db → Option (KboSettlementResult × Db)
commit_denied i now reason db = elim (claim_operation i now (some reason) db) [
  | none ↦ some (duplicate_operation, db)
  | some db' ↦ append_audit i now (some reason) db' >>= λ final. some (denied reason, final)
]

abbrev pub has_entry : Option ℕ → LedgerRow → Bool
has_entry none e = false
has_entry (some id) e = Database.same_entry (some id) (some e.entry_id)

abbrev delta_or_zero : (LedgerRow → ℤ) → Option LedgerRow → ℤ
delta_or_zero field none = pos 0
delta_or_zero field (some e) = field e

-- The settlement joined with its ledger entry, if it has one.
abbrev pub settled_row : List LedgerRow → SettlementRow → SettledBet
settled_row ledger row =
    let entry = find (has_entry row.ledger_entry_id) ledger in
    record {
      settlement_id = row.settlement_id;
      result = row.result;
      multiplier = row.multiplier;
      return_amount = row.return_amount;
      applied_delta = row.applied_delta;
      available_delta = delta_or_zero (λ e. e.available_delta) entry;
      debt_delta = delta_or_zero (λ e. e.debt_delta) entry;
      game_revision = row.game_revision;
    }

unfoldable pub find_settlement_by_operation : String → Db → Option SettledBet
find_settlement_by_operation operation db =
    Option.map (settled_row db.ledger) (find (λ r. str_eq r.operation_id operation) db.settlements)

-- `lockBet`
unfoldable pub lock_bet : KboSettlementInput → Db → Option BetRow
lock_bet i db =
    find
      (λ r. str_eq r.bet_id i.bet_id && str_eq r.guild_id i.guild_id && str_eq r.game_id i.game_id)
      db.bets

-- The settlement that `current_settlement_id` names, which `lockBet` joins.
unfoldable pub current_settlement : BetRow → Db → Option SettlementRow
current_settlement bet db =
    bet.current_settlement_id >>= λ id. find (λ r. str_eq r.settlement_id id) db.settlements

pub record Calculated : Type 0 where
  pub result : SettlementOutcome
  pub multiplier : ℕ
  pub return_amount : ℤ

-- What `calculateSettlement` gives: a result, `undefined`, or the error of `calculateFinalBetReturn`.
pub data Calculation : Type 0 where
  calculated : Calculated → Calculation
  not_terminal failed : Calculation

abbrev number_of : Option ℕ → Option Number
number_of none = none
number_of (some n) = some (int (pos n))

abbrev pub return_input : BetRow → ℕ → ℕ → Return.Input
return_input bet home away = record {
  stake = int bet.stake;
  prediction = bet.prediction;
  predicted_home_score = number_of bet.predicted_home_score;
  predicted_away_score = number_of bet.predicted_away_score;
  final_home_score = int (pos home);
  final_away_score = int (pos away);
}

abbrev result_of : Return.Classification → SettlementOutcome
result_of Return.miss = SettlementOutcome.lost
result_of Return.result_hit = SettlementOutcome.outcome_hit
result_of Return.exact_score_hit = SettlementOutcome.score_hit

abbrev of_return : Return.Result → Calculation
of_return (Return.err e) = failed
of_return (Return.ok r) = calculated (record {
  result = result_of r.classification;
  multiplier = r.multiplier;
  return_amount = r.return_amount;
})

abbrev void_return : ℤ → Calculation
void_return stake =
    calculated (record { result = SettlementOutcome.void; multiplier = 1; return_amount = stake })

abbrev final_return : BetRow → Option ℕ → Option ℕ → Calculation
final_return bet (some home) (some away) =
    of_return (calculate_final_bet_return (return_input bet home away))
final_return bet _ _ = not_terminal

unfoldable pub calculate_settlement : BetRow → GameStatus → Option ℕ → Option ℕ → Calculation
calculate_settlement bet GameStatus.cancelled home away = void_return bet.stake
calculate_settlement bet GameStatus.no_game home away = void_return bet.stake
calculate_settlement bet GameStatus.postponed home away = void_return bet.stake
calculate_settlement bet GameStatus.final home away = final_return bet home away
calculate_settlement bet _ home away = not_terminal
