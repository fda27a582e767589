-- ===== src/Persistence/SettlementStore/Transaction.antt =====
-- The method `settle` of src/persistence/postgres-kbo-settlement-store.ts, step by step.
use waw_discord_bot.Prelude.{
  ℕ, ◌+◌, Bool, true, false, not, ◌&&◌, Option, none, some, String, str_eq, ℤ, pos, ◌+ℤ◌, ◌-ℤ◌,
  ◌>>=◌, Date, invalid_date, instant, ltb_ℤ, eqb_ℤ, is_none, if◌then◌else◌,
}
use waw_discord_bot.Kbo.Settlement.{
  KboSettlementInput, RightsStatus, authorized, unauthorized, DeltaInput, DeltaAllocation,
  allocated, invalid_account_projection, invalid_void_refund, allocate_settlement_delta,
  assert_kbo_settlement_input,
}
use waw_discord_bot.Persistence.Database.{
  Db, AccountRow, LedgerRow, LedgerReason, BetRow, BetStatus, GameRow, SettlementRow,
  SettlementOutcome, bet_payout, bet_void_refund, settlement_correction, system, update_account,
  insert_ledger, insert_settlement, update_bet,
}
use waw_discord_bot.Persistence.Queries.{Outcome, input_error, finish, find_account, lock_game}
use waw_discord_bot.Persistence.SettlementStore.{
  rights_unauthorized, bet_not_found, game_data_unavailable, revision_not_current,
  revision_not_newer, game_not_terminal, already_settled, SettledBet, KboSettlementResult, settled,
  duplicate_operation, claim_operation, append_audit, commit_denied, find_settlement_by_operation,
  lock_bet, current_settlement, Calculated, Calculation, calculated, not_terminal, failed,
  calculate_settlement,
}

abbrev pub is_void : SettlementOutcome → Bool
is_void SettlementOutcome.void = true
is_void _ = false

-- The reason of the ledger entry: a first settlement pays or refunds, a later one corrects.
abbrev pub entry_reason : Option String → SettlementOutcome → LedgerReason
entry_reason none result = if is_void result then bet_void_refund else bet_payout
entry_reason (some current) result = settlement_correction

abbrev pub moved : AccountRow → DeltaAllocation → ℕ → AccountRow → AccountRow
moved account delta now r = record r {
  available_balance = account.available_balance +ℤ delta.available_delta;
  correction_debt = account.correction_debt +ℤ delta.debt_delta;
  version = r.version + 1;
  updated_at = now;
}

abbrev pub delta_entry :
    KboSettlementInput → ℕ → AccountRow → DeltaAllocation → LedgerReason → LedgerRow
delta_entry i now account delta reason = record {
  entry_id = 0;
  account_id = account.account_id;
  reason_code = reason;
  available_delta = delta.available_delta;
  debt_delta = delta.debt_delta;
  available_before = account.available_balance;
  available_after = account.available_balance +ℤ delta.available_delta;
  debt_before = account.correction_debt;
  debt_after = account.correction_debt +ℤ delta.debt_delta;
  operation_id = i.operation_id;
  source_type = "settlement";
  source_id = i.settlement_id;
  actor = system;
  occurred_at = now;
}

abbrev pub is_zero : DeltaAllocation → Bool
is_zero delta = eqb_ℤ delta.available_delta (pos 0) && eqb_ℤ delta.debt_delta (pos 0)

-- `applyAccountDelta`: the entry that was written, if the delta is not zero, and the tables.
unfoldable pub apply_account_delta :
    KboSettlementInput
    → ℕ
    → AccountRow
    → DeltaAllocation
    → LedgerReason
    → Db
    → Option (Option ℕ × Db)
apply_account_delta i now account delta reason db = if is_zero delta then some (none, db) else do
  updated ← update_account account.account_id (moved account delta now) db
  entered ← insert_ledger (delta_entry i now account delta reason) updated
  some (some updated.next_entry_id, entered)

abbrev pub settlement_row :
    KboSettlementInput → ℕ → BetRow → Calculated → ℤ → Option ℕ → SettlementRow
settlement_row i now bet c applied entry = record {
  settlement_id = i.settlement_id;
  bet_id = i.bet_id;
  game_id = i.game_id;
  game_revision = i.game_revision;
  result = c.result;
  multiplier = c.multiplier;
  return_amount = c.return_amount;
  applied_delta = applied;
  operation_id = i.operation_id;
  ledger_entry_id = entry;
  supersedes_settlement_id = bet.current_settlement_id;
  settled_at = now;
}

abbrev pub bet_status : SettlementOutcome → BetStatus
bet_status result = if is_void result then BetStatus.void else BetStatus.settled

abbrev pub settled_bet : KboSettlementInput → Calculated → ℤ → DeltaAllocation → SettledBet
settled_bet i c applied delta = record {
  settlement_id = i.settlement_id;
  result = c.result;
  multiplier = c.multiplier;
  return_amount = c.return_amount;
  applied_delta = applied;
  available_delta = delta.available_delta;
  debt_delta = delta.debt_delta;
  game_revision = i.game_revision;
}

-- The statements from the update of the account to the audit event.
unfoldable pub write_settlement :
    KboSettlementInput
    → ℕ
    → AccountRow
    → BetRow
    → Calculated
    → ℤ
    → DeltaAllocation
    → Db
    → Option (KboSettlementResult × Db)
write_settlement i now account bet c applied delta db = do
  (entry, entered) ←
      apply_account_delta i now account delta (entry_reason bet.current_settlement_id c.result) db
  recorded ← insert_settlement (settlement_row i now bet c applied entry) entered
  audited ←
      append_audit i now none (update_bet i.bet_id (bet_status c.result) i.settlement_id recorded)
  some (settled (settled_bet i c applied delta), audited)

abbrev or_duplicate : Option SettledBet → KboSettlementResult
or_duplicate none = duplicate_operation
or_duplicate (some s) = settled s

unfoldable pub settle_new :
    KboSettlementInput
    → ℕ
    → AccountRow
    → BetRow
    → Calculated
    → ℤ
    → DeltaAllocation
    → Db
    → Option (KboSettlementResult × Db)
settle_new i now account bet c applied delta db = elim (claim_operation i now none db) [
  | none ↦ some (or_duplicate (find_settlement_by_operation i.operation_id db), db)
  | some db' ↦ write_settlement i now account bet c applied delta db'
]

-- `BigInt(bet.current_return_amount ?? "0")`
abbrev pub previous_return : Option SettlementRow → ℤ
previous_return none = pos 0
previous_return (some s) = s.return_amount

abbrev pub delta_input : AccountRow → BetRow → Option SettlementRow → Calculated → DeltaInput
delta_input account bet previous c = record {
  available_balance = account.available_balance;
  correction_debt = account.correction_debt;
  delta = c.return_amount -ℤ previous_return previous;
  void_refund = is_none bet.current_settlement_id && is_void c.result;
}

unfoldable pub settle_calculated :
    KboSettlementInput
    → ℕ
    → AccountRow
    → BetRow
    → Option SettlementRow
    → Calculation
    → Db
    → Option (KboSettlementResult × Db)
settle_calculated i now account bet previous failed db = none
settle_calculated i now account bet previous not_terminal db =
    commit_denied i now game_not_terminal db
settle_calculated i now account bet previous (calculated c) db =
    elim (allocate_settlement_delta (delta_input account bet previous c)) [
      | allocated delta ↦
          settle_new i now account bet c (c.return_amount -ℤ previous_return previous) delta db
      | invalid_account_projection ↦ none
      | invalid_void_refund ↦ none
    ]

unfoldable pub settle_bet :
    KboSettlementInput
    → ℕ
    → AccountRow
    → GameRow
    → BetRow
    → Option SettlementRow
    → Db
    → Option (KboSettlementResult × Db)
settle_bet i now account game bet none db =
    settle_calculated i now account bet none
      (calculate_settlement bet game.status game.home_score game.away_score) db
settle_bet i now account game bet (some previous) db =
    if eqb_ℤ previous.game_revision i.game_revision
    then commit_denied i now already_settled db
    else if ltb_ℤ i.game_revision previous.game_revision
    then commit_denied i now revision_not_newer db
    else settle_calculated i now account bet (some previous)
        (calculate_settlement bet game.status game.home_score game.away_score) db

unfoldable pub settle_locked :
    KboSettlementInput → ℕ → AccountRow → GameRow → BetRow → Db → Option (KboSettlementResult × Db)
settle_locked i now account game bet db =
    if not (str_eq bet.account_id account.account_id)
    then commit_denied i now bet_not_found db
    else settle_bet i now account game bet (current_settlement bet db) db

unfoldable pub settle_on :
    KboSettlementInput → ℕ → AccountRow → GameRow → Db → Option (KboSettlementResult × Db)
settle_on i now account game db =
    if not (eqb_ℤ game.current_revision i.game_revision)
    then commit_denied i now revision_not_current db
    else elim (lock_bet i db) [
      | none ↦ commit_denied i now bet_not_found db
      | some bet ↦ settle_locked i now account game bet db
    ]

-- From the lock of the account on; the second look for the operation sees what the first saw.
unfoldable pub settle_for :
    KboSettlementInput → ℕ → AccountRow → Db → Option (KboSettlementResult × Db)
settle_for i now account db = elim (find_settlement_by_operation i.operation_id db) [
  | some concurrent ↦ some (settled concurrent, db)
  | none ↦ elim (lock_game i.game_id db) [
    | none ↦ commit_denied i now game_data_unavailable db
    | some game ↦ settle_on i now account game db
  ]
]

abbrev pub is_authorized : RightsStatus → Bool
is_authorized authorized = true
is_authorized unauthorized = false

-- The account of the bet, by `select account_id from kbo_bet` and `lockAccount`.
unfoldable pub lock_owner : KboSettlementInput → Db → Option AccountRow
lock_owner i db = lock_bet i db >>= λ owner. find_account owner.account_id db

unfoldable pub settle_tx : KboSettlementInput → ℕ → Db → Option (KboSettlementResult × Db)
settle_tx i now db = elim (find_settlement_by_operation i.operation_id db) [
  | some duplicate ↦ some (settled duplicate, db)
  | none ↦
      if not (is_authorized i.rights_status)
      then commit_denied i now rights_unauthorized db
      else elim (lock_owner i db) [
        | none ↦ commit_denied i now bet_not_found db
        | some account ↦ settle_for i now account db
      ]
]

abbrev pub settle_at : KboSettlementInput → Date → Db → Outcome KboSettlementResult × Db
settle_at i invalid_date db = (input_error, db)
settle_at i (instant now) db = finish db (settle_tx i now db)

-- `settle`
unfoldable pub settle : KboSettlementInput → Db → Outcome KboSettlementResult × Db
settle i db =
    if assert_kbo_settlement_input i then settle_at i i.settled_at db else (input_error, db)
