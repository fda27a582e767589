-- ===== src/Persistence/DailyClaim.antt =====
-- The daily credit claim: src/persistence/postgres-kbo-daily-credit-claim-store.ts. A transaction is
-- a function from the tables to a result and the new tables, or `none` for an error in a statement.
pub mod Laws
pub mod Replay
use waw_discord_bot.Prelude.{
  ℕ, ◌+◌, ◌≡◌, Bool, true, false, ◌&&◌, Option, none, some, List, [], ◌∷◌, String, str_eq, ℤ, pos,
  ◌+ℤ◌, ◌-ℤ◌, neg_ℤ, find, any, ◌==◌, ◌>>=◌, Date, invalid_date, instant, if◌then◌else◌,
}
use waw_discord_bot.Kbo.Credit.{
  KboDailyCreditClaimInput, DailyAllocation, allocate_daily_credit,
  assert_kbo_daily_credit_claim_input,
}
use waw_discord_bot.Persistence.Database.{
  Db, AccountRow, LedgerRow, ClaimRow, daily_claim, system, accepted, denied, update_account,
  insert_operation, insert_ledger, insert_claim, insert_audit,
}
use waw_discord_bot.Persistence.Queries.{Outcome, input_error, finish, tagged, lock_active_account}

pub data KboDailyCreditClaimResult : Type 0 where
  claimed : (claim_date : String) (available_paid debt_paid : ℤ) → KboDailyCreditClaimResult
  already_claimed not_enrolled duplicate_operation :
      (claim_date : String) → KboDailyCreditClaimResult

pub data ClaimStatus : Type 0 where
  claimed already_claimed not_enrolled : ClaimStatus

abbrev reason_of : ClaimStatus → String
reason_of ClaimStatus.claimed = "kbo_daily_claim_claimed"
reason_of ClaimStatus.already_claimed = "kbo_daily_claim_already_claimed"
reason_of ClaimStatus.not_enrolled = "kbo_daily_claim_not_enrolled"

abbrev is_claimed : ClaimStatus → Bool
is_claimed ClaimStatus.claimed = true
is_claimed _ = false

-- `none` is the conflict with an operation that is there.
unfoldable pub claim_operation : KboDailyCreditClaimInput → ℕ → ClaimStatus → Db → Option Db
unfolding insert_operation
claim_operation i now status = insert_operation (record {
  operation_id = i.operation_id;
  actor_id = i.discord_user_id;
  accepted_at = now;
  outcome = if is_claimed status then accepted else denied;
  reason_code = reason_of status;
})

unfoldable pub append_audit : KboDailyCreditClaimInput → ℕ → ClaimStatus → Db → Option Db
unfolding insert_audit
append_audit i now status = insert_audit (record {
  event_id = tagged "kbo-daily-claim:" i.operation_id;
  operation_id = i.operation_id;
  occurred_at = now;
  event_type = "kbo.daily_claim";
  actor_id = some i.discord_user_id;
  outcome = if is_claimed status then "success" else "denied";
  reason_code = reason_of status;
  guild_id = some i.guild_id;
})

abbrev result_of : LedgerRow → ClaimRow → KboDailyCreditClaimResult
result_of e c = claimed c.claim_date e.available_delta (neg_ℤ e.debt_delta)

-- The claim of an operation, joined with its ledger entry.
unfoldable pub find_claim_by_operation :
    (account operation : String) → Db → Option KboDailyCreditClaimResult
find_claim_by_operation account operation db = do
  c ← find (λ r. str_eq r.account_id account && str_eq r.operation_id operation) db.claims
  e ← find (λ r. r.entry_id == c.ledger_entry_id) db.ledger
  some (result_of e c)

abbrev terminal_result : ClaimStatus → String → KboDailyCreditClaimResult
terminal_result ClaimStatus.not_enrolled date = not_enrolled date
terminal_result _ date = already_claimed date

unfoldable pub record_terminal :
    KboDailyCreditClaimInput
    → ℕ
    → String
    → ClaimStatus
    → Db
    → Option (KboDailyCreditClaimResult × Db)
record_terminal i now date status db = elim (claim_operation i now status db) [
  | none ↦ some (duplicate_operation date, db)
  | some db' ↦ append_audit i now status db' >>= λ final. some (terminal_result status date, final)
]

abbrev paid : AccountRow → DailyAllocation → ℕ → AccountRow → AccountRow
paid account a now r = record r {
  available_balance = account.available_balance +ℤ a.available_paid;
  correction_debt = account.correction_debt -ℤ a.debt_paid;
  version = r.version + 1;
  updated_at = now;
}

abbrev entry_of : KboDailyCreditClaimInput → ℕ → String → AccountRow → DailyAllocation → LedgerRow
entry_of i now date account a = record {
  entry_id = 0;
  account_id = account.account_id;
  reason_code = daily_claim;
  available_delta = a.available_paid;
  debt_delta = neg_ℤ a.debt_paid;
  available_before = account.available_balance;
  available_after = account.available_balance +ℤ a.available_paid;
  debt_before = account.correction_debt;
  debt_after = account.correction_debt -ℤ a.debt_paid;
  operation_id = i.operation_id;
  source_type = "daily_claim";
  source_id = date;
  actor = system;
  occurred_at = now;
}

abbrev claim_row : KboDailyCreditClaimInput → ℕ → String → AccountRow → ℕ → ClaimRow
claim_row i now date account entry = record {
  claim_id = i.claim_id;
  account_id = account.account_id;
  claim_date = date;
  operation_id = i.operation_id;
  ledger_entry_id = entry;
  claimed_at = now;
}

-- The statements from the update of the account to the audit event.
unfoldable pub pay_claim :
    KboDailyCreditClaimInput
    → ℕ
    → String
    → AccountRow
    → DailyAllocation
    → Db
    → Option (KboDailyCreditClaimResult × Db)
pay_claim i now date account a db = do
  updated ← update_account account.account_id (paid account a now) db
  entered ← insert_ledger (entry_of i now date account a) updated
  recorded ← insert_claim (claim_row i now date account updated.next_entry_id) entered
  audited ← append_audit i now ClaimStatus.claimed recorded
  some (claimed date a.available_paid a.debt_paid, audited)

abbrev or_duplicate : String → Option KboDailyCreditClaimResult → KboDailyCreditClaimResult
or_duplicate date none = duplicate_operation date
or_duplicate date (some r) = r

unfoldable pub claim_new :
    KboDailyCreditClaimInput
    → ℕ
    → String
    → AccountRow
    → Db
    → Option (KboDailyCreditClaimResult × Db)
claim_new i now date account db = elim (claim_operation i now ClaimStatus.claimed db) [
  | none ↦
      some (or_duplicate date (find_claim_by_operation account.account_id i.operation_id db), db)
  | some db' ↦
      allocate_daily_credit account.correction_debt >>= λ a. pay_claim i now date account a db'
]

abbrev claimed_today : String → String → Db → Bool
claimed_today account date db =
    any (λ r. str_eq r.account_id account && str_eq r.claim_date date) db.claims

unfoldable pub claim_for :
    KboDailyCreditClaimInput
    → ℕ
    → String
    → AccountRow
    → Db
    → Option (KboDailyCreditClaimResult × Db)
claim_for i now date account db =
    elim (find_claim_by_operation account.account_id i.operation_id db) [
      | some previous ↦ some (previous, db)
      | none ↦
          if claimed_today account.account_id date db
          then record_terminal i now date ClaimStatus.already_claimed db
          else claim_new i now date account db
    ]

unfoldable pub claim_tx :
    KboDailyCreditClaimInput → ℕ → String → Db → Option (KboDailyCreditClaimResult × Db)
claim_tx i now date db = elim (lock_active_account i.guild_id i.discord_user_id db) [
  | none ↦ record_terminal i now date ClaimStatus.not_enrolled db
  | some account ↦ claim_for i now date account db
]

abbrev claim_at :
    (ℕ → String) → KboDailyCreditClaimInput → Date → Db → Outcome KboDailyCreditClaimResult × Db
claim_at format_kst i invalid_date db = (input_error, db)
claim_at format_kst i (instant now) db = finish db (claim_tx i now (format_kst now) db)

-- `claim`
unfoldable pub claim :
    (ℕ → String) → KboDailyCreditClaimInput → Db → Outcome KboDailyCreditClaimResult × Db
claim format_kst i db =
    if assert_kbo_daily_credit_claim_input i
    then claim_at format_kst i i.claimed_at db
    else (input_error, db)
