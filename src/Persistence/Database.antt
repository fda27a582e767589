-- ===== src/Persistence/Database.antt =====
-- The tables of migrations/0001, 0013 to 0018 that the KBO stores of src/persistence use, and the
-- statements that the stores send. A table is a list of rows, and `rows[0]` of a query is the first
-- match. A statement that breaks a constraint of the migrations is `none`: the transaction is rolled
-- back. Transactions run one after another, as the row locks of the stores make them.
pub mod Rows
pub use Rows.*
use waw_discord_bot.Prelude.{
  ℕ, suc, ◌+◌, ◌≡◌, Bool, true, false, not, ◌&&◌, ◌||◌, Option, none, some, List, [], ◌∷◌, String,
  str_eq, ℤ, pos, negsuc, ◌+ℤ◌, leb_ℤ, eqb_ℤ, leb, ◌==◌, any, all, find, is_some, if◌then◌else◌,
}

pub record Db : Type 0 where
  pub accounts : List AccountRow
  pub enrollments : List EnrollmentRow
  pub operations : List OperationRow
  pub ledger : List LedgerRow
  pub next_entry_id : ℕ
  pub claims : List ClaimRow
  pub games : List GameRow
  pub bets : List BetRow
  pub settlements : List SettlementRow
  pub audits : List AuditRow
  pub registered : List (String × String)

abbrev pub has_account : String → List AccountRow → Bool
has_account id = any (λ r. str_eq r.account_id id)

abbrev pub has_operation : String → List OperationRow → Bool
has_operation id = any (λ r. str_eq r.operation_id id)

-- The range of `bigint`, and the checks of `credit_account`.
abbrev pub in_bigint : ℤ → Bool
in_bigint v = leb_ℤ (negsuc 9223372036854775807) v && leb_ℤ v (pos 9223372036854775807)

unfoldable pub account_ok : AccountRow → Bool
account_ok r =
    leb_ℤ (pos 0) r.available_balance
    && in_bigint r.available_balance
    && leb_ℤ (pos 0) r.correction_debt
    && in_bigint r.correction_debt
    && leb r.created_at r.updated_at

-- `update credit_account set … where account_id = $1`
abbrev pub set_account : String → (AccountRow → AccountRow) → List AccountRow → List AccountRow
set_account id f [] = []
set_account id f (r ∷ rs) = (if str_eq r.account_id id then f r else r) ∷ set_account id f rs

unfoldable pub update_account : String → (AccountRow → AccountRow) → Db → Option Db
update_account id f db =
    let rows = set_account id f db.accounts in
    if all account_ok rows then some (record db { accounts = rows }) else none

-- `insert into credit_account (account_id, created_at, updated_at)`
unfoldable pub insert_account : String → ℕ → Db → Option Db
insert_account id at db =
    if has_account id db.accounts
    then none
    else some (record db {
      accounts =
          record {
            account_id = id;
            available_balance = pos 0;
            correction_debt = pos 0;
            version = 0;
            created_at = at;
            updated_at = at;
          }
          ∷ db.accounts;
    })

-- `insert into operation_ledger … on conflict do nothing`; `none` is a `rowCount` of 0.
unfoldable pub insert_operation : OperationRow → Db → Option Db
insert_operation row db =
    if has_operation row.operation_id db.operations
    then none
    else some (record db { operations = row ∷ db.operations })

abbrev pub reason_eq : LedgerReason → LedgerReason → Bool
reason_eq daily_claim daily_claim = true
reason_eq bet_stake bet_stake = true
reason_eq bet_payout bet_payout = true
reason_eq bet_void_refund bet_void_refund = true
reason_eq settlement_correction settlement_correction = true
reason_eq admin_adjustment admin_adjustment = true
reason_eq _ _ = false

-- The two unique constraints of `credit_ledger_entry`.
abbrev pub ledger_clash : LedgerRow → LedgerRow → Bool
ledger_clash a b =
    str_eq a.account_id b.account_id
    && reason_eq a.reason_code b.reason_code
    && (str_eq a.operation_id b.operation_id
        || str_eq a.source_type b.source_type && str_eq a.source_id b.source_id)

-- The checks of `credit_ledger_entry`.
unfoldable pub ledger_ok : LedgerRow → Bool
ledger_ok e =
    leb_ℤ (pos 0) e.available_before
    && leb_ℤ (pos 0) e.available_after
    && leb_ℤ (pos 0) e.debt_before
    && leb_ℤ (pos 0) e.debt_after
    && eqb_ℤ e.available_after (e.available_before +ℤ e.available_delta)
    && eqb_ℤ e.debt_after (e.debt_before +ℤ e.debt_delta)
    && in_bigint e.available_delta
    && in_bigint e.debt_delta

-- `insert into credit_ledger_entry … returning entry_id`; the new identity is `db.next_entry_id`.
unfoldable pub insert_ledger : LedgerRow → Db → Option Db
insert_ledger row db =
    let e = record row { entry_id = db.next_entry_id } in
    if ledger_ok e
      && has_account e.account_id db.accounts
      && has_operation e.operation_id db.operations
      && not (any (ledger_clash e) db.ledger)
    then some (record db { ledger = e ∷ db.ledger; next_entry_id = db.next_entry_id + 1 })
    else none

-- `insert into audit_event`
unfoldable pub insert_audit : AuditRow → Db → Option Db
insert_audit row db =
    if any (λ r. str_eq r.event_id row.event_id) db.audits
    then none
    else some (record db { audits = row ∷ db.audits })

-- `insert into daily_credit_claim`, with its key and its two unique pairs.
unfoldable pub insert_claim : ClaimRow → Db → Option Db
insert_claim row db =
    if any
      (λ r.
        str_eq r.claim_id row.claim_id
        || str_eq r.operation_id row.operation_id
        || r.ledger_entry_id == row.ledger_entry_id
        || str_eq r.account_id row.account_id && str_eq r.claim_date row.claim_date)
      db.claims
    then none
    else some (record db { claims = row ∷ db.claims })

abbrev pub is_pending : BetStatus → Bool
is_pending pending = true
is_pending _ = false

abbrev pub is_void : BetStatus → Bool
is_void void = true
is_void _ = false

abbrev pub is_active : EnrollmentState → Bool
is_active active = true
is_active departed = false

abbrev pub same_user : Option String → Option String → Bool
same_user (some a) (some b) = str_eq a b
same_user _ _ = false

-- The key and the unique constraints of `betting_enrollment`, one of which is for active ones only.
abbrev pub enrollment_clash : EnrollmentRow → EnrollmentRow → Bool
enrollment_clash a b =
    str_eq a.enrollment_id b.enrollment_id
    || str_eq a.account_id b.account_id
    || is_active a.status
      && is_active b.status
      && str_eq a.guild_id b.guild_id
      && same_user a.discord_user_id b.discord_user_id

abbrev pub is_registered : String → Option String → List (String × String) → Bool
is_registered guild none rows = true
is_registered guild (some user) rows = any (λ r. str_eq r.0 guild && str_eq r.1 user) rows

-- `insert into betting_enrollment`, with its references to an account and to a registered user.
unfoldable pub insert_enrollment : EnrollmentRow → Db → Option Db
insert_enrollment row db =
    if any (enrollment_clash row) db.enrollments
      || not (has_account row.account_id db.accounts)
      || not (is_registered row.guild_id row.discord_user_id db.registered)
    then none
    else some (record db { enrollments = row ∷ db.enrollments })

abbrev pub set_departed : String → ℕ → List EnrollmentRow → List EnrollmentRow
set_departed id at [] = []
set_departed id at (r ∷ rs) =
    (if str_eq r.enrollment_id id
      then record r { status = departed; discord_user_id = none; departed_at = some at }
      else r)
    ∷ set_departed id at rs

abbrev pub is_later : ℕ → Option ℕ → Bool
is_later at none = true
is_later at (some t) = leb at t

-- `update betting_enrollment set status = 'departed', discord_user_id = null, departed_at = $2`
-- of one enrolment, with the check on its two times.
unfoldable pub depart_enrollment : String → ℕ → Db → Option Db
depart_enrollment id at db =
    let rows = set_departed id at db.enrollments in
    if all (λ r. is_later r.enrolled_at r.departed_at) rows
    then some (record db { enrollments = rows })
    else none

-- The key and the unique constraints of `kbo_bet`.
abbrev pub bet_clash : BetRow → BetRow → Bool
bet_clash a b =
    str_eq a.bet_id b.bet_id
    || str_eq a.operation_id b.operation_id
    || a.ledger_entry_id == b.ledger_entry_id
    || str_eq a.guild_id b.guild_id
      && str_eq a.account_id b.account_id
      && str_eq a.game_id b.game_id
      && (a.market_version == b.market_version || is_pending a.status && is_pending b.status)

-- `insert into kbo_bet`
unfoldable pub insert_bet : BetRow → Db → Option Db
insert_bet row db =
    if any (bet_clash row) db.bets then none else some (record db { bets = row ∷ db.bets })

abbrev pub same_entry : Option ℕ → Option ℕ → Bool
same_entry (some a) (some b) = a == b
same_entry _ _ = false

-- The key and the unique constraints of `bet_settlement`.
abbrev pub settlement_clash : SettlementRow → SettlementRow → Bool
settlement_clash a b =
    str_eq a.settlement_id b.settlement_id
    || str_eq a.operation_id b.operation_id
    || same_entry a.ledger_entry_id b.ledger_entry_id
    || str_eq a.bet_id b.bet_id && eqb_ℤ a.game_revision b.game_revision

-- `insert into bet_settlement`, with the check that an entry is named exactly for a delta.
unfoldable pub insert_settlement : SettlementRow → Db → Option Db
insert_settlement row db =
    if any (settlement_clash row) db.settlements
    then none
    else if not (eqb_ℤ row.applied_delta (pos 0)) && not (is_some row.ledger_entry_id)
    then none
    else if eqb_ℤ row.applied_delta (pos 0) && is_some row.ledger_entry_id
    then none
    else some (record db { settlements = row ∷ db.settlements })

-- `update kbo_bet set status = $2, current_settlement_id = $3 where bet_id = $1`
abbrev pub set_bet : String → BetStatus → String → List BetRow → List BetRow
set_bet id status settlement [] = []
set_bet id status settlement (r ∷ rs) =
    (if str_eq r.bet_id id
      then record r { status = status; current_settlement_id = some settlement }
      else r)
    ∷ set_bet id status settlement rs

unfoldable pub update_bet : String → BetStatus → String → Db → Db
update_bet id status settlement db = record db { bets = set_bet id status settlement db.bets }
