-- ===== src/Persistence/Ledger.antt =====
-- The credit ledger agrees with the accounts: the invariant of the tables credit_account and
-- credit_ledger_entry that the stores keep.
pub mod Posting
pub mod Frames
use waw_discord_bot.Prelude.{
  ◌≡◌, refl, sym, ap, ◌∙◌, Bool, true, false, not, ◌&&◌, ◌||◌, Option, none, some, List, [], ◌∷◌,
  ◌+◌, ℕ, subst, find-All, All-const, +ℤ_comm, eqb_ℤ→eq, String, str_eq, eq_iff, ℤ, pos, ◌+ℤ◌, ◌≤ℤ◌,
  eqb_ℤ, All, all, any, find, arith, int_laws, if◌then◌else◌, Bool-cases, inl, inr,
}
use waw_discord_bot.Persistence.Database.{
  Db, AccountRow, LedgerRow, has_account, set_account, account_ok, ledger_ok, update_account,
  insert_account, insert_ledger,
}

-- What the ledger says of an account.
unfoldable pub available_total : String → List LedgerRow → ℤ
available_total id [] = pos 0
available_total id (e ∷ es) =
    if str_eq e.account_id id
    then e.available_delta +ℤ available_total id es
    else available_total id es

unfoldable pub debt_total : String → List LedgerRow → ℤ
debt_total id [] = pos 0
debt_total id (e ∷ es) =
    if str_eq e.account_id id then e.debt_delta +ℤ debt_total id es else debt_total id es

pub record IsPosted (ledger : List LedgerRow) (r : AccountRow) : Type 0 where
  pub available : r.available_balance ≡ available_total r.account_id ledger
  pub debt : r.correction_debt ≡ debt_total r.account_id ledger
  pub solvent : pos 0 ≤ℤ r.available_balance
  pub owing : pos 0 ≤ℤ r.correction_debt

-- Every balance and every debt is the sum of the account's entries and at least 0, and every entry
-- belongs to an account.
pub record IsBalanced (accounts : List AccountRow) (ledger : List LedgerRow) : Type 0 where
  pub posted : All (IsPosted ledger) accounts
  pub owned : All (λ e. has_account e.account_id accounts ≡ true) ledger

abbrev pub Balances : Db → Type 0
Balances db = IsBalanced db.accounts db.ledger

-- An entry that records the change of an account, written with the change.
pub record IsEntry (row : AccountRow) (f : AccountRow → AccountRow) (e : LedgerRow) : Type 0 where
  pub account : e.account_id ≡ row.account_id
  pub keeps : (s : AccountRow) → (f s).account_id ≡ s.account_id
  pub available_before : e.available_before ≡ row.available_balance
  pub debt_before : e.debt_before ≡ row.correction_debt
  pub available_after :
      (s : AccountRow)
      → s.available_balance ≡ row.available_balance
      → (f s).available_balance ≡ e.available_after
  pub debt_after :
      (s : AccountRow)
      → s.correction_debt ≡ row.correction_debt
      → (f s).correction_debt ≡ e.debt_after

-- Two states of the tables with the same accounts and entries.
pub record SameCredit (db db' : Db) : Type 0 where
  pub accounts : db'.accounts ≡ db.accounts
  pub ledger : db'.ledger ≡ db.ledger
