-- ===== src/Persistence/Enrollment/Laws.antt =====
-- What an enrolment does to the accounts and the ledger, and what it leaves to later transactions.
use waw_discord_bot.Prelude.{
  ℕ, ◌∷◌, ◌∙◌, Date, invalid_date, instant, ◌≡◌, subst, Bool, true, false, ◌&&◌, none, some, String,
  str_eq, any, pos, arith, eq_refl, >>=-eq-some, Option-cases, inl, inr, Bool-cases, if◌then◌else◌,
}
use waw_discord_bot.Persistence.Database.{
  Db, AccountRow, EnrollmentRow, insert_account, insert_enrollment, insert_audit,
}
use waw_discord_bot.Persistence.Queries.{find_enrollment, lock_active_account}
use waw_discord_bot.Persistence.Ledger.{Balances, SameCredit}
use waw_discord_bot.Persistence.Ledger.Posting.{SameCredit-Balances, insert_account-Balances}
use waw_discord_bot.Persistence.Ledger.Frames.{
  insert_operation-SameCredit, insert_audit-SameCredit, finish-Balances,
}
use waw_discord_bot.Persistence.Enrollment.{
  KboEnrollmentInput, KboEnrollmentResult, created, is_created, decide, claim_operation,
  append_audit, enrollment_row, open_account, complete, enroll_tx, enroll_at, enroll,
  assert_kbo_enrollment_input,
}

insert_enrollment-SameCredit :
    (row : EnrollmentRow) (db : Db) {db' : Db}
    → insert_enrollment row db ≡ some db'
    → SameCredit db db'
unfolding insert_enrollment
insert_enrollment-SameCredit row db h = ground arith

module _ (i : KboEnrollmentInput) (at : ℕ) where
  claim_operation-SameCredit :
      (result : KboEnrollmentResult) (db : Db) {db' : Db}
      → claim_operation i at result db ≡ some db'
      → SameCredit db db'
  unfolding claim_operation
  claim_operation-SameCredit result db h = insert_operation-SameCredit _ db h

  append_audit-SameCredit :
      (result : KboEnrollmentResult) (db : Db) {db' : Db}
      → append_audit i at result db ≡ some db'
      → SameCredit db db'
  unfolding append_audit
  append_audit-SameCredit result db h = insert_audit-SameCredit _ db h

  open_account-Balances :
      (db : Db) {db' : Db} → Balances db → open_account i at db ≡ some db' → Balances db'
  unfolding open_account
  open_account-Balances db b h =
      let (opened, e₁, h₁) = >>=-eq-some (insert_account i.account_id at db) _ h in
      SameCredit-Balances opened (insert_enrollment-SameCredit (enrollment_row i at) opened h₁)
        (insert_account-Balances i.account_id at db b e₁)

  written-Balances :
      (new : Bool) (db : Db) {db' : Db}
      → Balances db
      → (if new then open_account i at db else some db) ≡ some db'
      → Balances db'
  written-Balances true db b h = open_account-Balances db b h
  written-Balances false db {db'} b h =
      let same : db ≡ db' = ground arith in subst (λ d. Balances d) same b

  complete-Balances :
      (result : KboEnrollmentResult) (db : Db) {r : KboEnrollmentResult} {db' : Db}
      → Balances db
      → complete i at result db ≡ some (r, db')
      → Balances db'
  unfolding complete
  complete-Balances result db {db'} b h =
      let (written, e₁, h₁) =
        >>=-eq-some (if is_created result then open_account i at db else some db) _ h in
      let (audited, e₂, h₂) = >>=-eq-some (append_audit i at result written) _ h₁ in
      let same : audited ≡ db' = ground arith in
      subst (λ d. Balances d) same
        (SameCredit-Balances written (append_audit-SameCredit result written e₂)
          (written-Balances (is_created result) db b e₁))

  enroll_tx-Balances :
      (db : Db) {r : KboEnrollmentResult} {db' : Db}
      → Balances db
      → enroll_tx i at db ≡ some (r, db')
      → Balances db'
  unfolding enroll_tx
  enroll_tx-Balances db {db'} b h = elim (Option-cases (claim_operation i at (decide i db) db)) [
    | inl conflict ↦ let same : db ≡ db' = ground arith in subst (λ d. Balances d) same b
    | inr (claimed, fresh) ↦
        complete-Balances (decide i db) claimed
          (SameCredit-Balances db (claim_operation-SameCredit (decide i db) db fresh) b)
          (rw (fresh, enroll_tx) at h)
  ]

-- Whatever an enrolment gives, the ledger stays balanced.
pub enroll-Balances : (i : KboEnrollmentInput) (db : Db) → Balances db → Balances (enroll i db).1
unfolding enroll
enroll-Balances i db b = elim (Bool-cases (assert_kbo_enrollment_input i)) [
  | inl valid ↦ rw valid (at_date i.enrolled_at)
  | inr invalid ↦ rw invalid b
]
  where
    at_date : (d : Date) → Balances (enroll_at i d db).1
    at_date invalid_date = b
    at_date (instant at) =
        finish-Balances db (enroll_tx i at db) b (λ r db' e. enroll_tx-Balances i at db b e)

-- An account as it is opened.
abbrev pub opened_account : String → ℕ → AccountRow
opened_account id at = record {
  account_id = id;
  available_balance = pos 0;
  correction_debt = pos 0;
  version = 0;
  created_at = at;
  updated_at = at;
}

-- The tables before and after a member was enrolled.
pub record IsEnrolled (i : KboEnrollmentInput) (at : ℕ) (db db' : Db) : Type 0 where
  pub registered :
      any (λ r. str_eq r.0 i.guild_id && str_eq r.1 i.discord_user_id) db.registered ≡ true
  pub absent : find_enrollment i.guild_id i.discord_user_id db ≡ none
  pub account :
      lock_active_account i.guild_id i.discord_user_id db' ≡ some (opened_account i.account_id at)

module _ (i : KboEnrollmentInput) (at : ℕ) where
  decide-created :
      (db : Db)
      → decide i db ≡ created
      → (any (λ r. str_eq r.0 i.guild_id && str_eq r.1 i.discord_user_id) db.registered ≡ true)
        × (find_enrollment i.guild_id i.discord_user_id db ≡ none)
  unfolding decide
  decide-created db h = ground arith

  open_account-tables :
      (db : Db) {db' : Db}
      → open_account i at db ≡ some db'
      → (db'.accounts ≡ opened_account i.account_id at ∷ db.accounts)
        × (db'.enrollments ≡ enrollment_row i at ∷ db.enrollments)
  unfolding open_account insert_account insert_enrollment
  open_account-tables db h = ground arith

  append_audit-tables :
      (result : KboEnrollmentResult) (db : Db) {db' : Db}
      → append_audit i at result db ≡ some db'
      → (db'.accounts ≡ db.accounts) × (db'.enrollments ≡ db.enrollments)
  unfolding append_audit insert_audit
  append_audit-tables result db h = ground arith

  lock-opened :
      (db db' : Db)
      → db'.accounts ≡ opened_account i.account_id at ∷ db.accounts
      → db'.enrollments ≡ enrollment_row i at ∷ db.enrollments
      → lock_active_account i.guild_id i.discord_user_id db' ≡ some (opened_account i.account_id at)
  unfolding lock_active_account
  lock-opened db db' accounts enrollments =
      ground (arith, eq_refl i.guild_id, eq_refl i.discord_user_id, eq_refl i.account_id)

  complete-created :
      (db : Db) {db' : Db}
      → complete i at created db ≡ some (created, db')
      → lock_active_account i.guild_id i.discord_user_id db' ≡ some (opened_account i.account_id at)
  unfolding complete
  complete-created db {db'} h =
      let (written, e₁, h₁) = >>=-eq-some (open_account i at db) _ h in
      let (audited, e₂, h₂) = >>=-eq-some (append_audit i at created written) _ h₁ in
      let same : audited ≡ db' = ground arith in
      let (accounts, enrollments) = open_account-tables db e₁ in
      let (accounts', enrollments') = append_audit-tables created written e₂ in
      subst
        (λ d.
          lock_active_account i.guild_id i.discord_user_id d
          ≡ some (opened_account i.account_id at))
        same (lock-opened db audited (accounts' ∙ accounts) (enrollments' ∙ enrollments))

  -- An enrolment that reports a created account was of a registered member who had no active
  -- enrolment, and after it the member's active account is the new one, without credit and without
  -- debt.
  pub enroll_tx-IsEnrolled :
      (db : Db) {db' : Db} → enroll_tx i at db ≡ some (created, db') → IsEnrolled i at db db'
  unfolding enroll_tx
  enroll_tx-IsEnrolled db h = elim (Option-cases (claim_operation i at (decide i db) db)) [
    | inl conflict ↦ absurd (ground arith)
    | inr (claimed, fresh) ↦
        let (written, _, h₁) =
          >>=-eq-some (if is_created (decide i db) then open_account i at claimed else some claimed)
            _ (rw (fresh, enroll_tx, complete) at h) in
        let (audited, _, h₂) = >>=-eq-some (append_audit i at (decide i db) written) _ h₁ in
        let new : decide i db ≡ created = ground arith in
        let (registered, absent) = decide-created db new in
        record {
          registered = registered;
          absent = absent;
          account = complete-created claimed (rw (fresh, enroll_tx, new) at h);
        }
  ]
