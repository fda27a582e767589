-- ===== src/Persistence/DailyClaim/Laws.antt =====
-- What a daily claim does to the accounts and the ledger.
use waw_discord_bot.Prelude.{
  ℕ, Date, invalid_date, instant, ◌∷◌, ◌≡◌, refl, subst, some, String, arith, >>=-eq-some,
  Option-cases, inl, inr, Bool-cases,
}
use waw_discord_bot.Kbo.Credit.{
  KboDailyCreditClaimInput, DailyAllocation, allocate_daily_credit,
  assert_kbo_daily_credit_claim_input,
}
use waw_discord_bot.Persistence.Database.{
  Db, AccountRow, set_account, update_account, insert_ledger, insert_claim,
}
use waw_discord_bot.Persistence.Queries.{find_account, lock_active_account}
use waw_discord_bot.Persistence.Ledger.{Balances, SameCredit, IsEntry}
use waw_discord_bot.Persistence.Ledger.Posting.{post-Balances, SameCredit-Balances}
use waw_discord_bot.Persistence.Ledger.Frames.{
  insert_operation-SameCredit, insert_audit-SameCredit, insert_claim-SameCredit,
  find_account-SameCredit, lock_active_account-found, SameCredit-refl, SameCredit-trans,
  finish-Balances,
}
use waw_discord_bot.Persistence.DailyClaim.{
  KboDailyCreditClaimResult, claimed, ClaimStatus, claim_operation, append_audit, record_terminal,
  paid, entry_of, claim_row, pay_claim, claim_new, claim_for, claim_tx, claimed_today,
  find_claim_by_operation, claim, claim_at,
}

module _ (i : KboDailyCreditClaimInput) (now : ℕ) where
  claim_operation-SameCredit :
      (status : ClaimStatus) (db : Db) {db' : Db}
      → claim_operation i now status db ≡ some db'
      → SameCredit db db'
  unfolding claim_operation
  claim_operation-SameCredit status db h = insert_operation-SameCredit _ db h

  append_audit-SameCredit :
      (status : ClaimStatus) (db : Db) {db' : Db}
      → append_audit i now status db ≡ some db'
      → SameCredit db db'
  unfolding append_audit
  append_audit-SameCredit status db h = insert_audit-SameCredit _ db h

  record_terminal-SameCredit :
      (date : String) (status : ClaimStatus) (db : Db) {r : KboDailyCreditClaimResult} {db' : Db}
      → record_terminal i now date status db ≡ some (r, db')
      → SameCredit db db'
  unfolding record_terminal
  record_terminal-SameCredit date status db {db'} h =
      elim (Option-cases (claim_operation i now status db)) [
        | inl conflict ↦
            let same : db ≡ db' = ground arith in subst (SameCredit db) same (SameCredit-refl db)
        | inr (next, fresh) ↦
            let (final, audited, end) =
              >>=-eq-some (append_audit i now status next) _ (rw (fresh, record_terminal) at h) in
            let same : final ≡ db' = ground arith in
            subst (SameCredit db) same (
              SameCredit-trans (claim_operation-SameCredit status db fresh)
                (append_audit-SameCredit status next audited))
      ]

  pay_claim-Balances :
      (date : String) (account : AccountRow) (a : DailyAllocation) (db : Db)
      {r : KboDailyCreditClaimResult} {db' : Db}
      → Balances db
      → find_account account.account_id db ≡ some account
      → pay_claim i now date account a db ≡ some (r, db')
      → Balances db'
  unfolding pay_claim
  pay_claim-Balances date account a db {db'} b found h =
      let (updated, e₁, h₁) =
        >>=-eq-some (update_account account.account_id (paid account a now) db) _ h in
      let (entered, e₂, h₂) =
        >>=-eq-some (insert_ledger (entry_of i now date account a) updated) _ h₁ in
      let (recorded, e₃, h₃) =
        >>=-eq-some (insert_claim (claim_row i now date account updated.next_entry_id) entered) _
          h₂ in
      let (audited, e₄, h₄) = >>=-eq-some (append_audit i now ClaimStatus.claimed recorded) _ h₃ in
      let same : audited ≡ db' = ground arith in
      let entry : IsEntry account (paid account a now) (entry_of i now date account a) = record {
        account = refl;
        keeps = λ s. refl;
        available_before = refl;
        debt_before = refl;
        available_after = λ s h. refl;
        debt_after = λ s h. refl;
      } in
      subst (λ d. Balances d) same
        (SameCredit-Balances entered
          (SameCredit-trans (insert_claim-SameCredit _ entered e₃)
            (append_audit-SameCredit ClaimStatus.claimed recorded e₄))
          (post-Balances account.account_id account (paid account a now)
            (entry_of i now date account a) db b found entry e₁ e₂))

  claim_new-Balances :
      (date : String) (account : AccountRow) (db : Db) {r : KboDailyCreditClaimResult} {db' : Db}
      → Balances db
      → find_account account.account_id db ≡ some account
      → claim_new i now date account db ≡ some (r, db')
      → Balances db'
  unfolding claim_new
  claim_new-Balances date account db {db'} b found h =
      elim (Option-cases (claim_operation i now ClaimStatus.claimed db)) [
        | inl conflict ↦ let same : db ≡ db' = ground arith in subst (λ d. Balances d) same b
        | inr (next, fresh) ↦
            let kept = claim_operation-SameCredit ClaimStatus.claimed db fresh in
            let (a, _, h') =
              >>=-eq-some (allocate_daily_credit account.correction_debt) _
                (rw (fresh, claim_new) at h) in
            pay_claim-Balances date account a next (SameCredit-Balances db kept b)
              (find_account-SameCredit account.account_id db kept found) h'
      ]

  claim_for-Balances :
      (date : String) (account : AccountRow) (db : Db) {r : KboDailyCreditClaimResult} {db' : Db}
      → Balances db
      → find_account account.account_id db ≡ some account
      → claim_for i now date account db ≡ some (r, db')
      → Balances db'
  unfolding claim_for
  claim_for-Balances date account db {db'} b found h =
      elim (Option-cases (find_claim_by_operation account.account_id i.operation_id db)) [
        | inl fresh ↦ elim (Bool-cases (claimed_today account.account_id date db)) [
          | inl twice ↦
              SameCredit-Balances db
                (record_terminal-SameCredit date ClaimStatus.already_claimed db
                  (rw (fresh, twice, claim_for) at h))
                b
          | inr first ↦
              claim_new-Balances date account db b found (rw (fresh, first, claim_for) at h)
        ]
        | inr (previous, known) ↦
            let same : db ≡ db' = ground arith in subst (λ d. Balances d) same b
      ]

  claim_tx-Balances :
      (date : String) (db : Db) {r : KboDailyCreditClaimResult} {db' : Db}
      → Balances db
      → claim_tx i now date db ≡ some (r, db')
      → Balances db'
  unfolding claim_tx
  claim_tx-Balances date db b h =
      elim (Option-cases (lock_active_account i.guild_id i.discord_user_id db)) [
        | inl missing ↦
            SameCredit-Balances db
              (record_terminal-SameCredit date ClaimStatus.not_enrolled db
                (rw (missing, claim_tx) at h))
              b
        | inr (account, locked) ↦
            claim_for-Balances date account db b (lock_active_account-found _ _ db locked)
              (rw (locked, claim_tx) at h)
      ]

  -- What the tables are after a paid claim.
  pub pay_claim-tables :
      (date : String) (account : AccountRow) (a : DailyAllocation) (db : Db)
      {r : KboDailyCreditClaimResult} {db' : Db}
      → pay_claim i now date account a db ≡ some (r, db')
      → (db'.enrollments ≡ db.enrollments)
        × (db'.accounts ≡ set_account account.account_id (paid account a now) db.accounts)
        × (db'.claims ≡ claim_row i now date account db.next_entry_id ∷ db.claims)
        × (db'.ledger
            ≡ (record (entry_of i now date account a) { entry_id = db.next_entry_id }) ∷ db.ledger)
        × (r ≡ claimed date a.available_paid a.debt_paid)
  unfolding pay_claim update_account insert_ledger insert_claim append_audit
  pay_claim-tables date account a db h = ground arith

-- Whatever a claim gives, a paid, refused or failed one, the ledger stays balanced.
pub claim-Balances :
    (format_kst : ℕ → String) (i : KboDailyCreditClaimInput) (db : Db)
    → Balances db
    → Balances (claim format_kst i db).1
unfolding claim
claim-Balances format_kst i db b = elim (Bool-cases (assert_kbo_daily_credit_claim_input i)) [
  | inl valid ↦ rw valid (at_date i.claimed_at)
  | inr invalid ↦ rw invalid b
]
  where
    at_date : (d : Date) → Balances (claim_at format_kst i d db).1
    at_date invalid_date = b
    at_date (instant now) =
        finish-Balances db (claim_tx i now (format_kst now) db) b
          (λ r db' e. claim_tx-Balances i now (format_kst now) db b e)
