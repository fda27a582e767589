-- ===== src/Persistence/DailyClaim/Replay.antt =====
-- A claim that is sent again.
use waw_discord_bot.Prelude.{
  ℕ, ◌≡◌, ◌≢◌, refl, ap, subst, ◌∙◌, none, some, String, arith, >>=-eq-some, Option-cases, inl, inr,
  Bool-cases, ℤ, neg_ℤ, eq_refl,
}
use waw_discord_bot.Kbo.Credit.{KboDailyCreditClaimInput, DailyAllocation, allocate_daily_credit}
use waw_discord_bot.Persistence.Database.{Db, AccountRow}
use waw_discord_bot.Persistence.Queries.{lock_active_account}
use waw_discord_bot.Persistence.DailyClaim.{
  KboDailyCreditClaimResult, claimed, ClaimStatus, claim_operation, record_terminal, paid,
  pay_claim, claim_new, claim_for, claim_tx, claimed_today, find_claim_by_operation,
}
use waw_discord_bot.Persistence.Ledger.Frames.{lock_active_account-set, lock_active_account-same}
use waw_discord_bot.Persistence.DailyClaim.Laws.{pay_claim-tables}

neg_ℤ-neg_ℤ : (z : ℤ) → neg_ℤ (neg_ℤ z) ≡ z
neg_ℤ-neg_ℤ z = ground arith

-- After a paid claim the claim is found by its operation, as it was reported.
find_claim-pay_claim :
    (i : KboDailyCreditClaimInput) (now : ℕ) (date : String) (account : AccountRow)
    (a : DailyAllocation) (db : Db) {r : KboDailyCreditClaimResult} {db' : Db}
    → pay_claim i now date account a db ≡ some (r, db')
    → find_claim_by_operation account.account_id i.operation_id db' ≡ some r
unfolding find_claim_by_operation
find_claim-pay_claim i now date account a db h =
    let (_, _, claims, ledger, result) = pay_claim-tables i now date account a db h in
    ground (arith, eq_refl account.account_id, eq_refl i.operation_id, neg_ℤ-neg_ℤ a.debt_paid)

module _ (i : KboDailyCreditClaimInput) where
  -- The account that a paid claim leaves locked, and its claim.
  record IsKept (r : KboDailyCreditClaimResult) (db : Db) : Type 0 where
    account : AccountRow
    locked : lock_active_account i.guild_id i.discord_user_id db ≡ some account
    known : find_claim_by_operation account.account_id i.operation_id db ≡ some r

  pay_claim-IsKept :
      (now : ℕ) (date : String) (account : AccountRow) (a : DailyAllocation) (db : Db)
      {r : KboDailyCreditClaimResult} {db' : Db}
      → lock_active_account i.guild_id i.discord_user_id db ≡ some account
      → pay_claim i now date account a db ≡ some (r, db')
      → IsKept r db'
  pay_claim-IsKept now date account a db {db'} locked h =
      let (enrollments, accounts, _, _, _) = pay_claim-tables i now date account a db h in
      record {
        account = paid account a now account;
        locked =
            lock_active_account-set _ _ (paid account a now) db db' account (λ s. refl) enrollments
              accounts locked;
        known = find_claim-pay_claim i now date account a db h;
      }

  IsKept-claim_tx :
      (r : KboDailyCreditClaimResult) (db : Db) (j : KboDailyCreditClaimInput) (now : ℕ)
      (date : String)
      → IsKept r db
      → j.operation_id ≡ i.operation_id
      → j.guild_id ≡ i.guild_id
      → j.discord_user_id ≡ i.discord_user_id
      → claim_tx j now date db ≡ some (r, db)
  unfolding claim_tx claim_for
  IsKept-claim_tx r db j now date k operation guild user = ground arith

  claim_operation-enrolled :
      (now : ℕ) (status : ClaimStatus) (db : Db) {db' : Db}
      → claim_operation i now status db ≡ some db'
      → (db'.enrollments ≡ db.enrollments) × (db'.accounts ≡ db.accounts)
  unfolding claim_operation
  claim_operation-enrolled now status db h = ground arith

  claim_new-IsKept :
      (now : ℕ) (date : String) (account : AccountRow) (db : Db) {day : String} {p d : ℤ} {db' : Db}
      → lock_active_account i.guild_id i.discord_user_id db ≡ some account
      → find_claim_by_operation account.account_id i.operation_id db ≡ none
      → claim_new i now date account db ≡ some (claimed day p d, db')
      → IsKept (claimed day p d) db'
  unfolding claim_new
  claim_new-IsKept now date account db locked unknown h =
      elim (Option-cases (claim_operation i now ClaimStatus.claimed db)) [
        | inl conflict ↦ absurd (ground arith)
        | inr (next, fresh) ↦
            let (a, _, h') =
              >>=-eq-some (allocate_daily_credit account.correction_debt) _
                (rw (fresh, claim_new) at h) in
            pay_claim-IsKept now date account a next
              (let (e, a) = claim_operation-enrolled now ClaimStatus.claimed db fresh in
                lock_active_account-same i.guild_id i.discord_user_id db next e a locked)
              h'
      ]

  record_terminal-ne-claimed :
      (now : ℕ) (date : String) (status : ClaimStatus) (db : Db) {day : String} {p d : ℤ} {db' : Db}
      → record_terminal i now date status db ≢ some (claimed day p d, db')
  unfolding record_terminal
  record_terminal-ne-claimed now date status db = ground arith

  claim_tx-IsKept :
      (now : ℕ) (date : String) (db : Db) {day : String} {p d : ℤ} {db' : Db}
      → claim_tx i now date db ≡ some (claimed day p d, db')
      → IsKept (claimed day p d) db'
  unfolding claim_tx claim_for
  claim_tx-IsKept now date db {day} {p} {d} {db'} h =
      elim (Option-cases (lock_active_account i.guild_id i.discord_user_id db)) [
        | inl missing ↦ absurd (
            record_terminal-ne-claimed now date ClaimStatus.not_enrolled db
              (rw (missing, claim_tx) at h))
        | inr (account, locked) ↦
            let h' : claim_for i now date account db ≡ some (claimed day p d, db') =
              rw (locked, claim_tx) at h in
            elim (Option-cases (find_claim_by_operation account.account_id i.operation_id db)) [
              | inl unknown ↦ elim (Bool-cases (claimed_today account.account_id date db)) [
                | inl twice ↦ absurd (
                    record_terminal-ne-claimed now date ClaimStatus.already_claimed db
                      (rw (unknown, twice, claim_for) at h'))
                | inr first ↦
                    claim_new-IsKept now date account db locked unknown
                      (rw (unknown, first, claim_for) at h')
              ]
              | inr (previous, known) ↦
                  let same : db ≡ db' = ground arith in
                  let told : previous ≡ claimed day p d = ground arith in
                  subst (IsKept (claimed day p d)) same
                    (record { account = account; locked = locked; known = known ∙ ap some told })
            ]
      ]

-- A claim that was paid and is sent again, at any later instant and with any identifier of its own,
-- is answered as it was, and leaves the tables as they are: it is not paid twice.
pub claim_tx-claim_tx :
    (i j : KboDailyCreditClaimInput) (now later : ℕ) (date later_date : String) (db : Db)
    {day : String} {p d : ℤ} {db' : Db}
    → claim_tx i now date db ≡ some (claimed day p d, db')
    → j.operation_id ≡ i.operation_id
    → j.guild_id ≡ i.guild_id
    → j.discord_user_id ≡ i.discord_user_id
    → claim_tx j later later_date db' ≡ some (claimed day p d, db')
claim_tx-claim_tx i j now later date later_date db {day} {p} {d} {db'} h operation guild user =
    IsKept-claim_tx i (claimed day p d) db' j later later_date (claim_tx-IsKept i now date db h)
      operation guild user
