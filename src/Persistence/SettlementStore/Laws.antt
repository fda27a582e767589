-- ===== src/Persistence/SettlementStore/Laws.antt =====
-- What a settlement does to the accounts and the ledger.
use waw_discord_bot.Prelude.{
  ℕ, ℤ, ◌-ℤ◌, ◌≡◌, refl, subst, Option, none, some, arith, >>=-eq-some, Option-cases, inl, inr,
  Bool-cases, Date, invalid_date, instant, eqb_ℤ, ltb_ℤ, str_eq,
}
use waw_discord_bot.Kbo.Settlement.{
  KboSettlementInput, DeltaAllocation, Allocation, allocated, invalid_account_projection,
  invalid_void_refund, allocate_settlement_delta, assert_kbo_settlement_input,
}
use waw_discord_bot.Persistence.Database.{
  Db, AccountRow, LedgerReason, BetRow, GameRow, SettlementRow, update_account, insert_ledger,
  insert_settlement, update_bet,
}
use waw_discord_bot.Persistence.Queries.{find_account, lock_game}
use waw_discord_bot.Persistence.Ledger.{Balances, SameCredit, IsEntry}
use waw_discord_bot.Persistence.Ledger.Posting.{post-Balances, SameCredit-Balances}
use waw_discord_bot.Persistence.Ledger.Frames.{
  insert_operation-SameCredit, insert_audit-SameCredit, insert_settlement-SameCredit,
  update_bet-SameCredit, SameCredit-trans, finish-Balances, find_account-SameCredit,
  find_account-own,
}
use waw_discord_bot.Persistence.SettlementStore.{
  DenialReason, rights_unauthorized, bet_not_found, game_data_unavailable, revision_not_current,
  revision_not_newer, game_not_terminal, already_settled, KboSettlementResult, claim_operation,
  append_audit, commit_denied, find_settlement_by_operation, lock_bet, Calculated, Calculation,
  calculated, not_terminal, failed,
}
use waw_discord_bot.Persistence.SettlementStore.Transaction.{
  lock_owner, delta_input, previous_return, bet_status, is_authorized, entry_reason, moved,
  delta_entry, is_zero, apply_account_delta, settlement_row, write_settlement, settle_new,
  settle_calculated, settle_bet, settle_locked, settle_on, settle_for, settle_tx, settle_at, settle,
}

module _ (i : KboSettlementInput) (now : ℕ) where
  claim_operation-SameCredit :
      (result : Option DenialReason) (db : Db) {db' : Db}
      → claim_operation i now result db ≡ some db'
      → SameCredit db db'
  unfolding claim_operation
  claim_operation-SameCredit result db h = insert_operation-SameCredit _ db h

  append_audit-SameCredit :
      (result : Option DenialReason) (db : Db) {db' : Db}
      → append_audit i now result db ≡ some db'
      → SameCredit db db'
  unfolding append_audit
  append_audit-SameCredit result db h = insert_audit-SameCredit _ db h

  commit_denied-Balances :
      (reason : DenialReason) (db : Db) {r : KboSettlementResult} {db' : Db}
      → Balances db
      → commit_denied i now reason db ≡ some (r, db')
      → Balances db'
  unfolding commit_denied
  commit_denied-Balances reason db {db'} b h =
      elim (Option-cases (claim_operation i now (some reason) db)) [
        | inl conflict ↦ let same : db ≡ db' = ground arith in subst (λ d. Balances d) same b
        | inr (next, fresh) ↦
            let (final, audited, end) =
              >>=-eq-some (append_audit i now (some reason) next) _
                (rw (fresh, commit_denied) at h) in
            let same : final ≡ db' = ground arith in
            subst (λ d. Balances d) same
              (SameCredit-Balances db
                (SameCredit-trans (claim_operation-SameCredit (some reason) db fresh)
                  (append_audit-SameCredit (some reason) next audited))
                b)
      ]

  apply_account_delta-Balances :
      (account : AccountRow) (delta : DeltaAllocation) (reason : LedgerReason) (db : Db)
      {entry : Option ℕ} {db' : Db}
      → Balances db
      → find_account account.account_id db ≡ some account
      → apply_account_delta i now account delta reason db ≡ some (entry, db')
      → Balances db'
  unfolding apply_account_delta
  apply_account_delta-Balances account delta reason db {db'} b found h =
      elim (Bool-cases (is_zero delta)) [
        | inl zero ↦ let same : db ≡ db' = ground arith in subst (λ d. Balances d) same b
        | inr some_delta ↦
            let (updated, e₁, h₁) =
              >>=-eq-some (update_account account.account_id (moved account delta now) db) _
                (rw (some_delta, apply_account_delta) at h) in
            let (entered, e₂, h₂) =
              >>=-eq-some (insert_ledger (delta_entry i now account delta reason) updated) _ h₁ in
            let same : entered ≡ db' = ground arith in
            let entry : IsEntry account (moved account delta now)
                (delta_entry i now account delta reason) =
              record {
                account = refl;
                keeps = λ s. refl;
                available_before = refl;
                debt_before = refl;
                available_after = λ s h. refl;
                debt_after = λ s h. refl;
              } in
            subst (λ d. Balances d) same
              (post-Balances account.account_id account (moved account delta now)
                (delta_entry i now account delta reason) db b found entry e₁ e₂)
      ]

  write_settlement-Balances :
      (account : AccountRow) (bet : BetRow) (c : Calculated) (applied : ℤ) (delta : DeltaAllocation)
      (db : Db) {r : KboSettlementResult} {db' : Db}
      → Balances db
      → find_account account.account_id db ≡ some account
      → write_settlement i now account bet c applied delta db ≡ some (r, db')
      → Balances db'
  unfolding write_settlement
  write_settlement-Balances account bet c applied delta db {db'} b found h =
      let reason = entry_reason bet.current_settlement_id c.result in
      let (written, e₁, h₁) = >>=-eq-some (apply_account_delta i now account delta reason db) _ h in
      let (recorded, e₂, h₂) =
        >>=-eq-some (insert_settlement (settlement_row i now bet c applied written.0) written.1) _
          h₁ in
      let closed = update_bet i.bet_id (bet_status c.result) i.settlement_id recorded in
      let (audited, e₃, h₃) = >>=-eq-some (append_audit i now none closed) _ h₂ in
      let same : audited ≡ db' = ground arith in
      subst (λ d. Balances d) same
        (SameCredit-Balances written.1
          (SameCredit-trans (insert_settlement-SameCredit _ written.1 e₂) (
            SameCredit-trans (update_bet-SameCredit _ _ _ recorded)
              (append_audit-SameCredit none closed e₃)))
          (apply_account_delta-Balances account delta reason db b found e₁))

  settle_new-Balances :
      (account : AccountRow) (bet : BetRow) (c : Calculated) (applied : ℤ) (delta : DeltaAllocation)
      (db : Db) {r : KboSettlementResult} {db' : Db}
      → Balances db
      → find_account account.account_id db ≡ some account
      → settle_new i now account bet c applied delta db ≡ some (r, db')
      → Balances db'
  unfolding settle_new
  settle_new-Balances account bet c applied delta db {db'} b found h =
      elim (Option-cases (claim_operation i now none db)) [
        | inl conflict ↦ let same : db ≡ db' = ground arith in subst (λ d. Balances d) same b
        | inr (next, fresh) ↦
            let kept = claim_operation-SameCredit none db fresh in
            write_settlement-Balances account bet c applied delta next
              (SameCredit-Balances db kept b)
              (find_account-SameCredit account.account_id db kept found)
              (rw (fresh, settle_new) at h)
      ]

  settle_calculated-Balances :
      (account : AccountRow) (bet : BetRow) (previous : Option SettlementRow) (c : Calculation)
      (db : Db) {r : KboSettlementResult} {db' : Db}
      → Balances db
      → find_account account.account_id db ≡ some account
      → settle_calculated i now account bet previous c db ≡ some (r, db')
      → Balances db'
  unfolding settle_calculated
  settle_calculated-Balances account bet previous failed db b found h = cc
  settle_calculated-Balances account bet previous not_terminal db b found h =
      commit_denied-Balances game_not_terminal db b h
  settle_calculated-Balances account bet previous (calculated c) db {r} {db'} b found h =
      by_allocation (allocate_settlement_delta (delta_input account bet previous c)) refl
    where
      by_allocation :
          (a : Allocation)
          → allocate_settlement_delta (delta_input account bet previous c) ≡ a
          → Balances db'
      by_allocation (allocated delta) e =
          settle_new-Balances account bet c (c.return_amount -ℤ previous_return previous) delta db b
            found (rw (e, settle_calculated) at h)
      by_allocation invalid_account_projection e = absurd (ground arith)
      by_allocation invalid_void_refund e = absurd (ground arith)

  settle_bet-Balances :
      (account : AccountRow) (game : GameRow) (bet : BetRow) (previous : Option SettlementRow)
      (db : Db) {r : KboSettlementResult} {db' : Db}
      → Balances db
      → find_account account.account_id db ≡ some account
      → settle_bet i now account game bet previous db ≡ some (r, db')
      → Balances db'
  unfolding settle_bet
  settle_bet-Balances account game bet none db b found h =
      settle_calculated-Balances account bet none _ db b found h
  settle_bet-Balances account game bet (some previous) db b found h =
      elim (Bool-cases (eqb_ℤ previous.game_revision i.game_revision)) [
        | inl again ↦ commit_denied-Balances already_settled db b (rw again at h)
        | inr other ↦ elim (Bool-cases (ltb_ℤ i.game_revision previous.game_revision)) [
          | inl older ↦ commit_denied-Balances revision_not_newer db b (rw (other, older) at h)
          | inr newer ↦
              settle_calculated-Balances account bet (some previous) _ db b found
                (rw (other, newer) at h)
        ]
      ]

  settle_on-Balances :
      (account : AccountRow) (game : GameRow) (db : Db) {r : KboSettlementResult} {db' : Db}
      → Balances db
      → find_account account.account_id db ≡ some account
      → settle_on i now account game db ≡ some (r, db')
      → Balances db'
  unfolding settle_on settle_locked
  settle_on-Balances account game db b found h =
      elim (Bool-cases (eqb_ℤ game.current_revision i.game_revision)) [
        | inr old ↦ commit_denied-Balances revision_not_current db b (rw (old, settle_on) at h)
        | inl current ↦ elim (Option-cases (lock_bet i db)) [
          | inl absent ↦
              commit_denied-Balances bet_not_found db b (rw (current, absent, settle_on) at h)
          | inr (bet, locked) ↦ elim (Bool-cases (str_eq bet.account_id account.account_id)) [
            | inl own ↦
                settle_bet-Balances account game bet _ db b found
                  (rw (current, locked, own, settle_on, settle_locked) at h)
            | inr foreign ↦
                commit_denied-Balances bet_not_found db b
                  (rw (current, locked, foreign, settle_on, settle_locked) at h)
          ]
        ]
      ]

  settle_for-Balances :
      (account : AccountRow) (db : Db) {r : KboSettlementResult} {db' : Db}
      → Balances db
      → find_account account.account_id db ≡ some account
      → settle_for i now account db ≡ some (r, db')
      → Balances db'
  unfolding settle_for
  settle_for-Balances account db {db'} b found h =
      elim (Option-cases (find_settlement_by_operation i.operation_id db)) [
        | inr (twin, known) ↦ let same : db ≡ db' = ground arith in subst (λ d. Balances d) same b
        | inl new ↦ elim (Option-cases (lock_game i.game_id db)) [
          | inl absent ↦
              commit_denied-Balances game_data_unavailable db b (rw (new, absent, settle_for) at h)
          | inr (game, listed) ↦
              settle_on-Balances account game db b found (rw (new, listed, settle_for) at h)
        ]
      ]

  pub lock_owner-found :
      (db : Db) {account : AccountRow}
      → lock_owner i db ≡ some account
      → find_account account.account_id db ≡ some account
  unfolding lock_owner
  lock_owner-found db h =
      let (owner, _, found) = >>=-eq-some (lock_bet i db) _ h in
      find_account-own owner.account_id db found

  settle_tx-Balances :
      (db : Db) {r : KboSettlementResult} {db' : Db}
      → Balances db
      → settle_tx i now db ≡ some (r, db')
      → Balances db'
  unfolding settle_tx
  settle_tx-Balances db {r} {db'} b h =
      elim (Option-cases (find_settlement_by_operation i.operation_id db)) [
        | inr (twin, known) ↦ let same : db ≡ db' = ground arith in subst (λ d. Balances d) same b
        | inl new ↦ elim (Bool-cases (is_authorized i.rights_status)) [
          | inr unfit ↦
              commit_denied-Balances rights_unauthorized db b (rw (new, unfit, settle_tx) at h)
          | inl fit ↦ elim (Option-cases (lock_owner i db)) [
            | inl absent ↦
                commit_denied-Balances bet_not_found db b (rw (new, fit, absent, settle_tx) at h)
            | inr (account, owned) ↦
                settle_for-Balances account db b (lock_owner-found db owned)
                  (rw (new, fit, owned, settle_tx) at h)
          ]
        ]
      ]

-- Whatever a settlement gives, a paid, corrected, refused or failed one, the ledger stays balanced.
pub settle-Balances : (i : KboSettlementInput) (db : Db) → Balances db → Balances (settle i db).1
unfolding settle
settle-Balances i db b = elim (Bool-cases (assert_kbo_settlement_input i)) [
  | inl valid ↦ rw valid (at_date i.settled_at)
  | inr invalid ↦ rw invalid b
]
  where
    at_date : (d : Date) → Balances (settle_at i d db).1
    at_date invalid_date = b
    at_date (instant now) =
        finish-Balances db (settle_tx i now db) b (λ r db' e. settle_tx-Balances i now db b e)
