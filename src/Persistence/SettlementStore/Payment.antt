-- ===== src/Persistence/SettlementStore/Payment.antt =====
-- What the statements of a settlement do to the account, the ledger and the settlements.
use waw_discord_bot.Prelude.{
  ℕ, List, [], ◌∷◌, ◌≡◌, ◌≢◌, refl, sym, ap, subst, ◌∙◌, Option, none, some, String, arith,
  >>=-eq-some, inl, inr, Bool-cases, ℤ, pos, negsuc, Bool, false, ◌+ℤ◌, ◌-ℤ◌, int_laws, eq_refl,
  find, eqb_ℤ→eq, true,
}
use mathlib.Core.Option
use waw_discord_bot.Kbo.Settlement.Laws.{of_parts, Allocates, sound_loss}
use waw_discord_bot.Kbo.Settlement.{
  KboSettlementInput, DeltaInput, DeltaAllocation, allocated, allocate_settlement_delta,
}
use waw_discord_bot.Persistence.Database.{
  Db, AccountRow, LedgerReason, BetRow, SettlementRow, BetStatus, update_account, insert_ledger,
  set_account, LedgerRow, insert_operation, insert_settlement, insert_audit, update_bet,
}
use waw_discord_bot.Persistence.Queries.{find_account}
use waw_discord_bot.Persistence.Ledger.Frames.{find_account-set}
use waw_discord_bot.Persistence.SettlementStore.{
  DenialReason, SettledBet, settled, settled_row, claim_operation, append_audit, has_entry,
  find_settlement_by_operation, Calculated,
}
use waw_discord_bot.Persistence.SettlementStore.Transaction.{
  entry_reason, moved, delta_entry, is_zero, apply_account_delta, settlement_row, settled_bet,
  write_settlement,
}

-- The two amounts of an account.
abbrev pub worth : AccountRow → ℤ × ℤ
worth r = (r.available_balance, r.correction_debt)

abbrev pub worth_after : AccountRow → SettledBet → ℤ × ℤ
worth_after account s =
    (account.available_balance +ℤ s.available_delta, account.correction_debt +ℤ s.debt_delta)

conserves_gain :
    (b d n : ℕ) (void : Bool) {a : DeltaAllocation}
    → allocate_settlement_delta (of_parts (pos b) (pos d) (pos n) void) ≡ allocated a
    → a.available_delta -ℤ a.debt_delta ≡ pos n
unfolding allocate_settlement_delta ◌-ℤ◌
conserves_gain b d n true h = ground arith
conserves_gain b d n false h = ground arith

refund_loss :
    (b d n : ℕ) {a : DeltaAllocation}
    → allocate_settlement_delta (of_parts (pos b) (pos d) (negsuc n) true) ≢ allocated a
unfolding allocate_settlement_delta
refund_loss b d n = ground arith

conserves_loss :
    (b d n : ℕ) (void : Bool) {a : DeltaAllocation}
    → allocate_settlement_delta (of_parts (pos b) (pos d) (negsuc n) void) ≡ allocated a
    → a.available_delta -ℤ a.debt_delta ≡ negsuc n
conserves_loss b d n true h = absurd (refund_loss b d n h)
conserves_loss b d n false h =
    (subst (Allocates (of_parts (pos b) (pos d) (negsuc n) false)) h (sound_loss b d n)).conserved

insolvent_ne :
    (b : ℕ) (d n : ℤ) (void : Bool) {a : DeltaAllocation}
    → allocate_settlement_delta (of_parts (negsuc b) d n void) ≢ allocated a
unfolding allocate_settlement_delta
insolvent_ne b d n void = ground arith

owing_ne :
    (b d : ℕ) (n : ℤ) (void : Bool) {a : DeltaAllocation}
    → allocate_settlement_delta (of_parts (pos b) (negsuc d) n void) ≢ allocated a
unfolding allocate_settlement_delta
owing_ne b d n void = ground arith

conserves_parts :
    (b d n : ℤ) (void : Bool) {a : DeltaAllocation}
    → allocate_settlement_delta (of_parts b d n void) ≡ allocated a
    → a.available_delta -ℤ a.debt_delta ≡ n
conserves_parts (negsuc b) d n void h = absurd (insolvent_ne b d n void h)
conserves_parts (pos b) (negsuc d) n void h = absurd (owing_ne b d n void h)
conserves_parts (pos b) (pos d) (pos n) void h = conserves_gain b d n void h
conserves_parts (pos b) (pos d) (negsuc n) void h = conserves_loss b d n void h

pub allocate-conserves :
    (d : DeltaInput) {a : DeltaAllocation}
    → allocate_settlement_delta d ≡ allocated a
    → a.available_delta -ℤ a.debt_delta ≡ d.delta
allocate-conserves d h =
    conserves_parts d.available_balance d.correction_debt d.delta d.void_refund h

module _ (i : KboSettlementInput) (now : ℕ) where
  pub claim_operation-tables :
      (result : Option DenialReason) (db : Db) {db' : Db}
      → claim_operation i now result db ≡ some db'
      → (db'.accounts ≡ db.accounts) × (db'.settlements ≡ db.settlements)
  unfolding claim_operation insert_operation
  claim_operation-tables result db h = ground arith

  -- After a delta the account has what it says, and the entry, if one was written, says it.
  record IsPaid (account : AccountRow) (delta : DeltaAllocation) (entry : Option ℕ) (db' : Db)
      : Type 0 where
    worth :
        Option.map worth (find_account account.account_id db')
        ≡ some (
          account.available_balance +ℤ delta.available_delta,
          account.correction_debt +ℤ delta.debt_delta,
        )
    told :
        (row : SettlementRow)
        → row.ledger_entry_id ≡ entry
        → ((settled_row db'.ledger row).available_delta ≡ delta.available_delta)
          × ((settled_row db'.ledger row).debt_delta ≡ delta.debt_delta)

  find_no_entry : (ledger : List LedgerRow) → find (has_entry none) ledger ≡ none
  find_no_entry [] = refl
  find_no_entry (e ∷ es) = find_no_entry es

  told_nothing :
      (ledger : List LedgerRow) (row : SettlementRow)
      → row.ledger_entry_id ≡ none
      → ((settled_row ledger row).available_delta ≡ pos 0)
        × ((settled_row ledger row).debt_delta ≡ pos 0)
  told_nothing ledger row h = rw (h, find_no_entry ledger) (refl, refl)

  told_newest :
      (e : LedgerRow) (ledger : List LedgerRow) (row : SettlementRow)
      → row.ledger_entry_id ≡ some e.entry_id
      → ((settled_row (e ∷ ledger) row).available_delta ≡ e.available_delta)
        × ((settled_row (e ∷ ledger) row).debt_delta ≡ e.debt_delta)
  told_newest e ledger row h = ground arith

  apply_account_delta-tables :
      (account : AccountRow) (delta : DeltaAllocation) (reason : LedgerReason) (db : Db)
      {entry : Option ℕ} {db' : Db}
      → apply_account_delta i now account delta reason db ≡ some (entry, db')
      → is_zero delta ≡ false
      → (entry ≡ some db.next_entry_id)
        × (db'.accounts ≡ set_account account.account_id (moved account delta now) db.accounts)
        × (db'.ledger
            ≡ record (delta_entry i now account delta reason) { entry_id = db.next_entry_id }
              ∷ db.ledger)
  unfolding apply_account_delta update_account insert_ledger
  apply_account_delta-tables account delta reason db h moves = ground arith

  is_zero-eq :
      (delta : DeltaAllocation)
      → is_zero delta ≡ true
      → (delta.available_delta ≡ pos 0) × (delta.debt_delta ≡ pos 0)
  is_zero-eq delta h =
      ground (arith, eqb_ℤ→eq delta.available_delta (pos 0), eqb_ℤ→eq delta.debt_delta (pos 0))

  plus_zero : (a : ℤ) → a +ℤ pos 0 ≡ a
  plus_zero a = omega int_laws

  apply_account_delta-zero :
      (account : AccountRow) (delta : DeltaAllocation) (reason : LedgerReason) (db : Db)
      {entry : Option ℕ} {db' : Db}
      → apply_account_delta i now account delta reason db ≡ some (entry, db')
      → is_zero delta ≡ true
      → (entry ≡ none) × (db ≡ db')
  unfolding apply_account_delta
  apply_account_delta-zero account delta reason db h zero = ground arith

  apply_account_delta-IsPaid :
      (account : AccountRow) (delta : DeltaAllocation) (reason : LedgerReason) (db : Db)
      {entry : Option ℕ} {db' : Db}
      → find_account account.account_id db ≡ some account
      → apply_account_delta i now account delta reason db ≡ some (entry, db')
      → IsPaid account delta entry db'
  apply_account_delta-IsPaid account delta reason db {entry} {db'} found h =
      elim (Bool-cases (is_zero delta)) [
        | inl zero ↦
            let (none_written, same) = apply_account_delta-zero account delta reason db h zero in
            let (a, d) = is_zero-eq delta zero in
            record {
              worth =
                  rw
                    (
                      ← same,
                      found,
                      a,
                      d,
                      plus_zero account.available_balance,
                      plus_zero account.correction_debt,
                    )
                    refl;
              told = λ row e. rw (a, d) (told_nothing db'.ledger row (e ∙ none_written));
            }
        | inr moves ↦
            let (written, accounts, ledger) =
              apply_account_delta-tables account delta reason db h moves in
            record {
              worth =
                  rw
                    (
                      accounts,
                      find_account-set account.account_id (moved account delta now) db.accounts
                          (λ s. refl) found,
                    )
                    refl;
              told = λ row e. rw ledger (told_newest _ db.ledger row (e ∙ written));
            }
      ]

  -- The statements after the ledger leave the accounts and the ledger as they are.
  recorded-tables :
      (row : SettlementRow) (bet : String) (status : BetStatus) (db : Db) {recorded db' : Db}
      → insert_settlement row db ≡ some recorded
      → append_audit i now none (update_bet bet status i.settlement_id recorded) ≡ some db'
      → (db'.accounts ≡ db.accounts)
        × (db'.ledger ≡ db.ledger)
        × (db'.settlements ≡ row ∷ db.settlements)
  unfolding insert_settlement append_audit insert_audit update_bet
  recorded-tables row bet status db h g = ground arith

  -- What the statements of a settlement have done, whatever was decided before.
  pub record IsWritten (account : AccountRow) (c : Calculated) (applied : ℤ)
      (delta : DeltaAllocation) (s : SettledBet) (db' : Db) : Type 0 where
    pub result : s ≡ settled_bet i c applied delta
    pub paid : Option.map worth (find_account account.account_id db') ≡ some (worth_after account s)
    pub known : find_settlement_by_operation i.operation_id db' ≡ some s

  write_settlement-result :
      (account : AccountRow) (bet : BetRow) (c : Calculated) (applied : ℤ) (delta : DeltaAllocation)
      (db : Db) {s : SettledBet} {db' : Db}
      → write_settlement i now account bet c applied delta db ≡ some (settled s, db')
      → s ≡ settled_bet i c applied delta
  unfolding write_settlement
  write_settlement-result account bet c applied delta db h = ground arith

  settled_row-eq :
      (bet : BetRow) (c : Calculated) (applied : ℤ) (delta : DeltaAllocation) (entry : Option ℕ)
      (ledger : List LedgerRow)
      → (settled_row ledger (settlement_row i now bet c applied entry)).available_delta
        ≡ delta.available_delta
      → (settled_row ledger (settlement_row i now bet c applied entry)).debt_delta
        ≡ delta.debt_delta
      → settled_row ledger (settlement_row i now bet c applied entry)
        ≡ settled_bet i c applied delta
  settled_row-eq bet c applied delta entry ledger a d = rw (a, d) refl

  find_settlement-head :
      (bet : BetRow) (c : Calculated) (applied : ℤ) (entry : Option ℕ) (rows : List SettlementRow)
      (db' : Db)
      → db'.settlements ≡ settlement_row i now bet c applied entry ∷ rows
      → find_settlement_by_operation i.operation_id db'
        ≡ some (settled_row db'.ledger (settlement_row i now bet c applied entry))
  unfolding find_settlement_by_operation
  find_settlement-head bet c applied entry rows db' h = ground (arith, eq_refl i.operation_id)

  pub write_settlement-IsWritten :
      (account : AccountRow) (bet : BetRow) (c : Calculated) (applied : ℤ) (delta : DeltaAllocation)
      (db : Db) {s : SettledBet} {db' : Db}
      → find_account account.account_id db ≡ some account
      → write_settlement i now account bet c applied delta db ≡ some (settled s, db')
      → IsWritten account c applied delta s db'
  unfolding write_settlement
  write_settlement-IsWritten account bet c applied delta db {s} {db'} found h =
      let reason = entry_reason bet.current_settlement_id c.result in
      let (written, e₁, h₁) = >>=-eq-some (apply_account_delta i now account delta reason db) _ h in
      let row = settlement_row i now bet c applied written.0 in
      let (recorded, e₂, h₂) = >>=-eq-some (insert_settlement row written.1) _ h₁ in
      let (audited, e₃, end) = >>=-eq-some (append_audit i now none _) _ h₂ in
      let same : audited ≡ db' = ground arith in
      let told : s ≡ settled_bet i c applied delta =
        write_settlement-result account bet c applied delta db h in
      let (accounts, ledger, rows) = recorded-tables row i.bet_id _ written.1 e₂ e₃ in
      let p = apply_account_delta-IsPaid account delta reason db found e₁ in
      record {
        result = told;
        paid = rw (told, ← same, accounts) p.worth;
        known =
            subst (λ d. find_settlement_by_operation i.operation_id d ≡ some s) same
              (find_settlement-head bet c applied written.0 written.1.settlements audited rows
                ∙ ap some (
                    rw ledger (
                      settled_row-eq bet c applied delta written.0 written.1.ledger
                        (p.told row refl).0 (p.told row refl).1)
                    ∙ sym told));
      }
