-- ===== src/Persistence/BetStore/Laws.antt =====
-- What registering a bet does to the accounts and the ledger.
use waw_discord_bot.Prelude.{
  ℕ, ◌≡◌, refl, subst, Option, none, some, String, arith, >>=-eq-some, Option-cases, inl, inr,
  Bool-cases, Date, invalid_date, instant,
}
use waw_discord_bot.Kbo.Placement
use waw_discord_bot.Kbo.Placement.{
  KboBetRegistrationInput, KboBetPlacementResult, evaluate_kbo_bet_placement,
  assert_kbo_bet_registration_input,
}
use waw_discord_bot.Persistence.Database.{
  Db, AccountRow, GameRow, update_account, insert_ledger, insert_bet,
}
use waw_discord_bot.Persistence.Queries.{find_account, lock_active_account, lock_game}
use waw_discord_bot.Persistence.Ledger.{Balances, SameCredit, IsEntry}
use waw_discord_bot.Persistence.Ledger.Posting.{post-Balances, SameCredit-Balances}
use waw_discord_bot.Persistence.Ledger.Frames.{
  insert_operation-SameCredit, insert_audit-SameCredit, insert_bet-SameCredit, SameCredit-refl,
  SameCredit-trans, finish-Balances, find_account-SameCredit, lock_active_account-found,
}
use waw_discord_bot.Persistence.BetStore.{
  DenialReason, policy, already_bet, KboBetRegistrationResult, claim_operation, append_audit,
  commit_denied, find_bet_by_operation, has_pending, staked, stake_entry, bet_row, place_bet,
  place_new, place_decided, place_on, place_for, place_tx, place_at, place,
}

module _ (i : KboBetRegistrationInput) (now : ℕ) where
  claim_operation-SameCredit :
      (result : Option DenialReason) (db : Db) {db' : Db}
      → claim_operation i now result db ≡ some db'
      → SameCredit db db'
  unfolding claim_operation
  claim_operation-SameCredit result db h = insert_operation-SameCredit _ db h

  append_audit-SameCredit :
      (result : Option DenialReason) (db : Db) {db' : Db}
      → append_audit i now result db ≡ some db'
      → SameCredit db db'
  unfolding append_audit
  append_audit-SameCredit result db h = insert_audit-SameCredit _ db h

  commit_denied-SameCredit :
      (reason : DenialReason) (db : Db) {r : KboBetRegistrationResult} {db' : Db}
      → commit_denied i now reason db ≡ some (r, db')
      → SameCredit db db'
  unfolding commit_denied
  commit_denied-SameCredit reason db {db'} h =
      elim (Option-cases (claim_operation i now (some reason) db)) [
        | inl conflict ↦
            let same : db ≡ db' = ground arith in subst (SameCredit db) same (SameCredit-refl db)
        | inr (next, fresh) ↦
            let (final, audited, end) =
              >>=-eq-some (append_audit i now (some reason) next) _
                (rw (fresh, commit_denied) at h) in
            let same : final ≡ db' = ground arith in
            subst (SameCredit db) same (
              SameCredit-trans (claim_operation-SameCredit (some reason) db fresh)
                (append_audit-SameCredit (some reason) next audited))
      ]

  stake-IsEntry :
      (account : AccountRow)
      → IsEntry account (staked account i.stake now) (stake_entry i now account)
  stake-IsEntry account = record {
    account = refl;
    keeps = λ s. refl;
    available_before = refl;
    debt_before = refl;
    available_after = λ s h. refl;
    debt_after = λ s h. h;
  }

  place_bet-Balances :
      (date : String) (account : AccountRow) (game : GameRow) (db : Db)
      {r : KboBetRegistrationResult} {db' : Db}
      → Balances db
      → find_account account.account_id db ≡ some account
      → place_bet i now date account game db ≡ some (r, db')
      → Balances db'
  unfolding place_bet
  place_bet-Balances date account game db {db'} b found h =
      let (updated, e₁, h₁) =
        >>=-eq-some (update_account account.account_id (staked account i.stake now) db) _ h in
      let (entered, e₂, h₂) =
        >>=-eq-some (insert_ledger (stake_entry i now account) updated) _ h₁ in
      let (registered, e₃, h₃) =
        >>=-eq-some (insert_bet (bet_row i now date account game updated.next_entry_id) entered) _
          h₂ in
      let (audited, e₄, h₄) = >>=-eq-some (append_audit i now none registered) _ h₃ in
      let same : audited ≡ db' = ground arith in
      subst (λ d. Balances d) same
        (SameCredit-Balances entered
          (SameCredit-trans (insert_bet-SameCredit _ entered e₃)
            (append_audit-SameCredit none registered e₄))
          (post-Balances account.account_id account (staked account i.stake now)
            (stake_entry i now account) db b found (stake-IsEntry account) e₁ e₂))

  place_new-Balances :
      (date : String) (account : AccountRow) (game : GameRow) (db : Db)
      {r : KboBetRegistrationResult} {db' : Db}
      → Balances db
      → find_account account.account_id db ≡ some account
      → place_new i now date account game db ≡ some (r, db')
      → Balances db'
  unfolding place_new
  place_new-Balances date account game db {db'} b found h =
      elim (Option-cases (claim_operation i now none db)) [
        | inl conflict ↦ let same : db ≡ db' = ground arith in subst (λ d. Balances d) same b
        | inr (next, fresh) ↦
            let kept = claim_operation-SameCredit none db fresh in
            place_bet-Balances date account game next (SameCredit-Balances db kept b)
              (find_account-SameCredit account.account_id db kept found)
              (rw (fresh, place_new) at h)
      ]

  place_decided-Balances :
      (account : AccountRow) (game : GameRow) (result : KboBetPlacementResult) (db : Db)
      {r : KboBetRegistrationResult} {db' : Db}
      → Balances db
      → find_account account.account_id db ≡ some account
      → place_decided i now account game result db ≡ some (r, db')
      → Balances db'
  unfolding place_decided
  place_decided-Balances account game Placement.invalid_input db b found h = cc
  place_decided-Balances account game (Placement.denied reason) db b found h =
      SameCredit-Balances db (commit_denied-SameCredit (policy reason) db h) b
  place_decided-Balances account game (Placement.accepted date) db b found h =
      elim (Bool-cases (has_pending i.guild_id account.account_id i.game_id db)) [
        | inl twice ↦
            SameCredit-Balances db (commit_denied-SameCredit already_bet db (rw twice at h)) b
        | inr first ↦ place_new-Balances date account game db b found (rw first at h)
      ]

  place_tx-Balances :
      (format_kst : ℕ → String) (db : Db) {r : KboBetRegistrationResult} {db' : Db}
      → Balances db
      → place_tx format_kst i now db ≡ some (r, db')
      → Balances db'
  unfolding place_tx place_for place_on
  place_tx-Balances format_kst db {db'} b h =
      elim (Option-cases (lock_active_account i.guild_id i.discord_user_id db)) [
        | inl missing ↦
            SameCredit-Balances db
              (commit_denied-SameCredit (policy Placement.not_enrolled) db
                (rw (missing, place_tx) at h))
              b
        | inr (account, locked) ↦
            elim (Option-cases (find_bet_by_operation account.account_id i.operation_id db)) [
              | inr (bet, known) ↦
                  let same : db ≡ db' = ground arith in subst (λ d. Balances d) same b
              | inl new ↦ elim (Option-cases (lock_game i.game_id db)) [
                | inl absent ↦
                    SameCredit-Balances db
                      (commit_denied-SameCredit (policy Placement.game_data_unavailable) db
                        (rw (locked, new, absent, place_tx, place_for) at h))
                      b
                | inr (game, listed) ↦
                    place_decided-Balances account game _ db b
                      (lock_active_account-found _ _ db locked)
                      (rw (locked, new, listed, place_tx, place_for) at h)
              ]
            ]
      ]

-- Whatever a registration gives, a placed, refused or failed one, the ledger stays balanced.
pub place-Balances :
    (format_kst : ℕ → String) (i : KboBetRegistrationInput) (db : Db)
    → Balances db
    → Balances (place format_kst i db).1
unfolding place
place-Balances format_kst i db b =
    elim (Bool-cases (assert_kbo_bet_registration_input format_kst i)) [
      | inl valid ↦ rw valid (at_date i.placed_at)
      | inr invalid ↦ rw invalid b
    ]
  where
    at_date : (d : Date) → Balances (place_at format_kst i d db).1
    at_date invalid_date = b
    at_date (instant now) =
        finish-Balances db (place_tx format_kst i now db) b
          (λ r db' e. place_tx-Balances i now format_kst db b e)
