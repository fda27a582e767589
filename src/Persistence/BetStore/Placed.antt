-- ===== src/Persistence/BetStore/Placed.antt =====
-- What a placed bet has done, and a registration that is sent again.
use waw_discord_bot.Prelude.{
  +ℤ_comm, ℕ, ◌∷◌, ◌≡◌, ◌≢◌, ◌⊎◌, refl, sym, ap, subst, ◌∙◌, Option, none, some, String, arith,
  Option-cases, inl, inr, Bool-cases, pos, find-Mem, str_eq, eq_iff, ◌&&◌, ◌+ℤ◌, ◌≤ℤ◌, eq_refl,
}
use mathlib.Core.Option
use mathlib.Core.List.{Mem}
use waw_discord_bot.Kbo.Placement
use waw_discord_bot.Kbo.Placement.{
  KboBetRegistrationInput, KboBetPlacementResult, evaluate_kbo_bet_placement,
}
use waw_discord_bot.Kbo.Placement.Laws.{IsAcceptable, accepted-IsAcceptable}
use waw_discord_bot.Persistence.Database.{
  Db, AccountRow, BetRow, GameRow, set_account, update_account, insert_ledger, insert_bet,
  insert_operation, insert_audit,
}
use waw_discord_bot.Persistence.Queries.{lock_active_account, lock_game}
use waw_discord_bot.Persistence.Ledger.Frames.{lock_active_account-set, lock_active_account-same}
use waw_discord_bot.Persistence.BetStore.{
  DenialReason, policy, already_bet, PlacedBet, placed, KboBetRegistrationResult, claim_operation,
  append_audit, commit_denied, find_bet_by_operation, daily_stake, placement_of, has_pending,
  staked, bet_row, placed_row, place_bet, place_new, place_decided, place_on, place_for, place_tx,
}

module _ (format_kst : ℕ → String) (i : KboBetRegistrationInput) (now : ℕ) where
  -- What the tables are after a bet is placed.
  place_bet-tables :
      (date : String) (account : AccountRow) (game : GameRow) (db : Db)
      {r : KboBetRegistrationResult} {db' : Db}
      → place_bet i now date account game db ≡ some (r, db')
      → (db'.enrollments ≡ db.enrollments)
        × (db'.accounts ≡ set_account account.account_id (staked account i.stake now) db.accounts)
        × (db'.bets ≡ bet_row i now date account game db.next_entry_id ∷ db.bets)
        × (r ≡ placed_row (bet_row i now date account game db.next_entry_id))
  unfolding place_bet update_account insert_ledger insert_bet append_audit insert_audit
  place_bet-tables date account game db h = ground arith

  claim_operation-tables :
      (result : Option DenialReason) (db : Db) {db' : Db}
      → claim_operation i now result db ≡ some db'
      → (db'.enrollments ≡ db.enrollments) × (db'.accounts ≡ db.accounts) × (db'.bets ≡ db.bets)
  unfolding claim_operation insert_operation
  claim_operation-tables result db h = ground arith

  commit_denied-ne-placed :
      (reason : DenialReason) (db : Db) {p : PlacedBet} {db' : Db}
      → commit_denied i now reason db ≢ some (placed p, db')
  unfolding commit_denied
  commit_denied-ne-placed reason db = ground arith

  -- A bet that was placed by this registration: the policy allowed it on the locked rows, the
  -- balance has lost the stake, and the day's stakes with it are at most 50000.
  pub record IsRegistered (db : Db) (p : PlacedBet) (db' : Db) : Type 0 where
    pub account : AccountRow
    pub game : GameRow
    pub locked : lock_active_account i.guild_id i.discord_user_id db ≡ some account
    pub listed : lock_game i.game_id db ≡ some game
    pub acceptable :
        IsAcceptable
          (placement_of i now account game
            (daily_stake account.account_id (format_kst now) db.bets))
          now
          game.scheduled_start_at
    pub relocked :
        lock_active_account i.guild_id i.discord_user_id db'
        ≡ some (staked account i.stake now account)
    pub limited : daily_stake account.account_id (format_kst now) db'.bets ≤ℤ pos 50000
    pub known :
        Option.map placed_row (find_bet_by_operation account.account_id i.operation_id db')
        ≡ some (placed p)

  find_bet-place_bet :
      (date : String) (account : AccountRow) (game : GameRow) (db : Db)
      {r : KboBetRegistrationResult} {db' : Db}
      → place_bet i now date account game db ≡ some (r, db')
      → Option.map placed_row (find_bet_by_operation account.account_id i.operation_id db') ≡ some r
  unfolding find_bet_by_operation
  find_bet-place_bet date account game db h =
      let (_, _, bets, result) = place_bet-tables date account game db h in
      ground (arith, eq_refl account.account_id, eq_refl i.operation_id)

  daily_stake-place_bet :
      (account : AccountRow) (game : GameRow) (db : Db) {r : KboBetRegistrationResult} {db' : Db}
      → place_bet i now (format_kst now) account game db ≡ some (r, db')
      → daily_stake account.account_id (format_kst now) db'.bets
        ≡ i.stake +ℤ daily_stake account.account_id (format_kst now) db.bets
  unfolding daily_stake
  daily_stake-place_bet account game db h =
      let (_, _, bets, _) = place_bet-tables (format_kst now) account game db h in
      ground (arith, eq_refl account.account_id, eq_refl (format_kst now))

  place_new-IsRegistered :
      (date : String) (account : AccountRow) (game : GameRow) (db : Db) {p : PlacedBet} {db' : Db}
      → lock_active_account i.guild_id i.discord_user_id db ≡ some account
      → lock_game i.game_id db ≡ some game
      → evaluate_kbo_bet_placement format_kst (
          placement_of i now account game (daily_stake account.account_id (format_kst now) db.bets))
        ≡ Placement.accepted date
      → find_bet_by_operation account.account_id i.operation_id db ≡ none
      → place_new i now date account game db ≡ some (placed p, db')
      → IsRegistered db p db'
  unfolding place_new
  place_new-IsRegistered date account game db {p} {db'} locked listed decided new h =
      elim (Option-cases (claim_operation i now none db)) [
        | inl conflict ↦ absurd (ground arith)
        | inr (next, fresh) ↦
            let (enrollments, accounts, bets) = claim_operation-tables none db fresh in
            let relocked =
              lock_active_account-same i.guild_id i.discord_user_id db next enrollments accounts
                locked in
            let (dated, ok) =
              accepted-IsAcceptable format_kst
                (placement_of i now account game
                  (daily_stake account.account_id (format_kst now) db.bets))
                now game.scheduled_start_at date refl refl decided in
            let h' : place_bet i now (format_kst now) account game next ≡ some (placed p, db') =
              rw dated (rw (fresh, place_new) at h) in
            let (e', a', _, _) = place_bet-tables (format_kst now) account game next h' in
            let total : daily_stake account.account_id (format_kst now) db'.bets
                ≡ i.stake +ℤ daily_stake account.account_id (format_kst now) db.bets =
              daily_stake-place_bet account game next h'
              ∙ ap (λ t. i.stake +ℤ daily_stake account.account_id (format_kst now) t) bets in
            record {
              account = account;
              game = game;
              locked = locked;
              listed = listed;
              acceptable = ok;
              relocked =
                  lock_active_account-set _ _ (staked account i.stake now) next db' account
                    (λ s. refl) e' a' relocked;
              limited =
                  subst (λ t. t ≤ℤ pos 50000)
                    (+ℤ_comm (daily_stake account.account_id (format_kst now) db.bets) i.stake
                      ∙ sym total)
                    ok.daily;
              known = find_bet-place_bet (format_kst now) account game next h';
            }
      ]

  place_decided-IsRegistered :
      (account : AccountRow) (game : GameRow) (result : KboBetPlacementResult) (db : Db)
      {p : PlacedBet} {db' : Db}
      → lock_active_account i.guild_id i.discord_user_id db ≡ some account
      → lock_game i.game_id db ≡ some game
      → evaluate_kbo_bet_placement format_kst (
          placement_of i now account game (daily_stake account.account_id (format_kst now) db.bets))
        ≡ result
      → find_bet_by_operation account.account_id i.operation_id db ≡ none
      → place_decided i now account game result db ≡ some (placed p, db')
      → IsRegistered db p db'
  unfolding place_decided
  place_decided-IsRegistered account game Placement.invalid_input db locked listed d new h = cc
  place_decided-IsRegistered account game (Placement.denied reason) db locked listed d new h =
      absurd (commit_denied-ne-placed (policy reason) db h)
  place_decided-IsRegistered account game (Placement.accepted date) db locked listed d new h =
      elim (Bool-cases (has_pending i.guild_id account.account_id i.game_id db)) [
        | inl twice ↦ absurd (commit_denied-ne-placed already_bet db (rw twice at h))
        | inr first ↦
            place_new-IsRegistered date account game db locked listed d new (rw first at h)
      ]

  -- The bet of the operation is there, as it is reported: it is one of the member's account.
  pub record IsKept (p : PlacedBet) (db : Db) : Type 0 where
    pub account : AccountRow
    pub locked : lock_active_account i.guild_id i.discord_user_id db ≡ some account
    pub bet : BetRow
    pub stored : Mem bet db.bets
    pub own : bet.account_id ≡ account.account_id
    pub same_operation : bet.operation_id ≡ i.operation_id
    pub reported : placed_row bet ≡ placed p
    pub known : find_bet_by_operation account.account_id i.operation_id db ≡ some bet

  found-IsKept :
      (account : AccountRow) (bet : BetRow) (db : Db) {p : PlacedBet}
      → lock_active_account i.guild_id i.discord_user_id db ≡ some account
      → find_bet_by_operation account.account_id i.operation_id db ≡ some bet
      → placed_row bet ≡ placed p
      → IsKept p db
  unfolding find_bet_by_operation
  found-IsKept account bet db locked known told =
      let (stored, matched) =
        find-Mem
          (λ r. str_eq r.account_id account.account_id && str_eq r.operation_id i.operation_id)
          db.bets known in
      record {
        account = account;
        locked = locked;
        bet = bet;
        stored = stored;
        own = (eq_iff bet.account_id account.account_id).0 (ground arith);
        same_operation = (eq_iff bet.operation_id i.operation_id).0 (ground arith);
        reported = told;
        known = known;
      }

  -- A registration that reports a placed bet either found the bet of the same operation and changed
  -- nothing, or has placed it.
  place_tx_cases :
      (db : Db) {p : PlacedBet} {db' : Db}
      → place_tx format_kst i now db ≡ some (placed p, db')
      → ((db' ≡ db) × IsKept p db) ⊎ IsRegistered db p db'
  unfolding place_tx place_for place_on
  place_tx_cases db {p} {db'} h =
      elim (Option-cases (lock_active_account i.guild_id i.discord_user_id db)) [
        | inl missing ↦ absurd (
            commit_denied-ne-placed (policy Placement.not_enrolled) db
              (rw (missing, place_tx) at h))
        | inr (account, locked) ↦
            elim (Option-cases (find_bet_by_operation account.account_id i.operation_id db)) [
              | inr (bet, known) ↦
                  let same : db' ≡ db = ground arith in
                  let told : placed_row bet ≡ placed p = ground arith in
                  inl (same, found-IsKept account bet db locked known told)
              | inl new ↦ elim (Option-cases (lock_game i.game_id db)) [
                | inl absent ↦ absurd (
                    commit_denied-ne-placed (policy Placement.game_data_unavailable) db
                      (rw (locked, new, absent, place_tx, place_for) at h))
                | inr (game, listed) ↦ inr (
                    place_decided-IsRegistered account game _ db locked listed refl new
                      (rw (locked, new, listed, place_tx, place_for) at h))
              ]
            ]
      ]

  registered-IsKept : (db : Db) {p : PlacedBet} {db' : Db} → IsRegistered db p db' → IsKept p db'
  registered-IsKept db {p} {db'} new =
      elim (Option-cases (find_bet_by_operation new.account.account_id i.operation_id db')) [
        | inl lost ↦ absurd (ground (arith, new.known))
        | inr (bet, found) ↦
            found-IsKept (staked new.account i.stake now new.account) bet db' new.relocked found
              (ground (arith, new.known))
      ]

  IsKept-place_tx :
      (p : PlacedBet) (db : Db) (j : KboBetRegistrationInput) (later : ℕ)
      → IsKept p db
      → j.operation_id ≡ i.operation_id
      → j.guild_id ≡ i.guild_id
      → j.discord_user_id ≡ i.discord_user_id
      → place_tx format_kst j later db ≡ some (placed p, db)
  unfolding place_tx place_for
  IsKept-place_tx p db j later k operation guild user =
      ground (arith, k.locked, k.known, k.reported)

-- A registration that reports a placed bet either repeats one: a stored bet of the member's account
-- has its operation, that one is reported and the tables stay; or it has placed the bet: the bet was acceptable on the locked account and game, the account's balance is
-- less by the stake, the stakes of its day are at most 50000, and it is found by its operation.
pub place_tx-IsRegistered :
    (format_kst : ℕ → String) (i : KboBetRegistrationInput) (now : ℕ) (db : Db) {p : PlacedBet}
    {db' : Db}
    → place_tx format_kst i now db ≡ some (placed p, db')
    → ((db' ≡ db) × IsKept format_kst i now p db) ⊎ IsRegistered format_kst i now db p db'
place_tx-IsRegistered format_kst i now db h = elim (place_tx_cases format_kst i now db h) [
  | inl found ↦ inl found
  | inr new ↦ inr new
]

-- A registration that placed a bet and is sent again by the same member of the same guild under the
-- same operation, at any instant and with any other game, bet, stake and scores, is answered as it
-- was, and leaves the tables as they are: it is not staked twice.
pub place_tx-place_tx :
    (format_kst : ℕ → String) (i j : KboBetRegistrationInput) (now later : ℕ) (db : Db)
    {p : PlacedBet} {db' : Db}
    → place_tx format_kst i now db ≡ some (placed p, db')
    → j.operation_id ≡ i.operation_id
    → j.guild_id ≡ i.guild_id
    → j.discord_user_id ≡ i.discord_user_id
    → place_tx format_kst j later db' ≡ some (placed p, db')
place_tx-place_tx format_kst i j now later db {p} {db'} h operation guild user =
    IsKept-place_tx format_kst i now p db' j later kept operation guild user
  where
    kept : IsKept format_kst i now p db'
    kept = elim (place_tx_cases format_kst i now db h) [
      | inl (same, k) ↦ subst (IsKept format_kst i now p) (sym same) k
      | inr new ↦ registered-IsKept format_kst i now db new
    ]
