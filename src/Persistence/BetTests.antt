-- ===== src/Persistence/BetTests.antt =====
-- Registering and settling a bet on concrete tables.
use waw_discord_bot.Prelude.{
  List, ◌≡◌, ◌⊎◌, refl, Option, none, some, [], ◌∷◌, pos, ◌+ℤ◌, ◌-ℤ◌, ◌*ℤ◌, instant,
}
use waw_discord_bot.Kbo.Return
use waw_discord_bot.Kbo.Placement
use waw_discord_bot.Kbo.Settlement
use waw_discord_bot.Kbo.Return.{calculate_final_bet_return}
use waw_discord_bot.Kbo.Placement.{
  KboBetRegistrationInput, evaluate_kbo_bet_placement, decide_placement, assert_input, is_stake,
  are_scores, is_kbo_bet_evidence_fresh,
}
use waw_discord_bot.Kbo.Settlement.{KboSettlementInput, allocate_settlement_delta}
use waw_discord_bot.Persistence.Database
use waw_discord_bot.Persistence.Database.{
  Db, AccountRow, GameRow, account_ok, ledger_ok, update_account, insert_operation, insert_ledger,
  insert_bet, insert_audit, insert_settlement, update_bet,
}
use waw_discord_bot.Persistence.Queries.{lock_active_account, lock_game}
use waw_discord_bot.Persistence.Ledger.{Balances}
use waw_discord_bot.Persistence.Ledger.Posting.{SameCredit-Balances}
use waw_discord_bot.Persistence.DailyClaim.{claim}
use waw_discord_bot.Persistence.DailyClaim.Laws.{claim-Balances}
use waw_discord_bot.Persistence.BetStore
use waw_discord_bot.Persistence.BetStore.{PlacedBet, placed, place, place_tx}
use waw_discord_bot.Persistence.BetStore.Laws.{place-Balances}
use waw_discord_bot.Persistence.BetStore.Placed.{
  IsKept, IsRegistered, place_tx-IsRegistered, place_tx-place_tx,
}
use waw_discord_bot.Persistence.SettlementStore
use waw_discord_bot.Persistence.SettlementStore.{SettledBet, settled}
use waw_discord_bot.Persistence.SettlementStore.Transaction
use waw_discord_bot.Persistence.SettlementStore.Transaction.{settle, settle_tx}
use waw_discord_bot.Persistence.SettlementStore.Settled.{
  IsRepeated, IsSettled, settle_tx-IsSettled, settle_tx-settle_tx,
}
use waw_discord_bot.Persistence.History.{
  Request, claims, places, settles, serve_all, serve_all-Balances,
}
use waw_discord_bot.Persistence.Tests.{start, start-Balances, guild, user, asked, on_day}

abbrev game : GameRow
game = record {
  game_id = "20260729AABB0";
  scheduled_start_at = 900000;
  status = Placement.scheduled;
  home_score = none;
  away_score = none;
  current_revision = pos 1;
  market_version = 1;
  source_updated_at = 1500;
  collected_at = 1500;
}

-- The claim has been paid, and a game is listed.
abbrev funded : Db
funded = record (claim on_day asked start).1 { games = game ∷ [] }

funded-Balances : Balances funded
funded-Balances =
    SameCredit-Balances (claim on_day asked start).1 {db' = funded}
      (record { accounts = refl; ledger = refl }) (claim-Balances on_day asked start start-Balances)

abbrev registration : KboBetRegistrationInput
registration = record {
  operation_id = "op-00000002";
  bet_id = "bet-00000000001";
  guild_id = guild;
  discord_user_id = user;
  game_id = "20260729AABB0";
  rights_status = Placement.authorized;
  stake = pos 10000;
  prediction = Return.home_win;
  predicted_home_score = none;
  predicted_away_score = none;
  placed_at = instant 2000;
}

-- The tables of an account with credit, without the history of it.
abbrev rich : Db
rich = record start {
  accounts =
      record {
        account_id = "account-00000001";
        available_balance = pos 50000;
        correction_debt = pos 0;
        version = 1;
        created_at = 10;
        updated_at = 1000;
      }
      ∷ [];
  games = game ∷ [];
}

abbrev bet_tables : Option (BetStore.KboBetRegistrationResult × Db) → Db
bet_tables none = start
bet_tables (some (r, db)) = db

abbrev after_bet : Db
after_bet = bet_tables (place_tx on_day registration 2000 rich)

abbrev placed_bet : PlacedBet
placed_bet = record {
  bet_id = "bet-00000000001";
  game_id = "20260729AABB0";
  market_version = 1;
  stake_date = "2026-07-29";
}

first_bet : place_tx on_day registration 2000 rich ≡ some (placed placed_bet, after_bet)
unfolding place_tx BetStore.place_for BetStore.place_on BetStore.place_decided BetStore.place_new
    BetStore.place_bet BetStore.claim_operation BetStore.append_audit BetStore.find_bet_by_operation
    BetStore.daily_stake BetStore.has_pending lock_active_account lock_game
    evaluate_kbo_bet_placement decide_placement assert_input is_stake are_scores
    is_kbo_bet_evidence_fresh update_account account_ok ledger_ok insert_operation insert_ledger
    insert_bet insert_audit ◌+ℤ◌ ◌-ℤ◌
first_bet = refl

place_tx-IsRegistered_example :
    ((after_bet ≡ rich) × IsKept on_day registration 2000 placed_bet rich)
    ⊎ IsRegistered on_day registration 2000 rich placed_bet after_bet
place_tx-IsRegistered_example = place_tx-IsRegistered on_day registration 2000 rich first_bet

-- The same registration, later.
place_tx-place_tx_example :
    place_tx on_day (record registration { placed_at = instant 9000 }) 9000 after_bet
    ≡ some (placed placed_bet, after_bet)
place_tx-place_tx_example =
    place_tx-place_tx on_day registration (record registration { placed_at = instant 9000 }) 2000
      9000 rich first_bet refl refl refl

abbrev settlement : KboSettlementInput
settlement = record {
  operation_id = "op-00000003";
  settlement_id = "settle-000000001";
  guild_id = guild;
  bet_id = "bet-00000000001";
  game_id = "20260729AABB0";
  game_revision = pos 2;
  rights_status = Settlement.authorized;
  settled_at = instant 1000000;
}

abbrev final_game : GameRow
final_game = record game {
  status = Placement.GameStatus.final;
  home_score = some 3;
  away_score = some 1;
  current_revision = pos 2;
}

-- The bet has been placed on the account that has its history, and the game has ended.
abbrev played : Db
played = record (place on_day registration funded).1 { games = final_game ∷ [] }

played-Balances : Balances played
played-Balances =
    SameCredit-Balances (place on_day registration funded).1 {db' = played}
      (record { accounts = refl; ledger = refl })
      (place-Balances on_day registration funded funded-Balances)

-- The game was won by the home team.
abbrev finished : Db
finished = record after_bet { games = final_game ∷ [] }

abbrev settled_tables : Option (SettlementStore.KboSettlementResult × Db) → Db
settled_tables none = start
settled_tables (some (r, db)) = db

abbrev after_settlement : Db
after_settlement = settled_tables (settle_tx settlement 1000000 finished)

abbrev settled_bet : SettledBet
settled_bet = record {
  settlement_id = "settle-000000001";
  result = Database.SettlementOutcome.outcome_hit;
  multiplier = 2;
  return_amount = pos 20000;
  applied_delta = pos 20000;
  available_delta = pos 20000;
  debt_delta = pos 0;
  game_revision = pos 2;
}

first_settlement :
    settle_tx settlement 1000000 finished ≡ some (settled settled_bet, after_settlement)
unfolding place_tx BetStore.place_for BetStore.place_on BetStore.place_decided BetStore.place_new
    BetStore.place_bet BetStore.claim_operation BetStore.append_audit BetStore.find_bet_by_operation
    BetStore.daily_stake BetStore.has_pending lock_active_account lock_game
    evaluate_kbo_bet_placement decide_placement assert_input is_stake are_scores
    is_kbo_bet_evidence_fresh update_account account_ok ledger_ok insert_operation insert_ledger
    insert_bet insert_audit ◌+ℤ◌ ◌-ℤ◌ ◌*ℤ◌ settle_tx Transaction.settle_for Transaction.settle_on
    Transaction.settle_locked Transaction.settle_bet Transaction.settle_calculated
    Transaction.settle_new Transaction.write_settlement Transaction.apply_account_delta
    Transaction.lock_owner SettlementStore.claim_operation SettlementStore.append_audit
    SettlementStore.find_settlement_by_operation SettlementStore.lock_bet
    SettlementStore.current_settlement SettlementStore.calculate_settlement insert_settlement
    update_bet calculate_final_bet_return allocate_settlement_delta Return.is_positive_safe
    Return.is_score Return.pay Return.game_outcome Return.pay_hit
first_settlement = refl

settle_tx-IsSettled_example :
    IsRepeated settlement finished settled_bet after_settlement
    ⊎ IsSettled settlement 1000000 finished settled_bet after_settlement
settle_tx-IsSettled_example = settle_tx-IsSettled settlement 1000000 finished first_settlement

settle_tx-settle_tx_example :
    settle_tx (record settlement { settlement_id = "settle-000000002" }) 1000005 after_settlement
    ≡ some (settled settled_bet, after_settlement)
settle_tx-settle_tx_example =
    settle_tx-settle_tx settlement (record settlement { settlement_id = "settle-000000002" })
      1000000 1000005 finished first_settlement refl

abbrev day : List Request
day = claims asked ∷ places registration ∷ settles settlement ∷ []

serve_all-Balances_example : Balances (serve_all on_day day start)
serve_all-Balances_example = serve_all-Balances on_day day start start-Balances
