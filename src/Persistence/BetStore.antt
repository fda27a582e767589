-- ===== src/Persistence/BetStore.antt =====
-- Registering a bet: src/persistence/postgres-kbo-bet-store.ts. A transaction is a function from the
-- tables to a result and the new tables, or `none` for an error in a statement.
pub mod Laws
pub mod Placed
use waw_discord_bot.Prelude.{
  ℕ, ◌+◌, ◌≡◌, Bool, true, false, not, ◌&&◌, Option, none, some, List, [], ◌∷◌, String, str_eq, ℤ,
  pos, negsuc, ◌+ℤ◌, ◌-ℤ◌, neg_ℤ, find, any, ◌>>=◌, Date, invalid_date, instant, Number, int,
  not_integer, if◌then◌else◌,
}
use waw_discord_bot.Kbo.Placement
use waw_discord_bot.Kbo.Placement.{
  KboBetRegistrationInput, KboBetPlacementInput, KboBetPlacementResult, evaluate_kbo_bet_placement,
  is_kbo_bet_evidence_fresh, assert_kbo_bet_registration_input,
}
use waw_discord_bot.Persistence.Database
use waw_discord_bot.Persistence.Database.{
  Db, AccountRow, LedgerRow, BetRow, GameRow, bet_stake, system, is_pending, is_void,
  update_account, insert_operation, insert_ledger, insert_bet, insert_audit,
}
use waw_discord_bot.Persistence.Queries.{
  Outcome, input_error, finish, tagged, lock_active_account, lock_game,
}

pub data DenialReason : Type 0 where
  policy : Placement.DenialReason → DenialReason
  already_bet : DenialReason

pub record PlacedBet : Type 0 where
  pub bet_id : String
  pub game_id : String
  pub market_version : ℕ
  pub stake_date : String

pub data KboBetRegistrationResult : Type 0 where
  placed : PlacedBet → KboBetRegistrationResult
  denied : DenialReason → KboBetRegistrationResult
  duplicate_operation : KboBetRegistrationResult

abbrev reason_of : DenialReason → String
reason_of (policy Placement.not_enrolled) = "kbo_bet_not_enrolled"
reason_of (policy Placement.game_data_unavailable) = "kbo_bet_game_data_unavailable"
reason_of (policy Placement.betting_closed) = "kbo_bet_betting_closed"
reason_of (policy Placement.correction_debt) = "kbo_bet_correction_debt"
reason_of (policy Placement.insufficient_balance) = "kbo_bet_insufficient_balance"
reason_of (policy Placement.daily_limit_exceeded) = "kbo_bet_daily_limit_exceeded"
reason_of already_bet = "kbo_bet_already_bet"

-- `none` for the reason stands for "placed".
abbrev code_of : Option DenialReason → String
code_of none = "kbo_bet_placed"
code_of (some reason) = reason_of reason

abbrev outcome_of : Option DenialReason → Database.OperationOutcome
outcome_of none = Database.OperationOutcome.accepted
outcome_of (some reason) = Database.OperationOutcome.denied

abbrev audited_as : Option DenialReason → String
audited_as none = "success"
audited_as (some reason) = "denied"

unfoldable pub claim_operation : KboBetRegistrationInput → ℕ → Option DenialReason → Db → Option Db
claim_operation i now result = insert_operation (record {
  operation_id = i.operation_id;
  actor_id = i.discord_user_id;
  accepted_at = now;
  outcome = outcome_of result;
  reason_code = code_of result;
})

unfoldable pub append_audit : KboBetRegistrationInput → ℕ → Option DenialReason → Db → Option Db
append_audit i now result = insert_audit (record {
  event_id = tagged "kbo-bet:" i.operation_id;
  operation_id = i.operation_id;
  occurred_at = now;
  event_type = "kbo.bet";
  actor_id = some i.discord_user_id;
  outcome = audited_as result;
  reason_code = code_of result;
  guild_id = some i.guild_id;
})

unfoldable pub commit_denied :
    KboBetRegistrationInput → ℕ → DenialReason → Db → Option (KboBetRegistrationResult × Db)
commit_denied i now reason db = elim (claim_operation i now (some reason) db) [
  | none ↦ some (duplicate_operation, db)
  | some db' ↦ append_audit i now (some reason) db' >>= λ final. some (denied reason, final)
]

unfoldable pub find_bet_by_operation : (account operation : String) → Db → Option BetRow
find_bet_by_operation account operation db =
    find (λ r. str_eq r.account_id account && str_eq r.operation_id operation) db.bets

abbrev pub placed_row : BetRow → KboBetRegistrationResult
placed_row row = placed (record {
  bet_id = row.bet_id;
  game_id = row.game_id;
  market_version = row.market_version;
  stake_date = row.stake_date;
})

-- `select coalesce(sum(stake), 0) … where account_id = $1 and stake_date = $2 and status <> 'void'`
unfoldable pub daily_stake : (account date : String) → List BetRow → ℤ
daily_stake account date [] = pos 0
daily_stake account date (r ∷ rs) =
    if str_eq r.account_id account && str_eq r.stake_date date && not (is_void r.status)
    then r.stake +ℤ daily_stake account date rs
    else daily_stake account date rs

-- The placement that is evaluated against the locked rows.
abbrev pub placement_of :
    KboBetRegistrationInput → ℕ → AccountRow → GameRow → ℤ → KboBetPlacementInput
placement_of i now account game total = record {
  now = instant now;
  scheduled_start_at = instant game.scheduled_start_at;
  enrollment_status = Placement.active;
  rights_status = i.rights_status;
  evidence_status =
      if is_kbo_bet_evidence_fresh (instant now) (instant game.source_updated_at)
        (instant game.collected_at)
      then Placement.fresh
      else Placement.stale;
  game_status = game.status;
  available_balance = account.available_balance;
  correction_debt = account.correction_debt;
  daily_net_stake = total;
  stake = i.stake;
  prediction = i.prediction;
  predicted_home_score = i.predicted_home_score;
  predicted_away_score = i.predicted_away_score;
}

unfoldable pub has_pending : (guild account game : String) → Db → Bool
has_pending guild account game db =
    any
      (λ r.
        str_eq r.guild_id guild
        && str_eq r.account_id account
        && str_eq r.game_id game
        && is_pending r.status)
      db.bets

abbrev pub staked : AccountRow → ℤ → ℕ → AccountRow → AccountRow
staked account stake now r = record r {
  available_balance = account.available_balance -ℤ stake;
  version = r.version + 1;
  updated_at = now;
}

-- The entry of a stake; the debt is what it was.
abbrev pub stake_entry : KboBetRegistrationInput → ℕ → AccountRow → LedgerRow
stake_entry i now account = record {
  entry_id = 0;
  account_id = account.account_id;
  reason_code = bet_stake;
  available_delta = neg_ℤ i.stake;
  debt_delta = pos 0;
  available_before = account.available_balance;
  available_after = account.available_balance -ℤ i.stake;
  debt_before = account.correction_debt;
  debt_after = account.correction_debt;
  operation_id = i.operation_id;
  source_type = "bet";
  source_id = i.bet_id;
  actor = system;
  occurred_at = now;
}

-- A predicted score that the input check let through is a natural number.
abbrev score_column : Option Number → Option ℕ
score_column (some (int (pos n))) = some n
score_column _ = none

abbrev pub bet_row : KboBetRegistrationInput → ℕ → String → AccountRow → GameRow → ℕ → BetRow
bet_row i now date account game entry = record {
  bet_id = i.bet_id;
  guild_id = i.guild_id;
  account_id = account.account_id;
  game_id = i.game_id;
  market_version = game.market_version;
  prediction = i.prediction;
  predicted_home_score = score_column i.predicted_home_score;
  predicted_away_score = score_column i.predicted_away_score;
  stake = i.stake;
  stake_date = date;
  status = Database.pending;
  operation_id = i.operation_id;
  ledger_entry_id = entry;
  placed_at = now;
  current_settlement_id = none;
}

-- The statements from the update of the account to the audit event.
unfoldable pub place_bet :
    KboBetRegistrationInput
    → ℕ
    → String
    → AccountRow
    → GameRow
    → Db
    → Option (KboBetRegistrationResult × Db)
place_bet i now date account game db = do
  updated ← update_account account.account_id (staked account i.stake now) db
  entered ← insert_ledger (stake_entry i now account) updated
  registered ← insert_bet (bet_row i now date account game updated.next_entry_id) entered
  audited ← append_audit i now none registered
  some (placed_row (bet_row i now date account game updated.next_entry_id), audited)

abbrev or_duplicate : Option BetRow → KboBetRegistrationResult
or_duplicate none = duplicate_operation
or_duplicate (some row) = placed_row row

unfoldable pub place_new :
    KboBetRegistrationInput
    → ℕ
    → String
    → AccountRow
    → GameRow
    → Db
    → Option (KboBetRegistrationResult × Db)
place_new i now date account game db = elim (claim_operation i now none db) [
  | none ↦ some (or_duplicate (find_bet_by_operation account.account_id i.operation_id db), db)
  | some db' ↦ place_bet i now date account game db'
]

-- What follows the evaluation of the policy; `invalid_input` is an error that the store catches.
unfoldable pub place_decided :
    KboBetRegistrationInput
    → ℕ
    → AccountRow
    → GameRow
    → KboBetPlacementResult
    → Db
    → Option (KboBetRegistrationResult × Db)
place_decided i now account game Placement.invalid_input db = none
place_decided i now account game (Placement.denied reason) db =
    commit_denied i now (policy reason) db
place_decided i now account game (Placement.accepted date) db =
    if has_pending i.guild_id account.account_id i.game_id db
    then commit_denied i now already_bet db
    else place_new i now date account game db

unfoldable pub place_on :
    (ℕ → String)
    → KboBetRegistrationInput
    → ℕ
    → AccountRow
    → GameRow
    → Db
    → Option (KboBetRegistrationResult × Db)
place_on format_kst i now account game db =
    place_decided i now account game
      (evaluate_kbo_bet_placement format_kst
        (placement_of i now account game (daily_stake account.account_id (format_kst now) db.bets)))
      db

unfoldable pub place_for :
    (ℕ → String)
    → KboBetRegistrationInput
    → ℕ
    → AccountRow
    → Db
    → Option (KboBetRegistrationResult × Db)
place_for format_kst i now account db =
    elim (find_bet_by_operation account.account_id i.operation_id db) [
      | some existing ↦ some (placed_row existing, db)
      | none ↦ elim (lock_game i.game_id db) [
        | none ↦ commit_denied i now (policy Placement.game_data_unavailable) db
        | some game ↦ place_on format_kst i now account game db
      ]
    ]

unfoldable pub place_tx :
    (ℕ → String) → KboBetRegistrationInput → ℕ → Db → Option (KboBetRegistrationResult × Db)
place_tx format_kst i now db = elim (lock_active_account i.guild_id i.discord_user_id db) [
  | none ↦ commit_denied i now (policy Placement.not_enrolled) db
  | some account ↦ place_for format_kst i now account db
]

abbrev pub place_at :
    (ℕ → String) → KboBetRegistrationInput → Date → Db → Outcome KboBetRegistrationResult × Db
place_at format_kst i invalid_date db = (input_error, db)
place_at format_kst i (instant now) db = finish db (place_tx format_kst i now db)

-- `place`
unfoldable pub place :
    (ℕ → String) → KboBetRegistrationInput → Db → Outcome KboBetRegistrationResult × Db
place format_kst i db =
    if assert_kbo_bet_registration_input format_kst i
    then place_at format_kst i i.placed_at db
    else (input_error, db)
