-- ===== src/Persistence/Tests.antt =====
-- The stores on concrete tables.
use waw_discord_bot.Prelude.{
  ℕ, ◌≡◌, refl, Option, none, some, [], ◌∷◌, String, arith, pos, int, ◌+ℤ◌, ◌-ℤ◌, instant,
}
use waw_discord_bot.Kbo.Credit.{KboDailyCreditClaimInput, allocate_daily_credit}
use waw_discord_bot.Persistence.Database
use waw_discord_bot.Persistence.Database.{
  Db, AccountRow, EnrollmentRow, account_ok, ledger_ok, update_account, insert_ledger, insert_claim,
}
use waw_discord_bot.Persistence.Queries.{lock_active_account, find_enrollment}
use waw_discord_bot.Persistence.Ledger.{Balances, available_total, debt_total}
use waw_discord_bot.Persistence.Enrollment
use waw_discord_bot.Persistence.Enrollment.{KboEnrollmentInput, enroll_tx}
use waw_discord_bot.Persistence.Enrollment.Laws.{IsEnrolled, enroll_tx-IsEnrolled}
use waw_discord_bot.Persistence.Departure
use waw_discord_bot.Persistence.Departure.{KboDepartureInput, depart_tx}
use waw_discord_bot.Persistence.Departure.Laws.{depart_tx-departed}
use waw_discord_bot.Persistence.DailyClaim
use waw_discord_bot.Persistence.DailyClaim.{claim, claim_tx, claimed}
use waw_discord_bot.Persistence.DailyClaim.Replay.{claim_tx-claim_tx}

abbrev pub guild : String
guild = "123456789012345678"

abbrev pub user : String
user = "223456789012345678"

abbrev fresh_account : AccountRow
fresh_account = record {
  account_id = "account-00000001";
  available_balance = pos 0;
  correction_debt = pos 0;
  version = 0;
  created_at = 10;
  updated_at = 10;
}

-- One enrolled user without credit.
abbrev pub start : Db
start = record {
  accounts = fresh_account ∷ [];
  enrollments =
      record {
        enrollment_id = "enroll-000000001";
        account_id = "account-00000001";
        guild_id = guild;
        discord_user_id = some user;
        status = Database.active;
        policy_version = int (pos 1);
        enrolled_at = 10;
        departed_at = none;
      }
      ∷ [];
  operations = [];
  ledger = [];
  next_entry_id = 1;
  claims = [];
  games = [];
  bets = [];
  settlements = [];
  audits = [];
  registered = (guild, user) ∷ [];
}

pub start-Balances : Balances start
unfolding available_total debt_total
start-Balances = record {
  posted =
      (record { available = refl; debt = refl; solvent = omega arith; owing = omega arith }, tt);
  owned = tt;
}

abbrev pub asked : KboDailyCreditClaimInput
asked = record {
  operation_id = "op-00000001";
  claim_id = "claim-0000000001";
  guild_id = guild;
  discord_user_id = user;
  claimed_at = instant 1000;
}

abbrev pub on_day : ℕ → String
on_day t = "2026-07-29"

abbrev tables_of : Option (DailyClaim.KboDailyCreditClaimResult × Db) → Db
tables_of none = start
tables_of (some (r, db)) = db

first_claim :
    claim_tx asked 1000 "2026-07-29" start
    ≡ some (
      claimed "2026-07-29" (pos 50000) (pos 0),
      tables_of (claim_tx asked 1000 "2026-07-29" start),
    )
unfolding claim_tx DailyClaim.claim_for DailyClaim.claim_new DailyClaim.pay_claim
    DailyClaim.claim_operation DailyClaim.append_audit DailyClaim.find_claim_by_operation
    lock_active_account allocate_daily_credit update_account account_ok ledger_ok insert_ledger
    insert_claim ◌+ℤ◌ ◌-ℤ◌
first_claim = refl

-- The same operation, an hour later.
claim_tx-claim_tx_example :
    claim_tx
      (record asked { claimed_at = instant 3601000 })
      3601000
      "2026-07-30"
      (tables_of (claim_tx asked 1000 "2026-07-29" start))
    ≡ some (
      claimed "2026-07-29" (pos 50000) (pos 0),
      tables_of (claim_tx asked 1000 "2026-07-29" start),
    )
claim_tx-claim_tx_example =
    claim_tx-claim_tx asked (record asked { claimed_at = instant 3601000 }) 1000 3601000
      "2026-07-29" "2026-07-30" start first_claim refl refl refl

abbrev newcomer : KboEnrollmentInput
newcomer = record {
  operation_id = "op-00000002";
  enrollment_id = "enroll-000000002";
  account_id = "account-00000002";
  guild_id = guild;
  discord_user_id = "323456789012345678";
  policy_version = int (pos 1);
  enrolled_at = instant 20;
}

abbrev start_with_newcomer : Db
start_with_newcomer = record start {
  registered = (guild, user) ∷ (guild, "323456789012345678") ∷ [];
}

abbrev enrolled_tables : Option (Enrollment.KboEnrollmentResult × Db) → Db
enrolled_tables none = start
enrolled_tables (some (r, db)) = db

first_enrollment :
    enroll_tx newcomer 20 start_with_newcomer
    ≡ some (Enrollment.created, enrolled_tables (enroll_tx newcomer 20 start_with_newcomer))
unfolding enroll_tx
first_enrollment = refl

-- The user of the tables is enrolled already.
second_enrollment :
    Enrollment.decide (record newcomer { discord_user_id = user }) start_with_newcomer
    ≡ Enrollment.already_enrolled
unfolding Enrollment.decide
second_enrollment = refl

enroll_tx-IsEnrolled_example :
    IsEnrolled newcomer 20 start_with_newcomer
      (enrolled_tables (enroll_tx newcomer 20 start_with_newcomer))
enroll_tx-IsEnrolled_example = enroll_tx-IsEnrolled newcomer 20 start_with_newcomer first_enrollment

abbrev leaver : KboDepartureInput
leaver = record {
  operation_id = "op-00000003";
  guild_id = guild;
  discord_user_id = user;
  departed_at = instant 30;
}

abbrev departed_tables : Option (Departure.KboDepartureResult × Db) → Db
departed_tables none = start
departed_tables (some (r, db)) = db

first_departure :
    depart_tx leaver 30 start
    ≡ some (Departure.departed, departed_tables (depart_tx leaver 30 start))
unfolding depart_tx
first_departure = refl

-- A time before the enrolment breaks the check.
early_departure : depart_tx leaver 5 start ≡ none
unfolding depart_tx
early_departure = refl

depart_tx-departed_example :
    ((e : EnrollmentRow) × (find_enrollment guild user start ≡ some e))
    × (find_enrollment guild user (departed_tables (depart_tx leaver 30 start)) ≡ none)
depart_tx-departed_example = depart_tx-departed leaver 30 start (tt, tt) first_departure
