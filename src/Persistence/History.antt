-- ===== src/Persistence/History.antt =====
-- Sequences of transactions of the five KBO stores on the same tables.
use waw_discord_bot.Prelude.{ℕ, String, List, [], ◌∷◌}
use waw_discord_bot.Kbo.Credit.{KboDailyCreditClaimInput}
use waw_discord_bot.Kbo.Placement.{KboBetRegistrationInput}
use waw_discord_bot.Kbo.Settlement.{KboSettlementInput}
use waw_discord_bot.Persistence.Database.{Db}
use waw_discord_bot.Persistence.Ledger.{Balances}
use waw_discord_bot.Persistence.DailyClaim.{claim}
use waw_discord_bot.Persistence.DailyClaim.Laws.{claim-Balances}
use waw_discord_bot.Persistence.Enrollment.{KboEnrollmentInput, enroll}
use waw_discord_bot.Persistence.Enrollment.Laws.{enroll-Balances}
use waw_discord_bot.Persistence.Departure.{KboDepartureInput, depart}
use waw_discord_bot.Persistence.Departure.Laws.{depart-Balances}
use waw_discord_bot.Persistence.BetStore.{place}
use waw_discord_bot.Persistence.BetStore.Laws.{place-Balances}
use waw_discord_bot.Persistence.SettlementStore.Transaction.{settle}
use waw_discord_bot.Persistence.SettlementStore.Laws.{settle-Balances}

-- A call of a store.
pub data Request : Type 0 where
  enrolls : KboEnrollmentInput → Request
  departs : KboDepartureInput → Request
  claims : KboDailyCreditClaimInput → Request
  places : KboBetRegistrationInput → Request
  settles : KboSettlementInput → Request

module _ (format_kst : ℕ → String) where
  abbrev pub serve : Request → Db → Db
  serve (enrolls i) db = (enroll i db).1
  serve (departs i) db = (depart i db).1
  serve (claims i) db = (claim format_kst i db).1
  serve (places i) db = (place format_kst i db).1
  serve (settles i) db = (settle i db).1

  unfoldable pub serve_all : List Request → Db → Db
  serve_all [] db = db
  serve_all (r ∷ rs) db = serve_all rs (serve r db)

  serve-Balances : (r : Request) (db : Db) → Balances db → Balances (serve r db)
  serve-Balances (enrolls i) db b = enroll-Balances i db b
  serve-Balances (departs i) db b = depart-Balances i db b
  serve-Balances (claims i) db b = claim-Balances format_kst i db b
  serve-Balances (places i) db b = place-Balances format_kst i db b
  serve-Balances (settles i) db b = settle-Balances i db b

-- After any enrolments, departures, claims, registrations and settlements, in any order and whatever
-- they give, every balance and every debt of an account is the sum of its ledger entries and at least 0.
pub serve_all-Balances :
    (format_kst : ℕ → String) (requests : List Request) (db : Db)
    → Balances db
    → Balances (serve_all format_kst requests db)
unfolding serve_all
serve_all-Balances format_kst [] db b = b
serve_all-Balances format_kst (r ∷ rs) db b =
    serve_all-Balances format_kst rs (serve format_kst r db) (serve-Balances format_kst r db b)
