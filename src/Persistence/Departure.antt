-- ===== src/Persistence/Departure.antt =====
-- The departure: src/kbo/departure.ts and src/persistence/postgres-kbo-departure-store.ts, without the
-- list of the active members.
pub mod Laws
use waw_discord_bot.Prelude.{
  ℕ, Bool, ◌&&◌, Option, none, some, String, Date, instant, invalid_date, is_finite, if◌then◌else◌,
  ◌>>=◌,
}
use waw_discord_bot.Kbo.Identifiers.{is_operation_id, is_snowflake}
use waw_discord_bot.Persistence.Database.{
  Db, EnrollmentRow, accepted, depart_enrollment, insert_operation, insert_audit,
}
use waw_discord_bot.Persistence.Queries.{Outcome, input_error, finish, tagged, find_enrollment}

pub record KboDepartureInput : Type 0 where
  pub operation_id : String
  pub guild_id : String
  pub discord_user_id : String
  pub departed_at : Date

pub data KboDepartureResult : Type 0 where
  departed not_enrolled : KboDepartureResult

unfoldable pub assert_kbo_departure_input : KboDepartureInput → Bool
assert_kbo_departure_input i =
    is_operation_id i.operation_id
    && is_snowflake i.guild_id
    && is_snowflake i.discord_user_id
    && is_finite i.departed_at

-- An operation that is there is an error here.
unfoldable pub enter_operation : KboDepartureInput → ℕ → Db → Option Db
unfolding insert_operation
enter_operation i at = insert_operation (record {
  operation_id = i.operation_id;
  actor_id = "system:kbo-departure";
  accepted_at = at;
  outcome = accepted;
  reason_code = "kbo_member_departed";
})

unfoldable pub append_audit : KboDepartureInput → ℕ → Db → Option Db
unfolding insert_audit
append_audit i at = insert_audit (record {
  event_id = tagged "kbo-departure:" i.operation_id;
  operation_id = i.operation_id;
  occurred_at = at;
  event_type = "kbo.departure";
  actor_id = none;
  outcome = "success";
  reason_code = "kbo_member_departed";
  guild_id = some i.guild_id;
})

unfoldable pub depart_enrolled :
    KboDepartureInput → ℕ → EnrollmentRow → Db → Option (KboDepartureResult × Db)
unfolding enter_operation depart_enrollment append_audit
depart_enrolled i at enrollment db = do
  entered ← enter_operation i at db
  updated ← depart_enrollment enrollment.enrollment_id at entered
  audited ← append_audit i at updated
  some (departed, audited)

unfoldable pub depart_tx : KboDepartureInput → ℕ → Db → Option (KboDepartureResult × Db)
unfolding depart_enrolled
depart_tx i at db = elim (find_enrollment i.guild_id i.discord_user_id db) [
  | none ↦ some (not_enrolled, db)
  | some enrollment ↦ depart_enrolled i at enrollment db
]

abbrev pub depart_at : KboDepartureInput → Date → Db → Outcome KboDepartureResult × Db
unfolding depart_tx
depart_at i invalid_date db = (input_error, db)
depart_at i (instant at) db = finish db (depart_tx i at db)

-- `depart`
unfoldable pub depart : KboDepartureInput → Db → Outcome KboDepartureResult × Db
unfolding assert_kbo_departure_input depart_tx
depart i db =
    if assert_kbo_departure_input i then depart_at i i.departed_at db else (input_error, db)
