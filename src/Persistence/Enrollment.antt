-- ===== src/Persistence/Enrollment.antt =====
-- The enrolment: src/kbo/betting-enrollment.ts and src/persistence/postgres-kbo-enrollment-store.ts.
pub mod Laws
use waw_discord_bot.Prelude.{
  ℕ, Bool, true, false, not, ◌&&◌, Option, none, some, String, pos, leb_ℤ, is_none, any, str_eq,
  Date, is_finite, instant, invalid_date, Number, int, not_integer, is_safe_integer, if◌then◌else◌,
  ◌>>=◌,
}
use waw_discord_bot.Kbo.Identifiers.{is_operation_id, is_opaque_id, is_snowflake}
use waw_discord_bot.Persistence.Database.{
  Db, EnrollmentRow, active, accepted, denied, insert_account, insert_enrollment, insert_operation,
  insert_audit,
}
use waw_discord_bot.Persistence.Queries.{Outcome, input_error, finish, tagged, find_enrollment}

pub record KboEnrollmentInput : Type 0 where
  pub operation_id : String
  pub enrollment_id : String
  pub account_id : String
  pub guild_id : String
  pub discord_user_id : String
  pub policy_version : Number
  pub enrolled_at : Date

pub data KboEnrollmentResult : Type 0 where
  created already_enrolled not_registered duplicate_operation : KboEnrollmentResult

-- `Number.isSafeInteger(version) && version > 0`
abbrev is_positive : Number → Bool
is_positive not_integer = false
is_positive (int z) = is_safe_integer (int z) && leb_ℤ (pos 1) z

unfoldable pub assert_kbo_enrollment_input : KboEnrollmentInput → Bool
assert_kbo_enrollment_input i =
    is_operation_id i.operation_id
    && is_opaque_id i.enrollment_id
    && is_opaque_id i.account_id
    && is_snowflake i.guild_id
    && is_snowflake i.discord_user_id
    && is_positive i.policy_version
    && is_finite i.enrolled_at

abbrev reason_of : KboEnrollmentResult → String
reason_of created = "kbo_enrollment_created"
reason_of already_enrolled = "kbo_enrollment_already_enrolled"
reason_of not_registered = "kbo_enrollment_not_registered"
reason_of duplicate_operation = "kbo_enrollment_duplicate_operation"

abbrev pub is_created : KboEnrollmentResult → Bool
is_created created = true
is_created _ = false

-- The result before the operation is claimed.
unfoldable pub decide : KboEnrollmentInput → Db → KboEnrollmentResult
decide i db =
    if not (any (λ r. str_eq r.0 i.guild_id && str_eq r.1 i.discord_user_id) db.registered)
    then not_registered
    else if is_none (find_enrollment i.guild_id i.discord_user_id db)
    then created
    else already_enrolled

-- `none` is the conflict with an operation that is there.
unfoldable pub claim_operation : KboEnrollmentInput → ℕ → KboEnrollmentResult → Db → Option Db
unfolding insert_operation
claim_operation i at result = insert_operation (record {
  operation_id = i.operation_id;
  actor_id = i.discord_user_id;
  accepted_at = at;
  outcome = if is_created result then accepted else denied;
  reason_code = reason_of result;
})

unfoldable pub append_audit : KboEnrollmentInput → ℕ → KboEnrollmentResult → Db → Option Db
unfolding insert_audit
append_audit i at result = insert_audit (record {
  event_id = tagged "kbo-enrollment:" i.operation_id;
  operation_id = i.operation_id;
  occurred_at = at;
  event_type = "kbo.enrollment";
  actor_id = some i.discord_user_id;
  outcome = if is_created result then "success" else "denied";
  reason_code = reason_of result;
  guild_id = some i.guild_id;
})

abbrev pub enrollment_row : KboEnrollmentInput → ℕ → EnrollmentRow
enrollment_row i at = record {
  enrollment_id = i.enrollment_id;
  account_id = i.account_id;
  guild_id = i.guild_id;
  discord_user_id = some i.discord_user_id;
  status = active;
  policy_version = i.policy_version;
  enrolled_at = at;
  departed_at = none;
}

-- The two rows of a new enrolment.
unfoldable pub open_account : KboEnrollmentInput → ℕ → Db → Option Db
unfolding insert_account insert_enrollment
open_account i at db = do
  opened ← insert_account i.account_id at db
  insert_enrollment (enrollment_row i at) opened

-- The statements after the operation was claimed.
unfoldable pub complete :
    KboEnrollmentInput → ℕ → KboEnrollmentResult → Db → Option (KboEnrollmentResult × Db)
unfolding open_account append_audit
complete i at result db = do
  written ← (if is_created result then open_account i at db else some db)
  audited ← append_audit i at result written
  some (result, audited)

unfoldable pub enroll_tx : KboEnrollmentInput → ℕ → Db → Option (KboEnrollmentResult × Db)
unfolding decide claim_operation complete
enroll_tx i at db = elim (claim_operation i at (decide i db) db) [
  | none ↦ some (duplicate_operation, db)
  | some claimed ↦ complete i at (decide i db) claimed
]

abbrev pub enroll_at : KboEnrollmentInput → Date → Db → Outcome KboEnrollmentResult × Db
unfolding enroll_tx
enroll_at i invalid_date db = (input_error, db)
enroll_at i (instant at) db = finish db (enroll_tx i at db)

-- `enroll`
unfoldable pub enroll : KboEnrollmentInput → Db → Outcome KboEnrollmentResult × Db
unfolding assert_kbo_enrollment_input enroll_tx
enroll i db =
    if assert_kbo_enrollment_input i then enroll_at i i.enrolled_at db else (input_error, db)
