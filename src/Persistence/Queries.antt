-- ===== src/Persistence/Queries.antt =====
-- The queries that the KBO stores share, and the end of a transaction.
use Prim.Native.String
use waw_discord_bot.Prelude.{Bool, ◌&&◌, Option, none, some, String, str_eq, find, ◌>>=◌}
use waw_discord_bot.Persistence.Database.{Db, AccountRow, EnrollmentRow, GameRow, is_active}

-- What a method of a store gives: a result, or one of the errors that it throws.
pub data Outcome {ℓ} (A : Type ℓ) : Type ℓ where
  done : A → Outcome A
  input_error : Outcome A
  persistence_error : Outcome A

-- `commit`, or `rollback` and a `PersistenceError`.
abbrev pub finish {ℓ} : {A : Type ℓ} → Db → Option (A × Db) → Outcome A × Db
finish db none = (persistence_error, db)
finish db (some (a, db')) = (done a, db')

-- A template with an identifier at its end.
abbrev pub tagged : String → String → String
tagged prefix id = String.◌++◌ prefix id

abbrev pub find_account : String → Db → Option AccountRow
find_account id db = find (λ r. str_eq r.account_id id) db.accounts

abbrev pub user_is : String → Option String → Bool
user_is user none = Bool.false
user_is user (some id) = str_eq id user

-- The active enrollment of a user in a guild; an index keeps it unique.
abbrev pub find_enrollment : String → String → Db → Option EnrollmentRow
find_enrollment guild user db =
    find (λ r. str_eq r.guild_id guild && user_is user r.discord_user_id && is_active r.status)
      db.enrollments

-- `lockActiveAccount`: the enrollment joined with its account.
unfoldable pub lock_active_account : String → String → Db → Option AccountRow
lock_active_account guild user db = do
  enrollment ← find_enrollment guild user db
  find_account enrollment.account_id db

-- `lockGame`
unfoldable pub lock_game : String → Db → Option GameRow
lock_game id db = find (λ r. str_eq r.game_id id) db.games
