-- ===== src/Auth/Authorization.antt =====
-- src/auth/authorization.ts: `authorize`. A `Date` is a number of milliseconds; a difference of two
-- is an integer.
pub mod Laws
use waw_discord_bot.Prelude.{
  ℕ, ◌≡◌, Bool, true, false, not, ◌&&◌, Option, none, some, ℤ, pos, ◌-ℤ◌, leb_ℤ, if◌then◌else◌,
}

pub data RequestKind : Type 0 where
  read mutation high_risk : RequestKind

pub data CurrentRoleResult : Type 0 where
  authorized unauthorized unavailable : CurrentRoleResult

pub record AuthorizationInput : Type 0 where
  pub kind : RequestKind
  pub current_role : CurrentRoleResult
  pub cached_role_verified_at : Option ℕ
  pub now : ℕ
  pub csrf_valid : Bool
  pub last_oauth_completed_at : Option ℕ
  pub explicit_confirmation : Bool

pub data RoleSource : Type 0 where
  current_role role_cache : RoleSource

pub data Denial : Type 0 where
  role_unauthorized role_unavailable csrf_invalid recent_auth_required confirmation_required :
      Denial

pub data AuthorizationOutcome : Type 0 where
  allowed : RoleSource → AuthorizationOutcome
  denied : Denial → AuthorizationOutcome

-- An age from 0 to the limit, both included; without an instant there is none.
abbrev pub is_within : Option ℕ → ℕ → ℕ → Bool
is_within none now limit = false
is_within (some at) now limit =
    let age = pos now -ℤ pos at in leb_ℤ (pos 0) age && leb_ℤ age (pos limit)

abbrev pub role_cache_max_age_ms : ℕ
role_cache_max_age_ms = 300000

abbrev pub recent_oauth_max_age_ms : ℕ
recent_oauth_max_age_ms = 900000

unfoldable pub has_valid_read_only_cache : AuthorizationInput → Bool
has_valid_read_only_cache i = is_within i.cached_role_verified_at i.now role_cache_max_age_ms

unfoldable pub has_recent_oauth : AuthorizationInput → Bool
has_recent_oauth i = is_within i.last_oauth_completed_at i.now recent_oauth_max_age_ms

-- The reason of a request without the role.
abbrev role_denial : CurrentRoleResult → Denial
role_denial unauthorized = role_unauthorized
role_denial _ = role_unavailable

unfoldable pub authorize_read : AuthorizationInput → AuthorizationOutcome
authorize_read i = elim i.current_role [
  | authorized ↦ allowed current_role
  | unavailable ↦
      if has_valid_read_only_cache i then allowed role_cache else denied (role_denial unavailable)
  | unauthorized ↦ denied (role_denial unauthorized)
]

unfoldable pub authorize_high_risk : AuthorizationInput → AuthorizationOutcome
authorize_high_risk i =
    if not (has_recent_oauth i)
    then denied recent_auth_required
    else if not i.explicit_confirmation
    then denied confirmation_required
    else allowed current_role

-- What follows the check of the role for a request that changes something.
unfoldable pub authorize_change : AuthorizationInput → AuthorizationOutcome
authorize_change i = if not i.csrf_valid then denied csrf_invalid else elim i.kind [
  | high_risk ↦ authorize_high_risk i
  | mutation ↦ allowed current_role
  | read ↦ allowed current_role
]

unfoldable pub authorize_with_role : AuthorizationInput → AuthorizationOutcome
authorize_with_role i = elim i.current_role [
  | authorized ↦ authorize_change i
  | unauthorized ↦ denied (role_denial unauthorized)
  | unavailable ↦ denied (role_denial unavailable)
]

unfoldable pub authorize : AuthorizationInput → AuthorizationOutcome
authorize i = elim i.kind [
  | read ↦ authorize_read i
  | mutation ↦ authorize_with_role i
  | high_risk ↦ authorize_with_role i
]
