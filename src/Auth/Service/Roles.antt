-- ===== src/Auth/Service/Roles.antt =====
-- The role of a session's actor: `readCurrentAuthorization` of src/auth/auth-service.ts, and how
-- `authorize` writes its answer to the cache of roles or looks it up there.
use waw_discord_bot.Prelude.{ℕ, not, Option, none, some, String, str_eq, if◌then◌else◌}
use waw_discord_bot.Prelude.Effects.{Effect, pure, caught, ◌>>=◌}
use waw_discord_bot.Ipc.Services
use waw_discord_bot.Ipc.Services.{CurrentAuthorizationResult}
use waw_discord_bot.Auth.Authorization
use waw_discord_bot.Auth.Authorization.{
  RequestKind, CurrentRoleResult, RoleSource, Denial, AuthorizationInput, AuthorizationOutcome,
  authorize, allowed, denied,
}
use waw_discord_bot.Auth.Session.{AuthorizationTier}
use waw_discord_bot.Auth.Ports
use waw_discord_bot.Auth.Ports.{
  AuthConfiguration, enabled, EnabledAuthConfiguration, Headers, Body, AuthServiceResponse, plain,
  Node, Ports, RoleCache, CurrentMemberResult, member,
}
use waw_discord_bot.Auth.Callback.{resolve_authorization_tier}
use waw_discord_bot.Auth.Service.{unavailable_response}

-- What was read of the role of an actor, or the response that ends the request.
pub data RoleReading : Type 0 where
  failed : AuthServiceResponse → RoleReading
  role :
      CurrentRoleResult
      → Option AuthorizationTier
      → (cached_role_verified_at : Option ℕ) → RoleReading

abbrev tier_result : Option AuthorizationTier → CurrentAuthorizationResult
tier_result none = Services.unauthorized
tier_result (some t) = Services.authorized t

abbrev pub or_unavailable : Option CurrentAuthorizationResult → CurrentAuthorizationResult
or_unavailable none = Services.unavailable
or_unavailable (some result) = result

abbrev pub role_written : AuthorizationTier → Option (Unit {0}) → RoleReading
role_written t none = failed (unavailable_response "persistence-unavailable")
role_written t (some done) = role Authorization.authorized (some t) none

abbrev pub role_cached : Option (Option RoleCache) → RoleReading
role_cached none = failed (unavailable_response "persistence-unavailable")
role_cached (some none) = role Authorization.unavailable none none
role_cached (some (some cached)) =
    role Authorization.unavailable (some cached.authorization_tier) (some cached.verified_at)

module _ {S : Type 0} (ports : Ports S) where
  open ports use {read_current_member, upsert_role_cache, find_fresh_role_cache}

  abbrev result_of_member :
      EnabledAuthConfiguration → String → CurrentMemberResult → CurrentAuthorizationResult
  unfolding resolve_authorization_tier
  result_of_member c actor Ports.unavailable = Services.unavailable
  result_of_member c actor Ports.unauthorized = Services.unauthorized
  result_of_member c actor (member guild owner roles) =
      if not (str_eq guild c.allowed_guild_id)
      then Services.unauthorized
      else tier_result (
          resolve_authorization_tier actor owner roles c.operator_role_ids c.administrator_role_ids)

  unfoldable pub try_current_authorization :
      EnabledAuthConfiguration → (actor_id : String) → Effect S CurrentAuthorizationResult
  unfolding resolve_authorization_tier
  try_current_authorization c actor = elim ports.read_current_authorization [
    | some reader ↦ reader actor c.allowed_guild_id
    | none ↦ elim read_current_member [
      | none ↦ pure Services.unavailable
      | some reader ↦ do m ← reader actor c.allowed_guild_id; pure (result_of_member c actor m)
    ]
  ]

  -- `readCurrentAuthorization`
  unfoldable pub read_current_authorization :
      EnabledAuthConfiguration → (actor_id : String) → Effect S CurrentAuthorizationResult
  unfolding try_current_authorization
  read_current_authorization c actor = do
    result ← caught (try_current_authorization c actor)
    pure (or_unavailable result)

  -- The role is written to the cache, or looked up there for a read whose role cannot be read.
  unfoldable pub read_role :
      RequestKind
      → (actor_id : String) (checked_at : ℕ) → CurrentAuthorizationResult
      → Effect S RoleReading
  read_role kind actor checked_at (Services.authorized t) = do
    written ← caught (
        upsert_role_cache
          (record { actor_id = actor; authorization_tier = t; verified_at = checked_at }))
    pure (role_written t written)
  read_role Authorization.read actor checked_at Services.unavailable = do
    cached ← caught (find_fresh_role_cache actor checked_at)
    pure (role_cached cached)
  read_role kind actor checked_at Services.unavailable =
      pure (role Authorization.unavailable none none)
  read_role kind actor checked_at Services.unauthorized =
      pure (role Authorization.unauthorized none none)
