-- ===== src/Auth/Ports.antt =====
-- What the login is given: its configuration, its stores, Discord, node's cryptography and URLs, and
-- what it answers. src/auth/auth-service.ts and the modules that it calls.
use waw_discord_bot.Prelude.{ℕ, Bool, Option, none, some, String, List, length, ◌==◌, if◌then◌else◌}
use waw_discord_bot.Prelude.Effects.{Effect}
use waw_discord_bot.Ipc.Services.{CurrentAuthorizationResult}
use waw_discord_bot.Auth.Authorization.{RoleSource}
use waw_discord_bot.Auth.Session.{AuthorizationTier, OpaqueSession}
use waw_discord_bot.Auth.Cookies.{Chars, same}

-- The fields of the configuration that the login reads.
pub record EnabledAuthConfiguration : Type 0 where
  pub redirect_uri : Chars
  pub allowed_origin : Chars
  pub allowed_guild_id : String
  pub operator_role_ids : List String
  pub administrator_role_ids : List String

pub data AuthConfiguration : Type 0 where
  disabled : AuthConfiguration
  enabled : EnabledAuthConfiguration → AuthConfiguration

-- The headers that are read.
pub record Headers : Type 0 where
  pub cookie : Option Chars
  pub origin : Option Chars
  pub x_csrf_token : Option Chars

pub data Body : Type 0 where
  denied : (reason : String) → Body
  redirect succeeded empty : Body
  authorized :
      (actor_id : String) (authorization_tier : AuthorizationTier) (source : RoleSource) → Body

pub record AuthServiceResponse : Type 0 where
  pub status_code : ℕ
  pub location : Option Chars
  pub set_cookie : Option (List Chars)
  pub body : Body

abbrev pub plain : ℕ → Body → AuthServiceResponse
plain status body = record { status_code = status; location = none; set_cookie = none; body = body }

-- `new URL(text)`, with the pairs of `searchParams`.
pub record Url : Type 0 where
  pub origin : Chars
  pub pathname : Chars
  pub hash : Chars
  pub username : Chars
  pub password : Chars
  pub search_params : List (Chars × Chars)

-- node: `hashOpaqueSessionId`, the HMAC of `csrfToken` and `new URL`, which throws.
pub record Node : Type 0 where
  pub hash_opaque_session_id : Chars → String
  pub csrf_token : (csrf_key raw_session_id : Chars) → Chars
  pub parse_url : Chars → Option Url

-- `timingSafeEqual`, which throws for buffers of different lengths.
unfoldable pub timing_safe_equal : Chars → Chars → Option Bool
unfolding same
timing_safe_equal a b = if length a == length b then some (same a b) else none

pub record RoleCache : Type 0 where
  pub actor_id : String
  pub authorization_tier : AuthorizationTier
  pub verified_at : ℕ

pub record CallbackPersistenceInput : Type 0 where
  pub state_hash : String
  pub completed_at : ℕ
  pub previous_session_id_hash : Option String
  pub session : OpaqueSession
  pub role_cache : RoleCache

pub data CallbackPersistenceResult : Type 0 where
  completed state_invalid : CallbackPersistenceResult

pub data CurrentMemberResult : Type 0 where
  member : (guild_id guild_owner_id : String) (role_ids : List String) → CurrentMemberResult
  unauthorized unavailable : CurrentMemberResult

-- Discord's side and the readers of roles, of which each may be missing, and the stores.
pub record Ports (S : Type 0) : Type 0 where
  -- `exchangeCode` and then `fetchIdentity` with the token.
  pub exchange_code : (code : Chars) → Effect S Chars
  pub fetch_identity : (access_token : Chars) → Effect S String
  pub create_authorization_url : (raw_state : Chars) → Chars
  pub read_current_member : Option ((actor_id guild_id : String) → Effect S CurrentMemberResult)
  pub read_current_authorization :
      Option ((actor_id guild_id : String) → Effect S CurrentAuthorizationResult)
  pub create_oauth_state : (state_hash : String) (expires_at : ℕ) → Effect S (Unit {0})
  pub is_oauth_state_usable : (state_hash : String) (now : ℕ) → Effect S Bool
  pub complete_oauth_callback : CallbackPersistenceInput → Effect S CallbackPersistenceResult
  pub find_session : (session_id_hash : String) → Effect S (Option OpaqueSession)
  pub touch_session : (session_id_hash : String) (last_seen_at idle_expires_at : ℕ) → Effect S Bool
  pub revoke_session : (session_id_hash : String) (revoked_at : ℕ) → Effect S Bool
  pub rotate_session :
      (previous_session_id_hash : String) → OpaqueSession → (revoked_at : ℕ) → Effect S (Unit {0})
  pub upsert_role_cache : RoleCache → Effect S (Unit {0})
  pub find_fresh_role_cache : (actor_id : String) (now : ℕ) → Effect S (Option RoleCache)
