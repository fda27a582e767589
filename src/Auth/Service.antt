-- ===== src/Auth/Service.antt =====
-- The login service: src/auth/auth-service.ts. The random values of a request and the instants that
-- its clock gives are arguments.
pub mod Access
mod Tests
pub mod Published
pub mod Roles
use waw_discord_bot.Prelude.{
  ℕ, ◌+◌, ◌-◌, Bool, true, false, not, ◌&&◌, ◌||◌, Option, none, some, String, List, [], ◌∷◌, ◌++◌,
  is_some, leb, ltb, ◌==◌, if◌then◌else◌,
}
use waw_discord_bot.Prelude.Effects.{Effect, pure, caught, lift, ◌>>=◌}
use waw_discord_bot.Kbo.Identifiers.{codes}
use waw_discord_bot.Ipc.Services
use waw_discord_bot.Ipc.Services.{CurrentAuthorizationResult}
use waw_discord_bot.Auth.Authorization
use waw_discord_bot.Auth.Authorization.{
  RequestKind, CurrentRoleResult, RoleSource, Denial, AuthorizationOutcome, authorize,
}
use waw_discord_bot.Auth.Session.{AuthorizationTier, operator, administrator, OpaqueSession}
use waw_discord_bot.Auth.Cookies.{
  Chars, same, missing, invalid, present, SessionCredential, is_valid_credential,
  oauth_state_cookie_name, read_exact_cookie, read_session_credential,
}
use waw_discord_bot.Auth.Ports.{
  AuthConfiguration, disabled, enabled, EnabledAuthConfiguration, Headers, Body, redirect,
  AuthServiceResponse, plain, Url, Node, Ports, RoleCache, CurrentMemberResult,
}
use waw_discord_bot.Auth.Csrf
use waw_discord_bot.Auth.Csrf.{SessionRequestKind, create_boundary, stage_credential}
use waw_discord_bot.Auth.Boundary
use waw_discord_bot.Auth.Boundary.{
  SessionDenial, SessionOutcome, auth_disabled, session_invalid, session_unavailable, csrf_invalid,
  authenticated, denial_text, authenticate_session_request, handle_session_logout,
}
use waw_discord_bot.Auth.Callback.{TierReading, tier, no_tier, read_tier}
use waw_discord_bot.Auth.Callback
use waw_discord_bot.Auth.CallbackRequest.{
  FrameworkNeutralRequest, get_all, handle_oauth_callback_request,
}

abbrev pub disabled_response : AuthServiceResponse
disabled_response = plain 404 (Body.denied "auth-disabled")

abbrev pub unavailable_response : String → AuthServiceResponse
unavailable_response reason = plain 503 (Body.denied reason)

abbrev denied_status : SessionDenial → ℕ
denied_status auth_disabled = 404
denied_status session_unavailable = 503
denied_status session_invalid = 401
denied_status csrf_invalid = 403

abbrev pub session_denied_response : SessionDenial → AuthServiceResponse
session_denied_response reason = plain (denied_status reason) (Body.denied (denial_text reason))

abbrev oauth_state_cookie_attributes : Chars
oauth_state_cookie_attributes = codes "; Path=/; Secure; HttpOnly; SameSite=Lax"

abbrev pub expired_oauth_state_cookie : Chars
expired_oauth_state_cookie =
    oauth_state_cookie_name ++ (b'=' ∷ (oauth_state_cookie_attributes ++ codes "; Max-Age=0"))

abbrev pub oauth_state_cookie : Chars → Chars
oauth_state_cookie raw_state =
    oauth_state_cookie_name
    ++ (b'=' ∷ (raw_state ++ (oauth_state_cookie_attributes ++ codes "; Max-Age=600")))

module _ (node : Node) (csrf_key : Chars) {S : Type 0} (ports : Ports S) (provided : Bool) where
  open ports use {
    create_oauth_state, create_authorization_url, read_current_member, read_current_authorization,
    find_session, rotate_session, upsert_role_cache, find_fresh_role_cache,
  }

  -- `isReady`, with the configuration; `provided` says that there is a provider.
  abbrev pub ready : AuthConfiguration → Option EnabledAuthConfiguration
  ready disabled = none
  ready (enabled configuration) =
      if provided && (is_some read_current_member || is_some read_current_authorization)
      then some configuration
      else none

  abbrev answer_created : Chars → Option (Unit {0}) → AuthServiceResponse
  answer_created raw_state none = unavailable_response "persistence-unavailable"
  answer_created raw_state (some done) = record {
    status_code = 302;
    location = some (create_authorization_url raw_state);
    set_cookie = some (oauth_state_cookie raw_state ∷ []);
    body = redirect;
  }

  unfoldable pub login :
      AuthConfiguration → (raw_state : Chars) (now : ℕ) → Effect S AuthServiceResponse
  unfolding is_valid_credential
  login configuration raw_state now = elim (ready configuration) [
    | none ↦ pure disabled_response
    | some c ↦
        if not (is_valid_credential raw_state)
        then pure (unavailable_response "persistence-unavailable")
        else do
          created ←
              caught (create_oauth_state (node.hash_opaque_session_id raw_state) (now + 600000))
          pure (answer_created raw_state created)
  ]

  abbrev only_valid : List Chars → Option Chars
  unfolding is_valid_credential
  only_valid (value ∷ []) = if is_valid_credential value then some value else none
  only_valid _ = none

  abbrev state_in : Option Url → Option Chars
  unfolding get_all is_valid_credential
  state_in none = none
  state_in (some url) = only_valid (get_all (codes "state") url.search_params)

  unfoldable pub read_callback_state : Chars → Option Chars
  unfolding get_all is_valid_credential
  read_callback_state url = state_in (node.parse_url url)

  -- The state of the browser is the state of the callback.
  abbrev pub is_same_state : Option Chars → Option Chars → Bool
  unfolding same
  is_same_state (some a) (some b) = same a b
  is_same_state _ _ = false

  abbrev with_cookies : List Chars → AuthServiceResponse → AuthServiceResponse
  with_cookies cookies response = record response { set_cookie = some cookies }

  -- What is done with the response of the callback and the cookies that it published.
  abbrev pub publish : AuthServiceResponse × List Chars → AuthServiceResponse
  publish (response, []) =
      if not (response.status_code == 303)
      then with_cookies (expired_oauth_state_cookie ∷ []) response
      else unavailable_response "callback-unavailable"
  publish (response, cookie ∷ cookies) =
      if not (response.status_code == 303)
      then with_cookies (expired_oauth_state_cookie ∷ []) response
      else with_cookies ((cookie ∷ cookies) ++ (expired_oauth_state_cookie ∷ [])) response

  -- What follows the comparison of the two states.
  unfoldable pub callback_compared :
      EnabledAuthConfiguration
      → FrameworkNeutralRequest
      → (raw_session_id : Chars) (now : ℕ) → Bool
      → Effect S AuthServiceResponse
  unfolding handle_oauth_callback_request
  callback_compared c request raw_session_id now false = pure (
      with_cookies (expired_oauth_state_cookie ∷ [])
        (plain 403 (Body.denied "state-browser-mismatch")))
  callback_compared c request raw_session_id now true = do
    response ← handle_oauth_callback_request node csrf_key c ports request raw_session_id now
    pure (publish response)

  unfoldable pub callback_ready :
      EnabledAuthConfiguration
      → FrameworkNeutralRequest
      → (raw_session_id : Chars) (now : ℕ) → Effect S AuthServiceResponse
  unfolding create_boundary read_callback_state read_exact_cookie callback_compared same
  callback_ready c request raw_session_id now = do
    boundary ← lift (create_boundary node csrf_key)
    callback_compared c request raw_session_id now (
        is_same_state (read_callback_state request.url)
          (read_exact_cookie request.headers.cookie oauth_state_cookie_name))

  unfoldable pub callback :
      AuthConfiguration
      → FrameworkNeutralRequest
      → (raw_session_id : Chars) (now : ℕ) → Effect S AuthServiceResponse
  unfolding callback_ready
  callback configuration request raw_session_id now = elim (ready configuration) [
    | none ↦ pure disabled_response
    | some c ↦ callback_ready c request raw_session_id now
  ]

  unfoldable pub logout :
      AuthConfiguration → (method : Chars) → Headers → (now : ℕ) → Effect S AuthServiceResponse
  unfolding create_boundary handle_session_logout
  logout configuration method headers now = elim (ready configuration) [
    | none ↦ pure disabled_response
    | some c ↦ do
      boundary ← lift (create_boundary node csrf_key)
      handle_session_logout node csrf_key ports method headers (enabled c) now
  ]
