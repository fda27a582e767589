-- ===== src/Auth/Service/Access.antt =====
-- The access of a session: `authorize` of src/auth/auth-service.ts.
pub mod Answered
pub mod Granted
pub mod Laws
use waw_discord_bot.Prelude.{
  ℕ, ◌+◌, Bool, true, false, not, ◌&&◌, ◌||◌, Option, none, some, String, List, [], ◌∷◌, str_eq,
  leb, if◌then◌else◌,
}
use waw_discord_bot.Prelude.Effects.{Effect, pure, caught, lift, ◌>>=◌}
use waw_discord_bot.Ipc.Services
use waw_discord_bot.Ipc.Services.{CurrentAuthorizationResult}
use waw_discord_bot.Auth.Authorization
use waw_discord_bot.Auth.Authorization.{
  RequestKind, CurrentRoleResult, RoleSource, Denial, AuthorizationInput, AuthorizationOutcome,
  authorize, allowed, denied,
}
use waw_discord_bot.Auth.Session.{AuthorizationTier, operator, administrator, OpaqueSession}
use waw_discord_bot.Auth.Cookies.{
  Chars, same, missing, invalid, present, SessionCredential, is_valid_credential,
  read_session_credential,
}
use waw_discord_bot.Auth.Ports
use waw_discord_bot.Auth.Ports.{
  AuthConfiguration, enabled, EnabledAuthConfiguration, Headers, Body, AuthServiceResponse, plain,
  Node, Ports, RoleCache, CurrentMemberResult, member,
}
use waw_discord_bot.Auth.Csrf
use waw_discord_bot.Auth.Csrf.{SessionRequestKind, create_boundary, stage_credential}
use waw_discord_bot.Auth.Boundary
use waw_discord_bot.Auth.Boundary.{
  SessionOutcome, session_invalid, authenticated, authenticate_session_request,
}
use waw_discord_bot.Auth.Callback.{resolve_authorization_tier}
use waw_discord_bot.Auth.Service.{
  disabled_response, unavailable_response, session_denied_response, ready,
}
use waw_discord_bot.Auth.Service.Roles.{
  RoleReading, failed, role, or_unavailable, try_current_authorization, read_current_authorization,
  read_role,
}

abbrev reason_text : Denial → String
reason_text Authorization.role_unauthorized = "unauthorized"
reason_text Authorization.role_unavailable = "unavailable"
reason_text Authorization.csrf_invalid = "csrf-invalid"
reason_text Authorization.recent_auth_required = "recent-auth-required"
reason_text Authorization.confirmation_required = "confirmation-required"

abbrev reason_status : Denial → ℕ
reason_status Authorization.role_unavailable = 503
reason_status _ = 403

abbrev pub same_tier : AuthorizationTier → AuthorizationTier → Bool
same_tier operator operator = true
same_tier administrator administrator = true
same_tier _ _ = false

abbrev pub request_kind : RequestKind → SessionRequestKind
request_kind Authorization.read = Csrf.read
request_kind _ = Csrf.mutation

-- The later of two instants is not taken.
abbrev earlier : ℕ → ℕ → ℕ
earlier a b = if leb a b then a else b

-- An authenticated session.
pub record Authenticated : Type 0 where
  pub actor_id : String
  pub authorization_tier : AuthorizationTier
  pub last_oauth_completed_at : ℕ

pub record AccessRequest : Type 0 where
  pub kind : RequestKind
  pub headers : Headers
  pub explicit_confirmation : Bool

module _ (node : Node) (csrf_key : Chars) {S : Type 0} (ports : Ports S) (provided : Bool) where
  open ports use {find_session, rotate_session}

  abbrev pub input_of :
      AccessRequest
      → Authenticated
      → (checked_at : ℕ) → CurrentRoleResult
      → Option ℕ
      → AuthorizationInput
  input_of request session checked_at current cached = record {
    kind = request.kind;
    current_role = current;
    cached_role_verified_at = cached;
    now = checked_at;
    csrf_valid = true;
    last_oauth_completed_at = some session.last_oauth_completed_at;
    explicit_confirmation = request.explicit_confirmation;
  }

  abbrev pub authorized_response :
      Authenticated
      → Option AuthorizationTier
      → RoleSource
      → Option (List Chars)
      → AuthServiceResponse
  authorized_response session none source cookies = record {
    status_code = 200;
    location = none;
    set_cookie = cookies;
    body = Body.authorized session.actor_id session.authorization_tier source;
  }
  authorized_response session (some t) source cookies = record {
    status_code = 200;
    location = none;
    set_cookie = cookies;
    body = Body.authorized session.actor_id t source;
  }

  abbrev pub rotated :
      Authenticated → AuthorizationTier → RoleSource → Option (List Chars) → AuthServiceResponse
  rotated session t source none = unavailable_response "session-rotation-unavailable"
  rotated session t source (some cookies) =
      authorized_response session (some t) source (some cookies)

  abbrev pub successor :
      Authenticated
      → AuthorizationTier
      → (checked_at : ℕ) → OpaqueSession
      → (raw_session_id : Chars) → OpaqueSession
  successor session t checked_at previous raw_session_id = record {
    session_id_hash = node.hash_opaque_session_id raw_session_id;
    actor_id = session.actor_id;
    authorization_tier = t;
    created_at = checked_at;
    last_seen_at = checked_at;
    idle_expires_at = earlier (checked_at + 86400000) previous.absolute_expires_at;
    absolute_expires_at = previous.absolute_expires_at;
    last_oauth_completed_at = session.last_oauth_completed_at;
    revoked_at = none;
  }

  -- The new credential is staged before the store is asked, and released after.
  unfoldable pub replace_session :
      (previous_raw : Chars)
      → OpaqueSession
      → (raw_session_id : Chars) (checked_at : ℕ) → Effect S (List Chars)
  unfolding stage_credential
  replace_session previous_raw next raw_session_id checked_at = do
    cookies ← lift (stage_credential node csrf_key raw_session_id)
    done ← rotate_session (node.hash_opaque_session_id previous_raw) next checked_at
    pure cookies

  unfoldable pub rotate_found :
      Authenticated
      → AuthorizationTier
      → RoleSource
      → (checked_at : ℕ) (raw_session_id previous_raw : Chars) → Option (Option OpaqueSession)
      → Effect S AuthServiceResponse
  unfolding is_valid_credential same replace_session
  rotate_found session t source checked_at raw previous_raw none =
      pure (unavailable_response "persistence-unavailable")
  rotate_found session t source checked_at raw previous_raw (some none) =
      pure (session_denied_response session_invalid)
  rotate_found session t source checked_at raw previous_raw (some (some previous)) =
      if not (is_valid_credential raw) || same raw previous_raw
      then pure (unavailable_response "session-rotation-unavailable")
      else do
        cookies ← caught (
            replace_session previous_raw (successor session t checked_at previous raw) raw
              checked_at)
        pure (rotated session t source cookies)

  unfoldable pub rotate :
      Authenticated
      → AuthorizationTier
      → RoleSource
      → (checked_at : ℕ) (raw_session_id : Chars) → SessionCredential
      → Effect S AuthServiceResponse
  unfolding rotate_found
  rotate session t source checked_at raw (present previous_raw) = do
    previous ← caught (find_session (node.hash_opaque_session_id previous_raw))
    rotate_found session t source checked_at raw previous_raw previous
  rotate session t source checked_at raw missing = pure (session_denied_response session_invalid)
  rotate session t source checked_at raw invalid = pure (session_denied_response session_invalid)

  -- The session is replaced if the current role gives it another tier.
  abbrev pub needs_rotation : Authenticated → CurrentRoleResult → AuthorizationTier → Bool
  needs_rotation session Authorization.authorized t = not (same_tier t session.authorization_tier)
  needs_rotation session _ t = false

  unfoldable pub answer_allowed :
      AccessRequest
      → Authenticated
      → (checked_at : ℕ) (raw_session_id : Chars) → CurrentRoleResult
      → Option AuthorizationTier
      → RoleSource
      → Effect S AuthServiceResponse
  unfolding rotate read_session_credential
  answer_allowed request session checked_at raw current none source =
      pure (authorized_response session none source none)
  answer_allowed request session checked_at raw current (some t) source =
      if needs_rotation session current t
      then rotate session t source checked_at raw (read_session_credential request.headers.cookie)
      else pure (authorized_response session (some t) source none)

  unfoldable pub answer_outcome :
      AccessRequest
      → Authenticated
      → (checked_at : ℕ) (raw_session_id : Chars) → CurrentRoleResult
      → Option AuthorizationTier
      → AuthorizationOutcome
      → Effect S AuthServiceResponse
  unfolding answer_allowed
  answer_outcome request session checked_at raw current t (denied reason) =
      pure (plain (reason_status reason) (Body.denied (reason_text reason)))
  answer_outcome request session checked_at raw current t (allowed source) =
      answer_allowed request session checked_at raw current t source

  unfoldable pub answer_role :
      AccessRequest
      → Authenticated
      → (checked_at : ℕ) (raw_session_id : Chars) → RoleReading
      → Effect S AuthServiceResponse
  unfolding answer_outcome authorize
  answer_role request session checked_at raw (failed response) = pure response
  answer_role request session checked_at raw (role current t cached) =
      answer_outcome request session checked_at raw current t
        (authorize (input_of request session checked_at current cached))

  unfoldable pub answer_session :
      EnabledAuthConfiguration
      → AccessRequest
      → (checked_at : ℕ) (raw_session_id : Chars) → SessionOutcome
      → Effect S AuthServiceResponse
  unfolding answer_role read_role read_current_authorization
  answer_session c request checked_at raw (Boundary.denied reason) =
      pure (session_denied_response reason)
  answer_session c request checked_at raw (authenticated actor t last) = do
    current ← read_current_authorization ports c actor
    reading ← read_role ports request.kind actor checked_at current
    answer_role request
        (record { actor_id = actor; authorization_tier = t; last_oauth_completed_at = last })
        checked_at raw reading

  unfoldable pub authorize_ready :
      EnabledAuthConfiguration
      → AccessRequest
      → (now checked_at : ℕ) (raw_session_id : Chars) → Effect S AuthServiceResponse
  unfolding create_boundary authenticate_session_request answer_session
  authorize_ready c request now checked_at raw = do
    boundary ← lift (create_boundary node csrf_key)
    outcome ←
        authenticate_session_request node csrf_key ports (request_kind request.kind) request.headers
          (enabled c) now
    answer_session c request checked_at raw outcome

  -- `authorize` of the service.
  unfoldable pub authorize_request :
      AuthConfiguration
      → AccessRequest
      → (now checked_at : ℕ) (raw_session_id : Chars) → Effect S AuthServiceResponse
  unfolding authorize_ready
  authorize_request configuration request now checked_at raw =
      elim (ready node csrf_key ports provided configuration) [
        | none ↦ pure disabled_response
        | some c ↦ authorize_ready c request now checked_at raw
      ]
