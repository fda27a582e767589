-- ===== src/Auth/Boundary.antt =====
-- The boundary of sessions: `authenticateSessionRequest` and `handleSessionLogout` of
-- src/http/session-boundary.ts. A rejected step is `none`.
pub mod Kept
pub mod Laws
pub mod Logout
use waw_discord_bot.Prelude.{
  ℕ, ◌+◌, Bool, true, false, not, Option, none, some, String, [], ◌∷◌, ◌++◌, if◌then◌else◌,
}
use waw_discord_bot.Prelude.Effects.{Effect, pure, caught, lift, ◌>>=◌}
use waw_discord_bot.Kbo.Identifiers.{codes}
use waw_discord_bot.Auth.Session.{AuthorizationTier, OpaqueSession, is_active_session}
use waw_discord_bot.Auth.Cookies.{
  Chars, same, missing, invalid, present, SessionCredential, session_cookie_name, csrf_cookie_name,
  read_session_credential,
}
use waw_discord_bot.Auth.Ports.{
  AuthConfiguration, disabled, enabled, EnabledAuthConfiguration, Headers, Body, empty, Node, Ports,
  AuthServiceResponse, plain,
}
use waw_discord_bot.Auth.Csrf.{
  SessionRequestKind, read, mutation, has_valid_mutation_boundary, boundary_ok,
  session_cookie_attributes, csrf_cookie_attributes,
}

pub data SessionDenial : Type 0 where
  auth_disabled session_invalid session_unavailable csrf_invalid : SessionDenial

pub data SessionOutcome : Type 0 where
  authenticated :
      (actor_id : String) (authorization_tier : AuthorizationTier) (last_oauth_completed_at : ℕ)
      → SessionOutcome
  denied : SessionDenial → SessionOutcome

abbrev pub denial_text : SessionDenial → String
denial_text auth_disabled = "auth-disabled"
denial_text session_invalid = "session-invalid"
denial_text session_unavailable = "session-unavailable"
denial_text csrf_invalid = "csrf-invalid"

module _ (node : Node) (csrf_key : Chars) {S : Type 0} (ports : Ports S) where
  abbrev pub answer_touched : OpaqueSession → Option Bool → SessionOutcome
  answer_touched session none = denied session_unavailable
  answer_touched session (some false) = denied session_invalid
  answer_touched session (some true) =
      authenticated session.actor_id session.authorization_tier session.last_oauth_completed_at

  -- What follows the look at the session.
  unfoldable pub touch_found :
      String → (now : ℕ) → Option (Option OpaqueSession) → Effect S SessionOutcome
  unfolding is_active_session
  touch_found id now none = pure (denied session_unavailable)
  touch_found id now (some none) = pure (denied session_invalid)
  touch_found id now (some (some session)) =
      if not (is_active_session session now) then pure (denied session_invalid) else do
        touched ← caught (ports.touch_session id now (now + 86400000))
        pure (answer_touched session touched)

  unfoldable pub authenticate_found : Chars → (now : ℕ) → Bool → Effect S SessionOutcome
  unfolding touch_found
  authenticate_found raw_session_id now false = pure (denied csrf_invalid)
  authenticate_found raw_session_id now true = do
    found ← caught (ports.find_session (node.hash_opaque_session_id raw_session_id))
    touch_found (node.hash_opaque_session_id raw_session_id) now found

  unfoldable pub authenticate_credential :
      SessionRequestKind
      → Headers
      → EnabledAuthConfiguration
      → (now : ℕ) → SessionCredential
      → Effect S SessionOutcome
  unfolding authenticate_found has_valid_mutation_boundary
  authenticate_credential kind headers configuration now (present raw_session_id) = do
    fine ← lift (boundary_ok node csrf_key kind headers configuration raw_session_id)
    authenticate_found raw_session_id now fine
  authenticate_credential kind headers configuration now missing = pure (denied session_invalid)
  authenticate_credential kind headers configuration now invalid = pure (denied session_invalid)

  unfoldable pub authenticate_session_request :
      SessionRequestKind → Headers → AuthConfiguration → (now : ℕ) → Effect S SessionOutcome
  unfolding authenticate_credential read_session_credential
  authenticate_session_request kind headers disabled now = pure (denied auth_disabled)
  authenticate_session_request kind headers (enabled configuration) now =
      authenticate_credential kind headers configuration now
        (read_session_credential headers.cookie)

  abbrev expired : Chars → Chars → Chars
  expired name attributes = name ++ (b'=' ∷ (attributes ++ codes "; Max-Age=0"))

  abbrev pub logged_out : AuthServiceResponse
  logged_out = record {
    status_code = 204;
    location = none;
    set_cookie = some (
        expired session_cookie_name session_cookie_attributes
        ∷ expired csrf_cookie_name csrf_cookie_attributes
        ∷ []);
    body = empty;
  }

  abbrev pub answer_revoked : Option Bool → AuthServiceResponse
  answer_revoked none = plain 503 (Body.denied "session-unavailable")
  answer_revoked (some false) = plain 403 (Body.denied "session-invalid")
  answer_revoked (some true) = logged_out

  -- The revocation of an authenticated session.
  unfoldable pub revoke_credential : (now : ℕ) → SessionCredential → Effect S AuthServiceResponse
  revoke_credential now (present raw_session_id) = do
    revoked ← caught (ports.revoke_session (node.hash_opaque_session_id raw_session_id) now)
    pure (answer_revoked revoked)
  revoke_credential now missing = pure (plain 403 (Body.denied "session-invalid"))
  revoke_credential now invalid = pure (plain 403 (Body.denied "session-invalid"))

  abbrev logout_status : SessionDenial → ℕ
  logout_status session_unavailable = 503
  logout_status _ = 403

  unfoldable pub revoke_authenticated :
      Headers → (now : ℕ) → SessionOutcome → Effect S AuthServiceResponse
  unfolding revoke_credential read_session_credential
  revoke_authenticated headers now (authenticated actor tier last) =
      revoke_credential now (read_session_credential headers.cookie)
  revoke_authenticated headers now (denied reason) =
      pure (plain (logout_status reason) (Body.denied (denial_text reason)))

  unfoldable pub handle_session_logout :
      (method : Chars) → Headers → AuthConfiguration → (now : ℕ) → Effect S AuthServiceResponse
  unfolding revoke_authenticated authenticate_session_request
  handle_session_logout method headers disabled now = pure (plain 404 (Body.denied "auth-disabled"))
  handle_session_logout method headers (enabled configuration) now =
      if not (same method (codes "POST"))
      then pure (plain 405 (Body.denied "method-invalid"))
      else do
        outcome ← authenticate_session_request mutation headers (enabled configuration) now
        revoke_authenticated headers now outcome
