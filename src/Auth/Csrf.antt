-- ===== src/Auth/Csrf.antt =====
-- The credential that a response sets and the token that goes with it: `createSessionCookieBoundary`
-- and the tests of `hasValidMutationBoundary` in src/http/session-boundary.ts. `none` is an exception.
pub mod Sent
use waw_discord_bot.Prelude.{
  Bool, true, false, not, ◌||◌, Option, none, some, List, [], ◌∷◌, ◌++◌, length, ltb, ◌==◌,
  if◌then◌else◌, ◌>>=◌,
}
use waw_discord_bot.Kbo.Identifiers.{codes}
use waw_discord_bot.Auth.Cookies.{
  Chars, same, get, parse_cookies, only, is_valid_credential, is_valid_csrf_token,
  session_cookie_name, csrf_cookie_name,
}
use waw_discord_bot.Auth.Ports.{EnabledAuthConfiguration, Headers, Node, timing_safe_equal}

pub data SessionRequestKind : Type 0 where
  read mutation : SessionRequestKind

abbrev pub session_cookie_attributes : Chars
session_cookie_attributes = codes "; Path=/; Secure; HttpOnly; SameSite=Lax"

abbrev pub csrf_cookie_attributes : Chars
csrf_cookie_attributes = codes "; Path=/; Secure; SameSite=Strict"

abbrev pub is_text : Option Chars → Chars → Bool
is_text none text = false
is_text (some t) text = same t text

module _ (node : Node) (csrf_key : Chars) where
  -- `createSessionCookieBoundary` throws for a short key.
  unfoldable pub create_boundary : Option (Unit {0})
  create_boundary = if ltb (length csrf_key) 32 then none else some tt

  -- `stageCredential`: the cookies that `release` publishes. A boundary stages once.
  unfoldable pub stage_credential : Chars → Option (List Chars)
  unfolding is_valid_credential
  stage_credential raw_session_id =
      if is_valid_credential raw_session_id
      then some (
          (session_cookie_name ++ (b'=' ∷ (raw_session_id ++ session_cookie_attributes)))
          ∷ (csrf_cookie_name
              ++ (b'=' ∷ (node.csrf_token csrf_key raw_session_id ++ csrf_cookie_attributes)))
          ∷ [])
      else none

  unfoldable pub is_expected : (raw_session_id cookie_token : Chars) → Bool → Option Bool
  unfolding timing_safe_equal
  is_expected raw_session_id cookie_token false = some false
  is_expected raw_session_id cookie_token true =
      timing_safe_equal cookie_token (node.csrf_token csrf_key raw_session_id)

  -- `verify` of `createCsrfVerifier`
  unfoldable pub verify : (raw_session_id cookie_token header_token : Chars) → Option Bool
  unfolding is_valid_csrf_token timing_safe_equal is_expected
  verify raw_session_id cookie_token header_token =
      if not (is_valid_csrf_token cookie_token)
        || not (is_valid_csrf_token header_token)
        || not (length cookie_token == length header_token)
      then some false
      else do
        first ← timing_safe_equal cookie_token header_token
        is_expected raw_session_id cookie_token first

  unfoldable pub verify_tokens : Chars → Option Chars → Option Chars → Option Bool
  unfolding verify
  verify_tokens raw_session_id (some cookie_token) (some header_token) =
      verify raw_session_id cookie_token header_token
  verify_tokens raw_session_id _ _ = some false

  -- The only CSRF cookie.
  unfoldable pub csrf_cookie : Option Chars → Option Chars
  unfolding parse_cookies get
  csrf_cookie header = do
    parsed ← parse_cookies header
    values ← get csrf_cookie_name parsed
    only values

  unfoldable pub has_valid_mutation_boundary :
      Headers → EnabledAuthConfiguration → (raw_session_id : Chars) → Option Bool
  unfolding csrf_cookie verify_tokens same
  has_valid_mutation_boundary headers configuration raw_session_id =
      if is_text headers.origin configuration.allowed_origin
      then verify_tokens raw_session_id (csrf_cookie headers.cookie) headers.x_csrf_token
      else some false

  unfoldable pub boundary_ok :
      SessionRequestKind
      → Headers
      → EnabledAuthConfiguration
      → (raw_session_id : Chars) → Option Bool
  unfolding has_valid_mutation_boundary
  boundary_ok read headers configuration raw_session_id = some true
  boundary_ok mutation headers configuration raw_session_id =
      has_valid_mutation_boundary headers configuration raw_session_id
