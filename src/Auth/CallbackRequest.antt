-- ===== src/Auth/CallbackRequest.antt =====
-- The requests of a login: src/http/oauth-dto.ts. A rejected step is `none`.
use waw_discord_bot.Prelude.{
  ℕ, Bool, not, ◌&&◌, ◌||◌, Option, none, some, String, List, [], ◌∷◌, length, ltb, ◌==◌,
  if◌then◌else◌,
}
use waw_discord_bot.Prelude.Effects.{Effect, pure, caught, lift, ◌>>=◌}
use waw_discord_bot.Kbo.Identifiers.{codes}
use waw_discord_bot.Auth.Cookies.{
  Chars, same, is_valid_credential, SessionCredential, missing, invalid, present,
  read_session_credential,
}
use waw_discord_bot.Auth.Ports.{
  EnabledAuthConfiguration, Headers, Body, succeeded, AuthServiceResponse, plain, Url, Node, Ports,
}
use waw_discord_bot.Auth.Callback
use waw_discord_bot.Auth.Callback.{
  CallbackDenial, OauthCallbackOutcome, CallbackCommand, complete_oauth_callback,
}

pub record FrameworkNeutralRequest : Type 0 where
  pub method : Chars
  pub url : Chars
  pub headers : Headers

-- `searchParams.getAll(key)`
unfoldable pub get_all : Chars → List (Chars × Chars) → List Chars
unfolding same
get_all key [] = []
get_all key ((k, value) ∷ rest) = if same k key then value ∷ get_all key rest else get_all key rest

abbrev single : List Chars → Option Chars
single (value ∷ []) = some value
single _ = none

-- Exactly the keys `code` and `state`, once each.
unfoldable pub code_and_state : Url → Option (Chars × Chars)
unfolding get_all
code_and_state url =
    if not (length url.search_params == 2)
    then none
    else (elim (single (get_all (codes "code") url.search_params)) [
      | none ↦ none
      | some code ↦ elim (single (get_all (codes "state") url.search_params)) [
        | none ↦ none
        | some state ↦ some (code, state)
      ]
    ])

abbrev is_redirect_target : Url → Url → Bool
is_redirect_target requested expected =
    same requested.origin expected.origin
    && same requested.pathname expected.pathname
    && length requested.hash == 0
    && length requested.username == 0
    && length requested.password == 0

abbrev command_of : Chars × Chars → SessionCredential → Option CallbackCommand
command_of (code, raw_state) invalid = none
command_of (code, raw_state) missing =
    some record { code = code; raw_state = raw_state; previous_raw_session_id = none }
command_of (code, raw_state) (present previous) =
    some record { code = code; raw_state = raw_state; previous_raw_session_id = some previous }

abbrev valid_command : Option (Chars × Chars) → SessionCredential → Option CallbackCommand
unfolding is_valid_credential
valid_command none previous = none
valid_command (some (code, raw_state)) previous =
    if length code == 0 || ltb 2048 (length code) || not (is_valid_credential raw_state)
    then none
    else command_of (code, raw_state) previous

abbrev command_from : Url → Url → SessionCredential → Option CallbackCommand
unfolding same code_and_state is_valid_credential
command_from expected requested previous =
    if is_redirect_target requested expected
    then valid_command (code_and_state requested) previous
    else none

abbrev command_at : Option Url → Option Url → SessionCredential → Option (Option CallbackCommand)
unfolding same code_and_state is_valid_credential
command_at none expected previous = some none
command_at (some requested) none previous = none
command_at (some requested) (some expected) previous =
    some (command_from expected requested previous)

module _ (node : Node) (csrf_key : Chars) (configuration : EnabledAuthConfiguration) where
  -- The outer `none` is the exception of a redirect that is no URL, the inner one `undefined`.
  unfoldable pub parse_callback_command : FrameworkNeutralRequest → Option (Option CallbackCommand)
  unfolding same code_and_state is_valid_credential read_session_credential
  parse_callback_command request =
      if not (same request.method (codes "GET"))
      then some none
      else command_at (node.parse_url request.url) (node.parse_url configuration.redirect_uri)
          (read_session_credential request.headers.cookie)

  abbrev denial_text : CallbackDenial → String
  denial_text Callback.state_invalid = "state-invalid"
  denial_text Callback.identity_invalid = "identity-invalid"
  denial_text Callback.unauthorized = "unauthorized"
  denial_text Callback.provider_unavailable = "provider-unavailable"
  denial_text Callback.session_fixation = "session-fixation"

  abbrev denial_status : CallbackDenial → ℕ
  denial_status Callback.provider_unavailable = 503
  denial_status _ = 403

  -- The response, with the cookies that were published.
  abbrev pub callback_response :
      Option (OauthCallbackOutcome × List Chars) → AuthServiceResponse × List Chars
  callback_response none = (plain 503 (Body.denied "callback-unavailable"), [])
  callback_response (some (Callback.succeeded t, cookies)) = (
    record { status_code = 303; location = some (codes "/"); set_cookie = none; body = succeeded },
    cookies,
  )
  callback_response (some (Callback.denied reason, cookies)) =
      (plain (denial_status reason) (Body.denied (denial_text reason)), cookies)

  module _ {S : Type 0} (ports : Ports S) where
    unfoldable pub handle_command :
        (raw_session_id : Chars) (now : ℕ)
        → Option CallbackCommand
        → Effect S (AuthServiceResponse × List Chars)
    unfolding complete_oauth_callback
    handle_command raw_session_id now none = pure (plain 400 (Body.denied "callback-invalid"), [])
    handle_command raw_session_id now (some command) = do
      outcome ←
          caught
            (complete_oauth_callback node csrf_key configuration ports command raw_session_id now)
      pure (callback_response outcome)

    unfoldable pub handle_oauth_callback_request :
        FrameworkNeutralRequest
        → (raw_session_id : Chars) (now : ℕ) → Effect S (AuthServiceResponse × List Chars)
    unfolding parse_callback_command handle_command
    handle_oauth_callback_request request raw_session_id now = do
      command ← lift (parse_callback_command request)
      handle_command raw_session_id now command
