-- ===== src/Auth/Service/Tests.antt =====
-- The login service over the sessions of src/persistence/session-store.ts, on concrete inputs.
use waw_discord_bot.Prelude.{
  List, ℕ, ◌≡◌, ◌↔◌, ◌∙◌, ◌⊎◌, refl, true, false, none, some, is_some, String, [], ◌∷◌, ◌++◌, arith,
  Option-cases, inl, inr, ap, sym, subst, if◌then◌else◌,
}
use waw_discord_bot.Prelude.Effects.{pure}
use waw_discord_bot.Kbo.Identifiers.{codes}
use waw_discord_bot.Ipc.Services
use waw_discord_bot.Auth.Authorization.{authorize_read, read, current_role}
use waw_discord_bot.Auth.Session
use waw_discord_bot.Auth.Session.{
  AuthorizationTier, administrator, operator, OpaqueSession, Sessions, save, revoke,
  find_session-revoke,
}
use waw_discord_bot.Auth.Cookies.{Chars, same, read_session_credential}
use waw_discord_bot.Auth.Cookies.Laws.{named}
use waw_discord_bot.Auth.Cookies.Described.{Says, IsCredential, read_session_credential_iff}
use waw_discord_bot.Auth.Cookies.{present, missing, session_cookie_name}
use waw_discord_bot.Auth.Ports.{
  enabled, EnabledAuthConfiguration, Headers, Body, AuthServiceResponse, succeeded, Url, Node,
  Ports, completed,
}
use waw_discord_bot.Auth.Csrf
use waw_discord_bot.Auth.Csrf.{stage_credential}
use waw_discord_bot.Auth.Boundary.{
  authenticated, authenticate_session_request, logged_out, handle_session_logout,
}
use waw_discord_bot.Auth.Boundary.Kept.{kept_headers, authenticate-staged}
use waw_discord_bot.Auth.Csrf.{stage_credential}
use waw_discord_bot.Auth.Session.{is_active_session}
use waw_discord_bot.Auth.Cookies.{is_valid_csrf_token}
use waw_discord_bot.Auth.Boundary.Logout.{IsRevoked, authenticate-logout}
use waw_discord_bot.Auth.CallbackRequest.{FrameworkNeutralRequest}
use waw_discord_bot.Auth.Service.{callback, expired_oauth_state_cookie}
use waw_discord_bot.Auth.Service.Access.{AccessRequest, authorize_request}
use waw_discord_bot.Auth.Service.Access.Laws.{MayAccess, authorize_request-MayAccess}
use waw_discord_bot.Auth.Service.Published.{SetsNothing, IsLogin, callback-IsLogin}

abbrev secret : Chars
secret = codes "abcdefghijklmnopqrstuvwxyzABCDEF"

abbrev other_secret : Chars
other_secret = codes "ABCDEFGHIJKLMNOPQRSTUVWXYZ012345"

abbrev token : Chars
token = codes "abcdefghijklmnopqrstuvwxyzABCDEFGHIJKLMNOPQ"

abbrev session_header : Chars
session_header = codes "__Host-waw_session=" ++ secret

abbrev address : Url
address = record {
  origin = codes "https://bot";
  pathname = codes "/auth/callback";
  hash = [];
  username = [];
  password = [];
  search_params = (codes "code", codes "grant") ∷ (codes "state", other_secret) ∷ [];
}

abbrev hash_secret : Chars → String
unfolding same
hash_secret raw = if same raw secret then "a" else "b"

abbrev node : Node
unfolding hash_secret
node = record {
  hash_opaque_session_id = hash_secret;
  csrf_token = λ key raw. token;
  parse_url = λ text. some address;
}

abbrev ports : Ports Sessions
unfolding Session.find_session save revoke
ports = record {
  exchange_code = λ code. pure code;
  fetch_identity = λ access. pure "123456789012345678";
  create_authorization_url = λ raw. raw;
  read_current_member = none;
  read_current_authorization = some (λ actor guild. pure (Services.authorized administrator));
  create_oauth_state = λ state at. pure tt;
  is_oauth_state_usable = λ state at. pure true;
  complete_oauth_callback = λ input s. (some completed, save input.session s);
  find_session = λ id s. (some (Session.find_session id s), s);
  touch_session = λ id at expires. pure true;
  revoke_session = λ id at s. (some (is_some (Session.find_session id s)), revoke id at s);
  rotate_session = λ id next at s. (some tt, save next (revoke id at s));
  upsert_role_cache = λ role. pure tt;
  find_fresh_role_cache = λ actor at. pure none;
}

abbrev settings : EnabledAuthConfiguration
settings = record {
  redirect_uri = codes "https://bot/auth/callback";
  allowed_origin = codes "https://bot";
  allowed_guild_id = "1";
  operator_role_ids = [];
  administrator_role_ids = [];
}

abbrev session : OpaqueSession
session = record {
  session_id_hash = "a";
  actor_id = "123456789012345678";
  authorization_tier = administrator;
  created_at = 0;
  last_seen_at = 0;
  idle_expires_at = 86400000;
  absolute_expires_at = 604800000;
  last_oauth_completed_at = 0;
  revoked_at = none;
}

abbrev sessions : Sessions
sessions = ("a", session) ∷ []

read_session_credential_iff_example :
    ((read_session_credential (some session_header) ≡ present secret) ↔ (
      (pairs : List (Chars × Chars)) × Says pairs session_header
      × (named session_cookie_name pairs ≡ secret ∷ [])
      × IsCredential secret))
    × ((read_session_credential (some session_header) ≡ missing) ↔ (
        (pairs : List (Chars × Chars)) × Says pairs session_header
        × (named session_cookie_name pairs ≡ [])))
read_session_credential_iff_example = read_session_credential_iff session_header secret

abbrev headers : Headers
headers = record { cookie = some session_header; origin = none; x_csrf_token = none }

abbrev request : AccessRequest
request = record { kind = read; headers = headers; explicit_confirmation = false }

granted :
    authorize_request node token ports true
      (enabled settings)
      request
      1000
      1001
      other_secret
      sessions
    ≡ (
      some record {
        status_code = 200;
        location = none;
        set_cookie = none;
        body = Body.authorized "123456789012345678" administrator current_role;
      },
      sessions,
    )
unfolding authorize_request authorize_read Csrf.boundary_ok node ports
granted = refl

authorize_request-MayAccess_example :
    MayAccess node token ports true request 1001
      (enabled settings)
      1000
      sessions
      "123456789012345678"
      administrator
      current_role
authorize_request-MayAccess_example =
    authorize_request-MayAccess node token ports true request 1001 (enabled settings) 1000
      other_secret sessions "123456789012345678" administrator current_role granted refl

abbrev callback_request : FrameworkNeutralRequest
callback_request = record {
  method = codes "GET";
  url = codes "https://bot/auth/callback?code=grant&state=ABCDEFGHIJKLMNOPQRSTUVWXYZ012345";
  headers = record {
    cookie = some (codes "__Host-waw_oauth_state=" ++ other_secret);
    origin = none;
    x_csrf_token = none;
  };
}

abbrev opened : OpaqueSession
opened = record session {
  created_at = 5;
  last_seen_at = 5;
  idle_expires_at = 86400005;
  absolute_expires_at = 604800005;
  last_oauth_completed_at = 5;
}

abbrev logged_in : AuthServiceResponse
logged_in = record {
  status_code = 303;
  location = some (codes "/");
  set_cookie = some (
      (codes "__Host-waw_session=" ++ secret ++ codes "; Path=/; Secure; HttpOnly; SameSite=Lax")
      ∷ (codes "__Host-waw_csrf=" ++ token ++ codes "; Path=/; Secure; SameSite=Strict")
      ∷ expired_oauth_state_cookie
      ∷ []);
  body = succeeded;
}

answered :
    callback node token ports true (enabled settings) callback_request secret 5 []
    ≡ (some logged_in, ("a", opened) ∷ [])
unfolding callback node ports
answered = refl

callback-IsLogin_example :
    SetsNothing node token ports true callback_request secret 5 logged_in
    ⊎ IsLogin node token ports true callback_request secret 5
        (enabled settings)
        []
        logged_in
        (("a", opened) ∷ [])
callback-IsLogin_example =
    callback-IsLogin node token ports true callback_request secret 5 (enabled settings) [] answered

abbrev logout_headers : Headers
logout_headers = record {
  cookie = some (session_header ++ codes "; __Host-waw_csrf=" ++ token);
  origin = some (codes "https://bot");
  x_csrf_token = some token;
}

abbrev after_logout : Sessions
after_logout = ("a", record session { revoked_at = some 7 }) ∷ sessions

logged_out_at_7 :
    handle_session_logout node token ports
      (codes "POST")
      logout_headers
      (enabled settings)
      7
      sessions
    ≡ (some (logged_out node token ports), after_logout)
unfolding handle_session_logout Csrf.boundary_ok node ports
logged_out_at_7 = refl

revoke-IsRevoked :
    (id : String) (at : ℕ) (s u : Sessions)
    → ports.revoke_session id at s ≡ (some true, u)
    → IsRevoked (ports.find_session id u).0
unfolding ports
revoke-IsRevoked id at s u h = elim (Option-cases (Session.find_session id s)) [
  | inl unknown ↦ absurd (ground arith)
  | inr (found, known) ↦
      let kept : revoke id at s ≡ u = ground arith in
      subst (λ o. IsRevoked (some o))
        (sym (find_session-revoke id at s found known).0 ∙ ap (Session.find_session id) kept) refl
]

same_credential :
    read_session_credential headers.cookie ≡ read_session_credential logout_headers.cookie
unfolding read_session_credential
same_credential = refl

authenticate-logout_example : ¬ (
    authenticate_session_request node token ports Csrf.read headers
      (enabled settings)
      8
      after_logout
    ≡ (some (authenticated "123456789012345678" administrator 0), after_logout))
authenticate-logout_example =
    authenticate-logout node token ports revoke-IsRevoked (codes "POST") logout_headers
      (enabled settings) 7 sessions logged_out_at_7 refl Csrf.read headers settings 8
      same_credential "123456789012345678" administrator 0 after_logout

abbrev staged : List Chars
staged =
    (codes "__Host-waw_session=" ++ secret ++ codes "; Path=/; Secure; HttpOnly; SameSite=Lax")
    ∷ (codes "__Host-waw_csrf=" ++ token ++ codes "; Path=/; Secure; SameSite=Strict")
    ∷ []

is_staged : stage_credential node token secret ≡ some staged
unfolding stage_credential node
is_staged = refl

tokens_valid : (other : Chars) → is_valid_csrf_token (node.csrf_token token other) ≡ true
unfolding is_valid_csrf_token node
tokens_valid other = refl

is_found :
    ports.find_session (node.hash_opaque_session_id secret) sessions
    ≡ (some (some session), sessions)
unfolding node ports
is_found = refl

is_active : is_active_session session 8 ≡ true
unfolding is_active_session
is_active = refl

is_touched :
    ports.touch_session (node.hash_opaque_session_id secret) 8 86400008 sessions
    ≡ (some true, sessions)
unfolding node ports
is_touched = refl

authenticate-staged_example :
    authenticate_session_request node token ports Csrf.mutation
      (kept_headers node token staged settings)
      (enabled settings)
      8
      sessions
    ≡ (some (authenticated "123456789012345678" administrator 0), sessions)
authenticate-staged_example =
    authenticate-staged node token tokens_valid ports secret staged settings Csrf.mutation 8 session
      sessions sessions sessions is_staged is_found is_active is_touched
