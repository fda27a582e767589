-- ===== src/Auth/Tests.antt =====
-- Authorization, logins and sessions on concrete inputs.
use waw_discord_bot.Prelude.{ℕ, ◌≡◌, ◌↔◌, true, none, some, String, arith}
use waw_discord_bot.Auth.Authorization.{
  AuthorizationInput, high_risk, authorized, current_role, allowed, authorize,
}
use waw_discord_bot.Auth.Authorization.Laws.{IsAllowed, authorize-allowed_iff}
use waw_discord_bot.Auth.OauthState.{
  OauthStateRecord, create_oauth_state, consume_oauth_state, consume-create_oauth_state,
}

abbrev deletion : AuthorizationInput
deletion = record {
  kind = high_risk;
  current_role = authorized;
  cached_role_verified_at = none;
  now = 1000000;
  csrf_valid = true;
  last_oauth_completed_at = some 200000;
  explicit_confirmation = true;
}

authorize-allowed_iff_example :
    (authorize deletion ≡ allowed current_role) ↔ IsAllowed high_risk deletion current_role
authorize-allowed_iff_example = authorize-allowed_iff deletion current_role

abbrev hashed : String → String
hashed raw = raw

consume-create_oauth_state_example :
    (r : OauthStateRecord) × (consume_oauth_state hashed
        (create_oauth_state hashed "state" 5)
        "state"
        6
      ≡ some r)
    × ((other : String) (later : ℕ) → consume_oauth_state hashed r other later ≡ none)
consume-create_oauth_state_example =
    consume-create_oauth_state hashed "state" 5 6 (omega arith) (omega arith)
