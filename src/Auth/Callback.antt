-- ===== src/Auth/Callback.antt =====
-- The end of a login: `completeOAuthCallback` of src/auth/oauth-callback.ts. The session's random
-- identifier is an argument.
pub mod Laws
use waw_discord_bot.Prelude.{
  ℕ, ◌+◌, Bool, true, false, not, ◌&&◌, ◌||◌, Option, none, some, String, str_eq, List, [], ◌∷◌,
  length, all, any, ltb, leb, if◌then◌else◌,
}
use waw_discord_bot.Prelude.Effects.{Effect, pure, caught, lift, ◌>>=◌}
use waw_discord_bot.Kbo.Identifiers.{codes, is_digit}
use waw_discord_bot.Ipc.Services
use waw_discord_bot.Ipc.Services.{CurrentAuthorizationResult}
use waw_discord_bot.Auth.Session.{AuthorizationTier, operator, administrator, OpaqueSession}
use waw_discord_bot.Auth.Cookies.{Chars, same}
use waw_discord_bot.Auth.Ports
use waw_discord_bot.Auth.Ports.{
  EnabledAuthConfiguration, Node, Ports, CallbackPersistenceInput, CallbackPersistenceResult,
  completed, CurrentMemberResult, member,
}
use waw_discord_bot.Auth.Csrf.{stage_credential, is_text}

pub data CallbackDenial : Type 0 where
  state_invalid identity_invalid unauthorized provider_unavailable session_fixation : CallbackDenial

pub data OauthCallbackOutcome : Type 0 where
  succeeded : AuthorizationTier → OauthCallbackOutcome
  denied : CallbackDenial → OauthCallbackOutcome

pub record CallbackCommand : Type 0 where
  pub code : Chars
  pub raw_state : Chars
  pub previous_raw_session_id : Option Chars

-- `/^[0-9]{1,20}$/`
unfoldable pub is_discord_snowflake : String → Bool
unfolding is_digit
is_discord_snowflake id =
    all is_digit (codes id) && leb 1 (length (codes id)) && leb (length (codes id)) 20

abbrev contains : List String → String → Bool
contains ids id = any (λ other. str_eq other id) ids

unfoldable pub resolve_authorization_tier :
    (actor_id guild_owner_id : String)
    (role_ids operator_role_ids administrator_role_ids : List String)
    → Option AuthorizationTier
resolve_authorization_tier actor owner roles operators administrators =
    if str_eq actor owner || any (contains administrators) roles
    then some administrator
    else if any (contains operators) roles
    then some operator
    else none

-- What the readers of roles say of an actor: the tier, or the reason of a denial.
pub data TierReading : Type 0 where
  tier : AuthorizationTier → TierReading
  no_tier : CallbackDenial → TierReading

abbrev pub tier_or_unauthorized : Option AuthorizationTier → TierReading
tier_or_unauthorized none = no_tier unauthorized
tier_or_unauthorized (some t) = tier t

abbrev pub reading_of_authorization : CurrentAuthorizationResult → TierReading
reading_of_authorization (Services.authorized t) = tier t
reading_of_authorization Services.unauthorized = no_tier unauthorized
reading_of_authorization Services.unavailable = no_tier provider_unavailable

module _ (node : Node) (csrf_key : Chars) (configuration : EnabledAuthConfiguration) where
  open configuration use {allowed_guild_id, operator_role_ids, administrator_role_ids}

  -- `authorizationTierFromMember`
  unfoldable pub authorization_tier_from_member :
      CurrentMemberResult → (actor_id : String) → Option AuthorizationTier
  unfolding resolve_authorization_tier
  authorization_tier_from_member (member guild owner roles) actor =
      if not (str_eq guild allowed_guild_id)
      then none
      else resolve_authorization_tier actor owner roles operator_role_ids administrator_role_ids
  authorization_tier_from_member Ports.unauthorized actor = none
  authorization_tier_from_member Ports.unavailable actor = none

  abbrev pub reading_of_member : String → CurrentMemberResult → TierReading
  unfolding authorization_tier_from_member
  reading_of_member actor Ports.unavailable = no_tier provider_unavailable
  reading_of_member actor m = tier_or_unauthorized (authorization_tier_from_member m actor)

  abbrev pub opened :
      (raw_session_id : Chars) (actor_id : String) → AuthorizationTier → (now : ℕ) → OpaqueSession
  opened raw_session_id actor t now = record {
    session_id_hash = node.hash_opaque_session_id raw_session_id;
    actor_id = actor;
    authorization_tier = t;
    created_at = now;
    last_seen_at = now;
    idle_expires_at = now + 86400000;
    absolute_expires_at = now + 604800000;
    last_oauth_completed_at = now;
    revoked_at = none;
  }

  abbrev pub hash_option : Option Chars → Option String
  hash_option none = none
  hash_option (some raw) = some (node.hash_opaque_session_id raw)

  abbrev pub completion :
      CallbackCommand
      → (raw_session_id : Chars) (actor_id : String) → AuthorizationTier
      → (now : ℕ) → CallbackPersistenceInput
  completion command raw_session_id actor t now = record {
    state_hash = node.hash_opaque_session_id command.raw_state;
    completed_at = now;
    previous_session_id_hash = hash_option command.previous_raw_session_id;
    session = opened raw_session_id actor t now;
    role_cache = record { actor_id = actor; authorization_tier = t; verified_at = now };
  }

  module _ {S : Type 0} (ports : Ports S) where
    unfoldable pub read_tier : (actor_id : String) → Effect S TierReading
    unfolding authorization_tier_from_member
    read_tier actor = elim ports.read_current_authorization [
      | some reader ↦ do
        authorization ← reader actor allowed_guild_id
        pure (reading_of_authorization authorization)
      | none ↦ elim ports.read_current_member [
        | some reader ↦ do m ← reader actor allowed_guild_id; pure (reading_of_member actor m)
        | none ↦ pure (no_tier provider_unavailable)
      ]
    ]

    -- The cookies are published only when the store has completed the callback.
    abbrev pub answer_completed :
        AuthorizationTier
        → (cookies : List Chars) → CallbackPersistenceResult
        → OauthCallbackOutcome × List Chars
    answer_completed t cookies completed = (succeeded t, cookies)
    answer_completed t cookies Ports.state_invalid = (denied state_invalid, [])

    -- What follows the reading of the tier.
    unfoldable pub open_session :
        CallbackCommand
        → (raw_session_id : Chars) (now : ℕ) (actor_id : String) → AuthorizationTier
        → Effect S (OauthCallbackOutcome × List Chars)
    unfolding stage_credential same
    open_session command raw_session_id now actor t =
        if ltb (length raw_session_id) 32 || is_text command.previous_raw_session_id raw_session_id
        then pure (denied session_fixation, [])
        else do
          cookies ← lift (stage_credential node csrf_key raw_session_id)
          result ← ports.complete_oauth_callback (completion command raw_session_id actor t now)
          pure (answer_completed t cookies result)

    unfoldable pub answer_tier :
        CallbackCommand
        → (raw_session_id : Chars) (now : ℕ) (actor_id : String) → Option TierReading
        → Effect S (OauthCallbackOutcome × List Chars)
    unfolding open_session
    answer_tier command raw_session_id now actor none = pure (denied provider_unavailable, [])
    answer_tier command raw_session_id now actor (some (no_tier reason)) = pure (denied reason, [])
    answer_tier command raw_session_id now actor (some (tier t)) =
        open_session command raw_session_id now actor t

    unfoldable pub answer_identity :
        CallbackCommand
        → (raw_session_id : Chars) (now : ℕ) → Option String
        → Effect S (OauthCallbackOutcome × List Chars)
    unfolding answer_tier read_tier is_discord_snowflake
    answer_identity command raw_session_id now none = pure (denied provider_unavailable, [])
    answer_identity command raw_session_id now (some actor) =
        if not (is_discord_snowflake actor) then pure (denied identity_invalid, []) else do
          reading ← caught (read_tier actor)
          answer_tier command raw_session_id now actor reading

    abbrev pub read_identity : (code : Chars) → Effect S String
    read_identity code = do token ← ports.exchange_code code; ports.fetch_identity token

    -- The outcome, with the cookies that were published.
    unfoldable pub complete_oauth_callback :
        CallbackCommand
        → (raw_session_id : Chars) (now : ℕ) → Effect S (OauthCallbackOutcome × List Chars)
    unfolding answer_identity
    complete_oauth_callback command raw_session_id now = do
      usable ← ports.is_oauth_state_usable (node.hash_opaque_session_id command.raw_state) now
      elim usable [
        | false ↦ pure (denied state_invalid, [])
        | true ↦ do
          identity ← caught (read_identity command.code)
          answer_identity command raw_session_id now identity
      ]
