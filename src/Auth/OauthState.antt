-- ===== src/Auth/OauthState.antt =====
-- The state of a login: `createOAuthState` and `consumeOAuthState` of src/auth/authorization.ts. The
-- hash of src/persistence/session-store.ts is node's SHA-256: a parameter; the random state is an
-- argument.
use waw_discord_bot.Prelude.{
  ℕ, ◌+◌, ◌<◌, ◌≤◌, ◌≡◌, ◌↔◌, not, ◌||◌, Option, none, some, String, str_eq, is_some, leb,
  if◌then◌else◌, arith, eq_iff, refl,
}

pub record OauthStateRecord : Type 0 where
  pub state_hash : String
  pub expires_at : ℕ
  pub used_at : Option ℕ

module _ (hash_opaque_session_id : String → String) where
  unfoldable pub create_oauth_state : (raw_state : String) (now : ℕ) → OauthStateRecord
  create_oauth_state raw_state now = record {
    state_hash = hash_opaque_session_id raw_state;
    expires_at = now + 600000;
    used_at = none;
  }

  unfoldable pub consume_oauth_state :
      OauthStateRecord → (raw_state : String) (now : ℕ) → Option OauthStateRecord
  consume_oauth_state r raw_state now =
      if is_some r.used_at
        || leb r.expires_at now
        || not (str_eq r.state_hash (hash_opaque_session_id raw_state))
      then none
      else some (record r { used_at = some now })

  -- A record is consumed exactly when it was never used, has not expired and is of the state, and
  -- then it is the record, used now.
  consume_oauth_state-some_iff :
      (r : OauthStateRecord) (raw_state : String) (now : ℕ) (r' : OauthStateRecord)
      → (consume_oauth_state r raw_state now ≡ some r') ↔ (
          (r.used_at ≡ none)
          × (now < r.expires_at)
          × (r.state_hash ≡ hash_opaque_session_id raw_state)
          × (r' ≡ record r { used_at = some now }))
  unfolding consume_oauth_state
  consume_oauth_state-some_iff r raw_state now r' =
      ground (arith, eq_iff r.state_hash (hash_opaque_session_id raw_state))

  -- A state that was created can be consumed with its raw value within ten minutes, once: whatever
  -- value and instant come then, the consumed record is refused.
  pub consume-create_oauth_state :
      (raw_state : String) (created now : ℕ)
      → created ≤ now
      → now < created + 600000
      → (r : OauthStateRecord) × (consume_oauth_state
            (create_oauth_state raw_state created)
            raw_state
            now
          ≡ some r)
        × ((other : String) (later : ℕ) → consume_oauth_state r other later ≡ none)
  unfolding consume_oauth_state create_oauth_state
  consume-create_oauth_state raw_state created now h g = (
    record (create_oauth_state raw_state created) { used_at = some now },
    (consume_oauth_state-some_iff (create_oauth_state raw_state created) raw_state now
          (record (create_oauth_state raw_state created) { used_at = some now })).1
        (refl, g, refl, refl),
    λ other later. refl,
  )
