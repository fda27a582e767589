-- ===== src/Auth/Session.antt =====
-- The sessions of src/persistence/session-store.ts. The map of `InMemorySessionStore` is an
-- association list in which the newest pair of a key counts.
use waw_discord_bot.Prelude.{
  refl, ℕ, ◌≡◌, Bool, false, ◌&&◌, Option, none, some, String, str_eq, is_none, ltb, if◌then◌else◌,
  arith, eq_iff, eq_refl, List, [], ◌∷◌, ◌≢◌,
}

-- src/contracts/local-command.ts
pub data AuthorizationTier : Type 0 where
  operator administrator : AuthorizationTier

pub record OpaqueSession : Type 0 where
  pub session_id_hash : String
  pub actor_id : String
  pub authorization_tier : AuthorizationTier
  pub created_at : ℕ
  pub last_seen_at : ℕ
  pub idle_expires_at : ℕ
  pub absolute_expires_at : ℕ
  pub last_oauth_completed_at : ℕ
  pub revoked_at : Option ℕ

unfoldable pub is_active_session : OpaqueSession → ℕ → Bool
is_active_session s now =
    is_none s.revoked_at && ltb now s.idle_expires_at && ltb now s.absolute_expires_at

abbrev pub Sessions : Type 0
Sessions = List (String × OpaqueSession)

unfoldable pub find_session : String → Sessions → Option OpaqueSession
find_session id [] = none
find_session id ((key, s) ∷ rest) = if str_eq key id then some s else find_session id rest

unfoldable pub save : OpaqueSession → Sessions → Sessions
save s store = (s.session_id_hash, s) ∷ store

unfoldable pub revoke : String → ℕ → Sessions → Sessions
revoke id revoked_at store = elim (find_session id store) [
  | none ↦ store
  | some s ↦ (id, record s { revoked_at = some revoked_at }) ∷ store
]

-- A session that is revoked is found with the instant of the revocation and is active at no
-- instant, and another session is found as before.
pub find_session-revoke :
    (id : String) (revoked_at : ℕ) (store : Sessions) (s : OpaqueSession)
    → find_session id store ≡ some s
    → (find_session id (revoke id revoked_at store)
        ≡ some (record s { revoked_at = some revoked_at }))
      × ((now : ℕ) → is_active_session (record s { revoked_at = some revoked_at }) now ≡ false)
      × ((other : String)
          → other ≢ id
          → find_session other (revoke id revoked_at store) ≡ find_session other store)
unfolding revoke is_active_session find_session
find_session-revoke id revoked_at store s found =
    (ground (arith, eq_refl id), λ now. refl, λ other apart. ground (arith, eq_iff id other))
