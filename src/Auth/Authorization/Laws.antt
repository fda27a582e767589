-- ===== src/Auth/Authorization/Laws.antt =====
-- Which requests are allowed.
use waw_discord_bot.Prelude.{ℕ, ◌+◌, ◌≤◌, ◌≡◌, ◌↔◌, true, Option, none, some, ◌-ℤ◌, arith}
use waw_discord_bot.Auth.Authorization.{
  RequestKind, read, mutation, high_risk, authorized, unavailable, AuthorizationInput, RoleSource,
  current_role, role_cache, allowed, is_within, has_valid_read_only_cache, has_recent_oauth,
  authorize_read, authorize_high_risk, authorize_change, authorize_with_role, authorize,
}

-- An instant that is not in the future and not further back than the limit.
abbrev pub IsWithin : Option ℕ → ℕ → ℕ → Type 0
IsWithin none now limit = ⊥
IsWithin (some at) now limit = (at ≤ now) × (now ≤ at + limit)

is_within_iff :
    (at : Option ℕ) (now limit : ℕ) → (is_within at now limit ≡ true) ↔ IsWithin at now limit
unfolding ◌-ℤ◌
is_within_iff none now limit = ground arith
is_within_iff (some at) now limit = ground arith

-- What the policy asks of a request, by its kind, and the source that then answers for the role.
abbrev pub IsAllowed : RequestKind → AuthorizationInput → RoleSource → Type 0
IsAllowed read i current_role = i.current_role ≡ authorized
IsAllowed read i role_cache =
    (i.current_role ≡ unavailable) × IsWithin i.cached_role_verified_at i.now 300000
IsAllowed mutation i current_role = (i.current_role ≡ authorized) × (i.csrf_valid ≡ true)
IsAllowed high_risk i current_role =
    (i.current_role ≡ authorized)
    × (i.csrf_valid ≡ true)
    × IsWithin i.last_oauth_completed_at i.now 900000
    × (i.explicit_confirmation ≡ true)
IsAllowed mutation i role_cache = ⊥
IsAllowed high_risk i role_cache = ⊥

-- A request is allowed, by the role read now or by the cached one, exactly as the policy says: a
-- read by the current role, or by a role verified in the last five minutes if the current one cannot
-- be read; a mutation by the current role and a valid CSRF token only; a high-risk request only if
-- also the login is at most fifteen minutes old and the request was confirmed.
pub authorize-allowed_iff :
    (i : AuthorizationInput) (source : RoleSource)
    → (authorize i ≡ allowed source) ↔ IsAllowed i.kind i source
unfolding authorize authorize_read authorize_high_risk authorize_change authorize_with_role
    has_valid_read_only_cache has_recent_oauth
authorize-allowed_iff i source = ground (
  arith,
  is_within_iff i.cached_role_verified_at i.now 300000,
  is_within_iff i.last_oauth_completed_at i.now 900000,
)
