-- ===== src/Auth/Service/Access/Granted.antt =====
-- What grants a tier: the current role, or for a read a fresh one of the cache, under the policy.
use waw_discord_bot.Prelude.{ℕ, ◌≡◌, ◌≢◌, refl, ap, Bool, Option, none, some, String, arith}
use waw_discord_bot.Prelude.Effects.{continue}
use waw_discord_bot.Ipc.Services
use waw_discord_bot.Ipc.Services.{CurrentAuthorizationResult}
use waw_discord_bot.Auth.Authorization
use waw_discord_bot.Auth.Authorization.{
  RequestKind, read, mutation, high_risk, CurrentRoleResult, RoleSource, current_role, role_cache,
  AuthorizationInput, AuthorizationOutcome, allowed, denied, authorize,
}
use waw_discord_bot.Auth.Authorization.Laws.{IsWithin, IsAllowed, authorize-allowed_iff}
use waw_discord_bot.Auth.Session.{AuthorizationTier}
use waw_discord_bot.Auth.Cookies.{Chars}
use waw_discord_bot.Auth.Ports.{Body, AuthServiceResponse, Node, Ports, RoleCache}
use waw_discord_bot.Auth.Service.Access.Answered.{IsNamed, answer_outcome-body}
use waw_discord_bot.Auth.Service.Access.{Authenticated, AccessRequest, input_of, answer_role}
use waw_discord_bot.Auth.Service.Roles.{role, read_role, role_written, role_cached}

allowed-role :
    (kind : RequestKind) (i : AuthorizationInput)
    → IsAllowed kind i current_role
    → i.current_role ≡ Authorization.authorized
allowed-role read i h = h
allowed-role mutation i h = h.0
allowed-role high_risk i h = h.0

allowed-cache :
    (kind : RequestKind) (i : AuthorizationInput)
    → IsAllowed kind i role_cache
    → i.current_role ≡ Authorization.unavailable
allowed-cache read i h = h.0
allowed-cache mutation i h = absurd h
allowed-cache high_risk i h = absurd h

allowed-IsWithin :
    (kind : RequestKind) (i : AuthorizationInput)
    → IsAllowed kind i role_cache
    → IsWithin i.cached_role_verified_at i.now 300000
allowed-IsWithin read i h = h.1
allowed-IsWithin mutation i h = absurd h
allowed-IsWithin high_risk i h = absurd h

module _ (node : Node) (csrf_key : Chars) {S : Type 0} (ports : Ports S) (provided : Bool)
    (request : AccessRequest) (session : Authenticated) (checked_at : ℕ) where
  -- The input of the policy for this request.
  abbrev pub policy_input : CurrentRoleResult → Option ℕ → AuthorizationInput
  policy_input current cached =
      input_of node csrf_key ports provided request session checked_at current cached

  -- What grants a tier from a source, in the state after the current role was read: the role that
  -- was read now, or a fresh one of the cache where none could be read; and the policy allows it.
  abbrev pub Grants : S → CurrentAuthorizationResult → AuthorizationTier → RoleSource → Type 0
  Grants s current tier current_role =
      (current ≡ Services.authorized tier)
      × IsAllowed request.kind (policy_input Authorization.authorized none) current_role
  Grants s current tier role_cache =
      (current ≡ Services.unavailable)
      × (cached : RoleCache) × ((ports.find_fresh_role_cache session.actor_id checked_at s).0
          ≡ some (some cached))
      × (cached.authorization_tier ≡ tier)
      × IsAllowed request.kind (policy_input Authorization.unavailable (some cached.verified_at))
          role_cache

  abbrev Granted : S → CurrentAuthorizationResult → Body → Type 0
  Granted s current body =
      (actor : String) (tier : AuthorizationTier) (from : RoleSource)
      → body ≡ Body.authorized actor tier from
      → (session.actor_id ≡ actor) × Grants s current tier from

  Grants-authorized :
      (s : S) (t tier : AuthorizationTier) (from : RoleSource)
      → t ≡ tier
      → IsAllowed request.kind (policy_input Authorization.authorized none) from
      → Grants s (Services.authorized t) tier from
  Grants-authorized s t tier current_role e h = (ap Services.authorized e, h)
  Grants-authorized s t tier role_cache e h =
      absurd (cc (allowed-cache request.kind (policy_input Authorization.authorized none) h))

  Grants-cached :
      (s : S) (cached : RoleCache) (tier : AuthorizationTier) (from : RoleSource)
      → (ports.find_fresh_role_cache session.actor_id checked_at s).0 ≡ some (some cached)
      → cached.authorization_tier ≡ tier
      → IsAllowed request.kind
          (policy_input Authorization.unavailable (some cached.verified_at))
          from
      → Grants s Services.unavailable tier from
  Grants-cached s cached tier role_cache found e h = (refl, cached, found, e, h)
  Grants-cached s cached tier current_role found e h = absurd (
      cc (
        allowed-role request.kind (policy_input Authorization.unavailable (some cached.verified_at))
          h))

  no_role-denied :
      (current : CurrentRoleResult) (from : RoleSource)
      → IsAllowed request.kind (policy_input current none) from
      → current ≡ Authorization.authorized
  no_role-denied current current_role h = allowed-role request.kind (policy_input current none) h
  no_role-denied current role_cache h =
      absurd (allowed-IsWithin request.kind (policy_input current none) h)

  -- What the outcome of the policy makes of a role.
  outcome-Granted :
      (raw : Chars) (current : CurrentRoleResult) (t : Option AuthorizationTier) (cached : Option ℕ)
      (s : S) {response : AuthServiceResponse} {u : S} {actor : String} {tier : AuthorizationTier}
      {from : RoleSource}
      → answer_role node csrf_key ports provided request session checked_at raw
          (role current t cached)
          s
        ≡ (some response, u)
      → response.body ≡ Body.authorized actor tier from
      → (session.actor_id ≡ actor)
        × IsNamed node csrf_key ports provided request session checked_at raw current t tier
        × IsAllowed request.kind (policy_input current cached) from
  unfolding answer_role
  outcome-Granted raw current t cached s {from} h b =
      let input = policy_input current cached in
      let (actor_ok, tier_ok, outcome_ok) =
        answer_outcome-body node csrf_key ports provided request session checked_at raw current t
          (authorize input) s h b in
      (actor_ok, tier_ok, (authorize-allowed_iff input from).0 outcome_ok)

  written-Granted :
      (raw : Chars) (t : AuthorizationTier) (o : Option (Unit {0})) (s s' : S)
      {response : AuthServiceResponse} {u : S}
      → answer_role node csrf_key ports provided request session checked_at raw
          (role_written t o)
          s'
        ≡ (some response, u)
      → Granted s (Services.authorized t) response.body
  unfolding answer_role
  written-Granted raw t none s s' h actor tier from b = absurd (ground arith)
  written-Granted raw t (some done) s s' h actor tier from b =
      let (actor_ok, tier_ok, ok) =
        outcome-Granted raw Authorization.authorized (some t) none s' h b in
      (actor_ok, Grants-authorized s t tier from tier_ok ok)

  nobody-Granted :
      (raw : Chars) (current : CurrentRoleResult) (other : CurrentAuthorizationResult) (s s' : S)
      {response : AuthServiceResponse} {u : S}
      → current ≢ Authorization.authorized
      → answer_role node csrf_key ports provided request session checked_at raw
          (role current none none)
          s'
        ≡ (some response, u)
      → Granted s other response.body
  nobody-Granted raw current other s s' apart h actor tier from b =
      let (actor_ok, tier_ok, ok) = outcome-Granted raw current none none s' h b in
      absurd (apart (no_role-denied current from ok))

  cached-Granted :
      (raw : Chars) (o : Option (Option RoleCache)) (s s' : S) {response : AuthServiceResponse}
      {u : S}
      → (ports.find_fresh_role_cache session.actor_id checked_at s).0 ≡ o
      → answer_role node csrf_key ports provided request session checked_at raw (role_cached o) s'
        ≡ (some response, u)
      → Granted s Services.unavailable response.body
  unfolding answer_role
  cached-Granted raw none s s' found h actor tier from b = absurd (ground arith)
  cached-Granted raw (some none) s s' found h actor tier from b =
      nobody-Granted raw Authorization.unavailable Services.unavailable s s' (λ e. cc) h actor tier
        from b
  cached-Granted raw (some (some cached)) s s' found h actor tier from b =
      let (actor_ok, tier_ok, ok) =
        outcome-Granted raw Authorization.unavailable (some cached.authorization_tier)
          (some cached.verified_at) s' h b in
      (actor_ok, Grants-cached s cached tier from found tier_ok ok)

  unavailable-Granted :
      (raw : Chars) (kind : RequestKind) (s : S) {response : AuthServiceResponse} {u : S}
      → continue
          (answer_role node csrf_key ports provided request session checked_at raw)
          (read_role ports kind session.actor_id checked_at Services.unavailable s)
        ≡ (some response, u)
      → Granted s Services.unavailable response.body
  unfolding read_role
  unavailable-Granted raw read s h =
      cached-Granted raw (ports.find_fresh_role_cache session.actor_id checked_at s).0 s
        (ports.find_fresh_role_cache session.actor_id checked_at s).1 refl h
  unavailable-Granted raw mutation s h =
      nobody-Granted raw Authorization.unavailable Services.unavailable s s (λ e. cc) h
  unavailable-Granted raw high_risk s h =
      nobody-Granted raw Authorization.unavailable Services.unavailable s s (λ e. cc) h

  pub read_role-Granted :
      (raw : Chars) (current : CurrentAuthorizationResult) (s : S) {response : AuthServiceResponse}
      {u : S}
      → continue
          (answer_role node csrf_key ports provided request session checked_at raw)
          (read_role ports request.kind session.actor_id checked_at current s)
        ≡ (some response, u)
      → Granted s current response.body
  unfolding read_role
  read_role-Granted raw (Services.authorized t) s h =
      written-Granted raw t (ports.upsert_role_cache _ s).0 s (ports.upsert_role_cache _ s).1 h
  read_role-Granted raw Services.unauthorized s h =
      nobody-Granted raw Authorization.unauthorized Services.unauthorized s s (λ e. cc) h
  read_role-Granted raw Services.unavailable s h = unavailable-Granted raw request.kind s h
