-- ===== src/Auth/Service/Access/Laws.antt =====
-- Who is given access.
use waw_discord_bot.Prelude.{
  ℕ, ◌≡◌, ◌≢◌, refl, ap, sym, subst, Bool, Option, some, String, arith, inl, inr, Option-cases,
}
use waw_discord_bot.Prelude.Effects.{continue-eq-some}
use waw_discord_bot.Ipc.Services.{CurrentAuthorizationResult}
use waw_discord_bot.Auth.Authorization
use waw_discord_bot.Auth.Authorization.{RoleSource, RequestKind}
use waw_discord_bot.Auth.Csrf
use waw_discord_bot.Auth.Session.{AuthorizationTier}
use waw_discord_bot.Auth.Cookies.{Chars}
use waw_discord_bot.Auth.Ports.{
  AuthConfiguration, enabled, EnabledAuthConfiguration, Body, AuthServiceResponse, Node, Ports,
}
use waw_discord_bot.Auth.Boundary
use waw_discord_bot.Auth.Boundary.{SessionOutcome, authenticated, authenticate_session_request}
use waw_discord_bot.Auth.Boundary.Laws.{IsAuthenticated, authenticate-IsAuthenticated}
use waw_discord_bot.Auth.Csrf.{create_boundary, csrf_cookie}
use waw_discord_bot.Auth.Service.{ready}
use waw_discord_bot.Auth.Service.Access.{
  answer_session, authorize_ready, authorize_request, request_kind, Authenticated, AccessRequest,
}
use waw_discord_bot.Auth.Service.Roles.{
  or_unavailable, try_current_authorization, read_current_authorization,
}
use waw_discord_bot.Auth.Service.Access.Granted.{Grants, read_role-Granted}

request_kind-mutation : (k : RequestKind) → k ≢ Authorization.read → request_kind k ≡ Csrf.mutation
request_kind-mutation Authorization.read h = absurd (h refl)
request_kind-mutation Authorization.mutation h = refl
request_kind-mutation Authorization.high_risk h = refl

module _ (node : Node) (csrf_key : Chars) {S : Type 0} (ports : Ports S) (provided : Bool)
    (request : AccessRequest) (session : Authenticated) (checked_at : ℕ) where
  -- The session is authenticated, the current role is read, and a role is granted.
  pub record IsAccess (configuration : AuthConfiguration) (now : ℕ) (s : S) (actor : String)
      (tier : AuthorizationTier) (from : RoleSource) : Type 0 where
    pub settings : EnabledAuthConfiguration
    pub is_ready : ready node csrf_key ports provided configuration ≡ some settings
    pub next : S
    pub is_authenticated :
        IsAuthenticated node csrf_key ports
          (request_kind request.kind)
          request.headers
          settings
          now
          s
          session.actor_id
          session.authorization_tier
          session.last_oauth_completed_at
          next
    pub mutation_ok :
        request.kind ≢ Authorization.read
        → (request.headers.origin ≡ some settings.allowed_origin)
          × (csrf_cookie node csrf_key request.headers.cookie
              ≡ some (node.csrf_token csrf_key is_authenticated.raw))
          × (request.headers.x_csrf_token ≡ some (node.csrf_token csrf_key is_authenticated.raw))
    pub current : CurrentAuthorizationResult
    pub is_read : (read_current_authorization ports settings session.actor_id next).0 ≡ some current
    pub same_actor : session.actor_id ≡ actor
    pub grants :
        Grants node csrf_key ports provided request session checked_at
          (read_current_authorization ports settings session.actor_id next).1
          current
          tier
          from

module _ (node : Node) (csrf_key : Chars) {S : Type 0} (ports : Ports S) (provided : Bool)
    (request : AccessRequest) (checked_at : ℕ) where
  -- Who is given access under a tier and a source.
  abbrev pub MayAccess :
      AuthConfiguration → (now : ℕ) → S → String → AuthorizationTier → RoleSource → Type 0
  MayAccess configuration now s actor tier from =
      (session : Authenticated) × IsAccess node csrf_key ports provided request session checked_at
        configuration now s actor tier from

  session-Granted :
      (configuration : AuthConfiguration) (c : EnabledAuthConfiguration) (now : ℕ) (raw : Chars)
      (outcome : SessionOutcome) (s t : S) {response : AuthServiceResponse} {u : S} (actor : String)
      (tier : AuthorizationTier) (from : RoleSource)
      → ready node csrf_key ports provided configuration ≡ some c
      → authenticate_session_request node csrf_key ports
          (request_kind request.kind)
          request.headers
          (enabled c)
          now
          s
        ≡ (some outcome, t)
      → answer_session node csrf_key ports provided c request checked_at raw outcome t
        ≡ (some response, u)
      → response.body ≡ Body.authorized actor tier from
      → MayAccess configuration now s actor tier from
  unfolding answer_session read_current_authorization
  session-Granted configuration c now raw (Boundary.denied reason) s t actor tier from is_ready e h
        b =
      absurd (ground arith)
  session-Granted configuration c now raw (authenticated a old last) s t actor tier from is_ready e
        h b =
      let authentic = authenticate-IsAuthenticated node csrf_key ports _ _ c now s e in
      let session : Authenticated = record {
        actor_id = a;
        authorization_tier = old;
        last_oauth_completed_at = last;
      } in
      let (tried, t₁) = try_current_authorization ports c a t in
      let (same_actor, grants) =
        read_role-Granted node csrf_key ports provided request session checked_at raw
          (or_unavailable tried) t₁ h actor tier from b in
      (
        session,
        record {
          settings = c;
          is_ready = is_ready;
          next = t;
          is_authenticated = authentic;
          mutation_ok =
              λ mutates. authentic.mutation_ok (request_kind-mutation request.kind mutates);
          current = or_unavailable tried;
          is_read = refl;
          same_actor = same_actor;
          grants = grants;
        },
      )

  -- Whatever the stores and the readers of roles answer: if the service gives access to an actor
  -- under a tier and a source, then it is enabled, the request's cookies hold one credential, a
  -- request that changes something comes from the allowed origin with the credential's token in
  -- its cookies and its header, the session of the credential is that actor's, not revoked, not
  -- expired and touched, and the tier is the actor's current one, or for a read whose current
  -- role cannot be read one that was cached in the last five minutes, and the policy allows the
  -- request.
  pub authorize_request-MayAccess :
      (configuration : AuthConfiguration) (now : ℕ) (raw : Chars) (s : S)
      {response : AuthServiceResponse} {u : S} (actor : String) (tier : AuthorizationTier)
      (from : RoleSource)
      → authorize_request node csrf_key ports provided configuration request now checked_at raw s
        ≡ (some response, u)
      → response.body ≡ Body.authorized actor tier from
      → MayAccess configuration now s actor tier from
  unfolding authorize_request authorize_ready
  authorize_request-MayAccess configuration now raw s actor tier from h b =
      elim (Option-cases (ready node csrf_key ports provided configuration)) [
        | inl off ↦ absurd (ground arith)
        | inr (c, is_ready) ↦
            let (boundary, v, made, h₁) =
              continue-eq-some _ (create_boundary node csrf_key, s)
                (rw (is_ready, authorize_request, authorize_ready) at h) in
            let (outcome, t, e, h₂) =
              continue-eq-some
                (answer_session node csrf_key ports provided c request checked_at raw)
                (authenticate_session_request node csrf_key ports (request_kind request.kind)
                  request.headers (enabled c) now v)
                h₁ in
            let kept : v ≡ s = ap (λ (x : Option (Unit {0}) × S). x.1) (sym made) in
            session-Granted configuration c now raw outcome s t actor tier from is_ready
              (subst
                (λ w.
                  authenticate_session_request node csrf_key ports (request_kind request.kind)
                    request.headers (enabled c) now w
                  ≡ (some outcome, t))
                kept e)
              h₂ b
      ]
