-- ===== src/Auth/Boundary/Laws.antt =====
-- What it takes to be authenticated.
use waw_discord_bot.Prelude.{
  ℕ, ◌+◌, ◌<◌, ◌≡◌, subst, sym, ◌∙◌, ap, ◌||◌, ◌==◌, not, length, refl, Bool, true, false, Option,
  none, some, String, arith, Bool-cases, inl, inr, Option-cases,
}
use waw_discord_bot.Auth.Session.{AuthorizationTier, OpaqueSession, is_active_session}
use waw_discord_bot.Auth.Cookies.{
  Chars, SessionCredential, missing, invalid, present, read_session_credential,
}
use waw_discord_bot.Auth.Ports.{EnabledAuthConfiguration, enabled, Headers, Node, Ports}
use waw_discord_bot.Auth.Csrf.{
  SessionRequestKind, mutation, boundary_ok, has_valid_mutation_boundary, csrf_cookie, verify,
  verify_tokens, is_text, is_expected,
}
use waw_discord_bot.Auth.Cookies.{is_valid_csrf_token}
use waw_discord_bot.Auth.Cookies.Laws.{same_iff}
use waw_discord_bot.Auth.Ports.{timing_safe_equal}
use waw_discord_bot.Auth.Boundary.{
  authenticated, answer_touched, touch_found, authenticate_found, authenticate_credential,
  authenticate_session_request,
}

active_session :
    (found : OpaqueSession) (now : ℕ)
    → is_active_session found now ≡ true
    → (found.revoked_at ≡ none) × (now < found.idle_expires_at) × (now < found.absolute_expires_at)
unfolding is_active_session
active_session found now h = (
  elim (Option-cases found.revoked_at) [
    | inl active ↦ active
    | inr (at, revoked) ↦ absurd (ground arith)
  ],
  ground arith,
  ground arith,
)

timing_safe_equal-true : (a b : Chars) → timing_safe_equal a b ≡ some true → a ≡ b
unfolding timing_safe_equal
timing_safe_equal-true a b h = (same_iff a b).0 (ground arith)

module _ (node : Node) (csrf_key : Chars) (raw : Chars) where
  is_expected-true :
      (cookie_token : Chars) (first : Bool)
      → is_expected node csrf_key raw cookie_token first ≡ some true
      → (cookie_token ≡ node.csrf_token csrf_key raw) × (first ≡ true)
  unfolding is_expected
  is_expected-true cookie_token false h = absurd (cc)
  is_expected-true cookie_token true h =
      (timing_safe_equal-true cookie_token (node.csrf_token csrf_key raw) h, refl)

  verify-true :
      (cookie_token header_token : Chars)
      → verify node csrf_key raw cookie_token header_token ≡ some true
      → (cookie_token ≡ node.csrf_token csrf_key raw)
        × (header_token ≡ node.csrf_token csrf_key raw)
  unfolding verify
  verify-true cookie_token header_token h =
      elim (Bool-cases (
        not (is_valid_csrf_token cookie_token)
        || not (is_valid_csrf_token header_token)
        || not (length cookie_token == length header_token))) [
          | inl bad ↦ absurd (ground arith)
          | inr good ↦ elim (Option-cases (timing_safe_equal cookie_token header_token)) [
            | inl threw ↦ absurd (let bad = rw (good, threw, verify) at h in cc)
            | inr (first, compared) ↦
                let (one, other) =
                  is_expected-true cookie_token first (rw (good, compared, verify) at h) in
                (
                  one,
                  sym (
                        timing_safe_equal-true cookie_token header_token
                          (compared ∙ ap (λ x. some x) other))
                      ∙ one,
                )
          ]
        ]

  verify_tokens-true :
      (cookie_token header_token : Option Chars)
      → verify_tokens node csrf_key raw cookie_token header_token ≡ some true
      → (cookie_token ≡ some (node.csrf_token csrf_key raw))
        × (header_token ≡ some (node.csrf_token csrf_key raw))
  unfolding verify_tokens
  verify_tokens-true none header_token h = absurd (cc)
  verify_tokens-true (some a) none h = absurd (cc)
  verify_tokens-true (some a) (some b) h =
      let (first, second) = verify-true a b h in (ap (λ x. some x) first, ap (λ x. some x) second)

is_text-true : (t : Option Chars) (text : Chars) → is_text t text ≡ true → t ≡ some text
is_text-true none text h = absurd (cc)
is_text-true (some t) text h = ap (λ x. some x) ((same_iff t text).0 h)

boundary-mutation :
    (node : Node) (csrf_key : Chars) (headers : Headers) (configuration : EnabledAuthConfiguration)
    (raw : Chars)
    → boundary_ok node csrf_key mutation headers configuration raw ≡ some true
    → (headers.origin ≡ some configuration.allowed_origin)
      × (csrf_cookie node csrf_key headers.cookie ≡ some (node.csrf_token csrf_key raw))
      × (headers.x_csrf_token ≡ some (node.csrf_token csrf_key raw))
unfolding boundary_ok has_valid_mutation_boundary
boundary-mutation node csrf_key headers configuration raw h =
    elim (Bool-cases (is_text headers.origin configuration.allowed_origin)) [
      | inr other ↦ absurd (ground arith)
      | inl same_origin ↦
          let (cookie, header) =
            verify_tokens-true node csrf_key raw (csrf_cookie node csrf_key headers.cookie)
              headers.x_csrf_token
              (rw (same_origin, boundary_ok, has_valid_mutation_boundary) at h) in
          (is_text-true headers.origin configuration.allowed_origin same_origin, cookie, header)
    ]

module _ (node : Node) (csrf_key : Chars) {S : Type 0} (ports : Ports S) where
  -- A request is authenticated: its cookies hold one credential, a mutation passes the boundary, the
  -- session of the credential is found, active and touched.
  pub record IsAuthenticated (kind : SessionRequestKind) (headers : Headers)
      (configuration : EnabledAuthConfiguration) (now : ℕ) (s : S) (actor : String)
      (tier : AuthorizationTier) (last : ℕ) (t : S) : Type 0 where
    pub raw : Chars
    pub found : OpaqueSession
    pub credential : read_session_credential headers.cookie ≡ present raw
    pub boundary : boundary_ok node csrf_key kind headers configuration raw ≡ some true
    pub session : (ports.find_session (node.hash_opaque_session_id raw) s).0 ≡ some (some found)
    pub active : is_active_session found now ≡ true
    pub unrevoked : found.revoked_at ≡ none
    pub not_idle : now < found.idle_expires_at
    pub not_old : now < found.absolute_expires_at
    pub mutation_ok :
        kind ≡ mutation
        → (headers.origin ≡ some configuration.allowed_origin)
          × (csrf_cookie node csrf_key headers.cookie ≡ some (node.csrf_token csrf_key raw))
          × (headers.x_csrf_token ≡ some (node.csrf_token csrf_key raw))
    pub touched :
        ports.touch_session
          (node.hash_opaque_session_id raw)
          now
          (now + 86400000)
          (ports.find_session (node.hash_opaque_session_id raw) s).1
        ≡ (some true, t)
    pub same_actor : found.actor_id ≡ actor
    pub same_tier : found.authorization_tier ≡ tier
    pub same_login : found.last_oauth_completed_at ≡ last

  answer_touched-authenticated :
      (found : OpaqueSession) (o : Option Bool) {actor : String} {tier : AuthorizationTier}
      {last : ℕ}
      → answer_touched node csrf_key ports found o ≡ authenticated actor tier last
      → (o ≡ some true)
        × (found.actor_id ≡ actor)
        × (found.authorization_tier ≡ tier)
        × (found.last_oauth_completed_at ≡ last)
  answer_touched-authenticated found none h = absurd (cc)
  answer_touched-authenticated found (some false) h = absurd (cc)
  answer_touched-authenticated found (some true) h = ground arith

  touch_found-authenticated :
      (id : String) (now : ℕ) (x : Option (Option OpaqueSession)) (u : S) {actor : String}
      {tier : AuthorizationTier} {last : ℕ} {t : S}
      → touch_found node csrf_key ports id now x u ≡ (some (authenticated actor tier last), t)
      → (found : OpaqueSession) × (x ≡ some (some found))
        × (is_active_session found now ≡ true)
        × (ports.touch_session id now (now + 86400000) u ≡ (some true, t))
        × (found.actor_id ≡ actor)
        × (found.authorization_tier ≡ tier)
        × (found.last_oauth_completed_at ≡ last)
  unfolding touch_found
  touch_found-authenticated id now none u h = absurd (cc)
  touch_found-authenticated id now (some none) u h = absurd (cc)
  touch_found-authenticated id now (some (some found)) u {actor} {tier} {last} {t} h =
      elim (Bool-cases (is_active_session found now)) [
        | inr expired ↦ absurd (ground arith)
        | inl active ↦
            let answer = (ports.touch_session id now (now + 86400000) u).0 in
            let answered : answer_touched node csrf_key ports found answer
                ≡ authenticated actor tier last =
              ground arith in
            let (touched, actor_ok, tier_ok, last_ok) =
              answer_touched-authenticated found answer answered in
            (found, refl, active, ground arith, actor_ok, tier_ok, last_ok)
      ]

  authenticate_found-authenticated :
      (kind : SessionRequestKind) (headers : Headers) (configuration : EnabledAuthConfiguration)
      (raw : Chars) (now : ℕ) (fine : Bool) (s : S) {actor : String} {tier : AuthorizationTier}
      {last : ℕ} {t : S}
      → read_session_credential headers.cookie ≡ present raw
      → boundary_ok node csrf_key kind headers configuration raw ≡ some fine
      → authenticate_found node csrf_key ports raw now fine s
        ≡ (some (authenticated actor tier last), t)
      → IsAuthenticated kind headers configuration now s actor tier last t
  unfolding authenticate_found
  authenticate_found-authenticated kind headers configuration raw now false s read ok h =
      absurd (cc)
  authenticate_found-authenticated kind headers configuration raw now true s read ok h =
      let (found, known, active, touched, actor_ok, tier_ok, last_ok) =
        touch_found-authenticated (node.hash_opaque_session_id raw) now
          (ports.find_session (node.hash_opaque_session_id raw) s).0
          (ports.find_session (node.hash_opaque_session_id raw) s).1 h in
      record {
        raw = raw;
        found = found;
        credential = read;
        boundary = ok;
        session = known;
        active = active;
        unrevoked = (active_session found now active).0;
        not_idle = (active_session found now active).1;
        not_old = (active_session found now active).2;
        mutation_ok = λ mutates. boundary-mutation node csrf_key headers configuration raw (
            subst (λ k. boundary_ok node csrf_key k headers configuration raw ≡ some true) mutates
              ok);
        touched = touched;
        same_actor = actor_ok;
        same_tier = tier_ok;
        same_login = last_ok;
      }

  credential-authenticated :
      (kind : SessionRequestKind) (headers : Headers) (configuration : EnabledAuthConfiguration)
      (now : ℕ) (credential : SessionCredential) (s : S) {actor : String} {tier : AuthorizationTier}
      {last : ℕ} {t : S}
      → read_session_credential headers.cookie ≡ credential
      → authenticate_credential node csrf_key ports kind headers configuration now credential s
        ≡ (some (authenticated actor tier last), t)
      → IsAuthenticated kind headers configuration now s actor tier last t
  unfolding authenticate_credential
  credential-authenticated kind headers configuration now missing s read h = absurd (cc)
  credential-authenticated kind headers configuration now invalid s read h = absurd (cc)
  credential-authenticated kind headers configuration now (present raw) s read h =
      elim (Option-cases (boundary_ok node csrf_key kind headers configuration raw)) [
        | inl threw ↦ absurd (ground arith)
        | inr (fine, ok) ↦
            authenticate_found-authenticated kind headers configuration raw now fine s read ok
              (rw (ok, authenticate_credential) at h)
      ]

  -- Who is authenticated is so by a credential, a boundary and a session that hold.
  pub authenticate-IsAuthenticated :
      (kind : SessionRequestKind) (headers : Headers) (configuration : EnabledAuthConfiguration)
      (now : ℕ) (s : S) {actor : String} {tier : AuthorizationTier} {last : ℕ} {t : S}
      → authenticate_session_request node csrf_key ports kind headers (enabled configuration) now s
        ≡ (some (authenticated actor tier last), t)
      → IsAuthenticated kind headers configuration now s actor tier last t
  unfolding authenticate_session_request
  authenticate-IsAuthenticated kind headers configuration now s h =
      credential-authenticated kind headers configuration now
        (read_session_credential headers.cookie) s refl h
