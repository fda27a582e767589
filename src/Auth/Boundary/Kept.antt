-- ===== src/Auth/Boundary/Kept.antt =====
-- A credential that was set is accepted.
use waw_discord_bot.Prelude.{
  ℕ, ◌+◌, ◌≡◌, ◌∙◌, refl, ap, sym, true, some, List, [], ◌∷◌, ◌++◌, all, ◌==◌, length, arith,
  Bool-cases, inl, inr,
}
use waw_discord_bot.Auth.Session.{OpaqueSession, is_active_session}
use waw_discord_bot.Auth.Cookies.{
  Chars, is_token_char, is_valid_credential, is_valid_csrf_token, session_cookie_name,
  csrf_cookie_name, read_session_credential, read_csrf_cookie_token, present,
}
use waw_discord_bot.Auth.Cookies.Laws.{same_refl}
use waw_discord_bot.Auth.Ports.{
  EnabledAuthConfiguration, enabled, Headers, Node, Ports, timing_safe_equal,
}
use waw_discord_bot.Auth.Csrf.{
  SessionRequestKind, read, mutation, stage_credential, verify, has_valid_mutation_boundary,
  boundary_ok, session_cookie_attributes, csrf_cookie_attributes,
}
use waw_discord_bot.Auth.Boundary.{
  authenticated, authenticate_session_request, authenticate_credential, authenticate_found,
  touch_found,
}
use waw_discord_bot.Auth.Csrf.Sent.{
  sent, sent-two, session_pair, csrf_pair, credential_kept, csrf_kept, token_kept,
}

module _ (node : Node) (csrf_key : Chars) where
  -- What a browser sends of the cookies that were set, from the origin of the configuration, with the
  -- token that its page reads of them.
  abbrev pub kept_headers : List Chars → EnabledAuthConfiguration → Headers
  unfolding sent read_csrf_cookie_token
  kept_headers cookies configuration = record {
    cookie = some (sent cookies);
    origin = some configuration.allowed_origin;
    x_csrf_token = read_csrf_cookie_token (some (sent cookies));
  }

  staged_cookies :
      (raw : Chars) {cookies : List Chars}
      → stage_credential node csrf_key raw ≡ some cookies
      → (is_valid_credential raw ≡ true)
        × (((session_cookie_name ++ (b'=' ∷ (raw ++ session_cookie_attributes)))
              ∷ (csrf_cookie_name
                  ++ (b'=' ∷ (node.csrf_token csrf_key raw ++ csrf_cookie_attributes)))
              ∷ [])
            ≡ cookies)
  unfolding stage_credential
  staged_cookies raw h = elim (Bool-cases (is_valid_credential raw)) [
    | inl valid ↦ (valid, (let made = rw (valid, stage_credential) at h in cc))
    | inr bad ↦ absurd (ground arith)
  ]

  length-same : (t : Chars) → (length t == length t) ≡ true
  length-same t = ground arith

  verify_kept :
      (raw : Chars)
      → is_valid_csrf_token (node.csrf_token csrf_key raw) ≡ true
      → verify node csrf_key raw (node.csrf_token csrf_key raw) (node.csrf_token csrf_key raw)
        ≡ some true
  unfolding verify timing_safe_equal
  verify_kept raw valid =
      rw
        (
          valid,
          length-same (node.csrf_token csrf_key raw),
          same_refl (node.csrf_token csrf_key raw),
          length-same (node.csrf_token csrf_key raw),
          same_refl (node.csrf_token csrf_key raw),
        )
        refl

  module _ (raw : Chars) (configuration : EnabledAuthConfiguration) (cookies : List Chars)
      (valid : is_valid_csrf_token (node.csrf_token csrf_key raw) ≡ true)
      (staged : stage_credential node csrf_key raw ≡ some cookies) where
    raw_tokens : all is_token_char raw ≡ true
    unfolding is_valid_credential
    raw_tokens = let (fine, made) = staged_cookies raw staged in ground arith

    csrf_tokens : all is_token_char (node.csrf_token csrf_key raw) ≡ true
    unfolding is_valid_csrf_token
    csrf_tokens = ground arith

    sent-staged :
        sent cookies ≡ session_pair raw ++ (b';' ∷ b' ' ∷ csrf_pair (node.csrf_token csrf_key raw))
    sent-staged =
        ap sent (sym (staged_cookies raw staged).1)
        ∙ sent-two raw (node.csrf_token csrf_key raw) raw_tokens csrf_tokens

    credential-staged : read_session_credential (some (sent cookies)) ≡ present raw
    credential-staged = rw (sent-staged) (
        credential_kept raw (node.csrf_token csrf_key raw) raw_tokens csrf_tokens
          (staged_cookies raw staged).0)

    mutation-staged :
        has_valid_mutation_boundary node csrf_key
          (kept_headers cookies configuration)
          configuration
          raw
        ≡ some true
    unfolding has_valid_mutation_boundary kept_headers
    mutation-staged =
        rw
          (
            same_refl configuration.allowed_origin,
            sent-staged,
            csrf_kept raw (node.csrf_token csrf_key raw) raw_tokens csrf_tokens node csrf_key,
            token_kept raw (node.csrf_token csrf_key raw) raw_tokens csrf_tokens valid,
            verify_kept raw valid,
          )
          refl

    boundary-staged :
        (kind : SessionRequestKind)
        → boundary_ok node csrf_key kind (kept_headers cookies configuration) configuration raw
          ≡ some true
    unfolding boundary_ok
    boundary-staged read = refl
    boundary-staged mutation = mutation-staged

  found-authenticated :
      {S : Type 0} (ports : Ports S) (raw : Chars) (now : ℕ) (session : OpaqueSession) (s t u : S)
      → ports.find_session (node.hash_opaque_session_id raw) s ≡ (some (some session), t)
      → is_active_session session now ≡ true
      → ports.touch_session (node.hash_opaque_session_id raw) now (now + 86400000) t
        ≡ (some true, u)
      → authenticate_found node csrf_key ports raw now true s ≡ (
        some (
            authenticated session.actor_id session.authorization_tier
              session.last_oauth_completed_at),
        u,
      )
  unfolding authenticate_found touch_found
  found-authenticated ports raw now session s t u found active touched =
      rw (found, active, touched) refl

  -- A credential that was set is accepted: where tokens are well-formed, the cookies that were staged
  -- for it are kept and sent from the origin of the configuration, and the store has an active session of
  -- it and touches it, a request of either kind is authenticated as that session's.
  pub authenticate-staged :
      ((other : Chars) → is_valid_csrf_token (node.csrf_token csrf_key other) ≡ true)
      → {S : Type 0} (ports : Ports S) (raw : Chars) (cookies : List Chars)
        (configuration : EnabledAuthConfiguration) (kind : SessionRequestKind) (now : ℕ)
        (session : OpaqueSession) (s t u : S)
      → stage_credential node csrf_key raw ≡ some cookies
      → ports.find_session (node.hash_opaque_session_id raw) s ≡ (some (some session), t)
      → is_active_session session now ≡ true
      → ports.touch_session (node.hash_opaque_session_id raw) now (now + 86400000) t
        ≡ (some true, u)
      → authenticate_session_request node csrf_key ports kind
          (kept_headers cookies configuration)
          (enabled configuration)
          now
          s
        ≡ (
          some (
              authenticated session.actor_id session.authorization_tier
                session.last_oauth_completed_at),
          u,
        )
  unfolding authenticate_session_request kept_headers
  authenticate-staged tokens ports raw cookies configuration kind now session s t u staged found
        active touched =
      rw
        (
          credential-staged raw configuration cookies (tokens raw) staged,
          authenticate_credential,
          boundary-staged raw configuration cookies (tokens raw) staged kind,
        )
        (found-authenticated ports raw now session s t u found active touched)
