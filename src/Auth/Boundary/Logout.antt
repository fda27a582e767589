-- ===== src/Auth/Boundary/Logout.antt =====
-- What a logout ends.
use waw_discord_bot.Prelude.{
  ℕ, ◌≡◌, refl, sym, subst, ◌∙◌, Bool, true, false, is_none, Option, none, some, String, arith,
  Bool-cases, inl, inr,
}
use waw_discord_bot.Prelude.Effects.{continue-eq-some, pure-eq-some}
use waw_discord_bot.Kbo.Identifiers.{codes}
use waw_discord_bot.Auth.Session.{AuthorizationTier, OpaqueSession, is_active_session}
use waw_discord_bot.Auth.Cookies.{
  Chars, SessionCredential, missing, invalid, present, same, read_session_credential,
}
use waw_discord_bot.Auth.Ports.{
  AuthConfiguration, disabled, enabled, EnabledAuthConfiguration, Headers, AuthServiceResponse,
  Node, Ports,
}
use waw_discord_bot.Auth.Csrf.{SessionRequestKind, mutation}
use waw_discord_bot.Auth.Boundary
use waw_discord_bot.Auth.Boundary.{
  SessionOutcome, SessionDenial, authenticated, denied, answer_revoked, revoke_credential,
  revoke_authenticated, authenticate_session_request, handle_session_logout,
}
use waw_discord_bot.Auth.Boundary.Laws.{authenticate-IsAuthenticated}

-- A session that may be found is revoked.
abbrev pub IsRevoked : Option (Option OpaqueSession) → Type 0
IsRevoked (some (some session)) = is_none session.revoked_at ≡ false
IsRevoked _ = Unit {0}

module _ (node : Node) (csrf_key : Chars) {S : Type 0} (ports : Ports S) where
  -- The credential of the request is revoked in a state.
  abbrev pub IsRevocation : Headers → (now : ℕ) → S → Type 0
  IsRevocation headers now u =
      (raw : Chars) × (v : S) × (read_session_credential headers.cookie ≡ present raw)
      × (ports.revoke_session (node.hash_opaque_session_id raw) now v ≡ (some true, u))

  answer_revoked-done :
      (o : Option Bool) → (answer_revoked node csrf_key ports o).status_code ≡ 204 → o ≡ some true
  answer_revoked-done none h = absurd (ground arith)
  answer_revoked-done (some false) h = absurd (ground arith)
  answer_revoked-done (some true) h = refl

  revoke_credential-done :
      (headers : Headers) (now : ℕ) (credential : SessionCredential) (s : S)
      {response : AuthServiceResponse} {u : S}
      → read_session_credential headers.cookie ≡ credential
      → revoke_credential node csrf_key ports now credential s ≡ (some response, u)
      → response.status_code ≡ 204
      → IsRevocation headers now u
  unfolding revoke_credential
  revoke_credential-done headers now missing s e h done = absurd (ground arith)
  revoke_credential-done headers now invalid s e h done = absurd (ground arith)
  revoke_credential-done headers now (present raw) s e h done =
      let (answer, v) = ports.revoke_session (node.hash_opaque_session_id raw) now s in
      let (answered, kept) = pure-eq-some (answer_revoked node csrf_key ports answer) v h in
      let revoked = answer_revoked-done answer (ground arith) in (raw, s, e, ground arith)

  revoke_authenticated-done :
      (headers : Headers) (now : ℕ) (outcome : SessionOutcome) (s : S)
      {response : AuthServiceResponse} {u : S}
      → revoke_authenticated node csrf_key ports headers now outcome s ≡ (some response, u)
      → response.status_code ≡ 204
      → IsRevocation headers now u
  unfolding revoke_authenticated
  revoke_authenticated-done headers now (denied Boundary.auth_disabled) s h done =
      absurd (ground arith)
  revoke_authenticated-done headers now (denied Boundary.session_invalid) s h done =
      absurd (ground arith)
  revoke_authenticated-done headers now (denied Boundary.session_unavailable) s h done =
      absurd (ground arith)
  revoke_authenticated-done headers now (denied Boundary.csrf_invalid) s h done =
      absurd (ground arith)
  revoke_authenticated-done headers now (authenticated actor tier last) s h done =
      revoke_credential-done headers now (read_session_credential headers.cookie) s refl h done

  logout-IsRevocation :
      (method : Chars) (headers : Headers) (configuration : AuthConfiguration) (now : ℕ) (s : S)
      {response : AuthServiceResponse} {u : S}
      → handle_session_logout node csrf_key ports method headers configuration now s
        ≡ (some response, u)
      → response.status_code ≡ 204
      → IsRevocation headers now u
  unfolding handle_session_logout
  logout-IsRevocation method headers disabled now s h done = absurd (ground arith)
  logout-IsRevocation method headers (enabled c) now s h done =
      elim (Bool-cases (same method (codes "POST"))) [
        | inr other ↦ absurd (ground arith)
        | inl post ↦
            let (outcome, v, e, h₁) =
              continue-eq-some (revoke_authenticated node csrf_key ports headers now)
                (authenticate_session_request node csrf_key ports mutation headers (enabled c) now
                  s)
                (rw (post, handle_session_logout) at h) in
            revoke_authenticated-done headers now outcome v h₁ done
      ]

  revoked-not_active :
      (o : Option (Option OpaqueSession)) (found : OpaqueSession) (now : ℕ)
      → IsRevoked o
      → o ≡ some (some found)
      → is_active_session found now ≡ true
      → ⊥
  unfolding is_active_session
  revoked-not_active none found now r e active = absurd (cc)
  revoked-not_active (some none) found now r e active = absurd (cc)
  revoked-not_active (some (some session)) found now r e active = absurd (ground arith)

  -- In a store whose revocation, if it answers true, leaves no session of the identifier that is not
  -- revoked: after a logout that is answered with 204, no request whose cookies hold the same credential is
  -- authenticated at any time in the state that the logout leaves.
  pub authenticate-logout :
      ((id : String) (at : ℕ) (s u : S)
        → ports.revoke_session id at s ≡ (some true, u)
        → IsRevoked (ports.find_session id u).0)
      → (method : Chars) (headers : Headers) (configuration : AuthConfiguration) (now : ℕ) (s : S)
        {response : AuthServiceResponse} {u : S}
      → handle_session_logout node csrf_key ports method headers configuration now s
        ≡ (some response, u)
      → response.status_code ≡ 204
      → (kind : SessionRequestKind) (other : Headers) (c : EnabledAuthConfiguration) (later : ℕ)
      → read_session_credential other.cookie ≡ read_session_credential headers.cookie
      → (actor : String) (tier : AuthorizationTier) (last : ℕ) (t : S)
      → ¬ (
          authenticate_session_request node csrf_key ports kind other (enabled c) later u
          ≡ (some (authenticated actor tier last), t))
  authenticate-logout revokes method headers configuration now s {u} h done kind other c later
        same_credential actor tier last t e =
      let (raw, v, credential, revoked) =
        logout-IsRevocation method headers configuration now s h done in
      let a = authenticate-IsAuthenticated node csrf_key ports kind other c later u e in
      let again : present a.raw ≡ present raw = sym a.credential ∙ same_credential ∙ credential in
      let same_raw : a.raw ≡ raw = cc in
      revoked-not_active (ports.find_session (node.hash_opaque_session_id raw) u).0 a.found later
        (revokes (node.hash_opaque_session_id raw) now v u revoked)
        (subst (λ r. (ports.find_session (node.hash_opaque_session_id r) u).0 ≡ some (some a.found))
          same_raw a.session)
        a.active
