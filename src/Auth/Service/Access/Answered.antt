-- ===== src/Auth/Service/Access/Answered.antt =====
-- The responses that grant access, by what they name.
use waw_discord_bot.Prelude.{
  ℕ, ◌≡◌, ap, Bool, not, ◌||◌, Option, none, some, String, List, arith, Bool-cases, inl, inr,
}
use waw_discord_bot.Auth.Authorization.{
  CurrentRoleResult, RoleSource, AuthorizationOutcome, allowed, denied,
}
use waw_discord_bot.Auth.Session.{AuthorizationTier, OpaqueSession}
use waw_discord_bot.Auth.Cookies.{
  Chars, SessionCredential, missing, invalid, present, same, is_valid_credential,
}
use waw_discord_bot.Auth.Ports.{Body, AuthServiceResponse, Node, Ports}
use waw_discord_bot.Auth.Service.Access.{
  Authenticated, AccessRequest, rotated, successor, replace_session, rotate_found, rotate,
  needs_rotation, answer_allowed, answer_outcome,
}

module _ (node : Node) (csrf_key : Chars) {S : Type 0} (ports : Ports S) (provided : Bool) where
  rotated-body :
      (session : Authenticated) (t : AuthorizationTier) (source : RoleSource)
      (o : Option (List Chars)) {actor : String} {tier : AuthorizationTier} {from : RoleSource}
      → (rotated node csrf_key ports provided session t source o).body
        ≡ Body.authorized actor tier from
      → (session.actor_id ≡ actor) × (t ≡ tier) × (source ≡ from)
  rotated-body session t source none h = absurd (cc)
  rotated-body session t source (some cookies) h = ground arith

  module _ (session : Authenticated) (t : AuthorizationTier) (source : RoleSource) (checked_at : ℕ)
      (raw : Chars) where
    rotate_found-body :
        (previous_raw : Chars) (o : Option (Option OpaqueSession)) (s : S)
        {response : AuthServiceResponse} {u : S} {actor : String} {tier : AuthorizationTier}
        {from : RoleSource}
        → rotate_found node csrf_key ports provided session t source checked_at raw previous_raw o s
          ≡ (some response, u)
        → response.body ≡ Body.authorized actor tier from
        → (session.actor_id ≡ actor) × (t ≡ tier) × (source ≡ from)
    unfolding rotate_found
    rotate_found-body previous_raw none s h b = absurd (ground arith)
    rotate_found-body previous_raw (some none) s h b = absurd (ground arith)
    rotate_found-body previous_raw (some (some previous)) s h b =
        elim (Bool-cases (not (is_valid_credential raw) || same raw previous_raw)) [
          | inl bad ↦ absurd (ground arith)
          | inr good ↦
              rotated-body session t source
                (replace_session node csrf_key ports provided previous_raw
                  (successor node csrf_key ports provided session t checked_at previous raw) raw
                  checked_at s).0
                (ground arith)
        ]

    rotate-body :
        (credential : SessionCredential) (s : S) {response : AuthServiceResponse} {u : S}
        {actor : String} {tier : AuthorizationTier} {from : RoleSource}
        → rotate node csrf_key ports provided session t source checked_at raw credential s
          ≡ (some response, u)
        → response.body ≡ Body.authorized actor tier from
        → (session.actor_id ≡ actor) × (t ≡ tier) × (source ≡ from)
    unfolding rotate
    rotate-body missing s h b = absurd (ground arith)
    rotate-body invalid s h b = absurd (ground arith)
    rotate-body (present previous_raw) s h b =
        rotate_found-body previous_raw
          (ports.find_session (node.hash_opaque_session_id previous_raw) s).0
          (ports.find_session (node.hash_opaque_session_id previous_raw) s).1 h b

  module _ (request : AccessRequest) (session : Authenticated) (checked_at : ℕ) (raw : Chars)
      (current : CurrentRoleResult) where
    -- A response that grants access names the actor of the session, the source of the outcome, and
    -- the tier that was read, or that of the session if none was.
    abbrev pub IsNamed : Option AuthorizationTier → AuthorizationTier → Type 0
    IsNamed none tier = session.authorization_tier ≡ tier
    IsNamed (some t) tier = t ≡ tier

    answer_allowed-body :
        (t : Option AuthorizationTier) (source : RoleSource) (s : S)
        {response : AuthServiceResponse} {u : S} {actor : String} {tier : AuthorizationTier}
        {from : RoleSource}
        → answer_allowed node csrf_key ports provided request session checked_at raw current t
            source s
          ≡ (some response, u)
        → response.body ≡ Body.authorized actor tier from
        → (session.actor_id ≡ actor) × IsNamed t tier × (source ≡ from)
    unfolding answer_allowed
    answer_allowed-body none source s h b = ground arith
    answer_allowed-body (some t) source s h b =
        elim (Bool-cases (needs_rotation node csrf_key ports provided session current t)) [
          | inl other ↦
              rotate-body session t source checked_at raw _ s (rw (other, answer_allowed) at h) b
          | inr kept ↦ ground arith
        ]

    pub answer_outcome-body :
        (t : Option AuthorizationTier) (outcome : AuthorizationOutcome) (s : S)
        {response : AuthServiceResponse} {u : S} {actor : String} {tier : AuthorizationTier}
        {from : RoleSource}
        → answer_outcome node csrf_key ports provided request session checked_at raw current t
            outcome s
          ≡ (some response, u)
        → response.body ≡ Body.authorized actor tier from
        → (session.actor_id ≡ actor) × IsNamed t tier × (outcome ≡ allowed from)
    unfolding answer_outcome
    answer_outcome-body t (denied reason) s h b = absurd (ground arith)
    answer_outcome-body t (allowed source) s h b =
        let (actor_ok, tier_ok, source_ok) = answer_allowed-body t source s h b in
        (actor_ok, tier_ok, ap allowed source_ok)
