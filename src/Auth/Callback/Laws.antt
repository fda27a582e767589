-- ===== src/Auth/Callback/Laws.antt =====
-- What it takes to complete a login.
use waw_discord_bot.Prelude.{
  ℕ, ◌≡◌, refl, ap, subst, Bool, true, false, ◌||◌, Option, none, some, String, List, [], length,
  ltb, arith, Bool-cases, Option-cases, inl, inr,
}
use waw_discord_bot.Prelude.Effects.{Effect, pure, continue-eq-some, caught, ◌>>=◌}
use waw_discord_bot.Auth.Callback
use waw_discord_bot.Auth.Session.{AuthorizationTier}
use waw_discord_bot.Auth.Cookies.{Chars}
use waw_discord_bot.Auth.Ports
use waw_discord_bot.Auth.Ports.{
  EnabledAuthConfiguration, Node, Ports, CallbackPersistenceResult, completed,
}
use waw_discord_bot.Auth.Csrf.{stage_credential, is_text}
use waw_discord_bot.Auth.Callback.{
  OauthCallbackOutcome, succeeded, denied, CallbackCommand, is_discord_snowflake, TierReading, tier,
  no_tier, completion, read_tier, answer_completed, open_session, answer_tier, answer_identity,
  read_identity, complete_oauth_callback,
}

module _ (node : Node) (csrf_key : Chars) (configuration : EnabledAuthConfiguration) {S : Type 0}
    (ports : Ports S) (command : CallbackCommand) (raw : Chars) (now : ℕ) where
  -- The session is new, its credential is staged, and the store completes the callback for it.
  pub record IsOpened (actor : String) (t : AuthorizationTier) (s : S) (cookies : List Chars)
      (u : S) : Type 0 where
    pub fresh : is_text command.previous_raw_session_id raw ≡ false
    pub staged : stage_credential node csrf_key raw ≡ some cookies
    pub is_completed :
        ports.complete_oauth_callback
          (completion node csrf_key configuration command raw actor t now)
          s
        ≡ (some completed, u)

  -- The state is usable, Discord names an actor, the readers give it a tier, and its session opens.
  pub record IsCompleted (s : S) (t : AuthorizationTier) (cookies : List Chars) (u : S)
      : Type 0 where
    pub actor : String
    pub after_state : S
    pub after_identity : S
    pub after_tier : S
    pub usable :
        ports.is_oauth_state_usable (node.hash_opaque_session_id command.raw_state) now s
        ≡ (some true, after_state)
    pub identified :
        read_identity node csrf_key configuration ports command.code after_state
        ≡ (some actor, after_identity)
    pub snowflake : is_discord_snowflake actor ≡ true
    pub ranked :
        read_tier node csrf_key configuration ports actor after_identity
        ≡ (some (tier t), after_tier)
    pub opened : IsOpened actor t after_tier cookies u

  answer_completed-succeeded :
      (t t' : AuthorizationTier) (cs cookies : List Chars) (o : CallbackPersistenceResult)
      → answer_completed node csrf_key configuration ports t cs o ≡ (succeeded t', cookies)
      → (t ≡ t') × (cs ≡ cookies) × (o ≡ completed)
  answer_completed-succeeded t t' cs cookies completed h = ground arith
  answer_completed-succeeded t t' cs cookies Ports.state_invalid h = absurd (ground arith)

  open_session-succeeded :
      (actor : String) (t t' : AuthorizationTier) (cookies : List Chars) (s u : S)
      → open_session node csrf_key configuration ports command raw now actor t s
        ≡ (some (succeeded t', cookies), u)
      → (t ≡ t') × IsOpened actor t s cookies u
  unfolding open_session
  open_session-succeeded actor t t' cookies s u h =
      elim (Bool-cases (ltb (length raw) 32 || is_text command.previous_raw_session_id raw)) [
        | inl bad ↦ absurd (ground arith)
        | inr good ↦ elim (Option-cases (stage_credential node csrf_key raw)) [
          | inl threw ↦ absurd (ground arith)
          | inr (cs, staged) ↦
              let input = completion node csrf_key configuration command raw actor t now in
              let (o, v, e, h') =
                continue-eq-some _ (ports.complete_oauth_callback input s)
                  (rw (good, staged, open_session) at h) in
              let answered : answer_completed node csrf_key configuration ports t cs o
                  ≡ (succeeded t', cookies) =
                ground arith in
              let (same_tier, same_cookies, done) =
                answer_completed-succeeded t t' cs cookies o answered in
              (
                same_tier,
                record { fresh = ground arith; staged = ground arith; is_completed = ground arith },
              )
        ]
      ]

  answer_tier-succeeded :
      (actor : String) (o : Option TierReading) (t' : AuthorizationTier) (cookies : List Chars)
      (s u : S)
      → answer_tier node csrf_key configuration ports command raw now actor o s
        ≡ (some (succeeded t', cookies), u)
      → (o ≡ some (tier t')) × IsOpened actor t' s cookies u
  unfolding answer_tier
  answer_tier-succeeded actor none t' cookies s u h = absurd (ground arith)
  answer_tier-succeeded actor (some (no_tier reason)) t' cookies s u h = absurd (ground arith)
  answer_tier-succeeded actor (some (tier t)) t' cookies s u h =
      let (same, opened) = open_session-succeeded actor t t' cookies s u h in
      (ap (λ x. some (tier x)) same, subst (λ x. IsOpened actor x s cookies u) same opened)

  -- The tier and the session of an actor who was identified.
  abbrev IsRanked : String → S → AuthorizationTier → List Chars → S → Type 0
  IsRanked actor s t cookies u =
      (is_discord_snowflake actor ≡ true)
      × (next : S) × (read_tier node csrf_key configuration ports actor s ≡ (some (tier t), next))
      × IsOpened actor t next cookies u

  answer_identity-succeeded :
      (o : Option String) (t : AuthorizationTier) (cookies : List Chars) (s u : S)
      → answer_identity node csrf_key configuration ports command raw now o s
        ≡ (some (succeeded t, cookies), u)
      → (actor : String) × (o ≡ some actor) × IsRanked actor s t cookies u
  unfolding answer_identity
  answer_identity-succeeded none t cookies s u h = absurd (ground arith)
  answer_identity-succeeded (some actor) t cookies s u h =
      elim (Bool-cases (is_discord_snowflake actor)) [
        | inr bad ↦ absurd (ground arith)
        | inl good ↦
            let (reading, next) = read_tier node csrf_key configuration ports actor s in
            let (known, opened) =
              answer_tier-succeeded actor reading t cookies next u
                (rw (good, answer_identity) at h) in
            (actor, refl, (good, next, ap (λ o. (o, next)) known, opened))
      ]

  -- A callback that succeeds has completed the login.
  pub complete_oauth_callback-IsCompleted :
      (s : S) {t : AuthorizationTier} {cookies : List Chars} {u : S}
      → complete_oauth_callback node csrf_key configuration ports command raw now s
        ≡ (some (succeeded t, cookies), u)
      → IsCompleted s t cookies u
  unfolding complete_oauth_callback
  complete_oauth_callback-IsCompleted s {t} {cookies} {u} h =
      let (usable, v, e, h₁) =
        continue-eq-some _
          (ports.is_oauth_state_usable (node.hash_opaque_session_id command.raw_state) now s) h in
      go usable v e h₁
    where
      go :
          (usable : Bool) (v : S)
          → ports.is_oauth_state_usable (node.hash_opaque_session_id command.raw_state) now s
            ≡ (some usable, v)
          → (elim usable as (λ _. Effect S (OauthCallbackOutcome × List Chars)) [
            | false ↦ pure (denied Callback.state_invalid, [])
            | true ↦
                caught (read_identity node csrf_key configuration ports command.code)
                >>= λ identity.
                    answer_identity node csrf_key configuration ports command raw now identity
          ])
              v
            ≡ (some (succeeded t, cookies), u)
          → IsCompleted s t cookies u
      go false v e h' = absurd (ground arith)
      go true v e h' =
          let (o, w) = read_identity node csrf_key configuration ports command.code v in
          let (actor, known, (snowflake, next, ranked, opened)) =
            answer_identity-succeeded o t cookies w u h' in
          record {
            actor = actor;
            after_state = v;
            after_identity = w;
            after_tier = next;
            usable = e;
            identified = ap (λ x. (x, w)) known;
            snowflake = snowflake;
            ranked = ranked;
            opened = opened;
          }
