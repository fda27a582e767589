-- ===== src/Ipc/Execute/Harmless.antt =====
-- What the application does without the administrator's right.
use waw_discord_bot.Prelude.{
  ℕ, ◌≡◌, ◌⊎◌, refl, sym, ap, subst, true, false, Option, none, some, String, Bool-cases, inl, inr,
}
use waw_discord_bot.Auth.Session
use waw_discord_bot.Ipc.Platform.{Platform}
use waw_discord_bot.Ipc.Payload.{command_name}
use waw_discord_bot.Ipc.Request.{AdminCommandRequest}
use waw_discord_bot.Ipc.Reasons.{AdminCommandReasonCode, Refusal}
use waw_discord_bot.Ipc.Services.{
  continue, CurrentAuthorizationResult, AuditOutcome, CommandAuditEvent, TerminalAdminCommandResult,
  Services, Codecs,
}
use waw_discord_bot.Ipc.Application.{audited_failure}
use waw_discord_bot.Ipc.Execute.{is_status, is_expired, execute_new, execute_authorized, execute}

continue-pure :
    {S A B : Type 0} (b : B) (x : Option A × S) → (continue (λ _ t. (some b, t)) x).1 ≡ x.1
continue-pure b (none, t) = refl
continue-pure b (some a, t) = refl

module _ (p : Platform) (codecs : Codecs) {S : Type 0} (services : Services S) where
  -- The states that are reached by reading the authorization and the results of operations, and by
  -- appending to the audit.
  pub data Harmless (s : S) : S → Type 0 where
    here : Harmless s s
    then_authorization :
        {t : S} (actor guild : String)
        → Harmless s t
        → Harmless s (services.read_current_authorization actor guild t).1
    then_result :
        {t : S} (operation : String)
        → Harmless s t
        → Harmless s (services.find_admin_command_result operation t).1
    then_audit :
        {t : S} (event : CommandAuditEvent) (name : String)
        → Harmless s t
        → Harmless s (services.record_admin_audit event name t).1

  -- The request is in time, its actor was read as an administrator, and it asks for a status or its
  -- operation has no result.
  abbrev pub IsPermitted : AdminCommandRequest → (at : ℕ) (s : S) → Type 0
  IsPermitted r at s =
      (is_expired r.expires_at at ≡ false)
      × ((services.read_current_authorization r.actor_id r.guild_id s).0
          ≡ some (CurrentAuthorizationResult.authorized Session.administrator))
      × ((is_status r.command ≡ true)
          ⊎ ((services.find_admin_command_result r.operation_id
                (services.read_current_authorization r.actor_id r.guild_id s).1).0
              ≡ some none))

  audited_failure-Harmless :
      (r : AdminCommandRequest) (at : ℕ) (outcome : AuditOutcome) (reason : AdminCommandReasonCode)
      (refusal : Refusal) {s t : S}
      → Harmless s t
      → Harmless s (audited_failure p codecs services r at outcome reason refusal t).1
  unfolding audited_failure
  audited_failure-Harmless r at outcome reason refusal {s} {t} h =
      subst (Harmless s) (sym (continue-pure _ (services.record_admin_audit _ _ t)))
        (then_audit _ (command_name r.command) h)

  -- What follows the look at an earlier result.
  execute_new-Harmless :
      (r : AdminCommandRequest) (at : ℕ) (s : S)
      → (x : Option (Option TerminalAdminCommandResult) × S) → Harmless s x.1
      → Harmless s (continue (execute_new p codecs services r at) x).1 ⊎ (x.0 ≡ some none)
  unfolding execute_new
  execute_new-Harmless r at s (none, t) h = inl h
  execute_new-Harmless r at s (some none, t) h = inr refl
  execute_new-Harmless r at s (some (some found), t) h = inl h

  abbrev MayResult : AdminCommandRequest → S → Type 0
  MayResult r t =
      (is_status r.command ≡ true)
      ⊎ ((services.find_admin_command_result r.operation_id t).0 ≡ some none)

  execute_authorized-Harmless :
      (r : AdminCommandRequest) (at : ℕ) (s t : S) (a : CurrentAuthorizationResult)
      → Harmless s t
      → Harmless s (execute_authorized p codecs services r at a t).1
        ⊎ ((a ≡ CurrentAuthorizationResult.authorized Session.administrator) × MayResult r t)
  unfolding execute_authorized
  execute_authorized-Harmless r at s t (CurrentAuthorizationResult.authorized Session.administrator)
        h =
      elim (Bool-cases (is_status r.command)) [
        | inl status ↦ inr (refl, inl status)
        | inr other ↦ rw other (
            with_result (
              execute_new-Harmless r at s (services.find_admin_command_result r.operation_id t)
                (then_result r.operation_id h)))
      ]
    where
      with_result :
          {X Y Z : Type 0}
          → X ⊎ Y
          → X
            ⊎ ((CurrentAuthorizationResult.authorized Session.administrator
                  ≡ CurrentAuthorizationResult.authorized Session.administrator)
                × (Z ⊎ Y))
      with_result (inl x) = inl x
      with_result (inr y) = inr (refl, inr y)
  execute_authorized-Harmless r at s t (CurrentAuthorizationResult.authorized Session.operator) h =
      inl (audited_failure-Harmless r at _ _ _ h)
  execute_authorized-Harmless r at s t CurrentAuthorizationResult.unauthorized h =
      inl (audited_failure-Harmless r at _ _ _ h)
  execute_authorized-Harmless r at s t CurrentAuthorizationResult.unavailable h =
      inl (audited_failure-Harmless r at _ _ _ h)

  -- A request is executed by reading the authorization, looking for results and auditing only,
  -- unless it is in time, its actor is read as an administrator, and it asks for a status or its
  -- operation has no result yet.
  pub execute-Harmless :
      (r : AdminCommandRequest) (at : ℕ) (s : S)
      → Harmless s (execute p codecs services r at s).1 ⊎ IsPermitted r at s
  unfolding execute
  execute-Harmless r at s = elim (Bool-cases (is_expired r.expires_at at)) [
    | inl late ↦ rw late (inl (audited_failure-Harmless r at _ _ _ here))
    | inr live ↦ rw live (
        go (services.read_current_authorization r.actor_id r.guild_id s)
          (then_authorization r.actor_id r.guild_id here))
  ]
    where
      go :
          (x : Option CurrentAuthorizationResult × S)
          → Harmless s x.1
          → Harmless s (continue (execute_authorized p codecs services r at) x).1
            ⊎ ((false ≡ false)
                × (x.0 ≡ some (CurrentAuthorizationResult.authorized Session.administrator))
                × MayResult r x.1)
      go (none, t) h = inl h
      go (some a, t) h = elim (execute_authorized-Harmless r at s t a h) [
        | inl harmless ↦ inl harmless
        | inr permitted ↦ inr (refl, ap some permitted.0, permitted.1)
      ]
