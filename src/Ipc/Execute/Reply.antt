-- ===== src/Ipc/Execute/Reply.antt =====
-- The replies of the methods of the application: each answers, with a response of the protocol.
use waw_discord_bot.Prelude.{ℕ, ◌≡◌, refl, true, Option, none, some, String, ℤ, arith, eq_refl}
use waw_discord_bot.Ipc.Json.{Listed}
use waw_discord_bot.Ipc.Platform.{Platform, ReadsDates}
use waw_discord_bot.Ipc.Payload.{AdjustmentReason}
use waw_discord_bot.Ipc.Request.{AdminCommandRequest, parse_exact_date}
use waw_discord_bot.Ipc.Request.Laws.{IsRequest}
use waw_discord_bot.Ipc.Reasons.{AdminCommandReasonCode, Refusal}
use waw_discord_bot.Ipc.Response
use waw_discord_bot.Ipc.Response.{
  AdminCommandResponse, Answer, PendingRiotLinkIpcItem, riot_link_request_page, response_fields,
}
use waw_discord_bot.Ipc.Response.Laws.{IsResponse, is_answer, is_item}
use waw_discord_bot.Ipc.Services.{
  Effect, Answers, answers, ◌▷◌, AuditOutcome, TerminalAdminCommandResult, PendingRiotLinkRequest,
  PuuidValidation, Approval, Rejection, Removal, Adjustment, IncidentAction, IncidentUpdate,
  Decided, Services, Codecs,
}
use waw_discord_bot.Ipc.Services.Sound.{
  label-is_sized, is_row, IsAdjustment, AreSound, AreCodecs, AdjustsWell,
}
use waw_discord_bot.Ipc.Application.{
  respond, failure, terminal_response, audited_failure, repeated, map_pending, answer_approval,
  approve_validated, approve_pending, approve, answer_rejection, reject, report_status,
  status_result, answer_removal, remove,
}
use waw_discord_bot.Ipc.Execute.{answer_adjustment, adjust_with, answer_update, mutate_incident}

module _ (p : Platform) (dates : ReadsDates p) (codecs : Codecs) (coded : AreCodecs codecs)
    {S : Type 0} (services : Services S) (sound : AreSound services) where
  -- A response to the request that the protocol allows.
  pub record IsReply (r : AdminCommandRequest) (response : AdminCommandResponse) : Type 0 where
    pub valid : IsResponse p response
    pub same_request : response.request_id ≡ r.request_id
    pub same_operation : response.operation_id ≡ r.operation_id

  abbrev pub Replies : AdminCommandRequest → Option AdminCommandResponse × S → Type 0
  Replies r x = Answers (IsReply r) x

  pub map_pending-is_item :
      (item : PendingRiotLinkRequest) (name : Option String)
      → is_row item ≡ true
      → is_item p (map_pending p codecs services item name) ≡ true
  unfolding map_pending parse_exact_date
  map_pending-is_item item name h = ground (
    arith,
    label-is_sized name item.discord_user_id,
    dates item.requested_at,
    eq_refl (p.to_iso item.requested_at),
  )

  module _ (r : AdminCommandRequest) (h : IsRequest r) where
    pub replied : (a : Answer) (s : S) → is_answer p a ≡ true → Replies r (some (respond r a), s)
    unfolding respond
    replied a s good = answers (respond r a) s record {
      valid = record {
        request_id_ok = h.request_id_ok;
        operation_id_ok = h.operation_id_ok;
        answer_ok = good;
      };
      same_request = refl;
      same_operation = refl;
    }

    pub failed :
        (refusal : Refusal) (reason : AdminCommandReasonCode) (s : S)
        → Replies r (some (failure r refusal reason), s)
    unfolding failure
    failed refusal reason s = replied _ s refl

    pub audited_failure-Replies :
        (at : ℕ) (outcome : AuditOutcome) (reason : AdminCommandReasonCode) (refusal : Refusal)
        (s : S)
        → Replies r (audited_failure p codecs services r at outcome reason refusal s)
    unfolding audited_failure
    audited_failure-Replies at outcome reason refusal s =
        sound.audit_answers _ _ s ▷ λ _ t _. failed refusal reason t

    pub terminal-Replies :
        (found : Option TerminalAdminCommandResult) (s : S)
        → Replies r (some (terminal_response r found), s)
    unfolding terminal_response
    terminal-Replies none s = failed _ _ s
    terminal-Replies (some t) s = replied _ s refl

    pub repeated-Replies : (s : S) → Replies r (repeated p codecs services r s)
    unfolding repeated
    repeated-Replies s =
        sound.result_answers r.operation_id s ▷ λ found t _. terminal-Replies found t

    answer_approval-Replies :
        (a : Approval) (s : S) → Replies r (answer_approval p codecs services r a s)
    unfolding answer_approval
    answer_approval-Replies Approval.duplicate_operation s = repeated-Replies s
    answer_approval-Replies Approval.approved s = replied _ s refl
    answer_approval-Replies Approval.stale s = failed _ _ s
    answer_approval-Replies Approval.puuid_conflict s = failed _ _ s
    answer_approval-Replies Approval.request_unavailable s = failed _ _ s

    approve_validated-Replies :
        (at : ℕ) (id : String) (version : ℤ) (v : Option PuuidValidation) (s : S)
        → Replies r (approve_validated p codecs services r at id version v s)
    unfolding approve_validated
    approve_validated-Replies at id version none s = audited_failure-Replies _ _ _ _ s
    approve_validated-Replies at id version (some PuuidValidation.invalid_puuid) s =
        audited_failure-Replies _ _ _ _ s
    approve_validated-Replies at id version (some PuuidValidation.platform_mismatch) s =
        audited_failure-Replies _ _ _ _ s
    approve_validated-Replies at id version (some (PuuidValidation.valid puuid)) s =
        sound.approval_answers _ _ puuid s ▷ λ a t _. answer_approval-Replies a t

    pub approve-Replies :
        (at : ℕ) (id : String) (version : ℤ) (s : S)
        → Replies r (approve p codecs services r at id version s)
    unfolding approve approve_pending
    approve-Replies at id version s = sound.pending_answers id s ▷ pending-Replies
      where
        pending-Replies :
            (found : Option PendingRiotLinkRequest) (t : S)
            → Unit {0}
            → Replies r (approve_pending p codecs services r at id version found t)
        pending-Replies none t _ = audited_failure-Replies _ _ _ _ t
        pending-Replies (some pending) t _ = approve_validated-Replies at id version _ _

    pub reject-Replies :
        (at : ℕ) (id : String) (version : ℤ) (s : S)
        → Replies r (reject p codecs services r at id version s)
    unfolding reject answer_rejection
    reject-Replies at id version s = sound.rejection_answers _ s ▷ answered-Replies
      where
        answered-Replies :
            (a : Rejection) (t : S)
            → Unit {0}
            → Replies r (answer_rejection p codecs services r a t)
        answered-Replies Rejection.duplicate_operation t _ = repeated-Replies t
        answered-Replies Rejection.rejected t _ = replied _ t refl
        answered-Replies Rejection.stale t _ = failed _ _ t
        answered-Replies Rejection.request_unavailable t _ = failed _ _ t

    pub remove-Replies :
        (at : ℕ) (id : String) (version : ℤ) (s : S)
        → Replies r (remove p codecs services r at id version s)
    unfolding remove answer_removal
    remove-Replies at id version s = sound.removal_answers _ s ▷ answered-Replies
      where
        answered-Replies :
            (a : Removal) (t : S) → Unit {0} → Replies r (answer_removal p codecs services r a t)
        answered-Replies Removal.duplicate_operation t _ = repeated-Replies t
        answered-Replies Removal.removed t _ = replied _ t refl
        answered-Replies Removal.stale t _ = failed _ _ t
        answered-Replies Removal.not_found t _ = failed _ _ t

    status-is_answer :
        (found : Option TerminalAdminCommandResult)
        → is_answer p (Response.success (status_result p codecs services found)) ≡ true
    unfolding status_result
    status-is_answer none = refl
    status-is_answer (some t) = refl

    pub report_status-Replies :
        (at : ℕ) (id : String) (s : S) → Replies r (report_status p codecs services r at id s)
    unfolding report_status
    report_status-Replies at id s = sound.result_answers id s ▷ λ found t _.
        sound.audit_answers _ _ t ▷ λ _ u _. replied _ u (status-is_answer found)

    pub mutate_incident-Replies :
        (at : ℕ) (action : IncidentAction) (id : String) (version : ℤ) (reason : String) (s : S)
        → Replies r (mutate_incident p codecs services r at action id version reason s)
    unfolding mutate_incident answer_update
    mutate_incident-Replies at action id version reason s =
        sound.incident_answers _ id version _ action reason at _ s ▷ answered-Replies
      where
        answered-Replies :
            (a : IncidentUpdate) (t : S)
            → Unit {0}
            → Replies r (answer_update p codecs services r action a t)
        answered-Replies IncidentUpdate.duplicate_operation t _ = repeated-Replies t
        answered-Replies IncidentUpdate.updated t _ = replied _ t refl
        answered-Replies IncidentUpdate.conflict t _ = failed _ _ t
        answered-Replies IncidentUpdate.not_found t _ = failed _ _ t

    answer_adjustment-Replies :
        (a : Adjustment) (t : S)
        → IsAdjustment a
        → Replies r (answer_adjustment p codecs services r a t)
    unfolding answer_adjustment
    answer_adjustment-Replies Adjustment.duplicate_operation t _ = repeated-Replies t
    answer_adjustment-Replies (Adjustment.adjusted balance version) t g =
        replied _ t (rw (coded.amount_text balance g.0 g.1, g.2))
    answer_adjustment-Replies Adjustment.stale t _ = failed _ _ t
    answer_adjustment-Replies Adjustment.not_found t _ = failed _ _ t
    answer_adjustment-Replies Adjustment.self_adjustment t _ = failed _ _ t
    answer_adjustment-Replies Adjustment.insufficient_balance t _ = failed _ _ t

    pub adjust_with-Replies :
        (change : Option (Decided → ℤ → Listed AdjustmentReason → Effect S Adjustment))
        → AdjustsWell change
        → (at : ℕ) (id : String) (version delta : ℤ) (reason : Listed AdjustmentReason) (s : S)
        → Replies r (adjust_with p codecs services change r at id version delta reason s)
    unfolding adjust_with
    adjust_with-Replies none well at id version delta reason s = audited_failure-Replies _ _ _ _ s
    adjust_with-Replies (some change) well at id version delta reason s =
        well _ delta reason s ▷ answer_adjustment-Replies
