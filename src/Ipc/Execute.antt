-- ===== src/Ipc/Execute.antt =====
-- `AdminCommandApplication.execute` of src/ipc/admin-command-application.ts, with the adjustment of
-- credits and the change of incidents.
pub mod Reply
pub mod Replied
pub mod Harmless
use waw_discord_bot.Prelude.{
  ℕ, Bool, true, false, Option, none, some, String, ℤ, leb, Date, instant, invalid_date,
  if◌then◌else◌,
}
use waw_discord_bot.Auth.Session
use waw_discord_bot.Ipc.Json.{Listed}
use waw_discord_bot.Ipc.Platform.{Platform}
use waw_discord_bot.Ipc.Payload
use waw_discord_bot.Ipc.Payload.{AdminCommand, AdjustmentReason, command_name}
use waw_discord_bot.Ipc.Request.{AdminCommandRequest}
use waw_discord_bot.Ipc.Reasons
use waw_discord_bot.Ipc.Response
use waw_discord_bot.Ipc.Response.{AdminCommandResponse}
use waw_discord_bot.Ipc.Services.{
  Effect, pure, ◌>>=◌, CurrentAuthorizationResult, AuditOutcome, TerminalAdminCommandResult,
  Adjustment, IncidentAction, IncidentUpdate, Decided, Services, Codecs,
}
use waw_discord_bot.Ipc.Application.{
  audit, respond, failure, terminal_response, decided, audited_failure, repeated, list, approve,
  reject, report_status, remove,
}

-- `request.expiresAt.getTime() <= receivedAt.getTime()`, which no invalid date passes.
abbrev pub is_expired : Date → (received_at : ℕ) → Bool
is_expired invalid_date now = false
is_expired (instant t) now = leb t now

abbrev pub is_administrator : CurrentAuthorizationResult → Bool
is_administrator (CurrentAuthorizationResult.authorized Session.administrator) = true
is_administrator _ = false

abbrev pub is_status : AdminCommand → Bool
is_status (Payload.operation_status id) = true
is_status _ = false

module _ (p : Platform) (codecs : Codecs) {S : Type 0} (services : Services S) where
  open codecs use {digits}
  open services use {
    read_current_authorization, record_admin_audit, find_admin_command_result, adjust,
    mutate_admin_incident_with_audit,
  }

  unfoldable pub answer_adjustment :
      AdminCommandRequest → Adjustment → Effect S AdminCommandResponse
  unfolding repeated respond failure
  answer_adjustment r Adjustment.duplicate_operation = repeated p codecs services r
  answer_adjustment r (Adjustment.adjusted balance version) =
      pure
        (respond r (Response.success (Response.credit_account_adjustment (digits balance) version)))
  answer_adjustment r Adjustment.stale =
      pure (failure r Reasons.conflict Reasons.credit_account_stale)
  answer_adjustment r Adjustment.not_found =
      pure (failure r Reasons.denied Reasons.credit_account_not_found)
  answer_adjustment r Adjustment.self_adjustment =
      pure (failure r Reasons.denied Reasons.credit_account_self_adjustment)
  answer_adjustment r Adjustment.insufficient_balance =
      pure (failure r Reasons.denied Reasons.credit_account_insufficient_balance)

  -- The store of credits may be missing.
  unfoldable pub adjust_with :
      Option (Decided → (delta : ℤ) → Listed AdjustmentReason → Effect S Adjustment)
      → AdminCommandRequest
      → (at : ℕ) → String
      → ℤ
      → ℤ
      → Listed AdjustmentReason
      → Effect S AdminCommandResponse
  unfolding audited_failure answer_adjustment audit
  adjust_with none r at id version delta reason =
      audited_failure p codecs services r at AuditOutcome.failure
        Reasons.credit_account_adjustment_unavailable Reasons.unavailable
  adjust_with (some change) r at id version delta reason = do
    result ← change (decided r id version at) delta reason
    answer_adjustment r result

  abbrev mutation : IncidentAction → Response.IncidentMutation
  mutation IncidentAction.cancel = Response.cancelled
  mutation IncidentAction.correct = Response.corrected

  unfoldable pub answer_update :
      AdminCommandRequest → IncidentAction → IncidentUpdate → Effect S AdminCommandResponse
  unfolding repeated respond failure
  answer_update r action IncidentUpdate.duplicate_operation = repeated p codecs services r
  answer_update r action IncidentUpdate.updated =
      pure (respond r (Response.success (Response.game_incident_mutation (mutation action))))
  answer_update r action IncidentUpdate.conflict =
      pure (failure r Reasons.conflict Reasons.game_incident_stale)
  answer_update r action IncidentUpdate.not_found =
      pure (failure r Reasons.unavailable Reasons.game_incident_not_found)

  unfoldable pub mutate_incident :
      AdminCommandRequest
      → (at : ℕ) → IncidentAction
      → String
      → ℤ
      → String
      → Effect S AdminCommandResponse
  unfolding answer_update
  mutate_incident r at action id version reason = do
    result ←
        mutate_admin_incident_with_audit r.operation_id id version r.actor_id action reason at
          (command_name r.command)
    answer_update r action result

  -- The methods, by the command.
  unfoldable pub dispatch :
      AdminCommand → AdminCommandRequest → (at : ℕ) → Effect S AdminCommandResponse
  unfolding list approve reject remove report_status adjust_with mutate_incident
  dispatch (Payload.riot_link_request_list limit cursor) r at =
      list p codecs services r at limit cursor
  dispatch (Payload.riot_link_request_approve id version) r at =
      approve p codecs services r at id version
  dispatch (Payload.riot_link_request_reject id version) r at =
      reject p codecs services r at id version
  dispatch (Payload.riot_link_remove id version) r at = remove p codecs services r at id version
  dispatch (Payload.credit_account_adjust id version delta reason) r at =
      adjust_with adjust r at id version delta reason
  dispatch (Payload.game_incident_correct id version reason) r at =
      mutate_incident r at IncidentAction.correct id version reason
  dispatch (Payload.game_incident_cancel id version reason) r at =
      mutate_incident r at IncidentAction.cancel id version reason
  dispatch (Payload.operation_status id) r at = report_status p codecs services r at id

  -- An operation that was completed before is answered with its result.
  unfoldable pub execute_new :
      AdminCommandRequest
      → (at : ℕ) → Option TerminalAdminCommandResult
      → Effect S AdminCommandResponse
  unfolding dispatch terminal_response
  execute_new r at none = dispatch r.command r at
  execute_new r at (some existing) = pure (terminal_response r (some existing))

  unfoldable pub execute_authorized :
      AdminCommandRequest → (at : ℕ) → CurrentAuthorizationResult → Effect S AdminCommandResponse
  unfolding dispatch audited_failure execute_new
  execute_authorized r at authorization =
      if is_administrator authorization
      then (if is_status r.command
          then dispatch r.command r at
          else do existing ← find_admin_command_result r.operation_id; execute_new r at existing)
      else audited_failure p codecs services r at AuditOutcome.denied Reasons.administrator_required
          Reasons.denied

  unfoldable pub execute : AdminCommandRequest → (received_at : ℕ) → Effect S AdminCommandResponse
  unfolding execute_authorized audited_failure
  execute r received_at =
      if is_expired r.expires_at received_at
      then audited_failure p codecs services r received_at AuditOutcome.failure
          Reasons.request_expired Reasons.denied
      else do
        authorization ← read_current_authorization r.actor_id r.guild_id
        execute_authorized r received_at authorization
