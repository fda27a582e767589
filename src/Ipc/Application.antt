-- ===== src/Ipc/Application.antt =====
-- src/ipc/admin-command-application.ts: `AdminCommandApplication.execute` and its methods.
use waw_discord_bot.Prelude.{
  ℕ, ◌&&◌, Option, none, some, String, str_eq, List, [], ◌∷◌, ℤ, if◌then◌else◌,
}
use Prim.Native.String
use waw_discord_bot.Kbo.Identifiers.{is_operation_id}
use waw_discord_bot.Ipc.Json.{plain}
use waw_discord_bot.Ipc.Label.{label}
use waw_discord_bot.Ipc.Platform.{Platform}
use waw_discord_bot.Ipc.Payload
use waw_discord_bot.Ipc.Payload.{AdminCommand, command_name}
use waw_discord_bot.Ipc.Request.{AdminCommandRequest}
use waw_discord_bot.Ipc.Reasons
use waw_discord_bot.Ipc.Reasons.{AdminCommandReasonCode, Refusal}
use waw_discord_bot.Ipc.Response
use waw_discord_bot.Ipc.Response.{AdminCommandResponse, Answer, PendingRiotLinkIpcItem}
use waw_discord_bot.Ipc.Services.{
  Effect, pure, ◌>>=◌, ◌>>◌, caught, AuditOutcome, CommandAuditEvent, Page,
  TerminalAdminCommandResult, PendingRiotLinkRequest, PuuidValidation, Approval, Rejection, Removal,
  Decided, Services, Codecs,
}

-- The name of a command in the audit.
abbrev pub audit_name : AdminCommand → String
audit_name (Payload.riot_link_request_list limit cursor) = "라이엇계정 승인대기목록"
audit_name (Payload.riot_link_request_approve id version) = "라이엇계정 승인"
audit_name (Payload.riot_link_request_reject id version) = "라이엇계정 거절"
audit_name (Payload.riot_link_remove id version) = "라이엇계정 연결해제"
audit_name (Payload.credit_account_adjust id version delta reason) = "크레딧 관리자조정"
audit_name (Payload.game_incident_correct id version reason) = "몰랭검거 정정"
audit_name (Payload.game_incident_cancel id version reason) = "몰랭검거 취소"
audit_name (Payload.operation_status id) = "라이엇계정 승인대기목록"

unfoldable pub audit :
    AdminCommandRequest
    → (occurred_at : ℕ) → AuditOutcome
    → AdminCommandReasonCode
    → CommandAuditEvent
audit r at outcome reason = record {
  event_id = r.operation_id;
  correlation_id = r.request_id;
  occurred_at = at;
  actor_id = r.actor_id;
  guild_id = r.guild_id;
  channel_id = "dashboard";
  command_name = audit_name r.command;
  outcome = outcome;
  reason_code = reason;
}

-- `responseBase` with an answer.
unfoldable pub respond : AdminCommandRequest → Answer → AdminCommandResponse
respond r a = record { request_id = r.request_id; operation_id = r.operation_id; answer = a }

-- `failure`
unfoldable pub failure :
    AdminCommandRequest → Refusal → AdminCommandReasonCode → AdminCommandResponse
unfolding respond
failure r outcome reason = respond r (Response.refused outcome reason)

unfoldable pub terminal_response :
    AdminCommandRequest → Option TerminalAdminCommandResult → AdminCommandResponse
unfolding respond failure
terminal_response r none = failure r Reasons.duplicate Reasons.operation_duplicate
terminal_response r (some t) =
    respond r (Response.success (Response.operation_status (plain t.outcome) t.reason_code))

abbrev pub decided : AdminCommandRequest → (entity_id : String) → ℤ → (at : ℕ) → Decided
decided r id version at = record {
  operation_id = r.operation_id;
  entity_id = id;
  expected_version = version;
  administrator_id = r.actor_id;
  decided_at = at;
  audit = audit r at AuditOutcome.success Reasons.completed;
}

module _ (p : Platform) (codecs : Codecs) {S : Type 0} (services : Services S) where
  open codecs use {to_base64url, of_base64url, digits}
  open services use {
    read_current_authorization, resolve, validate, list_pending_page_with_result, find_pending,
    approve_request_with_audit, reject_request_with_audit, remove_link_with_audit,
    record_admin_audit, find_admin_command_result, adjust, mutate_admin_incident_with_audit,
    display_name,
  }

  -- `recordAdminAudit(audit(…))`, then the failure.
  unfoldable pub audited_failure :
      AdminCommandRequest
      → (at : ℕ) → AuditOutcome
      → AdminCommandReasonCode
      → Refusal
      → Effect S AdminCommandResponse
  unfolding audit failure
  audited_failure r at outcome reason refusal = do
    record_admin_audit (audit r at outcome reason) (command_name r.command)
    pure (failure r refusal reason)

  -- `terminalResponse` of what is found for a duplicate operation.
  unfoldable pub repeated : AdminCommandRequest → Effect S AdminCommandResponse
  unfolding terminal_response
  repeated r = do found ← find_admin_command_result r.operation_id; pure (terminal_response r found)

  -- `decodeCursor`
  unfoldable pub decode_cursor : String → Option String
  decode_cursor cursor =
      let decoded = of_base64url cursor in
      if str_eq (to_base64url decoded) cursor && is_operation_id decoded then some decoded else none

  unfoldable pub map_pending : PendingRiotLinkRequest → Option String → PendingRiotLinkIpcItem
  unfolding label
  map_pending item name = record {
    request_id = item.request_id;
    discord_user_id = item.discord_user_id;
    requester_label = label name item.discord_user_id;
    platform_id = item.platform_id;
    game_name = item.game_name;
    tag_line = item.tag_line;
    requested_at = p.to_iso item.requested_at;
    version = item.version;
  }

  abbrev pub name_of :
      Option ((discord_user_id : String) → Effect S (Option String))
      → String
      → Effect S (Option String)
  name_of none id = pure none
  name_of (some read) id = read id

  unfoldable pub map_all : List PendingRiotLinkRequest → Effect S (List PendingRiotLinkIpcItem)
  unfolding map_pending
  map_all [] = pure []
  map_all (item ∷ items) = do
    name ← name_of display_name item.discord_user_id
    mapped ← map_all items
    pure (map_pending item name ∷ mapped)

  abbrev pub next_cursor : Option String → Option String
  next_cursor none = none
  next_cursor (some id) = some (to_base64url id)

  unfoldable pub answer_page : AdminCommandRequest → Page → Effect S AdminCommandResponse
  unfolding map_all respond failure terminal_response
  answer_page r (Page.duplicate found) = pure (terminal_response r found)
  answer_page r Page.cursor_invalid = pure (failure r Reasons.denied Reasons.request_malformed)
  answer_page r (Page.page requests next) = do
    items ← map_all requests
    pure (respond r (Response.success (Response.riot_link_request_page items (next_cursor next))))

  -- The page after the request of a cursor, or the first.
  unfoldable pub list_after :
      AdminCommandRequest → (at : ℕ) → ℤ → Option String → Effect S AdminCommandResponse
  unfolding answer_page audit
  list_after r at limit after = do
    found ←
        list_pending_page_with_result (audit r at AuditOutcome.success Reasons.completed) limit
          after
    answer_page r found

  -- The page after a cursor that was decoded.
  unfoldable pub list_from :
      AdminCommandRequest → (at : ℕ) → ℤ → Option String → Effect S AdminCommandResponse
  unfolding list_after audited_failure
  list_from r at limit none =
      audited_failure r at AuditOutcome.failure Reasons.request_malformed Reasons.denied
  list_from r at limit (some after) = list_after r at limit (some after)

  unfoldable pub list :
      AdminCommandRequest → (at : ℕ) → ℤ → Option String → Effect S AdminCommandResponse
  unfolding list_after list_from decode_cursor
  list r at limit none = list_after r at limit none
  list r at limit (some cursor) = list_from r at limit (decode_cursor cursor)

  -- The validator resolves the name, or validates it where it cannot resolve.
  abbrev validation :
      Option ((game_name tag_line platform_id : String) → Effect S PuuidValidation)
      → PendingRiotLinkRequest
      → Effect S PuuidValidation
  validation none pending = validate pending.game_name pending.platform_id
  validation (some ask) pending = ask pending.game_name pending.tag_line pending.platform_id

  unfoldable pub answer_approval : AdminCommandRequest → Approval → Effect S AdminCommandResponse
  unfolding repeated respond failure
  answer_approval r Approval.duplicate_operation = repeated r
  answer_approval r Approval.approved =
      pure (respond r (Response.success (Response.riot_link_decision Response.approved)))
  answer_approval r Approval.stale =
      pure (failure r Reasons.conflict Reasons.riot_link_request_stale)
  answer_approval r Approval.puuid_conflict =
      pure (failure r Reasons.conflict Reasons.riot_active_puuid_conflict)
  answer_approval r Approval.request_unavailable =
      pure (failure r Reasons.unavailable Reasons.riot_link_request_unavailable)

  unfoldable pub approve_validated :
      AdminCommandRequest
      → (at : ℕ) → String
      → ℤ
      → Option PuuidValidation
      → Effect S AdminCommandResponse
  unfolding audited_failure answer_approval audit
  approve_validated r at id version none =
      audited_failure r at AuditOutcome.failure Reasons.validator_unavailable Reasons.unavailable
  approve_validated r at id version (some PuuidValidation.invalid_puuid) =
      audited_failure r at AuditOutcome.failure Reasons.invalid_puuid Reasons.denied
  approve_validated r at id version (some PuuidValidation.platform_mismatch) =
      audited_failure r at AuditOutcome.failure Reasons.platform_mismatch Reasons.denied
  approve_validated r at id version (some (PuuidValidation.valid puuid)) = do
    result ←
        approve_request_with_audit (decided r id version at) (String.◌++◌ "link:" r.operation_id)
          puuid
    answer_approval r result

  unfoldable pub approve_pending :
      AdminCommandRequest
      → (at : ℕ) → String
      → ℤ
      → Option PendingRiotLinkRequest
      → Effect S AdminCommandResponse
  unfolding audited_failure approve_validated
  approve_pending r at id version none =
      audited_failure r at AuditOutcome.failure Reasons.riot_link_request_unavailable
        Reasons.unavailable
  approve_pending r at id version (some pending) = do
    checked ← caught (validation resolve pending)
    approve_validated r at id version checked

  unfoldable pub approve :
      AdminCommandRequest → (at : ℕ) → String → ℤ → Effect S AdminCommandResponse
  unfolding approve_pending
  approve r at id version = do pending ← find_pending id; approve_pending r at id version pending

  unfoldable pub answer_rejection : AdminCommandRequest → Rejection → Effect S AdminCommandResponse
  unfolding repeated respond failure
  answer_rejection r Rejection.duplicate_operation = repeated r
  answer_rejection r Rejection.rejected =
      pure (respond r (Response.success (Response.riot_link_decision Response.rejected)))
  answer_rejection r Rejection.stale =
      pure (failure r Reasons.conflict Reasons.riot_link_request_stale)
  answer_rejection r Rejection.request_unavailable =
      pure (failure r Reasons.unavailable Reasons.riot_link_request_unavailable)

  unfoldable pub reject :
      AdminCommandRequest → (at : ℕ) → String → ℤ → Effect S AdminCommandResponse
  unfolding answer_rejection audit
  reject r at id version = do
    result ← reject_request_with_audit (decided r id version at)
    answer_rejection r result

  -- The status of another operation.
  unfoldable pub status_result : Option TerminalAdminCommandResult → Response.Result
  status_result none = Response.operation_status (plain Reasons.unknown) Reasons.operation_unknown
  status_result (some t) = Response.operation_status (plain t.outcome) t.reason_code

  unfoldable pub report_status :
      AdminCommandRequest → (at : ℕ) → String → Effect S AdminCommandResponse
  unfolding status_result respond audit
  report_status r at id = do
    terminal ← find_admin_command_result id
    record_admin_audit (audit r at AuditOutcome.success Reasons.completed) (command_name r.command)
    pure (respond r (Response.success (status_result terminal)))

  unfoldable pub answer_removal : AdminCommandRequest → Removal → Effect S AdminCommandResponse
  unfolding repeated respond failure
  answer_removal r Removal.duplicate_operation = repeated r
  answer_removal r Removal.removed = pure (respond r (Response.success Response.riot_link_removal))
  answer_removal r Removal.stale = pure (failure r Reasons.conflict Reasons.riot_link_stale)
  answer_removal r Removal.not_found =
      pure (failure r Reasons.unavailable Reasons.riot_link_not_found)

  unfoldable pub remove :
      AdminCommandRequest → (at : ℕ) → String → ℤ → Effect S AdminCommandResponse
  unfolding answer_removal audit
  remove r at id version = do
    result ← remove_link_with_audit (decided r id version at)
    answer_removal r result
