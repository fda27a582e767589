-- ===== src/Ipc/Response.antt =====
-- The responses of src/contracts/admin-command-ipc.ts, and the object that
-- `serializeAdminCommandResponse` writes. The fixed words of a result (`"adjusted"`, `"removed"`) are
-- left out of the types.
pub mod Parser
pub mod Laws
use waw_discord_bot.Prelude.{String, Option, none, some, List, [], ◌∷◌, ℤ, pos}
use waw_discord_bot.Ipc.Json.{
  Json, str, arr, obj, Items, nil, cons, Fields, end, field, listed_json, Listed,
}
use waw_discord_bot.Ipc.Payload.{number}
use waw_discord_bot.Ipc.Reasons.{
  AdminCommandReasonCode, reason_text, Refusal, refusal_text, TerminalOutcome, terminal_text,
  completed,
}

-- `requested_at` is the text of an instant.
pub record PendingRiotLinkIpcItem : Type 0 where
  pub request_id : String
  pub discord_user_id : String
  pub requester_label : String
  pub platform_id : String
  pub game_name : String
  pub tag_line : String
  pub requested_at : String
  pub version : ℤ

pub data Decision : Type 0 where
  approved rejected : Decision

pub data IncidentMutation : Type 0 where
  corrected cancelled : IncidentMutation

pub data Result : Type 0 where
  riot_link_request_page :
      (requests : List PendingRiotLinkIpcItem) (next_cursor : Option String) → Result
  riot_link_decision : Decision → Result
  riot_link_removal : Result
  credit_account_adjustment : (available_balance : String) (version : ℤ) → Result
  game_incident_mutation : IncidentMutation → Result
  operation_status : Listed TerminalOutcome → AdminCommandReasonCode → Result

pub data Answer : Type 0 where
  success : Result → Answer
  refused : Refusal → AdminCommandReasonCode → Answer

pub record AdminCommandResponse : Type 0 where
  pub request_id : String
  pub operation_id : String
  pub answer : Answer

abbrev pub decision_text : Decision → String
decision_text approved = "approved"
decision_text rejected = "rejected"

abbrev pub mutation_text : IncidentMutation → String
mutation_text corrected = "corrected"
mutation_text cancelled = "cancelled"

abbrev pub item_fields : PendingRiotLinkIpcItem → Fields
item_fields i = field "requestId" (str i.request_id) (
    field "discordUserId" (str i.discord_user_id) (
      field "requesterLabel" (str i.requester_label) (
        field "platformId" (str i.platform_id) (
          field "gameName" (str i.game_name) (
            field "tagLine" (str i.tag_line) (
              field "requestedAt" (str i.requested_at)
                (field "version" (number i.version) end)))))))

unfoldable pub items_json : List PendingRiotLinkIpcItem → Items
items_json [] = nil
items_json (i ∷ is) = cons (obj (item_fields i)) (items_json is)

abbrev pub kind_text : Result → String
kind_text (riot_link_request_page requests cursor) = "riot_link_request_page"
kind_text (riot_link_decision d) = "riot_link_decision"
kind_text riot_link_removal = "riot_link_removal"
kind_text (credit_account_adjustment balance version) = "credit_account_adjustment"
kind_text (game_incident_mutation m) = "game_incident_mutation"
kind_text (operation_status status reason) = "operation_status"

-- The fields of a result besides `kind`.
abbrev pub result_fields : Result → Fields
result_fields (riot_link_request_page requests none) =
    field "requests" (arr (items_json requests)) end
result_fields (riot_link_request_page requests (some cursor)) =
    field "requests" (arr (items_json requests)) (field "nextCursor" (str cursor) end)
result_fields (riot_link_decision d) = field "status" (str (decision_text d)) end
result_fields riot_link_removal = field "status" (str "removed") end
result_fields (credit_account_adjustment balance version) =
    field "status" (str "adjusted")
      (field "availableBalance" (str balance) (field "version" (number version) end))
result_fields (game_incident_mutation m) = field "status" (str (mutation_text m)) end
result_fields (operation_status status reason) =
    field "status" (listed_json terminal_text status)
      (field "reasonCode" (str (reason_text reason)) end)

abbrev pub result_json : Result → Json
result_json r = obj (field "kind" (str (kind_text r)) (result_fields r))

abbrev pub answer_fields : Answer → Fields
answer_fields (success r) =
    field "outcome" (str "success")
      (field "reasonCode" (str (reason_text completed)) (field "result" (result_json r) end))
answer_fields (refused outcome reason) =
    field "outcome" (str (refusal_text outcome)) (field "reasonCode" (str (reason_text reason)) end)

abbrev pub response_fields : AdminCommandResponse → Fields
response_fields r = field "version" (number (pos 1)) (
    field "requestId" (str r.request_id)
      (field "operationId" (str r.operation_id) (answer_fields r.answer)))
