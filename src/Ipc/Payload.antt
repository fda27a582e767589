-- ===== src/Ipc/Payload.antt =====
-- The payloads of the requests of src/contracts/admin-command-ipc.ts: `parsePayload`, and the payload
-- that `serializeAdminCommandRequest` writes. The numbers of a request are integers; a field
-- `confirmation`, whose type is `true`, is left out.
pub mod Laws
use waw_discord_bot.Prelude.{
  Bool, not, ◌&&◌, Option, none, some, String, str_eq, [], ◌∷◌, ℤ, pos, negsuc, leb_ℤ, eqb_ℤ, int,
  if◌then◌else◌, ◌>>=◌, true,
}
use waw_discord_bot.Kbo.Identifiers.{is_operation_id}
use waw_discord_bot.Ipc.Json.{
  Json, bool, num, str, Fields, end, field, as_object, member, has_exact_keys, Listed,
  has_exact_optional_keys, as_pattern, as_integer, as_safe_integer, as_version, is_true, as_listed,
  listed_json,
}
use waw_discord_bot.Ipc.Text.{is_cursor, is_reason}

pub data AdjustmentReason : Type 0 where
  support_correction policy_correction incident_recovery : AdjustmentReason

pub data AdminCommand : Type 0 where
  riot_link_request_list : (limit : ℤ) (cursor : Option String) → AdminCommand
  riot_link_request_approve : (request_id : String) (expected_version : ℤ) → AdminCommand
  riot_link_request_reject : (request_id : String) (expected_version : ℤ) → AdminCommand
  riot_link_remove : (link_id : String) (expected_version : ℤ) → AdminCommand
  credit_account_adjust :
      (account_id : String) (expected_version delta : ℤ) (reason_code : Listed AdjustmentReason)
      → AdminCommand
  game_incident_correct :
      (incident_id : String) (expected_version : ℤ) (reason : String) → AdminCommand
  game_incident_cancel :
      (incident_id : String) (expected_version : ℤ) (reason : String) → AdminCommand
  operation_status : (operation_id : String) → AdminCommand

-- A value that passed a test, as a step of a chain.
abbrev pub checked {ℓ} : {A : Type ℓ} → (A → Bool) → A → Option A
checked test a = if test a then some a else none

abbrev pub when {ℓ} : {A : Type ℓ} → Bool → Option A → Option A
when test a = if test then a else none

-- `value.key === undefined || isPattern(value.key, cursorPattern)`, with the value.
unfoldable pub optional_cursor : Option Json → Option (Option String)
unfolding as_pattern
optional_cursor none = some none
optional_cursor (some v) = elim (as_pattern is_cursor (some v)) [
  | none ↦ none
  | some c ↦ some (some c)
]

abbrev pub is_limit : ℤ → Bool
is_limit z = leb_ℤ (pos 1) z && leb_ℤ z (pos 50)

unfoldable pub parse_list : Fields → Option AdminCommand
unfolding optional_cursor member has_exact_optional_keys
parse_list o = when (has_exact_optional_keys o ("limit" ∷ []) ("cursor" ∷ [])) do
  read ← as_integer (member "limit" o)
  limit ← checked is_limit read
  cursor ← optional_cursor (member "cursor" o)
  some (riot_link_request_list limit cursor)

-- The entity under `key` and the version of `expectedVersion`.
unfoldable pub parse_versioned : String → (String → ℤ → AdminCommand) → Fields → Option AdminCommand
unfolding as_pattern as_version member
parse_versioned key command o = do
  id ← as_pattern is_operation_id (member key o)
  version ← as_version (member "expectedVersion" o)
  some (command id version)

unfoldable pub parse_decision : (String → ℤ → AdminCommand) → Fields → Option AdminCommand
unfolding parse_versioned has_exact_keys
parse_decision command o =
    when (has_exact_keys o ("expectedVersion" ∷ "requestId" ∷ []))
      (parse_versioned "requestId" command o)

unfoldable pub parse_remove : Fields → Option AdminCommand
unfolding parse_versioned has_exact_keys
parse_remove o =
    when
      (has_exact_keys o ("confirmation" ∷ "expectedVersion" ∷ "linkId" ∷ [])
        && is_true (member "confirmation" o))
      (parse_versioned "linkId" riot_link_remove o)

abbrev pub adjustment_reason_text : AdjustmentReason → String
adjustment_reason_text support_correction = "support_correction"
adjustment_reason_text policy_correction = "policy_correction"
adjustment_reason_text incident_recovery = "incident_recovery"

unfoldable pub adjustment_reason : String → Option AdjustmentReason
adjustment_reason s =
    if str_eq s "support_correction"
    then some support_correction
    else if str_eq s "policy_correction"
    then some policy_correction
    else if str_eq s "incident_recovery"
    then some incident_recovery
    else none

abbrev pub is_delta : ℤ → Bool
is_delta z = not (eqb_ℤ z (pos 0)) && leb_ℤ (negsuc 999999) z && leb_ℤ z (pos 1000000)

unfoldable pub parse_adjust : Fields → Option AdminCommand
unfolding as_pattern as_version as_safe_integer member adjustment_reason as_listed has_exact_keys
parse_adjust o =
    when
      (has_exact_keys o
        ("accountId" ∷ "confirmation" ∷ "delta" ∷ "expectedVersion" ∷ "reasonCode" ∷ []))
      do
        account ← as_pattern is_operation_id (member "accountId" o)
        version ← as_version (member "expectedVersion" o)
        read ← as_safe_integer (member "delta" o)
        delta ← checked is_delta read
        written ← member "reasonCode" o
        reason ← as_listed adjustment_reason written
        when (is_true (member "confirmation" o))
            (some (credit_account_adjust account version delta reason))

unfoldable pub parse_incident : (String → ℤ → String → AdminCommand) → Fields → Option AdminCommand
unfolding as_pattern as_version member has_exact_keys
parse_incident command o =
    when
      (has_exact_keys o ("confirmation" ∷ "expectedVersion" ∷ "incidentId" ∷ "reason" ∷ [])
        && is_true (member "confirmation" o))
      do
        incident ← as_pattern is_operation_id (member "incidentId" o)
        version ← as_version (member "expectedVersion" o)
        reason ← as_pattern is_reason (member "reason" o)
        some (command incident version reason)

unfoldable pub parse_status : Fields → Option AdminCommand
unfolding as_pattern member has_exact_keys
parse_status o =
    when (has_exact_keys o ("operationId" ∷ []))
      do id ← as_pattern is_operation_id (member "operationId" o); some (operation_status id)

-- The cases of `parsePayload`.
unfoldable pub parse_command : String → Fields → Option AdminCommand
unfolding parse_list parse_decision parse_remove parse_adjust parse_incident parse_status
parse_command c o =
    if str_eq c "riot_link_request_list"
    then parse_list o
    else if str_eq c "riot_link_request_approve"
    then parse_decision riot_link_request_approve o
    else if str_eq c "riot_link_request_reject"
    then parse_decision riot_link_request_reject o
    else if str_eq c "riot_link_remove"
    then parse_remove o
    else if str_eq c "credit_account_adjust"
    then parse_adjust o
    else if str_eq c "game_incident_correct"
    then parse_incident game_incident_correct o
    else if str_eq c "game_incident_cancel"
    then parse_incident game_incident_cancel o
    else if str_eq c "operation_status"
    then parse_status o
    else none

unfoldable pub parse_payload : String → Option Json → Option AdminCommand
unfolding parse_command
parse_payload c none = none
parse_payload c (some v) = do o ← as_object v; parse_command c o

-- The name of a command and its payload, as they are written.
abbrev pub command_name : AdminCommand → String
command_name (riot_link_request_list limit cursor) = "riot_link_request_list"
command_name (riot_link_request_approve id version) = "riot_link_request_approve"
command_name (riot_link_request_reject id version) = "riot_link_request_reject"
command_name (riot_link_remove id version) = "riot_link_remove"
command_name (credit_account_adjust id version delta reason) = "credit_account_adjust"
command_name (game_incident_correct id version reason) = "game_incident_correct"
command_name (game_incident_cancel id version reason) = "game_incident_cancel"
command_name (operation_status id) = "operation_status"

abbrev pub number : ℤ → Json
number z = num (int z)

abbrev decision_payload : String → ℤ → Fields
decision_payload id version =
    field "requestId" (str id) (field "expectedVersion" (number version) end)

abbrev incident_payload : String → ℤ → String → Fields
incident_payload id version reason = field "incidentId" (str id) (
    field "expectedVersion" (number version)
      (field "reason" (str reason) (field "confirmation" (bool true) end)))

abbrev pub payload : AdminCommand → Fields
payload (riot_link_request_list limit none) = field "limit" (number limit) end
payload (riot_link_request_list limit (some cursor)) =
    field "limit" (number limit) (field "cursor" (str cursor) end)
payload (riot_link_request_approve id version) = decision_payload id version
payload (riot_link_request_reject id version) = decision_payload id version
payload (riot_link_remove id version) =
    field "linkId" (str id)
      (field "expectedVersion" (number version) (field "confirmation" (bool true) end))
payload (credit_account_adjust id version delta reason) = field "accountId" (str id) (
    field "expectedVersion" (number version) (
      field "delta" (number delta) (
        field "reasonCode" (listed_json adjustment_reason_text reason)
          (field "confirmation" (bool true) end))))
payload (game_incident_correct id version reason) = incident_payload id version reason
payload (game_incident_cancel id version reason) = incident_payload id version reason
payload (operation_status id) = field "operationId" (str id) end
