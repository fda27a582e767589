-- ===== src/Ipc/Payload/Laws.antt =====
-- A payload that was written is read back.
use waw_discord_bot.Prelude.{
  ◌≡◌, refl, Bool, true, ◌&&◌, Option, none, some, String, arith, if◌then◌else◌,
}
use waw_discord_bot.Kbo.Identifiers.{is_operation_id}
use waw_discord_bot.Ipc.Json.{
  obj, Listed, plain, listed, as_listed, listed_json, is_exact, is_exact_fields, is_version,
  is_safe,
}
use waw_discord_bot.Ipc.Text.{is_cursor, is_reason}
use waw_discord_bot.Ipc.Payload.{
  AdminCommand, riot_link_request_list, riot_link_request_approve, riot_link_request_reject,
  riot_link_remove, credit_account_adjust, game_incident_correct, game_incident_cancel,
  operation_status, AdjustmentReason, support_correction, policy_correction, incident_recovery,
  adjustment_reason, adjustment_reason_text, is_limit, is_delta, parse_payload, payload,
  command_name,
}

-- What the protocol asks of a command.
abbrev pub is_command : AdminCommand → Bool
is_command (riot_link_request_list limit none) = is_limit limit
is_command (riot_link_request_list limit (some cursor)) = is_limit limit && is_cursor cursor
is_command (riot_link_request_approve id version) = is_operation_id id && is_version version
is_command (riot_link_request_reject id version) = is_operation_id id && is_version version
is_command (riot_link_remove id version) = is_operation_id id && is_version version
is_command (credit_account_adjust id version delta reason) =
    is_operation_id id && is_version version && is_safe delta && is_delta delta
is_command (game_incident_correct id version reason) =
    is_operation_id id && is_version version && is_reason reason
is_command (game_incident_cancel id version reason) =
    is_operation_id id && is_version version && is_reason reason
is_command (operation_status id) = is_operation_id id

adjustment_reason-adjustment_reason_text :
    (r : AdjustmentReason) → adjustment_reason (adjustment_reason_text r) ≡ some r
unfolding adjustment_reason
adjustment_reason-adjustment_reason_text support_correction = refl
adjustment_reason-adjustment_reason_text policy_correction = refl
adjustment_reason-adjustment_reason_text incident_recovery = refl

module _ {A : Type 0} (read : String → Option A) (write : A → String)
    (reads_back : (a : A) → read (write a) ≡ some a) where
  pub as_listed-listed_json : (a : Listed A) → as_listed read (listed_json write a) ≡ some a
  unfolding as_listed listed_json
  as_listed-listed_json (plain a) = ground (arith, reads_back a)
  as_listed-listed_json (listed a) = ground (arith, as_listed-listed_json a)

-- The value of a reason code is read back.
as_listed-adjustment_reason :
    (r : Listed AdjustmentReason)
    → as_listed adjustment_reason (listed_json adjustment_reason_text r) ≡ some r
as_listed-adjustment_reason r =
    as_listed-listed_json adjustment_reason adjustment_reason_text
      adjustment_reason-adjustment_reason_text r

pub is_exact-listed_json :
    {A : Type 0} (write : A → String) (a : Listed A) → is_exact (listed_json write a) ≡ true
unfolding is_exact listed_json
is_exact-listed_json write (plain a) = refl
is_exact-listed_json write (listed a) = ground (arith, is_exact-listed_json write a)

-- A payload is read back exactly if the command is one of the protocol.
pub parse_payload-payload :
    (c : AdminCommand)
    → parse_payload (command_name c) (some (obj (payload c)))
      ≡ (if is_command c then some c else none)
unfolding parse_payload
parse_payload-payload (riot_link_request_list limit none) = ground arith
parse_payload-payload (riot_link_request_list limit (some cursor)) = ground arith
parse_payload-payload (riot_link_request_approve id version) = ground arith
parse_payload-payload (riot_link_request_reject id version) = ground arith
parse_payload-payload (riot_link_remove id version) = ground arith
parse_payload-payload (credit_account_adjust id version delta reason) =
    ground (arith, as_listed-adjustment_reason reason)
parse_payload-payload (game_incident_correct id version reason) = ground arith
parse_payload-payload (game_incident_cancel id version reason) = ground arith
parse_payload-payload (operation_status id) = ground arith

pub is_exact-payload : (c : AdminCommand) → is_exact_fields (payload c) ≡ true
unfolding is_exact
is_exact-payload (riot_link_request_list limit none) = refl
is_exact-payload (riot_link_request_list limit (some cursor)) = refl
is_exact-payload (credit_account_adjust id version delta reason) =
    ground (arith, is_exact-listed_json adjustment_reason_text reason)
is_exact-payload c = refl
