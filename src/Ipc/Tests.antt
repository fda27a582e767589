-- ===== src/Ipc/Tests.antt =====
-- The protocol and the application on concrete requests, with frames that are their own values and
-- dates that are tallies.
use waw_discord_bot.Prelude.{
  ℕ, zero, suc, ◌≡◌, refl, ap, false, none, some, String, [], pos, length, instant, arith, ◌⊎◌,
}
use waw_discord_bot.Kbo.Identifiers.{codes, is_operation_id, is_snowflake}
use waw_discord_bot.Auth.Session
use waw_discord_bot.Ipc.Json.{Json, obj}
use waw_discord_bot.Ipc.Text.{is_request_id, is_reason, is_cursor, is_amount}
use waw_discord_bot.Ipc.Platform.{Platform, ReadsBack, ReadsDates}
use waw_discord_bot.Ipc.Payload
use waw_discord_bot.Ipc.Request.{
  AdminCommandRequest, text, wire, parse_admin_command_request, serialize_admin_command_request,
}
use waw_discord_bot.Ipc.Request.Laws.{IsRequest, written, parse-serialize}
use waw_discord_bot.Ipc.Request.Accepted.{parse_admin_command_request-IsRequest}
use waw_discord_bot.Ipc.Response
use waw_discord_bot.Ipc.Response.{AdminCommandResponse, response_fields}
use waw_discord_bot.Ipc.Response.Parser.{
  parse_admin_command_response, serialize_admin_command_response,
}
use waw_discord_bot.Ipc.Services
use waw_discord_bot.Ipc.Services.{Services, Codecs, pure, answers}
use waw_discord_bot.Ipc.Services.Sound.{AreSound, AreCodecs}
use waw_discord_bot.Ipc.Execute.{execute}
use waw_discord_bot.Ipc.Execute.Reply.{IsReply}
use waw_discord_bot.Ipc.Execute.Replied.{execute-answered, parse-execute}
use waw_discord_bot.Ipc.Execute.Harmless.{Harmless, IsPermitted, execute-Harmless}

abbrev pub tally : ℕ → String
tally zero = ""
tally (suc t) = String.◌∷◌ "|" (tally t)

abbrev values : Platform
values = record {
  Text = Json;
  Bytes = Json;
  byte_length = λ v. 512;
  size = λ v. 512;
  decode = λ v. some v;
  has_line_break = λ v. false;
  json_parse = λ v. some v;
  json_stringify = λ v. v;
  parse_date = λ s. instant (length (codes s));
  to_iso = tally;
}

values-ReadsBack : ReadsBack values
values-ReadsBack v h = refl

pub length-tally : (t : ℕ) → length (codes (tally t)) ≡ t
length-tally zero = refl
length-tally (suc t) = ap suc (length-tally t)

values-ReadsDates : ReadsDates values
values-ReadsDates t = ap instant (length-tally t)

abbrev pub cancel_incident : AdminCommandRequest
cancel_incident = record {
  request_id = "request-00000001";
  operation_id = "operation:1";
  actor_id = "123456789012345678";
  guild_id = "223456789012345678";
  requested_at = instant 5;
  expires_at = instant 9;
  command = Payload.game_incident_cancel "incident:1" (pos 3) "late stream";
}

pub cancel_incident-IsRequest : IsRequest cancel_incident
unfolding is_request_id is_operation_id is_snowflake is_reason
cancel_incident-IsRequest = record {
  request_id_ok = refl;
  operation_id_ok = refl;
  actor_id_ok = refl;
  guild_id_ok = refl;
  lifetime = omega arith;
  command_ok = refl;
}

abbrev cancel_frame : Json
cancel_frame = obj (wire values cancel_incident (tally 5) (tally 9))

parse-serialize_example :
    (t : Json) × (written values cancel_incident ≡ some t)
    × (serialize_admin_command_request values cancel_incident ≡ some t)
    × (parse_admin_command_request values (text t) ≡ some cancel_incident)
parse-serialize_example =
    parse-serialize values values-ReadsBack values-ReadsDates cancel_incident
      cancel_incident-IsRequest (omega arith, refl)

cancel_read : parse_admin_command_request values (text cancel_frame) ≡ some cancel_incident
unfolding parse_admin_command_request is_request_id is_operation_id is_snowflake
    Payload.parse_payload is_reason
cancel_read = refl

parse_admin_command_request-IsRequest_example : IsRequest cancel_incident
parse_admin_command_request-IsRequest_example =
    parse_admin_command_request-IsRequest values (text cancel_frame) cancel_read

abbrev codecs : Codecs
codecs = record {
  to_base64url = λ id. "b3BlcmF0aW9uOjE";
  of_base64url = λ cursor. "operation:1";
  digits = λ z. "0";
}

codecs-AreCodecs : AreCodecs codecs
unfolding is_cursor is_amount
codecs-AreCodecs = record { cursor_text = λ id h. refl; amount_text = λ z lo hi. refl }

-- The state counts the entries of the audit.
abbrev services : Services ℕ
services = record {
  read_current_authorization = λ actor guild. pure (Services.authorized Session.administrator);
  resolve = none;
  validate = λ puuid platform. pure Services.invalid_puuid;
  list_pending_page_with_result = λ audit limit after n. (some (Services.page [] none), suc n);
  find_pending = λ id. pure none;
  approve_request_with_audit = λ d link puuid. pure Services.Approval.stale;
  reject_request_with_audit = λ d n. (some Services.Rejection.rejected, suc n);
  remove_link_with_audit = λ d n. (some Services.Removal.removed, suc n);
  record_admin_audit = λ event name n. (some tt, suc n);
  find_admin_command_result = λ id. pure none;
  adjust = none;
  mutate_admin_incident_with_audit =
      λ operation incident version actor action reason at name n. (some Services.updated, suc n);
  display_name = none;
}

services-AreSound : AreSound services
services-AreSound = record {
  authorization_answers = λ actor guild s. answers _ _ tt;
  page_answers = λ audit limit after s positive. answers _ _ (ground arith, refl, tt);
  pending_answers = λ id s. answers _ _ tt;
  approval_answers = λ d link puuid s. answers _ _ tt;
  rejection_answers = λ d s. answers _ _ tt;
  removal_answers = λ d s. answers _ _ tt;
  audit_answers = λ event name s. answers _ _ tt;
  result_answers = λ id s. answers _ _ tt;
  adjustment_answers = tt;
  incident_answers = λ operation incident version actor action reason at name s. answers _ _ tt;
  names_answer = tt;
}

abbrev pub cancelled : AdminCommandResponse
cancelled = record {
  request_id = "request-00000001";
  operation_id = "operation:1";
  answer = Response.success (Response.game_incident_mutation Response.cancelled);
}

cancel_done : execute values codecs services cancel_incident 7 0 ≡ (some cancelled, 1)
unfolding execute
cancel_done = refl

execute-answered_example :
    (response : AdminCommandResponse) × (t : ℕ) × (execute values codecs services cancel_incident 7
        0
      ≡ (some response, t))
    × IsReply values values-ReadsDates codecs codecs-AreCodecs services services-AreSound
        cancel_incident response
execute-answered_example =
    execute-answered values values-ReadsDates codecs codecs-AreCodecs services services-AreSound
      cancel_incident cancel_incident-IsRequest 7 0

parse-execute_example :
    (serialize_admin_command_response values cancelled ≡ some (obj (response_fields cancelled)))
    × (parse_admin_command_response values
          (text (obj (response_fields cancelled)))
          (some "request-00000001")
        ≡ some cancelled)
parse-execute_example =
    parse-execute values values-ReadsDates codecs codecs-AreCodecs services services-AreSound
      cancel_incident cancel_incident-IsRequest values-ReadsBack 7 0 cancelled 1 cancel_done
      (omega arith, refl)

execute-Harmless_example :
    Harmless values codecs services 0 (execute values codecs services cancel_incident 7 0).1
    ⊎ IsPermitted values codecs services cancel_incident 7 0
execute-Harmless_example = execute-Harmless values codecs services cancel_incident 7 0
