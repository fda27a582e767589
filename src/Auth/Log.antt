-- ===== src/Auth/Log.antt =====
-- What is logged of a request: `sessionOutcomeLog` of src/http/session-boundary.ts and
-- `authServiceOutcomeLog` of src/auth/auth-service.ts. The keys of a log are its fields, and one that it
-- does not have is `none`.
use waw_discord_bot.Prelude.{Option, none, some, String, leb, ltb, ◌&&◌, if◌then◌else◌}
use waw_discord_bot.Auth.Ports.{Body, AuthServiceResponse}
use waw_discord_bot.Auth.Boundary.{SessionOutcome, authenticated, denied, denial_text}

data AuthOperation : Type 0 where
  login callback authorize logout : AuthOperation

record OutcomeLog : Type 0 where
  event_type : String
  outcome : String
  actor_id : Option String
  reason_code : Option String

unfoldable session_outcome_log : SessionOutcome → OutcomeLog
session_outcome_log (authenticated actor tier last) = record {
  event_type = "session.authenticate";
  outcome = "success";
  actor_id = some actor;
  reason_code = none;
}
session_outcome_log (denied reason) = record {
  event_type = "session.authenticate";
  outcome = "denied";
  actor_id = none;
  reason_code = some (denial_text reason);
}

abbrev event_name : AuthOperation → String
event_name login = "auth.login"
event_name callback = "auth.callback"
event_name authorize = "auth.authorize"
event_name logout = "auth.logout"

abbrev reason_in : Body → Option String
reason_in (Body.denied reason) = some reason
reason_in _ = none

unfoldable auth_service_outcome_log : AuthOperation → AuthServiceResponse → OutcomeLog
auth_service_outcome_log operation response = record {
  event_type = event_name operation;
  outcome =
      if leb 200 response.status_code && ltb response.status_code 400 then "success" else "denied";
  actor_id = none;
  reason_code = reason_in response.body;
}
