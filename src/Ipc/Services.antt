-- ===== src/Ipc/Services.antt =====
-- What src/ipc/admin-command-application.ts is given: the readers and the stores of its constructor,
-- as operations on a state of which the application knows nothing. An operation answers or throws,
-- and leaves a state in both cases.
pub mod Sound
use waw_discord_bot.Prelude.{ℕ, Option, none, some, String, List, ℤ}
pub use waw_discord_bot.Prelude.Effects.{Effect, pure, continue, ◌>>=◌, ◌>>◌, caught}
use waw_discord_bot.Auth.Session.{AuthorizationTier}
use waw_discord_bot.Ipc.Json.{Listed}
use waw_discord_bot.Ipc.Payload.{AdjustmentReason}
use waw_discord_bot.Ipc.Reasons.{AdminCommandReasonCode, TerminalOutcome}

-- The answer of src/auth/member-role-ipc.ts.
pub data CurrentAuthorizationResult : Type 0 where
  authorized : AuthorizationTier → CurrentAuthorizationResult
  unauthorized : CurrentAuthorizationResult
  unavailable : CurrentAuthorizationResult

pub data AuditOutcome : Type 0 where
  success failure denied : AuditOutcome

-- src/commands/command-handler.ts, with the fields that this application gives.
pub record CommandAuditEvent : Type 0 where
  pub event_id : String
  pub correlation_id : String
  pub occurred_at : ℕ
  pub actor_id : String
  pub guild_id : String
  pub channel_id : String
  pub command_name : String
  pub outcome : AuditOutcome
  pub reason_code : AdminCommandReasonCode

pub record TerminalAdminCommandResult : Type 0 where
  pub operation_id : String
  pub outcome : TerminalOutcome
  pub reason_code : AdminCommandReasonCode

-- src/riot/riot-admin-executor.ts
pub record PendingRiotLinkRequest : Type 0 where
  pub request_id : String
  pub discord_user_id : String
  pub platform_id : String
  pub game_name : String
  pub tag_line : String
  pub requested_at : ℕ
  pub version : ℤ

pub data Page : Type 0 where
  page : (requests : List PendingRiotLinkRequest) (next_request_id : Option String) → Page
  duplicate : Option TerminalAdminCommandResult → Page
  cursor_invalid : Page

pub data PuuidValidation : Type 0 where
  valid : (normalized_puuid : String) → PuuidValidation
  invalid_puuid platform_mismatch : PuuidValidation

pub data Approval : Type 0 where
  approved puuid_conflict stale request_unavailable duplicate_operation : Approval

pub data Rejection : Type 0 where
  rejected stale request_unavailable duplicate_operation : Rejection

pub data Removal : Type 0 where
  removed not_found stale duplicate_operation : Removal

-- src/kbo/admin-credit-adjustment.ts
pub data Adjustment : Type 0 where
  adjusted : (available_balance version : ℤ) → Adjustment
  not_found stale self_adjustment insufficient_balance duplicate_operation : Adjustment

pub data IncidentAction : Type 0 where
  correct cancel : IncidentAction

pub data IncidentUpdate : Type 0 where
  updated conflict not_found duplicate_operation : IncidentUpdate

-- What every change of a store is given.
pub record Decided : Type 0 where
  pub operation_id : String
  pub entity_id : String
  pub expected_version : ℤ
  pub administrator_id : String
  pub decided_at : ℕ
  pub audit : CommandAuditEvent

pub record Services (S : Type 0) : Type 0 where
  pub read_current_authorization :
      (actor_id guild_id : String) → Effect S CurrentAuthorizationResult
  -- `validator.resolve`, which may be missing, and `validator.validate`.
  pub resolve : Option ((game_name tag_line platform_id : String) → Effect S PuuidValidation)
  pub validate : (puuid platform_id : String) → Effect S PuuidValidation
  pub list_pending_page_with_result :
      (audit : CommandAuditEvent) (limit : ℤ) (after_request_id : Option String) → Effect S Page
  pub find_pending : (request_id : String) → Effect S (Option PendingRiotLinkRequest)
  pub approve_request_with_audit : Decided → (link_id puuid : String) → Effect S Approval
  pub reject_request_with_audit : Decided → Effect S Rejection
  pub remove_link_with_audit : Decided → Effect S Removal
  pub record_admin_audit : CommandAuditEvent → (command_name : String) → Effect S (Unit {0})
  pub find_admin_command_result :
      (operation_id : String) → Effect S (Option TerminalAdminCommandResult)
  pub adjust : Option (Decided → (delta : ℤ) → Listed AdjustmentReason → Effect S Adjustment)
  pub mutate_admin_incident_with_audit :
      (operation_id incident_id : String) (expected_version : ℤ) (actor_id : String)
      → IncidentAction
      → (reason : String) (occurred_at : ℕ) (command_name : String) → Effect S IncidentUpdate
  pub display_name : Option ((discord_user_id : String) → Effect S (Option String))

-- What node gives: base64url of texts in both directions, and the digits of a bigint.
pub record Codecs : Type 0 where
  -- `Buffer.from(text, "utf8").toString("base64url")`
  pub to_base64url : String → String
  -- `Buffer.from(text, "base64url").toString("utf8")`
  pub of_base64url : String → String
  pub digits : ℤ → String

-- The step answers, with a value that has the property.
pub data Answers {S A : Type 0} (P : A → Type 0) : Option A × S → Type 0 where
  answers : (a : A) (t : S) → P a → Answers P (some a, t)

module _ {S A B : Type 0} {P : A → Type 0} {Q : B → Type 0} where
  infixl 1 ◌▷◌
  pub ◌▷◌ :
      {x : Option A × S} {f : A → Effect S B}
      → Answers P x
      → ((a : A) (t : S) → P a → Answers Q (f a t))
      → Answers Q (continue f x)
  answers a t h ▷ k = k a t h
