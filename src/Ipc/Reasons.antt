-- ===== src/Ipc/Reasons.antt =====
-- The words of the responses of src/contracts/admin-command-ipc.ts: the outcomes and the reason
-- codes, with their texts.
use waw_discord_bot.Prelude.{◌≡◌, refl, Option, some, String, str_eq, List, [], ◌∷◌, find}

pub data AdminCommandReasonCode : Type 0 where
  completed : AdminCommandReasonCode
  administrator_required : AdminCommandReasonCode
  request_expired : AdminCommandReasonCode
  request_malformed : AdminCommandReasonCode
  request_unavailable : AdminCommandReasonCode
  operation_duplicate : AdminCommandReasonCode
  operation_unknown : AdminCommandReasonCode
  riot_link_request_stale : AdminCommandReasonCode
  riot_link_request_unavailable : AdminCommandReasonCode
  riot_link_not_found : AdminCommandReasonCode
  riot_link_stale : AdminCommandReasonCode
  game_incident_not_found : AdminCommandReasonCode
  game_incident_stale : AdminCommandReasonCode
  riot_active_puuid_conflict : AdminCommandReasonCode
  invalid_puuid : AdminCommandReasonCode
  platform_mismatch : AdminCommandReasonCode
  validator_unavailable : AdminCommandReasonCode
  credit_account_not_found : AdminCommandReasonCode
  credit_account_stale : AdminCommandReasonCode
  credit_account_self_adjustment : AdminCommandReasonCode
  credit_account_insufficient_balance : AdminCommandReasonCode
  credit_account_adjustment_unavailable : AdminCommandReasonCode
  persistence_unavailable : AdminCommandReasonCode

abbrev pub reason_text : AdminCommandReasonCode → String
reason_text completed = "completed"
reason_text administrator_required = "administrator_required"
reason_text request_expired = "request_expired"
reason_text request_malformed = "request_malformed"
reason_text request_unavailable = "request_unavailable"
reason_text operation_duplicate = "operation_duplicate"
reason_text operation_unknown = "operation_unknown"
reason_text riot_link_request_stale = "riot_link_request_stale"
reason_text riot_link_request_unavailable = "riot_link_request_unavailable"
reason_text riot_link_not_found = "riot_link_not_found"
reason_text riot_link_stale = "riot_link_stale"
reason_text game_incident_not_found = "game_incident_not_found"
reason_text game_incident_stale = "game_incident_stale"
reason_text riot_active_puuid_conflict = "riot_active_puuid_conflict"
reason_text invalid_puuid = "invalid_puuid"
reason_text platform_mismatch = "platform_mismatch"
reason_text validator_unavailable = "validator_unavailable"
reason_text credit_account_not_found = "credit_account_not_found"
reason_text credit_account_stale = "credit_account_stale"
reason_text credit_account_self_adjustment = "credit_account_self_adjustment"
reason_text credit_account_insufficient_balance = "credit_account_insufficient_balance"
reason_text credit_account_adjustment_unavailable = "credit_account_adjustment_unavailable"
reason_text persistence_unavailable = "persistence_unavailable"

-- The set `reasonCodes`.
abbrev reason_codes : List AdminCommandReasonCode
reason_codes =
    completed ∷ administrator_required ∷ request_expired ∷ request_malformed ∷ request_unavailable
    ∷ operation_duplicate ∷ operation_unknown ∷ riot_link_request_stale
    ∷ riot_link_request_unavailable ∷ riot_link_not_found ∷ riot_link_stale
    ∷ game_incident_not_found ∷ game_incident_stale ∷ riot_active_puuid_conflict ∷ invalid_puuid
    ∷ platform_mismatch ∷ validator_unavailable ∷ credit_account_not_found ∷ credit_account_stale
    ∷ credit_account_self_adjustment ∷ credit_account_insufficient_balance
    ∷ credit_account_adjustment_unavailable ∷ persistence_unavailable ∷ []

-- `isReasonCode` of a text, with the code.
unfoldable pub reason_code : String → Option AdminCommandReasonCode
reason_code s = find (λ r. str_eq (reason_text r) s) reason_codes

pub reason_code-reason_text : (r : AdminCommandReasonCode) → reason_code (reason_text r) ≡ some r
unfolding reason_code
reason_code-reason_text completed = refl
reason_code-reason_text administrator_required = refl
reason_code-reason_text request_expired = refl
reason_code-reason_text request_malformed = refl
reason_code-reason_text request_unavailable = refl
reason_code-reason_text operation_duplicate = refl
reason_code-reason_text operation_unknown = refl
reason_code-reason_text riot_link_request_stale = refl
reason_code-reason_text riot_link_request_unavailable = refl
reason_code-reason_text riot_link_not_found = refl
reason_code-reason_text riot_link_stale = refl
reason_code-reason_text game_incident_not_found = refl
reason_code-reason_text game_incident_stale = refl
reason_code-reason_text riot_active_puuid_conflict = refl
reason_code-reason_text invalid_puuid = refl
reason_code-reason_text platform_mismatch = refl
reason_code-reason_text validator_unavailable = refl
reason_code-reason_text credit_account_not_found = refl
reason_code-reason_text credit_account_stale = refl
reason_code-reason_text credit_account_self_adjustment = refl
reason_code-reason_text credit_account_insufficient_balance = refl
reason_code-reason_text credit_account_adjustment_unavailable = refl
reason_code-reason_text persistence_unavailable = refl

-- The outcomes of a response without a result.
pub data Refusal : Type 0 where
  denied conflict duplicate unavailable outcome_unknown : Refusal

abbrev pub refusal_text : Refusal → String
refusal_text denied = "denied"
refusal_text conflict = "conflict"
refusal_text duplicate = "duplicate"
refusal_text unavailable = "unavailable"
refusal_text outcome_unknown = "outcome_unknown"

unfoldable pub refusal : String → Option Refusal
refusal s =
    find (λ r. str_eq (refusal_text r) s)
      (denied ∷ conflict ∷ duplicate ∷ unavailable ∷ outcome_unknown ∷ [])

-- The outcomes of a command that was executed before.
pub data TerminalOutcome : Type 0 where
  succeeded was_denied conflicted failed unknown : TerminalOutcome

abbrev pub terminal_text : TerminalOutcome → String
terminal_text succeeded = "success"
terminal_text was_denied = "denied"
terminal_text conflicted = "conflict"
terminal_text failed = "failure"
terminal_text unknown = "unknown"

unfoldable pub terminal_outcome : String → Option TerminalOutcome
terminal_outcome s =
    find (λ r. str_eq (terminal_text r) s)
      (succeeded ∷ was_denied ∷ conflicted ∷ failed ∷ unknown ∷ [])

pub refusal-refusal_text : (r : Refusal) → refusal (refusal_text r) ≡ some r
unfolding refusal
refusal-refusal_text denied = refl
refusal-refusal_text conflict = refl
refusal-refusal_text duplicate = refl
refusal-refusal_text unavailable = refl
refusal-refusal_text outcome_unknown = refl

pub terminal_outcome-terminal_text :
    (r : TerminalOutcome) → terminal_outcome (terminal_text r) ≡ some r
unfolding terminal_outcome
terminal_outcome-terminal_text succeeded = refl
terminal_outcome-terminal_text was_denied = refl
terminal_outcome-terminal_text conflicted = refl
terminal_outcome-terminal_text failed = refl
terminal_outcome-terminal_text unknown = refl
