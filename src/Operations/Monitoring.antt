-- ===== src/Operations/Monitoring.antt =====
-- The observations and the alerts of src/operations/monitoring.ts. `Date.parse` and `toISOString` are
-- the language's: a parameter; a date is an instant since the epoch or invalid.
pub mod Evaluate
pub mod Laws
pub mod Lasting
use waw_discord_bot.Prelude.{
  ℕ, ◌+◌, Bool, true, false, Option, none, some, String, str_eq, List, [], ◌∷◌, Date, instant,
  invalid_date, leb, ltb, ◌==◌, is_none, if◌then◌else◌, ◌&&◌, ◌||◌, not, pos, ◌-ℤ◌, leb_ℤ,
}

pub data AlertSeverity : Type 0 where
  ok warning critical : AlertSeverity

abbrev pub same_severity : AlertSeverity → AlertSeverity → Bool
same_severity ok ok = true
same_severity warning warning = true
same_severity critical critical = true
same_severity _ _ = false

pub record AlertState : Type 0 where
  pub severity : AlertSeverity
  pub candidate : AlertSeverity
  pub candidate_count : ℕ
  pub candidate_first_observed_at : Option String
  pub first_observed_at : Option String
  pub last_observed_at : String
  pub last_notified_at : Option String
  pub reason_code : String

pub record Observation : Type 0 where
  pub key : String
  pub severity : AlertSeverity
  pub reason_code : String
  pub activate_after : ℕ
  pub recover_after : ℕ

-- The fields of a snapshot that an alert is given.
pub record Moment : Type 0 where
  pub now : String
  pub observed_at : String
  pub service_version : String

pub data Phase : Type 0 where
  firing resolved : Phase

pub record AlertNotification : Type 0 where
  pub severity : AlertSeverity
  pub alert_key : String
  pub phase : Phase
  pub first_observed_at : String
  pub last_observed_at : String
  pub reason_code : String
  pub service_version : String

-- What the language gives: `Date.parse` and `toISOString`.
pub record Dates : Type 0 where
  pub parse : String → Date
  pub to_iso : ℕ → String

abbrev pub parse_iso : Dates → String → Option ℕ
parse_iso d s = elim (d.parse s) [ invalid_date ↦ none | instant t ↦ some t ]

-- `requireIso`: `none` is its error.
unfoldable pub require_iso : Dates → String → Option ℕ
require_iso d s = elim (parse_iso d s) [
  | none ↦ none
  | some t ↦ if str_eq (d.to_iso t) s then some t else none
]

unfoldable pub initial_state : (now : String) → AlertState
initial_state now = record {
  severity = ok;
  candidate = ok;
  candidate_count = 0;
  candidate_first_observed_at = none;
  first_observed_at = none;
  last_observed_at = now;
  last_notified_at = none;
  reason_code = "not_observed";
}

abbrev phase_of : AlertSeverity → Phase
phase_of ok = resolved
phase_of _ = firing

unfoldable pub notification :
    Moment → Observation → (first_observed_at : String) → AlertNotification
notification m item first = record {
  severity = item.severity;
  alert_key = item.key;
  phase = phase_of item.severity;
  first_observed_at = first;
  last_observed_at = m.observed_at;
  reason_code = item.reason_code;
  service_version = m.service_version;
}

-- `a ?? b`
abbrev pub or_else {ℓ} : {A : Type ℓ} → Option A → A → A
or_else none b = b
or_else (some a) b = a

unfoldable pub candidate_count : AlertState → Observation → ℕ
candidate_count prior item =
    if same_severity prior.severity item.severity
    then 0
    else if same_severity prior.candidate item.severity
    then prior.candidate_count + 1
    else 1

unfoldable pub candidate_first : Moment → AlertState → Observation → Option String
candidate_first m prior item =
    if same_severity prior.severity item.severity
    then none
    else if same_severity prior.candidate item.severity
    then prior.candidate_first_observed_at
    else some m.observed_at

abbrev pub threshold : Observation → ℕ
threshold item = if same_severity item.severity ok then item.recover_after else item.activate_after

-- The state of an alert that changes to the severity of the observation.
unfoldable pub changed : Moment → AlertState → Observation → AlertState
unfolding candidate_first
changed m prior item = record {
  severity = item.severity;
  candidate = item.severity;
  candidate_count = 0;
  candidate_first_observed_at = none;
  first_observed_at =
      if same_severity item.severity ok
      then none
      else some
          (or_else prior.first_observed_at (or_else (candidate_first m prior item) m.observed_at));
  last_observed_at = m.observed_at;
  last_notified_at = some m.now;
  reason_code = item.reason_code;
}

-- The state of an alert that keeps its severity.
unfoldable pub kept : Moment → AlertState → Observation → AlertState
unfolding candidate_count candidate_first
kept m prior item = record {
  severity = prior.severity;
  candidate = item.severity;
  candidate_count = candidate_count prior item;
  candidate_first_observed_at = candidate_first m prior item;
  first_observed_at = prior.first_observed_at;
  last_observed_at = m.observed_at;
  last_notified_at = prior.last_notified_at;
  reason_code =
      if same_severity prior.severity item.severity then item.reason_code else prior.reason_code;
}

abbrev pub is_change : AlertState → Observation → Bool
is_change prior item =
    not (same_severity prior.severity item.severity)
    && leb (threshold item) (candidate_count prior item)

-- A reminder is due six hours after the last notification; `none` is the error of a date.
unfoldable pub reminder_due : Dates → (now : ℕ) → Option String → Option Bool
unfolding require_iso
reminder_due d now none = some true
reminder_due d now (some at) = elim (require_iso d at) [
  | none ↦ none
  | some t ↦ some (leb_ℤ (pos 21600000) (pos now -ℤ pos t))
]

-- The notification of a change.
abbrev pub change_notification : Moment → AlertState → Observation → AlertNotification
change_notification m prior item = notification m item (
    or_else
      (if same_severity item.severity ok
        then prior.first_observed_at
        else (changed m prior item).first_observed_at)
      m.observed_at)

abbrev pub is_critical : AlertState → Observation → Bool
is_critical prior item =
    same_severity prior.severity critical && same_severity item.severity critical

-- The alert that keeps its severity, and the reminder of it where one is due.
unfoldable pub remind :
    Moment → AlertState → Observation → Option Bool → Option (AlertState × Option AlertNotification)
unfolding kept notification
remind m prior item none = none
remind m prior item (some true) = some (
  record (kept m prior item) { last_notified_at = some m.now },
  some (notification m item (or_else prior.first_observed_at m.observed_at)),
)
remind m prior item (some false) = some (kept m prior item, none)

-- One round of the loop over the observations: the new state of the alert, and the notification.
unfoldable pub observe :
    Dates
    → Moment
    → (now : ℕ) → AlertState
    → Observation
    → Option (AlertState × Option AlertNotification)
unfolding changed kept reminder_due remind notification candidate_count
observe d m now prior item =
    if is_change prior item
    then some (changed m prior item, some (change_notification m prior item))
    else if is_critical prior item
    then remind m prior item (reminder_due d now prior.last_notified_at)
    else some (kept m prior item, none)
