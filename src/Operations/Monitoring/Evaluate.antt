-- ===== src/Operations/Monitoring/Evaluate.antt =====
-- `evaluateMonitoring` and `applyObservations` of src/operations/monitoring.ts. The alerts are an
-- association list in the order of insertion. The share of the journal that is used is compared
-- exactly, where the source divides numbers; the two agree up to sizes of petabytes.
use waw_discord_bot.Prelude.{
  ℕ, Bool, true, false, Option, none, some, String, str_eq, List, [], ◌∷◌, ◌++◌, map, all, length,
  sort, leb, ltb, ◌==◌, if◌then◌else◌, ◌&&◌, ◌||◌, not, ℤ, pos, ◌-ℤ◌, ◌*ℤ◌, leb_ℤ, ltb_ℤ, eqb_ℤ,
  Number, int, not_integer, is_safe_integer, ◌>>=◌,
}
use Prim.Native.String
use waw_discord_bot.Kbo.Identifiers.{codes, is_alphanumeric}
use waw_discord_bot.Runtime.{HealthStatus, healthy, degraded, unavailable}
use waw_discord_bot.Operations.Monitoring.{
  AlertSeverity, ok, warning, critical, AlertState, Observation, Moment, AlertNotification, Dates,
  parse_iso, require_iso, initial_state, or_else, observe,
}

-- `SAFE_TOKEN`
unfoldable pub is_safe_token : String → Bool
unfolding is_alphanumeric
is_safe_token s =
    all
      (λ c.
        is_alphanumeric c
        || c == b'.'
        || c == b'_'
        || c == b':'
        || c == b'@'
        || c == b'/'
        || c == b'+'
        || c == b'-')
      (codes s)
    && leb 1 (length (codes s))
    && leb (length (codes s)) 128

abbrev pub AlertStates : Type 0
AlertStates = List (String × AlertState)

-- `states[key]`
unfoldable pub get_state : String → AlertStates → Option AlertState
get_state key [] = none
get_state key ((k, s) ∷ rest) = if str_eq k key then some s else get_state key rest

-- `states[key] = state`
unfoldable pub set_state : String → AlertState → AlertStates → AlertStates
set_state key state [] = (key, state) ∷ []
set_state key state ((k, s) ∷ rest) =
    if str_eq k key then (k, state) ∷ rest else (k, s) ∷ set_state key state rest

pub record Outcome : Type 0 where
  pub states : AlertStates
  pub notifications : List AlertNotification

abbrev pub noted : List AlertNotification → Option AlertNotification → List AlertNotification
noted notes none = notes
noted notes (some n) = notes ++ n ∷ []

abbrev pub prior_of : Moment → AlertStates → Observation → AlertState
prior_of m previous item = or_else (get_state item.key previous) (initial_state m.now)

-- The loop of `applyObservations`.
unfoldable pub apply_from :
    Dates
    → Moment
    → (now : ℕ) (previous : AlertStates) → List Observation
    → Outcome
    → Option Outcome
unfolding observe initial_state get_state set_state
apply_from d m now previous [] done = some done
apply_from d m now previous (item ∷ items) done = do
  step ← observe d m now (prior_of m previous item) item
  apply_from d m now previous items record {
    states = set_state item.key step.0 done.states;
    notifications = noted done.notifications step.1;
  }

unfoldable pub apply_observations : Dates → Moment → AlertStates → List Observation → Option Outcome
unfolding require_iso apply_from
apply_observations d m previous items = do
  now ← require_iso d m.now
  apply_from d m now previous items record { states = previous; notifications = [] }

-- `observation` with its default thresholds.
abbrev pub observation : String → AlertSeverity → String → Observation
observation key severity reason = record {
  key = key;
  severity = severity;
  reason_code = reason;
  activate_after = 1;
  recover_after = 1;
}

abbrev runtime : AlertSeverity → String → ℕ → Observation
runtime severity reason activate = record (observation "runtime.health" severity reason) {
  activate_after = activate;
  recover_after = 2;
}

unfoldable pub health_observation : HealthStatus → Observation
health_observation unavailable = runtime critical "runtime_unavailable" 1
health_observation degraded = runtime warning "runtime_degraded" 5
health_observation healthy = runtime ok "runtime_healthy" 1

-- The text of an instant that may be missing.
abbrev read_iso : Dates → Option String → Option ℕ
read_iso d none = none
read_iso d (some s) = parse_iso d s

unfoldable pub age_observation :
    Dates
    → (key : String) (timestamp : Option String) (now warning_age critical_age : ℕ) → Observation
age_observation d key timestamp now warning_age critical_age = elim (read_iso d timestamp) [
  | none ↦ observation key critical "backup_marker_invalid"
  | some value ↦
      let age = pos now -ℤ pos value in
      if ltb now value
      then observation key critical "backup_marker_invalid"
      else if leb_ℤ (pos critical_age) age
      then observation key critical "backup_age_critical"
      else if leb_ℤ (pos warning_age) age
      then observation key warning "backup_age_warning"
      else observation key ok "backup_age_ok"
]

abbrev expiring : Option ℕ → (now : ℕ) → Observation
expiring none now = observation "certificate.expiry" critical "certificate_expiry_invalid"
expiring (some value) now =
    let remaining = pos value -ℤ pos now in
    if ltb_ℤ remaining (pos 1209600000)
    then observation "certificate.expiry" critical "certificate_expiry_critical"
    else if ltb_ℤ remaining (pos 1814400000)
    then observation "certificate.expiry" warning "certificate_expiry_warning"
    else observation "certificate.expiry" ok "certificate_expiry_ok"

unfoldable pub certificate_observation :
    Dates → (expires_at : Option String) (now : ℕ) → Observation
certificate_observation d none now =
    observation "certificate.expiry" ok "certificate_monitoring_disabled"
certificate_observation d (some s) now = expiring (parse_iso d s) now

-- A number of bytes: a safe integer that is not negative.
abbrev as_count : Number → Option ℤ
as_count (int z) = if is_safe_integer (int z) && leb_ℤ (pos 0) z then some z else none
as_count not_integer = none

abbrev capacity : ℤ → ℤ → ℤ → Observation
capacity used max free =
    if eqb_ℤ max (pos 0)
    then observation "journal.capacity" critical "journal_capacity_invalid"
    else if leb_ℤ free (pos 4294967296)
    then observation "journal.capacity" critical "filesystem_free_critical"
    else if leb_ℤ (pos 4 *ℤ max) (pos 5 *ℤ used) || leb_ℤ free (pos 5368709120)
    then observation "journal.capacity" warning "journal_capacity_warning"
    else observation "journal.capacity" ok "journal_capacity_ok"

unfoldable pub capacity_observation : (used max free : Number) → Observation
capacity_observation used max free =
    or_else (do u ← as_count used; m ← as_count max; f ← as_count free; some (capacity u m f))
      (observation "journal.capacity" critical "journal_capacity_invalid")

abbrev dropped : AlertSeverity → String → Observation
dropped severity reason = record (observation "journal.dropped" severity reason) {
  recover_after = 10;
}

unfoldable pub suppression_observation : Number → Observation
suppression_observation consecutive = elim (as_count consecutive) [
  | none ↦ dropped critical "journal_suppression_invalid"
  | some n ↦
      if leb_ℤ (pos 2) n
      then dropped critical "journal_suppression_repeated"
      else if eqb_ℤ n (pos 1)
      then dropped warning "journal_suppression_detected"
      else dropped ok "journal_suppression_clear"
]

pub record MonitoringSnapshot : Type 0 where
  pub now : String
  pub observed_at : String
  pub service_version : String
  pub expected_units : List (String × Bool)
  pub runtime_health : Option HealthStatus
  pub last_backup_published_at : Option String
  pub certificate_expires_at : Option String
  pub journal_used_bytes : Number
  pub journal_max_bytes : Number
  pub filesystem_free_bytes : Number
  pub journal_suppression_consecutive : Number

abbrev unit_names : List (String × Bool) → List String
unit_names units = map (λ u. u.0) units

abbrev is_running : String → List (String × Bool) → Bool
is_running unit [] = false
is_running unit ((k, b) ∷ rest) = if str_eq k unit then b else is_running unit rest

abbrev service_observation : List (String × Bool) → String → Observation
service_observation units unit =
    if is_running unit units
    then observation (String.◌++◌ "service." unit) ok "service_active"
    else observation (String.◌++◌ "service." unit) critical "service_inactive"

abbrev is_empty {ℓ} : {A : Type ℓ} → List A → Bool
is_empty [] = true
is_empty (x ∷ xs) = false

-- The observations of the units.
unfoldable pub unit_observations : List (String × Bool) → List Observation
unfolding sort is_safe_token
unit_observations units =
    if not (is_empty units) && all is_safe_token (unit_names units)
    then observation "monitor.input" ok "monitor_input_valid"
      ∷ map (service_observation units) (sort (unit_names units))
    else observation "monitor.input" critical "monitor_units_invalid" ∷ []

abbrev health_observations : Option HealthStatus → List Observation
health_observations none = []
health_observations (some status) = health_observation status ∷ []

-- The observations of a snapshot that is not stale.
unfoldable pub observations : Dates → MonitoringSnapshot → (now : ℕ) → List Observation
unfolding unit_observations health_observation age_observation certificate_observation
    capacity_observation suppression_observation
observations d s now =
    unit_observations s.expected_units
    ++ health_observations s.runtime_health
    ++ age_observation d "backup.age" s.last_backup_published_at now 72000000 86400000
      ∷ certificate_observation d s.certificate_expires_at now
      ∷ capacity_observation s.journal_used_bytes s.journal_max_bytes s.filesystem_free_bytes
      ∷ suppression_observation s.journal_suppression_consecutive
      ∷ []

-- The observation was made more than two minutes from now, or at no instant.
abbrev pub is_stale : Option ℕ → (now : ℕ) → Bool
is_stale none now = true
is_stale (some at) now =
    ltb_ℤ (pos 120000) (pos now -ℤ pos at) || ltb_ℤ (pos 120000) (pos at -ℤ pos now)

abbrev pub moment : MonitoringSnapshot → (observed_at : String) → Moment
moment s at = record { now = s.now; observed_at = at; service_version = s.service_version }

-- `none` is the error of an instant or of a version.
unfoldable pub evaluate_monitoring :
    Dates → MonitoringSnapshot → (previous : AlertStates) → Option Outcome
unfolding require_iso is_safe_token apply_observations observations
evaluate_monitoring d s previous = do
  now ← require_iso d s.now
  if not (is_safe_token s.service_version)
      then none
      else if is_stale (parse_iso d s.observed_at) now
      then apply_observations d (moment s s.now) previous
          (observation "monitor.input" critical "monitor_input_stale" ∷ [])
      else apply_observations d (moment s s.observed_at) previous (observations d s now)

-- `createOperationalEvent`: the timestamp, the correlation, the type, the operation, the reason and
-- the version are checked, and the duration; the outcome is one by its type.
pub data EventOutcome : Type 0 where
  success failure denied timeout : EventOutcome

pub record OperationalEvent : Type 0 where
  pub timestamp : String
  pub correlation_id : String
  pub event_type : String
  pub operation : String
  pub outcome : EventOutcome
  pub reason_code : String
  pub duration_ms : Number
  pub service_version : String

unfoldable pub create_operational_event : Dates → OperationalEvent → Option OperationalEvent
unfolding require_iso is_safe_token
create_operational_event d e = do
  at ← require_iso d e.timestamp
  duration ← as_count e.duration_ms
  if is_safe_token e.correlation_id
        && is_safe_token e.event_type
        && is_safe_token e.operation
        && is_safe_token e.reason_code
        && is_safe_token e.service_version
      then some e
      else none
