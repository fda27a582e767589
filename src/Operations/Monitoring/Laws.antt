-- ===== src/Operations/Monitoring/Laws.antt =====
-- The alerts stay well formed, and a condition that lasts is notified.
use waw_discord_bot.Prelude.{
  ℕ, ◌≡◌, refl, Bool, true, false, Option, none, some, String, str_eq, List, [], ◌∷◌, All, arith,
  is_none, ◌==◌, pos, leb_ℤ, ◌-ℤ◌, Bool-cases, inl, inr,
}
use waw_discord_bot.Operations.Monitoring.{
  ok, critical, same_severity, AlertState, Observation, Moment, AlertNotification, Dates,
  require_iso, initial_state, changed, kept, is_change, is_critical, reminder_due, observe, remind,
  parse_iso,
}
use waw_discord_bot.Operations.Monitoring.Evaluate.{
  AlertStates, get_state, set_state, Outcome, prior_of, apply_from, apply_observations,
  MonitoringSnapshot, is_safe_token, evaluate_monitoring, observations, is_stale, moment,
  observation,
}

abbrev none_yet : AlertStates → Outcome
none_yet previous = record { states = previous; notifications = [] }

abbrev stale_observations : List Observation
stale_observations = observation "monitor.input" critical "monitor_input_stale" ∷ []

abbrev pub IsInstant : Dates → Option String → Type 0
IsInstant d none = Unit
IsInstant d (some s) = (t : ℕ) × (require_iso d s ≡ some t)

-- An alert has a first instant exactly while it is not ok, and a candidate, with its count and its
-- instant, exactly while the last observation was of another severity.
pub record IsAlert (d : Dates) (s : AlertState) : Type 0 where
  pub since : is_none s.first_observed_at ≡ same_severity s.severity ok
  pub counted : (s.candidate_count == 0) ≡ same_severity s.severity s.candidate
  pub candidate_since : is_none s.candidate_first_observed_at ≡ same_severity s.severity s.candidate
  pub notified : IsInstant d s.last_notified_at

module _ (d : Dates) where
  initial_state-IsAlert : (now : String) → IsAlert d (initial_state now)
  unfolding initial_state
  initial_state-IsAlert now = record {
    since = refl;
    counted = refl;
    candidate_since = refl;
    notified = tt;
  }

  -- The alerts of a list of states.
  abbrev pub AreAlerts : AlertStates → Type 0
  AreAlerts states = All (λ (entry : String × AlertState). IsAlert d entry.1) states

  module _ (m : Moment) (now : ℕ) (timed : require_iso d m.now ≡ some now) where
    changed-IsAlert : (prior : AlertState) (item : Observation) → IsAlert d (changed m prior item)
    unfolding changed
    changed-IsAlert prior item = record {
      since = ground arith;
      counted = ground arith;
      candidate_since = ground arith;
      notified = (now, timed);
    }

    kept-IsAlert :
        {prior : AlertState} (item : Observation) → IsAlert d prior → IsAlert d (kept m prior item)
    unfolding kept
    kept-IsAlert item h = record {
      since = h.since;
      counted = ground arith;
      candidate_since = ground arith;
      notified = h.notified;
    }

    reminder_due-total :
        (at : Option String) → IsInstant d at → (b : Bool) × (reminder_due d now at ≡ some b)
    unfolding reminder_due
    reminder_due-total none h = (true, refl)
    reminder_due-total (some at) (t, e) =
        (leb_ℤ (pos 21600000) (pos now -ℤ pos t), rw (e, reminder_due))

    abbrev Gives : Option (AlertState × Option AlertNotification) → Type 0
    Gives x = (step : AlertState × Option AlertNotification) × (x ≡ some step) × IsAlert d step.0

    remind-IsAlert :
        {prior : AlertState} (item : Observation) (due : Bool)
        → IsAlert d prior
        → Gives (remind m prior item (some due))
    unfolding remind
    remind-IsAlert item true h =
        let stays = kept-IsAlert item h in
        (
          _,
          refl,
          record {
            since = stays.since;
            counted = stays.counted;
            candidate_since = stays.candidate_since;
            notified = (now, timed);
          },
        )
    remind-IsAlert item false h = (_, refl, kept-IsAlert item h)

    -- A round gives the next state of an alert, and keeps it well formed.
    pub observe-IsAlert :
        {prior : AlertState} (item : Observation)
        → IsAlert d prior
        → Gives (observe d m now prior item)
    unfolding observe
    observe-IsAlert {prior} item h = elim (Bool-cases (is_change prior item)) [
      | inl differs ↦ rw differs (_, refl, changed-IsAlert prior item)
      | inr same ↦ elim (Bool-cases (is_critical prior item)) [
        | inl urgent ↦
            let (due, e) = reminder_due-total prior.last_notified_at h.notified in
            rw (same, urgent, e) (remind-IsAlert item due h)
        | inr calm ↦ rw (same, calm) (_, refl, kept-IsAlert item h)
      ]
    ]

    prior_of-IsAlert :
        (previous : AlertStates) (item : Observation)
        → AreAlerts previous
        → IsAlert d (prior_of m previous item)
    unfolding get_state
    prior_of-IsAlert [] item h = initial_state-IsAlert m.now
    prior_of-IsAlert ((k, s) ∷ rest) item (good, h) = elim (Bool-cases (str_eq k item.key)) [
      | inl found ↦ rw found good
      | inr other ↦ rw other (prior_of-IsAlert rest item h)
    ]

    set_state-AreAlerts :
        (key : String) (state : AlertState) (states : AlertStates)
        → IsAlert d state
        → AreAlerts states
        → AreAlerts (set_state key state states)
    unfolding set_state
    set_state-AreAlerts key state [] good h = (good, tt)
    set_state-AreAlerts key state ((k, s) ∷ rest) good (first, h) =
        elim (Bool-cases (str_eq k key)) [
          | inl found ↦ rw found (good, h)
          | inr other ↦ rw other (first, set_state-AreAlerts key state rest good h)
        ]

    apply_from-AreAlerts :
        (previous : AlertStates) (items : List Observation) (done : Outcome)
        → AreAlerts previous
        → AreAlerts done.states
        → (o : Outcome) × (apply_from d m now previous items done ≡ some o) × AreAlerts o.states
    unfolding apply_from
    apply_from-AreAlerts previous [] done h g = (done, refl, g)
    apply_from-AreAlerts previous (item ∷ items) done h g =
        let (step, e, good) = observe-IsAlert item (prior_of-IsAlert previous item h) in
        rw e (
          apply_from-AreAlerts previous items _ h
            (set_state-AreAlerts item.key step.0 done.states good g))

  -- With an instant as `now` and a version that is a token, an evaluation of well-formed alerts throws
  -- no error and gives well-formed alerts.
  pub evaluate_monitoring-AreAlerts :
      (s : MonitoringSnapshot) (previous : AlertStates) (now : ℕ)
      → require_iso d s.now ≡ some now
      → is_safe_token s.service_version ≡ true
      → AreAlerts previous
      → (o : Outcome) × (evaluate_monitoring d s previous ≡ some o) × AreAlerts o.states
  unfolding evaluate_monitoring apply_observations
  evaluate_monitoring-AreAlerts s previous now timed version h =
      elim (Bool-cases (is_stale (parse_iso d s.observed_at) now)) [
        | inl stale ↦
            rw (timed, version, stale)
              (apply_from-AreAlerts (moment s s.now) now timed previous stale_observations
                (none_yet previous) h h)
        | inr fresh ↦
            rw (timed, version, fresh)
              (apply_from-AreAlerts (moment s s.observed_at) now timed previous
                (observations d s now) (none_yet previous) h h)
      ]
