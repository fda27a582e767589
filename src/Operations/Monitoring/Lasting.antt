-- ===== src/Operations/Monitoring/Lasting.antt =====
-- A condition that lasts is notified.
use waw_discord_bot.Prelude.{
  ℕ, ◌+◌, ◌≤◌, ◌≡◌, refl, Bool, true, false, Option, none, some, str_eq, List, [], ◌∷◌, All, any,
  length, arith, Bool-cases, inl, inr, ◌&&◌, ◌>>=◌, ◌⊎◌, ◌<◌, if◌then◌else◌, eq_refl,
}
use waw_discord_bot.Operations.Monitoring.{
  AlertSeverity, same_severity, AlertState, Observation, Moment, AlertNotification, Dates,
  require_iso, threshold, notification, change_notification, observe,
}
use waw_discord_bot.Operations.Monitoring.Laws.{IsAlert, observe-IsAlert}

-- The same observation at each of some moments: the alert after them, and the notifications.
abbrev pub watch :
    Dates → List Moment → AlertState → Observation → Option (AlertState × List AlertNotification)
watch d [] prior item = some (prior, [])
watch d (m ∷ ms) prior item = do
  now ← require_iso d m.now
  step ← observe d m now prior item
  rest ← watch d ms step.0 item
  some (rest.0, elim step.1 [ none ↦ rest.1 | some n ↦ n ∷ rest.1 ])

abbrev pub Timed : Dates → Moment → Type 0
Timed d m = (t : ℕ) × (require_iso d m.now ≡ some t)

-- How many observations of this severity came last.
abbrev pub so_far : AlertState → Observation → ℕ
so_far prior item = if same_severity prior.candidate item.severity then prior.candidate_count else 0

-- The notification says that the alert has the severity of the observation.
abbrev pub tells : Observation → AlertNotification → Bool
tells item n = same_severity n.severity item.severity && str_eq n.alert_key item.key

any_later :
    {A : Type 0} (p : A → Bool) (first : Option A) (rest : List A)
    → any p rest ≡ true
    → any p (elim first [ none ↦ rest | some n ↦ n ∷ rest ]) ≡ true
any_later p none rest h = h
any_later p (some n) rest h = elim (Bool-cases (p n)) [
  | inl yes_first ↦ rw yes_first
  | inr no_first ↦ rw no_first h
]

module _ (d : Dates) (item : Observation) where
  -- An alert that has the severity keeps it.
  observe-same :
      (m : Moment) (now : ℕ) (prior : AlertState) (step : AlertState × Option AlertNotification)
      → same_severity prior.severity item.severity ≡ true
      → observe d m now prior item ≡ some step
      → same_severity step.0.severity item.severity ≡ true
  unfolding observe
  observe-same m now prior step same e = ground arith

  -- One that has another severity changes, or counts one more.
  observe-other :
      (m : Moment) (now : ℕ) (prior : AlertState) (step : AlertState × Option AlertNotification)
      → same_severity prior.severity item.severity ≡ false
      → observe d m now prior item ≡ some step
      → ((threshold item ≤ so_far prior item + 1)
          × (same_severity step.0.severity item.severity ≡ true)
          × (step.1 ≡ some (change_notification m prior item)))
        ⊎ ((so_far prior item + 1 < threshold item)
            × (same_severity step.0.severity item.severity ≡ false)
            × (so_far step.0 item ≡ so_far prior item + 1))
  unfolding observe
  observe-other m now prior step other e = ground arith

  abbrev Ends : Option (AlertState × List AlertNotification) → Type 0
  Ends x =
      (end : AlertState × List AlertNotification) × (x ≡ some end)
      × (same_severity end.0.severity item.severity ≡ true)

  watch-same :
      (ms : List Moment) (prior : AlertState)
      → All (Timed d) ms
      → IsAlert d prior
      → same_severity prior.severity item.severity ≡ true
      → Ends (watch d ms prior item)
  watch-same [] prior timed h same = ((prior, []), refl, same)
  watch-same (m ∷ ms) prior ((now, t), timed) h same =
      let (step, e, good) = observe-IsAlert d m now t item h in
      let (end, f, g) = watch-same ms step.0 timed good (observe-same m now prior step same e) in
      rw (t, e, f) (_, refl, g)

  same_severity_refl : (a : AlertSeverity) → same_severity a a ≡ true
  same_severity_refl a = ground arith

  change-tells :
      (m : Moment) (prior : AlertState) → tells item (change_notification m prior item) ≡ true
  unfolding notification
  change-tells m prior = rw (same_severity_refl item.severity) (eq_refl item.key)

  -- A condition that lasts is notified: if an observation of another severity than that of a
  -- well-formed alert comes at least once more, at whatever instants, and as often as its threshold
  -- counting those that came last before, then no error is thrown, the alert has the severity in the
  -- end, and a notification said so.
  pub watch-reached :
      (ms : List Moment) (prior : AlertState)
      → All (Timed d) ms
      → IsAlert d prior
      → same_severity prior.severity item.severity ≡ false
      → 1 ≤ length ms
      → threshold item ≤ so_far prior item + length ms
      → (end : AlertState × List AlertNotification) × (watch d ms prior item ≡ some end)
        × (same_severity end.0.severity item.severity ≡ true)
        × (any (tells item) end.1 ≡ true)
  watch-reached [] prior timed h other some_come enough = absurd (omega arith)
  watch-reached (m ∷ ms) prior ((now, t), timed) h other some_come enough =
      let (step, e, good) = observe-IsAlert d m now t item h in
      elim (observe-other m now prior step other e) [
        | inl (reached, same, told) ↦
            let (end, f, g) = watch-same ms step.0 timed good same in
            rw (t, e, f, told) (_, refl, g, rw (change-tells m prior))
        | inr (short, still, counted) ↦
            let (end, f, g, n) =
              watch-reached ms step.0 timed good still (omega arith) (omega arith) in
            rw (t, e, f) (_, refl, g, any_later (tells item) step.1 end.1 n)
      ]
