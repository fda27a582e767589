-- ===== src/Operations/Tests.antt =====
-- The monitoring on concrete alerts, with dates that are tallies.
use waw_discord_bot.Prelude.{
  ℕ, zero, suc, ◌≡◌, refl, true, false, none, some, List, [], ◌∷◌, int, pos, length, ◌-ℤ◌, ◌*ℤ◌,
  instant, String, any, arith,
}
use mathlib.Core.Option
use waw_discord_bot.Kbo.Identifiers.{codes}
use waw_discord_bot.Operations.Monitoring.{
  ok, warning, same_severity, AlertState, Observation, Moment, AlertNotification, Dates,
  require_iso,
}
use waw_discord_bot.Operations.Monitoring.Evaluate.{
  Outcome, MonitoringSnapshot, is_safe_token, evaluate_monitoring,
}
use waw_discord_bot.Runtime.{degraded}
use waw_discord_bot.Operations.Monitoring.Laws.{AreAlerts, IsAlert, evaluate_monitoring-AreAlerts}
use waw_discord_bot.Operations.Monitoring.Lasting.{watch, tells, watch-reached}

abbrev tally : ℕ → String
tally zero = ""
tally (suc t) = String.◌∷◌ "|" (tally t)

abbrev dates : Dates
dates = record { parse = λ s. instant (length (codes s)); to_iso = tally }

abbrev snapshot : MonitoringSnapshot
snapshot = record {
  now = "||";
  observed_at = "|";
  service_version = "1.0.0";
  expected_units = ("waw-web.service", true) ∷ ("waw-bot.service", false) ∷ [];
  runtime_health = some degraded;
  last_backup_published_at = some "|";
  certificate_expires_at = none;
  journal_used_bytes = int (pos 8);
  journal_max_bytes = int (pos 10);
  filesystem_free_bytes = int (pos 6442450944);
  journal_suppression_consecutive = int (pos 0);
}

now_read : require_iso dates "||" ≡ some 2
unfolding require_iso
now_read = refl

version_ok : is_safe_token "1.0.0" ≡ true
unfolding is_safe_token
version_ok = refl

-- The bot is down, and the journal is nearly full; the other alerts are as they were.
evaluated :
    Option.map (λ o. length o.notifications) (evaluate_monitoring dates snapshot []) ≡ some 2
unfolding evaluate_monitoring ◌-ℤ◌ ◌*ℤ◌
evaluated = refl

evaluate_monitoring-AreAlerts_example :
    (o : Outcome) × (evaluate_monitoring dates snapshot [] ≡ some o) × AreAlerts dates o.states
evaluate_monitoring-AreAlerts_example =
    evaluate_monitoring-AreAlerts dates snapshot [] 2 now_read version_ok tt

abbrev at : String → Moment
at now = record { now = now; observed_at = now; service_version = "1.0.0" }

abbrev healthy_alert : AlertState
healthy_alert = record {
  severity = ok;
  candidate = ok;
  candidate_count = 0;
  candidate_first_observed_at = none;
  first_observed_at = none;
  last_observed_at = "|";
  last_notified_at = none;
  reason_code = "runtime_healthy";
}

healthy_alert-IsAlert : IsAlert dates healthy_alert
healthy_alert-IsAlert = record {
  since = refl;
  counted = refl;
  candidate_since = refl;
  notified = tt;
}

abbrev slow : Observation
slow = record {
  key = "runtime.health";
  severity = warning;
  reason_code = "runtime_degraded";
  activate_after = 2;
  recover_after = 2;
}

watch-reached_example :
    (end : AlertState × List AlertNotification) × (watch dates
        (at "||" ∷ at "||" ∷ [])
        healthy_alert
        slow
      ≡ some end)
    × (same_severity end.0.severity warning ≡ true)
    × (any (tells slow) end.1 ≡ true)
watch-reached_example =
    watch-reached dates slow (at "||" ∷ at "||" ∷ []) healthy_alert
      ((2, now_read), ((2, now_read), tt)) healthy_alert-IsAlert refl (omega arith) (omega arith)
