-- ===== src/Gateway/Tests.antt =====
-- The gateway on concrete events.
use waw_discord_bot.Prelude.{◌≡◌, ◌↔◌, none, some, [], ◌∷◌, refl, true}
use waw_discord_bot.Auth.Session
use waw_discord_bot.Gateway.{
  ready, current, GatewayRuntimeOptions, GatewayRuntime, new_runtime, get_role, read_current_role,
  ready_event,
}
use waw_discord_bot.Gateway.Events.{is_over, start, accept, stop}
use waw_discord_bot.Gateway.Reach.{
  Run, spawn, here, then_step, starts, accepts, stops, new_run, IsConsistent, IsFresh,
  Reach-IsConsistent, Reach-no-role, read_current_role-some_iff,
}
use waw_discord_bot.Gateway.Sequence.{NotBelow, Reach-NotBelow}

abbrev options : GatewayRuntimeOptions
options = record { heartbeat_stale_after_ms = 90000; reconnect_delays_ms = 1000 ∷ 5000 ∷ [] }

abbrev started : Run
started = spawn [] (start new_runtime)

abbrev connected_run : Run
connected_run = spawn started.tasks (accept options 50 (ready_event 1) started.runtime)

Reach-IsConsistent_example : IsConsistent connected_run.runtime
Reach-IsConsistent_example =
    Reach-IsConsistent options
      (then_step (then_step (here new_run) (starts new_run)) (accepts 50 (ready_event 1) started))

abbrev stopped_run : Run
stopped_run = spawn [] (stop new_runtime)

abbrev called_run : Run
called_run = spawn stopped_run.tasks (accept options 50 (ready_event 1) stopped_run.runtime)

stopped_over : is_over stopped_run.runtime.lifecycle ≡ true
unfolding stop
stopped_over = refl

Reach-no-role_example :
    (is_over called_run.runtime.lifecycle ≡ true)
    × (called_run.runtime.roles ≡ [])
    × (read_current_role options 60 "7" called_run.runtime ≡ none)
Reach-no-role_example =
    Reach-no-role options (then_step (here new_run) (stops new_run)) stopped_over
      (then_step (here stopped_run) (accepts 50 (ready_event 1) stopped_run)) 60 "7"

abbrev synced : GatewayRuntime
synced = record {
  lifecycle = ready;
  last_sequence = some 1;
  last_heartbeat_at = some 50;
  reconnect_attempts = 0;
  reconciliation = current;
  reconciliation_generation = 1;
  roles = ("7", Session.operator) ∷ [];
}

read_current_role-some_iff_example :
    (read_current_role options 60 "7" synced ≡ some Session.operator) ↔ (
      (synced.lifecycle ≡ ready)
      × (synced.reconciliation ≡ current)
      × IsFresh (some 50) 60 90000
      × (get_role "7" synced.roles ≡ some Session.operator))
read_current_role-some_iff_example =
    read_current_role-some_iff options 60 "7" synced Session.operator

Reach-NotBelow_example : NotBelow started.runtime.last_sequence connected_run.runtime.last_sequence
Reach-NotBelow_example =
    Reach-NotBelow options (then_step (here started) (accepts 50 (ready_event 1) started))
