-- ===== src/Gateway/Events.antt =====
-- The asynchronous methods of `GatewayRuntime`, cut at their `await`s: each part gives the new state
-- and the task that it then waits for, if any.
use waw_discord_bot.Prelude.{
  ℕ, zero, suc, ◌+◌, Bool, true, false, not, Option, none, some, List, [], ◌∷◌, leb, ◌==◌,
  if◌then◌else◌, length, ◌-◌, ◌||◌,
}
use waw_discord_bot.Gateway.{
  Lifecycle, idle, connecting, ready, offline, reconnecting, stopping, stopped, not_known, current,
  failed, ReconnectMode, resume, identify, GatewayEvent, ready_event, resumed, heartbeat_ack,
  disconnected_event, invalid_session, rate_limited, GatewayRuntimeOptions, Roles, GatewayRuntime,
  Task, login, reconciling, sleeping, client_reconnect, destroying, set_members, accept_sequence,
}

abbrev pub is_idle : Lifecycle → Bool
is_idle idle = true
is_idle _ = false

abbrev pub is_ready : Lifecycle → Bool
is_ready ready = true
is_ready _ = false

abbrev pub is_reconnecting : Lifecycle → Bool
is_reconnecting reconnecting = true
is_reconnecting _ = false

abbrev pub is_stopped : Lifecycle → Bool
is_stopped stopped = true
is_stopped _ = false

-- `stop` was called.
abbrev pub is_over : Lifecycle → Bool
is_over stopping = true
is_over stopped = true
is_over _ = false

unfoldable pub start : GatewayRuntime → GatewayRuntime × Option Task
start g =
    if not (is_idle g.lifecycle)
    then (g, none)
    else (record g { lifecycle = connecting }, some login)

-- `reconcile`, up to the answer of the reconciler.
unfoldable pub reconcile : GatewayRuntime → GatewayRuntime × Option Task
reconcile g = (
  record g {
    reconciliation_generation = g.reconciliation_generation + 1;
    reconciliation = not_known;
  },
  some (reconciling (g.reconciliation_generation + 1)),
)

-- The element at an index, 0 where there is none.
abbrev delay_at : ℕ → List ℕ → ℕ
delay_at n [] = 0
delay_at zero (d ∷ ds) = d
delay_at (suc n) (d ∷ ds) = delay_at n ds

abbrev min_ℕ : ℕ → ℕ → ℕ
min_ℕ a b = if leb a b then a else b

abbrev max_ℕ : ℕ → ℕ → ℕ
max_ℕ a b = if leb a b then b else a

unfoldable pub reconnect_delay : GatewayRuntimeOptions → ℕ → GatewayRuntime → ℕ
reconnect_delay o minimum g =
    max_ℕ
      (delay_at (min_ℕ g.reconnect_attempts (length o.reconnect_delays_ms - 1))
        o.reconnect_delays_ms)
      minimum

-- `reconnect`, up to its sleep.
unfoldable pub reconnect :
    GatewayRuntimeOptions → ReconnectMode → ℕ → GatewayRuntime → GatewayRuntime × Option Task
reconnect o mode minimum g = (
  record g { reconnect_attempts = g.reconnect_attempts + 1; lifecycle = reconnecting },
  some (sleeping mode (reconnect_delay o minimum g)),
)

abbrev mode_of : Bool → ReconnectMode
mode_of true = resume
mode_of false = identify

-- What a lost connection resets before `reconnect`.
abbrev lose : GatewayRuntime → GatewayRuntime
lose g = record g { lifecycle = offline; reconciliation = not_known; roles = [] }

abbrev become_ready : ℕ → GatewayRuntime → GatewayRuntime
become_ready now g = record g {
  lifecycle = ready;
  last_heartbeat_at = some now;
  reconnect_attempts = 0;
}

-- The cases of the `switch` with a sequence, after `acceptSequence`.
unfoldable pub accept_new :
    ℕ
    → (GatewayRuntime → GatewayRuntime × Option Task)
    → GatewayRuntime
    → GatewayRuntime × Option Task
accept_new sequence handle g = elim (accept_sequence sequence g) [
  | none ↦ (g, none)
  | some g' ↦ handle g'
]

unfoldable pub switch :
    GatewayRuntimeOptions → ℕ → GatewayEvent → GatewayRuntime → GatewayRuntime × Option Task
switch o now (ready_event sequence) g = accept_new sequence (λ h. reconcile (become_ready now h)) g
switch o now (resumed sequence) g = accept_new sequence (λ h. reconcile (become_ready now h)) g
switch o now (heartbeat_ack sequence) g =
    accept_new sequence (λ h. (record h { last_heartbeat_at = some now }, none)) g
switch o now (disconnected_event resumable) g = reconnect o (mode_of resumable) 0 (lose g)
switch o now (invalid_session resumable) g = reconnect o (mode_of resumable) 0 (lose g)
switch o now (rate_limited retry_after_ms) g = reconnect o identify retry_after_ms (lose g)

unfoldable pub accept :
    GatewayRuntimeOptions → ℕ → GatewayEvent → GatewayRuntime → GatewayRuntime × Option Task
accept o now event g = if is_over g.lifecycle then (g, none) else switch o now event g

-- `stop`, up to the end of `destroy`.
unfoldable pub stop : GatewayRuntime → GatewayRuntime × Option Task
stop g = if is_stopped g.lifecycle then (g, none) else (
  record g {
    lifecycle = stopping;
    reconciliation_generation = g.reconciliation_generation + 1;
    reconciliation = not_known;
    roles = [];
  },
  some destroying,
)

-- How a task ends: the members are those of the reconciler; the other tasks resolve to nothing.
pub data Reply : Type 0 where
  resolved : Roles → Reply
  rejected : Reply

-- `reconcile`, from the answer of the reconciler on.
unfoldable pub finish_reconcile : ℕ → Reply → GatewayRuntime → GatewayRuntime
finish_reconcile generation (resolved members) g =
    if not (generation == g.reconciliation_generation) || not (is_ready g.lifecycle)
    then g
    else record g { roles = set_members members []; reconciliation = current }
finish_reconcile generation rejected g =
    if generation == g.reconciliation_generation
    then record g { roles = []; reconciliation = failed }
    else g

-- `reconnect`, from the end of its sleep on.
unfoldable pub finish_sleep : ReconnectMode → Reply → GatewayRuntime → GatewayRuntime × Option Task
finish_sleep mode rejected g = (g, none)
finish_sleep mode (resolved members) g =
    if not (is_reconnecting g.lifecycle) then (g, none) else (g, some (client_reconnect mode))

unfoldable pub continue : Task → Reply → GatewayRuntime → GatewayRuntime × Option Task
continue login reply g = (g, none)
continue (reconciling generation) reply g = (finish_reconcile generation reply g, none)
continue (sleeping mode milliseconds) reply g = finish_sleep mode reply g
continue (client_reconnect mode) reply g = (g, none)
continue destroying reply g = (record g { lifecycle = stopped }, none)
