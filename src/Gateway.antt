-- ===== src/Gateway.antt =====
-- The connection to Discord's gateway: src/gateway/gateway-runtime.ts.
pub mod Events
pub mod Reach
pub mod Sequence
pub mod Tests
use waw_discord_bot.Prelude.{
  ℕ, ◌+◌, ◌≡◌, Bool, true, false, not, ◌&&◌, ◌||◌, Option, none, some, String, str_eq, List, [],
  ◌∷◌, leb, ltb, ◌==◌, if◌then◌else◌, length, ◌-◌,
}
use waw_discord_bot.Auth.Session.{AuthorizationTier}
use waw_discord_bot.Runtime.{GatewayState, connected, disconnected, unknown}

pub data Lifecycle : Type 0 where
  idle connecting ready offline reconnecting stopping stopped : Lifecycle

pub data Reconciliation : Type 0 where
  not_known current failed : Reconciliation

pub data ReconnectMode : Type 0 where
  resume identify : ReconnectMode

pub data GatewayEvent : Type 0 where
  ready_event resumed heartbeat_ack : (sequence : ℕ) → GatewayEvent
  disconnected_event invalid_session : (resumable : Bool) → GatewayEvent
  rate_limited : (retry_after_ms : ℕ) → GatewayEvent

pub record GatewayRuntimeOptions : Type 0 where
  pub heartbeat_stale_after_ms : ℕ
  pub reconnect_delays_ms : List ℕ

abbrev pub Roles : Type 0
Roles = List (String × AuthorizationTier)

pub record GatewayRuntime : Type 0 where
  pub lifecycle : Lifecycle
  pub last_sequence : Option ℕ
  pub last_heartbeat_at : Option ℕ
  pub reconnect_attempts : ℕ
  pub reconciliation : Reconciliation
  pub reconciliation_generation : ℕ
  pub roles : Roles

abbrev pub new_runtime : GatewayRuntime
new_runtime = record {
  lifecycle = idle;
  last_sequence = none;
  last_heartbeat_at = none;
  reconnect_attempts = 0;
  reconciliation = not_known;
  reconciliation_generation = 0;
  roles = [];
}

-- What a call waits for, at an `await`, and what it goes on with.
pub data Task : Type 0 where
  login : Task
  reconciling : (generation : ℕ) → Task
  sleeping : ReconnectMode → (milliseconds : ℕ) → Task
  client_reconnect : ReconnectMode → Task
  destroying : Task

-- `Map.get`; a map that was set twice at a key has the later pair in front.
unfoldable pub get_role : String → Roles → Option AuthorizationTier
get_role actor [] = none
get_role actor ((key, tier) ∷ rest) = if str_eq key actor then some tier else get_role actor rest

-- `next.set` for every member, the later ones over the earlier.
unfoldable pub set_members : Roles → Roles → Roles
set_members [] roles = roles
set_members (member ∷ members) roles = set_members members (member ∷ roles)

-- `gatewayState`
unfoldable pub gateway_state : GatewayRuntimeOptions → ℕ → GatewayRuntime → GatewayState
gateway_state o now g = elim g.lifecycle [
  | idle ↦ unknown
  | connecting ↦ unknown
  | ready ↦ elim g.reconciliation [
    | current ↦ elim g.last_heartbeat_at [
      | none ↦ disconnected
      | some at ↦ if ltb (at + o.heartbeat_stale_after_ms) now then disconnected else connected
    ]
    | not_known ↦ disconnected
    | failed ↦ disconnected
  ]
  | offline ↦ disconnected
  | reconnecting ↦ disconnected
  | stopping ↦ disconnected
  | stopped ↦ disconnected
]

abbrev is_connected : GatewayState → Bool
is_connected connected = true
is_connected _ = false

abbrev is_current : Reconciliation → Bool
is_current current = true
is_current _ = false

unfoldable pub read_current_role :
    GatewayRuntimeOptions → ℕ → String → GatewayRuntime → Option AuthorizationTier
read_current_role o now actor g =
    if not (is_connected (gateway_state o now g)) || not (is_current g.reconciliation)
    then none
    else get_role actor g.roles

-- `acceptSequence`: none for a sequence that is not above the last one.
unfoldable pub accept_sequence : ℕ → GatewayRuntime → Option GatewayRuntime
accept_sequence sequence g = elim g.last_sequence [
  | none ↦ some (record g { last_sequence = some sequence })
  | some last ↦
      if leb sequence last then none else some (record g { last_sequence = some sequence })
]
