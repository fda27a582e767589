-- ===== src/Runtime.antt =====
-- The health of the two processes and the lease of the bot: src/runtime/health.ts.
pub mod Tests
use waw_discord_bot.Prelude.{
  ◌≡◌, ◌↔◌, ◌≢◌, ◌⊎◌, Bool, true, false, not, ◌&&◌, ◌||◌, Option, none, some, String, str_eq,
  if◌then◌else◌, arith, refl, eq_refl, eq_iff,
}

pub data GatewayState : Type 0 where
  connected disconnected unknown : GatewayState

pub data HealthStatus : Type 0 where
  healthy degraded unavailable : HealthStatus

pub record RuntimeHealthInput : Type 0 where
  pub web_process_running : Bool
  pub storage_available : Bool
  pub bot_process_running : Bool
  pub gateway_state : GatewayState

pub data Availability : Type 0 where
  is_available is_unavailable : Availability

pub data BotHealth : Type 0 where
  bot_connected bot_degraded bot_unavailable : BotHealth

pub record RuntimeHealth : Type 0 where
  pub status : HealthStatus
  pub web : Availability
  pub storage : Availability
  pub bot : BotHealth

abbrev if_connected : GatewayState → BotHealth
if_connected connected = bot_connected
if_connected _ = bot_degraded

unfoldable pub bot_health : RuntimeHealthInput → BotHealth
bot_health i = if not i.bot_process_running then bot_unavailable else if_connected i.gateway_state

abbrev availability : Bool → Availability
availability true = is_available
availability false = is_unavailable

abbrev status_of : BotHealth → HealthStatus
status_of bot_connected = healthy
status_of _ = degraded

unfoldable pub evaluate_runtime_health : RuntimeHealthInput → RuntimeHealth
evaluate_runtime_health i =
    if not i.web_process_running || not i.storage_available
    then record {
      status = unavailable;
      web = availability i.web_process_running;
      storage = availability i.storage_available;
      bot = bot_health i;
    }
    else record {
      status = status_of (bot_health i);
      web = is_available;
      storage = is_available;
      bot = bot_health i;
    }

-- The system is healthy exactly if the web process, the storage and the bot are up and the gateway is
-- connected, and unavailable exactly if the web process or the storage is down; the bot never makes
-- it more than degraded.
pub evaluate_runtime_health-status_iff :
    (i : RuntimeHealthInput)
    → (((evaluate_runtime_health i).status ≡ healthy) ↔ (
        (i.web_process_running ≡ true)
        × (i.storage_available ≡ true)
        × (i.bot_process_running ≡ true)
        × (i.gateway_state ≡ connected)))
      × (((evaluate_runtime_health i).status ≡ unavailable)
          ↔ ((i.web_process_running ≡ false) ⊎ (i.storage_available ≡ false)))
unfolding evaluate_runtime_health bot_health
evaluate_runtime_health-status_iff i = ground arith

-- `InMemorySingletonLease`: the owner, and the answers of `claim` and `release`.
abbrev pub Lease : Type 0
Lease = Option String

unfoldable pub claim_lease : String → Lease → Bool × Lease
claim_lease owner none = (true, some owner)
claim_lease owner (some held) = (false, some held)

unfoldable pub release_lease : String → Lease → Bool × Lease
release_lease owner none = (false, none)
release_lease owner (some held) = if str_eq held owner then (true, none) else (false, some held)

-- A lease that one owner claimed is refused to whoever asks next and is released by no other, and
-- its owner releases it so that it can be claimed again.
pub claim-release_lease :
    (owner other next : String) (lease held : Lease)
    → other ≢ owner
    → claim_lease owner lease ≡ (true, held)
    → (claim_lease next held ≡ (false, held))
      × (release_lease other held ≡ (false, held))
      × (claim_lease next (release_lease owner held).1 ≡ (true, some next))
unfolding claim_lease release_lease
claim-release_lease owner other next none held apart h =
    ground (arith, eq_iff owner other, eq_refl owner)
claim-release_lease owner other next (some x) held apart h = absurd (ground arith)
