-- ===== src/Gateway/Reach.antt =====
-- The interleavings of the calls of a `GatewayRuntime`, as sequences of steps between awaits.
use waw_discord_bot.Prelude.{
  ◌++◌, any, ℕ, ◌+◌, ◌≤◌, ◌≡◌, ◌⊎◌, ◌↔◌, refl, Bool, true, false, Option, none, some, String, List,
  [], ◌∷◌, arith, inr,
}
use waw_discord_bot.Auth.Session.{AuthorizationTier}
use waw_discord_bot.Gateway.{
  ready, current, GatewayEvent, GatewayRuntimeOptions, GatewayRuntime, new_runtime, Task, get_role,
  gateway_state, read_current_role, accept_sequence, login, reconciling, sleeping, client_reconnect,
  destroying,
}
use waw_discord_bot.Gateway.Events.{
  is_over, start, reconcile, reconnect, accept_new, switch, accept, stop, Reply, resolved, rejected,
  finish_reconcile, finish_sleep, continue,
}

-- The runtime and the tasks that its calls wait for.
pub record Run : Type 0 where
  pub runtime : GatewayRuntime
  pub tasks : List Task

abbrev is_destroying : Task → Bool
is_destroying destroying = true
is_destroying _ = false

abbrev pub spawn : List Task → GatewayRuntime × Option Task → Run
spawn tasks (g, none) = record { runtime = g; tasks = tasks }
spawn tasks (g, some task) = record { runtime = g; tasks = task ∷ tasks }

-- One step: a call of a method up to its first await, or a task that ends and its call that goes on.
pub data Step (o : GatewayRuntimeOptions) : Run → Run → Type 0 where
  starts : (r : Run) → Step o r (spawn r.tasks (start r.runtime))
  accepts :
      (now : ℕ) (event : GatewayEvent) (r : Run)
      → Step o r (spawn r.tasks (accept o now event r.runtime))
  stops : (r : Run) → Step o r (spawn r.tasks (stop r.runtime))
  continues :
      (before after : List Task) (task : Task) (reply : Reply) (g : GatewayRuntime)
      → Step o
          (record { runtime = g; tasks = before ++ (task ∷ after) })
          (spawn (before ++ after) (continue task reply g))

pub data Reach (o : GatewayRuntimeOptions) : Run → Run → Type 0 where
  here : (r : Run) → Reach o r r
  then_step : {a b c : Run} → Reach o a b → Step o b c → Reach o a c

abbrev pub new_run : Run
new_run = record { runtime = new_runtime; tasks = [] }

-- Roles are held, and are current, only while the gateway is ready.
pub record IsConsistent (g : GatewayRuntime) : Type 0 where
  pub current_ready : g.reconciliation ≡ current → g.lifecycle ≡ ready
  pub roles_ready : (g.lifecycle ≡ ready) ⊎ (g.roles ≡ [])

-- The client is destroyed only for a runtime that was stopped.
record IsSafe (r : Run) : Type 0 where
  consistent : IsConsistent r.runtime
  over : any is_destroying r.tasks ≡ true → is_over r.runtime.lifecycle ≡ true

abbrev pub IsFresh : Option ℕ → ℕ → ℕ → Type 0
IsFresh none now limit = ⊥
IsFresh (some at) now limit = now ≤ at + limit

-- What a call keeps, from the state before to the state and the task after.
record Keeps (g : GatewayRuntime) (out : GatewayRuntime × Option Task) : Type 0 where
  consistent : IsConsistent out.0
  over : is_over g.lifecycle ≡ true → is_over out.0.lifecycle ≡ true
  destroying : out.1 ≡ some destroying → is_over out.0.lifecycle ≡ true

start-Keeps : (g : GatewayRuntime) → IsConsistent g → Keeps g (start g)
unfolding start
start-Keeps g c = ground (arith, c.roles_ready, c.current_ready)

stop-Keeps : (g : GatewayRuntime) → IsConsistent g → Keeps g (stop g)
unfolding stop
stop-Keeps g c = ground (arith, c.roles_ready, c.current_ready)

accept-Keeps :
    (o : GatewayRuntimeOptions) (now : ℕ) (event : GatewayEvent) (g : GatewayRuntime)
    → IsConsistent g
    → Keeps g (accept o now event g)
unfolding accept switch reconnect reconcile accept_new accept_sequence
accept-Keeps o now event g c = ground (arith, c.roles_ready, c.current_ready)

finish_reconcile-Keeps :
    (generation : ℕ) (reply : Reply) (g : GatewayRuntime)
    → IsConsistent g
    → Keeps g (finish_reconcile generation reply g, none)
unfolding finish_reconcile
finish_reconcile-Keeps generation reply g c = ground (arith, c.roles_ready, c.current_ready)

continue-Keeps :
    (task : Task) (reply : Reply) (g : GatewayRuntime)
    → IsConsistent g
    → (task ≡ destroying → is_over g.lifecycle ≡ true)
    → Keeps g (continue task reply g)
unfolding continue finish_sleep
continue-Keeps login reply g c over = ground (arith, c.roles_ready, c.current_ready)
continue-Keeps (reconciling generation) reply g c over = finish_reconcile-Keeps generation reply g c
continue-Keeps (sleeping mode milliseconds) (resolved members) g c over =
    ground (arith, c.roles_ready, c.current_ready)
continue-Keeps (sleeping mode milliseconds) rejected g c over =
    ground (arith, c.roles_ready, c.current_ready)
continue-Keeps (client_reconnect mode) reply g c over =
    ground (arith, c.roles_ready, c.current_ready)
continue-Keeps destroying reply g c over = ground (arith, c.roles_ready, c.current_ready, over refl)

spawn-IsSafe :
    (tasks : List Task) (g : GatewayRuntime) (out : GatewayRuntime × Option Task)
    → (any is_destroying tasks ≡ true → is_over g.lifecycle ≡ true)
    → Keeps g out
    → IsSafe (spawn tasks out)
spawn-IsSafe tasks g (h, none) over k = record {
  consistent = k.consistent;
  over = λ e. k.over (over e);
}
spawn-IsSafe tasks g (h, some destroying) over k = record {
  consistent = k.consistent;
  over = λ e. k.destroying refl;
}
spawn-IsSafe tasks g (h, some login) over k = record {
  consistent = k.consistent;
  over = λ e. k.over (over e);
}
spawn-IsSafe tasks g (h, some (reconciling n)) over k = record {
  consistent = k.consistent;
  over = λ e. k.over (over e);
}
spawn-IsSafe tasks g (h, some (sleeping mode n)) over k = record {
  consistent = k.consistent;
  over = λ e. k.over (over e);
}
spawn-IsSafe tasks g (h, some (client_reconnect mode)) over k = record {
  consistent = k.consistent;
  over = λ e. k.over (over e);
}

-- A task among others: what waits without it waits with it, and it is waited for.
any-without :
    (before after : List Task) (task : Task)
    → (any is_destroying (before ++ after) ≡ true
        → any is_destroying (before ++ (task ∷ after)) ≡ true)
      × (task ≡ destroying → any is_destroying (before ++ (task ∷ after)) ≡ true)
any-without [] after task = ground arith
any-without (t ∷ before) after task = ground (arith, any-without before after task)

module _ (o : GatewayRuntimeOptions) where
  Step-IsSafe : {a b : Run} → Step o a b → IsSafe a → IsSafe b
  Step-IsSafe (starts r) s =
      spawn-IsSafe r.tasks r.runtime _ s.over (start-Keeps r.runtime s.consistent)
  Step-IsSafe (accepts now event r) s =
      spawn-IsSafe r.tasks r.runtime _ s.over (accept-Keeps o now event r.runtime s.consistent)
  Step-IsSafe (stops r) s =
      spawn-IsSafe r.tasks r.runtime _ s.over (stop-Keeps r.runtime s.consistent)
  Step-IsSafe (continues before after task reply g) s =
      let (rest, own) = any-without before after task in
      spawn-IsSafe (before ++ after) g _ (λ e. s.over (rest e))
        (continue-Keeps task reply g s.consistent (λ e. s.over (own e)))

  Reach-IsSafe : {a b : Run} → Reach o a b → IsSafe a → IsSafe b
  Reach-IsSafe (here r) s = s
  Reach-IsSafe (then_step path step) s = Step-IsSafe step (Reach-IsSafe path s)

  new_run-IsSafe : IsSafe new_run
  new_run-IsSafe = record {
    consistent = record { current_ready = λ e. absurd (ground arith); roles_ready = inr refl };
    over = λ e. absurd (ground arith);
  }

spawn-over :
    (tasks : List Task) (g : GatewayRuntime) (out : GatewayRuntime × Option Task)
    → Keeps g out
    → is_over g.lifecycle ≡ true
    → is_over (spawn tasks out).runtime.lifecycle ≡ true
spawn-over tasks g (h, none) k e = k.over e
spawn-over tasks g (h, some task) k e = k.over e

Step-over :
    (o : GatewayRuntimeOptions) {a b : Run}
    → Step o a b
    → IsSafe a
    → is_over a.runtime.lifecycle ≡ true
    → is_over b.runtime.lifecycle ≡ true
Step-over o (starts r) s e = spawn-over r.tasks r.runtime _ (start-Keeps r.runtime s.consistent) e
Step-over o (accepts now event r) s e =
    spawn-over r.tasks r.runtime _ (accept-Keeps o now event r.runtime s.consistent) e
Step-over o (stops r) s e = spawn-over r.tasks r.runtime _ (stop-Keeps r.runtime s.consistent) e
Step-over o (continues before after task reply g) s e =
    spawn-over (before ++ after) g _ (continue-Keeps task reply g s.consistent (λ d. e)) e

Reach-over :
    (o : GatewayRuntimeOptions) {a b : Run}
    → Reach o a b
    → IsSafe a
    → is_over a.runtime.lifecycle ≡ true
    → is_over b.runtime.lifecycle ≡ true
Reach-over o (here r) s e = e
Reach-over o (then_step path step) s e =
    Step-over o step (Reach-IsSafe o path s) (Reach-over o path s e)

no_roles : (g : GatewayRuntime) → IsConsistent g → is_over g.lifecycle ≡ true → g.roles ≡ []
no_roles g c e = ground (arith, c.roles_ready)

-- However the calls, events and answers interleave, roles are held only while the gateway is ready,
-- and are marked as current only then.
pub Reach-IsConsistent :
    (o : GatewayRuntimeOptions) {r : Run} → Reach o new_run r → IsConsistent r.runtime
Reach-IsConsistent o path = (Reach-IsSafe o path (new_run-IsSafe o)).consistent

-- After the runtime was stopped no event, answer or call brings a role back: it stays stopping or
-- stopped, holds no role and answers none.
pub Reach-no-role :
    (o : GatewayRuntimeOptions) {a b : Run}
    → Reach o new_run a
    → is_over a.runtime.lifecycle ≡ true
    → Reach o a b
    → (now : ℕ) (actor : String)
    → (is_over b.runtime.lifecycle ≡ true)
      × (b.runtime.roles ≡ [])
      × (read_current_role o now actor b.runtime ≡ none)
unfolding read_current_role gateway_state
Reach-no-role o {b} before e path now actor =
    let safe = Reach-IsSafe o before (new_run-IsSafe o) in
    let over = Reach-over o path safe e in
    let empty = no_roles b.runtime (Reach-IsSafe o path safe).consistent over in
    (over, empty, ground arith)

-- A role is answered exactly while the gateway is ready and its members are current, if the last
-- heartbeat is not older than the limit, and it is the role that the members gave.
pub read_current_role-some_iff :
    (o : GatewayRuntimeOptions) (now : ℕ) (actor : String) (g : GatewayRuntime)
    (tier : AuthorizationTier)
    → (read_current_role o now actor g ≡ some tier) ↔ (
        (g.lifecycle ≡ ready)
        × (g.reconciliation ≡ current)
        × IsFresh g.last_heartbeat_at now o.heartbeat_stale_after_ms
        × (get_role actor g.roles ≡ some tier))
unfolding read_current_role gateway_state
read_current_role-some_iff o now actor g tier = ground arith
