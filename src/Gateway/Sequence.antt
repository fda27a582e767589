-- ===== src/Gateway/Sequence.antt =====
-- The sequence numbers of the gateway's events, over the interleavings of Reach.
use waw_discord_bot.Prelude.{◌++◌, ℕ, ◌≤◌, Option, none, some, List, arith}
use waw_discord_bot.Gateway.{
  GatewayEvent, GatewayRuntimeOptions, GatewayRuntime, Task, accept_sequence,
}
use waw_discord_bot.Gateway.Events.{
  start, reconcile, reconnect, accept_new, switch, accept, stop, Reply, finish_reconcile,
  finish_sleep, continue,
}
use waw_discord_bot.Gateway.Reach.{
  Run, spawn, Step, starts, accepts, stops, continues, Reach, here, then_step,
}

-- The last sequence is known still, and not below what it was.
abbrev pub NotBelow : Option ℕ → Option ℕ → Type 0
NotBelow none b = Unit {0}
NotBelow (some a) none = ⊥
NotBelow (some a) (some b) = a ≤ b

NotBelow-refl : (a : Option ℕ) → NotBelow a a
NotBelow-refl none = tt
NotBelow-refl (some a) = omega arith

NotBelow-trans : (a b c : Option ℕ) → NotBelow a b → NotBelow b c → NotBelow a c
NotBelow-trans none b c f g = tt
NotBelow-trans (some a) none c f g = absurd f
NotBelow-trans (some a) (some b) none f g = absurd g
NotBelow-trans (some a) (some b) (some c) f g = omega arith

abbrev Rises : GatewayRuntime → GatewayRuntime × Option Task → Type 0
Rises g out = NotBelow g.last_sequence out.0.last_sequence

start-Rises : (g : GatewayRuntime) → Rises g (start g)
unfolding start
start-Rises g = ground (arith, NotBelow-refl g.last_sequence)

stop-Rises : (g : GatewayRuntime) → Rises g (stop g)
unfolding stop
stop-Rises g = ground (arith, NotBelow-refl g.last_sequence)

accept-Rises :
    (o : GatewayRuntimeOptions) (now : ℕ) (event : GatewayEvent) (g : GatewayRuntime)
    → Rises g (accept o now event g)
unfolding accept switch reconnect reconcile accept_new accept_sequence
accept-Rises o now event g = ground (arith, NotBelow-refl g.last_sequence)

continue-Rises :
    (task : Task) (reply : Reply) (g : GatewayRuntime) → Rises g (continue task reply g)
unfolding continue finish_sleep finish_reconcile
continue-Rises task reply g = ground (arith, NotBelow-refl g.last_sequence)

spawn-Rises :
    (tasks : List Task) (g : GatewayRuntime) (out : GatewayRuntime × Option Task)
    → Rises g out
    → NotBelow g.last_sequence (spawn tasks out).runtime.last_sequence
spawn-Rises tasks g (h, none) r = r
spawn-Rises tasks g (h, some task) r = r

module _ (o : GatewayRuntimeOptions) where
  Step-NotBelow :
      {a b : Run} → Step o a b → NotBelow a.runtime.last_sequence b.runtime.last_sequence
  Step-NotBelow (starts r) = spawn-Rises r.tasks r.runtime _ (start-Rises r.runtime)
  Step-NotBelow (accepts now event r) =
      spawn-Rises r.tasks r.runtime _ (accept-Rises o now event r.runtime)
  Step-NotBelow (stops r) = spawn-Rises r.tasks r.runtime _ (stop-Rises r.runtime)
  Step-NotBelow (continues before after task reply g) =
      spawn-Rises (before ++ after) g _ (continue-Rises task reply g)

-- The last sequence that was accepted never falls, however the calls, events and answers interleave.
pub Reach-NotBelow :
    (o : GatewayRuntimeOptions) {a b : Run}
    → Reach o a b
    → NotBelow a.runtime.last_sequence b.runtime.last_sequence
Reach-NotBelow o (here r) = NotBelow-refl r.runtime.last_sequence
Reach-NotBelow o (then_step {a} {b} {c} path step) =
    NotBelow-trans a.runtime.last_sequence b.runtime.last_sequence c.runtime.last_sequence
      (Reach-NotBelow o path) (Step-NotBelow o step)
