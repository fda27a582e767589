-- ===== src/Game/Tests.antt =====
-- The observation of games on concrete inputs.
use waw_discord_bot.Prelude.{ℕ, ◌<◌, ◌≡◌, ◌≢◌, ◌↔◌, true, false, none, some, List, [], ◌∷◌, arith}
use waw_discord_bot.Game.Evidence.{
  GameEvidence, active, inactive, unknown, violation, accepted_observation_policy,
  compare_game_evidence, IsOver, compare_game_evidence-violation_iff,
}
use waw_discord_bot.Game.StreamObserver.{
  voice_state_event, lose_states, DiscordStreamObservation, DiscordStreamObserver, new_observer,
  gateway_unavailable, observe, reconcile, disconnect, current, get_state, key, Baseline,
  get_baseline, generation_of, set_state,
}
use waw_discord_bot.Game.StreamObserver.Laws.{
  Call, observes, disconnects, run_calls, observe-newest, disconnect-current,
  reconcile-current_newer,
}

abbrev unseen : GameEvidence
unseen = record {
  riot = active;
  go_live = inactive;
  game_started_at = some 0;
  go_live_interrupted_at = none;
}

compare_game_evidence-violation_iff_example :
    (compare_game_evidence unseen 400000 accepted_observation_policy ≡ violation) ↔ (
      (active ≡ active)
      × (inactive ≡ inactive)
      × (unseen.game_started_at ≢ none)
      × IsOver (some 0) 400000 300000
      × IsOver none 400000 120000)
compare_game_evidence-violation_iff_example =
    compare_game_evidence-violation_iff unseen 400000 accepted_observation_policy

abbrev calls : List Call
calls = observes "1" "2" (some true) 10 ∷ disconnects 20 ∷ []

abbrev forgotten : DiscordStreamObservation
forgotten = record {
  guild_id = "1";
  discord_user_id = "2";
  state = unknown;
  observed_at = 20;
  generation = 2;
  evidence_code = gateway_unavailable;
}

called : current "1" "2" (run_calls calls new_observer) ≡ some forgotten
unfolding current get_state observe set_state key disconnect lose_states
called = ground arith

observe-newest_example :
    (current "1" "2" (observe "1" "2" (some false) 30 (run_calls calls new_observer)).1
      ≡ some (observe "1" "2" (some false) 30 (run_calls calls new_observer)).0)
    × (forgotten.generation
        < (observe "1" "2" (some false) 30 (run_calls calls new_observer)).0.generation)
observe-newest_example = observe-newest calls "1" "2" (some false) 30 "1" "2" forgotten called

abbrev seen : DiscordStreamObserver
seen = run_calls (observes "1" "2" (some true) 10 ∷ []) new_observer

abbrev sighting : DiscordStreamObservation
sighting = record {
  guild_id = "1";
  discord_user_id = "2";
  state = active;
  observed_at = 10;
  generation = 1;
  evidence_code = voice_state_event;
}

sighted : current "1" "2" seen ≡ some sighting
unfolding current get_state observe set_state key
sighted = ground arith

disconnect-current_example :
    (n : ℕ) × (current "1" "2" (disconnect 20 seen)
      ≡ some (record sighting {
        state = unknown;
        observed_at = 20;
        generation = n;
        evidence_code = gateway_unavailable;
      }))
    × (seen.generation < n)
disconnect-current_example = disconnect-current 20 "1" "2" seen sighting sighted

abbrev before : Baseline
before = ("2", none) ∷ []

seen_since : generation_of (current "1" "2" seen) ≢ get_baseline "2" before
unfolding current get_state get_baseline observe set_state key
seen_since = ground arith

reconcile-current_newer_example :
    current "1" "2"
      (reconcile "1" 30
        (some before)
        (record { discord_user_id = "2"; self_stream = some false } ∷ [])
        seen).1
    ≡ current "1" "2" seen
reconcile-current_newer_example =
    reconcile-current_newer "1" "2" 30 before
      (record { discord_user_id = "2"; self_stream = some false } ∷ []) seen seen_since
