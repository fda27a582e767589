-- ===== src/Game/Evidence.antt =====
-- src/game/observation-state.ts: the comparison of what Riot and Discord say of a player.
use waw_discord_bot.Prelude.{
  ℕ, ◌+◌, ◌≤◌, ◌≡◌, ◌≢◌, ◌↔◌, Bool, false, Option, none, some, pos, ◌-ℤ◌, ltb_ℤ, if◌then◌else◌,
  arith,
}

pub data EvidenceState : Type 0 where
  active inactive unknown : EvidenceState

pub data ComparisonState : Type 0 where
  compliant grace interrupted violation undecided : ComparisonState

pub record GameEvidence : Type 0 where
  pub riot : EvidenceState
  pub go_live : EvidenceState
  pub game_started_at : Option ℕ
  pub go_live_interrupted_at : Option ℕ

pub record ObservationPolicy : Type 0 where
  pub start_grace_milliseconds : ℕ
  pub interruption_allowance_milliseconds : ℕ

abbrev pub accepted_observation_policy : ObservationPolicy
accepted_observation_policy = record {
  start_grace_milliseconds = 300000;
  interruption_allowance_milliseconds = 120000;
}

-- The instant is given, and less than the limit before.
abbrev is_shortly_before : Option ℕ → ℕ → ℕ → Bool
is_shortly_before none now limit = false
is_shortly_before (some at) now limit = ltb_ℤ (pos now -ℤ pos at) (pos limit)

-- A game that is played without a stream, from its start on.
unfoldable pub compare_without_stream :
    GameEvidence → (observed_at started_at : ℕ) → ObservationPolicy → ComparisonState
compare_without_stream e observed_at started_at policy =
    if ltb_ℤ (pos observed_at -ℤ pos started_at) (pos policy.start_grace_milliseconds)
    then grace
    else if is_shortly_before e.go_live_interrupted_at observed_at
        policy.interruption_allowance_milliseconds
    then interrupted
    else violation

unfoldable pub compare_playing :
    GameEvidence → (observed_at : ℕ) → ObservationPolicy → ComparisonState
compare_playing e observed_at policy = elim e.game_started_at [
  | none ↦ undecided
  | some started_at ↦ elim e.go_live [
    | active ↦ compliant
    | inactive ↦ compare_without_stream e observed_at started_at policy
    | unknown ↦ undecided
  ]
]

unfoldable pub compare_game_evidence :
    GameEvidence → (observed_at : ℕ) → ObservationPolicy → ComparisonState
compare_game_evidence e observed_at policy = elim e.riot [
  | unknown ↦ undecided
  | inactive ↦ elim e.go_live [ unknown ↦ undecided | active ↦ compliant | inactive ↦ compliant ]
  | active ↦ elim e.go_live [
    | unknown ↦ undecided
    | active ↦ compare_playing e observed_at policy
    | inactive ↦ compare_playing e observed_at policy
  ]
]

-- The instant is missing or at least the limit before.
abbrev pub IsOver : Option ℕ → ℕ → ℕ → Type 0
IsOver none now limit = Unit {0}
IsOver (some at) now limit = at + limit ≤ now

-- A violation is reported exactly if a game is known to be played and no stream to run, the game's
-- start is known and the grace after it is over, and no interruption of the stream is known that is
-- within the allowance.
pub compare_game_evidence-violation_iff :
    (e : GameEvidence) (observed_at : ℕ) (policy : ObservationPolicy)
    → (compare_game_evidence e observed_at policy ≡ violation) ↔ (
        (e.riot ≡ active)
        × (e.go_live ≡ inactive)
        × (e.game_started_at ≢ none)
        × IsOver e.game_started_at observed_at policy.start_grace_milliseconds
        × IsOver e.go_live_interrupted_at observed_at policy.interruption_allowance_milliseconds)
unfolding compare_game_evidence compare_playing compare_without_stream ◌-ℤ◌
compare_game_evidence-violation_iff e observed_at policy = ground arith
