-- ===== src/Game/StreamObserver.antt =====
-- src/game/discord-stream-observer.ts: `DiscordStreamObserver`. The map is an association list in
-- the order of insertion, as `Map` iterates.
pub mod Laws
use Prim.Native.String
use waw_discord_bot.Prelude.{
  ℕ, ◌+◌, ◌≡◌, Bool, true, false, not, ◌&&◌, ◌||◌, Option, none, some, String, str_eq, List, [],
  ◌∷◌, pos, ◌-ℤ◌, ltb_ℤ, ◌==◌, if◌then◌else◌,
}
use mathlib.Core.Option
use waw_discord_bot.Game.Evidence.{EvidenceState, active, inactive, unknown}

pub data EvidenceCode : Type 0 where
  voice_state_event reconciled gateway_unavailable stale : EvidenceCode

pub record DiscordStreamObservation : Type 0 where
  pub guild_id : String
  pub discord_user_id : String
  pub state : EvidenceState
  pub observed_at : ℕ
  pub generation : ℕ
  pub evidence_code : EvidenceCode

abbrev pub States : Type 0
States = List (String × DiscordStreamObservation)

pub record DiscordStreamObserver : Type 0 where
  pub generation : ℕ
  pub states : States

abbrev pub new_observer : DiscordStreamObserver
new_observer = record { generation = 0; states = [] }

-- `${guildId}:${discordUserId}`
unfoldable pub key : (guild_id discord_user_id : String) → String
key guild_id discord_user_id = String.◌++◌ guild_id (String.◌++◌ ":" discord_user_id)

unfoldable pub get_state : String → States → Option DiscordStreamObservation
get_state k [] = none
get_state k ((k', s) ∷ rest) = if str_eq k' k then some s else get_state k rest

-- `Map.set`: a known key keeps its place.
unfoldable pub set_state : String → DiscordStreamObservation → States → States
set_state k new [] = (k, new) ∷ []
set_state k new ((k', s) ∷ rest) =
    let others = set_state k new rest in if str_eq k' k then (k', new) ∷ rest else (k', s) ∷ others

-- A flag that is null or missing says nothing.
abbrev state_of : Option Bool → EvidenceState
state_of (some true) = active
state_of (some false) = inactive
state_of none = unknown

unfoldable pub observe :
    (guild_id discord_user_id : String)
    → (self_stream : Option Bool) → (observed_at : ℕ) → DiscordStreamObserver
    → DiscordStreamObservation × DiscordStreamObserver
observe guild_id discord_user_id self_stream observed_at o =
    let observation : DiscordStreamObservation = record {
      guild_id = guild_id;
      discord_user_id = discord_user_id;
      state = state_of self_stream;
      observed_at = observed_at;
      generation = o.generation + 1;
      evidence_code = voice_state_event;
    } in
    (
      observation,
      record {
        generation = o.generation + 1;
        states = set_state (key guild_id discord_user_id) observation o.states;
      },
    )

pub record Member : Type 0 where
  pub discord_user_id : String
  pub self_stream : Option Bool

-- `baselineGenerations.get(…)`, undefined for a missing user as for an undefined generation.
abbrev pub Baseline : Type 0
Baseline = List (String × Option ℕ)

unfoldable pub get_baseline : String → Baseline → Option ℕ
get_baseline user [] = none
get_baseline user ((u, n) ∷ rest) = if str_eq u user then n else get_baseline user rest

abbrev pub same_generation : Option ℕ → Option ℕ → Bool
same_generation none none = true
same_generation (some a) (some b) = a == b
same_generation _ _ = false

abbrev pub generation_of : Option DiscordStreamObservation → Option ℕ
generation_of none = none
generation_of (some s) = some s.generation

-- The member was seen since the baseline was taken.
abbrev pub is_newer : Option Baseline → (guild_id user : String) → DiscordStreamObserver → Bool
is_newer none guild_id user o = false
is_newer (some baseline) guild_id user o = not (
    same_generation (generation_of (get_state (key guild_id user) o.states))
      (get_baseline user baseline))

-- One member of `reconcile` that is not passed over.
unfoldable pub reconcile_member :
    String → ℕ → Member → DiscordStreamObserver → DiscordStreamObservation × DiscordStreamObserver
reconcile_member guild_id observed_at m o =
    let (observation, o') = observe guild_id m.discord_user_id m.self_stream observed_at o in
    let found : DiscordStreamObservation = record observation { evidence_code = reconciled } in
    (
      found,
      record {
        generation = o'.generation;
        states = set_state (key guild_id m.discord_user_id) found o'.states;
      },
    )

unfoldable pub reconcile :
    String
    → ℕ
    → Option Baseline
    → List Member
    → DiscordStreamObserver
    → List DiscordStreamObservation × DiscordStreamObserver
reconcile guild_id observed_at baseline [] o = ([], o)
reconcile guild_id observed_at baseline (m ∷ members) o =
    elim (is_newer baseline guild_id m.discord_user_id o) [
      | true ↦ reconcile guild_id observed_at baseline members o
      | false ↦
          let (found, o') = reconcile_member guild_id observed_at m o in
          let (rest, final) = reconcile guild_id observed_at baseline members o' in
          (found ∷ rest, final)
    ]

abbrev pub lost : ℕ → ℕ → DiscordStreamObservation → DiscordStreamObservation
lost observed_at n s = record s {
  state = unknown;
  observed_at = observed_at;
  generation = n;
  evidence_code = gateway_unavailable;
}

-- The loop of `disconnect`, from a generation on.
unfoldable pub lose_states : ℕ → ℕ → States → ℕ × States
lose_states observed_at n [] = (n, [])
lose_states observed_at n ((k, s) ∷ rest) =
    let (final, others) = lose_states observed_at (n + 1) rest in
    (final, (k, lost observed_at (n + 1) s) ∷ others)

unfoldable pub disconnect : ℕ → DiscordStreamObserver → DiscordStreamObserver
disconnect observed_at o =
    let (n, states) = lose_states observed_at o.generation o.states in
    record { generation = n; states = states }

unfoldable pub current : String → String → DiscordStreamObserver → Option DiscordStreamObservation
current guild_id discord_user_id o = get_state (key guild_id discord_user_id) o.states

abbrev is_unknown : EvidenceState → Bool
is_unknown unknown = true
is_unknown _ = false

abbrev aged : ℕ → ℕ → DiscordStreamObservation → DiscordStreamObservation
aged observed_at freshness s =
    if is_unknown s.state || ltb_ℤ (pos observed_at -ℤ pos s.observed_at) (pos freshness)
    then s
    else record s { state = unknown; evidence_code = stale }

unfoldable pub current_at :
    String → String → ℕ → ℕ → DiscordStreamObserver → Option DiscordStreamObservation
current_at guild_id discord_user_id observed_at freshness o =
    Option.map (aged observed_at freshness) (current guild_id discord_user_id o)
