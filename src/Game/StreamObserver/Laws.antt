-- ===== src/Game/StreamObserver/Laws.antt =====
-- What the observer keeps and what it answers.
use waw_discord_bot.Prelude.{
  ℕ, ◌+◌, ◌≤◌, ◌<◌, ◌≡◌, ◌≢◌, Bool, false, not, Option, some, String, str_eq, List, [], ◌∷◌, arith,
  eq_iff, refl, All, Bool-cases, inl, inr, sym, ◌∙◌, ap, subst,
}
use text.Mathlib.TextLemmas.{append_cancel_left}
use waw_discord_bot.Game.Evidence.{unknown}
use waw_discord_bot.Game.StreamObserver.{
  new_observer, lost, gateway_unavailable, DiscordStreamObservation, States, DiscordStreamObserver,
  key, get_state, set_state, observe, same_generation, Member, Baseline, get_baseline,
  generation_of, is_newer, reconcile_member, reconcile, lose_states, disconnect, current,
}

get_state-set_state :
    (k k' : String) (new : DiscordStreamObservation) (states : States)
    → (k ≡ k' → get_state k' (set_state k new states) ≡ some new)
      × (k ≢ k' → get_state k' (set_state k new states) ≡ get_state k' states)
unfolding get_state set_state
get_state-set_state k k' new [] =
    (λ e. ground (arith, eq_iff k k'), λ e. ground (arith, eq_iff k k'))
get_state-set_state k k' new ((l, s) ∷ rest) =
    let (same, apart) = get_state-set_state k k' new rest in
    (
      λ e. ground (arith, eq_iff l k, eq_iff l k', same),
      λ e. ground (arith, eq_iff l k, eq_iff l k', apart),
    )

-- The generations that are given out are those up to the observer's.
abbrev pub IsCounted : DiscordStreamObserver → Type 0
IsCounted o = All (λ e. e.1.generation ≤ o.generation) o.states

set_state-All :
    (k : String) (new : DiscordStreamObservation) (n : ℕ) (states : States)
    → new.generation ≤ n
    → All (λ e. e.1.generation ≤ n) states
    → All (λ e. e.1.generation ≤ n) (set_state k new states)
unfolding set_state
set_state-All k new n [] h a = (h, tt)
set_state-All k new n ((l, s) ∷ rest) h a =
    let others = set_state-All k new n rest h a.1 in
    elim (Bool-cases (str_eq l k)) [ inl e ↦ rw e (h, a.1) | inr e ↦ rw e (a.0, others) ]

All-generation-weaken :
    (n m : ℕ) (states : States)
    → n ≤ m
    → All (λ e. e.1.generation ≤ n) states
    → All (λ e. e.1.generation ≤ m) states
All-generation-weaken n m [] h a = tt
All-generation-weaken n m (e ∷ rest) h a =
    (omega (arith, a.0), All-generation-weaken n m rest h a.1)

observe-IsCounted :
    (guild user : String) (flag : Option Bool) (at : ℕ) (o : DiscordStreamObserver)
    → IsCounted o
    → IsCounted (observe guild user flag at o).1
unfolding observe
observe-IsCounted guild user flag at o c =
    set_state-All _ _ (o.generation + 1) o.states (omega arith)
      (All-generation-weaken o.generation (o.generation + 1) o.states (omega arith) c)

reconcile_member-IsCounted :
    (guild : String) (at : ℕ) (m : Member) (o : DiscordStreamObserver)
    → IsCounted o
    → IsCounted (reconcile_member guild at m o).1
unfolding reconcile_member observe
reconcile_member-IsCounted guild at m o c = set_state-All _ _ (o.generation + 1) _ (omega arith) (
    set_state-All _ _ (o.generation + 1) o.states (omega arith)
      (All-generation-weaken o.generation (o.generation + 1) o.states (omega arith) c))

reconcile-IsCounted :
    (guild : String) (at : ℕ) (baseline : Option Baseline) (members : List Member)
    (o : DiscordStreamObserver)
    → IsCounted o
    → IsCounted (reconcile guild at baseline members o).1
unfolding reconcile
reconcile-IsCounted guild at baseline [] o c = c
reconcile-IsCounted guild at baseline (m ∷ members) o c =
    elim (Bool-cases (is_newer baseline guild m.discord_user_id o)) [
      | inl e ↦ rw (e, reconcile) (reconcile-IsCounted guild at baseline members o c)
      | inr e ↦
          rw (e, reconcile)
            (reconcile-IsCounted guild at baseline members _
              (reconcile_member-IsCounted guild at m o c))
    ]

lose_states-IsCounted :
    (at n : ℕ) (states : States)
    → (n ≤ (lose_states at n states).0)
      × All (λ e. e.1.generation ≤ (lose_states at n states).0) (lose_states at n states).1
unfolding lose_states
lose_states-IsCounted at n [] = (omega arith, tt)
lose_states-IsCounted at n ((k, s) ∷ rest) =
    let (least, others) = lose_states-IsCounted at (n + 1) rest in
    (omega (arith, least), (omega (arith, least), others))

-- The calls of an observer.
pub data Call : Type 0 where
  observes : (guild user : String) → Option Bool → (at : ℕ) → Call
  reconciles : (guild : String) → (at : ℕ) → Option Baseline → List Member → Call
  disconnects : (at : ℕ) → Call

abbrev pub run_call : Call → DiscordStreamObserver → DiscordStreamObserver
run_call (observes guild user flag at) o = (observe guild user flag at o).1
run_call (reconciles guild at baseline members) o = (reconcile guild at baseline members o).1
run_call (disconnects at) o = disconnect at o

abbrev pub run_calls : List Call → DiscordStreamObserver → DiscordStreamObserver
run_calls [] o = o
run_calls (c ∷ cs) o = run_calls cs (run_call c o)

run_call-IsCounted : (c : Call) (o : DiscordStreamObserver) → IsCounted o → IsCounted (run_call c o)
unfolding disconnect
run_call-IsCounted (observes guild user flag at) o h = observe-IsCounted guild user flag at o h
run_call-IsCounted (reconciles guild at baseline members) o h =
    reconcile-IsCounted guild at baseline members o h
run_call-IsCounted (disconnects at) o h = (lose_states-IsCounted at o.generation o.states).1

run_calls-IsCounted :
    (cs : List Call) (o : DiscordStreamObserver) → IsCounted o → IsCounted (run_calls cs o)
run_calls-IsCounted [] o h = h
run_calls-IsCounted (c ∷ cs) o h = run_calls-IsCounted cs (run_call c o) (run_call-IsCounted c o h)

get_state-IsCounted :
    (k : String) (n : ℕ) (states : States) {s : DiscordStreamObservation}
    → All (λ e. e.1.generation ≤ n) states
    → get_state k states ≡ some s
    → s.generation ≤ n
unfolding get_state
get_state-IsCounted k n [] a h = cc
get_state-IsCounted k n ((l, t) ∷ rest) {s} a h = elim (Bool-cases (str_eq l k)) [
  | inl e ↦
      let same : t ≡ s = ground arith in
      subst (λ (x : DiscordStreamObservation). x.generation ≤ n) same a.0
  | inr e ↦ get_state-IsCounted k n rest a.1 (rw e at h)
]

-- After any calls, an event that is observed has a generation above that of every observation that
-- is then known, and is the current one of its user.
pub observe-newest :
    (cs : List Call) (guild user : String) (flag : Option Bool) (at : ℕ) (g u : String)
    (s : DiscordStreamObservation)
    → current g u (run_calls cs new_observer) ≡ some s
    → (current guild user (observe guild user flag at (run_calls cs new_observer)).1
        ≡ some (observe guild user flag at (run_calls cs new_observer)).0)
      × (s.generation < (observe guild user flag at (run_calls cs new_observer)).0.generation)
unfolding observe current
observe-newest cs guild user flag at g u s h =
    let o = run_calls cs new_observer in
    let counted : IsCounted o = run_calls-IsCounted cs new_observer tt in
    let known = get_state-IsCounted (key g u) o.generation o.states counted h in
    (
      (get_state-set_state (key guild user) (key guild user) _ o.states).0 refl,
      omega (arith, known),
    )

get_state-lose_states :
    (at : ℕ) (k : String) (n : ℕ) (states : States) (s : DiscordStreamObservation)
    → get_state k states ≡ some s
    → (m : ℕ) × (get_state k (lose_states at n states).1 ≡ some (lost at m s)) × (n < m)
unfolding get_state lose_states
get_state-lose_states at k n [] s h = absurd (ground arith)
get_state-lose_states at k n ((l, t) ∷ rest) s h = elim (Bool-cases (str_eq l k)) [
  | inl e ↦ let same : t ≡ s = ground arith in (n + 1, rw (e, same) refl, omega arith)
  | inr e ↦
      let (m, found, later) = get_state-lose_states at k (n + 1) rest s (rw e at h) in
      (m, rw e found, omega (arith, later))
]

-- After a disconnection nothing is known of a user of whom something was known: the observation is
-- unknown, as of the disconnection and with a later generation.
pub disconnect-current :
    (at : ℕ) (guild user : String) (o : DiscordStreamObserver) (s : DiscordStreamObservation)
    → current guild user o ≡ some s
    → (n : ℕ) × (current guild user (disconnect at o)
        ≡ some (record s {
          state = unknown;
          observed_at = at;
          generation = n;
          evidence_code = gateway_unavailable;
        }))
      × (o.generation < n)
unfolding disconnect current
disconnect-current at guild user o s h =
    get_state-lose_states at (key guild user) o.generation o.states s h

key-injective : (guild u v : String) → key guild u ≡ key guild v → u ≡ v
unfolding key
key-injective guild u v h = append_cancel_left ":" u v (append_cancel_left guild _ _ h)

reconcile_member-current :
    (guild : String) (at : ℕ) (m : Member) (user : String) (o : DiscordStreamObserver)
    → m.discord_user_id ≢ user
    → get_state (key guild user) (reconcile_member guild at m o).1.states
      ≡ get_state (key guild user) o.states
unfolding reconcile_member observe
reconcile_member-current guild at m user o apart =
    let other : key guild m.discord_user_id ≢ key guild user =
      λ e. apart (key-injective guild m.discord_user_id user e) in
    (get_state-set_state _ (key guild user) _ _).1 other
    ∙ (get_state-set_state _ (key guild user) _ o.states).1 other

-- A reconciliation leaves the observation of a user as it is, if the user was observed after the
-- baseline was taken: its generation is not the baseline's.
pub reconcile-current_newer :
    (guild user : String) (at : ℕ) (baseline : Baseline) (members : List Member)
    (o : DiscordStreamObserver)
    → generation_of (current guild user o) ≢ get_baseline user baseline
    → current guild user (reconcile guild at (some baseline) members o).1 ≡ current guild user o
unfolding reconcile current
reconcile-current_newer guild user at baseline [] o newer = refl
reconcile-current_newer guild user at baseline (m ∷ members) o newer =
    elim (Bool-cases (is_newer (some baseline) guild m.discord_user_id o)) [
      | inl e ↦ rw (e, reconcile) (reconcile-current_newer guild user at baseline members o newer)
      | inr e ↦
          let o' = (reconcile_member guild at m o).1 in
          let apart : m.discord_user_id ≢ user = λ same. newer (seen same e) in
          let kept = reconcile_member-current guild at m user o apart in
          rw (e, reconcile)
            (reconcile-current_newer guild user at baseline members o'
                (λ h. newer (ap generation_of (sym kept) ∙ h))
              ∙ kept)
    ]
  where
    same_generation-eq : (a b : Option ℕ) → not (same_generation a b) ≡ false → a ≡ b
    same_generation-eq a b h = ground arith

    seen :
        m.discord_user_id ≡ user
        → is_newer (some baseline) guild m.discord_user_id o ≡ false
        → generation_of (get_state (key guild user) o.states) ≡ get_baseline user baseline
    seen same e =
        subst (λ u. generation_of (get_state (key guild u) o.states) ≡ get_baseline u baseline) same
          (same_generation-eq _ _ e)
