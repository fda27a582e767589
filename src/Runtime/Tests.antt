-- ===== src/Runtime/Tests.antt =====
-- The health and the lease on concrete inputs.
use waw_discord_bot.Prelude.{
  eq_iff, arith, ◌≡◌, ◌≢◌, ◌↔◌, ◌⊎◌, true, false, some, none, String, refl,
}
use waw_discord_bot.Runtime.{
  RuntimeHealthInput, connected, healthy, unavailable, evaluate_runtime_health,
  evaluate_runtime_health-status_iff, claim_lease, release_lease, claim-release_lease,
}

abbrev all_up : RuntimeHealthInput
all_up = record {
  web_process_running = true;
  storage_available = true;
  bot_process_running = true;
  gateway_state = connected;
}

evaluate_runtime_health-status_iff_example :
    (((evaluate_runtime_health all_up).status ≡ healthy)
      ↔ ((true ≡ true) × (true ≡ true) × (true ≡ true) × (connected ≡ connected)))
    × (((evaluate_runtime_health all_up).status ≡ unavailable) ↔ ((true ≡ false) ⊎ (true ≡ false)))
evaluate_runtime_health-status_iff_example = evaluate_runtime_health-status_iff all_up

claimed : claim_lease "bot" none ≡ (true, some "bot")
unfolding claim_lease
claimed = refl

apart : ◌≢◌ {A = String} "web" "bot"
apart = ground (arith, eq_iff "web" "bot")

claim-release_lease_example :
    (claim_lease "next" (some "bot") ≡ (false, some "bot"))
    × (release_lease "web" (some "bot") ≡ (false, some "bot"))
    × (claim_lease "next" (release_lease "bot" (some "bot")).1 ≡ (true, some "next"))
claim-release_lease_example = claim-release_lease "bot" "web" "next" none (some "bot") apart claimed
