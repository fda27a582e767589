-- ===== src/Kbo/Credit/Laws.antt =====
-- The split of the daily credit between the balance and the correction debt.
use waw_discord_bot.Prelude.{◌≡◌, ◌⊎◌, Option, none, some, arith, ℤ, pos, ◌+ℤ◌, ◌-ℤ◌, ◌≤ℤ◌}
use waw_discord_bot.Kbo.Credit.{DailyAllocation, daily_credit, allocate_daily_credit}

-- The credit is spent in full, neither part is negative, the debt is not overpaid, and the balance
-- receives nothing before the debt is gone.
pub record IsSplit (debt : ℤ) (a : DailyAllocation) : Type 0 where
  pub spent : a.available_paid +ℤ a.debt_paid ≡ daily_credit
  pub paid : pos 0 ≤ℤ a.debt_paid
  pub received : pos 0 ≤ℤ a.available_paid
  pub within : a.debt_paid ≤ℤ debt
  pub debt_first : (a.available_paid ≡ pos 0) ⊎ (a.debt_paid ≡ debt)

abbrev pub Allocates : ℤ → Option DailyAllocation → Type 0
Allocates debt none = ⊥
Allocates debt (some a) = IsSplit debt a

-- For a debt that is not negative the daily credit is allocated, and the allocation pays the debt
-- first, never more than it, and puts the rest of the 50000 on the balance.
pub allocate_daily_credit-IsSplit :
    (debt : ℤ) → pos 0 ≤ℤ debt → Allocates debt (allocate_daily_credit debt)
unfolding allocate_daily_credit ◌+ℤ◌ ◌-ℤ◌
allocate_daily_credit-IsSplit (pos n) h = ground arith
allocate_daily_credit-IsSplit _ h = ground arith
