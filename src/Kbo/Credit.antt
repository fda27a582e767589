-- ===== src/Kbo/Credit.antt =====
-- The daily credit: src/kbo/daily-credit-claim.ts. The formatter of dates in the time zone
-- Asia/Seoul (`Intl.DateTimeFormat`) is a parameter: a function from an instant to the text of its
-- date there.
pub mod Laws
use waw_discord_bot.Prelude.{
  ◌≡◌, Bool, ◌&&◌, Option, none, some, String, ℕ, ℤ, pos, ◌-ℤ◌, ltb_ℤ, Date, invalid_date, instant,
  is_finite, if◌then◌else◌,
}
use waw_discord_bot.Kbo.Identifiers.{is_operation_id, is_opaque_id, is_snowflake}

pub record KboDailyCreditClaimInput : Type 0 where
  pub operation_id : String
  pub claim_id : String
  pub guild_id : String
  pub discord_user_id : String
  pub claimed_at : Date

abbrev pub daily_credit : ℤ
daily_credit = pos 50000

-- Whether `assertKboDailyCreditClaimInput` returns; it throws where this is false.
unfoldable pub assert_kbo_daily_credit_claim_input : KboDailyCreditClaimInput → Bool
assert_kbo_daily_credit_claim_input i =
    is_operation_id i.operation_id
    && is_opaque_id i.claim_id
    && is_snowflake i.guild_id
    && is_snowflake i.discord_user_id
    && is_finite i.claimed_at

-- `none` is the error thrown for an invalid date.
abbrev pub to_kst_claim_date : (ℕ → String) → Date → Option String
to_kst_claim_date format_kst invalid_date = none
to_kst_claim_date format_kst (instant t) = some (format_kst t)

pub record DailyAllocation : Type 0 where
  pub available_paid : ℤ
  pub debt_paid : ℤ

-- `none` is the error thrown for a negative debt.
unfoldable pub allocate_daily_credit : ℤ → Option DailyAllocation
allocate_daily_credit correction_debt =
    if ltb_ℤ correction_debt (pos 0)
    then none
    else let debt_paid =
        if ltb_ℤ correction_debt daily_credit then correction_debt else daily_credit in
      some (record { available_paid = daily_credit -ℤ debt_paid; debt_paid = debt_paid })
