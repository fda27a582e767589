-- ===== src/Kbo/Settlement.antt =====
-- The input of a settlement and the allocation of its delta: src/kbo/bet-settlement.ts.
pub mod Laws
use waw_discord_bot.Prelude.{
  ◌≡◌, Bool, true, false, ◌&&◌, String, ℤ, pos, ◌-ℤ◌, neg_ℤ, ltb_ℤ, leb_ℤ, Date, is_finite,
  if◌then◌else◌,
}
use waw_discord_bot.Kbo.Identifiers.{is_operation_id, is_opaque_id, is_game_id, is_snowflake}

pub data RightsStatus : Type 0 where
  authorized unauthorized : RightsStatus

pub record KboSettlementInput : Type 0 where
  pub operation_id : String
  pub settlement_id : String
  pub guild_id : String
  pub bet_id : String
  pub game_id : String
  pub game_revision : ℤ
  pub rights_status : RightsStatus
  pub settled_at : Date

-- Whether `assertKboSettlementInput` returns; it throws where this is false.
unfoldable pub assert_kbo_settlement_input : KboSettlementInput → Bool
assert_kbo_settlement_input i =
    is_operation_id i.operation_id
    && is_opaque_id i.settlement_id
    && is_snowflake i.guild_id
    && is_opaque_id i.bet_id
    && is_game_id i.game_id
    && ltb_ℤ (pos 0) i.game_revision
    && is_finite i.settled_at

pub record DeltaInput : Type 0 where
  pub available_balance : ℤ
  pub correction_debt : ℤ
  pub delta : ℤ
  pub void_refund : Bool

pub record DeltaAllocation : Type 0 where
  pub available_delta : ℤ
  pub debt_delta : ℤ

pub data Allocation : Type 0 where
  allocated : DeltaAllocation → Allocation
  invalid_account_projection invalid_void_refund : Allocation

abbrev allot : ℤ → ℤ → Allocation
allot available debt = allocated (record { available_delta = available; debt_delta = debt })

unfoldable pub allocate_settlement_delta : DeltaInput → Allocation
allocate_settlement_delta i =
    if ltb_ℤ i.available_balance (pos 0)
    then invalid_account_projection
    else if ltb_ℤ i.correction_debt (pos 0)
    then invalid_account_projection
    else if i.void_refund
    then (if leb_ℤ i.delta (pos 0) then invalid_void_refund else allot i.delta (pos 0))
    else if ltb_ℤ (pos 0) i.delta
    then (let debt_paid = if ltb_ℤ i.delta i.correction_debt then i.delta else i.correction_debt in
        allot (i.delta -ℤ debt_paid) (neg_ℤ debt_paid))
    else if ltb_ℤ i.delta (pos 0)
    then (let recovery =
          if ltb_ℤ (neg_ℤ i.delta) i.available_balance
          then neg_ℤ i.delta
          else i.available_balance in
        allot (neg_ℤ recovery) (neg_ℤ i.delta -ℤ recovery))
    else allot (pos 0) (pos 0)
