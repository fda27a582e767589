-- ===== src/Kbo/Settlement/Laws.antt =====
-- How a settlement's delta is spread over the balance and the correction debt.
use waw_discord_bot.Prelude.{
  ◌≡◌, ◌↔◌, ◌⊎◌, Bool, true, false, arith, ℤ, pos, ◌+ℤ◌, ◌-ℤ◌, ◌≤ℤ◌, ◌<ℤ◌, ℕ, negsuc, refl, ◌<◌,
}
use waw_discord_bot.Kbo.Settlement.{
  DeltaInput, DeltaAllocation, Allocation, allocated, invalid_account_projection,
  invalid_void_refund, allocate_settlement_delta,
}

pub record IsSound (i : DeltaInput) (a : DeltaAllocation) : Type 0 where
  pub conserved : a.available_delta -ℤ a.debt_delta ≡ i.delta
  pub solvent : pos 0 ≤ℤ i.available_balance +ℤ a.available_delta
  pub debt_kept : pos 0 ≤ℤ i.correction_debt +ℤ a.debt_delta
  pub unchanged : ((a.available_delta ≡ pos 0) × (a.debt_delta ≡ pos 0)) ↔ (i.delta ≡ pos 0)
  pub debt_last :
      (i.void_refund ≡ true)
      ⊎ ((i.available_balance +ℤ a.available_delta ≡ pos 0)
          ⊎ ((i.correction_debt +ℤ a.debt_delta ≡ pos 0) ⊎ (a.debt_delta ≤ℤ pos 0)))

abbrev pub Allocates : DeltaInput → Allocation → Type 0
Allocates i (allocated a) = IsSound i a
Allocates i invalid_account_projection = ⊥
Allocates i invalid_void_refund = ⊥

abbrev pub of_parts : ℤ → ℤ → ℤ → Bool → DeltaInput
of_parts balance debt delta void = record {
  available_balance = balance;
  correction_debt = debt;
  delta = delta;
  void_refund = void;
}

sound_refund :
    (b d n : ℕ)
    → 0 < n
    → Allocates
        (of_parts (pos b) (pos d) (pos n) true)
        (allocate_settlement_delta (of_parts (pos b) (pos d) (pos n) true))
unfolding allocate_settlement_delta ◌+ℤ◌ ◌-ℤ◌
sound_refund b d n h = ground arith

sound_gain :
    (b d n : ℕ)
    → Allocates
        (of_parts (pos b) (pos d) (pos n) false)
        (allocate_settlement_delta (of_parts (pos b) (pos d) (pos n) false))
unfolding allocate_settlement_delta ◌+ℤ◌ ◌-ℤ◌
sound_gain b d n = ground arith

pub sound_loss :
    (b d n : ℕ)
    → Allocates
        (of_parts (pos b) (pos d) (negsuc n) false)
        (allocate_settlement_delta (of_parts (pos b) (pos d) (negsuc n) false))
unfolding allocate_settlement_delta ◌+ℤ◌ ◌-ℤ◌
sound_loss b d n = ground arith

sound_parts :
    (balance debt delta : ℤ) (void : Bool)
    → pos 0 ≤ℤ balance
    → pos 0 ≤ℤ debt
    → (void ≡ true → pos 0 <ℤ delta)
    → Allocates
        (of_parts balance debt delta void)
        (allocate_settlement_delta (of_parts balance debt delta void))
sound_parts (pos b) (pos d) (pos n) true hb hd v = sound_refund b d n (omega (arith, v refl))
sound_parts (pos b) (pos d) (negsuc n) true hb hd v = absurd (omega (arith, v refl))
sound_parts (pos b) (pos d) (pos n) false hb hd v = sound_gain b d n
sound_parts (pos b) (pos d) (negsuc n) false hb hd v = sound_loss b d n
sound_parts (negsuc b) d n void hb hd v = absurd (omega arith)
sound_parts (pos b) (negsuc d) n void hb hd v = absurd (omega arith)

-- For an account without negative amounts, and a positive delta if it refunds a void bet, the delta
-- is allocated: what the balance gains less what the debt gains is the delta, both stay at least 0,
-- both are left alone only by a delta of 0, and outside refunds the debt grows only when the balance
-- is used up.
pub allocate_settlement_delta-IsSound :
    (i : DeltaInput)
    → pos 0 ≤ℤ i.available_balance
    → pos 0 ≤ℤ i.correction_debt
    → (i.void_refund ≡ true → pos 0 <ℤ i.delta)
    → Allocates i (allocate_settlement_delta i)
allocate_settlement_delta-IsSound i a d v =
    sound_parts i.available_balance i.correction_debt i.delta i.void_refund a d v
