-- ===== src/State/Reward.antt =====
-- core/consensus/state.go: what the block rewards of a QDAY network add up to.
use qday.Base.{ℕ, zero, suc, ◌+◌, ◌*◌, ◌≡◌, refl, some, arith, min, Bool-cases, inl, inr, ltb}
use native.Mathlib.Nat.{mul-suc, mul-zero, zero-min}
use qday.Currency.{Currency}
use qday.Currency.Value.{value}
use qday.State.{State, QdayParams, child_height, qday_reward, block_reward}

-- The rewards of the blocks at the heights 0 to `n`.
unfoldable pub emission : QdayParams → ℕ → ℕ
emission p zero = value (qday_reward p zero)
emission p (suc n) = emission p n + value (qday_reward p (suc n))

reward_at :
    (p : QdayParams) (n : ℕ)
    → value (qday_reward p (suc n)) + value p.reward * min n p.mining_blocks
      ≡ value p.reward * min (suc n) p.mining_blocks
unfolding qday_reward
reward_at p n = elim (Bool-cases (ltb p.mining_blocks (suc n))) [
  | inl over ↦
      let same : min (suc n) p.mining_blocks ≡ min n p.mining_blocks = ground arith in
      rw same (unfold value in ground arith)
  | inr paid ↦
      let next : min (suc n) p.mining_blocks ≡ suc (min n p.mining_blocks) = ground arith in
      rw (next, mul-suc) (ground arith)
]

-- Genesis pays nothing, and the blocks up to `n` pay one reward each until `mining_blocks`.
pub emission_exact :
    (p : QdayParams) (n : ℕ) → emission p n ≡ value p.reward * min n p.mining_blocks
unfolding emission
emission_exact p zero = rw (zero-min, mul-zero) (unfold qday_reward value in refl)
emission_exact p (suc n) = omega (arith, emission_exact p n, reward_at p n)

-- The reward that the validation of a block asks for is the one that `emission` counts.
pub block_reward-emission :
    (s : State) (p : QdayParams) (n : ℕ)
    → s.network.qday ≡ some p
    → child_height s ≡ suc n
    → (r : Currency) × (block_reward s ≡ some r) × (emission p (suc n) ≡ emission p n + value r)
unfolding block_reward emission
block_reward-emission s p n e h = (qday_reward p (suc n), rw (e, block_reward, h), refl)
