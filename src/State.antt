-- ===== src/State.antt =====
-- core/consensus/state.go and the parameters of core/consensus/qday.go: the network, the state of
-- the chain as of a block, and what is read off them. A hash, an ID, an address and a 32-byte array
-- are the numbers of their big-endian bytes; a time and a duration are integers of nanoseconds.
pub mod Reward
use qday.Base.{
  ℕ, ◌+◌, ◌%◌, Bool, false, ◌&&◌, ◌||◌, Option, none, some, List, ltb, leb, ◌==◌, ◌!=◌,
  if◌then◌else◌,
}
use qday.Base.Int.{ℤ, pos, ltb_ℤ, ◌+ℤ◌}
use qday.Base.Options.{◌>>=◌}
use qday.Base.Words.{u64_mod}
use qday.Currency.{
  Currency, zero_currency, hastings_per_siacoin, mul_word, div_word, sub_with_underflow, cmp, Order,
}
use qday.Work
use qday.Work.{Work}
use qday.Work.Target.{inv_target}
use qday.Work.Value.{value}
use qday.Accumulator.{Accumulator}

-- qday.go
pub record QdayParams : Type 0 where
  pub rules_version : ℕ
  pub domain : ℕ
  pub canary : ℕ
  pub reward : Currency
  pub proof_fee : Currency
  pub mining_blocks : ℕ
  pub premine_amount : Currency
  pub shield_blocks : ℕ
  pub decay_blocks : ℕ
  pub decay_step : ℕ
  pub activation_delay : ℕ
  pub defend_bits : ℕ
  pub v1_height : ℕ

-- The fields of `Network` that the modelled code reads; the parts of a hardfork are joined by `_`.
pub record Network : Type 0 where
  pub qday : Option QdayParams
  pub initial_coinbase : Currency
  pub minimum_coinbase : Currency
  pub initial_target : ℕ
  pub block_interval : ℤ
  pub maturity_delay : ℕ
  pub oak_height : ℕ
  pub genesis_timestamp : ℤ
  pub asic_height : ℕ
  pub asic_oak_time : ℤ
  pub asic_oak_target : ℕ
  pub asic_nonce_factor : ℕ
  pub foundation_height : ℕ
  pub v2_allow_height : ℕ
  pub v2_require_height : ℕ
  pub v2_final_cut_height : ℕ
  pub v2_ephemeral_output_height : ℕ

pub record ChainIndex : Type 0 where
  pub height : ℕ
  pub id : ℕ

pub record State : Type 0 where
  pub qday_height : ℕ
  pub network : Network
  pub index : ChainIndex
  pub prev_timestamps : List ℤ
  pub depth : ℕ
  pub child_target : ℕ
  pub siafund_tax_revenue : Currency
  pub oak_time : ℤ
  pub oak_target : ℕ
  pub foundation_subsidy_address : ℕ
  pub foundation_management_address : ℕ
  pub total_work : Work
  pub difficulty : Work
  pub oak_work : Work
  pub elements : Accumulator
  pub attestations : ℕ

unfoldable pub child_height : State → ℕ
child_height s = (s.index.height + 1) % u64_mod

unfoldable pub sufficiently_heavier_than : State → State → Option Bool
sufficiently_heavier_than s t = Work.div64 t.difficulty 5 >>= λ slack.
    Work.add t.total_work slack >>= λ bar. some (Work.less bar s.total_work)

-- The rule before QDAY: a coinbase that falls by one coin a block to a minimum. `uint32` cuts the
-- height.
unfoldable pub sia_reward : State → Option Currency
unfolding child_height
sia_reward s = mul_word hastings_per_siacoin (child_height s % 4294967296) >>= λ paid.
    let (r, underflow) = sub_with_underflow s.network.initial_coinbase paid in
    some (
      if underflow then s.network.minimum_coinbase else (elim (cmp r s.network.minimum_coinbase) [
        | Order.less ↦ s.network.minimum_coinbase
        | _ ↦ r
      ]))

unfoldable pub qday_reward : QdayParams → ℕ → Currency
qday_reward p height =
    if (height == 0) || ltb p.mining_blocks height then zero_currency else p.reward

unfoldable pub block_reward : State → Option Currency
unfolding sia_reward qday_reward child_height
block_reward s = elim s.network.qday [
  | some p ↦ some (qday_reward p (child_height s))
  | none ↦ sia_reward s
]

unfoldable pub pow_target : State → Option ℕ
unfolding child_height
pow_target s =
    if ltb (child_height s) s.network.v2_final_cut_height
    then some s.child_target
    else inv_target (value s.difficulty)

unfoldable pub maturity_height : State → ℕ
unfolding child_height
maturity_height s = (child_height s + s.network.maturity_delay) % u64_mod

unfoldable pub nonce_factor : State → ℕ
unfolding child_height
nonce_factor s =
    if ltb (child_height s) s.network.asic_height then 1 else s.network.asic_nonce_factor

unfoldable pub max_future_timestamp : State → ℤ → ℤ
unfolding child_height
max_future_timestamp s now = elim s.network.qday [
  | some _ ↦
      (if (child_height s == 1) && ltb_ℤ now s.network.genesis_timestamp
        then now
        else now +ℤ pos 10800000000000)
  | none ↦ now +ℤ pos 10800000000000
]

-- `len(s.PrevTimestamps)` is 11.
unfoldable pub num_timestamps : State → ℕ
unfolding child_height
num_timestamps s = if ltb (child_height s) 11 then child_height s else 11

unfoldable pub qday_v1_active : State → ℕ → Bool
qday_v1_active s height = elim s.network.qday [
  | some p ↦ (p.v1_height != 0) && leb p.v1_height height
  | none ↦ false
]

unfoldable pub qday_active : State → ℕ → Bool
qday_active s height = elim s.network.qday [
  | some p ↦ (s.qday_height != 0) && leb s.qday_height height
  | none ↦ false
]

-- One displayed coin in hastings: a millionth of it from activation on.
unfoldable pub qday_units : State → ℕ → Option Currency
unfolding qday_active
qday_units s height =
    if qday_active s height
    then div_word hastings_per_siacoin 1000000
    else some hastings_per_siacoin
