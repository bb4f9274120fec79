-- ===== src/Validation.antt =====
-- core/consensus/validation.go: the coins of a transaction and the payouts of a block. The hash to
-- sign and the membership in the accumulator are parameters.
pub mod Coins
pub mod Members
pub mod Overflow
pub mod Payouts
pub mod Spends
pub mod Storage
pub mod Siafunds
pub mod Contracts
pub mod Whole
mod Examples
use qday.Base.{
  ℕ, ◌+◌, Bool, true, false, ◌&&◌, ◌||◌, not, Option, none, some, List, [], ◌∷◌, ltb, ◌==◌, ◌!=◌,
  if◌then◌else◌, length, get_elem?,
}
use qday.Base.Results.{Result, ok, err, ◌>>=◌, ◌>>◌, fail_if, or_panic, wrap}
use qday.Accumulator.{Accumulator}
use qday.Currency.{Currency, less, zero_currency, add, add_with_overflow, cmp, equals, is_zero}
use qday.Header.{median_timestamp}
use qday.Ledger.{MidState, SiacoinElementDiff, contract_tax, unassigned_leaf_index, insert}
use qday.Policy.{SatisfiedPolicy}
use qday.Policy.Crypto.{Crypto}
use qday.Policy.Verify.{PolicyError, address, verify}
use qday.Qday.Decay.{qday_value}
use qday.State.{State, child_height, block_reward}
use qday.Types.{
  SiacoinOutput, SiacoinElement, V2SiacoinInput, V2FileContract, V2FileContractResolution, renewal,
  storage_proof, expiration, V2Transaction, Transaction, V2BlockData, Block,
}

pub data CoinError : Type 0 where
  double_spend_in_block double_spend_in_transaction immature nonexistent wrong_value : CoinError
  wrong_maturity already_spent not_present wrong_policy zero_output unbalanced : CoinError
  policy_error : PolicyError → CoinError

unfoldable pub is_some : {A : Type 0} → Option A → Bool
is_some none = false
is_some (some a) = true

unfoldable pub same_output : SiacoinOutput → SiacoinOutput → Bool
unfolding equals
same_output a b = equals a.value b.value && (a.address == b.address)

-- The diff of an element that the block created.
unfoldable pub created_diff : MidState → ℕ → Option SiacoinElementDiff
created_diff ms id = elim (ms.elements id) [
  | none ↦ none
  | some j ↦ elim (get_elem? ms.sces j) [
    | none ↦ none
    | some d ↦ (if d.created then some d else none)
  ]
]

unfoldable pub validate_ephemeral : MidState → SiacoinElement → Result CoinError (Unit {0})
unfolding created_diff same_output child_height
validate_ephemeral ms parent = elim (created_diff ms parent.id) [
  | none ↦ err nonexistent
  | some d ↦
      (if ltb (child_height ms.base) ms.base.network.v2_ephemeral_output_height
        then ok tt
        else (fail_if (parent.id != d.siacoin_element.id) nonexistent
            >> fail_if (not (same_output parent.siacoin_output d.siacoin_element.siacoin_output))
                wrong_value
            >> fail_if (parent.maturity_height != d.siacoin_element.maturity_height)
                wrong_maturity))
]

unfoldable pub validate_spend_policy :
    Crypto → MidState → ℕ → SatisfiedPolicy → ℕ → Result CoinError (Unit {0})
validate_spend_policy c ms sig_hash sp parent_address = do
  fail_if (address c sp.policy != parent_address) wrong_policy
  median ← or_panic (median_timestamp ms.base)
  wrap policy_error
      (verify c ms.base.index.height median sig_hash sp.policy sp.signatures sp.preimages)

unfoldable pub sum_inputs : State → ℕ → List V2SiacoinInput → Currency → Result CoinError Currency
sum_inputs s height [] sum = ok sum
sum_inputs s height (i ∷ is) sum = do
  v ← or_panic (qday_value s i.parent height)
  sum' ← or_panic (add sum v)
  sum_inputs s height is sum'

unfoldable pub sum_outputs : List SiacoinOutput → Currency → Result CoinError Currency
sum_outputs [] sum = ok sum
sum_outputs (out ∷ outs) sum = do
  fail_if (is_zero out.value) zero_output
  sum' ← or_panic (add sum out.value)
  sum_outputs outs sum'

-- The value of a new contract and its tax.
unfoldable pub add_contract : V2FileContract → Currency → Result CoinError Currency
unfolding contract_tax
add_contract fc sum = do
  a ← or_panic (add sum fc.renter_output.value)
  b ← or_panic (add a fc.host_output.value)
  tax ← or_panic (contract_tax fc)
  or_panic (add b tax)

unfoldable pub sum_contracts : List V2FileContract → Currency → Result CoinError Currency
unfolding add_contract
sum_contracts [] sum = ok sum
sum_contracts (fc ∷ fcs) sum = add_contract fc sum >>= sum_contracts fcs

-- A renewal adds its rollover to the inputs and its contract to the outputs.
unfoldable pub sum_renewals :
    List V2FileContractResolution → Currency × Currency → Result CoinError (Currency × Currency)
unfolding add_contract
sum_renewals [] sums = ok sums
sum_renewals (fcr ∷ fcrs) (inputs, outputs) = elim fcr.resolution [
  | renewal r ↦
      (or_panic (add inputs r.renter_rollover) >>= λ a. or_panic (add a r.host_rollover) >>= λ b.
      add_contract r.new_contract outputs >>= λ o. sum_renewals fcrs (b, o))
  | storage_proof p ↦ sum_renewals fcrs (inputs, outputs)
  | expiration ↦ sum_renewals fcrs (inputs, outputs)
]

-- On a QDAY network the inputs may exceed the outputs.
unfoldable pub is_unbalanced : State → Currency → Currency → Bool
unfolding equals
is_unbalanced s inputs outputs =
    not (equals inputs outputs)
    && (not (is_some s.network.qday) || (elim (cmp inputs outputs) [ less ↦ true | _ ↦ false ]))

-- The second half of `validateV2Siacoins`.
unfoldable pub validate_balance : State → V2Transaction → Result CoinError (Unit {0})
unfolding sum_inputs sum_outputs sum_contracts sum_renewals is_unbalanced child_height
validate_balance s txn = do
  inputs ← sum_inputs s (child_height s) txn.siacoin_inputs zero_currency
  outputs ← sum_outputs txn.siacoin_outputs zero_currency
  outputs' ← sum_contracts txn.file_contracts outputs
  sums ← sum_renewals txn.file_contract_resolutions (inputs, outputs')
  total ← or_panic (add sums.1 txn.miner_fee)
  fail_if (is_unbalanced s sums.0 total) unbalanced

module _ (c : Crypto) (contains_unspent contains_spent : Accumulator → SiacoinElement → Bool) where
  unfoldable pub validate_element : MidState → SiacoinElement → Result CoinError (Unit {0})
  unfolding validate_ephemeral
  validate_element ms parent =
      if parent.state_element.leaf_index == unassigned_leaf_index
      then validate_ephemeral ms parent
      else if contains_unspent ms.base.elements parent
      then ok tt
      else if contains_spent ms.base.elements parent
      then err already_spent
      else err not_present

  -- The loop over the inputs, with the index of the input that spent an output so far.
  unfoldable pub validate_inputs :
      MidState → ℕ → (ℕ → Option ℕ) → ℕ → List V2SiacoinInput → Result CoinError (Unit {0})
  unfolding is_some insert validate_element validate_spend_policy child_height
  validate_inputs ms sig_hash spent i [] = ok tt
  validate_inputs ms sig_hash spent i (sci ∷ scis) = do
    fail_if (is_some (ms.spends sci.parent.id)) double_spend_in_block
    fail_if (is_some (spent sci.parent.id)) double_spend_in_transaction
    fail_if (ltb (child_height ms.base) sci.parent.maturity_height) immature
    validate_element ms sci.parent
    validate_spend_policy c ms sig_hash sci.satisfied_policy sci.parent.siacoin_output.address
    validate_inputs ms sig_hash (insert spent sci.parent.id i) (i + 1) scis

  -- `input_sig_hash` is the hash of a transaction to sign.
  unfoldable pub validate_v2_siacoins :
      (V2Transaction → ℕ) → MidState → V2Transaction → Result CoinError (Unit {0})
  unfolding validate_inputs validate_balance
  validate_v2_siacoins input_sig_hash ms txn =
      validate_inputs ms (input_sig_hash txn) (λ id. none) 0 txn.siacoin_inputs
      >> validate_balance ms.base txn

-- validateMinerPayouts
pub data PayoutError : Type 0 where
  zero_fee fees_overflow v2_fees_overflow several_payouts zero_payout : PayoutError
  payouts_overflow wrong_sum : PayoutError

unfoldable pub add_checked : PayoutError → Currency → Currency → Result PayoutError Currency
add_checked e sum v = let r = add_with_overflow sum v in if r.1 then err e else ok r.0

unfoldable pub add_fees : List Currency → Currency → Result PayoutError Currency
unfolding add_checked
add_fees [] sum = ok sum
add_fees (fee ∷ fees) sum = do
  fail_if (is_zero fee) zero_fee
  sum' ← add_checked fees_overflow sum fee
  add_fees fees sum'

unfoldable pub add_all_fees : List Transaction → Currency → Result PayoutError Currency
unfolding add_fees
add_all_fees [] sum = ok sum
add_all_fees (txn ∷ txns) sum = add_fees txn.miner_fees sum >>= add_all_fees txns

unfoldable pub add_v2_fees : List V2Transaction → Currency → Result PayoutError Currency
unfolding add_checked
add_v2_fees [] sum = ok sum
add_v2_fees (txn ∷ txns) sum = add_checked v2_fees_overflow sum txn.miner_fee >>= add_v2_fees txns

unfoldable pub add_payouts : Bool → List SiacoinOutput → Currency → Result PayoutError Currency
unfolding add_checked
add_payouts qday [] sum = ok sum
add_payouts qday (mp ∷ mps) sum = do
  fail_if (is_zero mp.value && not qday) zero_payout
  sum' ← add_checked payouts_overflow sum mp.value
  add_payouts qday mps sum'

unfoldable pub add_data_fees : Option V2BlockData → ℕ → Currency → Result PayoutError Currency
unfolding add_v2_fees
add_data_fees none payouts sum = ok sum
add_data_fees (some d) payouts sum = do
  sum' ← add_v2_fees d.transactions sum
  fail_if (payouts != 1) several_payouts
  ok sum'

unfoldable pub validate_miner_payouts : State → Block → Result PayoutError (Unit {0})
unfolding add_all_fees add_data_fees add_payouts
validate_miner_payouts s b = do
  reward ← or_panic (block_reward s)
  fees ← add_all_fees b.transactions reward
  expected ← add_data_fees b.v2 (length b.miner_payouts) fees
  sum ← add_payouts (is_some s.network.qday) b.miner_payouts zero_currency
  fail_if (not (equals sum expected)) wrong_sum
