-- ===== src/Validation/Siafunds.antt =====
-- core/consensus/validation.go: validateV2Siafunds, validateAttestations and
-- validateFoundationUpdate.
use qday.Base.{
  ℕ, ◌+◌, ◌%◌, Bool, false, ◌||◌, not, Option, none, some, List, [], ◌∷◌, leb, ◌==◌, ◌!=◌,
  if◌then◌else◌, length, get_elem?,
}
use qday.Base.Results.{Result, ok, err, ◌>>=◌, ◌>>◌, fail_if, wrap}
use qday.Base.Words.{u64_mod}
use qday.Accumulator.{Accumulator}
use qday.Ledger.{MidState, insert, unassigned_leaf_index}
use qday.Policy.Crypto.{Crypto}
use qday.State.{child_height}
use qday.Types.{
  SiafundElement, SiafundOutput, V2SiafundInput, V2SiacoinInput, Attestation, V2Transaction,
}
use qday.Validation.{CoinError, is_some, validate_spend_policy}

pub data FundError : Type 0 where
  spent_in_block spent_in_transaction nonexistent ephemeral already_spent not_present : FundError
  zero_output unbalanced empty_key invalid_signature unauthorized : FundError
  spend_error : CoinError → FundError

unfoldable pub is_created_fund : MidState → ℕ → Bool
is_created_fund ms id = elim (ms.elements id) [
  | none ↦ false
  | some j ↦ elim (get_elem? ms.sfes j) [ none ↦ false | some d ↦ d.created ]
]

unfoldable pub validate_ephemeral_fund : MidState → SiafundElement → Result FundError (Unit {0})
unfolding is_created_fund child_height
validate_ephemeral_fund ms parent = do
  fail_if (not (is_created_fund ms parent.id)) nonexistent
  fail_if (leb ms.base.network.v2_ephemeral_output_height (child_height ms.base)) ephemeral

-- The sums are of uint64, which wrap.
unfoldable pub sum_fund_inputs : List V2SiafundInput → ℕ → ℕ
sum_fund_inputs [] sum = sum
sum_fund_inputs (i ∷ is) sum = sum_fund_inputs is ((sum + i.parent.siafund_output.value) % u64_mod)

unfoldable pub sum_fund_outputs : List SiafundOutput → ℕ → Result FundError ℕ
sum_fund_outputs [] sum = ok sum
sum_fund_outputs (o ∷ os) sum =
    fail_if (o.value == 0) zero_output >> sum_fund_outputs os ((sum + o.value) % u64_mod)

module _ (c : Crypto) (contains_unspent contains_spent : Accumulator → SiafundElement → Bool) where
  unfoldable pub validate_fund : MidState → SiafundElement → Result FundError (Unit {0})
  unfolding validate_ephemeral_fund
  validate_fund ms parent =
      if parent.state_element.leaf_index == unassigned_leaf_index
      then validate_ephemeral_fund ms parent
      else if contains_unspent ms.base.elements parent
      then ok tt
      else if contains_spent ms.base.elements parent
      then err already_spent
      else err not_present

  unfoldable pub validate_fund_inputs :
      MidState → ℕ → (ℕ → Option ℕ) → ℕ → List V2SiafundInput → Result FundError (Unit {0})
  unfolding is_some insert validate_fund validate_spend_policy
  validate_fund_inputs ms sig_hash spent i [] = ok tt
  validate_fund_inputs ms sig_hash spent i (sfi ∷ sfis) = do
    fail_if (is_some (ms.spends sfi.parent.id)) spent_in_block
    fail_if (is_some (spent sfi.parent.id)) spent_in_transaction
    validate_fund ms sfi.parent
    wrap spend_error
        (validate_spend_policy c ms sig_hash sfi.satisfied_policy sfi.parent.siafund_output.address)
    validate_fund_inputs ms sig_hash (insert spent sfi.parent.id i) (i + 1) sfis

  unfoldable pub validate_v2_siafunds :
      (V2Transaction → ℕ) → MidState → V2Transaction → Result FundError (Unit {0})
  unfolding validate_fund_inputs sum_fund_inputs sum_fund_outputs
  validate_v2_siafunds input_sig_hash ms txn = do
    validate_fund_inputs ms (input_sig_hash txn) (λ id. none) 0 txn.siafund_inputs
    outputs ← sum_fund_outputs txn.siafund_outputs 0
    fail_if (sum_fund_inputs txn.siafund_inputs 0 != outputs) unbalanced

-- `attestation_sig_hash` is the hash of an attestation to sign.
unfoldable pub validate_attestations :
    Crypto → (Attestation → ℕ) → List Attestation → Result FundError (Unit {0})
validate_attestations c attestation_sig_hash [] = ok tt
validate_attestations c attestation_sig_hash (a ∷ as') = do
  fail_if (length a.key == 0) empty_key
  fail_if (not (c.verify_hash a.public_key (attestation_sig_hash a) a.signature)) invalid_signature
  validate_attestations c attestation_sig_hash as'

unfoldable pub spends_address : ℕ → List V2SiacoinInput → Bool
spends_address a [] = false
spends_address a (i ∷ is) = (i.parent.siacoin_output.address == a) || spends_address a is

unfoldable pub validate_foundation_update : MidState → V2Transaction → Result FundError (Unit {0})
unfolding spends_address
validate_foundation_update ms txn = elim txn.new_foundation_address [
  | none ↦ ok tt
  | some a ↦
      fail_if (not (spends_address ms.base.foundation_management_address txn.siacoin_inputs))
        unauthorized
]
