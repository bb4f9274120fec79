-- ===== src/Validation/Contracts.antt =====
-- core/consensus/validation.go: validateV2FileContracts.
use qday.Base.{
  ℕ, ◌+◌, Bool, true, false, ◌&&◌, not, Option, none, some, List, [], ◌∷◌, ltb, leb, ◌!=◌,
  if◌then◌else◌, get_elem?,
}
use qday.Base.Bytes.{Bytes}
use qday.Base.Results.{Result, ok, err, panic, ◌>>=◌, ◌>>◌, fail_if, or_panic}
use qday.Accumulator.{Accumulator}
use qday.Currency.{Currency, more, add, cmp, equals, is_zero}
use qday.Ledger.{MidState, insert, contract_tax}
use qday.Policy.Crypto.{Crypto}
use qday.State.{child_height}
use qday.Types.{
  V2FileContract, V2FileContractElement, V2FileContractRevision, V2FileContractResolution,
  ChainIndexElement, Resolution, Renewal, StorageProof, renewal, storage_proof, expiration,
  V2Transaction,
}
use qday.Validation.{is_some}
use qday.Validation.Storage.{storage_proof_leaf_index, storage_proof_root}

pub data ContractError : Type 0 where
  resolved_in_block revised_already resolved_already resolved_before not_present : ContractError
  invalid_renter_signature invalid_host_signature exceeds_capacity proof_height_passed :
      ContractError
  no_proof_window zero_value missed_value_too_high collateral_too_high : ContractError
  capacity_falls window_opened revision_number_falls output_sum_changes : ContractError
  missed_value_rises collateral_changes after_proof_height : ContractError
  renter_key_changes host_key_changes wrong_payout rollover_too_high : ContractError
  too_early wrong_proof_index no_history wrong_root not_expired : ContractError

-- What the rules ask the accumulator, and the hashes.
pub record ContractOracle : Type 0 where
  pub contains_unresolved : Accumulator → V2FileContractElement → Bool
  pub contains_resolved : Accumulator → V2FileContractElement → Bool
  pub contains_chain_index : Accumulator → ChainIndexElement → Bool
  pub contract_sig_hash : V2FileContract → ℕ
  pub renewal_sig_hash : Renewal → ℕ
  pub window_seed : ℕ → ℕ → ℕ
  pub leaf_hash : Bytes → ℕ
  pub sum_pair : ℕ → ℕ → ℕ

abbrev exceeds : Currency → Currency → Bool
exceeds a b = elim (cmp a b) [ more ↦ true | _ ↦ false ]

-- The contract with the revision of this block.
unfoldable pub current_contract :
    MidState → V2FileContractElement → Result ContractError V2FileContract
current_contract ms fce = elim (ms.elements fce.id) [
  | none ↦ ok fce.v2_file_contract
  | some i ↦ elim (get_elem? ms.v2fces i) [
    | none ↦ panic
    | some d ↦ elim d.revision [ none ↦ ok fce.v2_file_contract | some rev ↦ ok rev ]
  ]
]

module _ (c : Crypto) (o : ContractOracle) where
  unfoldable pub validate_parent :
      MidState
      → (ℕ → Option ℕ)
      → (ℕ → Option ℕ)
      → V2FileContractElement
      → Result ContractError (Unit {0})
  unfolding is_some
  validate_parent ms revised resolved fce = do
    fail_if (is_some (ms.spends fce.id)) resolved_in_block
    fail_if (is_some (revised fce.id)) revised_already
    fail_if (is_some (resolved fce.id)) resolved_already
    (if o.contains_unresolved ms.base.elements fce
        then ok tt
        else (if o.contains_resolved ms.base.elements fce
            then err resolved_before
            else err not_present))

  unfoldable pub validate_signatures : V2FileContract → ℕ → ℕ → Result ContractError (Unit {0})
  validate_signatures fc renter host = do
    fail_if (not (c.verify_hash renter (o.contract_sig_hash fc) fc.renter_signature))
        invalid_renter_signature
    fail_if (not (c.verify_hash host (o.contract_sig_hash fc) fc.host_signature))
        invalid_host_signature

  unfoldable pub validate_contract : MidState → V2FileContract → Result ContractError (Unit {0})
  unfolding validate_signatures child_height
  validate_contract ms fc = do
    fail_if (ltb fc.capacity fc.filesize) exceeds_capacity
    fail_if (ltb fc.proof_height (child_height ms.base)) proof_height_passed
    fail_if (leb fc.expiration_height fc.proof_height) no_proof_window
    fail_if (is_zero fc.renter_output.value && is_zero fc.host_output.value) zero_value
    fail_if (exceeds fc.missed_host_value fc.host_output.value) missed_value_too_high
    fail_if (exceeds fc.total_collateral fc.host_output.value) collateral_too_high
    validate_signatures fc fc.renter_public_key fc.host_public_key

  -- The signatures are checked against the current keys.
  unfoldable pub validate_revision :
      MidState → V2FileContractElement → V2FileContract → Result ContractError (Unit {0})
  unfolding current_contract validate_signatures child_height equals
  validate_revision ms fce rev = do
    cur ← current_contract ms fce
    cur_sum ← or_panic (add cur.renter_output.value cur.host_output.value)
    rev_sum ← or_panic (add rev.renter_output.value rev.host_output.value)
    fail_if (ltb rev.capacity cur.capacity) capacity_falls
    fail_if (ltb rev.capacity rev.filesize) exceeds_capacity
    fail_if (ltb cur.proof_height (child_height ms.base)) window_opened
    fail_if (leb rev.revision_number cur.revision_number) revision_number_falls
    fail_if (not (equals rev_sum cur_sum)) output_sum_changes
    fail_if (exceeds rev.missed_host_value cur.missed_host_value) missed_value_rises
    fail_if
        (leb ms.base.network.v2_ephemeral_output_height (child_height ms.base)
          && exceeds rev.missed_host_value rev.host_output.value)
        missed_value_too_high
    fail_if (not (equals rev.total_collateral cur.total_collateral)) collateral_changes
    fail_if (ltb rev.proof_height (child_height ms.base)) proof_height_passed
    fail_if (leb rev.expiration_height rev.proof_height) no_proof_window
    validate_signatures rev cur.renter_public_key cur.host_public_key

  unfoldable pub validate_contracts :
      MidState → List V2FileContract → Result ContractError (Unit {0})
  unfolding validate_contract
  validate_contracts ms [] = ok tt
  validate_contracts ms (fc ∷ fcs) = validate_contract ms fc >> validate_contracts ms fcs

  -- The result is the map of the contracts revised.
  unfoldable pub validate_revisions :
      MidState
      → (ℕ → Option ℕ)
      → ℕ
      → List V2FileContractRevision
      → Result ContractError (ℕ → Option ℕ)
  unfolding validate_parent validate_revision insert child_height
  validate_revisions ms revised i [] = ok revised
  validate_revisions ms revised i (fcr ∷ fcrs) = do
    validate_parent ms revised (λ id. none) fcr.parent
    fail_if (ltb fcr.parent.v2_file_contract.proof_height (child_height ms.base)) after_proof_height
    validate_revision ms fcr.parent fcr.revision
    validate_revisions ms (insert revised fcr.parent.id i) (i + 1) fcrs

  unfoldable pub validate_renewal :
      MidState → V2FileContract → Renewal → Result ContractError (Unit {0})
  unfolding validate_contract contract_tax equals
  validate_renewal ms fc r = do
    fail_if (fc.renter_public_key != r.new_contract.renter_public_key) renter_key_changes
    fail_if (fc.host_public_key != r.new_contract.host_public_key) host_key_changes
    a ← or_panic (add r.final_renter_output.value r.renter_rollover)
    b ← or_panic (add a r.final_host_output.value)
    total ← or_panic (add b r.host_rollover)
    existing ← or_panic (add fc.renter_output.value fc.host_output.value)
    fail_if (not (equals total existing)) wrong_payout
    outputs ← or_panic (add r.new_contract.renter_output.value r.new_contract.host_output.value)
    tax ← or_panic (contract_tax r.new_contract)
    cost ← or_panic (add outputs tax)
    rollover ← or_panic (add r.renter_rollover r.host_rollover)
    fail_if (exceeds rollover cost) rollover_too_high
    validate_contract ms r.new_contract
    fail_if (not (c.verify_hash fc.renter_public_key (o.renewal_sig_hash r) r.renter_signature))
        invalid_renter_signature
    fail_if (not (c.verify_hash fc.host_public_key (o.renewal_sig_hash r) r.host_signature))
        invalid_host_signature

  unfoldable pub validate_storage_proof :
      MidState → ℕ → V2FileContract → StorageProof → Result ContractError (Unit {0})
  unfolding storage_proof_leaf_index storage_proof_root child_height
  validate_storage_proof ms id fc sp = do
    fail_if (ltb (child_height ms.base) fc.proof_height) too_early
    fail_if (sp.proof_index.height != fc.proof_height) wrong_proof_index
    fail_if (not (o.contains_chain_index ms.base.elements sp.proof_index)) no_history
    leaf_index ←
        or_panic (storage_proof_leaf_index (o.window_seed sp.proof_index.chain_id id) fc.filesize)
    fail_if
        (storage_proof_root o.sum_pair (o.leaf_hash sp.leaf) leaf_index fc.filesize sp.proof
          != fc.file_merkle_root)
        wrong_root

  unfoldable pub validate_resolution :
      MidState → V2FileContractElement → Resolution → Result ContractError (Unit {0})
  unfolding validate_renewal validate_storage_proof child_height
  validate_resolution ms fce (renewal r) = validate_renewal ms fce.v2_file_contract r
  validate_resolution ms fce (storage_proof sp) =
      validate_storage_proof ms fce.id fce.v2_file_contract sp
  validate_resolution ms fce expiration =
      fail_if (leb (child_height ms.base) fce.v2_file_contract.expiration_height) not_expired

  unfoldable pub validate_resolutions :
      MidState
      → (ℕ → Option ℕ)
      → (ℕ → Option ℕ)
      → ℕ
      → List V2FileContractResolution
      → Result ContractError (Unit {0})
  unfolding validate_parent validate_resolution insert
  validate_resolutions ms revised resolved i [] = ok tt
  validate_resolutions ms revised resolved i (fcr ∷ fcrs) = do
    validate_parent ms revised resolved fcr.parent
    validate_resolution ms fcr.parent fcr.resolution
    validate_resolutions ms revised (insert resolved fcr.parent.id i) (i + 1) fcrs

  unfoldable pub validate_v2_file_contracts :
      MidState → V2Transaction → Result ContractError (Unit {0})
  unfolding validate_contracts validate_revisions validate_resolutions
  validate_v2_file_contracts ms txn = do
    validate_contracts ms txn.file_contracts
    revised ← validate_revisions ms (λ id. none) 0 txn.file_contract_revisions
    validate_resolutions ms revised (λ id. none) 0 txn.file_contract_resolutions
