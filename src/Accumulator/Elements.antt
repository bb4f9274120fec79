-- ===== src/Accumulator/Elements.antt =====
-- core/consensus/merkle.go: the leaves of the kinds of elements, and the tests of membership.
use qday.Base.{ℕ, Bool, true, false, List, [], ◌∷◌, not, ◌&&◌, ◌==◌}
use qday.Base.Bytes.{Bytes}
use qday.Base.Results.{Result, ok, fail_if, ◌>>◌}
use qday.Accumulator.{Accumulator, ElementLeaf, contains_leaf}
use qday.Ledger.{unassigned_leaf_index}
use qday.Types.{
  StateElement, SiacoinElement, SiafundElement, V2FileContract, V2FileContractElement,
  ChainIndexElement, AttestationElement, V2Transaction, V2SiacoinInput, V2SiafundInput,
  V2FileContractRevision, V2FileContractResolution, Resolution, storage_proof,
}

-- hashAll of the kinds of elements; that of a contract takes the contract that is hashed.
pub record ElementHashes : Type 0 where
  pub siacoin : SiacoinElement → ℕ
  pub siafund : SiafundElement → ℕ
  pub v2_file_contract : ℕ → V2FileContract → ℕ
  pub chain_index : ChainIndexElement → ℕ
  pub attestation : AttestationElement → ℕ

unfoldable pub element_leaf : StateElement → ℕ → Bool → ElementLeaf
element_leaf e h spent = record {
  leaf_index = e.leaf_index;
  merkle_proof = e.merkle_proof;
  element_hash = h;
  spent = spent;
}

pub data ElementsError : Type 0 where
  siacoin_input siafund_input revision resolution proof_index : ElementsError

module _ (h : ElementHashes) where
  unfoldable pub siacoin_leaf : SiacoinElement → Bool → ElementLeaf
  unfolding element_leaf
  siacoin_leaf e spent = element_leaf e.state_element (h.siacoin e) spent

  unfoldable pub siafund_leaf : SiafundElement → Bool → ElementLeaf
  unfolding element_leaf
  siafund_leaf e spent = element_leaf e.state_element (h.siafund e) spent

  -- The contract that is hashed is the revision, if there is one.
  unfoldable pub v2_file_contract_leaf : V2FileContractElement → V2FileContract → Bool → ElementLeaf
  unfolding element_leaf
  v2_file_contract_leaf e fc spent = element_leaf e.state_element (h.v2_file_contract e.id fc) spent

  unfoldable pub chain_index_leaf : ChainIndexElement → ElementLeaf
  unfolding element_leaf
  chain_index_leaf e = element_leaf e.state_element (h.chain_index e) false

  unfoldable pub attestation_leaf : AttestationElement → ElementLeaf
  unfolding element_leaf
  attestation_leaf e = element_leaf e.state_element (h.attestation e) false

module _ (sum_pair : ℕ → ℕ → ℕ) (hash_bytes : Bytes → ℕ) (h : ElementHashes) where
  unfoldable pub contains_chain_index : Accumulator → ChainIndexElement → Bool
  unfolding contains_leaf chain_index_leaf
  contains_chain_index acc e = contains_leaf sum_pair hash_bytes acc (chain_index_leaf h e)

  unfoldable pub contains_unspent_siacoin_element : Accumulator → SiacoinElement → Bool
  unfolding contains_leaf siacoin_leaf
  contains_unspent_siacoin_element acc e =
      contains_leaf sum_pair hash_bytes acc (siacoin_leaf h e false)

  unfoldable pub contains_spent_siacoin_element : Accumulator → SiacoinElement → Bool
  unfolding contains_leaf siacoin_leaf
  contains_spent_siacoin_element acc e =
      contains_leaf sum_pair hash_bytes acc (siacoin_leaf h e true)

  unfoldable pub contains_unspent_siafund_element : Accumulator → SiafundElement → Bool
  unfolding contains_leaf siafund_leaf
  contains_unspent_siafund_element acc e =
      contains_leaf sum_pair hash_bytes acc (siafund_leaf h e false)

  unfoldable pub contains_spent_siafund_element : Accumulator → SiafundElement → Bool
  unfolding contains_leaf siafund_leaf
  contains_spent_siafund_element acc e =
      contains_leaf sum_pair hash_bytes acc (siafund_leaf h e true)

  unfoldable pub contains_unresolved_contract : Accumulator → V2FileContractElement → Bool
  unfolding contains_leaf v2_file_contract_leaf
  contains_unresolved_contract acc e =
      contains_leaf sum_pair hash_bytes acc (v2_file_contract_leaf h e e.v2_file_contract false)

  unfoldable pub contains_resolved_contract : Accumulator → V2FileContractElement → Bool
  unfolding contains_leaf v2_file_contract_leaf
  contains_resolved_contract acc e =
      contains_leaf sum_pair hash_bytes acc (v2_file_contract_leaf h e e.v2_file_contract true)

  -- An ephemeral element has no proof yet.
  unfoldable pub check_leaf :
      Accumulator → ElementsError → ElementLeaf → Result ElementsError (Unit {0})
  unfolding contains_leaf
  check_leaf acc e l =
      fail_if
        (not (l.leaf_index == unassigned_leaf_index)
          && not (contains_leaf sum_pair hash_bytes acc l))
        e

  unfoldable pub check_siacoin_inputs :
      Accumulator → List V2SiacoinInput → Result ElementsError (Unit {0})
  unfolding check_leaf siacoin_leaf
  check_siacoin_inputs acc [] = ok tt
  check_siacoin_inputs acc (i ∷ is) =
      check_leaf acc siacoin_input (siacoin_leaf h i.parent false) >> check_siacoin_inputs acc is

  unfoldable pub check_siafund_inputs :
      Accumulator → List V2SiafundInput → Result ElementsError (Unit {0})
  unfolding check_leaf siafund_leaf
  check_siafund_inputs acc [] = ok tt
  check_siafund_inputs acc (i ∷ is) =
      check_leaf acc siafund_input (siafund_leaf h i.parent false) >> check_siafund_inputs acc is

  unfoldable pub check_revisions :
      Accumulator → List V2FileContractRevision → Result ElementsError (Unit {0})
  unfolding check_leaf v2_file_contract_leaf
  check_revisions acc [] = ok tt
  check_revisions acc (r ∷ rs) =
      check_leaf acc revision (v2_file_contract_leaf h r.parent r.parent.v2_file_contract false)
      >> check_revisions acc rs

  unfoldable pub check_proof_index : Accumulator → Resolution → Result ElementsError (Unit {0})
  unfolding check_leaf chain_index_leaf
  check_proof_index acc (storage_proof p) =
      check_leaf acc proof_index (chain_index_leaf h p.proof_index)
  check_proof_index acc r = ok tt

  unfoldable pub check_resolutions :
      Accumulator → List V2FileContractResolution → Result ElementsError (Unit {0})
  unfolding check_leaf v2_file_contract_leaf check_proof_index
  check_resolutions acc [] = ok tt
  check_resolutions acc (r ∷ rs) =
      check_leaf acc resolution (v2_file_contract_leaf h r.parent r.parent.v2_file_contract false)
      >> (check_proof_index acc r.resolution >> check_resolutions acc rs)

  unfoldable pub validate_transaction_elements :
      Accumulator → V2Transaction → Result ElementsError (Unit {0})
  unfolding check_siacoin_inputs check_siafund_inputs check_revisions check_resolutions
  validate_transaction_elements acc txn = do
    check_siacoin_inputs acc txn.siacoin_inputs
    check_siafund_inputs acc txn.siafund_inputs
    check_revisions acc txn.file_contract_revisions
    check_resolutions acc txn.file_contract_resolutions
