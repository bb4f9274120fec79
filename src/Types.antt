-- ===== src/Types.antt =====
-- core/types/types.go: outputs, the elements of the state, contracts, transactions and blocks. An
-- ID, an address, a hash and a signature are numbers; the fields that are kept are those that the
-- rules for blocks read or write.
use qday.Base.{ℕ, Option, List}
use qday.Base.Int.{ℤ}
use qday.Base.Bytes.{Bytes}
use qday.Currency.{Currency}
use qday.Policy.{SatisfiedPolicy}

pub record SiacoinOutput : Type 0 where
  pub value : Currency
  pub address : ℕ

pub record SiafundOutput : Type 0 where
  pub value : ℕ
  pub address : ℕ

-- `shared` only guards against writes.
pub record StateElement : Type 0 where
  pub leaf_index : ℕ
  pub merkle_proof : List ℕ

pub record SiacoinElement : Type 0 where
  pub id : ℕ
  pub state_element : StateElement
  pub siacoin_output : SiacoinOutput
  pub maturity_height : ℕ

pub record SiafundElement : Type 0 where
  pub id : ℕ
  pub state_element : StateElement
  pub siafund_output : SiafundOutput
  pub claim_start : Currency

pub record V2FileContract : Type 0 where
  pub capacity : ℕ
  pub filesize : ℕ
  pub file_merkle_root : ℕ
  pub proof_height : ℕ
  pub expiration_height : ℕ
  pub renter_output : SiacoinOutput
  pub host_output : SiacoinOutput
  pub missed_host_value : Currency
  pub total_collateral : Currency
  pub renter_public_key : ℕ
  pub host_public_key : ℕ
  pub revision_number : ℕ
  pub renter_signature : ℕ
  pub host_signature : ℕ

pub record V2FileContractElement : Type 0 where
  pub id : ℕ
  pub state_element : StateElement
  pub v2_file_contract : V2FileContract

pub record V2SiacoinInput : Type 0 where
  pub parent : SiacoinElement
  pub satisfied_policy : SatisfiedPolicy

pub record V2SiafundInput : Type 0 where
  pub parent : SiafundElement
  pub claim_address : ℕ
  pub satisfied_policy : SatisfiedPolicy

pub record V2FileContractRevision : Type 0 where
  pub parent : V2FileContractElement
  pub revision : V2FileContract

-- `height` and `chain_id` are its ChainIndex.
pub record ChainIndexElement : Type 0 where
  pub id : ℕ
  pub state_element : StateElement
  pub height : ℕ
  pub chain_id : ℕ

pub record Renewal : Type 0 where
  pub final_renter_output : SiacoinOutput
  pub final_host_output : SiacoinOutput
  pub renter_rollover : Currency
  pub host_rollover : Currency
  pub new_contract : V2FileContract
  pub renter_signature : ℕ
  pub host_signature : ℕ

pub record StorageProof : Type 0 where
  pub proof_index : ChainIndexElement
  pub leaf : Bytes
  pub proof : List ℕ

pub data Resolution : Type 0 where
  renewal : Renewal → Resolution
  storage_proof : StorageProof → Resolution
  expiration : Resolution

pub record V2FileContractResolution : Type 0 where
  pub parent : V2FileContractElement
  pub resolution : Resolution

pub record Attestation : Type 0 where
  pub public_key : ℕ
  pub key : Bytes
  pub value : Bytes
  pub signature : ℕ

pub record AttestationElement : Type 0 where
  pub id : ℕ
  pub state_element : StateElement
  pub attestation : Attestation

pub record V2Transaction : Type 0 where
  pub siacoin_inputs : List V2SiacoinInput
  pub siacoin_outputs : List SiacoinOutput
  pub siafund_inputs : List V2SiafundInput
  pub siafund_outputs : List SiafundOutput
  pub file_contracts : List V2FileContract
  pub file_contract_revisions : List V2FileContractRevision
  pub file_contract_resolutions : List V2FileContractResolution
  pub attestations : List Attestation
  pub arbitrary_data : Bytes
  pub new_foundation_address : Option ℕ
  pub miner_fee : Currency

-- A transaction of the first version, which QDAY blocks do not hold.
pub record Transaction : Type 0 where
  pub miner_fees : List Currency

pub record V2BlockData : Type 0 where
  pub height : ℕ
  pub commitment : ℕ
  pub transactions : List V2Transaction

pub record Block : Type 0 where
  pub parent_id : ℕ
  pub nonce : ℕ
  pub timestamp : ℤ
  pub miner_payouts : List SiacoinOutput
  pub transactions : List Transaction
  pub v2 : Option V2BlockData
