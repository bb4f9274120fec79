-- ===== src/Block.antt =====
-- core/consensus/validation.go: ValidateOrphan and ValidateBlock; core/consensus/application.go:
-- ApplyBlock; core/consensus/state.go: FoundationSubsidy. The supplement of a block is empty, as it
-- must be from the required height of the v2 hardfork on, so that a transaction of the first version
-- is refused where a block is validated, and panics where one is applied.
pub mod Effects
pub mod Inputs
pub mod Markers
pub mod Sound
pub mod Spends
pub mod Proved
pub mod Kept
pub mod Activation
pub mod Sample
pub mod Transfer
mod Examples
use qday.Base.{
  ℕ, zero, suc, ◌+◌, ◌-◌, ◌/◌, ◌%◌, Bool, true, false, ◌&&◌, ◌||◌, not, Option, none, some, List,
  [], ◌∷◌, ◌++◌, ltb, leb, ◌==◌, ◌!=◌, if◌then◌else◌, length,
}
use qday.Base.Bytes.{Bytes}
use qday.Base.Int.{ℤ, pos, negsuc, quo, u64}
use qday.Base.Options
use qday.Base.Results.{Result, ok, err, panic, ◌>>=◌, ◌>>◌, fail_if, or_panic, wrap}
use qday.Base.Words.{u64_mod}
use qday.Accumulator.{Accumulator, ElementLeaf}
use qday.Accumulator.Elements.{
  ElementHashes, siacoin_leaf, siafund_leaf, v2_file_contract_leaf, attestation_leaf,
  chain_index_leaf,
}
use qday.Accumulator.Update.{apply_elements}
use qday.Currency.{Currency, hastings_per_siacoin, mul_word}
use qday.Header.{BlockHeader, apply_header}
use qday.Header.Validate.{HeaderError, validate_header}
use qday.Ledger.{
  MidState, SiacoinElementDiff, SiafundElementDiff, V2FileContractElementDiff, new_mid_state,
  create_immature_siacoin_element, unassigned, unassigned_leaf_index,
}
use qday.Ledger.Apply.{Ids, each, apply_v2_transaction}
use qday.Qday.Transaction
use qday.Qday.Transaction.{validate_qday_block_markers}
use qday.State.{State, QdayParams, child_height, qday_v1_active}
use qday.Types.{
  SiacoinOutput, AttestationElement, ChainIndexElement, Resolution, V2FileContract, V2Transaction,
  V2BlockData, Block, Transaction,
}
use qday.Validation.{PayoutError, is_some, validate_miner_payouts}
use qday.Validation.Whole.{Rules, InvalidTransaction, validate_v2_transaction, max_block_weight}

-- `merkle_root` is blockMerkleRoot, of a block of the first version; `header_id` is the hash of a
-- header, and `commitment` that of a state, an address and the transactions.
pub record Roots : Type 0 where
  pub merkle_root : Block → ℕ
  pub header_id : BlockHeader → ℕ
  pub commitment : State → ℕ → List Transaction → List V2Transaction → ℕ
  pub weight : Transaction → ℕ

unfoldable pub v2_transactions : Block → List V2Transaction
v2_transactions b = elim b.v2 [ none ↦ [] | some d ↦ d.transactions ]

unfoldable pub header : Roots → Block → BlockHeader
header r b = record {
  parent_id = b.parent_id;
  nonce = b.nonce;
  timestamp = b.timestamp;
  commitment = elim b.v2 [ none ↦ r.merkle_root b | some d ↦ d.commitment ];
}

pub data BlockError : Type 0 where
  marker_error : Transaction.TransactionError → BlockError
  payout_error : PayoutError → BlockError
  header_error : HeaderError → BlockError
  too_heavy wrong_height commitment_mismatch invalid_supplement : BlockError
  transaction_error : InvalidTransaction → BlockError

-- The sums of weights wrap.
unfoldable pub total_weight : (Transaction → ℕ) → List Transaction → ℕ → ℕ
total_weight weight [] sum = sum
total_weight weight (t ∷ ts) sum = total_weight weight ts ((sum + weight t) % u64_mod)

unfoldable pub total_v2_weight : (V2Transaction → ℕ) → List V2Transaction → ℕ → ℕ
total_v2_weight weight [] sum = sum
total_v2_weight weight (t ∷ ts) sum = total_v2_weight weight ts ((sum + weight t) % u64_mod)

-- The markers, which are the first transaction and, from the upgrade on, the last.
unfoldable pub is_marker : State → ℕ → List V2Transaction → Bool
unfolding is_some child_height
is_marker s i after =
    is_some s.network.qday
    && ((i == 0) || (qday_v1_active s (child_height s) && (length after == 0)))

module _ (rules : Rules) (ids : Ids) (r : Roots) where
  unfoldable pub validate_orphan : State → Block → Result BlockError (Unit {0})
  unfolding total_weight total_v2_weight v2_transactions header validate_miner_payouts
      validate_header
  validate_orphan s b = do
    fail_if
        (ltb max_block_weight (
          total_v2_weight rules.v2_weight (v2_transactions b)
            (total_weight r.weight b.transactions 0)))
        too_heavy
    wrap payout_error (validate_miner_payouts s b)
    wrap header_error (validate_header r.header_id s (header r b))
    (elim b.v2 [
      | none ↦ ok tt
      | some d ↦ fail_if (d.height != (s.index.height + 1) % u64_mod) wrong_height
    ])

  -- validateSupplement, of an empty supplement: one for each transaction of the first version is
  -- missing.
  unfoldable pub validate_supplement : Block → Result BlockError (Unit {0})
  validate_supplement b = fail_if (length b.transactions != 0) invalid_supplement

  unfoldable pub check_commitment : State → Block → Result BlockError (Unit {0})
  check_commitment s b = elim b.v2 [
    | none ↦ ok tt
    | some d ↦ elim b.miner_payouts [
      | [] ↦ panic
      | mp ∷ more ↦
          fail_if (d.commitment != r.commitment s mp.address b.transactions d.transactions)
            commitment_mismatch
    ]
  ]

  unfoldable pub validate_transactions :
      ℕ → List V2Transaction → MidState → Result BlockError MidState
  unfolding is_marker validate_v2_transaction apply_v2_transaction
  validate_transactions i [] ms = ok ms
  validate_transactions i (txn ∷ txns) ms = do
    (if is_marker ms.base i txns
        then ok tt
        else wrap transaction_error (validate_v2_transaction rules ms txn))
    ms' ← or_panic (apply_v2_transaction ids txn ms)
    validate_transactions (i + 1) txns ms'

  unfoldable pub validate_markers : State → Block → Result BlockError (Unit {0})
  unfolding validate_qday_block_markers is_some child_height
  validate_markers s b =
      if is_some s.network.qday && ltb 0 (child_height s)
      then wrap marker_error (validate_qday_block_markers rules.crypto s b)
      else ok tt

  unfoldable pub validate_block : State → Block → Result BlockError (Unit {0})
  unfolding validate_markers validate_orphan validate_supplement check_commitment
      validate_transactions new_mid_state v2_transactions
  validate_block s b = do
    validate_markers s b
    validate_orphan s b
    validate_supplement b
    check_commitment s b
    validate_transactions 0 (v2_transactions b) (new_mid_state s)
    ok tt
