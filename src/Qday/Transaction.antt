-- ===== src/Qday/Transaction.antt =====
-- core/consensus/qday.go: VerifyQdayProof, QdayWorkIntent, validateQdayTransaction and
-- validateQdayBlockMarkers. The curve and the hashes are a record of functions.
use qday.Base.{
  ℕ, ◌+◌, Bool, true, false, ◌&&◌, ◌||◌, not, Option, none, some, List, [], ◌∷◌, ◌++◌, ltb, leb,
  ◌==◌, ◌!=◌, if◌then◌else◌, length, take, drop,
}
use qday.Base.Bytes.{Bytes}
use qday.Base.Results.{Result, ok, err, panic, ◌>>=◌, ◌>>◌, fail_if, or_panic, wrap}
use qday.Currency.{cmp, less, is_zero}
use qday.Policy.{keys_policy}
use qday.Policy.Crypto.{Crypto}
use qday.Policy.Native.{is_native_policy}
use qday.Policy.Swap.{is_swap_spend_policy}
use qday.Policy.Verify.{address}
use qday.Qday.Envelope.{Envelope, EnvelopeError, parse, coinbase, canary_proof, mining_work}
use qday.Qday.Difficulty.{work_valid}
use qday.State.{QdayParams, State, child_height, qday_v1_active, qday_active}
use qday.Types.{V2Transaction, V2SiacoinInput, Block}
use qday.Ledger.{MidState}

pub data TransactionError : Type 0 where
  bad_envelope : EnvelopeError → TransactionError
  unsupported coinbase_marker mining_marker invalid_proof low_proof_fee : TransactionError
  invalid_shape weak_policy insufficient_work missing_coinbase invalid_coinbase : TransactionError
  missing_mining invalid_mining : TransactionError

pub record Oracle : Type 0 where
  -- SetCanonicalBytes of a scalar, and the bytes of its multiple of the base point
  pub decode_scalar : ℕ → Option ℕ
  pub base_mult : ℕ → ℕ
  -- `V2Transaction.ID`
  pub transaction_id : V2Transaction → ℕ
  -- `hashAll` of the intent's label, the domain and an ID
  pub intent_hash : ℕ → ℕ → ℕ
  -- blake2b.Sum256
  pub sum256 : Bytes → ℕ

-- `clear(txn.ArbitraryData[6:14])`
unfoldable pub clear_nonce : Bytes → Bytes
clear_nonce b =
    if leb 14 (length b) then take 6 b ++ (0 ∷ 0 ∷ 0 ∷ 0 ∷ 0 ∷ 0 ∷ 0 ∷ 0 ∷ []) ++ drop 14 b else b

unfoldable pub is_unsupported : V2Transaction → Bool
is_unsupported txn =
    (length txn.siafund_inputs
        + length txn.siafund_outputs
        + length txn.file_contracts
        + length txn.file_contract_revisions
        + length txn.file_contract_resolutions
        + length txn.attestations
      != 0)
    || (elim txn.new_foundation_address [ none ↦ false | some a ↦ true ])

-- The parameters, which panic on a network without them.
unfoldable pub params_of : State → Result TransactionError QdayParams
params_of s = or_panic s.network.qday

module _ (o : Oracle) where
  unfoldable pub verify_proof : ℕ → ℕ → Bool
  verify_proof canary witness = elim (o.decode_scalar witness) [
    | none ↦ false
    | some s ↦ not (s == 0) && (o.base_mult s == canary)
  ]

  unfoldable pub work_intent : QdayParams → V2Transaction → ℕ
  unfolding clear_nonce
  work_intent p txn =
      o.intent_hash p.domain
        (o.transaction_id (record txn { arbitrary_data = clear_nonce txn.arbitrary_data }))

  unfoldable pub check_proof :
      MidState → V2Transaction → Envelope → Result TransactionError (Unit {0})
  unfolding params_of verify_proof
  check_proof ms txn e =
      if e.kind != canary_proof
      then ok tt
      else (fail_if ((ms.base.qday_height != 0) || ms.qday_proved || (e.nonce != 0)) invalid_proof
          >> params_of ms.base
          >>= λ p.
              fail_if (not (verify_proof p.canary e.witness)) invalid_proof
              >> fail_if (elim (cmp txn.miner_fee p.proof_fee) [ less ↦ true | _ ↦ false ])
                  low_proof_fee)

  unfoldable pub is_misshapen_transfer : V2Transaction → Envelope → Bool
  is_misshapen_transfer txn e =
      (length txn.siacoin_inputs == 0)
      || ltb 128 (length txn.siacoin_inputs)
      || ((length txn.siacoin_outputs == 0) && (e.kind != canary_proof))
      || ltb 128 (length txn.siacoin_outputs)
      || (length e.keys != 0)

  -- The loop over the inputs: a native policy, or a swap's from the first upgrade on.
  unfoldable pub check_policies : Bool → List V2SiacoinInput → Result TransactionError (Unit {0})
  check_policies v1 [] = ok tt
  check_policies v1 (i ∷ is) =
      let rest = check_policies v1 is in
      if is_native_policy i.satisfied_policy.policy
      then rest
      else if not v1 || not (is_swap_spend_policy i.satisfied_policy.policy)
      then err weak_policy
      else rest

  unfoldable pub check_work :
      MidState → V2Transaction → Envelope → Result TransactionError (Unit {0})
  unfolding params_of work_intent child_height
  check_work ms txn e =
      if not (qday_active ms.base (child_height ms.base))
      then ok tt
      else (params_of ms.base >>= λ p.
          fail_if (not (work_valid o.sum256 (work_intent p txn) e.nonce p.defend_bits))
            insufficient_work)

  unfoldable pub validate_qday_transaction :
      MidState → V2Transaction → Result TransactionError (Unit {0})
  unfolding is_unsupported check_proof is_misshapen_transfer check_policies check_work child_height
  validate_qday_transaction ms txn = do
    e ← wrap bad_envelope (parse txn.arbitrary_data)
    fail_if (is_unsupported txn) unsupported
    fail_if (e.kind == coinbase) coinbase_marker
    fail_if (e.kind == mining_work) mining_marker
    check_proof ms txn e
    fail_if (is_misshapen_transfer txn e) invalid_shape
    check_policies (qday_v1_active ms.base (child_height ms.base)) txn.siacoin_inputs
    check_work ms txn e

-- The envelope of a marker: its kind, and a transaction that moves nothing.
unfoldable pub is_idle : V2Transaction → Bool
unfolding is_unsupported
is_idle txn =
    (length txn.siacoin_inputs + length txn.siacoin_outputs == 0)
    && is_zero txn.miner_fee
    && not (is_unsupported txn)

unfoldable pub last_of : {A : Type 0} → A → List A → A
last_of x [] = x
last_of x (y ∷ ys) = last_of y ys

unfoldable pub check_mining_marker : V2Transaction → Result TransactionError (Unit {0})
unfolding is_idle
check_mining_marker work = elim (parse work.arbitrary_data) [
  | err x ↦ err invalid_mining
  | panic ↦ panic
  | ok we ↦
      fail_if
        (not
          ((we.kind == mining_work) && (length we.keys == 0) && (we.witness == 0) && is_idle work))
        invalid_mining
]

module _ (c : Crypto) where
  unfoldable pub check_coinbase_marker : V2Transaction → ℕ → Result TransactionError (Unit {0})
  unfolding is_idle
  check_coinbase_marker txn payout = elim (parse txn.arbitrary_data) [
    | err x ↦ err invalid_coinbase
    | panic ↦ panic
    | ok e ↦ elim e.keys [
      | [] ↦ err invalid_coinbase
      | k ∷ ks ↦
          fail_if
            (not (
              (e.kind == coinbase)
              && (length ks == 0)
              && (address c (keys_policy k) == payout)
              && is_idle txn))
            invalid_coinbase
    ]
  ]

  -- The first transaction of a block and its only payout.
  unfoldable pub first_and_payout : Block → Option (V2Transaction × List V2Transaction × ℕ)
  first_and_payout b = elim b.v2 [
    | none ↦ none
    | some d ↦ elim d.transactions [
      | [] ↦ none
      | txn ∷ rest ↦ elim b.miner_payouts [
        | [] ↦ none
        | mp ∷ more ↦
            (if (length b.transactions != 0) || (length more != 0)
              then none
              else some (txn, rest, mp.address))
      ]
    ]
  ]

  unfoldable pub validate_qday_block_markers : State → Block → Result TransactionError (Unit {0})
  unfolding check_coinbase_marker first_and_payout check_mining_marker last_of child_height
  validate_qday_block_markers s b = elim (first_and_payout b) [
    | none ↦ err missing_coinbase
    | some (txn, rest, payout) ↦
        (check_coinbase_marker txn payout
          >> (if not (qday_v1_active s (child_height s))
              then ok tt
              else if length rest == 0
              then err missing_mining
              else check_mining_marker (last_of txn rest)))
  ]
