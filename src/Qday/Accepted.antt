-- ===== src/Qday/Accepted.antt =====
-- core/consensus/qday.go: what a transaction that QDAY accepts is.
use qday.Base.{
  ◌≤◌, ◌≡◌, refl, ◌≢◌, ◌↔◌, ◌⊎◌, inl, inr, Bool, true, false, some, List, [], ◌∷◌, ◌==◌, length,
  arith, All, Bool-cases,
}
use qday.Base.Results.{ok, Result-cases}
use qday.Currency.{cmp, less}
use qday.Policy.Native.{is_native_policy}
use qday.Policy.Swap.{is_swap_spend_policy}
use qday.Qday.Envelope.{Envelope, parse, coinbase, canary_proof, mining_work}
use qday.Qday.Difficulty.{work_valid}
use qday.State.{QdayParams, child_height, qday_v1_active, qday_active}
use qday.Types.{V2Transaction, V2SiacoinInput}
use qday.Ledger.{MidState}
use qday.Qday.Transaction.{
  Oracle, is_unsupported, params_of, verify_proof, work_intent, check_proof, is_misshapen_transfer,
  check_policies, check_work, validate_qday_transaction,
}

-- The policy of an input that may spend coins.
abbrev pub MaySpend : Bool → V2SiacoinInput → Type 0
MaySpend v1 i =
    (is_native_policy i.satisfied_policy.policy ≡ true)
    ⊎ ((v1 ≡ true) × (is_swap_spend_policy i.satisfied_policy.policy ≡ true))

pub check_policies_iff :
    (o : Oracle) (v1 : Bool) (is : List V2SiacoinInput)
    → (check_policies o v1 is ≡ ok tt) ↔ All (MaySpend v1) is
unfolding check_policies
check_policies_iff o v1 [] = (λ e. tt, λ a. refl)
check_policies_iff o v1 (i ∷ is) =
    let (to, of) = check_policies_iff o v1 is in
    elim (Bool-cases (is_native_policy i.satisfied_policy.policy)) [
      | inl native ↦ (λ e. (inl native, to (ground arith)), λ (m, a). ground (arith, of a))
      | inr other ↦ (
        λ e. (inr (ground arith, ground arith), to (ground arith)),
        λ (m, a). ground (arith, of a, m),
      )
    ]

module _ (o : Oracle) (ms : MidState) (p : QdayParams) (here : ms.base.network.qday ≡ some p)
    (txn : V2Transaction) where
  -- A proof of the canary: the first of its chain and block, without work, for the fee at least.
  pub record IsProof (e : Envelope) : Type 0 where
    pub kind : e.kind ≡ canary_proof
    pub unproved_chain : ms.base.qday_height ≡ 0
    pub unproved_block : ms.qday_proved ≡ false
    pub nonce : e.nonce ≡ 0
    pub solves : verify_proof o p.canary e.witness ≡ true
    pub fee : cmp txn.miner_fee p.proof_fee ≢ less

  -- A transfer: 1 to 128 inputs under strong policies and at most 128 outputs, with work from the
  -- activation on.
  pub record IsTransfer : Type 0 where
    pub envelope : Envelope
    pub parsed : parse txn.arbitrary_data ≡ ok envelope
    pub plain : is_unsupported txn ≡ false
    pub not_coinbase : envelope.kind ≢ coinbase
    pub not_mining : envelope.kind ≢ mining_work
    pub proof : (envelope.kind ≢ canary_proof) ⊎ IsProof envelope
    pub inputs : (1 ≤ length txn.siacoin_inputs) × (length txn.siacoin_inputs ≤ 128)
    pub outputs : (1 ≤ length txn.siacoin_outputs) ⊎ (envelope.kind ≡ canary_proof)
    pub few_outputs : length txn.siacoin_outputs ≤ 128
    pub no_keys : length envelope.keys ≡ 0
    pub policies : All (MaySpend (qday_v1_active ms.base (child_height ms.base))) txn.siacoin_inputs
    pub work :
        (qday_active ms.base (child_height ms.base) ≡ false)
        ⊎ (work_valid o.sum256 (work_intent o p txn) envelope.nonce p.defend_bits ≡ true)

  check_proof_iff :
      (e : Envelope) → (check_proof o ms txn e ≡ ok tt) ↔ ((e.kind ≢ canary_proof) ⊎ IsProof e)
  unfolding check_proof params_of
  check_proof_iff e = (to, of)
    where
      to : check_proof o ms txn e ≡ ok tt → (e.kind ≢ canary_proof) ⊎ IsProof e
      to h = elim (Bool-cases (e.kind == 3)) [
        | inr other ↦ inl (ground arith)
        | inl kind ↦ inr (record {
          kind = ground arith;
          unproved_chain = ground (arith, here);
          unproved_block = ground (arith, here);
          nonce = ground (arith, here);
          solves = ground (arith, here);
          fee = ground (arith, here);
        })
      ]

      of : (e.kind ≢ canary_proof) ⊎ IsProof e → check_proof o ms txn e ≡ ok tt
      of (inl other) = ground arith
      of (inr i) =
          ground (arith, here, i.kind, i.unproved_chain, i.unproved_block, i.nonce, i.solves, i.fee)

  check_work_iff :
      (e : Envelope)
      → (check_work o ms txn e ≡ ok tt) ↔ (
          (qday_active ms.base (child_height ms.base) ≡ false)
          ⊎ (work_valid o.sum256 (work_intent o p txn) e.nonce p.defend_bits ≡ true))
  unfolding check_work params_of
  check_work_iff e = ground (arith, here)

  shape_iff :
      (e : Envelope)
      → (is_misshapen_transfer o txn e ≡ false) ↔ (
          (1 ≤ length txn.siacoin_inputs)
          × (length txn.siacoin_inputs ≤ 128)
          × ((1 ≤ length txn.siacoin_outputs) ⊎ (e.kind ≡ canary_proof))
          × (length txn.siacoin_outputs ≤ 128)
          × (length e.keys ≡ 0))
  unfolding is_misshapen_transfer
  shape_iff e = ground arith

  -- The transactions that pass are exactly those.
  pub validate_qday_transaction_iff : (validate_qday_transaction o ms txn ≡ ok tt) ↔ IsTransfer
  unfolding validate_qday_transaction
  validate_qday_transaction_iff = (to, of)
    where
      to : validate_qday_transaction o ms txn ≡ ok tt → IsTransfer
      to h = elim (Result-cases (parse txn.arbitrary_data)) [
        | inr (inl (x, b)) ↦ ground arith
        | inr (inr b) ↦ ground arith
        | inl (e, parsed) ↦ record {
          envelope = e;
          parsed = parsed;
          plain = ground arith;
          not_coinbase = ground arith;
          not_mining = ground arith;
          proof = (check_proof_iff e).0 (ground arith);
          inputs = (ground (arith, shape_iff e), ground (arith, shape_iff e));
          outputs = ground (arith, shape_iff e);
          few_outputs = ground (arith, shape_iff e);
          no_keys = ground (arith, shape_iff e);
          policies = (check_policies_iff o _ txn.siacoin_inputs).0 (ground arith);
          work = (check_work_iff e).0 (ground arith);
        }
      ]

      of : IsTransfer → validate_qday_transaction o ms txn ≡ ok tt
      of t =
          let e = t.envelope in
          let shape =
            (shape_iff e).1 (t.inputs.0, t.inputs.1, t.outputs, t.few_outputs, t.no_keys) in
          let proof = (check_proof_iff e).1 t.proof in
          let work = (check_work_iff e).1 t.work in
          let policies =
            (check_policies_iff o (qday_v1_active ms.base (child_height ms.base))
                txn.siacoin_inputs).1
              t.policies in
          ground
            (arith, t.parsed, t.plain, t.not_coinbase, t.not_mining, shape, proof, work, policies)
