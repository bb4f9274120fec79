-- ===== src/Ledger/Apply.antt =====
-- core/consensus/application.go: ApplyV2Transaction and ApplyBlock on a MidState, for blocks that
-- hold no transaction of the first version and whose supplement is empty, as it must be from the
-- required height of the v2 hardfork on. The IDs that are hashes come from a record.
use qday.Base.{
  ℕ, ◌+◌, Bool, false, ◌||◌, Option, none, some, List, [], ◌∷◌, ◌++◌, ◌==◌, if◌then◌else◌, length,
  get_elem?,
}
use qday.Base.Options.{◌>>=◌}
use qday.Base.Results.{ok, err, panic}
use qday.Currency.{sub, div_word, mul_word}
use qday.State.{State}
use qday.Types.{
  SiacoinOutput, V2FileContract, V2FileContractElement, V2FileContractResolution, Resolution,
  renewal, storage_proof, expiration, Attestation, V2Transaction, V2SiafundInput,
}
use qday.Qday.Envelope.{parse, canary_proof}
use qday.Ledger.{
  MidState, insert, modify, place, blank_contract, unassigned, create_siacoin_element,
  create_immature_siacoin_element, spend_siacoin_element, create_siafund_element,
  spend_siafund_element, create_contract_element, revise_contract_element,
}

pub record Ids : Type 0 where
  pub transaction : V2Transaction → ℕ
  pub siacoin_output : ℕ → ℕ → ℕ
  pub siafund_output : ℕ → ℕ → ℕ
  pub v2_file_contract : ℕ → ℕ → ℕ
  pub attestation : ℕ → ℕ → ℕ
  pub v2_claim_output : ℕ → ℕ
  pub v2_renewal : ℕ → ℕ
  pub v2_renter_output : ℕ → ℕ
  pub v2_host_output : ℕ → ℕ
  pub miner_output : ℕ → ℕ → ℕ
  pub foundation_output : ℕ → ℕ

-- A loop over a slice, with the index of each element.
unfoldable pub each :
    {A : Type 0} → (ℕ → A → MidState → Option MidState) → ℕ → List A → MidState → Option MidState
each f i [] ms = some ms
each f i (x ∷ xs) ms = f i x ms >>= each f (i + 1) xs

-- A newly created contract is never resolved: that panics.
unfoldable pub resolve_contract_element :
    V2FileContractElement → Resolution → ℕ → MidState → Option MidState
unfolding place modify insert
resolve_contract_element fce res txid ms =
    let (elements, slots, i) = place ms.elements ms.v2fces blank_contract fce.id in
    get_elem? slots i >>= λ d.
    if d.created
    then none
    else (modify slots i (λ d. record d { v2_file_contract_element = fce; resolution = some res })
        >>= λ v2fces. some (record ms {
          elements = elements;
          v2fces = v2fces;
          spends = insert ms.spends fce.id txid;
        }))

unfoldable pub create_attestation_element : ℕ → Attestation → MidState → Option MidState
unfolding insert
create_attestation_element id a ms = some (record ms {
  aes = ms.aes ++ (record { id = id; state_element = unassigned; attestation = a } ∷ []);
  elements = insert ms.elements id (length ms.aes);
})

-- `MissedHostOutput`
unfoldable pub missed_host_output : V2FileContract → SiacoinOutput
missed_host_output fc = record { value = fc.missed_host_value; address = fc.host_output.address }

-- A transaction of a QDAY network with a proof of the canary.
unfoldable pub is_proof : State → V2Transaction → Bool
is_proof s txn = elim s.network.qday [
  | none ↦ false
  | some p ↦ elim (parse txn.arbitrary_data) [
    | ok e ↦ e.kind == canary_proof
    | err x ↦ false
    | panic ↦ false
  ]
]

-- `ms.qdayProved = true` for such a transaction.
unfoldable pub note_proof : V2Transaction → MidState → MidState
unfolding is_proof
note_proof txn ms = record ms { qday_proved = is_proof ms.base txn || ms.qday_proved }

-- The management address stays if the subsidy is waived.
unfoldable pub update_foundation : Option ℕ → MidState → MidState
update_foundation none ms = ms
update_foundation (some a) ms =
    if a == 0
    then record ms { foundation_subsidy = a }
    else record ms { foundation_subsidy = a; foundation_management = a }

module _ (ids : Ids) where
  unfoldable pub claim_siafunds : ℕ → V2SiafundInput → MidState → Option MidState
  claim_siafunds txid sfi ms = spend_siafund_element sfi.parent txid ms >>= λ ms'.
      sub ms'.siafund_tax_revenue sfi.parent.claim_start >>= λ grown.
      div_word grown 10000 >>= λ part. mul_word part sfi.parent.siafund_output.value >>= λ claim.
      create_immature_siacoin_element (ids.v2_claim_output sfi.parent.id)
        (record { value = claim; address = sfi.claim_address }) ms'

  unfoldable pub pay_out : ℕ → SiacoinOutput → SiacoinOutput → MidState → Option MidState
  pay_out id renter host ms =
      create_immature_siacoin_element (ids.v2_renter_output id) renter ms
      >>= create_immature_siacoin_element (ids.v2_host_output id) host

  unfoldable pub settle_contract : ℕ → V2FileContractResolution → MidState → Option MidState
  unfolding resolve_contract_element pay_out missed_host_output
  settle_contract txid fcr ms =
      let fc = fcr.parent.v2_file_contract in
      let id = fcr.parent.id in
      resolve_contract_element fcr.parent fcr.resolution txid ms >>= λ ms'. (elim fcr.resolution [
        | renewal r ↦
            (create_contract_element (ids.v2_renewal id) r.new_contract ms'
              >>= pay_out id r.final_renter_output r.final_host_output)
        | storage_proof r ↦ pay_out id fc.renter_output fc.host_output ms'
        | expiration ↦ pay_out id fc.renter_output (missed_host_output fc) ms'
      ])

  unfoldable pub apply_v2_transaction : V2Transaction → MidState → Option MidState
  unfolding each create_attestation_element note_proof update_foundation claim_siafunds
      settle_contract
  apply_v2_transaction txn ms =
      let txid = ids.transaction txn in
      each (λ i sci. spend_siacoin_element sci.parent txid) 0 txn.siacoin_inputs (note_proof txn ms)
      >>= each (λ i sco. create_siacoin_element (ids.siacoin_output txid i) sco) 0
          txn.siacoin_outputs
      >>= each (λ i sfi. claim_siafunds txid sfi) 0 txn.siafund_inputs
      >>= each (λ i sfo. create_siafund_element (ids.siafund_output txid i) sfo) 0
          txn.siafund_outputs
      >>= each (λ i fc. create_contract_element (ids.v2_file_contract txid i) fc) 0
          txn.file_contracts
      >>= each (λ i fcr. revise_contract_element fcr.parent fcr.revision) 0
          txn.file_contract_revisions
      >>= each (λ i fcr. settle_contract txid fcr) 0 txn.file_contract_resolutions
      >>= each (λ i a. create_attestation_element (ids.attestation txid i) a) 0 txn.attestations
      >>= λ ms'. some (update_foundation txn.new_foundation_address ms')
