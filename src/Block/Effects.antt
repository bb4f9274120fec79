-- ===== src/Block/Effects.antt =====
-- core/consensus/application.go: ApplyBlock; core/consensus/state.go: FoundationSubsidy.
use qday.Base.{
  ℕ, zero, suc, ◌+◌, ◌-◌, ◌/◌, ◌%◌, Bool, true, false, ◌&&◌, Option, none, some, List, [], ◌∷◌,
  ◌++◌, ltb, ◌==◌, ◌!=◌, if◌then◌else◌, length,
}
use qday.Base.Bytes.{Bytes}
use qday.Base.Int.{ℤ, pos, negsuc, quo, u64}
use qday.Base.Options
use qday.Base.Words.{u64_mod}
use qday.Accumulator.{ElementLeaf}
use qday.Accumulator.Elements.{
  ElementHashes, siacoin_leaf, siafund_leaf, v2_file_contract_leaf, attestation_leaf,
  chain_index_leaf,
}
use qday.Accumulator.Update.{apply_elements}
use qday.Currency.{hastings_per_siacoin, mul_word}
use qday.Header.{apply_header}
use qday.Ledger.{
  MidState, SiacoinElementDiff, SiafundElementDiff, V2FileContractElementDiff, new_mid_state,
  create_immature_siacoin_element, unassigned, unassigned_leaf_index,
}
use qday.Ledger.Apply.{Ids, each, apply_v2_transaction}
use qday.State.{State, child_height}
use qday.Types.{SiacoinOutput, AttestationElement, ChainIndexElement, V2Transaction, Block}
use qday.Validation.{is_some}
use qday.Block.{Roots, v2_transactions, header}

-- 365 * 24 * time.Hour
abbrev pub year : ℤ
year = pos 31536000000000000

abbrev pub minus_year : ℤ
minus_year = negsuc 31535999999999999

-- `none` is a panic, the inner option the flag `exists`.
unfoldable pub subsidy_at : State → ℕ → Option (Option SiacoinOutput)
unfolding child_height
subsidy_at s blocks_per_year =
    let per_month = blocks_per_year / 12 in
    let height = child_height s in
    let since = height - s.network.foundation_height in
    let pay : ℕ → Option (Option SiacoinOutput) = λ blocks.
      Options.◌>>=◌ (mul_word hastings_per_siacoin 30000) λ per_block.
        Options.◌>>=◌ (mul_word per_block blocks)
          λ v. some (some (record { value = v; address = s.foundation_subsidy_address })) in
    if ltb height s.network.foundation_height
    then some none
    else if per_month == 0
    then none
    else if since % per_month != 0
    then some none
    else if height == s.network.foundation_height
    then pay blocks_per_year
    else pay per_month

unfoldable pub foundation_subsidy : State → Option (Option SiacoinOutput)
unfolding subsidy_at is_some u64 quo
foundation_subsidy s =
    if is_some s.network.qday
    then some none
    else if s.foundation_subsidy_address == 0
    then some none
    else elim s.network.block_interval [
      | pos zero ↦ none
      | pos (suc n) ↦ subsidy_at s (u64 (quo year (suc n)))
      | negsuc n ↦ subsidy_at s (u64 (quo minus_year (suc n)))
    ]

-- The effects of a block, in the order of ApplyBlock on a MidState.
module _ (ids : Ids) where
  unfoldable pub apply_transactions : List V2Transaction → MidState → Option MidState
  unfolding apply_v2_transaction
  apply_transactions [] ms = some ms
  apply_transactions (txn ∷ txns) ms =
      Options.◌>>=◌ (apply_v2_transaction ids txn ms) (apply_transactions txns)

  unfoldable pub pay_subsidy : ℕ → Option SiacoinOutput → MidState → Option MidState
  pay_subsidy bid none ms = some ms
  pay_subsidy bid (some subsidy) ms =
      create_immature_siacoin_element (ids.foundation_output bid) subsidy ms

  unfoldable pub apply_block_effects : ℕ → Block → MidState → Option MidState
  unfolding apply_transactions v2_transactions foundation_subsidy pay_subsidy child_height each
  apply_block_effects bid b ms =
      Options.◌>>=◌
        (if length b.transactions == 0 then apply_transactions (v2_transactions b) ms else none)
        λ ms₁.
          Options.◌>>=◌
            (each (λ i sco. create_immature_siacoin_element (ids.miner_output bid i) sco) 0
              b.miner_payouts ms₁)
            λ ms₂. Options.◌>>=◌ (foundation_subsidy ms.base) λ subsidy.
              Options.◌>>=◌ (pay_subsidy bid subsidy ms₂) λ ms₃. some (record ms₃ {
                cie = some (record {
                  id = bid;
                  state_element = unassigned;
                  height = child_height ms.base;
                  chain_id = bid;
                });
              })

-- forEachAppliedElement
module _ (h : ElementHashes) where
  unfoldable pub applied_siacoins : List SiacoinElementDiff → List ElementLeaf
  unfolding siacoin_leaf
  applied_siacoins [] = []
  applied_siacoins (d ∷ ds) = siacoin_leaf h d.siacoin_element d.spent ∷ applied_siacoins ds

  unfoldable pub applied_siafunds : List SiafundElementDiff → List ElementLeaf
  unfolding siafund_leaf
  applied_siafunds [] = []
  applied_siafunds (d ∷ ds) = siafund_leaf h d.siafund_element d.spent ∷ applied_siafunds ds

  unfoldable pub applied_contracts : List V2FileContractElementDiff → List ElementLeaf
  unfolding v2_file_contract_leaf is_some
  applied_contracts [] = []
  applied_contracts (d ∷ ds) =
      v2_file_contract_leaf h d.v2_file_contract_element
        (elim d.revision [ none ↦ d.v2_file_contract_element.v2_file_contract | some rev ↦ rev ])
        (is_some d.resolution)
      ∷ applied_contracts ds

  unfoldable pub applied_attestations : List AttestationElement → List ElementLeaf
  unfolding attestation_leaf
  applied_attestations [] = []
  applied_attestations (a ∷ as') = attestation_leaf h a ∷ applied_attestations as'

  unfoldable pub applied_chain_index : Option ChainIndexElement → List ElementLeaf
  unfolding chain_index_leaf
  applied_chain_index none = []
  applied_chain_index (some e) = chain_index_leaf h e ∷ []

  unfoldable pub applied_elements : MidState → List ElementLeaf
  unfolding applied_siacoins applied_siafunds applied_contracts applied_attestations
      applied_chain_index
  applied_elements ms =
      applied_siacoins ms.sces
      ++ (applied_siafunds ms.sfes
          ++ (applied_contracts ms.v2fces
              ++ (applied_attestations ms.aes ++ applied_chain_index ms.cie)))

-- The elements that are new, or those that are not.
unfoldable pub select_leaves : Bool → List ElementLeaf → List ElementLeaf
select_leaves new [] = []
select_leaves new (l ∷ ls) =
    let rest = select_leaves new ls in
    if new
    then (if l.leaf_index == unassigned_leaf_index then l ∷ rest else rest)
    else (if l.leaf_index == unassigned_leaf_index then rest else l ∷ rest)

-- A proof of the canary fixes the height of the activation, once.
unfoldable pub activate : Bool → State → State
activate proved s = elim s.network.qday [
  | none ↦ s
  | some p ↦
      (if (s.qday_height == 0) && proved
        then record s { qday_height = (s.index.height + p.activation_delay) % u64_mod }
        else s)
]

module _ (sum_pair : ℕ → ℕ → ℕ) (hash_bytes : Bytes → ℕ) (h : ElementHashes) (ids : Ids)
    (adjust_target : State → ℤ → ℤ → ℕ) (r : Roots) where
  -- The state after the effects, in front of its header.
  unfoldable pub apply_effects : State → MidState → Option State
  unfolding applied_elements select_leaves apply_elements
  apply_effects s ms =
      Options.◌>>=◌
        (apply_elements sum_pair hash_bytes s.elements (select_leaves false (applied_elements h ms))
          (select_leaves true (applied_elements h ms)))
        λ (elements, added). some (record s {
          siafund_tax_revenue = ms.siafund_tax_revenue;
          attestations = (s.attestations + length ms.aes) % u64_mod;
          foundation_subsidy_address = ms.foundation_subsidy;
          foundation_management_address = ms.foundation_management;
          elements = elements;
        })

  -- `none` is a panic, on a block that is not a child among others.
  unfoldable pub apply_block : State → Block → ℤ → Option State
  unfolding new_mid_state apply_block_effects apply_effects header activate apply_header
  apply_block s b target_timestamp =
      if ltb 0 s.index.height && (s.index.id != b.parent_id)
      then none
      else (Options.◌>>=◌ (apply_block_effects ids (r.header_id (header r b)) b (new_mid_state s))
          λ ms. Options.◌>>=◌ (apply_effects s ms) λ s₁.
            Options.◌>>=◌ (apply_header adjust_target r.header_id s₁ (header r b) target_timestamp)
              λ s₂. some (activate ms.qday_proved s₂))
