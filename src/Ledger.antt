-- ===== src/Ledger.antt =====
-- core/consensus/state.go and core/consensus/application.go: MidState, the effects of the part of a
-- block applied so far. Maps are functions; an index out of range panics, here `none`. Of the
-- contracts of the first version nothing is kept.
pub mod Diffs
pub mod Apply
pub mod Transfer
use qday.Base.{
  ℕ, zero, suc, Bool, true, false, Option, none, some, List, [], ◌∷◌, ◌++◌, ◌==◌, if◌then◌else◌,
  length,
}
use qday.Base.Options.{◌>>=◌}
use qday.Currency.{Currency, zero_currency, add, div_word}
use qday.State.{State, child_height, maturity_height}
use qday.Types.{
  SiacoinOutput, SiafundOutput, StateElement, SiacoinElement, SiafundElement, V2FileContract,
  V2FileContractElement, Resolution, AttestationElement, ChainIndexElement,
}

pub record SiacoinElementDiff : Type 0 where
  pub siacoin_element : SiacoinElement
  pub created : Bool
  pub spent : Bool

pub record SiafundElementDiff : Type 0 where
  pub siafund_element : SiafundElement
  pub created : Bool
  pub spent : Bool

pub record V2FileContractElementDiff : Type 0 where
  pub v2_file_contract_element : V2FileContractElement
  pub created : Bool
  pub revision : Option V2FileContract
  pub resolution : Option Resolution

pub record MidState : Type 0 where
  pub qday_proved : Bool
  pub base : State
  pub elements : ℕ → Option ℕ
  pub spends : ℕ → Option ℕ
  pub siafund_tax_revenue : Currency
  pub foundation_subsidy : ℕ
  pub foundation_management : ℕ
  pub sces : List SiacoinElementDiff
  pub sfes : List SiafundElementDiff
  pub v2fces : List V2FileContractElementDiff
  pub aes : List AttestationElement
  pub cie : Option ChainIndexElement

-- `types.UnassignedLeafIndex`, the index of an element that is not in the accumulator yet.
abbrev pub unassigned_leaf_index : ℕ
unassigned_leaf_index = 10101010101010101010

abbrev pub unassigned : StateElement
unassigned = record { leaf_index = unassigned_leaf_index; merkle_proof = [] }

-- The zero values of the diffs.
abbrev pub no_proof : StateElement
no_proof = record { leaf_index = 0; merkle_proof = [] }

abbrev pub no_output : SiacoinOutput
no_output = record { value = zero_currency; address = 0 }

abbrev pub blank_siacoin : SiacoinElementDiff
blank_siacoin = record {
  siacoin_element = record {
    id = 0;
    state_element = no_proof;
    siacoin_output = no_output;
    maturity_height = 0;
  };
  created = false;
  spent = false;
}

abbrev pub blank_siafund : SiafundElementDiff
blank_siafund = record {
  siafund_element = record {
    id = 0;
    state_element = no_proof;
    siafund_output = record { value = 0; address = 0 };
    claim_start = zero_currency;
  };
  created = false;
  spent = false;
}

abbrev pub blank_contract : V2FileContractElementDiff
blank_contract = record {
  v2_file_contract_element = record {
    id = 0;
    state_element = no_proof;
    v2_file_contract = record {
      capacity = 0;
      filesize = 0;
      file_merkle_root = 0;
      proof_height = 0;
      expiration_height = 0;
      renter_output = no_output;
      host_output = no_output;
      missed_host_value = zero_currency;
      total_collateral = zero_currency;
      renter_public_key = 0;
      host_public_key = 0;
      revision_number = 0;
      renter_signature = 0;
      host_signature = 0;
    };
  };
  created = false;
  revision = none;
  resolution = none;
}

-- `NewMidState`
unfoldable pub new_mid_state : State → MidState
new_mid_state s = record {
  qday_proved = false;
  base = s;
  elements = λ id. none;
  spends = λ id. none;
  siafund_tax_revenue = s.siafund_tax_revenue;
  foundation_subsidy = s.foundation_subsidy_address;
  foundation_management = s.foundation_management_address;
  sces = [];
  sfes = [];
  v2fces = [];
  aes = [];
  cie = none;
}

-- A map after a write.
unfoldable pub insert : (ℕ → Option ℕ) → ℕ → ℕ → ℕ → Option ℕ
insert m key v k = if k == key then some v else m k

-- A write through the pointer to an element of a slice.
unfoldable pub modify : {A : Type 0} → List A → ℕ → (A → A) → Option (List A)
modify [] i f = none
modify (x ∷ xs) zero f = some (f x ∷ xs)
modify (x ∷ xs) (suc i) f = modify xs i f >>= λ ys. some (x ∷ ys)

-- The map, the slice and the index of the diff of an element, which is added if there is none.
unfoldable pub place : {A : Type 0} → (ℕ → Option ℕ) → List A → A → ℕ → (ℕ → Option ℕ) × List A × ℕ
unfolding insert
place elements slots blank id = elim (elements id) [
  | some i ↦ (elements, slots, i)
  | none ↦ (insert elements id (length slots), slots ++ (blank ∷ []), length slots)
]

unfoldable pub write_siacoin :
    ℕ → (SiacoinElementDiff → SiacoinElementDiff) → MidState → Option MidState
unfolding place modify
write_siacoin id f ms =
    let (elements, slots, i) = place ms.elements ms.sces blank_siacoin id in
    modify slots i f >>= λ sces. some (record ms { elements = elements; sces = sces })

unfoldable pub write_siafund :
    ℕ → (SiafundElementDiff → SiafundElementDiff) → MidState → Option MidState
unfolding place modify
write_siafund id f ms =
    let (elements, slots, i) = place ms.elements ms.sfes blank_siafund id in
    modify slots i f >>= λ sfes. some (record ms { elements = elements; sfes = sfes })

unfoldable pub write_contract :
    ℕ → (V2FileContractElementDiff → V2FileContractElementDiff) → MidState → Option MidState
unfolding place modify
write_contract id f ms =
    let (elements, slots, i) = place ms.elements ms.v2fces blank_contract id in
    modify slots i f >>= λ v2fces. some (record ms { elements = elements; v2fces = v2fces })

-- The element of a new output, with its birth height on a QDAY network.
unfoldable pub new_element : State → ℕ → SiacoinOutput → SiacoinElement
unfolding child_height
new_element s id sco = record {
  id = id;
  state_element = unassigned;
  siacoin_output = sco;
  maturity_height = elim s.network.qday [ some p ↦ child_height s | none ↦ 0 ];
}

unfoldable pub create_siacoin_element : ℕ → SiacoinOutput → MidState → Option MidState
unfolding write_siacoin new_element
create_siacoin_element id sco ms =
    write_siacoin id
      (λ d. record d { siacoin_element = new_element ms.base id sco; created = true }) ms

-- `createImmatureSiacoinElement` writes the maturity height over the birth height.
unfoldable pub create_immature_siacoin_element : ℕ → SiacoinOutput → MidState → Option MidState
unfolding write_siacoin new_element maturity_height
create_immature_siacoin_element id sco ms =
    write_siacoin id
      (λ d. record d {
        siacoin_element = record (new_element ms.base id sco) {
          maturity_height = maturity_height ms.base;
        };
        created = true;
      })
      ms

unfoldable pub spend_siacoin_element : SiacoinElement → ℕ → MidState → Option MidState
unfolding write_siacoin insert
spend_siacoin_element sce txid ms =
    write_siacoin sce.id (λ d. record d { siacoin_element = sce; spent = true }) ms >>= λ ms'.
    some (record ms' { spends = insert ms'.spends sce.id txid })

unfoldable pub create_siafund_element : ℕ → SiafundOutput → MidState → Option MidState
unfolding write_siafund
create_siafund_element id sfo ms =
    write_siafund id
      (λ d. record d {
        siafund_element = record {
          id = id;
          state_element = unassigned;
          siafund_output = sfo;
          claim_start = ms.siafund_tax_revenue;
        };
        created = true;
      })
      ms

unfoldable pub spend_siafund_element : SiafundElement → ℕ → MidState → Option MidState
unfolding write_siafund insert
spend_siafund_element sfe txid ms =
    write_siafund sfe.id (λ d. record d { siafund_element = sfe; spent = true }) ms >>= λ ms'.
    some (record ms' { spends = insert ms'.spends sfe.id txid })

-- `V2FileContractTax`, 4 %.
unfoldable pub contract_tax : V2FileContract → Option Currency
contract_tax fc = add fc.renter_output.value fc.host_output.value >>= λ sum. div_word sum 25

unfoldable pub create_contract_element : ℕ → V2FileContract → MidState → Option MidState
unfolding write_contract contract_tax
create_contract_element id fc ms =
    write_contract id
      (λ d. record d {
        v2_file_contract_element = record {
          id = id;
          state_element = unassigned;
          v2_file_contract = fc;
        };
        created = true;
      })
      ms
    >>= λ ms'. contract_tax fc >>= λ tax. add ms'.siafund_tax_revenue tax >>= λ revenue.
        some (record ms' { siafund_tax_revenue = revenue })

unfoldable pub revise_diff :
    V2FileContractElement → V2FileContract → V2FileContractElementDiff → V2FileContractElementDiff
revise_diff fce rev d =
    if d.created
    then record d {
      v2_file_contract_element = record d.v2_file_contract_element { v2_file_contract = rev };
    }
    else (elim d.revision [
      | some _ ↦ record d { revision = some rev }
      | none ↦ record d { v2_file_contract_element = fce; revision = some rev }
    ])

unfoldable pub revise_contract_element :
    V2FileContractElement → V2FileContract → MidState → Option MidState
unfolding write_contract revise_diff
revise_contract_element fce rev ms = write_contract fce.id (revise_diff fce rev) ms
