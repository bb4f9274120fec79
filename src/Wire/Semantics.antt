-- ===== src/Wire/Semantics.antt =====
-- core/types/encoding.go: the encoding of a transaction that its ID and the hash to sign are made of.
use qday.Base.{
  ℕ, suc, zero, ◌^◌, ◌<◌, ◌≡◌, refl, sym, ap, ◌∙◌, false, List, [], ◌∷◌, length, length-zero, All,
  arith,
}
use qday.Base.Bytes.{Bytes}
use qday.Base.Options.{some-inj}
use qday.Currency.{Currency}
use qday.Qday.Transaction.{is_unsupported}
use qday.Ledger.Transfer.{plain_parts}
use qday.Types.{
  SiacoinOutput, V2FileContract, Resolution, renewal, storage_proof, expiration, V2SiacoinInput,
  V2SiafundInput, V2FileContractRevision, V2FileContractResolution, V2Transaction,
}
use qday.Wire.{
  Writer, Reader, write_uint64, write_bool, write_bytes, write_items, write_slice, write_ptr,
}
use qday.Wire.Codec.{IsCodec, uint64-IsCodec, bool-IsCodec, bytes-IsCodec, slice-IsCodec}
use qday.Wire.Elements.{
  InCurrency, currency-IsCodec, write_hash, write_currency, write_siacoin_output,
  write_siafund_output,
}
use qday.Wire.Values.{InHashes, hashes-IsCodec, InSiacoinOutput, siacoin_output-IsCodec}
use qday.Wire.Contracts.{
  write_v2_file_contract, write_renewal, write_storage_proof, write_attestation,
}

-- `nilSigs`, of a contract.
unfoldable pub nil_signatures : V2FileContract → V2FileContract
nil_signatures fc = record fc { renter_signature = 0; host_signature = 0 }

unfoldable pub normalize : Resolution → Resolution
unfolding nil_signatures
normalize (renewal r) = renewal (record r {
  new_contract = nil_signatures r.new_contract;
  renter_signature = 0;
  host_signature = 0;
})
normalize (storage_proof p) = storage_proof (record p {
  proof_index = record p.proof_index {
    state_element = record p.proof_index.state_element { merkle_proof = [] };
  };
})
normalize expiration = expiration

-- EncodeTo of the kind of resolution, without the number of the kind.
unfoldable pub write_kind : Writer Resolution
unfolding write_renewal write_storage_proof
write_kind (renewal r) rest = write_renewal r rest
write_kind (storage_proof p) rest = write_storage_proof p rest
write_kind expiration rest = rest

abbrev pub write_input_id : Writer V2SiacoinInput
write_input_id i rest = write_hash i.parent.id rest

abbrev pub write_fund_id : Writer V2SiafundInput
write_fund_id i rest = write_hash i.parent.id rest

unfoldable pub write_semantic_contract : Writer V2FileContract
unfolding write_v2_file_contract nil_signatures
write_semantic_contract fc rest = write_v2_file_contract (nil_signatures fc) rest

unfoldable pub write_semantic_revision : Writer V2FileContractRevision
unfolding write_semantic_contract
write_semantic_revision r rest = write_hash r.parent.id (write_semantic_contract r.revision rest)

unfoldable pub write_semantic_resolution : Writer V2FileContractResolution
unfolding write_kind normalize
write_semantic_resolution r rest = write_hash r.parent.id (write_kind (normalize r.resolution) rest)

unfoldable pub write_semantics : Writer V2Transaction
unfolding write_slice write_siacoin_output write_siafund_output write_semantic_contract
    write_semantic_revision write_semantic_resolution write_attestation write_bytes write_ptr
    write_currency
write_semantics t rest = write_slice write_input_id t.siacoin_inputs (
    write_slice write_siacoin_output t.siacoin_outputs (
      write_slice write_fund_id t.siafund_inputs (
        write_slice write_siafund_output t.siafund_outputs (
          write_slice write_semantic_contract t.file_contracts (
            write_slice write_semantic_revision t.file_contract_revisions (
              write_slice write_semantic_resolution t.file_contract_resolutions (
                write_slice write_attestation t.attestations (
                  write_bytes t.arbitrary_data (
                    write_ptr write_hash t.new_foundation_address
                      (write_currency t.miner_fee rest))))))))))

-- Equal encodings in front of anything are of equal values.
peel :
    {A : Type 0} {write : Writer A} {read_item : Reader A} {P : A → Type 0}
    (c : IsCodec write read_item P) (x y : A) (r s : Bytes)
    → P x
    → P y
    → write x r ≡ write y s
    → (x ≡ y) × (r ≡ s)
peel {A} {write} {read_item} c x y r s hx hy e =
    let same = some-inj (sym (c.reads x hx r) ∙ ap read_item e ∙ c.reads y hy s) in
    (ap (λ p. p.0) same, ap (λ p. p.1) same)

abbrev pub input_ids : List V2SiacoinInput → List ℕ
input_ids [] = []
input_ids (i ∷ is) = i.parent.id ∷ input_ids is

length-input_ids : (is : List V2SiacoinInput) → length is ≡ length (input_ids is)
length-input_ids [] = refl
length-input_ids (i ∷ is) = ap suc (length-input_ids is)

write_items-input_ids :
    (is : List V2SiacoinInput) (rest : Bytes)
    → write_items write_input_id is rest ≡ write_items write_hash (input_ids is) rest
unfolding write_items
write_items-input_ids [] rest = refl
write_items-input_ids (i ∷ is) rest = ap (write_hash i.parent.id) (write_items-input_ids is rest)

write_slice-input_ids :
    (is : List V2SiacoinInput) (rest : Bytes)
    → write_slice write_input_id is rest ≡ write_slice write_hash (input_ids is) rest
unfolding write_slice
write_slice-input_ids is rest =
    ap (λ n. write_uint64 n (write_items write_input_id is rest)) (length-input_ids is)
    ∙ ap (write_uint64 (length (input_ids is))) (write_items-input_ids is rest)

write_slice-empty :
    {A : Type 0} (write : Writer A) (xs : List A)
    → length xs ≡ 0
    → (rest : Bytes) → write_slice write xs rest ≡ write_uint64 0 rest
unfolding write_slice write_items
write_slice-empty write xs e rest = cc (length-zero xs e)

-- The encoding of a transaction that only moves coins.
abbrev write_zeros : ℕ → Bytes → Bytes
write_zeros zero rest = rest
write_zeros (suc k) rest = write_uint64 0 (write_zeros k rest)

abbrev write_transfer : List ℕ → List SiacoinOutput → Bytes → Currency → Bytes
write_transfer ids outputs payload fee = write_slice write_hash ids (
    write_slice write_siacoin_output outputs
      (write_zeros 6 (write_bytes payload (write_bool false (write_currency fee [])))))

write_semantics-transfer :
    (t : V2Transaction)
    → is_unsupported t ≡ false
    → write_semantics t []
      ≡ write_transfer (input_ids t.siacoin_inputs) t.siacoin_outputs t.arbitrary_data t.miner_fee
unfolding write_semantics write_ptr
write_semantics-transfer t plain =
    let (p₁, p₂, p₃, p₄, p₅, p₆, p₇) = plain_parts t plain in
    rw
      (
        p₇,
        write_slice-input_ids t.siacoin_inputs,
        write_slice-empty write_fund_id t.siafund_inputs p₁,
        write_slice-empty write_siafund_output t.siafund_outputs p₂,
        write_slice-empty write_semantic_contract t.file_contracts p₃,
        write_slice-empty write_semantic_revision t.file_contract_revisions p₄,
        write_slice-empty write_semantic_resolution t.file_contract_resolutions p₅,
        write_slice-empty write_attestation t.attestations p₆,
      )
      refl

-- The fields that a hash to sign covers, in range.
pub record InTransfer (t : V2Transaction) : Type 0 where
  pub ids : InHashes (input_ids t.siacoin_inputs)
  pub outputs : (length t.siacoin_outputs < 2 ^ 64) × All InSiacoinOutput t.siacoin_outputs
  pub payload : length t.arbitrary_data < 2 ^ 64
  pub fee : InCurrency t.miner_fee

peel_zeros : (k : ℕ) (r s : Bytes) → write_zeros k r ≡ write_zeros k s → r ≡ s
peel_zeros zero r s e = e
peel_zeros (suc k) r s e =
    peel_zeros k r s
      (peel uint64-IsCodec 0 0 (write_zeros k r) (write_zeros k s) (omega arith) (omega arith) e).1

-- Two transactions that only move coins, with fields in range, have the same encoding for their ID
-- and their hash to sign only if they spend the same outputs in the same order and have the same
-- outputs, data and fee.
pub write_semantics-inj :
    (t u : V2Transaction)
    → is_unsupported t ≡ false
    → is_unsupported u ≡ false
    → InTransfer t
    → InTransfer u
    → write_semantics t [] ≡ write_semantics u []
    → (input_ids t.siacoin_inputs ≡ input_ids u.siacoin_inputs)
      × (t.siacoin_outputs ≡ u.siacoin_outputs)
      × (t.arbitrary_data ≡ u.arbitrary_data)
      × (t.miner_fee ≡ u.miner_fee)
write_semantics-inj t u pt pu ht hu e =
    let fee : V2Transaction → Bytes = λ t. write_bool false (write_currency t.miner_fee []) in
    let payload : V2Transaction → Bytes =
      λ t. write_zeros 6 (write_bytes t.arbitrary_data (fee t)) in
    let outputs : V2Transaction → Bytes =
      λ t. write_slice write_siacoin_output t.siacoin_outputs (payload t) in
    let (ids, e₁) =
      peel hashes-IsCodec (input_ids t.siacoin_inputs) (input_ids u.siacoin_inputs) (outputs t)
        (outputs u) ht.ids hu.ids
        (sym (write_semantics-transfer t pt) ∙ e ∙ write_semantics-transfer u pu) in
    let (outs, e₂) =
      peel (slice-IsCodec siacoin_output-IsCodec) t.siacoin_outputs u.siacoin_outputs (payload t)
        (payload u) ht.outputs hu.outputs e₁ in
    let e₃ =
      peel_zeros 6 (write_bytes t.arbitrary_data (fee t)) (write_bytes u.arbitrary_data (fee u))
        e₂ in
    let (bytes, e₄) =
      peel bytes-IsCodec t.arbitrary_data u.arbitrary_data (fee t) (fee u) ht.payload hu.payload
        e₃ in
    let (_, e₅) =
      peel bool-IsCodec false false (write_currency t.miner_fee []) (write_currency u.miner_fee [])
        tt tt e₄ in
    (ids, outs, bytes, (peel currency-IsCodec t.miner_fee u.miner_fee [] [] ht.fee hu.fee e₅).0)
