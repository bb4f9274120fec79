-- ===== src/Wire/TransactionTrip.antt =====
-- core/types/encoding.go: a transaction is read back from what is written.
use qday.Base.{
  ℕ, zero, suc, ◌*◌, ◌/◌, ◌%◌, ◌^◌, ◌<◌, ◌≡◌, refl, sym, ap, ◌∙◌, Bool, true, false, not, Option,
  none, some, List, [], ◌∷◌, ◌==◌, ◌!=◌, length, length-zero, get_or, All, arith, Bool-cases, inl,
  inr,
}
use native.Mathlib.Nat.{pow-suc, zero-div, div-div-eq-div-mul}
use qday.Base.Bytes.{Bytes}
use qday.Base.Words.{test_bit}
use qday.Currency.{equals, Currency, is_zero, zero_currency}
use qday.Types.{V2Transaction}
use qday.Validation.{is_some}
use qday.Wire.{
  Writer, Reader, write_uint8, read_uint8, write_bytes, read_bytes, write_slice, read_slice,
}
use qday.Wire.Codec.{IsCodec, uint64-IsCodec, bytes-IsCodec, slice-IsCodec}
use qday.Wire.Elements.{
  IsHash, InCurrency, hash-IsCodec, currency-IsCodec, write_currency, read_currency,
  write_siacoin_output, write_siafund_output,
}
use qday.Wire.Values.{
  InSiacoinOutput, siacoin_output-IsCodec, InSiafundOutput, siafund_output-IsCodec,
}
use qday.Wire.Contracts.{
  write_siafund_input, write_v2_file_contract, write_revision, write_contract_resolution,
  write_attestation,
}
use qday.Wire.ContractTrip.{
  IsShort, InV2FileContract, v2_file_contract-IsCodec, InRevision, revision-IsCodec,
  InContractResolution, contract_resolution-IsCodec,
}
use qday.Wire.InputTrip.{
  InSiacoinInput, siacoin_input-IsCodec, InSiafundInput, siafund_input-IsCodec, InAttestation,
  attestation-IsCodec,
}
use qday.Wire.Transactions.{
  field_flags, flags_word, write_field, read_field, write_address, read_address, write_fields,
  read_fields, write_v2_transaction, read_v2_transaction,
}

test_bit-flags_word : (bs : List Bool) (i : ℕ) → test_bit (flags_word bs) i ≡ get_or bs i false
unfolding flags_word
test_bit-flags_word [] i = ap (λ k. k % 2 == 1) (zero-div (2 ^ i))
test_bit-flags_word (b ∷ bs) zero = elim (Bool-cases b) [
  | inl e ↦ ground (arith, e)
  | inr e ↦ ground (arith, e)
]
test_bit-flags_word (b ∷ bs) (suc i) =
    let w = flags_word (b ∷ bs) in
    let double : 2 ^ suc i ≡ 2 * 2 ^ i = omega (arith, pow-suc 2 i) in
    let half : w / 2 ≡ flags_word bs = elim (Bool-cases b) [
      | inl e ↦ ground (arith, e)
      | inr e ↦ ground (arith, e)
    ] in
    let shift : w / 2 ^ suc i ≡ flags_word bs / 2 ^ i =
      ap (λ m. w / m) double ∙ sym (div-div-eq-div-mul w 2 (2 ^ i)) ∙ ap (λ m. m / 2 ^ i) half in
    ap (λ k. k % 2 == 1) shift ∙ test_bit-flags_word bs i

flags_word-lt : (bs : List Bool) → flags_word bs < 2 ^ length bs
unfolding flags_word
flags_word-lt [] = omega arith
flags_word-lt (b ∷ bs) = elim (Bool-cases b) [
  | inl e ↦ ground (arith, e, flags_word-lt bs, pow-suc 2 (length bs))
  | inr e ↦ ground (arith, e, flags_word-lt bs, pow-suc 2 (length bs))
]

-- A field that is left out is the default one.
field-reads :
    {A : Type 0} (write : Writer A) (read_item : Reader A) (b : Bool) (default x : A) (rest : Bytes)
    → (b ≡ false → x ≡ default)
    → ((rest : Bytes) → b ≡ true → read_item (write x rest) ≡ some (x, rest))
    → read_field b default read_item (write_field b write x rest) ≡ some (x, rest)
unfolding read_field write_field
field-reads write read_item true default x rest d r = r rest refl
field-reads write read_item false default x rest d r = ap (λ y. some (y, rest)) (sym (d refl))

abbrev InSlice : {A : Type 0} → (A → Type 0) → List A → Type 0
InSlice P xs = (length xs < 2 ^ 64) × All P xs

-- What the fields of a transaction hold in the code.
pub record InV2Transaction (t : V2Transaction) : Type 0 where
  pub siacoin_inputs : InSlice InSiacoinInput t.siacoin_inputs
  pub siacoin_outputs : InSlice InSiacoinOutput t.siacoin_outputs
  pub siafund_inputs : InSlice InSiafundInput t.siafund_inputs
  pub siafund_outputs : InSlice InSiafundOutput t.siafund_outputs
  pub file_contracts : InSlice InV2FileContract t.file_contracts
  pub file_contract_revisions : InSlice InRevision t.file_contract_revisions
  pub file_contract_resolutions : InSlice InContractResolution t.file_contract_resolutions
  pub attestations : InSlice InAttestation t.attestations
  pub arbitrary_data : IsShort t.arbitrary_data
  pub new_foundation_address : (a : ℕ) → t.new_foundation_address ≡ some a → IsHash a
  pub miner_fee : InCurrency t.miner_fee

-- The flag of a slice.
slice-default : {A : Type 0} (xs : List A) → (length xs != 0) ≡ false → xs ≡ []
slice-default xs e = length-zero xs (ground (arith, e))

address-default : (m : Option ℕ) → is_some m ≡ false → m ≡ none
unfolding is_some
address-default none e = refl
address-default (some a) e = cc e

address-reads :
    (m : Option ℕ)
    → ((a : ℕ) → m ≡ some a → IsHash a)
    → is_some m ≡ true
    → (rest : Bytes) → read_address (write_address m rest) ≡ some (m, rest)
unfolding is_some read_address write_address
address-reads none h e rest = cc e
address-reads (some a) h e rest = rw (hash-IsCodec.reads a (h a refl) rest) refl

fee-default : (c : Currency) → not (is_zero c) ≡ false → c ≡ zero_currency
unfolding is_zero equals
fee-default c e =
    let lo : c.lo ≡ 0 = ground (arith, e) in let hi : c.hi ≡ 0 = ground (arith, e) in cc (lo, hi)

slice-field :
    {A : Type 0} {write : Writer A} {read_item : Reader A} {P : A → Type 0}
    (c : IsCodec write read_item P) (b : Bool) (xs : List A) (rest : Bytes)
    → b ≡ (length xs != 0)
    → InSlice P xs
    → read_field b [] (read_slice read_item) (write_field b (write_slice write) xs rest)
      ≡ some (xs, rest)
slice-field {A} {write} {read_item} c b xs rest flag h =
    field-reads (write_slice write) (read_slice read_item) b [] xs rest
      (λ e. slice-default xs (sym flag ∙ e)) (λ left any. (slice-IsCodec c).reads xs h left)

-- The flags are those of the fields.
abbrev IsFlagged : ℕ → V2Transaction → Type 0
IsFlagged f t = (i : ℕ) → test_bit f i ≡ get_or (field_flags t) i false

fields-read :
    (f : ℕ) (t : V2Transaction) (rest : Bytes)
    → IsFlagged f t
    → InV2Transaction t
    → read_fields f (write_fields f t rest) ≡ some (t, rest)
unfolding read_fields write_fields field_flags
fields-read f t rest flags h =
    let r₁₀ = write_field (test_bit f 10) write_currency t.miner_fee rest in
    let r₉ = write_field (test_bit f 9) write_address t.new_foundation_address r₁₀ in
    let r₈ = write_field (test_bit f 8) write_bytes t.arbitrary_data r₉ in
    let r₇ = write_field (test_bit f 7) (write_slice write_attestation) t.attestations r₈ in
    let r₆ =
      write_field (test_bit f 6) (write_slice write_contract_resolution) t.file_contract_resolutions
        r₇ in
    let r₅ = write_field (test_bit f 5) (write_slice write_revision) t.file_contract_revisions r₆ in
    let r₄ = write_field (test_bit f 4) (write_slice write_v2_file_contract) t.file_contracts r₅ in
    let r₃ = write_field (test_bit f 3) (write_slice write_siafund_output) t.siafund_outputs r₄ in
    let r₂ = write_field (test_bit f 2) (write_slice write_siafund_input) t.siafund_inputs r₃ in
    let r₁ = write_field (test_bit f 1) (write_slice write_siacoin_output) t.siacoin_outputs r₂ in
    rw
      (
        slice-field siacoin_input-IsCodec (test_bit f 0) t.siacoin_inputs r₁ (flags 0)
            h.siacoin_inputs,
        slice-field siacoin_output-IsCodec (test_bit f 1) t.siacoin_outputs r₂ (flags 1)
            h.siacoin_outputs,
        slice-field siafund_input-IsCodec (test_bit f 2) t.siafund_inputs r₃ (flags 2)
            h.siafund_inputs,
        slice-field siafund_output-IsCodec (test_bit f 3) t.siafund_outputs r₄ (flags 3)
            h.siafund_outputs,
        slice-field v2_file_contract-IsCodec (test_bit f 4) t.file_contracts r₅ (flags 4)
            h.file_contracts,
        slice-field revision-IsCodec (test_bit f 5) t.file_contract_revisions r₆ (flags 5)
            h.file_contract_revisions,
        slice-field contract_resolution-IsCodec (test_bit f 6) t.file_contract_resolutions r₇
            (flags 6) h.file_contract_resolutions,
        slice-field attestation-IsCodec (test_bit f 7) t.attestations r₈ (flags 7) h.attestations,
        field-reads write_bytes read_bytes (test_bit f 8) [] t.arbitrary_data r₉
            (λ e. slice-default t.arbitrary_data (sym (flags 8) ∙ e))
            (λ left any. bytes-IsCodec.reads t.arbitrary_data h.arbitrary_data left),
        field-reads write_address read_address (test_bit f 9) none t.new_foundation_address r₁₀
            (λ e. address-default t.new_foundation_address (sym (flags 9) ∙ e))
            (λ left any.
              address-reads t.new_foundation_address h.new_foundation_address (sym (flags 9) ∙ any)
                left),
        field-reads write_currency read_currency (test_bit f 10) zero_currency t.miner_fee rest
            (λ e. fee-default t.miner_fee (sym (flags 10) ∙ e))
            (λ left any. currency-IsCodec.reads t.miner_fee h.miner_fee left),
      )
      refl

flags_small : (t : V2Transaction) → flags_word (field_flags t) < 2 ^ 64
unfolding field_flags
flags_small t = omega (arith, flags_word-lt (field_flags t))

-- A transaction whose fields are in range is read back from its encoding, with what is behind it.
pub read_v2_transaction-write_v2_transaction :
    (t : V2Transaction) (rest : Bytes)
    → InV2Transaction t
    → read_v2_transaction (write_v2_transaction t rest) ≡ some (t, rest)
unfolding read_v2_transaction write_v2_transaction write_uint8 read_uint8
read_v2_transaction-write_v2_transaction t rest h =
    let f = flags_word (field_flags t) in
    let small : f < 2 ^ 64 = flags_small t in
    rw (uint64-IsCodec.reads f small (write_fields f t rest))
      (fields-read f t rest (test_bit-flags_word (field_flags t)) h)
