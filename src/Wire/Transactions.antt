-- ===== src/Wire/Transactions.antt =====
-- core/types/encoding.go: EncodeTo and DecodeFrom of V2Transaction.
use qday.Base.{
  ℕ, ◌+◌, ◌*◌, Bool, not, Option, none, some, List, [], ◌∷◌, ◌!=◌, if◌then◌else◌, length,
}
use qday.Base.Options.{◌>>=◌}
use qday.Base.Words.{test_bit}
use qday.Currency.{is_zero, zero_currency}
use qday.Types.{V2Transaction}
use qday.Validation.{is_some}
use qday.Wire.{
  Writer, Reader, write_uint8, read_uint8, write_uint64, read_uint64, write_bytes, read_bytes,
  write_slice, read_slice, read_array,
}
use qday.Wire.Elements.{
  write_hash, read_hash, write_currency, read_currency, write_siacoin_output, read_siacoin_output,
  write_siafund_output, read_siafund_output,
}
use qday.Wire.Contracts.{
  write_siacoin_input, read_siacoin_input, write_siafund_input, read_siafund_input,
  write_v2_file_contract, read_v2_file_contract, write_revision, read_revision,
  write_contract_resolution, read_contract_resolution, write_attestation, read_attestation,
}

abbrev has_any {ℓ} : {A : Type ℓ} → List A → Bool
has_any xs = length xs != 0

-- Which fields are not empty.
unfoldable pub field_flags : V2Transaction → List Bool
unfolding is_some is_zero
field_flags t =
    has_any t.siacoin_inputs
    ∷ has_any t.siacoin_outputs
    ∷ has_any t.siafund_inputs
    ∷ has_any t.siafund_outputs
    ∷ has_any t.file_contracts
    ∷ has_any t.file_contract_revisions
    ∷ has_any t.file_contract_resolutions
    ∷ has_any t.attestations
    ∷ has_any t.arbitrary_data
    ∷ is_some t.new_foundation_address
    ∷ not (is_zero t.miner_fee)
    ∷ []

-- `fields |= 1 << i`
unfoldable pub flags_word : List Bool → ℕ
flags_word [] = 0
flags_word (b ∷ bs) = (if b then 1 else 0) + 2 * flags_word bs

module _ {A : Type 0} where
  unfoldable pub write_field : Bool → Writer A → Writer A
  write_field b write x rest = if b then write x rest else rest

  unfoldable pub read_field : Bool → A → Reader A → Reader A
  read_field b default read bs = if b then read bs else some (default, bs)

-- Through a pointer that is not nil.
unfoldable pub write_address : Writer (Option ℕ)
write_address none rest = rest
write_address (some a) rest = write_hash a rest

unfoldable pub read_address : Reader (Option ℕ)
unfolding read_array
read_address bs = read_hash bs >>= λ (a, left). some (some a, left)

unfoldable pub write_fields : ℕ → Writer V2Transaction
unfolding write_field write_slice write_bytes write_address write_currency write_siacoin_input
    write_siacoin_output write_siafund_input write_siafund_output write_v2_file_contract
    write_revision write_contract_resolution write_attestation
write_fields f t rest =
    write_field (test_bit f 0) (write_slice write_siacoin_input) t.siacoin_inputs (
      write_field (test_bit f 1) (write_slice write_siacoin_output) t.siacoin_outputs (
        write_field (test_bit f 2) (write_slice write_siafund_input) t.siafund_inputs (
          write_field (test_bit f 3) (write_slice write_siafund_output) t.siafund_outputs (
            write_field (test_bit f 4) (write_slice write_v2_file_contract) t.file_contracts (
              write_field (test_bit f 5) (write_slice write_revision) t.file_contract_revisions (
                write_field (test_bit f 6) (write_slice write_contract_resolution)
                  t.file_contract_resolutions
                  (write_field (test_bit f 7) (write_slice write_attestation) t.attestations (
                    write_field (test_bit f 8) write_bytes t.arbitrary_data (
                      write_field (test_bit f 9) write_address t.new_foundation_address
                        (write_field (test_bit f 10) write_currency t.miner_fee rest))))))))))

unfoldable pub read_fields : ℕ → Reader V2Transaction
unfolding read_field read_slice read_bytes read_address read_currency read_siacoin_input
    read_siacoin_output read_siafund_input read_siafund_output read_v2_file_contract read_revision
    read_contract_resolution read_attestation
read_fields f bs = read_field (test_bit f 0) [] (read_slice read_siacoin_input) bs >>= λ (x₀, l₀).
    read_field (test_bit f 1) [] (read_slice read_siacoin_output) l₀ >>= λ (x₁, l₁).
    read_field (test_bit f 2) [] (read_slice read_siafund_input) l₁ >>= λ (x₂, l₂).
    read_field (test_bit f 3) [] (read_slice read_siafund_output) l₂ >>= λ (x₃, l₃).
    read_field (test_bit f 4) [] (read_slice read_v2_file_contract) l₃ >>= λ (x₄, l₄).
    read_field (test_bit f 5) [] (read_slice read_revision) l₄ >>= λ (x₅, l₅).
    read_field (test_bit f 6) [] (read_slice read_contract_resolution) l₅ >>= λ (x₆, l₆).
    read_field (test_bit f 7) [] (read_slice read_attestation) l₆ >>= λ (x₇, l₇).
    read_field (test_bit f 8) [] read_bytes l₇ >>= λ (x₈, l₈).
    read_field (test_bit f 9) none read_address l₈ >>= λ (x₉, l₉).
    read_field (test_bit f 10) zero_currency read_currency l₉ >>= λ (x₁₀, l₁₀). some (
      record {
        siacoin_inputs = x₀;
        siacoin_outputs = x₁;
        siafund_inputs = x₂;
        siafund_outputs = x₃;
        file_contracts = x₄;
        file_contract_revisions = x₅;
        file_contract_resolutions = x₆;
        attestations = x₇;
        arbitrary_data = x₈;
        new_foundation_address = x₉;
        miner_fee = x₁₀;
      },
      l₁₀,
    )

unfoldable pub write_v2_transaction : Writer V2Transaction
unfolding write_uint8 write_uint64 flags_word field_flags write_fields
write_v2_transaction t rest =
    let fields = flags_word (field_flags t) in
    write_uint8 2 (write_uint64 fields (write_fields fields t rest))

unfoldable pub read_v2_transaction : Reader V2Transaction
unfolding read_uint8 read_uint64 read_fields
read_v2_transaction bs = read_uint8 bs >>= λ (version, left).
    if version != 2
    then none
    else (read_uint64 left >>= λ (fields, left'). read_fields fields left')
