-- ===== src/Qday/Examples.antt =====
-- core/consensus/qday.go: the theorems at concrete inputs.
use qday.Base.{
  ℕ, List, ◌⊎◌, false, length, ◌-◌, ◌*◌, ◌/◌, ◌^◌, ◌≤◌, ◌<◌, ◌≡◌, refl, ◌↔◌, inr, true, some, max,
  arith,
}
use qday.Base.Bytes.{le_value, le_bytes, be_bytes, be_value}
use qday.Base.Results.{ok}
use qday.Currency.{Currency, is_zero}
use qday.Currency.Value.{value, IsCurrency}
use qday.Policy.{keys_valid, keys_policy}
use qday.Qday.Accepted.{IsTransfer, validate_qday_transaction_iff}
use qday.Qday.Canonical.{encode-parse}
use qday.Qday.Decay.{qday_value}
use qday.Qday.Decay.Course.{
  remaining_blocks, IsDecay, qday_value_exact, qday_value_mono, qday_value_end,
}
use qday.Qday.Difficulty.{work_valid, work_valid_iff}
use qday.Qday.Envelope.{encode, parse}
use qday.Qday.Params.{validate_params, IsParams, validate_params_iff}
use qday.Qday.RoundTrip.{parse-encode}
use qday.Qday.Sample.{
  sample_envelope, marked_block, late_state, transfer_bytes, transfer_envelope, sample_oracle,
  sample_element, sample_transfer, sample_mid, sample_coin,
}
use qday.Types.{V2Transaction}
use qday.Policy.Sample.{sample_crypto}
use qday.Policy.Verify.{address}
use qday.Qday.Transaction.{
  validate_qday_block_markers, last_of, validate_qday_transaction, work_intent,
}
use qday.Qday.Markers.{
  validate_qday_block_markers-IsMarker, IsMarker, IsMarked, IsMiningMarker, work_intent-nonce,
}
use qday.Sample.{sample_state, sample_params}
use qday.State.{qday_v1_active, child_height, qday_active}

coin-IsCurrency : IsCurrency sample_coin
coin-IsCurrency = record { low_word = omega arith; high_word = omega arith }

sample_params-IsDecay : IsDecay sample_params
sample_params-IsDecay = record {
  blocks_pos = omega arith;
  blocks_word = omega arith;
  step_pos = omega arith;
}

qday_value_exact_example :
    (c : Currency) × (qday_value sample_state sample_element 2000 ≡ some c)
    × IsCurrency c
    × (value c ≡ value sample_coin * remaining_blocks sample_params (max 20 10) 2000 / 10080)
qday_value_exact_example =
    qday_value_exact sample_state sample_element sample_params refl sample_params-IsDecay
      coin-IsCurrency 2000 (unfold qday_active in refl)

qday_value_mono_example :
    (c c' : Currency) × (qday_value sample_state sample_element 1000 ≡ some c)
    × (qday_value sample_state sample_element 2000 ≡ some c')
    × IsCurrency c'
    × (value c' ≤ value c)
    × (value c ≤ value sample_coin)
qday_value_mono_example =
    qday_value_mono sample_state sample_element sample_params refl sample_params-IsDecay
      coin-IsCurrency 1000 2000 (omega arith)

qday_value_end_example :
    (c : Currency) × (qday_value sample_state sample_element 12000 ≡ some c) × (value c ≡ 0)
qday_value_end_example =
    qday_value_end sample_state sample_element sample_params refl sample_params-IsDecay
      coin-IsCurrency 12000 168 (unfold qday_active in refl) refl (omega arith)

parse-encode_example : parse (encode sample_envelope) ≡ ok sample_envelope
parse-encode_example = parse-encode sample_envelope (record {
  kind_low = omega arith;
  kind_high = omega arith;
  nonce = omega arith;
  few = omega arith;
  keys = ((omega arith, omega arith, unfold keys_valid in refl), tt);
  witness = omega arith;
  no_witness = inr refl;
})

encode-parse_example : encode transfer_envelope ≡ transfer_bytes
encode-parse_example =
    encode-parse transfer_bytes transfer_envelope (omega arith) (unfold parse le_value in refl)

work_valid_iff_example : (work_valid (λ b. 2 ^ 240) 5 7 15 ≡ true) ↔ (2 ^ 240 < 2 ^ (256 - 15))
work_valid_iff_example = work_valid_iff (λ b. 2 ^ 240) 5 7 15 (omega arith) (omega arith)

validate_params_iff_example :
    (validate_params (λ b. some b) 1 sample_params ≡ ok tt) ↔ IsParams (λ b. some b) 1 sample_params
validate_params_iff_example =
    validate_params_iff (λ b. some b) 1 sample_params
      (record { low_word = omega arith; high_word = omega arith })
      (record { low_word = omega arith; high_word = omega arith })

validate_qday_transaction_iff_example :
    (validate_qday_transaction sample_oracle sample_mid sample_transfer ≡ ok tt)
    ↔ IsTransfer sample_oracle sample_mid sample_params refl sample_transfer
validate_qday_transaction_iff_example =
    validate_qday_transaction_iff sample_oracle sample_mid sample_params refl sample_transfer

work_intent-nonce_example :
    work_intent sample_oracle sample_params
      (record sample_transfer { arbitrary_data = encode transfer_envelope })
    ≡ work_intent sample_oracle sample_params (record sample_transfer {
      arbitrary_data = encode (record transfer_envelope { nonce = 900 });
    })
work_intent-nonce_example =
    work_intent-nonce sample_oracle sample_params sample_transfer transfer_envelope 900

validate_qday_block_markers-IsMarker_example :
    (txn : V2Transaction) × (rest : List V2Transaction) × (payout : ℕ) × IsMarked sample_crypto
      marked_block txn rest payout
    × IsMarker sample_crypto txn payout
    × ((qday_v1_active late_state (child_height late_state) ≡ false)
        ⊎ ((1 ≤ length rest) × IsMiningMarker (last_of txn rest)))
validate_qday_block_markers-IsMarker_example =
    validate_qday_block_markers-IsMarker sample_crypto late_state marked_block (
      unfold validate_qday_block_markers le_bytes be_bytes le_value be_value keys_policy is_zero
        parse encode keys_valid address qday_v1_active in
      refl)
