-- ===== src/Block/Transfer.antt =====
-- core/consensus/validation.go: the transfer of the tests passes all rules for transactions.
use qday.Base.{◌≡◌, refl, ap, false, true, some, [], ◌∷◌}
use qday.Base.Bytes.{le_value}
use qday.Base.Int.{pos, ◌+ℤ◌, ◌-ℤ◌, quo, saturate}
use qday.Base.Results.{ok, wrap, >>-ok}
use qday.Block.Sample.{sample_rules, sample_ids}
use qday.Currency.{add, add_with_overflow, is_zero, cmp}
use qday.Header.{median_timestamp}
use qday.Ledger.{spend_siacoin_element, create_siacoin_element, MidState}
use qday.Policy.{keys_policy}
use qday.Policy.Native.{is_native_policy}
use qday.Policy.Sample.{sample_crypto, sample_keys, sample_chunks, sample_verified}
use qday.Policy.Verify.{address}
use qday.Qday.Decay.{qday_value}
use qday.Qday.Difficulty.{work_valid}
use qday.Qday.Envelope.{parse}
use qday.Qday.Sample.{sample_mid, sample_transfer}
use qday.Qday.Transaction.{validate_qday_transaction}
use qday.Sample.{sample_state}
use qday.State.{child_height, qday_active}
use qday.Ledger.Apply.{apply_v2_transaction}
use qday.Validation.Overflow.{validate_currency_overflow}
use qday.Validation.Siafunds.{
  validate_v2_siafunds, validate_attestations, validate_foundation_update,
}
use qday.Validation.Contracts.{validate_v2_file_contracts}
use qday.Validation.{
  is_some, validate_v2_siacoins, validate_inputs, validate_balance, validate_element,
  validate_spend_policy,
}
use qday.Validation.Whole.{
  overflow_error, coin_error, fund_error, contract_error, validate_v2_transaction,
  validate_network_rules,
}

median_ok : median_timestamp sample_state ≡ some (pos 40500000000)
unfolding median_timestamp ◌+ℤ◌ quo saturate ◌-ℤ◌
median_ok = refl

balance_ok : validate_balance sample_state sample_transfer ≡ ok tt
unfolding validate_balance qday_value add add_with_overflow is_zero is_some cmp
balance_ok = refl

spend_ok :
    validate_spend_policy sample_crypto sample_mid 30
      (record { policy = keys_policy sample_keys; signatures = 41 ∷ []; preimages = sample_chunks })
      5
    ≡ ok tt
unfolding validate_spend_policy address keys_policy
spend_ok = cc (median_ok, sample_verified 41 (pos 40500000000))

siacoins_ok :
    validate_v2_siacoins sample_crypto
      (λ a e. true)
      (λ a e. false)
      (λ t. 30)
      sample_mid
      sample_transfer
    ≡ ok tt
unfolding validate_v2_siacoins validate_inputs validate_element is_some
siacoins_ok = cc (spend_ok, balance_ok)

network_ok : validate_network_rules sample_rules sample_mid sample_transfer ≡ ok tt
unfolding validate_network_rules validate_qday_transaction parse le_value is_native_policy
    keys_policy work_valid qday_active is_some
network_ok = refl

overflow_ok : validate_currency_overflow sample_transfer ≡ ok tt
unfolding validate_currency_overflow add_with_overflow
overflow_ok = refl

funds_ok :
    validate_v2_siafunds sample_crypto
      (λ a e. true)
      (λ a e. false)
      (λ t. 30)
      sample_mid
      sample_transfer
    ≡ ok tt
unfolding validate_v2_siafunds
funds_ok = refl

contracts_ok :
    validate_v2_file_contracts sample_crypto sample_rules.contracts sample_mid sample_transfer
    ≡ ok tt
unfolding validate_v2_file_contracts
contracts_ok = refl

-- The transfer passes.
pub transfer_ok : validate_v2_transaction sample_rules sample_mid sample_transfer ≡ ok tt
unfolding validate_v2_transaction validate_attestations validate_foundation_update child_height
transfer_ok = >>-ok network_ok (
    >>-ok refl (
      >>-ok (ap (wrap overflow_error) overflow_ok) (
        >>-ok refl (
          >>-ok refl (
            >>-ok (ap (wrap coin_error) siacoins_ok) (
              >>-ok (ap (wrap fund_error) funds_ok)
                (>>-ok (ap (wrap contract_error) contracts_ok) (>>-ok refl refl))))))))

pub transfer_applied :
    (after : MidState) × (apply_v2_transaction sample_ids sample_transfer sample_mid ≡ some after)
unfolding apply_v2_transaction parse le_value spend_siacoin_element create_siacoin_element
transfer_applied = (_, refl)
