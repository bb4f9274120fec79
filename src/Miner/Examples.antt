-- ===== src/Miner/Examples.antt =====
-- coreutils/qday/miner.go: the candidate with the transfer of the tests.
use qday.Base.{◌≡◌, refl, some, [], ◌∷◌, arith}
use qday.Base.Int.{pos, ◌+ℤ◌, ◌-ℤ◌, quo, saturate}
use qday.Base.Results.{ok}
use qday.Block.{
  v2_transactions, header, validate_orphan, validate_block, total_weight, total_v2_weight,
}
use qday.Block.Sample.{sample_rules, sample_ids, sample_roots}
use qday.Block.Transfer.{transfer_ok, transfer_applied}
use qday.Currency.{add, add_with_overflow, is_zero}
use qday.Header.{median_timestamp}
use qday.Header.Validate.{validate_header, checked_mod}
use qday.Miner.{coinbase_marker, closing, pick, candidate}
use qday.Miner.Accepted.{assembled, candidate-validate_block}
use qday.Policy.{keys_valid}
use qday.Policy.Sample.{sample_keys}
use qday.Qday.Sample.{sample_mid, sample_transfer}
use qday.Ledger.{new_mid_state}
use qday.Sample.{sample_state, sample_params, sample_reward}
use qday.State.{block_reward, qday_v1_active, pow_target, nonce_factor}
use qday.Currency.{Currency}
use qday.Types.{Block}
use qday.Validation.{is_some, validate_miner_payouts}
use qday.Wire.Elements.{unix, time_of}
use qday.Work.Target.{inv_target}
use qday.Work.Value.{value}

-- The reward and the fee of the transfer.
abbrev reward_and_fee : Currency
reward_and_fee = record { lo = 16030113641655173220; hi = 433680 }

abbrev mined : Block
mined =
    assembled sample_rules sample_ids sample_roots sample_params sample_state sample_keys
      (pos 42000000000) 258 0 (sample_transfer ∷ []) reward_and_fee

picked_ok :
    pick sample_rules sample_ids 1028 sample_reward sample_mid (sample_transfer ∷ [])
    ≡ some (sample_transfer ∷ [], reward_and_fee)
unfolding pick add add_with_overflow
picked_ok = rw (transfer_ok, transfer_applied.1) refl

candidate_ok :
    candidate sample_rules sample_ids sample_roots sample_state sample_keys
      (sample_transfer ∷ [])
      (pos 42000000500)
      258
    ≡ some mined
unfolding candidate block_reward new_mid_state unix time_of
candidate_ok = rw picked_ok refl

orphan_ok :
    validate_orphan sample_rules sample_ids sample_roots sample_state (record mined { nonce = 7 })
    ≡ ok tt
unfolding validate_orphan total_weight total_v2_weight v2_transactions header validate_miner_payouts
    block_reward add_with_overflow is_zero is_some validate_header median_timestamp checked_mod
    nonce_factor pow_target ◌+ℤ◌ quo saturate ◌-ℤ◌ inv_target value closing qday_v1_active
    coinbase_marker
orphan_ok = refl

candidate-validate_block_example :
    validate_block sample_rules sample_ids sample_roots sample_state (record mined { nonce = 7 })
    ≡ ok tt
candidate-validate_block_example =
    candidate-validate_block sample_rules sample_ids sample_roots sample_params sample_state
      sample_keys (sample_transfer ∷ []) (pos 42000000500) 258 7 mined refl
      (omega arith, omega arith, unfold keys_valid in refl) (omega arith) candidate_ok orphan_ok
