-- ===== src/Block/Examples.antt =====
-- core/consensus/validation.go and core/consensus/application.go: the theorems on blocks at concrete
-- blocks.
use qday.Base.{◌≡◌, refl, ap, some, [], ◌∷◌, arith}
use qday.Base.Bytes.{le_value, le_bytes, be_bytes, be_value}
use qday.Base.Int.{pos, ◌+ℤ◌, ◌-ℤ◌, quo, saturate}
use qday.Base.Results.{ok, wrap, or_panic, >>-ok, >>=-ok}
use qday.Block.{
  transaction_error, v2_transactions, header, validate_markers, validate_orphan,
  validate_supplement, check_commitment, is_marker, validate_transactions, validate_block,
  total_weight, total_v2_weight,
}
use qday.Block.Transfer.{transfer_ok, transfer_applied}
use qday.Block.Sample.{
  sample_rules, sample_ids, sample_roots, transfer_block, proof_block, waiting_state,
}
use qday.Block.Effects.{apply_block}
use qday.Block.Activation.{nothing, block, apply_block-qday_height, Reaches-qday_height}
use qday.Block.Proved.{any_proof}
use qday.Accumulator.Sample.{square_pair, pack, sample_hashes}
use qday.Qday.Transaction.{is_unsupported}
use qday.State.{State}
use qday.Base.Int.{ℤ, max_ℤ, min_ℤ, i64, u64, ◌*ℤ◌}
use qday.Work
use qday.Header.{
  update_total_work, adjust_difficulty, adjust_difficulty_final_cut, estimate, target_interval,
  clamp_difficulty, update_oak_work,
}
use qday.Base.{◌≢◌, if◌then◌else◌, ◌==◌, ◌&&◌, Option, ℕ, ◌%◌, ◌+◌}
use qday.Base.Words.{u64_mod}
use qday.Block.Spends.{IsAccepted, validate_block-IsAccepted}
use qday.Currency.{add_with_overflow, is_zero}
use qday.Header.{median_timestamp}
use qday.Header.Validate.{validate_header, checked_mod}
use qday.Ledger.{MidState, new_mid_state}
use qday.Policy.{keys_policy, keys_valid}
use qday.Policy.Verify.{address}
use qday.Qday.Envelope.{parse, encode}
use qday.Qday.Sample.{sample_mid, sample_transfer, sample_envelope, idle_with}
use qday.Qday.Transaction.{validate_qday_block_markers}
use qday.Sample.{sample_state, sample_params}
use qday.State.{child_height, qday_v1_active, block_reward, pow_target, nonce_factor}
use qday.Work.Target.{inv_target}
use qday.Work.Value.{value}
use qday.Ledger.Apply.{apply_v2_transaction}
use qday.Validation.{is_some, validate_miner_payouts}

markers_ok :
    validate_markers sample_rules sample_ids sample_roots sample_state transfer_block ≡ ok tt
unfolding validate_markers validate_qday_block_markers le_bytes be_bytes le_value be_value
    keys_policy is_zero parse encode keys_valid address qday_v1_active is_some child_height
markers_ok = refl

orphan_ok : validate_orphan sample_rules sample_ids sample_roots sample_state transfer_block ≡ ok tt
unfolding validate_orphan total_weight total_v2_weight v2_transactions header validate_miner_payouts
    block_reward add_with_overflow is_zero is_some validate_header median_timestamp checked_mod
    nonce_factor pow_target ◌+ℤ◌ quo saturate ◌-ℤ◌ inv_target value
orphan_ok = refl

-- The marker leaves the state as it is.
marker_applied :
    apply_v2_transaction sample_ids
      (idle_with (encode sample_envelope))
      (new_mid_state sample_state)
    ≡ some sample_mid
unfolding apply_v2_transaction new_mid_state parse encode le_value le_bytes be_bytes keys_valid
    be_value
marker_applied = refl

transactions_ok :
    validate_transactions sample_rules sample_ids sample_roots 0
      (v2_transactions transfer_block)
      (new_mid_state sample_state)
    ≡ ok transfer_applied.0
unfolding validate_transactions is_marker is_some v2_transactions qday_v1_active child_height
    new_mid_state
transactions_ok = >>-ok refl (
    >>=-ok (validate_transactions sample_rules sample_ids sample_roots 1 (sample_transfer ∷ []))
      (ap or_panic marker_applied)
      (>>-ok (ap (wrap transaction_error) transfer_ok) (
        >>=-ok (validate_transactions sample_rules sample_ids sample_roots 2 [])
          (ap or_panic transfer_applied.1) refl)))

block_ok : validate_block sample_rules sample_ids sample_roots sample_state transfer_block ≡ ok tt
unfolding validate_block validate_supplement check_commitment
block_ok =
    >>-ok markers_ok
      (>>-ok orphan_ok (>>-ok refl (>>-ok refl (>>=-ok (λ ms. ok tt) transactions_ok refl))))

validate_block-IsAccepted_example :
    (after : MidState) × IsAccepted sample_rules sample_ids sample_roots sample_params sample_state
      (new_mid_state sample_state)
      after
      (v2_transactions transfer_block)
validate_block-IsAccepted_example =
    validate_block-IsAccepted sample_rules sample_ids sample_roots sample_params sample_state
      transfer_block refl (unfold child_height in omega arith) block_ok

abbrev no_rule : State → ℤ → ℤ → ℕ
no_rule s t u = 1

abbrev applied_to : State → Option State
applied_to s =
    apply_block square_pair pack sample_hashes sample_ids no_rule sample_roots s proof_block (pos 0)

proof_applied : (after : State) × (applied_to waiting_state ≡ some after)
unfolding apply_block update_total_work adjust_difficulty adjust_difficulty_final_cut estimate
    target_interval clamp_difficulty update_oak_work Work.add Work.sub Work.mul64 Work.mul_round
    Work.div64 Work.max Work.min Work.less inv_target value max_ℤ min_ℤ i64 u64 quo saturate ◌*ℤ◌
    ◌+ℤ◌ ◌-ℤ◌
proof_applied = (_, refl)

later_applied : (after : State) × (applied_to sample_state ≡ some after)
unfolding apply_block update_total_work adjust_difficulty adjust_difficulty_final_cut estimate
    target_interval clamp_difficulty update_oak_work Work.add Work.sub Work.mul64 Work.mul_round
    Work.div64 Work.max Work.min Work.less inv_target value max_ℤ min_ℤ i64 u64 quo saturate ◌*ℤ◌
    ◌+ℤ◌ ◌-ℤ◌
later_applied = (_, refl)

apply_block-qday_height_example :
    (proof_applied.0.network ≡ waiting_state.network)
    × (proof_applied.0.qday_height ≡ (
        if (waiting_state.qday_height == 0) && any_proof waiting_state (v2_transactions proof_block)
        then (proof_applied.0.index.height + 6) % u64_mod
        else waiting_state.qday_height))
apply_block-qday_height_example =
    apply_block-qday_height square_pair pack sample_hashes sample_ids no_rule sample_roots
      waiting_state proof_applied.0 proof_block (pos 0) sample_params refl
      (unfold v2_transactions is_unsupported in (refl, tt)) proof_applied.1

Reaches-qday_height_example :
    (later_applied.0.network ≡ sample_state.network)
    × (sample_state.qday_height ≢ 0 → later_applied.0.qday_height ≡ sample_state.qday_height)
Reaches-qday_height_example =
    Reaches-qday_height square_pair pack sample_hashes sample_ids no_rule sample_roots
      (block proof_block (pos 0) nothing later_applied.1)
