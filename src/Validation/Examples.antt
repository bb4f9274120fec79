-- ===== src/Validation/Examples.antt =====
-- core/consensus/validation.go and core/consensus/application.go: the theorems at a transfer and a
-- block.
use qday.Base.{◌+◌, ◌≤◌, ◌≡◌, ◌≢◌, refl, true, false, some, [], ◌∷◌, arith, All}
use qday.Base.Int.{pos, ◌+ℤ◌, ◌-ℤ◌, quo, saturate}
use qday.Base.Bytes.{le_value}
use qday.Base.Results.{ok}
use qday.Currency.{add, add_with_overflow, is_zero, cmp}
use qday.Header.{median_timestamp}
use qday.Qday.Decay.{qday_value}
use qday.Currency.Value.{value, IsCurrency}
use qday.Ledger.{MidState}
use qday.Ledger.Apply.{Ids, apply_v2_transaction, note_proof}
use qday.Ledger.Transfer.{Grown, apply_v2_transaction-Grown}
use qday.Policy.{keys_policy}
use qday.Policy.Native.{is_native_policy}
use qday.Policy.Sample.{sample_crypto, sample_keys, sample_chunks, sample_verified}
use qday.Policy.Verify.{address}
use qday.Qday.Decay.Course.{IsDecay}
use qday.Qday.Envelope.{parse}
use qday.Qday.Sample.{sample_oracle, sample_transfer, sample_mid, sample_coin}
use qday.Qday.Transaction.{is_unsupported, validate_qday_transaction}
use qday.Qday.Difficulty.{work_valid}
use qday.Sample.{sample_state, sample_params, sample_reward}
use qday.State.{child_height, block_reward, qday_active}
use qday.Types.{Block}
use qday.Validation.{
  is_some, validate_v2_siacoins, validate_inputs, validate_balance, validate_miner_payouts,
  validate_element, validate_spend_policy,
}
use qday.Validation.Coins.{total_value, total_spendable, validate_balance_le}
use qday.Validation.Payouts.{
  total_fees, total_v2_fees, v2_transactions, validate_miner_payouts_exact,
}
use qday.Base.{◌<◌, ◌↔◌}
use qday.Base.Words.{u128_mod}
use qday.Validation.Overflow.{validate_currency_overflow, validate_currency_overflow_iff}
use qday.Accumulator.{leaf_hash, contains_leaf}
use qday.Accumulator.Elements.{siacoin_leaf, contains_unspent_siacoin_element}
use qday.Accumulator.Sample.{
  square_pair, pack, square_pair-Injective, sample_hashes, one_leaf, one_leaf-IsForest,
}
use qday.Base.{ℕ, ==_iff}
use qday.Qday.Sample.{sample_element}
use qday.Validation.Storage.{storage_proof_leaf_index, storage_proof_leaf_index_mod}
use qday.Base.{if◌then◌else◌, ◌==◌, ◌%◌, ◌/◌}
use qday.Validation.Members.{Stands, validate_v2_siacoins-Stands}
use qday.Validation.Spends.{IsHybrid, accepted-IsHybrid}

coin_ok : IsCurrency sample_coin
coin_ok = record { low_word = omega arith; high_word = omega arith }

sample_params-IsDecay : IsDecay sample_params
sample_params-IsDecay = record {
  blocks_pos = omega arith;
  blocks_word = omega arith;
  step_pos = omega arith;
}

balance_ok : validate_balance sample_state sample_transfer ≡ ok tt
unfolding validate_balance qday_value add add_with_overflow is_zero is_some cmp
balance_ok = refl

validate_balance_le_example :
    total_value sample_transfer.siacoin_outputs + value sample_transfer.miner_fee
    ≤ total_spendable sample_state (child_height sample_state) sample_transfer.siacoin_inputs
validate_balance_le_example =
    validate_balance_le sample_state sample_params refl sample_params-IsDecay sample_transfer
      (unfold is_unsupported in refl) (coin_ok, tt)
      (record { low_word = omega arith; high_word = omega arith }, tt)
      (record { low_word = omega arith; high_word = omega arith }) balance_ok

median_ok : median_timestamp sample_state ≡ some (pos 40500000000)
unfolding median_timestamp ◌+ℤ◌ quo saturate ◌-ℤ◌
median_ok = refl

spend_ok :
    validate_spend_policy sample_crypto sample_mid 30
      (record { policy = keys_policy sample_keys; signatures = 41 ∷ []; preimages = sample_chunks })
      5
    ≡ ok tt
unfolding validate_spend_policy address keys_policy
spend_ok = cc (median_ok, sample_verified 41 (pos 40500000000))

siacoins_ok :
    validate_v2_siacoins sample_crypto
      (λ a e. true)
      (λ a e. false)
      (λ t. 30)
      sample_mid
      sample_transfer
    ≡ ok tt
unfolding validate_v2_siacoins validate_inputs validate_element is_some
siacoins_ok = cc (spend_ok, balance_ok)

accepted-IsHybrid_example : All (IsHybrid sample_crypto 30) sample_transfer.siacoin_inputs
accepted-IsHybrid_example =
    accepted-IsHybrid sample_crypto sample_oracle (λ a e. true) (λ a e. false) (λ t. 30) sample_mid
      sample_params sample_transfer refl
      (unfold validate_qday_transaction parse le_value is_native_policy keys_policy work_valid
          qday_active in
        refl)
      siacoins_ok

sample_ids : Ids
sample_ids = record {
  transaction = λ t. 77;
  siacoin_output = λ t i. 1000 + i;
  siafund_output = λ t i. 2000 + i;
  v2_file_contract = λ t i. 3000 + i;
  attestation = λ t i. 4000 + i;
  v2_claim_output = λ i. i + 1;
  v2_renewal = λ i. i + 2;
  v2_renter_output = λ i. i + 3;
  v2_host_output = λ i. i + 4;
  miner_output = λ b i. 5000 + i;
  foundation_output = λ b. 6000;
}

apply_v2_transaction-Grown_example :
    (after : MidState) × (apply_v2_transaction sample_ids sample_transfer sample_mid ≡ some after)
    × Grown (sample_ids.transaction sample_transfer) (note_proof sample_transfer sample_mid) after
    × All
        (λ i. after.spends i.parent.id ≡ some (sample_ids.transaction sample_transfer))
        sample_transfer.siacoin_inputs
    × ((k : ℕ)
        → All (λ i. k ≢ i.parent.id) sample_transfer.siacoin_inputs
        → after.spends k ≡ sample_mid.spends k)
apply_v2_transaction-Grown_example =
    apply_v2_transaction-Grown sample_ids sample_transfer sample_mid (λ id i e. cc)
      (unfold is_unsupported in refl)

-- A block with the transfer and the payout of its fee.
abbrev sample_block : Block
sample_block = record {
  parent_id = 4242;
  nonce = 7;
  timestamp = pos 42000000000;
  miner_payouts =
      record { value = record { lo = 16030113641655173220; hi = 433680 }; address = 9 } ∷ [];
  transactions = [];
  v2 = some (record { height = 42; commitment = 1; transactions = sample_transfer ∷ [] });
}

validate_miner_payouts_exact_example :
    total_value sample_block.miner_payouts
    ≡ value sample_reward
      + total_fees sample_block.transactions
      + total_v2_fees (v2_transactions sample_block.v2)
validate_miner_payouts_exact_example =
    validate_miner_payouts_exact sample_state sample_block sample_reward
      (unfold block_reward in refl) (record { low_word = omega arith; high_word = omega arith })
      (record {
        fees = tt;
        v2_fees = (record { low_word = omega arith; high_word = omega arith }, tt);
        payouts = (record { low_word = omega arith; high_word = omega arith }, tt);
      })
      (unfold validate_miner_payouts block_reward add_with_overflow is_zero is_some in refl)

validate_currency_overflow_iff_example :
    (validate_currency_overflow sample_transfer ≡ ok tt)
    ↔ (total_value sample_transfer.siacoin_outputs + value sample_transfer.miner_fee < u128_mod)
validate_currency_overflow_iff_example =
    validate_currency_overflow_iff sample_transfer (unfold is_unsupported in refl)
      (record { low_word = omega arith; high_word = omega arith }, tt)
      (record { low_word = omega arith; high_word = omega arith })

-- The state of the sample with the forest of the one element that the transfer spends.
abbrev spent_hash : ℕ
spent_hash = leaf_hash pack (siacoin_leaf sample_hashes sample_element false)

abbrev forest_mid : MidState
forest_mid = record sample_mid { base = record sample_state { elements = one_leaf spent_hash } }

element_contained :
    contains_unspent_siacoin_element square_pair pack sample_hashes
      (one_leaf spent_hash)
      sample_element
    ≡ true
unfolding contains_unspent_siacoin_element contains_leaf
element_contained = (==_iff spent_hash spent_hash).1 refl

forest_balance : validate_balance forest_mid.base sample_transfer ≡ ok tt
unfolding validate_balance qday_value add add_with_overflow is_zero is_some cmp
forest_balance = refl

forest_median : median_timestamp forest_mid.base ≡ some (pos 40500000000)
unfolding median_timestamp ◌+ℤ◌ quo saturate ◌-ℤ◌
forest_median = refl

forest_spend :
    validate_spend_policy sample_crypto forest_mid 30
      (record { policy = keys_policy sample_keys; signatures = 41 ∷ []; preimages = sample_chunks })
      5
    ≡ ok tt
unfolding validate_spend_policy address keys_policy
forest_spend = cc (forest_median, sample_verified 41 (pos 40500000000))

validate_v2_siacoins-Stands_example :
    All
      (Stands sample_crypto square_pair pack sample_hashes forest_mid (spent_hash ∷ []))
      sample_transfer.siacoin_inputs
unfolding validate_v2_siacoins validate_inputs validate_element is_some
validate_v2_siacoins-Stands_example =
    validate_v2_siacoins-Stands sample_crypto square_pair pack sample_hashes (λ t. 30) forest_mid
      (spent_hash ∷ []) sample_transfer square_pair-Injective (one_leaf-IsForest spent_hash)
      (cc (element_contained, forest_spend, forest_balance))

storage_proof_leaf_index_mod_example :
    storage_proof_leaf_index 1000003 6401
    ≡ some (if (6401 + 63) / 64 == 0 then 0 else 1000003 % ((6401 + 63) / 64))
storage_proof_leaf_index_mod_example = storage_proof_leaf_index_mod 1000003 6401 (omega arith)
