-- ===== src/Block/Sample.antt =====
-- core/consensus/validation.go and core/consensus/application.go: parameters, blocks and a state for
-- the tests.
use qday.Base.{◌+◌, false, true, some, [], ◌∷◌}
use qday.Base.Int.{pos}
use qday.Block.{Roots}
use qday.Ledger.Apply.{Ids}
use qday.Policy.Sample.{sample_crypto}
use qday.Qday.Envelope.{encode}
use qday.Qday.Sample.{sample_envelope, sample_oracle, sample_transfer, idle_with}
use qday.Sample.{sample_state}
use qday.State.{State}
use qday.Types.{Block}
use qday.Validation.Whole.{Rules}

abbrev pub sample_rules : Rules
sample_rules = record {
  crypto = sample_crypto;
  oracle = sample_oracle;
  contracts = record {
    contract_sig_hash = λ fc. 1;
    renewal_sig_hash = λ r. 2;
    contains_unresolved = λ a e. true;
    contains_resolved = λ a e. false;
    contains_chain_index = λ a e. true;
    window_seed = λ id fc. 3;
    leaf_hash = λ l. 4;
    sum_pair = λ a b. a + b;
  };
  contains_unspent = λ a e. true;
  contains_spent = λ a e. false;
  contains_unspent_fund = λ a e. true;
  contains_spent_fund = λ a e. false;
  input_sig_hash = λ s t. 30;
  attestation_sig_hash = λ s a. 31;
  v2_weight = λ t. 900;
}

abbrev pub sample_ids : Ids
sample_ids = record {
  transaction = λ t. 77;
  siacoin_output = λ t i. 1000 + i;
  siafund_output = λ t i. 2000 + i;
  v2_file_contract = λ t i. 3000 + i;
  attestation = λ t i. 4000 + i;
  v2_claim_output = λ i. i + 1;
  v2_renewal = λ i. i + 2;
  v2_renter_output = λ i. i + 3;
  v2_host_output = λ i. i + 4;
  miner_output = λ b i. 5000 + i;
  foundation_output = λ b. 6000;
}

abbrev pub sample_roots : Roots
sample_roots = record {
  merkle_root = λ b. 8;
  header_id = λ bh. bh.nonce;
  commitment = λ s a ts us. a + 1;
  weight = λ t. 900;
}

-- A block with the marker of its payout and the transfer, whose fee it pays.
abbrev pub transfer_block : Block
transfer_block = record {
  parent_id = 4242;
  nonce = 7;
  timestamp = pos 42000000000;
  miner_payouts =
      record { value = record { lo = 16030113641655173220; hi = 433680 }; address = 5 } ∷ [];
  transactions = [];
  v2 = some (record {
    height = 42;
    commitment = 6;
    transactions = idle_with (encode sample_envelope) ∷ sample_transfer ∷ [];
  });
}

-- A block with a proof of the canary and without a payout.
abbrev pub proof_block : Block
proof_block = record transfer_block {
  miner_payouts = [];
  v2 = some (record {
    height = 42;
    commitment = 6;
    transactions = idle_with (encode (record { kind = 3; nonce = 0; keys = []; witness = 5 })) ∷ [];
  });
}

abbrev pub waiting_state : State
waiting_state = record sample_state { qday_height = 0 }
