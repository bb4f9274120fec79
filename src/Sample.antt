-- ===== src/Sample.antt =====
-- The parameters of coreutils/chain/qday.go as data, and a state of a young chain, for the tests.
use qday.Base.{some, [], ◌∷◌}
use qday.Base.Int.{pos}
use qday.Currency.{Currency, zero_currency}
use qday.Work.{Work}
use qday.State.{QdayParams, Network, State}

-- 8, 1 and 500000 coins
abbrev pub sample_reward : Currency
sample_reward = record { lo = 16030113641655173120; hi = 433680 }

abbrev pub sample_fee : Currency
sample_fee = record { lo = 2003764205206896640; hi = 54210 }

abbrev pub sample_premine : Currency
sample_premine = record { lo = 2538472135152631808; hi = 27105054312 }

abbrev pub sample_params : QdayParams
sample_params = record {
  rules_version = 2;
  domain = 77;
  canary = 99;
  reward = sample_reward;
  proof_fee = sample_fee;
  mining_blocks = 1000000;
  premine_amount = sample_premine;
  shield_blocks = 1440;
  decay_blocks = 10080;
  decay_step = 60;
  activation_delay = 6;
  defend_bits = 20;
  v1_height = 9100;
}

abbrev pub sample_network : Network
sample_network = record {
  qday = some sample_params;
  initial_coinbase = zero_currency;
  minimum_coinbase = zero_currency;
  initial_target = 110427941548649020598956093796432407239217743554726184882600387580788736;
  block_interval = pos 60000000000;
  maturity_delay = 60;
  oak_height = 0;
  genesis_timestamp = pos 1000000000;
  asic_height = 0;
  asic_oak_time = pos 0;
  asic_oak_target = 110427941548649020598956093796432407239217743554726184882600387580788736;
  asic_nonce_factor = 1;
  foundation_height = 0;
  v2_allow_height = 1;
  v2_require_height = 1;
  v2_final_cut_height = 1;
  v2_ephemeral_output_height = 1;
}

abbrev pub million_work : Work
million_work = record { w0 = 0; w1 = 0; w2 = 0; w3 = 1048576 }

abbrev pub sample_state : State
sample_state = record {
  qday_height = 20;
  network = sample_network;
  index = record { height = 41; id = 4242 };
  prev_timestamps = pos 41000000000 ∷ pos 40000000000 ∷ [];
  depth = 0;
  child_target = 0;
  siafund_tax_revenue = zero_currency;
  oak_time = pos 6000000000000;
  oak_target = 0;
  foundation_subsidy_address = 0;
  foundation_management_address = 0;
  total_work = million_work;
  difficulty = million_work;
  oak_work = million_work;
  elements = record { trees = []; num_leaves = 0 };
  attestations = 0;
}
