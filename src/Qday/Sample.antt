-- ===== src/Qday/Sample.antt =====
-- core/consensus/qday.go: envelopes and a transfer for the tests.
use qday.Base.{◌+◌, false, none, some, [], ◌∷◌}
use qday.Base.Bytes.{Bytes}
use qday.Currency.{Currency}
use qday.Ledger.{MidState}
use qday.Policy.{keys_policy}
use qday.Policy.Sample.{sample_keys, sample_chunks}
use qday.Qday.Envelope.{Envelope, encode}
use qday.Qday.Transaction.{Oracle}
use qday.Sample.{sample_state}
use qday.Base.Int.{pos}
use qday.State.{State}
use qday.Currency.{zero_currency}
use qday.Types.{SiacoinElement, V2Transaction, Block}

-- Marker of a coinbase with one pair of keys.
abbrev pub sample_envelope : Envelope
sample_envelope = record { kind = 2; nonce = 258; keys = sample_keys ∷ []; witness = 0 }

-- The bytes of a transfer with the nonce 7.
abbrev pub transfer_bytes : Bytes
transfer_bytes = 81 ∷ 68 ∷ 65 ∷ 89 ∷ 2 ∷ 1 ∷ 7 ∷ 0 ∷ 0 ∷ 0 ∷ 0 ∷ 0 ∷ 0 ∷ 0 ∷ 0 ∷ 0 ∷ []

abbrev pub transfer_envelope : Envelope
transfer_envelope = record { kind = 1; nonce = 7; keys = []; witness = 0 }

abbrev pub sample_oracle : Oracle
sample_oracle = record {
  decode_scalar = λ w. some w;
  base_mult = λ s. s + 1;
  transaction_id = λ t. 8;
  intent_hash = λ d i. d + i;
  sum256 = λ b. 0;
}

-- One coin, spent 101 blocks after the shield.
abbrev pub sample_coin : Currency
sample_coin = record { lo = 1000000; hi = 0 }

abbrev pub sample_element : SiacoinElement
sample_element = record {
  id = 500;
  state_element = record { leaf_index = 3; merkle_proof = [] };
  siacoin_output = record { value = sample_coin; address = 5 };
  maturity_height = 10;
}

abbrev pub sample_transfer : V2Transaction
sample_transfer = record {
  siacoin_inputs =
      record {
        parent = sample_element;
        satisfied_policy = record {
          policy = keys_policy sample_keys;
          signatures = 41 ∷ [];
          preimages = sample_chunks;
        };
      }
      ∷ [];
  siacoin_outputs = record { value = record { lo = 900000; hi = 0 }; address = 6 } ∷ [];
  siafund_inputs = [];
  siafund_outputs = [];
  file_contracts = [];
  file_contract_revisions = [];
  file_contract_resolutions = [];
  attestations = [];
  arbitrary_data = transfer_bytes;
  new_foundation_address = none;
  miner_fee = record { lo = 100; hi = 0 };
}

abbrev pub sample_mid : MidState
sample_mid = record {
  qday_proved = false;
  base = sample_state;
  elements = λ id. none;
  spends = λ id. none;
  siafund_tax_revenue = zero_currency;
  foundation_subsidy = 0;
  foundation_management = 0;
  sces = [];
  sfes = [];
  v2fces = [];
  aes = [];
  cie = none;
}

-- A transaction that moves nothing, with the bytes of a marker.
abbrev pub idle_with : Bytes → V2Transaction
idle_with b = record sample_transfer {
  siacoin_inputs = [];
  siacoin_outputs = [];
  arbitrary_data = b;
  miner_fee = zero_currency;
}

-- A block after the upgrade, which marks its payout and its work.
abbrev pub marked_block : Block
marked_block = record {
  parent_id = 4242;
  nonce = 0;
  timestamp = pos 0;
  miner_payouts = record { value = sample_coin; address = 5 } ∷ [];
  transactions = [];
  v2 = some (record {
    height = 9200;
    commitment = 0;
    transactions =
        idle_with (encode sample_envelope)
        ∷ idle_with (encode (record { kind = 4; nonce = 9; keys = []; witness = 0 }))
        ∷ [];
  });
}

abbrev pub late_state : State
late_state = record sample_state { index = record { height = 9199; id = 4242 } }
