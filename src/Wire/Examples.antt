-- ===== src/Wire/Examples.antt =====
-- core/types/encoding.go: the theorems on encodings at a transfer.
use qday.Base.{ℕ, zero, suc, ◌≡◌, refl, some, [], ◌∷◌, All, arith}
use qday.Policy.{keys_policy}
use qday.Policy.Sample.{sample_keys, replicate}
use qday.Qday.Sample.{sample_transfer, sample_element}
use qday.Qday.Transaction.{is_unsupported}
use qday.Types.{V2Transaction}
use qday.Wire.{write_slice, write_items}
use qday.Wire.Elements.{IsHash}
use qday.Wire.Values.{InSiacoinElement}
use qday.Wire.PolicyTrip.{InPolicy, InNode}
use qday.Wire.Transactions.{write_v2_transaction, read_v2_transaction}
use qday.Wire.TransactionTrip.{InV2Transaction, read_v2_transaction-write_v2_transaction}
use qday.Wire.Semantics.{write_semantics, input_ids, InTransfer, write_semantics-inj}

element_ok : InSiacoinElement sample_element
element_ok = record {
  id = omega arith;
  state_element = record { leaf_index = omega arith; merkle_proof = (omega arith, tt) };
  siacoin_output = record {
    value = record { lo = omega arith; hi = omega arith };
    address = omega arith;
  };
  maturity_height = omega arith;
}

zeros_ok : (n : ℕ) → All IsHash (replicate n 0)
zeros_ok zero = tt
zeros_ok (suc n) = (omega arith, zeros_ok n)

policy_ok : InPolicy (keys_policy sample_keys)
unfolding InNode keys_policy
policy_ok = (omega arith, omega arith, (omega arith, (omega arith, tt)))

transfer_ok : InV2Transaction sample_transfer
transfer_ok = record {
  siacoin_inputs = (
    omega arith,
    (
      record {
        parent = element_ok;
        satisfied_policy = record {
          policy = policy_ok;
          signatures = (omega arith, (omega arith, tt));
          preimages = (omega arith, zeros_ok 246);
        };
      },
      tt,
    ),
  );
  siacoin_outputs = (
    omega arith,
    (record { value = record { lo = omega arith; hi = omega arith }; address = omega arith }, tt),
  );
  siafund_inputs = (omega arith, tt);
  siafund_outputs = (omega arith, tt);
  file_contracts = (omega arith, tt);
  file_contract_revisions = (omega arith, tt);
  file_contract_resolutions = (omega arith, tt);
  attestations = (omega arith, tt);
  arbitrary_data = omega arith;
  new_foundation_address = λ a e. cc e;
  miner_fee = record { lo = omega arith; hi = omega arith };
}

read_v2_transaction-write_v2_transaction_example :
    read_v2_transaction (write_v2_transaction sample_transfer (7 ∷ []))
    ≡ some (sample_transfer, 7 ∷ [])
read_v2_transaction-write_v2_transaction_example =
    read_v2_transaction-write_v2_transaction sample_transfer (7 ∷ []) transfer_ok

-- The transfer before its input is signed.
abbrev unsigned_transfer : V2Transaction
unsigned_transfer = record sample_transfer {
  siacoin_inputs =
      record {
        parent = sample_element;
        satisfied_policy = record {
          policy = keys_policy sample_keys;
          signatures = [];
          preimages = [];
        };
      }
      ∷ [];
}

signed_ok : InTransfer sample_transfer
signed_ok = record {
  ids = (omega arith, (omega arith, tt));
  outputs = (
    omega arith,
    (record { value = record { lo = omega arith; hi = omega arith }; address = omega arith }, tt),
  );
  payload = omega arith;
  fee = record { lo = omega arith; hi = omega arith };
}

unsigned_ok : InTransfer unsigned_transfer
unsigned_ok = record {
  ids = signed_ok.ids;
  outputs = signed_ok.outputs;
  payload = signed_ok.payload;
  fee = signed_ok.fee;
}

same_semantics : write_semantics sample_transfer [] ≡ write_semantics unsigned_transfer []
unfolding write_semantics write_slice write_items
same_semantics = refl

write_semantics-inj_example :
    (input_ids sample_transfer.siacoin_inputs ≡ input_ids unsigned_transfer.siacoin_inputs)
    × (sample_transfer.siacoin_outputs ≡ unsigned_transfer.siacoin_outputs)
    × (sample_transfer.arbitrary_data ≡ unsigned_transfer.arbitrary_data)
    × (sample_transfer.miner_fee ≡ unsigned_transfer.miner_fee)
write_semantics-inj_example =
    write_semantics-inj sample_transfer unsigned_transfer (unfold is_unsupported in refl)
      (unfold is_unsupported in refl) signed_ok unsigned_ok same_semantics
