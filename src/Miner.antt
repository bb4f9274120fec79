-- ===== src/Miner.antt =====
-- coreutils/qday/miner.go: the candidate of a miner, without the search for its nonce.
pub mod Markers
pub mod Picked
pub mod Accepted
mod Examples
use qday.Base.{ℕ, ◌+◌, ◌%◌, Bool, Option, none, some, List, [], ◌∷◌, ◌++◌, ltb, if◌then◌else◌}
use qday.Base.Int.{ℤ}
use qday.Base.Options.{◌>>=◌}
use qday.Base.Results.{ok, err, panic}
use qday.Base.Words.{u64_mod}
use qday.Block.{Roots}
use qday.Currency
use qday.Currency.{Currency, zero_currency}
use qday.Ledger.{MidState, new_mid_state}
use qday.Ledger.Apply.{Ids, apply_v2_transaction}
use qday.Policy.{QdayKeys, keys_policy}
use qday.Policy.Verify.{address}
use qday.Qday.Envelope.{Envelope, encode, coinbase, mining_work}
use qday.State.{State, block_reward, qday_v1_active}
use qday.Types.{V2Transaction, Block}
use qday.Validation.Whole.{Rules, validate_v2_transaction, max_block_weight}
use qday.Wire.Elements.{unix, time_of}

-- A transaction with nothing but the bytes of an envelope.
unfoldable pub marker : Envelope → V2Transaction
unfolding encode
marker e = record {
  siacoin_inputs = [];
  siacoin_outputs = [];
  siafund_inputs = [];
  siafund_outputs = [];
  file_contracts = [];
  file_contract_revisions = [];
  file_contract_resolutions = [];
  attestations = [];
  arbitrary_data = encode e;
  new_foundation_address = none;
  miner_fee = zero_currency;
}

unfoldable pub coinbase_marker : QdayKeys → ℕ → V2Transaction
unfolding marker
coinbase_marker miner nonce =
    marker (record { kind = coinbase; nonce = nonce; keys = miner ∷ []; witness = 0 })

unfoldable pub work_marker : ℕ → V2Transaction
unfolding marker
work_marker nonce = marker (record { kind = mining_work; nonce = nonce; keys = []; witness = 0 })

-- What stands at the end of the block.
unfoldable pub closing : State → ℕ → List V2Transaction
unfolding work_marker
closing s nonce =
    if qday_v1_active s ((s.index.height + 1) % u64_mod) then work_marker nonce ∷ [] else []

module _ (rules : Rules) (ids : Ids) where
  -- The transactions that fit and are valid, and the payout with their fees; `none` is a panic.
  unfoldable pub pick :
      ℕ → Currency → MidState → List V2Transaction → Option (List V2Transaction × Currency)
  unfolding validate_v2_transaction apply_v2_transaction
  pick weight payout ms [] = some ([], payout)
  pick weight payout ms (txn ∷ txns) =
      let heavier = (weight + rules.v2_weight txn) % u64_mod in
      if ltb max_block_weight heavier
      then pick weight payout ms txns
      else elim (validate_v2_transaction rules ms txn) [
        | err why ↦ pick weight payout ms txns
        | panic ↦ none
        | ok done ↦ apply_v2_transaction ids txn ms >>= λ ms'.
            Currency.add payout txn.miner_fee >>= λ payout'.
            pick heavier payout' ms' txns >>= λ (picked, total). some (txn ∷ picked, total)
      ]

  -- `CandidateWithNonce`, the block without a nonce.
  unfoldable pub candidate : Roots → State → QdayKeys → List V2Transaction → ℤ → ℕ → Option Block
  unfolding coinbase_marker closing pick new_mid_state unix time_of keys_policy
  candidate r s miner txns timestamp marker_nonce =
      let first = coinbase_marker miner marker_nonce in
      let payee = address rules.crypto (keys_policy miner) in
      block_reward s >>= λ reward.
      pick ((rules.v2_weight first + 128) % u64_mod) reward (new_mid_state s) txns
      >>= λ (picked, total).
          let all = first ∷ (picked ++ closing s marker_nonce) in
          some (record {
            parent_id = s.index.id;
            nonce = 0;
            timestamp = time_of (unix timestamp);
            miner_payouts = record { value = total; address = payee } ∷ [];
            transactions = [];
            v2 = some (record {
              height = (s.index.height + 1) % u64_mod;
              commitment = r.commitment s payee [] all;
              transactions = all;
            });
          })
