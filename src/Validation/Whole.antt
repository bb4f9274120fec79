-- ===== src/Validation/Whole.antt =====
-- core/consensus/validation.go: ValidateV2Transaction.
use qday.Base.{ℕ, Bool, ltb, ◌==◌, if◌then◌else◌}
use qday.Base.Results.{Result, ok, ◌>>◌, fail_if, wrap}
use qday.Accumulator.{Accumulator}
use qday.Ledger.{MidState}
use qday.Policy.Crypto.{Crypto}
use qday.Qday.Transaction
use qday.Qday.Transaction.{Oracle, validate_qday_transaction}
use qday.State.{State, child_height}
use qday.Types.{SiacoinElement, SiafundElement, Attestation, V2Transaction}
use qday.Validation.{CoinError, is_some, validate_v2_siacoins}
use qday.Validation.Contracts.{ContractError, ContractOracle, validate_v2_file_contracts}
use qday.Validation.Overflow.{OverflowError, validate_currency_overflow}
use qday.Validation.Siafunds.{
  FundError, validate_v2_siafunds, validate_attestations, validate_foundation_update,
}

pub data InvalidTransaction : Type 0 where
  qday_error : Transaction.TransactionError → InvalidTransaction
  overflow_error : OverflowError → InvalidTransaction
  coin_error : CoinError → InvalidTransaction
  fund_error : FundError → InvalidTransaction
  contract_error : ContractError → InvalidTransaction
  not_allowed empty too_heavy : InvalidTransaction

-- What the rules for transactions take from other parts: the schemes, the accumulator, the hashes to
-- sign, and the length of an encoding.
pub record Rules : Type 0 where
  pub crypto : Crypto
  pub oracle : Oracle
  pub contracts : ContractOracle
  pub contains_unspent : Accumulator → SiacoinElement → Bool
  pub contains_spent : Accumulator → SiacoinElement → Bool
  pub contains_unspent_fund : Accumulator → SiafundElement → Bool
  pub contains_spent_fund : Accumulator → SiafundElement → Bool
  pub input_sig_hash : State → V2Transaction → ℕ
  pub attestation_sig_hash : State → Attestation → ℕ
  pub v2_weight : V2Transaction → ℕ

-- `MaxBlockWeight`
abbrev pub max_block_weight : ℕ
max_block_weight = 2000000

module _ (r : Rules) where
  -- The rules of QDAY, on its networks.
  unfoldable pub validate_network_rules :
      MidState → V2Transaction → Result InvalidTransaction (Unit {0})
  unfolding validate_qday_transaction is_some
  validate_network_rules ms txn =
      if is_some ms.base.network.qday
      then wrap qday_error (validate_qday_transaction r.oracle ms txn)
      else ok tt

  unfoldable pub validate_v2_transaction :
      MidState → V2Transaction → Result InvalidTransaction (Unit {0})
  unfolding validate_network_rules validate_currency_overflow validate_v2_siacoins
      validate_v2_siafunds validate_v2_file_contracts validate_attestations
      validate_foundation_update child_height
  validate_v2_transaction ms txn = do
    validate_network_rules ms txn
    fail_if (ltb (child_height ms.base) ms.base.network.v2_allow_height) not_allowed
    wrap overflow_error (validate_currency_overflow txn)
    fail_if (r.v2_weight txn == 0) empty
    fail_if (ltb max_block_weight (r.v2_weight txn)) too_heavy
    wrap coin_error (
        validate_v2_siacoins r.crypto r.contains_unspent r.contains_spent (r.input_sig_hash ms.base)
          ms txn)
    wrap fund_error (
        validate_v2_siafunds r.crypto r.contains_unspent_fund r.contains_spent_fund
          (r.input_sig_hash ms.base) ms txn)
    wrap contract_error (validate_v2_file_contracts r.crypto r.contracts ms txn)
    wrap fund_error
        (validate_attestations r.crypto (r.attestation_sig_hash ms.base) txn.attestations)
    wrap fund_error (validate_foundation_update ms txn)
