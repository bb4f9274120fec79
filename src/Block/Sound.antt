-- ===== src/Block/Sound.antt =====
-- core/consensus/validation.go: what a transaction that passes spends.
use qday.Base.{◌≡◌, refl, sym, subst, true, false, none, some, arith, All}
use qday.Base.Results.{ok, wrap-eq-ok}
use qday.Ledger.{MidState}
use qday.Qday.Accepted.{validate_qday_transaction_iff}
use qday.Qday.Transaction.{is_unsupported, is_idle, validate_qday_transaction}
use qday.State.{QdayParams}
use qday.Types.{V2Transaction}
use qday.Validation.{is_some, validate_v2_siacoins}
use qday.Validation.Spends.{Distinct, IsHybrid, validate_v2_siacoins-IsSpend, accepted-IsHybrid}
use qday.Validation.Whole.{Rules, validate_network_rules, validate_v2_transaction}
use qday.Block.Inputs.{Unspent, IsSpend-Unspent}
use qday.Block.Markers.{idle_parts}

module _ (rules : Rules) (p : QdayParams) where
  -- A transaction that is a marker or passes: it only moves coins, and its inputs spend different
  -- outputs that are not spent so far, each with both signatures.
  pub record IsSound (ms : MidState) (t : V2Transaction) : Type 0 where
    pub plain : is_unsupported t ≡ false
    pub distinct : Distinct t.siacoin_inputs
    pub unspent : Unspent ms t.siacoin_inputs
    pub hybrid : All (IsHybrid rules.crypto (rules.input_sig_hash ms.base t)) t.siacoin_inputs

  pub idle-IsSound : (ms : MidState) (t : V2Transaction) → is_idle t ≡ true → IsSound ms t
  idle-IsSound ms t idle =
      let (none', plain) = idle_parts t idle in
      record {
        plain = plain;
        distinct = subst Distinct (sym none') tt;
        unspent = subst (λ is. All (λ i. ms.spends i.parent.id ≡ none) is) (sym none') tt;
        hybrid =
            subst (All (IsHybrid rules.crypto (rules.input_sig_hash ms.base t))) (sym none') tt;
      }

  pub valid-IsSound :
      (ms : MidState) (t : V2Transaction)
      → ms.base.network.qday ≡ some p
      → validate_v2_transaction rules ms t ≡ ok tt
      → IsSound ms t
  unfolding validate_v2_transaction
  valid-IsSound ms t here v =
      let network : validate_network_rules rules ms t ≡ ok tt = ground (arith, v) in
      let siacoins : validate_v2_siacoins rules.crypto rules.contains_unspent rules.contains_spent
            (rules.input_sig_hash ms.base) ms t
          ≡ ok tt =
        ground (arith, v) in
      let is_qday : is_some ms.base.network.qday ≡ true = rw here (unfold is_some in refl) in
      let q =
        wrap-eq-ok _ (validate_qday_transaction rules.oracle ms t)
          (unfold validate_network_rules in (rw is_qday at network)) in
      let accepted = (validate_qday_transaction_iff rules.oracle ms p here t).0 q in
      let (distinct, spends) =
        validate_v2_siacoins-IsSpend rules.crypto rules.contains_unspent rules.contains_spent
          (rules.input_sig_hash ms.base) ms t siacoins in
      record {
        plain = accepted.plain;
        distinct = distinct;
        unspent =
            IsSpend-Unspent rules.crypto rules.contains_unspent rules.contains_spent
              (rules.input_sig_hash ms.base t) ms t.siacoin_inputs spends;
        hybrid =
            accepted-IsHybrid rules.crypto rules.oracle rules.contains_unspent rules.contains_spent
              (rules.input_sig_hash ms.base) ms p t here q siacoins;
      }
