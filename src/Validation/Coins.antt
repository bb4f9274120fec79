-- ===== src/Validation/Coins.antt =====
-- core/consensus/validation.go: a transaction that passes spends no output twice, and pays out no
-- more than its inputs are worth.
use qday.Base.{
  ℕ, ◌+◌, ◌≤◌, ◌≡◌, sym, subst, ap, ◌∙◌, false, none, some, List, [], ◌∷◌, arith, All, length-zero,
}
use qday.Base.Options.{some-inj}
use qday.Base.Results.{
  Result, ok, ◌>>=◌, fail_if, or_panic, >>=-eq-ok, fail_if-eq-ok, ok-inj, or_panic-eq-ok,
}
use qday.Currency.{Currency, zero_currency, add, cmp, equals, is_zero}
use qday.Currency.Value.{value, IsCurrency, add-Exactly, Exactly}
use qday.Qday.Decay.{qday_value}
use qday.Qday.Decay.Course.{IsDecay, qday_value_mono}
use qday.Qday.Transaction.{is_unsupported}
use qday.State.{QdayParams, State, child_height}
use qday.Types.{
  SiacoinOutput, SiacoinElement, V2SiacoinInput, V2Transaction, V2FileContract,
  V2FileContractResolution,
}
use qday.Validation.{
  CoinError, zero_output, unbalanced, is_some, sum_inputs, sum_outputs, sum_contracts, sum_renewals,
  is_unbalanced, validate_balance,
}

-- What an output is worth to a spender at a height.
unfoldable pub spendable : State → ℕ → SiacoinElement → ℕ
spendable s height e = elim (qday_value s e height) [ none ↦ 0 | some c ↦ value c ]

unfoldable pub total_spendable : State → ℕ → List V2SiacoinInput → ℕ
unfolding spendable
total_spendable s height [] = 0
total_spendable s height (i ∷ is) = spendable s height i.parent + total_spendable s height is

unfoldable pub total_value : List SiacoinOutput → ℕ
total_value [] = 0
total_value (out ∷ outs) = value out.value + total_value outs

add-some :
    (a b s : Currency)
    → IsCurrency a
    → IsCurrency b
    → add a b ≡ some s
    → IsCurrency s × (value s ≡ value a + value b)
add-some a b s ha hb e = subst (Exactly (value a + value b)) e (add-Exactly a b ha hb)

sum_outputs_exact :
    (outs : List SiacoinOutput) (sum r : Currency)
    → IsCurrency sum
    → All (λ o. IsCurrency o.value) outs
    → sum_outputs outs sum ≡ ok r
    → IsCurrency r × (value r ≡ value sum + total_value outs)
unfolding sum_outputs total_value
sum_outputs_exact [] sum r h a e =
    let same : sum ≡ r = ok-inj e in (subst IsCurrency same h, omega (arith, ap value (sym same)))
sum_outputs_exact (out ∷ outs) sum r h (ho, a) e =
    let (u, z, e₁) =
      >>=-eq-ok (fail_if (is_zero out.value) zero_output)
        (λ u. or_panic (add sum out.value) >>= sum_outputs outs) e in
    let (sum', e₂, e₃) = >>=-eq-ok (or_panic (add sum out.value)) (sum_outputs outs) e₁ in
    let (ok', v) = add-some sum out.value sum' h ho (or_panic-eq-ok _ e₂) in
    let (r_ok, vr) = sum_outputs_exact outs sum' r ok' a e₃ in (r_ok, omega arith)

no_contracts :
    (txn : V2Transaction)
    → is_unsupported txn ≡ false
    → (txn.file_contracts ≡ []) × (txn.file_contract_resolutions ≡ [])
unfolding is_unsupported
no_contracts txn e = (
  length-zero txn.file_contracts (ground arith),
  length-zero txn.file_contract_resolutions (ground arith),
)

no_contract_sums :
    (fcs : List V2FileContract) (sum : Currency) → fcs ≡ [] → sum_contracts fcs sum ≡ ok sum
unfolding sum_contracts
no_contract_sums fcs sum e = ap (λ l. sum_contracts l sum) e

no_renewal_sums :
    (fcrs : List V2FileContractResolution) (a b : Currency)
    → fcrs ≡ []
    → sum_renewals fcrs (a, b) ≡ ok (a, b)
unfolding sum_renewals
no_renewal_sums fcrs a b e = ap (λ l. sum_renewals l (a, b)) e

module _ (s : State) (p : QdayParams) (here : s.network.qday ≡ some p) (hp : IsDecay p) where
  value_of :
      (e : SiacoinElement) (height : ℕ) (v : Currency)
      → IsCurrency e.siacoin_output.value
      → qday_value s e height ≡ some v
      → IsCurrency v × (spendable s height e ≡ value v)
  unfolding spendable
  value_of e height v he eq =
      let (c, c', ec, ec', c_ok, _, _) =
        qday_value_mono s e p here hp he height height (omega arith) in
      let same : c' ≡ v = some-inj (sym ec' ∙ eq) in
      (subst IsCurrency same c_ok, ground (arith, eq))

  sum_inputs_exact :
      (height : ℕ) (is : List V2SiacoinInput) (sum r : Currency)
      → IsCurrency sum
      → All (λ i. IsCurrency i.parent.siacoin_output.value) is
      → sum_inputs s height is sum ≡ ok r
      → IsCurrency r × (value r ≡ value sum + total_spendable s height is)
  unfolding sum_inputs total_spendable
  sum_inputs_exact height [] sum r h a e =
      let same : sum ≡ r = ok-inj e in (subst IsCurrency same h, omega (arith, ap value (sym same)))
  sum_inputs_exact height (i ∷ is) sum r h (hi, a) e =
      let (v, e₁, e₂) =
        >>=-eq-ok (or_panic (qday_value s i.parent height))
          (λ v. or_panic (add sum v) >>= sum_inputs s height is) e in
      let (sum', e₃, e₄) = >>=-eq-ok (or_panic (add sum v)) (sum_inputs s height is) e₂ in
      let (v_ok, worth) = value_of i.parent height v hi (or_panic-eq-ok _ e₁) in
      let (sum_ok, vs) = add-some sum v sum' h v_ok (or_panic-eq-ok _ e₃) in
      let (r_ok, vr) = sum_inputs_exact height is sum' r sum_ok a e₄ in (r_ok, omega arith)

  balanced_le :
      (inputs outputs : Currency)
      → IsCurrency inputs
      → IsCurrency outputs
      → is_unbalanced s inputs outputs ≡ false
      → value outputs ≤ value inputs
  unfolding is_unbalanced equals cmp value is_some
  balanced_le inputs outputs hi ho e = ground (arith, here)

  -- What is left of the check once there are no contracts: the fee.
  rest_of_balance : V2Transaction → Currency → Currency → Result CoinError (Unit {0})
  rest_of_balance txn inputs outputs = or_panic (add outputs txn.miner_fee) >>= λ total.
      fail_if (is_unbalanced s inputs total) unbalanced

  paid :
      (txn : V2Transaction) (inputs outputs : Currency)
      → IsCurrency inputs
      → IsCurrency outputs
      → IsCurrency txn.miner_fee
      → rest_of_balance txn inputs outputs ≡ ok tt
      → value outputs + value txn.miner_fee ≤ value inputs
  unfolding rest_of_balance
  paid txn inputs outputs hi ho hf e =
      let (total, e₁, e₂) = >>=-eq-ok (or_panic (add outputs txn.miner_fee)) _ e in
      let (t_ok, vt) = add-some outputs txn.miner_fee total ho hf (or_panic-eq-ok _ e₁) in
      omega (arith, balanced_le inputs total hi t_ok (fail_if-eq-ok _ _ e₂))

  -- A transfer that passes pays out, with its fee, no more than its inputs are worth at the height
  -- of the block that it is in.
  pub validate_balance_le :
      (txn : V2Transaction)
      → is_unsupported txn ≡ false
      → All (λ i. IsCurrency i.parent.siacoin_output.value) txn.siacoin_inputs
      → All (λ o. IsCurrency o.value) txn.siacoin_outputs
      → IsCurrency txn.miner_fee
      → validate_balance s txn ≡ ok tt
      → total_value txn.siacoin_outputs + value txn.miner_fee
        ≤ total_spendable s (child_height s) txn.siacoin_inputs
  unfolding validate_balance rest_of_balance
  validate_balance_le txn plain hi ho hf e =
      let zero_ok : IsCurrency zero_currency = record {
        low_word = omega arith;
        high_word = omega arith;
      } in
      let (inputs, e₁, r₁) =
        >>=-eq-ok (sum_inputs s (child_height s) txn.siacoin_inputs zero_currency) _ e in
      let (outputs, e₂, r₂) = >>=-eq-ok (sum_outputs txn.siacoin_outputs zero_currency) _ r₁ in
      let (a, va) =
        sum_inputs_exact (child_height s) txn.siacoin_inputs zero_currency inputs zero_ok hi e₁ in
      let (b, vb) = sum_outputs_exact txn.siacoin_outputs zero_currency outputs zero_ok ho e₂ in
      let (fcs, fcrs) = no_contracts txn plain in
      let c₁ = no_contract_sums txn.file_contracts outputs fcs in
      let c₂ = no_renewal_sums txn.file_contract_resolutions inputs outputs fcrs in
      omega (arith, paid txn inputs outputs a b hf (cc (r₂, c₁, c₂)))
