-- ===== src/Validation/Payouts.antt =====
-- core/consensus/validation.go: validateMinerPayouts against the numbers.
use qday.Base.{
  ℕ, ◌+◌, ◌≡◌, sym, subst, ap, ◌∙◌, Bool, true, false, ◌&&◌, not, Option, none, some, List, [], ◌∷◌,
  ◌!=◌, length, arith, All,
}
use qday.Base.Options.{some-inj}
use qday.Base.Results.{
  ok, ◌>>=◌, ◌>>◌, fail_if, or_panic, >>=-eq-ok, fail_if-eq-ok, ok-inj, or_panic-eq-ok,
}
use qday.Currency.{Currency, zero_currency, add_with_overflow, equals, is_zero}
use qday.Currency.Value.{
  value, value-zero_currency, IsCurrency, add_with_overflow_exact, add_with_overflow-IsCurrency,
}
use qday.State.{State, block_reward}
use qday.Types.{SiacoinOutput, Transaction, V2Transaction, V2BlockData, Block}
use qday.Validation.{
  PayoutError, zero_fee, fees_overflow, v2_fees_overflow, several_payouts, zero_payout,
  payouts_overflow, is_some, add_checked, add_fees, add_all_fees, add_v2_fees, add_payouts,
  add_data_fees, validate_miner_payouts,
}
use qday.Validation.Coins.{total_value}

unfoldable pub total : List Currency → ℕ
total [] = 0
total (c ∷ cs) = value c + total cs

unfoldable pub total_fees : List Transaction → ℕ
unfolding total
total_fees [] = 0
total_fees (t ∷ ts) = total t.miner_fees + total_fees ts

unfoldable pub total_v2_fees : List V2Transaction → ℕ
total_v2_fees [] = 0
total_v2_fees (t ∷ ts) = value t.miner_fee + total_v2_fees ts

-- The transactions of the second version.
abbrev pub v2_transactions : Option V2BlockData → List V2Transaction
v2_transactions none = []
v2_transactions (some d) = d.transactions

-- Amounts are in range.
pub record IsBlock (b : Block) : Type 0 where
  pub fees : All (λ t. All IsCurrency t.miner_fees) b.transactions
  pub v2_fees : All (λ t. IsCurrency t.miner_fee) (v2_transactions b.v2)
  pub payouts : All (λ o. IsCurrency o.value) b.miner_payouts

equals_value : (a b : Currency) → equals a b ≡ true → value a ≡ value b
unfolding equals value
equals_value a b e = ground arith

add_checked_exact :
    (x : PayoutError) (a b r : Currency)
    → IsCurrency a
    → IsCurrency b
    → add_checked x a b ≡ ok r
    → IsCurrency r × (value r ≡ value a + value b)
unfolding add_checked
add_checked_exact x a b r ha hb e =
    let (_, exact, _) = add_with_overflow_exact a b ha hb in
    let fits : (add_with_overflow a b).1 ≡ false = ground arith in
    let same : (add_with_overflow a b).0 ≡ r = ok-inj {E = PayoutError} (ground (arith, fits)) in
    (
      subst IsCurrency same (add_with_overflow-IsCurrency a b),
      subst (λ t. value t ≡ value a + value b) same (exact fits),
    )

add_fees_exact :
    (fees : List Currency) (sum r : Currency)
    → IsCurrency sum
    → All IsCurrency fees
    → add_fees fees sum ≡ ok r
    → IsCurrency r × (value r ≡ value sum + total fees)
unfolding add_fees total
add_fees_exact [] sum r h a e =
    let same : sum ≡ r = ok-inj e in (subst IsCurrency same h, omega (arith, ap value (sym same)))
add_fees_exact (fee ∷ fees) sum r h (hf, a) e =
    let (u, z, e₁) =
      >>=-eq-ok (fail_if (is_zero fee) zero_fee)
        (λ u. add_checked fees_overflow sum fee >>= add_fees fees) e in
    let (sum', e₂, e₃) = >>=-eq-ok (add_checked fees_overflow sum fee) (add_fees fees) e₁ in
    let (s_ok, vs) = add_checked_exact fees_overflow sum fee sum' h hf e₂ in
    let (r_ok, vr) = add_fees_exact fees sum' r s_ok a e₃ in (r_ok, omega arith)

add_all_fees_exact :
    (txns : List Transaction) (sum r : Currency)
    → IsCurrency sum
    → All (λ t. All IsCurrency t.miner_fees) txns
    → add_all_fees txns sum ≡ ok r
    → IsCurrency r × (value r ≡ value sum + total_fees txns)
unfolding add_all_fees total_fees
add_all_fees_exact [] sum r h a e =
    let same : sum ≡ r = ok-inj e in (subst IsCurrency same h, omega (arith, ap value (sym same)))
add_all_fees_exact (t ∷ ts) sum r h (ht, a) e =
    let (sum', e₂, e₃) = >>=-eq-ok (add_fees t.miner_fees sum) (add_all_fees ts) e in
    let (s_ok, vs) = add_fees_exact t.miner_fees sum sum' h ht e₂ in
    let (r_ok, vr) = add_all_fees_exact ts sum' r s_ok a e₃ in (r_ok, omega arith)

add_v2_fees_exact :
    (txns : List V2Transaction) (sum r : Currency)
    → IsCurrency sum
    → All (λ t. IsCurrency t.miner_fee) txns
    → add_v2_fees txns sum ≡ ok r
    → IsCurrency r × (value r ≡ value sum + total_v2_fees txns)
unfolding add_v2_fees total_v2_fees
add_v2_fees_exact [] sum r h a e =
    let same : sum ≡ r = ok-inj e in (subst IsCurrency same h, omega (arith, ap value (sym same)))
add_v2_fees_exact (t ∷ ts) sum r h (ht, a) e =
    let (sum', e₂, e₃) =
      >>=-eq-ok (add_checked v2_fees_overflow sum t.miner_fee) (add_v2_fees ts) e in
    let (s_ok, vs) = add_checked_exact v2_fees_overflow sum t.miner_fee sum' h ht e₂ in
    let (r_ok, vr) = add_v2_fees_exact ts sum' r s_ok a e₃ in (r_ok, omega arith)

add_payouts_exact :
    (q : Bool) (mps : List SiacoinOutput) (sum r : Currency)
    → IsCurrency sum
    → All (λ o. IsCurrency o.value) mps
    → add_payouts q mps sum ≡ ok r
    → IsCurrency r × (value r ≡ value sum + total_value mps)
unfolding add_payouts total_value
add_payouts_exact q [] sum r h a e =
    let same : sum ≡ r = ok-inj e in (subst IsCurrency same h, omega (arith, ap value (sym same)))
add_payouts_exact q (mp ∷ mps) sum r h (hm, a) e =
    let (u, z, e₁) =
      >>=-eq-ok (fail_if (is_zero mp.value && not q) zero_payout)
        (λ u. add_checked payouts_overflow sum mp.value >>= add_payouts q mps) e in
    let (sum', e₂, e₃) =
      >>=-eq-ok (add_checked payouts_overflow sum mp.value) (add_payouts q mps) e₁ in
    let (s_ok, vs) = add_checked_exact payouts_overflow sum mp.value sum' h hm e₂ in
    let (r_ok, vr) = add_payouts_exact q mps sum' r s_ok a e₃ in (r_ok, omega arith)

add_data_fees_exact :
    (v2 : Option V2BlockData) (n : ℕ) (sum r : Currency)
    → IsCurrency sum
    → All (λ t. IsCurrency t.miner_fee) (v2_transactions v2)
    → add_data_fees v2 n sum ≡ ok r
    → IsCurrency r × (value r ≡ value sum + total_v2_fees (v2_transactions v2))
unfolding add_data_fees total_v2_fees
add_data_fees_exact none n sum r h a e =
    let same : sum ≡ r = ok-inj e in (subst IsCurrency same h, omega (arith, ap value (sym same)))
add_data_fees_exact (some d) n sum r h a e =
    let (sum', e₁, e₂) =
      >>=-eq-ok (add_v2_fees d.transactions sum)
        (λ sum'. fail_if (n != 1) several_payouts >> ok sum') e in
    let (u, e₃, e₄) = >>=-eq-ok (fail_if (n != 1) several_payouts) (λ u. ok sum') e₂ in
    let (s_ok, vs) = add_v2_fees_exact d.transactions sum sum' h a e₁ in
    let same : sum' ≡ r = ok-inj e₄ in
    (subst IsCurrency same s_ok, omega (arith, ap value (sym same)))

-- A block that passes pays its miners the reward and all fees of its transactions, to the hasting.
pub validate_miner_payouts_exact :
    (s : State) (b : Block) (reward : Currency)
    → block_reward s ≡ some reward
    → IsCurrency reward
    → IsBlock b
    → validate_miner_payouts s b ≡ ok tt
    → total_value b.miner_payouts
      ≡ value reward + total_fees b.transactions + total_v2_fees (v2_transactions b.v2)
unfolding validate_miner_payouts
validate_miner_payouts_exact s b reward er hr hb e =
    let zero_ok : IsCurrency zero_currency = record {
      low_word = omega arith;
      high_word = omega arith;
    } in
    let (reward', e₁, r₁) = >>=-eq-ok (or_panic (block_reward s)) _ e in
    let same : reward' ≡ reward = some-inj (sym (or_panic-eq-ok _ e₁) ∙ er) in
    let (fees, e₂, r₂) = >>=-eq-ok (add_all_fees b.transactions reward') _ r₁ in
    let (expected, e₃, r₃) = >>=-eq-ok (add_data_fees b.v2 (length b.miner_payouts) fees) _ r₂ in
    let (sum, e₄, r₄) =
      >>=-eq-ok (add_payouts (is_some s.network.qday) b.miner_payouts zero_currency) _ r₃ in
    let (f_ok, vf) =
      add_all_fees_exact b.transactions reward' fees (subst IsCurrency (sym same) hr) hb.fees e₂ in
    let (x_ok, vx) =
      add_data_fees_exact b.v2 (length b.miner_payouts) fees expected f_ok hb.v2_fees e₃ in
    let (s_ok, vs) =
      add_payouts_exact (is_some s.network.qday) b.miner_payouts zero_currency sum zero_ok
        hb.payouts e₄ in
    let equal = equals_value sum expected (ground (arith, fail_if-eq-ok _ _ r₄)) in
    omega (arith, ap value same, equal, value-zero_currency)
