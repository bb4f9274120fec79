-- ===== src/Validation/Overflow.antt =====
-- core/consensus/validation.go: validateV2CurrencyOverflow.
use qday.Base.{
  ℕ, ◌+◌, ◌≤◌, ◌<◌, ◌≡◌, refl, sym, subst, ap, ◌∙◌, ◌⊎◌, ◌↔◌, Bool, true, false, ◌||◌, Option, none,
  some, List, [], ◌∷◌, ltb, arith, All, Bool-cases, length-zero, inl, inr, if◌then◌else◌,
}
use qday.Base.Words.{u128_mod}
use qday.Base.Options.{◌>>=◌}
use qday.Base.Results.{Result, ok, err, panic}
use qday.Currency.{Currency, zero_currency, add_with_overflow}
use qday.Currency.Value.{
  value, value-zero_currency, value-lt, IsCurrency, add_with_overflow_exact,
  add_with_overflow-IsCurrency,
}
use qday.Ledger.{contract_tax}
use qday.Qday.Transaction.{is_unsupported}
use qday.Types.{
  SiacoinOutput, SiafundOutput, V2FileContract, V2FileContractRevision, V2FileContractResolution,
  renewal, storage_proof, expiration, V2Transaction,
}
use qday.Validation.Coins.{total_value}

-- The sum so far and its flag.
pub record Running : Type 0 where
  pub sum : Currency
  pub overflow : Bool

-- `SiafundCount`
abbrev pub siafund_count : ℕ
siafund_count = 10000

unfoldable joined : Currency × Bool → Running
joined t = record { sum = t.0; overflow = t.1 }

unfoldable pub add_amount : Currency → Running → Running
unfolding joined
add_amount x r = if r.overflow then r else joined (add_with_overflow r.sum x)

-- `none` is a panic of the tax.
unfoldable pub add_terms : V2FileContract → Running → Option Running
unfolding add_amount
add_terms fc r =
    let all = add_amount fc.total_collateral (
      add_amount fc.missed_host_value
        (add_amount fc.host_output.value (add_amount fc.renter_output.value r))) in
    if (add_with_overflow fc.renter_output.value fc.host_output.value).1
    then some (record all { overflow = true })
    else (contract_tax fc >>= λ tax. some (add_amount tax all))

unfoldable pub add_outputs : List SiacoinOutput → Running → Running
unfolding add_amount
add_outputs [] r = r
add_outputs (out ∷ outs) r = add_outputs outs (add_amount out.value r)

unfoldable pub check_funds : List SiafundOutput → Running → Running
check_funds [] r = r
check_funds (out ∷ outs) r =
    check_funds outs (record r { overflow = r.overflow || ltb siafund_count out.value })

unfoldable pub add_contracts : List V2FileContract → Running → Option Running
unfolding add_terms
add_contracts [] r = some r
add_contracts (fc ∷ fcs) r = add_terms fc r >>= λ r'. add_contracts fcs r'

unfoldable pub add_revisions : List V2FileContractRevision → Running → Option Running
unfolding add_terms
add_revisions [] r = some r
add_revisions (fcr ∷ fcrs) r = add_terms fcr.revision r >>= λ r'. add_revisions fcrs r'

unfoldable pub add_resolution : V2FileContractResolution → Running → Option Running
unfolding add_terms add_amount
add_resolution fcr r = elim fcr.resolution [
  | storage_proof p ↦ some r
  | expiration ↦ some r
  | renewal n ↦ add_terms n.new_contract r >>= λ r'. some (
      add_amount n.host_rollover (
        add_amount n.renter_rollover
          (add_amount n.final_host_output.value (add_amount n.final_renter_output.value r'))))
]

unfoldable pub add_resolutions : List V2FileContractResolution → Running → Option Running
unfolding add_resolution
add_resolutions [] r = some r
add_resolutions (fcr ∷ fcrs) r = add_resolution fcr r >>= λ r'. add_resolutions fcrs r'

-- All amounts of a transaction, the fee last.
unfoldable pub sum_amounts : V2Transaction → Option Running
unfolding add_outputs check_funds add_contracts add_revisions add_resolutions
sum_amounts txn =
    let start : Running = record { sum = zero_currency; overflow = false } in
    let outs = check_funds txn.siafund_outputs (add_outputs txn.siacoin_outputs start) in
    add_contracts txn.file_contracts outs >>= λ r.
    add_revisions txn.file_contract_revisions r >>= λ r'.
    add_resolutions txn.file_contract_resolutions r' >>= λ r''. some (add_amount txn.miner_fee r'')

pub data OverflowError : Type 0 where
  exceeds_inputs : OverflowError

unfoldable pub validate_currency_overflow : V2Transaction → Result OverflowError (Unit {0})
unfolding sum_amounts
validate_currency_overflow txn = elim (sum_amounts txn) [
  | none ↦ panic
  | some r ↦ (if r.overflow then err exceeds_inputs else ok tt)
]

-- The flag says whether the amounts so far, whose sum is n, leave 128 bits.
Counts : ℕ → Running → Type 0
Counts n r =
    IsCurrency r.sum
    × (((r.overflow ≡ false) × (value r.sum ≡ n)) ⊎ ((r.overflow ≡ true) × (u128_mod ≤ n)))

add_amount_full : (x : Currency) (r : Running) → r.overflow ≡ true → add_amount x r ≡ r
unfolding add_amount
add_amount_full x r o = ground (arith, o)

add_amount_free :
    (x : Currency) (r : Running)
    → r.overflow ≡ false
    → add_amount x r ≡ joined (add_with_overflow r.sum x)
unfolding add_amount
add_amount_free x r o = ground (arith, o)

add_amount-Counts :
    (n : ℕ) (x : Currency) (r : Running)
    → IsCurrency x
    → Counts n r
    → Counts (n + value x) (add_amount x r)
unfolding Counts joined
add_amount-Counts n x r hx (hr, inr (o, big)) =
    subst (Counts (n + value x)) (sym (add_amount_full x r o)) (hr, inr (o, omega (arith, big)))
add_amount-Counts n x r hx (hr, inl (o, same)) =
    let (flag, exact, wraps) = add_with_overflow_exact r.sum x hr hx in
    subst (Counts (n + value x)) (sym (add_amount_free x r o)) (
      add_with_overflow-IsCurrency r.sum x,
      elim (Bool-cases (add_with_overflow r.sum x).1) [
        | inr f ↦ inl (f, exact f ∙ ap (λ m. m + value x) same)
        | inl t ↦ inr (t, omega (arith, wraps t, same))
      ],
    )

add_outputs-Counts :
    (outs : List SiacoinOutput) (n : ℕ) (r : Running)
    → All (λ o. IsCurrency o.value) outs
    → Counts n r
    → Counts (n + total_value outs) (add_outputs outs r)
unfolding add_outputs total_value
add_outputs-Counts [] n r a c = subst (λ m. Counts m r) (omega arith) c
add_outputs-Counts (out ∷ outs) n r (ho, a) c =
    subst (λ m. Counts m (add_outputs outs (add_amount out.value r))) (omega arith)
      (add_outputs-Counts outs (n + value out.value) (add_amount out.value r) a
        (add_amount-Counts n out.value r ho c))

abbrev start : Running
start = record { sum = zero_currency; overflow = false }

sum_amounts-transfer :
    (txn : V2Transaction)
    → is_unsupported txn ≡ false
    → sum_amounts txn ≡ some (add_amount txn.miner_fee (add_outputs txn.siacoin_outputs start))
unfolding sum_amounts is_unsupported check_funds add_contracts add_revisions add_resolutions
sum_amounts-transfer txn plain =
    let outs = add_outputs txn.siacoin_outputs start in
    let funds : check_funds txn.siafund_outputs outs ≡ outs =
      ap (λ l. check_funds l outs) (length-zero txn.siafund_outputs (ground (arith, plain))) in
    let contracts : add_contracts txn.file_contracts outs ≡ some outs =
      ap (λ l. add_contracts l outs) (length-zero txn.file_contracts (ground (arith, plain))) in
    let revisions : add_revisions txn.file_contract_revisions outs ≡ some outs =
      ap (λ l. add_revisions l outs)
        (length-zero txn.file_contract_revisions (ground (arith, plain))) in
    let resolutions : add_resolutions txn.file_contract_resolutions outs ≡ some outs =
      ap (λ l. add_resolutions l outs)
        (length-zero txn.file_contract_resolutions (ground (arith, plain))) in
    cc (funds, contracts, revisions, resolutions)

checked_iff :
    (txn : V2Transaction) (r : Running) (n : ℕ)
    → sum_amounts txn ≡ some r
    → Counts n r
    → (validate_currency_overflow txn ≡ ok tt) ↔ (n < u128_mod)
unfolding validate_currency_overflow Counts
checked_iff txn r n e (h, inl (o, same)) =
    ((λ k. omega (arith, same, value-lt r.sum h)), (λ k. ground (arith, e, o)))
checked_iff txn r n e (h, inr (o, big)) =
    ((λ k. absurd (ground (arith, e, o, k))), (λ k. absurd (omega (arith, big, k))))

-- A transaction without siafunds and contracts, whose amounts are in range, passes the check for
-- overflow exactly if its siacoin outputs and its fee add up to less than 2 ^ 128.
pub validate_currency_overflow_iff :
    (txn : V2Transaction)
    → is_unsupported txn ≡ false
    → All (λ o. IsCurrency o.value) txn.siacoin_outputs
    → IsCurrency txn.miner_fee
    → (validate_currency_overflow txn ≡ ok tt)
      ↔ (total_value txn.siacoin_outputs + value txn.miner_fee < u128_mod)
unfolding Counts
validate_currency_overflow_iff txn plain ho hf =
    let zero_ok : IsCurrency zero_currency = record {
      low_word = omega arith;
      high_word = omega arith;
    } in
    let outs = add_outputs txn.siacoin_outputs start in
    let counts : Counts (total_value txn.siacoin_outputs) outs =
      subst (λ m. Counts m outs) (omega arith)
        (add_outputs-Counts txn.siacoin_outputs 0 start ho
          (zero_ok, inl (refl, value-zero_currency))) in
    checked_iff txn (add_amount txn.miner_fee outs) _ (sum_amounts-transfer txn plain)
      (add_amount-Counts (total_value txn.siacoin_outputs) txn.miner_fee outs hf counts)
