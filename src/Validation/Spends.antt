-- ===== src/Validation/Spends.antt =====
-- core/consensus/validation.go and core/consensus/qday.go: the inputs of a transaction that passes.
use qday.Base.{
  ℕ, ◌+◌, ◌<◌, ◌⊎◌, ◌==◌, ==_iff, Bool-cases, get_elem?, true, ltb, ◌≤◌, ◌≡◌, ◌≢◌, inl, inr, Bool,
  Option, none, some, List, [], ◌∷◌, arith, All, Option-cases,
}
use qday.Base.Int.{ℤ}
use qday.Base.Results.{ok, wrap-eq-ok}
use qday.Accumulator.{Accumulator}
use qday.Header.{median_timestamp}
use qday.Ledger.{MidState, SiacoinElementDiff, unassigned_leaf_index, insert}
use qday.Policy.{QdayKeys}
use qday.Policy.Crypto.{Crypto}
use qday.Policy.Hybrid.{Signed, verify-Signed}
use qday.Policy.Verify.{address, verify}
use qday.Qday.Accepted.{MaySpend, validate_qday_transaction_iff}
use qday.Qday.Transaction.{Oracle, validate_qday_transaction}
use qday.State.{QdayParams, child_height}
use qday.Currency.{equals}
use qday.Types.{SiacoinElement, SiacoinOutput, V2SiacoinInput, V2Transaction}
use qday.Validation.{
  policy_error, same_output, created_diff, validate_ephemeral, validate_inputs, validate_element,
  validate_spend_policy, validate_v2_siacoins,
}

-- No two inputs spend the same output.
abbrev pub Distinct : List V2SiacoinInput → Type 0
Distinct [] = Unit
Distinct (i ∷ is) = All (λ j. j.parent.id ≢ i.parent.id) is × Distinct is

Fresh : (ℕ → Option ℕ) → List V2SiacoinInput → Type 0
Fresh spent is = All (λ i. spent i.parent.id ≡ none) is

-- An output that the block has created, with its value, address and maturity height from the
-- height on at which the network asks for them.
pub record IsCreated (ms : MidState) (e : SiacoinElement) : Type 0 where
  pub index : ℕ
  pub mapped : ms.elements e.id ≡ some index
  pub diff : SiacoinElementDiff
  pub at_index : get_elem? ms.sces index ≡ some diff
  pub created : diff.created ≡ true
  pub same :
      (child_height ms.base < ms.base.network.v2_ephemeral_output_height)
      ⊎ ((e.id ≡ diff.siacoin_element.id)
          × (e.siacoin_output ≡ diff.siacoin_element.siacoin_output)
          × (e.maturity_height ≡ diff.siacoin_element.maturity_height))

-- An output that is created in the block, or that the accumulator contains as unspent.
abbrev pub IsKnown : (Accumulator → SiacoinElement → Bool) → MidState → SiacoinElement → Type 0
IsKnown contains_unspent ms e =
    ((e.state_element.leaf_index ≡ unassigned_leaf_index) × IsCreated ms e)
    ⊎ (contains_unspent ms.base.elements e ≡ true)

same_output-eq : (a b : SiacoinOutput) → same_output a b ≡ true → a ≡ b
unfolding same_output equals
same_output-eq a b e =
    let lo : a.value.lo ≡ b.value.lo = ground (arith, e) in
    let hi : a.value.hi ≡ b.value.hi = ground (arith, e) in
    let address : a.address ≡ b.address = ground (arith, e) in
    λ i. record { value = record { lo = lo i; hi = hi i }; address = address i }

validate_ephemeral-IsCreated :
    (ms : MidState) (e : SiacoinElement) → validate_ephemeral ms e ≡ ok tt → IsCreated ms e
unfolding validate_ephemeral created_diff
validate_ephemeral-IsCreated ms e v = elim (Option-cases (ms.elements e.id)) [
  | inl n ↦ ground (arith, v, n)
  | inr (j, n) ↦ elim (Option-cases (get_elem? ms.sces j)) [
    | inl m ↦ ground (arith, v, n, m)
    | inr (d, m) ↦ record {
      index = j;
      mapped = n;
      diff = d;
      at_index = m;
      created = ground (arith, v, n, m);
      same =
          elim (Bool-cases
            (ltb (child_height ms.base) ms.base.network.v2_ephemeral_output_height)) [
              | inl early ↦ inl (ground (arith, early))
              | inr late ↦ inr (
                ground (arith, v, n, m, late),
                same_output-eq _ _ (ground (arith, v, n, m, late)),
                ground (arith, v, n, m, late),
              )
            ];
    }
  ]
]

validate_element-IsKnown :
    (c : Crypto) (contains_unspent contains_spent : Accumulator → SiacoinElement → Bool)
    (ms : MidState) (e : SiacoinElement)
    → validate_element c contains_unspent contains_spent ms e ≡ ok tt
    → IsKnown contains_unspent ms e
unfolding validate_element
validate_element-IsKnown c contains_unspent contains_spent ms e v =
    elim (Bool-cases (e.state_element.leaf_index == unassigned_leaf_index)) [
      | inl new ↦
          inl ((==_iff _ _).0 new, validate_ephemeral-IsCreated ms e (ground (arith, v, new)))
      | inr old ↦ elim (Bool-cases (contains_unspent ms.base.elements e)) [
        | inl found ↦ inr found
        | inr lost ↦ absurd (ground (arith, v, old, lost))
      ]
    ]

module _ (c : Crypto) (contains_unspent contains_spent : Accumulator → SiacoinElement → Bool)
    (ms : MidState) (sig_hash : ℕ) where
  -- An input that passes: its output is not spent in the block, mature and known, and the policy is
  -- the output's and is satisfied at the height of the chain and the median of its timestamps.
  pub record IsSpend (i : V2SiacoinInput) : Type 0 where
    pub unspent : ms.spends i.parent.id ≡ none
    pub mature : i.parent.maturity_height ≤ child_height ms.base
    pub known : IsKnown contains_unspent ms i.parent
    pub committed : address c i.satisfied_policy.policy ≡ i.parent.siacoin_output.address
    pub median : ℤ
    pub median_of : median_timestamp ms.base ≡ some median
    pub satisfied :
        verify c ms.base.index.height median sig_hash i.satisfied_policy.policy
          i.satisfied_policy.signatures i.satisfied_policy.preimages
        ≡ ok tt

  validate_spend_policy-IsSpend :
      (i : V2SiacoinInput)
      → ms.spends i.parent.id ≡ none
      → i.parent.maturity_height ≤ child_height ms.base
      → validate_element c contains_unspent contains_spent ms i.parent ≡ ok tt
      → validate_spend_policy c ms sig_hash i.satisfied_policy i.parent.siacoin_output.address
        ≡ ok tt
      → IsSpend i
  unfolding validate_spend_policy
  validate_spend_policy-IsSpend i u m k e = elim (Option-cases (median_timestamp ms.base)) [
    | inl n ↦ ground (arith, n)
    | inr (median, n) ↦ record {
      unspent = u;
      mature = m;
      known = validate_element-IsKnown c contains_unspent contains_spent ms i.parent k;
      committed = ground (arith, n);
      median = median;
      median_of = n;
      satisfied = wrap-eq-ok policy_error _ (ground (arith, n));
    }
  ]

  Fresh-rest :
      (spent : ℕ → Option ℕ) (id n : ℕ) (is : List V2SiacoinInput)
      → Fresh (insert spent id n) is
      → Fresh spent is × All (λ j. j.parent.id ≢ id) is
  unfolding Fresh insert
  Fresh-rest spent id n [] f = (tt, tt)
  Fresh-rest spent id n (j ∷ is) (e, f) =
      let (a, b) = Fresh-rest spent id n is f in ((ground arith, a), (ground arith, b))

  validate_inputs-IsSpend :
      (spent : ℕ → Option ℕ) (n : ℕ) (is : List V2SiacoinInput)
      → validate_inputs c contains_unspent contains_spent ms sig_hash spent n is ≡ ok tt
      → Fresh spent is × Distinct is × All IsSpend is
  unfolding validate_inputs Fresh
  validate_inputs-IsSpend spent n [] e = (tt, tt, tt)
  validate_inputs-IsSpend spent n (i ∷ is) e =
      let rest = validate_inputs-IsSpend (insert spent i.parent.id n) (n + 1) is (ground arith) in
      let (fresh, apart) = Fresh-rest spent i.parent.id n is rest.0 in
      let spend =
        validate_spend_policy-IsSpend i (ground arith) (ground arith) (ground arith)
          (ground arith) in
      ((ground arith, fresh), (apart, rest.1), (spend, rest.2))

pub validate_v2_siacoins-IsSpend :
    (c : Crypto) (contains_unspent contains_spent : Accumulator → SiacoinElement → Bool)
    (input_sig_hash : V2Transaction → ℕ) (ms : MidState) (txn : V2Transaction)
    → validate_v2_siacoins c contains_unspent contains_spent input_sig_hash ms txn ≡ ok tt
    → Distinct txn.siacoin_inputs
      × All (IsSpend c contains_unspent contains_spent ms (input_sig_hash txn)) txn.siacoin_inputs
unfolding validate_v2_siacoins
validate_v2_siacoins-IsSpend c u s input_sig_hash ms txn e =
    let (_, distinct, spends) =
      validate_inputs-IsSpend c u s ms (input_sig_hash txn) (λ id. none) 0 txn.siacoin_inputs
        (ground arith) in
    (distinct, spends)

-- Both signatures of an input.
abbrev pub IsHybrid : Crypto → ℕ → V2SiacoinInput → Type 0
IsHybrid c h i =
    (k : QdayKeys) × Signed c h k i.satisfied_policy.signatures i.satisfied_policy.preimages

IsHybrid-inputs :
    (c : Crypto) (u s : Accumulator → SiacoinElement → Bool) (ms : MidState) (h : ℕ) (v1 : Bool)
    (is : List V2SiacoinInput)
    → All (MaySpend v1) is
    → All (IsSpend c u s ms h) is
    → All (IsHybrid c h) is
IsHybrid-inputs c u s ms h v1 [] m a = tt
IsHybrid-inputs c u s ms h v1 (i ∷ is) (m, ms') (a, rest) =
    let (k, _, signed) =
      verify-Signed c h ms.base.index.height a.median i.satisfied_policy.policy
        i.satisfied_policy.signatures i.satisfied_policy.preimages (ground (arith, m))
        a.satisfied in
    ((k, signed), IsHybrid-inputs c u s ms h v1 is ms' rest)

-- Every input of a transaction that QDAY accepts carries exactly one Ed25519 signature and a full
-- SLH-DSA signature, both valid for the hash of the transaction under one pair of keys.
pub accepted-IsHybrid :
    (c : Crypto) (o : Oracle)
    (contains_unspent contains_spent : Accumulator → SiacoinElement → Bool)
    (input_sig_hash : V2Transaction → ℕ) (ms : MidState) (p : QdayParams) (txn : V2Transaction)
    → ms.base.network.qday ≡ some p
    → validate_qday_transaction o ms txn ≡ ok tt
    → validate_v2_siacoins c contains_unspent contains_spent input_sig_hash ms txn ≡ ok tt
    → All (IsHybrid c (input_sig_hash txn)) txn.siacoin_inputs
accepted-IsHybrid c o u s input_sig_hash ms p txn here q v =
    let t = (validate_qday_transaction_iff o ms p here txn).0 q in
    let (_, spends) = validate_v2_siacoins-IsSpend c u s input_sig_hash ms txn v in
    IsHybrid-inputs c u s ms (input_sig_hash txn) _ txn.siacoin_inputs t.policies spends
