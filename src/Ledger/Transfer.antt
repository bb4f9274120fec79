-- ===== src/Ledger/Transfer.antt =====
-- core/consensus/application.go: a transaction that only moves coins is applied without a panic.
use qday.Base.{
  ℕ, ◌+◌, ◌≡◌, ◌≢◌, refl, ap, ◌∙◌, ◌⊎◌, inl, inr, true, false, Option, none, some, List, [], ◌∷◌,
  ◌==◌, if◌then◌else◌, length, length-zero, arith, All, Bool-cases, Option-cases,
}
use qday.Base.Options.{>>=-some}
use qday.Types.{SiacoinElement, SiacoinOutput, V2SiacoinInput, V2Transaction}
use qday.Ledger.{MidState, insert, new_element, create_siacoin_element, spend_siacoin_element}
use qday.Ledger.Apply.{
  Ids, each, note_proof, update_foundation, apply_v2_transaction, create_attestation_element,
}
use qday.Ledger.Diffs.{IsLedger, write_siacoin-Written}
use qday.Qday.Transaction.{is_unsupported}

-- The ledger is kept, and what it has spent grows by outputs spent in a transaction.
pub record Grown (txid : ℕ) (ms after : MidState) : Type 0 where
  pub ledger : IsLedger after
  pub base : after.base ≡ ms.base
  pub qday_proved : after.qday_proved ≡ ms.qday_proved
  pub spends : (k : ℕ) → (after.spends k ≡ ms.spends k) ⊎ (after.spends k ≡ some txid)

Grown-trans : {txid : ℕ} {a b c : MidState} → Grown txid a b → Grown txid b c → Grown txid a c
Grown-trans {txid} {a} {b} {c} g h = record {
  ledger = h.ledger;
  base = h.base ∙ g.base;
  qday_proved = h.qday_proved ∙ g.qday_proved;
  spends = λ k. elim (h.spends k) [
    | inr e ↦ inr e
    | inl e ↦ elim (g.spends k) [ inl f ↦ inl (e ∙ f) | inr f ↦ inr (e ∙ f) ]
  ];
}

still_spent :
    {txid : ℕ} {a b : MidState}
    → Grown txid a b
    → (k : ℕ) → a.spends k ≡ some txid
    → b.spends k ≡ some txid
still_spent g k e = elim (g.spends k) [ inl f ↦ f ∙ e | inr f ↦ f ]

spend-Grown :
    (txid : ℕ) (sce : SiacoinElement) (ms : MidState)
    → IsLedger ms
    → (after : MidState) × (spend_siacoin_element sce txid ms ≡ some after)
      × Grown txid ms after
      × (after.spends sce.id ≡ some txid)
      × ((k : ℕ) → k ≢ sce.id → after.spends k ≡ ms.spends k)
unfolding spend_siacoin_element insert
spend-Grown txid sce ms l =
    let (after, e, w) =
      write_siacoin-Written ms sce.id (λ d. record d { siacoin_element = sce; spent = true }) l
        (λ d. refl) in
    (
      record after { spends = insert after.spends sce.id txid },
      cc e,
      record {
        ledger = w.ledger;
        base = w.base;
        qday_proved = w.qday_proved;
        spends = λ k. elim (Bool-cases (k == sce.id)) [
          | inl same ↦ inr (ground arith)
          | inr other ↦
              inl (ap (λ b. if b then some txid else after.spends k) other ∙ ap (λ m. m k) w.spends)
        ];
      },
      ground arith,
      λ k n. ground (arith, n) ∙ ap (λ m. m k) w.spends,
    )

create-Grown :
    (txid id : ℕ) (sco : SiacoinOutput) (ms : MidState)
    → IsLedger ms
    → (after : MidState) × (create_siacoin_element id sco ms ≡ some after)
      × Grown txid ms after
      × ((k : ℕ) → after.spends k ≡ ms.spends k)
unfolding create_siacoin_element new_element
create-Grown txid id sco ms l =
    let (after, e, w) =
      write_siacoin-Written ms id
        (λ d. record d { siacoin_element = new_element ms.base id sco; created = true }) l
        (λ d. refl) in
    (
      after,
      e,
      record {
        ledger = w.ledger;
        base = w.base;
        qday_proved = w.qday_proved;
        spends = λ k. inl (ap (λ m. m k) w.spends);
      },
      λ k. ap (λ m. m k) w.spends,
    )

Grown-refl : (txid : ℕ) (ms : MidState) → IsLedger ms → Grown txid ms ms
Grown-refl txid ms l = record {
  ledger = l;
  base = refl;
  qday_proved = refl;
  spends = λ k. inl refl;
}

spend_each :
    (txid i : ℕ) (is : List V2SiacoinInput) (ms : MidState)
    → IsLedger ms
    → (after : MidState) × (each (λ i sci. spend_siacoin_element sci.parent txid) i is ms
        ≡ some after)
      × Grown txid ms after
      × All (λ j. after.spends j.parent.id ≡ some txid) is
      × ((k : ℕ) → All (λ j. k ≢ j.parent.id) is → after.spends k ≡ ms.spends k)
unfolding each
spend_each txid i [] ms l = (ms, refl, Grown-refl txid ms l, tt, λ k n. refl)
spend_each txid i (sci ∷ is) ms l =
    let (ms', e, g, s, kept) = spend-Grown txid sci.parent ms l in
    let (after, e', g', a, kept') = spend_each txid (i + 1) is ms' g.ledger in
    (
      after,
      cc (e, e'),
      Grown-trans g g',
      (still_spent g' sci.parent.id s, a),
      λ k (n, ns). kept' k ns ∙ kept k n,
    )

create_each :
    (ids : Ids) (txid i : ℕ) (outs : List SiacoinOutput) (ms : MidState)
    → IsLedger ms
    → (after : MidState) × (each
          (λ i sco. create_siacoin_element (ids.siacoin_output txid i) sco)
          i
          outs
          ms
        ≡ some after)
      × Grown txid ms after
      × ((k : ℕ) → after.spends k ≡ ms.spends k)
unfolding each
create_each ids txid i [] ms l = (ms, refl, Grown-refl txid ms l, λ k. refl)
create_each ids txid i (sco ∷ outs) ms l =
    let (ms', e, g, kept) = create-Grown txid (ids.siacoin_output txid i) sco ms l in
    let (after, e', g', kept') = create_each ids txid (i + 1) outs ms' g.ledger in
    (after, cc (e, e'), Grown-trans g g', λ k. kept' k ∙ kept k)

each_none :
    {A : Type 0} (f : ℕ → A → MidState → Option MidState) (xs : List A) (ms : MidState)
    → length xs ≡ 0
    → each f 0 xs ms ≡ some ms
unfolding each
each_none f xs ms e = ap (λ l. each f 0 l ms) (length-zero xs e)

still_spent_each :
    {txid : ℕ} {a b : MidState} (is : List V2SiacoinInput)
    → Grown txid a b
    → All (λ j. a.spends j.parent.id ≡ some txid) is
    → All (λ j. b.spends j.parent.id ≡ some txid) is
still_spent_each [] g a = tt
still_spent_each (i ∷ is) g (e, a) = (still_spent g i.parent.id e, still_spent_each is g a)

pub plain_parts :
    (txn : V2Transaction)
    → is_unsupported txn ≡ false
    → (length txn.siafund_inputs ≡ 0)
      × (length txn.siafund_outputs ≡ 0)
      × (length txn.file_contracts ≡ 0)
      × (length txn.file_contract_revisions ≡ 0)
      × (length txn.file_contract_resolutions ≡ 0)
      × (length txn.attestations ≡ 0)
      × (txn.new_foundation_address ≡ none)
unfolding is_unsupported
plain_parts txn e = elim (Option-cases txn.new_foundation_address) [
  | inl n ↦ (ground arith, ground arith, ground arith, ground arith, ground arith, ground arith, n)
  | inr (a, n) ↦ ground (arith, n)
]

-- A transaction that only moves coins applies: no step of it panics, the ledger stays one, each of
-- its inputs is then spent by it, and the entry of what spent any other output stays as it was.
pub apply_v2_transaction-Grown :
    (ids : Ids) (txn : V2Transaction) (ms : MidState)
    → IsLedger ms
    → is_unsupported txn ≡ false
    → (after : MidState) × (apply_v2_transaction ids txn ms ≡ some after)
      × Grown (ids.transaction txn) (note_proof txn ms) after
      × All (λ i. after.spends i.parent.id ≡ some (ids.transaction txn)) txn.siacoin_inputs
      × ((k : ℕ) → All (λ i. k ≢ i.parent.id) txn.siacoin_inputs → after.spends k ≡ ms.spends k)
unfolding apply_v2_transaction update_foundation note_proof
apply_v2_transaction-Grown ids txn ms l plain =
    let txid = ids.transaction txn in
    let (a, e₁, g₁, s₁, kept₁) = spend_each txid 0 txn.siacoin_inputs (note_proof txn ms) l in
    let (b, e₂, g₂, kept₂) = create_each ids txid 0 txn.siacoin_outputs a g₁.ledger in
    let (p₁, p₂, p₃, p₄, p₅, p₆, p₇) = plain_parts txn plain in
    (
      b,
      >>=-some _
          (>>=-some _
            (>>=-some _
              (>>=-some _
                (>>=-some _
                  (>>=-some _ (>>=-some _ (>>=-some _ e₁ e₂) (each_none _ txn.siafund_inputs b p₁))
                    (each_none _ txn.siafund_outputs b p₂))
                  (each_none _ txn.file_contracts b p₃))
                (each_none _ txn.file_contract_revisions b p₄))
              (each_none _ txn.file_contract_resolutions b p₅))
            (each_none (λ i a. create_attestation_element (ids.attestation txid i) a)
              txn.attestations b p₆))
          (ap (λ a. some (update_foundation a b)) p₇),
      Grown-trans g₁ g₂,
      still_spent_each txn.siacoin_inputs g₂ s₁,
      λ k n. kept₂ k ∙ kept₁ k n,
    )
