-- ===== src/Miner/Picked.antt =====
-- coreutils/qday/miner.go: the transactions of a candidate pass.
use qday.Base.{
  ℕ, ◌+◌, ◌%◌, ◌≡◌, ◌≢◌, refl, sym, ap, ◌∙◌, subst, ◌⊎◌, inl, inr, true, false, some, List, [], ◌∷◌,
  ◌++◌, ltb, length, length-append, arith, Bool-cases,
}
use qday.Base.Options.{>>=-eq-some, some-inj}
use qday.Base.Results.{ok, or_panic, wrap, >>-ok, >>=-ok, Result-cases}
use qday.Base.Words.{u64_mod}
use qday.Block.{Roots, transaction_error, is_marker, validate_transactions}
use qday.Block.Sound.{valid-IsSound}
use qday.Currency
use qday.Currency.{Currency}
use qday.Ledger.{MidState}
use qday.Ledger.Apply.{Ids, apply_v2_transaction}
use qday.Ledger.Diffs.{IsLedger}
use qday.Ledger.Transfer.{apply_v2_transaction-Grown}
use qday.Miner.{marker, work_marker, closing, pick}
use qday.Qday.Envelope.{Envelope, mining_work}
use qday.State.{State, QdayParams, child_height, qday_v1_active}
use qday.Types.{V2Transaction}
use qday.Validation.{is_some}
use qday.Validation.Whole.{Rules, validate_v2_transaction, max_block_weight}
use qday.Miner.Markers.{marker-unsupported}

pub not_marker :
    (s : State) (i : ℕ) (after : List V2Transaction)
    → i ≢ 0
    → ((qday_v1_active s (child_height s) ≡ false) ⊎ (length after ≢ 0))
    → is_marker s i after ≡ false
unfolding is_marker
not_marker s i after later (inl off) = ground (arith, later, off)
not_marker s i after later (inr more) = ground (arith, later, more)

pub inner_not_marker :
    (s : State) (nonce i : ℕ) (rest : List V2Transaction)
    → i ≢ 0
    → is_marker s i (rest ++ closing s nonce) ≡ false
unfolding closing child_height
inner_not_marker s nonce i rest later = elim (Bool-cases (qday_v1_active s (child_height s))) [
  | inr off ↦ not_marker s i (rest ++ closing s nonce) later (inl off)
  | inl on ↦
      (let one : length (closing s nonce) ≡ 1 = ground (arith, on) in
        not_marker s i (rest ++ closing s nonce) later
          (inr (λ z. omega (arith, z, one, length-append rest (closing s nonce)))))
]

pub last_marker :
    (s : State) (p : QdayParams) (i : ℕ)
    → s.network.qday ≡ some p
    → qday_v1_active s (child_height s) ≡ true
    → is_marker s i [] ≡ true
unfolding is_marker is_some
last_marker s p i here on = ground (arith, here, on)

module _ (rules : Rules) (ids : Ids) (r : Roots) (p : QdayParams) where
  -- A marker at its place is applied as it is.
  pub marker-applies :
      (i : ℕ) (e : Envelope) (after : List V2Transaction) (ms : MidState)
      → IsLedger ms
      → is_marker ms.base i after ≡ true
      → (mid : MidState) × IsLedger mid
        × (mid.base ≡ ms.base)
        × (validate_transactions rules ids r i (marker e ∷ after) ms
            ≡ validate_transactions rules ids r (i + 1) after mid)
  unfolding validate_transactions
  marker-applies i e after ms l m =
      let (mid, made, g, _, _) =
        apply_v2_transaction-Grown ids (marker e) ms l (marker-unsupported e) in
      let base : mid.base ≡ ms.base = g.base in (mid, g.ledger, base, rw (m, made) refl)

  pub closing-valid :
      (i nonce : ℕ) (s : State) (ms : MidState)
      → s.network.qday ≡ some p
      → IsLedger ms
      → ms.base ≡ s
      → i ≢ 0
      → (after : MidState) × (validate_transactions rules ids r i (closing s nonce) ms ≡ ok after)
  unfolding closing work_marker child_height validate_transactions
  closing-valid i nonce s ms here l base later =
      elim (Bool-cases (qday_v1_active s (child_height s))) [
        | inr off ↦ (ms, rw off refl)
        | inl on ↦
            (let here' : ms.base.network.qday ≡ some p = ap (λ b. b.network.qday) base ∙ here in
              let on' : qday_v1_active ms.base (child_height ms.base) ≡ true =
                ap (λ b. qday_v1_active b (child_height b)) base ∙ on in
              let e : Envelope = record {
                kind = mining_work;
                nonce = nonce;
                keys = [];
                witness = 0;
              } in
              let (mid, _, _, same) =
                marker-applies i e [] ms l (last_marker ms.base p i here' on') in
              (mid, rw on same))
      ]

  pub pick-valid :
      (s : State) (nonce i weight : ℕ) (payout : Currency) (ms : MidState)
      (txns picked : List V2Transaction) (total : Currency)
      → s.network.qday ≡ some p
      → IsLedger ms
      → ms.base ≡ s
      → i ≢ 0
      → pick rules ids weight payout ms txns ≡ some (picked, total)
      → (after : MidState) × (validate_transactions rules ids r i (picked ++ closing s nonce) ms
          ≡ ok after)
  unfolding pick validate_transactions
  pick-valid s nonce i weight payout ms [] picked total here l base later e =
      let none_left : [] ≡ picked = ap (λ x. x.0) (some-inj e) in
      let (after, v) = closing-valid i nonce s ms here l base later in
      (
        after,
        ap (λ xs. validate_transactions rules ids r i (xs ++ closing s nonce) ms) (sym none_left)
            ∙ v,
      )
  pick-valid s nonce i weight payout ms (t ∷ ts) picked total here l base later e =
      let heavier = (weight + rules.v2_weight t) % u64_mod in
      elim (Bool-cases (ltb max_block_weight heavier)) [
        | inl heavy ↦
            pick-valid s nonce i weight payout ms ts picked total here l base later (rw heavy at e)
        | inr light ↦ elim (Result-cases (validate_v2_transaction rules ms t)) [
          | inr (inl (why, v)) ↦
              pick-valid s nonce i weight payout ms ts picked total here l base later
                (rw (light, v) at e)
          | inr (inr v) ↦ absurd (cc (rw (light, v) at e))
          | inl (done, v) ↦
              (let (mid, made, e₁) =
                  >>=-eq-some (apply_v2_transaction ids t ms) _ (rw (light, v) at e) in
                let (payout', _, e₂) = >>=-eq-some (Currency.add payout t.miner_fee) _ e₁ in
                let ((rest, sum), more, e₃) =
                  >>=-eq-some (pick rules ids heavier payout' mid ts) _ e₂ in
                let here' : ms.base.network.qday ≡ some p = ap (λ b. b.network.qday) base ∙ here in
                let sound = valid-IsSound rules p ms t here' v in
                let (mid', made', g, _, _) = apply_v2_transaction-Grown ids t ms l sound.plain in
                let same : mid' ≡ mid = some-inj (sym made' ∙ made) in
                let base' : mid.base ≡ s = ap (λ m. m.base) (sym same) ∙ g.base ∙ base in
                let l' : IsLedger mid = subst IsLedger same g.ledger in
                let (after, w) =
                  pick-valid s nonce (i + 1) heavier payout' mid ts rest sum here l' base'
                    (omega arith) more in
                let first : t ∷ rest ≡ picked = ap (λ x. x.0) (some-inj e₃) in
                let plain : is_marker ms.base i (rest ++ closing s nonce) ≡ false =
                  ap (λ b. is_marker b i (rest ++ closing s nonce)) base
                  ∙ inner_not_marker s nonce i rest later in
                let whole : validate_transactions rules ids r i (t ∷ (rest ++ closing s nonce)) ms
                    ≡ ok after =
                  rw plain (
                    >>-ok (ap (wrap transaction_error) v) (
                      >>=-ok (validate_transactions rules ids r (i + 1) (rest ++ closing s nonce))
                        (ap or_panic made) w)) in
                (
                  after,
                  ap (λ xs. validate_transactions rules ids r i (xs ++ closing s nonce) ms)
                        (sym first)
                      ∙ whole,
                ))
        ]
      ]
