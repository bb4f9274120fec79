-- ===== src/Block/Proved.antt =====
-- core/consensus/application.go: which blocks a MidState takes for proofs of the canary.
use qday.Base.{
  ℕ, ◌+◌, ◌≡◌, refl, sym, ap, ◌∙◌, subst, Bool, true, false, ◌||◌, Option, none, some, List, [],
  ◌∷◌, ◌==◌, if◌then◌else◌, length, arith, All,
}
use qday.Base.Options.{>>=-eq-some, some-inj}
use qday.Block.{v2_transactions}
use qday.Block.Effects.{apply_transactions, apply_block_effects, foundation_subsidy, pay_subsidy}
use qday.Ledger.{
  MidState, SiacoinElementDiff, new_mid_state, blank_siacoin, place, modify, write_siacoin,
  create_immature_siacoin_element,
}
use qday.Ledger.Apply.{Ids, each, apply_v2_transaction, note_proof, is_proof}
use qday.Ledger.Diffs.{IsLedger}
use qday.Ledger.Transfer.{apply_v2_transaction-Grown}
use qday.Qday.Transaction.{is_unsupported}
use qday.State.{State}
use qday.Types.{SiacoinOutput, V2Transaction, Block}

-- Whether one of the transactions is a proof of the canary.
unfoldable pub any_proof : State → List V2Transaction → Bool
any_proof s [] = false
any_proof s (t ∷ ts) = is_proof s t || any_proof s ts

-- The parts of a MidState that only transactions change.
abbrev pub Same : MidState → MidState → Type 0
Same ms after = (after.base ≡ ms.base) × (after.qday_proved ≡ ms.qday_proved)

pub write_siacoin-Same :
    (id : ℕ) (f : SiacoinElementDiff → SiacoinElementDiff) (ms after : MidState)
    → write_siacoin id f ms ≡ some after
    → Same ms after
unfolding write_siacoin
write_siacoin-Same id f ms after e =
    let slots = (place ms.elements ms.sces blank_siacoin id).1 in
    let i = (place ms.elements ms.sces blank_siacoin id).2 in
    let (sces, _, made) = >>=-eq-some (modify slots i f) _ e in
    let same = some-inj made in (ap (λ m. m.base) (sym same), ap (λ m. m.qday_proved) (sym same))

pub create_immature-Same :
    (id : ℕ) (sco : SiacoinOutput) (ms after : MidState)
    → create_immature_siacoin_element id sco ms ≡ some after
    → Same ms after
unfolding create_immature_siacoin_element
create_immature-Same id sco ms after e = write_siacoin-Same id _ ms after e

pub each-Same :
    (ids : Ids) (bid i : ℕ) (scos : List SiacoinOutput) (ms after : MidState)
    → each (λ i sco. create_immature_siacoin_element (ids.miner_output bid i) sco) i scos ms
      ≡ some after
    → Same ms after
unfolding each
each-Same ids bid i [] ms after e =
    let same = some-inj e in (ap (λ m. m.base) (sym same), ap (λ m. m.qday_proved) (sym same))
each-Same ids bid i (sco ∷ scos) ms after e =
    let (mid, first, rest) =
      >>=-eq-some (create_immature_siacoin_element (ids.miner_output bid i) sco ms) _ e in
    let (base, proved) = create_immature-Same (ids.miner_output bid i) sco ms mid first in
    let (base', proved') = each-Same ids bid (i + 1) scos mid after rest in
    (base' ∙ base, proved' ∙ proved)

pub reorder : (rest one before : Bool) → rest || (one || before) ≡ (one || rest) || before
reorder true true before = refl
reorder true false before = refl
reorder false true before = refl
reorder false false before = refl

pub apply_transactions-proved :
    (ids : Ids) (ts : List V2Transaction) (ms after : MidState)
    → IsLedger ms
    → All (λ t. is_unsupported t ≡ false) ts
    → apply_transactions ids ts ms ≡ some after
    → (after.base ≡ ms.base) × (after.qday_proved ≡ any_proof ms.base ts || ms.qday_proved)
unfolding apply_transactions any_proof note_proof
apply_transactions-proved ids [] ms after l a e =
    let same = some-inj e in (ap (λ m. m.base) (sym same), ap (λ m. m.qday_proved) (sym same))
apply_transactions-proved ids (t ∷ ts) ms after l (plain, a) e =
    let (mid, made, g, _, _) = apply_v2_transaction-Grown ids t ms l plain in
    let (mid', step, rest) = >>=-eq-some (apply_v2_transaction ids t ms) _ e in
    let same : mid' ≡ mid = some-inj (sym step ∙ made) in
    let rest' : apply_transactions ids ts mid ≡ some after =
      subst (λ m. apply_transactions ids ts m ≡ some after) same rest in
    let base : mid.base ≡ ms.base = g.base in
    let proved : mid.qday_proved ≡ is_proof ms.base t || ms.qday_proved = g.qday_proved in
    let (base', proved') = apply_transactions-proved ids ts mid after g.ledger a rest' in
    (
      base' ∙ base,
      proved'
          ∙ ap (λ b. any_proof b ts || mid.qday_proved) base
          ∙ ap (λ q. any_proof ms.base ts || q) proved
          ∙ reorder (any_proof ms.base ts) (is_proof ms.base t) ms.qday_proved,
    )

pub subsidy-Same :
    (ids : Ids) (bid : ℕ) (subsidy : Option SiacoinOutput) (ms after : MidState)
    → pay_subsidy ids bid subsidy ms ≡ some after
    → Same ms after
unfolding pay_subsidy
subsidy-Same ids bid none ms after e =
    let same = some-inj e in (ap (λ m. m.base) (sym same), ap (λ m. m.qday_proved) (sym same))
subsidy-Same ids bid (some sco) ms after e =
    create_immature-Same (ids.foundation_output bid) sco ms after e

pub or_false : (b : Bool) → b || false ≡ b
or_false true = refl
or_false false = refl

pub effects-proved :
    (ids : Ids) (bid : ℕ) (b : Block) (s : State) (ms : MidState)
    → All (λ t. is_unsupported t ≡ false) (v2_transactions b)
    → apply_block_effects ids bid b (new_mid_state s) ≡ some ms
    → ms.qday_proved ≡ any_proof s (v2_transactions b)
unfolding apply_block_effects new_mid_state
effects-proved ids bid b s ms plain e =
    let (a, e₁, rest₁) =
      >>=-eq-some
        (if length b.transactions == 0
          then apply_transactions ids (v2_transactions b) (new_mid_state s)
          else none)
        _ e in
    let e₀ : apply_transactions ids (v2_transactions b) (new_mid_state s) ≡ some a =
      ground (arith, e₁) in
    let (c, e₂, rest₂) =
      >>=-eq-some
        (each (λ i sco. create_immature_siacoin_element (ids.miner_output bid i) sco) 0
          b.miner_payouts a)
        _ rest₁ in
    let (subsidy, _, rest₃) = >>=-eq-some (foundation_subsidy (new_mid_state s).base) _ rest₂ in
    let (d, e₄, made) = >>=-eq-some (pay_subsidy ids bid subsidy c) _ rest₃ in
    let (_, proved₁) =
      apply_transactions-proved ids (v2_transactions b) (new_mid_state s) a (λ id i e. cc) plain
        e₀ in
    let (_, proved₂) = each-Same ids bid 0 b.miner_payouts a c e₂ in
    let (_, proved₄) = subsidy-Same ids bid subsidy c d e₄ in
    let proved₅ : d.qday_proved ≡ ms.qday_proved = ap (λ m. m.qday_proved) (some-inj made) in
    sym proved₅ ∙ proved₄ ∙ proved₂ ∙ proved₁ ∙ or_false (any_proof s (v2_transactions b))
