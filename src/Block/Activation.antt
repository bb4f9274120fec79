-- ===== src/Block/Activation.antt =====
-- core/consensus/application.go: how ApplyBlock sets the height of the activation.
use qday.Base.{
  ℕ, ◌+◌, ◌%◌, ◌≡◌, ◌≢◌, refl, sym, ap, ◌∙◌, inl, inr, true, false, ◌&&◌, Option, some, ltb, ◌==◌,
  ◌!=◌, if◌then◌else◌, arith, All, Bool-cases,
}
use qday.Base.Bytes.{Bytes}
use qday.Base.Int.{ℤ}
use qday.Base.Options.{>>=-eq-some, some-inj}
use qday.Base.Words.{u64_mod}
use qday.Accumulator.Elements.{ElementHashes}
use qday.Accumulator.Update.{apply_elements}
use qday.Block.{Roots, v2_transactions, header}
use qday.Block.Effects.{
  apply_block_effects, apply_effects, activate, apply_block, applied_elements, select_leaves,
}
use qday.Header.{apply_header}
use qday.Ledger.{MidState, new_mid_state}
use qday.Ledger.Apply.{Ids}
use qday.Qday.Transaction.{is_unsupported}
use qday.State.{State, QdayParams}
use qday.Types.{Block}
use qday.Block.Proved.{any_proof, effects-proved}
use qday.Block.Kept.{Kept, apply_header-Kept, activate-IsActivated, activate-network, activate-set}

module _ (sum_pair : ℕ → ℕ → ℕ) (hash_bytes : Bytes → ℕ) (h : ElementHashes) (ids : Ids)
    (adjust_target : State → ℤ → ℤ → ℕ) (r : Roots) where
  apply_effects-Kept :
      (s next : State) (ms : MidState)
      → apply_effects sum_pair hash_bytes h ids adjust_target r s ms ≡ some next
      → Kept adjust_target r.header_id s next
  unfolding apply_effects Kept
  apply_effects-Kept s next ms e =
      let (_, _, made) =
        >>=-eq-some
          (apply_elements sum_pair hash_bytes s.elements
            (select_leaves false (applied_elements h ms))
            (select_leaves true (applied_elements h ms)))
          _ e in
      let same = some-inj made in
      (ap (λ m. m.network) (sym same), ap (λ m. m.qday_height) (sym same))

  abbrev step : State → Block → ℤ → Option State
  step = apply_block sum_pair hash_bytes h ids adjust_target r

  -- The steps of a block that is applied: its effects and its header.
  stages :
      (s next : State) (b : Block) (t : ℤ)
      → step s b t ≡ some next
      → (ms : MidState) × (mid : State) × (apply_block_effects ids
            (r.header_id (header r b))
            b
            (new_mid_state s)
          ≡ some ms)
        × Kept adjust_target r.header_id s mid
        × (activate ms.qday_proved mid ≡ next)
  unfolding apply_block Kept
  stages s next b t e = elim (Bool-cases (ltb 0 s.index.height && (s.index.id != b.parent_id))) [
    | inl out ↦ absurd (ground (arith, out, e))
    | inr child ↦
        (let (ms, first, e₁) =
            >>=-eq-some (apply_block_effects ids (r.header_id (header r b)) b (new_mid_state s)) _
              (rw child at e) in
          let (s₁, second, e₂) =
            >>=-eq-some (apply_effects sum_pair hash_bytes h ids adjust_target r s ms) _ e₁ in
          let (s₂, third, e₃) =
            >>=-eq-some (apply_header adjust_target r.header_id s₁ (header r b) t) _ e₂ in
          let k₁ : Kept adjust_target r.header_id s s₁ = apply_effects-Kept s s₁ ms second in
          let k₂ : Kept adjust_target r.header_id s₁ s₂ =
            apply_header-Kept adjust_target r.header_id s₁ s₂ (header r b) t third in
          (ms, s₂, first, (k₂.0 ∙ k₁.0, k₂.1 ∙ k₁.1), some-inj e₃))
  ]

  -- On a QDAY network a block whose transactions only move coins keeps the rules, and sets the
  -- height of the activation to its own height plus the delay, as a 64-bit word, exactly if that
  -- height is still zero and one of the transactions is a proof of the canary.
  pub apply_block-qday_height :
      (s next : State) (b : Block) (t : ℤ) (p : QdayParams)
      → s.network.qday ≡ some p
      → All (λ txn. is_unsupported txn ≡ false) (v2_transactions b)
      → apply_block sum_pair hash_bytes h ids adjust_target r s b t ≡ some next
      → (next.network ≡ s.network)
        × (next.qday_height ≡ (
            if (s.qday_height == 0) && any_proof s (v2_transactions b)
            then (next.index.height + p.activation_delay) % u64_mod
            else s.qday_height))
  unfolding Kept
  apply_block-qday_height s next b t p here plain e =
      let (ms, mid, first, (network, height), last) = stages s next b t e in
      let proved = effects-proved ids (r.header_id (header r b)) b s ms plain first in
      let on : mid.network.qday ≡ some p = ap (λ n. n.qday) network ∙ here in
      let done = activate-IsActivated ms.qday_proved mid p on in
      (
        ap (λ m. m.network) (sym last) ∙ done.network ∙ network,
        ground (arith, done.height, last, height, proved),
      )

  -- A chain of blocks, each applied to the state of the one before it.
  pub data Reaches (start : State) : State → Type 0 where
    nothing : Reaches start start
    block :
        {s next : State} (b : Block) (t : ℤ)
        → Reaches start s
        → step s b t ≡ some next
        → Reaches start next

  -- Once the height of the activation is set, no chain of blocks changes it, and the rules of the
  -- network stay the same along every chain.
  pub Reaches-qday_height :
      {start end : State}
      → Reaches start end
      → (end.network ≡ start.network)
        × (start.qday_height ≢ 0 → end.qday_height ≡ start.qday_height)
  unfolding Kept
  Reaches-qday_height nothing = (refl, λ set. refl)
  Reaches-qday_height {start} {end} (block {s} b t f e) =
      let (network, keeps) = Reaches-qday_height f in
      let (ms, mid, _, (network', height), last) = stages s end b t e in
      (
        ap (λ m. m.network) (sym last) ∙ activate-network ms.qday_proved mid ∙ network' ∙ network,
        λ set.
            let same : mid.qday_height ≡ start.qday_height = height ∙ keeps set in
            ap (λ m. m.qday_height) (sym last)
            ∙ activate-set ms.qday_proved mid (λ z. set (sym same ∙ z))
            ∙ same,
      )
