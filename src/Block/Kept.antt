-- ===== src/Block/Kept.antt =====
-- core/consensus/application.go: a header and the activation keep the rules of the network.
use qday.Base.{
  ℕ, ◌+◌, ◌%◌, ◌≡◌, ◌≢◌, sym, ap, ◌∙◌, inl, inr, Bool, ◌&&◌, some, ltb, leb, ◌==◌, ◌!=◌,
  if◌then◌else◌, arith, Bool-cases, Option-cases,
}
use qday.Base.Int.{ℤ}
use qday.Base.Options.{>>=-eq-some, some-inj}
use qday.Base.Words.{u64_mod}
use qday.Block.Effects.{activate}
use qday.Header.{
  BlockHeader, apply_header, apply_genesis, apply_child, clear_deprecated, push_timestamp,
  update_oak_work, update_total_work, adjust_difficulty,
}
use qday.State.{State, QdayParams}

-- A header leaves the rules and the height of the activation as they are.
module _ (adjust_target : State → ℤ → ℤ → ℕ) (header_id : BlockHeader → ℕ) where
  unfoldable pub Kept : State → State → Type 0
  Kept s next = (next.network ≡ s.network) × (next.qday_height ≡ s.qday_height)

  pub apply_genesis-Kept :
      (s next : State) (bh : BlockHeader)
      → apply_genesis adjust_target header_id s bh ≡ some next
      → Kept s next
  unfolding apply_genesis Kept
  apply_genesis-Kept s next bh e =
      let (_, _, made) = >>=-eq-some (update_oak_work s) _ e in
      let same = some-inj made in
      (ap (λ m. m.network) (sym same), ap (λ m. m.qday_height) (sym same))

  pub apply_child-Kept :
      (s next : State) (bh : BlockHeader) (t : ℤ)
      → apply_child adjust_target header_id s bh t ≡ some next
      → Kept s next
  unfolding apply_child Kept
  apply_child-Kept s next bh t e =
      let (_, _, e₁) = >>=-eq-some (update_total_work s) _ e in
      let (_, _, e₂) = >>=-eq-some (adjust_difficulty adjust_target s bh.timestamp t) _ e₁ in
      let (_, _, made) = >>=-eq-some (update_oak_work s) _ e₂ in
      let same = some-inj made in
      (ap (λ m. m.network) (sym same), ap (λ m. m.qday_height) (sym same))

  pub clear_deprecated-Kept : (s : State) → Kept s (clear_deprecated s)
  unfolding clear_deprecated Kept
  clear_deprecated-Kept s = elim (Bool-cases (leb s.network.v2_final_cut_height s.index.height)) [
    | inl cut ↦ (ground (arith, cut), ground (arith, cut))
    | inr before ↦ (ground (arith, before), ground (arith, before))
  ]

  pub apply_header-Kept :
      (s next : State) (bh : BlockHeader) (t : ℤ)
      → apply_header adjust_target header_id s bh t ≡ some next
      → Kept s next
  unfolding apply_header Kept
  apply_header-Kept s next bh t e =
      elim (Bool-cases (ltb 0 s.index.height && (s.index.id != bh.parent_id))) [
        | inl out ↦ absurd (ground (arith, out, e))
        | inr child ↦
            (let step =
                if bh.parent_id == 0
                then apply_genesis adjust_target header_id s bh
                else apply_child adjust_target header_id s bh t in
              let (mid, made, last) =
                >>=-eq-some step
                  (λ next. some (
                    clear_deprecated (record next {
                      prev_timestamps = push_timestamp bh.timestamp s.prev_timestamps;
                    })))
                  (rw child at e) in
              let kept : Kept s mid = elim (Bool-cases (bh.parent_id == 0)) [
                | inl genesis ↦ apply_genesis-Kept s mid bh (rw genesis at made)
                | inr other ↦ apply_child-Kept s mid bh t (rw other at made)
              ] in
              let pushed = record mid {
                prev_timestamps = push_timestamp bh.timestamp s.prev_timestamps;
              } in
              let cleared : Kept pushed (clear_deprecated pushed) = clear_deprecated-Kept pushed in
              let same : clear_deprecated pushed ≡ next = some-inj last in
              (
                ap (λ m. m.network) (sym same) ∙ cleared.0 ∙ kept.0,
                ap (λ m. m.qday_height) (sym same) ∙ cleared.1 ∙ kept.1,
              ))
      ]

-- What the activation does to a state.
pub record IsActivated (proved : Bool) (s next : State) (delay : ℕ) : Type 0 where
  pub network : next.network ≡ s.network
  pub height : next.qday_height ≡ (
      if (s.qday_height == 0) && proved
      then (next.index.height + delay) % u64_mod
      else s.qday_height)

pub activate-IsActivated :
    (proved : Bool) (s : State) (p : QdayParams)
    → s.network.qday ≡ some p
    → IsActivated proved s (activate proved s) p.activation_delay
unfolding activate
activate-IsActivated proved s p here = elim (Bool-cases ((s.qday_height == 0) && proved)) [
  | inl sets ↦ record { network = ground (arith, here, sets); height = ground (arith, here, sets) }
  | inr keeps ↦ record {
    network = ground (arith, here, keeps);
    height = ground (arith, here, keeps);
  }
]

pub activate-network : (proved : Bool) (s : State) → (activate proved s).network ≡ s.network
unfolding activate
activate-network proved s = elim (Option-cases s.network.qday) [
  | inl n ↦ ground (arith, n)
  | inr (p, here) ↦ (activate-IsActivated proved s p here).network
]

pub activate-set :
    (proved : Bool) (s : State)
    → s.qday_height ≢ 0
    → (activate proved s).qday_height ≡ s.qday_height
unfolding activate
activate-set proved s set = elim (Option-cases s.network.qday) [
  | inl n ↦ ground (arith, n)
  | inr (p, here) ↦ ground (arith, here, set)
]
