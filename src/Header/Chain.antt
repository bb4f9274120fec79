-- ===== src/Header/Chain.antt =====
-- core/consensus/application.go: chains of headers, each applied to the state before it.
use qday.Base.{ℕ, zero, suc, ◌+◌, ◌≤◌, ◌<◌, ◌≡◌, refl, ◌∙◌, ◌≢◌, some, arith}
use qday.Base.Int.{ℤ}
use qday.Base.Words.{u64_mod}
use qday.State.{State}
use qday.Work.Value.{value}
use qday.Header.{BlockHeader, apply_header}
use qday.Header.Steady.{IsSteady, apply_header-Steps}

module _ (adjust_target : State → ℤ → ℤ → ℕ) (header_id : BlockHeader → ℕ) where
  -- `n` child headers in a row, which apply from the state `s` on.
  pub data Follows (s : State) : ℕ → State → Type 0 where
    here : Follows s zero s
    next :
        {n : ℕ} {t u : State} (bh : BlockHeader) (target_timestamp : ℤ)
        → Follows s n t
        → bh.parent_id ≡ t.index.id
        → bh.parent_id ≢ 0
        → apply_header adjust_target header_id t bh target_timestamp ≡ some u
        → Follows s (suc n) u

  -- A chain of `n` headers that applies to a state past the final cut, with works of 256 bits and a
  -- difficulty that is not zero, is `n` higher and has at least `n` more work, so it never comes back
  -- to a state that it left; its state is again of that kind, and the network and the activation
  -- height stay as they were. The height that is reached fits in 64 bits.
  pub Follows-total_work :
      {s t : State} {n : ℕ}
      → IsSteady s
      → s.index.height + n < u64_mod
      → Follows s n t
      → (t.index.height ≡ s.index.height + n)
        × (value s.total_work + n ≤ value t.total_work)
        × IsSteady t
        × (t.network ≡ s.network)
        × (t.qday_height ≡ s.qday_height)
  Follows-total_work i fits here = (omega arith, omega arith, i, refl, refl)
  Follows-total_work i fits (next {n} {t} bh ts f parent child e) =
      let (height, total, steady, network, qday) = Follows-total_work i (omega (arith, fits)) f in
      let x =
        apply_header-Steps adjust_target header_id t bh ts steady (omega (arith, fits, height))
          parent child e in
      (
        omega (arith, x.height, height),
        omega (arith, x.total, total, steady.difficulty_pos),
        x.steady,
        x.same_network ∙ network,
        x.same_qday_height ∙ qday,
      )
