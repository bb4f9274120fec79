-- ===== src/Header/Examples.antt =====
-- core/consensus/application.go: the theorems on headers at concrete inputs.
use qday.Base.{ℕ, ◌+◌, ◌≤◌, ◌≡◌, refl, ◌↔◌, some, arith}
use qday.Base.Int.{ℤ, pos}
use qday.Base.Results.{ok}
use qday.State.{State}
use qday.Work.{Work}
use qday.Work.Value.{value}
use qday.Header.{BlockHeader, adjust_difficulty_final_cut, apply_header}
use qday.Header.Difficulty.{IsClamped, adjust_difficulty_final_cut-IsClamped}
use qday.Header.Apply.{IsLive, Extends, apply_header-Extends}
use qday.Header.Chain.{here, next, Follows-total_work}
use qday.Header.Steady.{IsSteady}
use qday.Header.Validate.{validate_header, IsChild, validate_header_iff}
use qday.Sample.{sample_state, million_work}

abbrev no_rule : State → ℤ → ℤ → ℕ
no_rule s t u = 1

abbrev nonce_id : BlockHeader → ℕ
nonce_id bh = bh.nonce

abbrev child : BlockHeader
child = record { parent_id = 4242; nonce = 7; timestamp = pos 42000000000; commitment = 1 }

sample_state-IsLive : IsLive sample_state
unfolding value
sample_state-IsLive = omega arith

sample_state-IsSteady : IsSteady sample_state
unfolding value
sample_state-IsSteady = omega arith

adjust_difficulty_final_cut-IsClamped_example :
    (new : Work) × (adjust_difficulty_final_cut sample_state (pos 42000000000) ≡ some new)
    × IsClamped million_work new
unfolding value
adjust_difficulty_final_cut-IsClamped_example =
    adjust_difficulty_final_cut-IsClamped sample_state (pos 42000000000) (omega arith) (omega arith)
      (omega arith) (omega arith) (omega arith) (omega arith)

apply_header-Extends_example :
    (after : State) × (apply_header no_rule nonce_id sample_state child (pos 0) ≡ some after)
    × Extends nonce_id sample_state child after
apply_header-Extends_example =
    apply_header-Extends no_rule nonce_id sample_state child (pos 0) sample_state-IsLive refl
      (omega arith)

-- The state after the child.
child_applied :
    (after : State) × (apply_header no_rule nonce_id sample_state child (pos 0) ≡ some after)
child_applied = take_state (
    apply_header-Extends no_rule nonce_id sample_state child (pos 0) sample_state-IsLive refl
      (omega arith))
  where
    take_state :
        {P : State → Type 0}
        → (after : State) × (apply_header no_rule nonce_id sample_state child (pos 0) ≡ some after)
          × P after
        → (after : State) × (apply_header no_rule nonce_id sample_state child (pos 0) ≡ some after)
    take_state (after, e, _) = (after, e)

abbrev after_child : State
after_child = child_applied.0

Follows-total_work_example :
    (after_child.index.height ≡ 41 + 1)
    × (value million_work + 1 ≤ value after_child.total_work)
    × IsSteady after_child
    × (after_child.network ≡ sample_state.network)
    × (after_child.qday_height ≡ sample_state.qday_height)
Follows-total_work_example =
    Follows-total_work no_rule nonce_id {s = sample_state} sample_state-IsSteady (omega arith)
      (next child (pos 0) here refl (omega arith) child_applied.1)

validate_header_iff_example :
    (validate_header nonce_id sample_state child ≡ ok tt) ↔ IsChild nonce_id sample_state child
validate_header_iff_example = validate_header_iff nonce_id sample_state child
