-- ===== src/Syncer/Examples.antt =====
-- coreutils/syncer/relay_budget.go: the theorem after a peer takes a payload twice and gives one back.
use qday.Base.{◌≡◌, refl, true, [], ◌∷◌, arith}
use qday.Base.Int.{pos, ◌+ℤ◌}
use qday.Syncer.{RelayPayloadBudget, update, acquire, release}
use qday.Syncer.Budget.{held, without, start, taken, given, IsBudget, Reached-IsBudget}

abbrev empty_budget : RelayPayloadBudget
empty_budget = record { active = pos 0; peers = λ p. pos 0 }

abbrev once : RelayPayloadBudget
once = (acquire empty_budget 7).0

abbrev twice : RelayPayloadBudget
twice = (acquire once 7).0

first_taken : acquire empty_budget 7 ≡ (once, true)
unfolding acquire
first_taken = refl

second_taken : acquire once 7 ≡ (twice, true)
unfolding acquire update ◌+ℤ◌
second_taken = refl

Reached-IsBudget_example : IsBudget (release twice 7) (without 7 (7 ∷ 7 ∷ []))
Reached-IsBudget_example =
    Reached-IsBudget
      (given 7 (taken 7 (taken 7 start first_taken) second_taken) (unfold held in omega arith))
