-- ===== src/Policy/Swap.antt =====
-- core/types/qday_swap.go: the policies of an atomic swap and the shape of its spends.
use qday.Base.{
  ℕ, ◌+◌, ◌≡◌, Bool, true, false, ◌&&◌, ◌||◌, not, Option, none, some, ◌==◌, ◌!=◌, arith,
  if◌then◌else◌,
}
use qday.Base.Results.{Result, ok, ◌>>◌, fail_if}
use qday.Policy.{
  Policy, Policies, above, public_key, slhdsa, hash, threshold, opaque, nil, cons, count, QdayKeys,
  keys_valid,
}
use qday.Policy.Crypto.{Crypto}
use qday.Policy.Native.{is_public_key, is_slhdsa}
use qday.Policy.Verify.{address, policy_opaque}

pub record AtomicSwap : Type 0 where
  pub recipient : QdayKeys
  pub refund : QdayKeys
  pub secret_hash : ℕ
  pub refund_height : ℕ

pub data SwapError : Type 0 where
  invalid_recipient invalid_refund zero_secret_hash zero_refund_height : SwapError

unfoldable pub validate_swap : AtomicSwap → Result SwapError (Unit {0})
unfolding keys_valid
validate_swap s = do
  fail_if (not (keys_valid s.recipient)) invalid_recipient
  fail_if (not (keys_valid s.refund)) invalid_refund
  fail_if (s.secret_hash == 0) zero_secret_hash
  fail_if (s.refund_height == 0) zero_refund_height

unfoldable pub claim_branch : AtomicSwap → Policy
claim_branch s = threshold 3 (
    cons (public_key s.recipient.classical)
      (cons (slhdsa s.recipient.reserve) (cons (hash s.secret_hash) nil)))

unfoldable pub refund_branch : AtomicSwap → Policy
refund_branch s = threshold 3 (
    cons (public_key s.refund.classical)
      (cons (slhdsa s.refund.reserve) (cons (above s.refund_height) nil)))

-- The policy with both branches, which the address of an output commits to.
unfoldable pub swap_policy : AtomicSwap → Result SwapError Policy
unfolding validate_swap claim_branch refund_branch
swap_policy s =
    validate_swap s >> ok (threshold 1 (cons (claim_branch s) (cons (refund_branch s) nil)))

unfoldable pub is_opaque : Policy → Bool
is_opaque (opaque a) = true
is_opaque p = false

-- The loop over the sub-policies: the number of opaque ones and the last other one.
unfoldable pub reveal : Policies → ℕ → Option Policy → ℕ × Option Policy
unfolding is_opaque
reveal nil opaques branch = (opaques, branch)
reveal (cons p ps) opaques branch =
    if is_opaque p then reveal ps (opaques + 1) branch else reveal ps opaques (some p)

unfoldable pub is_lock : Policy → Bool
is_lock (hash h) = h != 0
is_lock (above h) = h != 0
is_lock p = false

unfoldable pub is_branch : Policy → Bool
unfolding is_public_key is_slhdsa is_lock
is_branch (threshold n (cons p (cons q (cons l nil)))) =
    (n == 3) && is_public_key p && is_slhdsa q && is_lock l
is_branch p = false

unfoldable pub is_swap_spend_policy : Policy → Bool
unfolding reveal is_branch
is_swap_spend_policy (threshold n of) =
    if (n != 1) || (count of != 2)
    then false
    else (let (opaques, branch) = reveal of 0 none in
        elim branch [ none ↦ false | some b ↦ (opaques == 1) && is_branch b ])
is_swap_spend_policy p = false

module _ (c : Crypto) where
  unfoldable pub claim_policy : AtomicSwap → Result SwapError Policy
  unfolding validate_swap claim_branch refund_branch policy_opaque
  claim_policy s =
      validate_swap s
      >> ok (threshold 1 (cons (claim_branch s) (cons (policy_opaque c (refund_branch s)) nil)))

  unfoldable pub refund_policy : AtomicSwap → Result SwapError Policy
  unfolding validate_swap claim_branch refund_branch policy_opaque
  refund_policy s =
      validate_swap s
      >> ok (threshold 1 (cons (policy_opaque c (claim_branch s)) (cons (refund_branch s) nil)))

  -- The addresses of the revealed policies are those of the full one.
  pub claim_policy-address :
      (s : AtomicSwap) (full claim refund : Policy)
      → swap_policy s ≡ ok full
      → claim_policy s ≡ ok claim
      → refund_policy s ≡ ok refund
      → (address c claim ≡ address c full)
        × (address c refund ≡ address c full)
        × (is_swap_spend_policy claim ≡ true)
        × (is_swap_spend_policy refund ≡ true)
  unfolding swap_policy claim_policy refund_policy validate_swap address claim_branch refund_branch
      policy_opaque is_swap_spend_policy
  claim_policy-address s full claim refund e₁ e₂ e₃ =
      (ground arith, ground arith, ground arith, ground arith)
