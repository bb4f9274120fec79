-- ===== src/Policy/Hybrid.antt =====
-- core/types/qday_swap.go with core/types/policy.go: what a spend under the accepted policies
-- shows.
use qday.Base.{
  ℕ, ◌≤◌, ◌≡◌, refl, sym, subst, ◌∙◌, ◌↔◌, true, false, ◌||◌, List, [], ◌∷◌, length, take, drop,
  arith, inl, inr, Bool-cases, List-cases,
}
use qday.Base.Int.{ℤ}
use qday.Base.Results.{ok}
use qday.Policy.{
  Policy, above, public_key, slhdsa, hash, threshold, opaque, nil, cons, QdayKeys, keys_policy,
  signature_chunks,
}
use qday.Policy.Crypto.{Crypto}
use qday.Policy.Native.{
  is_native_policy, is_native_policy-keys_policy, is_public_key-eq, is_slhdsa-eq, Authorized,
  verify_keys_iff, take_all,
}
use qday.Policy.Swap.{
  AtomicSwap, validate_swap, claim_branch, refund_branch, claim_policy, refund_policy, is_lock,
  is_branch, is_opaque, is_swap_spend_policy,
}
use qday.Policy.Verify.{
  verify_reserve, verify_key, verify_slhdsa, verify_above, verify_preimage, verify_policy, verify,
  address, policy_opaque,
}

-- The branch under two keys and a lock.
unfoldable pub branch : QdayKeys → Policy → Policy
branch k lock =
    threshold 3 (cons (public_key k.classical) (cons (slhdsa k.reserve) (cons lock nil)))

-- An accepted spend of a swap is a branch beside an opaque sibling.
pub data Spend (p : Policy) : Type 0 where
  first :
      (k : QdayKeys) (lock : Policy) (a : ℕ)
      → is_lock lock ≡ true
      → p ≡ threshold 1 (cons (branch k lock) (cons (opaque a) nil))
      → Spend p
  second :
      (k : QdayKeys) (lock : Policy) (a : ℕ)
      → is_lock lock ≡ true
      → p ≡ threshold 1 (cons (opaque a) (cons (branch k lock) nil))
      → Spend p

-- The pair of keys that a native policy, or the branch that a spend of a swap shows, names.
pub data Names (k : QdayKeys) (p : Policy) : Type 0 where
  native : p ≡ keys_policy k → Names k p
  shown_first :
      (lock : Policy) (a : ℕ)
      → p ≡ threshold 1 (cons (branch k lock) (cons (opaque a) nil))
      → Names k p
  shown_second :
      (lock : Policy) (a : ℕ)
      → p ≡ threshold 1 (cons (opaque a) (cons (branch k lock) nil))
      → Names k p

is_opaque-eq : (p : Policy) → is_opaque p ≡ true → (a : ℕ) × (p ≡ opaque a)
unfolding is_opaque
is_opaque-eq (opaque a) e = (a, refl)
is_opaque-eq p e = cc

branch_of :
    {n : ℕ} {p q l : Policy}
    → n ≡ 3
    → (pk : ℕ) × (p ≡ public_key pk)
    → (r : ℕ) × (q ≡ slhdsa r)
    → is_lock l ≡ true
    → (k : QdayKeys) × (lock : Policy) × (is_lock lock ≡ true)
      × (threshold n (cons p (cons q (cons l nil))) ≡ branch k lock)
unfolding branch
branch_of {l = l} e (pk, a) (r, b) i = (record { classical = pk; reserve = r }, l, i, cc (e, a, b))

is_branch-branch :
    (p : Policy)
    → is_branch p ≡ true
    → (k : QdayKeys) × (lock : Policy) × (is_lock lock ≡ true) × (p ≡ branch k lock)
unfolding is_branch
is_branch-branch (threshold n (cons p (cons q (cons l nil)))) e =
    branch_of (ground arith) (is_public_key-eq p (ground arith)) (is_slhdsa-eq q (ground arith))
      (ground arith)
is_branch-branch (threshold n nil) e = cc
is_branch-branch (threshold n (cons p nil)) e = cc
is_branch-branch (threshold n (cons p (cons q nil))) e = cc
is_branch-branch (threshold n (cons p (cons q (cons r (cons t ts))))) e = cc
is_branch-branch p e = cc

first_of :
    {n : ℕ} {p q : Policy}
    → n ≡ 1
    → (a : ℕ) × (q ≡ opaque a)
    → (k : QdayKeys) × (lock : Policy) × (is_lock lock ≡ true) × (p ≡ branch k lock)
    → Spend (threshold n (cons p (cons q nil)))
first_of e (a, d) (k, lock, i, b) = first k lock a i (cc (e, d, b))

second_of :
    {n : ℕ} {p q : Policy}
    → n ≡ 1
    → (a : ℕ) × (p ≡ opaque a)
    → (k : QdayKeys) × (lock : Policy) × (is_lock lock ≡ true) × (q ≡ branch k lock)
    → Spend (threshold n (cons p (cons q nil)))
second_of e (a, d) (k, lock, i, b) = second k lock a i (cc (e, d, b))

pub is_swap_spend_policy-Spend : (p : Policy) → is_swap_spend_policy p ≡ true → Spend p
unfolding is_swap_spend_policy
is_swap_spend_policy-Spend (threshold n (cons p (cons q nil))) e = elim (Bool-cases (is_opaque p)) [
  | inl a ↦ second_of (ground arith) (is_opaque-eq p a) (is_branch-branch q (ground (arith)))
  | inr a ↦
      first_of (ground arith) (is_opaque-eq q (ground arith)) (is_branch-branch p (ground (arith)))
]
is_swap_spend_policy-Spend (threshold n nil) e = ground arith
is_swap_spend_policy-Spend (threshold n (cons p nil)) e = ground arith
is_swap_spend_policy-Spend (threshold n (cons p (cons q (cons r rs)))) e = ground arith
is_swap_spend_policy-Spend p e = cc

module _ (c : Crypto) where
  claim_shape :
      (s : AtomicSwap) (p : Policy)
      → claim_policy c s ≡ ok p
      → (is_lock (hash s.secret_hash) ≡ true)
        × (p
            ≡ threshold 1 (
                cons
                  (branch s.recipient (hash s.secret_hash))
                  (cons (opaque (address c (refund_branch s))) nil)))
  unfolding claim_policy validate_swap is_lock branch claim_branch refund_branch policy_opaque
  claim_shape s p e = (ground arith, ground arith)

  refund_shape :
      (s : AtomicSwap) (p : Policy)
      → refund_policy c s ≡ ok p
      → (is_lock (above s.refund_height) ≡ true)
        × (p
            ≡ threshold 1 (
                cons
                  (opaque (address c (claim_branch s)))
                  (cons (branch s.refund (above s.refund_height)) nil)))
  unfolding refund_policy validate_swap is_lock branch claim_branch refund_branch policy_opaque
  refund_shape s p e = (ground arith, ground arith)

module _ (c : Crypto) (h : ℕ) where
  -- What is left of the preimages opens the lock.
  unfoldable pub Unlocked : ℕ → Policy → List ℕ → Type 0
  Unlocked height (hash secret_hash) rest = (x : ℕ) × (rest ≡ x ∷ []) × (secret_hash ≡ c.sha256 x)
  Unlocked height (above n) rest = (n ≤ height) × (rest ≡ [])
  Unlocked height p rest = true ≡ false

  -- One signature of each scheme under the keys, the reserve signature first among the preimages.
  pub record Signed (k : QdayKeys) (sigs preimages : List ℕ) : Type 0 where
    pub signature : ℕ
    pub only : sigs ≡ signature ∷ []
    pub classical_valid : c.verify_hash k.classical h signature ≡ true
    pub chunks : signature_chunks ≤ length preimages
    pub reserve_valid : verify_reserve c k.reserve h (take signature_chunks preimages) ≡ true

  Authorized-Signed :
      (k : QdayKeys) (sigs preimages : List ℕ)
      → Authorized c h k sigs preimages
      → Signed k sigs preimages
  Authorized-Signed k sigs preimages a = record {
    signature = a.signature;
    only = a.only;
    classical_valid = a.classical_valid;
    chunks = omega (arith, a.chunks);
    reserve_valid =
        subst (λ t. verify_reserve c k.reserve h t ≡ true)
          (sym (take_all preimages signature_chunks a.chunks)) a.reserve_valid;
  }

  module _ (height : ℕ) (median : ℤ) where
    branch_verified :
        (k : QdayKeys) (lock : Policy) (a : ℕ) (sigs preimages : List ℕ)
        → is_lock lock ≡ true
        → verify c height median h
            (threshold 1 (cons (branch k lock) (cons (opaque a) nil)))
            sigs
            preimages
          ≡ ok tt
        → Signed k sigs preimages × Unlocked height lock (drop signature_chunks preimages)
    unfolding is_lock verify verify_policy branch verify_key verify_slhdsa verify_above
        verify_preimage Unlocked
    branch_verified k (hash s) a sigs preimages i e = elim (List-cases sigs) [
      | inl n ↦ ground (arith, n)
      | inr (x, rest, n) ↦ elim (List-cases (drop signature_chunks preimages)) [
        | inl m ↦ ground (arith, n, m)
        | inr (y, ys, m) ↦ (
          record {
            signature = x;
            only = ground (arith, n, m);
            classical_valid = ground (arith, n, m);
            chunks = ground (arith, n, m);
            reserve_valid = ground (arith, n, m);
          },
          (y, ground (arith, n, m), ground (arith, n, m)),
        )
      ]
    ]
    branch_verified k (above s) a sigs preimages i e = elim (List-cases sigs) [
      | inl n ↦ ground (arith, n)
      | inr (x, rest, n) ↦ (
        record {
          signature = x;
          only = ground (arith, n);
          classical_valid = ground (arith, n);
          chunks = ground (arith, n);
          reserve_valid = ground (arith, n);
        },
        (ground (arith, n), ground (arith, n)),
      )
    ]
    branch_verified k p a sigs preimages i e = cc

    branch_verifies :
        (k : QdayKeys) (lock : Policy) (a : ℕ) (sigs preimages : List ℕ)
        → is_lock lock ≡ true
        → Signed k sigs preimages
        → Unlocked height lock (drop signature_chunks preimages)
        → verify c height median h
            (threshold 1 (cons (branch k lock) (cons (opaque a) nil)))
            sigs
            preimages
          ≡ ok tt
    unfolding is_lock verify verify_policy branch verify_key verify_slhdsa verify_above
        verify_preimage Unlocked
    branch_verifies k (hash s) a sigs preimages i g (x, m, n) =
        ground (arith, g.only, g.classical_valid, g.chunks, g.reserve_valid, m, n)
    branch_verifies k (above s) a sigs preimages i g (m, n) =
        ground (arith, g.only, g.classical_valid, g.chunks, g.reserve_valid, m, n)
    branch_verifies k p a sigs preimages i g u = cc

    opaque_first :
        (k : QdayKeys) (lock : Policy) (a : ℕ) (sigs preimages : List ℕ)
        → verify c height median h
            (threshold 1 (cons (opaque a) (cons (branch k lock) nil)))
            sigs
            preimages
          ≡ verify c height median h
              (threshold 1 (cons (branch k lock) (cons (opaque a) nil)))
              sigs
              preimages
    unfolding verify verify_policy branch
    opaque_first k lock a sigs preimages = refl

    -- A spend of a native output or of an atomic swap that passes carries exactly one Ed25519
    -- signature and, first among its preimages, a full SLH-DSA signature, both valid for the hash
    -- under a pair of keys that the policy names: its own, or those of the branch that is shown.
    pub verify-Signed :
        (p : Policy) (sigs preimages : List ℕ)
        → (is_native_policy p || is_swap_spend_policy p) ≡ true
        → verify c height median h p sigs preimages ≡ ok tt
        → (k : QdayKeys) × Names k p × Signed k sigs preimages
    verify-Signed p sigs preimages i e = elim (Bool-cases (is_native_policy p)) [
      | inl n ↦ of_native (is_native_policy-keys_policy p n)
      | inr n ↦ swap (is_swap_spend_policy-Spend p (ground arith))
    ]
      where
        of_native :
            (k : QdayKeys) × (p ≡ keys_policy k)
            → (k : QdayKeys) × Names k p × Signed k sigs preimages
        of_native (k, d) = (
          k,
          native d,
          Authorized-Signed k sigs preimages (
              (verify_keys_iff c h height median k sigs preimages).0
                (subst (λ t. verify c height median h t sigs preimages ≡ ok tt) d e)),
        )

        swap : Spend p → (k : QdayKeys) × Names k p × Signed k sigs preimages
        swap (first k lock a l d) = (
          k,
          shown_first lock a d,
          (branch_verified k lock a sigs preimages l
              (subst (λ t. verify c height median h t sigs preimages ≡ ok tt) d e)).0,
        )
        swap (second k lock a l d) = (
          k,
          shown_second lock a d,
          (branch_verified k lock a sigs preimages l (
              sym (opaque_first k lock a sigs preimages)
              ∙ subst (λ t. verify c height median h t sigs preimages ≡ ok tt) d e)).0,
        )

    -- The claim policy of a valid swap passes exactly for the recipient's two signatures followed
    -- by the secret.
    pub claim_policy-verify :
        (s : AtomicSwap) (p : Policy) (sigs preimages : List ℕ)
        → claim_policy c s ≡ ok p
        → (verify c height median h p sigs preimages ≡ ok tt) ↔ (
            Signed s.recipient sigs preimages
            × Unlocked height (hash s.secret_hash) (drop signature_chunks preimages))
    claim_policy-verify s p sigs preimages e =
        let (l, d) = claim_shape c s p e in
        (
          λ v.
              branch_verified s.recipient (hash s.secret_hash) _ sigs preimages l
                (subst (λ t. verify c height median h t sigs preimages ≡ ok tt) d v),
          λ (g, u).
              subst (λ t. verify c height median h t sigs preimages ≡ ok tt) (sym d)
                (branch_verifies s.recipient (hash s.secret_hash) _ sigs preimages l g u),
        )

    -- The refund policy of a valid swap passes exactly for the sender's two signatures, with
    -- nothing after them, at the refund height or above.
    pub refund_policy-verify :
        (s : AtomicSwap) (p : Policy) (sigs preimages : List ℕ)
        → refund_policy c s ≡ ok p
        → (verify c height median h p sigs preimages ≡ ok tt) ↔ (
            Signed s.refund sigs preimages
            × Unlocked height (above s.refund_height) (drop signature_chunks preimages))
    refund_policy-verify s p sigs preimages e =
        let (l, d) = refund_shape c s p e in
        (
          λ v. branch_verified s.refund (above s.refund_height) _ sigs preimages l (
              sym (opaque_first s.refund (above s.refund_height) _ sigs preimages)
              ∙ subst (λ t. verify c height median h t sigs preimages ≡ ok tt) d v),
          λ (g, u).
              subst (λ t. verify c height median h t sigs preimages ≡ ok tt) (sym d)
                (opaque_first s.refund (above s.refund_height) _ sigs preimages
                  ∙ branch_verifies s.refund (above s.refund_height) _ sigs preimages l g u),
        )
