-- ===== src/Policy/Native.antt =====
-- core/types/qday_swap.go: IsQdayNativePolicy.
use qday.Base.{
  ℕ, zero, suc, ◌≤◌, ◌≡◌, refl, subst, ap, ◌↔◌, Bool, true, false, ◌&&◌, List, [], ◌∷◌, ◌==◌,
  length, length-drop, take, drop, arith, inl, inr, List-cases,
}
use qday.Base.Int.{ℤ}
use qday.Base.Results.{ok}
use qday.Policy.{
  Policy, public_key, slhdsa, threshold, nil, cons, QdayKeys, keys_policy, signature_chunks,
}
use qday.Policy.Crypto.{Crypto}
use qday.Policy.Verify.{Witness, verify_key, verify_reserve, verify_slhdsa, verify_policy, verify}

unfoldable pub is_public_key : Policy → Bool
is_public_key (public_key pk) = true
is_public_key p = false

unfoldable pub is_slhdsa : Policy → Bool
is_slhdsa (slhdsa pk) = true
is_slhdsa p = false

unfoldable pub is_native_policy : Policy → Bool
unfolding is_public_key is_slhdsa
is_native_policy (threshold n (cons p (cons q nil))) = (n == 2) && is_public_key p && is_slhdsa q
is_native_policy p = false

pub take_all : {A : Type 0} (xs : List A) (n : ℕ) → length xs ≡ n → take n xs ≡ xs
take_all [] zero e = refl
take_all [] (suc n) e = refl
take_all (x ∷ xs) zero e = absurd (omega arith)
take_all (x ∷ xs) (suc n) e = ap (λ t. x ∷ t) (take_all xs n (omega arith))

pub is_public_key-eq : (p : Policy) → is_public_key p ≡ true → (pk : ℕ) × (p ≡ public_key pk)
unfolding is_public_key
is_public_key-eq (public_key pk) e = (pk, refl)
is_public_key-eq p e = cc

pub is_slhdsa-eq : (p : Policy) → is_slhdsa p ≡ true → (pk : ℕ) × (p ≡ slhdsa pk)
unfolding is_slhdsa
is_slhdsa-eq (slhdsa pk) e = (pk, refl)
is_slhdsa-eq p e = cc

pair :
    {n : ℕ} {p q : Policy}
    → n ≡ 2
    → (pk : ℕ) × (p ≡ public_key pk)
    → (r : ℕ) × (q ≡ slhdsa r)
    → (k : QdayKeys) × (threshold n (cons p (cons q nil)) ≡ keys_policy k)
unfolding keys_policy
pair e (pk, a) (r, b) = (record { classical = pk; reserve = r }, cc (e, a, b))

-- A native policy is the policy of a pair of keys.
pub is_native_policy-keys_policy :
    (p : Policy) → is_native_policy p ≡ true → (k : QdayKeys) × (p ≡ keys_policy k)
unfolding is_native_policy keys_policy
is_native_policy-keys_policy (threshold n (cons p (cons q nil))) e =
    pair (ground arith) (is_public_key-eq p (ground arith)) (is_slhdsa-eq q (ground arith))
is_native_policy-keys_policy (threshold n nil) e = cc
is_native_policy-keys_policy (threshold n (cons p nil)) e = cc
is_native_policy-keys_policy (threshold n (cons p (cons q (cons r rs)))) e = cc
is_native_policy-keys_policy p e = cc

module _ (c : Crypto) (h : ℕ) where
  -- What one Ed25519 signature and one SLH-DSA signature under the two keys are.
  pub record Authorized (k : QdayKeys) (sigs preimages : List ℕ) : Type 0 where
    pub signature : ℕ
    pub only : sigs ≡ signature ∷ []
    pub classical_valid : c.verify_hash k.classical h signature ≡ true
    pub chunks : length preimages ≡ signature_chunks
    pub reserve_valid : verify_reserve c k.reserve h preimages ≡ true

  module _ (height : ℕ) (median : ℤ) where
    pub verify_slhdsa-eq-ok :
        (pk : ℕ) (w w' : Witness)
        → verify_slhdsa c height median h pk w ≡ ok w'
        → (signature_chunks ≤ length w.preimages)
          × (verify_reserve c pk h (take signature_chunks w.preimages) ≡ true)
          × (w' ≡ record w { preimages = drop signature_chunks w.preimages })
    unfolding verify_slhdsa
    verify_slhdsa-eq-ok pk w w' e = ground arith

    pub verify_key-eq-ok :
        (pk : ℕ) (w w' : Witness)
        → verify_key c height median h pk w ≡ ok w'
        → (s : ℕ) × (rest : List ℕ) × (w.sigs ≡ s ∷ rest)
          × (c.verify_hash pk h s ≡ true)
          × (w' ≡ record w { sigs = rest })
    unfolding verify_key
    verify_key-eq-ok pk w w' e = elim (List-cases w.sigs) [
      | inl n ↦ ground (arith, n)
      | inr (s, rest, n) ↦ (s, rest, n, ground (arith, n), ground (arith, n))
    ]

    -- The policy of a pair of keys verifies exactly for one valid Ed25519 signature and 246 chunks
    -- that are a valid SLH-DSA signature, with nothing left over.
    pub verify_keys_iff :
        (k : QdayKeys) (sigs preimages : List ℕ)
        → (verify c height median h (keys_policy k) sigs preimages ≡ ok tt)
          ↔ Authorized k sigs preimages
    unfolding verify verify_policy keys_policy
    verify_keys_iff k sigs preimages = (to, of)
      where
        to :
            verify c height median h (keys_policy k) sigs preimages ≡ ok tt
            → Authorized k sigs preimages
        to e = elim (List-cases sigs) [
          | inl n ↦ ground (arith, n)
          | inr (s, rest, n) ↦
              (let all_used : length preimages ≡ signature_chunks =
                  ground (arith, n, length-drop signature_chunks preimages) in
                record {
                  signature = s;
                  only = ground (arith, n);
                  classical_valid = ground (arith, n);
                  chunks = all_used;
                  reserve_valid =
                      subst (λ t. verify_reserve c k.reserve h t ≡ true)
                        (take_all preimages signature_chunks all_used) (ground (arith, n));
                })
        ]

        of :
            Authorized k sigs preimages
            → verify c height median h (keys_policy k) sigs preimages ≡ ok tt
        of a = ground (
          arith,
          a.only,
          a.chunks,
          a.classical_valid,
          a.reserve_valid,
          take_all preimages signature_chunks a.chunks,
          length-drop signature_chunks preimages,
        )
