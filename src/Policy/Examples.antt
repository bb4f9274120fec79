-- ===== src/Policy/Examples.antt =====
-- core/types/policy.go and core/types/qday_swap.go: the theorems at concrete policies, with
-- signatures that are the sum of key and hash.
use qday.Base.{◌≡◌, refl, ◌↔◌, true, [], ◌∷◌, ◌++◌, drop}
use qday.Base.Int.{pos}
use qday.Base.Results.{ok}
use qday.Policy.{hash, above, QdayKeys, keys_policy, signature_chunks}
use qday.Policy.Hybrid.{
  Signed, Names, Unlocked, verify-Signed, claim_policy-verify, refund_policy-verify,
}
use qday.Policy.Native.{Authorized, is_native_policy, verify_keys_iff}
use qday.Policy.Sample.{
  sample_crypto, sample_keys, other_keys, sample_chunks, sample_swap, sample_claim, sample_refund,
  sample_full, sample_verified,
}
use qday.Policy.Swap.{
  claim_policy, refund_policy, swap_policy, is_swap_spend_policy, claim_policy-address,
}
use qday.Policy.Verify.{address, verify}

verify_keys_iff_example :
    (verify sample_crypto 5 (pos 0) 30 (keys_policy sample_keys) (41 ∷ []) sample_chunks ≡ ok tt)
    ↔ Authorized sample_crypto 30 sample_keys (41 ∷ []) sample_chunks
verify_keys_iff_example =
    verify_keys_iff sample_crypto 30 5 (pos 0) sample_keys (41 ∷ []) sample_chunks

verify-Signed_example :
    (k : QdayKeys) × Names k (keys_policy sample_keys)
    × Signed sample_crypto 30 k (41 ∷ []) sample_chunks
verify-Signed_example =
    verify-Signed sample_crypto 30 5 (pos 0) (keys_policy sample_keys) (41 ∷ []) sample_chunks
      (unfold keys_policy is_native_policy in refl) (sample_verified 5 (pos 0))

claim_policy-verify_example :
    (verify sample_crypto 5 (pos 0) 30 sample_claim (41 ∷ []) (sample_chunks ++ (6 ∷ [])) ≡ ok tt)
    ↔ (Signed sample_crypto 30 sample_keys (41 ∷ []) (sample_chunks ++ (6 ∷ []))
        × Unlocked sample_crypto 30 5 (hash 7) (drop signature_chunks (sample_chunks ++ (6 ∷ []))))
claim_policy-verify_example =
    claim_policy-verify sample_crypto 30 5 (pos 0) sample_swap sample_claim (41 ∷ [])
      (sample_chunks ++ (6 ∷ [])) (unfold claim_policy in refl)

refund_policy-verify_example :
    (verify sample_crypto 900 (pos 0) 30 sample_refund (43 ∷ []) sample_chunks ≡ ok tt) ↔ (
      Signed sample_crypto 30 other_keys (43 ∷ []) sample_chunks
      × Unlocked sample_crypto 30 900 (above 800) (drop signature_chunks sample_chunks))
refund_policy-verify_example =
    refund_policy-verify sample_crypto 30 900 (pos 0) sample_swap sample_refund (43 ∷ [])
      sample_chunks (unfold refund_policy in refl)

claim_policy-address_example :
    (address sample_crypto sample_claim ≡ address sample_crypto sample_full)
    × (address sample_crypto sample_refund ≡ address sample_crypto sample_full)
    × (is_swap_spend_policy sample_claim ≡ true)
    × (is_swap_spend_policy sample_refund ≡ true)
claim_policy-address_example =
    claim_policy-address sample_crypto sample_swap sample_full sample_claim sample_refund
      (unfold swap_policy in refl) (unfold claim_policy in refl) (unfold refund_policy in refl)
