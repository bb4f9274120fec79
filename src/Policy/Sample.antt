-- ===== src/Policy/Sample.antt =====
-- core/types/policy.go: keys, signatures and a swap for the tests.
use qday.Base.{ℕ, zero, suc, ◌+◌, ◌≡◌, refl, true, List, [], ◌∷◌, ◌==◌}
use qday.Base.Int.{ℤ}
use qday.Base.Bytes.{be_bytes}
use qday.Base.Results.{ok}
use qday.Policy.{
  Policy, hash, above, opaque, public_key, slhdsa, threshold, cons, nil, QdayKeys, keys_policy,
  signature_chunks, signature_size,
}
use qday.Policy.Crypto.{Crypto}
use qday.Policy.Native.{verify_keys_iff}
use qday.Policy.Swap.{AtomicSwap}
use qday.Policy.Verify.{verify, verify_reserve}

abbrev pub sample_crypto : Crypto
sample_crypto = record {
  address_hash = λ p. 5;
  unlock_root = λ u. 6;
  verify_hash = λ pk h s. s == pk + h;
  slhdsa_verify = λ pk h s. true;
  sha256 = λ x. x + 1;
  key_of_bytes = λ b. 0;
  entropy = 1;
  ed25519 = 2;
}

abbrev pub sample_keys : QdayKeys
sample_keys = record { classical = 11; reserve = 12 }

abbrev pub other_keys : QdayKeys
other_keys = record { classical = 13; reserve = 14 }

abbrev pub replicate : ℕ → ℕ → List ℕ
replicate zero x = []
replicate (suc n) x = x ∷ replicate n x

abbrev pub sample_chunks : List ℕ
sample_chunks = replicate 246 0

abbrev pub sample_swap : AtomicSwap
sample_swap = record {
  recipient = sample_keys;
  refund = other_keys;
  secret_hash = 7;
  refund_height = 800;
}

abbrev pub claim_branch_of : Policy
claim_branch_of = threshold 3 (cons (public_key 11) (cons (slhdsa 12) (cons (hash 7) nil)))

abbrev pub refund_branch_of : Policy
refund_branch_of = threshold 3 (cons (public_key 13) (cons (slhdsa 14) (cons (above 800) nil)))

abbrev pub sample_full : Policy
sample_full = threshold 1 (cons claim_branch_of (cons refund_branch_of nil))

abbrev pub sample_claim : Policy
sample_claim = threshold 1 (cons claim_branch_of (cons (opaque 5) nil))

abbrev pub sample_refund : Policy
sample_refund = threshold 1 (cons (opaque 5) (cons refund_branch_of nil))

pub sample_verified :
    (height : ℕ) (median : ℤ)
    → verify sample_crypto height median 30 (keys_policy sample_keys) (41 ∷ []) sample_chunks
      ≡ ok tt
unfolding verify_reserve signature_chunks signature_size be_bytes
sample_verified height median =
    (verify_keys_iff sample_crypto 30 height median sample_keys (41 ∷ []) sample_chunks).1 (record {
      signature = 41;
      only = refl;
      classical_valid = refl;
      chunks = refl;
      reserve_valid = refl;
    })
