-- ===== src/Policy/Verify.antt =====
-- core/types/policy.go: SpendPolicy.Address and SpendPolicy.Verify; core/types/qday.go:
-- verifyQdayReserve. The captured variables of
-- `verify` are passed along: the signatures and preimages left, and the number of sub-policies.
use qday.Base.{
  ℕ, suc, ◌+◌, ◌-◌, ◌%◌, Bool, true, false, ◌&&◌, ◌||◌, not, List, [], ◌∷◌, ◌++◌, ltb, leb, ◌==◌,
  ◌!=◌, if◌then◌else◌, length, take, drop,
}
use qday.Base.Int.{ℤ, ltb_ℤ}
use qday.Base.Bytes.{Bytes, be_bytes}
use qday.Base.Results.{◌>>◌, Result, ok, err, panic, ◌>>=◌, fail_if}
use qday.Policy.{
  Policy, Policies, above, after, public_key, slhdsa, hash, threshold, opaque, unlock_conditions,
  nil, cons, count, UnlockKey, UnlockConditions, signature_chunks, signature_size,
}
use qday.Policy.Crypto.{Crypto}

pub data PolicyError : Type 0 where
  not_above not_after invalid_signature invalid_reserve_signature invalid_preimage : PolicyError
  too_complex unlock_conditions_nested threshold_exceeded threshold_not_reached : PolicyError
  opaque_policy entropy_key superfluous_signatures superfluous_preimages : PolicyError

pub record Witness : Type 0 where
  pub sigs : List ℕ
  pub preimages : List ℕ
  pub total : ℕ

-- `PolicyOpaque` on the address of a policy.
unfoldable pub make_opaque : Policy → ℕ → Policy
make_opaque (opaque a) _ = opaque a
make_opaque p address = opaque address

unfoldable pub chunk_bytes : List ℕ → Bytes
chunk_bytes [] = []
chunk_bytes (x ∷ xs) = be_bytes 32 x ++ chunk_bytes xs

unfoldable pub all_zero : Bytes → Bool
all_zero [] = true
all_zero (b ∷ bs) = (b == 0) && all_zero bs

module _ (c : Crypto) where
  -- Only the sub-policies of a threshold are made opaque before the hash.
  unfoldable mutual
    unfolding make_opaque

    pub address : Policy → ℕ
    address (unlock_conditions uc) = c.unlock_root uc
    address (threshold n of) = c.address_hash (threshold n (opaque_all of))
    address p = c.address_hash p

    pub opaque_all : Policies → Policies
    opaque_all nil = nil
    opaque_all (cons p ps) = cons (make_opaque p (address p)) (opaque_all ps)

  unfoldable pub policy_opaque : Policy → Policy
  unfolding make_opaque address
  policy_opaque p = make_opaque p (address p)

  unfoldable pub verify_reserve : ℕ → ℕ → List ℕ → Bool
  unfolding chunk_bytes all_zero
  verify_reserve pk sig_hash chunks =
      if length chunks != signature_chunks
      then false
      else (let buf = chunk_bytes chunks in
          if not (all_zero (drop signature_size buf))
          then false
          else c.slhdsa_verify pk sig_hash (take signature_size buf))

  module _ (height : ℕ) (median : ℤ) (sig_hash : ℕ) where
    -- `nextSig` and the check of the signature that it takes.
    unfoldable pub verify_key : ℕ → Witness → Result PolicyError Witness
    verify_key pk w = elim w.sigs [
      | [] ↦ err invalid_signature
      | sig ∷ rest ↦
          (if c.verify_hash pk sig_hash sig
            then ok (record w { sigs = rest })
            else err invalid_signature)
    ]

    unfoldable pub verify_preimage : ℕ → Witness → Result PolicyError Witness
    verify_preimage h w = elim w.preimages [
      | [] ↦ err invalid_preimage
      | x ∷ rest ↦
          (if h == c.sha256 x then ok (record w { preimages = rest }) else err invalid_preimage)
    ]

    unfoldable pub verify_slhdsa : ℕ → Witness → Result PolicyError Witness
    unfolding verify_reserve
    verify_slhdsa pk w =
        if ltb (length w.preimages) signature_chunks
          || not (verify_reserve pk sig_hash (take signature_chunks w.preimages))
        then err invalid_reserve_signature
        else ok (record w { preimages = drop signature_chunks w.preimages })

    unfoldable pub verify_above : ℕ → Witness → Result PolicyError Witness
    verify_above h w = if leb h height then ok w else err not_above

    -- The loop over the keys of the old unlock conditions, with the signatures still required.
    unfoldable pub verify_unlock_keys :
        List UnlockKey → ℕ → Witness → Result PolicyError (ℕ × Witness)
    verify_unlock_keys [] required w = ok (required, w)
    verify_unlock_keys (pk ∷ pks) required w =
        if (required == 0) || ltb (suc (length pks)) required || ltb (length w.sigs) required
        then ok (required, w)
        else if pk.algorithm == c.entropy
        then err entropy_key
        else (elim w.sigs [
          | [] ↦ panic
          | sig ∷ rest ↦
              (if (pk.algorithm == c.ed25519)
                  && not (c.verify_hash (c.key_of_bytes pk.key) sig_hash sig)
                then verify_unlock_keys pks required w
                else verify_unlock_keys pks (required - 1) (record w { sigs = rest }))
        ])

    unfoldable pub verify_unlock : UnlockConditions → Witness → Result PolicyError Witness
    unfolding verify_above verify_unlock_keys
    verify_unlock uc w = do
      w' ← verify_above uc.timelock w
      (required, w'') ← verify_unlock_keys uc.public_keys uc.signatures_required w'
      if required == 0 then ok w'' else err threshold_not_reached

    -- `satisfied` is a uint8.
    unfoldable mutual
      unfolding verify_key verify_preimage verify_slhdsa verify_above verify_unlock

      pub verify_policy : Policy → Witness → Result PolicyError Witness
      verify_policy (above h) w = verify_above h w
      verify_policy (after t) w = if ltb_ℤ t median then ok w else err not_after
      verify_policy (public_key pk) w = verify_key pk w
      verify_policy (slhdsa pk) w = verify_slhdsa pk w
      verify_policy (hash h) w = verify_preimage h w
      verify_policy (threshold n of) w =
          let total = w.total + count of in
          if ltb 1024 total || ltb 255 (count of)
          then err too_complex
          else verify_all of n 0 (record w { total = total })
      verify_policy (opaque a) w = err opaque_policy
      verify_policy (unlock_conditions uc) w = verify_unlock uc w

      pub verify_all : Policies → ℕ → ℕ → Witness → Result PolicyError Witness
      verify_all nil n satisfied w = if satisfied == n then ok w else err threshold_not_reached
      verify_all (cons (unlock_conditions uc) ps) n satisfied w = err unlock_conditions_nested
      verify_all (cons (opaque a) ps) n satisfied w = verify_all ps n satisfied w
      verify_all (cons p ps) n satisfied w =
          if satisfied == n
          then err threshold_exceeded
          else (verify_policy p w >>= λ w'. verify_all ps n ((satisfied + 1) % 256) w')

    -- `Verify`: the policy holds and nothing is left over.
    unfoldable pub verify : Policy → List ℕ → List ℕ → Result PolicyError (Unit {0})
    verify p sigs preimages = do
      w ← verify_policy p (record { sigs = sigs; preimages = preimages; total = 0 })
      fail_if (ltb 0 (length w.sigs)) superfluous_signatures
      fail_if (ltb 0 (length w.preimages)) superfluous_preimages
