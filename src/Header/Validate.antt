-- ===== src/Header/Validate.antt =====
-- core/consensus/validation.go: ValidateHeader.
use qday.Base.{
  ℕ, ◌%◌, ◌/◌, ◌<◌, sym, Bool-cases, ◌≤◌, ◌≡◌, ◌≢◌, ◌↔◌, false, some, arith, ltb, ◌==◌, ◌!=◌,
  if◌then◌else◌, Option-cases, inl, inr,
}
use qday.Base.Int.{ℤ, ltb_ℤ}
use qday.Base.Results.{◌>>=◌, ◌>>◌, Result, ok, panic, fail_if, or_panic}
use qday.Base.Options.{some-inj}
use qday.State.{State, child_height, pow_target, nonce_factor}
use qday.Work.Target.{inv_target, max_target}
use qday.Work.Value.{value}
use qday.Header.{BlockHeader, median_timestamp}
use qday.Header.Median.{IsMedian, recent_timestamps, median_timestamp-IsMedian}

pub data HeaderError : Type 0 where
  wrong_parent_id timestamp_too_early nonce_not_divisible insufficient_work : HeaderError

-- `bh.Nonce%s.NonceFactor()` panics for a factor of zero.
unfoldable pub checked_mod : ℕ → ℕ → Result HeaderError ℕ
checked_mod a b = if b == 0 then panic else ok (a % b)

-- `header_id` is the hash of a header. A hash has less work than the target if it is the larger
-- number.
module _ (header_id : BlockHeader → ℕ) where
  unfoldable pub validate_header : State → BlockHeader → Result HeaderError (Unit {0})
  unfolding checked_mod
  validate_header s bh = do
    fail_if (bh.parent_id != s.index.id) wrong_parent_id
    median ← or_panic (median_timestamp s)
    fail_if (ltb_ℤ bh.timestamp median) timestamp_too_early
    rest ← checked_mod bh.nonce (nonce_factor s)
    fail_if (rest != 0) nonce_not_divisible
    target ← or_panic (pow_target s)
    fail_if (ltb target (header_id bh)) insufficient_work

  -- The nonce is any before the ASIC hardfork, and a multiple of the factor of the network from it on.
  pub data IsDivisible (s : State) (nonce : ℕ) : Type 0 where
    before : child_height s < s.network.asic_height → IsDivisible s nonce
    from :
        s.network.asic_height ≤ child_height s
        → s.network.asic_nonce_factor ≢ 0
        → nonce % s.network.asic_nonce_factor ≡ 0
        → IsDivisible s nonce

  -- The target of a child: that of the state before the final cut, and from it on the greatest
  -- number of 256 bits divided by the difficulty, which is not zero.
  pub data IsTarget (s : State) (target : ℕ) : Type 0 where
    before :
        child_height s < s.network.v2_final_cut_height → target ≡ s.child_target → IsTarget s target
    from :
        s.network.v2_final_cut_height ≤ child_height s
        → value s.difficulty ≢ 0
        → target ≡ max_target / value s.difficulty
        → IsTarget s target

  nonce_factor-IsDivisible :
      (s : State) (nonce : ℕ)
      → nonce_factor s ≢ 0
      → nonce % nonce_factor s ≡ 0
      → IsDivisible s nonce
  unfolding nonce_factor
  nonce_factor-IsDivisible s nonce some_factor whole =
      elim (Bool-cases (ltb (child_height s) s.network.asic_height)) [
        | inl early ↦ before (ground (arith, early))
        | inr late ↦ from (ground (arith, late)) (rw late at some_factor) (rw late at whole)
      ]

  IsDivisible-checked :
      (s : State) (nonce : ℕ) → IsDivisible s nonce → checked_mod nonce (nonce_factor s) ≡ ok 0
  unfolding checked_mod nonce_factor
  IsDivisible-checked s nonce (before early) = ground (arith, early)
  IsDivisible-checked s nonce (from late some_factor whole) =
      ground (arith, late, some_factor, whole)

  pow_target-IsTarget : (s : State) (target : ℕ) → (pow_target s ≡ some target) ↔ IsTarget s target
  unfolding pow_target inv_target
  pow_target-IsTarget s target = (is_target, target_is)
    where
      is_target : pow_target s ≡ some target → IsTarget s target
      is_target e = elim (Bool-cases (ltb (child_height s) s.network.v2_final_cut_height)) [
        | inl early ↦ before (ground (arith, early)) (sym (some-inj (rw early at e)))
        | inr late ↦ elim (Bool-cases (value s.difficulty == 0)) [
          | inl none_left ↦ absurd (cc (rw (late, none_left) at e))
          | inr left ↦
              from (ground (arith, late)) (ground (arith, left))
                (sym (some-inj (rw (late, left) at e)))
        ]
      ]

      target_is : IsTarget s target → pow_target s ≡ some target
      target_is (before early e) = ground (arith, early, e)
      target_is (from late some_work e) = ground (arith, late, some_work, e)

  -- What a header that passes has: the parent, a timestamp not before the median of the recent ones,
  -- a divisible nonce, and a hash at or below the target.
  pub record IsChild (s : State) (bh : BlockHeader) : Type 0 where
    pub parent : bh.parent_id ≡ s.index.id
    pub median : ℤ
    pub median_of : median_timestamp s ≡ some median
    pub is_median : IsMedian (recent_timestamps s) median
    pub not_early : ltb_ℤ bh.timestamp median ≡ false
    pub divisible : IsDivisible s bh.nonce
    pub target : ℕ
    pub is_target : IsTarget s target
    pub works : header_id bh ≤ target

  -- A header passes exactly if it names the parent, is not before the median that the code finds,
  -- which is a median of the last timestamps, of which there are as many as the height of the block,
  -- but at most 11, has from the ASIC hardfork on a nonce divisible by the factor of the network,
  -- which is not zero, and has an ID not above the target, which from the final cut on is the greatest
  -- number of 256 bits divided by the difficulty, which is not zero.
  pub validate_header_iff :
      (s : State) (bh : BlockHeader) → (validate_header s bh ≡ ok tt) ↔ IsChild s bh
  unfolding validate_header
  validate_header_iff s bh = (accepted, accepts)
    where
      accepts : IsChild s bh → validate_header s bh ≡ ok tt
      accepts c = ground (
        arith,
        c.median_of,
        IsDivisible-checked s bh.nonce c.divisible,
        (pow_target-IsTarget s c.target).1 c.is_target,
      )

      accepted : validate_header s bh ≡ ok tt → IsChild s bh
      accepted h = elim (Option-cases (median_timestamp s)) [
        | inl e ↦ ground arith
        | inr (m, me) ↦ elim (Option-cases (pow_target s)) [
          | inl e ↦ ground arith
          | inr (t, te) ↦ record {
            parent = ground arith;
            median = m;
            median_of = me;
            is_median = median_timestamp-IsMedian s m me;
            not_early = ground arith;
            divisible = nonce_factor-IsDivisible s bh.nonce (ground arith) (ground arith);
            target = t;
            is_target = (pow_target-IsTarget s t).0 te;
            works = ground arith;
          }
        ]
      ]
