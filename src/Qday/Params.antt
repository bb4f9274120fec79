-- ===== src/Qday/Params.antt =====
-- core/consensus/qday.go: QdayParams.Validate. The decoding of a curve point is a parameter.
use qday.Base.{
  ℕ, ◌+◌, ◌*◌, ◌%◌, ◌≤◌, ◌<◌, ◌≡◌, refl, ◌≢◌, ◌↔◌, Bool, true, false, ◌||◌, not, Option, none, some,
  arith, ltb, ◌==◌, ◌!=◌, Option-cases, inl, inr,
}
use qday.Base.Results.{◌>>=◌, ◌>>◌, Result, ok, err, fail_if, or_panic}
use qday.Base.Words.{u64_mod, u128_mod}
use qday.Currency.{
  Currency, hastings_per_siacoin, mul_word, equals, is_zero, mul64_with_overflow, add_with_overflow,
}
use qday.Currency.Value.{value, IsCurrency, is_zero_iff, add_with_overflow_exact}
use qday.Currency.Product.{mul64_with_overflow_exact}
use qday.State.{QdayParams}

pub data ParamsError : Type 0 where
  unsupported_version wrong_premine invalid_parameters emission_overflows : ParamsError
  gross_emission_overflows invalid_canary : ParamsError

unfoldable pub invalid : QdayParams → Bool
invalid p =
    (p.domain == 0)
    || is_zero p.reward
    || is_zero p.proof_fee
    || (p.mining_blocks == 0)
    || ltb 10000000 p.mining_blocks
    || (p.shield_blocks == 0)
    || ltb 10000000 p.shield_blocks
    || (p.decay_blocks == 0)
    || ltb 10000000 p.decay_blocks
    || (p.decay_step == 0)
    || (p.decay_blocks % p.decay_step != 0)
    || (p.activation_delay == 0)
    || ltb 100000 p.activation_delay
    || ltb 32 p.defend_bits

emission_fits :
    (p : QdayParams)
    → IsCurrency p.reward
    → IsCurrency p.premine_amount
    → p.mining_blocks < u64_mod
    → (((mul64_with_overflow p.reward p.mining_blocks).1 ≡ false)
        × ((add_with_overflow (mul64_with_overflow p.reward p.mining_blocks).0 p.premine_amount).1
            ≡ false))
      ↔ (value p.reward * p.mining_blocks + value p.premine_amount < u128_mod)
emission_fits p hr hm lt =
    let (c_ok, flag, exact) = mul64_with_overflow_exact p.reward p.mining_blocks hr lt in
    let (flag', _, _) =
      add_with_overflow_exact (mul64_with_overflow p.reward p.mining_blocks).0 p.premine_amount c_ok
        hm in
    (
      λ (a, b). ground (arith, exact a),
      λ h.
          let one : (mul64_with_overflow p.reward p.mining_blocks).1 ≡ false = ground arith in
          (one, ground (arith, exact one)),
    )

premine_coins :
    mul_word hastings_per_siacoin 500000
    ≡ some (record { lo = 2538472135152631808; hi = 27105054312 })
unfolding mul_word mul64_with_overflow
premine_coins = refl

premine_equals :
    (c : Currency)
    → equals c (record { lo = 2538472135152631808; hi = 27105054312 }) ≡ true
      ↔ c ≡ record { lo = 2538472135152631808; hi = 27105054312 }
unfolding equals
premine_equals c = ground arith

module _ (decode_point : ℕ → Option ℕ) (identity : ℕ) where
  unfoldable pub check_canary : ℕ → Result ParamsError (Unit {0})
  check_canary canary = elim (decode_point canary) [
    | none ↦ err invalid_canary
    | some point ↦ fail_if (point == identity) invalid_canary
  ]

  unfoldable pub validate_params : QdayParams → Result ParamsError (Unit {0})
  unfolding invalid check_canary
  validate_params p = do
    fail_if (p.rules_version != 2) unsupported_version
    premine ← or_panic (mul_word hastings_per_siacoin 500000)
    fail_if (not (equals p.premine_amount premine)) wrong_premine
    fail_if (invalid p) invalid_parameters
    let mined = mul64_with_overflow p.reward p.mining_blocks
    fail_if mined.1 emission_overflows
    fail_if (add_with_overflow mined.0 p.premine_amount).1 gross_emission_overflows
    check_canary p.canary

  -- What accepted parameters are: no part of the schedule is empty, the decay is a whole number of
  -- steps, and all coins that will ever be paid fit in 128 bits.
  pub record IsParams (p : QdayParams) : Type 0 where
    pub version : p.rules_version ≡ 2
    pub premine : p.premine_amount ≡ record { lo = 2538472135152631808; hi = 27105054312 }
    pub domain : p.domain ≢ 0
    pub reward : value p.reward ≢ 0
    pub fee : value p.proof_fee ≢ 0
    pub mining : (1 ≤ p.mining_blocks) × (p.mining_blocks ≤ 10000000)
    pub shield : (1 ≤ p.shield_blocks) × (p.shield_blocks ≤ 10000000)
    pub decay : (1 ≤ p.decay_blocks) × (p.decay_blocks ≤ 10000000)
    pub step : (1 ≤ p.decay_step) × (p.decay_blocks % p.decay_step ≡ 0)
    pub delay : (1 ≤ p.activation_delay) × (p.activation_delay ≤ 100000)
    pub bits : p.defend_bits ≤ 32
    pub emission : value p.reward * p.mining_blocks + value p.premine_amount < u128_mod
    pub canary : ℕ
    pub canary_of : decode_point p.canary ≡ some canary
    pub canary_proper : canary ≢ identity

  -- The parameters that pass are exactly those.
  pub validate_params_iff :
      (p : QdayParams)
      → IsCurrency p.reward
      → IsCurrency p.premine_amount
      → (validate_params p ≡ ok tt) ↔ IsParams p
  unfolding validate_params invalid check_canary
  validate_params_iff p hr hm = (accepted, accepts)
    where
      accepts : IsParams p → validate_params p ≡ ok tt
      accepts c =
          let fits = (emission_fits p hr hm (omega (arith, c.mining.1))).1 c.emission in
          ground (
            arith,
            premine_coins,
            premine_equals p.premine_amount,
            fits,
            is_zero_iff p.reward,
            is_zero_iff p.proof_fee,
            c.version,
            c.premine,
            c.domain,
            c.reward,
            c.fee,
            c.mining,
            c.shield,
            c.decay,
            c.step,
            c.delay,
            c.bits,
            c.canary_of,
            c.canary_proper,
          )

      accepted : validate_params p ≡ ok tt → IsParams p
      accepted h =
          let fits = emission_fits p hr hm in
          let e = premine_equals p.premine_amount in
          elim (Option-cases (decode_point p.canary)) [
            | inl missing ↦ ground (arith, premine_coins)
            | inr (point, here) ↦ record {
              version = ground (arith, premine_coins);
              premine = ground (arith, premine_coins, e);
              domain = ground (arith, premine_coins);
              reward = ground (arith, premine_coins, is_zero_iff p.reward);
              fee = ground (arith, premine_coins, is_zero_iff p.proof_fee);
              mining = (ground (arith, premine_coins), ground (arith, premine_coins));
              shield = (ground (arith, premine_coins), ground (arith, premine_coins));
              decay = (ground (arith, premine_coins), ground (arith, premine_coins));
              step = (ground (arith, premine_coins), ground (arith, premine_coins));
              delay = (ground (arith, premine_coins), ground (arith, premine_coins));
              bits = ground (arith, premine_coins);
              emission = ground (arith, premine_coins, fits);
              canary = point;
              canary_of = here;
              canary_proper = ground (arith, premine_coins, here);
            }
          ]
