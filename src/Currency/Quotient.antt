-- ===== src/Currency/Quotient.antt =====
-- core/types/currency.go: the quotients against the numbers.
use qday.Base.{
  ℕ, suc, ◌+◌, ◌-◌, ◌*◌, ◌/◌, ◌%◌, ◌^◌, ◌≤◌, ◌<◌, ◌≡◌, refl, sym, ◌∙◌, ◌≢◌, ◌⊎◌, inl, inr, none,
  some, arith, ltb, ◌==◌, Bool-cases, ap, if◌then◌else◌,
}
use qday.Base.Words.{u64_mod, leading_zeros64}
use qday.Currency.{
  Currency, Order, less, same, more, quo_rem64, shift_left, half, trial, correct, quo_rem, div, cmp,
}
use qday.Currency.Value.{value, IsCurrency, sub_fits, Exactly-fits, cmp-Orders, Orders, value-lt}
use qday.Currency.Product.{mul_word-Exactly}
use qday.Currency.Trial.{
  pow_add, leading_zeros_highest, shifted_word, shifted_divisor, trial_quotient, trial_bounds,
}
use native.Mathlib.Nat.{pow-suc, mod-lt, mul_comm, mul-le-mul_left, mul-le-mul_right}

-- A word quotient of a number below y * 2 ^ 64.
div_word_bounds :
    (n y : ℕ) → n < y * u64_mod → (n / y < u64_mod) × (n / y * y + n % y ≡ n) × (n % y < y)
div_word_bounds n y h = grind arith

div_small :
    (h y : ℕ) → 0 < y → ((0 + h) / y ≤ h) × ((0 + h) / y * y + (0 + h) % y ≡ h) × ((0 + h) % y < y)
div_small h y pos = grind arith

-- Division by a word: the exact quotient and remainder, for every divisor but 0.
pub quo_rem64_exact :
    (c : Currency) (v : ℕ)
    → IsCurrency c
    → v < u64_mod
    → 0 < v
    → (q : Currency) × (r : ℕ) × (quo_rem64 c v ≡ some (q, r))
      × IsCurrency q
      × (value q * v + r ≡ value c)
      × (r < v)
unfolding quo_rem64 value
quo_rem64_exact c v hc hv pos = elim (Bool-cases (ltb c.hi v)) [
  | inl small ↦
      let (fits, exact, below) =
        div_word_bounds (c.hi * u64_mod + c.lo) v (unfold value in grind arith) in
      (
        record { lo = (c.hi * u64_mod + c.lo) / v; hi = 0 },
        (c.hi * u64_mod + c.lo) % v,
        ground arith,
        ground arith,
        omega arith,
        below,
      )
  | inr large ↦
      let (r, top, r_lt) = div_small c.hi v pos in
      let (fits, exact, below) =
        div_word_bounds ((0 * u64_mod + c.hi) % v * u64_mod + c.lo) v (grind arith) in
      (
        record {
          lo = ((0 * u64_mod + c.hi) % v * u64_mod + c.lo) / v;
          hi = (0 * u64_mod + c.hi) / v;
        },
        ((0 * u64_mod + c.hi) % v * u64_mod + c.lo) % v,
        ground arith,
        ground arith,
        omega arith,
        below,
      )
]

-- The incremented quotient, as `q.Lo++; if q.Lo == 0 { q.Hi++ }` leaves it.
next_quotient :
    (tq : ℕ)
    → tq + 1 < u64_mod
    → value (record { lo = (tq + 1) % u64_mod; hi = if (tq + 1) % u64_mod == 0 then 1 else 0 })
      ≡ tq + 1
unfolding value
next_quotient tq h = ground arith

half_value : (c : Currency) → IsCurrency c → (half c).hi * u64_mod + (half c).lo ≡ value c / 2
unfolding half value
half_value c h = omega arith

half_high : (c : Currency) → IsCurrency c → (half c).hi < 9223372036854775808
unfolding half
half_high c h = omega arith

cmp_cases :
    (r v : Currency)
    → IsCurrency r
    → IsCurrency v
    → ((cmp r v ≡ less) × (value r < value v)) ⊎ ((cmp r v ≢ less) × (value v ≤ value r))
cmp_cases r v hr hv = go (cmp r v) (cmp-Orders r v hr hv)
  where
    go :
        (o : Order)
        → Orders o (value r) (value v)
        → ((o ≡ less) × (value r < value v)) ⊎ ((o ≢ less) × (value v ≤ value r))
    go less h = inl (refl, h)
    go same h = inr (λ e. cc, omega arith)
    go more h = inr (λ e. cc, omega arith)

module _ (c v : Currency) (hc : IsCurrency c) (hv : IsCurrency v) where
  -- A quotient that is at most one too small is corrected.
  correct_exact :
      (tq : ℕ)
      → tq + 1 < u64_mod
      → tq * value v ≤ value c
      → value c < (tq + 2) * value v
      → (q r : Currency) × (correct c v tq ≡ some (q, r))
        × IsCurrency q
        × IsCurrency r
        × (value q * value v + value r ≡ value c)
        × (value r < value v)
  unfolding correct
  correct_exact tq fits lo hi =
      let (p, product, p_ok, p_value) =
        Exactly-fits _ _ (mul_word-Exactly v tq hv (omega arith)) (omega (arith, value-lt c hc)) in
      let (r, rest, r_ok, r_value) = sub_fits c p hc p_ok (omega arith) in
      elim (cmp_cases r v r_ok hv) [
        | inl (below, lt) ↦ (
          record { lo = tq; hi = 0 },
          r,
          ground (arith, product, rest, below),
          omega arith,
          r_ok,
          unfold value in omega arith,
          lt,
        )
        | inr (other, ge) ↦
            let (s, once, s_ok, s_value) = sub_fits r v r_ok hv ge in
            (
              record { lo = (tq + 1) % u64_mod; hi = if (tq + 1) % u64_mod == 0 then 1 else 0 },
              s,
              ground (arith, product, rest, other, once),
              ground arith,
              s_ok,
              omega (arith, ap (λ (t : ℕ). t * value v) (next_quotient tq fits)),
              omega arith,
            )
      ]

sum_to_63 : (m : ℕ) → m < 64 → 63 - m + m ≡ 63
sum_to_63 m h = omega arith

width_of : (m : ℕ) → m < 64 → 64 - (63 - m) ≡ suc m
width_of m h = omega arith

height_of : (m : ℕ) → m < 64 → 63 - (63 - m) ≡ m
height_of m h = omega arith

-- The trial when the top bit of the divisor stands at place `m` of its high word.
module _ (c v : Currency) (hc : IsCurrency c) (hv : IsCurrency v) (m : ℕ) (m_lt : m < 64)
    (lo : 2 ^ m ≤ v.hi) (hi : v.hi < 2 * 2 ^ m) where
  powers : 2 ^ (63 - m) * 2 ^ m ≡ 9223372036854775808
  powers = sym (pow_add (63 - m) m) ∙ ap (λ (t : ℕ). 2 ^ t) (sum_to_63 m m_lt)

  abbrev word : ℕ
  word = v.hi * 2 ^ (63 - m) + v.lo / (2 * 2 ^ m)

  word_bounds : (word < u64_mod) × (9223372036854775808 ≤ word)
  word_bounds = shifted_word (2 ^ (63 - m)) (2 ^ m) v.hi v.lo powers hv.low_word lo hi

  shift_left_high : (shift_left v (63 - m)).hi ≡ word
  unfolding shift_left
  shift_left_high = rw (width_of m m_lt, pow-suc, mul_comm (2 ^ m) 2) (omega (arith, word_bounds))

  divisor_split : value v ≡ word * (2 * 2 ^ m) + v.lo % (2 * 2 ^ m)
  unfolding value
  divisor_split = shifted_divisor (2 ^ (63 - m)) (2 ^ m) v.hi v.lo powers hv.low_word lo hi

  trial_value : leading_zeros64 v.hi ≡ 63 - m → trial c v ≡ some (value c / 2 / word / 2 ^ m - 1)
  unfolding trial
  trial_value zeros =
      rw (zeros, shift_left_high, height_of m m_lt, half_value c hc)
        (ground (arith, half_high c hc, word_bounds))

  power_pos : 0 < 2 ^ m
  power_pos = omega arith

  trial_divisor_large : 2 ^ m * u64_mod ≤ word * (2 * 2 ^ m)
  trial_divisor_large = omega (arith, mul-le-mul_right (2 ^ m) word_bounds.1)

  trial_value_bounds :
      let t = value c / 2 / word / 2 ^ m in
      ((t - 1) * value v ≤ value c) × (value c < (t - 1 + 2) * value v) × (t * 2 ^ m < u64_mod)
  trial_value_bounds =
      let (q_lo, q_hi) =
        trial_quotient (value c) word (2 ^ m) (omega (arith, word_bounds)) power_pos in
      trial_bounds (value c) (word * (2 * 2 ^ m)) (value v) (v.lo % (2 * 2 ^ m))
        (value c / 2 / word / 2 ^ m) (2 ^ m) divisor_split (mod-lt v.lo (omega (arith, power_pos)))
        power_pos trial_divisor_large (value-lt c hc) q_lo q_hi

  trial_in_word : value c / 2 / word / 2 ^ m - 1 + 1 < u64_mod
  trial_in_word =
      omega (arith, trial_value_bounds, mul-le-mul_left (value c / 2 / word / 2 ^ m) power_pos)

div_zero : (c v : Currency) → value v ≡ 0 → div c v ≡ none
unfolding div quo_rem quo_rem64 value
div_zero c v h = ground arith

module _ (c v : Currency) (hc : IsCurrency c) (hv : IsCurrency v) where
  trial_exact :
      0 < v.hi
      → (tq : ℕ) × (trial c v ≡ some tq)
        × (tq + 1 < u64_mod)
        × (tq * value v ≤ value c)
        × (value c < (tq + 2) * value v)
  trial_exact pos =
      let (m, zeros, m_lt, lo, hi) = leading_zeros_highest v.hi hv.high_word pos in
      let (low, high, _) = trial_value_bounds c v hc hv m m_lt lo hi in
      (
        value c / 2 / word c v hc hv m m_lt lo hi / 2 ^ m - 1,
        trial_value c v hc hv m m_lt lo hi zeros,
        trial_in_word c v hc hv m m_lt lo hi,
        low,
        high,
      )

  -- Whatever its two words, a divisor that is not 0 gives the exact quotient and remainder.
  pub quo_rem_exact :
      0 < value v
      → (q r : Currency) × (quo_rem c v ≡ some (q, r))
        × IsCurrency q
        × IsCurrency r
        × (value q * value v + value r ≡ value c)
        × (value r < value v)
  unfolding quo_rem
  quo_rem_exact pos = elim (Bool-cases (v.hi == 0)) [
    | inl one_word ↦
        let (q, r, eq, q_ok, exact, lt) =
          quo_rem64_exact c v.lo hc hv.low_word (unfold value in ground arith) in
        let low : value v ≡ v.lo = unfold value in ground arith in
        (
          q,
          record { lo = r; hi = 0 },
          ground (arith, eq),
          q_ok,
          omega (arith, hv.low_word),
          unfold value in ground arith,
          unfold value in ground arith,
        )
    | inr two_words ↦
        let (tq, eq, fits, low, high) = trial_exact (ground arith) in
        let (q, r, eq', q_ok, r_ok, exact, lt) = correct_exact c v hc hv tq fits low high in
        (q, r, ground (arith, eq, eq'), q_ok, r_ok, exact, lt)
  ]

-- `Div` rounds down, and panics exactly for a zero divisor.
pub div_exact :
    (c v : Currency)
    → IsCurrency c
    → IsCurrency v
    → ((value v ≡ 0) × (div c v ≡ none))
      ⊎ ((q : Currency) × (div c v ≡ some q)
          × IsCurrency q
          × (value q * value v ≤ value c)
          × (value c < (value q + 1) * value v))
unfolding div
div_exact c v hc hv = elim (Bool-cases (value v == 0)) [
  | inl zero_divisor ↦ inl (ground arith, div_zero c v (ground arith))
  | inr pos ↦
      let (q, r, eq, q_ok, _, exact, lt) = quo_rem_exact c v hc hv (ground arith) in
      inr (q, ground (arith, eq), q_ok, omega arith, omega arith)
]
