-- ===== src/Currency/Trial.antt =====
-- core/types/currency.go: the trial quotient of `quoRem` is the quotient or one below it.
use qday.Base.{
  ℕ, zero, suc, ◌+◌, ◌-◌, ◌*◌, ◌/◌, ◌%◌, ◌^◌, ◌≤◌, ◌<◌, ◌≡◌, refl, ◌==◌, Bool-cases, inl, inr,
  arith, ap,
}
use qday.Base.Words.{u64_mod, u128_mod, len_loop, leading_zeros64}
use native.Mathlib.Nat.{
  pow-suc, zero-add, suc-add, mul-le-mul_left, mul-le-mul_right, div-lt_iff_lt-mul, div-add-mod',
}

pub pow_add : (a b : ℕ) → 2 ^ (a + b) ≡ 2 ^ a * 2 ^ b
pow_add zero b = rw zero-add (omega arith)
pow_add (suc a) b = rw (suc-add, pow-suc 2 (a + b), pow-suc 2 a) (omega (arith, pow_add a b))

len_loop_zero : (k : ℕ) → len_loop k 0 ≡ 0
unfolding len_loop
len_loop_zero zero = refl
len_loop_zero (suc k) = refl

-- The length of a number that is not 0 is one more than the place of its highest bit.
len_loop_highest :
    (k x : ℕ)
    → x < 2 ^ k
    → 0 < x
    → (m : ℕ) × (len_loop k x ≡ suc m) × (m < k) × (2 ^ m ≤ x) × (x < 2 * 2 ^ m)
unfolding len_loop
len_loop_highest zero x h pos = absurd (omega arith)
len_loop_highest (suc k) x h pos = elim (Bool-cases (x / 2 == 0)) [
  | inl last ↦ (0, ground (arith, len_loop_zero k), omega arith, ground arith, ground arith)
  | inr more ↦
      let (m, len, lt, lo, hi) =
        len_loop_highest k (x / 2) (omega (arith, pow-suc 2 k)) (ground arith) in
      (suc m, ground arith, omega arith, omega (arith, pow-suc 2 m), omega (arith, pow-suc 2 m))
]

pub leading_zeros_highest :
    (x : ℕ)
    → x < u64_mod
    → 0 < x
    → (m : ℕ) × (leading_zeros64 x ≡ 63 - m) × (m < 64) × (2 ^ m ≤ x) × (x < 2 * 2 ^ m)
unfolding leading_zeros64
leading_zeros_highest x h pos =
    let (m, len, lt, lo, hi) = len_loop_highest 64 x h pos in (m, omega arith, lt, lo, hi)

le_one : (e : ℕ) → e < 2 * 1 → e ≤ 1
le_one e h = omega arith

le_odd : (e m : ℕ) → e < 2 * suc (suc m) → e ≤ m + m + 3
le_odd e m h = omega arith

suc-sub-one : (s : ℕ) → suc s - 1 ≡ s
suc-sub-one s = omega arith

-- How far below the divisor the trial divisor can be, times the quotient.
trial_slack : (d e s m : ℕ) → e < 2 * m → m * u64_mod ≤ d → suc s * m < u64_mod → s * e ≤ d
trial_slack d e s zero he hd hs = absurd (omega arith)
trial_slack d e s (suc zero) he hd hs = omega (arith, mul-le-mul_left s (le_one e he))
trial_slack d e s (suc (suc m)) he hd hs = omega (arith, mul-le-mul_left s (le_odd e m he))

-- `t` is the quotient by `d`, a little below the divisor `v`; `e` is how far below.
pub trial_bounds :
    (c d v e t m : ℕ)
    → v ≡ d + e
    → e < 2 * m
    → 0 < m
    → m * u64_mod ≤ d
    → c < u128_mod
    → t * d ≤ c
    → c < (t + 1) * d
    → ((t - 1) * v ≤ c) × (c < (t - 1 + 2) * v) × (t * m < u64_mod)
trial_bounds c d v e zero m hv he hm hd hc lo hi = (omega arith, omega arith, omega arith)
trial_bounds c d v e (suc s) m hv he hm hd hc lo hi = (
  rw (hv, suc-sub-one) (omega (arith, trial_slack d e s m he hd words)),
  rw (hv, suc-sub-one) (omega arith),
  words,
)
  where
    words : suc s * m < u64_mod
    words = omega (arith, mul-le-mul_left (suc s) hd)

-- The high word `w` of a two-word divisor shifted until its top bit is set, and the divisor it
-- leaves for the trial. `p` and `m` are the powers of two of the shift and of the top bit.
module _ (p m h l : ℕ) (pm : p * m ≡ 9223372036854775808) (hl : l < u64_mod) (lo : m ≤ h)
    (hi : h < 2 * m) where
  low_part : l / (2 * m) < p
  low_part = (div-lt_iff_lt-mul (omega arith)).1 (omega (arith, pm))

  pub shifted_word : (h * p + l / (2 * m) < u64_mod) × (9223372036854775808 ≤ h * p + l / (2 * m))
  shifted_word =
      (omega (arith, low_part, pm, mul-le-mul_right p hi), omega (arith, pm, mul-le-mul_right p lo))

  pub shifted_divisor : h * u64_mod + l ≡ (h * p + l / (2 * m)) * (2 * m) + l % (2 * m)
  shifted_divisor = omega (arith, ap (λ (t : ℕ). h * t) pm, div-add-mod' l (2 * m))

floor_bounds : (n y : ℕ) → 0 < y → (n / y * y ≤ n) × (n < (n / y + 1) * y)
floor_bounds n y h = grind arith

-- The quotient of the halved dividend by the shifted word, cut by the shift, is the quotient of the
-- dividend by the trial divisor.
pub trial_quotient :
    (c w m : ℕ)
    → 0 < w
    → 0 < m
    → (c / 2 / w / m * (w * (2 * m)) ≤ c) × (c < (c / 2 / w / m + 1) * (w * (2 * m)))
trial_quotient c w m hw hm =
    let (t_lo, t_hi) = floor_bounds (c / 2 / w) m hm in
    let (q_lo, q_hi) = floor_bounds (c / 2) w hw in
    (omega (arith, mul-le-mul_right w t_lo, q_lo), omega (arith, mul-le-mul_right w t_hi, q_hi))
