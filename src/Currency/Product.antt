-- ===== src/Currency/Product.antt =====
-- core/types/currency.go: the products against the numbers.
use qday.Base.{
  ℕ, ◌+◌, ◌*◌, ◌/◌, ◌≤◌, ◌<◌, ◌≡◌, refl, ◌⊎◌, inl, inr, Bool, true, false, some, arith, leb, zero,
  suc,
}
use qday.Base.Words.{u64_mod, u128_mod}
use qday.Currency.{Currency, mul_with_overflow, mul, mul64_with_overflow, mul_word, checked}
use qday.Currency.Value.{value, IsCurrency, Exactly}
use native.Mathlib.Nat.{mul-zero, zero-mul}

-- What `Mul64WithOverflow` returns: the flag says whether the product needs more than 128 bits,
-- and without it the product is exact.
pub mul64_with_overflow_exact :
    (c : Currency) (v : ℕ)
    → IsCurrency c
    → v < u64_mod
    → IsCurrency (mul64_with_overflow c v).0
      × ((mul64_with_overflow c v).1 ≡ leb 340282366920938463463374607431768211456 (value c * v))
      × ((mul64_with_overflow c v).1 ≡ false → value (mul64_with_overflow c v).0 ≡ value c * v)
unfolding mul64_with_overflow value
mul64_with_overflow_exact c v hc hv = ground arith

pub mul_word-Exactly :
    (c : Currency) (v : ℕ) → IsCurrency c → v < u64_mod → Exactly (value c * v) (mul_word c v)
unfolding mul_word
mul_word-Exactly c v hc hv = go (mul64_with_overflow c v) (mul64_with_overflow_exact c v hc hv)
  where
    go :
        (r : Currency × Bool)
        → IsCurrency r.0
          × (r.1 ≡ leb 340282366920938463463374607431768211456 (value c * v))
          × (r.1 ≡ false → value r.0 ≡ value c * v)
        → Exactly (value c * v) (checked r)
    go (s, true) h = ground arith
    go (s, false) h = ground arith

product_parts :
    (c v : Currency)
    → value c * value v
      ≡ c.hi * v.hi * 340282366920938463463374607431768211456
        + (c.hi * v.lo + c.lo * v.hi) * 18446744073709551616
        + c.lo * v.lo
unfolding value
product_parts c v = omega arith

high_product : (a b : ℕ) → a * b < 1 → (a ≡ 0) ⊎ (b ≡ 0)
high_product zero b h = inl refl
high_product (suc a) zero h = inr refl
high_product (suc a) (suc b) h = absurd (grind arith)

zero_times : (a b : ℕ) → a ≡ 0 → a * b ≡ 0
zero_times zero b e = zero-mul b
zero_times (suc a) b e = absurd (omega arith)

times_zero : (a b : ℕ) → b ≡ 0 → a * b ≡ 0
times_zero a zero e = mul-zero a
times_zero a (suc b) e = absurd (omega arith)

module _ (c v : Currency) (hc : IsCurrency c) (hv : IsCurrency v) where
  -- A product of at most 128 bits is returned exactly, and not flagged.
  pub mul_with_overflow_fits :
      value c * value v < u128_mod
      → IsCurrency (mul_with_overflow c v).0
        × (value (mul_with_overflow c v).0 ≡ value c * value v)
        × ((mul_with_overflow c v).1 ≡ false)
  unfolding mul_with_overflow value
  mul_with_overflow_fits h = elim (high_product c.hi v.hi (omega (arith, product_parts c v))) [
    | inl e ↦ ground (arith, zero_times c.hi v.lo e, zero_times c.hi v.hi e, product_parts c v)
    | inr e ↦ ground (arith, times_zero c.lo v.hi e, times_zero c.hi v.hi e, product_parts c v)
  ]

  -- The first carry goes into the second sum and not into the flag: with a one-word factor whose
  -- product with the high word fits a word, no overflow is ever flagged.
  pub mul_with_overflow_unflagged :
      v.hi ≡ 0 → c.hi * v.lo < u64_mod → (mul_with_overflow c v).1 ≡ false
  unfolding mul_with_overflow
  mul_with_overflow_unflagged e h = ground (arith, times_zero c.lo v.hi e, bound)
    where
      bound : c.lo * v.lo / u64_mod < u64_mod
      bound = grind arith

-- So `Mul` can return a wrong product in place of its panic.
pub mul_silent_overflow :
    (c v : Currency)
    → IsCurrency c
    → IsCurrency v
    → v.hi ≡ 0
    → c.hi * v.lo < u64_mod
    → u128_mod ≤ value c * value v
    → (s : Currency) × (mul c v ≡ some s) × (value s < value c * value v)
unfolding mul checked
mul_silent_overflow c v hc hv e h big =
    ((mul_with_overflow c v).0, rw (mul_with_overflow_unflagged c v hc hv e h, checked), lt)
  where
    lt : value (mul_with_overflow c v).0 < value c * value v
    lt = unfold mul_with_overflow value in omega arith
