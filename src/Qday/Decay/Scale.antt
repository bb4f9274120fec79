-- ===== src/Qday/Decay/Scale.antt =====
-- core/consensus/qday.go: the quotient and remainder of QdayValue against the exact part.
use qday.Base.{ℕ, ◌+◌, ◌-◌, ◌*◌, ◌/◌, ◌≤◌, ◌<◌, ◌≡◌, sym, ap, ◌∙◌, some, arith}
use native.Mathlib.Nat.{mul-le-mul_left, mul-le-mul, le_of_mul-le-mul_right, div-eq_of_lt-le}
use qday.Base.Options.{◌>>=◌}
use qday.Base.Words.{u64_mod, u128_mod}
use qday.Currency.{Currency, div_word, mul_word, add}
use qday.Currency.Value.{value, value-lt, IsCurrency, Exactly-fits, add-Exactly, sub_fits}
use qday.Currency.Product.{mul_word-Exactly}
use qday.Currency.Quotient.{quo_rem64_exact}
use qday.Qday.Decay.{scale}

pub div_word_exact :
    (c : Currency) (v : ℕ)
    → IsCurrency c
    → v < u64_mod
    → 0 < v
    → (q : Currency) × (div_word c v ≡ some q)
      × IsCurrency q
      × (value q * v ≤ value c)
      × (value c < (value q + 1) * v)
unfolding div_word
div_word_exact c v hc hv pos =
    let (q, r, eq, q_ok, exact, lt) = quo_rem64_exact c v hc hv pos in
    (q, ground (arith, eq), q_ok, omega arith, omega arith)

module _ (v q r n m d : ℕ) (split : q * n + r ≡ v) (le : m ≤ n) (low : d * n ≤ r * m) where
  whole : v * m ≡ q * n * m + r * m
  whole =
      let spread : (q * n + r) * m ≡ q * n * m + r * m = grind arith in
      ap (λ t. t * m) (sym split) ∙ spread

  -- The sum of the two scaled parts, times the whole.
  parts : (q * m + d) * n ≤ v * m
  parts = let sum : (q * m + d) * n ≡ q * n * m + d * n = grind arith in omega (arith, whole)

  -- No more than the whole is left.
  parts_le : 0 < n → q * m + d ≤ v
  parts_le pos = le_of_mul-le-mul_right (omega (arith, parts, mul-le-mul_left v le)) pos

  scaled : r * m < (d + 1) * n → v * m / n ≡ q * m + d
  scaled high =
      let sum : (q * m + d + 1) * n ≡ q * n * m + (d + 1) * n = grind arith in
      div-eq_of_lt-le n parts (omega (arith, whole))

small_product : (r n m : ℕ) → r < n → m ≤ n → n < u64_mod → r * m < u128_mod
small_product r n m lt le h = omega (
  arith,
  mul-le-mul {n₁ = r} {m₁ = m} {n₂ = u64_mod - 1} {m₂ = u64_mod - 1} (omega arith) (omega arith),
)

module _ (v : Currency) (decay remaining : ℕ) (hv : IsCurrency v) (hd : decay < u64_mod)
    (pos : 0 < decay) (le : remaining ≤ decay) where
  -- The two parts of the value, once it is divided.
  scale_parts :
      (q r : Currency)
      → IsCurrency q
      → IsCurrency r
      → value q * decay + value r ≡ value v
      → value r < decay
      → (c : Currency) × ((mul_word q remaining >>= λ a.
            mul_word r remaining >>= λ b. div_word b decay >>= λ d. add a d)
          ≡ some c)
        × IsCurrency c
        × (value c ≡ value v * remaining / decay)
  scale_parts q r q_ok r_ok split lt =
      let small : value q * remaining < u128_mod =
        omega (arith, value-lt v hv, mul-le-mul_left (value q) le) in
      let (a, ea, a_ok, va) =
        Exactly-fits (value q * remaining) (mul_word q remaining)
          (mul_word-Exactly q remaining q_ok (omega arith)) small in
      let (b, eb, b_ok, vb) =
        Exactly-fits (value r * remaining) (mul_word r remaining)
          (mul_word-Exactly r remaining r_ok (omega arith))
          (small_product (value r) decay remaining lt le hd) in
      sum a b ea eb a_ok b_ok va vb (div_word_exact b decay b_ok hd pos)
    where
      sum :
          (a b : Currency)
          → mul_word q remaining ≡ some a
          → mul_word r remaining ≡ some b
          → IsCurrency a
          → IsCurrency b
          → value a ≡ value q * remaining
          → value b ≡ value r * remaining
          → (d : Currency) × (div_word b decay ≡ some d)
            × IsCurrency d
            × (value d * decay ≤ value b)
            × (value b < (value d + 1) * decay)
          → (c : Currency) × ((mul_word q remaining >>= λ a.
                mul_word r remaining >>= λ b. div_word b decay >>= λ d. add a d)
              ≡ some c)
            × IsCurrency c
            × (value c ≡ value v * remaining / decay)
      sum a b ea eb a_ok b_ok va vb (d, ed, d_ok, low, high) =
          let low' : value d * decay ≤ value r * remaining = omega arith in
          let bound =
            parts_le (value v) (value q) (value r) decay remaining (value d) split le low' pos in
          let (c, ec, c_ok, vc) =
            Exactly-fits (value a + value d) (add a d) (add-Exactly a d a_ok d_ok)
              (omega (arith, value-lt v hv)) in
          let exact =
            scaled (value v) (value q) (value r) decay remaining (value d) split le low'
              (omega arith) in
          (c, ground (arith, ea, eb, ed, ec), c_ok, omega arith)

  -- The exact part of the value, rounded down; nothing overflows.
  pub scale_exact :
      (c : Currency) × (scale v decay remaining ≡ some c)
      × IsCurrency c
      × (value c ≡ value v * remaining / decay)
  unfolding scale
  scale_exact =
      let (q, eq, q_ok, low, high) = div_word_exact v decay hv hd pos in
      let (p, ep, p_ok, vp) =
        Exactly-fits (value q * decay) (mul_word q decay) (mul_word-Exactly q decay q_ok hd)
          (omega (arith, value-lt v hv)) in
      let (r, er, r_ok, vr) = sub_fits v p hv p_ok (omega arith) in
      let (c, ec, c_ok, vc) = scale_parts q r q_ok r_ok (omega arith) (grind arith) in
      (c, ground (arith, eq, ep, er, ec), c_ok, vc)
