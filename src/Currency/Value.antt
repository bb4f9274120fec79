-- ===== src/Currency/Value.antt =====
-- The number that a Currency stands for; comparison, addition and subtraction against it.
use qday.Base.{
  ℕ, ◌+◌, ◌*◌, ◌≤◌, ◌<◌, ◌≡◌, refl, ◌↔◌, ◌⊎◌, inl, inr, Bool, true, false, none, some, arith, ltb,
  leb, Option,
}
use qday.Base.Words.{u64_mod, u128_mod}
use qday.Currency.{
  Currency, zero_currency, Order, less, same, more, is_zero, cmp, add_with_overflow, add,
  sub_with_underflow, sub, checked,
}

unfoldable pub value : Currency → ℕ
value c = c.hi * 18446744073709551616 + c.lo

pub record IsCurrency (c : Currency) : Type 0 where
  pub low_word : c.lo < u64_mod
  pub high_word : c.hi < u64_mod

pub value-zero_currency : value zero_currency ≡ 0
unfolding value
value-zero_currency = refl

pub value-lt : (c : Currency) → IsCurrency c → value c < u128_mod
unfolding value
value-lt c h = omega arith

pub value-inj : (c v : Currency) → IsCurrency c → IsCurrency v → value c ≡ value v → c ≡ v
unfolding value
value-inj c v hc hv e = ground arith

-- The order of two amounts as the numbers they stand for.
abbrev pub Orders : Order → ℕ → ℕ → Type 0
Orders less a b = a < b
Orders same a b = a ≡ b
Orders more a b = b < a

-- `Cmp` orders amounts as the numbers that they stand for.
pub cmp-Orders :
    (c v : Currency) → IsCurrency c → IsCurrency v → Orders (cmp c v) (value c) (value v)
unfolding cmp value
cmp-Orders c v hc hv = ground arith

pub is_zero_iff : (c : Currency) → (is_zero c ≡ true) ↔ (value c ≡ 0)
unfolding is_zero value
is_zero_iff c = ground arith

pub add_with_overflow-IsCurrency : (c v : Currency) → IsCurrency (add_with_overflow c v).0
unfolding add_with_overflow
add_with_overflow-IsCurrency c v = omega arith

-- What `AddWithOverflow` returns: the sum modulo 2 ^ 128, and whether it was cut.
pub add_with_overflow_exact :
    (c v : Currency)
    → IsCurrency c
    → IsCurrency v
    → ((add_with_overflow c v).1 ≡ leb 340282366920938463463374607431768211456 (value c + value v))
      × ((add_with_overflow c v).1 ≡ false → value (add_with_overflow c v).0 ≡ value c + value v)
      × ((add_with_overflow c v).1 ≡ true
          → value (add_with_overflow c v).0 + u128_mod ≡ value c + value v)
unfolding add_with_overflow value
add_with_overflow_exact c v hc hv = ground arith

pub sub_with_underflow_exact :
    (c v : Currency)
    → IsCurrency c
    → IsCurrency v
    → IsCurrency (sub_with_underflow c v).0
      × ((sub_with_underflow c v).1 ≡ ltb (value c) (value v))
      × ((sub_with_underflow c v).1 ≡ false → value (sub_with_underflow c v).0 + value v ≡ value c)
      × ((sub_with_underflow c v).1 ≡ true
          → value (sub_with_underflow c v).0 + value v ≡ value c + u128_mod)
unfolding sub_with_underflow value
sub_with_underflow_exact c v hc hv = ground arith

-- What a panicking operation promises: the exact result `n` as a Currency, or a panic where `n`
-- does not fit in 128 bits.
abbrev pub Exactly : ℕ → Option Currency → Type 0
Exactly n none = u128_mod ≤ n
Exactly n (some s) = IsCurrency s × (value s ≡ n)

pub add-Exactly :
    (c v : Currency) → IsCurrency c → IsCurrency v → Exactly (value c + value v) (add c v)
unfolding add
add-Exactly c v hc hv =
    go (add_with_overflow c v) (add_with_overflow_exact c v hc hv)
      (add_with_overflow-IsCurrency c v)
  where
    go :
        (r : Currency × Bool)
        → (r.1 ≡ leb 340282366920938463463374607431768211456 (value c + value v))
          × (r.1 ≡ false → value r.0 ≡ value c + value v)
          × (r.1 ≡ true → value r.0 + u128_mod ≡ value c + value v)
        → IsCurrency r.0
        → Exactly (value c + value v) (checked r)
    go (s, true) h i = ground arith
    go (s, false) h i = ground arith

-- Subtraction panics exactly when it would go below zero.
pub sub_cases :
    (c v : Currency)
    → IsCurrency c
    → IsCurrency v
    → ((value c < value v) × (sub c v ≡ none))
      ⊎ ((s : Currency) × (sub c v ≡ some s) × IsCurrency s × (value s + value v ≡ value c))
unfolding sub
sub_cases c v hc hv = go (sub_with_underflow c v) (sub_with_underflow_exact c v hc hv)
  where
    go :
        (r : Currency × Bool)
        → IsCurrency r.0
          × (r.1 ≡ ltb (value c) (value v))
          × (r.1 ≡ false → value r.0 + value v ≡ value c)
          × (r.1 ≡ true → value r.0 + value v ≡ value c + u128_mod)
        → ((value c < value v) × (checked r ≡ none))
          ⊎ ((s : Currency) × (checked r ≡ some s) × IsCurrency s × (value s + value v ≡ value c))
    go (s, true) h = inl (ground arith, refl)
    go (s, false) h = inr (s, refl, h.0, h.2 refl)

pub sub_fits :
    (c v : Currency)
    → IsCurrency c
    → IsCurrency v
    → value v ≤ value c
    → (s : Currency) × (sub c v ≡ some s) × IsCurrency s × (value s + value v ≡ value c)
sub_fits c v hc hv h = elim (sub_cases c v hc hv) [ inl (lt, _) ↦ absurd (omega arith) | inr t ↦ t ]

-- An exact result that fits is there.
pub Exactly-fits :
    (n : ℕ) (o : Option Currency)
    → Exactly n o
    → n < u128_mod
    → (s : Currency) × (o ≡ some s) × IsCurrency s × (value s ≡ n)
Exactly-fits n none h lt = absurd (omega arith)
Exactly-fits n (some s) h lt = (s, refl, h.0, h.1)
