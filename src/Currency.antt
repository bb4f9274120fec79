-- ===== src/Currency.antt =====
-- core/types/currency.go: Currency, an unsigned 128-bit number of hastings in two words, and its
-- arithmetic. An operation that panics returns `none`.
pub mod Value
pub mod Product
pub mod Trial
pub mod Quotient
mod Examples
use qday.Base.{
  ℕ, ◌+◌, ◌-◌, ◌*◌, ◌/◌, ◌%◌, ◌^◌, Bool, true, false, ◌&&◌, ◌||◌, Option, none, some, ltb, ◌==◌,
  ◌!=◌, if◌then◌else◌,
}
use qday.Base.Options.{◌>>=◌}
use qday.Base.Words.{u64_mod, add64, sub64, mul64, div64, leading_zeros64}

pub record Currency : Type 0 where
  pub lo : ℕ
  pub hi : ℕ

unfoldable pub new_currency : ℕ → ℕ → Currency
new_currency lo hi = record { lo = lo; hi = hi }

unfoldable pub new_currency64 : ℕ → Currency
new_currency64 c = record { lo = c; hi = 0 }

abbrev pub zero_currency : Currency
zero_currency = record { lo = 0; hi = 0 }

-- 10 ^ 24
abbrev pub hastings_per_siacoin : Currency
hastings_per_siacoin = record { lo = 2003764205206896640; hi = 54210 }

-- Go's `==` on the two words.
unfoldable pub equals : Currency → Currency → Bool
equals c v = (c.lo == v.lo) && (c.hi == v.hi)

unfoldable pub is_zero : Currency → Bool
unfolding equals
is_zero c = equals c zero_currency

pub data Order : Type 0 where
  less same more : Order

unfoldable pub cmp : Currency → Currency → Order
unfolding equals
cmp c v =
    if equals c v
    then same
    else if ltb c.hi v.hi || ((c.hi == v.hi) && ltb c.lo v.lo)
    then less
    else more

unfoldable pub add_with_overflow : Currency → Currency → Currency × Bool
add_with_overflow c v =
    let (lo, carry) = add64 c.lo v.lo 0 in
    let (hi, carry') = add64 c.hi v.hi carry in (record { lo = lo; hi = hi }, carry' != 0)

-- `if overflow { panic }`
unfoldable pub checked : Currency × Bool → Option Currency
checked (s, true) = none
checked (s, false) = some s

unfoldable pub add : Currency → Currency → Option Currency
unfolding checked
add c v = checked (add_with_overflow c v)

unfoldable pub sub_with_underflow : Currency → Currency → Currency × Bool
sub_with_underflow c v =
    let (lo, borrow) = sub64 c.lo v.lo 0 in
    let (hi, borrow') = sub64 c.hi v.hi borrow in (record { lo = lo; hi = hi }, borrow' != 0)

unfoldable pub sub : Currency → Currency → Option Currency
unfolding checked
sub c v = checked (sub_with_underflow c v)

unfoldable pub mul_with_overflow : Currency → Currency → Currency × Bool
mul_with_overflow c v =
    let (hi, lo) = mul64 c.lo v.lo in
    let (p0, p1) = mul64 c.hi v.lo in
    let (p2, p3) = mul64 c.lo v.hi in
    let (hi', c0) = add64 hi p1 0 in
    let (hi'', c1) = add64 hi' p3 c0 in
    (
      record { lo = lo; hi = hi'' },
      ((c.hi != 0) && (v.hi != 0)) || (p0 != 0) || (p2 != 0) || (c1 != 0),
    )

unfoldable pub mul : Currency → Currency → Option Currency
unfolding checked
mul c v = checked (mul_with_overflow c v)

unfoldable pub mul64_with_overflow : Currency → ℕ → Currency × Bool
mul64_with_overflow c v =
    let (hi0, lo0) = mul64 c.lo v in
    let (hi1, lo1) = mul64 c.hi v in
    let (hi2, c0) = add64 hi0 lo1 0 in (record { lo = lo0; hi = hi2 }, (hi1 != 0) || (c0 != 0))

-- `Mul64`; `Siacoins(n)` is `mul_word hastings_per_siacoin n`.
unfoldable pub mul_word : Currency → ℕ → Option Currency
unfolding checked
mul_word c v = checked (mul64_with_overflow c v)

unfoldable pub quo_rem64 : Currency → ℕ → Option (Currency × ℕ)
quo_rem64 c v =
    if ltb c.hi v
    then (div64 c.hi c.lo v >>= λ t. some (record { lo = t.0; hi = 0 }, t.1))
    else (div64 0 c.hi v >>= λ t.
        div64 t.1 c.lo v >>= λ u. some (record { lo = u.0; hi = t.0 }, u.1))

-- `Div64`
unfoldable pub div_word : Currency → ℕ → Option Currency
div_word c v = quo_rem64 c v >>= λ t. some t.0

-- `v << n` and `c >> 1` of `quoRem`, on the words.
unfoldable pub shift_left : Currency → ℕ → Currency
shift_left v n = record {
  lo = v.lo * 2 ^ n % u64_mod;
  hi = (v.hi * 2 ^ n + v.lo / 2 ^ (64 - n)) % u64_mod;
}

unfoldable pub half : Currency → Currency
half c = record { lo = c.lo / 2 + c.hi % 2 * 9223372036854775808; hi = c.hi / 2 }

-- A two-word divisor: a trial quotient from the shifted words, at most one too small.
unfoldable pub trial : Currency → Currency → Option ℕ
trial c v =
    let n = leading_zeros64 v.hi in
    let v1 = shift_left v n in
    let u1 = half c in div64 u1.hi u1.lo v1.hi >>= λ t. some (t.0 / 2 ^ (63 - n) - 1)

-- The remainder by the trial quotient, and one correction where it is not below the divisor.
unfoldable pub correct : Currency → Currency → ℕ → Option (Currency × Currency)
correct c v tq = mul_word v tq >>= λ p. sub c p >>= λ r. (elim (cmp r v) [
  | less ↦ some (record { lo = tq; hi = 0 }, r)
  | _ ↦
      (sub r v >>= λ r'.
      some (record { lo = (tq + 1) % u64_mod; hi = if (tq + 1) % u64_mod == 0 then 1 else 0 }, r'))
])

unfoldable pub quo_rem : Currency → Currency → Option (Currency × Currency)
quo_rem c v =
    if v.hi == 0
    then (quo_rem64 c v.lo >>= λ t. some (t.0, record { lo = t.1; hi = 0 }))
    else (trial c v >>= correct c v)

unfoldable pub div : Currency → Currency → Option Currency
div c v = quo_rem c v >>= λ t. some t.0
