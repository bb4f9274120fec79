-- ===== src/Base/Words.antt =====
-- Go's package math/bits on uint64, a word being a number below 2 ^ 64. A mask and a shift by
-- constants are `%`, `/` and `*`.
use Prim.Native.Nat.{ℕ, zero, suc, ◌+◌, ◌-◌, ◌*◌, ◌/◌, ◌%◌, ◌^◌}
use mathlib.Core.Bool.{Bool}
use mathlib.Core.Option.{Option, none, some}
use qday.Base.Tests.{ltb, leb, ◌==◌, if◌then◌else◌}

-- 2 ^ 64
abbrev pub u64_mod : ℕ
u64_mod = 18446744073709551616

abbrev pub u128_mod : ℕ
u128_mod = 340282366920938463463374607431768211456

-- bits.Add64: the sum and the carry out.
abbrev pub add64 : ℕ → ℕ → ℕ → ℕ × ℕ
add64 x y carry = ((x + y + carry) % u64_mod, (x + y + carry) / u64_mod)

-- bits.Sub64: the difference and the borrow out.
abbrev pub sub64 : ℕ → ℕ → ℕ → ℕ × ℕ
sub64 x y borrow = ((x + u64_mod - y - borrow) % u64_mod, if ltb x (y + borrow) then 1 else 0)

-- bits.Mul64: the high and the low half of the product.
abbrev pub mul64 : ℕ → ℕ → ℕ × ℕ
mul64 x y = (x * y / u64_mod, x * y % u64_mod)

-- bits.Div64: quotient and remainder of the two-word number; it panics for y == 0 and y <= hi.
abbrev pub div64 : ℕ → ℕ → ℕ → Option (ℕ × ℕ)
div64 hi lo y = if leb y hi then none else some ((hi * u64_mod + lo) / y, (hi * u64_mod + lo) % y)

-- bits.Len64 with a round for each bit.
unfoldable pub len_loop : ℕ → ℕ → ℕ
len_loop zero x = 0
len_loop (suc rounds) x = let rest = len_loop rounds (x / 2) in if x == 0 then 0 else suc rest

unfoldable pub len64 : ℕ → ℕ
unfolding len_loop
len64 x = len_loop 64 x

unfoldable pub leading_zeros64 : ℕ → ℕ
unfolding len64
leading_zeros64 x = 64 - len64 x

-- `x & (1 << k) != 0`
abbrev pub test_bit : ℕ → ℕ → Bool
test_bit x k = x / 2 ^ k % 2 == 1
