-- ===== src/Work/Target.antt =====
-- core/consensus/application.go: targets, the inverses of work. A 32-byte array and a big.Int that
-- is not negative are numbers; a division by zero and a number too long for 32 bytes panic.
use qday.Base.{
  ℕ, ◌+◌, ◌*◌, ◌/◌, ◌%◌, ◌≤◌, ◌<◌, ◌≡◌, Option, none, some, arith, leb, ◌==◌, if◌then◌else◌,
}
use native.Mathlib.Nat.{le-div_iff_mul-le, mul-le-mul_left, mul-div-le, div-le_self}
use qday.Base.Words.{u64_mod}
use qday.Work.{Work}
use qday.Work.Value.{value, IsWork, u256_mod}

-- 2 ^ 256 - 1
abbrev pub max_target : ℕ
max_target = 115792089237316195423570985008687907853269984665640564039457584007913129639935

unfoldable pub inv_target : ℕ → Option ℕ
inv_target n = if n == 0 then none else some (max_target / n)

unfoldable pub int_to_target : ℕ → ℕ
int_to_target i =
    if leb 57896044618658097711785492504343953926634992332820282019728792003956564819968 i
    then max_target
    else i

-- `addTarget`; dividing by a sum of zero panics.
unfoldable pub add_target : ℕ → ℕ → Option ℕ
unfolding int_to_target
add_target x y = if x + y == 0 then none else some (int_to_target (x * y / (x + y)))

-- `mulTargetFrac` for a numerator and denominator that are not negative.
unfoldable pub mul_target_frac : ℕ → ℕ → ℕ → Option ℕ
unfolding int_to_target
mul_target_frac x n d = if d == 0 then none else some (int_to_target (x * n / d))

-- The words of a number as `FillBytes` leaves them, and the number of the words.
unfoldable pub of_number : ℕ → Work
of_number n = record {
  w0 = n / 6277101735386680763835789423207666416102355444464034512896;
  w1 = n / 340282366920938463463374607431768211456 % u64_mod;
  w2 = n / 18446744073709551616 % u64_mod;
  w3 = n % u64_mod;
}

pub of_number_exact : (n : ℕ) → n < u256_mod → IsWork (of_number n) × (value (of_number n) ≡ n)
unfolding of_number value
of_number_exact n h = omega arith

-- A harder target is more work: the inverse reverses the order, and never leaves 256 bits.
pub inv_target_mono :
    (n m : ℕ)
    → 0 < n
    → n ≤ m
    → (a b : ℕ) × (inv_target n ≡ some a) × (inv_target m ≡ some b) × (b ≤ a) × (a ≤ max_target)
unfolding inv_target
inv_target_mono n m pos h = (
  max_target / n,
  max_target / m,
  ground arith,
  ground arith,
  (le-div_iff_mul-le pos).1
      (omega (arith, mul-le-mul_left (max_target / m) h, mul-div-le max_target m)),
  div-le_self max_target n,
)
