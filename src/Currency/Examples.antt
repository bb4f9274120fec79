-- ===== src/Currency/Examples.antt =====
-- core/types/currency.go: runs and the theorems at concrete inputs.
use qday.Base.{◌+◌, ◌*◌, ◌<◌, ◌≡◌, refl, some, arith}
use qday.Base.Words.{leading_zeros64}
use qday.Currency.{
  Currency, cmp, mul, mul64_with_overflow, quo_rem, quo_rem64, trial, correct, sub_with_underflow,
  sub, mul_word, shift_left, half,
}
use qday.Currency.Value.{value, IsCurrency}
use qday.Currency.Product.{mul_silent_overflow}
use qday.Currency.Quotient.{quo_rem_exact}

abbrev supply : Currency
supply = record { lo = 18446744073709551615; hi = 999 }

abbrev pair : Currency
pair = record { lo = 5; hi = 7 }

-- The high word of this amount, times `third`, is 2 ^ 64 - 1.
abbrev three_words : Currency
three_words = record { lo = 18446744073709551615; hi = 3 }

abbrev third : Currency
third = record { lo = 6148914691236517205; hi = 0 }

abbrev ninth : Currency
ninth = record { lo = 9; hi = 0 }

quo_rem_runs :
    quo_rem supply pair
    ≡ some (record { lo = 142; hi = 0 }, record { lo = 18446744073709550905; hi = 5 })
unfolding quo_rem quo_rem64 trial correct sub mul_word shift_left half cmp leading_zeros64
    mul64_with_overflow sub_with_underflow
quo_rem_runs = refl

supply-IsCurrency : IsCurrency supply
supply-IsCurrency = omega arith

pair-IsCurrency : IsCurrency pair
pair-IsCurrency = omega arith

mul_silent_overflow_example :
    (s : Currency) × (mul three_words third ≡ some s) × (value s < value three_words * value third)
unfolding value
mul_silent_overflow_example =
    mul_silent_overflow three_words third (omega arith) (omega arith) refl (omega arith)
      (omega arith)

quo_rem_exact_example :
    (q r : Currency) × (quo_rem supply pair ≡ some (q, r))
    × IsCurrency q
    × IsCurrency r
    × (value q * value pair + value r ≡ value supply)
    × (value r < value pair)
unfolding value
quo_rem_exact_example = quo_rem_exact supply pair supply-IsCurrency pair-IsCurrency (omega arith)
