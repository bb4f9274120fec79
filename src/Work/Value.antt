-- ===== src/Work/Value.antt =====
-- core/consensus/application.go: the number that a Work stands for, its order, sum and difference.
use qday.Base.{
  ℕ, ◌+◌, ◌*◌, ◌≤◌, ◌<◌, ◌≡◌, refl, ◌⊎◌, inl, inr, Bool, true, false, Option, none, some, arith,
  ltb, Bool-cases,
}
use qday.Base.Words.{u64_mod}
use qday.Work.{Work, less, add, sub, min, max, one_work}

abbrev pub u256_mod : ℕ
u256_mod = 115792089237316195423570985008687907853269984665640564039457584007913129639936

unfoldable pub value : Work → ℕ
value w =
    w.w0 * 6277101735386680763835789423207666416102355444464034512896
    + w.w1 * 340282366920938463463374607431768211456
    + w.w2 * 18446744073709551616
    + w.w3

pub record IsWork (w : Work) : Type 0 where
  pub word0 : w.w0 < u64_mod
  pub word1 : w.w1 < u64_mod
  pub word2 : w.w2 < u64_mod
  pub word3 : w.w3 < u64_mod

pub value-lt : (w : Work) → IsWork w → value w < u256_mod
unfolding value
value-lt w h = omega arith

pub one_work-IsWork : IsWork one_work
one_work-IsWork = omega arith

pub value-one_work : value one_work ≡ 1
unfolding value
value-one_work = refl

-- What an operation that panics on overflow promises.
abbrev pub Exactly : ℕ → Option Work → Type 0
Exactly n none = u256_mod ≤ n
Exactly n (some s) = IsWork s × (value s ≡ n)

pub Exactly-fits :
    (n : ℕ) (o : Option Work)
    → Exactly n o
    → n < u256_mod
    → (s : Work) × (o ≡ some s) × IsWork s × (value s ≡ n)
Exactly-fits n none h lt = absurd (omega arith)
Exactly-fits n (some s) h lt = (s, refl, h.0, h.1)

-- The order of two numbers that a Boolean test reports.
abbrev pub Orders : Bool → ℕ → ℕ → Type 0
Orders true a b = a < b
Orders false a b = b ≤ a

pub less-ltb : (w v : Work) → IsWork w → IsWork v → less w v ≡ ltb (value w) (value v)
unfolding less value
less-ltb w v hw hv = ground arith

pub add-Exactly : (w v : Work) → IsWork w → IsWork v → Exactly (value w + value v) (add w v)
unfolding add value
add-Exactly w v hw hv = ground arith

-- `sub` panics exactly when it would go below zero.
abbrev pub Subtracts : ℕ → ℕ → Option Work → Type 0
Subtracts a b none = a < b
Subtracts a b (some s) = IsWork s × (value s + b ≡ a)

pub sub-Subtracts : (w v : Work) → IsWork w → IsWork v → Subtracts (value w) (value v) (sub w v)
unfolding sub value
sub-Subtracts w v hw hv = ground arith

pub sub_fits :
    (w v : Work)
    → IsWork w
    → IsWork v
    → value v ≤ value w
    → (s : Work) × (sub w v ≡ some s) × IsWork s × (value s + value v ≡ value w)
sub_fits w v hw hv h = go (sub w v) (sub-Subtracts w v hw hv)
  where
    go :
        (o : Option Work)
        → Subtracts (value w) (value v) o
        → (s : Work) × (o ≡ some s) × IsWork s × (value s + value v ≡ value w)
    go none lt = absurd (omega arith)
    go (some s) t = (s, refl, t.0, t.1)

pub add_fits :
    (w v : Work)
    → IsWork w
    → IsWork v
    → value w + value v < u256_mod
    → (s : Work) × (add w v ≡ some s) × IsWork s × (value s ≡ value w + value v)
add_fits w v hw hv h = Exactly-fits _ _ (add-Exactly w v hw hv) h

-- `min` and `max` choose by value.
pub min_exact :
    (w v : Work)
    → IsWork w
    → IsWork v
    → IsWork (min w v)
      × (value (min w v) ≤ value w)
      × (value (min w v) ≤ value v)
      × ((min w v ≡ w) ⊎ (min w v ≡ v))
unfolding min
min_exact w v hw hv = elim (Bool-cases (less w v)) [
  | inl e ↦ rw e (hw, omega arith, omega (arith, by_value true e), inl refl)
  | inr e ↦ rw e (hv, omega (arith, by_value false e), omega arith, inr refl)
]
  where
    by_value : (b : Bool) → less w v ≡ b → Orders b (value w) (value v)
    by_value true e = ground (arith, less-ltb w v hw hv)
    by_value false e = ground (arith, less-ltb w v hw hv)

pub max_exact :
    (w v : Work)
    → IsWork w
    → IsWork v
    → IsWork (max w v)
      × (value w ≤ value (max w v))
      × (value v ≤ value (max w v))
      × ((max w v ≡ w) ⊎ (max w v ≡ v))
unfolding max
max_exact w v hw hv = elim (Bool-cases (less v w)) [
  | inl e ↦ rw e (hw, omega arith, omega (arith, by_value true e), inl refl)
  | inr e ↦ rw e (hv, omega (arith, by_value false e), omega arith, inr refl)
]
  where
    by_value : (b : Bool) → less v w ≡ b → Orders b (value v) (value w)
    by_value true e = ground (arith, less-ltb v w hv hw)
    by_value false e = ground (arith, less-ltb v w hv hw)

pub max_least : (w v : Work) (n : ℕ) → value w ≤ n → value v ≤ n → value (max w v) ≤ n
unfolding max
max_least w v n hw hv = elim (Bool-cases (less v w)) [ inl e ↦ rw e hw | inr e ↦ rw e hv ]
