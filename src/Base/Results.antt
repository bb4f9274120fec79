-- ===== src/Base/Results.antt =====
-- Go's `(value, error)` pair and its panics. The errors of a component are a type of its own.
use mathlib.Core.Path.{◌≡◌, refl}
use mathlib.Core.Bool.{Bool, true, false}
use mathlib.Core.Logic.{◌⊎◌, inl, inr}
use mathlib.Core.Option.{Option, none, some}

pub data Result {ℓ} (E : Type 0) (A : Type ℓ) : Type ℓ where
  ok : A → Result E A
  err : E → Result E A
  panic : Result E A

module _ {ℓ κ} {E : Type 0} {S : Type ℓ} {T : Type κ} where
  infixl 5 ◌>>=◌ ◌>>◌
  abbrev pub ◌>>=◌ : Result E S → (S → Result E T) → Result E T
  panic >>= next = panic
  err why >>= next = err why
  ok done >>= next = next done

  abbrev pub ◌>>◌ : Result E S → Result E T → Result E T
  first >> second = first >>= λ _. second

-- `if c { return err }`
abbrev pub fail_if : {E : Type 0} → Bool → E → Result E (Unit {0})
fail_if true e = err e
fail_if false e = ok tt

-- An operation that panics where it has no value.
abbrev pub or_panic {ℓ} : {E : Type 0} {A : Type ℓ} → Option A → Result E A
or_panic none = panic
or_panic (some a) = ok a

-- An error of one component, reported by another.
abbrev pub wrap {ℓ} : {E F : Type 0} {A : Type ℓ} → (E → F) → Result E A → Result F A
wrap f (ok a) = ok a
wrap f (err e) = err (f e)
wrap f panic = panic

-- The two steps of a run that succeeds.
pub >>=-eq-ok {ℓ κ} :
    {E : Type 0} {S : Type ℓ} {T : Type κ} (step : Result E S) (next : S → Result E T) {out : T}
    → (step >>= next) ≡ ok out
    → (mid : S) × (step ≡ ok mid) × (next mid ≡ ok out)
>>=-eq-ok panic next run = cc
>>=-eq-ok (err why) next run = cc
>>=-eq-ok (ok mid) next run = (mid, refl, run)

pub fail_if-eq-ok : {E : Type 0} (c : Bool) (e : E) → fail_if c e ≡ ok tt → c ≡ false
fail_if-eq-ok true e h = cc
fail_if-eq-ok false e h = refl

pub ok-inj {ℓ} : {E : Type 0} {A : Type ℓ} {a b : A} → ◌≡◌ {A = Result E A} (ok a) (ok b) → a ≡ b
ok-inj e = cc e

pub Result-cases {ℓ} :
    {E : Type 0} {A : Type ℓ} (m : Result E A)
    → ((a : A) × (m ≡ ok a)) ⊎ (((e : E) × (m ≡ err e)) ⊎ (m ≡ panic))
Result-cases (ok a) = inl (a, refl)
Result-cases (err e) = inr (inl (e, refl))
Result-cases panic = inr (inr refl)

pub or_panic-eq-ok {ℓ} :
    {E : Type 0} {A : Type ℓ} (o : Option A) {a : A}
    → ◌≡◌ {A = Result E A} (or_panic o) (ok a)
    → o ≡ some a
or_panic-eq-ok none e = cc
or_panic-eq-ok (some b) e = cc

pub wrap-eq-ok {ℓ} :
    {E F : Type 0} {A : Type ℓ} (f : E → F) (m : Result E A) {a : A} → wrap f m ≡ ok a → m ≡ ok a
wrap-eq-ok f (ok b) e = cc
wrap-eq-ok f (err x) e = cc
wrap-eq-ok f panic e = cc

-- The parts of two checks in a row that pass.
pub >>-eq-ok {ℓ} :
    {E : Type 0} {T : Type ℓ} (first : Result E (Unit {0})) (second : Result E T) {out : T}
    → (first >> second) ≡ ok out
    → (first ≡ ok tt) × (second ≡ ok out)
>>-eq-ok (ok u) second run = (refl, run)
>>-eq-ok (err why) second run = cc
>>-eq-ok panic second run = cc

-- The steps of a do block that pass.
module _ {E T : Type 0} where
  pub >>-ok :
      {step : Result E (Unit {0})} {rest : Result E T} {out : Result E T}
      → step ≡ ok tt
      → rest ≡ out
      → (step >> rest) ≡ out
  >>-ok a b = cc (a, b)

  pub >>=-ok :
      {S : Type 0} {step : Result E S} (rest : S → Result E T) {mid : S} {out : Result E T}
      → step ≡ ok mid
      → rest mid ≡ out
      → (step >>= rest) ≡ out
  >>=-ok rest a b = cc (a, b)
