-- ===== src/Base/Options.antt =====
-- Operations that can panic, as options, in `do` blocks.
use mathlib.Core.Path.{◌≡◌, refl}
use mathlib.Core.Path.{◌≡◌}
use mathlib.Core.Option.{Option, none, some}

module _ {ℓ κ} {S : Type ℓ} {T : Type κ} where
  infixl 5 ◌>>=◌
  abbrev pub ◌>>=◌ : Option S → (S → Option T) → Option T
  some done >>= next = next done
  none >>= next = none

  pub >>=-eq-some :
      (step : Option S) (next : S → Option T) {out : T}
      → (step >>= next) ≡ some out
      → (mid : S) × (step ≡ some mid) × (next mid ≡ some out)
  >>=-eq-some (some mid) next run = (mid, refl, run)
  >>=-eq-some none next run = cc

pub some-inj {ℓ} : {A : Type ℓ} {a b : A} → ◌≡◌ {A = Option A} (some a) (some b) → a ≡ b
some-inj e = cc e

pub >>=-some {ℓ κ} :
    {A : Type ℓ} {B : Type κ} {m : Option A} {a : A} (f : A → Option B) {b : Option B}
    → m ≡ some a
    → f a ≡ b
    → (m >>= f) ≡ b
>>=-some f e e' = cc (e, e')
