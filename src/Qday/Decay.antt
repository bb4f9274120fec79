-- ===== src/Qday/Decay.antt =====
-- core/consensus/qday.go: QdayValue, what is left of an output while the network decays.
pub mod Scale
pub mod Course
use qday.Base.{ℕ, ◌-◌, ◌*◌, ◌/◌, not, ◌||◌, Option, none, some, max, leb, ◌==◌, if◌then◌else◌}
use qday.Base.Options.{◌>>=◌}
use qday.Currency.{Currency, zero_currency, div_word, mul_word, sub, add}
use qday.Currency.Value.{value}
use qday.State.{QdayParams, State, qday_active}
use qday.Types.{SiacoinElement}

-- The part `remaining` of `decay`, by quotient and remainder so that no product overflows.
unfoldable pub scale : Currency → ℕ → ℕ → Option Currency
scale v decay remaining = div_word v decay >>= λ q. mul_word q decay >>= λ p. sub v p >>= λ r.
    mul_word q remaining >>= λ a. mul_word r remaining >>= λ b. div_word b decay >>= λ d. add a d

-- The value from the start of the decay on; a decay step of 0 panics.
unfoldable pub decayed : QdayParams → ℕ → Currency → ℕ → Option Currency
unfolding scale
decayed p start v height =
    if leb height start || leb (height - start) p.shield_blocks
    then some v
    else if p.decay_step == 0
    then none
    else (let age = (height - start - p.shield_blocks) / p.decay_step * p.decay_step in
        if leb p.decay_blocks age
        then some zero_currency
        else scale v p.decay_blocks (p.decay_blocks - age))

unfoldable pub qday_value : State → SiacoinElement → ℕ → Option Currency
unfolding qday_active decayed
qday_value s e height =
    if not (qday_active s height) then some e.siacoin_output.value else (elim s.network.qday [
      | none ↦ none
      | some p ↦ decayed p (max s.qday_height e.maturity_height) e.siacoin_output.value height
    ])
