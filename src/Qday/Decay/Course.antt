-- ===== src/Qday/Decay/Course.antt =====
-- core/consensus/qday.go: QdayValue over the heights of a chain.
use qday.Base.{
  ℕ, ◌+◌, ◌-◌, ◌*◌, ◌/◌, ◌≤◌, ◌<◌, ◌≡◌, sym, ap, ◌∙◌, true, ◌||◌, some, arith, max, leb, Bool-cases,
  inl, inr,
}
use native.Mathlib.Nat.{
  div-le_of_le-mul, mul_comm, le-div_iff_mul-le, mul-le-mul_right, div-mul-le_self, zero-div,
  zero-mul, mul-zero, mul-div_cancel, mul-le-mul_left,
}
use qday.Base.Words.{u64_mod}
use qday.Currency.{Currency, zero_currency}
use qday.Currency.Value.{value, IsCurrency}
use qday.State.{QdayParams, State, qday_active}
use qday.Types.{SiacoinElement}
use qday.Qday.Decay.{decayed, qday_value}
use qday.Qday.Decay.Scale.{scale_exact}

-- The blocks of decay that are left of `decay_blocks`, in whole steps after the shield.
unfoldable pub remaining_blocks : QdayParams → ℕ → ℕ → ℕ
remaining_blocks p start height =
    p.decay_blocks - (height - start - p.shield_blocks) / p.decay_step * p.decay_step

-- The parameters that the decay depends on, as `QdayParams.Validate` leaves them.
pub record IsDecay (p : QdayParams) : Type 0 where
  pub blocks_pos : 0 < p.decay_blocks
  pub blocks_word : p.decay_blocks < u64_mod
  pub step_pos : 0 < p.decay_step

no_age : (x k : ℕ) → x ≡ 0 → x / k * k ≡ 0
no_age x k e = ap (λ t. t / k * k) e ∙ ap (λ t. t * k) (zero-div k) ∙ zero-mul k

all_left : (v n r : ℕ) → 0 < n → r ≡ n → v * r / n ≡ v
all_left v n r pos e = ap (λ t. v * t / n) e ∙ mul-div_cancel v pos

none_left : (v n r : ℕ) → r ≡ 0 → v * r / n ≡ 0
none_left v n r e = ap (λ t. v * t / n) e ∙ ap (λ t. t / n) (mul-zero v) ∙ zero-div n

module _ (p : QdayParams) (start : ℕ) (v : Currency) (height : ℕ) (hp : IsDecay p)
    (hv : IsCurrency v) where
  decayed_exact :
      (c : Currency) × (decayed p start v height ≡ some c)
      × IsCurrency c
      × (value c ≡ value v * remaining_blocks p start height / p.decay_blocks)
  unfolding decayed remaining_blocks value
  decayed_exact = elim (Bool-cases (leb height start || leb (height - start) p.shield_blocks)) [
    | inl early ↦
        (let age = no_age (height - start - p.shield_blocks) p.decay_step (ground arith) in
          (
            v,
            ground arith,
            hv,
            sym (all_left (value v) p.decay_blocks _ hp.blocks_pos (omega (arith, age))),
          ))
    | inr late ↦
        elim (Bool-cases
          (leb p.decay_blocks ((height - start - p.shield_blocks) / p.decay_step * p.decay_step))) [
            | inl over ↦ (
              zero_currency,
              ground (arith, hp.step_pos),
              record { low_word = omega arith; high_word = omega arith },
              sym (none_left (value v) p.decay_blocks _ (ground arith)),
            )
            | inr under ↦
                (let (c, ec, c_ok, vc) =
                    scale_exact v p.decay_blocks
                      (p.decay_blocks
                        - (height - start - p.shield_blocks) / p.decay_step * p.decay_step)
                      hv hp.blocks_word hp.blocks_pos (omega arith) in
                  (c, ground (arith, hp.step_pos, ec), c_ok, vc))
          ]
  ]

  remaining_blocks_end :
      (k : ℕ)
      → p.decay_blocks ≡ k * p.decay_step
      → start + p.shield_blocks + p.decay_blocks ≤ height
      → remaining_blocks p start height ≡ 0
  unfolding remaining_blocks
  remaining_blocks_end k whole far =
      let steps : k ≤ (height - start - p.shield_blocks) / p.decay_step =
        (le-div_iff_mul-le hp.step_pos).1 (omega arith) in
      omega (arith, mul-le-mul_right p.decay_step steps)

part_le : (v n r : ℕ) → r ≤ n → v * r / n ≤ v
part_le v n r le = div-le_of_le-mul n (omega (arith, mul-le-mul_left v le, mul_comm n v))

part_mono : (v n r r' : ℕ) → 0 < n → r ≤ r' → v * r / n ≤ v * r' / n
part_mono v n r r' pos le =
    (le-div_iff_mul-le pos).1 (omega (arith, div-mul-le_self (v * r) n, mul-le-mul_left v le))

remaining_le : (p : QdayParams) (start h : ℕ) → remaining_blocks p start h ≤ p.decay_blocks
unfolding remaining_blocks
remaining_le p start h = omega arith

remaining_blocks_mono :
    (p : QdayParams) (start h h' : ℕ)
    → 0 < p.decay_step
    → h ≤ h'
    → remaining_blocks p start h' ≤ remaining_blocks p start h
unfolding remaining_blocks
remaining_blocks_mono p start h h' pos le =
    let steps : (h - start - p.shield_blocks) / p.decay_step
        ≤ (h' - start - p.shield_blocks) / p.decay_step =
      (le-div_iff_mul-le pos).1
        (omega (arith, div-mul-le_self (h - start - p.shield_blocks) p.decay_step)) in
    omega (arith, mul-le-mul_right p.decay_step steps)

module _ (s : State) (e : SiacoinElement) (p : QdayParams) (here : s.network.qday ≡ some p)
    (hp : IsDecay p) (hv : IsCurrency e.siacoin_output.value) where
  -- From activation on, the spendable value of an output is the part of its value for the blocks
  -- of decay that are left, rounded down: no step panics or overflows.
  pub qday_value_exact :
      (height : ℕ)
      → qday_active s height ≡ true
      → (c : Currency) × (qday_value s e height ≡ some c)
        × IsCurrency c
        × (value c
            ≡ value e.siacoin_output.value
              * remaining_blocks p (max s.qday_height e.maturity_height) height
              / p.decay_blocks)
  unfolding qday_value
  qday_value_exact height active =
      let (c, ec, c_ok, vc) =
        decayed_exact p (max s.qday_height e.maturity_height) e.siacoin_output.value height hp hv in
      (c, ground (arith, here, ec), c_ok, vc)

  active_mono : (h h' : ℕ) → h ≤ h' → qday_active s h ≡ true → qday_active s h' ≡ true
  unfolding qday_active
  active_mono h h' le a = ground (arith, here)

  -- The spendable value of an output is there at every height, never grows from one height to a
  -- higher one, and is at most its full value.
  pub qday_value_mono :
      (h h' : ℕ)
      → h ≤ h'
      → (c c' : Currency) × (qday_value s e h ≡ some c)
        × (qday_value s e h' ≡ some c')
        × IsCurrency c'
        × (value c' ≤ value c)
        × (value c ≤ value e.siacoin_output.value)
  unfolding qday_value
  qday_value_mono h h' le = elim (Bool-cases (qday_active s h)) [
    | inr waiting ↦ elim (Bool-cases (qday_active s h')) [
      | inr waiting' ↦ (
        e.siacoin_output.value,
        e.siacoin_output.value,
        ground arith,
        ground arith,
        hv,
        omega arith,
        omega arith,
      )
      | inl active' ↦
          (let (c', ec', c'_ok, vc') = qday_value_exact h' active' in
            (
              e.siacoin_output.value,
              c',
              ground arith,
              ec',
              c'_ok,
              omega (
                arith,
                part_le (value e.siacoin_output.value) p.decay_blocks
                    (remaining_blocks p (max s.qday_height e.maturity_height) h')
                    (remaining_le p _ h'),
              ),
              omega arith,
            ))
    ]
    | inl active ↦
        (let (c, ec, c_ok, vc) = qday_value_exact h active in
          let (c', ec', c'_ok, vc') = qday_value_exact h' (active_mono h h' le active) in
          (
            c,
            c',
            ec,
            ec',
            c'_ok,
            omega (
              arith,
              part_mono (value e.siacoin_output.value) p.decay_blocks _ _ hp.blocks_pos (
                  remaining_blocks_mono p (max s.qday_height e.maturity_height) h h' hp.step_pos
                    le),
            ),
            omega (
              arith,
              part_le (value e.siacoin_output.value) p.decay_blocks
                  (remaining_blocks p (max s.qday_height e.maturity_height) h) (remaining_le p _ h),
            ),
          ))
  ]

  -- Once decay is active, if the decay is a whole number of steps, the value of an output is zero
  -- from the height on at which its shield and the whole decay are over.
  pub qday_value_end :
      (height k : ℕ)
      → qday_active s height ≡ true
      → p.decay_blocks ≡ k * p.decay_step
      → max s.qday_height e.maturity_height + p.shield_blocks + p.decay_blocks ≤ height
      → (c : Currency) × (qday_value s e height ≡ some c) × (value c ≡ 0)
  qday_value_end height k active whole far =
      let (c, ec, c_ok, vc) = qday_value_exact height active in
      (
        c,
        ec,
        vc
            ∙ none_left _ p.decay_blocks _
                (remaining_blocks_end p _ e.siacoin_output.value height hp hv k whole far),
      )
