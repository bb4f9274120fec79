-- ===== src/Qday/Difficulty.antt =====
-- core/consensus/qday.go: QdayWorkValid, the leading zero bits of the hash of an intent and a nonce.
use qday.Base.{
  ℕ, zero, suc, ◌+◌, ◌-◌, ◌*◌, ◌/◌, ◌%◌, ◌^◌, ◌≤◌, ◌<◌, ◌≡◌, refl, sym, ap, subst, ◌∙◌, ◌↔◌, Bool,
  true, false, ◌++◌, arith, ◌==◌, if◌then◌else◌, Bool-cases, inl, inr,
}
use native.Mathlib.Nat.{
  pow-suc, one-le-pow, mul_assoc, pow-le-pow_right, div-lt_iff_lt-mul, div-div-eq-div-mul,
  le-div_iff_mul-le,
}
use qday.Base.Bytes.{Bytes, le_bytes, be_bytes}

-- `h[i]` of a hash, and `h[i/8]&(1<<(7-i%8)) != 0`.
unfoldable pub byte_at : ℕ → ℕ → ℕ
byte_at h i = h / 256 ^ (31 - i) % 256

unfoldable pub bit_at : ℕ → ℕ → Bool
unfolding byte_at
bit_at h i = (byte_at h (i / 8) / 2 ^ (7 - i % 8) % 2) == 1

-- The loop from bit `i` on, with `n` bits to look at.
unfoldable pub zero_bits : ℕ → ℕ → ℕ → Bool
unfolding bit_at
zero_bits h i zero = true
zero_bits h i (suc n) = let rest = zero_bits h (i + 1) n in if bit_at h i then false else rest

unfoldable pub work_valid : (Bytes → ℕ) → ℕ → ℕ → ℕ → Bool
unfolding zero_bits
work_valid hash intent nonce difficulty =
    zero_bits (hash (be_bytes 32 intent ++ le_bytes 8 nonce)) 0 difficulty

low_bit : (x k : ℕ) → k ≤ 7 → x % 256 / 2 ^ k % 2 ≡ x / 2 ^ k % 2
low_bit x zero h = omega arith
low_bit x (suc zero) h = omega arith
low_bit x (suc (suc zero)) h = omega arith
low_bit x (suc (suc (suc zero))) h = omega arith
low_bit x (suc (suc (suc (suc zero)))) h = omega arith
low_bit x (suc (suc (suc (suc (suc zero))))) h = omega arith
low_bit x (suc (suc (suc (suc (suc (suc zero)))))) h = omega arith
low_bit x (suc (suc (suc (suc (suc (suc (suc zero))))))) h = omega arith
low_bit x (suc (suc (suc (suc (suc (suc (suc (suc k)))))))) h = absurd (omega arith)

pow_byte : (k : ℕ) → 2 ^ (suc (suc (suc (suc (suc (suc (suc (suc k)))))))) ≡ 256 * 2 ^ k
pow_byte k = omega (
  arith,
  pow-suc 2 k,
  pow-suc 2 (suc k),
  pow-suc 2 (suc (suc k)),
  pow-suc 2 (suc (suc (suc k))),
  pow-suc 2 (suc (suc (suc (suc k)))),
  pow-suc 2 (suc (suc (suc (suc (suc k))))),
  pow-suc 2 (suc (suc (suc (suc (suc (suc k)))))),
  pow-suc 2 (suc (suc (suc (suc (suc (suc (suc k))))))),
)

pow_split : (m k : ℕ) → 256 ^ m * 2 ^ k ≡ 2 ^ (8 * m + k)
pow_split zero k = let here : k ≡ 8 * 0 + k = omega arith in omega (arith, ap (λ t. 2 ^ t) here)
pow_split (suc m) k =
    let shift : 8 * m + (suc (suc (suc (suc (suc (suc (suc (suc k)))))))) ≡ 8 * suc m + k =
      omega arith in
    let moved : 256 ^ suc m * 2 ^ k ≡ 256 ^ m * (256 * 2 ^ k) =
      ap (λ t. t * 2 ^ k) (pow-suc 256 m) ∙ mul_assoc (256 ^ m) 256 (2 ^ k) in
    moved
    ∙ ap (λ t. 256 ^ m * t) (sym (pow_byte k))
    ∙ pow_split m (suc (suc (suc (suc (suc (suc (suc (suc k))))))))
    ∙ ap (λ t. 2 ^ t) shift

bit_at_exact : (h i : ℕ) → i ≤ 255 → bit_at h i ≡ ((h / 2 ^ (255 - i) % 2) == 1)
unfolding bit_at byte_at
bit_at_exact h i le =
    let low = low_bit (h / 256 ^ (31 - i / 8)) (7 - i % 8) (omega arith) in
    let exponent : 8 * (31 - i / 8) + (7 - i % 8) ≡ 255 - i = omega arith in
    cc (
      low,
      exponent,
      div-div-eq-div-mul h (256 ^ (31 - i / 8)) (2 ^ (7 - i % 8)),
      pow_split (31 - i / 8) (7 - i % 8),
    )

-- The bit above a power of two that the number is twice at most.
upper_half :
    (h p : ℕ)
    → 1 ≤ p
    → h < p * 2
    → (((h / p % 2) == 1) ≡ true → p ≤ h) × (((h / p % 2) == 1) ≡ false → h < p)
upper_half h p pos lt =
    let small = (div-lt_iff_lt-mul {k = p} {x = h} {y = 2} pos).1 (omega arith) in
    let low = le-div_iff_mul-le {k = p} {x = 1} {y = h} pos in
    (λ e. ground (arith, low), λ e. ground (arith, low))

-- The bit at `i` of a hash with `i` leading zeros says whether there is one more.
top_bit :
    (h i : ℕ)
    → i ≤ 255
    → h < 2 ^ (256 - i)
    → (bit_at h i ≡ true → 2 ^ (255 - i) ≤ h) × (bit_at h i ≡ false → h < 2 ^ (256 - (i + 1)))
top_bit h i le lt =
    let double : 256 - i ≡ suc (255 - i) = omega arith in
    let next : 256 - (i + 1) ≡ 255 - i = omega arith in
    let twice : h < 2 ^ (255 - i) * 2 =
      omega (arith, ap (λ t. 2 ^ t) double, pow-suc 2 (255 - i)) in
    let exact = bit_at_exact h i le in
    let (to, of) = upper_half h (2 ^ (255 - i)) (one-le-pow (255 - i) 2 (omega arith)) twice in
    (λ e. to (sym exact ∙ e), λ e. subst (λ t. h < 2 ^ t) (sym next) (of (sym exact ∙ e)))

zero_bits-suc :
    (h i n : ℕ) → zero_bits h i (suc n) ≡ (if bit_at h i then false else zero_bits h (i + 1) n)
unfolding zero_bits
zero_bits-suc h i n = refl

zero_bits-zero : (h i : ℕ) → zero_bits h i 0 ≡ true
unfolding zero_bits
zero_bits-zero h i = refl

zero_bits_exact :
    (h i n : ℕ)
    → i + n ≤ 256
    → h < 2 ^ (256 - i)
    → (zero_bits h i n ≡ true) ↔ (h < 2 ^ (256 - (i + n)))
zero_bits_exact h i zero le lt =
    let same : 256 - i ≡ 256 - (i + 0) = omega arith in
    (λ e. subst (λ t. h < 2 ^ t) same lt, λ e. zero_bits-zero h i)
zero_bits_exact h i (suc n) le lt =
    let (set, clear) = top_bit h i (omega arith) lt in
    let next : 256 - (i + 1 + n) ≡ 256 - (i + suc n) = omega arith in
    elim (Bool-cases (bit_at h i)) [
      | inl e ↦
          (let bound =
              pow-le-pow_right {n = 2} (omega arith) {i = 256 - (i + suc n)} {j = 255 - i}
                (omega arith) in
            (λ z. absurd (ground (arith, zero_bits-suc h i n)), λ l. absurd (omega (arith, set e))))
      | inr e ↦
          (let (to, of) = zero_bits_exact h (i + 1) n (omega arith) (clear e) in
            (
              λ z. subst (λ t. h < 2 ^ t) next (to (ground (arith, zero_bits-suc h i n))),
              λ l.
                  zero_bits-suc h i n
                  ∙ ap (λ b. if b then false else zero_bits h (i + 1) n) e
                  ∙ of (subst (λ t. h < 2 ^ t) (sym next) l),
            ))
    ]

-- The work of a nonce is valid exactly if the hash, as a number, is below 2 ^ (256 - difficulty):
-- every difficulty that a byte holds is met by that part of the hashes and no other.
pub work_valid_iff :
    (hash : Bytes → ℕ) (intent nonce difficulty : ℕ)
    → difficulty < 256
    → hash (be_bytes 32 intent ++ le_bytes 8 nonce) < 2 ^ 256
    → (work_valid hash intent nonce difficulty ≡ true)
      ↔ (hash (be_bytes 32 intent ++ le_bytes 8 nonce) < 2 ^ (256 - difficulty))
unfolding work_valid
work_valid_iff hash intent nonce difficulty le lt =
    let (to, of) =
      zero_bits_exact (hash (be_bytes 32 intent ++ le_bytes 8 nonce)) 0 difficulty (omega arith)
        lt in
    let same : 256 - (0 + difficulty) ≡ 256 - difficulty = omega arith in
    (
      λ e. subst (λ t. hash (be_bytes 32 intent ++ le_bytes 8 nonce) < 2 ^ t) same (to e),
      λ l. of (subst (λ t. hash (be_bytes 32 intent ++ le_bytes 8 nonce) < 2 ^ t) (sym same) l),
    )
