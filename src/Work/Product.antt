-- ===== src/Work/Product.antt =====
-- core/consensus/application.go: the product and the quotient of a Work and a word.
use qday.Base.{ℕ, ◌+◌, ◌*◌, ◌/◌, ◌%◌, ◌≤◌, ◌<◌, ◌≡◌, some, arith}
use qday.Base.Words
use qday.Base.Words.{u64_mod}
use qday.Work.{Work, mul_round, mul64, div64}
use qday.Work.Value.{value, IsWork, Exactly}

mul_round_exact :
    (wi v c : ℕ)
    → wi < u64_mod
    → v < u64_mod
    → c < u64_mod
    → ((mul_round wi v c).0 < u64_mod)
      × ((mul_round wi v c).1 < u64_mod)
      × ((mul_round wi v c).1 * 18446744073709551616 + (mul_round wi v c).0 ≡ wi * v + c)
unfolding mul_round
mul_round_exact wi v c hw hv hc = omega (arith, high)
  where
    high : wi * v ≤ 18446744073709551615 * 18446744073709551615
    high = grind arith

-- The product with a word, or a panic where it does not fit in 256 bits.
pub mul64-Exactly : (w : Work) (v : ℕ) → IsWork w → v < u64_mod → Exactly (value w * v) (mul64 w v)
unfolding mul64 value
mul64-Exactly w v hw hv =
    let r3 = mul_round_exact w.w3 v 0 hw.word3 hv (omega arith) in
    let r2 = mul_round_exact w.w2 v (mul_round w.w3 v 0).1 hw.word2 hv r3.1 in
    let c2 = (mul_round w.w2 v (mul_round w.w3 v 0).1).1 in
    let r1 = mul_round_exact w.w1 v c2 hw.word1 hv r2.1 in
    let r0 = mul_round_exact w.w0 v (mul_round w.w1 v c2).1 hw.word0 hv r1.1 in ground arith

div_round :
    (rem wi v : ℕ)
    → rem < v
    → wi < u64_mod
    → (Words.div64 rem wi v ≡ some ((rem * u64_mod + wi) / v, (rem * u64_mod + wi) % v))
      × ((rem * u64_mod + wi) / v < u64_mod)
      × ((rem * u64_mod + wi) / v * v + (rem * u64_mod + wi) % v ≡ rem * u64_mod + wi)
      × ((rem * u64_mod + wi) % v < v)
div_round rem wi v h hw = (ground arith, grind arith, grind arith, omega arith)

-- The quotient by a word that is not 0 is exact and rounds down.
pub div64_exact :
    (w : Work) (v : ℕ)
    → IsWork w
    → 0 < v
    → (q : Work) × (div64 w v ≡ some q)
      × IsWork q
      × (value q * v ≤ value w)
      × (value w < (value q + 1) * v)
unfolding div64 value
div64_exact w v hw pos =
    let (e0, q0, d0, l0) = div_round 0 w.w0 v pos hw.word0 in
    let r0 = (0 * u64_mod + w.w0) % v in
    let (e1, q1, d1, l1) = div_round r0 w.w1 v l0 hw.word1 in
    let r1 = (r0 * u64_mod + w.w1) % v in
    let (e2, q2, d2, l2) = div_round r1 w.w2 v l1 hw.word2 in
    let r2 = (r1 * u64_mod + w.w2) % v in
    let (e3, q3, d3, l3) = div_round r2 w.w3 v l2 hw.word3 in
    (
      record {
        w0 = (0 * u64_mod + w.w0) / v;
        w1 = (r0 * u64_mod + w.w1) / v;
        w2 = (r1 * u64_mod + w.w2) / v;
        w3 = (r2 * u64_mod + w.w3) / v;
      },
      ground (arith, l0, l1, l2),
      omega arith,
      omega arith,
      omega arith,
    )
