-- ===== src/Header/Difficulty.antt =====
-- core/consensus/application.go: the difficulty adjustment that a QDAY network uses.
use qday.Base.{ℕ, ◌+◌, ◌*◌, ◌/◌, ◌≤◌, ◌<◌, ◌≡◌, ap, max, some, arith}
use qday.Base.Int.{ℤ, u64, u64-lt, quo, max_ℤ, pos, negsuc, pos_part}
use qday.State.{State}
use qday.Work
use qday.Work.{Work, one_work}
use qday.Work.Value.{
  value, IsWork, add_fits, sub_fits, Exactly-fits, min_exact, max_exact, max_least, one_work-IsWork,
  value-one_work,
}
use qday.Work.Product.{mul64-Exactly, div64_exact}
use qday.Header.{target_interval, estimate, clamp_difficulty, adjust_difficulty_final_cut}

-- A word of seconds times a hashrate below 2 ^ 192.
rate_product :
    (a b : ℕ)
    → a < 6277101735386680763835789423207666416102355444464034512896
    → b < 18446744073709551616
    → a * b ≤ 6277101735386680763835789423207666416102355444464034512895 * 18446744073709551615
rate_product a b ha hb = grind arith

divisor_pos : (t : ℤ) → pos_part t < 9223372036854775808 → 0 < u64 (max_ℤ t (pos 1))
unfolding u64 max_ℤ
divisor_pos (pos n) h = ground arith
divisor_pos (negsuc n) h = ground arith

-- The estimate is there for every state of the durations, unless the hashrate is out of reach:
-- below 2 ^ 192 hashes leave room for the longest interval.
estimate_total :
    (s : State) (interval : ℤ)
    → IsWork s.oak_work
    → value s.oak_work < 6277101735386680763835789423207666416102355444464034512896
    → pos_part s.oak_time < 9223372036854775808
    → (e : Work) × (estimate s interval ≡ some e) × IsWork e
unfolding estimate
estimate_total s interval ok small time_ok =
    let bound = rate_product (value s.oak_work) (u64 interval) small (u64-lt interval) in
    let (a, ae, a_ok, a_value) =
      Exactly-fits _ _ (mul64-Exactly s.oak_work (u64 interval) ok (u64-lt interval))
        (omega (arith, bound)) in
    let half = u64 (quo s.oak_time 2) in
    let half_lt = u64-lt (quo s.oak_time 2) in
    let (b, be, b_ok, b_value) =
      Exactly-fits _ _ (mul64-Exactly one_work half one_work-IsWork half_lt)
        (omega (arith, half_lt, value-one_work, ap (λ (t : ℕ). t * half) value-one_work)) in
    let (c, ce, c_ok, c_value) =
      add_fits a b a_ok b_ok
        (omega (arith, bound, half_lt, ap (λ (t : ℕ). t * half) value-one_work)) in
    let (d, de, d_ok, _, _) =
      div64_exact c (u64 (max_ℤ s.oak_time (pos 1))) c_ok (divisor_pos s.oak_time time_ok) in
    (d, ground (arith, ae, be, ce, de), d_ok)

-- What the clamp of the final cut promises for the old difficulty `d`.
pub record IsClamped (d new : Work) : Type 0 where
  pub is_work : IsWork new
  pub at_least_one : 1 ≤ value new
  pub not_below : value d ≤ value new + max (value d / 250) 1
  pub not_above : value new ≤ value d + max (value d / 250) 1

quotient_250 : (d q : ℕ) → q * 250 ≤ d → d < (q + 1) * 250 → q ≡ d / 250
quotient_250 d q h k = omega arith

max_one : (q : Work) → IsWork q → value (Work.max q one_work) ≡ max (value q) 1
max_one q ok = ground (arith, max_exact q one_work ok one_work-IsWork, value-one_work)

clamp_total :
    (d e : Work)
    → IsWork d
    → IsWork e
    → 1 ≤ value d
    → value d < 57896044618658097711785492504343953926634992332820282019728792003956564819968
    → (new : Work) × (clamp_difficulty d e ≡ some new) × IsClamped d new
unfolding clamp_difficulty
clamp_total d e d_ok e_ok pos_d small =
    let (q, qe, q_ok, q_lo, q_hi) = div64_exact d 250 d_ok (omega arith) in
    let q_value = quotient_250 (value d) (value q) q_lo q_hi in
    let step = Work.max q one_work in
    let step_value = max_one q q_ok in
    let step_ok = (max_exact q one_work q_ok one_work-IsWork).0 in
    let (hi, hie, hi_ok, hi_value) = add_fits d step d_ok step_ok (omega (arith, step_value)) in
    let (lo, loe, lo_ok, lo_value) = sub_fits d step d_ok step_ok (omega (arith, step_value)) in
    let below = min_exact e hi e_ok hi_ok in
    let above = max_exact (Work.min e hi) lo below.0 lo_ok in
    let last = max_exact (Work.max (Work.min e hi) lo) one_work above.0 one_work-IsWork in
    (
      Work.max (Work.max (Work.min e hi) lo) one_work,
      ground (arith, qe, hie, loe),
      record {
        is_work = last.0;
        at_least_one = omega (arith, last.2, value-one_work);
        not_below = omega (arith, last.1, above.2, step_value);
        not_above =
            max_least _ _ _ (max_least _ _ _ (omega (arith, below.2, step_value)) (omega arith))
              (omega (arith, value-one_work));
      },
    )

-- Whatever the timestamp of the block, for an averaged work below 2 ^ 192, an averaged time that
-- fits its type and a difficulty that is not zero and below 2 ^ 255, the adjustment after the final
-- cut does not panic, and gives a difficulty of at least 1 that has moved by at most the larger of
-- 1 and a 250th of the old one, rounded down.
pub adjust_difficulty_final_cut-IsClamped :
    (s : State) (block_timestamp : ℤ)
    → IsWork s.oak_work
    → IsWork s.difficulty
    → value s.oak_work < 6277101735386680763835789423207666416102355444464034512896
    → pos_part s.oak_time < 9223372036854775808
    → 1 ≤ value s.difficulty
    → value s.difficulty
      < 57896044618658097711785492504343953926634992332820282019728792003956564819968
    → (new : Work) × (adjust_difficulty_final_cut s block_timestamp ≡ some new)
      × IsClamped s.difficulty new
unfolding adjust_difficulty_final_cut
adjust_difficulty_final_cut-IsClamped s t oak_ok d_ok rate time_ok pos_d small =
    let (e, ee, e_ok) = estimate_total s (target_interval s t) oak_ok rate time_ok in
    let (new, ne, clamped) = clamp_total s.difficulty e d_ok e_ok pos_d small in
    (new, rw (ee, ne), clamped)
