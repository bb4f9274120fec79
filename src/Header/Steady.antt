-- ===== src/Header/Steady.antt =====
-- core/consensus/application.go: what ApplyHeader keeps of a state past the final cut, where it does
-- not panic.
use qday.Base.{
  ℕ, ◌+◌, ◌≤◌, ◌<◌, ◌≡◌, refl, sym, ◌∙◌, ap, subst, ◌≢◌, Option, some, ltb, ◌==◌, ◌&&◌, ◌!=◌, false,
  leb, List, arith, Bool-cases, inl, inr,
}
use qday.Base.Int.{ℤ, u64, u64-lt, quo, max_ℤ, pos}
use qday.Base.Options.{>>=-eq-some, some-inj}
use qday.Base.Words.{u64_mod}
use qday.State.{State, child_height}
use qday.Work
use qday.Work.{Work, one_work}
use qday.Work.Target.{inv_target}
use qday.Work.Value.{
  value, IsWork, Exactly, Subtracts, add-Exactly, sub-Subtracts, min_exact, max_exact,
  one_work-IsWork, value-one_work,
}
use qday.Work.Product.{mul64-Exactly, div64_exact}
use qday.Header.{
  BlockHeader, update_total_work, update_oak_work, estimate, clamp_difficulty, target_interval,
  adjust_difficulty, adjust_difficulty_final_cut, apply_child, apply_header, clear_deprecated,
}

-- A state whose child is past the final cut, with totals of 256 bits and a difficulty that is not 0.
pub record IsSteady (s : State) : Type 0 where
  pub past_cut : s.network.v2_final_cut_height ≤ s.index.height + 1
  pub past_allow : s.network.v2_allow_height ≤ s.index.height + 1
  pub total_ok : IsWork s.total_work
  pub oak_ok : IsWork s.oak_work
  pub difficulty_ok : IsWork s.difficulty
  pub difficulty_pos : 1 ≤ value s.difficulty

Exactly-result :
    {n : ℕ} {o : Option Work} {w : Work} → Exactly n o → o ≡ some w → IsWork w × (value w ≡ n)
Exactly-result {n} x e = subst (Exactly n) e x

Subtracts-result :
    (a b : ℕ) {o : Option Work} {w : Work}
    → Subtracts a b o
    → o ≡ some w
    → IsWork w × (value w + b ≡ a)
Subtracts-result a b x e = subst (Subtracts a b) e x

div64_result : (w q : Work) (v : ℕ) → IsWork w → Work.div64 w v ≡ some q → IsWork q
div64_result w q v ok e = elim (Bool-cases (v == 0)) [
  | inl by_zero ↦ absurd (unfold Work.div64 in cc (rw by_zero at e))
  | inr by_some ↦
      let (r, re, r_ok, _, _) = div64_exact w v ok (ground (arith, by_some)) in
      subst IsWork (some-inj (sym re ∙ e)) r_ok
]

estimate_result :
    (s : State) (interval : ℤ) {e : Work}
    → IsWork s.oak_work
    → estimate s interval ≡ some e
    → IsWork e
unfolding estimate
estimate_result s interval {e} ok run =
    let (a, ae, run₁) = >>=-eq-some (Work.mul64 s.oak_work (u64 interval)) _ run in
    let (b, be, run₂) = >>=-eq-some (Work.mul64 one_work (u64 (quo s.oak_time 2))) _ run₁ in
    let (c, ce, run₃) = >>=-eq-some (Work.add a b) _ run₂ in
    let a_ok =
      (Exactly-result (mul64-Exactly s.oak_work (u64 interval) ok (u64-lt interval)) ae).0 in
    let b_ok =
      (Exactly-result
        (mul64-Exactly one_work (u64 (quo s.oak_time 2)) one_work-IsWork
          (u64-lt (quo s.oak_time 2)))
        be).0 in
    let c_ok = (Exactly-result (add-Exactly a b a_ok b_ok) ce).0 in
    div64_result c e (u64 (max_ℤ s.oak_time (pos 1))) c_ok run₃

clamp_result :
    (d e : Work) {new : Work}
    → IsWork d
    → IsWork e
    → clamp_difficulty d e ≡ some new
    → IsWork new × (1 ≤ value new)
unfolding clamp_difficulty
clamp_result d e {new} d_ok e_ok run =
    let (q, qe, run₁) = >>=-eq-some (Work.div64 d 250) _ run in
    let step = Work.max q one_work in
    let (hi, hie, run₂) = >>=-eq-some (Work.add d step) _ run₁ in
    let (lo, loe, run₃) = >>=-eq-some (Work.sub d step) _ run₂ in
    let step_ok = (max_exact q one_work (div64_result d q 250 d_ok qe) one_work-IsWork).0 in
    let hi_ok = (Exactly-result (add-Exactly d step d_ok step_ok) hie).0 in
    let lo_ok = (Subtracts-result _ _ (sub-Subtracts d step d_ok step_ok) loe).0 in
    let below = min_exact e hi e_ok hi_ok in
    let above = max_exact (Work.min e hi) lo below.0 lo_ok in
    let last = max_exact (Work.max (Work.min e hi) lo) one_work above.0 one_work-IsWork in
    subst (λ w. IsWork w × (1 ≤ value w)) (some-inj run₃)
      (last.0, omega (arith, last.2, value-one_work))

-- The tests of the heights, whose child has a height that did not wrap.
module _ (s : State) (i : IsSteady s) (fits : s.index.height + 1 < u64_mod) where
  not_before_cut : ltb (child_height s) s.network.v2_final_cut_height ≡ false
  unfolding child_height
  not_before_cut = ground (arith, i.past_cut, fits)

  not_before_allow : ltb (child_height s) s.network.v2_allow_height ≡ false
  unfolding child_height
  not_before_allow = ground (arith, i.past_allow, fits)

  total_result :
      {w : Work} {d : ℕ}
      → update_total_work s ≡ some (w, d)
      → IsWork w × (value w ≡ value s.total_work + value s.difficulty)
  unfolding update_total_work
  total_result {w} {d} run =
      let (t, te, run₁) =
        >>=-eq-some (Work.add s.total_work s.difficulty) _ (rw not_before_allow at run) in
      let (depth, _, run₂) = >>=-eq-some (inv_target (value t)) _ run₁ in
      let pair : ◌≡◌ {A = Work × ℕ} (t, depth) (w, d) = some-inj run₂ in
      subst (λ w. IsWork w × (value w ≡ value s.total_work + value s.difficulty))
        (ap (λ x. x.0) pair)
        (Exactly-result (add-Exactly s.total_work s.difficulty i.total_ok i.difficulty_ok) te)

  oak_result : {w : Work} {d : ℕ} → update_oak_work s ≡ some (w, d) → IsWork w
  unfolding update_oak_work
  oak_result {w} {d} run =
      let (decay, de, run₁) =
        >>=-eq-some (Work.div64 s.oak_work 200) _ (rw not_before_allow at run) in
      let (left, le, run₂) = >>=-eq-some (Work.sub s.oak_work decay) _ run₁ in
      let (t, te, run₃) = >>=-eq-some (Work.add left s.difficulty) _ run₂ in
      let (target, _, run₄) = >>=-eq-some (inv_target (value t)) _ run₃ in
      let pair : ◌≡◌ {A = Work × ℕ} (t, target) (w, d) = some-inj run₄ in
      let decay_ok = div64_result s.oak_work decay 200 i.oak_ok de in
      let left_ok =
        (Subtracts-result _ _ (sub-Subtracts s.oak_work decay i.oak_ok decay_ok) le).0 in
      subst IsWork (ap (λ x. x.0) pair)
        (Exactly-result (add-Exactly left s.difficulty left_ok i.difficulty_ok) te).0

  difficulty_result :
      (adjust_target : State → ℤ → ℤ → ℕ) (t u : ℤ) {w : Work} {d : ℕ}
      → adjust_difficulty adjust_target s t u ≡ some (w, d)
      → IsWork w × (1 ≤ value w)
  unfolding adjust_difficulty adjust_difficulty_final_cut
  difficulty_result adjust_target t u {w} {d} run =
      let (new, ne, run₁) =
        >>=-eq-some (adjust_difficulty_final_cut s t) _
          (rw (not_before_allow, not_before_cut) at run) in
      let (e, ee, clamped) = >>=-eq-some (estimate s (target_interval s t)) _ ne in
      let (target, _, run₂) = >>=-eq-some (inv_target (value new)) _ run₁ in
      let pair : ◌≡◌ {A = Work × ℕ} (new, target) (w, d) = some-inj run₂ in
      subst (λ w. IsWork w × (1 ≤ value w)) (ap (λ x. x.0) pair)
        (clamp_result s.difficulty e i.difficulty_ok
          (estimate_result s (target_interval s t) i.oak_ok ee) clamped)

-- What a header does to a steady state, which it leaves steady.
module _ (adjust_target : State → ℤ → ℤ → ℕ) (header_id : BlockHeader → ℕ) where
  pub record Steps (s next : State) : Type 0 where
    pub steady : IsSteady next
    pub height : next.index.height ≡ s.index.height + 1
    pub total : value next.total_work ≡ value s.total_work + value s.difficulty
    pub same_network : next.network ≡ s.network
    pub same_qday_height : next.qday_height ≡ s.qday_height

  apply_child-Steps :
      (s : State) (bh : BlockHeader) (u : ℤ) (next : State)
      → IsSteady s
      → s.index.height + 1 < u64_mod
      → apply_child adjust_target header_id s bh u ≡ some next
      → Steps s next
  unfolding apply_child
  apply_child-Steps s bh u next i fits run =
      let ((tw, td), te, run₁) = >>=-eq-some (update_total_work s) _ run in
      let ((dw, dd), de, run₂) =
        >>=-eq-some (adjust_difficulty adjust_target s bh.timestamp u) _ run₁ in
      let ((ow, od), oe, run₃) = >>=-eq-some (update_oak_work s) _ run₂ in
      let (t_ok, t_value) = total_result s i fits te in
      let (d_ok, d_pos) = difficulty_result s i fits adjust_target bh.timestamp u de in
      let o_ok = oak_result s i fits oe in
      subst (Steps s) (some-inj run₃) (record {
        steady = record {
          past_cut = omega (arith, i.past_cut, fits);
          past_allow = omega (arith, i.past_allow, fits);
          total_ok = t_ok;
          oak_ok = o_ok;
          difficulty_ok = d_ok;
          difficulty_pos = d_pos;
        };
        height = omega (arith, fits);
        total = t_value;
        same_network = refl;
        same_qday_height = refl;
      })

  -- The timestamps and the deprecated fields are no part of it.
  update-Steps :
      (s next : State) (ts : List ℤ) (depth child_target oak_target : ℕ)
      → Steps s next
      → Steps s (record next {
        prev_timestamps = ts;
        depth = depth;
        child_target = child_target;
        oak_target = oak_target;
      })
  update-Steps s next ts depth child_target oak_target t = record {
    steady = record {
      past_cut = t.steady.past_cut;
      past_allow = t.steady.past_allow;
      total_ok = t.steady.total_ok;
      oak_ok = t.steady.oak_ok;
      difficulty_ok = t.steady.difficulty_ok;
      difficulty_pos = t.steady.difficulty_pos;
    };
    height = t.height;
    total = t.total;
    same_network = t.same_network;
    same_qday_height = t.same_qday_height;
  }

  clear_deprecated-Steps :
      (s next : State) (ts : List ℤ)
      → Steps s next
      → Steps s (clear_deprecated (record next { prev_timestamps = ts }))
  unfolding clear_deprecated
  clear_deprecated-Steps s next ts t =
      elim (Bool-cases (leb next.network.v2_final_cut_height next.index.height)) [
        | inl past ↦ rw past (update-Steps s next ts 0 0 0 t)
        | inr before ↦
            rw before (update-Steps s next ts next.depth next.child_target next.oak_target t)
      ]

  pub apply_header-Steps :
      (s : State) (bh : BlockHeader) (u : ℤ) {next : State}
      → IsSteady s
      → s.index.height + 1 < u64_mod
      → bh.parent_id ≡ s.index.id
      → bh.parent_id ≢ 0
      → apply_header adjust_target header_id s bh u ≡ some next
      → Steps s next
  unfolding apply_header
  apply_header-Steps s bh u {next} i fits parent child run =
      let known : (ltb 0 s.index.height && (s.index.id != bh.parent_id)) ≡ false =
        ground (arith, parent) in
      let later : (bh.parent_id == 0) ≡ false = ground (arith, child) in
      let (mid, e, done) =
        >>=-eq-some (apply_child adjust_target header_id s bh u) _ (rw (known, later) at run) in
      subst (Steps s) (some-inj done)
        (clear_deprecated-Steps s mid _ (apply_child-Steps s bh u mid i fits e))
