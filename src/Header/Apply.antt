-- ===== src/Header/Apply.antt =====
-- core/consensus/application.go: what ApplyHeader does to the chain state of a QDAY network.
use qday.Base.{ℕ, ◌+◌, ◌-◌, ◌/◌, ◌%◌, ◌≤◌, ◌<◌, ◌≡◌, refl, ◌≢◌, some, arith, ◌∷◌, take, get_or}
use qday.Base.Int.{ℤ, pos, pos_part}
use qday.Base.Words.{u64_mod}
use qday.State.{State, child_height}
use qday.Work.{Work}
use qday.Work.Target.{inv_target, max_target}
use qday.Work.Value.{value, IsWork, add_fits, sub_fits}
use qday.Work.Product.{div64_exact}
use qday.Header.{
  BlockHeader, update_total_work, update_oak_work, update_oak_time, adjust_difficulty, apply_child,
  apply_header, push_timestamp,
}
use qday.Header.Difficulty.{IsClamped, adjust_difficulty_final_cut-IsClamped}

-- A chain state past the final cut whose work is in reach: the totals leave room for a block.
pub record IsLive (s : State) : Type 0 where
  pub past_cut : s.network.v2_final_cut_height ≤ s.index.height + 1
  pub past_allow : s.network.v2_allow_height ≤ s.index.height + 1
  pub height_fits : s.index.height + 1 < u64_mod
  pub total_ok : IsWork s.total_work
  pub oak_ok : IsWork s.oak_work
  pub difficulty_ok : IsWork s.difficulty
  pub oak_small : value s.oak_work < 6277101735386680763835789423207666416102355444464034512896
  pub time_ok : pos_part s.oak_time < 9223372036854775808
  pub difficulty_pos : 1 ≤ value s.difficulty
  pub difficulty_small :
      value s.difficulty
      < 57896044618658097711785492504343953926634992332820282019728792003956564819968
  pub total_small :
      value s.total_work
      < 57896044618658097711785492504343953926634992332820282019728792003956564819968

child_height_lem : (s : State) → IsLive s → child_height s ≡ s.index.height + 1
unfolding child_height
child_height_lem s l = ground (arith, l.height_fits)

inv_target_total : (n : ℕ) → 0 < n → (t : ℕ) × (inv_target n ≡ some t)
inv_target_total n h = (max_target / n, unfold inv_target in ground arith)

total_work_grows :
    (s : State)
    → IsLive s
    → (w : Work) × (d : ℕ) × (update_total_work s ≡ some (w, d))
      × IsWork w
      × (value w ≡ value s.total_work + value s.difficulty)
unfolding update_total_work
total_work_grows s l =
    let (w, we, w_ok, w_value) =
      add_fits s.total_work s.difficulty l.total_ok l.difficulty_ok
        (omega (arith, l.total_small, l.difficulty_small)) in
    let (d, de) = inv_target_total (value w) (omega (arith, l.difficulty_pos)) in
    (w, d, ground (arith, child_height_lem s l, l.past_allow, we, de), w_ok, w_value)

-- The decay of the averaged work: a 200th leaves, and the work of the block comes in.
oak_work_decays :
    (s : State)
    → IsLive s
    → (w : Work) × (t : ℕ) × (update_oak_work s ≡ some (w, t))
      × IsWork w
      × (value w ≡ value s.oak_work - value s.oak_work / 200 + value s.difficulty)
unfolding update_oak_work
oak_work_decays s l =
    let (q, qe, q_ok, q_lo, q_hi) = div64_exact s.oak_work 200 l.oak_ok (omega arith) in
    let (r, re, r_ok, r_value) = sub_fits s.oak_work q l.oak_ok q_ok (omega arith) in
    let (w, we, w_ok, w_value) =
      add_fits r s.difficulty r_ok l.difficulty_ok
        (omega (arith, l.oak_small, l.difficulty_small)) in
    let (t, te) = inv_target_total (value w) (omega (arith, l.difficulty_pos)) in
    (w, t, ground (arith, child_height_lem s l, l.past_allow, qe, re, we, te), w_ok, omega arith)

module _ (header_id : BlockHeader → ℕ) where
  -- How the state behind a child header follows from the one before it.
  pub record Extends (s : State) (bh : BlockHeader) (next : State) : Type 0 where
    pub height : next.index.height ≡ s.index.height + 1
    pub id : next.index.id ≡ header_id bh
    pub total : value next.total_work ≡ value s.total_work + value s.difficulty
    pub total_is_work : IsWork next.total_work
    pub clamped : IsClamped s.difficulty next.difficulty
    pub oak : value next.oak_work ≡ value s.oak_work - value s.oak_work / 200 + value s.difficulty
    pub oak_is_work : IsWork next.oak_work
    pub timestamps : next.prev_timestamps ≡ bh.timestamp ∷ take 10 s.prev_timestamps
    pub no_depth : next.depth ≡ 0
    pub no_target : next.child_target ≡ 0
    pub no_oak_target : next.oak_target ≡ 0
    pub same_network : next.network ≡ s.network
    pub same_elements : next.elements ≡ s.elements
    pub same_qday_height : next.qday_height ≡ s.qday_height
    pub same_tax_revenue : next.siafund_tax_revenue ≡ s.siafund_tax_revenue
    pub same_subsidy_address : next.foundation_subsidy_address ≡ s.foundation_subsidy_address
    pub same_management_address :
        next.foundation_management_address ≡ s.foundation_management_address
    pub same_attestations : next.attestations ≡ s.attestations

module _ (adjust_target : State → ℤ → ℤ → ℕ) (header_id : BlockHeader → ℕ) where
  difficulty_adjusts :
      (s : State) (t u : ℤ)
      → IsLive s
      → (w : Work) × (d : ℕ) × (adjust_difficulty adjust_target s t u ≡ some (w, d))
        × IsClamped s.difficulty w
  unfolding adjust_difficulty
  difficulty_adjusts s t u l =
      let (w, we, clamped) =
        adjust_difficulty_final_cut-IsClamped s t l.oak_ok l.difficulty_ok l.oak_small l.time_ok
          l.difficulty_pos l.difficulty_small in
      let (d, de) = inv_target_total (value w) clamped.at_least_one in
      (w, d, ground (arith, child_height_lem s l, l.past_allow, l.past_cut, we, de), clamped)

  -- To a live state every header applies that names its block as the parent: the height goes up by
  -- one, the total work by exactly the difficulty, the new difficulty is clamped to the old, the
  -- averaged work loses a 200th and gains the difficulty, the timestamp comes in front of the ten
  -- last ones, the deprecated fields are zero, and the network, the accumulator, the activation
  -- height, the tax revenue, the foundation addresses and the count of attestations stay.
  pub apply_header-Extends :
      (s : State) (bh : BlockHeader) (target_timestamp : ℤ)
      → IsLive s
      → bh.parent_id ≡ s.index.id
      → bh.parent_id ≢ 0
      → (next : State) × (apply_header adjust_target header_id s bh target_timestamp ≡ some next)
        × Extends header_id s bh next
  unfolding apply_header apply_child
  apply_header-Extends s bh u l parent not_genesis =
      let (tw, td, te, t_ok, t_value) = total_work_grows s l in
      let (dw, dd, de, clamped) = difficulty_adjusts s bh.timestamp u l in
      let (ow, od, oe, o_ok, o_value) = oak_work_decays s l in
      let next : State = record s {
        prev_timestamps = push_timestamp bh.timestamp s.prev_timestamps;
        depth = 0;
        child_target = 0;
        oak_time = update_oak_time s bh.timestamp (get_or s.prev_timestamps 0 (pos 0));
        oak_target = 0;
        total_work = tw;
        difficulty = dw;
        oak_work = ow;
        index = record { height = (s.index.height + 1) % u64_mod; id = header_id bh };
      } in
      (
        next,
        ground (arith, te, de, oe, l.past_cut, l.height_fits),
        record {
          height = omega (arith, l.height_fits);
          id = refl;
          total = t_value;
          total_is_work = t_ok;
          clamped = clamped;
          oak = o_value;
          oak_is_work = o_ok;
          timestamps = refl;
          no_depth = refl;
          no_target = refl;
          no_oak_target = refl;
          same_network = refl;
          same_elements = refl;
          same_qday_height = refl;
          same_tax_revenue = refl;
          same_subsidy_address = refl;
          same_management_address = refl;
          same_attestations = refl;
        },
      )
