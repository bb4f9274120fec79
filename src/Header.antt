-- ===== src/Header.antt =====
-- core/consensus/application.go and validation.go: block headers, the difficulty adjustment and the
-- application of a header to a state.
pub mod Difficulty
pub mod Apply
pub mod Median
pub mod Validate
pub mod Steady
pub mod Chain
mod Examples
use qday.Base.{
  ℕ, ◌+◌, ◌-◌, ◌/◌, ◌%◌, ◌&&◌, Option, none, some, List, [], ◌∷◌, ltb, leb, ◌==◌, ◌!=◌,
  if◌then◌else◌, get_or, take, length,
}
use qday.Base.Int.{ℤ, pos, ltb_ℤ, leb_ℤ, ◌+ℤ◌, ◌-ℤ◌, ◌*ℤ◌, quo, u64, i64, saturate, min_ℤ, max_ℤ}
use qday.Base.Options.{◌>>=◌}
use qday.Base.Words.{u64_mod}
use qday.State.{State, child_height, num_timestamps}
use qday.Work
use qday.Work.{Work, one_work}
use qday.Work.Target.{inv_target, add_target, mul_target_frac, of_number}
use qday.Work.Value.{value}

pub record BlockHeader : Type 0 where
  pub parent_id : ℕ
  pub nonce : ℕ
  pub timestamp : ℤ
  pub commitment : ℕ

-- time.Second in nanoseconds
abbrev pub second : ℕ
second = 1000000000

unfoldable pub update_total_work : State → Option (Work × ℕ)
update_total_work s =
    if ltb (child_height s) s.network.v2_allow_height
    then (add_target s.depth s.child_target >>= λ depth.
        inv_target depth >>= λ work. some (of_number work, depth))
    else (Work.add s.total_work s.difficulty >>= λ work.
        inv_target (value work) >>= λ depth. some (work, depth))

-- Every product and sum of durations is an int64. `height - 1` wraps at zero.
unfoldable pub update_oak_time : State → ℤ → ℤ → ℤ
update_oak_time s block_timestamp parent_timestamp =
    if child_height s == (s.network.asic_height + (u64_mod - 1)) % u64_mod
    then s.network.asic_oak_time
    else (let prev_total =
          if child_height s == (s.network.oak_height + (u64_mod - 1)) % u64_mod
          then i64 (s.network.block_interval *ℤ i64 (pos (child_height s)))
          else s.oak_time in
        let decayed = i64 (quo (i64 (quo prev_total second *ℤ pos 995)) 1000 *ℤ pos second) in
        i64 (decayed +ℤ saturate (block_timestamp -ℤ parent_timestamp)))

unfoldable pub update_oak_target : State → Option ℕ
update_oak_target s =
    if child_height s == (s.network.asic_height + (u64_mod - 1)) % u64_mod
    then some s.network.asic_oak_target
    else (mul_target_frac s.oak_target 1000 995 >>= λ t. add_target t s.child_target)

unfoldable pub update_oak_work : State → Option (Work × ℕ)
unfolding update_oak_target
update_oak_work s =
    if ltb (child_height s) s.network.v2_allow_height
    then (update_oak_target s >>= λ t. inv_target t >>= λ work. some (of_number work, t))
    else (Work.div64 s.oak_work 200 >>= λ decay. Work.sub s.oak_work decay >>= λ rest.
        Work.add rest s.difficulty >>= λ work.
        inv_target (value work) >>= λ target. some (work, target))

-- The interval that the next block aims at: the network's, shifted by the drift of the chain from
-- its schedule, and clamped to a factor of three.
unfoldable pub target_interval : State → ℤ → ℤ
target_interval s block_timestamp =
    let interval = s.network.block_interval in
    let expected = i64 (interval *ℤ i64 (pos (child_height s))) in
    let actual = saturate (block_timestamp -ℤ s.network.genesis_timestamp) in
    let shift = quo (i64 (expected -ℤ actual)) 1000 in
    max_ℤ (min_ℤ (i64 (interval +ℤ shift)) (i64 (interval *ℤ pos 3))) (quo interval 3)

-- The estimated hashrate times the interval, rounded to nearest.
unfoldable pub estimate : State → ℤ → Option Work
estimate s interval = Work.mul64 s.oak_work (u64 interval) >>= λ a.
    Work.mul64 one_work (u64 (quo s.oak_time 2)) >>= λ b.
    Work.add a b >>= λ c. Work.div64 c (u64 (max_ℤ s.oak_time (pos 1)))

-- The clamp to 0.4 percent of the difficulty, but at least 1.
unfoldable pub clamp_difficulty : Work → Work → Option Work
clamp_difficulty difficulty estimated = Work.div64 difficulty 250 >>= λ q.
    let max_adjust = Work.max q one_work in
    Work.add difficulty max_adjust >>= λ hi. Work.sub difficulty max_adjust >>= λ lo.
    some (Work.max (Work.max (Work.min estimated hi) lo) one_work)

unfoldable pub adjust_difficulty_final_cut : State → ℤ → Option Work
adjust_difficulty_final_cut s block_timestamp =
    estimate s (target_interval s block_timestamp) >>= clamp_difficulty s.difficulty

-- The interval of the rule between the v2 hardfork and the final cut.
unfoldable pub target_block_time : State → ℤ → ℤ
target_block_time s block_timestamp =
    let interval = s.network.block_interval in
    let expected = i64 (interval *ℤ i64 (pos (child_height s))) in
    let actual = saturate (block_timestamp -ℤ s.network.genesis_timestamp) in
    let delta = i64 (expected -ℤ actual) in
    let step = quo delta 10000 in
    let size = i64 (i64 (pos 10 *ℤ step) *ℤ step) in
    let shift = if ltb_ℤ delta (pos 0) then i64 (pos 0 -ℤ size) else size in
    let target = i64 (interval +ℤ shift) in
    if ltb_ℤ target (quo interval 3)
    then quo interval 3
    else if ltb_ℤ (i64 (interval *ℤ pos 3)) target
    then i64 (interval *ℤ pos 3)
    else target

unfoldable pub adjust_difficulty_v2 : State → ℤ → Option Work
adjust_difficulty_v2 s block_timestamp =
    let oak_time = if leb_ℤ s.oak_time (pos second) then pos second else s.oak_time in
    Work.div64 s.oak_work (u64 (quo oak_time second)) >>= λ rate.
    Work.mul64 rate (u64 (quo (target_block_time s block_timestamp) second)) >>= λ new.
    Work.div64 s.difficulty 250 >>= λ max_adjust. Work.sub s.difficulty max_adjust >>= λ lo.
    if Work.less new lo
    then some lo
    else (Work.add s.difficulty max_adjust >>= λ hi. some (if Work.less hi new then hi else new))

-- `adjust_target` is `adjustTarget`, the rule before the v2 hardfork, which compares floats.
module _ (adjust_target : State → ℤ → ℤ → ℕ) where
  unfoldable pub adjust_difficulty : State → ℤ → ℤ → Option (Work × ℕ)
  adjust_difficulty s block_timestamp target_timestamp =
      if ltb (child_height s) s.network.v2_allow_height
      then (let target = adjust_target s block_timestamp target_timestamp in
          inv_target target >>= λ work. some (of_number work, target))
      else if ltb (child_height s) s.network.v2_final_cut_height
      then (adjust_difficulty_v2 s block_timestamp >>= λ work.
          inv_target (value work) >>= λ target. some (work, target))
      else (adjust_difficulty_final_cut s block_timestamp >>= λ work.
          inv_target (value work) >>= λ target. some (work, target))

-- `copy(next.PrevTimestamps[1:], s.PrevTimestamps[:])` behind the new timestamp: 11 are kept.
unfoldable pub push_timestamp : ℤ → List ℤ → List ℤ
push_timestamp t ts = t ∷ take 10 ts

-- The deprecated fields are zero from the final cut on.
unfoldable pub clear_deprecated : State → State
clear_deprecated s =
    if leb s.network.v2_final_cut_height s.index.height
    then record s { depth = 0; child_target = 0; oak_target = 0 }
    else s

-- `header_id` is the hash of a header.
module _ (adjust_target : State → ℤ → ℤ → ℕ) (header_id : BlockHeader → ℕ) where
  unfoldable pub apply_genesis : State → BlockHeader → Option State
  apply_genesis s bh = update_oak_work s >>= λ (oak_work, oak_target). some (record s {
    oak_time = update_oak_time s bh.timestamp bh.timestamp;
    oak_work = oak_work;
    oak_target = oak_target;
    index = record { height = 0; id = header_id bh };
  })

  unfoldable pub apply_child : State → BlockHeader → ℤ → Option State
  apply_child s bh target_timestamp = update_total_work s >>= λ (total_work, depth).
      adjust_difficulty adjust_target s bh.timestamp target_timestamp
      >>= λ (difficulty, child_target). update_oak_work s >>= λ (oak_work, oak_target).
          some (record s {
            total_work = total_work;
            depth = depth;
            difficulty = difficulty;
            child_target = child_target;
            oak_time = update_oak_time s bh.timestamp (get_or s.prev_timestamps 0 (pos 0));
            oak_work = oak_work;
            oak_target = oak_target;
            index = record { height = (s.index.height + 1) % u64_mod; id = header_id bh };
          })

  -- `ApplyHeader`; `none` is a panic, on a header that is not a child among others.
  unfoldable pub apply_header : State → BlockHeader → ℤ → Option State
  unfolding apply_genesis apply_child push_timestamp clear_deprecated
  apply_header s bh target_timestamp =
      if ltb 0 s.index.height && (s.index.id != bh.parent_id)
      then none
      else ((if bh.parent_id == 0 then apply_genesis s bh else apply_child s bh target_timestamp)
          >>= λ next. some (
              clear_deprecated
                (record next { prev_timestamps = push_timestamp bh.timestamp s.prev_timestamps })))

-- `sort.Slice` by `Before`, of which the code uses only the order of the result.
unfoldable pub insert_time : ℤ → List ℤ → List ℤ
insert_time t [] = t ∷ []
insert_time t (u ∷ us) = if ltb_ℤ u t then u ∷ insert_time t us else t ∷ u ∷ us

unfoldable pub sort_times : List ℤ → List ℤ
unfolding insert_time
sort_times [] = []
sort_times (t ∷ ts) = insert_time t (sort_times ts)

-- An index out of range panics: `ts[len/2-1]` with no timestamps.
unfoldable pub median_timestamp : State → Option ℤ
unfolding sort_times num_timestamps
median_timestamp s =
    let ts = sort_times (take (num_timestamps s) s.prev_timestamps) in
    let n = length ts in
    if n == 0
    then none
    else if n % 2 != 0
    then some (get_or ts (n / 2) (pos 0))
    else (let l = get_or ts (n / 2 - 1) (pos 0) in
        let r = get_or ts (n / 2) (pos 0) in some (l +ℤ quo (saturate (r -ℤ l)) 2))
