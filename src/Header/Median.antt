-- ===== src/Header/Median.antt =====
-- core/consensus/state.go: the median of the timestamps, over a sorted list of the same timestamps.
use mathlib.Core.List.{Perm}
use mathlib.Core.List.Perm
use qday.Base.{
  ℕ, zero, suc, ◌-◌, ◌/◌, ◌%◌, ◌<◌, ◌≡◌, refl, sym, ◌∙◌, subst, none, false, some, List, [], ◌∷◌,
  length, take, get_or, get_elem?, min, ◌==◌, ◌!=◌, if◌then◌else◌, arith, Bool-cases, inl, inr,
}
use qday.Base.Int.{ℤ, pos, ltb_ℤ, ◌+ℤ◌, ◌-ℤ◌, quo, saturate}
use qday.Base.Options.{some-inj}
use qday.State.{State, child_height, num_timestamps}
use qday.Header.{insert_time, sort_times, median_timestamp}

-- No element is before the one in front of it.
abbrev pub IsSorted : List ℤ → Type 0
IsSorted [] = Unit
IsSorted (t ∷ []) = Unit
IsSorted (t ∷ u ∷ us) = (ltb_ℤ u t ≡ false) × IsSorted (u ∷ us)

-- The middle of a sorted list: its middle element, or the mean of its two middle elements, where
-- half of their difference is rounded towards zero.
pub data IsMiddle (sorted : List ℤ) (m : ℤ) : Type 0 where
  odd : length sorted % 2 ≡ 1 → get_elem? sorted (length sorted / 2) ≡ some m → IsMiddle sorted m
  even :
      (l r : ℤ)
      → 0 < length sorted
      → length sorted % 2 ≡ 0
      → get_elem? sorted (length sorted / 2 - 1) ≡ some l
      → get_elem? sorted (length sorted / 2) ≡ some r
      → m ≡ l +ℤ quo (saturate (r -ℤ l)) 2
      → IsMiddle sorted m

pub record IsMedian (ts : List ℤ) (m : ℤ) : Type 0 where
  pub sorted : List ℤ
  pub same : Perm sorted ts
  pub ordered : IsSorted sorted
  pub middle : IsMiddle sorted m

insert_time-Perm : (t : ℤ) (us : List ℤ) → Perm (insert_time t us) (t ∷ us)
unfolding insert_time
insert_time-Perm t [] = Perm.rfl
insert_time-Perm t (u ∷ us) = elim (Bool-cases (ltb_ℤ u t)) [
  | inl before ↦ rw before (Perm.trans (Perm.cons u (insert_time-Perm t us)) (Perm.swap t u us))
  | inr behind ↦ rw behind Perm.rfl
]

sort_times-Perm : (ts : List ℤ) → Perm (sort_times ts) ts
unfolding sort_times
sort_times-Perm [] = Perm.rfl
sort_times-Perm (t ∷ ts) =
    Perm.trans (insert_time-Perm t (sort_times ts)) (Perm.cons t (sort_times-Perm ts))

-- An insertion behind a smaller element.
insert_time-IsSorted_behind :
    (t v : ℤ) (us : List ℤ)
    → ltb_ℤ t v ≡ false
    → IsSorted (v ∷ us)
    → IsSorted (v ∷ insert_time t us)
unfolding insert_time
insert_time-IsSorted_behind t v [] n s = (n, tt)
insert_time-IsSorted_behind t v (u ∷ us) n (first, rest) = elim (Bool-cases (ltb_ℤ u t)) [
  | inl before ↦ rw before (first, insert_time-IsSorted_behind t u us (ground (arith, before)) rest)
  | inr behind ↦ rw behind (n, (behind, rest))
]

insert_time-IsSorted : (t : ℤ) (us : List ℤ) → IsSorted us → IsSorted (insert_time t us)
unfolding insert_time
insert_time-IsSorted t [] s = tt
insert_time-IsSorted t (u ∷ us) s = elim (Bool-cases (ltb_ℤ u t)) [
  | inl before ↦ rw before (insert_time-IsSorted_behind t u us (ground (arith, before)) s)
  | inr behind ↦ rw behind (behind, s)
]

sort_times-IsSorted : (ts : List ℤ) → IsSorted (sort_times ts)
unfolding sort_times
sort_times-IsSorted [] = tt
sort_times-IsSorted (t ∷ ts) = insert_time-IsSorted t (sort_times ts) (sort_times-IsSorted ts)

get_elem?-get_or :
    (xs : List ℤ) (i : ℕ) (d : ℤ) → i < length xs → get_elem? xs i ≡ some (get_or xs i d)
get_elem?-get_or [] i d h = absurd (omega arith)
get_elem?-get_or (x ∷ xs) zero d h = refl
get_elem?-get_or (x ∷ xs) (suc i) d h = get_elem?-get_or xs i d (omega arith)

-- The timestamps that the median is taken of.
abbrev pub recent_timestamps : State → List ℤ
recent_timestamps s = take (min (child_height s) 11) s.prev_timestamps

num_timestamps-min : (s : State) → num_timestamps s ≡ min (child_height s) 11
unfolding num_timestamps
num_timestamps-min s = ground arith

get_or-IsMiddle :
    (ts : List ℤ) (m : ℤ)
    → (if length ts == 0
        then none
        else if length ts % 2 != 0
        then some (get_or ts (length ts / 2) (pos 0))
        else (let l = get_or ts (length ts / 2 - 1) (pos 0) in
            let r = get_or ts (length ts / 2) (pos 0) in some (l +ℤ quo (saturate (r -ℤ l)) 2)))
      ≡ some m
    → IsMiddle ts m
get_or-IsMiddle ts m e = elim (Bool-cases (length ts == 0)) [
  | inl empty ↦ absurd (cc (rw empty at e))
  | inr full ↦ elim (Bool-cases (length ts % 2 != 0)) [
    | inl one ↦ odd (ground (arith, one)) (
        get_elem?-get_or ts (length ts / 2) (pos 0) (ground (arith, full, one))
        ∙ (rw (full, one) at e))
    | inr two ↦
        even (get_or ts (length ts / 2 - 1) (pos 0)) (get_or ts (length ts / 2) (pos 0))
          (ground (arith, full)) (ground (arith, two))
          (get_elem?-get_or ts (length ts / 2 - 1) (pos 0) (ground (arith, full, two)))
          (get_elem?-get_or ts (length ts / 2) (pos 0) (ground (arith, full, two)))
          (sym (some-inj (rw (full, two) at e)))
  ]
]

pub median_timestamp-IsMedian :
    (s : State) (m : ℤ) → median_timestamp s ≡ some m → IsMedian (recent_timestamps s) m
unfolding median_timestamp
median_timestamp-IsMedian s m e =
    let window = take (num_timestamps s) s.prev_timestamps in
    subst (λ k. IsMedian (take k s.prev_timestamps) m) (num_timestamps-min s)
      (record {
        sorted = sort_times window;
        same = sort_times-Perm window;
        ordered = sort_times-IsSorted window;
        middle = get_or-IsMiddle (sort_times window) m e;
      })
