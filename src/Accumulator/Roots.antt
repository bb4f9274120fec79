-- ===== src/Accumulator/Roots.antt =====
-- core/consensus/merkle.go: proofRoot and containsLeaf against the levels of the forest.
use qday.Base.{
  ℕ, suc, ◌+◌, ◌-◌, ◌*◌, ◌/◌, ◌%◌, ◌^◌, ◌<◌, ◌≡◌, refl, ap, ◌∙◌, sym, subst, inl, inr, List, [],
  ◌∷◌, some, length, get_elem?, get_or, arith, ◌==◌, if◌then◌else◌, Bool-cases,
}
use qday.Base.Options.{some-inj}
use qday.Base.Words.{test_bit}
use qday.Accumulator.{fold_root}
use qday.Accumulator.Levels.{pairs, length-pairs, get-pairs}
use native.Mathlib.Nat.{div-div-eq-div-mul, pow-succ', pow-suc, div-one}

-- The index of the other child.
abbrev pub sibling : ℕ → ℕ
sibling b = if b % 2 == 1 then b - 1 else suc b

pub half_shift : (i k : ℕ) → i / 2 ^ (k + 1) ≡ i / 2 ^ k / 2
half_shift i k =
    let one : k + 1 ≡ suc k = omega arith in
    let e : 2 ^ (k + 1) ≡ 2 ^ k * 2 = ap (λ m. 2 ^ m) one ∙ pow-suc 2 k in
    ap (λ m. i / m) e ∙ sym (div-div-eq-div-mul i (2 ^ k) 2)

module _ (sum_pair : ℕ → ℕ → ℕ) where
  -- The nodes of a proof are the siblings on the way up.
  unfoldable pub Sides : List ℕ → List ℕ → ℕ → Type 0
  unfolding pairs
  Sides [] xs b = Unit
  Sides (s ∷ p) xs b = (get_elem? xs (sibling b) ≡ some s) × Sides p (pairs sum_pair xs) (b / 2)

  -- The roots are the last nodes of the levels with an odd number of nodes.
  unfoldable pub Roots : List ℕ → List ℕ → Type 0
  unfolding pairs
  Roots [] xs = Unit
  Roots (t ∷ ts) xs =
      (length xs % 2 ≡ 1 → get_elem? xs (length xs - 1) ≡ some t) × Roots ts (pairs sum_pair xs)

-- A proof ends at the root of a tree: the last node of a level with an odd number of nodes.
unfoldable pub Ends : List ℕ → ℕ → ℕ → Type 0
Ends [] b n = (suc b ≡ n) × (n % 2 ≡ 1)
Ends (s ∷ p) b n = Ends p (b / 2) (n / 2)

-- The root that a proof gives for a node.
module _ (sum_pair : ℕ → ℕ → ℕ) where
  unfoldable pub up : ℕ → ℕ → List ℕ → ℕ
  up b root [] = root
  up b root (h ∷ hs) = up (b / 2) (if b % 2 == 1 then sum_pair h root else sum_pair root h) hs

  parent :
      (xs : List ℕ) (b x h : ℕ)
      → get_elem? xs b ≡ some x
      → get_elem? xs (sibling b) ≡ some h
      → get_elem? (pairs sum_pair xs) (b / 2)
        ≡ some (if b % 2 == 1 then sum_pair h x else sum_pair x h)
  parent xs b x h g side = elim (Bool-cases (b % 2 == 1)) [
    | inl odd ↦ rw odd (
        subst (λ k. get_elem? (pairs sum_pair xs) k ≡ some (sum_pair h x)) (ground arith)
          (get-pairs sum_pair xs (b - 1) h x (ground arith) (rw odd at side)
            (subst (λ k. get_elem? xs k ≡ some x) (ground arith) g)))
    | inr even ↦ rw even (get-pairs sum_pair xs b x h (ground arith) g (rw even at side))
  ]

  pub up-Roots :
      (ts : List ℕ) (p xs : List ℕ) (b x : ℕ)
      → Roots sum_pair ts xs
      → Sides sum_pair p xs b
      → Ends p b (length xs)
      → get_elem? xs b ≡ some x
      → length p < length ts
      → (get_or ts (length p) 0 ≡ up b x p) × (length xs / 2 ^ length p % 2 ≡ 1)
  unfolding Roots Sides Ends up
  up-Roots [] p xs b x r s e g l = absurd (omega arith)
  up-Roots (t ∷ ts) [] xs b x (last, r) s (one, odd) g l = (
    some-inj (sym (last odd) ∙ subst (λ i. get_elem? xs i ≡ some x) (omega (arith, one)) g),
    omega (arith, odd, div-one (length xs)),
  )
  up-Roots (t ∷ ts) (h ∷ p) xs b x (last, r) (side, s) e g l =
      let parent_node = if b % 2 == 1 then sum_pair h x else sum_pair x h in
      let (root, odd) =
        up-Roots ts p (pairs sum_pair xs) (b / 2) parent_node r s
          (subst (Ends p (b / 2)) (sym (length-pairs sum_pair xs)) e) (parent xs b x h g side)
          (omega (arith, l)) in
      let shift : length xs / 2 ^ suc (length p) ≡ length (pairs sum_pair xs) / 2 ^ length p =
        ap (λ d. length xs / d) (pow-succ' 2 (length p))
        ∙ sym (div-div-eq-div-mul (length xs) 2 (2 ^ length p))
        ∙ ap (λ n. n / 2 ^ length p) (sym (length-pairs sum_pair xs)) in
      (root, ap (λ n. n % 2) shift ∙ odd)

  pub fold_root-up :
      (i index root : ℕ) (p : List ℕ)
      → fold_root sum_pair i index root p ≡ up (index / 2 ^ i) root p
  unfolding fold_root up
  fold_root-up i index root [] = refl
  fold_root-up i index root (h ∷ hs) =
      fold_root-up (i + 1) index (if test_bit index i then sum_pair h root else sum_pair root h) hs
      ∙ ap (λ b. up b (if test_bit index i then sum_pair h root else sum_pair root h) hs)
          (half_shift index i)
