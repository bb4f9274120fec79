-- ===== src/Accumulator/Climb.antt =====
-- core/consensus/merkle.go: the loop over the heights in addLeaves, as an insertion into the roots
-- and into each proof.
use native.Mathlib.Nat.{pow-succ', div-lt_iff_lt-mul, one-le-pow}
use mathlib.Core.List.{map}
use qday.Base.{
  ◌↔◌, inl, inr, ℕ, suc, ◌+◌, ◌-◌, ◌*◌, ◌/◌, ◌%◌, ◌^◌, ◌<◌, ◌≡◌, refl, ap, ◌∙◌, sym, subst, true,
  false, List, [], ◌∷◌, ◌++◌, length, arith, ltb, ◌==◌, if◌then◌else◌, Bool-cases,
}
use qday.Base.Words.{test_bit}
use qday.Accumulator.{ElementLeaf, append_roots, climb}
use qday.Accumulator.Levels.{pairs, length-pairs}
use qday.Accumulator.Roots.{half_shift}
use qday.Accumulator.Proofs.{insert_root, touch, extend, extend-odd, extend-even}

-- The leaves are the last ones, the newest first; back is the distance of the first from n.
unfoldable pub Indexed : ℕ → ℕ → List ElementLeaf → Type 0
Indexed n back [] = Unit
Indexed n back (l ∷ ls) = (l.leaf_index + back ≡ n) × Indexed n (back + 1) ls

below_iff : (index q w : ℕ) → 0 < w → (index / w < q) ↔ (index < q * w)
below_iff index q w pos = div-lt_iff_lt-mul pos

-- Which of the last two subtrees of a height a leaf is under.
module _ (n r w index back : ℕ) (pos : 0 < w) (at : index + back ≡ n)
    (full : suc n ≡ suc (suc r) * w) where
  newest : ltb back w ≡ (index / w == suc r)
  newest =
      let (a, b) = below_iff index (suc r) w pos in
      let (c, d) = below_iff index (suc (suc r)) w pos in
      elim (Bool-cases (ltb back w)) [
        | inl yes' ↦ ground (arith, yes', a, d, at, full)
        | inr no' ↦ ground (arith, no', b, at, full)
      ]

  before : ltb back w ≡ false → ltb back (2 * w) ≡ (suc (index / w) == suc r)
  before out =
      let (a, b) = below_iff index r w pos in
      let (c, d) = below_iff index (suc r) w pos in
      elim (Bool-cases (ltb back (2 * w))) [
        | inl yes' ↦ ground (arith, yes', out, a, d, at, full)
        | inr no' ↦ ground (arith, no', b, at, full)
      ]

module _ (q t h height : ℕ) where
  touch_leaf : ElementLeaf → ElementLeaf
  unfolding touch
  touch_leaf l = record l { merkle_proof = touch (l.leaf_index / 2 ^ height) q t h l.merkle_proof }

  touch_leaf-Indexed :
      (n back : ℕ) (ls : List ElementLeaf) → Indexed n back ls → Indexed n back (map touch_leaf ls)
  unfolding Indexed touch_leaf
  touch_leaf-Indexed n back [] ix = tt
  touch_leaf-Indexed n back (l ∷ ls) (at, ix) = (at, touch_leaf-Indexed n (back + 1) ls ix)

module _ (n r t h height : ℕ) (full : suc n ≡ suc (suc r) * 2 ^ height) where
  touch_proof :
      (index back : ℕ) (p : List ℕ)
      → index + back ≡ n
      → (if ltb back (2 ^ height)
          then p ++ t ∷ []
          else (if ltb back (2 ^ (height + 1)) then p ++ h ∷ [] else p))
        ≡ touch (index / 2 ^ height) (suc r) t h p
  unfolding touch
  touch_proof index back p at =
      let pos : 0 < 2 ^ height = one-le-pow height 2 (omega arith) in
      let double : 2 ^ (height + 1) ≡ 2 * 2 ^ height =
        ap (λ k. 2 ^ k) ((omega arith)) ∙ pow-succ' 2 height in
      elim (Bool-cases (ltb back (2 ^ height))) [
        | inl near ↦
            let b = sym (newest n r (2 ^ height) index back pos at full) ∙ near in rw (near, b) refl
        | inr far ↦
            let b = sym (newest n r (2 ^ height) index back pos at full) ∙ far in
            let c = before n r (2 ^ height) index back pos at full far in
            rw (far, b, double, c) refl
      ]

  append_roots-touch :
      (back : ℕ) (ls : List ElementLeaf)
      → Indexed n back ls
      → append_roots back height t h ls ≡ map (touch_leaf (suc r) t h height) ls
  unfolding append_roots Indexed touch_leaf
  append_roots-touch back [] ix = refl
  append_roots-touch back (l ∷ ls) (at, ix) = λ i.
      record l { merkle_proof = touch_proof l.leaf_index back l.merkle_proof at i }
      ∷ append_roots-touch (back + 1) ls ix i

full_above :
    (n height : ℕ)
    → suc n ≡ suc (n / 2 ^ height) * 2 ^ height
    → n / 2 ^ height % 2 ≡ 1
    → suc n ≡ suc (n / 2 ^ (height + 1)) * 2 ^ (height + 1)
full_above n height full odd =
    let q = n / 2 ^ height in
    let w = 2 ^ height in
    let double : 2 ^ (height + 1) ≡ 2 * w = ap (λ k. 2 ^ k) (omega arith) ∙ pow-succ' 2 height in
    let two : suc q * w ≡ (2 * suc (q / 2)) * w = ap (λ (k : ℕ). k * w) (omega (arith, odd)) in
    rw (half_shift n height, double) (omega (arith, full, two))

module _ (sum_pair : ℕ → ℕ → ℕ) where
  -- A leaf with the roots that are appended to its proof from a height on.
  unfoldable pub extend_leaf : ℕ → ℕ → List ℕ → ℕ → ElementLeaf → ElementLeaf
  unfolding extend
  extend_leaf q height ts h l = record l {
    merkle_proof = extend (l.leaf_index / 2 ^ height) q sum_pair ts h l.merkle_proof;
  }

  extend-touch :
      (q height t h : ℕ) (ts : List ℕ) (ls : List ElementLeaf)
      → q % 2 ≡ 1
      → map (extend_leaf (q / 2) (height + 1) ts (sum_pair t h)) (map (touch_leaf q t h height) ls)
        ≡ map (extend_leaf q height (t ∷ ts) h) ls
  unfolding extend_leaf touch_leaf
  extend-touch q height t h ts [] odd = refl
  extend-touch q height t h ts (l ∷ ls) odd =
      let b = half_shift l.leaf_index height in
      let one =
        (ap
          (λ k.
            extend k (q / 2) sum_pair ts (sum_pair t h)
              (touch (l.leaf_index / 2 ^ height) q t h l.merkle_proof))
          b)
        ∙ sym (extend-odd sum_pair (l.leaf_index / 2 ^ height) q t ts h l.merkle_proof odd) in
      λ i. record l { merkle_proof = one i } ∷ extend-touch q height t h ts ls odd i

  extend_none :
      (q height t h : ℕ) (ts : List ℕ) (ls : List ElementLeaf)
      → q % 2 ≡ 0
      → map (extend_leaf q height (t ∷ ts) h) ls ≡ ls
  unfolding extend_leaf
  extend_none q height t h ts [] even = refl
  extend_none q height t h ts (l ∷ ls) even = λ i.
      record l {
        merkle_proof =
            extend-even sum_pair (l.leaf_index / 2 ^ height) q t ts h l.merkle_proof even i;
      }
      ∷ extend_none q height t h ts ls even i

  extend_nil : (q height h : ℕ) (ls : List ElementLeaf) → map (extend_leaf q height [] h) ls ≡ ls
  unfolding extend_leaf extend
  extend_nil q height h [] = refl
  extend_nil q height h (l ∷ ls) = ap (λ t. l ∷ t) (extend_nil q height h ls)

  pub climb-leaves :
      (n height : ℕ) (ts : List ℕ) (h : ℕ) (ls : List ElementLeaf)
      → suc n ≡ suc (n / 2 ^ height) * 2 ^ height
      → Indexed n 0 ls
      → (climb sum_pair n height ts h ls).leaves ≡ map (extend_leaf (n / 2 ^ height) height ts h) ls
  unfolding climb
  climb-leaves n height [] h ls full ix = sym (extend_nil (n / 2 ^ height) height h ls)
  climb-leaves n height (t ∷ ts) h ls full ix = elim (Bool-cases (test_bit n height)) [
    | inr even ↦
        rw even (sym (extend_none (n / 2 ^ height) height t h ts ls (ground (arith, even))))
    | inl odd ↦
        let q = n / 2 ^ height in
        let one : q % 2 ≡ 1 = ground (arith, odd) in
        let pre : suc (q - 1) ≡ q = omega (arith, one) in
        let touched : append_roots 0 height t h ls ≡ map (touch_leaf q t h height) ls =
          append_roots-touch n (q - 1) t h height
            (subst (λ k. suc n ≡ suc k * 2 ^ height) (sym pre) full) 0 ls ix
          ∙ ap (λ k. map (touch_leaf k t h height) ls) pre in
        let ix' = touch_leaf-Indexed q t h height n 0 ls ix in
        let above : n / 2 ^ (height + 1) ≡ q / 2 = half_shift n height in
        let full' = full_above n height full one in
        rw odd (
          ap (λ ds. (climb sum_pair n (height + 1) ts (sum_pair t h) ds).leaves) touched
          ∙ climb-leaves n (height + 1) ts (sum_pair t h) (map (touch_leaf q t h height) ls) full'
              ix'
          ∙ ap
              (λ k.
                map (extend_leaf k (height + 1) ts (sum_pair t h))
                  (map (touch_leaf q t h height) ls))
              above
          ∙ extend-touch q height t h ts ls one)
  ]

  -- The loop finds a free height, and makes the roots of the larger forest.
  pub climb-trees :
      (n height : ℕ) (ts xs : List ℕ) (h : ℕ) (ls : List ElementLeaf)
      → n / 2 ^ height ≡ length xs
      → suc (length xs) < 2 ^ length ts
      → ((climb sum_pair n height ts h ls).inserted ≡ true)
        × ((climb sum_pair n height ts h ls).trees ≡ insert_root sum_pair ts h xs)
        × (length (climb sum_pair n height ts h ls).trees ≡ length ts)
  unfolding climb insert_root
  climb-trees n height [] xs h ls level fits = absurd (omega arith)
  climb-trees n height (t ∷ ts) xs h ls level fits = elim (Bool-cases (length xs % 2 == 1)) [
    | inl odd ↦
        let test : test_bit n height ≡ true = ap (λ k. k % 2 == 1) level ∙ odd in
        let (found, trees, same) =
          climb-trees n (height + 1) ts (pairs sum_pair xs) (sum_pair t h)
            (append_roots 0 height t h ls)
            (half_shift n height ∙ ap (λ k. k / 2) level ∙ sym (length-pairs sum_pair xs))
            (ground (arith, fits, odd, length-pairs sum_pair xs, pow-succ' 2 (length ts))) in
        rw (test, odd) (found, ap (λ u. t ∷ u) trees, ap suc same)
    | inr even ↦
        let test : test_bit n height ≡ false = ap (λ k. k % 2 == 1) level ∙ even in
        rw (test, even) (refl, refl, refl)
  ]
