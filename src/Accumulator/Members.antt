-- ===== src/Accumulator/Members.antt =====
-- core/consensus/merkle.go: containsLeaf decides membership in the list of all leaves.
use native.Mathlib.Nat.{pow-succ', pow-le-pow_right, div-one, div-eq_of_lt, div-div-eq-div-mul}
use qday.Base.{
  ℕ, zero, suc, ◌-◌, ◌/◌, ◌%◌, ◌^◌, ◌≤◌, ◌<◌, ◌≡◌, refl, ap, ◌∙◌, sym, Bool, true, false, ◌&&◌,
  List, [], ◌∷◌, some, length, get_elem?, get_or, arith, ltb, ◌==◌, if◌then◌else◌, Bool-cases,
  ==_iff, inl, inr,
}
use qday.Base.Bytes.{Bytes}
use qday.Base.Options.{some-inj}
use qday.Base.Words.{test_bit}
use qday.Accumulator.{Accumulator, ElementLeaf, leaf_hash, contains_leaf, proof_root, fold_root}
use qday.Accumulator.Levels.{pairs, length-pairs}
use qday.Accumulator.Roots.{Sides, Roots, Ends, up, up-Roots, fold_root-up}

-- Equal hashes have equal parts.
abbrev pub Injective : (ℕ → ℕ → ℕ) → Type 0
Injective f = (a b c d : ℕ) → f a b ≡ f c d → (a ≡ c) × (b ≡ d)

Ends-pow : (p : List ℕ) (b n : ℕ) → Ends p b n → 2 ^ length p ≤ n
unfolding Ends
Ends-pow [] b n (one, odd) = omega arith
Ends-pow (s ∷ p) b n e = omega (arith, Ends-pow p (b / 2) (n / 2) e, pow-succ' 2 (length p))

short :
    (p : List ℕ) (b n : ℕ) (ts : List ℕ)
    → Ends p b n
    → n < 2 ^ 63
    → length ts ≡ 64
    → length p < length ts
short p b n ts e bound heights = elim (Bool-cases (ltb (length p) 64)) [
  | inl yes' ↦ ground (arith, yes', heights)
  | inr no' ↦
      let le : 2 ^ 63 ≤ 2 ^ length p =
        pow-le-pow_right (omega arith) {i = 63} (ground (arith, no')) in
      absurd (omega (arith, le, Ends-pow p b n e, bound))
]

-- A height with a tree is one of the 64.
low : (m n : ℕ) (ts : List ℕ) → n / 2 ^ m % 2 ≡ 1 → n < 2 ^ 63 → length ts ≡ 64 → m < length ts
low m n ts odd bound heights = elim (Bool-cases (ltb m 64)) [
  | inl yes' ↦ ground (arith, yes', heights)
  | inr no' ↦
      let le : 2 ^ 63 ≤ 2 ^ m = pow-le-pow_right (omega arith) {i = 63} (ground (arith, no')) in
      let nothing : n / 2 ^ m ≡ 0 = div-eq_of_lt (omega (arith, le, bound)) in
      absurd (omega (arith, nothing, odd))
]

both : (a b : Bool) → a && b ≡ true → (a ≡ true) × (b ≡ true)
both true b e = (refl, e)
both false b e = cc

module _ (sum_pair : ℕ → ℕ → ℕ) where
  -- The accumulator stands for the list of the hashes of all leaves.
  pub record IsForest (acc : Accumulator) (xs : List ℕ) : Type 0 where
    pub count : acc.num_leaves ≡ length xs
    pub bound : length xs < 2 ^ 63
    pub heights : length acc.trees ≡ 64
    pub roots : Roots sum_pair acc.trees xs

  unpair :
      (xs : List ℕ) (j y : ℕ)
      → get_elem? (pairs sum_pair xs) j ≡ some y
      → (i a b : ℕ) × (get_elem? xs i ≡ some a)
        × (get_elem? xs (suc i) ≡ some b)
        × (sum_pair a b ≡ y)
  unfolding pairs
  unpair [] j y e = cc
  unpair (a ∷ []) j y e = cc
  unpair (a ∷ b ∷ xs) zero y e = (0, a, b, refl, refl, some-inj e)
  unpair (a ∷ b ∷ xs) (suc j) y e =
      let (i, c, d, p, q, s) = unpair xs j y e in (suc (suc i), c, d, p, q, s)

  up_sound :
      Injective sum_pair
      → (ts p xs : List ℕ) (b x : ℕ) → Roots sum_pair ts xs
      → length p < length ts
      → length xs / 2 ^ length p % 2 ≡ 1
      → get_or ts (length p) 0 ≡ up sum_pair b x p
      → (i : ℕ) × (get_elem? xs i ≡ some x)
  unfolding Roots up
  up_sound inj [] p xs b x r short odd e = absurd (omega arith)
  up_sound inj (t ∷ ts) [] xs b x (last, r) short odd e =
      (length xs - 1, last (omega (arith, odd, div-one (length xs))) ∙ ap some e)
  up_sound inj (t ∷ ts) (h ∷ p) xs b x (last, r) short odd e =
      let shift : length xs / 2 ^ suc (length p) ≡ length (pairs sum_pair xs) / 2 ^ length p =
        ap (λ d. length xs / d) (pow-succ' 2 (length p))
        ∙ sym (div-div-eq-div-mul (length xs) 2 (2 ^ length p))
        ∙ ap (λ n. n / 2 ^ length p) (sym (length-pairs sum_pair xs)) in
      let (j, found) =
        up_sound inj ts p (pairs sum_pair xs) (b / 2)
          (if b % 2 == 1 then sum_pair h x else sum_pair x h) r (omega (arith, short))
          (sym (ap (λ n. n % 2) shift) ∙ odd) e in
      let (i, a, c, first, second, same) =
        unpair xs j (if b % 2 == 1 then sum_pair h x else sum_pair x h) found in
      elim (Bool-cases (b % 2 == 1)) [
        | inl right ↦
            let (_, right_same) = inj a c h x (same ∙ rw right refl) in
            (suc i, second ∙ ap some right_same)
        | inr left ↦
            let (left_same, _) = inj a c x h (same ∙ rw left refl) in (i, first ∙ ap some left_same)
      ]

  folded_up : (x index : ℕ) (p : List ℕ) → fold_root sum_pair 0 index x p ≡ up sum_pair index x p
  folded_up x index p =
      fold_root-up sum_pair 0 index x p ∙ ap (λ b. up sum_pair b x p) (div-one index)

module _ (sum_pair : ℕ → ℕ → ℕ) (hash_bytes : Bytes → ℕ) where
  -- A leaf stands in the forest at its index, and its proof leads to the root of its tree.
  pub record IsPlaced (xs : List ℕ) (l : ElementLeaf) : Type 0 where
    pub stands : get_elem? xs l.leaf_index ≡ some (leaf_hash hash_bytes l)
    pub sides : Sides sum_pair l.merkle_proof xs l.leaf_index
    pub ends : Ends l.merkle_proof l.leaf_index (length xs)

  pub contains_leaf-IsPlaced :
      (acc : Accumulator) (xs : List ℕ) (l : ElementLeaf)
      → IsForest sum_pair acc xs
      → IsPlaced xs l
      → contains_leaf sum_pair hash_bytes acc l ≡ true
  unfolding contains_leaf proof_root
  contains_leaf-IsPlaced acc xs l forest placed =
      let (root, odd) =
        up-Roots sum_pair acc.trees l.merkle_proof xs l.leaf_index (leaf_hash hash_bytes l)
          forest.roots placed.sides placed.ends placed.stands
          (short l.merkle_proof l.leaf_index (length xs) acc.trees placed.ends forest.bound
            forest.heights) in
      let here : test_bit acc.num_leaves (length l.merkle_proof) ≡ true =
        ap (λ n. test_bit n (length l.merkle_proof)) forest.count ∙ ground (arith, odd) in
      let folded = folded_up sum_pair (leaf_hash hash_bytes l) l.leaf_index l.merkle_proof in
      rw (here, root, folded) (ground arith)

  -- A leaf that the accumulator of a list of leaves contains is one of the list, if equal hashes of
  -- two nodes have equal nodes.
  pub contains_leaf_sound :
      (acc : Accumulator) (xs : List ℕ) (l : ElementLeaf)
      → Injective sum_pair
      → IsForest sum_pair acc xs
      → contains_leaf sum_pair hash_bytes acc l ≡ true
      → (i : ℕ) × (get_elem? xs i ≡ some (leaf_hash hash_bytes l))
  unfolding contains_leaf proof_root
  contains_leaf_sound acc xs l inj forest found =
      let p = l.merkle_proof in
      let (tree, root) = both (test_bit acc.num_leaves (length p)) _ found in
      let odd : length xs / 2 ^ length p % 2 ≡ 1 =
        ground (arith, ap (λ n. test_bit n (length p)) forest.count, tree) in
      let folded = folded_up sum_pair (leaf_hash hash_bytes l) l.leaf_index p in
      up_sound sum_pair inj acc.trees p xs l.leaf_index (leaf_hash hash_bytes l) forest.roots
        (low (length p) (length xs) acc.trees odd forest.bound forest.heights) odd
        ((==_iff _ _).0 root ∙ folded)
