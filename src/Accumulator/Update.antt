-- ===== src/Accumulator/Update.antt =====
-- core/consensus/merkle.go: updateLeaves and applyBlock.
use qday.Base.{
  ℕ, zero, suc, ◌+◌, ◌*◌, ◌/◌, ◌^◌, Bool, false, Option, none, some, List, [], ◌∷◌, ◌++◌, ltb, ◌==◌,
  ◌||◌, ◌&&◌, if◌then◌else◌, length, get_elem?, set,
}
use qday.Base.Bytes.{Bytes}
use qday.Base.Options.{◌>>=◌}
use qday.Accumulator.{Accumulator, ElementLeaf, leaf_hash, proof_root, add_leaves}

unfoldable pub clear_bits : ℕ → ℕ → ℕ
clear_bits x n = x / 2 ^ n * 2 ^ n

-- The split of sorted leaves at the first index that is not below `mid`.
unfoldable pub split_leaves : ℕ → List ElementLeaf → List ElementLeaf × List ElementLeaf
split_leaves mid [] = ([], [])
split_leaves mid (l ∷ ls) =
    let (left, right) = split_leaves mid ls in
    if ltb l.leaf_index mid then (l ∷ left, right) else ([], l ∷ ls)

-- `e.MerkleProof[height] = root` for each leaf; the proofs of a tree are long enough.
unfoldable pub set_roots : ℕ → ℕ → List ElementLeaf → List ElementLeaf
set_roots height root [] = []
set_roots height root (l ∷ ls) =
    record l { merkle_proof = set l.merkle_proof height root } ∷ set_roots height root ls

-- The root at a height of the proof of the first leaf.
unfoldable pub proof_node : ℕ → List ElementLeaf → Option ℕ
proof_node height [] = none
proof_node height (l ∷ ls) = get_elem? l.merkle_proof height

-- Before which leaf another stands.
unfoldable pub leaf_before : ElementLeaf → ElementLeaf → Bool
leaf_before a b =
    ltb (length a.merkle_proof) (length b.merkle_proof)
    || ((length a.merkle_proof == length b.merkle_proof) && ltb a.leaf_index b.leaf_index)

unfoldable pub insert_leaf : ElementLeaf → List ElementLeaf → List ElementLeaf
unfolding leaf_before
insert_leaf l [] = l ∷ []
insert_leaf l (k ∷ ks) = if leaf_before k l then k ∷ insert_leaf l ks else l ∷ k ∷ ks

-- `sort.Slice`.
unfoldable pub sort_leaves : List ElementLeaf → List ElementLeaf
unfolding insert_leaf
sort_leaves [] = []
sort_leaves (l ∷ ls) = insert_leaf l (sort_leaves ls)

-- The leaves of the tree of a height.
unfoldable pub leaves_of_tree : ℕ → List ElementLeaf → List ElementLeaf
leaves_of_tree height [] = []
leaves_of_tree height (l ∷ ls) =
    if length l.merkle_proof == height
    then l ∷ leaves_of_tree height ls
    else leaves_of_tree height ls

-- `trees` has 64 places, by the lengths of the proofs.
unfoldable pub overlong : List ElementLeaf → Bool
overlong [] = false
overlong (l ∷ ls) = ltb 63 (length l.merkle_proof) || overlong ls

module _ (sum_pair : ℕ → ℕ → ℕ) (hash_bytes : Bytes → ℕ) where
  -- The root of the subtree of a height that starts at the index i, and the leaves with their
  -- proofs up to it; `none` is a panic.
  unfoldable pub recompute : ℕ → ℕ → List ElementLeaf → Option (ℕ × List ElementLeaf)
  unfolding split_leaves set_roots proof_node leaf_hash
  recompute zero i [] = none
  recompute zero i (l ∷ []) = some (leaf_hash hash_bytes l, l ∷ [])
  recompute zero i (l ∷ k ∷ ls) = none
  recompute (suc height) i ls =
      let mid = i + 2 ^ height in
      let parts = split_leaves mid ls in
      let left = recompute height i parts.0 in
      let right = recompute height mid parts.1 in
      if length parts.0 == 0
      then (proof_node height parts.1 >>= λ left_root.
          right >>= λ (right_root, r). some (sum_pair left_root right_root, r))
      else if length parts.1 == 0
      then (left >>= λ (left_root, l).
          proof_node height parts.0 >>= λ right_root. some (sum_pair left_root right_root, l))
      else (left >>= λ (left_root, l). right >>= λ (right_root, r). some (
        sum_pair left_root right_root,
        set_roots height right_root l ++ set_roots height left_root r,
      ))

  unfoldable pub update_tree : ℕ → List ElementLeaf → Option (List ElementLeaf)
  unfolding recompute clear_bits
  update_tree height [] = some []
  update_tree height (l ∷ ls) =
      recompute height (clear_bits l.leaf_index height) (l ∷ ls) >>= λ (root, ls'). some ls'

  -- The trees from a height on, of `rounds` heights.
  unfoldable pub update_trees : ℕ → ℕ → List ElementLeaf → Option (List (List ElementLeaf))
  unfolding update_tree leaves_of_tree
  update_trees zero height ls = some []
  update_trees (suc rounds) height ls = update_tree height (leaves_of_tree height ls) >>= λ tree.
      update_trees rounds (height + 1) ls >>= λ trees. some (tree ∷ trees)

  unfoldable pub update_leaves : List ElementLeaf → Option (List (List ElementLeaf))
  unfolding update_trees sort_leaves overlong
  update_leaves leaves = if overlong leaves then none else update_trees 64 0 (sort_leaves leaves)

  unfoldable pub replace_roots : List ℕ → List (List ElementLeaf) → List ℕ
  unfolding leaf_hash proof_root
  replace_roots [] updated = []
  replace_roots (t ∷ ts) [] = t ∷ ts
  replace_roots (t ∷ ts) ([] ∷ us) = t ∷ replace_roots ts us
  replace_roots (t ∷ ts) ((l ∷ ls) ∷ us) =
      proof_root sum_pair (leaf_hash hash_bytes l) l.leaf_index l.merkle_proof ∷ replace_roots ts us

  -- The accumulator after a block; the growth of the proofs that clients keep is left out.
  unfoldable pub apply_elements :
      Accumulator → List ElementLeaf → List ElementLeaf → Option (Accumulator × List ElementLeaf)
  unfolding update_leaves replace_roots add_leaves
  apply_elements acc updated added = update_leaves updated >>= λ trees.
      some (
        add_leaves sum_pair hash_bytes (record acc { trees = replace_roots acc.trees trees }) added)
