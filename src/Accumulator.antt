-- ===== src/Accumulator.antt =====
-- core/consensus/merkle.go: the element accumulator, a forest of perfect Merkle trees.
pub mod Levels
pub mod Roots
pub mod Proofs
pub mod Climb
pub mod Members
pub mod Batch
pub mod Elements
pub mod Spent
pub mod Update
pub mod Sample
mod Examples
use qday.Base.{
  ℕ, ◌+◌, ◌^◌, ◌%◌, ◌*◌, List, [], ◌∷◌, ◌++◌, Bool, true, false, ◌&&◌, ltb, ◌==◌, if◌then◌else◌,
  length, get_or,
}
use qday.Base.Bytes.{Bytes, be_bytes, le_bytes}
use qday.Base.Words.{test_bit, u64_mod}

-- `trees` are the 64 roots by height; a root is there where `num_leaves` has the bit.
pub record Accumulator : Type 0 where
  pub trees : List ℕ
  pub num_leaves : ℕ

-- `elementLeaf`, with the fields of its StateElement.
pub record ElementLeaf : Type 0 where
  pub leaf_index : ℕ
  pub merkle_proof : List ℕ
  pub element_hash : ℕ
  pub spent : Bool

abbrev pub has_tree_at_height : Accumulator → ℕ → Bool
has_tree_at_height acc height = test_bit acc.num_leaves height

-- The two loops over the proofs before the leaf i, which is the first of the list; `back` is i - j.
unfoldable pub append_roots : ℕ → ℕ → ℕ → ℕ → List ElementLeaf → List ElementLeaf
append_roots back height old_root h [] = []
append_roots back height old_root h (l ∷ ls) =
    record l {
      merkle_proof =
          if ltb back (2 ^ height)
          then l.merkle_proof ++ old_root ∷ []
          else (if ltb back (2 ^ (height + 1)) then l.merkle_proof ++ h ∷ [] else l.merkle_proof);
    }
    ∷ append_roots (back + 1) height old_root h ls

-- The roots after the loop over the heights, whether it found a free height, and the leaves.
pub record Climbed : Type 0 where
  pub trees : List ℕ
  pub inserted : Bool
  pub leaves : List ElementLeaf

-- The parameters are blake2b.SumPair and types.HashBytes.
module _ (sum_pair : ℕ → ℕ → ℕ) where
  unfoldable pub fold_root : ℕ → ℕ → ℕ → List ℕ → ℕ
  fold_root i leaf_index root [] = root
  fold_root i leaf_index root (h ∷ hs) =
      fold_root (i + 1) leaf_index
        (if test_bit leaf_index i then sum_pair h root else sum_pair root h) hs

  unfoldable pub proof_root : ℕ → ℕ → List ℕ → ℕ
  unfolding fold_root
  proof_root leaf_hash leaf_index proof = fold_root 0 leaf_index leaf_hash proof

  -- The loop over the heights for a leaf with the hash h.
  unfoldable pub climb : ℕ → ℕ → List ℕ → ℕ → List ElementLeaf → Climbed
  unfolding append_roots
  climb num_leaves height [] h done = record { trees = []; inserted = false; leaves = done }
  climb num_leaves height (old_root ∷ ts) h done =
      let up =
        climb num_leaves (height + 1) ts (sum_pair old_root h)
          (append_roots 0 height old_root h done) in
      if test_bit num_leaves height
      then record up { trees = old_root ∷ up.trees }
      else record { trees = h ∷ ts; inserted = true; leaves = done }

unfoldable pub leaf_hash : (Bytes → ℕ) → ElementLeaf → ℕ
leaf_hash hash_bytes l =
    hash_bytes (
      0 ∷ be_bytes 32 l.element_hash
      ++ (le_bytes 8 l.leaf_index ++ (if l.spent then 1 else 0) ∷ []))

module _ (sum_pair : ℕ → ℕ → ℕ) (hash_bytes : Bytes → ℕ) where
  -- A height of 64 and more, at which Go's index panics, has no tree.
  unfoldable pub contains_leaf : Accumulator → ElementLeaf → Bool
  unfolding proof_root leaf_hash
  contains_leaf acc l =
      has_tree_at_height acc (length l.merkle_proof)
      && (get_or acc.trees (length l.merkle_proof) 0
          == proof_root sum_pair (leaf_hash hash_bytes l) l.leaf_index l.merkle_proof)

  -- One round of addLeaves: `done` are the leaves before it, the last first.
  unfoldable pub add_leaf :
      Accumulator → List ElementLeaf → ElementLeaf → Accumulator × List ElementLeaf
  unfolding climb leaf_hash
  add_leaf acc done el =
      let el' = record el { leaf_index = acc.num_leaves } in
      let c = climb sum_pair acc.num_leaves 0 acc.trees (leaf_hash hash_bytes el') (el' ∷ done) in
      (
        record {
          trees = c.trees;
          num_leaves = if c.inserted then (acc.num_leaves + 1) % u64_mod else acc.num_leaves;
        },
        c.leaves,
      )

  unfoldable pub add_leaves_from :
      Accumulator → List ElementLeaf → List ElementLeaf → Accumulator × List ElementLeaf
  unfolding add_leaf
  add_leaves_from acc done [] = (acc, done)
  add_leaves_from acc done (el ∷ els) =
      let (acc', done') = add_leaf acc done el in add_leaves_from acc' done' els

  -- The accumulator and the leaves with their proofs, the last first.
  unfoldable pub add_leaves : Accumulator → List ElementLeaf → Accumulator × List ElementLeaf
  unfolding add_leaves_from
  add_leaves acc leaves = add_leaves_from acc [] leaves
