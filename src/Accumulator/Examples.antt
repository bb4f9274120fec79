-- ===== src/Accumulator/Examples.antt =====
-- core/consensus/merkle.go: the theorems at concrete inputs.
use mathlib.Core.List.{map}
use qday.Base.{
  subst, sym, ap, ℕ, suc, ◌≡◌, refl, true, false, [], ◌∷◌, ◌++◌, some, get_elem?, arith, All,
}
use qday.Accumulator.{ElementLeaf, leaf_hash, contains_leaf, add_leaves}
use qday.Accumulator.Batch.{hashes, bare, numbered, add_leaves_lem}
use qday.Accumulator.Elements.{siacoin_leaf, contains_unspent_siacoin_element}
use qday.Accumulator.Members.{IsForest, contains_leaf-IsPlaced, contains_leaf_sound}
use qday.Accumulator.Roots.{Sides, Ends}
use qday.Accumulator.Sample.{
  square_pair, pack, square_pair-Injective, pack-Injective, sample_hashes, one_leaf,
  one_leaf-IsForest, zeros, no_leaf-IsForest,
}
use qday.Accumulator.Spent.{singleton-IsIndexed, spent_not_unspent}
use qday.Types.{SiacoinElement}

abbrev new_leaf : ℕ → ElementLeaf
new_leaf h = record { leaf_index = 0; merkle_proof = []; element_hash = h; spent = false }

add_leaves_lem_example :
    IsForest square_pair
      (add_leaves square_pair pack
        (record { trees = zeros 64; num_leaves = 0 })
        (new_leaf 5 ∷ new_leaf 6 ∷ new_leaf 7 ∷ [])).0
      ([] ++ hashes square_pair pack 0 (new_leaf 5 ∷ new_leaf 6 ∷ new_leaf 7 ∷ []))
    × All
        (λ l.
          contains_leaf square_pair pack
            (add_leaves square_pair pack
              (record { trees = zeros 64; num_leaves = 0 })
              (new_leaf 5 ∷ new_leaf 6 ∷ new_leaf 7 ∷ [])).0
            l
          ≡ true)
        (add_leaves square_pair pack
          (record { trees = zeros 64; num_leaves = 0 })
          (new_leaf 5 ∷ new_leaf 6 ∷ new_leaf 7 ∷ [])).1
    × (map bare
          (add_leaves square_pair pack
            (record { trees = zeros 64; num_leaves = 0 })
            (new_leaf 5 ∷ new_leaf 6 ∷ new_leaf 7 ∷ [])).1
        ≡ numbered 0 (new_leaf 5 ∷ new_leaf 6 ∷ new_leaf 7 ∷ []) [])
add_leaves_lem_example =
    add_leaves_lem square_pair pack (record { trees = zeros 64; num_leaves = 0 }) []
      (new_leaf 5 ∷ new_leaf 6 ∷ new_leaf 7 ∷ []) no_leaf-IsForest (refl, (refl, (refl, tt)))
      (omega arith)

alone_contained :
    (l : ElementLeaf)
    → l.merkle_proof ≡ []
    → l.leaf_index ≡ 0
    → contains_leaf square_pair pack (one_leaf (leaf_hash pack l)) l ≡ true
unfolding Sides Ends
alone_contained l p i =
    contains_leaf-IsPlaced square_pair pack (one_leaf (leaf_hash pack l)) (leaf_hash pack l ∷ []) l
      (one_leaf-IsForest (leaf_hash pack l))
      (record {
        stands =
            subst (λ k. get_elem? (leaf_hash pack l ∷ []) k ≡ some (leaf_hash pack l)) (sym i) refl;
        sides = subst (λ q. Sides square_pair q (leaf_hash pack l ∷ []) l.leaf_index) (sym p) tt;
        ends = subst (λ q. Ends q l.leaf_index 1) (sym p) (ap suc i, refl);
      })

contains_leaf_sound_example :
    (i : ℕ) × (get_elem? (leaf_hash pack (new_leaf 5) ∷ []) i ≡ some (leaf_hash pack (new_leaf 5)))
contains_leaf_sound_example =
    contains_leaf_sound square_pair pack (one_leaf (leaf_hash pack (new_leaf 5)))
      (leaf_hash pack (new_leaf 5) ∷ []) (new_leaf 5) square_pair-Injective
      (one_leaf-IsForest (leaf_hash pack (new_leaf 5))) (alone_contained (new_leaf 5) refl refl)

abbrev first_element : SiacoinElement
first_element = record {
  id = 500;
  state_element = record { leaf_index = 0; merkle_proof = [] };
  siacoin_output = record { value = record { lo = 1; hi = 0 }; address = 5 };
  maturity_height = 10;
}

spent_not_unspent_example :
    contains_unspent_siacoin_element square_pair pack sample_hashes
      (one_leaf (leaf_hash pack (siacoin_leaf sample_hashes first_element true)))
      first_element
    ≡ false
unfolding siacoin_leaf
spent_not_unspent_example =
    spent_not_unspent square_pair pack sample_hashes
      (one_leaf (leaf_hash pack (siacoin_leaf sample_hashes first_element true)))
      (leaf_hash pack (siacoin_leaf sample_hashes first_element true) ∷ []) first_element
      first_element square_pair-Injective pack-Injective
      (one_leaf-IsForest (leaf_hash pack (siacoin_leaf sample_hashes first_element true)))
      (singleton-IsIndexed pack (siacoin_leaf sample_hashes first_element true) pack-Injective refl)
      (omega arith) (omega arith) refl
