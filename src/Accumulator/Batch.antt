-- ===== src/Accumulator/Batch.antt =====
-- core/consensus/merkle.go: addLeaves appends to the forest, and leaves every new leaf with a proof
-- that containsLeaf accepts.
use native.Mathlib.Nat.{div-one}
use mathlib.Core.List.{map, append-nil}
use qday.Base.{
  ℕ, suc, ◌+◌, ◌/◌, ◌^◌, ◌<◌, ◌≡◌, refl, ap, Bool-cases, ◌∙◌, sym, subst, true, List, [], ◌∷◌, ◌++◌,
  append_assoc, some, length, length-append, get_elem?, arith, inl, inr, All,
}
use qday.Base.Bytes.{Bytes}
use qday.Base.Words.{test_bit}
use qday.Accumulator.{
  append_roots, Accumulator, ElementLeaf, leaf_hash, contains_leaf, climb, add_leaf,
  add_leaves_from, add_leaves,
}
use qday.Accumulator.Levels.{get_elem?-append, get_elem?-last}
use qday.Accumulator.Roots.{Sides, Roots, Ends}
use qday.Accumulator.Proofs.{At, extend, extend_lem, insert_root-Roots}
use qday.Accumulator.Climb.{Indexed, extend_leaf, climb-leaves, climb-trees}
use qday.Accumulator.Members.{IsForest, IsPlaced, contains_leaf-IsPlaced}

-- A leaf without its proof.
unfoldable pub bare : ElementLeaf → ElementLeaf
bare l = record l { merkle_proof = [] }

-- The new leaves, with indices that run on from n and without proofs, before those of `done`, the
-- last of them first.
unfoldable pub numbered : ℕ → List ElementLeaf → List ElementLeaf → List ElementLeaf
unfolding bare
numbered n [] done = done
numbered n (l ∷ ls) done = numbered (n + 1) ls (bare (record l { leaf_index = n }) ∷ done)

append_roots-bare :
    (back height t h : ℕ) (ls : List ElementLeaf)
    → map bare (append_roots back height t h ls) ≡ map bare ls
unfolding append_roots bare
append_roots-bare back height t h [] = refl
append_roots-bare back height t h (l ∷ ls) =
    ap (λ r. bare l ∷ r) (append_roots-bare (back + 1) height t h ls)

climb-bare :
    (sum_pair : ℕ → ℕ → ℕ) (n height : ℕ) (ts : List ℕ) (h : ℕ) (done : List ElementLeaf)
    → map bare (climb sum_pair n height ts h done).leaves ≡ map bare done
unfolding climb
climb-bare sum_pair n height [] h done = refl
climb-bare sum_pair n height (t ∷ ts) h done = elim (Bool-cases (test_bit n height)) [
  | inr free ↦ rw free refl
  | inl taken ↦ rw taken (
      climb-bare sum_pair n (height + 1) ts (sum_pair t h) (append_roots 0 height t h done)
      ∙ append_roots-bare 0 height t h done)
]

indexed :
    (n : ℕ) (done : List ElementLeaf) (el : ElementLeaf)
    → Indexed n 1 done
    → el.leaf_index ≡ n
    → Indexed n 0 (el ∷ done)
unfolding Indexed
indexed n done el ix at = (omega (arith, at), ix)

module _ (sum_pair : ℕ → ℕ → ℕ) (hash_bytes : Bytes → ℕ) where
  -- The hashes of new leaves, whose indices run on from n.
  unfoldable pub hashes : ℕ → List ElementLeaf → List ℕ
  hashes n [] = []
  hashes n (l ∷ ls) = leaf_hash hash_bytes (record l { leaf_index = n }) ∷ hashes (n + 1) ls

  -- A leaf of the batch while the last one is inserted.
  record IsEntering (xs : List ℕ) (h : ℕ) (l : ElementLeaf) : Type 0 where
    stands : get_elem? (xs ++ h ∷ []) l.leaf_index ≡ some (leaf_hash hash_bytes l)
    sides : Sides sum_pair l.merkle_proof xs l.leaf_index
    ends : At l.merkle_proof l.leaf_index (length xs)

  extend_leaf-IsPlaced :
      (ts xs : List ℕ) (h : ℕ) (l : ElementLeaf)
      → Roots sum_pair ts xs
      → suc (length xs) < 2 ^ length ts
      → IsEntering xs h l
      → IsPlaced sum_pair hash_bytes (xs ++ h ∷ []) (extend_leaf sum_pair (length xs) 0 ts h l)
  unfolding extend_leaf leaf_hash
  extend_leaf-IsPlaced ts xs h l r fits e =
      let idx = l.leaf_index in
      let p' = extend idx (length xs) sum_pair ts h l.merkle_proof in
      let same : p' ≡ extend (idx / 1) (length xs) sum_pair ts h l.merkle_proof =
        ap (λ b. extend b (length xs) sum_pair ts h l.merkle_proof) (sym (div-one idx)) in
      let (s, d) = extend_lem sum_pair ts xs l.merkle_proof h idx r fits e.ends e.sides in
      let count : suc (length xs) ≡ length (xs ++ h ∷ []) =
        omega (arith, length-append xs (h ∷ [])) in
      record {
        stands = e.stands;
        sides = subst (λ q. Sides sum_pair q (xs ++ h ∷ []) idx) same s;
        ends = subst (λ q. Ends q idx (length (xs ++ h ∷ []))) same (subst (Ends p' idx) count d);
      }

  IsPlaced-IsEntering :
      (xs : List ℕ) (h : ℕ) (ls : List ElementLeaf)
      → All (IsPlaced sum_pair hash_bytes xs) ls
      → All (IsEntering xs h) ls
  IsPlaced-IsEntering xs h [] a = tt
  IsPlaced-IsEntering xs h (l ∷ ls) (p, a) = (
    record {
      stands = get_elem?-append xs l.leaf_index (leaf_hash hash_bytes l) h p.stands;
      sides = p.sides;
      ends = inr p.ends;
    },
    IsPlaced-IsEntering xs h ls a,
  )

  extend-All :
      (ts xs : List ℕ) (h : ℕ) (ls : List ElementLeaf)
      → Roots sum_pair ts xs
      → suc (length xs) < 2 ^ length ts
      → All (IsEntering xs h) ls
      → All
          (IsPlaced sum_pair hash_bytes (xs ++ h ∷ []))
          (map (extend_leaf sum_pair (length xs) 0 ts h) ls)
  extend-All ts xs h [] r fits a = tt
  extend-All ts xs h (l ∷ ls) r fits (e, a) =
      (extend_leaf-IsPlaced ts xs h l r fits e, extend-All ts xs h ls r fits a)

  -- The state of addLeaves between two rounds.
  pub record IsBatch (acc : Accumulator) (done : List ElementLeaf) (xs : List ℕ) : Type 0 where
    pub forest : IsForest sum_pair acc xs
    pub indexed : Indexed (length xs) 1 done
    pub placed : All (IsPlaced sum_pair hash_bytes xs) done

  extend_leaf-Indexed :
      (q : ℕ) (ts : List ℕ) (h n back : ℕ) (ls : List ElementLeaf)
      → Indexed n back ls
      → Indexed (suc n) (back + 1) (map (extend_leaf sum_pair q 0 ts h) ls)
  unfolding Indexed extend_leaf
  extend_leaf-Indexed q ts h n back [] ix = tt
  extend_leaf-Indexed q ts h n back (l ∷ ls) (at, ix) =
      (omega (arith, at), extend_leaf-Indexed q ts h n (back + 1) ls ix)

  enters :
      (n : ℕ) (xs : List ℕ) (l : ElementLeaf)
      → n ≡ length xs
      → l.merkle_proof ≡ []
      → IsEntering xs
          (leaf_hash hash_bytes (record l { leaf_index = n }))
          (record l { leaf_index = n })
  unfolding leaf_hash Sides
  enters n xs l count fresh =
      let h = leaf_hash hash_bytes (record l { leaf_index = n }) in
      record {
        stands = subst (λ i. get_elem? (xs ++ h ∷ []) i ≡ some h) (sym count) (get_elem?-last xs h);
        sides = subst (λ p. Sides sum_pair p xs n) (sym fresh) tt;
        ends = inl (count, fresh);
      }

  pub add_leaf-IsBatch :
      (acc : Accumulator) (done : List ElementLeaf) (xs : List ℕ) (l : ElementLeaf)
      → IsBatch acc done xs
      → l.merkle_proof ≡ []
      → suc (length xs) < 2 ^ 63
      → IsBatch
          (add_leaf sum_pair hash_bytes acc done l).0
          (add_leaf sum_pair hash_bytes acc done l).1
          (xs ++ leaf_hash hash_bytes (record l { leaf_index = length xs }) ∷ [])
  unfolding add_leaf
  add_leaf-IsBatch acc done xs l b fresh fits =
      let n = acc.num_leaves in
      let count = b.forest.count in
      let el = record l { leaf_index = n } in
      let h = leaf_hash hash_bytes el in
      let c = climb sum_pair n 0 acc.trees h (el ∷ done) in
      let roomy : suc (length xs) < 2 ^ length acc.trees =
        rw b.forest.heights (omega (arith, fits)) in
      let (found, trees, heights) =
        climb-trees sum_pair n 0 acc.trees xs h (el ∷ done) (div-one n ∙ count) roomy in
      let ix : Indexed n 0 (el ∷ done) =
        indexed n done el (subst (λ k. Indexed k 1 done) (sym count) b.indexed) refl in
      let leaves : c.leaves ≡ map (extend_leaf sum_pair (length xs) 0 acc.trees h) (el ∷ done) =
        climb-leaves sum_pair n 0 acc.trees h (el ∷ done) (omega (arith, div-one n)) ix
        ∙ ap (λ q. map (extend_leaf sum_pair q 0 acc.trees h) (el ∷ done)) (div-one n ∙ count) in
      let longer : suc (length xs) ≡ length (xs ++ h ∷ []) =
        omega (arith, length-append xs (h ∷ [])) in
      let placed =
        extend-All acc.trees xs h (el ∷ done) b.forest.roots roomy
          (enters n xs l count fresh, IsPlaced-IsEntering xs h done b.placed) in
      subst
        (λ k.
          IsBatch (add_leaf sum_pair hash_bytes acc done l).0
            (add_leaf sum_pair hash_bytes acc done l).1
            (xs ++ leaf_hash hash_bytes (record l { leaf_index = k }) ∷ []))
        count
        (record {
          forest = record {
            count = rw found (omega (arith, count, longer, fits));
            bound = omega (arith, longer, fits);
            heights = heights ∙ b.forest.heights;
            roots =
                subst (λ ts. Roots sum_pair ts (xs ++ h ∷ [])) (sym trees)
                  (insert_root-Roots sum_pair acc.trees xs h b.forest.roots);
          };
          indexed =
              subst (λ ls. Indexed (length (xs ++ h ∷ [])) 1 ls) (sym leaves)
                (subst
                  (λ k.
                    Indexed k 1 (map (extend_leaf sum_pair (length xs) 0 acc.trees h) (el ∷ done)))
                  (ap suc count ∙ longer)
                  (extend_leaf-Indexed (length xs) acc.trees h n 0 (el ∷ done) ix));
          placed = subst (All (IsPlaced sum_pair hash_bytes (xs ++ h ∷ []))) (sym leaves) placed;
        })

  add_leaves_from-IsBatch :
      (acc : Accumulator) (done : List ElementLeaf) (xs : List ℕ) (ls : List ElementLeaf)
      → IsBatch acc done xs
      → All (λ l. l.merkle_proof ≡ []) ls
      → length xs + length ls < 2 ^ 63
      → IsBatch
          (add_leaves_from sum_pair hash_bytes acc done ls).0
          (add_leaves_from sum_pair hash_bytes acc done ls).1
          (xs ++ hashes (length xs) ls)
  unfolding add_leaves_from hashes
  add_leaves_from-IsBatch acc done xs [] b fresh fits =
      subst (IsBatch acc done) (sym (append-nil xs)) b
  add_leaves_from-IsBatch acc done xs (l ∷ ls) b (f, fresh) fits =
      let h = leaf_hash hash_bytes (record l { leaf_index = length xs }) in
      let longer : length (xs ++ h ∷ []) ≡ length xs + 1 = length-append xs (h ∷ []) in
      let next = add_leaf sum_pair hash_bytes acc done l in
      let b' = add_leaf-IsBatch acc done xs l b f (omega (arith, fits)) in
      let all =
        add_leaves_from-IsBatch next.0 next.1 (xs ++ h ∷ []) ls b' fresh
          (omega (arith, fits, longer)) in
      subst (IsBatch _ _)
        (append_assoc xs (h ∷ []) (hashes (length (xs ++ h ∷ [])) ls)
          ∙ ap (λ k. xs ++ h ∷ hashes k ls) longer)
        all

  add_leaf-bare :
      (acc : Accumulator) (done : List ElementLeaf) (l : ElementLeaf)
      → map bare (add_leaf sum_pair hash_bytes acc done l).1
        ≡ bare (record l { leaf_index = acc.num_leaves }) ∷ map bare done
  unfolding add_leaf
  add_leaf-bare acc done l =
      climb-bare sum_pair acc.num_leaves 0 acc.trees _
        (record l { leaf_index = acc.num_leaves } ∷ done)

  add_leaves_from-numbered :
      (acc : Accumulator) (done : List ElementLeaf) (xs : List ℕ) (ls : List ElementLeaf)
      → IsBatch acc done xs
      → All (λ l. l.merkle_proof ≡ []) ls
      → length xs + length ls < 2 ^ 63
      → map bare (add_leaves_from sum_pair hash_bytes acc done ls).1
        ≡ numbered (length xs) ls (map bare done)
  unfolding add_leaves_from numbered
  add_leaves_from-numbered acc done xs [] b fresh fits = refl
  add_leaves_from-numbered acc done xs (l ∷ ls) b (f, fresh) fits =
      let h = leaf_hash hash_bytes (record l { leaf_index = length xs }) in
      let longer : length (xs ++ h ∷ []) ≡ length xs + 1 = length-append xs (h ∷ []) in
      let next = add_leaf sum_pair hash_bytes acc done l in
      let b' = add_leaf-IsBatch acc done xs l b f (omega (arith, fits)) in
      add_leaves_from-numbered next.0 next.1 (xs ++ h ∷ []) ls b' fresh
        (omega (arith, fits, longer))
      ∙ ap (λ k. numbered k ls (map bare next.1)) longer
      ∙ ap (numbered (length xs + 1) ls) (
          add_leaf-bare acc done l
          ∙ ap (λ k. bare (record l { leaf_index = k }) ∷ map bare done) b.forest.count)

  All-contained :
      (acc : Accumulator) (xs : List ℕ) (ls : List ElementLeaf)
      → IsForest sum_pair acc xs
      → All (IsPlaced sum_pair hash_bytes xs) ls
      → All (λ l. contains_leaf sum_pair hash_bytes acc l ≡ true) ls
  All-contained acc xs [] f a = tt
  All-contained acc xs (l ∷ ls) f (p, a) =
      (contains_leaf-IsPlaced sum_pair hash_bytes acc xs l f p, All-contained acc xs ls f a)

  -- Adding leaves without proofs to the accumulator of a list of leaves gives the accumulator of the
  -- list with their hashes at its end, while there are fewer than 2 ^ 63. What comes back are these
  -- leaves, the last first, with the indices that run on from the length of the list, and with
  -- proofs with which the accumulator contains each of them.
  pub add_leaves_lem :
      (acc : Accumulator) (xs : List ℕ) (ls : List ElementLeaf)
      → IsForest sum_pair acc xs
      → All (λ l. l.merkle_proof ≡ []) ls
      → length xs + length ls < 2 ^ 63
      → IsForest sum_pair (add_leaves sum_pair hash_bytes acc ls).0 (xs ++ hashes (length xs) ls)
        × All
            (λ l.
              contains_leaf sum_pair hash_bytes (add_leaves sum_pair hash_bytes acc ls).0 l ≡ true)
            (add_leaves sum_pair hash_bytes acc ls).1
        × (map bare (add_leaves sum_pair hash_bytes acc ls).1 ≡ numbered (length xs) ls [])
  unfolding add_leaves Indexed
  add_leaves_lem acc xs ls f fresh fits =
      let start : IsBatch acc [] xs = record { forest = f; indexed = tt; placed = tt } in
      let b = add_leaves_from-IsBatch acc [] xs ls start fresh fits in
      (
        b.forest,
        All-contained _ _ _ b.forest b.placed,
        add_leaves_from-numbered acc [] xs ls start fresh fits,
      )
