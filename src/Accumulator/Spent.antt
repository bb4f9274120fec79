-- ===== src/Accumulator/Spent.antt =====
-- core/consensus/merkle.go and validateV2Siacoins of core/consensus/validation.go: an element that
-- is spent in the forest is not taken for an unspent one.
use qday.Base.{
  zero, suc, ◌^◌, subst, take, drop, take-append_exact, drop-append_exact, if◌then◌else◌, ℕ, ◌<◌,
  ◌≡◌, refl, sym, ap, ◌∙◌, Bool, true, false, List, [], ◌∷◌, ◌++◌, some, get_elem?, arith,
  Bool-cases, inl, inr,
}
use qday.Base.Bytes.{
  Bytes, le_bytes, be_bytes, length-be_bytes, length-le_bytes, le_value, le_value-le_bytes,
}
use qday.Base.Options.{some-inj}
use qday.Accumulator.{Accumulator, ElementLeaf, leaf_hash, contains_leaf}
use qday.Accumulator.Members.{Injective, IsForest, contains_leaf_sound}
use qday.Accumulator.Elements.{ElementHashes, siacoin_leaf, contains_unspent_siacoin_element}
use qday.Types.{SiacoinElement}

-- Equal hashes have equal bytes.
abbrev pub InjectiveBytes : (Bytes → ℕ) → Type 0
InjectiveBytes f = (a b : Bytes) → f a ≡ f b → a ≡ b

past_element :
    (l : ElementLeaf)
    → drop 33 (
        0 ∷ be_bytes 32 l.element_hash
        ++ (le_bytes 8 l.leaf_index ++ (if l.spent then 1 else 0) ∷ []))
      ≡ le_bytes 8 l.leaf_index ++ (if l.spent then 1 else 0) ∷ []
past_element l =
    drop-append_exact (0 ∷ be_bytes 32 l.element_hash)
      (le_bytes 8 l.leaf_index ++ (if l.spent then 1 else 0) ∷ []) 33
      (omega (arith, length-be_bytes 32 l.element_hash))

index_part :
    (l : ElementLeaf)
    → take 8 (le_bytes 8 l.leaf_index ++ (if l.spent then 1 else 0) ∷ []) ≡ le_bytes 8 l.leaf_index
index_part l = take-append_exact (le_bytes 8 l.leaf_index) _ 8 (length-le_bytes 8 l.leaf_index)

flag_part :
    (l : ElementLeaf)
    → drop 8 (le_bytes 8 l.leaf_index ++ (if l.spent then 1 else 0) ∷ [])
      ≡ (if l.spent then 1 else 0) ∷ []
flag_part l = drop-append_exact (le_bytes 8 l.leaf_index) _ 8 (length-le_bytes 8 l.leaf_index)

flag-inj :
    (a b : Bool) → ◌≡◌ {A = Bytes} ((if a then 1 else 0) ∷ []) ((if b then 1 else 0) ∷ []) → a ≡ b
flag-inj true true e = refl
flag-inj true false e = ground (arith, e)
flag-inj false true e = ground (arith, e)
flag-inj false false e = refl

-- Leaves with equal hashes agree on their index and on whether they are spent.
pub leaf_hash-inj :
    (hash_bytes : Bytes → ℕ) (l k : ElementLeaf)
    → InjectiveBytes hash_bytes
    → l.leaf_index < 2 ^ 64
    → k.leaf_index < 2 ^ 64
    → leaf_hash hash_bytes l ≡ leaf_hash hash_bytes k
    → (l.leaf_index ≡ k.leaf_index) × (l.spent ≡ k.spent)
unfolding leaf_hash
leaf_hash-inj hash_bytes l k inj hl hk e =
    let bytes = inj _ _ e in
    let tails = sym (past_element l) ∙ ap (drop 33) bytes ∙ past_element k in
    let index = sym (index_part l) ∙ ap (take 8) tails ∙ index_part k in
    let flag = sym (flag_part l) ∙ ap (drop 8) tails ∙ flag_part k in
    (
      sym (le_value-le_bytes 8 l.leaf_index (omega arith))
          ∙ ap le_value index
          ∙ le_value-le_bytes 8 k.leaf_index (omega arith),
      flag-inj l.spent k.spent flag,
    )

-- The hash at a place is that of a leaf with this index.
abbrev pub IsIndexed : (Bytes → ℕ) → List ℕ → Type 0
IsIndexed hash_bytes xs =
    (i : ℕ) (l : ElementLeaf)
    → l.leaf_index < 2 ^ 64
    → get_elem? xs i ≡ some (leaf_hash hash_bytes l)
    → l.leaf_index ≡ i

pub singleton-IsIndexed :
    (hash_bytes : Bytes → ℕ) (l : ElementLeaf)
    → InjectiveBytes hash_bytes
    → l.leaf_index ≡ 0
    → IsIndexed hash_bytes (leaf_hash hash_bytes l ∷ [])
singleton-IsIndexed hash_bytes l inj first zero k bound e =
    (leaf_hash-inj hash_bytes k l inj bound (omega (arith, first)) (sym (some-inj e))).0 ∙ first
singleton-IsIndexed hash_bytes l inj first (suc i) k bound e = cc

module _ (sum_pair : ℕ → ℕ → ℕ) (hash_bytes : Bytes → ℕ) (h : ElementHashes) where
  -- Where the forest holds a spent element at the index of e, the accumulator does not contain e as
  -- unspent, if equal hashes have equal inputs and every leaf stands at its index.
  pub spent_not_unspent :
      (acc : Accumulator) (xs : List ℕ) (e f : SiacoinElement)
      → Injective sum_pair
      → InjectiveBytes hash_bytes
      → IsForest sum_pair acc xs
      → IsIndexed hash_bytes xs
      → e.state_element.leaf_index < 2 ^ 64
      → f.state_element.leaf_index < 2 ^ 64
      → get_elem? xs e.state_element.leaf_index
        ≡ some (leaf_hash hash_bytes (siacoin_leaf h f true))
      → contains_unspent_siacoin_element sum_pair hash_bytes h acc e ≡ false
  unfolding contains_unspent_siacoin_element siacoin_leaf
  spent_not_unspent acc xs e f inj injb forest indexed he hf there =
      elim (Bool-cases (contains_leaf sum_pair hash_bytes acc (siacoin_leaf h e false))) [
        | inr no' ↦ no'
        | inl found ↦
            let (i, here) =
              contains_leaf_sound sum_pair hash_bytes acc xs (siacoin_leaf h e false) inj forest
                found in
            let at = indexed i (siacoin_leaf h e false) he here in
            let same = some-inj (
              sym here
              ∙ subst (λ k. get_elem? xs k ≡ some (leaf_hash hash_bytes (siacoin_leaf h f true))) at
                  there) in
            let (_, flag) =
              leaf_hash-inj hash_bytes (siacoin_leaf h e false) (siacoin_leaf h f true) injb he hf
                same in
            cc flag
      ]
