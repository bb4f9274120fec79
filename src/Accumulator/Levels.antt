-- ===== src/Accumulator/Levels.antt =====
-- core/consensus/merkle.go: the forest over the list of all leaves, level by level, which the
-- accumulator stands for.
use qday.Base.Options.{some-inj}
use qday.Base.{
  subst, ℕ, zero, suc, ◌-◌, ◌/◌, ◌%◌, ◌≡◌, refl, ap, List, [], ◌∷◌, ◌++◌, some, length, get_elem?,
  arith,
}

module _ (sum_pair : ℕ → ℕ → ℕ) where
  -- The nodes above a level; an odd node at the end has none.
  unfoldable pub pairs : List ℕ → List ℕ
  pairs [] = []
  pairs (a ∷ []) = []
  pairs (a ∷ b ∷ xs) = sum_pair a b ∷ pairs xs

  pub length-pairs : (xs : List ℕ) → length (pairs xs) ≡ length xs / 2
  unfolding pairs
  length-pairs [] = omega arith
  length-pairs (a ∷ []) = omega arith
  length-pairs (a ∷ b ∷ xs) = omega (arith, length-pairs xs)

  pub pairs-even : (xs : List ℕ) (x : ℕ) → length xs % 2 ≡ 0 → pairs (xs ++ x ∷ []) ≡ pairs xs
  unfolding pairs
  pairs-even [] x e = refl
  pairs-even (a ∷ []) x e = absurd (omega arith)
  pairs-even (a ∷ b ∷ xs) x e = ap (λ t. sum_pair a b ∷ t) (pairs-even xs x (omega arith))

  pub pairs-odd :
      (xs : List ℕ) (t x : ℕ)
      → length xs % 2 ≡ 1
      → get_elem? xs (length xs - 1) ≡ some t
      → pairs (xs ++ x ∷ []) ≡ pairs xs ++ sum_pair t x ∷ []
  unfolding pairs
  pairs-odd [] t x e l = absurd (omega arith)
  pairs-odd (a ∷ []) t x e l = ap (λ v. sum_pair v x ∷ []) (some-inj l)
  pairs-odd (a ∷ b ∷ []) t x e l = absurd (omega arith)
  pairs-odd (a ∷ b ∷ c ∷ xs) t x e l =
      let here : suc (suc (suc (length xs))) - 1 ≡ suc (suc (length xs)) = omega arith in
      let there : length xs ≡ suc (length xs) - 1 = omega arith in
      let deep = subst (λ i. get_elem? (a ∷ b ∷ c ∷ xs) i ≡ some t) here l in
      ap (λ u. sum_pair a b ∷ u)
        (pairs-odd (c ∷ xs) t x (omega arith)
          (subst (λ i. get_elem? (c ∷ xs) i ≡ some t) there deep))

  -- A node has its parent above it.
  pub get-pairs :
      (xs : List ℕ) (i a b : ℕ)
      → i % 2 ≡ 0
      → get_elem? xs i ≡ some a
      → get_elem? xs (suc i) ≡ some b
      → get_elem? (pairs xs) (i / 2) ≡ some (sum_pair a b)
  unfolding pairs
  get-pairs [] i a b e p q = cc
  get-pairs (y ∷ []) zero a b e p q = cc
  get-pairs (y ∷ []) (suc i) a b e p q = cc
  get-pairs (y ∷ z ∷ ys) zero a b e p q = cc
  get-pairs (y ∷ z ∷ ys) (suc zero) a b e p q = absurd (omega arith)
  get-pairs (y ∷ z ∷ ys) (suc (suc i)) a b e p q =
      let half : suc (i / 2) ≡ suc (suc i) / 2 = omega arith in
      subst (λ k. get_elem? (pairs (y ∷ z ∷ ys)) k ≡ some (sum_pair a b)) half
        (get-pairs ys i a b (omega arith) p q)

pub get_elem?-append :
    (xs : List ℕ) (i a x : ℕ) → get_elem? xs i ≡ some a → get_elem? (xs ++ x ∷ []) i ≡ some a
get_elem?-append [] i a x e = cc
get_elem?-append (y ∷ ys) zero a x e = e
get_elem?-append (y ∷ ys) (suc i) a x e = get_elem?-append ys i a x e

pub get_elem?-last : (xs : List ℕ) (x : ℕ) → get_elem? (xs ++ x ∷ []) (length xs) ≡ some x
get_elem?-last [] x = refl
get_elem?-last (y ∷ ys) x = get_elem?-last ys x
