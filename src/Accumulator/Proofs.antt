-- ===== src/Accumulator/Proofs.antt =====
-- core/consensus/merkle.go: what the loop over the heights does to the roots and to one proof, level
-- by level.
use native.Mathlib.Nat.{pow-succ'}
use qday.Base.{
  ℕ, suc, ◌-◌, ◌/◌, ◌%◌, ◌^◌, ◌≤◌, ◌<◌, ◌≡◌, refl, ap, ◌∙◌, sym, subst, ◌⊎◌, inl, inr, true, false,
  List, [], ◌∷◌, ◌++◌, some, length, length-append, get_elem?, arith, ◌==◌, if◌then◌else◌,
  Bool-cases,
}
use qday.Accumulator.Levels.{
  pairs, length-pairs, pairs-even, pairs-odd, get_elem?-append, get_elem?-last,
}
use qday.Accumulator.Roots.{sibling, Sides, Roots, Ends}

sibling_odd : (b : ℕ) → b % 2 ≡ 1 → b - 1 ≡ sibling b
sibling_odd b odd = ground arith

sibling_even : (b : ℕ) → b % 2 ≡ 0 → suc b ≡ sibling b
sibling_even b even = ground arith

last_node : (xs : List ℕ) → 1 ≤ length xs → (t : ℕ) × (get_elem? xs (length xs - 1) ≡ some t)
last_node [] h = absurd (omega arith)
last_node (x ∷ []) h = (x, refl)
last_node (x ∷ y ∷ ys) h =
    let (t, e) = last_node (y ∷ ys) (omega arith) in
    let here : suc (suc (length ys) - 1) ≡ suc (suc (length ys)) - 1 = omega arith in
    (t, subst (λ i. get_elem? (x ∷ y ∷ ys) i ≡ some t) here e)

last-append : (xs : List ℕ) (h : ℕ) → get_elem? (xs ++ h ∷ []) (length (xs ++ h ∷ []) - 1) ≡ some h
last-append xs h =
    subst (λ i. get_elem? (xs ++ h ∷ []) i ≡ some h) (omega (arith, length-append xs (h ∷ [])))
      (get_elem?-last xs h)

module _ (sum_pair : ℕ → ℕ → ℕ) where
  pub Sides-append :
      (p xs : List ℕ) (b x : ℕ) → Sides sum_pair p xs b → Sides sum_pair p (xs ++ x ∷ []) b
  unfolding Sides
  Sides-append [] xs b x s = tt
  Sides-append (h ∷ p) xs b x (side, s) =
      let kept = get_elem?-append xs (sibling b) h x side in
      elim (Bool-cases (length xs % 2 == 1)) [
        | inl odd ↦
            let (t, last) = last_node xs (ground arith) in
            let up = Sides-append p (pairs sum_pair xs) (b / 2) (sum_pair t x) s in
            (
              kept,
              subst (λ ys. Sides sum_pair p ys (b / 2))
                  (sym (pairs-odd sum_pair xs t x (ground arith) last)) up,
            )
        | inr even ↦ (
          kept,
          subst (λ ys. Sides sum_pair p ys (b / 2)) (sym (pairs-even sum_pair xs x (ground arith)))
              s,
        )
      ]

  -- The roots with a new node, the list being the nodes of the level that the roots start at.
  unfoldable pub insert_root : List ℕ → ℕ → List ℕ → List ℕ
  insert_root [] h xs = []
  insert_root (t ∷ ts) h xs =
      if length xs % 2 == 1 then t ∷ insert_root ts (sum_pair t h) (pairs sum_pair xs) else h ∷ ts

  pub insert_root-Roots :
      (ts xs : List ℕ) (h : ℕ)
      → Roots sum_pair ts xs
      → Roots sum_pair (insert_root ts h xs) (xs ++ h ∷ [])
  unfolding Roots insert_root
  insert_root-Roots [] xs h r = tt
  insert_root-Roots (t ∷ ts) xs h (last, r) = elim (Bool-cases (length xs % 2 == 1)) [
    | inl odd ↦ rw odd (
      (λ e. absurd (ground (arith, length-append xs (h ∷ []), e, odd))),
      subst (Roots sum_pair (insert_root ts (sum_pair t h) (pairs sum_pair xs)))
          (sym (pairs-odd sum_pair xs t h (ground arith) (last (ground arith))))
          (insert_root-Roots ts (pairs sum_pair xs) (sum_pair t h) r),
    )
    | inr even ↦ rw even (
      (λ e. last-append xs h),
      subst (Roots sum_pair ts) (sym (pairs-even sum_pair xs h (ground arith))) r,
    )
  ]

-- The proof of the node b of a level with q nodes, the roots of the last two being t and h.
unfoldable pub touch : ℕ → ℕ → ℕ → ℕ → List ℕ → List ℕ
touch b q t h p = if b == q then p ++ t ∷ [] else if suc b == q then p ++ h ∷ [] else p

touch-cons : (b q t h s : ℕ) (p : List ℕ) → touch b q t h (s ∷ p) ≡ s ∷ touch b q t h p
unfolding touch
touch-cons b q t h s p = ground arith

-- What becomes of the proof of the node b of a level with q nodes.
unfoldable pub extend : ℕ → ℕ → (ℕ → ℕ → ℕ) → List ℕ → ℕ → List ℕ → List ℕ
unfolding touch
extend b q sum_pair [] h p = p
extend b q sum_pair (t ∷ ts) h p =
    let more = extend (b / 2) (q / 2) sum_pair ts (sum_pair t h) (touch b q t h p) in
    if q % 2 == 1 then more else p

pub extend-odd :
    (f : ℕ → ℕ → ℕ) (b q t : ℕ) (ts : List ℕ) (h : ℕ) (p : List ℕ)
    → q % 2 ≡ 1
    → extend b q f (t ∷ ts) h p ≡ extend (b / 2) (q / 2) f ts (f t h) (touch b q t h p)
unfolding extend
extend-odd f b q t ts h p odd = let test : (q % 2 == 1) ≡ true = ground (arith, odd) in rw test refl

pub extend-even :
    (f : ℕ → ℕ → ℕ) (b q t : ℕ) (ts : List ℕ) (h : ℕ) (p : List ℕ)
    → q % 2 ≡ 0
    → extend b q f (t ∷ ts) h p ≡ p
unfolding extend
extend-even f b q t ts h p even =
    let test : (q % 2 == 1) ≡ false = ground (arith, even) in rw test refl

extend-cons :
    (f : ℕ → ℕ → ℕ) (ts : List ℕ) (b q h s : ℕ) (p : List ℕ)
    → extend b q f ts h (s ∷ p) ≡ s ∷ extend b q f ts h p
unfolding extend
extend-cons f [] b q h s p = refl
extend-cons f (t ∷ ts) b q h s p = elim (Bool-cases (q % 2 == 1)) [
  | inl odd ↦ rw odd (
      ap (extend (b / 2) (q / 2) f ts (f t h)) (touch-cons b q t h s p)
      ∙ extend-cons f ts (b / 2) (q / 2) (f t h) s (touch b q t h p))
  | inr even ↦ rw even refl
]

-- A proof while a node is inserted: it is the new one, or its proof ends at a root.
abbrev pub At : List ℕ → ℕ → ℕ → Type 0
At p b n = ((b ≡ n) × (p ≡ [])) ⊎ Ends p b n

Ends-lt : (p : List ℕ) (b n : ℕ) → Ends p b n → b < n
unfolding Ends
Ends-lt [] b n (one, odd) = omega arith
Ends-lt (s ∷ p) b n e = omega (arith, Ends-lt p (b / 2) (n / 2) e)

Ends-even : (p : List ℕ) (b n : ℕ) → n % 2 ≡ 0 → Ends p b n → Ends p b (suc n)
unfolding Ends
Ends-even [] b n even (one, odd) = absurd (omega (arith, odd, even))
Ends-even (s ∷ p) b n even e = subst (Ends p (b / 2)) (omega (arith, even)) e

module _ (sum_pair : ℕ → ℕ → ℕ) where
  -- The claim: a proof after the insertion of h is right in the larger forest.
  abbrev Right : List ℕ → List ℕ → ℕ → ℕ → List ℕ → Type 0
  Right ts xs h b p =
      Sides sum_pair (extend b (length xs) sum_pair ts h p) (xs ++ h ∷ []) b
      × Ends (extend b (length xs) sum_pair ts h p) b (suc (length xs))

  -- One level up from a level with an odd number of nodes.
  module _ (t : ℕ) (ts xs : List ℕ) (h b s : ℕ) (p p' : List ℕ) where
    grown :
        length xs % 2 ≡ 1
        → touch b (length xs) t h p ≡ s ∷ p'
        → extend b (length xs) sum_pair (t ∷ ts) h p
          ≡ s ∷ extend (b / 2) (length (pairs sum_pair xs)) sum_pair ts (sum_pair t h) p'
    unfolding extend
    grown odd touched =
        let test : (length xs % 2 == 1) ≡ true = ground (arith, odd) in
        let rest = extend (b / 2) (length xs / 2) sum_pair ts (sum_pair t h) in
        rw test (
          ap rest touched
          ∙ extend-cons sum_pair ts (b / 2) (length xs / 2) (sum_pair t h) s p'
          ∙ ap (λ q. s ∷ extend (b / 2) q sum_pair ts (sum_pair t h) p')
              (sym (length-pairs sum_pair xs)))

    rise :
        length xs % 2 ≡ 1
        → get_elem? xs (length xs - 1) ≡ some t
        → touch b (length xs) t h p ≡ s ∷ p'
        → get_elem? (xs ++ h ∷ []) (sibling b) ≡ some s
        → Right ts (pairs sum_pair xs) (sum_pair t h) (b / 2) p'
        → Right (t ∷ ts) xs h b p
    unfolding Sides Ends
    rise odd last touched side (sides, ends) =
        let p'' = extend (b / 2) (length (pairs sum_pair xs)) sum_pair ts (sum_pair t h) p' in
        let whole = sym (grown odd touched) in
        let above = sym (pairs-odd sum_pair xs t h odd last) in
        let count : suc (length (pairs sum_pair xs)) ≡ suc (length xs) / 2 =
          omega (arith, odd, length-pairs sum_pair xs) in
        (
          subst (λ r. Sides sum_pair r (xs ++ h ∷ []) b) whole
              (side, subst (λ ys. Sides sum_pair p'' ys (b / 2)) above sides),
          subst (λ r. Ends r b (suc (length xs))) whole (subst (Ends p'' (b / 2)) count ends),
        )

  -- A proof at a level with an odd number of nodes, by what it is.
  At-odd :
      (t : ℕ) (ts xs p : List ℕ) (h b : ℕ)
      → ((p' : List ℕ)
          → At p' (b / 2) (length (pairs sum_pair xs))
          → Sides sum_pair p' (pairs sum_pair xs) (b / 2)
          → Right ts (pairs sum_pair xs) (sum_pair t h) (b / 2) p')
      → length xs % 2 ≡ 1
      → get_elem? xs (length xs - 1) ≡ some t
      → At p b (length xs)
      → Sides sum_pair p xs b
      → Right (t ∷ ts) xs h b p
  unfolding Sides Ends touch
  At-odd t ts xs p h b ih odd last (inl (new, empty)) s =
      let same : b / 2 ≡ length (pairs sum_pair xs) =
        omega (arith, new, length-pairs sum_pair xs) in
      let side : get_elem? (xs ++ h ∷ []) (sibling b) ≡ some t =
        subst (λ i. get_elem? (xs ++ h ∷ []) i ≡ some t)
          (ap (λ k. k - 1) (sym new) ∙ sibling_odd b (omega (arith, new, odd)))
          (get_elem?-append xs (length xs - 1) t h last) in
      rise t ts xs h b t p [] odd last (ground (arith, empty, new)) side
        (ih [] (inl (same, refl)) tt)
  At-odd t ts xs [] h b ih odd last (inr (one, odd')) s =
      let same : b / 2 ≡ length (pairs sum_pair xs) =
        omega (arith, one, odd, length-pairs sum_pair xs) in
      let side : get_elem? (xs ++ h ∷ []) (sibling b) ≡ some h =
        subst (λ i. get_elem? (xs ++ h ∷ []) i ≡ some h)
          (sym one ∙ sibling_even b (omega (arith, one, odd))) (get_elem?-last xs h) in
      rise t ts xs h b h [] [] odd last (ground (arith, one)) side (ih [] (inl (same, refl)) tt)
  At-odd t ts xs (s ∷ p) h b ih odd last (inr e) (side, sides) =
      let below = Ends-lt p (b / 2) (length xs / 2) e in
      rise t ts xs h b s (s ∷ p) p odd last (ground (arith, odd, below))
        (get_elem?-append xs (sibling b) s h side)
        (ih p (inr (subst (Ends p (b / 2)) (sym (length-pairs sum_pair xs)) e)) sides)

  At-even :
      (xs p : List ℕ) (h b : ℕ)
      → length xs % 2 ≡ 0
      → At p b (length xs)
      → Sides sum_pair p xs b
      → Sides sum_pair p (xs ++ h ∷ []) b × Ends p b (suc (length xs))
  unfolding Ends
  At-even xs p h b even (inr e) s =
      (Sides-append sum_pair p xs b h s, Ends-even p b (length xs) even e)
  At-even xs p h b even (inl (new, empty)) s = (
    Sides-append sum_pair p xs b h s,
    subst (λ r. Ends r b (suc (length xs))) (sym empty) (omega (arith, new), omega (arith, even)),
  )

  pub extend_lem :
      (ts xs p : List ℕ) (h b : ℕ)
      → Roots sum_pair ts xs
      → suc (length xs) < 2 ^ length ts
      → At p b (length xs)
      → Sides sum_pair p xs b
      → Sides sum_pair (extend b (length xs) sum_pair ts h p) (xs ++ h ∷ []) b
        × Ends (extend b (length xs) sum_pair ts h p) b (suc (length xs))
  unfolding extend Roots
  extend_lem [] xs p h b r fits at s = absurd (omega arith)
  extend_lem (t ∷ ts) xs p h b (last, r) fits at s = elim (Bool-cases (length xs % 2 == 1)) [
    | inl odd ↦
        At-odd t ts xs p h b
          (λ p' at' s'.
            extend_lem ts (pairs sum_pair xs) p' (sum_pair t h) (b / 2) r
              (ground (arith, fits, odd, length-pairs sum_pair xs, pow-succ' 2 (length ts))) at' s')
          (ground (arith, odd)) (last (ground (arith, odd))) at s
    | inr even ↦ rw even (At-even xs p h b (ground (arith, even)) at s)
  ]
