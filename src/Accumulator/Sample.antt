-- ===== src/Accumulator/Sample.antt =====
-- core/consensus/merkle.go: hashes of which equal values have equal inputs, and a forest of one leaf.
use native.Mathlib.Nat.{mul-le-mul}
use qday.Base.{
  ltb→lt, ◌≢◌, ℕ, zero, suc, ◌+◌, ◌*◌, ◌≤◌, ◌<◌, ◌≡◌, refl, ap, sym, List, [], ◌∷◌, arith, ltb,
  Bool-cases, inl, inr,
}
use qday.Base.Bytes.{Bytes}
use qday.Accumulator.{Accumulator}
use qday.Accumulator.Elements.{ElementHashes}
use qday.Accumulator.Levels.{pairs}
use qday.Accumulator.Roots.{Roots}
use qday.Accumulator.Members.{Injective, IsForest}
use qday.Accumulator.Spent.{InjectiveBytes}

unfoldable pub square_pair : ℕ → ℕ → ℕ
square_pair a b = (a + b) * (a + b) + a

unfoldable pub pack : Bytes → ℕ
unfolding square_pair
pack [] = 0
pack (b ∷ bs) = suc (square_pair b (pack bs))

apart : (s t a c : ℕ) → s < t → a ≤ s → s * s + a ≢ t * t + c
apart s t a c less small e =
    let big : suc s * suc s ≤ t * t = mul-le-mul less less in omega (arith, big, e, small)

pub square_pair-Injective : Injective square_pair
unfolding square_pair
square_pair-Injective a b c d e = elim (Bool-cases (ltb (a + b) (c + d))) [
  | inl less ↦ absurd (apart (a + b) (c + d) a c (ltb→lt _ _ less) (omega arith) e)
  | inr no' ↦ elim (Bool-cases (ltb (c + d) (a + b))) [
    | inl less ↦ absurd (apart (c + d) (a + b) c a (ltb→lt _ _ less) (omega arith) (sym e))
    | inr no'' ↦
        let same : a + b ≡ c + d = ground (arith, no', no'') in
        let squares : (a + b) * (a + b) ≡ (c + d) * (c + d) = ap (λ (k : ℕ). k * k) same in
        (omega (arith, squares, e), omega (arith, squares, e, same))
  ]
]

pub pack-Injective : InjectiveBytes pack
unfolding pack
pack-Injective [] [] e = refl
pack-Injective [] (b ∷ bs) e = absurd (omega (arith, e))
pack-Injective (a ∷ as') [] e = absurd (omega (arith, e))
pack-Injective (a ∷ as') (b ∷ bs) e =
    let (x, y) = square_pair-Injective a (pack as') b (pack bs) (omega (arith, e)) in
    cc (x, pack-Injective as' bs y)

abbrev pub sample_hashes : ElementHashes
sample_hashes = record {
  siacoin = λ e. e.id;
  siafund = λ e. e.id;
  v2_file_contract = λ id fc. id;
  chain_index = λ e. e.id;
  attestation = λ e. e.id;
}

abbrev pub zeros : ℕ → List ℕ
zeros zero = []
zeros (suc n) = 0 ∷ zeros n

-- The accumulator of one leaf with the hash x.
abbrev pub one_leaf : ℕ → Accumulator
one_leaf x = record { trees = x ∷ zeros 63; num_leaves = 1 }

Roots-empty : (ts : List ℕ) → Roots square_pair ts []
unfolding Roots pairs
Roots-empty [] = tt
Roots-empty (t ∷ ts) = ((λ e. absurd (omega (arith, e))), Roots-empty ts)

pub one_leaf-IsForest : (x : ℕ) → IsForest square_pair (one_leaf x) (x ∷ [])
unfolding Roots pairs
one_leaf-IsForest x = record {
  count = refl;
  bound = omega arith;
  heights = refl;
  roots = ((λ e. refl), Roots-empty (zeros 63));
}

pub no_leaf-IsForest : IsForest square_pair (record { trees = zeros 64; num_leaves = 0 }) []
no_leaf-IsForest = record {
  count = refl;
  bound = omega arith;
  heights = refl;
  roots = Roots-empty (zeros 64);
}
