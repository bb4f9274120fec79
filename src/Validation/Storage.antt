-- ===== src/Validation/Storage.antt =====
-- core/consensus/state.go and core/consensus/merkle.go: storage proofs.
use native.Mathlib.Nat.{mul-add-mod_self_left, mod-lt, zero-mod, div-add-mod}
use qday.Base.{
  ◌!=◌, Bool-cases, inl, inr, ℕ, ◌+◌, ◌-◌, ◌*◌, ◌/◌, ◌%◌, ◌^◌, ◌<◌, ◌≡◌, refl, ◌∙◌, ap, sym, subst,
  Option, some, List, [], ◌∷◌, ltb, ◌==◌, if◌then◌else◌, length, take, drop, arith,
}
use qday.Base.Options.{◌>>=◌}
use qday.Base.Words.{u64_mod, div64, len64}
use qday.Accumulator.{proof_root}
use Prim.Native.Nat.{bit_xor}

abbrev pub leaf_size : ℕ
leaf_size = 64

-- The words of a hash, the first 8 bytes first.
abbrev pub seed_words : ℕ → List ℕ
seed_words seed =
    (seed / u64_mod ^ 3 % u64_mod)
    ∷ (seed / u64_mod ^ 2 % u64_mod)
    ∷ (seed / u64_mod % u64_mod)
    ∷ (seed % u64_mod)
    ∷ []

unfoldable pub reduce_words : ℕ → ℕ → List ℕ → Option ℕ
reduce_words num_leaves r [] = some r
reduce_words num_leaves r (w ∷ ws) = div64 r w num_leaves >>= λ q. reduce_words num_leaves q.1 ws

unfoldable pub count_leaves : ℕ → ℕ
count_leaves filesize =
    if filesize % leaf_size != 0 then filesize / leaf_size + 1 else filesize / leaf_size

-- `seed` is the hash of the window and the contract; a division panics if it cannot be done.
unfoldable pub storage_proof_leaf_index : ℕ → ℕ → Option ℕ
unfolding reduce_words count_leaves
storage_proof_leaf_index seed filesize =
    if count_leaves filesize == 0
    then some 0
    else reduce_words (count_leaves filesize) 0 (seed_words seed)

unfoldable pub fold_right_siblings : (ℕ → ℕ → ℕ) → ℕ → List ℕ → ℕ
fold_right_siblings sum_pair root [] = root
fold_right_siblings sum_pair root (h ∷ hs) = fold_right_siblings sum_pair (sum_pair h root) hs

-- The index of the last leaf wraps for an empty file.
unfoldable pub last_leaf_index : ℕ → ℕ
last_leaf_index filesize =
    if filesize % leaf_size == 0
    then (filesize / leaf_size + u64_mod - 1) % u64_mod
    else filesize / leaf_size

unfoldable pub storage_proof_root : (ℕ → ℕ → ℕ) → ℕ → ℕ → ℕ → List ℕ → ℕ
unfolding last_leaf_index fold_right_siblings proof_root len64
storage_proof_root sum_pair leaf_hash leaf_index filesize proof =
    let subtree_height = len64 (bit_xor leaf_index (last_leaf_index filesize)) in
    if ltb (length proof) subtree_height
    then 0
    else fold_right_siblings sum_pair
        (proof_root sum_pair leaf_hash leaf_index (take subtree_height proof))
        (drop subtree_height proof)

div64_mod :
    (hi lo y : ℕ) → hi < y → div64 hi lo y ≡ some ((hi * u64_mod + lo) / y, (hi * u64_mod + lo) % y)
div64_mod hi lo y h = ground arith

-- The value of words, after a rest.
abbrev words_value : ℕ → List ℕ → ℕ
words_value r [] = r
words_value r (w ∷ ws) = words_value (r * u64_mod + w) ws

reduce_words_mod :
    (n r : ℕ) (ws : List ℕ) → 0 < n → reduce_words n (r % n) ws ≡ some (words_value r ws % n)
unfolding reduce_words
reduce_words_mod n r [] pos = refl
reduce_words_mod n r (w ∷ ws) pos =
    let split : n * (r / n * u64_mod) + (r % n * u64_mod + w) ≡ r * u64_mod + w =
      omega (arith, ap (λ (k : ℕ). k * u64_mod) (div-add-mod r n)) in
    let same : (r % n * u64_mod + w) % n ≡ (r * u64_mod + w) % n =
      sym (mul-add-mod_self_left n (r / n * u64_mod) (r % n * u64_mod + w))
      ∙ ap (λ k. k % n) split in
    rw (div64_mod (r % n) w n (mod-lt r pos))
      (ap (λ k. reduce_words n k ws) same ∙ reduce_words_mod n (r * u64_mod + w) ws pos)

count_leaves_up : (filesize : ℕ) → count_leaves filesize ≡ (filesize + 63) / 64
unfolding count_leaves
count_leaves_up filesize = ground arith

-- The leaf that a storage proof must show is the hash of 256 bits modulo the number of leaves of 64 bytes
-- that the file has, the last of which may be shorter, and 0 for an empty file; no division panics.
pub storage_proof_leaf_index_mod :
    (seed filesize : ℕ)
    → seed < 2 ^ 256
    → storage_proof_leaf_index seed filesize
      ≡ some (if (filesize + 63) / 64 == 0 then 0 else seed % ((filesize + 63) / 64))
unfolding storage_proof_leaf_index
storage_proof_leaf_index_mod seed filesize h =
    let n = count_leaves filesize in
    subst (λ k. storage_proof_leaf_index seed filesize ≡ some (if k == 0 then 0 else seed % k))
      (count_leaves_up filesize)
      (elim (Bool-cases (n == 0)) [
        | inl empty ↦ rw empty refl
        | inr some_leaves ↦
            let pos : 0 < n = ground (arith, some_leaves) in
            let whole : words_value 0 (seed_words seed) ≡ seed = omega (arith, h) in
            rw some_leaves (
              ap (λ r. reduce_words n r (seed_words seed)) (sym (zero-mod n))
              ∙ reduce_words_mod n 0 (seed_words seed) pos
              ∙ ap (λ k. some (k % n)) whole)
      ])
