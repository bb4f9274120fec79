-- ===== src/Base/Bytes.antt =====
-- Byte slices as lists of numbers, and package encoding/binary.
use Prim.Native.Nat.{ℕ, zero, suc, ◌+◌, ◌*◌, ◌/◌, ◌%◌, ◌^◌, ◌<◌}
use mathlib.Core.Path.{◌≡◌, refl, ap, sym, ◌∙◌}
use mathlib.Core.Bool.{Bool, true, false, ◌&&◌}
use mathlib.Core.List.{List, [], ◌∷◌, ◌++◌, append_assoc, append-nil}
use native.Mathlib.Omega.{arith}
use native.Mathlib.Nat.{pow-suc}
use qday.Base.Tests.{◌==◌}
use qday.Base.Lists.{length, length-append, All}

abbrev pub Bytes : Type 0
Bytes = List ℕ

abbrev pub IsByte : ℕ → Type 0
IsByte b = b < 256

-- bytes.Equal
abbrev pub bytes_eq : Bytes → Bytes → Bool
bytes_eq [] [] = true
bytes_eq [] (y ∷ ys) = false
bytes_eq (x ∷ xs) [] = false
bytes_eq (x ∷ xs) (y ∷ ys) = (x == y) && bytes_eq xs ys

-- `k` bytes of a number, lowest first: binary.LittleEndian.PutUint64 for k = 8.
unfoldable pub le_bytes : ℕ → ℕ → Bytes
le_bytes zero x = []
le_bytes (suc k) x = (x % 256) ∷ le_bytes k (x / 256)

unfoldable pub le_value : Bytes → ℕ
le_value [] = 0
le_value (b ∷ bs) = b + 256 * le_value bs

-- A fixed array of `k` bytes held as one number, its first byte the highest.
unfoldable pub be_bytes : ℕ → ℕ → Bytes
be_bytes zero x = []
be_bytes (suc k) x = be_bytes k (x / 256) ++ ((x % 256) ∷ [])

unfoldable pub be_value_from : ℕ → Bytes → ℕ
be_value_from acc [] = acc
be_value_from acc (b ∷ bs) = be_value_from (256 * acc + b) bs

unfoldable pub be_value : Bytes → ℕ
unfolding be_value_from
be_value bs = be_value_from 0 bs

pub length-le_bytes : (k x : ℕ) → length (le_bytes k x) ≡ k
unfolding le_bytes
length-le_bytes zero x = refl
length-le_bytes (suc k) x = omega (arith, length-le_bytes k (x / 256))

pub length-be_bytes : (k x : ℕ) → length (be_bytes k x) ≡ k
unfolding be_bytes
length-be_bytes zero x = refl
length-be_bytes (suc k) x =
    omega
      (arith, length-be_bytes k (x / 256), length-append (be_bytes k (x / 256)) ((x % 256) ∷ []))

pub le_value-le_bytes : (k x : ℕ) → x < 256 ^ k → le_value (le_bytes k x) ≡ x
unfolding le_bytes le_value
le_value-le_bytes zero x h = omega arith
le_value-le_bytes (suc k) x h =
    omega (arith, le_value-le_bytes k (x / 256) (omega (arith, pow-suc 256 k)))

be_value_from-append :
    (acc : ℕ) (xs : Bytes) (b : ℕ)
    → be_value_from acc (xs ++ (b ∷ [])) ≡ 256 * be_value_from acc xs + b
unfolding be_value_from
be_value_from-append acc [] b = refl
be_value_from-append acc (x ∷ xs) b = be_value_from-append (256 * acc + x) xs b

pub be_value-be_bytes : (k x : ℕ) → x < 256 ^ k → be_value (be_bytes k x) ≡ x
unfolding be_bytes be_value be_value_from
be_value-be_bytes zero x h = omega arith
be_value-be_bytes (suc k) x h = omega (
  arith,
  be_value_from-append 0 (be_bytes k (x / 256)) (x % 256),
  be_value-be_bytes k (x / 256) (omega (arith, pow-suc 256 k)),
)

pub le_bytes-le_value :
    (k : ℕ) (bs : Bytes) → length bs ≡ k → All IsByte bs → le_bytes k (le_value bs) ≡ bs
unfolding le_bytes le_value
le_bytes-le_value zero [] e h = refl
le_bytes-le_value zero (b ∷ bs) e h = absurd (omega arith)
le_bytes-le_value (suc k) [] e h = absurd (omega arith)
le_bytes-le_value (suc k) (b ∷ bs) e h =
    let low : (b + 256 * le_value bs) % 256 ≡ b = omega (arith, h.0) in
    let high : (b + 256 * le_value bs) / 256 ≡ le_value bs = omega (arith, h.0) in
    cc (low, high, le_bytes-le_value k bs (omega arith) h.1)

le_value-lt : (k : ℕ) (bs : Bytes) → length bs ≡ k → All IsByte bs → le_value bs < 256 ^ k
unfolding le_value
le_value-lt zero [] e h = omega arith
le_value-lt zero (b ∷ bs) e h = absurd (omega arith)
le_value-lt (suc k) [] e h = absurd (omega arith)
le_value-lt (suc k) (b ∷ bs) e h =
    omega (arith, h.0, pow-suc 256 k, le_value-lt k bs (omega arith) h.1)

-- The bytes of a number in front of those of the accumulator.
be_bytes-be_value_from :
    (k n acc : ℕ) (bs : Bytes)
    → length bs ≡ n
    → All IsByte bs
    → be_bytes (n + k) (be_value_from acc bs) ≡ be_bytes k acc ++ bs
unfolding be_value_from be_bytes
be_bytes-be_value_from k zero acc [] e h =
    let shift : 0 + k ≡ k = omega arith in
    ap (λ n. be_bytes n acc) shift ∙ sym (append-nil (be_bytes k acc))
be_bytes-be_value_from k (suc n) acc [] e h = absurd (omega arith)
be_bytes-be_value_from k zero acc (b ∷ bs) e h = absurd (omega arith)
be_bytes-be_value_from k (suc n) acc (b ∷ bs) e h =
    let low : (256 * acc + b) % 256 ≡ b = omega (arith, h.0) in
    let high : (256 * acc + b) / 256 ≡ acc = omega (arith, h.0) in
    let shift : suc n + k ≡ n + suc k = omega arith in
    ap (λ m. be_bytes m (be_value_from (256 * acc + b) bs)) shift
    ∙ be_bytes-be_value_from (suc k) n (256 * acc + b) bs (omega arith) h.1
    ∙ append_assoc (be_bytes k ((256 * acc + b) / 256)) (((256 * acc + b) % 256) ∷ []) bs
    ∙ cc (low, high)

pub be_bytes-be_value :
    (k : ℕ) (bs : Bytes) → length bs ≡ k → All IsByte bs → be_bytes k (be_value bs) ≡ bs
unfolding be_value be_bytes
be_bytes-be_value k bs e h =
    let shift : k ≡ k + 0 = omega arith in
    ap (λ n. be_bytes n (be_value_from 0 bs)) shift ∙ be_bytes-be_value_from 0 k 0 bs e h
