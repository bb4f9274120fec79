-- ===== src/Wire.antt =====
-- core/types/encoding.go: Encoder and Decoder. An encoder writes a value in front of what is written
-- after it, and its stream takes every byte. A decoder takes a value off the bytes left; `none` is an
-- error, which a Decoder keeps to its end.
pub mod Codec
pub mod Elements
pub mod Values
pub mod Policies
pub mod PolicyTrip
pub mod Contracts
pub mod ContractTrip
pub mod InputTrip
pub mod Transactions
pub mod TransactionTrip
pub mod Semantics
mod Examples
use qday.Base.{
  ℕ, zero, suc, ◌+◌, ◌*◌, ◌%◌, Bool, true, false, Option, none, some, List, [], ◌∷◌, ◌++◌, ltb,
  if◌then◌else◌, length, take, drop,
}
use qday.Base.Bytes.{Bytes, le_bytes, le_value, be_bytes, be_value}
use qday.Base.Options.{◌>>=◌}

abbrev pub Writer {ℓ} : Type ℓ → Type ℓ
Writer A = A → Bytes → Bytes

abbrev pub Reader {ℓ} : Type ℓ → Type ℓ
Reader A = Bytes → Option (A × Bytes)

-- `d.Read` of `n` bytes.
unfoldable pub read : ℕ → Reader Bytes
read n bs = if ltb (length bs) n then none else some (take n bs, drop n bs)

unfoldable pub write_uint8 : Writer ℕ
write_uint8 u rest = (u % 256) ∷ rest

unfoldable pub read_uint8 : Reader ℕ
read_uint8 [] = none
read_uint8 (b ∷ bs) = some (b, bs)

unfoldable pub write_bool : Writer Bool
write_bool b rest = (if b then 1 else 0) ∷ rest

unfoldable pub read_bool : Reader Bool
read_bool [] = none
read_bool (zero ∷ bs) = some (false, bs)
read_bool (suc zero ∷ bs) = some (true, bs)
read_bool (suc (suc b) ∷ bs) = none

unfoldable pub write_uint64 : Writer ℕ
write_uint64 u rest = le_bytes 8 u ++ rest

unfoldable pub read_uint64 : Reader ℕ
unfolding read
read_uint64 bs = read 8 bs >>= λ (b, left). some (le_value b, left)

-- An array of `k` bytes, held as a number.
unfoldable pub write_array : ℕ → Writer ℕ
write_array k x rest = be_bytes k x ++ rest

unfoldable pub read_array : ℕ → Reader ℕ
unfolding read
read_array k bs = read k bs >>= λ (b, left). some (be_value b, left)

unfoldable pub write_bytes : Writer Bytes
unfolding write_uint64
write_bytes b rest = write_uint64 (length b) (b ++ rest)

unfoldable pub read_bytes : Reader Bytes
unfolding read_uint64 read
read_bytes bs = read_uint64 bs >>= λ (n, left). if ltb (length left) n then none else read n left

module _ {A : Type 0} (write : Writer A) where
  unfoldable pub write_items : Writer (List A)
  write_items [] rest = rest
  write_items (x ∷ xs) rest = write x (write_items xs rest)

  unfoldable pub write_slice : Writer (List A)
  unfolding write_uint64 write_items
  write_slice xs rest = write_uint64 (length xs) (write_items xs rest)

module _ {A : Type 0} (read_item : Reader A) where
  unfoldable pub read_items : ℕ → Reader (List A)
  read_items zero bs = some ([], bs)
  read_items (suc n) bs =
      read_item bs >>= λ (x, left). read_items n left >>= λ (xs, left'). some (x ∷ xs, left')

  unfoldable pub read_slice : Reader (List A)
  unfolding read_uint64 read_items
  read_slice bs =
      read_uint64 bs >>= λ (n, left). if ltb (length left) n then none else read_items n left

module _ {A : Type 0} (write : Writer A) where
  unfoldable pub write_ptr : Writer (Option A)
  unfolding write_bool
  write_ptr none rest = write_bool false rest
  write_ptr (some x) rest = write_bool true (write x rest)

module _ {A : Type 0} (read_item : Reader A) where
  unfoldable pub read_ptr : Reader (Option A)
  unfolding read_bool
  read_ptr bs = read_bool bs >>= λ (b, left).
      if b then (read_item left >>= λ (x, left'). some (some x, left')) else some (none, left)
