-- ===== src/Wire/Codec.antt =====
-- core/types/encoding.go: the basic values are read back from what is written.
use qday.Base.{
  ℕ, ◌+◌, ◌^◌, ◌<◌, ◌≤◌, ◌≡◌, refl, ap, Bool, true, false, Option, none, some, List, [], ◌∷◌, ◌++◌,
  ltb, length, All, arith, length-append, take-append_exact, drop-append_exact,
}
use qday.Base.Bytes.{
  Bytes, le_bytes, be_bytes, length-le_bytes, length-be_bytes, le_value-le_bytes, be_value-be_bytes,
}
use qday.Wire.{
  Writer, Reader, read, write_uint8, read_uint8, write_bool, read_bool, write_uint64, read_uint64,
  write_array, read_array, write_bytes, read_bytes, write_items, write_slice, read_items,
  read_slice, write_ptr, read_ptr,
}

-- A value in range is read back, with what is behind it; a value takes at least one byte.
pub record IsCodec {A : Type 0} (write : Writer A) (read : Reader A) (InRange : A → Type 0)
    : Type 0 where
  pub reads : (x : A) → InRange x → (rest : Bytes) → read (write x rest) ≡ some (x, rest)
  pub grows : (x : A) (rest : Bytes) → length rest < length (write x rest)

pub grow : {a b c : ℕ} → a < b → b < c → a < c
grow h k = omega (arith, h, k)

pub read-append : (n : ℕ) (xs rest : Bytes) → length xs ≡ n → read n (xs ++ rest) ≡ some (xs, rest)
unfolding read
read-append n xs rest e =
    let enough : ltb (length (xs ++ rest)) n ≡ false = ground (arith, length-append xs rest, e) in
    cc (enough, take-append_exact xs rest n e, drop-append_exact xs rest n e)

pub uint8-IsCodec : IsCodec write_uint8 read_uint8 (λ u. u < 256)
unfolding write_uint8 read_uint8
uint8-IsCodec = record {
  reads = λ u h rest. ap (λ b. some (b, rest)) (omega (arith, h));
  grows = λ u rest. omega arith;
}

pub bool-IsCodec : IsCodec write_bool read_bool (λ b. Unit {0})
unfolding write_bool read_bool
bool-IsCodec = record { reads = reads_bool; grows = λ b rest. omega arith }
  where
    reads_bool :
        (b : Bool) → Unit {0} → (rest : Bytes) → read_bool (write_bool b rest) ≡ some (b, rest)
    reads_bool true h rest = refl
    reads_bool false h rest = refl

pub uint64-IsCodec : IsCodec write_uint64 read_uint64 (λ u. u < 2 ^ 64)
unfolding write_uint64 read_uint64
uint64-IsCodec = record {
  reads = λ u h rest.
      rw (read-append 8 (le_bytes 8 u) rest (length-le_bytes 8 u))
        (ap (λ v. some (v, rest)) (le_value-le_bytes 8 u (omega (arith, h))));
  grows = λ u rest. omega (arith, length-append (le_bytes 8 u) rest, length-le_bytes 8 u);
}

pub array-IsCodec : (k : ℕ) → 0 < k → IsCodec (write_array k) (read_array k) (λ x. x < 256 ^ k)
unfolding write_array read_array
array-IsCodec k pos = record {
  reads = λ x h rest.
      rw (read-append k (be_bytes k x) rest (length-be_bytes k x))
        (ap (λ v. some (v, rest)) (be_value-be_bytes k x h));
  grows = λ x rest. omega (arith, length-append (be_bytes k x) rest, length-be_bytes k x, pos);
}

pub bytes-IsCodec : IsCodec write_bytes read_bytes (λ b. length b < 2 ^ 64)
unfolding write_bytes read_bytes
bytes-IsCodec = record {
  reads = λ b h rest.
      let enough : ltb (length (b ++ rest)) (length b) ≡ false =
        ground (arith, length-append b rest) in
      rw (uint64-IsCodec.reads (length b) h (b ++ rest), enough)
        (cc (take-append_exact b rest (length b) refl, drop-append_exact b rest (length b) refl));
  grows =
      λ b rest. omega (arith, uint64-IsCodec.grows (length b) (b ++ rest), length-append b rest);
}

module _ {A : Type 0} {write : Writer A} {read_item : Reader A} {InRange : A → Type 0}
    (c : IsCodec write read_item InRange) where
  items-length :
      (xs : List A) (rest : Bytes) → length xs + length rest ≤ length (write_items write xs rest)
  unfolding write_items
  items-length [] rest = omega arith
  items-length (x ∷ xs) rest =
      omega (arith, items-length xs rest, c.grows x (write_items write xs rest))

  items-reads :
      (xs : List A) (rest : Bytes)
      → All InRange xs
      → read_items read_item (length xs) (write_items write xs rest) ≡ some (xs, rest)
  unfolding write_items read_items
  items-reads [] rest a = refl
  items-reads (x ∷ xs) rest (h, a) =
      rw (c.reads x h (write_items write xs rest), items-reads xs rest a) refl

  pub slice-IsCodec :
      IsCodec
        (write_slice write)
        (read_slice read_item)
        (λ xs. (length xs < 2 ^ 64) × All InRange xs)
  unfolding write_slice read_slice
  slice-IsCodec = record {
    reads = λ xs h rest.
        let body = write_items write xs rest in
        let enough : ltb (length body) (length xs) ≡ false = ground (arith, items-length xs rest) in
        rw (uint64-IsCodec.reads (length xs) h.0 body, enough) (items-reads xs rest h.1);
    grows = λ xs rest.
        omega (
          arith,
          uint64-IsCodec.grows (length xs) (write_items write xs rest),
          items-length xs rest,
        );
  }

  pub ptr-IsCodec :
      IsCodec
        (write_ptr write)
        (read_ptr read_item)
        (λ m. elim m [ none ↦ Unit {0} | some x ↦ InRange x ])
  unfolding write_ptr read_ptr
  ptr-IsCodec = record { reads = reads_ptr; grows = grows_ptr }
    where
      reads_ptr :
          (m : Option A)
          → (elim m as (λ m. Type 0) [ none ↦ Unit {0} | some x ↦ InRange x ])
          → (rest : Bytes) → read_ptr read_item (write_ptr write m rest) ≡ some (m, rest)
      reads_ptr none h rest = refl
      reads_ptr (some x) h rest = rw (c.reads x h rest) refl

      grows_ptr : (m : Option A) (rest : Bytes) → length rest < length (write_ptr write m rest)
      grows_ptr none rest = bool-IsCodec.grows false rest
      grows_ptr (some x) rest = grow (c.grows x rest) (bool-IsCodec.grows true (write x rest))
