-- ===== src/Wire/Elements.antt =====
-- core/types/encoding.go: EncodeTo and DecodeFrom of hashes, times, amounts, outputs and elements.
use qday.Base.{ℕ, ◌+◌, ◌*◌, ◌/◌, ◌^◌, ◌<◌, ◌≡◌, refl, ap, sym, ◌∙◌, some, arith}
use qday.Base.Int.{ℤ, pos, negsuc, u64, i64}
use qday.Base.Options.{◌>>=◌}
use qday.Currency.{Currency}
use qday.Header.{BlockHeader}
use qday.Types.{
  SiacoinOutput, SiafundOutput, StateElement, SiacoinElement, SiafundElement, ChainIndexElement,
}
use qday.Wire.{
  Writer, Reader, write_uint64, read_uint64, write_array, read_array, write_slice, read_slice,
}
use qday.Wire.Codec.{IsCodec, grow, uint64-IsCodec, array-IsCodec}

-- Hash256 and the types of IDs, addresses and keys.
abbrev pub write_hash : Writer ℕ
write_hash = write_array 32

abbrev pub read_hash : Reader ℕ
read_hash = read_array 32

abbrev pub write_signature : Writer ℕ
write_signature = write_array 64

abbrev pub read_signature : Reader ℕ
read_signature = read_array 64

-- `t.Unix()`, and `time.Unix(s, 0)`.
unfoldable pub unix : ℤ → ℤ
unix (pos n) = pos (n / 1000000000)
unix (negsuc n) = negsuc (n / 1000000000)

unfoldable pub time_of : ℤ → ℤ
time_of (pos s) = pos (s * 1000000000)
time_of (negsuc s) = negsuc (s * 1000000000 + 999999999)

unfoldable pub write_time : Writer ℤ
unfolding unix write_uint64 u64
write_time t rest = write_uint64 (u64 (unix t)) rest

unfoldable pub read_time : Reader ℤ
unfolding time_of read_uint64 i64
read_time bs = read_uint64 bs >>= λ (n, left). some (time_of (i64 (pos n)), left)

unfoldable pub write_currency : Writer Currency
unfolding write_uint64
write_currency c rest = write_uint64 c.lo (write_uint64 c.hi rest)

unfoldable pub read_currency : Reader Currency
unfolding read_uint64
read_currency bs = read_uint64 bs >>= λ (lo, left).
    read_uint64 left >>= λ (hi, left'). some (record { lo = lo; hi = hi }, left')

unfoldable pub write_siacoin_output : Writer SiacoinOutput
unfolding write_currency write_array
write_siacoin_output o rest = write_currency o.value (write_hash o.address rest)

unfoldable pub read_siacoin_output : Reader SiacoinOutput
unfolding read_currency read_array
read_siacoin_output bs = read_currency bs >>= λ (v, left).
    read_hash left >>= λ (a, left'). some (record { value = v; address = a }, left')

unfoldable pub write_siafund_output : Writer SiafundOutput
unfolding write_uint64 write_array
write_siafund_output o rest = write_uint64 o.value (write_hash o.address rest)

unfoldable pub read_siafund_output : Reader SiafundOutput
unfolding read_uint64 read_array
read_siafund_output bs = read_uint64 bs >>= λ (v, left).
    read_hash left >>= λ (a, left'). some (record { value = v; address = a }, left')

unfoldable pub write_state_element : Writer StateElement
unfolding write_uint64 write_slice write_array
write_state_element e rest = write_uint64 e.leaf_index (write_slice write_hash e.merkle_proof rest)

unfoldable pub read_state_element : Reader StateElement
unfolding read_uint64 read_slice read_array
read_state_element bs = read_uint64 bs >>= λ (i, left). read_slice read_hash left >>= λ (p, left').
    some (record { leaf_index = i; merkle_proof = p }, left')

unfoldable pub write_siacoin_element : Writer SiacoinElement
unfolding write_state_element write_array write_siacoin_output write_uint64
write_siacoin_element e rest =
    write_state_element e.state_element (
      write_hash e.id (write_siacoin_output e.siacoin_output (write_uint64 e.maturity_height rest)))

unfoldable pub read_siacoin_element : Reader SiacoinElement
unfolding read_state_element read_array read_siacoin_output read_uint64
read_siacoin_element bs = read_state_element bs >>= λ (se, l₁). read_hash l₁ >>= λ (id, l₂).
    read_siacoin_output l₂ >>= λ (o, l₃). read_uint64 l₃ >>= λ (h, l₄).
    some (record { id = id; state_element = se; siacoin_output = o; maturity_height = h }, l₄)

unfoldable pub write_siafund_element : Writer SiafundElement
unfolding write_state_element write_array write_siafund_output write_currency
write_siafund_element e rest =
    write_state_element e.state_element
      (write_hash e.id (write_siafund_output e.siafund_output (write_currency e.claim_start rest)))

unfoldable pub read_siafund_element : Reader SiafundElement
unfolding read_state_element read_array read_siafund_output read_currency
read_siafund_element bs = read_state_element bs >>= λ (se, l₁). read_hash l₁ >>= λ (id, l₂).
    read_siafund_output l₂ >>= λ (o, l₃). read_currency l₃ >>= λ (c, l₄).
    some (record { id = id; state_element = se; siafund_output = o; claim_start = c }, l₄)

-- With the ChainIndex at its end.
unfoldable pub write_chain_index_element : Writer ChainIndexElement
unfolding write_state_element write_array write_uint64
write_chain_index_element e rest =
    write_state_element e.state_element
      (write_hash e.id (write_uint64 e.height (write_hash e.chain_id rest)))

unfoldable pub read_chain_index_element : Reader ChainIndexElement
unfolding read_state_element read_array read_uint64
read_chain_index_element bs = read_state_element bs >>= λ (se, l₁). read_hash l₁ >>= λ (id, l₂).
    read_uint64 l₂ >>= λ (h, l₃). read_hash l₃ >>= λ (c, l₄).
    some (record { id = id; state_element = se; height = h; chain_id = c }, l₄)

unfoldable pub write_header : Writer BlockHeader
unfolding write_array write_uint64 write_time
write_header h rest =
    write_hash h.parent_id
      (write_uint64 h.nonce (write_time h.timestamp (write_hash h.commitment rest)))

unfoldable pub read_header : Reader BlockHeader
unfolding read_array read_uint64 read_time
read_header bs = read_hash bs >>= λ (p, l₁). read_uint64 l₁ >>= λ (n, l₂).
    read_time l₂ >>= λ (t, l₃). read_hash l₃ >>= λ (c, l₄).
    some (record { parent_id = p; nonce = n; timestamp = t; commitment = c }, l₄)

abbrev pub IsHash : ℕ → Type 0
IsHash x = x < 256 ^ 32

abbrev pub IsWord : ℕ → Type 0
IsWord x = x < 2 ^ 64

pub hash-IsCodec : IsCodec write_hash read_hash IsHash
hash-IsCodec = array-IsCodec 32 (omega arith)

pub signature-IsCodec : IsCodec write_signature read_signature (λ x. x < 256 ^ 64)
signature-IsCodec = array-IsCodec 64 (omega arith)

-- A whole second that an int64 counts.
abbrev pub IsTime : ℤ → Type 0
IsTime t = (s : ℤ) × (t ≡ time_of s) × (i64 (pos (u64 s)) ≡ s)

unix-time_of : (s : ℤ) → unix (time_of s) ≡ s
unfolding unix time_of
unix-time_of (pos s) = ap pos (omega arith)
unix-time_of (negsuc s) = ap negsuc (omega arith)

u64_lt : (s : ℤ) → u64 s < 2 ^ 64
unfolding u64
u64_lt (pos s) = omega arith
u64_lt (negsuc s) = omega arith

pub write_time-IsCodec : IsCodec write_time read_time IsTime
unfolding write_time read_time
write_time-IsCodec = record {
  reads = λ t (s, at, fits) rest.
      let same : unix t ≡ s = ap unix at ∙ unix-time_of s in
      let back : time_of (i64 (pos (u64 (unix t)))) ≡ t =
        ap (λ u. time_of (i64 (pos (u64 u)))) same ∙ ap time_of fits ∙ sym at in
      rw (uint64-IsCodec.reads (u64 (unix t)) (u64_lt (unix t)) rest)
        (ap (λ u. some (u, rest)) back);
  grows = λ t rest. uint64-IsCodec.grows (u64 (unix t)) rest;
}

pub record InCurrency (c : Currency) : Type 0 where
  pub lo : IsWord c.lo
  pub hi : IsWord c.hi

pub currency-IsCodec : IsCodec write_currency read_currency InCurrency
unfolding write_currency read_currency
currency-IsCodec = record {
  reads = λ c h rest.
      rw
        (
          uint64-IsCodec.reads c.lo h.lo (write_uint64 c.hi rest),
          uint64-IsCodec.reads c.hi h.hi rest,
        )
        refl;
  grows = λ c rest. grow (uint64-IsCodec.grows _ _) (uint64-IsCodec.grows _ _);
}
