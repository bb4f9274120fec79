-- ===== src/Qday/Envelope.antt =====
-- core/consensus/qday.go: QdayEnvelope, Encode and ParseQdayEnvelope. A [32]byte is a number.
use qday.Base.{
  ℕ, zero, suc, ◌+◌, ◌-◌, ◌*◌, ◌%◌, ◌^◌, Bool, ◌||◌, not, List, [], ◌∷◌, ◌++◌, ltb, ◌==◌, ◌!=◌,
  if◌then◌else◌, length, get_or, take, drop,
}
use qday.Base.Bytes.{Bytes, bytes_eq, le_bytes, le_value, be_bytes, be_value}
use qday.Base.Results.{◌>>=◌, ◌>>◌, Result, ok, fail_if}
use qday.Policy.{QdayKeys, keys_valid}

abbrev pub transfer : ℕ
transfer = 1

abbrev pub coinbase : ℕ
coinbase = 2

abbrev pub canary_proof : ℕ
canary_proof = 3

abbrev pub mining_work : ℕ
mining_work = 4

pub record Envelope : Type 0 where
  pub kind : ℕ
  pub nonce : ℕ
  pub keys : List QdayKeys
  pub witness : ℕ

pub data EnvelopeError : Type 0 where
  missing_envelope invalid_envelope zero_key : EnvelopeError

-- "QDAY\x02"
abbrev pub prefix : Bytes
prefix = 81 ∷ 68 ∷ 65 ∷ 89 ∷ 2 ∷ []

-- `QdayKeys.Bytes`
unfoldable pub key_bytes : QdayKeys → Bytes
key_bytes k = be_bytes 32 k.classical ++ be_bytes 32 k.reserve

unfoldable pub all_key_bytes : List QdayKeys → Bytes
unfolding key_bytes
all_key_bytes [] = []
all_key_bytes (k ∷ ks) = key_bytes k ++ all_key_bytes ks

-- The witness that only a canary proof carries.
unfoldable pub witness_bytes : ℕ → ℕ → Bytes
witness_bytes kind witness = if kind == canary_proof then be_bytes 32 witness else []

unfoldable pub encode : Envelope → Bytes
unfolding all_key_bytes witness_bytes
encode e =
    prefix
    ++ (e.kind ∷ [])
    ++ le_bytes 8 e.nonce
    ++ le_bytes 2 (length e.keys % 2 ^ 16)
    ++ all_key_bytes e.keys
    ++ witness_bytes e.kind e.witness

-- The two keys at the start of the bytes.
unfoldable pub read_key : Bytes → QdayKeys
read_key b = record { classical = be_value (take 32 b); reserve = be_value (take 32 (drop 32 b)) }

-- The loop over the keys, on the bytes from the next key on.
unfoldable pub parse_keys : ℕ → Bytes → Result EnvelopeError (List QdayKeys)
unfolding keys_valid read_key
parse_keys zero b = ok []
parse_keys (suc n) b = do
  fail_if (not (keys_valid (read_key b))) zero_key
  ks ← parse_keys n (drop 64 b)
  ok (read_key b ∷ ks)

-- The bytes of the witness that the kind calls for.
unfoldable pub witness_size : ℕ → ℕ
witness_size kind = if kind == canary_proof then 32 else 0

-- A kind that is not known, too many keys, or a size that is not theirs.
unfoldable pub is_misshapen : ℕ → ℕ → ℕ → Bool
unfolding witness_size
is_misshapen kind n size =
    ltb kind transfer
    || ltb mining_work kind
    || ltb 128 n
    || (size != 16 + 64 * n + witness_size kind)

unfoldable pub is_foreign : Bytes → Bool
is_foreign b = ltb (length b) 16 || not (bytes_eq (take 5 b) prefix)

unfoldable pub read_witness : ℕ → Bytes → ℕ
unfolding witness_size
read_witness kind b = if witness_size kind != 0 then be_value (drop (length b - 32) b) else 0

unfoldable pub parse : Bytes → Result EnvelopeError Envelope
unfolding parse_keys is_misshapen is_foreign read_witness
parse b = do
  fail_if (is_foreign b) missing_envelope
  let kind = get_or b 5 0
  let nonce = le_value (take 8 (drop 6 b))
  let n = le_value (take 2 (drop 14 b))
  fail_if (is_misshapen kind n (length b)) invalid_envelope
  keys ← parse_keys n (drop 16 b)
  ok (record { kind = kind; nonce = nonce; keys = keys; witness = read_witness kind b })
