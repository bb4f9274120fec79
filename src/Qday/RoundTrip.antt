-- ===== src/Qday/RoundTrip.antt =====
-- core/consensus/qday.go: an envelope is the one reading of its bytes, and its bytes are the one
-- form of an envelope.
use qday.Base.{
  ℕ, ◌+◌, ◌-◌, ◌*◌, ◌%◌, ◌^◌, ◌≤◌, ◌<◌, ◌≡◌, refl, sym, ◌∙◌, ap, ◌≢◌, ◌⊎◌, inl, inr, true, false,
  List, [], ◌∷◌, ◌++◌, ltb, ◌==◌, length, get_or, take, drop, All, arith, take-append_exact,
  drop-append_exact, length-append, Bool-cases, append_assoc,
}
use qday.Base.Bytes.{
  Bytes, bytes_eq, le_bytes, le_value, be_bytes, be_value, length-be_bytes, length-le_bytes,
  be_value-be_bytes, le_value-le_bytes,
}
use qday.Base.Results.{ok}
use qday.Policy.{QdayKeys, keys_valid}
use qday.Qday.Envelope.{
  Envelope, prefix, key_bytes, all_key_bytes, witness_bytes, encode, parse_keys, parse, read_key,
  is_foreign, is_misshapen, read_witness,
}

abbrev pub IsKeys : QdayKeys → Type 0
IsKeys k = (k.classical < 2 ^ 256) × (k.reserve < 2 ^ 256) × (keys_valid k ≡ true)

-- What the fields of an envelope hold in the code.
pub record IsEnvelope (e : Envelope) : Type 0 where
  pub kind_low : 1 ≤ e.kind
  pub kind_high : e.kind ≤ 4
  pub nonce : e.nonce < 2 ^ 64
  pub few : length e.keys ≤ 128
  pub keys : All IsKeys e.keys
  pub witness : e.witness < 2 ^ 256
  pub no_witness : (e.kind ≡ 3) ⊎ (e.witness ≡ 0)

pub length-key_bytes : (k : QdayKeys) → length (key_bytes k) ≡ 64
unfolding key_bytes
length-key_bytes k = omega (
  arith,
  length-append (be_bytes 32 k.classical) (be_bytes 32 k.reserve),
  length-be_bytes 32 k.classical,
  length-be_bytes 32 k.reserve,
)

pub length-all_key_bytes : (ks : List QdayKeys) → length (all_key_bytes ks) ≡ 64 * length ks
unfolding all_key_bytes
length-all_key_bytes [] = refl
length-all_key_bytes (k ∷ ks) = omega (
  arith,
  length-append (key_bytes k) (all_key_bytes ks),
  length-key_bytes k,
  length-all_key_bytes ks,
)

read_key-key_bytes : (k : QdayKeys) (rest : Bytes) → IsKeys k → read_key (key_bytes k ++ rest) ≡ k
unfolding read_key key_bytes
read_key-key_bytes k rest (c, r, v) = cc (
  append_assoc (be_bytes 32 k.classical) (be_bytes 32 k.reserve) rest,
  take-append_exact (be_bytes 32 k.classical) (be_bytes 32 k.reserve ++ rest) 32
      (length-be_bytes 32 k.classical),
  drop-append_exact (be_bytes 32 k.classical) (be_bytes 32 k.reserve ++ rest) 32
      (length-be_bytes 32 k.classical),
  take-append_exact (be_bytes 32 k.reserve) rest 32 (length-be_bytes 32 k.reserve),
  be_value-be_bytes 32 k.classical c,
  be_value-be_bytes 32 k.reserve r,
)

parse_keys-all_key_bytes :
    (ks : List QdayKeys) (rest : Bytes)
    → All IsKeys ks
    → parse_keys (length ks) (all_key_bytes ks ++ rest) ≡ ok ks
unfolding all_key_bytes parse_keys
parse_keys-all_key_bytes [] rest h = refl
parse_keys-all_key_bytes (k ∷ ks) rest (h, hs) =
    let a = append_assoc (key_bytes k) (all_key_bytes ks) rest in
    let f = read_key-key_bytes k (all_key_bytes ks ++ rest) h in
    let d = drop-append_exact (key_bytes k) (all_key_bytes ks ++ rest) 64 (length-key_bytes k) in
    let r = parse_keys-all_key_bytes ks rest hs in cc (a, f, d, r, h.2)

-- The bytes after the prefix and the kind.
abbrev pub tail : Envelope → Bytes
tail e =
    le_bytes 8 e.nonce
    ++ (le_bytes 2 (length e.keys % 2 ^ 16)
        ++ (all_key_bytes e.keys ++ witness_bytes e.kind e.witness))

pub encode-tail : (e : Envelope) → encode e ≡ prefix ++ ((e.kind ∷ []) ++ tail e)
unfolding encode
encode-tail e =
    let n = le_bytes 8 e.nonce in
    let m = le_bytes 2 (length e.keys % 2 ^ 16) in
    let ks = all_key_bytes e.keys in
    let w = witness_bytes e.kind e.witness in
    cc (append_assoc (n ++ m) ks w, append_assoc n m (ks ++ w))

-- Where the parts of bytes laid out this way are found.
record Layout (b : Bytes) (kind : ℕ) (n m ks w : Bytes) : Type 0 where
  size : length b ≡ 16 + length ks + length w
  start : take 5 b ≡ prefix
  kind_at : get_or b 5 0 ≡ kind
  nonce_at : take 8 (drop 6 b) ≡ n
  count_at : take 2 (drop 14 b) ≡ m
  keys_at : drop 16 b ≡ ks ++ w
  witness_at : length w ≡ 32 → drop (length b - 32) b ≡ w

last_part : (xs w : Bytes) {b : Bytes} → length w ≡ 32 → b ≡ xs ++ w → drop (length b - 32) b ≡ w
last_part xs w {b} l e =
    ap (λ t. drop (length t - 32) t) e
    ∙ drop-append_exact xs w (length (xs ++ w) - 32) (omega (arith, length-append xs w))

laid_out :
    (kind : ℕ) (n m ks w : Bytes)
    → length n ≡ 8
    → length m ≡ 2
    → Layout (prefix ++ ((kind ∷ []) ++ (n ++ (m ++ (ks ++ w))))) kind n m ks w
laid_out kind n m ks w p q = record {
  size =
      omega
        (arith, length-append n (m ++ (ks ++ w)), length-append m (ks ++ w), length-append ks w);
  start = refl;
  kind_at = refl;
  nonce_at = take-append_exact n (m ++ (ks ++ w)) 8 p;
  count_at =
      ap (take 2) (drop-append_exact n (m ++ (ks ++ w)) 8 p) ∙ take-append_exact m (ks ++ w) 2 q;
  keys_at =
      ap (drop 10) (sym (append_assoc n m (ks ++ w)))
      ∙ drop-append_exact (n ++ m) (ks ++ w) 10 (omega (arith, length-append n m));
  witness_at = λ l. last_part (prefix ++ ((kind ∷ []) ++ (n ++ (m ++ ks)))) w l (
      ap (λ t. prefix ++ ((kind ∷ []) ++ t)) {x = n ++ (m ++ (ks ++ w))}
        (cc (append_assoc n m ks, append_assoc (n ++ m) ks w, append_assoc n m (ks ++ w))));
}

witness_part :
    (e : Envelope)
    → IsEnvelope e
    → ((e.kind ≡ 3)
        × (length (witness_bytes e.kind e.witness) ≡ 32)
        × (be_value (witness_bytes e.kind e.witness) ≡ e.witness))
      ⊎ ((e.kind ≢ 3) × (length (witness_bytes e.kind e.witness) ≡ 0) × (e.witness ≡ 0))
unfolding witness_bytes
witness_part e i = elim (Bool-cases (e.kind == 3)) [
  | inl t ↦ inl (
    ground arith,
    ground (arith, length-be_bytes 32 e.witness),
    ground (arith, be_value-be_bytes 32 e.witness i.witness),
  )
  | inr f ↦ inr (ground arith, ground arith, ground (arith, i.no_witness))
]

-- The steps of a parse that succeeds.
parse_steps :
    (b : Bytes) (e : Envelope) (count : ℕ)
    → is_foreign b ≡ false
    → get_or b 5 0 ≡ e.kind
    → le_value (take 8 (drop 6 b)) ≡ e.nonce
    → le_value (take 2 (drop 14 b)) ≡ count
    → is_misshapen e.kind count (length b) ≡ false
    → parse_keys count (drop 16 b) ≡ ok e.keys
    → read_witness e.kind b ≡ e.witness
    → parse b ≡ ok e
unfolding parse
parse_steps b e count f k n c m ks w = cc (f, k, n, c, m, ks, w)

shape_of :
    (e : Envelope) (size : ℕ)
    → IsEnvelope e
    → size ≡ 16 + 64 * length e.keys + length (witness_bytes e.kind e.witness)
    → is_misshapen e.kind (length e.keys) size ≡ false
unfolding is_misshapen
shape_of e size i s = elim (witness_part e i) [
  | inl (k, l, v) ↦ ground (arith, i.kind_low, i.kind_high, i.few)
  | inr (k, l, v) ↦ ground (arith, i.kind_low, i.kind_high, i.few)
]

parse-Layout :
    (b : Bytes) (e : Envelope) (n m : Bytes)
    → IsEnvelope e
    → Layout b e.kind n m (all_key_bytes e.keys) (witness_bytes e.kind e.witness)
    → le_value n ≡ e.nonce
    → le_value m ≡ length e.keys
    → parse b ≡ ok e
unfolding is_foreign read_witness
parse-Layout b e n m i l p q =
    parse_steps b e (length e.keys) foreign l.kind_at (ap le_value l.nonce_at ∙ p)
      (ap le_value l.count_at ∙ q)
      (shape_of e (length b) i (omega (arith, l.size, length-all_key_bytes e.keys)))
      (ap (parse_keys (length e.keys)) l.keys_at
        ∙ parse_keys-all_key_bytes e.keys (witness_bytes e.kind e.witness) i.keys)
      (elim (witness_part e i) [
        | inl (k, s, v) ↦
            (let w : be_value (drop (length b - 32) b) ≡ e.witness =
                ap be_value (l.witness_at s) ∙ v in
              ground arith)
        | inr (k, s, v) ↦ ground arith
      ])
  where
    foreign : is_foreign b ≡ false
    foreign =
        let start : bytes_eq (take 5 b) prefix ≡ true = ap (λ t. bytes_eq t prefix) l.start in
        let long : ltb (length b) 16 ≡ false = ground (arith, l.size) in cc (start, long)

-- Parsing gives back an envelope that is written.
pub parse-encode : (e : Envelope) → IsEnvelope e → parse (encode e) ≡ ok e
parse-encode e i =
    let n = le_bytes 8 e.nonce in
    let m = le_bytes 2 (length e.keys % 2 ^ 16) in
    let l =
      laid_out e.kind n m (all_key_bytes e.keys) (witness_bytes e.kind e.witness)
        (length-le_bytes 8 e.nonce) (length-le_bytes 2 (length e.keys % 2 ^ 16)) in
    ap parse (encode-tail e)
    ∙ parse-Layout _ e n m i l (le_value-le_bytes 8 e.nonce i.nonce)
        (omega (arith, le_value-le_bytes 2 (length e.keys % 2 ^ 16) (omega arith), i.few))
