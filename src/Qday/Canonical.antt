-- ===== src/Qday/Canonical.antt =====
-- core/consensus/qday.go: the bytes that parse are those that the envelope is written as.
use qday.Base.{
  ℕ, zero, suc, ◌+◌, ◌-◌, ◌*◌, ◌%◌, ◌^◌, ◌≤◌, ◌≡◌, refl, sym, ◌∙◌, ap, inl, inr, true, false, not,
  List, [], ◌∷◌, ◌++◌, ◌==◌, length, get_or, take, drop, All, arith, length-drop, length-take,
  Bool-cases, append_assoc, take-append-drop, drop-drop, get_or-drop, length-zero, All-take,
  All-drop,
}
use qday.Base.Bytes.{
  Bytes, IsByte, bytes_eq, le_bytes, le_value, be_bytes, be_value, le_bytes-le_value,
  be_bytes-be_value,
}
use qday.Base.Results.{Result, ok, ◌>>=◌, ◌>>◌, fail_if, >>=-eq-ok, fail_if-eq-ok, ok-inj}
use qday.Policy.{QdayKeys, keys_valid}
use qday.Qday.RoundTrip.{tail, encode-tail}
use qday.Qday.Envelope.{
  Envelope, prefix, key_bytes, all_key_bytes, witness_bytes, encode, parse_keys, parse,
  missing_envelope, invalid_envelope, zero_key, EnvelopeError, read_key, is_foreign, is_misshapen,
  read_witness, witness_size,
}

record Parsed (b : Bytes) (e : Envelope) : Type 0 where
  own : is_foreign b ≡ false
  kind : get_or b 5 0 ≡ e.kind
  nonce : le_value (take 8 (drop 6 b)) ≡ e.nonce
  shape : is_misshapen (get_or b 5 0) (le_value (take 2 (drop 14 b))) (length b) ≡ false
  keys : parse_keys (le_value (take 2 (drop 14 b))) (drop 16 b) ≡ ok e.keys
  witness : read_witness (get_or b 5 0) b ≡ e.witness

parsed : (b : Bytes) (e : Envelope) → parse b ≡ ok e → Parsed b e
unfolding parse
parsed b e h =
    let kind = get_or b 5 0 in
    let n = le_value (take 2 (drop 14 b)) in
    let read : List QdayKeys → Result EnvelopeError Envelope = λ ks. ok (record {
      kind = kind;
      nonce = le_value (take 8 (drop 6 b));
      keys = ks;
      witness = read_witness kind b;
    }) in
    let (u, f, h₁) =
      >>=-eq-ok (fail_if (is_foreign b) missing_envelope)
        (λ u.
          fail_if (is_misshapen kind n (length b)) invalid_envelope
          >> (parse_keys n (drop 16 b) >>= read))
        h in
    let (v, g, h₂) =
      >>=-eq-ok (fail_if (is_misshapen kind n (length b)) invalid_envelope)
        (λ u. parse_keys n (drop 16 b) >>= read) h₁ in
    let (ks, q, h₃) = >>=-eq-ok (parse_keys n (drop 16 b)) read h₂ in
    let same = ok-inj h₃ in
    record {
      own = fail_if-eq-ok _ _ f;
      kind = ap (λ x. x.kind) same;
      nonce = ap (λ x. x.nonce) same;
      shape = fail_if-eq-ok _ _ g;
      keys = q ∙ ap ok (ap (λ x. x.keys) same);
      witness = ap (λ x. x.witness) same;
    }

bytes_eq-eq : (xs ys : Bytes) → bytes_eq xs ys ≡ true → xs ≡ ys
bytes_eq-eq [] [] h = refl
bytes_eq-eq [] (y ∷ ys) h = cc
bytes_eq-eq (x ∷ xs) [] h = cc
bytes_eq-eq (x ∷ xs) (y ∷ ys) h =
    let e : x ≡ y = ground arith in cc (e, bytes_eq-eq xs ys (ground arith))

key_bytes-read_key :
    (b : Bytes) → 64 ≤ length b → All IsByte b → key_bytes (read_key b) ++ drop 64 b ≡ b
unfolding key_bytes read_key
key_bytes-read_key b l h =
    let c =
      be_bytes-be_value 32 (take 32 b) (omega (arith, length-take 32 b)) (All-take IsByte 32 b h) in
    let r =
      be_bytes-be_value 32 (take 32 (drop 32 b))
        (omega (arith, length-take 32 (drop 32 b), length-drop 32 b))
        (All-take IsByte 32 (drop 32 b) (All-drop IsByte 32 b h)) in
    ap (λ t. t ++ be_bytes 32 (be_value (take 32 (drop 32 b))) ++ drop 64 b) c
    ∙ ap (λ t. take 32 b ++ t ++ drop 64 b) r
    ∙ append_assoc (take 32 b) (take 32 (drop 32 b)) (drop 64 b)
    ∙ ap (λ t. take 32 b ++ (take 32 (drop 32 b) ++ t)) (sym (drop-drop 32 32 b))
    ∙ ap (λ t. take 32 b ++ t) (take-append-drop 32 (drop 32 b))
    ∙ take-append-drop 32 b

all_key_bytes-parse_keys :
    (n : ℕ) (b : Bytes) (ks : List QdayKeys)
    → 64 * n ≤ length b
    → All IsByte b
    → parse_keys n b ≡ ok ks
    → (length ks ≡ n) × (all_key_bytes ks ++ drop (64 * n) b ≡ b)
unfolding parse_keys all_key_bytes
all_key_bytes-parse_keys zero b ks l h e =
    let none_left : ks ≡ [] = sym (ok-inj e) in
    (ap length none_left, ap (λ t. all_key_bytes t ++ b) none_left)
all_key_bytes-parse_keys (suc n) b ks l h e =
    let push : List QdayKeys → Result EnvelopeError (List QdayKeys) = λ ks. ok (read_key b ∷ ks) in
    let (u, f, h₁) =
      >>=-eq-ok (fail_if (not (keys_valid (read_key b))) zero_key)
        (λ u. parse_keys n (drop 64 b) >>= push) e in
    let (rest, q, h₂) = >>=-eq-ok (parse_keys n (drop 64 b)) push h₁ in
    let (size, bytes) =
      all_key_bytes-parse_keys n (drop 64 b) rest (omega (arith, length-drop 64 b))
        (All-drop IsByte 64 b h) q in
    let split : ks ≡ read_key b ∷ rest = sym (ok-inj h₂) in
    let far : 64 * suc n ≡ 64 + 64 * n = omega arith in
    (
      ap length split ∙ ap suc size,
      ap (λ t. all_key_bytes t ++ drop (64 * suc n) b) split
          ∙ ap (λ t. key_bytes (read_key b) ++ all_key_bytes rest ++ drop t b) far
          ∙ append_assoc (key_bytes (read_key b)) (all_key_bytes rest) (drop (64 + 64 * n) b)
          ∙ ap (λ t. key_bytes (read_key b) ++ (all_key_bytes rest ++ t))
              (sym (drop-drop (64 * n) 64 b))
          ∙ ap (λ t. key_bytes (read_key b) ++ t) bytes
          ∙ key_bytes-read_key b (omega arith) (All-drop IsByte 0 b h),
    )

-- The sizes that a well-shaped envelope has.
sizes :
    (kind n size : ℕ)
    → is_misshapen kind n size ≡ false
    → (n ≤ 128) × (size ≡ 16 + 64 * n + witness_size kind)
unfolding is_misshapen
sizes kind n size h = (ground arith, ground arith)

witness_left :
    (b : Bytes) (kind n : ℕ)
    → All IsByte b
    → length b ≡ 16 + 64 * n + witness_size kind
    → witness_bytes kind (read_witness kind b) ≡ drop (16 + 64 * n) b
unfolding witness_bytes read_witness witness_size
witness_left b kind n h l = elim (Bool-cases (kind == 3)) [
  | inl t ↦
      (let far : length b - 32 ≡ 16 + 64 * n = ground arith in
        let w =
          be_bytes-be_value 32 (drop (16 + 64 * n) b) (ground (arith, length-drop (16 + 64 * n) b))
            (All-drop IsByte (16 + 64 * n) b h) in
        cc (t, far, w))
  | inr f ↦
      (let none_left =
          length-zero (drop (16 + 64 * n) b) (ground (arith, length-drop (16 + 64 * n) b)) in
        cc (f, none_left))
]

own_prefix : (b : Bytes) → is_foreign b ≡ false → bytes_eq (take 5 b) prefix ≡ true
unfolding is_foreign
own_prefix b h = ground arith

-- Bytes that parse are the bytes that their envelope is written as.
pub encode-parse : (b : Bytes) (e : Envelope) → All IsByte b → parse b ≡ ok e → encode e ≡ b
encode-parse b e h r =
    let p = parsed b e r in
    let n = le_value (take 2 (drop 14 b)) in
    let (few, size) = sizes (get_or b 5 0) n (length b) p.shape in
    let (count, keys) =
      all_key_bytes-parse_keys n (drop 16 b) e.keys (omega (arith, length-drop 16 b))
        (All-drop IsByte 16 b h) p.keys in
    let w : witness_bytes e.kind e.witness ≡ drop (64 * n) (drop 16 b) =
      cc (p.kind, p.witness, witness_left b (get_or b 5 0) n h size, drop-drop (64 * n) 16 b) in
    let nonce : le_bytes 8 e.nonce ≡ take 8 (drop 6 b) =
      ap (le_bytes 8) (sym p.nonce)
      ∙ le_bytes-le_value 8 (take 8 (drop 6 b))
          (omega (arith, length-take 8 (drop 6 b), length-drop 6 b))
          (All-take IsByte 8 (drop 6 b) (All-drop IsByte 6 b h)) in
    let small : length e.keys % 2 ^ 16 ≡ n = omega arith in
    let number : le_bytes 2 (length e.keys % 2 ^ 16) ≡ take 2 (drop 14 b) =
      ap (le_bytes 2) small
      ∙ le_bytes-le_value 2 (take 2 (drop 14 b))
          (omega (arith, length-take 2 (drop 14 b), length-drop 14 b))
          (All-take IsByte 2 (drop 14 b) (All-drop IsByte 14 b h)) in
    let keys_here : all_key_bytes e.keys ++ witness_bytes e.kind e.witness ≡ drop 16 b =
      ap (λ t. all_key_bytes e.keys ++ t) w ∙ keys in
    let from_count : le_bytes 2 (length e.keys % 2 ^ 16)
          ++ (all_key_bytes e.keys ++ witness_bytes e.kind e.witness)
        ≡ drop 14 b =
      cc (number, keys_here, drop-drop 2 14 b, take-append-drop 2 (drop 14 b)) in
    let from_nonce : tail e ≡ drop 6 b =
      cc (nonce, from_count, drop-drop 8 6 b, take-append-drop 8 (drop 6 b)) in
    let from_kind : (e.kind ∷ []) ++ tail e ≡ drop 5 b =
      cc (p.kind, from_nonce, get_or-drop 5 b 0 (omega arith)) in
    let start : prefix ≡ take 5 b = sym (bytes_eq-eq (take 5 b) prefix (own_prefix b p.own)) in
    encode-tail e
    ∙ ap (λ t. prefix ++ t) from_kind
    ∙ ap (λ t. t ++ drop 5 b) start
    ∙ take-append-drop 5 b
