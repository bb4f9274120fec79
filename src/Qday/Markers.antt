-- ===== src/Qday/Markers.antt =====
-- core/consensus/qday.go: what the markers of a block that passes are, and what the work of a
-- transaction commits to.
use qday.Base.{
  ℕ, ◌%◌, ◌^◌, ◌≤◌, ◌≡◌, refl, sym, ap, ◌∙◌, ◌⊎◌, true, false, ◌||◌, ◌!=◌, some, List, [], ◌∷◌,
  ◌++◌, leb, length, drop, arith, Bool-cases, Option-cases, List-cases, length-zero, length-append,
  drop-drop, drop-append_exact, take-append_exact, inl, inr,
}
use qday.Base.Bytes.{Bytes, le_bytes, length-le_bytes}
use qday.Base.Options.{some-inj}
use qday.Base.Results.{ok, Result-cases}
use qday.Policy.{QdayKeys, keys_policy}
use qday.Policy.Crypto.{Crypto}
use qday.Policy.Verify.{address}
use qday.Qday.Envelope.{
  Envelope, prefix, encode, mining_work, all_key_bytes, witness_bytes, parse, coinbase,
}
use qday.Qday.RoundTrip.{encode-tail}
use qday.Qday.Transaction.{
  is_idle, clear_nonce, check_coinbase_marker, first_and_payout, check_mining_marker, last_of,
  validate_qday_block_markers, work_intent, Oracle,
}
use qday.State.{State, QdayParams, child_height, qday_v1_active}
use qday.Types.{V2Transaction, V2BlockData, SiacoinOutput, Block}

-- The marker of the work of a block: its envelope has no keys and no witness.
pub record IsMiningMarker (txn : V2Transaction) : Type 0 where
  pub envelope : Envelope
  pub parsed : parse txn.arbitrary_data ≡ ok envelope
  pub kind : envelope.kind ≡ mining_work
  pub no_keys : envelope.keys ≡ []
  pub no_witness : envelope.witness ≡ 0
  pub idle : is_idle txn ≡ true

check_mining_marker-IsMiningMarker :
    (txn : V2Transaction) → check_mining_marker txn ≡ ok tt → IsMiningMarker txn
unfolding check_mining_marker
check_mining_marker-IsMiningMarker txn h = elim (Result-cases (parse txn.arbitrary_data)) [
  | inr (inl (x, e)) ↦ ground (arith, e)
  | inr (inr e) ↦ ground (arith, e)
  | inl (env, e) ↦ record {
    envelope = env;
    parsed = e;
    kind = ground (arith, e);
    no_keys = length-zero env.keys (ground (arith, e));
    no_witness = ground (arith, e);
    idle = ground (arith, e);
  }
]

module _ (c : Crypto) where
  -- The coinbase marker of a payout: it names one pair of keys, whose address is paid.
  pub record IsMarker (txn : V2Transaction) (payout : ℕ) : Type 0 where
    pub envelope : Envelope
    pub parsed : parse txn.arbitrary_data ≡ ok envelope
    pub kind : envelope.kind ≡ coinbase
    pub keys : QdayKeys
    pub only : envelope.keys ≡ keys ∷ []
    pub paid : address c (keys_policy keys) ≡ payout
    pub idle : is_idle txn ≡ true

  -- The only transactions and the only payout of a block with markers.
  pub record IsMarked (b : Block) (txn : V2Transaction) (rest : List V2Transaction) (payout : ℕ)
      : Type 0 where
    pub data_of : V2BlockData
    pub v2 : b.v2 ≡ some data_of
    pub first : data_of.transactions ≡ txn ∷ rest
    pub no_v1 : b.transactions ≡ []
    pub output : SiacoinOutput
    pub only_payout : b.miner_payouts ≡ output ∷ []
    pub pays : output.address ≡ payout

  first_and_payout-IsMarked :
      (b : Block) (txn : V2Transaction) (rest : List V2Transaction) (payout : ℕ)
      → first_and_payout c b ≡ some (txn, rest, payout)
      → IsMarked b txn rest payout
  unfolding first_and_payout
  first_and_payout-IsMarked b txn rest payout e = elim (Option-cases b.v2) [
    | inl n ↦ ground (arith, e, n)
    | inr (d, n) ↦ elim (List-cases d.transactions) [
      | inl m ↦ ground (arith, e, n, m)
      | inr (t, ts, m) ↦ elim (List-cases b.miner_payouts) [
        | inl o ↦ ground (arith, e, n, m, o)
        | inr (mp, more, o) ↦
            (let alone : ((length b.transactions != 0) || (length more != 0)) ≡ false =
                ground (arith, e, n, m, o) in
              let same : ◌≡◌ {A = V2Transaction × List V2Transaction × ℕ} (t, ts, mp.address)
                  (txn, rest, payout) =
                some-inj (ground (arith, e, n, m, o, alone)) in
              record {
                data_of = d;
                v2 = n;
                first = m ∙ ap (λ x. x.0 ∷ x.1) same;
                no_v1 = length-zero b.transactions (ground (arith, alone));
                output = mp;
                only_payout = o ∙ ap (λ l. mp ∷ l) (length-zero more (ground (arith, alone)));
                pays = ap (λ x. x.2) same;
              })
      ]
    ]
  ]

  check_coinbase_marker-IsMarker :
      (txn : V2Transaction) (payout : ℕ)
      → check_coinbase_marker c txn payout ≡ ok tt
      → IsMarker txn payout
  unfolding check_coinbase_marker
  check_coinbase_marker-IsMarker txn payout h = elim (Result-cases (parse txn.arbitrary_data)) [
    | inr (inl (x, e)) ↦ ground (arith, e)
    | inr (inr e) ↦ ground (arith, e)
    | inl (env, e) ↦ elim (List-cases env.keys) [
      | inl n ↦ ground (arith, e, n)
      | inr (k, ks, n) ↦ record {
        envelope = env;
        parsed = e;
        kind = ground (arith, e, n);
        keys = k;
        only = n ∙ ap (λ t. k ∷ t) (length-zero ks (ground (arith, e, n)));
        paid = ground (arith, e, n);
        idle = ground (arith, e, n);
      }
    ]
  ]

  -- A block that passes has only transactions of the second version. The first of them moves nothing
  -- and its coinbase envelope names one pair of keys, and the block has a single payout, which goes
  -- to the address of the policy of those keys. From the upgrade on there is a transaction behind
  -- it, and the last one moves nothing and carries an envelope of mining work without keys and
  -- witness.
  pub validate_qday_block_markers-IsMarker :
      (s : State) (b : Block)
      → validate_qday_block_markers c s b ≡ ok tt
      → (txn : V2Transaction) × (rest : List V2Transaction) × (payout : ℕ) × IsMarked b txn rest
          payout
        × IsMarker txn payout
        × ((qday_v1_active s (child_height s) ≡ false)
            ⊎ ((1 ≤ length rest) × IsMiningMarker (last_of txn rest)))
  unfolding validate_qday_block_markers
  validate_qday_block_markers-IsMarker s b h = elim (Option-cases (first_and_payout c b)) [
    | inl n ↦ ground (arith, n)
    | inr ((txn, rest, payout), n) ↦ (
      txn,
      rest,
      payout,
      first_and_payout-IsMarked b txn rest payout n,
      check_coinbase_marker-IsMarker txn payout (ground (arith, n)),
      mining txn rest payout n,
    )
  ]
    where
      mining :
          (txn : V2Transaction) (rest : List V2Transaction) (payout : ℕ)
          → first_and_payout c b ≡ some (txn, rest, payout)
          → (qday_v1_active s (child_height s) ≡ false)
            ⊎ ((1 ≤ length rest) × IsMiningMarker (last_of txn rest))
      mining txn rest payout n = elim (Bool-cases (qday_v1_active s (child_height s))) [
        | inr off ↦ inl off
        | inl on ↦ inr (
          ground (arith, n),
          check_mining_marker-IsMiningMarker (last_of txn rest) (ground (arith, n)),
        )
      ]

-- The payload with its nonce cleared.
cleared :
    (start nonce rest : Bytes)
    → length start ≡ 6
    → length nonce ≡ 8
    → clear_nonce (start ++ (nonce ++ rest)) ≡ start ++ (0 ∷ 0 ∷ 0 ∷ 0 ∷ 0 ∷ 0 ∷ 0 ∷ 0 ∷ []) ++ rest
unfolding clear_nonce
cleared start nonce rest six eight =
    let long : leb 14 (length (start ++ (nonce ++ rest))) ≡ true =
      ground (arith, length-append start (nonce ++ rest), length-append nonce rest) in
    let past : drop 14 (start ++ (nonce ++ rest)) ≡ rest =
      sym (drop-drop 8 6 (start ++ (nonce ++ rest)))
      ∙ ap (drop 8) (drop-append_exact start (nonce ++ rest) 6 six)
      ∙ drop-append_exact nonce rest 8 eight in
    cc (long, take-append_exact start (nonce ++ rest) 6 six, past)

-- The intent that the work of a transaction is for is the same for every nonce of an envelope.
pub work_intent-nonce :
    (o : Oracle) (p : QdayParams) (txn : V2Transaction) (e : Envelope) (n : ℕ)
    → work_intent o p (record txn { arbitrary_data = encode e })
      ≡ work_intent o p (record txn { arbitrary_data = encode (record e { nonce = n }) })
unfolding work_intent
work_intent-nonce o p txn e n =
    let start = prefix ++ (e.kind ∷ []) in
    let rest =
      le_bytes 2 (length e.keys % 2 ^ 16)
      ++ (all_key_bytes e.keys ++ witness_bytes e.kind e.witness) in
    let one = cleared start (le_bytes 8 e.nonce) rest refl (length-le_bytes 8 e.nonce) in
    let other = cleared start (le_bytes 8 n) rest refl (length-le_bytes 8 n) in
    let same : clear_nonce (encode e) ≡ clear_nonce (encode (record e { nonce = n })) =
      ap clear_nonce (encode-tail e)
      ∙ one
      ∙ sym other
      ∙ sym (ap clear_nonce (encode-tail (record e { nonce = n }))) in
    ap (λ b. o.intent_hash p.domain (o.transaction_id (record txn { arbitrary_data = b }))) same
