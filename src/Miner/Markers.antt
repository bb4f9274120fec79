-- ===== src/Miner/Markers.antt =====
-- coreutils/qday/miner.go: the markers of a candidate pass.
use qday.Base.{
  ℕ, ◌<◌, ◌^◌, ◌≡◌, refl, ap, inl, inr, Bool, true, false, ◌||◌, not, some, List, [], ◌∷◌, ◌++◌,
  ◌==◌, ==_iff, if◌then◌else◌, length, length-append, arith, Bool-cases,
}
use qday.Base.Results.{ok, err}
use qday.Currency.{is_zero}
use qday.Ledger.{MidState}
use qday.Ledger.Apply.{Ids, each, is_proof, note_proof, update_foundation, apply_v2_transaction}
use qday.Miner.{marker, coinbase_marker, work_marker, closing}
use qday.Policy.{QdayKeys, keys_policy}
use qday.Policy.Verify.{address}
use qday.Qday.Envelope.{Envelope, parse, coinbase, mining_work}
use qday.Policy.Crypto.{Crypto}
use qday.Qday.RoundTrip.{IsEnvelope, IsKeys, parse-encode}
use qday.Qday.Transaction.{
  is_unsupported, is_idle, last_of, check_coinbase_marker, check_mining_marker, missing_mining,
}
use qday.State.{State, QdayParams, child_height, qday_v1_active}
use qday.Types.{V2Transaction}

pub marker-unsupported : (e : Envelope) → is_unsupported (marker e) ≡ false
unfolding marker is_unsupported
marker-unsupported e = refl

pub marker-idle : (e : Envelope) → is_idle (marker e) ≡ true
unfolding marker is_idle is_unsupported is_zero
marker-idle e = refl

pub coinbase-IsEnvelope :
    (miner : QdayKeys) (nonce : ℕ)
    → IsKeys miner
    → nonce < 2 ^ 64
    → IsEnvelope (record { kind = coinbase; nonce = nonce; keys = miner ∷ []; witness = 0 })
coinbase-IsEnvelope miner nonce k h = record {
  kind_low = omega arith;
  kind_high = omega arith;
  nonce = h;
  few = omega arith;
  keys = (k, tt);
  witness = omega arith;
  no_witness = inr refl;
}

pub work-IsEnvelope :
    (nonce : ℕ)
    → nonce < 2 ^ 64
    → IsEnvelope (record { kind = mining_work; nonce = nonce; keys = []; witness = 0 })
work-IsEnvelope nonce h = record {
  kind_low = omega arith;
  kind_high = omega arith;
  nonce = h;
  few = omega arith;
  keys = tt;
  witness = omega arith;
  no_witness = inr refl;
}

pub last_of-append :
    (t w : V2Transaction) (xs : List V2Transaction) → last_of t (xs ++ (w ∷ [])) ≡ w
unfolding last_of
last_of-append t w [] = refl
last_of-append t w (x ∷ xs) = last_of-append x w xs

pub parse-marker : (e : Envelope) → IsEnvelope e → parse (marker e).arbitrary_data ≡ ok e
unfolding marker
parse-marker e i = parse-encode e i

pub accepts_coinbase :
    (c : Crypto) (t : V2Transaction) (miner : QdayKeys) (nonce : ℕ)
    → parse t.arbitrary_data
      ≡ ok (record { kind = coinbase; nonce = nonce; keys = miner ∷ []; witness = 0 })
    → is_idle t ≡ true
    → check_coinbase_marker c t (address c (keys_policy miner)) ≡ ok tt
unfolding check_coinbase_marker
accepts_coinbase c t miner nonce parsed idle =
    let payee = address c (keys_policy miner) in
    let paid : (payee == payee) ≡ true = (==_iff payee payee).1 refl in cc (parsed, paid, idle)

pub accepts_work :
    (t : V2Transaction) (nonce : ℕ)
    → parse t.arbitrary_data
      ≡ ok (record { kind = mining_work; nonce = nonce; keys = []; witness = 0 })
    → is_idle t ≡ true
    → check_mining_marker t ≡ ok tt
unfolding check_mining_marker
accepts_work t nonce parsed idle = cc (parsed, idle)

pub coinbase_accepted :
    (c : Crypto) (miner : QdayKeys) (nonce : ℕ)
    → IsKeys miner
    → nonce < 2 ^ 64
    → check_coinbase_marker c (coinbase_marker miner nonce) (address c (keys_policy miner)) ≡ ok tt
unfolding coinbase_marker
coinbase_accepted c miner nonce k h =
    accepts_coinbase c (coinbase_marker miner nonce) miner nonce
      (parse-marker (record { kind = coinbase; nonce = nonce; keys = miner ∷ []; witness = 0 })
        (coinbase-IsEnvelope miner nonce k h))
      (marker-idle (record { kind = coinbase; nonce = nonce; keys = miner ∷ []; witness = 0 }))

pub work_accepted : (nonce : ℕ) → nonce < 2 ^ 64 → check_mining_marker (work_marker nonce) ≡ ok tt
unfolding work_marker
work_accepted nonce h =
    accepts_work (work_marker nonce) nonce
      (parse-marker (record { kind = mining_work; nonce = nonce; keys = []; witness = 0 })
        (work-IsEnvelope nonce h))
      (marker-idle (record { kind = mining_work; nonce = nonce; keys = []; witness = 0 }))

-- The marker of the payout changes nothing, as it is no proof of the canary.
pub coinbase-unchanged :
    (ids : Ids) (s : State) (p : QdayParams) (miner : QdayKeys) (nonce : ℕ)
    → s.network.qday ≡ some p
    → IsKeys miner
    → nonce < 2 ^ 64
    → is_proof s (coinbase_marker miner nonce) ≡ false
unfolding is_proof coinbase_marker
coinbase-unchanged ids s p miner nonce here k h =
    let parsed =
      parse-marker (record { kind = coinbase; nonce = nonce; keys = miner ∷ []; witness = 0 })
        (coinbase-IsEnvelope miner nonce k h) in
    cc (here, parsed)

pub unproved-unchanged :
    (ids : Ids) (e : Envelope) (ms : MidState)
    → is_proof ms.base (marker e) ≡ false
    → apply_v2_transaction ids (marker e) ms ≡ some ms
unfolding apply_v2_transaction note_proof update_foundation each marker
unproved-unchanged ids e ms no_proof =
    ap (λ (q : Bool). some (record ms { qday_proved = q || ms.qday_proved })) no_proof

-- The last marker is there if the rules want it.
pub closing_accepted :
    (s : State) (first : V2Transaction) (picked : List V2Transaction) (nonce : ℕ)
    → nonce < 2 ^ 64
    → (if not (qday_v1_active s (child_height s))
        then ok tt
        else if length (picked ++ closing s nonce) == 0
        then err missing_mining
        else check_mining_marker (last_of first (picked ++ closing s nonce)))
      ≡ ok tt
unfolding closing child_height
closing_accepted s first picked nonce h = elim (Bool-cases (qday_v1_active s (child_height s))) [
  | inr off ↦ rw off refl
  | inl on ↦
      (let some_rest : (length (picked ++ (work_marker nonce ∷ [])) == 0) ≡ false =
          ground (arith, length-append picked (work_marker nonce ∷ [])) in
        rw (on, some_rest, last_of-append first (work_marker nonce) picked) (work_accepted nonce h))
]
