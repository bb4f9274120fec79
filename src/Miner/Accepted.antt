-- ===== src/Miner/Accepted.antt =====
-- coreutils/qday/miner.go: the rules of a block accept what a candidate holds.
use qday.Base.{
  ℕ, ◌+◌, ◌%◌, ◌<◌, ◌^◌, ◌≡◌, refl, ap, subst, inl, inr, true, ◌&&◌, some, List, [], ◌∷◌, ◌++◌, ltb,
  ◌==◌, ==_iff, arith, Bool-cases,
}
use qday.Base.Int.{ℤ}
use qday.Base.Options.{>>=-eq-some, some-inj}
use qday.Base.Results.{ok, or_panic, wrap, >>-ok, >>=-ok}
use qday.Base.Words.{u64_mod}
use qday.Wire.Elements.{unix, time_of}
use qday.Block.{
  Roots, marker_error, v2_transactions, is_marker, validate_transactions, validate_orphan,
  validate_supplement, validate_markers, check_commitment, validate_block,
}
use qday.Currency.{Currency}
use qday.Ledger.{MidState, new_mid_state}
use qday.Ledger.Apply.{Ids, apply_v2_transaction}
use qday.Miner.{marker, coinbase_marker, closing, pick, candidate}
use qday.Policy.{QdayKeys, keys_policy}
use qday.Policy.Verify.{address}
use qday.Qday.Envelope.{Envelope, coinbase}
use qday.Qday.RoundTrip.{IsKeys}
use qday.Qday.Transaction.{first_and_payout, validate_qday_block_markers}
use qday.State.{State, QdayParams, child_height, block_reward}
use qday.Types.{V2Transaction, Block}
use qday.Validation.{is_some}
use qday.Validation.Whole.{Rules}
use qday.Miner.Markers.{coinbase_accepted, coinbase-unchanged, unproved-unchanged, closing_accepted}
use qday.Miner.Picked.{pick-valid}

valid_of :
    (rules : Rules) (ids : Ids) (r : Roots) (s : State) (b : Block) (after : MidState)
    → validate_markers rules ids r s b ≡ ok tt
    → validate_orphan rules ids r s b ≡ ok tt
    → validate_supplement rules ids r b ≡ ok tt
    → check_commitment rules ids r s b ≡ ok tt
    → validate_transactions rules ids r 0 (v2_transactions b) (new_mid_state s) ≡ ok after
    → validate_block rules ids r s b ≡ ok tt
unfolding validate_block
valid_of rules ids r s b after markers orphan supplement commitment transactions =
    >>-ok markers
      (>>-ok orphan (>>-ok supplement (>>-ok commitment (>>=-ok (λ ms. ok tt) transactions refl))))

module _ (rules : Rules) (ids : Ids) (r : Roots) (p : QdayParams) where
  -- The block of a candidate, with a nonce.
  abbrev pub assembled : State → QdayKeys → ℤ → ℕ → ℕ → List V2Transaction → Currency → Block
  assembled s miner timestamp marker_nonce nonce picked total =
      let payee = address rules.crypto (keys_policy miner) in
      let all = coinbase_marker miner marker_nonce ∷ (picked ++ closing s marker_nonce) in
      record {
        parent_id = s.index.id;
        nonce = nonce;
        timestamp = timestamp;
        miner_payouts = record { value = total; address = payee } ∷ [];
        transactions = [];
        v2 = some (record {
          height = (s.index.height + 1) % u64_mod;
          commitment = r.commitment s payee [] all;
          transactions = all;
        });
      }

  assembled-markers :
      (s : State) (miner : QdayKeys) (t : ℤ) (marker_nonce nonce : ℕ) (picked : List V2Transaction)
      (total : Currency)
      → IsKeys miner
      → marker_nonce < 2 ^ 64
      → validate_markers rules ids r s (assembled s miner t marker_nonce nonce picked total) ≡ ok tt
  unfolding validate_markers validate_qday_block_markers first_and_payout
  assembled-markers s miner t marker_nonce nonce picked total k h =
      elim (Bool-cases (is_some s.network.qday && ltb 0 (child_height s))) [
        | inr off ↦ rw off refl
        | inl on ↦ rw on (
            ap (wrap marker_error) (
              >>-ok (coinbase_accepted rules.crypto miner marker_nonce k h)
                (closing_accepted s (coinbase_marker miner marker_nonce) picked marker_nonce h)))
      ]

  assembled-transactions :
      (s : State) (miner : QdayKeys) (t : ℤ) (marker_nonce nonce weight : ℕ)
      (txns picked : List V2Transaction) (reward total : Currency)
      → IsKeys miner
      → marker_nonce < 2 ^ 64
      → s.network.qday ≡ some p
      → pick rules ids weight reward (new_mid_state s) txns ≡ some (picked, total)
      → (after : MidState) × (validate_transactions rules ids r 0
            (v2_transactions (assembled s miner t marker_nonce nonce picked total))
            (new_mid_state s)
          ≡ ok after)
  unfolding v2_transactions coinbase_marker validate_transactions is_marker is_some new_mid_state
  assembled-transactions s miner t marker_nonce nonce weight txns picked reward total k h here
        chosen =
      let first : is_marker s 0 (picked ++ closing s marker_nonce) ≡ true = ground (arith, here) in
      let e : Envelope = record {
        kind = coinbase;
        nonce = marker_nonce;
        keys = miner ∷ [];
        witness = 0;
      } in
      let same : apply_v2_transaction ids (marker e) (new_mid_state s) ≡ some (new_mid_state s) =
        unproved-unchanged ids e (new_mid_state s)
          (coinbase-unchanged ids s p miner marker_nonce here k h) in
      let (after, v) =
        pick-valid rules ids r p s marker_nonce 1 weight reward (new_mid_state s) txns picked total
          here (λ id i e. cc) refl (omega arith) chosen in
      (
        after,
        rw first (
            >>=-ok (validate_transactions rules ids r 1 (picked ++ closing s marker_nonce))
              (ap or_panic same) v),
      )

  assembled-commitment :
      (s : State) (miner : QdayKeys) (t : ℤ) (marker_nonce nonce : ℕ) (picked : List V2Transaction)
      (total : Currency)
      → check_commitment rules ids r s (assembled s miner t marker_nonce nonce picked total) ≡ ok tt
  unfolding check_commitment
  assembled-commitment s miner t marker_nonce nonce picked total =
      let x =
        r.commitment s (address rules.crypto (keys_policy miner)) []
          (coinbase_marker miner marker_nonce ∷ (picked ++ closing s marker_nonce)) in
      let same : (x == x) ≡ true = (==_iff x x).1 refl in ground (arith, same)

  -- For valid keys of a miner and a nonce of its markers that fits in 64 bits, the candidate for a
  -- state of a QDAY network, with whatever nonce, passes ValidateBlock as soon as it passes
  -- ValidateOrphan, which checks its weight, payouts, height and header.
  pub candidate-validate_block :
      (s : State) (miner : QdayKeys) (txns : List V2Transaction) (timestamp : ℤ)
      (marker_nonce nonce : ℕ) (b : Block)
      → s.network.qday ≡ some p
      → IsKeys miner
      → marker_nonce < 2 ^ 64
      → candidate rules ids r s miner txns timestamp marker_nonce ≡ some b
      → validate_orphan rules ids r s (record b { nonce = nonce }) ≡ ok tt
      → validate_block rules ids r s (record b { nonce = nonce }) ≡ ok tt
  unfolding candidate validate_supplement
  candidate-validate_block s miner txns timestamp marker_nonce nonce b here k h e orphan =
      let (reward, _, e₁) = >>=-eq-some (block_reward s) _ e in
      let first = coinbase_marker miner marker_nonce in
      let ((picked, total), chosen, made) =
        >>=-eq-some
          (pick rules ids ((rules.v2_weight first + 128) % u64_mod) reward (new_mid_state s) txns) _
          e₁ in
      let whole : (validate_orphan rules ids r s
              (assembled s miner (time_of (unix timestamp)) marker_nonce nonce picked total)
            ≡ ok tt
          → validate_block rules ids r s
              (assembled s miner (time_of (unix timestamp)) marker_nonce nonce picked total)
            ≡ ok tt) =
        λ passes.
          let (after, v) =
            assembled-transactions s miner (time_of (unix timestamp)) marker_nonce nonce _ txns
              picked reward total k h here chosen in
          valid_of rules ids r s
            (assembled s miner (time_of (unix timestamp)) marker_nonce nonce picked total) after
            (assembled-markers s miner (time_of (unix timestamp)) marker_nonce nonce picked total k
              h)
            passes refl
            (assembled-commitment s miner (time_of (unix timestamp)) marker_nonce nonce picked
              total)
            v in
      subst
        (λ (b : Block).
          validate_orphan rules ids r s (record b { nonce = nonce }) ≡ ok tt
          → validate_block rules ids r s (record b { nonce = nonce }) ≡ ok tt)
        (some-inj made) whole orphan
