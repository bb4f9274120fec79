-- ===== src/Block/Spends.antt =====
-- core/consensus/validation.go: what a block that ValidateBlock accepts on a QDAY network spends.
use qday.Base.{
  ℕ, ◌+◌, ◌<◌, ◌≡◌, refl, sym, ap, ◌∙◌, subst, ◌⊎◌, inl, inr, true, false, none, some, List, [],
  ◌∷◌, ltb, if◌then◌else◌, arith, All, Bool-cases,
}
use qday.Base.Results.{ok, ◌>>=◌, or_panic, wrap, >>=-eq-ok, >>-eq-ok, wrap-eq-ok}
use qday.Block.{
  Roots, transaction_error, marker_error, validate_orphan, validate_supplement, check_commitment,
  v2_transactions, is_marker, validate_transactions, validate_markers, validate_block,
}
use qday.Ledger.{MidState, new_mid_state}
use qday.Ledger.Apply.{Ids, apply_v2_transaction, note_proof}
use qday.Ledger.Diffs.{IsLedger}
use qday.Ledger.Transfer.{apply_v2_transaction-Grown}
use qday.Qday.Markers.{validate_qday_block_markers-IsMarker}
use qday.Qday.Transaction.{is_unsupported, validate_qday_block_markers}
use qday.State.{State, QdayParams, child_height}
use qday.Types.{V2Transaction, Block}
use qday.Validation.{is_some}
use qday.Validation.Spends.{Distinct, IsHybrid}
use qday.Validation.Whole.{Rules, validate_v2_transaction}
use qday.Block.Inputs.{all_inputs, All-append, Distinct-append, crossing, earlier}
use qday.Block.Markers.{Marked, rest-Marked, first-transactions}
use qday.Block.Sound.{IsSound, idle-IsSound, valid-IsSound}

-- The transactions of a block, in a state that they start from.
module _ (rules : Rules) (ids : Ids) (r : Roots) (p : QdayParams) where
  pub record IsAccepted (s : State) (ms after : MidState) (ts : List V2Transaction) : Type 0 where
    pub plain : All (λ t. is_unsupported t ≡ false) ts
    pub distinct : Distinct (all_inputs ts)
    pub unspent : All (λ i. ms.spends i.parent.id ≡ none) (all_inputs ts)
    pub hybrid :
        All (λ t. All (IsHybrid rules.crypto (rules.input_sig_hash s t)) t.siacoin_inputs) ts

  pub validate_transactions-IsAccepted :
      (i : ℕ) (ts : List V2Transaction) (ms after : MidState)
      → ms.base.network.qday ≡ some p
      → IsLedger ms
      → Marked ms.base i ts
      → validate_transactions rules ids r i ts ms ≡ ok after
      → IsAccepted ms.base ms after ts
  unfolding validate_transactions all_inputs note_proof
  validate_transactions-IsAccepted i [] ms after here l m v = record {
    plain = tt;
    distinct = tt;
    unspent = tt;
    hybrid = tt;
  }
  validate_transactions-IsAccepted i (t ∷ ts) ms after here l (m, marked) v =
      let (first, rest) =
        >>-eq-ok
          (if is_marker ms.base i ts
            then ok tt
            else wrap transaction_error (validate_v2_transaction rules ms t))
          (or_panic (apply_v2_transaction ids t ms)
            >>= validate_transactions rules ids r (i + 1) ts)
          v in
      let sound : IsSound rules p ms t = elim (Bool-cases (is_marker ms.base i ts)) [
        | inl marker ↦ idle-IsSound rules p ms t (m marker)
        | inr other ↦
            valid-IsSound rules p ms t here (
              wrap-eq-ok transaction_error (validate_v2_transaction rules ms t) (rw other at first))
      ] in
      let (mid, e, g, spent, _) = apply_v2_transaction-Grown ids t ms l sound.plain in
      let base : mid.base ≡ ms.base = g.base in
      let txid = ids.transaction t in
      let grows : (k : ℕ) → (mid.spends k ≡ ms.spends k) ⊎ (mid.spends k ≡ some txid) = g.spends in
      let next : validate_transactions rules ids r (i + 1) ts mid ≡ ok after = rw e at rest in
      let others =
        validate_transactions-IsAccepted (i + 1) ts mid after (ap (λ b. b.network.qday) base ∙ here)
          g.ledger (subst (λ b. Marked b (i + 1) ts) (sym base) marked) next in
      record {
        plain = (sound.plain, others.plain);
        distinct =
            Distinct-append t.siacoin_inputs (all_inputs ts) sound.distinct others.distinct
              (crossing mid txid t.siacoin_inputs (all_inputs ts) spent others.unspent);
        unspent =
            All-append (λ i. ms.spends i.parent.id ≡ none) t.siacoin_inputs (all_inputs ts)
              sound.unspent (earlier txid ms mid (all_inputs ts) grows others.unspent);
        hybrid = (
          sound.hybrid,
          subst
              (λ b.
                All (λ t. All (IsHybrid rules.crypto (rules.input_sig_hash b t)) t.siacoin_inputs)
                  ts)
              base others.hybrid,
        );
      }

  -- The markers of a block that passes are where the rules expect them.
  markers-Marked :
      (s : State) (b : Block)
      → s.network.qday ≡ some p
      → 0 < child_height s
      → validate_markers rules ids r s b ≡ ok tt
      → Marked s 0 (v2_transactions b)
  unfolding validate_markers
  markers-Marked s b here later v =
      let is_qday : is_some s.network.qday ≡ true = rw here (unfold is_some in refl) in
      let above : ltb 0 (child_height s) ≡ true = ground (arith, later) in
      let passed =
        wrap-eq-ok marker_error (validate_qday_block_markers rules.crypto s b)
          (rw (is_qday, above) at v) in
      let (t, ts, payout, e, marker, mining) =
        validate_qday_block_markers-IsMarker rules.crypto s b passed in
      subst (Marked s 0) (sym (first-transactions b e.data_of t ts e.v2 e.first)) (
        (λ m. marker.idle),
        rest-Marked s t ts (elim mining [ inl off ↦ inl off | inr (n, last) ↦ inr last.idle ]),
      )

  -- In a block that ValidateBlock accepts on a QDAY network after the genesis block, all
  -- transactions only move coins, no two inputs spend the same output, even in different
  -- transactions, and every input carries both signatures, valid for the hash of its transaction.
  pub validate_block-IsAccepted :
      (s : State) (b : Block)
      → s.network.qday ≡ some p
      → 0 < child_height s
      → validate_block rules ids r s b ≡ ok tt
      → (after : MidState) × IsAccepted s (new_mid_state s) after (v2_transactions b)
  unfolding validate_block new_mid_state
  validate_block-IsAccepted s b here later v =
      let (markers, v₁) = >>-eq-ok (validate_markers rules ids r s b) _ v in
      let (_, v₂) = >>-eq-ok (validate_orphan rules ids r s b) _ v₁ in
      let (_, v₃) = >>-eq-ok (validate_supplement rules ids r b) _ v₂ in
      let (_, v₄) = >>-eq-ok (check_commitment rules ids r s b) _ v₃ in
      let (after, e, _) =
        >>=-eq-ok (validate_transactions rules ids r 0 (v2_transactions b) (new_mid_state s)) _
          v₄ in
      (
        after,
        validate_transactions-IsAccepted 0 (v2_transactions b) (new_mid_state s) after here
            (λ id i e. cc) (markers-Marked s b here later markers) e,
      )
