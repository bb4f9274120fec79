-- ===== src/Syncer/Budget.antt =====
-- coreutils/syncer/relay_budget.go: the budget counts the payloads that are held, and bounds them.
use qday.Base.{
  ℕ, suc, ◌+◌, ◌≤◌, ◌<◌, ◌≡◌, ◌≢◌, refl, sym, ap, ◌∙◌, subst, true, false, ◌||◌, List, [], ◌∷◌,
  ◌==◌, if◌then◌else◌, length, arith, Bool-cases, inl, inr,
}
use qday.Base.Int.{ℤ, pos, leb_ℤ, ◌+ℤ◌, ◌-ℤ◌}
use qday.Syncer.{
  RelayPayloadBudget, max_relay_payloads, max_peer_relay_payloads, update, acquire, release,
}

-- How many payloads a peer holds.
unfoldable pub held : ℕ → List ℕ → ℕ
held p [] = 0
held p (q ∷ qs) = (if p == q then 1 else 0) + held p qs

-- The holders without one payload of a peer.
unfoldable pub without : ℕ → List ℕ → List ℕ
without p [] = []
without p (q ∷ qs) = if p == q then qs else q ∷ without p qs

-- The budgets that are reached with these payloads held: only a holder releases, and once.
pub data Reached : RelayPayloadBudget → List ℕ → Type 0 where
  start : Reached (record { active = pos 0; peers = λ p. pos 0 }) []
  taken :
      {b after : RelayPayloadBudget} {holders : List ℕ} (p : ℕ)
      → Reached b holders
      → acquire b p ≡ (after, true)
      → Reached after (p ∷ holders)
  given :
      {b : RelayPayloadBudget} {holders : List ℕ} (p : ℕ)
      → Reached b holders
      → 0 < held p holders
      → Reached (release b p) (without p holders)

pub record IsBudget (b : RelayPayloadBudget) (holders : List ℕ) : Type 0 where
  pub active : b.active ≡ pos (length holders)
  pub peers : (p : ℕ) → b.peers p ≡ pos (held p holders)
  pub few : length holders ≤ max_relay_payloads
  pub few_each : (p : ℕ) → held p holders ≤ max_peer_relay_payloads

length-without : (p : ℕ) (qs : List ℕ) → 0 < held p qs → length (without p qs) + 1 ≡ length qs
unfolding held without
length-without p [] h = absurd (omega (arith, h))
length-without p (q ∷ qs) h = elim (Bool-cases (p == q)) [
  | inl same ↦ ground (arith, same)
  | inr other ↦ ground (arith, other, length-without p qs (ground (arith, other, h)))
]

held-without_same : (p : ℕ) (qs : List ℕ) → 0 < held p qs → held p (without p qs) + 1 ≡ held p qs
unfolding held without
held-without_same p [] h = absurd (omega (arith, h))
held-without_same p (q ∷ qs) h = elim (Bool-cases (p == q)) [
  | inl same ↦ ground (arith, same)
  | inr other ↦ ground (arith, other, held-without_same p qs (ground (arith, other, h)))
]

held-without_other : (p r : ℕ) (qs : List ℕ) → r ≢ p → held r (without p qs) ≡ held r qs
unfolding held without
held-without_other p r [] h = refl
held-without_other p r (q ∷ qs) h = elim (Bool-cases (p == q)) [
  | inl same ↦ ground (arith, same, h)
  | inr other ↦ ground (arith, other, held-without_other p r qs h)
]

plus_one : (n m : ℕ) → n + 1 ≡ m → pos n +ℤ pos 1 ≡ pos m
unfolding ◌+ℤ◌
plus_one n m e = ground (arith, e)

minus_one : (n m : ℕ) → m + 1 ≡ n → pos n -ℤ pos 1 ≡ pos m
unfolding ◌-ℤ◌
minus_one n m e = ground (arith, e)

taken-IsBudget :
    (b : RelayPayloadBudget) (p : ℕ) (holders : List ℕ)
    → IsBudget b holders
    → (leb_ℤ (pos max_relay_payloads) b.active || leb_ℤ (pos max_peer_relay_payloads) (b.peers p))
      ≡ false
    → IsBudget
        (record { active = b.active +ℤ pos 1; peers = update b.peers p (b.peers p +ℤ pos 1) })
        (p ∷ holders)
unfolding update held
taken-IsBudget b p holders i free =
    let total : (leb_ℤ (pos max_relay_payloads) (pos (length holders))
          || leb_ℤ (pos max_peer_relay_payloads) (pos (held p holders)))
        ≡ false =
      cc (i.active, i.peers p, free) in
    record {
      active =
          ap (λ (a : ℤ). a +ℤ pos 1) i.active
          ∙ plus_one (length holders) (suc (length holders)) (omega arith);
      peers = λ q. elim (Bool-cases (q == p)) [
        | inr other ↦ rw other (i.peers q ∙ ap pos (omega arith))
        | inl same ↦
            (let eq : q ≡ p = ground (arith, same) in
              rw same (
                ap (λ (a : ℤ). a +ℤ pos 1) (i.peers p)
                ∙ plus_one (held p holders) (1 + held q holders)
                    (omega (arith, ap (λ (k : ℕ). held k holders) eq))))
      ];
      few = ground (arith, total);
      few_each = λ q. elim (Bool-cases (q == p)) [
        | inr other ↦ ground (arith, other, i.few_each q)
        | inl same ↦
            (let eq : held q holders ≡ held p holders =
                ap (λ (k : ℕ). held k holders) (ground (arith, same)) in
              ground (arith, same, eq, total))
      ];
    }

given-IsBudget :
    (b : RelayPayloadBudget) (p : ℕ) (holders : List ℕ)
    → IsBudget b holders
    → 0 < held p holders
    → IsBudget (release b p) (without p holders)
unfolding release update
given-IsBudget b p holders i holds = record {
  active =
      ap (λ (a : ℤ). a -ℤ pos 1) i.active
      ∙ minus_one (length holders) (length (without p holders)) (length-without p holders holds);
  peers = λ q. elim (Bool-cases (q == p)) [
    | inr other ↦
        rw other (i.peers q ∙ ap pos (sym (held-without_other p q holders (ground (arith, other)))))
    | inl same ↦
        (let eq : p ≡ q = ground (arith, same) in
          rw same (
            ap (λ (a : ℤ). a -ℤ pos 1) (i.peers p)
            ∙ minus_one (held p holders) (held p (without p holders))
                (held-without_same p holders holds)
            ∙ ap (λ (k : ℕ). pos (held k (without p holders))) eq))
  ];
  few = omega (arith, i.few, length-without p holders holds);
  few_each = λ q. elim (Bool-cases (q == p)) [
    | inr other ↦
        omega (arith, i.few_each q, held-without_other p q holders (ground (arith, other)))
    | inl same ↦
        (let eq : held q (without p holders) ≡ held p (without p holders) =
            ap (λ (k : ℕ). held k (without p holders)) (ground (arith, same)) in
          omega (arith, eq, i.few_each p, held-without_same p holders holds))
  ];
}

-- However payloads are taken and given back by their holders, the budget counts exactly those that
-- are held, of which there are at most 8 in all and at most 2 of each peer.
pub Reached-IsBudget :
    {b : RelayPayloadBudget} {holders : List ℕ} → Reached b holders → IsBudget b holders
unfolding acquire held
Reached-IsBudget start = record {
  active = refl;
  peers = λ p. refl;
  few = omega arith;
  few_each = λ p. omega arith;
}
Reached-IsBudget (taken {b} {after} {holders} p before e) =
    elim (Bool-cases (
      leb_ℤ (pos max_relay_payloads) b.active || leb_ℤ (pos max_peer_relay_payloads) (b.peers p))) [
        | inl full ↦ absurd (cc (rw full at e))
        | inr free ↦
            subst (λ (c : RelayPayloadBudget). IsBudget c (p ∷ holders))
              (ap (λ x. x.0) (rw free at e))
              (taken-IsBudget b p holders (Reached-IsBudget before) free)
      ]
Reached-IsBudget (given {b} {holders} p before holds) =
    given-IsBudget b p holders (Reached-IsBudget before) holds
