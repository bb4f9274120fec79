-- ===== src/Block/Markers.antt =====
-- core/consensus/validation.go: where the markers of a block stand.
use qday.Base.{
  ℕ, ◌+◌, ◌≡◌, ◌≢◌, ◌⊎◌, inl, inr, true, false, some, List, [], ◌∷◌, length-zero, arith,
}
use qday.Block.{v2_transactions, is_marker}
use qday.Qday.Transaction.{is_unsupported, is_idle, last_of}
use qday.State.{State, child_height, qday_v1_active}
use qday.Types.{V2Transaction, V2BlockData, Block}

pub idle_parts :
    (t : V2Transaction) → is_idle t ≡ true → (t.siacoin_inputs ≡ []) × (is_unsupported t ≡ false)
unfolding is_idle
idle_parts t e = (length-zero t.siacoin_inputs (ground (arith, e)), ground (arith, e))

-- The transactions at the places of the markers move nothing.
abbrev pub Marked : State → ℕ → List V2Transaction → Type 0
Marked s i [] = Unit
Marked s i (t ∷ ts) = (is_marker s i ts ≡ true → is_idle t ≡ true) × Marked s (i + 1) ts

pub last-Marked :
    (s : State) (i : ℕ) (t : V2Transaction) (ts : List V2Transaction)
    → i ≢ 0
    → ((qday_v1_active s (child_height s) ≡ false) ⊎ (is_idle (last_of t ts) ≡ true))
    → Marked s i (t ∷ ts)
unfolding is_marker last_of
last-Marked s i t [] later (inl off) = ((λ m. ground (arith, m, off, later)), tt)
last-Marked s i t [] later (inr idle) = ((λ m. idle), tt)
last-Marked s i t (u ∷ us) later last =
    ((λ m. ground (arith, m, later)), last-Marked s (i + 1) u us (omega arith) last)

pub rest-Marked :
    (s : State) (t : V2Transaction) (ts : List V2Transaction)
    → ((qday_v1_active s (child_height s) ≡ false) ⊎ (is_idle (last_of t ts) ≡ true))
    → Marked s (0 + 1) ts
unfolding last_of
rest-Marked s t [] last = tt
rest-Marked s t (u ∷ us) last = last-Marked s 1 u us (omega arith) last

pub first-transactions :
    (b : Block) (d : V2BlockData) (t : V2Transaction) (ts : List V2Transaction)
    → b.v2 ≡ some d
    → d.transactions ≡ t ∷ ts
    → v2_transactions b ≡ t ∷ ts
unfolding v2_transactions
first-transactions b d t ts n m = ground (arith, n, m)
