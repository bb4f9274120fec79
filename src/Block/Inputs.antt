-- ===== src/Block/Inputs.antt =====
-- core/consensus/validation.go: the inputs of several transactions.
use qday.Base.{ℕ, ◌≡◌, ◌≢◌, sym, ap, ◌∙◌, ◌⊎◌, inl, inr, Bool, none, some, List, [], ◌∷◌, ◌++◌, All}
use qday.Accumulator.{Accumulator}
use qday.Policy.Crypto.{Crypto}
use qday.Ledger.{MidState}
use qday.Types.{SiacoinElement, V2SiacoinInput, V2Transaction}
use qday.Validation.Spends.{Distinct, IsSpend}

-- The inputs of all transactions.
unfoldable pub all_inputs : List V2Transaction → List V2SiacoinInput
all_inputs [] = []
all_inputs (t ∷ ts) = t.siacoin_inputs ++ all_inputs ts

module _ {A : Type 0} (P : A → Type 0) where
  pub All-append : (xs ys : List A) → All P xs → All P ys → All P (xs ++ ys)
  All-append [] ys a b = b
  All-append (x ∷ xs) ys (p, a) b = (p, All-append xs ys a b)

pub Distinct-append :
    (xs ys : List V2SiacoinInput)
    → Distinct xs
    → Distinct ys
    → All (λ x. All (λ y. y.parent.id ≢ x.parent.id) ys) xs
    → Distinct (xs ++ ys)
Distinct-append [] ys d e c = e
Distinct-append (x ∷ xs) ys (f, d) e (g, c) =
    (All-append (λ y. y.parent.id ≢ x.parent.id) xs ys f g, Distinct-append xs ys d e c)

-- What the map of the spent outputs says of inputs.
abbrev pub Unspent : MidState → List V2SiacoinInput → Type 0
Unspent ms is = All (λ i. ms.spends i.parent.id ≡ none) is

abbrev pub SpentBy : MidState → ℕ → List V2SiacoinInput → Type 0
SpentBy ms txid is = All (λ i. ms.spends i.parent.id ≡ some txid) is

-- Outputs that are spent in a state are others than those that are not.
pub crossing :
    (ms : MidState) (txid : ℕ) (xs ys : List V2SiacoinInput)
    → SpentBy ms txid xs
    → Unspent ms ys
    → All (λ x. All (λ y. y.parent.id ≢ x.parent.id) ys) xs
crossing ms txid [] ys s u = tt
crossing ms txid (x ∷ xs) ys (s, ss) u = (one ys u, crossing ms txid xs ys ss u)
  where
    one :
        (ys : List V2SiacoinInput)
        → All (λ i. ms.spends i.parent.id ≡ none) ys
        → All (λ y. y.parent.id ≢ x.parent.id) ys
    one [] u = tt
    one (y ∷ ys) (n, u) = ((λ e. cc (s, n, ap ms.spends e)), one ys u)

pub earlier :
    (txid : ℕ) (a b : MidState) (is : List V2SiacoinInput)
    → ((k : ℕ) → (b.spends k ≡ a.spends k) ⊎ (b.spends k ≡ some txid))
    → Unspent b is
    → Unspent a is
earlier txid a b [] g u = tt
earlier txid a b (i ∷ is) g (n, u) = (
  (elim (g i.parent.id) [ inl same ↦ sym same ∙ n | inr spent ↦ absurd (cc (spent, n)) ]),
  earlier txid a b is g u,
)

pub IsSpend-Unspent :
    (c : Crypto) (u s : Accumulator → SiacoinElement → Bool) (h : ℕ) (ms : MidState)
    (is : List V2SiacoinInput)
    → All (IsSpend c u s ms h) is
    → Unspent ms is
IsSpend-Unspent c u s h ms [] a = tt
IsSpend-Unspent c u s h ms (i ∷ is) (p, a) = (p.unspent, IsSpend-Unspent c u s h ms is a)
