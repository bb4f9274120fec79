-- ===== src/Validation/Members.antt =====
-- core/consensus/validation.go over core/consensus/merkle.go: the inputs that validateV2Siacoins
-- accepts are unspent leaves of the forest.
use qday.Base.{ℕ, ◌≡◌, ◌⊎◌, inl, inr, true, false, List, [], ◌∷◌, some, get_elem?, All}
use qday.Base.Bytes.{Bytes}
use qday.Base.Results.{ok}
use qday.Accumulator.{leaf_hash}
use qday.Accumulator.Elements.{
  ElementHashes, siacoin_leaf, contains_unspent_siacoin_element, contains_spent_siacoin_element,
}
use qday.Accumulator.Members.{Injective, IsForest, contains_leaf_sound}
use qday.Ledger.{MidState}
use qday.Policy.Crypto.{Crypto}
use qday.Types.{SiacoinElement, V2SiacoinInput, V2Transaction}
use qday.Validation.{validate_v2_siacoins}
use qday.Validation.Spends.{IsSpend, IsCreated, validate_v2_siacoins-IsSpend}

module _ (c : Crypto) (sum_pair : ℕ → ℕ → ℕ) (hash_bytes : Bytes → ℕ) (h : ElementHashes) where
  -- An output that the block has created, or an unspent leaf of the forest.
  abbrev pub Stands : MidState → List ℕ → V2SiacoinInput → Type 0
  Stands ms xs i =
      IsCreated ms i.parent
      ⊎ ((k : ℕ) × (get_elem? xs k ≡ some (leaf_hash hash_bytes (siacoin_leaf h i.parent false))))

  input-Stands :
      (ms : MidState) (xs : List ℕ) (e : SiacoinElement)
      → Injective sum_pair
      → IsForest sum_pair ms.base.elements xs
      → contains_unspent_siacoin_element sum_pair hash_bytes h ms.base.elements e ≡ true
      → (k : ℕ) × (get_elem? xs k ≡ some (leaf_hash hash_bytes (siacoin_leaf h e false)))
  unfolding contains_unspent_siacoin_element
  input-Stands ms xs e inj forest found =
      contains_leaf_sound sum_pair hash_bytes ms.base.elements xs (siacoin_leaf h e false) inj
        forest found

  inputs-Stand :
      (ms : MidState) (sig_hash : ℕ) (xs : List ℕ) (is : List V2SiacoinInput)
      → Injective sum_pair
      → IsForest sum_pair ms.base.elements xs
      → All
          (IsSpend c
            (contains_unspent_siacoin_element sum_pair hash_bytes h)
            (contains_spent_siacoin_element sum_pair hash_bytes h)
            ms
            sig_hash)
          is
      → All (Stands ms xs) is
  inputs-Stand ms sig_hash xs [] inj f a = tt
  inputs-Stand ms sig_hash xs (i ∷ is) inj f (s, a) = (
    elim s.known [
      | inl (_, made) ↦ inl made
      | inr found ↦ inr (input-Stands ms xs i.parent inj f found)
    ],
    inputs-Stand ms sig_hash xs is inj f a,
  )

  -- Every input of a transaction that passes the siacoin rules is an output that the block has
  -- created, with the value, address and maturity height of the input from the height on at which
  -- the network asks for them, or an unspent leaf of the list that the accumulator stands for, if
  -- equal hashes of two nodes have equal nodes.
  pub validate_v2_siacoins-Stands :
      (input_sig_hash : V2Transaction → ℕ) (ms : MidState) (xs : List ℕ) (txn : V2Transaction)
      → Injective sum_pair
      → IsForest sum_pair ms.base.elements xs
      → validate_v2_siacoins c
          (contains_unspent_siacoin_element sum_pair hash_bytes h)
          (contains_spent_siacoin_element sum_pair hash_bytes h)
          input_sig_hash
          ms
          txn
        ≡ ok tt
      → All (Stands ms xs) txn.siacoin_inputs
  validate_v2_siacoins-Stands input_sig_hash ms xs txn inj f v =
      let (_, spends) = validate_v2_siacoins-IsSpend c _ _ input_sig_hash ms txn v in
      inputs-Stand ms (input_sig_hash txn) xs txn.siacoin_inputs inj f spends
