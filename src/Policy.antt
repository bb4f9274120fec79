-- ===== src/Policy.antt =====
-- core/types/policy.go: spend policies, their addresses and their verification; the keys of
-- core/types/qday.go. Hash256, [32]byte, PublicKey and Address are numbers, as is a signature.
pub mod Crypto
pub mod Verify
pub mod Native
pub mod Swap
pub mod Hybrid
pub mod Sample
mod Examples
use qday.Base.{ℕ, suc, Bool, true, false, List, ◌==◌}
use qday.Base.Int.{ℤ}
use qday.Base.Bytes.{Bytes}

pub record UnlockKey : Type 0 where
  pub algorithm : ℕ
  pub key : Bytes

pub record UnlockConditions : Type 0 where
  pub timelock : ℕ
  pub public_keys : List UnlockKey
  pub signatures_required : ℕ

mutual
  pub data Policy : Type 0 where
    above : ℕ → Policy
    after : ℤ → Policy
    public_key : ℕ → Policy
    slhdsa : ℕ → Policy
    hash : ℕ → Policy
    threshold : ℕ → Policies → Policy
    opaque : ℕ → Policy
    unlock_conditions : UnlockConditions → Policy

  -- `[]SpendPolicy`
  pub data Policies : Type 0 where
    nil : Policies
    cons : Policy → Policies → Policies

pub record SatisfiedPolicy : Type 0 where
  pub policy : Policy
  pub signatures : List ℕ
  pub preimages : List ℕ

abbrev pub count : Policies → ℕ
count nil = 0
count (cons p ps) = suc (count ps)

abbrev pub anyone_can_spend : Policy
anyone_can_spend = threshold 0 nil

-- `QdayKeys`: the Ed25519 key and the SLH-DSA key.
pub record QdayKeys : Type 0 where
  pub classical : ℕ
  pub reserve : ℕ

unfoldable pub keys_policy : QdayKeys → Policy
keys_policy k = threshold 2 (cons (public_key k.classical) (cons (slhdsa k.reserve) nil))

-- `QdayKeys.Validate` succeeds.
unfoldable pub keys_valid : QdayKeys → Bool
keys_valid k = elim (k.classical == 0) [
  | true ↦ false
  | false ↦ elim (k.reserve == 0) [ true ↦ false | false ↦ true ]
]

unfoldable pub signature_size : ℕ
signature_size = 7856

-- A signature in chunks of 32 bytes.
unfoldable pub signature_chunks : ℕ
signature_chunks = 246
