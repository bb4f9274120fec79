-- ===== src/Policy/Crypto.antt =====
-- What core/types/policy.go and core/types/qday.go take from the cryptography that they call: the
-- hashes and the checks of the two signature schemes, with nothing assumed of them.
use qday.Base.{ℕ, Bool}
use qday.Base.Bytes.{Bytes}
use qday.Policy.{Policy, UnlockConditions}

pub record Crypto : Type 0 where
  -- the hash of "address" and the encoding of a policy
  pub address_hash : Policy → ℕ
  -- `unlockConditionsRoot`
  pub unlock_root : UnlockConditions → ℕ
  -- `PublicKey.VerifyHash`: key, hash, signature
  pub verify_hash : ℕ → ℕ → ℕ → Bool
  -- slhdsa.Verify under the key that its 32 bytes decode to: key, hash, signature
  pub slhdsa_verify : ℕ → ℕ → Bytes → Bool
  -- sha256.Sum256 of 32 bytes
  pub sha256 : ℕ → ℕ
  -- the first 32 bytes of a key, padded with zeros
  pub key_of_bytes : Bytes → ℕ
  -- SpecifierEntropy and SpecifierEd25519
  pub entropy : ℕ
  pub ed25519 : ℕ
