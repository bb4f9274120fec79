-- ===== src/Wire/PolicyTrip.antt =====
-- core/types/encoding.go: a spend policy is read back from what is written.
use qday.Base.{ℕ, zero, suc, ◌%◌, ◌^◌, ◌<◌, ◌≤◌, ◌≡◌, refl, some, length, All, arith}
use qday.Base.Bytes.{Bytes}
use qday.Policy.{
  UnlockKey, UnlockConditions, Policy, Policies, above, after, public_key, slhdsa, hash, threshold,
  opaque, unlock_conditions, nil, cons, count, SatisfiedPolicy,
}
use qday.Wire.{
  write_uint8, read_uint8, write_uint64, write_array, read_array, write_bytes, write_slice,
  read_slice,
}
use qday.Wire.Codec.{IsCodec, grow, uint64-IsCodec, array-IsCodec, bytes-IsCodec, slice-IsCodec}
use qday.Wire.Elements.{
  IsHash, IsWord, IsTime, write_hash, write_signature, read_signature, hash-IsCodec,
  signature-IsCodec, write_time-IsCodec,
}
use qday.Wire.Values.{InHashes, hashes-IsCodec}
use qday.Wire.Policies.{
  write_unlock_key, read_unlock_key, write_unlock_conditions, read_unlock_conditions, write_node,
  write_nodes, read_nodes, read_operand, read_node, max_policy_depth, write_policy, read_policy,
  write_satisfied_policy, read_satisfied_policy,
}

pub record InUnlockKey (k : UnlockKey) : Type 0 where
  pub algorithm : k.algorithm < 256 ^ 16
  pub key : length k.key < 2 ^ 64

specifier-IsCodec : IsCodec (write_array 16) (read_array 16) (λ x. x < 256 ^ 16)
specifier-IsCodec = array-IsCodec 16 (omega arith)

unlock_key-IsCodec : IsCodec write_unlock_key read_unlock_key InUnlockKey
unfolding write_unlock_key read_unlock_key
unlock_key-IsCodec = record {
  reads = λ k h rest.
      rw
        (
          specifier-IsCodec.reads k.algorithm h.algorithm (write_bytes k.key rest),
          bytes-IsCodec.reads k.key h.key rest,
        )
        refl;
  grows = λ k rest. grow (bytes-IsCodec.grows _ _) (specifier-IsCodec.grows _ _);
}

pub record InUnlockConditions (u : UnlockConditions) : Type 0 where
  pub timelock : IsWord u.timelock
  pub public_keys : (length u.public_keys < 2 ^ 64) × All InUnlockKey u.public_keys
  pub signatures_required : IsWord u.signatures_required

unlock_keys-IsCodec :
    IsCodec
      (write_slice write_unlock_key)
      (read_slice read_unlock_key)
      (λ ks. (length ks < 2 ^ 64) × All InUnlockKey ks)
unlock_keys-IsCodec = slice-IsCodec unlock_key-IsCodec

unlock_conditions-IsCodec :
    IsCodec write_unlock_conditions read_unlock_conditions InUnlockConditions
unfolding write_unlock_conditions read_unlock_conditions
unlock_conditions-IsCodec = record {
  reads = λ u h rest.
      let tail = write_uint64 u.signatures_required rest in
      rw
        (
          uint64-IsCodec.reads u.timelock h.timelock
              (write_slice write_unlock_key u.public_keys tail),
          unlock_keys-IsCodec.reads u.public_keys h.public_keys tail,
          uint64-IsCodec.reads u.signatures_required h.signatures_required rest,
        )
        refl;
  grows = λ u rest.
      grow (uint64-IsCodec.grows _ _)
        (grow (unlock_keys-IsCodec.grows _ _) (uint64-IsCodec.grows _ _));
}

-- The operands are in range, a threshold has fewer than 256 policies, and the nesting ends in time.
unfoldable mutual
  pub InNode : ℕ → Policy → Type 0
  InNode zero p = suc zero ≤ zero
  InNode (suc levels) (above h) = IsWord h
  InNode (suc levels) (after t) = IsTime t
  InNode (suc levels) (public_key k) = IsHash k
  InNode (suc levels) (slhdsa k) = IsHash k
  InNode (suc levels) (hash x) = IsHash x
  InNode (suc levels) (threshold n ps) = (n < 256) × (count ps < 256) × InNodes levels ps
  InNode (suc levels) (opaque x) = IsHash x
  InNode (suc levels) (unlock_conditions u) = InUnlockConditions u

  pub InNodes : ℕ → Policies → Type 0
  InNodes levels nil = Unit {0}
  InNodes levels (cons p ps) = InNode levels p × InNodes levels ps

mutual
  unfolding write_node read_node read_operand read_nodes write_uint8 read_uint8 InNode

  node_reads :
      (levels : ℕ) (p : Policy)
      → InNode levels p
      → (rest : Bytes) → read_node levels (write_node p rest) ≡ some (p, rest)
  node_reads zero p h rest = absurd (omega (arith, h))
  node_reads (suc levels) (above x) h rest = rw (uint64-IsCodec.reads x h rest) refl
  node_reads (suc levels) (after t) h rest = rw (write_time-IsCodec.reads t h rest) refl
  node_reads (suc levels) (public_key k) h rest = rw (hash-IsCodec.reads k h rest) refl
  node_reads (suc levels) (slhdsa k) h rest = rw (hash-IsCodec.reads k h rest) refl
  node_reads (suc levels) (hash x) h rest = rw (hash-IsCodec.reads x h rest) refl
  node_reads (suc levels) (threshold n ps) (hn, hc, hs) rest =
      let small : n % 256 ≡ n = omega (arith, hn) in
      let few : count ps % 256 ≡ count ps = omega (arith, hc) in
      rw (small, few, nodes_read levels ps hs rest) refl
  node_reads (suc levels) (opaque x) h rest = rw (hash-IsCodec.reads x h rest) refl
  node_reads (suc levels) (unlock_conditions u) h rest =
      rw (unlock_conditions-IsCodec.reads u h rest) refl

  nodes_read :
      (levels : ℕ) (ps : Policies)
      → InNodes levels ps
      → (rest : Bytes)
      → read_nodes (read_node levels) (count ps) (write_nodes ps rest) ≡ some (ps, rest)
  nodes_read levels nil h rest = refl
  nodes_read levels (cons p ps) (h, hs) rest =
      rw (node_reads levels p h (write_nodes ps rest), nodes_read levels ps hs rest) refl

mutual
  unfolding write_node write_uint8

  node_grows : (p : Policy) (rest : Bytes) → length rest < length (write_node p rest)
  node_grows (above x) rest = omega (arith, uint64-IsCodec.grows x rest)
  node_grows (after t) rest = omega (arith, write_time-IsCodec.grows t rest)
  node_grows (public_key k) rest = omega (arith, hash-IsCodec.grows k rest)
  node_grows (slhdsa k) rest = omega (arith, hash-IsCodec.grows k rest)
  node_grows (hash x) rest = omega (arith, hash-IsCodec.grows x rest)
  node_grows (threshold n ps) rest = omega (arith, nodes_grow ps rest)
  node_grows (opaque x) rest = omega (arith, hash-IsCodec.grows x rest)
  node_grows (unlock_conditions u) rest = omega (arith, unlock_conditions-IsCodec.grows u rest)

  nodes_grow : (ps : Policies) (rest : Bytes) → length rest ≤ length (write_nodes ps rest)
  nodes_grow nil rest = omega arith
  nodes_grow (cons p ps) rest =
      omega (arith, node_grows p (write_nodes ps rest), nodes_grow ps rest)

abbrev pub InPolicy : Policy → Type 0
InPolicy p = InNode (suc max_policy_depth) p

-- A spend policy whose parts are in range, with fewer than 256 policies in a threshold and a
-- nesting within the limit of 32, is read back from its encoding, which takes at least a byte.
pub policy-IsCodec : IsCodec write_policy read_policy InPolicy
unfolding write_policy read_policy write_uint8 read_uint8
policy-IsCodec = record {
  reads = λ p h rest. node_reads (suc max_policy_depth) p h rest;
  grows = λ p rest. omega (arith, node_grows p rest);
}

pub record InSatisfiedPolicy (s : SatisfiedPolicy) : Type 0 where
  pub policy : InPolicy s.policy
  pub signatures : (length s.signatures < 2 ^ 64) × All (λ x. x < 256 ^ 64) s.signatures
  pub preimages : InHashes s.preimages

signatures-IsCodec :
    IsCodec
      (write_slice write_signature)
      (read_slice read_signature)
      (λ xs. (length xs < 2 ^ 64) × All (λ x. x < 256 ^ 64) xs)
signatures-IsCodec = slice-IsCodec signature-IsCodec

pub satisfied_policy-IsCodec :
    IsCodec write_satisfied_policy read_satisfied_policy InSatisfiedPolicy
unfolding write_satisfied_policy read_satisfied_policy
satisfied_policy-IsCodec = record {
  reads = λ s h rest.
      let tail = write_slice write_hash s.preimages rest in
      rw
        (
          policy-IsCodec.reads s.policy h.policy (write_slice write_signature s.signatures tail),
          signatures-IsCodec.reads s.signatures h.signatures tail,
          hashes-IsCodec.reads s.preimages h.preimages rest,
        )
        refl;
  grows = λ s rest.
      grow (hashes-IsCodec.grows _ _)
        (grow (signatures-IsCodec.grows _ _) (policy-IsCodec.grows _ _));
}
