-- ===== src/Wire/Policies.antt =====
-- core/types/encoding.go: EncodeTo and DecodeFrom of spend policies, and their round trip.
use qday.Base.{ℕ, zero, suc, none, some, ◌==◌, ◌!=◌, if◌then◌else◌}
use qday.Base.Bytes.{Bytes}
use qday.Base.Options.{◌>>=◌}
use qday.Policy.{
  UnlockKey, UnlockConditions, Policy, Policies, above, after, public_key, slhdsa, hash, threshold,
  opaque, unlock_conditions, nil, cons, count, SatisfiedPolicy,
}
use qday.Wire.{
  Writer, Reader, write_uint8, read_uint8, write_uint64, read_uint64, write_array, read_array,
  write_bytes, read_bytes, write_slice, read_slice,
}
use qday.Wire.Elements.{
  write_hash, read_hash, write_signature, read_signature, write_time, read_time,
}

-- The algorithm is a Specifier of 16 bytes.
unfoldable pub write_unlock_key : Writer UnlockKey
unfolding write_array write_bytes
write_unlock_key k rest = write_array 16 k.algorithm (write_bytes k.key rest)

unfoldable pub read_unlock_key : Reader UnlockKey
unfolding read_array read_bytes
read_unlock_key bs = read_array 16 bs >>= λ (a, left).
    read_bytes left >>= λ (k, left'). some (record { algorithm = a; key = k }, left')

unfoldable pub write_unlock_conditions : Writer UnlockConditions
unfolding write_uint64 write_slice write_unlock_key
write_unlock_conditions u rest =
    write_uint64 u.timelock
      (write_slice write_unlock_key u.public_keys (write_uint64 u.signatures_required rest))

unfoldable pub read_unlock_conditions : Reader UnlockConditions
unfolding read_uint64 read_slice read_unlock_key
read_unlock_conditions bs = read_uint64 bs >>= λ (t, l₁).
    read_slice read_unlock_key l₁ >>= λ (ks, l₂). read_uint64 l₂ >>= λ (n, l₃).
    some (record { timelock = t; public_keys = ks; signatures_required = n }, l₃)

-- encodePolicy; the length of a threshold's policies is cut to a byte.
unfoldable mutual
  unfolding write_uint8 write_uint64 write_time write_array write_unlock_conditions

  pub write_node : Policy → Bytes → Bytes
  write_node (above h) rest = write_uint8 1 (write_uint64 h rest)
  write_node (after t) rest = write_uint8 2 (write_time t rest)
  write_node (public_key k) rest = write_uint8 3 (write_hash k rest)
  write_node (slhdsa k) rest = write_uint8 8 (write_hash k rest)
  write_node (hash x) rest = write_uint8 4 (write_hash x rest)
  write_node (threshold n ps) rest =
      write_uint8 5 (write_uint8 n (write_uint8 (count ps) (write_nodes ps rest)))
  write_node (opaque x) rest = write_uint8 6 (write_hash x rest)
  write_node (unlock_conditions u) rest = write_uint8 7 (write_unlock_conditions u rest)

  pub write_nodes : Policies → Bytes → Bytes
  write_nodes nil rest = rest
  write_nodes (cons p ps) rest = write_node p (write_nodes ps rest)

unfoldable pub read_nodes : Reader Policy → ℕ → Reader Policies
read_nodes read_child zero bs = some (nil, bs)
read_nodes read_child (suc n) bs = read_child bs >>= λ (p, left).
    read_nodes read_child n left >>= λ (ps, left'). some (cons p ps, left')

-- What follows the code of an operation.
unfoldable pub read_operand : Reader Policy → ℕ → Reader Policy
unfolding read_uint64 read_time read_array read_uint8 read_nodes read_unlock_conditions
read_operand read_child op bs =
    if op == 1
    then (read_uint64 bs >>= λ (h, left). some (above h, left))
    else if op == 2
    then (read_time bs >>= λ (t, left). some (after t, left))
    else if op == 3
    then (read_hash bs >>= λ (k, left). some (public_key k, left))
    else if op == 8
    then (read_hash bs >>= λ (k, left). some (slhdsa k, left))
    else if op == 4
    then (read_hash bs >>= λ (x, left). some (hash x, left))
    else if op == 5
    then (read_uint8 bs >>= λ (n, l₁). read_uint8 l₁ >>= λ (k, l₂).
        read_nodes read_child k l₂ >>= λ (ps, l₃). some (threshold n ps, l₃))
    else if op == 6
    then (read_hash bs >>= λ (x, left). some (opaque x, left))
    else if op == 7
    then (read_unlock_conditions bs >>= λ (u, left). some (unlock_conditions u, left))
    else none

-- readPolicy with so many levels left; one more than maxPolicyDepth is an error.
unfoldable pub read_node : ℕ → Reader Policy
unfolding read_uint8 read_operand
read_node zero bs = none
read_node (suc levels) bs = read_uint8 bs >>= λ (op, left). read_operand (read_node levels) op left

abbrev pub max_policy_depth : ℕ
max_policy_depth = 32

unfoldable pub write_policy : Writer Policy
unfolding write_uint8 write_node
write_policy p rest = write_uint8 1 (write_node p rest)

unfoldable pub read_policy : Reader Policy
unfolding read_uint8 read_node
read_policy bs = read_uint8 bs >>= λ (version, left).
    if version != 1 then none else read_node (suc max_policy_depth) left

unfoldable pub write_satisfied_policy : Writer SatisfiedPolicy
unfolding write_policy write_slice write_array
write_satisfied_policy s rest =
    write_policy s.policy
      (write_slice write_signature s.signatures (write_slice write_hash s.preimages rest))

unfoldable pub read_satisfied_policy : Reader SatisfiedPolicy
unfolding read_policy read_slice read_array
read_satisfied_policy bs = read_policy bs >>= λ (p, l₁).
    read_slice read_signature l₁ >>= λ (ss, l₂). read_slice read_hash l₂ >>= λ (xs, l₃).
    some (record { policy = p; signatures = ss; preimages = xs }, l₃)
