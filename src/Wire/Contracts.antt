-- ===== src/Wire/Contracts.antt =====
-- core/types/encoding.go: EncodeTo and DecodeFrom of contracts, attestations and inputs.
use qday.Base.{◌==◌, if◌then◌else◌, none, some, ◌++◌}
use qday.Base.Bytes.{Bytes}
use qday.Base.Options.{◌>>=◌}
use qday.Types.{
  V2FileContract, V2FileContractElement, V2FileContractRevision, Renewal, StorageProof, Resolution,
  renewal, storage_proof, expiration, V2FileContractResolution, Attestation, V2SiacoinInput,
  V2SiafundInput,
}
use qday.Wire.{
  Writer, Reader, read, write_uint8, read_uint8, write_uint64, read_uint64, write_array, read_array,
  write_bytes, read_bytes, write_slice, read_slice,
}
use qday.Wire.Elements.{
  write_hash, read_hash, write_signature, read_signature, write_currency, read_currency,
  write_siacoin_output, read_siacoin_output, write_state_element, read_state_element,
  write_siacoin_element, read_siacoin_element, write_siafund_element, read_siafund_element,
  write_chain_index_element, read_chain_index_element,
}
use qday.Wire.Policies.{write_satisfied_policy, read_satisfied_policy}

-- An array of 64 bytes.
unfoldable pub write_leaf : Writer Bytes
write_leaf b rest = b ++ rest

unfoldable pub read_leaf : Reader Bytes
unfolding read
read_leaf bs = read 64 bs

unfoldable pub write_v2_file_contract : Writer V2FileContract
unfolding write_array write_currency write_siacoin_output write_uint64
write_v2_file_contract fc rest = write_uint64 fc.capacity (
    write_uint64 fc.filesize (
      write_hash fc.file_merkle_root (
        write_uint64 fc.proof_height (
          write_uint64 fc.expiration_height (
            write_siacoin_output fc.renter_output (
              write_siacoin_output fc.host_output (
                write_currency fc.missed_host_value (
                  write_currency fc.total_collateral (
                    write_hash fc.renter_public_key (
                      write_hash fc.host_public_key (
                        write_uint64 fc.revision_number (
                          write_signature fc.renter_signature
                            (write_signature fc.host_signature rest)))))))))))))

unfoldable pub read_v2_file_contract : Reader V2FileContract
unfolding read_array read_currency read_siacoin_output read_uint64
read_v2_file_contract bs = read_uint64 bs >>= λ (x1, l1). read_uint64 l1 >>= λ (x2, l2).
    read_hash l2 >>= λ (x3, l3). read_uint64 l3 >>= λ (x4, l4). read_uint64 l4 >>= λ (x5, l5).
    read_siacoin_output l5 >>= λ (x6, l6). read_siacoin_output l6 >>= λ (x7, l7).
    read_currency l7 >>= λ (x8, l8). read_currency l8 >>= λ (x9, l9). read_hash l9 >>= λ (x10, l10).
    read_hash l10 >>= λ (x11, l11). read_uint64 l11 >>= λ (x12, l12).
    read_signature l12 >>= λ (x13, l13). read_signature l13 >>= λ (x14, l14). some (
      record {
        capacity = x1;
        filesize = x2;
        file_merkle_root = x3;
        proof_height = x4;
        expiration_height = x5;
        renter_output = x6;
        host_output = x7;
        missed_host_value = x8;
        total_collateral = x9;
        renter_public_key = x10;
        host_public_key = x11;
        revision_number = x12;
        renter_signature = x13;
        host_signature = x14;
      },
      l14,
    )

unfoldable pub write_contract_element : Writer V2FileContractElement
unfolding write_array write_state_element write_v2_file_contract
write_contract_element e rest =
    write_state_element e.state_element
      (write_hash e.id (write_v2_file_contract e.v2_file_contract rest))

unfoldable pub read_contract_element : Reader V2FileContractElement
unfolding read_array read_state_element read_v2_file_contract
read_contract_element bs = read_state_element bs >>= λ (x1, l1). read_hash l1 >>= λ (x2, l2).
    read_v2_file_contract l2 >>= λ (x3, l3).
    some (record { state_element = x1; id = x2; v2_file_contract = x3 }, l3)

unfoldable pub write_revision : Writer V2FileContractRevision
unfolding write_contract_element write_v2_file_contract
write_revision r rest = write_contract_element r.parent (write_v2_file_contract r.revision rest)

unfoldable pub read_revision : Reader V2FileContractRevision
unfolding read_contract_element read_v2_file_contract
read_revision bs = read_contract_element bs >>= λ (x1, l1).
    read_v2_file_contract l1 >>= λ (x2, l2). some (record { parent = x1; revision = x2 }, l2)

unfoldable pub write_renewal : Writer Renewal
unfolding write_array write_currency write_siacoin_output write_v2_file_contract
write_renewal r rest = write_siacoin_output r.final_renter_output (
    write_siacoin_output r.final_host_output (
      write_currency r.renter_rollover (
        write_currency r.host_rollover (
          write_v2_file_contract r.new_contract
            (write_signature r.renter_signature (write_signature r.host_signature rest))))))

unfoldable pub read_renewal : Reader Renewal
unfolding read_array read_currency read_siacoin_output read_v2_file_contract
read_renewal bs = read_siacoin_output bs >>= λ (x1, l1). read_siacoin_output l1 >>= λ (x2, l2).
    read_currency l2 >>= λ (x3, l3). read_currency l3 >>= λ (x4, l4).
    read_v2_file_contract l4 >>= λ (x5, l5). read_signature l5 >>= λ (x6, l6).
    read_signature l6 >>= λ (x7, l7). some (
      record {
        final_renter_output = x1;
        final_host_output = x2;
        renter_rollover = x3;
        host_rollover = x4;
        new_contract = x5;
        renter_signature = x6;
        host_signature = x7;
      },
      l7,
    )

unfoldable pub write_storage_proof : Writer StorageProof
unfolding write_chain_index_element write_leaf write_slice
write_storage_proof p rest =
    write_chain_index_element p.proof_index
      (write_leaf p.leaf (write_slice write_hash p.proof rest))

unfoldable pub read_storage_proof : Reader StorageProof
unfolding read_chain_index_element read_leaf read_slice
read_storage_proof bs = read_chain_index_element bs >>= λ (x1, l1). read_leaf l1 >>= λ (x2, l2).
    read_slice read_hash l2 >>= λ (x3, l3).
    some (record { proof_index = x1; leaf = x2; proof = x3 }, l3)

-- The kind of a resolution, and the resolution.
unfoldable pub write_resolution : Writer Resolution
unfolding write_uint8 write_renewal write_storage_proof
write_resolution (renewal r) rest = write_uint8 0 (write_renewal r rest)
write_resolution (storage_proof p) rest = write_uint8 1 (write_storage_proof p rest)
write_resolution expiration rest = write_uint8 2 rest

unfoldable pub read_resolution : Reader Resolution
unfolding read_uint8 read_renewal read_storage_proof
read_resolution bs = read_uint8 bs >>= λ (t, left).
    if t == 0
    then (read_renewal left >>= λ (r, left'). some (renewal r, left'))
    else if t == 1
    then (read_storage_proof left >>= λ (p, left'). some (storage_proof p, left'))
    else if t == 2
    then some (expiration, left)
    else none

unfoldable pub write_contract_resolution : Writer V2FileContractResolution
unfolding write_contract_element write_resolution
write_contract_resolution r rest =
    write_contract_element r.parent (write_resolution r.resolution rest)

unfoldable pub read_contract_resolution : Reader V2FileContractResolution
unfolding read_contract_element read_resolution
read_contract_resolution bs = read_contract_element bs >>= λ (x1, l1).
    read_resolution l1 >>= λ (x2, l2). some (record { parent = x1; resolution = x2 }, l2)

unfoldable pub write_attestation : Writer Attestation
unfolding write_array write_bytes
write_attestation a rest =
    write_hash a.public_key
      (write_bytes a.key (write_bytes a.value (write_signature a.signature rest)))

unfoldable pub read_attestation : Reader Attestation
unfolding read_array read_bytes
read_attestation bs = read_hash bs >>= λ (x1, l1). read_bytes l1 >>= λ (x2, l2).
    read_bytes l2 >>= λ (x3, l3). read_signature l3 >>= λ (x4, l4).
    some (record { public_key = x1; key = x2; value = x3; signature = x4 }, l4)

unfoldable pub write_siacoin_input : Writer V2SiacoinInput
unfolding write_satisfied_policy write_siacoin_element
write_siacoin_input i rest =
    write_siacoin_element i.parent (write_satisfied_policy i.satisfied_policy rest)

unfoldable pub read_siacoin_input : Reader V2SiacoinInput
unfolding read_satisfied_policy read_siacoin_element
read_siacoin_input bs = read_siacoin_element bs >>= λ (x1, l1).
    read_satisfied_policy l1 >>= λ (x2, l2).
    some (record { parent = x1; satisfied_policy = x2 }, l2)

unfoldable pub write_siafund_input : Writer V2SiafundInput
unfolding write_array write_satisfied_policy write_siafund_element
write_siafund_input i rest =
    write_siafund_element i.parent
      (write_hash i.claim_address (write_satisfied_policy i.satisfied_policy rest))

unfoldable pub read_siafund_input : Reader V2SiafundInput
unfolding read_array read_satisfied_policy read_siafund_element
read_siafund_input bs = read_siafund_element bs >>= λ (x1, l1). read_hash l1 >>= λ (x2, l2).
    read_satisfied_policy l2 >>= λ (x3, l3).
    some (record { parent = x1; claim_address = x2; satisfied_policy = x3 }, l3)
