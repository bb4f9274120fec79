-- ===== src/Wire/ContractTrip.antt =====
-- core/types/encoding.go: contracts, attestations and inputs are read back from what is written.
use qday.Base.{ℕ, ◌^◌, ◌<◌, ◌≡◌, refl, length, arith, length-append, some, ◌++◌}
use qday.Base.Bytes.{Bytes}
use qday.Types.{
  V2FileContract, V2FileContractElement, V2FileContractRevision, Renewal, StorageProof, Resolution,
  renewal, storage_proof, expiration, V2FileContractResolution,
}
use qday.Wire.{write_uint8, write_uint64, write_slice, read_uint8}
use qday.Wire.Codec.{IsCodec, grow, read-append, uint64-IsCodec}
use qday.Wire.Elements.{
  IsHash, IsWord, InCurrency, write_hash, write_signature, write_currency, write_siacoin_output,
  hash-IsCodec, signature-IsCodec, currency-IsCodec,
}
use qday.Wire.Values.{
  InHashes, hashes-IsCodec, InSiacoinOutput, siacoin_output-IsCodec, InStateElement,
  state_element-IsCodec, InChainIndexElement, chain_index_element-IsCodec,
}
use qday.Wire.Contracts.{
  write_leaf, read_leaf, write_v2_file_contract, read_v2_file_contract, write_contract_element,
  read_contract_element, write_revision, read_revision, write_renewal, read_renewal,
  write_storage_proof, read_storage_proof, write_resolution, read_resolution,
  write_contract_resolution, read_contract_resolution,
}

abbrev pub IsSignature : ℕ → Type 0
IsSignature x = x < 256 ^ 64

abbrev pub IsShort : Bytes → Type 0
IsShort b = length b < 2 ^ 64

abbrev pub InLeaf : Bytes → Type 0
InLeaf b = length b ≡ 64

leaf-reads :
    (b : Bytes) → InLeaf b → (rest : Bytes) → read_leaf (write_leaf b rest) ≡ some (b, rest)
unfolding read_leaf write_leaf
leaf-reads b h rest = read-append 64 b rest h

pub record InV2FileContract (fc : V2FileContract) : Type 0 where
  pub capacity : IsWord fc.capacity
  pub filesize : IsWord fc.filesize
  pub file_merkle_root : IsHash fc.file_merkle_root
  pub proof_height : IsWord fc.proof_height
  pub expiration_height : IsWord fc.expiration_height
  pub renter_output : InSiacoinOutput fc.renter_output
  pub host_output : InSiacoinOutput fc.host_output
  pub missed_host_value : InCurrency fc.missed_host_value
  pub total_collateral : InCurrency fc.total_collateral
  pub renter_public_key : IsHash fc.renter_public_key
  pub host_public_key : IsHash fc.host_public_key
  pub revision_number : IsWord fc.revision_number
  pub renter_signature : IsSignature fc.renter_signature
  pub host_signature : IsSignature fc.host_signature

pub v2_file_contract-IsCodec : IsCodec write_v2_file_contract read_v2_file_contract InV2FileContract
unfolding write_v2_file_contract read_v2_file_contract
v2_file_contract-IsCodec = record {
  reads = λ fc h rest.
      let r13 = write_signature fc.host_signature rest in
      let r12 = write_signature fc.renter_signature r13 in
      let r11 = write_uint64 fc.revision_number r12 in
      let r10 = write_hash fc.host_public_key r11 in
      let r9 = write_hash fc.renter_public_key r10 in
      let r8 = write_currency fc.total_collateral r9 in
      let r7 = write_currency fc.missed_host_value r8 in
      let r6 = write_siacoin_output fc.host_output r7 in
      let r5 = write_siacoin_output fc.renter_output r6 in
      let r4 = write_uint64 fc.expiration_height r5 in
      let r3 = write_uint64 fc.proof_height r4 in
      let r2 = write_hash fc.file_merkle_root r3 in
      let r1 = write_uint64 fc.filesize r2 in
      rw
        (
          uint64-IsCodec.reads fc.capacity h.capacity r1,
          uint64-IsCodec.reads fc.filesize h.filesize r2,
          hash-IsCodec.reads fc.file_merkle_root h.file_merkle_root r3,
          uint64-IsCodec.reads fc.proof_height h.proof_height r4,
          uint64-IsCodec.reads fc.expiration_height h.expiration_height r5,
          siacoin_output-IsCodec.reads fc.renter_output h.renter_output r6,
          siacoin_output-IsCodec.reads fc.host_output h.host_output r7,
          currency-IsCodec.reads fc.missed_host_value h.missed_host_value r8,
          currency-IsCodec.reads fc.total_collateral h.total_collateral r9,
          hash-IsCodec.reads fc.renter_public_key h.renter_public_key r10,
          hash-IsCodec.reads fc.host_public_key h.host_public_key r11,
          uint64-IsCodec.reads fc.revision_number h.revision_number r12,
          signature-IsCodec.reads fc.renter_signature h.renter_signature r13,
          signature-IsCodec.reads fc.host_signature h.host_signature rest,
        )
        refl;
  grows = λ fc rest. grow (signature-IsCodec.grows _ _) (
      grow (signature-IsCodec.grows _ _) (
        grow (uint64-IsCodec.grows _ _) (
          grow (hash-IsCodec.grows _ _) (
            grow (hash-IsCodec.grows _ _) (
              grow (currency-IsCodec.grows _ _) (
                grow (currency-IsCodec.grows _ _) (
                  grow (siacoin_output-IsCodec.grows _ _) (
                    grow (siacoin_output-IsCodec.grows _ _) (
                      grow (uint64-IsCodec.grows _ _) (
                        grow (uint64-IsCodec.grows _ _) (
                          grow (hash-IsCodec.grows _ _)
                            (grow (uint64-IsCodec.grows _ _) (uint64-IsCodec.grows _ _)))))))))))));
}

pub record InContractElement (e : V2FileContractElement) : Type 0 where
  pub state_element : InStateElement e.state_element
  pub id : IsHash e.id
  pub v2_file_contract : InV2FileContract e.v2_file_contract

pub contract_element-IsCodec :
    IsCodec write_contract_element read_contract_element InContractElement
unfolding write_contract_element read_contract_element
contract_element-IsCodec = record {
  reads = λ e h rest.
      let r2 = write_v2_file_contract e.v2_file_contract rest in
      let r1 = write_hash e.id r2 in
      rw
        (
          state_element-IsCodec.reads e.state_element h.state_element r1,
          hash-IsCodec.reads e.id h.id r2,
          v2_file_contract-IsCodec.reads e.v2_file_contract h.v2_file_contract rest,
        )
        refl;
  grows = λ e rest.
      grow (v2_file_contract-IsCodec.grows _ _)
        (grow (hash-IsCodec.grows _ _) (state_element-IsCodec.grows _ _));
}

pub record InRevision (r : V2FileContractRevision) : Type 0 where
  pub parent : InContractElement r.parent
  pub revision : InV2FileContract r.revision

pub revision-IsCodec : IsCodec write_revision read_revision InRevision
unfolding write_revision read_revision
revision-IsCodec = record {
  reads = λ r h rest.
      let r1 = write_v2_file_contract r.revision rest in
      rw
        (
          contract_element-IsCodec.reads r.parent h.parent r1,
          v2_file_contract-IsCodec.reads r.revision h.revision rest,
        )
        refl;
  grows = λ r rest. grow (v2_file_contract-IsCodec.grows _ _) (contract_element-IsCodec.grows _ _);
}

pub record InRenewal (r : Renewal) : Type 0 where
  pub final_renter_output : InSiacoinOutput r.final_renter_output
  pub final_host_output : InSiacoinOutput r.final_host_output
  pub renter_rollover : InCurrency r.renter_rollover
  pub host_rollover : InCurrency r.host_rollover
  pub new_contract : InV2FileContract r.new_contract
  pub renter_signature : IsSignature r.renter_signature
  pub host_signature : IsSignature r.host_signature

pub renewal-IsCodec : IsCodec write_renewal read_renewal InRenewal
unfolding write_renewal read_renewal
renewal-IsCodec = record {
  reads = λ r h rest.
      let r6 = write_signature r.host_signature rest in
      let r5 = write_signature r.renter_signature r6 in
      let r4 = write_v2_file_contract r.new_contract r5 in
      let r3 = write_currency r.host_rollover r4 in
      let r2 = write_currency r.renter_rollover r3 in
      let r1 = write_siacoin_output r.final_host_output r2 in
      rw
        (
          siacoin_output-IsCodec.reads r.final_renter_output h.final_renter_output r1,
          siacoin_output-IsCodec.reads r.final_host_output h.final_host_output r2,
          currency-IsCodec.reads r.renter_rollover h.renter_rollover r3,
          currency-IsCodec.reads r.host_rollover h.host_rollover r4,
          v2_file_contract-IsCodec.reads r.new_contract h.new_contract r5,
          signature-IsCodec.reads r.renter_signature h.renter_signature r6,
          signature-IsCodec.reads r.host_signature h.host_signature rest,
        )
        refl;
  grows = λ r rest. grow (signature-IsCodec.grows _ _) (
      grow (signature-IsCodec.grows _ _) (
        grow (v2_file_contract-IsCodec.grows _ _) (
          grow (currency-IsCodec.grows _ _) (
            grow (currency-IsCodec.grows _ _)
              (grow (siacoin_output-IsCodec.grows _ _) (siacoin_output-IsCodec.grows _ _))))));
}

pub record InStorageProof (p : StorageProof) : Type 0 where
  pub proof_index : InChainIndexElement p.proof_index
  pub leaf : InLeaf p.leaf
  pub proof : InHashes p.proof

storage_proof-IsCodec : IsCodec write_storage_proof read_storage_proof InStorageProof
unfolding write_storage_proof read_storage_proof write_leaf
storage_proof-IsCodec = record {
  reads = λ p h rest.
      let tail = write_slice write_hash p.proof rest in
      rw
        (
          chain_index_element-IsCodec.reads p.proof_index h.proof_index (write_leaf p.leaf tail),
          leaf-reads p.leaf h.leaf tail,
          hashes-IsCodec.reads p.proof h.proof rest,
        )
        refl;
  grows = λ p rest.
      let tail = write_slice write_hash p.proof rest in
      omega (
        arith,
        hashes-IsCodec.grows p.proof rest,
        length-append p.leaf tail,
        chain_index_element-IsCodec.grows p.proof_index (p.leaf ++ tail),
      );
}

unfoldable pub InResolution : Resolution → Type 0
InResolution (renewal r) = InRenewal r
InResolution (storage_proof p) = InStorageProof p
InResolution expiration = Unit {0}

resolution-IsCodec : IsCodec write_resolution read_resolution InResolution
unfolding write_resolution read_resolution InResolution write_uint8 read_uint8
resolution-IsCodec = record { reads = reads_back; grows = longer }
  where
    reads_back :
        (r : Resolution)
        → InResolution r
        → (rest : Bytes) → read_resolution (write_resolution r rest) ≡ some (r, rest)
    reads_back (renewal r) h rest = rw (renewal-IsCodec.reads r h rest) refl
    reads_back (storage_proof p) h rest = rw (storage_proof-IsCodec.reads p h rest) refl
    reads_back expiration h rest = refl

    longer : (r : Resolution) (rest : Bytes) → length rest < length (write_resolution r rest)
    longer (renewal r) rest = omega (arith, renewal-IsCodec.grows r rest)
    longer (storage_proof p) rest = omega (arith, storage_proof-IsCodec.grows p rest)
    longer expiration rest = omega arith

pub record InContractResolution (r : V2FileContractResolution) : Type 0 where
  pub parent : InContractElement r.parent
  pub resolution : InResolution r.resolution

pub contract_resolution-IsCodec :
    IsCodec write_contract_resolution read_contract_resolution InContractResolution
unfolding write_contract_resolution read_contract_resolution
contract_resolution-IsCodec = record {
  reads = λ r h rest.
      let r1 = write_resolution r.resolution rest in
      rw
        (
          contract_element-IsCodec.reads r.parent h.parent r1,
          resolution-IsCodec.reads r.resolution h.resolution rest,
        )
        refl;
  grows = λ r rest. grow (resolution-IsCodec.grows _ _) (contract_element-IsCodec.grows _ _);
}
