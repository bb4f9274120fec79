-- ===== src/Wire/InputTrip.antt =====
-- core/types/encoding.go: attestations and inputs are read back from what is written.
use qday.Base.{refl}
use qday.Types.{Attestation, V2SiacoinInput, V2SiafundInput}
use qday.Wire.{write_bytes}
use qday.Wire.Codec.{IsCodec, grow, bytes-IsCodec}
use qday.Wire.Elements.{IsHash, write_hash, write_signature, hash-IsCodec, signature-IsCodec}
use qday.Wire.Values.{
  InSiacoinElement, siacoin_element-IsCodec, InSiafundElement, siafund_element-IsCodec,
}
use qday.Wire.PolicyTrip.{InSatisfiedPolicy, satisfied_policy-IsCodec}
use qday.Wire.Policies.{write_satisfied_policy}
use qday.Wire.Contracts.{
  write_attestation, read_attestation, write_siacoin_input, read_siacoin_input, write_siafund_input,
  read_siafund_input,
}
use qday.Wire.ContractTrip.{IsSignature, IsShort}

pub record InAttestation (a : Attestation) : Type 0 where
  pub public_key : IsHash a.public_key
  pub key : IsShort a.key
  pub value : IsShort a.value
  pub signature : IsSignature a.signature

pub attestation-IsCodec : IsCodec write_attestation read_attestation InAttestation
unfolding write_attestation read_attestation
attestation-IsCodec = record {
  reads = λ a h rest.
      let r3 = write_signature a.signature rest in
      let r2 = write_bytes a.value r3 in
      let r1 = write_bytes a.key r2 in
      rw
        (
          hash-IsCodec.reads a.public_key h.public_key r1,
          bytes-IsCodec.reads a.key h.key r2,
          bytes-IsCodec.reads a.value h.value r3,
          signature-IsCodec.reads a.signature h.signature rest,
        )
        refl;
  grows = λ a rest.
      grow (signature-IsCodec.grows _ _)
        (grow (bytes-IsCodec.grows _ _) (grow (bytes-IsCodec.grows _ _) (hash-IsCodec.grows _ _)));
}

pub record InSiacoinInput (i : V2SiacoinInput) : Type 0 where
  pub parent : InSiacoinElement i.parent
  pub satisfied_policy : InSatisfiedPolicy i.satisfied_policy

pub siacoin_input-IsCodec : IsCodec write_siacoin_input read_siacoin_input InSiacoinInput
unfolding write_siacoin_input read_siacoin_input
siacoin_input-IsCodec = record {
  reads = λ i h rest.
      let r1 = write_satisfied_policy i.satisfied_policy rest in
      rw
        (
          siacoin_element-IsCodec.reads i.parent h.parent r1,
          satisfied_policy-IsCodec.reads i.satisfied_policy h.satisfied_policy rest,
        )
        refl;
  grows = λ i rest. grow (satisfied_policy-IsCodec.grows _ _) (siacoin_element-IsCodec.grows _ _);
}

pub record InSiafundInput (i : V2SiafundInput) : Type 0 where
  pub parent : InSiafundElement i.parent
  pub claim_address : IsHash i.claim_address
  pub satisfied_policy : InSatisfiedPolicy i.satisfied_policy

pub siafund_input-IsCodec : IsCodec write_siafund_input read_siafund_input InSiafundInput
unfolding write_siafund_input read_siafund_input
siafund_input-IsCodec = record {
  reads = λ i h rest.
      let r2 = write_satisfied_policy i.satisfied_policy rest in
      let r1 = write_hash i.claim_address r2 in
      rw
        (
          siafund_element-IsCodec.reads i.parent h.parent r1,
          hash-IsCodec.reads i.claim_address h.claim_address r2,
          satisfied_policy-IsCodec.reads i.satisfied_policy h.satisfied_policy rest,
        )
        refl;
  grows = λ i rest.
      grow (satisfied_policy-IsCodec.grows _ _)
        (grow (hash-IsCodec.grows _ _) (siafund_element-IsCodec.grows _ _));
}
