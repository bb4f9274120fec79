-- ===== src/Wire/Values.antt =====
-- core/types/encoding.go: outputs, elements and headers are read back from what is written.
use qday.Base.{ℕ, ◌^◌, ◌<◌, refl, List, All, length}
use qday.Header.{BlockHeader}
use qday.Types.{
  SiacoinOutput, SiafundOutput, StateElement, SiacoinElement, SiafundElement, ChainIndexElement,
}
use qday.Wire.{write_slice, read_slice, write_uint64}
use qday.Wire.Codec.{IsCodec, grow, uint64-IsCodec, slice-IsCodec}
use qday.Wire.Elements.{
  IsHash, IsWord, IsTime, InCurrency, hash-IsCodec, write_time-IsCodec, currency-IsCodec,
  write_hash, read_hash, write_time, write_currency, write_siacoin_output, read_siacoin_output,
  write_siafund_output, read_siafund_output, write_state_element, read_state_element,
  write_siacoin_element, read_siacoin_element, write_siafund_element, read_siafund_element,
  write_chain_index_element, read_chain_index_element, write_header, read_header,
}

pub record InSiacoinOutput (o : SiacoinOutput) : Type 0 where
  pub value : InCurrency o.value
  pub address : IsHash o.address

pub siacoin_output-IsCodec : IsCodec write_siacoin_output read_siacoin_output InSiacoinOutput
unfolding write_siacoin_output read_siacoin_output
siacoin_output-IsCodec = record {
  reads = λ o h rest.
      rw
        (
          currency-IsCodec.reads o.value h.value (write_hash o.address rest),
          hash-IsCodec.reads o.address h.address rest,
        )
        refl;
  grows = λ o rest. grow (hash-IsCodec.grows _ _) (currency-IsCodec.grows _ _);
}

pub record InSiafundOutput (o : SiafundOutput) : Type 0 where
  pub value : IsWord o.value
  pub address : IsHash o.address

pub siafund_output-IsCodec : IsCodec write_siafund_output read_siafund_output InSiafundOutput
unfolding write_siafund_output read_siafund_output
siafund_output-IsCodec = record {
  reads = λ o h rest.
      rw
        (
          uint64-IsCodec.reads o.value h.value (write_hash o.address rest),
          hash-IsCodec.reads o.address h.address rest,
        )
        refl;
  grows = λ o rest. grow (hash-IsCodec.grows _ _) (uint64-IsCodec.grows _ _);
}

-- A slice of hashes.
abbrev pub InHashes : List ℕ → Type 0
InHashes xs = (length xs < 2 ^ 64) × All IsHash xs

pub hashes-IsCodec : IsCodec (write_slice write_hash) (read_slice read_hash) InHashes
hashes-IsCodec = slice-IsCodec hash-IsCodec

pub record InStateElement (e : StateElement) : Type 0 where
  pub leaf_index : IsWord e.leaf_index
  pub merkle_proof : InHashes e.merkle_proof

pub state_element-IsCodec : IsCodec write_state_element read_state_element InStateElement
unfolding write_state_element read_state_element
state_element-IsCodec = record {
  reads = λ e h rest.
      rw
        (
          uint64-IsCodec.reads e.leaf_index h.leaf_index
              (write_slice write_hash e.merkle_proof rest),
          hashes-IsCodec.reads e.merkle_proof h.merkle_proof rest,
        )
        refl;
  grows = λ e rest. grow (hashes-IsCodec.grows _ _) (uint64-IsCodec.grows _ _);
}

pub record InSiacoinElement (e : SiacoinElement) : Type 0 where
  pub id : IsHash e.id
  pub state_element : InStateElement e.state_element
  pub siacoin_output : InSiacoinOutput e.siacoin_output
  pub maturity_height : IsWord e.maturity_height

pub siacoin_element-IsCodec : IsCodec write_siacoin_element read_siacoin_element InSiacoinElement
unfolding write_siacoin_element read_siacoin_element
siacoin_element-IsCodec = record {
  reads = λ e h rest.
      let tail = write_uint64 e.maturity_height rest in
      let output = write_siacoin_output e.siacoin_output tail in
      rw
        (
          state_element-IsCodec.reads e.state_element h.state_element (write_hash e.id output),
          hash-IsCodec.reads e.id h.id output,
          siacoin_output-IsCodec.reads e.siacoin_output h.siacoin_output tail,
          uint64-IsCodec.reads e.maturity_height h.maturity_height rest,
        )
        refl;
  grows = λ e rest. grow (uint64-IsCodec.grows _ _) (
      grow (siacoin_output-IsCodec.grows _ _)
        (grow (hash-IsCodec.grows _ _) (state_element-IsCodec.grows _ _)));
}

pub record InSiafundElement (e : SiafundElement) : Type 0 where
  pub id : IsHash e.id
  pub state_element : InStateElement e.state_element
  pub siafund_output : InSiafundOutput e.siafund_output
  pub claim_start : InCurrency e.claim_start

pub siafund_element-IsCodec : IsCodec write_siafund_element read_siafund_element InSiafundElement
unfolding write_siafund_element read_siafund_element
siafund_element-IsCodec = record {
  reads = λ e h rest.
      let tail = write_currency e.claim_start rest in
      let output = write_siafund_output e.siafund_output tail in
      rw
        (
          state_element-IsCodec.reads e.state_element h.state_element (write_hash e.id output),
          hash-IsCodec.reads e.id h.id output,
          siafund_output-IsCodec.reads e.siafund_output h.siafund_output tail,
          currency-IsCodec.reads e.claim_start h.claim_start rest,
        )
        refl;
  grows = λ e rest. grow (currency-IsCodec.grows _ _) (
      grow (siafund_output-IsCodec.grows _ _)
        (grow (hash-IsCodec.grows _ _) (state_element-IsCodec.grows _ _)));
}

pub record InChainIndexElement (e : ChainIndexElement) : Type 0 where
  pub id : IsHash e.id
  pub state_element : InStateElement e.state_element
  pub height : IsWord e.height
  pub chain_id : IsHash e.chain_id

pub chain_index_element-IsCodec :
    IsCodec write_chain_index_element read_chain_index_element InChainIndexElement
unfolding write_chain_index_element read_chain_index_element
chain_index_element-IsCodec = record {
  reads = λ e h rest.
      let tail = write_hash e.chain_id rest in
      let index = write_uint64 e.height tail in
      rw
        (
          state_element-IsCodec.reads e.state_element h.state_element (write_hash e.id index),
          hash-IsCodec.reads e.id h.id index,
          uint64-IsCodec.reads e.height h.height tail,
          hash-IsCodec.reads e.chain_id h.chain_id rest,
        )
        refl;
  grows = λ e rest. grow (hash-IsCodec.grows _ _) (
      grow (uint64-IsCodec.grows _ _)
        (grow (hash-IsCodec.grows _ _) (state_element-IsCodec.grows _ _)));
}

-- A header, whose timestamp the encoding keeps to the second.
pub record InHeader (h : BlockHeader) : Type 0 where
  pub parent_id : IsHash h.parent_id
  pub nonce : IsWord h.nonce
  pub timestamp : IsTime h.timestamp
  pub commitment : IsHash h.commitment

-- A header whose fields are in range and whose timestamp is a whole second is read back.
pub header-IsCodec : IsCodec write_header read_header InHeader
unfolding write_header read_header
header-IsCodec = record {
  reads = λ b h rest.
      let tail = write_hash b.commitment rest in
      let time = write_time b.timestamp tail in
      rw
        (
          hash-IsCodec.reads b.parent_id h.parent_id (write_uint64 b.nonce time),
          uint64-IsCodec.reads b.nonce h.nonce time,
          write_time-IsCodec.reads b.timestamp h.timestamp tail,
          hash-IsCodec.reads b.commitment h.commitment rest,
        )
        refl;
  grows = λ b rest. grow (hash-IsCodec.grows _ _) (
      grow (write_time-IsCodec.grows _ _)
        (grow (uint64-IsCodec.grows _ _) (hash-IsCodec.grows _ _)));
}
