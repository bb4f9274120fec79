-- ===== src/Lib.antt =====
-- The consensus of QDAY, a fork of Sia whose coins are spent with two signatures and decay once the
-- canary, a discrete logarithm, is published.
--
-- A chain is a list of headers over a `State`; a block moves coins by transactions that spend and
-- create elements of the state. Blocks and headers are validated against the state, applied to it
-- by a `MidState`, and the next state carries the work, the difficulty and the height of activation.
--
-- The files:
-- - Base: tests, lists, integers, machine words, byte slices, options and results.
-- - Currency (core/types/currency.go): amounts of 128 bits in two words. `Add`, `Sub`, `Mul`,
--   `Mul64`, `Div`, `Div64`, `quoRem` and their flagged forms are add, sub, mul, mul_word, div,
--   div_word, quo_rem, add_with_overflow and so on; a panic is `none`.
-- - Work (core/consensus/application.go): work of 256 bits in four words, and targets.
-- - Accumulator (core/consensus/merkle.go): the forest of Merkle trees that a state stands on.
--   containsLeaf, addLeaves and proofRoot are contains_leaf, add_leaves and proof_root; Elements has
--   the leaves of the kinds of elements and ValidateTransactionElements, Update has updateLeaves and
--   applyBlock. Roots and Levels say which list of leaf hashes a forest stands for.
-- - State (core/consensus/state.go): the state and what is read off it.
-- - Header (core/consensus/application.go, core/consensus/validation.go): ApplyHeader with the
--   difficulty adjustment, and ValidateHeader with the median of the timestamps.
-- - Policy (core/types/policy.go, core/types/qday.go, core/types/qday_swap.go): spend policies, their
--   addresses and `Verify`; the native policy of two keys and the policies of atomic swaps.
-- - Types (core/types/types.go): elements, contracts, transactions and blocks.
-- - Ledger (core/consensus/state.go, core/consensus/application.go): MidState and
--   ApplyV2Transaction.
-- - Qday (core/consensus/qday.go): parameters, envelopes, decay, work, and the rules for
--   transactions and for the markers of a block.
-- - Validation (core/consensus/validation.go): the coins of a transaction, validateV2Siacoins
--   and validateV2CurrencyOverflow, and the payouts of a block, validateMinerPayouts; its children
--   Siafunds, Contracts and Storage have validateV2Siafunds, validateV2FileContracts and the storage
--   proofs, and Whole has ValidateV2Transaction.
-- - Wire (core/types/encoding.go): Encoder and Decoder. An encoder is a function of what is written
--   after its value, a decoder one of the bytes left; EncodeTo and DecodeFrom of a type are write_
--   and read_ with its name. Codec, Values and the modules named Trip have the round trips, and
--   Semantics has V2TransactionSemantics.
-- - Block (core/consensus/validation.go, core/consensus/application.go): ValidateOrphan and
--   ValidateBlock, which run Validation on each transaction and Ledger in between, and, in Effects,
--   ApplyBlock, which runs Ledger, the Accumulator and Header. The supplement of a block is
--   empty, so a block with a transaction of the first version is refused.
-- - Miner (coreutils/qday/miner.go): CandidateWithNonce, which runs Validation and Ledger on the
--   transactions of a pool to make the block that Block is to accept.
-- - Syncer (coreutils/syncer/relay_budget.go): the budget of the large payloads that peers relay
--   unasked. It is a map of counts, and the number of a peer stands for its connection.
-- - Sample, and the modules Sample and Examples of the parts: concrete inputs and tests.
--
-- A hash, an ID, an address, a key and a [32]byte is the number of its big-endian bytes, and a
-- signature is a number. A uint64 is a native number that is below 2 ^ 64 where a theorem says so,
-- and its wrap-around is written out. Times and durations are integers of nanoseconds; durations
-- saturate as they do in Go. A Go map is a function or an association, a pointer to an element of a
-- slice is its index, and an error is a constructor without its text.
--
-- There is no fuel: all loops are structural recursion over a list, a count of bits or words, or
-- the number of keys or items that a message states; a policy is read with as many levels as its
-- nesting may have, which is 33 with the outermost.
--
-- Parameters stand for the hash functions and the IDs and hashes to sign that are made with them,
-- the two signature schemes, the curve of the canary, the target rule before the final cut of the
-- hardfork, and, in Validation, for the tests of membership in the accumulator, which
-- Validation.Members fills in. Where a theorem assumes that equal hashes have equal inputs, it says
-- so; nothing else is assumed of them.
--
-- Not modelled: the first version of transactions, which QDAY blocks do not hold, the reverting of
-- blocks and the growth of the proofs that clients keep, the encodings of blocks and their
-- multiproofs, text and JSON forms, the chain manager, and all of the network, the
-- database, the wallet and the programs around them.
pub mod Base
pub mod Currency
pub mod Work
pub mod Accumulator
pub mod State
pub mod Sample
pub mod Header
pub mod Policy
pub mod Types
pub mod Ledger
pub mod Qday
pub mod Validation
pub mod Block
pub mod Wire
pub mod Miner
pub mod Syncer
