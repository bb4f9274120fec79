-- ===== src/Qday.antt =====
-- core/consensus/qday.go: what QDAY adds to the consensus rules.
pub mod Envelope
pub mod Params
pub mod Difficulty
pub mod Transaction
pub mod Accepted
pub mod Markers
pub mod RoundTrip
pub mod Decay
pub mod Canonical
pub mod Sample
mod Examples
