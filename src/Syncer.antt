-- ===== src/Syncer.antt =====
-- coreutils/syncer/relay_budget.go: how many large payloads may be relayed at once.
pub mod Budget
mod Examples
use qday.Base.{ℕ, ◌==◌, ◌||◌, Bool, true, false, if◌then◌else◌}
use qday.Base.Int.{ℤ, pos, leb_ℤ, ◌+ℤ◌, ◌-ℤ◌}

abbrev pub max_relay_payloads : ℕ
max_relay_payloads = 8

abbrev pub max_peer_relay_payloads : ℕ
max_peer_relay_payloads = 2

-- A peer is a number, and one that the map does not have counts 0.
pub record RelayPayloadBudget : Type 0 where
  pub active : ℤ
  pub peers : ℕ → ℤ

unfoldable pub update : (ℕ → ℤ) → ℕ → ℤ → ℕ → ℤ
update m p n q = if q == p then n else m q

unfoldable pub acquire : RelayPayloadBudget → ℕ → RelayPayloadBudget × Bool
unfolding ◌+ℤ◌ update
acquire b p =
    if leb_ℤ (pos max_relay_payloads) b.active || leb_ℤ (pos max_peer_relay_payloads) (b.peers p)
    then (b, false)
    else (
      record { active = b.active +ℤ pos 1; peers = update b.peers p (b.peers p +ℤ pos 1) },
      true,
    )

unfoldable pub release : RelayPayloadBudget → ℕ → RelayPayloadBudget
unfolding ◌-ℤ◌ update
release b p = record { active = b.active -ℤ pos 1; peers = update b.peers p (b.peers p -ℤ pos 1) }
