-- ===== src/Server/Relay/Ports.antt =====
-- Which port `first_available_tcp_port` of crates/ongrok-relay-server/src/relay.rs gives.
use ongrok_relay.Prelude.{
  ℕ, zero, suc, ◌+◌, ◌-◌, ◌≤◌, ◌<◌, ◌≡◌, ◌⊎◌, inl, inr, Bool, true, false, none, some, any, arith,
  Bool-cases, ◌==◌, refl,
}
use ongrok_relay.BTree.{BTreeMap, values}
use ongrok_relay.Libongrok.Types.{ServiceDefinition}
use ongrok_relay.Server.State.{Platform, AppState}
use ongrok_relay.Server.Relay.{holds_port, find_port, first_available_tcp_port}

abbrev is_leased : BTreeMap ServiceDefinition → ℕ → Bool
is_leased services port = any (holds_port port) (values services)

-- A port from `low` on and below `high`, which no service holds, and the least such.
abbrev pub IsFirstFree : ℕ → ℕ → BTreeMap ServiceDefinition → ℕ → Type 0
IsFirstFree low high services p =
    (low ≤ p)
    × (p < high)
    × (is_leased services p ≡ false)
    × ((q : ℕ) → low ≤ q → q < p → is_leased services q ≡ true)

abbrev pub AllLeased : ℕ → ℕ → BTreeMap ServiceDefinition → Type 0
AllLeased low high services = (q : ℕ) → low ≤ q → q < high → is_leased services q ≡ true

extend :
    (services : BTreeMap ServiceDefinition) (low high : ℕ)
    → is_leased services low ≡ true
    → AllLeased (low + 1) high services
    → AllLeased low high services
extend services low high here above q h k = elim (Bool-cases (low == q)) [
  | inl e ↦ ground arith
  | inr e ↦ above q (ground arith) k
]

find_port-cases :
    (count low : ℕ) (services : BTreeMap ServiceDefinition)
    → ((p : ℕ) × (find_port count low services ≡ some p) × IsFirstFree low (low + count) services p)
      ⊎ ((find_port count low services ≡ none) × AllLeased low (low + count) services)
unfolding find_port
find_port-cases zero low services = inr (refl, λ q h k. absurd (omega arith))
find_port-cases (suc count) low services = elim (Bool-cases (is_leased services low)) [
  | inr free ↦ inl (
    low,
    rw (free, find_port) refl,
    (omega arith, omega arith, free, λ q h k. absurd (omega arith)),
  )
  | inl leased ↦ elim (find_port-cases count (low + 1) services) [
    | inl (p, found, (least, most, free, below)) ↦ inl (
      p,
      rw (leased, find_port) found,
      (omega arith, omega arith, free, extend services low p leased below),
    )
    | inr (full, above) ↦ inr (
      rw (leased, find_port) full,
      extend services low _ leased (λ q h k. above q h (omega arith)),
    )
  ]
]

-- The port that a service gets which asks for none is the least one of the configured range that no
-- TCP service holds; there is none only if every port of the range is held.
pub first_available_tcp_port-cases :
    {P : Platform} (s : AppState P)
    → ((p : ℕ) × (first_available_tcp_port s.services s ≡ some p)
        × IsFirstFree s.tcp_port_start (s.tcp_port_end + 1) s.services p)
      ⊎ ((first_available_tcp_port s.services s ≡ none)
          × AllLeased s.tcp_port_start (s.tcp_port_end + 1) s.services)
unfolding first_available_tcp_port
first_available_tcp_port-cases s =
    elim (find_port-cases (s.tcp_port_end + 1 - s.tcp_port_start) s.tcp_port_start s.services) [
      | inl (p, found, (low, high, free, below)) ↦ inl (p, found, (low, omega arith, free, below))
      | inr (full, all) ↦ inr (full, λ q h k. all q h (omega arith))
    ]
