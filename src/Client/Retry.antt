-- ===== src/Client/Retry.antt =====
-- How a client goes on, of crates/ongrok-relay-client/src/main.rs: `run_once_with_fallback`,
-- `is_authentication_error` and `run_with_fallback`. What the network answers in each attempt is a
-- list; past its end the client is still at it.
pub mod Endurance
pub mod Backoff
use ongrok_relay.Prelude.{
  ℕ, ◌+◌, ◌/◌, ◌^◌, ◌≤◌, min, Bool, true, false, ◌||◌, List, [], ◌∷◌, Option, none, some, Text,
  text, contains, leb, if◌then◌else◌, ok, err, Error, Fallible,
}
use ongrok_relay.Client.Link.{Link, fresh, cut}
use ongrok_relay.Client.Dial.{CaFile, QuicRoute, TcpRoute, run_quic, run_yamux}
use ongrok_relay.Client.Session.{Host, Job}

pub record RelayEndpoints : Type 0 where
  pub quic : Text
  pub tcp_tls : Option Text

-- What an attempt meets, by address, and the random number that is drawn after it: `random_range`
-- gives one up to its bound.
pub record Weather : Type 0 where
  pub quic : Text → QuicRoute
  pub tcp : Text → TcpRoute
  pub random_range : ℕ → ℕ
  pub in_range : (top : ℕ) → random_range top ≤ top

-- What was written on each transport.
pub record Trace : Type 0 where
  pub over_quic : Link
  pub over_tcp : Option Link

-- Where a client that is not told to stop stands: its last result, if it has ended, and the seconds
-- that it slept before each new attempt.
pub record Progress : Type 0 where
  pub ended : Option (Fallible (Unit {0}))
  pub slept : List ℕ

abbrev pub quic_limit : ℕ
quic_limit = 5000

abbrev pub tcp_address : RelayEndpoints → Text
tcp_address endpoints = or_quic endpoints.tcp_tls
  where
    or_quic : Option Text → Text
    or_quic none = endpoints.quic
    or_quic (some address) = address

unfoldable pub is_authentication_error : Error → Bool
is_authentication_error message =
    contains message (text "rejected token") || contains message (text "authentication rejected")

unfoldable pub delay : (ℕ → ℕ) → ℕ → ℕ
delay random_range retry_attempt =
    let base_delay = 2 ^ min retry_attempt 5 in base_delay + random_range (base_delay / 3)

abbrev pub is_final : Bool → Fallible (Unit {0}) → Bool
is_final once (ok done) = true
is_final once (err error) = once || is_authentication_error error

module _ (H : Host) (ca : CaFile) where
  abbrev pub over_quic : Job → RelayEndpoints → Weather → Fallible (Unit {0}) × Link
  over_quic job endpoints weather =
      run_quic H ca job (weather.quic endpoints.quic) (fresh 0 (weather.quic endpoints.quic).budget)

  abbrev pub over_tcp : Job → RelayEndpoints → Weather → Fallible (Unit {0}) × Link
  over_tcp job endpoints weather =
      run_yamux H ca job (weather.tcp (tcp_address endpoints))
        (fresh 0 (weather.tcp (tcp_address endpoints)).budget)

  -- After an error or a timeout of QUIC.
  abbrev pub fall_back : Job → RelayEndpoints → Weather → Link → Fallible (Unit {0}) × Trace
  fall_back job endpoints weather link =
      let (result, last) = over_tcp job endpoints weather in
      (result, record { over_quic = link; over_tcp = some last })

  abbrev pub choose :
      Job → RelayEndpoints → Weather → Fallible (Unit {0}) × Link → Fallible (Unit {0}) × Trace
  choose job endpoints weather (ok done, link) =
      if leb link.elapsed quic_limit
      then (ok done, record { over_quic = link; over_tcp = none })
      else fall_back job endpoints weather (cut quic_limit link)
  choose job endpoints weather (err error, link) =
      fall_back job endpoints weather (cut quic_limit link)

  unfoldable pub run_once_with_fallback :
      Job → RelayEndpoints → Weather → Fallible (Unit {0}) × Trace
  run_once_with_fallback job endpoints weather =
      choose job endpoints weather (over_quic job endpoints weather)

  unfoldable pub retry_from : Job → RelayEndpoints → ℕ → List Weather → Progress
  unfolding run_once_with_fallback delay is_authentication_error
  retry_from job endpoints retry_attempt [] = record { ended = none; slept = [] }
  retry_from job endpoints retry_attempt (weather ∷ later) =
      let result = (run_once_with_fallback job endpoints weather).0 in
      let attempt = min (retry_attempt + 1) 4294967295 in
      let rest = retry_from job endpoints attempt later in
      if is_final job.once result
      then record { ended = some result; slept = [] }
      else record { ended = rest.ended; slept = delay weather.random_range attempt ∷ rest.slept }

  unfoldable pub run_with_fallback : Job → RelayEndpoints → List Weather → Progress
  unfolding retry_from
  run_with_fallback job endpoints weathers = retry_from job endpoints 0 weathers
