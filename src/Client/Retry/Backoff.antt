-- ===== src/Client/Retry/Backoff.antt =====
-- The pauses between the attempts of `run_with_fallback`, of
-- crates/ongrok-relay-client/src/main.rs.
use ongrok_relay.Prelude.{
  ℕ, zero, suc, ◌+◌, ◌/◌, ◌^◌, ◌≤◌, inl, inr, List, [], ◌∷◌, All, min, Bool-cases, arith,
}
use ongrok_relay.Client.Session.{Host, Job}
use ongrok_relay.Client.Dial.{CaFile}
use ongrok_relay.Client.Retry.{
  RelayEndpoints, Weather, delay, is_final, run_once_with_fallback, retry_from, run_with_fallback,
}

abbrev pub InRange : ℕ → Type 0
InRange d = (2 ≤ d) × (d ≤ 42)

power_bounds : (k : ℕ) → 1 ≤ k → k ≤ 5 → (2 ≤ 2 ^ k) × (2 ^ k ≤ 32)
power_bounds zero h k = absurd (omega arith)
power_bounds (suc zero) h k = omega arith
power_bounds (suc (suc zero)) h k = omega arith
power_bounds (suc (suc (suc zero))) h k = omega arith
power_bounds (suc (suc (suc (suc zero)))) h k = omega arith
power_bounds (suc (suc (suc (suc (suc zero))))) h k = omega arith
power_bounds (suc (suc (suc (suc (suc (suc n)))))) h k = absurd (omega arith)

delay-InRange : (w : Weather) (n : ℕ) → 1 ≤ n → InRange (delay w.random_range n)
unfolding delay
delay-InRange w n h =
    let (low, high) = power_bounds (min n 5) (omega arith) (omega arith) in
    let jitter = w.in_range (2 ^ min n 5 / 3) in (omega arith, omega arith)

module _ (H : Host) (ca : CaFile) where
  retry_from-InRange :
      (job : Job) (endpoints : RelayEndpoints) (n : ℕ) (weathers : List Weather)
      → All InRange (retry_from H ca job endpoints n weathers).slept
  unfolding retry_from
  retry_from-InRange job endpoints n [] = tt
  retry_from-InRange job endpoints n (w ∷ rest) =
      elim (Bool-cases (is_final job.once (run_once_with_fallback H ca job endpoints w).0)) [
        | inl stops ↦ rw stops tt
        | inr goes ↦ rw goes (
          delay-InRange w (min (n + 1) 4294967295) (omega arith),
          retry_from-InRange job endpoints (min (n + 1) 4294967295) rest,
        )
      ]

  -- Before each new attempt the client sleeps for 2 to 42 seconds.
  pub run_with_fallback-InRange :
      (job : Job) (endpoints : RelayEndpoints) (weathers : List Weather)
      → All InRange (run_with_fallback H ca job endpoints weathers).slept
  unfolding run_with_fallback
  run_with_fallback-InRange job endpoints weathers = retry_from-InRange job endpoints 0 weathers
