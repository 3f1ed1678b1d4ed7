-- ===== src/Client/Retry/Endurance.antt =====
-- How long the client of crates/ongrok-relay-client/src/main.rs goes on without `once`.
use ongrok_relay.Prelude.{
  ◌++◌, ℕ, ◌+◌, ◌%◌, ◌^◌, ◌≡◌, ◌≢◌, refl, sym, ap, ◌∙◌, Bool, true, false, List, [], ◌∷◌, some, map,
  find, Text, text, contains, starts_with, strip_prefix, Option-cases, ◌⊎◌, Bool-cases, inl, inr,
  min, ok, err, Error, Fallible, after-ok, lift, ◌>>◌, ◌>>=◌, Result-cases, arith,
}
use ongrok_relay.Libongrok.Types.{Frame}
use ongrok_relay.Client.Link.{Arrival, Link, cut, fresh, send, receive, sleep}
use ongrok_relay.Client.Session.{
  Host, Job, run_session, heartbeats, authenticate, publish, heartbeat_snapshot, check_ack,
  local_node_metadata, node_public_key,
}
use ongrok_relay.Client.Dial.{CaFile, run_quic, run_yamux, open_quic, open_yamux}
use ongrok_relay.Client.Retry
use ongrok_relay.Client.Retry.{
  RelayEndpoints, tcp_address, Weather, Trace, Progress, quic_limit, is_authentication_error,
  is_final, over_quic, over_tcp, fall_back, choose, run_once_with_fallback, retry_from,
  run_with_fallback,
}

module _ (H : Host) where
  heartbeats-ne-ok :
      (sequence : ℕ) (arrivals : List Arrival) (l : Link)
      → (heartbeats H false sequence arrivals l).0 ≢ ok tt
  unfolding heartbeats
  heartbeats-ne-ok sequence [] l h = ground arith
  heartbeats-ne-ok sequence (a ∷ rest) l h =
      let next = (sequence + 1) % 2 ^ 64 in
      let (frame, l1, heard, h1) =
        after-ok ((send (Frame.heartbeat (heartbeat_snapshot H next)) >> receive a) l)
          (λ frame. lift (check_ack next frame) >> (sleep 60000 >> heartbeats H false next rest))
          h in
      let (u, l2, checked, h2) =
        after-ok (lift (check_ack next frame) l1) (λ _. sleep 60000 >> heartbeats H false next rest)
          h1 in
      heartbeats-ne-ok next rest (record l2 { elapsed = l2.elapsed + 60000 }) h2

  run_session-ne-ok :
      (job : Job) (arrivals : List Arrival) (l : Link)
      → job.once ≡ false
      → (run_session H job arrivals l).0 ≢ ok tt
  unfolding run_session
  run_session-ne-ok job arrivals l steady h =
      let register =
        send (Frame.register_node (local_node_metadata H) (node_public_key H job.state)) in
      let (later, l1, known, h1) =
        after-ok (authenticate job arrivals l)
          (λ later. register >> (publish job.service later >>= heartbeats H job.once 0)) h in
      let (u, l2, registered, h2) =
        after-ok (register l1) (λ _. publish job.service later >>= heartbeats H job.once 0) h1 in
      let (rest, l3, published, h3) =
        after-ok (publish job.service later l2) (heartbeats H job.once 0) h2 in
      heartbeats-ne-ok 0 rest l3 (ap (λ b. (heartbeats H b 0 rest l3).0) (sym steady) ∙ h3)

-- Where a search of the images of a list stops.
record Split {A B : Type 0} (p : B → Bool) (f : A → B) (xs : List A) (r : B) : Type 0 where
  pub before : List A
  pub later : List A
  pub element : A
  pub parts : xs ≡ before ++ element ∷ later
  pub value : f element ≡ r
  pub holds : p r ≡ true

Split-find :
    {A B : Type 0} (p : B → Bool) (f : A → B) (xs : List A) (r : B)
    → find p (map f xs) ≡ some r
    → Split p f xs r
Split-find p f [] r h = absurd cc
Split-find p f (x ∷ xs) r h = elim (Bool-cases (p (f x))) [
  | inl stops ↦ record {
    before = [];
    element = x;
    later = xs;
    parts = refl;
    value = ground arith;
    holds = ground arith;
  }
  | inr goes ↦
      let s = Split-find p f xs r (ground arith) in
      record {
        before = x ∷ s.before;
        element = s.element;
        later = s.later;
        parts = ap (λ t. x ∷ t) s.parts;
        value = s.value;
        holds = s.holds;
      }
]

-- A text that has another one somewhere in it.
abbrev pub Says : Text → Text → Type 0
Says message part = (before : Text) × (later : Text) × (message ≡ before ++ (part ++ later))

strip_prefix-parts : (p s rest : Text) → strip_prefix p s ≡ some rest → s ≡ p ++ rest
unfolding strip_prefix
strip_prefix-parts [] s rest h = cc
strip_prefix-parts (c ∷ p) [] rest h = cc
strip_prefix-parts (c ∷ p) (d ∷ s) rest h = ground (arith, strip_prefix-parts p s rest)

starts_with-Says : (s p : Text) → starts_with s p ≡ true → Says s p
starts_with-Says s p h = elim (Option-cases (strip_prefix p s)) [
  | inl e ↦ absurd (ground arith)
  | inr (rest, e) ↦ ([], rest, strip_prefix-parts p s rest e)
]

contains-Says : (s p : Text) → contains s p ≡ true → Says s p
unfolding contains
contains-Says [] p h = starts_with-Says [] p h
contains-Says (c ∷ s) p h = elim (Bool-cases (starts_with (c ∷ s) p)) [
  | inl here ↦ starts_with-Says (c ∷ s) p here
  | inr later ↦
      let (before, rest, parts) = contains-Says s p (ground arith) in
      (c ∷ before, rest, ap (λ t. c ∷ t) parts)
]

is_authentication_error-Says :
    (e : Error)
    → is_authentication_error e ≡ true
    → Says e (text "rejected token") ⊎ Says e (text "authentication rejected")
unfolding is_authentication_error
is_authentication_error-Says e h = elim (Bool-cases (contains e (text "rejected token"))) [
  | inl first ↦ inl (contains-Says e (text "rejected token") first)
  | inr other ↦ inr (contains-Says e (text "authentication rejected") (ground arith))
]

module _ (H : Host) (ca : CaFile) where
  -- An attempt whose session over TCP ended the client, and those before it.
  pub record Rejection (job : Job) (endpoints : RelayEndpoints) (weathers : List Weather)
      (r : Fallible (Unit {0})) : Type 0 where
    pub before : List Weather
    pub later : List Weather
    pub last : Weather
    pub attempts : weathers ≡ before ++ last ∷ later
    pub error : Error
    pub result : r ≡ err error
    pub over_tcp : (Retry.over_tcp H ca job endpoints last).0 ≡ err error
    pub rejected : Says error (text "rejected token") ⊎ Says error (text "authentication rejected")

  over_quic-ne-ok :
      (job : Job) (endpoints : RelayEndpoints) (weather : Weather)
      → job.once ≡ false
      → (over_quic H ca job endpoints weather).0 ≢ ok tt
  unfolding run_quic
  over_quic-ne-ok job endpoints weather steady h =
      let route = weather.quic endpoints.quic in
      let (u, l, opened, ran) =
        after-ok (open_quic ca route (fresh 0 route.budget)) (λ _. run_session H job route.arrivals)
          h in
      run_session-ne-ok H job route.arrivals l steady ran

  over_tcp-ne-ok :
      (job : Job) (endpoints : RelayEndpoints) (weather : Weather)
      → job.once ≡ false
      → (over_tcp H ca job endpoints weather).0 ≢ ok tt
  unfolding run_yamux
  over_tcp-ne-ok job endpoints weather steady h =
      let route = weather.tcp (tcp_address endpoints) in
      let (u, l, opened, ran) =
        after-ok (open_yamux ca route (fresh 0 route.budget))
          (λ _. run_session H job route.arrivals) h in
      run_session-ne-ok H job route.arrivals l steady ran

  choose-falls_back :
      (job : Job) (endpoints : RelayEndpoints) (weather : Weather) (r : Fallible (Unit {0}) × Link)
      → r.0 ≢ ok tt
      → choose H ca job endpoints weather r
        ≡ fall_back H ca job endpoints weather (cut quic_limit r.1)
  choose-falls_back job endpoints weather (ok u, l) h = absurd (h refl)
  choose-falls_back job endpoints weather (err e, l) h = refl

  -- Without `once`, every attempt ends up on TCP, whatever happens over QUIC: of the session over QUIC
  -- is left what it wrote in the first five seconds, and the attempt's result is that over TCP.
  pub run_once_with_fallback-falls_back :
      (job : Job) (endpoints : RelayEndpoints) (weather : Weather)
      → job.once ≡ false
      → run_once_with_fallback H ca job endpoints weather ≡ (
        (over_tcp H ca job endpoints weather).0,
        record {
          over_quic = cut quic_limit (over_quic H ca job endpoints weather).1;
          over_tcp = some (over_tcp H ca job endpoints weather).1;
        },
      )
  unfolding run_once_with_fallback
  run_once_with_fallback-falls_back job endpoints weather steady =
      choose-falls_back job endpoints weather (over_quic H ca job endpoints weather)
        (over_quic-ne-ok job endpoints weather steady)

  retry_from-ended :
      (job : Job) (endpoints : RelayEndpoints) (n : ℕ) (weathers : List Weather)
      → (retry_from H ca job endpoints n weathers).ended
        ≡ find
            (is_final job.once)
            (map (λ w. (run_once_with_fallback H ca job endpoints w).0) weathers)
  unfolding retry_from
  retry_from-ended job endpoints n [] = refl
  retry_from-ended job endpoints n (w ∷ rest) =
      ground (arith, retry_from-ended job endpoints (min (n + 1) 4294967295) rest)

  -- Without `once`, the client stops only after an attempt over TCP that ended with an error, and this
  -- error has "rejected token" or "authentication rejected" in it.
  pub run_with_fallback-stops :
      (job : Job) (endpoints : RelayEndpoints) (weathers : List Weather) (r : Fallible (Unit {0}))
      → job.once ≡ false
      → (run_with_fallback H ca job endpoints weathers).ended ≡ some r
      → Rejection job endpoints weathers r
  unfolding run_with_fallback
  run_with_fallback-stops job endpoints weathers r steady ended =
      let result = λ (w : Weather). (run_once_with_fallback H ca job endpoints w).0 in
      let found =
        Split-find (is_final job.once) result weathers r
          (sym (retry_from-ended job endpoints 0 weathers) ∙ ended) in
      let tcp : (over_tcp H ca job endpoints found.element).0 ≡ r =
        ap (λ x. x.0) (sym (run_once_with_fallback-falls_back job endpoints found.element steady))
        ∙ found.value in
      elim (Result-cases r) [
        | inl (u, fine) ↦ absurd (over_tcp-ne-ok job endpoints found.element steady (tcp ∙ fine))
        | inr (e, failed) ↦ record {
          before = found.before;
          last = found.element;
          later = found.later;
          attempts = found.parts;
          error = e;
          result = failed;
          over_tcp = tcp ∙ failed;
          rejected = is_authentication_error-Says e (ground (arith, found.holds));
        }
      ]
