-- ===== src/Server/Mirror/Restart.antt =====
-- The server that is started again on the tables of one that ran before: `prepare` of `Server.Start`
-- after the steps of `Server.System`.
use ongrok_relay.Prelude.{
  ℕ, ◌≡◌, sym, ◌∙◌, ap, true, Text, ok, Fallible, bind-eq-ok, List, [], ◌∷◌, Error, arith, context,
  text, subst,
}
use ongrok_relay.BTree.{BTreeMap, lookup}
use ongrok_relay.BTree.Order.{IsSorted, insert-IsSorted}
use ongrok_relay.Libongrok.Types.{ServiceDefinition}
use ongrok_relay.Libongrok.Tokens.{hash_token}
use ongrok_relay.Server.State.{Platform, AppState, World}
use ongrok_relay.Server.Config.{RunOptions, validate_run_options}
use ongrok_relay.Server.Start.{TlsFiles, prepare, validate_tls_material}
use ongrok_relay.Server.Store.{Tables, Table, Action, Redb, load_rows, load_services}
use ongrok_relay.Server.Store.Replay.{Services}
use ongrok_relay.Server.Registry.Cases.{SameConfig}
use ongrok_relay.Server.Registry.Invariant.{IsRegistry, IsValid, SameConfig-IsRegistry}
use ongrok_relay.Server.Api.{Formats}
use ongrok_relay.Server.System.{Reach, Reach-IsValid}
use ongrok_relay.Server.Mirror.Tables.{platform, Reach-load_services}

load_rows-IsSorted :
    (decode : Text → Fallible ServiceDefinition) (message : Error) (rows : Table)
    (loaded m : BTreeMap ServiceDefinition)
    → IsSorted loaded
    → load_rows decode (λ s. s.service_id) message rows loaded ≡ ok m
    → IsSorted m
unfolding load_rows
load_rows-IsSorted decode message [] loaded m sorted done =
    let same : loaded ≡ m = cc done in subst (λ x. IsSorted x) same sorted
load_rows-IsSorted decode message ((key, value) ∷ rows) loaded m sorted done =
    let (s, read, later) = bind-eq-ok (context (decode value) message) _ done in
    load_rows-IsSorted decode message rows _ m (insert-IsSorted s.service_id s loaded sorted) later

load_services-IsSorted :
    (E : Redb) (db : Tables) (m : BTreeMap ServiceDefinition)
    → load_services E db ≡ ok m
    → IsSorted m
unfolding load_services
load_services-IsSorted E db m done =
    load_rows-IsSorted E.service_format.from_bytes (text "failed to decode service record")
      db.services [] m tt (ground arith)

module _ {P : Platform} where
  -- The registry is what its lookups give.
  same-IsRegistry :
      (s : AppState P) (m m' : BTreeMap ServiceDefinition)
      → IsSorted m'
      → ((k : ℕ) → lookup k m' ≡ lookup k m)
      → IsRegistry s m
      → IsRegistry s m'
  same-IsRegistry s m m' sorted same v = record {
    sorted = sorted;
    entries = λ k b e. v.entries k b (sym (same k) ∙ e);
    names = λ i j a b x y. v.names i j a b (sym (same i) ∙ x) (sym (same j) ∙ y);
    ports = λ i j a b x y. v.ports i j a b (sym (same i) ∙ x) (sym (same j) ∙ y);
  }

  prepare-services :
      (options : RunOptions) (files : TlsFiles) (db : P.store.Db) (s : AppState P)
      → prepare options files (ok db) ≡ ok s
      → P.store.load_services db ≡ ok s.services
  unfolding prepare
  prepare-services options files db s done =
      let (_, _, valid) = bind-eq-ok (validate_run_options options) _ done in
      let (_, _, secured) =
        bind-eq-ok (validate_tls_material options.tls_cert options.tls_key files) _ valid in
      let (services, loaded, then_nodes) = bind-eq-ok (P.store.load_services db) _ secured in
      let (nodes, _, then_tokens) = bind-eq-ok (P.store.load_nodes db) _ then_nodes in
      let (tokens, _, end) =
        bind-eq-ok
          (P.store.load_or_initialize_tokens db (hash_token P.blake3 options.admin_token)
            (hash_token P.blake3 options.user_token))
          _ then_tokens in
      let same : services ≡ s.services = cc end in loaded ∙ ap (λ x. ok x) same

-- Where the engine does not fail and postcard writes every service, from a valid registry that was
-- loaded from rows that are ascending, each under the text of its service's identifier: a server that
-- is started again on the tables of one that ran, with the same host, domain and ports, starts from a
-- valid registry, with the services that were in memory. The steps between are frames, requests, ends of
-- sessions and the clock, each of which runs to its end before the next one begins.
pub Reach-prepare :
    (E : Redb)
    → ((a : Action) (db : Tables) → E.succeeds a db ≡ true)
    → ((s : ServiceDefinition) → (b : Text) × (E.service_format.to_allocvec s ≡ ok b))
    → (blake3 : Text → Text) → (bind_port : List ℕ → ℕ → Fallible (Unit {0})) → (uuid : ℕ → ℕ)
    → (F : Formats) → {v w : World (platform E blake3 bind_port uuid)} → Reach F v w
    → IsValid v.app
    → Services E v.app.store
    → load_services E v.app.store ≡ ok v.app.services
    → (options : RunOptions) → (files : TlsFiles)
    → (s : AppState (platform E blake3 bind_port uuid))
    → prepare options files (ok w.app.store) ≡ ok s
    → SameConfig w.app s
    → IsValid s × ((k : ℕ) → lookup k s.services ≡ lookup k w.app.services)
Reach-prepare E works writes blake3 bind_port uuid F {v} {w} r valid table loaded options files s
      started config =
    let (m, reloaded, same) =
      Reach-load_services E works writes blake3 bind_port uuid F r valid table loaded in
    let found = prepare-services options files w.app.store s started in
    let is : m ≡ s.services = cc (sym reloaded ∙ found) in
    let seen = λ (k : ℕ). ap (λ x. lookup k x) (sym is) ∙ same k in
    (
      SameConfig-IsRegistry w.app s s.services config (
          same-IsRegistry w.app w.app.services s.services
            (load_services-IsSorted E w.app.store s.services found) seen (Reach-IsValid F r valid)),
      seen,
    )
