-- ===== src/Server/Interleaving/Tests.antt =====
-- The theorems on interleaved tasks at concrete tasks.
use ongrok_relay.Prelude.{◌≡◌, refl, none, some, ok, [], ◌∷◌, text}
use ongrok_relay.BTree.{BTreeMap, lookup, insert}
use ongrok_relay.Libongrok.Validation.{validate}
use ongrok_relay.Libongrok.Types.{ServiceDefinition}
use ongrok_relay.Server.State.{World}
use ongrok_relay.Server.Registry.Invariant.{IsValid}
use ongrok_relay.Server.Api.Services.{with_metadata}
use ongrok_relay.Server.Store.{load_services, load_rows}
use ongrok_relay.Server.Mirror.Tests.{durable_engine, relay_on_disk, fresh, fresh-IsValid, no_uuid}
use ongrok_relay.Server.Mirror.Tests.Encoding.{
  encode, get_text, get_protocol, get_text_option, get_port, get_metadata, put_text, put_protocol,
  put_text_option, put_port, get_entries,
}
use ongrok_relay.Server.Tests.{ssh, no_metadata}
use ongrok_relay.Server.Interleaving.{
  Task, registering, patching, removing, finished, section, Interleaved, start, moves,
}
use ongrok_relay.Server.Interleaving.Validity.{Interleaved-IsValid}
use ongrok_relay.Server.Interleaving.Revival.{patching-revival}

-- A registration comes as far as the insertion, and then a patch of the service begins.
abbrev inserted_world : Task × World relay_on_disk
inserted_world = section (registering ssh 3) fresh

abbrev patched_then : Task × World relay_on_disk
patched_then = section (patching 7 no_metadata) inserted_world.1

Interleaved-IsValid_example : IsValid patched_then.1.app
Interleaved-IsValid_example =
    Interleaved-IsValid
      (moves (inserted_world.0 ∷ []) [] (patching 7 no_metadata) inserted_world.1 (
        moves [] (patching 7 no_metadata ∷ []) (registering ssh 3) fresh
          (start (registering ssh 3 ∷ patching 7 no_metadata ∷ []) fresh)))
      fresh-IsValid

-- Service 7 in memory and in its row.
abbrev holding : World relay_on_disk
holding = record fresh {
  app = record (fresh.app) {
    services = (7, ssh) ∷ [];
    store = record (fresh.app.store) { services = (durable_engine.uuid_text 7, encode ssh) ∷ [] };
  };
}

patching-revival_example :
    (v : World relay_on_disk) × Interleaved
      (patching 7 no_metadata ∷ removing 7 ∷ [], holding)
      (finished ∷ finished ∷ [], v)
    × (lookup 7 v.app.services ≡ none)
    × (m : BTreeMap ServiceDefinition) × (load_services durable_engine v.app.store ≡ ok m)
    × (lookup 7 m ≡ some (with_metadata no_metadata ssh))
unfolding lookup validate text get_text get_protocol get_text_option get_port get_metadata put_text
    put_protocol put_text_option put_port get_entries load_services load_rows insert
patching-revival_example =
    patching-revival durable_engine (λ a db. refl) (λ s. (encode s, refl)) (λ t. t)
      (λ ports port. ok tt) no_uuid 7 no_metadata ssh holding ((ssh, refl, refl), tt, tt) refl refl
      refl refl
