-- ===== src/Server/Mirror.antt =====
-- The store of crates/ongrok-relay-server/src/store.rs beside the services in memory: what the two have
-- to do with each other, over any store that takes every service.
pub mod Bystanders
pub mod Registry
pub mod Services
pub mod Steps
pub mod Tables
pub mod Restart
pub mod Tests
use ongrok_relay.Prelude.{ℕ, ◌≡◌, ◌==◌, Option, none, some, ok, if◌then◌else◌}
use ongrok_relay.BTree.{lookup}
use ongrok_relay.Libongrok.Types.{ServiceDefinition, NodeRecord, NodeMetric, ControlEvent}
use ongrok_relay.Server.State.{Platform, AppState, World, StoreOps, TokenState}

-- A store whose services are a part of it, and which stores and removes any service without an error.
-- Its other writes may fail, and leave that part alone.
pub record Durable (S : StoreOps) : Type 1 where
  pub Rows : Type 0
  pub rows : S.Db → Rows
  pub IsTable : Rows → Type 0
  pub view : Rows → ℕ → Option ServiceDefinition
  pub put :
      (db : S.Db) (service : ServiceDefinition)
      → IsTable (rows db)
      → (db' : S.Db) × (S.put db service ≡ ok db')
        × IsTable (rows db')
        × ((k : ℕ)
            → view (rows db') k
              ≡ (if service.service_id == k then some service else view (rows db) k))
  pub delete :
      (db : S.Db) (service_id : ℕ)
      → IsTable (rows db)
      → (db' : S.Db) × (S.delete db service_id ≡ ok db')
        × IsTable (rows db')
        × ((k : ℕ) → view (rows db') k ≡ (if service_id == k then none else view (rows db) k))
  pub put_node : (db db' : S.Db) (n : NodeRecord) → S.put_node db n ≡ ok db' → rows db' ≡ rows db
  pub put_metric :
      (db db' : S.Db) (m : NodeMetric) → S.put_metric db m ≡ ok db' → rows db' ≡ rows db
  pub put_event :
      (db db' : S.Db) (e : ControlEvent) → S.put_event db e ≡ ok db' → rows db' ≡ rows db
  pub put_tokens :
      (db db' : S.Db) (t : TokenState) → S.put_tokens db t ≡ ok db' → rows db' ≡ rows db

module _ {P : Platform} (D : Durable P.store) where
  -- The store has the services that are in memory, each under its identifier.
  pub record Mirrors (s : AppState P) : Type 0 where
    pub table : D.IsTable (D.rows s.store)
    pub same : (k : ℕ) → D.view (D.rows s.store) k ≡ lookup k s.services
