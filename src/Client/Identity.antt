-- ===== src/Client/Identity.antt =====
-- The identity of a client, of crates/ongrok-relay-client/src/main.rs: `state_path`,
-- `load_or_create_state` and `write_state`. The file is what the file system holds at the one path that
-- these functions read and write; serde_json at `NodeState` is a parameter;
-- `serde(default)` makes the key of a file without one 32 zeros.
pub mod Stability
use ongrok_relay.Prelude.{
  ℕ, zero, suc, ◌+◌, ◌≡◌, Bool, true, false, List, [], ◌∷◌, ◌++◌, Option, none, some, Text, text,
  length, take, all, ◌==◌, if◌then◌else◌, Result, ok, err, Fallible, context, or_fail, bind, M,
  ◌>>=◌, ◌>>◌, pure, lift, modify, get,
}

pub record NodeState : Type 0 where
  pub node_id : ℕ
  pub private_key : Text

-- `serde_json::to_vec_pretty` and `serde_json::from_slice`. The type of a key holds 32 bytes.
pub record Json : Type 0 where
  pub to_vec_pretty : NodeState → Fallible Text
  pub from_slice : Text → Fallible NodeState
  pub round_trip :
      (s : NodeState) (t : Text)
      → length s.private_key ≡ 32
      → to_vec_pretty s ≡ ok t
      → from_slice t ≡ ok s

-- What the code reads of a path: its text and its parent.
pub record FilePath : Type 0 where
  pub text : Text
  pub parent : Option Text

-- `fs::write`, which empties the file first: it may fail after it has written some bytes.
pub data Writing : Type 0 where
  done refused : Writing
  cut_off : ℕ → Writing

-- The file at the path, how the file system answers, and the source of random bytes and UUIDs.
pub record Disk : Type 0 where
  pub file : Option Text
  pub is_readable : Bool
  pub can_create_dir : Bool
  pub writing : Writing
  pub can_set_permissions : Bool
  pub random : ℕ → ℕ
  pub drawn : ℕ
  pub uuid : ℕ

abbrev pub grant : Bool → Fallible (Unit {0})
grant allowed = if allowed then ok tt else err (text "os error")

-- `ProjectDirs::from` may fail, and a platform may have no state directory.
unfoldable pub state_path : Option (Option Text) → Option Text → Fallible FilePath
state_path project_dirs override_dir =
    bind (base override_dir)
      (λ dir. ok (record { text = dir ++ text "/node.json"; parent = some dir }))
  where
    base : Option Text → Fallible Text
    base (some path) = ok path
    base none =
        bind (or_fail project_dirs (text "unable to determine an OS state directory"))
          (λ dirs. or_fail dirs (text "the current platform has no usable state directory"))

abbrev draw_byte : M Disk ℕ
draw_byte d = (ok (d.random d.drawn), record d { drawn = d.drawn + 1 })

abbrev pub draw_bytes : ℕ → M Disk Text
draw_bytes zero = pure []
draw_bytes (suc n) = do byte ← draw_byte; rest ← draw_bytes n; pure (byte ∷ rest)

unfoldable pub random_private_key : M Disk Text
random_private_key = draw_bytes 32

abbrev store_file : FilePath → Text → Writing → M Disk (Unit {0})
store_file path json done = modify (λ d. record d { file = some json })
store_file path json refused = lift (err (text "failed to write " ++ path.text))
store_file path json (cut_off n) = do
  modify (λ d. record d { file = some (take n json) })
  lift (err (text "failed to write " ++ path.text))

abbrev pub is_zero_key : NodeState → Bool
is_zero_key state = all (λ byte. byte == 0) state.private_key

module _ (J : Json) where
  unfoldable pub write_state : FilePath → NodeState → M Disk (Unit {0})
  write_state path state = do
    json ← lift (J.to_vec_pretty state)
    d ← get
    store_file path json d.writing
    lift (context (grant d.can_set_permissions) (text "failed to set permissions on " ++ path.text))

  abbrev pub migrate : FilePath → NodeState → Bool → M Disk NodeState
  migrate path state true = do
    key ← random_private_key
    let migrated : NodeState = record state { private_key = key }
    write_state path migrated
    pure migrated
  migrate path state false = pure state

  abbrev pub load : FilePath → Text → M Disk NodeState
  load path json = do
    d ← get
    lift (context (grant d.is_readable) (text "failed to read " ++ path.text))
    state ← lift (context (J.from_slice json) (text "invalid node state at " ++ path.text))
    migrate path state (is_zero_key state)

  abbrev pub create : FilePath → M Disk NodeState
  create path = do
    parent ← lift (or_fail path.parent (text "state path has no parent"))
    d ← get
    lift (context (grant d.can_create_dir) (text "failed to create " ++ parent))
    key ← random_private_key
    let state : NodeState = record { node_id = d.uuid; private_key = key }
    write_state path state
    pure state

  abbrev pub load_from : FilePath → Option Text → M Disk NodeState
  load_from path none = create path
  load_from path (some json) = load path json

  unfoldable pub load_or_create_state : FilePath → M Disk NodeState
  unfolding write_state
  load_or_create_state path d = load_from path d.file d
