-- ===== src/Server/Store/Tests.antt =====
-- The theorems on the store at concrete inputs: an engine that never fails, and a format that can
-- write one record of each type.
use ongrok_relay.Prelude.{
  ℕ, ◌≡◌, refl, true, List, [], ◌∷◌, Option, none, some, Text, text, ok, err, Fallible, text_eq,
  ◌==◌, if◌then◌else◌, arith, zero, All,
}
use ongrok_relay.Prelude.Int.{ℤ, pos}
use ongrok_relay.Libongrok.Types.{ServiceDefinition, NodeMetric, ControlEvent, EventKind, Protocol}
use ongrok_relay.Server.State.{TokenState}
use ongrok_relay.Server.Store.{
  Format, Tables, Table, Redb, put_tokens, load_or_initialize_tokens, set_row, text_lt,
  fixed_digits, drop_rows, drop_row, expired,
}
use ongrok_relay.Server.Store.History.{put_metric, metric_key, prune}
use ongrok_relay.Server.Store.Tokens.{load_or_initialize_tokens-put_tokens}
use ongrok_relay.Server.Store.Retention.{IsRetained, put_metric-retention}

abbrev web : ℕ → ServiceDefinition
web id = record {
  service_id = id;
  service_name = [];
  node_id = 0;
  protocol = Protocol.http;
  local_address = [];
  public_host = none;
  public_port = none;
  metadata = record { entries = [] };
}

abbrev write_web :
    Text → ℕ → Protocol → Text → Option Text → Option ℕ → List (Text × Text) → ℕ → Fallible Text
write_web [] zero Protocol.http [] none none [] id = ok (id ∷ [])
write_web _ _ _ _ _ _ _ id = err []

abbrev read_web : Text → Fallible ServiceDefinition
read_web (id ∷ []) = ok (web id)
read_web _ = err []

pub read-write_web :
    (name : Text) (node : ℕ) (protocol : Protocol) (address : Text) (host : Option Text)
    (port : Option ℕ) (entries : List (Text × Text)) (id : ℕ) (b : Text)
    → write_web name node protocol address host port entries id ≡ ok b
    → read_web b
      ≡ ok (record {
        service_id = id;
        service_name = name;
        node_id = node;
        protocol = protocol;
        local_address = address;
        public_host = host;
        public_port = port;
        metadata = record { entries = entries };
      })
read-write_web [] zero Protocol.http [] none none [] id b e = ground arith
read-write_web _ _ _ _ _ _ _ id b e = cc

abbrev webs : Format ServiceDefinition
webs = record {
  to_allocvec = λ s.
      write_web s.service_name s.node_id s.protocol s.local_address s.public_host s.public_port
        s.metadata.entries s.service_id;
  from_bytes = read_web;
  round_trip = λ s b.
      read-write_web s.service_name s.node_id s.protocol s.local_address s.public_host s.public_port
        s.metadata.entries s.service_id b;
}

abbrev write_tokens : Option Text → Option Text → Fallible Text
write_tokens (some hash) none = ok hash
write_tokens _ _ = err []

abbrev read_tokens : Text → Fallible TokenState
read_tokens b = ok (record { admin_hash = some b; user_hash = none })

pub read-write_tokens :
    (a u : Option Text) (b : Text)
    → write_tokens a u ≡ ok b
    → read_tokens b ≡ ok (record { admin_hash = a; user_hash = u })
read-write_tokens (some hash) none b e = ground arith
read-write_tokens _ _ b e = cc

abbrev admin_tokens : Format TokenState
admin_tokens = record {
  to_allocvec = λ t. write_tokens t.admin_hash t.user_hash;
  from_bytes = read_tokens;
  round_trip = λ t b. read-write_tokens t.admin_hash t.user_hash b;
}

abbrev metric : ℕ → NodeMetric
metric recorded = record {
  node_id = 0;
  recorded_at_unix_ms = pos recorded;
  rtt_ms = none;
  snapshot = record {
    sequence = 0;
    sent_at_unix_ms = pos recorded;
    cpu_percent = none;
    memory_percent = none;
    load_average = none;
    network_rx_bytes = none;
    network_tx_bytes = none;
  };
}

-- The metrics above can be written; the time of sending is that of recording.
abbrev write_metric :
    ℕ → ℤ → Option ℕ → ℕ → ℤ → Option ℕ → Option ℕ → Option ℕ → Option ℕ → Option ℕ → Fallible Text
write_metric zero (pos n) none zero (pos k) none none none none none =
    if n == k then ok (n ∷ []) else err []
write_metric _ _ _ _ _ _ _ _ _ _ = err []

abbrev read_first : {A : Type 0} → (ℕ → A) → Text → Fallible A
read_first f [] = err []
read_first f (n ∷ _) = ok (f n)

pub read-write_metric :
    (node : ℕ) (at : ℤ) (rtt : Option ℕ) (sequence : ℕ) (sent : ℤ) (c m l r t : Option ℕ) (b : Text)
    → write_metric node at rtt sequence sent c m l r t ≡ ok b
    → read_first metric b
      ≡ ok (record {
        node_id = node;
        recorded_at_unix_ms = at;
        rtt_ms = rtt;
        snapshot = record {
          sequence = sequence;
          sent_at_unix_ms = sent;
          cpu_percent = c;
          memory_percent = m;
          load_average = l;
          network_rx_bytes = r;
          network_tx_bytes = t;
        };
      })
read-write_metric zero (pos n) none zero (pos k) none none none none none b e = ground arith
read-write_metric _ _ _ _ _ _ _ _ _ _ b e = cc

abbrev metric_format : Format NodeMetric
metric_format = record {
  to_allocvec = λ x.
      write_metric x.node_id x.recorded_at_unix_ms x.rtt_ms x.snapshot.sequence
        x.snapshot.sent_at_unix_ms x.snapshot.cpu_percent x.snapshot.memory_percent
        x.snapshot.load_average x.snapshot.network_rx_bytes x.snapshot.network_tx_bytes;
  from_bytes = read_first metric;
  round_trip = λ x b.
      read-write_metric x.node_id x.recorded_at_unix_ms x.rtt_ms x.snapshot.sequence
        x.snapshot.sent_at_unix_ms x.snapshot.cpu_percent x.snapshot.memory_percent
        x.snapshot.load_average x.snapshot.network_rx_bytes x.snapshot.network_tx_bytes b;
}

abbrev event : ℕ → ControlEvent
event occurred = record {
  event_id = 0;
  occurred_at_unix_ms = pos occurred;
  kind = EventKind.node_online;
  node_id = none;
  service_id = none;
  token_kind = none;
}

-- A format in which nothing can be written.
abbrev unwrite : {A : Type 0} → A → Fallible Text
unwrite a = err []

pub read-unwrite :
    {A : Type 0} (read : Text → Fallible A) (a : A) (b : Text) → unwrite a ≡ ok b → read b ≡ ok a
read-unwrite read a b e = cc

abbrev read_none : {A : Type 0} → Text → Fallible A
read_none b = err []

pub singleton-injective : (i j : ℕ) → i ∷ [] ≡ j ∷ [] → i ≡ j
singleton-injective i j e = ground arith

abbrev pub engine : Redb
engine = record {
  succeeds = λ action db. true;
  service_format = webs;
  node_format = record {
    to_allocvec = unwrite;
    from_bytes = read_none;
    round_trip = read-unwrite read_none;
  };
  metric_format = metric_format;
  token_format = admin_tokens;
  event_format = record {
    to_allocvec = unwrite;
    from_bytes = read_first event;
    round_trip = read-unwrite (read_first event);
  };
  uuid_text = λ n. n ∷ [];
  uuid_injective = singleton-injective;
}

abbrev pub tables : Tables
tables = record {
  services = (7 ∷ [], 7 ∷ []) ∷ [];
  nodes = [];
  metrics = (0 ∷ [], 5 ∷ []) ∷ [];
  tokens = [];
  events = (0 ∷ [], 5 ∷ []) ∷ (1 ∷ [], 8 ∷ []) ∷ [];
}

abbrev rotated : TokenState
rotated = record { admin_hash = some (text "new"); user_hash = none }

load_or_initialize_tokens-put_tokens_example :
    load_or_initialize_tokens engine
      (record tables { tokens = (text "state", text "new") ∷ [] })
      (text "a")
      (text "u")
    ≡ ok (rotated, record tables { tokens = (text "state", text "new") ∷ [] })
unfolding put_tokens set_row
load_or_initialize_tokens-put_tokens_example =
    load_or_initialize_tokens-put_tokens engine tables
      (record tables { tokens = (text "state", text "new") ∷ [] }) rotated (text "a") (text "u")
      refl refl refl refl

-- The metric of tables is dropped when one is stored that is ten days later.
abbrev recent_metrics : Table
recent_metrics = (metric_key engine.uuid_text (metric 864000000), 864000000 ∷ []) ∷ []

put_metric-retention_example :
    All (λ (r : Text × Text). IsRetained (pos 864000000) (read_first metric r.1)) recent_metrics
unfolding put_metric prune set_row drop_rows drop_row expired text_eq text_lt metric_key
    fixed_digits
put_metric-retention_example =
    put_metric-retention engine tables (record tables { metrics = recent_metrics })
      (metric 864000000) (omega arith) refl
