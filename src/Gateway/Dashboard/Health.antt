-- ===== src/Gateway/Dashboard/Health.antt =====
-- `build_health` of statix-gateway/src/routes/dashboard/mod.rs: what the gateway reports of itself
-- and of the nodes that it has heard from.
pub mod Stale
use statix.Prelude.{
  ℕ, ◌+◌, ◌-◌, ◌*◌, max, Bool, true, false, ◌&&◌, not, Option, none, some, List, [], ◌∷◌, map,
  length, ◌==◌, if◌then◌else◌,
}
use statix.Prelude.Text.{Text}
use statix.Gateway.Ingest.{AppState}
use statix.Gateway.Dashboard.Query.{codes, max_range_secs, ns_per_sec}
use statix.Gateway.Dashboard.Sql.{nodes}
use statix.Gateway.Dashboard.State.{Floats, Query, bind, number}

abbrev pub node_stale_secs : ℕ
node_stale_secs = 60

pub record NodeRow : Type 0 where
  pub node : Text
  pub last_seen_ns : ℕ

pub record NodeHealth (F : Type 0) : Type 0 where
  pub node : Text
  pub last_seen_ns : ℕ
  pub age_secs : F
  pub stale : Bool

pub record GatewayHealth : Type 0 where
  pub ready : Bool
  pub mpsc_used : ℕ
  pub mpsc_capacity : ℕ

pub record ChHealth : Type 0 where
  pub healthy : Bool
  pub query_ok : Bool

pub record Freshness (F : Type 0) : Type 0 where
  pub newest_window_end_ns : ℕ
  pub age_secs : F
  pub stale : Bool
  pub has_data : Bool

pub record HealthResponse (F : Type 0) : Type 0 where
  pub generated_at_ns : ℕ
  pub gateway : GatewayHealth
  pub clickhouse : ChHealth
  pub freshness : Freshness F
  pub nodes : List (NodeHealth F)

unfoldable pub nodes_query : ℕ → Query
nodes_query now =
    bind "cutoff_ns" (number (now - max_range_secs * ns_per_sec))
      (record { sql = nodes; params = [] })

-- `iter().map(..).max().unwrap_or(0)`
abbrev pub newest_of : List NodeRow → ℕ
newest_of [] = 0
newest_of (n ∷ ns) = max n.last_seen_ns (newest_of ns)

-- A failed query degrades to an empty list.
abbrev pub rows_or_none : Option (List NodeRow) → List NodeRow × Bool
rows_or_none none = ([], false)
rows_or_none (some rows) = (rows, true)

module _ {F : Type 0} (f : Floats F) where
  unfoldable pub age : ℕ → ℕ → F
  age now ts = if ts == 0 then f.zero else f.divide (f.of_u64 (now - ts)) (f.of_u64 ns_per_sec)

  abbrev pub is_old : ℕ → ℕ → Bool
  is_old now ts = f.greater (age now ts) (f.of_u64 node_stale_secs)

  abbrev pub node_health : ℕ → NodeRow → NodeHealth F
  node_health now n = record {
    node = n.node;
    last_seen_ns = n.last_seen_ns;
    age_secs = age now n.last_seen_ns;
    stale = is_old now n.last_seen_ns;
  }

  unfoldable pub build_health : (Query → Option (List NodeRow)) → ℕ → AppState → HealthResponse F
  unfolding age nodes_query
  build_health fetch now s =
      let (nodes, query_ok) = rows_or_none (fetch (nodes_query now)) in
      let newest = newest_of nodes in
      let remaining = s.capacity - length s.rows in
      record {
        generated_at_ns = now;
        gateway = record {
          ready = not s.is_closed && s.ch_healthy;
          mpsc_used = s.capacity - remaining;
          mpsc_capacity = s.capacity;
        };
        clickhouse = record { healthy = s.ch_healthy; query_ok = query_ok };
        freshness = record {
          newest_window_end_ns = newest;
          age_secs = age now newest;
          stale = not (newest == 0) && is_old now newest;
          has_data = not (newest == 0);
        };
        nodes = map (node_health now) nodes;
      }
