-- ===== src/Gateway/Dashboard/Health/Stale.antt =====
-- When `build_health` of statix-gateway/src/routes/dashboard/mod.rs calls a node or the whole data
-- stale.
use statix.Prelude.{
  ℕ, ◌-◌, ◌*◌, ◌≡◌, refl, Bool, false, ◌&&◌, ◌||◌, not, Option, List, [], ◌∷◌, map, ltb, ◌==◌, any,
  all, arith,
}
use statix.Gateway.Ingest.{AppState}
use statix.Gateway.Dashboard.Query.{ns_per_sec}
use statix.Gateway.Dashboard.State.{Floats, Query}
use statix.Gateway.Dashboard.Health.{
  NodeRow, NodeHealth, nodes_query, newest_of, rows_or_none, age, is_old, node_health, build_health,
}

-- More than sixty seconds.
abbrev pub limit_ns : ℕ
limit_ns = 60 * ns_per_sec

-- What is relied on of `f64`: a number of nanoseconds over 1e9 exceeds 60 exactly when the number
-- exceeds 60e9, and zero does not exceed 60.
pub record IsSound {F : Type 0} (f : Floats F) : Type 0 where
  pub over_limit :
      (d : ℕ)
      → f.greater (f.divide (f.of_u64 d) (f.of_u64 ns_per_sec)) (f.of_u64 60) ≡ ltb limit_ns d
  pub zero_within : f.greater f.zero (f.of_u64 60) ≡ false

-- A node that was never heard from is not stale.
abbrev pub stale_at : ℕ → ℕ → Bool
stale_at now ts = not (ts == 0) && ltb limit_ns (now - ts)

abbrev pub seen : NodeRow → Bool
seen n = not (n.last_seen_ns == 0)

abbrev unseen_or_stale : ℕ → ℕ → Bool
unseen_or_stale now ts = not (not (ts == 0)) || stale_at now ts

newest_all :
    (now : ℕ) (rows : List NodeRow)
    → unseen_or_stale now (newest_of rows)
      ≡ all (λ (n : NodeRow). unseen_or_stale now n.last_seen_ns) rows
newest_all now [] = refl
newest_all now (n ∷ ns) = ground (arith, newest_all now ns)

newest_seen : (rows : List NodeRow) → not (newest_of rows == 0) ≡ any seen rows
newest_seen [] = refl
newest_seen (n ∷ ns) = ground (arith, newest_seen ns)

module _ {F : Type 0} (f : Floats F) (sound : IsSound f) where
  is_old_lem : (now ts : ℕ) → is_old f now ts ≡ stale_at now ts
  unfolding age
  is_old_lem now ts = ground (arith, sound.zero_within, sound.over_limit (now - ts))

  freshness_stale :
      (now : ℕ) (rows : List NodeRow)
      → not (newest_of rows == 0) && is_old f now (newest_of rows)
        ≡ any seen rows && all (λ (n : NodeRow). not (seen n) || stale_at now n.last_seen_ns) rows
  freshness_stale now rows =
      rw (is_old_lem now (newest_of rows), ← newest_all now rows, ← newest_seen rows) (ground arith)

  nodes_stale :
      (now : ℕ) (rows : List NodeRow)
      → map (λ (n : NodeHealth F). n.stale) (map (node_health f now) rows)
        ≡ map (λ (n : NodeRow). stale_at now n.last_seen_ns) rows
  nodes_stale now [] = refl
  nodes_stale now (n ∷ ns) = rw (is_old_lem now n.last_seen_ns, nodes_stale now ns) refl

  -- The health of the gateway: a node is called stale exactly when it was heard from and not in
  -- the last sixty seconds. There is data exactly when some node was heard from, and the data is
  -- called stale exactly when there is data and every node that was heard from is stale. When the
  -- query fails, all this is empty and not stale, and whether the gateway is ready is reported as
  -- before: the writer is there and ClickHouse was healthy at the last insert.
  pub build_health_lem :
      (fetch : Query → Option (List NodeRow)) (now : ℕ) (s : AppState)
      → let h = build_health f fetch now s in
        let rows = (rows_or_none (fetch (nodes_query now))).0 in
        (map (λ (n : NodeHealth F). n.stale) h.nodes
          ≡ map (λ (n : NodeRow). stale_at now n.last_seen_ns) rows)
        × ((h.freshness.has_data ≡ any seen rows)
            × ((h.freshness.stale
                  ≡ any seen rows
                    && all (λ (n : NodeRow). not (seen n) || stale_at now n.last_seen_ns) rows)
                × ((h.gateway.ready ≡ not s.is_closed && s.ch_healthy)
                    × (h.clickhouse.query_ok ≡ (rows_or_none (fetch (nodes_query now))).1))))
  unfolding build_health
  build_health_lem fetch now s =
      let rows = (rows_or_none (fetch (nodes_query now))).0 in
      (nodes_stale now rows, (newest_seen rows, (freshness_stale now rows, (refl, refl))))
