-- ===== src/Gateway/Dashboard/HandlerExamples.antt =====
-- The theorems on the handlers of the dashboard, applied. A float is a number of billionths.
use statix.Prelude.{
  ℕ, ◌*◌, ◌/◌, ◌≡◌, ◌≢◌, refl, true, false, none, some, List, [], ◌∷◌, map, ltb, arith,
}
use statix.Prelude.Text.{Text}
use statix.Gateway.Ingest.{AppState}
use statix.Prelude.Map.{get}
use statix.Gateway.Dashboard.Cache.{TtlCache, get_body}
use statix.Gateway.Dashboard.Limiter.{allow}
use statix.Gateway.Dashboard.Query.{StateParams, NormalizedQuery, cpu, desc, codes, ns_per_sec}
use statix.Gateway.Dashboard.State.{Floats, Backend, rows_query, totals_query, build_state}
use statix.Gateway.Dashboard.State.Bound.{AllBound, queries-AllBound}
use statix.Gateway.Dashboard.Health.{NodeRow, NodeHealth, build_health}
use statix.Gateway.Dashboard.Health.Stale.{IsSound, build_health_lem}
use statix.Gateway.Dashboard.Handlers.{
  DashboardConfig, Dashboard, Request, Response, guard, json_body, state_handler, health_handler,
}
use statix.Gateway.Dashboard.Handlers.Guarded.{passes, guarded_lem}
use statix.Gateway.Dashboard.Handlers.Cached.{served_again}

abbrev billionths : Floats ℕ
billionths = record {
  zero = 0;
  of_u64 = λ n. n * 1000000000;
  divide = λ a b. a * 1000000000 / b;
  greater = λ a b. ltb b a;
}

over_limit :
    (d : ℕ)
    → ltb 60000000000 (d * 1000000000 * 1000000000 / 1000000000000000000) ≡ ltb 60000000000 d
over_limit d =
    let e : d * 1000000000 * 1000000000 / 1000000000000000000 ≡ d = omega arith in rw e refl

billionths-IsSound : IsSound billionths
billionths-IsSound = record { over_limit = over_limit; zero_within = refl }

abbrev filtered : NormalizedQuery
filtered = record {
  range_secs = 300;
  sort = cpu;
  order = desc;
  q = some (codes "nginx");
  node = some (codes "n1");
  unattributed = true;
  limit = 100;
}

queries-AllBound_example : AllBound (rows_query filtered 5) × AllBound (totals_query filtered 5)
queries-AllBound_example = queries-AllBound filtered 5

abbrev app : AppState
app = record {
  rows = [];
  capacity = 8;
  is_closed = false;
  ch_healthy = true;
  expected_bearer = none;
}

-- One node was heard from 61 seconds ago, one never.
abbrev heard : List NodeRow
heard =
    record { node = codes "n1"; last_seen_ns = 1 }
    ∷ record { node = codes "n2"; last_seen_ns = 0 }
    ∷ []

build_health_example :
    let h = build_health billionths (λ _. some heard) 61000000001 app in
    (map (λ (n : NodeHealth ℕ). n.stale) h.nodes ≡ true ∷ false ∷ [])
    × ((h.freshness.has_data ≡ true)
        × ((h.freshness.stale ≡ true)
            × ((h.gateway.ready ≡ true) × (h.clickhouse.query_ok ≡ true))))
build_health_example =
    build_health_lem billionths billionths-IsSound (λ _. some heard) 61000000001 app

abbrev config : DashboardConfig
config = record {
  enabled = true;
  dir = none;
  cache_ttl = 2000;
  max_limit = 500;
  rate_limit_per_min = 600;
}

abbrev params : StateParams
params = record {
  range_secs = none;
  sort = none;
  order = none;
  q = none;
  node = none;
  unattributed = none;
  limit = none;
}

abbrev at : ℕ → Request
at t = record { authorization = none; allow_at = t; get_at = t; put_at = t; now_ns = t }

abbrev same : Text → Text
same t = t

abbrev decimal : ℕ → Text
decimal n = n ∷ []

-- ClickHouse has no rows, or fails.
abbrev empty_backend : Backend ℕ
empty_backend = record {
  fetch_rows = λ _. some [];
  fetch_totals = λ _. some [];
  to_json = λ _. some (codes "{}");
}

abbrev failing_backend : Backend ℕ
failing_backend = record { fetch_rows = λ _. none; fetch_totals = λ _. none; to_json = λ _. none }

abbrev empty_cache : TtlCache
empty_cache = record { entries = []; ttl = 2000; max_entries = 64; hits = 0; misses = 0 }

abbrev fresh_dashboard : Dashboard
fresh_dashboard = record {
  config = config;
  state_cache = empty_cache;
  health_cache = empty_cache;
  limiter = record { started = 0; count = 0; max_per_window = 600; window = 60 * ns_per_sec };
}

guarded_example :
    let expected = some (codes "Bearer t") in
    let state =
      state_handler billionths same same decimal empty_backend
        (at 7)
        params
        expected
        fresh_dashboard in
    let health = health_handler none (at 7) expected fresh_dashboard in
    (passes (at 7) expected fresh_dashboard ≡ false
      → (state
          ≡ state_handler billionths same same decimal failing_backend
              (at 7)
              params
              expected
              fresh_dashboard)
        × ((state ≡ health)
            × ((state.0.status ≢ 200)
                × ((state.1.state_cache ≡ fresh_dashboard.state_cache)
                    × (state.1.health_cache ≡ fresh_dashboard.health_cache)))))
    × (passes (at 7) expected fresh_dashboard ≡ true → health.0.status ≡ 200)
guarded_example =
    guarded_lem billionths same same decimal empty_backend failing_backend none (at 7) params
      (some (codes "Bearer t")) fresh_dashboard

abbrev first_answer : Response × Dashboard
first_answer =
    state_handler billionths same same decimal empty_backend (at 10) params none fresh_dashboard

first_missed : first_answer.0.cache_hit ≡ some false
unfolding state_handler guard allow get_body get build_state json_body
first_missed = refl

second_passes : passes (at 500) none first_answer.1 ≡ true
unfolding state_handler guard allow get_body get build_state
second_passes = refl

-- ClickHouse is down by the second request.
served_again_example :
    (state_handler billionths same same decimal failing_backend
      (at 500)
      params
      none
      first_answer.1).0
    ≡ json_body first_answer.0.body true
served_again_example =
    served_again billionths same same decimal empty_backend failing_backend (at 10) (at 500) params
      none fresh_dashboard first_missed second_passes (omega arith)
