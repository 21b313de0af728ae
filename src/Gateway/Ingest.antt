-- ===== src/Gateway/Ingest.antt =====
-- `POST /ingest` of statix-gateway/src/routes/ingest.rs and the probes of
-- statix-gateway/src/main.rs. The channel is the list of its rows, its capacity and whether the
-- writer is there.
pub mod AllOrNothing
use statix.Prelude.{
  ℕ, zero, suc, ◌+◌, ◌-◌, ◌*◌, ◌/◌, ◌≤◌, ◌<◌, ◌≡◌, refl, min, max, Bool, true, false, ◌&&◌, ◌||◌,
  not, Option, none, some, List, [], ◌∷◌, ◌++◌, map, length, ltb, leb, ◌==◌, if◌then◌else◌,
  is_empty, sat_mul64, arith,
}
use statix.Prelude.Text.{Text, bytes_eq}
use statix.Gateway.Writer.{IngestBatch, MetricRow, from_ingest}

pub data Status : Type 0 where
  ok bad_request unauthorized service_unavailable : Status

-- `AppState`, as far as the route reads it.
pub record AppState : Type 0 where
  pub rows : List MetricRow
  pub capacity : ℕ
  pub is_closed : Bool
  pub ch_healthy : Bool
  pub expected_bearer : Option Text

abbrev pub min_schema_version : ℕ
min_schema_version = 2

abbrev pub max_schema_version : ℕ
max_schema_version = 4

-- `try_reserve_many` of as many permits as there are workloads.
pub data Reserve : Type 0 where
  permits full closed : Reserve

unfoldable pub try_reserve_many : ℕ → AppState → Reserve
try_reserve_many n s =
    if s.is_closed then closed else if leb n (s.capacity - length s.rows) then permits else full

abbrev pub send_all : IngestBatch → AppState → AppState
send_all batch s = record s { rows = s.rows ++ map (from_ingest batch) batch.workloads }

abbrev pub after_reserve : Reserve → IngestBatch → AppState → Status × AppState
after_reserve permits batch s = (ok, send_all batch s)
after_reserve full batch s = (service_unavailable, s)
after_reserve closed batch s = (service_unavailable, s)

unfoldable pub ingest_inner : IngestBatch → AppState → Status × AppState
unfolding try_reserve_many
ingest_inner batch s =
    if ltb batch.schema_version min_schema_version || ltb max_schema_version batch.schema_version
    then (bad_request, s)
    else if not s.ch_healthy
    then (service_unavailable, s)
    else if is_empty batch.workloads
    then (ok, s)
    else after_reserve (try_reserve_many (length batch.workloads) s) batch s

-- The header is present, readable as text, and equal to the expected one.
abbrev pub is_authorized : Option Text → Option Text → Bool
is_authorized none header = true
is_authorized (some expected) none = false
is_authorized (some expected) (some header) = bytes_eq header expected

unfoldable pub handler : Option Text → IngestBatch → AppState → Status × AppState
unfolding ingest_inner
handler header batch s =
    if is_authorized s.expected_bearer header then ingest_inner batch s else (unauthorized, s)

abbrev pub ready_channel_full_threshold_pct : ℕ
ready_channel_full_threshold_pct = 80

unfoldable pub ingest_channel_over_threshold : ℕ → ℕ → ℕ → Bool
ingest_channel_over_threshold remaining total threshold_pct =
    if total == 0 then false else ltb (sat_mul64 remaining 100 / total) (100 - threshold_pct)

unfoldable pub health_check : AppState → Status
health_check s = if s.is_closed then service_unavailable else ok

unfoldable pub readiness_check : AppState → Status
unfolding ingest_channel_over_threshold
readiness_check s =
    if s.is_closed
    then service_unavailable
    else if not s.ch_healthy
    then service_unavailable
    else if ingest_channel_over_threshold (s.capacity - length s.rows) s.capacity
        ready_channel_full_threshold_pct
    then service_unavailable
    else ok
