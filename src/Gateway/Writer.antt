-- ===== src/Gateway/Writer.antt =====
-- statix-gateway/src/clickhouse_writer.rs. The channel is the list of its rows; what the runtime
-- and ClickHouse answer is an argument.
pub mod Batches
pub mod Retries
pub mod Drain
pub mod Task
use statix.Prelude.{
  ℕ, zero, suc, ◌+◌, ◌-◌, ◌*◌, ◌/◌, ◌%◌, ◌≤◌, ◌<◌, ◌≡◌, refl, min, max, Bool, true, false, ◌&&◌,
  ◌||◌, not, Option, none, some, List, [], ◌∷◌, ◌++◌, map, length, take, drop, ltb, leb, ◌==◌,
  if◌then◌else◌, is_empty, clamp, arith,
}
use statix.Prelude.Text.{Text}
use statix.Agent.Aggregator.{WorkloadRow}

-- statix-wire/src/lib.rs
pub record IngestBatch : Type 0 where
  pub schema_version : ℕ
  pub window_start_ns : ℕ
  pub window_end_ns : ℕ
  pub node : Text
  pub batch_id : Text
  pub agent_version : Text
  pub workloads : List WorkloadRow

pub record MetricRow : Type 0 where
  pub window_start_ns : ℕ
  pub window_end_ns : ℕ
  pub node : Text
  pub batch_id : Text
  pub agent_version : Text
  pub cgroup_id : ℕ
  pub namespace : Option Text
  pub pod : Option Text
  pub container : Option Text
  pub k8s_resolved : Bool
  pub memory_bytes_max : ℕ
  pub memory_bytes_last : ℕ
  pub exec_count : ℕ
  pub sample_count : ℕ
  pub cpu_usage_usec : ℕ
  pub cpu_request_millicores : ℕ
  pub memory_request_bytes : ℕ
  pub cpu_limit_millicores : ℕ
  pub memory_limit_bytes : ℕ

unfoldable pub from_ingest : IngestBatch → WorkloadRow → MetricRow
from_ingest batch w = record {
  window_start_ns = batch.window_start_ns;
  window_end_ns = batch.window_end_ns;
  node = batch.node;
  batch_id = batch.batch_id;
  agent_version = batch.agent_version;
  cgroup_id = w.cgroup_id;
  namespace = w.namespace;
  pod = w.pod;
  container = w.container;
  k8s_resolved = w.k8s_resolved;
  memory_bytes_max = w.memory_bytes_max;
  memory_bytes_last = w.memory_bytes_last;
  exec_count = w.exec_count;
  sample_count = w.sample_count;
  cpu_usage_usec = w.cpu_usage_usec;
  cpu_request_millicores = w.cpu_request_millicores;
  memory_request_bytes = w.memory_request_bytes;
  cpu_limit_millicores = w.cpu_limit_millicores;
  memory_limit_bytes = w.memory_limit_bytes;
}

-- The settings, from the value that `read_env_*` returns.
unfoldable pub ingest_channel_capacity : ℕ → ℕ
ingest_channel_capacity value = max value 1024

unfoldable pub read_batch_max : ℕ → ℕ
read_batch_max value = clamp 64 16384 value

unfoldable pub read_linger_ms : ℕ → ℕ
read_linger_ms value = clamp 1 1000 value

unfoldable pub read_insert_timeout_secs : ℕ → ℕ
read_insert_timeout_secs value = clamp 1 30 value

-- What happens at one `select!`: the linger timer fires, or `recv_many` returns with the rows
-- that have arrived, none when the channel is closed and drained.
pub data Wake : Type 0 where
  linger_elapsed : Wake
  arrived : ℕ → Wake

module _ {ℓ} {A : Type ℓ} where
  -- The channel of a round: the rows that are in it. `arrived n` takes up to n of them.
  abbrev pub recv_many : ℕ → ℕ → List A → List A × List A
  recv_many room n rows = let k = min room n in (take k rows, drop k rows)

  -- The loop of `fill_batch`, over what wakes it: the batch and the rows left in the channel.
  unfoldable pub fill_rounds : ℕ → List Wake → List A → List A → List A × List A
  fill_rounds batch_max [] batch rows = (batch, rows)
  fill_rounds batch_max (linger_elapsed ∷ ws) batch rows = (batch, rows)
  fill_rounds batch_max (arrived n ∷ ws) batch rows =
      let (got, rest) = recv_many (batch_max - length batch) n rows in
      let again = fill_rounds batch_max ws (batch ++ got) rest in
      if not (ltb (length batch) batch_max) || is_empty got then (batch, rows) else again

  -- `none` is a closed and drained channel.
  unfoldable pub fill_batch : ℕ → List Wake → List A → Option (List A × List A)
  unfolding fill_rounds
  fill_batch batch_max ws [] = none
  fill_batch batch_max ws (first ∷ rows) = some (fill_rounds batch_max ws (first ∷ []) rows)

-- The answer to one insert.
pub data Insert : Type 0 where
  inserted : Insert
  refused : Insert

abbrev pub max_insert_retries : ℕ
max_insert_retries = 5

abbrev pub initial_backoff_ms : ℕ
initial_backoff_ms = 100

abbrev pub max_backoff_ms : ℕ
max_backoff_ms = 2000

-- The writer's effects: the rows in ClickHouse, those that were dropped, the health flag, and the
-- backoffs slept.
pub record Effects {ℓ} (A : Type ℓ) : Type ℓ where
  pub stored : List A
  pub dropped : List A
  pub ch_healthy : Bool
  pub attempts : ℕ
  pub sleeps : List ℕ

-- The upper end of the jitter, without the clock.
unfoldable pub rand_jitter_ms : ℕ → ℕ → ℕ
rand_jitter_ms base nanos =
    let span = base * 30 / 100 in if span == 0 then 0 else nanos % (span + 1)

module _ {ℓ} {A : Type ℓ} where
  abbrev pub on_inserted : List A → Effects A → Effects A
  on_inserted batch e = record e {
    stored = e.stored ++ batch;
    ch_healthy = true;
    attempts = e.attempts + 1;
  }

  abbrev pub on_refused : Effects A → Effects A
  on_refused e = record e { ch_healthy = false; attempts = e.attempts + 1 }

  -- The attempts that are left, `left + 1` of them. `answers` by attempt number.
  unfoldable pub retry_rounds : ℕ → ℕ → ℕ → (ℕ → Insert) → List A → Effects A → Effects A
  retry_rounds zero attempt backoff answers batch e = elim (answers attempt) [
    | inserted ↦ on_inserted batch e
    | refused ↦ let e' = on_refused e in record e' { dropped = e.dropped ++ batch }
  ]
  retry_rounds (suc left) attempt backoff answers batch e = elim (answers attempt) [
    | inserted ↦ on_inserted batch e
    | refused ↦
        let e' = on_refused e in
        retry_rounds left (attempt + 1) (min (backoff * 2) max_backoff_ms) answers batch
          (record e' { sleeps = e.sleeps ++ backoff ∷ [] })
  ]

  unfoldable pub flush_with_retry : (ℕ → Insert) → List A → Effects A → Effects A
  unfolding retry_rounds
  flush_with_retry answers batch e =
      retry_rounds (max_insert_retries - 1) 0 initial_backoff_ms answers batch e

  -- `drain_final` on fuel, over the rows left in a closed channel, which are none where the task
  -- calls it: its loop ends when the channel is closed and empty. Each `recv_many` returns what
  -- there is, up to the room. `answers` by the number of rows that are left.
  unfoldable pub drain_rounds : ℕ → ℕ → (ℕ → ℕ → Insert) → List A → List A → Effects A → Effects A
  unfolding flush_with_retry
  drain_rounds zero batch_max answers batch rows e = e
  drain_rounds (suc fuel) batch_max answers batch rows e =
      let room = batch_max - length batch in
      let got = take room rows in
      let rest = drop room rows in
      let batch' = batch ++ got in
      let flushed = flush_with_retry (answers (length rows)) batch' e in
      let next = drain_rounds fuel batch_max answers [] rest flushed in
      let more = drain_rounds fuel batch_max answers batch' rest e in
      let full =
        drain_rounds fuel batch_max answers [] rows
          (flush_with_retry (answers (length rows)) batch e) in
      let last = if is_empty batch then e else flush_with_retry (answers 0) batch e in
      if room == 0
      then full
      else if is_empty got
      then last
      else if leb batch_max (length batch')
      then next
      else more

  -- The writer's task after the ping, on fuel: it fills a batch and flushes it until the channel is
  -- closed and empty, and then makes the last drain. `rows` are the rows that the channel gives
  -- until it closes, `wakes` what ends the filling of a batch, by the rows that are left.
  unfoldable pub writer_task :
      ℕ → ℕ → (ℕ → List Wake) → (ℕ → ℕ → Insert) → List A → Effects A → Effects A
  unfolding fill_batch drain_rounds
  writer_task zero batch_max wakes answers rows e = e
  writer_task (suc fuel) batch_max wakes answers rows e =
      elim (fill_batch batch_max (wakes (length rows)) rows) [
        | none ↦ drain_rounds 1 batch_max answers [] [] e
        | some (batch, rest) ↦
            writer_task fuel batch_max wakes answers rest
              (flush_with_retry (answers (length rows)) batch e)
      ]
