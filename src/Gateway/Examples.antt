-- ===== src/Gateway/Examples.antt =====
-- The theorems on the writer and the ingest route, applied.
use statix.Prelude.{
  ℕ, ◌+◌, ◌≤◌, ◌≡◌, ◌≢◌, ◌⊎◌, true, false, none, some, List, [], ◌∷◌, ◌++◌, length, count, ◌==◌,
  if◌then◌else◌, arith,
}
use statix.Prelude.Text.{text_key}
use statix.Agent.Aggregator.{WorkloadRow}
use statix.Gateway.Writer.{
  IngestBatch, from_ingest, Insert, inserted, refused, Effects, flush_with_retry, writer_task, Wake,
  arrived, linger_elapsed,
}
use statix.Gateway.Writer.Retries.{Taken, GivenUp, flush_with_retry_lem}
use statix.Gateway.Writer.Drain.{settled}
use statix.Gateway.Writer.Task.{writer_task-settled}
use statix.Gateway.Ingest.{ok, AppState, handler}
use statix.Gateway.Ingest.AllOrNothing.{rows_of, handler_all_or_nothing}

abbrev effects : Effects ℕ
effects = record { stored = 1 ∷ []; dropped = []; ch_healthy = true; attempts = 0; sleeps = [] }

-- The second attempt succeeds.
abbrev second_time : ℕ → Insert
second_time n = if n == 0 then refused else inserted

abbrev flushed : Effects ℕ
flushed = flush_with_retry second_time (7 ∷ 8 ∷ []) effects

flush_with_retry_example :
    Taken 4 0 100 second_time (7 ∷ 8 ∷ []) effects flushed
    ⊎ GivenUp 4 0 100 second_time (7 ∷ 8 ∷ []) effects flushed
flush_with_retry_example = flush_with_retry_lem second_time (7 ∷ 8 ∷ []) effects

-- A batch of two rows at most, with one that comes while the batch is filled.
abbrev wakes : ℕ → List Wake
wakes n = arrived 1 ∷ linger_elapsed ∷ []

writer_task-settled_example :
    settled (λ n. n == 9) (writer_task 4 2 wakes (λ _. second_time) (8 ∷ 9 ∷ 9 ∷ []) effects)
    ≡ settled (λ n. n == 9) effects + count (λ n. n == 9) (8 ∷ 9 ∷ 9 ∷ [])
writer_task-settled_example =
    writer_task-settled (λ n. n == 9) 4 2 wakes (λ _. second_time) (8 ∷ 9 ∷ 9 ∷ []) effects
      (omega arith) (omega arith)

abbrev workload : WorkloadRow
workload = record {
  cgroup_id = 5;
  namespace = none;
  pod = none;
  container = none;
  k8s_resolved = false;
  memory_bytes_max = 10;
  memory_bytes_last = 9;
  exec_count = 1;
  sample_count = 2;
  cpu_usage_usec = 30;
  cpu_request_millicores = 0;
  memory_request_bytes = 0;
  cpu_limit_millicores = 0;
  memory_limit_bytes = 0;
}

abbrev batch : IngestBatch
batch = record {
  schema_version = 4;
  window_start_ns = 100;
  window_end_ns = 200;
  node = b'n' ∷ [];
  batch_id = b'b' ∷ [];
  agent_version = b'v' ∷ [];
  workloads = workload ∷ workload ∷ [];
}

abbrev state : AppState
state = record {
  rows = from_ingest batch workload ∷ [];
  capacity = 5;
  is_closed = false;
  ch_healthy = true;
  expected_bearer = some (b't' ∷ []);
}

handler_all_or_nothing_example :
    ((((handler (some (b't' ∷ [])) batch state).0 ≡ ok)
        × ((handler (some (b't' ∷ [])) batch state).1
            ≡ record state { rows = state.rows ++ rows_of batch }))
      ⊎ (((handler (some (b't' ∷ [])) batch state).0 ≢ ok)
          × ((handler (some (b't' ∷ [])) batch state).1 ≡ state)))
    × (length (handler (some (b't' ∷ [])) batch state).1.rows ≤ 5)
handler_all_or_nothing_example = handler_all_or_nothing (some (b't' ∷ [])) batch state (omega arith)
