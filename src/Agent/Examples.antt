-- ===== src/Agent/Examples.antt =====
-- The theorems on the aggregator, the sampler and the output, applied.
use statix.Prelude.{
  ℕ, ◌+◌, ◌≡◌, refl, false, none, some, List, [], ◌∷◌, map, count, ◌==◌, arith, nat_eq,
}
use statix.Wal.Circuit.{Circuit, record_post_success}
use statix.Agent.Aggregator.{
  WorkloadStats, default_stats, Aggregator, BatchPayload, StatixEvent, FlushInput, buffer, flush,
  row_of, ingest_memory_sample, ingest_cpu_sample, on_statix_event,
}
use statix.Agent.Aggregator.Buffers.{IsReady, operations-IsReady}
use statix.Agent.Aggregator.Totals.{cpu_sent, cpu_held, ingest_cpu_sample-total}
use statix.Agent.Output.{Answer, status, send_error, Worker, Queues, enqueue_batch_json}
use statix.Agent.Output.NoLoss.{count_all, enqueue_batch_json-count}
use statix.Agent.Attribution.Sample.{path, other_path, cache}

abbrev healthy : Circuit
healthy = record { circuit = 0; consecutive_failures = 0 }

abbrev stats : WorkloadStats
stats = record default_stats { cpu_usage_usec = 40 }

-- One key is held, and the cap is two.
abbrev aggregator : Aggregator
aggregator = record {
  window_start_ns = 100;
  buffer0 = (5, stats) ∷ [];
  buffer1 = [];
  active = 0;
  max_keys = 2;
}

abbrev at : ℕ → FlushInput
at now = record { now_ns = now; node = b'n' ∷ []; batch_id = b'b' ∷ [] }

aggregator-IsReady : IsReady aggregator
unfolding buffer
aggregator-IsReady = record {
  one_of_two = omega arith;
  other_empty = refl;
  below_cap = omega arith;
}

abbrev event : StatixEvent
event = record { kind = 1; cgroup_id = 6; memory_bytes = 0; rel_path = some other_path }

operations-IsReady_example :
    IsReady (flush (at 200) aggregator).1
    × (IsReady (ingest_memory_sample (at 200) 7 30 cache aggregator).1
        × (IsReady (ingest_cpu_sample (at 200) 7 30 cache aggregator).1
            × IsReady (on_statix_event (at 200) path event cache aggregator).2))
operations-IsReady_example =
    operations-IsReady (at 200) path event 7 30 cache aggregator aggregator-IsReady

abbrev batch : BatchPayload
batch = record {
  window_start_ns = 100;
  window_end_ns = 200;
  node = b'n' ∷ [];
  batch_id = b'b' ∷ [];
  workloads = map row_of aggregator.buffer0;
}

ingest_cpu_sample-total_example :
    (cpu_sent (ingest_cpu_sample (at 200) 7 30 cache aggregator).0
        + cpu_held (ingest_cpu_sample (at 200) 7 30 cache aggregator).1
      ≡ 70)
    × (cpu_sent (flush (at 200) aggregator).0 + cpu_held (flush (at 200) aggregator).1 ≡ 40)
ingest_cpu_sample-total_example =
    ingest_cpu_sample-total (at 200) 7 30 cache aggregator (omega arith) (omega arith)

abbrev worker : Worker
worker = record { backoff_secs = 1; circuit = record_post_success healthy; sleeps = []; posts = 4 }

-- No response, and twice a status that is worth a retry.
abbrev bad_answers : List Answer
bad_answers = send_error ∷ status 503 ∷ status 429 ∷ []

-- A full retry queue and no WAL: the oldest batch has to go.
abbrev queues : Queues ℕ
queues = record {
  retry = record { items = 1 ∷ 2 ∷ []; capacity = 2; closed = false };
  wal = none;
  dropped = [];
}

enqueue_batch_json-count_example :
    count_all (λ n. n == 1) (enqueue_batch_json false 3 queues)
    ≡ count_all (λ n. n == 1) queues + count (λ n. n == 1) (3 ∷ [])
enqueue_batch_json-count_example = enqueue_batch_json-count (λ n. n == 1) false 3 queues
