-- ===== src/Agent/Loop/Counted.antt =====
-- Every exec that reaches the ring buffer, followed through the event loop of statix/src/main.rs.
use statix.Prelude.{
  ℕ, ◌+◌, ◌≡◌, refl, ap, Bool, true, false, Option, none, some, List, [], ◌∷◌, ◌++◌, map, is_empty,
  arith,
}
use statix.Prelude.Map.{Map}
use statix.Agent.Attribution.Names.{CgroupPath}
use statix.Agent.Attribution.Cache.{CacheState}
use statix.Agent.Aggregator.{
  WorkloadStats, Aggregator, BatchPayload, StatixEvent, FlushInput, buffer, set_buffer, flush,
  ingest_memory_sample, ingest_cpu_sample, on_statix_event,
}
use statix.Agent.Aggregator.Buffers.{IsReady, operations-IsReady}
use statix.Agent.Sampler.{
  Reading, TickState, push, cpu_delta, ingest_memory, ingest_delta, ingest_cpu, ingest_readings,
}
use statix.Agent.Loop.{
  Item, undersized, sized, Output, raw, batch, shutdown, Loop, Arm, submit, watch, readable,
  poll_tick, readable_error, task_ended, flush_tick, eviction_tick, stop, emitted, raw_of,
}
use statix.Agent.Loop.Execs.{
  exec_total, exec_rows, exec_sent, exec_held, exec_of, ingest_memory_sample-Moved,
  ingest_cpu_sample-Moved,
}

abbrev pub exec_batches : List BatchPayload → ℕ
exec_batches [] = 0
exec_batches (b ∷ bs) = exec_rows b.workloads + exec_batches bs

abbrev pub exec_output : Output → ℕ
exec_output (raw e) = 0
exec_output (batch b) = exec_rows b.workloads
exec_output (shutdown signal) = 0

abbrev pub exec_outputs : List Output → ℕ
exec_outputs [] = 0
exec_outputs (o ∷ os) = exec_output o + exec_outputs os

abbrev pub exec_item : Item → ℕ
exec_item undersized = 0
exec_item (sized i e) = exec_of e

abbrev pub exec_ring : List Item → ℕ
exec_ring [] = 0
exec_ring (x ∷ q) = exec_item x + exec_ring q

-- The execs that the kernel submits.
abbrev pub exec_arms : List Arm → ℕ
exec_arms [] = 0
exec_arms (submit x ∷ arms) = exec_item x + exec_arms arms
exec_arms (watch e ∷ arms) = exec_arms arms
exec_arms (readable ∷ arms) = exec_arms arms
exec_arms (poll_tick ∷ arms) = exec_arms arms
exec_arms (readable_error ∷ arms) = exec_arms arms
exec_arms (task_ended panics ∷ arms) = exec_arms arms
exec_arms (flush_tick x ∷ arms) = exec_arms arms
exec_arms (eviction_tick exists ∷ arms) = exec_arms arms
exec_arms (stop signal x ∷ arms) = exec_arms arms

pub exec_outputs-append :
    (os ps : List Output) → exec_outputs (os ++ ps) ≡ exec_outputs os + exec_outputs ps
exec_outputs-append [] ps = omega arith
exec_outputs-append (o ∷ os) ps = omega (arith, exec_outputs-append os ps)

pub exec_outputs-map : (bs : List BatchPayload) → exec_outputs (map batch bs) ≡ exec_batches bs
exec_outputs-map [] = refl
exec_outputs-map (b ∷ bs) = omega (arith, exec_outputs-map bs)

pub exec_outputs-emitted : (o : Option BatchPayload) → exec_outputs (emitted o) ≡ exec_sent o
exec_outputs-emitted none = refl
exec_outputs-emitted (some b) = omega arith

pub exec_outputs-raw_of : (r : Bool) (e : StatixEvent) → exec_outputs (raw_of r e) ≡ 0
exec_outputs-raw_of true e = refl
exec_outputs-raw_of false e = refl

pub exec_ring-append :
    (q : List Item) (x : Item) → exec_ring (q ++ x ∷ []) ≡ exec_ring q + exec_item x
exec_ring-append [] x = omega arith
exec_ring-append (y ∷ q) x = omega (arith, exec_ring-append q x)

pub exec_batches-push :
    (o : Option BatchPayload) (bs : List BatchPayload)
    → exec_batches (push o bs) ≡ exec_batches bs + exec_sent o
exec_batches-push none bs = omega arith
exec_batches-push (some b) [] = omega arith
exec_batches-push (some b) (c ∷ bs) = omega (arith, exec_batches-push (some b) bs)

abbrev no_event : StatixEvent
no_event = record { kind = 0; cgroup_id = 0; memory_bytes = 0; rel_path = none }

abbrev pub no_labels : CacheState
no_labels = record {
  cgroup_paths = [];
  memory_current_paths = [];
  memory_stat_paths = [];
  cpu_stat_paths = [];
  cgroup_labels = [];
  pod_by_uid = [];
}

pub flush-IsReady : (i : FlushInput) (a : Aggregator) → IsReady a → IsReady (flush i a).1
flush-IsReady i a h = (operations-IsReady i [] no_event 0 0 no_labels a h).0

pub event-IsReady :
    (i : FlushInput) (root : CgroupPath) (e : StatixEvent) (cache : CacheState) (a : Aggregator)
    → IsReady a
    → IsReady (on_statix_event i root e cache a).2
event-IsReady i root e cache a h = (((operations-IsReady i root e 0 0 cache a h).1).1).1

-- A sampling pass that has not lost an exec of the window.
pub record Sampled (held : ℕ) (t : TickState) : Type 0 where
  pub ready : IsReady t.aggregator
  pub counted : exec_batches t.early_batches + exec_held t.aggregator ≡ held

ingest_memory-Sampled :
    (held : ℕ) (i : FlushInput) (cache : CacheState) (id : ℕ) (o : Option ℕ) (t : TickState)
    → Sampled held t
    → Sampled held (ingest_memory i cache id o t)
ingest_memory-Sampled held i cache id none t h = h
ingest_memory-Sampled held i cache id (some bytes) t h =
    let m = ingest_memory_sample-Moved i id bytes cache t.aggregator h.ready.one_of_two in
    record {
      ready = ((operations-IsReady i [] no_event id bytes cache t.aggregator h.ready).1).0;
      counted = omega (
        arith,
        exec_batches-push (ingest_memory_sample i id bytes cache t.aggregator).0 t.early_batches,
        m.counted,
        h.counted,
      );
    }

ingest_delta-Sampled :
    (held : ℕ) (i : FlushInput) (cache : CacheState) (id : ℕ) (o : Option ℕ) (t : TickState)
    → Sampled held t
    → Sampled held (ingest_delta i cache id o t)
ingest_delta-Sampled held i cache id none t h = h
ingest_delta-Sampled held i cache id (some delta) t h =
    let m = ingest_cpu_sample-Moved i id delta cache t.aggregator h.ready.one_of_two in
    record {
      ready = (((operations-IsReady i [] no_event id delta cache t.aggregator h.ready).1).1).0;
      counted = omega (
        arith,
        exec_batches-push (ingest_cpu_sample i id delta cache t.aggregator).0 t.early_batches,
        m.counted,
        h.counted,
      );
    }

ingest_cpu-Sampled :
    (held : ℕ) (i : FlushInput) (cache : CacheState) (id : ℕ) (o : Option ℕ) (t : TickState)
    → Sampled held t
    → Sampled held (ingest_cpu i cache id o t)
ingest_cpu-Sampled held i cache id none t h = h
ingest_cpu-Sampled held i cache id (some current) t h =
    let (delta, b) = cpu_delta id current t.baseline in
    ingest_delta-Sampled held i cache id delta (record t { baseline = b })
      (record { ready = h.ready; counted = h.counted })

pub ingest_readings-Sampled :
    (held : ℕ) (inputs : Reading → FlushInput) (cache : CacheState) (rs : List Reading)
    (t : TickState)
    → Sampled held t
    → Sampled held (ingest_readings inputs cache rs t)
unfolding ingest_readings
ingest_readings-Sampled held inputs cache [] t h = h
ingest_readings-Sampled held inputs cache (r ∷ rs) t h =
    ingest_readings-Sampled held inputs cache rs _ (
      ingest_cpu-Sampled held (inputs r) cache r.cgroup_id r.usage_usec _
        (ingest_memory-Sampled held (inputs r) cache r.cgroup_id r.memory_bytes t h))

-- The loop: what the aggregator holds, and what is still in the ring, are the execs that no batch
-- has yet; a loop that a signal has ended holds none.
pub record Accounts (n : ℕ) (s : Loop) : Type 0 where
  pub ready : IsReady s.aggregator
  pub counted : exec_outputs s.outputs + exec_held s.aggregator + exec_ring s.ring ≡ n
  pub ended : s.running ≡ false → s.failed ≡ false → exec_held s.aggregator ≡ 0

empty_exec : (m : Map ℕ WorkloadStats) → is_empty m ≡ true → exec_total m ≡ 0
empty_exec [] h = refl
empty_exec (x ∷ m) h = absurd cc

pub flush-empties : (i : FlushInput) (a : Aggregator) → IsReady a → exec_held (flush i a).1 ≡ 0
unfolding flush buffer set_buffer
flush-empties i a h =
    ground
      (arith, h.one_of_two, ap exec_total h.other_empty, empty_exec a.buffer0, empty_exec a.buffer1)
