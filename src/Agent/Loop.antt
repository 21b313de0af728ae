-- ===== src/Agent/Loop.antt =====
-- The event loop of statix/src/main.rs: what each arm of its `select!` does. The order in which the
-- arms run, what the kernel submits to the ring buffer, what the pod watcher's task does to the
-- shared cache, and what the files and the clock say, are the list of arms.
pub mod Execs
pub mod Counted
pub mod Drained
pub mod Runs
pub mod Polls
use statix.Prelude.{
  ℕ, zero, suc, Bool, true, false, Option, none, some, List, [], ◌∷◌, ◌++◌, map, if◌then◌else◌,
}
use statix.Agent.Attribution.Names.{CgroupPath}
use statix.Agent.Attribution.Cache.{CacheState, SampleTarget, evict_stale_cgroups}
use statix.Agent.Attribution.Pods.{PodEvent, on_pod_event}
use statix.Agent.Aggregator.{Aggregator, BatchPayload, StatixEvent, FlushInput, on_statix_event}
use statix.Agent.Sampler.{CgroupFiles, Reading, Baseline, TickState, sample_and_flush}

-- A record of the ring buffer: too short for an event, or an event with what a flush reads while
-- it is handled.
pub data Item : Type 0 where
  undersized : Item
  sized : FlushInput → StatixEvent → Item

pub data Signal : Type 0 where
  sigint sigterm : Signal

-- What the agent writes: a raw event, a batch, or the last status line.
pub data Output : Type 0 where
  raw : StatixEvent → Output
  batch : BatchPayload → Output
  shutdown : Signal → Output

pub record Loop : Type 0 where
  pub ring : List Item
  pub cache : CacheState
  pub aggregator : Aggregator
  pub baseline : Baseline
  pub outputs : List Output
  pub running : Bool
  -- The loop has ended without the flush of a signal.
  pub failed : Bool

-- What one `sample_and_flush` reads.
pub record Sampling : Type 0 where
  pub inputs : Reading → FlushInput
  pub close : FlushInput
  pub files : Option (SampleTarget → CgroupFiles)

-- An arm that is ready. `readable_error` is the ring's descriptor failing (`guard_result?`), and
-- `task_ended` the handle of the pod watcher or of the ring monitor, with whether awaiting it once
-- more panics, as it does once it has completed.
pub data Arm : Type 0 where
  submit : Item → Arm
  watch : PodEvent → Arm
  readable poll_tick readable_error : Arm
  task_ended : Bool → Arm
  flush_tick : Sampling → Arm
  eviction_tick : (CgroupPath → Bool) → Arm
  stop : Signal → Sampling → Arm

abbrev pub drain_budget : ℕ
drain_budget = 256

abbrev pub emitted : Option BatchPayload → List Output
emitted none = []
emitted (some b) = batch b ∷ []

abbrev pub raw_of : Bool → StatixEvent → List Output
raw_of raw_events e = if raw_events then raw e ∷ [] else []

-- The body of the drain loop for an event.
unfoldable pub handle_event : Bool → CgroupPath → FlushInput → StatixEvent → Loop → Loop
unfolding on_statix_event
handle_event raw_events root i e s =
    let (b, cache, aggregator) = on_statix_event i root e s.cache s.aggregator in
    record s {
      cache = cache;
      aggregator = aggregator;
      outputs = s.outputs ++ (raw_of raw_events e ++ emitted b);
    }

-- `while drained < DRAIN_BUDGET`: what is left of the ring, and the state. A record that is too
-- short does not count.
unfoldable pub drain : Bool → CgroupPath → ℕ → List Item → Loop → List Item × Loop
unfolding handle_event
drain raw_events root budget [] s = ([], s)
drain raw_events root zero (x ∷ q) s = (x ∷ q, s)
drain raw_events root (suc n) (undersized ∷ q) s = drain raw_events root (suc n) q s
drain raw_events root (suc n) (sized i e ∷ q) s =
    drain raw_events root n q (handle_event raw_events root i e s)

unfoldable pub drain_ring : Bool → CgroupPath → Loop → Loop
unfolding drain
drain_ring raw_events root s =
    let (ring, s') = drain raw_events root drain_budget s.ring s in record s' { ring = ring }

unfoldable pub close_window : Sampling → Loop → Loop
unfolding sample_and_flush
close_window x s =
    let t = sample_and_flush x.inputs x.close s.cache x.files s.baseline s.aggregator in
    record s {
      aggregator = t.aggregator;
      baseline = t.baseline;
      outputs = s.outputs ++ map batch t.early_batches;
    }

abbrev pub abort : Loop → Loop
abort s = record s { running = false; failed = true }

abbrev pub on_arm : Bool → CgroupPath → Arm → Loop → Loop
on_arm raw_events root (submit x) s = record s { ring = s.ring ++ x ∷ [] }
on_arm raw_events root (watch e) s = record s { cache = on_pod_event e s.cache }
on_arm raw_events root readable s = drain_ring raw_events root s
on_arm raw_events root poll_tick s = drain_ring raw_events root s
on_arm raw_events root readable_error s = abort s
on_arm raw_events root (task_ended panics) s = if panics then abort s else s
on_arm raw_events root (flush_tick x) s = close_window x s
on_arm raw_events root (eviction_tick exists) s = record s {
  cache = (evict_stale_cgroups exists s.cache).1;
}
on_arm raw_events root (stop signal x) s =
    let s' = close_window x s in
    record s' { outputs = s'.outputs ++ shutdown signal ∷ []; running = false }

-- When the loop has ended, only the kernel goes on.
abbrev pub after_end : Arm → Loop → Loop
after_end (submit x) s = record s { ring = s.ring ++ x ∷ [] }
after_end (watch e) s = s
after_end readable s = s
after_end poll_tick s = s
after_end readable_error s = s
after_end (task_ended panics) s = s
after_end (flush_tick x) s = s
after_end (eviction_tick exists) s = s
after_end (stop signal x) s = s

unfoldable pub step : Bool → CgroupPath → Arm → Loop → Loop
unfolding drain_ring close_window on_pod_event evict_stale_cgroups
step raw_events root arm s = if s.running then on_arm raw_events root arm s else after_end arm s

unfoldable pub run : Bool → CgroupPath → List Arm → Loop → Loop
unfolding step
run raw_events root [] s = s
run raw_events root (arm ∷ arms) s = run raw_events root arms (step raw_events root arm s)
