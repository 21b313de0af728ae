-- ===== src/Agent/Loop/Drained.antt =====
-- The execs while the loop of statix/src/main.rs drains the ring buffer and closes a window.
use statix.Prelude.{
  ℕ, zero, suc, ◌+◌, ◌^◌, ◌<◌, ◌≡◌, Bool, true, false, Option, none, some, List, [], ◌∷◌, ◌++◌, map,
  arith,
}
use statix.Agent.Attribution.Names.{CgroupPath}
use statix.Agent.Attribution.Cache.{CacheState, SampleTarget, for_each_sample_target}
use statix.Agent.Aggregator.{Aggregator, StatixEvent, FlushInput, flush, on_statix_event}
use statix.Agent.Aggregator.Buffers.{IsReady}
use statix.Agent.Sampler.{
  CgroupFiles, Reading, Baseline, TickState, push, read_targets, retain_live, tick,
  sample_and_flush,
}
use statix.Agent.Loop.{
  Item, undersized, sized, batch, Loop, Sampling, emitted, raw_of, handle_event, drain, drain_ring,
  close_window, drain_budget,
}
use statix.Agent.Loop.Execs.{exec_held, flush-Moved, on_statix_event-Moved}
use statix.Agent.Loop.Counted.{
  Sampled, Accounts, exec_outputs, exec_ring, exec_outputs-append, exec_outputs-map,
  exec_outputs-emitted, exec_outputs-raw_of, exec_batches-push, flush-IsReady, event-IsReady,
  ingest_readings-Sampled, flush-empties,
}

-- As `Accounts`, of a loop that runs, with the ring apart.
record Busy (n : ℕ) (q : List Item) (s : Loop) : Type 0 where
  ready : IsReady s.aggregator
  counted : exec_outputs s.outputs + exec_held s.aggregator + exec_ring q ≡ n
  active : s.running ≡ true

handle_event-Busy :
    (raw_events : Bool) (root : CgroupPath) (n : ℕ) (i : FlushInput) (e : StatixEvent)
    (q : List Item) (s : Loop)
    → n < 2 ^ 32
    → Busy n (sized i e ∷ q) s
    → Busy n q (handle_event raw_events root i e s)
unfolding handle_event
handle_event-Busy raw_events root n i e q s fits h =
    let b = (on_statix_event i root e s.cache s.aggregator).0 in
    let m =
      on_statix_event-Moved i root e s.cache s.aggregator h.ready.one_of_two
        (omega (arith, h.counted)) in
    record {
      ready = event-IsReady i root e s.cache s.aggregator h.ready;
      counted = omega (
        arith,
        exec_outputs-append s.outputs (raw_of raw_events e ++ emitted b),
        exec_outputs-append (raw_of raw_events e) (emitted b),
        exec_outputs-emitted b,
        exec_outputs-raw_of raw_events e,
        m.counted,
        h.counted,
      );
      active = h.active;
    }

drain-Busy :
    (raw_events : Bool) (root : CgroupPath) (n budget : ℕ) (q : List Item) (s : Loop)
    → n < 2 ^ 32
    → Busy n q s
    → Busy n (drain raw_events root budget q s).0 (drain raw_events root budget q s).1
unfolding drain
drain-Busy raw_events root n budget [] s fits h = h
drain-Busy raw_events root n zero (x ∷ q) s fits h = h
drain-Busy raw_events root n (suc k) (undersized ∷ q) s fits h =
    drain-Busy raw_events root n (suc k) q s fits
      (record { ready = h.ready; counted = omega (arith, h.counted); active = h.active })
drain-Busy raw_events root n (suc k) (sized i e ∷ q) s fits h =
    drain-Busy raw_events root n k q _ fits (handle_event-Busy raw_events root n i e q s fits h)

ended_absurd : {P : Type 0} (b : Bool) → b ≡ true → b ≡ false → P
ended_absurd true h k = absurd cc
ended_absurd false h k = absurd cc

pub drain_ring-Accounts :
    (raw_events : Bool) (root : CgroupPath) (n : ℕ) (s : Loop)
    → n < 2 ^ 32
    → s.running ≡ true
    → Accounts n s
    → Accounts n (drain_ring raw_events root s)
unfolding drain_ring
drain_ring-Accounts raw_events root n s fits on h =
    let busy =
      drain-Busy raw_events root n drain_budget s.ring s fits
        (record { ready = h.ready; counted = h.counted; active = on }) in
    record {
      ready = busy.ready;
      counted = busy.counted;
      ended = λ off _. ended_absurd _ busy.active off;
    }

-- One reading is taken and the window is closed.
pub record Closed (n : ℕ) (s : Loop) : Type 0 where
  pub ready : IsReady s.aggregator
  pub counted : exec_outputs s.outputs + exec_held s.aggregator + exec_ring s.ring ≡ n
  pub empty : exec_held s.aggregator ≡ 0

tick-Sampled :
    (inputs : Reading → FlushInput) (cache : CacheState)
    (files : Option (SampleTarget → CgroupFiles)) (b : Baseline) (a : Aggregator)
    → IsReady a
    → Sampled (exec_held a) (tick inputs cache files b a)
unfolding tick
tick-Sampled inputs cache none b a h = record { ready = h; counted = omega arith }
tick-Sampled inputs cache (some files) b a h =
    let rs = read_targets files (for_each_sample_target cache) in
    let t : TickState = record {
      baseline = retain_live rs b;
      aggregator = a;
      early_batches = [];
    } in
    ingest_readings-Sampled (exec_held a) inputs cache rs t
      (record { ready = h; counted = omega arith })

pub close_window-Closed :
    (n : ℕ) (x : Sampling) (s : Loop) → Accounts n s → Closed n (close_window x s)
unfolding close_window sample_and_flush
close_window-Closed n x s h =
    let t = tick x.inputs s.cache x.files s.baseline s.aggregator in
    let k = tick-Sampled x.inputs s.cache x.files s.baseline s.aggregator h.ready in
    let b = (flush x.close t.aggregator).0 in
    let m = flush-Moved x.close t.aggregator k.ready.one_of_two in
    record {
      ready = flush-IsReady x.close t.aggregator k.ready;
      counted = omega (
        arith,
        exec_outputs-append s.outputs (map batch (push b t.early_batches)),
        exec_outputs-map (push b t.early_batches),
        exec_batches-push b t.early_batches,
        m.counted,
        k.counted,
        h.counted,
      );
      empty = flush-empties x.close t.aggregator k.ready;
    }
