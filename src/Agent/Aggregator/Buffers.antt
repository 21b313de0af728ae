-- ===== src/Agent/Aggregator/Buffers.antt =====
-- The double buffer of statix/src/aggregator.rs: which buffer is written, how large it gets, and
-- which window a batch covers.
use statix.Prelude.{
  ℕ, ◌-◌, ◌≤◌, ◌<◌, ◌≡◌, refl, ap, sym, ◌∙◌, true, Option, none, some, [], ◌∷◌, map, length, leb,
  ◌==◌, if_elim, is_empty, arith, nat_eq,
}
use statix.Prelude.Map.{Map, get, length-insert}
use statix.Agent.Attribution.Names.{CgroupPath}
use statix.Agent.Attribution.Cache.{CacheState, on_identity_event, labels_for_cgroup}
use statix.Agent.Aggregator.{
  WorkloadStats, Aggregator, BatchPayload, StatixEvent, FlushInput, buffer, set_buffer,
  stats_or_default, update_entry, row_of, flush, try_early_flush, count_exec, count_cpu,
  count_memory, ingest_memory_sample_inner, ingest_memory_sample, ingest_cpu_sample,
  on_statix_event,
}

-- The buffer that is not written is empty, and the other is below the cap.
pub record IsReady (a : Aggregator) : Type 0 where
  pub one_of_two : a.active ≤ 1
  pub other_empty : buffer (1 - a.active) a ≡ []
  pub below_cap : length (buffer a.active a) < a.max_keys

-- As `IsReady`, but possibly full.
record IsFilled (a : Aggregator) : Type 0 where
  one_of_two : a.active ≤ 1
  other_empty : buffer (1 - a.active) a ≡ []
  at_cap : length (buffer a.active a) ≤ a.max_keys
  some_cap : 0 < a.max_keys

update_entry-IsFilled :
    (id : ℕ) (change : WorkloadStats → WorkloadStats) (a : Aggregator)
    → IsReady a
    → IsFilled (update_entry id change a)
unfolding update_entry buffer set_buffer
update_entry-IsFilled id change a h =
    let m = buffer a.active a in
    let added = length-insert id (change (stats_or_default (get id m))) m in
    record {
      one_of_two = ground (arith, h.one_of_two);
      other_empty = ground (arith, h.one_of_two, h.other_empty);
      at_cap = ground (arith, h.below_cap, added);
      some_cap = ground (arith, h.below_cap);
    }

empty_length : (m : Map ℕ WorkloadStats) → is_empty m ≡ true → length m ≡ 0
empty_length [] h = refl
empty_length (x ∷ m) h = absurd cc

flush-IsReady : (i : FlushInput) (a : Aggregator) → IsFilled a → IsReady (flush i a).1
unfolding flush buffer set_buffer
flush-IsReady i a h = record {
  one_of_two = ground (arith, h.one_of_two);
  other_empty = ground (arith, h.one_of_two, h.other_empty);
  below_cap = ground (
    arith,
    h.one_of_two,
    h.other_empty,
    h.some_cap,
    empty_length (buffer a.active a),
    ap length h.other_empty,
  );
}

try_early_flush-IsReady :
    (i : FlushInput) (a : Aggregator) → IsFilled a → IsReady (try_early_flush i a).1
unfolding try_early_flush
try_early_flush-IsReady i a h =
    if_elim (λ (r : Option BatchPayload × Aggregator). IsReady r.1)
      (leb a.max_keys (length (buffer a.active a))) (flush i a) (none, a) (λ _. flush-IsReady i a h)
      (λ short. record {
        one_of_two = h.one_of_two;
        other_empty = h.other_empty;
        below_cap = ground arith;
      })

IsReady-IsFilled : (a : Aggregator) → IsReady a → IsFilled a
IsReady-IsFilled a h = record {
  one_of_two = h.one_of_two;
  other_empty = h.other_empty;
  at_cap = omega (arith, h.below_cap);
  some_cap = omega (arith, h.below_cap);
}

ingest_inner-IsFilled :
    (id bytes : ℕ) (cache : CacheState) (a : Aggregator)
    → IsReady a
    → IsFilled (ingest_memory_sample_inner id bytes cache a)
unfolding ingest_memory_sample_inner
ingest_inner-IsFilled id bytes cache a h =
    update_entry-IsFilled id (count_memory bytes (labels_for_cgroup id cache)) a h

-- Every operation keeps the buffers ready: the one that is not written is empty, so a flush never
-- mixes two windows, and the other holds fewer keys than the cap, because a full one is flushed in
-- the same step. This is so for the periodic flush, both samples, and an event of any kind.
pub operations-IsReady :
    (i : FlushInput) (root : CgroupPath) (e : StatixEvent) (id n : ℕ) (cache : CacheState)
    (a : Aggregator)
    → IsReady a
    → IsReady (flush i a).1
      × (IsReady (ingest_memory_sample i id n cache a).1
          × (IsReady (ingest_cpu_sample i id n cache a).1
              × IsReady (on_statix_event i root e cache a).2))
unfolding ingest_memory_sample ingest_cpu_sample on_statix_event
operations-IsReady i root e id n cache a h =
    let l = labels_for_cgroup e.cgroup_id (on_identity_event root e.cgroup_id e.rel_path cache) in
    let identity =
      try_early_flush-IsReady i _ (update_entry-IsFilled e.cgroup_id (count_exec l) a h) in
    let sample =
      try_early_flush-IsReady i _ (ingest_inner-IsFilled e.cgroup_id e.memory_bytes cache a h) in
    let other = try_early_flush-IsReady i a (IsReady-IsFilled a h) in
    (
      flush-IsReady i a (IsReady-IsFilled a h),
      (
        try_early_flush-IsReady i _ (ingest_inner-IsFilled id n cache a h),
        (
          try_early_flush-IsReady i _
              (update_entry-IsFilled id (count_cpu n (labels_for_cgroup id cache)) a h),
          if_elim (λ (r : Option BatchPayload × CacheState × Aggregator). IsReady r.2) (e.kind == 1)
              _ _ (λ _. identity)
              (λ _.
                if_elim (λ (r : Option BatchPayload × CacheState × Aggregator). IsReady r.2)
                  (e.kind == 2) _ _ (λ _. sample) (λ _. other)),
        ),
      ),
    )

flush-window :
    (i : FlushInput) (a : Aggregator) (b : BatchPayload)
    → (flush i a).0 ≡ some b
    → (b.window_start_ns ≡ a.window_start_ns)
      × ((b.window_end_ns ≡ i.now_ns) × (b.workloads ≡ map row_of (buffer a.active a)))
unfolding flush
flush-window i a b h =
    if_elim
      (λ (r : Option BatchPayload × Aggregator).
        r.0 ≡ some b
        → (b.window_start_ns ≡ a.window_start_ns)
          × ((b.window_end_ns ≡ i.now_ns) × (b.workloads ≡ map row_of (buffer a.active a))))
      (is_empty (buffer a.active a)) _ _ (λ _ e. absurd cc) (λ _ e. (cc, (cc, cc))) h

flush-window_start : (i : FlushInput) (a : Aggregator) → (flush i a).1.window_start_ns ≡ i.now_ns
unfolding flush buffer set_buffer
flush-window_start i a = ground arith

-- The windows of two batches join: a batch covers the time from the start of the window to the
-- flush, and the next window starts where this one ends; what the batch holds is one row for each
-- key of the buffer.
flush-windows :
    (i : FlushInput) (a : Aggregator) (b : BatchPayload)
    → (flush i a).0 ≡ some b
    → (b.window_start_ns ≡ a.window_start_ns)
      × ((b.window_end_ns ≡ i.now_ns)
          × (((flush i a).1.window_start_ns ≡ b.window_end_ns)
              × (b.workloads ≡ map row_of (buffer a.active a))))
flush-windows i a b h =
    let one = flush-window i a b h in
    (one.0, ((one.1).0, (flush-window_start i a ∙ sym (one.1).0, (one.1).1)))
