-- ===== src/Agent/Aggregator/Totals.antt =====
-- What the batches of statix/src/aggregator.rs add up to.
use statix.Prelude.{
  ℕ, ◌+◌, ◌^◌, ◌≤◌, ◌<◌, ◌≡◌, refl, ◌∙◌, Option, none, some, List, [], ◌∷◌, map, length, leb,
  if_elim, arith, nat_eq,
}
use statix.Prelude.Map.{Map, get, insert}
use statix.Agent.Attribution.Cache.{CacheState, labels_for_cgroup}
use statix.Agent.Aggregator.{
  WorkloadStats, WorkloadRow, Aggregator, BatchPayload, FlushInput, buffer, set_buffer,
  stats_or_default, update_entry, row_of, flush, try_early_flush, count_cpu, ingest_cpu_sample,
}

abbrev pub cpu_total : Map ℕ WorkloadStats → ℕ
cpu_total [] = 0
cpu_total ((id, s) ∷ m) = s.cpu_usage_usec + cpu_total m

abbrev pub cpu_rows : List WorkloadRow → ℕ
cpu_rows [] = 0
cpu_rows (r ∷ rs) = r.cpu_usage_usec + cpu_rows rs

abbrev pub cpu_sent : Option BatchPayload → ℕ
cpu_sent none = 0
cpu_sent (some b) = cpu_rows b.workloads

cpu_rows-map : (m : Map ℕ WorkloadStats) → cpu_rows (map row_of m) ≡ cpu_total m
unfolding row_of
cpu_rows-map [] = refl
cpu_rows-map ((id, s) ∷ m) = omega (arith, cpu_rows-map m)

cpu_total-insert :
    (id : ℕ) (s : WorkloadStats) (m : Map ℕ WorkloadStats)
    → cpu_total (insert id s m) + (stats_or_default (get id m)).cpu_usage_usec
      ≡ cpu_total m + s.cpu_usage_usec
unfolding insert get
cpu_total-insert id s [] = omega arith
cpu_total-insert id s ((j, t) ∷ m) = ground (arith, cpu_total-insert id s m)

entry_le :
    (id : ℕ) (m : Map ℕ WorkloadStats) → (stats_or_default (get id m)).cpu_usage_usec ≤ cpu_total m
unfolding get
entry_le id [] = omega arith
entry_le id ((j, t) ∷ m) = ground (arith, entry_le id m)

-- The time in the buffers: that which is written, and the other.
abbrev pub cpu_held : Aggregator → ℕ
cpu_held a = cpu_total a.buffer0 + cpu_total a.buffer1

flush-total :
    (i : FlushInput) (a : Aggregator)
    → a.active ≤ 1
    → cpu_sent (flush i a).0 + cpu_held (flush i a).1 ≡ cpu_held a
unfolding flush buffer set_buffer
flush-total i a h = ground (arith, cpu_rows-map a.buffer0, cpu_rows-map a.buffer1)

try_early_flush-total :
    (i : FlushInput) (a : Aggregator)
    → a.active ≤ 1
    → cpu_sent (try_early_flush i a).0 + cpu_held (try_early_flush i a).1 ≡ cpu_held a
unfolding try_early_flush
try_early_flush-total i a h =
    if_elim (λ (r : Option BatchPayload × Aggregator). cpu_sent r.0 + cpu_held r.1 ≡ cpu_held a)
      (leb a.max_keys (length (buffer a.active a))) (flush i a) (none, a) (λ _. flush-total i a h)
      (λ _. omega arith)

update_entry-total :
    (id delta : ℕ) (cache : CacheState) (a : Aggregator)
    → a.active ≤ 1
    → cpu_held a + delta < 2 ^ 64
    → let a' = update_entry id (count_cpu delta (labels_for_cgroup id cache)) a in
      (cpu_held a' ≡ cpu_held a + delta) × (a'.active ≤ 1)
unfolding update_entry buffer set_buffer
update_entry-total id delta cache a h small =
    let l = labels_for_cgroup id cache in
    ground (
      arith,
      cpu_total-insert id (count_cpu delta l (stats_or_default (get id a.buffer0))) a.buffer0,
      cpu_total-insert id (count_cpu delta l (stats_or_default (get id a.buffer1))) a.buffer1,
      entry_le id a.buffer0,
      entry_le id a.buffer1,
    )

-- CPU time is neither lost nor counted twice: a sample adds its microseconds to what the buffers
-- hold, and what an early flush sends is what they no longer hold, as long as the sum stays below
-- 2^64 and no addition saturates; the periodic flush sends exactly what is held.
pub ingest_cpu_sample-total :
    (i : FlushInput) (id delta : ℕ) (cache : CacheState) (a : Aggregator)
    → a.active ≤ 1
    → cpu_held a + delta < 2 ^ 64
    → (cpu_sent (ingest_cpu_sample i id delta cache a).0
          + cpu_held (ingest_cpu_sample i id delta cache a).1
        ≡ cpu_held a + delta)
      × (cpu_sent (flush i a).0 + cpu_held (flush i a).1 ≡ cpu_held a)
unfolding ingest_cpu_sample
ingest_cpu_sample-total i id delta cache a h small =
    let a' = update_entry id (count_cpu delta (labels_for_cgroup id cache)) a in
    let (added, one_of_two) = update_entry-total id delta cache a h small in
    (try_early_flush-total i a' one_of_two ∙ added, flush-total i a h)
