-- ===== src/Agent/Loop/Execs.antt =====
-- The execs that statix/src/aggregator.rs counts: each is in a buffer until a batch has it.
use statix.Prelude.{
  ℕ, ◌+◌, ◌≤◌, ◌<◌, ◌≡◌, refl, Option, none, some, List, [], ◌∷◌, map, length, leb, ◌==◌,
  if◌then◌else◌, if_elim, arith, ◌^◌, Bool-cases, inl, inr, nat_eq,
}
use statix.Prelude.Map.{Map, get, insert}
use statix.Agent.Attribution.Names.{CgroupPath}
use statix.Agent.Attribution.Cache.{CacheState, on_identity_event, labels_for_cgroup}
use statix.Agent.Aggregator.{
  WorkloadRow, WorkloadStats, Aggregator, BatchPayload, StatixEvent, FlushInput, stats_or_default,
  buffer, set_buffer, update_entry, row_of, flush, try_early_flush, count_exec, count_cpu,
  count_memory, ingest_memory_sample_inner, ingest_memory_sample, ingest_cpu_sample,
  on_statix_event, event_kind_workload_identity, event_kind_memory_sample,
}

abbrev pub exec_total : Map ℕ WorkloadStats → ℕ
exec_total [] = 0
exec_total ((id, s) ∷ m) = s.exec_count + exec_total m

abbrev pub exec_rows : List WorkloadRow → ℕ
exec_rows [] = 0
exec_rows (r ∷ rs) = r.exec_count + exec_rows rs

abbrev pub exec_sent : Option BatchPayload → ℕ
exec_sent none = 0
exec_sent (some b) = exec_rows b.workloads

abbrev pub exec_held : Aggregator → ℕ
exec_held a = exec_total a.buffer0 + exec_total a.buffer1

exec_rows-map : (m : Map ℕ WorkloadStats) → exec_rows (map row_of m) ≡ exec_total m
unfolding row_of
exec_rows-map [] = refl
exec_rows-map ((id, s) ∷ m) = omega (arith, exec_rows-map m)

exec_total-insert :
    (id : ℕ) (s : WorkloadStats) (m : Map ℕ WorkloadStats)
    → exec_total (insert id s m) + (stats_or_default (get id m)).exec_count
      ≡ exec_total m + s.exec_count
unfolding get insert
exec_total-insert id s [] = omega arith
exec_total-insert id s ((j, t) ∷ m) = ground (arith, exec_total-insert id s m)

entry_le :
    (id : ℕ) (m : Map ℕ WorkloadStats) → (stats_or_default (get id m)).exec_count ≤ exec_total m
unfolding get
entry_le id [] = omega arith
entry_le id ((j, t) ∷ m) = ground (arith, entry_le id m)

-- The active buffer is one of the two, and the counts of what was taken and put agree.
pub record Moved (n : ℕ) (a : Aggregator) (o : Option BatchPayload) (a' : Aggregator) : Type 0 where
  pub one_of_two : a'.active ≤ 1
  pub counted : exec_sent o + exec_held a' ≡ exec_held a + n

pub flush-Moved :
    (i : FlushInput) (a : Aggregator) → a.active ≤ 1 → Moved 0 a (flush i a).0 (flush i a).1
unfolding flush buffer set_buffer
flush-Moved i a h = record {
  one_of_two = ground arith;
  counted = ground (arith, exec_rows-map a.buffer0, exec_rows-map a.buffer1);
}

try_early_flush-Moved :
    (i : FlushInput) (a : Aggregator)
    → a.active ≤ 1
    → Moved 0 a (try_early_flush i a).0 (try_early_flush i a).1
unfolding try_early_flush
try_early_flush-Moved i a h =
    if_elim (λ (r : Option BatchPayload × Aggregator). Moved 0 a r.0 r.1)
      (leb a.max_keys (length (buffer a.active a))) (flush i a) (none, a) (λ _. flush-Moved i a h)
      (λ _. record { one_of_two = h; counted = omega arith })

-- A change of one entry, when it adds `n` to the entry's count.
update_entry-adds :
    (n id : ℕ) (change : WorkloadStats → WorkloadStats) (a : Aggregator)
    → a.active ≤ 1
    → ((s : WorkloadStats) → s.exec_count ≤ exec_held a → (change s).exec_count ≡ s.exec_count + n)
    → (exec_held (update_entry id change a) ≡ exec_held a + n)
      × ((update_entry id change a).active ≤ 1)
unfolding update_entry buffer set_buffer
update_entry-adds n id change a h adds =
    let s0 : WorkloadStats = stats_or_default (get id a.buffer0) in
    let s1 : WorkloadStats = stats_or_default (get id a.buffer1) in
    let le0 : s0.exec_count ≤ exec_held a = omega (arith, entry_le id a.buffer0) in
    let le1 : s1.exec_count ≤ exec_held a = omega (arith, entry_le id a.buffer1) in
    let add0 : (change s0).exec_count ≡ s0.exec_count + n = adds s0 le0 in
    let add1 : (change s1).exec_count ≡ s1.exec_count + n = adds s1 le1 in
    ground (
      arith,
      exec_total-insert id (change s0) a.buffer0,
      exec_total-insert id (change s1) a.buffer1,
      add0,
      add1,
    )

after_update :
    (n : ℕ) (i : FlushInput) (a a' : Aggregator)
    → (exec_held a' ≡ exec_held a + n) × (a'.active ≤ 1)
    → Moved n a (try_early_flush i a').0 (try_early_flush i a').1
after_update n i a a' h =
    let m = try_early_flush-Moved i a' h.1 in
    record { one_of_two = m.one_of_two; counted = omega (arith, m.counted, h.0) }

pub ingest_memory_sample-Moved :
    (i : FlushInput) (id bytes : ℕ) (cache : CacheState) (a : Aggregator)
    → a.active ≤ 1
    → Moved 0 a
        (ingest_memory_sample i id bytes cache a).0
        (ingest_memory_sample i id bytes cache a).1
unfolding ingest_memory_sample ingest_memory_sample_inner
ingest_memory_sample-Moved i id bytes cache a h = after_update 0 i a _ (
    update_entry-adds 0 id (count_memory bytes (labels_for_cgroup id cache)) a h
      (λ s le. omega arith))

pub ingest_cpu_sample-Moved :
    (i : FlushInput) (id delta : ℕ) (cache : CacheState) (a : Aggregator)
    → a.active ≤ 1
    → Moved 0 a (ingest_cpu_sample i id delta cache a).0 (ingest_cpu_sample i id delta cache a).1
unfolding ingest_cpu_sample
ingest_cpu_sample-Moved i id delta cache a h = after_update 0 i a _ (
    update_entry-adds 0 id (count_cpu delta (labels_for_cgroup id cache)) a h (λ s le. omega arith))

-- 1 for an event that is an exec.
abbrev pub exec_of : StatixEvent → ℕ
exec_of e = if e.kind == event_kind_workload_identity then 1 else 0

pub on_statix_event-Moved :
    (i : FlushInput) (root : CgroupPath) (e : StatixEvent) (cache : CacheState) (a : Aggregator)
    → a.active ≤ 1
    → exec_held a + exec_of e < 2 ^ 32
    → Moved (exec_of e) a (on_statix_event i root e cache a).0 (on_statix_event i root e cache a).2
unfolding on_statix_event ingest_memory_sample_inner ingest_memory_sample
on_statix_event-Moved i root e cache a h fits =
    let l = labels_for_cgroup e.cgroup_id (on_identity_event root e.cgroup_id e.rel_path cache) in
    elim (Bool-cases (e.kind == event_kind_workload_identity)) [
      | inl is_exec ↦
          let one : exec_of e ≡ 1 = rw is_exec in
          let m =
            after_update 1 i a _
              (update_entry-adds 1 e.cgroup_id (count_exec l) a h (λ s le. omega (arith, one))) in
          rw is_exec m
      | inr other ↦ rw other (
          if_elim (λ (r : Option BatchPayload × CacheState × Aggregator). Moved 0 a r.0 r.2)
            (e.kind == event_kind_memory_sample) _ _
            (λ _. ingest_memory_sample-Moved i e.cgroup_id e.memory_bytes cache a h)
            (λ _. try_early_flush-Moved i a h))
    ]
