-- ===== src/Agent/Aggregator.antt =====
-- `Aggregator` of statix/src/aggregator.rs. The clock reading and the random batch ID that a flush
-- takes are arguments.
pub mod Buffers
pub mod Totals
use statix.Prelude.{
  ℕ, zero, suc, ◌+◌, ◌-◌, ◌≤◌, ◌<◌, ◌≡◌, refl, Bool, true, false, Option, none, some, List, [], ◌∷◌,
  ◌++◌, map, length, ltb, leb, ◌==◌, if◌then◌else◌, is_empty, sat_add32, sat_add64, nat_eq,
}
use statix.Prelude.Map.{Map, get, insert}
use statix.Prelude.Text.{Text}
use statix.Agent.Attribution.Names.{CgroupPath}
use statix.Agent.Attribution.Cache.{
  WorkloadLabels, default_labels, CacheState, on_identity_event, labels_for_cgroup,
}

-- statix-wire/src/lib.rs
pub record WorkloadRow : Type 0 where
  pub cgroup_id : ℕ
  pub namespace : Option Text
  pub pod : Option Text
  pub container : Option Text
  pub k8s_resolved : Bool
  pub memory_bytes_max : ℕ
  pub memory_bytes_last : ℕ
  pub exec_count : ℕ
  pub sample_count : ℕ
  pub cpu_usage_usec : ℕ
  pub cpu_request_millicores : ℕ
  pub memory_request_bytes : ℕ
  pub cpu_limit_millicores : ℕ
  pub memory_limit_bytes : ℕ

pub record WorkloadStats : Type 0 where
  pub exec_count : ℕ
  pub sample_count : ℕ
  pub memory_bytes_max : ℕ
  pub memory_bytes_last : ℕ
  pub cpu_usage_usec : ℕ
  pub labels : WorkloadLabels

abbrev pub default_stats : WorkloadStats
default_stats = record {
  exec_count = 0;
  sample_count = 0;
  memory_bytes_max = 0;
  memory_bytes_last = 0;
  cpu_usage_usec = 0;
  labels = default_labels;
}

-- The two buffers; `active` is 0 or 1.
pub record Aggregator : Type 0 where
  pub window_start_ns : ℕ
  pub buffer0 : Map ℕ WorkloadStats
  pub buffer1 : Map ℕ WorkloadStats
  pub active : ℕ
  pub max_keys : ℕ

pub record BatchPayload : Type 0 where
  pub window_start_ns : ℕ
  pub window_end_ns : ℕ
  pub node : Text
  pub batch_id : Text
  pub workloads : List WorkloadRow

-- The fields of `StatixEvent` that user space reads, with the path that `/proc` gives for its pid.
pub record StatixEvent : Type 0 where
  pub kind : ℕ
  pub cgroup_id : ℕ
  pub memory_bytes : ℕ
  pub rel_path : Option CgroupPath

-- What the flush reads: the wall clock, the node and the batch ID.
pub record FlushInput : Type 0 where
  pub now_ns : ℕ
  pub node : Text
  pub batch_id : Text

abbrev pub event_kind_workload_identity : ℕ
event_kind_workload_identity = 1

abbrev pub event_kind_memory_sample : ℕ
event_kind_memory_sample = 2

abbrev pub default_max_keys : ℕ
default_max_keys = 4096

unfoldable pub new : ℕ → Aggregator
new now_ns = record {
  window_start_ns = now_ns;
  buffer0 = [];
  buffer1 = [];
  active = 0;
  max_keys = default_max_keys;
}

-- `self.buffers[i]`
unfoldable pub buffer : ℕ → Aggregator → Map ℕ WorkloadStats
buffer i a = if i == 0 then a.buffer0 else a.buffer1

unfoldable pub set_buffer : ℕ → Map ℕ WorkloadStats → Aggregator → Aggregator
set_buffer i m a = if i == 0 then record a { buffer0 = m } else record a { buffer1 = m }

abbrev pub stats_or_default : Option WorkloadStats → WorkloadStats
stats_or_default none = default_stats
stats_or_default (some s) = s

-- `entry(id).or_default()` of the active buffer, and the change of it.
unfoldable pub update_entry : ℕ → (WorkloadStats → WorkloadStats) → Aggregator → Aggregator
unfolding buffer set_buffer
update_entry id change a =
    let m = buffer a.active a in
    set_buffer a.active (insert id (change (stats_or_default (get id m))) m) a

unfoldable pub row_of : ℕ × WorkloadStats → WorkloadRow
row_of (id, s) = record {
  cgroup_id = id;
  namespace = s.labels.namespace;
  pod = s.labels.pod;
  container = s.labels.container;
  k8s_resolved = s.labels.k8s_resolved;
  memory_bytes_max = s.memory_bytes_max;
  memory_bytes_last = s.memory_bytes_last;
  exec_count = s.exec_count;
  sample_count = s.sample_count;
  cpu_usage_usec = s.cpu_usage_usec;
  cpu_request_millicores = s.labels.resources.cpu_request_millicores;
  memory_request_bytes = s.labels.resources.memory_request_bytes;
  cpu_limit_millicores = s.labels.resources.cpu_limit_millicores;
  memory_limit_bytes = s.labels.resources.memory_limit_bytes;
}

unfoldable pub flush : FlushInput → Aggregator → Option BatchPayload × Aggregator
unfolding buffer set_buffer row_of
flush i a =
    let flush_idx = a.active in
    let full = buffer flush_idx a in
    let flipped = record a { active = 1 - a.active; window_start_ns = i.now_ns } in
    if is_empty full then (none, record a { window_start_ns = i.now_ns }) else (
      some (record {
        window_start_ns = a.window_start_ns;
        window_end_ns = i.now_ns;
        node = i.node;
        batch_id = i.batch_id;
        workloads = map row_of full;
      }),
      set_buffer flush_idx [] flipped,
    )

unfoldable pub try_early_flush : FlushInput → Aggregator → Option BatchPayload × Aggregator
unfolding flush
try_early_flush i a = if leb a.max_keys (length (buffer a.active a)) then flush i a else (none, a)

abbrev pub count_exec : WorkloadLabels → WorkloadStats → WorkloadStats
count_exec l s = record s { exec_count = sat_add32 s.exec_count 1; labels = l }

abbrev pub count_cpu : ℕ → WorkloadLabels → WorkloadStats → WorkloadStats
count_cpu delta l s = record s { cpu_usage_usec = sat_add64 s.cpu_usage_usec delta; labels = l }

abbrev pub count_memory : ℕ → WorkloadLabels → WorkloadStats → WorkloadStats
count_memory bytes l s = record s {
  sample_count = sat_add32 s.sample_count 1;
  memory_bytes_last = bytes;
  memory_bytes_max = if ltb s.memory_bytes_max bytes then bytes else s.memory_bytes_max;
  labels = l;
}

unfoldable pub ingest_memory_sample_inner : ℕ → ℕ → CacheState → Aggregator → Aggregator
unfolding update_entry
ingest_memory_sample_inner id bytes cache a =
    update_entry id (count_memory bytes (labels_for_cgroup id cache)) a

unfoldable pub ingest_memory_sample :
    FlushInput → ℕ → ℕ → CacheState → Aggregator → Option BatchPayload × Aggregator
unfolding ingest_memory_sample_inner try_early_flush
ingest_memory_sample i id bytes cache a =
    try_early_flush i (ingest_memory_sample_inner id bytes cache a)

unfoldable pub ingest_cpu_sample :
    FlushInput → ℕ → ℕ → CacheState → Aggregator → Option BatchPayload × Aggregator
unfolding update_entry try_early_flush
ingest_cpu_sample i id delta cache a =
    try_early_flush i (update_entry id (count_cpu delta (labels_for_cgroup id cache)) a)

-- The event's cache is returned beside the aggregator. An unknown kind is only logged.
unfoldable pub on_statix_event :
    FlushInput
    → CgroupPath
    → StatixEvent
    → CacheState
    → Aggregator
    → Option BatchPayload × CacheState × Aggregator
unfolding update_entry ingest_memory_sample_inner try_early_flush
on_statix_event i root e cache a =
    let cache' = on_identity_event root e.cgroup_id e.rel_path cache in
    let identity =
      try_early_flush i
        (update_entry e.cgroup_id (count_exec (labels_for_cgroup e.cgroup_id cache')) a) in
    let sample =
      try_early_flush i (ingest_memory_sample_inner e.cgroup_id e.memory_bytes cache a) in
    let other = try_early_flush i a in
    if e.kind == event_kind_workload_identity
    then (identity.0, cache', identity.1)
    else if e.kind == event_kind_memory_sample
    then (sample.0, cache, sample.1)
    else (other.0, cache, other.1)
