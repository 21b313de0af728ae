-- ===== src/Agent/Sampler.antt =====
-- `Sampler` of statix/src/memory_sampler.rs and `sample_and_flush` of statix/src/main.rs. What the
-- blocking task reads from the files of a target is an argument.
pub mod Deltas
pub mod Files
use statix.Prelude.{
  ℕ, zero, suc, ◌+◌, ◌-◌, ◌≤◌, ◌<◌, ◌≡◌, refl, Bool, true, false, Option, none, some, List, [], ◌∷◌,
  ◌++◌, map, length, any, ltb, leb, ◌==◌, if◌then◌else◌, is_empty, nat_eq,
}
use statix.Prelude.Map.{Map, get, insert}
use statix.Agent.Attribution.Cache.{CacheState, SampleTarget, for_each_sample_target}
use statix.Agent.Aggregator.{
  Aggregator, BatchPayload, FlushInput, ingest_memory_sample, ingest_cpu_sample, flush,
}

-- The links and files of one cgroup directory, as the task finds them.
pub record CgroupFiles : Type 0 where
  pub is_leaf : Bool
  pub memory_current : Option ℕ
  pub inactive_file : Option ℕ
  pub usage_usec : Option ℕ

pub record Reading : Type 0 where
  pub cgroup_id : ℕ
  pub memory_bytes : Option ℕ
  pub usage_usec : Option ℕ

abbrev pub Baseline : Type 0
Baseline = Map ℕ ℕ

abbrev pub or_zero : Option ℕ → ℕ
or_zero none = 0
or_zero (some n) = n

-- Working set: `memory.current` less `inactive_file`, not below zero.
abbrev pub working_set : CgroupFiles → Option ℕ
working_set f = elim f.memory_current [
  | none ↦ none
  | some current ↦ some (current - or_zero f.inactive_file)
]

-- The blocking task of `tick`: the leaf targets, in order.
unfoldable pub read_targets : (SampleTarget → CgroupFiles) → List SampleTarget → List Reading
read_targets files [] = []
read_targets files (t ∷ ts) =
    let rest = read_targets files ts in
    let f = files t in
    if f.is_leaf
    then record { cgroup_id = t.cgroup_id; memory_bytes = working_set f; usage_usec = f.usage_usec }
      ∷ rest
    else rest

-- The blocking task of `prime`.
unfoldable pub read_cpu_only : (SampleTarget → CgroupFiles) → List SampleTarget → List (ℕ × ℕ)
read_cpu_only files [] = []
read_cpu_only files (t ∷ ts) =
    let rest = read_cpu_only files ts in
    let f = files t in
    if f.is_leaf
    then elim f.usage_usec [ none ↦ rest | some usage ↦ (t.cgroup_id, usage) ∷ rest ]
    else rest

unfoldable pub insert_readings : List (ℕ × ℕ) → Baseline → Baseline
insert_readings [] b = b
insert_readings ((id, usage) ∷ rs) b = insert_readings rs (insert id usage b)

unfoldable pub prime : (SampleTarget → CgroupFiles) → CacheState → Baseline → Baseline
unfolding read_cpu_only insert_readings
prime files cache b = insert_readings (read_cpu_only files (for_each_sample_target cache)) b

-- `retain` of the cgroups that were read.
unfoldable pub retain_live : List Reading → Baseline → Baseline
retain_live rs [] = []
retain_live rs ((id, last) ∷ b) =
    let rest = retain_live rs b in
    if any (λ (r : Reading). r.cgroup_id == id) rs then (id, last) ∷ rest else rest

abbrev pub delta_from : Option ℕ → ℕ → Option ℕ
delta_from none current = none
delta_from (some last) current = some (current - last)

-- The delta to ingest, or `none` when the reading only primes. Both branches store the reading.
unfoldable pub cpu_delta : ℕ → ℕ → Baseline → Option ℕ × Baseline
cpu_delta id current b = (delta_from (get id b) current, insert id current b)

abbrev pub push : Option BatchPayload → List BatchPayload → List BatchPayload
push none bs = bs
push (some b) bs = bs ++ b ∷ []

pub record TickState : Type 0 where
  pub baseline : Baseline
  pub aggregator : Aggregator
  pub early_batches : List BatchPayload

abbrev pub ingest_memory : FlushInput → CacheState → ℕ → Option ℕ → TickState → TickState
ingest_memory i cache id none s = s
ingest_memory i cache id (some bytes) s =
    let (batch, a) = ingest_memory_sample i id bytes cache s.aggregator in
    record s { aggregator = a; early_batches = push batch s.early_batches }

abbrev pub ingest_delta : FlushInput → CacheState → ℕ → Option ℕ → TickState → TickState
ingest_delta i cache id none s = s
ingest_delta i cache id (some delta) s =
    let (batch, a) = ingest_cpu_sample i id delta cache s.aggregator in
    record s { aggregator = a; early_batches = push batch s.early_batches }

abbrev pub ingest_cpu : FlushInput → CacheState → ℕ → Option ℕ → TickState → TickState
ingest_cpu i cache id none s = s
ingest_cpu i cache id (some current) s =
    let (delta, b) = cpu_delta id current s.baseline in
    ingest_delta i cache id delta (record s { baseline = b })

-- The loop over the readings. The clock and the batch ID of an early flush are by reading.
unfoldable pub ingest_readings :
    (Reading → FlushInput) → CacheState → List Reading → TickState → TickState
unfolding cpu_delta
ingest_readings inputs cache [] s = s
ingest_readings inputs cache (r ∷ rs) s = ingest_readings inputs cache rs (
    ingest_cpu (inputs r) cache r.cgroup_id r.usage_usec
      (ingest_memory (inputs r) cache r.cgroup_id r.memory_bytes s))

-- `none` is a blocking task that failed: nothing is read and the baseline stays.
unfoldable pub tick :
    (Reading → FlushInput)
    → CacheState
    → Option (SampleTarget → CgroupFiles)
    → Baseline
    → Aggregator
    → TickState
unfolding read_targets retain_live ingest_readings
tick inputs cache none b a = record { baseline = b; aggregator = a; early_batches = [] }
tick inputs cache (some files) b a =
    let rs = read_targets files (for_each_sample_target cache) in
    ingest_readings inputs cache rs
      (record { baseline = retain_live rs b; aggregator = a; early_batches = [] })

-- The batches that are emitted, in order, and the state after the window has closed.
unfoldable pub sample_and_flush :
    (Reading → FlushInput)
    → FlushInput
    → CacheState
    → Option (SampleTarget → CgroupFiles)
    → Baseline
    → Aggregator
    → TickState
unfolding tick
sample_and_flush inputs i cache files b a =
    let s = tick inputs cache files b a in
    let (batch, a') = flush i s.aggregator in
    record s { aggregator = a'; early_batches = push batch s.early_batches }
