-- ===== src/Ebpf.antt =====
-- The eBPF program of statix-ebpf/src/main.rs, the record of statix-common/src/lib.rs, and the
-- ring-drops monitor of statix/src/loader.rs. Whether the ring buffer has room is an argument, and a
-- per-CPU array is an association list from the CPU, in which a missing entry is zero. Both arrays
-- have one entry, so the lookup of key 0 does not fail, and its other branch is left out.
pub mod Drops
mod Examples
use statix.Prelude.{
  ℕ, zero, suc, ◌+◌, ◌-◌, Bool, true, false, Option, none, some, List, [], ◌∷◌, ◌++◌, ltb, ◌==◌,
  if◌then◌else◌, u32_mod, u64_mod, nat_eq,
}
use statix.Prelude.Map.{Map, get, insert}
use Prim.Native.Nat.{◌%◌, ◌/◌}

-- `StatixEvent`, less its padding.
pub record StatixEvent : Type 0 where
  pub kind : ℕ
  pub pid : ℕ
  pub tgid : ℕ
  pub cpu_id : ℕ
  pub cgroup_id : ℕ
  pub timestamp : ℕ
  pub memory_bytes : ℕ
  pub comm : List ℕ

-- What the helpers answer when a process execs.
pub record Exec : Type 0 where
  pub has_room : Bool
  pub pid_tgid : ℕ
  pub cpu_id : ℕ
  pub cgroup_id : ℕ
  pub timestamp : ℕ
  pub comm : Option (List ℕ)

-- `wakeups` counts the submits that wake the reader.
pub record Maps : Type 0 where
  pub events : List StatixEvent
  pub ring_drops : Map ℕ ℕ
  pub wakeup_counter : Map ℕ ℕ
  pub wakeups : ℕ

abbrev pub event_kind_workload_identity : ℕ
event_kind_workload_identity = 1

abbrev pub no_comm : List ℕ
no_comm = 0 ∷ 0 ∷ 0 ∷ 0 ∷ 0 ∷ 0 ∷ 0 ∷ 0 ∷ 0 ∷ 0 ∷ 0 ∷ 0 ∷ 0 ∷ 0 ∷ 0 ∷ 0 ∷ []

abbrev pub comm_or_zeros : Option (List ℕ) → List ℕ
comm_or_zeros none = no_comm
comm_or_zeros (some comm) = comm

abbrev pub slot : ℕ → Map ℕ ℕ → ℕ
slot cpu m = elim (get cpu m) [ none ↦ 0 | some n ↦ n ]

unfoldable pub record_ring_drop : ℕ → Map ℕ ℕ → Map ℕ ℕ
record_ring_drop cpu m = insert cpu ((slot cpu m + 1) % u64_mod) m

unfoldable pub event_of : Exec → StatixEvent
event_of x = record {
  kind = event_kind_workload_identity;
  pid = x.pid_tgid % u32_mod;
  tgid = x.pid_tgid / u32_mod;
  cpu_id = x.cpu_id;
  cgroup_id = x.cgroup_id;
  timestamp = x.timestamp;
  memory_bytes = 0;
  comm = comm_or_zeros x.comm;
}

-- The reader is woken when the counter is a multiple of 64: `count & 63 == 0`.
unfoldable pub submit : Exec → Maps → Maps
unfolding event_of
submit x m =
    let count = (slot x.cpu_id m.wakeup_counter + 1) % u32_mod in
    record m {
      events = m.events ++ event_of x ∷ [];
      wakeup_counter = insert x.cpu_id count m.wakeup_counter;
      wakeups = if count % 64 == 0 then m.wakeups + 1 else m.wakeups;
    }

unfoldable pub capture_identity : Exec → Maps → Maps
unfolding submit record_ring_drop
capture_identity x m =
    if x.has_room
    then submit x m
    else record m { ring_drops = record_ring_drop x.cpu_id m.ring_drops }

unfoldable pub capture : List Exec → Maps → Maps
unfolding capture_identity
capture [] m = m
capture (x ∷ xs) m = capture xs (capture_identity x m)

-- `spawn_ring_drops_monitor`: the last total, and the exported counter.
pub record Monitor : Type 0 where
  pub prev_total : ℕ
  pub exported : ℕ

abbrev pub sum_values : Map ℕ ℕ → ℕ
sum_values [] = 0
sum_values ((cpu, n) ∷ m) = n + sum_values m

-- One tick; `none` is a map that cannot be read. The sum of the slots wraps.
unfoldable pub monitor_tick : Option (Map ℕ ℕ) → Monitor → Monitor
monitor_tick none s = s
monitor_tick (some values) s =
    let total_drops = sum_values values % u64_mod in
    let delta = total_drops - s.prev_total in
    if ltb 0 total_drops
    then (if ltb 0 delta
        then record { prev_total = total_drops; exported = s.exported + delta }
        else s)
    else s
