-- ===== src/Ebpf/Examples.antt =====
-- The theorem on drops, applied.
use statix.Prelude.{ℕ, refl, none, some, [], ◌∷◌, true, false, List, arith}
use statix.Ebpf.{Exec, Maps, capture, Monitor, monitor_tick}
use statix.Ebpf.Drops.{Reported, capture-Reported}

abbrev exec_on : ℕ → Exec
exec_on cpu = record {
  has_room = true;
  pid_tgid = 17179869189;
  cpu_id = cpu;
  cgroup_id = 9;
  timestamp = 100;
  comm = none;
}

abbrev execs : List Exec
execs = exec_on 0 ∷ record (exec_on 1) { has_room = false } ∷ exec_on 1 ∷ []

abbrev empty_maps : Maps
empty_maps = record { events = []; ring_drops = []; wakeup_counter = []; wakeups = 0 }

abbrev fresh : Monitor
fresh = record { prev_total = 0; exported = 0 }

capture-Reported_example :
    Reported execs empty_maps
      (capture execs empty_maps)
      (monitor_tick (some (capture execs empty_maps).ring_drops) fresh)
capture-Reported_example = capture-Reported execs empty_maps fresh (omega arith) refl (omega arith)
