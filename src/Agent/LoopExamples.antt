-- ===== src/Agent/LoopExamples.antt =====
-- The theorems on the event loop, applied.
use statix.Prelude.{ℕ, refl, none, [], ◌∷◌, ◌+◌, true, false, List, arith}
use statix.Prelude.Text.{codes}
use statix.Agent.Aggregator.{StatixEvent, FlushInput, new, buffer}
use statix.Agent.Attribution.Sample.{cache}
use statix.Agent.Loop.{
  undersized, sized, Loop, Sampling, Arm, submit, readable, poll_tick, task_ended, stop, sigterm,
  run,
}
use statix.Agent.Loop.Counted.{Accounts, exec_arms}
use statix.Agent.Loop.Runs.{run-Accounts}

abbrev at_time : ℕ → FlushInput
at_time n = record { now_ns = n; node = codes "n"; batch_id = codes "b" }

abbrev exec_event : StatixEvent
exec_event = record { kind = 1; cgroup_id = 5; memory_bytes = 0; rel_path = none }

abbrev started : Loop
started = record {
  ring = [];
  cache = cache;
  aggregator = new 0;
  baseline = [];
  outputs = [];
  running = true;
  failed = false;
}

abbrev sampling : Sampling
sampling = record { inputs = λ _. at_time 8; close = at_time 9; files = none }

abbrev arms : List Arm
arms =
    submit (sized (at_time 1) exec_event)
    ∷ submit undersized
    ∷ readable
    ∷ task_ended false
    ∷ submit (sized (at_time 2) exec_event)
    ∷ poll_tick
    ∷ stop sigterm sampling
    ∷ []

started-Accounts : Accounts 0 started
unfolding new buffer
started-Accounts = record {
  ready = record { one_of_two = omega arith; other_empty = refl; below_cap = omega arith };
  counted = refl;
  ended = λ off _. refl;
}

run-Accounts_example : Accounts (0 + exec_arms arms) (run false [] arms started)
run-Accounts_example = run-Accounts false [] 0 arms started (omega arith) started-Accounts

abbrev waiting : Loop
waiting = record started {
  ring = sized (at_time 1) exec_event ∷ undersized ∷ sized (at_time 2) exec_event ∷ [];
}
