-- ===== src/Agent/Loop/Runs.antt =====
-- The event loop of statix/src/main.rs over any run: no exec is lost between the ring buffer and
-- the batches.
use statix.Prelude.{ℕ, ◌+◌, ◌^◌, ◌<◌, ◌≡◌, Bool, true, List, [], ◌∷◌, if_elim, arith}
use statix.Agent.Attribution.Names.{CgroupPath}
use statix.Agent.Loop.{
  shutdown, Loop, Arm, submit, watch, readable, poll_tick, readable_error, task_ended, flush_tick,
  eviction_tick, stop, abort, close_window, on_arm, after_end, step, run,
}
use statix.Agent.Loop.Drained.{drain_ring-Accounts, close_window-Closed}
use statix.Agent.Loop.Counted.{Accounts, exec_arms, exec_outputs-append, exec_ring-append}

same : (n : ℕ) (s : Loop) → Accounts n s → Accounts (n + 0) s
same n s h = record { ready = h.ready; counted = omega (arith, h.counted); ended = h.ended }

abort-Accounts : (n : ℕ) (s : Loop) → Accounts n s → Accounts (n + 0) (abort s)
abort-Accounts n s h = record {
  ready = h.ready;
  counted = omega (arith, h.counted);
  ended = λ _ failure. absurd cc;
}

on_arm-Accounts :
    (raw_events : Bool) (root : CgroupPath) (n : ℕ) (arm : Arm) (s : Loop)
    → n < 2 ^ 32
    → s.running ≡ true
    → Accounts n s
    → Accounts (n + exec_arms (arm ∷ [])) (on_arm raw_events root arm s)
on_arm-Accounts raw_events root n (submit x) s fits on h = record {
  ready = h.ready;
  counted = omega (arith, exec_ring-append s.ring x, h.counted);
  ended = h.ended;
}
on_arm-Accounts raw_events root n (watch e) s fits on h = record {
  ready = h.ready;
  counted = omega (arith, h.counted);
  ended = h.ended;
}
on_arm-Accounts raw_events root n readable s fits on h =
    let d = drain_ring-Accounts raw_events root n s fits on h in
    record { ready = d.ready; counted = omega (arith, d.counted); ended = d.ended }
on_arm-Accounts raw_events root n poll_tick s fits on h =
    let d = drain_ring-Accounts raw_events root n s fits on h in
    record { ready = d.ready; counted = omega (arith, d.counted); ended = d.ended }
on_arm-Accounts raw_events root n readable_error s fits on h = abort-Accounts n s h
on_arm-Accounts raw_events root n (task_ended panics) s fits on h =
    if_elim (λ (t : Loop). Accounts (n + 0) t) panics (abort s) s (λ _. abort-Accounts n s h)
      (λ _. same n s h)
on_arm-Accounts raw_events root n (flush_tick x) s fits on h =
    let c = close_window-Closed n x s h in
    record { ready = c.ready; counted = omega (arith, c.counted); ended = λ _ _. c.empty }
on_arm-Accounts raw_events root n (eviction_tick exists) s fits on h = record {
  ready = h.ready;
  counted = omega (arith, h.counted);
  ended = h.ended;
}
on_arm-Accounts raw_events root n (stop signal x) s fits on h =
    let c = close_window-Closed n x s h in
    record {
      ready = c.ready;
      counted =
          omega (
            arith,
            exec_outputs-append (close_window x s).outputs (shutdown signal ∷ []),
            c.counted,
          );
      ended = λ _ _. c.empty;
    }

after_end-Accounts :
    (n : ℕ) (arm : Arm) (s : Loop)
    → Accounts n s
    → Accounts (n + exec_arms (arm ∷ [])) (after_end arm s)
after_end-Accounts n (submit x) s h = record {
  ready = h.ready;
  counted = omega (arith, exec_ring-append s.ring x, h.counted);
  ended = h.ended;
}
after_end-Accounts n (watch e) s h = same n s h
after_end-Accounts n readable s h = same n s h
after_end-Accounts n poll_tick s h = same n s h
after_end-Accounts n readable_error s h = same n s h
after_end-Accounts n (task_ended panics) s h = same n s h
after_end-Accounts n (flush_tick x) s h = same n s h
after_end-Accounts n (eviction_tick exists) s h = same n s h
after_end-Accounts n (stop signal x) s h = same n s h

step-Accounts :
    (raw_events : Bool) (root : CgroupPath) (n : ℕ) (arm : Arm) (s : Loop)
    → n < 2 ^ 32
    → Accounts n s
    → Accounts (n + exec_arms (arm ∷ [])) (step raw_events root arm s)
unfolding step
step-Accounts raw_events root n arm s fits h =
    if_elim (λ (t : Loop). Accounts (n + exec_arms (arm ∷ [])) t) s.running
      (on_arm raw_events root arm s) (after_end arm s)
      (λ on. on_arm-Accounts raw_events root n arm s fits on h) (λ _. after_end-Accounts n arm s h)

exec_arms-cons :
    (arm : Arm) (arms : List Arm) → exec_arms (arm ∷ arms) ≡ exec_arms (arm ∷ []) + exec_arms arms
exec_arms-cons (submit x) arms = omega arith
exec_arms-cons (watch e) arms = omega arith
exec_arms-cons readable arms = omega arith
exec_arms-cons poll_tick arms = omega arith
exec_arms-cons readable_error arms = omega arith
exec_arms-cons (task_ended panics) arms = omega arith
exec_arms-cons (flush_tick x) arms = omega arith
exec_arms-cons (eviction_tick exists) arms = omega arith
exec_arms-cons (stop signal x) arms = omega arith

-- No exec is lost in the loop, whatever arms run in whatever order. From a loop that accounts for
-- `n` execs, and as long as these and the ones submitted are fewer than 2^32, after any run the
-- execs in the rows of the batches written, those in the open window and those still in the ring
-- are together the `n` and the ones submitted in it; the aggregator is ready for the next event,
-- and a loop that a signal has ended has none in its window. An error of the ring's descriptor, or
-- a panic on a handle that is awaited again, ends the loop without a flush: what is in the window
-- then is still counted there, and is not sent.
pub run-Accounts :
    (raw_events : Bool) (root : CgroupPath) (n : ℕ) (arms : List Arm) (s : Loop)
    → n + exec_arms arms < 2 ^ 32
    → Accounts n s
    → Accounts (n + exec_arms arms) (run raw_events root arms s)
unfolding run
run-Accounts raw_events root n [] s fits h = record {
  ready = h.ready;
  counted = omega (arith, h.counted);
  ended = h.ended;
}
run-Accounts raw_events root n (arm ∷ arms) s fits h =
    let cons = exec_arms-cons arm arms in
    let sum : n + exec_arms (arm ∷ arms) ≡ (n + exec_arms (arm ∷ [])) + exec_arms arms =
      omega arith in
    rw sum (
      run-Accounts raw_events root (n + exec_arms (arm ∷ [])) arms (step raw_events root arm s)
        (omega arith) (step-Accounts raw_events root n arm s (omega arith) h))
