-- ===== src/Wal/Drainer.antt =====
-- The replay coordinator of statix/src/wal/drainer.rs. The retry queue is the list of its
-- payloads and its capacity.
pub mod Replay
pub mod Unchanged
pub mod Sweep
use statix.Prelude.{
  ℕ, zero, suc, ◌+◌, ◌≤◌, ◌<◌, ◌≡◌, refl, Bool, true, false, not, ◌||◌, List, [], ◌∷◌, ◌++◌, length,
  ltb, leb, if◌then◌else◌, arith,
}
use statix.Wal.Circuit.{
  Circuit, CircuitState, closed, half_open, open_state, circuit_state, is_closed, try_half_open,
}
use statix.Wal.Store.{
  WalInner, Attempt, Peek, nothing, found, failed, stuck, peek_next, commit_pending, has_backlog,
}

pub data ReplayOutcome : Type 0 where
  sent empty no_capacity : ReplayOutcome

pub record RetryQueue : Type 0 where
  pub items : List (List ℕ)
  pub capacity : ℕ
  pub is_open : Bool

-- What the drainer task reads and writes.
pub record Drain : Type 0 where
  pub wal : WalInner
  pub queue : RetryQueue
  pub circuit : Circuit

-- `try_send` takes the payload while the channel is open and has room.
abbrev pub has_room : RetryQueue → Bool
has_room q = if q.is_open then ltb (length q.items) q.capacity else false

abbrev pub send : List ℕ → RetryQueue → RetryQueue
send payload q = record q { items = q.items ++ payload ∷ [] }

abbrev pub is_sent : ReplayOutcome → Bool
is_sent sent = true
is_sent _ = false

module _ (hash : List ℕ → ℕ) (os : ℕ → Attempt) where
  abbrev pub deliver : Peek × WalInner → Drain → ReplayOutcome × Drain
  deliver (found f, w) d =
      if has_room d.queue
      then (sent, record d { wal = commit_pending w; queue = send f.payload d.queue })
      else (no_capacity, record d { wal = w })
  deliver (nothing, w) d = (empty, record d { wal = w })
  deliver (failed, w) d = (empty, record d { wal = w })
  deliver (stuck, w) d = (empty, record d { wal = w })

  unfoldable pub replay_one : Drain → ReplayOutcome × Drain
  replay_one d = deliver (peek_next hash os d.wal) d

  -- The inner loop while the gateway is up, on fuel: each round sends one payload.
  unfoldable pub drain_rounds : ℕ → Drain → Drain
  unfolding replay_one circuit_state
  drain_rounds zero d = d
  drain_rounds (suc fuel) d =
      let (outcome, d') = replay_one d in
      let again = drain_rounds fuel d' in
      if not (ltb (length d.queue.items) d.queue.capacity)
        || not (is_closed (circuit_state d.circuit))
      then d
      else if is_sent outcome
      then again
      else d'

  -- One sweep of the task, by the circuit's state. The fuel is the room in the queue.
  abbrev pub sweep_at : CircuitState → Drain → Drain
  sweep_at open_state d = record d { circuit = try_half_open d.circuit }
  sweep_at half_open d = if has_backlog d.wal then (replay_one d).1 else d
  sweep_at closed d = if has_backlog d.wal then drain_rounds (suc d.queue.capacity) d else d

  unfoldable pub sweep : Drain → Drain
  unfolding drain_rounds
  sweep d = sweep_at (circuit_state d.circuit) d
