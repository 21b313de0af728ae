-- ===== src/Agent/Pipeline.antt =====
-- The way of a batch through statix/src/output.rs and statix/src/wal: the retry queue with its
-- worker, the WAL with its writer thread, and the drainer, as steps on the state that they share.
-- A group commit, which holds the lock of the store, is one step, and so is one replay of the
-- drainer: no write falls between the peek of a frame and its commit, which the code allows; the cap
-- could then count as dropped a frame that is being sent.
pub mod Accounts
pub mod Losses
pub mod Conserved
pub mod Runs
pub mod Delivery
mod Examples
use statix.Prelude.{
  ℕ, suc, ◌+◌, ◌≡◌, Bool, false, not, Option, none, some, List, [], ◌∷◌, ◌++◌, map, if◌then◌else◌,
}
use statix.Wal.Store.{WalInner, Attempt}
use statix.Wal.Store.Reads.{IsReadable}
use statix.Wal.Writer.{Received, group_commit}
use statix.Wal.Writer.Held.{Decided}
use statix.Wal.Circuit.{try_half_open}
use statix.Wal.Drainer.{RetryQueue, Drain, replay_one, sweep}
use statix.Agent.Output.{
  Answer, Worker, Fate, delivered, discarded, undecided, post_until_decided, Channel, WalHandle,
  Queues, enqueue_batch_json,
}

-- `delivered`, `discarded` and `write_errors` are what the worker and the writer have done.
pub record Pipeline : Type 0 where
  pub queues : Queues (List ℕ)
  pub store : WalInner
  pub worker : Worker
  pub in_hand : Option (List ℕ)
  pub delivered : List (List ℕ)
  pub discarded : List (List ℕ)
  pub write_errors : ℕ

unfoldable pub enqueue : Bool → List ℕ → Pipeline → Pipeline
unfolding enqueue_batch_json
enqueue locked json s = record s { queues = enqueue_batch_json locked json s.queues }

-- `recv` of the worker, while it holds no body.
abbrev pub receive_from : List (List ℕ) → Pipeline → Pipeline
receive_from [] s = s
receive_from (b ∷ rest) s = record s {
  in_hand = some b;
  queues = record s.queues { retry = record s.queues.retry { items = rest } };
}

unfoldable pub receive : Pipeline → Pipeline
receive s = elim s.in_hand [ none ↦ receive_from s.queues.retry.items s | some b ↦ s ]

abbrev pub settle : List ℕ → Fate × Worker → Pipeline → Pipeline
settle b (delivered, w) s = record s {
  worker = w;
  in_hand = none;
  delivered = s.delivered ++ b ∷ [];
}
settle b (discarded, w) s = record s {
  worker = w;
  in_hand = none;
  discarded = s.discarded ++ b ∷ [];
}
settle b (undecided, w) s = record s { worker = w }

-- The worker posts the body that it holds until an answer decides.
abbrev pub post_body : ℕ → ℕ → List Answer → Option (List ℕ) → Pipeline → Pipeline
post_body initial max_backoff answers none s = s
post_body initial max_backoff answers (some b) s =
    settle b (post_until_decided initial max_backoff answers s.worker) s

unfoldable pub post : ℕ → ℕ → List Answer → Pipeline → Pipeline
unfolding post_until_decided
post initial max_backoff answers s = post_body initial max_backoff answers s.in_hand s

-- The retry queue as the drainer sees it.
abbrev pub drain_of : Pipeline → Drain
drain_of s = record {
  wal = s.store;
  queue = record {
    items = s.queues.retry.items;
    capacity = s.queues.retry.capacity;
    is_open = not s.queues.retry.closed;
  };
  circuit = s.worker.circuit;
}

abbrev pub with_drain : Drain → Pipeline → Pipeline
with_drain d s = record s {
  store = d.wal;
  queues = record s.queues { retry = record s.queues.retry { items = d.queue.items } };
  worker = record s.worker { circuit = d.circuit };
}

abbrev pub with_append_items :
    List (List ℕ) → Option (WalHandle (List ℕ)) → Option (WalHandle (List ℕ))
with_append_items items none = none
with_append_items items (some w) =
    some (record w { append_tx = record w.append_tx { items = items } })

abbrev pub append_items : Option (WalHandle (List ℕ)) → List (List ℕ)
append_items none = []
append_items (some w) = w.append_tx.items

abbrev pub payloads_of : List Received → List (List ℕ)
payloads_of bs = map (λ (b : Received). b.payload) bs

-- A sweep while the circuit is open.
abbrev pub probe_step : Pipeline → Pipeline
probe_step s = record s { worker = record s.worker { circuit = try_half_open s.worker.circuit } }

module _ (hash : List ℕ → ℕ) where
  -- The writer thread takes what is queued; `rest` came too late for this round.
  unfoldable pub write : Received → List Received → List (List ℕ) → Pipeline → Pipeline
  write first queued rest s =
      let r = group_commit hash first queued s.store in
      record s {
        store = r.inner;
        write_errors = s.write_errors + r.write_errors;
        queues = record s.queues { wal = with_append_items rest s.queues.wal };
      }

  -- One replay of the drainer, and a whole sweep of it.
  unfoldable pub replay_step : (ℕ → Attempt) → Pipeline → Pipeline
  replay_step os s = with_drain (replay_one hash os (drain_of s)).1 s

  unfoldable pub sweep_step : (ℕ → Attempt) → Pipeline → Pipeline
  sweep_step os s = with_drain (sweep hash os (drain_of s)) s

  -- What happens next, in any order: the worker, the writer thread or the drainer moves. A sweep
  -- is a step for each replay, so that the others move between them; a replay may come whenever
  -- the drainer's loop could want one, and more often. The files can be read, and each write either
  -- succeeds, with a payload of 1 byte to 16 MiB, or it fails, or the rotation before it, and is
  -- undone: the `set_len` and the seek of the repair succeed.
  pub data Step (initial max_backoff : ℕ) : Pipeline → Pipeline → Type 0 where
    received : (s : Pipeline) → Step initial max_backoff s (receive s)
    posted :
        (s : Pipeline) (answers : List Answer)
        → Step initial max_backoff s (post initial max_backoff answers s)
    written :
        (s : Pipeline) (first : Received) (queued : List Received) (rest : List (List ℕ))
        → Decided hash (first ∷ queued)
        → append_items s.queues.wal ≡ payloads_of (first ∷ queued) ++ rest
        → Step initial max_backoff s (write first queued rest s)
    replayed :
        (s : Pipeline) (os : ℕ → Attempt)
        → ((i : ℕ) → IsReadable (os i))
        → Step initial max_backoff s (replay_step os s)
    probed : (s : Pipeline) → Step initial max_backoff s (probe_step s)

  -- A run, with the batches that are submitted in it, the last one first.
  pub data Reach (initial max_backoff : ℕ) (s : Pipeline) : List (List ℕ) → Pipeline → Type 0 where
    here : Reach initial max_backoff s [] s
    enqueued :
        {submitted : List (List ℕ)} {t : Pipeline}
        → Reach initial max_backoff s submitted t
        → (locked : Bool) (json : List ℕ)
        → Reach initial max_backoff s (json ∷ submitted) (enqueue locked json t)
    next :
        {submitted : List (List ℕ)} {t u : Pipeline}
        → Reach initial max_backoff s submitted t
        → Step initial max_backoff t u
        → Reach initial max_backoff s submitted u
