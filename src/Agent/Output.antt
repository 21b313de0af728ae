-- ===== src/Agent/Output.antt =====
-- The retry queue of statix/src/output.rs: the worker that posts batches, and the enqueueing of
-- a batch with its spill to the WAL. A POST's answer and a sleep's jitter come from outside.
pub mod Backoff
pub mod NoLoss
use statix.Prelude.{
  ℕ, zero, suc, ◌+◌, ◌-◌, ◌*◌, ◌≤◌, ◌<◌, ◌≡◌, refl, min, max, Bool, true, false, ◌&&◌, ◌||◌, not,
  Option, none, some, List, [], ◌∷◌, ◌++◌, length, ltb, leb, ◌==◌, if◌then◌else◌, arith,
}
use statix.Wal.Circuit.{Circuit, record_post_success, record_post_failure}

abbrev pub retry_queue_capacity : ℕ
retry_queue_capacity = 60

pub data PostOutcome : Type 0 where
  success retryable : PostOutcome
  non_retryable : ℕ → PostOutcome

unfoldable pub is_retryable_status : ℕ → Bool
is_retryable_status status = status == 429 || (leb 500 status && ltb status 600)

-- The answer to the POST: no client, no response, or a status.
pub data Answer : Type 0 where
  no_client send_error : Answer
  status : ℕ → Answer

unfoldable pub post_ingest : Answer → PostOutcome
unfolding is_retryable_status
post_ingest no_client = retryable
post_ingest send_error = retryable
post_ingest (status code) =
    if leb 200 code && ltb code 300
    then success
    else if is_retryable_status code
    then retryable
    else non_retryable code

-- The worker's state while it holds a body: the backoff, the circuit and what it has done.
pub record Worker : Type 0 where
  pub backoff_secs : ℕ
  pub circuit : Circuit
  pub sleeps : List ℕ
  pub posts : ℕ

-- The body is delivered, discarded, or still to be posted.
pub data Fate : Type 0 where
  delivered discarded undecided : Fate

-- One round of the inner loop. A sleep is recorded by its base, without jitter and spread. The
-- product is a u64 in the source, which wraps from 2^63 seconds on; here it is unbounded.
unfoldable pub post_round : ℕ → ℕ → PostOutcome → Worker → Fate × Worker
post_round initial max_backoff success w = (
  delivered,
  record w { backoff_secs = initial; circuit = record_post_success w.circuit; posts = w.posts + 1 },
)
post_round initial max_backoff retryable w = (
  undecided,
  record w {
    backoff_secs = min (w.backoff_secs * 2) max_backoff;
    circuit = record_post_failure w.circuit;
    sleeps = w.sleeps ++ w.backoff_secs ∷ [];
    posts = w.posts + 1;
  },
)
post_round initial max_backoff (non_retryable code) w = (
  discarded,
  record w { backoff_secs = initial; circuit = record_post_success w.circuit; posts = w.posts + 1 },
)

abbrev pub is_decided : Fate → Bool
is_decided undecided = false
is_decided _ = true

-- The inner loop over the answers to come.
unfoldable pub post_until_decided : ℕ → ℕ → List Answer → Worker → Fate × Worker
unfolding post_round post_ingest
post_until_decided initial max_backoff [] w = (undecided, w)
post_until_decided initial max_backoff (a ∷ answers) w =
    let (fate, w') = post_round initial max_backoff (post_ingest a) w in
    let again = post_until_decided initial max_backoff answers w' in
    if is_decided fate then (fate, w') else again

-- A bounded channel.
pub record Channel {ℓ} (A : Type ℓ) : Type ℓ where
  pub items : List A
  pub capacity : ℕ
  pub closed : Bool

pub data Sent : Type 0 where
  sent full closed_channel : Sent

unfoldable pub try_send {ℓ} : {A : Type ℓ} → A → Channel A → Sent × Channel A
try_send x c =
    if c.closed
    then (closed_channel, c)
    else if ltb (length c.items) c.capacity
    then (sent, record c { items = c.items ++ x ∷ [] })
    else (full, c)

-- The WAL handle: whether it is enabled, and the channel to its writer thread.
pub record WalHandle {ℓ} (A : Type ℓ) : Type ℓ where
  pub enabled : Bool
  pub append_tx : Channel A

abbrev pub is_ok : Sent → Bool
is_ok sent = true
is_ok _ = false

unfoldable pub try_append {ℓ} : {A : Type ℓ} → A → WalHandle A → Bool × WalHandle A
unfolding try_send
try_append x w =
    let (r, c) = try_send x w.append_tx in
    if not w.enabled then (false, w) else (is_ok r, record w { append_tx = c })

-- What `enqueue_batch_json` reads and writes. `dropped` has the batches that are lost, in order.
pub record Queues {ℓ} (A : Type ℓ) : Type ℓ where
  pub retry : Channel A
  pub wal : Option (WalHandle A)
  pub dropped : List A

-- The last resort: the oldest goes if the receiver is not locked, and the new one takes its place.
abbrev pub drop_oldest {ℓ} : {A : Type ℓ} → A → List A → Queues A → Queues A
drop_oldest json [] q =
    let (r, c) = try_send json q.retry in
    if is_ok r then record q { retry = c } else record q { dropped = q.dropped ++ json ∷ [] }
drop_oldest json (oldest ∷ rest) q =
    let c = record q.retry { items = rest } in
    let (r, c') = try_send json c in
    if is_ok r
    then record q { retry = c'; dropped = q.dropped ++ oldest ∷ [] }
    else record q { retry = c; dropped = (q.dropped ++ oldest ∷ []) ++ json ∷ [] }

abbrev pub last_resort {ℓ} : {A : Type ℓ} → Bool → A → Queues A → Queues A
last_resort locked json q =
    if locked
    then record q { dropped = q.dropped ++ json ∷ [] }
    else drop_oldest json q.retry.items q

abbrev pub spill {ℓ} : {A : Type ℓ} → Bool → A → Option (WalHandle A) → Queues A → Queues A
spill locked json none q = last_resort locked json q
spill locked json (some w) q =
    let (taken, w') = try_append json w in
    if taken then record q { wal = some w' } else last_resort locked json q

abbrev pub enqueue_after {ℓ} : {A : Type ℓ} → Bool → A → Sent × Channel A → Queues A → Queues A
enqueue_after locked json (sent, c) q = record q { retry = c }
enqueue_after locked json (full, c) q = spill locked json q.wal q
enqueue_after locked json (closed_channel, c) q = record q { dropped = q.dropped ++ json ∷ [] }

-- With the worker initialised; `locked` is whether the worker holds the receiver at the try.
unfoldable pub enqueue_batch_json {ℓ} : {A : Type ℓ} → Bool → A → Queues A → Queues A
unfolding try_send try_append
enqueue_batch_json locked json q = enqueue_after locked json (try_send json q.retry) q
