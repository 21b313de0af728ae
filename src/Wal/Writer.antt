-- ===== src/Wal/Writer.antt =====
-- The group commit of statix/src/wal/writer.rs: one round of the thread's outer loop, over the
-- payloads that are queued while it runs. The calls on the file are kept as a trace.
pub mod Held
pub mod Log
pub mod Trace
use statix.Prelude.{
  ℕ, zero, suc, ◌+◌, ◌≤◌, ◌<◌, ◌≡◌, refl, Bool, true, false, ◌||◌, List, [], ◌∷◌, ◌++◌, ltb, leb,
  if◌then◌else◌, arith,
}
use statix.Wal.Store.{
  Os, Outcome, done, io_error, panicked, WalInner, append, recover_active_after_error,
}

pub data Action : Type 0 where
  appended : List ℕ → Action
  synced : Action

-- A payload with what the system does on its write, and whether the interval has elapsed since
-- the last sync when the loop asks.
pub record Received : Type 0 where
  pub payload : List ℕ
  pub os : Os
  pub interval_elapsed : Bool

-- The variables of a round.
pub record Round : Type 0 where
  pub inner : WalInner
  pub since_sync : ℕ
  pub trace : List Action
  pub write_errors : ℕ

abbrev pub append_outcome : Os → Outcome × WalInner → WalInner × ℕ
append_outcome os (io_error, w) = (recover_active_after_error os w, 1)
append_outcome os (done, w) = (w, 0)
append_outcome os (panicked, w) = (w, 0)

-- `fdatasync` changes nothing in the store, and its error is only counted.
unfoldable pub sync : Round → Round
sync r = record r { since_sync = 0; trace = r.trace ++ synced ∷ [] }

module _ (hash : List ℕ → ℕ) where
  unfoldable pub append_one : Received → Round → Round
  append_one b r =
      let (w, errors) = append_outcome b.os (append hash b.os b.payload r.inner) in
      record r {
        inner = w;
        since_sync = r.since_sync + 1;
        trace = r.trace ++ appended b.payload ∷ [];
        write_errors = r.write_errors + errors;
      }

  unfoldable pub drain_queue : List Received → Round → Round
  unfolding append_one sync
  drain_queue [] r = r
  drain_queue (b ∷ bs) r =
      let r' = append_one b r in
      drain_queue bs
        (if leb r.inner.cfg.fsync_frames r'.since_sync || b.interval_elapsed then sync r' else r')

  unfoldable pub group_commit : Received → List Received → WalInner → Round
  unfolding drain_queue
  group_commit first queued w =
      let start : Round = record { inner = w; since_sync = 0; trace = []; write_errors = 0 } in
      let r = drain_queue queued (append_one first start) in
      if ltb 0 r.since_sync then sync r else r
