-- ===== src/Wal/Writer/Log.antt =====
-- What a group commit of statix/src/wal/writer.rs leaves in the log.
use statix.Prelude.{
  ℕ, ◌+◌, ◌≡◌, arith, refl, ◌⊎◌, inl, inr, ◌||◌, List, [], ◌∷◌, ◌++◌, leb, ltb, if_elim,
  append_assoc, append-nil,
}
use statix.Wal.Store.{WalInner}
use statix.Wal.Store.Repair.{IsTorn}
use statix.Wal.Writer.{Received, Round, append_one, sync, drain_queue, group_commit}
use statix.Wal.Writer.Held.{
  IsWritten, Decided, stored_one, stored, failed_one, failures_in, Holds, HoldsAt, written_outcome,
  torn_outcome,
}

module _ (hash : List ℕ → ℕ) where
  synced_same :
      (base : ℕ) (r : Round) (all : List (List ℕ)) (errors : ℕ)
      → HoldsAt hash base r all errors
      → HoldsAt hash base (sync r) all errors
  unfolding sync
  synced_same base r all errors l = l

  append_one-Holds :
      (base : ℕ) (b : Received) (r : Round) (all : List (List ℕ)) (errors : ℕ)
      → (h : IsWritten hash b ⊎ IsTorn b.os) → HoldsAt hash base r all errors
      → HoldsAt hash base
          (append_one hash b r)
          (all ++ stored_one hash b h)
          (errors + failed_one hash b h)
  unfolding append_one
  append_one-Holds base b r all errors (inl h) l =
      let o = written_outcome hash base b r.inner all h l.0 in (o.0, omega (arith, l.1, o.1))
  append_one-Holds base b r all errors (inr h) l =
      let o = torn_outcome hash base b r.inner all h l.0 in (o.0, omega (arith, l.1, o.1))

  drain_queue-Holds :
      (base : ℕ) (bs : List Received) (r : Round) (all : List (List ℕ)) (errors : ℕ)
      → (h : Decided hash bs) → HoldsAt hash base r all errors
      → HoldsAt hash base
          (drain_queue hash bs r)
          (all ++ stored hash bs h)
          (errors + failures_in hash bs h)
  unfolding drain_queue
  drain_queue-Holds base [] r all errors h l = (rw append-nil l.0, omega (arith, l.1))
  drain_queue-Holds base (b ∷ bs) r all errors h l =
      let one = append_one-Holds base b r all errors h.0 l in
      let due =
        leb r.inner.cfg.fsync_frames (append_one hash b r).since_sync || b.interval_elapsed in
      let sum : errors + failed_one hash b h.0 + failures_in hash bs h.1
          ≡ errors + (failed_one hash b h.0 + failures_in hash bs h.1) =
        omega arith in
      rw (← append_assoc all (stored_one hash b h.0) (stored hash bs h.1), ← sum)
        (drain_queue-Holds base bs _ (all ++ stored_one hash b h.0) (errors + failed_one hash b h.0)
          h.1
          (if_elim
            (λ (r' : Round).
              HoldsAt hash base r' (all ++ stored_one hash b h.0) (errors + failed_one hash b h.0))
            due (sync (append_one hash b r)) (append_one hash b r)
            (λ _. synced_same base (append_one hash b r) _ _ one) (λ _. one)))

  -- A group commit puts the payloads that can be written at the end of the log in the order in
  -- which they came, when each has 1 byte to 16 MiB and a checksum of 32 bits. A failing rotation or
  -- write on the way is undone, leaves no trace and is counted in the write errors, if the repair's
  -- `set_len` and seek succeed; the source ignores the errors of these two, and a repair that fails
  -- is not covered. Only the oldest payloads go, at the front, when the cap asks for room, never
  -- without `dropped_bytes` growing.
  pub group_commit-Holds :
      (base : ℕ) (first : Received) (queued : List Received) (w : WalInner) (all : List (List ℕ))
      → (h : Decided hash (first ∷ queued)) → Holds hash base w all
      → HoldsAt hash base
          (group_commit hash first queued w)
          (all ++ stored hash (first ∷ queued) h)
          (failures_in hash (first ∷ queued) h)
  unfolding group_commit
  group_commit-Holds base first queued w all h l =
      let start : Round = record { inner = w; since_sync = 0; trace = []; write_errors = 0 } in
      let r = drain_queue hash queued (append_one hash first start) in
      let errors = failures_in hash (first ∷ queued) h in
      let one = append_one-Holds base first start all 0 h.0 (l, refl) in
      let done_all : HoldsAt hash base r
          (all ++ (stored_one hash first h.0 ++ stored hash queued h.1)) errors =
        rw (← append_assoc all (stored_one hash first h.0) (stored hash queued h.1)) (
          drain_queue-Holds base queued (append_one hash first start)
            (all ++ stored_one hash first h.0) (failed_one hash first h.0) h.1
            (one.0, omega (arith, one.1))) in
      if_elim
        (λ (r' : Round).
          HoldsAt hash base r' (all ++ (stored_one hash first h.0 ++ stored hash queued h.1))
            errors)
        (ltb 0 r.since_sync) (sync r) r (λ _. synced_same base r _ _ done_all) (λ _. done_all)
