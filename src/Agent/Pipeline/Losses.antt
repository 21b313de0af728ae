-- ===== src/Agent/Pipeline/Losses.antt =====
-- What the writer thread and the drainer of statix/src/wal do to the account of the batches.
use statix.Prelude.{
  ℕ, ◌+◌, ◌≤◌, ◌<◌, ◌≡◌, ◌⊎◌, inl, inr, refl, ap, sym, append-nil, Bool, true, false, if◌then◌else◌,
  List, [], ◌∷◌, ◌++◌, arith, count, count-append,
}
use statix.Wal.Segment.{DecodedFrame}
use statix.Wal.Store.{Attempt}
use statix.Wal.Store.Layout.{Represents}
use statix.Wal.Store.Reads.{IsReadable}
use statix.Wal.Store.Reported.{dropped}
use statix.Wal.Store.Repair.{IsTorn}
use statix.Wal.Writer.{Received, group_commit}
use statix.Wal.Writer.Held.{
  IsWritten, Decided, stored, stored_one, failures_in, payloads, payloads-append,
}
use statix.Wal.Writer.Log.{group_commit-Holds}
use statix.Wal.Drainer.{
  Drain, RetryQueue, ReplayOutcome, sent, no_capacity, has_room, send, replay_one,
}
use statix.Wal.Drainer.Replay.{Replayed, replay_one-Replayed}
use statix.Wal.Drainer.Unchanged.{replay_one-SameTail}
use statix.Agent.Pipeline.{Pipeline, drain_of, replay_step, write, payloads_of, append_items}
use statix.Agent.Pipeline.Accounts.{held, taken-count}

module _ (hash : List ℕ → ℕ) where
  -- The payloads whose write fails.
  abbrev pub unstored_one : (b : Received) → IsWritten hash b ⊎ IsTorn b.os → List (List ℕ)
  unstored_one b (inl h) = []
  unstored_one b (inr h) = b.payload ∷ []

  abbrev pub unstored : (bs : List Received) → Decided hash bs → List (List ℕ)
  unstored [] h = []
  unstored (b ∷ bs) h = unstored_one b h.0 ++ unstored bs h.1

  one-count :
      (p : List ℕ → Bool) (b : Received) (h : IsWritten hash b ⊎ IsTorn b.os)
      → count p (b.payload ∷ []) ≡ count p (stored_one hash b h) + count p (unstored_one b h)
  one-count p b (inl h) = omega arith
  one-count p b (inr h) = omega arith

  stored-count :
      (p : List ℕ → Bool) (bs : List Received) (h : Decided hash bs)
      → count p (payloads_of bs) ≡ count p (stored hash bs h) + count p (unstored bs h)
  stored-count p [] h = refl
  stored-count p (b ∷ bs) h = omega (
    arith,
    count-append p (b.payload ∷ []) (payloads_of bs),
    count-append p (stored_one hash b h.0) (stored hash bs h.1),
    count-append p (unstored_one b h.0) (unstored bs h.1),
    one-count p b h.0,
    stored-count p bs h.1,
  )

  unstored_none :
      (bs : List Received) (h : Decided hash bs)
      → (unstored bs h ≡ []) ⊎ (0 < failures_in hash bs h)
  unstored_none [] h = inl refl
  unstored_none (b ∷ bs) (inl h, hs) = elim (unstored_none bs hs) [
    | inl none_failed ↦ inl none_failed
    | inr failed ↦ inr (omega arith)
  ]
  unstored_none (b ∷ bs) (inr h, hs) = inr (omega arith)

  -- Every batch of `all` is in one place: the retry queue, the worker's hand, the writer's
  -- channel, the log, the delivered, the discarded or the dropped ones, or among `lost`, which is
  -- empty unless the counters of dropped bytes or of write errors show a loss.
  pub record Conserved (base : ℕ) (all : List (List ℕ)) (s : Pipeline) : Type 0 where
    pub kept : List DecodedFrame
    pub lost : List (List ℕ)
    pub represents : Represents hash s.store kept
    pub balanced :
        (p : List ℕ → Bool) → held p s + (count p (payloads kept) + count p lost) ≡ count p all
    pub grown : base ≤ dropped s.store
    pub reported : (lost ≡ []) ⊎ ((base < dropped s.store) ⊎ (0 < s.write_errors))

  still_reported :
      (base d d' e f : ℕ) (lost gone failed : List (List ℕ))
      → base ≤ d
      → d ≤ d'
      → (lost ≡ []) ⊎ ((base < d) ⊎ (0 < e))
      → (gone ≡ []) ⊎ (d < d')
      → (failed ≡ []) ⊎ (0 < f)
      → (lost ++ (gone ++ failed) ≡ []) ⊎ ((base < d') ⊎ (0 < e + f))
  still_reported base d d' e f lost gone failed h up (inl a) (inl b) (inl c) =
      inl (rw (a, b, c) refl)
  still_reported base d d' e f lost gone failed h up (inr (inl a)) b c = inr (inl (omega arith))
  still_reported base d d' e f lost gone failed h up (inr (inr a)) b c = inr (inr (omega arith))
  still_reported base d d' e f lost gone failed h up (inl a) (inr b) c = inr (inl (omega arith))
  still_reported base d d' e f lost gone failed h up (inl a) (inl b) (inr c) =
      inr (inr (omega arith))

  pub write-Conserved :
      (base : ℕ) (all : List (List ℕ)) (s : Pipeline) (first : Received) (queued : List Received)
      (rest : List (List ℕ))
      → (h : Decided hash (first ∷ queued))
      → append_items s.queues.wal ≡ payloads_of (first ∷ queued) ++ rest
      → Conserved base all s
      → Conserved base all (write hash first queued rest s)
  unfolding write
  write-Conserved base all s first queued rest h e c =
      let (l, errors) =
        group_commit-Holds hash (dropped s.store) first queued s.store (payloads c.kept) h (record {
          gone = [];
          kept = c.kept;
          split = refl;
          grown = omega arith;
          reported = inl refl;
          represents = c.represents;
        }) in
      record {
        kept = l.kept;
        lost = c.lost ++ (l.gone ++ unstored (first ∷ queued) h);
        represents = l.represents;
        balanced = λ p. omega (
          arith,
          c.balanced p,
          count-append p c.lost (l.gone ++ unstored (first ∷ queued) h),
          count-append p l.gone (unstored (first ∷ queued) h),
          count-append p l.gone (payloads l.kept),
          count-append p (payloads c.kept) (stored hash (first ∷ queued) h),
          ap (count p) l.split,
          stored-count p (first ∷ queued) h,
          taken-count p (payloads_of (first ∷ queued)) rest s.queues.wal e,
        );
        grown = omega (arith, c.grown, l.grown);
        reported = rw errors (
            still_reported base (dropped s.store)
              (dropped (group_commit hash first queued s.store).inner) s.write_errors
              (failures_in hash (first ∷ queued) h) c.lost l.gone (unstored (first ∷ queued) h)
              c.grown l.grown c.reported l.reported (unstored_none (first ∷ queued) h));
      }

  -- A replay moves the oldest frame of the log to the retry queue, or nothing.
  Moves : List DecodedFrame → Drain → Drain → Type 0
  Moves q d d' =
      (moved kept : List DecodedFrame) × (moved ++ kept ≡ q)
      × (d'.queue.items ≡ d.queue.items ++ payloads moved)
      × Represents hash d'.wal kept

  Replayed-Moves :
      (os : ℕ → Attempt) (q : List DecodedFrame) (d : Drain) (r : ReplayOutcome × Drain)
      → Replayed hash os q d r
      → Moves q d r.1
  unfolding Moves
  Replayed-Moves os [] d r (_, (queue, represents)) =
      ([], [], refl, rw queue (sym (append-nil d.queue.items)), represents)
  Replayed-Moves os (f ∷ q) d r h = by_room (has_room d.queue) h
    where
      by_room :
          (b : Bool)
          → (if b
              then (r.0 ≡ sent) × ((r.1.queue ≡ send f.payload d.queue) × Represents hash r.1.wal q)
              else (r.0 ≡ no_capacity) × ((r.1.queue ≡ d.queue) × Represents hash r.1.wal (f ∷ q)))
          → Moves (f ∷ q) d r.1
      by_room true (_, (queue, represents)) =
          (f ∷ [], q, refl, ap (λ (u : RetryQueue). u.items) queue, represents)
      by_room false (_, (queue, represents)) =
          ([], f ∷ q, refl, rw queue (sym (append-nil d.queue.items)), represents)

  pub replay-Conserved :
      (base : ℕ) (all : List (List ℕ)) (s : Pipeline) (os : ℕ → Attempt)
      → ((i : ℕ) → IsReadable (os i))
      → Conserved base all s
      → Conserved base all (replay_step hash os s)
  unfolding replay_step Moves
  replay-Conserved base all s os readable c =
      let d = drain_of s in
      let (moved, kept, split, queued, represents) =
        Replayed-Moves os c.kept d (replay_one hash os d)
          (replay_one-Replayed hash os c.kept d readable c.represents) in
      let same = (replay_one-SameTail hash os d).same_dropped in
      record {
        kept = kept;
        lost = c.lost;
        represents = represents;
        balanced = λ p. omega (
          arith,
          c.balanced p,
          ap (count p) queued,
          count-append p s.queues.retry.items (payloads moved),
          count-append p (payloads moved) (payloads kept),
          ap (count p) (payloads-append moved kept),
          ap (λ fs. count p (payloads fs)) split,
        );
        grown = omega (arith, c.grown, same);
        reported = rw same c.reported;
      }
