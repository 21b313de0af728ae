-- ===== src/Wal/Writer/Trace.antt =====
-- The order of the writes and syncs of a group commit in statix/src/wal/writer.rs.
use statix.Prelude.{
  ℕ, ◌<◌, ◌≡◌, refl, ap, ◌∙◌, ◌⊎◌, inl, inr, false, ◌||◌, some, List, [], ◌∷◌, ◌++◌, last?, leb,
  ltb, if_elim, arith, append_assoc, append-nil,
}
use statix.Wal.Store.{WalInner}
use statix.Wal.Store.Rotate.{last?-append}
use statix.Wal.Writer.{
  Action, appended, synced, Received, Round, append_one, sync, drain_queue, group_commit,
}

abbrev pub appends : List Action → List (List ℕ)
appends [] = []
appends (appended p ∷ rest) = p ∷ appends rest
appends (synced ∷ rest) = appends rest

abbrev pub payloads_of : List Received → List (List ℕ)
payloads_of [] = []
payloads_of (b ∷ bs) = b.payload ∷ payloads_of bs

appends-append : (xs ys : List Action) → appends (xs ++ ys) ≡ appends xs ++ appends ys
appends-append [] ys = refl
appends-append (appended p ∷ xs) ys = ap (λ t. p ∷ t) (appends-append xs ys)
appends-append (synced ∷ xs) ys = appends-append xs ys

-- Writes so far, and a sync behind them unless some are still waiting for one.
record Traced (r : Round) (ps : List (List ℕ)) : Type 0 where
  writes : appends r.trace ≡ ps
  behind : (0 < r.since_sync) ⊎ (last? r.trace ≡ some synced)

sync_last : (r : Round) → last? (sync r).trace ≡ some synced
unfolding sync
sync_last r = last?-append r.trace synced

module _ (hash : List ℕ → ℕ) where
  append_one-Traced :
      (b : Received) (r : Round) (ps : List (List ℕ))
      → appends r.trace ≡ ps
      → Traced (append_one hash b r) (ps ++ b.payload ∷ [])
  unfolding append_one
  append_one-Traced b r ps h = record {
    writes = appends-append r.trace (appended b.payload ∷ []) ∙ ap (λ t. t ++ b.payload ∷ []) h;
    behind = inl (omega arith);
  }

  sync-Traced : (r : Round) (ps : List (List ℕ)) → appends r.trace ≡ ps → Traced (sync r) ps
  unfolding sync
  sync-Traced r ps h = record {
    writes = appends-append r.trace (synced ∷ []) ∙ (append-nil (appends r.trace) ∙ h);
    behind = inr (last?-append r.trace synced);
  }

  drain_queue-Traced :
      (bs : List Received) (r : Round) (ps : List (List ℕ))
      → Traced r ps
      → Traced (drain_queue hash bs r) (ps ++ payloads_of bs)
  unfolding drain_queue
  drain_queue-Traced [] r ps h = rw append-nil h
  drain_queue-Traced (b ∷ bs) r ps h =
      let one = append_one-Traced b r ps h.writes in
      rw (← append_assoc ps (b.payload ∷ []) (payloads_of bs)) (
        drain_queue-Traced bs _ (ps ++ b.payload ∷ []) (
          if_elim (λ (r' : Round). Traced r' (ps ++ b.payload ∷ []))
            (leb r.inner.cfg.fsync_frames (append_one hash b r).since_sync || b.interval_elapsed)
            (sync (append_one hash b r)) (append_one hash b r)
            (λ _. sync-Traced (append_one hash b r) _ one.writes) (λ _. one)))

  -- A group commit tries to write every payload it was given exactly once, in the order in which
  -- they came, and ends with a sync, whatever the sync policy and however the writes end.
  group_commit-trace :
      (first : Received) (queued : List Received) (w : WalInner)
      → (appends (group_commit hash first queued w).trace ≡ first.payload ∷ payloads_of queued)
        × (last? (group_commit hash first queued w).trace ≡ some synced)
  unfolding group_commit
  group_commit-trace first queued w =
      let start : Round = record { inner = w; since_sync = 0; trace = []; write_errors = 0 } in
      let r = drain_queue hash queued (append_one hash first start) in
      let all = first.payload ∷ payloads_of queued in
      let traced : Traced r all =
        drain_queue-Traced queued (append_one hash first start) (first.payload ∷ [])
          (append_one-Traced first start [] refl) in
      if_elim (λ (r' : Round). (appends r'.trace ≡ all) × (last? r'.trace ≡ some synced))
        (ltb 0 r.since_sync) (sync r) r
        (λ _. let s = sync-Traced r all traced.writes in (s.writes, sync_last r))
        (λ off. (traced.writes, settled r off traced.behind))
    where
      settled :
          (r : Round)
          → ltb 0 r.since_sync ≡ false
          → (0 < r.since_sync) ⊎ (last? r.trace ≡ some synced)
          → last? r.trace ≡ some synced
      settled r off (inl h) = absurd (ground arith)
      settled r off (inr h) = h
