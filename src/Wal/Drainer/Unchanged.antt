-- ===== src/Wal/Drainer/Unchanged.antt =====
-- What a sweep of statix/src/wal/drainer.rs leaves alone: the active segment, and the bytes that
-- were counted as dropped.
use statix.Prelude.{
  ℕ, zero, suc, ◌≡◌, refl, ◌∙◌, not, ◌||◌, Option, none, some, List, [], ◌∷◌, any, is_empty, length,
  ltb, ◌==◌, if_elim,
}
use statix.Wal.Segment.{FrameRead, frame, end, corrupt}
use statix.Wal.Circuit.{circuit_state, is_closed}
use statix.Wal.Store.{
  WalInner, SegmentMeta, Attempt, Peek, nothing, found, failed, stuck, to_front, delete_segment,
  find_segment, gc_front_consumed, resync, active_is, after_read, read_at_cursor, peek_rounds,
  peek_next, commit_at, commit_pending,
}
use statix.Wal.Store.Reported.{dropped}
use statix.Wal.Drainer.Replay.{replay_one-circuit}
use statix.Wal.Drainer.{ReplayOutcome, Drain, has_room, deliver, replay_one, drain_rounds, is_sent}

pub record SameTail (w w' : WalInner) : Type 0 where
  pub same_active : w'.active ≡ w.active
  pub same_dropped : dropped w' ≡ dropped w

pub SameTail-refl : (w : WalInner) → SameTail w w
SameTail-refl w = record { same_active = refl; same_dropped = refl }

pub SameTail-trans : (w w' w'' : WalInner) → SameTail w w' → SameTail w' w'' → SameTail w w''
SameTail-trans w w' w'' h k = record {
  same_active = k.same_active ∙ h.same_active;
  same_dropped = k.same_dropped ∙ h.same_dropped;
}

to_front-SameTail : (ms : List SegmentMeta) (w : WalInner) → SameTail w (to_front ms w)
to_front-SameTail [] w = SameTail-refl w
to_front-SameTail (m ∷ ms) w = record { same_active = refl; same_dropped = refl }

delete-SameTail : (m : Option SegmentMeta) (w : WalInner) → SameTail w (delete_segment m w)
delete-SameTail none w = SameTail-refl w
delete-SameTail (some m) w = record { same_active = refl; same_dropped = refl }

gc-SameTail : (w : WalInner) → SameTail w (gc_front_consumed w)
unfolding gc_front_consumed
gc-SameTail w =
    let w' = delete_segment (find_segment w.read_seq w.segments) w in
    let h = delete-SameTail (find_segment w.read_seq w.segments) w in
    let k = to_front-SameTail w'.segments w' in
    record {
      same_active = k.same_active ∙ h.same_active;
      same_dropped = k.same_dropped ∙ h.same_dropped;
    }

resync-SameTail : (w : WalInner) → SameTail w (resync w)
unfolding resync
resync-SameTail w =
    if_elim (λ (w' : WalInner). SameTail w w')
      (any (λ (m : SegmentMeta). m.seq == w.read_seq) w.segments) w (to_front w.segments w)
      (λ _. SameTail-refl w) (λ _. to_front-SameTail w.segments w)

commit-SameTail : (n : Option ℕ) (w : WalInner) → SameTail w (commit_at n w)
commit-SameTail none w = SameTail-refl w
commit-SameTail (some n) w = record { same_active = refl; same_dropped = refl }

module _ (hash : List ℕ → ℕ) (os : ℕ → Attempt) where
  after_read-SameTail :
      (r : Option FrameRead) (w : WalInner) (again : Peek × WalInner)
      → SameTail w again.1
      → SameTail w (after_read hash os r w again).1
  after_read-SameTail none w again h = SameTail-refl w
  after_read-SameTail (some (frame f next)) w again h = record {
    same_active = refl;
    same_dropped = refl;
  }
  after_read-SameTail (some end) w again h =
      if_elim (λ (r : Peek × WalInner). SameTail w r.1) (active_is w.read_seq w.active) (nothing, w)
        again (λ _. SameTail-refl w) (λ _. h)
  after_read-SameTail (some corrupt) w again h =
      if_elim (λ (r : Peek × WalInner). SameTail w r.1) (active_is w.read_seq w.active) (nothing, w)
        again (λ _. SameTail-refl w) (λ _. h)

  peek_rounds-SameTail : (fuel : ℕ) (w : WalInner) → SameTail w (peek_rounds hash os fuel w).1
  unfolding peek_rounds
  peek_rounds-SameTail zero w = SameTail-refl w
  peek_rounds-SameTail (suc fuel) w =
      let w' = resync w in
      let again = peek_rounds hash os fuel (gc_front_consumed w') in
      if_elim (λ (r : Peek × WalInner). SameTail w r.1) (is_empty w.segments) (nothing, w) _
        (λ _. SameTail-refl w)
        (λ _. SameTail-trans w w' _ (resync-SameTail w) (
          after_read-SameTail (read_at_cursor hash os w') w' again (
            SameTail-trans w' (gc_front_consumed w') again.1 (gc-SameTail w')
              (peek_rounds-SameTail fuel (gc_front_consumed w')))))

  deliver-SameTail :
      (r : Peek × WalInner) (d : Drain)
      → SameTail d.wal r.1
      → SameTail d.wal (deliver hash os r d).1.wal
  unfolding commit_pending
  deliver-SameTail (found f, w) d h =
      if_elim (λ (r : ReplayOutcome × Drain). SameTail d.wal r.1.wal) (has_room d.queue) _ _
        (λ _. SameTail-trans d.wal w _ h (commit-SameTail w.pending_advance w)) (λ _. h)
  deliver-SameTail (nothing, w) d h = h
  deliver-SameTail (failed, w) d h = h
  deliver-SameTail (stuck, w) d h = h

  pub replay_one-SameTail : (d : Drain) → SameTail d.wal (replay_one hash os d).1.wal
  unfolding replay_one peek_next
  replay_one-SameTail d =
      deliver-SameTail (peek_next hash os d.wal) d
        (peek_rounds-SameTail (suc (length d.wal.segments)) d.wal)

  pub drain_rounds-SameTail :
      (fuel : ℕ) (d : Drain) → SameTail d.wal (drain_rounds hash os fuel d).wal
  unfolding drain_rounds
  drain_rounds-SameTail zero d = SameTail-refl d.wal
  drain_rounds-SameTail (suc fuel) d =
      let r = replay_one hash os d in
      let one = replay_one-SameTail d in
      let again = drain_rounds hash os fuel r.1 in
      if_elim (λ (d' : Drain). SameTail d.wal d'.wal)
        (not (ltb (length d.queue.items) d.queue.capacity)
          || not (is_closed (circuit_state d.circuit)))
        d _ (λ _. SameTail-refl d.wal)
        (λ _.
          if_elim (λ (d' : Drain). SameTail d.wal d'.wal) (is_sent r.0) again r.1
            (λ _. SameTail-trans d.wal r.1.wal again.wal one (drain_rounds-SameTail fuel r.1))
            (λ _. one))

  pub drain_rounds-circuit :
      (fuel : ℕ) (d : Drain) → (drain_rounds hash os fuel d).circuit ≡ d.circuit
  unfolding drain_rounds
  drain_rounds-circuit zero d = refl
  drain_rounds-circuit (suc fuel) d =
      let r = replay_one hash os d in
      let again = drain_rounds hash os fuel r.1 in
      if_elim (λ (d' : Drain). d'.circuit ≡ d.circuit)
        (not (ltb (length d.queue.items) d.queue.capacity)
          || not (is_closed (circuit_state d.circuit)))
        d _ (λ _. refl)
        (λ _.
          if_elim (λ (d' : Drain). d'.circuit ≡ d.circuit) (is_sent r.0) again r.1
            (λ _. drain_rounds-circuit fuel r.1 ∙ replay_one-circuit hash os d)
            (λ _. replay_one-circuit hash os d))
