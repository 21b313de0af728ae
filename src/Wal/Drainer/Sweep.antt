-- ===== src/Wal/Drainer/Sweep.antt =====
-- A sweep of the drainer of statix/src/wal/drainer.rs, in every state of the circuit.
use statix.Prelude.{
  ℕ, suc, ◌-◌, ◌≤◌, ◌≡◌, refl, ap, sym, ◌∙◌, inl, inr, true, List, [], ◌∷◌, ◌++◌, map, length, take,
  drop, if_elim, arith, append-nil, take-append-drop, Bool-cases,
}
use statix.Wal.Segment.{DecodedFrame}
use statix.Wal.Circuit.{CircuitState, closed, half_open, open_state, circuit_state}
use statix.Wal.Store.{Attempt, has_backlog}
use statix.Wal.Store.Layout.{Represents}
use statix.Wal.Store.Reads.{IsReadable}
use statix.Wal.Writer.Held.{payloads}
use statix.Wal.Drainer.{ReplayOutcome, Drain, has_room, replay_one, drain_rounds, sweep, sweep_at}
use statix.Wal.Drainer.Replay.{Replayed, Moved, replay_one-Replayed, drain_rounds-Moved}
use statix.Wal.Drainer.Unchanged.{
  SameTail, SameTail-refl, replay_one-SameTail, drain_rounds-SameTail,
}

pub payloads-map : (fs : List DecodedFrame) → map (λ (f : DecodedFrame). f.payload) fs ≡ payloads fs
payloads-map [] = refl
payloads-map (f ∷ fs) = ap (λ t. f.payload ∷ t) (payloads-map fs)

-- How many frames move, by the circuit's state: none, a trial, or as many as there is room for.
abbrev pub Amount : CircuitState → Drain → List DecodedFrame → List DecodedFrame → Type 0
Amount open_state d q moved = moved ≡ []
Amount half_open d q moved = length moved ≤ 1
Amount closed d q moved =
    has_backlog d.wal ≡ true → moved ≡ take (d.queue.capacity - length d.queue.items) q

module _ (hash : List ℕ → ℕ) where
  -- The oldest frames of the log are at the end of the retry queue, and the rest is in the log.
  pub record Swept (q : List DecodedFrame) (c : CircuitState) (d d' : Drain) : Type 0 where
    pub moved : List DecodedFrame
    pub kept : List DecodedFrame
    pub split : moved ++ kept ≡ q
    pub amount : Amount c d q moved
    pub queued : d'.queue.items ≡ d.queue.items ++ payloads moved
    pub represents : Represents hash d'.wal kept
    pub tail : SameTail d.wal d'.wal

  stays :
      (q : List DecodedFrame) (c : CircuitState) (d : Drain)
      → Amount c d q []
      → Represents hash d.wal q
      → Swept q c d d
  stays q c d amount h = record {
    moved = [];
    kept = q;
    split = refl;
    amount = amount;
    queued = sym (append-nil d.queue.items);
    represents = h;
    tail = SameTail-refl d.wal;
  }

  trial :
      (os : ℕ → Attempt) (q : List DecodedFrame) (d : Drain) (r : ReplayOutcome × Drain)
      → SameTail d.wal r.1.wal
      → Replayed hash os q d r
      → Swept q half_open d r.1
  trial os [] d r tail h = record {
    moved = [];
    kept = [];
    split = refl;
    amount = omega arith;
    queued = rw (h.1).0 (sym (append-nil d.queue.items));
    represents = (h.1).1;
    tail = tail;
  }
  trial os (f ∷ q) d r tail h = elim (Bool-cases (has_room d.queue)) [
    | inl room ↦
        let (sent, (same, rest)) = rw room at h in
        record {
          moved = f ∷ [];
          kept = q;
          split = refl;
          amount = omega arith;
          queued = rw same refl;
          represents = rest;
          tail = tail;
        }
    | inr none_left ↦
        let (no_capacity, (same, rest)) = rw none_left at h in
        record {
          moved = [];
          kept = f ∷ q;
          split = refl;
          amount = omega arith;
          queued = rw same (sym (append-nil d.queue.items));
          represents = rest;
          tail = tail;
        }
  ]

  filled :
      (os : ℕ → Attempt) (n : ℕ) (q : List DecodedFrame) (d d' : Drain)
      → d.queue.capacity - length d.queue.items ≡ n
      → SameTail d.wal d'.wal
      → Moved hash os n q d d'
      → Swept q closed d d'
  filled os n q d d' room tail h = record {
    moved = take n q;
    kept = drop n q;
    split = take-append-drop n q;
    amount = λ _. rw room refl;
    queued = h.0 ∙ ap (λ t. d.queue.items ++ t) (payloads-map (take n q));
    represents = h.1;
    tail = tail;
  }

  sweep_at-Swept :
      (os : ℕ → Attempt) (c : CircuitState) (q : List DecodedFrame) (d : Drain)
      → ((i : ℕ) → IsReadable (os i))
      → d.queue.is_open ≡ true
      → circuit_state d.circuit ≡ c
      → Represents hash d.wal q
      → Swept q c d (sweep_at hash os c d)
  sweep_at-Swept os open_state q d readable opened state h = record {
    moved = [];
    kept = q;
    split = refl;
    amount = refl;
    queued = sym (append-nil d.queue.items);
    represents = h;
    tail = SameTail-refl d.wal;
  }
  sweep_at-Swept os half_open q d readable opened state h =
      if_elim (λ (d' : Drain). Swept q half_open d d') (has_backlog d.wal) _ d
        (λ _.
          trial os q d (replay_one hash os d) (replay_one-SameTail hash os d)
            (replay_one-Replayed hash os q d readable h))
        (λ _. stays q half_open d (omega arith) h)
  sweep_at-Swept os closed q d readable opened state h =
      let n = d.queue.capacity - length d.queue.items in
      if_elim (λ (d' : Drain). Swept q closed d d') (has_backlog d.wal) _ d
        (λ _.
          filled os n q d (drain_rounds hash os (suc d.queue.capacity) d) refl
            (drain_rounds-SameTail hash os (suc d.queue.capacity) d)
            (drain_rounds-Moved hash os (suc d.queue.capacity) n q d readable h opened
              (rw state refl) refl (omega arith)))
        (λ idle. stays q closed d (λ busy. cc) h)

  -- Whatever the state of the circuit, a sweep takes a part of the log off its front and puts it
  -- at the end of the retry queue in the same order: nothing while the circuit is open, one frame
  -- at most as a trial while it is half open, and as many as there is room for while it is closed
  -- and a backlog is seen. It ends within its rounds, and leaves the active segment and the count
  -- of dropped bytes alone. Every file can be opened and read, and the queue's receiver is alive.
  pub sweep-Swept :
      (os : ℕ → Attempt) (q : List DecodedFrame) (d : Drain)
      → ((i : ℕ) → IsReadable (os i))
      → d.queue.is_open ≡ true
      → Represents hash d.wal q
      → Swept q (circuit_state d.circuit) d (sweep hash os d)
  unfolding sweep
  sweep-Swept os q d readable opened h =
      sweep_at-Swept os (circuit_state d.circuit) q d readable opened refl h
