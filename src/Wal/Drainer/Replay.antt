-- ===== src/Wal/Drainer/Replay.antt =====
-- How the drainer of statix/src/wal/drainer.rs moves the log into the retry queue.
use statix.Prelude.{
  Bool-cases, inl, inr, ℕ, zero, suc, ◌-◌, ◌<◌, ◌≡◌, refl, ap, sym, ◌∙◌, true, false, List, [], ◌∷◌,
  ◌++◌, map, length, take, drop, ltb, lt→ltb, if◌then◌else◌, if_elim, arith, append_assoc,
  append-nil, length-append,
}
use statix.Wal.Segment.{DecodedFrame}
use statix.Wal.Circuit.{circuit_state, is_closed}
use statix.Wal.Store.{WalInner, Attempt, peek_next, Peek, nothing, found, failed, stuck}
use statix.Wal.Store.Layout.{Represents}
use statix.Wal.Store.Reads.{IsReadable, Peeked, peek_next-Peeked}
use statix.Wal.Store.Commit.{commit_pending-Represents}
use statix.Wal.Drainer.{
  ReplayOutcome, sent, empty, no_capacity, RetryQueue, Drain, has_room, send, deliver, replay_one,
  drain_rounds, is_sent,
}

module _ (hash : List ℕ → ℕ) (os : ℕ → Attempt) where
  -- What one replay does with the queue of the log: the first frame goes into the retry queue if
  -- there is room, and nothing changes otherwise.
  abbrev pub Replayed : List DecodedFrame → Drain → ReplayOutcome × Drain → Type 0
  Replayed [] d r = (r.0 ≡ empty) × ((r.1.queue ≡ d.queue) × Represents hash r.1.wal [])
  Replayed (f ∷ q) d r =
      if has_room d.queue
      then (r.0 ≡ sent) × ((r.1.queue ≡ send f.payload d.queue) × Represents hash r.1.wal q)
      else (r.0 ≡ no_capacity) × ((r.1.queue ≡ d.queue) × Represents hash r.1.wal (f ∷ q))

  deliver-Replayed :
      (q : List DecodedFrame) (d : Drain) (r : Peek × WalInner)
      → Peeked hash os q r
      → Replayed q d (deliver hash os r d)
  deliver-Replayed [] d (p, w) h = rw (h.answer) (refl, (refl, h.represents))
  deliver-Replayed (f ∷ q) d (p, w) h = elim (Bool-cases (has_room d.queue)) [
    | inl room ↦
        rw ((h.answer).0, room)
          (refl, (refl, commit_pending-Represents hash w f q h.represents (h.answer).1))
    | inr none_left ↦ rw ((h.answer).0, none_left) (refl, (refl, h.represents))
  ]

  -- One replay moves the oldest frame of the log to the end of the retry queue when it has room,
  -- and otherwise leaves both as they are, where every file can be opened and read.
  pub replay_one-Replayed :
      (q : List DecodedFrame) (d : Drain)
      → ((s : ℕ) → IsReadable (os s))
      → Represents hash d.wal q
      → Replayed q d (replay_one hash os d)
  unfolding replay_one
  replay_one-Replayed q d readable h =
      deliver-Replayed q d (peek_next hash os d.wal) (peek_next-Peeked hash os d.wal q readable h)

  pub replay_one-circuit : (d : Drain) → (replay_one hash os d).1.circuit ≡ d.circuit
  unfolding replay_one
  replay_one-circuit d = unchanged (peek_next hash os d.wal)
    where
      unchanged : (r : Peek × WalInner) → (deliver hash os r d).1.circuit ≡ d.circuit
      unchanged (found f, w) =
          if_elim (λ (r : ReplayOutcome × Drain). r.1.circuit ≡ d.circuit) (has_room d.queue) _ _
            (λ _. refl) (λ _. refl)
      unchanged (nothing, w) = refl
      unchanged (failed, w) = refl
      unchanged (stuck, w) = refl

  -- The retry queue and the log after n frames at most have moved.
  abbrev pub Moved : ℕ → List DecodedFrame → Drain → Drain → Type 0
  Moved n q d d' =
      (d'.queue.items ≡ d.queue.items ++ map (λ (f : DecodedFrame). f.payload) (take n q))
      × Represents hash d'.wal (drop n q)

  drain_step :
      (fuel n : ℕ) (q : List DecodedFrame) (d : Drain)
      → d.queue.is_open ≡ true
      → d.queue.capacity - length d.queue.items ≡ suc n
      → Replayed q d (replay_one hash os d)
      → ((q' : List DecodedFrame) (d' : Drain)
          → Represents hash d'.wal q'
          → d'.queue.is_open ≡ true
          → d'.circuit ≡ d.circuit
          → d'.queue.capacity - length d'.queue.items ≡ n
          → Moved n q' d' (drain_rounds hash os fuel d'))
      → Moved (suc n) q d (
          if is_sent (replay_one hash os d).0
          then drain_rounds hash os fuel (replay_one hash os d).1
          else (replay_one hash os d).1)
  drain_step fuel n [] d opened room r again =
      rw r.0 (ap (λ (k : RetryQueue). k.items) (r.1).0 ∙ sym (append-nil d.queue.items), (r.1).1)
  drain_step fuel n (f ∷ q) d opened room r again =
      let has : has_room d.queue ≡ true =
        rw (opened, lt→ltb (length d.queue.items) d.queue.capacity (omega arith)) refl in
      let moved : ((replay_one hash os d).0 ≡ sent)
          × (((replay_one hash os d).1.queue ≡ send f.payload d.queue)
              × Represents hash (replay_one hash os d).1.wal q) =
        rw has at r in
      let same = (moved.1).0 in
      let rest =
        again q (replay_one hash os d).1 (moved.1).1 (rw same opened) (replay_one-circuit d)
          (rw same (omega (arith, length-append d.queue.items (f.payload ∷ [])))) in
      rw moved.0 (
        rest.0
            ∙ (rw same (
                append_assoc d.queue.items (f.payload ∷ [])
                  (map (λ (k : DecodedFrame). k.payload) (take n q)))),
        rest.1,
      )

  -- While the gateway is up, the drainer fills the room in the retry queue with the oldest frames
  -- of the log, in their order, or empties the log if it holds fewer; one more round than there is
  -- room is enough. Every file can be opened and read, and the queue's receiver is alive.
  pub drain_rounds-Moved :
      (fuel n : ℕ) (q : List DecodedFrame) (d : Drain)
      → ((s : ℕ) → IsReadable (os s))
      → Represents hash d.wal q
      → d.queue.is_open ≡ true
      → is_closed (circuit_state d.circuit) ≡ true
      → d.queue.capacity - length d.queue.items ≡ n
      → n < fuel
      → Moved n q d (drain_rounds hash os fuel d)
  unfolding drain_rounds
  drain_rounds-Moved zero n q d readable h opened up room h_fuel = absurd (omega arith)
  drain_rounds-Moved (suc fuel) zero q d readable h opened up room h_fuel =
      let full : ltb (length d.queue.items) d.queue.capacity ≡ false = ground arith in
      rw full (sym (append-nil d.queue.items), h)
  drain_rounds-Moved (suc fuel) (suc n) q d readable h opened up room h_fuel =
      let left : ltb (length d.queue.items) d.queue.capacity ≡ true = ground arith in
      rw (left, up)
        (drain_step fuel n q d opened room (replay_one-Replayed q d readable h)
          (λ q' d' h' opened' same room'.
            drain_rounds-Moved fuel n q' d' readable h' opened' (rw same up) room' (omega arith)))
