-- ===== src/Agent/Pipeline/Delivery.antt =====
-- While the gateway accepts, what statix/src/output.rs and statix/src/wal hold can be delivered.
use statix.Prelude.{
  ℕ, zero, suc, ◌-◌, ◌≤◌, ◌≡◌, ◌≢◌, refl, ap, sym, ◌∙◌, true, not, ◌||◌, ltb, Option, none, some,
  List, [], ◌∷◌, ◌++◌, length, take, drop, arith, append_assoc, length-drop, take-append-drop,
  if_elim,
}
use statix.Wal.Segment.{DecodedFrame}
use statix.Wal.Circuit.{CircuitState, open_state, half_open, circuit_state, closed, is_closed}
use statix.Wal.Store.{
  WalInner, Peek, found, nothing, failed, stuck, Attempt, peek_next, has_backlog,
}
use statix.Wal.Store.Reads.{IsReadable}
use statix.Wal.Store.Backlog.{has_backlog_lem}
use statix.Wal.Writer.Held.{payloads, payloads-append}
use statix.Wal.Drainer.{
  ReplayOutcome, Drain, has_room, deliver, replay_one, drain_rounds, is_sent, sweep, sweep_at,
}
use statix.Wal.Drainer.Sweep.{Swept, sweep-Swept}
use statix.Wal.Drainer.Unchanged.{drain_rounds-circuit}
use statix.Agent.Pipeline.{
  Pipeline, replayed, probed, here, next, drain_of, with_drain, replay_step, sweep_step,
}
use statix.Agent.Pipeline.Accounts.{in_hand_list}
use statix.Agent.Pipeline.Runs.{Run, Run-trans, Live, Delivers, deliver_hand, flush_queue}

drop_split : (n : ℕ) (q kept : List DecodedFrame) → take n q ++ kept ≡ q → kept ≡ drop n q
drop_split zero q kept h = h
drop_split (suc n) [] kept h = h
drop_split (suc n) (f ∷ q) kept h = drop_split n q kept (cc)

module _ (hash : List ℕ → ℕ) (initial max_backoff : ℕ) where
  -- A replay as the drainer sees it.
  drain-with_drain :
      (s : Pipeline) (r : Peek × WalInner) (os : ℕ → Attempt)
      → drain_of (with_drain (deliver hash os r (drain_of s)).1 s)
        ≡ (deliver hash os r (drain_of s)).1
  drain-with_drain s (found f, w) os =
      if_elim (λ (x : ReplayOutcome × Drain). drain_of (with_drain x.1 s) ≡ x.1)
        (has_room (drain_of s).queue) _ _ (λ _. refl) (λ _. refl)
  drain-with_drain s (nothing, w) os = refl
  drain-with_drain s (failed, w) os = refl
  drain-with_drain s (stuck, w) os = refl

  drain-replay_step :
      (os : ℕ → Attempt) (s : Pipeline)
      → drain_of (replay_step hash os s) ≡ (replay_one hash os (drain_of s)).1
  unfolding replay_step replay_one
  drain-replay_step os s = drain-with_drain s (peek_next hash os s.store) os

  -- Each round of a sweep is a step.
  drain_rounds-Run :
      (os : ℕ → Attempt) (fuel : ℕ) (s : Pipeline)
      → ((i : ℕ) → IsReadable (os i))
      → Run hash initial max_backoff s (with_drain (drain_rounds hash os fuel (drain_of s)) s)
  unfolding drain_rounds replay_step
  drain_rounds-Run os zero s readable = here
  drain_rounds-Run os (suc fuel) s readable =
      let d = drain_of s in
      let one = next here (replayed s os readable) in
      let later = drain_rounds-Run os fuel (replay_step hash os s) readable in
      let again : Run hash initial max_backoff s
          (with_drain (drain_rounds hash os fuel (replay_one hash os d).1) s) =
        Run-trans hash initial max_backoff one (rw (drain-replay_step os s) at later) in
      if_elim (λ (d' : Drain). Run hash initial max_backoff s (with_drain d' s))
        (not (ltb (length d.queue.items) d.queue.capacity)
          || not (is_closed (circuit_state d.circuit)))
        d _ (λ _. here)
        (λ _.
          if_elim (λ (d' : Drain). Run hash initial max_backoff s (with_drain d' s))
            (is_sent (replay_one hash os d).0) _ _ (λ _. again) (λ _. one))

  -- A sweep is a run: its replays one after the other, or the probe of an open circuit.
  sweep-Run :
      (os : ℕ → Attempt) (s : Pipeline)
      → ((i : ℕ) → IsReadable (os i))
      → Run hash initial max_backoff s (sweep_step hash os s)
  unfolding sweep_step sweep replay_step
  sweep-Run os s readable = by_state (circuit_state s.worker.circuit)
    where
      by_state :
          (c : CircuitState)
          → Run hash initial max_backoff s (with_drain (sweep_at hash os c (drain_of s)) s)
      by_state open_state = next here (probed s)
      by_state half_open =
          if_elim (λ (d' : Drain). Run hash initial max_backoff s (with_drain d' s))
            (has_backlog s.store) _ _ (λ _. next here (replayed s os readable)) (λ _. here)
      by_state closed =
          if_elim (λ (d' : Drain). Run hash initial max_backoff s (with_drain d' s))
            (has_backlog s.store) _ _
            (λ _. drain_rounds-Run os (suc s.queues.retry.capacity) s readable) (λ _. here)

  sweep-circuit :
      (os : ℕ → Attempt) (d : Drain)
      → circuit_state d.circuit ≡ closed
      → (sweep hash os d).circuit ≡ d.circuit
  unfolding sweep
  sweep-circuit os d h = rw h (
      if_elim (λ (d' : Drain). d'.circuit ≡ d.circuit) (has_backlog d.wal) _ d
        (λ _. drain_rounds-circuit hash os (suc d.queue.capacity) d) (λ _. refl))

  moved_by :
      (os : ℕ → Attempt) (q : List DecodedFrame) (s : Pipeline)
      → s.in_hand ≡ none
      → s.queues.retry.items ≡ []
      → Live hash initial max_backoff q s
      → Swept hash q closed (drain_of s) (sweep hash os (drain_of s))
      → has_backlog s.store ≡ true
      → let t = sweep_step hash os s in
        Live hash initial max_backoff (drop s.queues.retry.capacity q) t
        × ((t.in_hand ≡ none)
            × ((t.queues.retry.items ≡ payloads (take s.queues.retry.capacity q))
                × (t.delivered ≡ s.delivered)))
  unfolding sweep_step
  moved_by os q s h e l w backlog =
      let k = s.queues.retry.capacity in
      let all_free : k - length s.queues.retry.items ≡ k =
        omega (arith, ap (length {A = List ℕ}) e) in
      let moved : w.moved ≡ take k q = w.amount backlog ∙ ap (λ (n : ℕ). take n q) all_free in
      let kept : w.kept ≡ drop k q =
        drop_split k q w.kept (ap (λ fs. fs ++ w.kept) (sym moved) ∙ w.split) in
      (
        record {
          represents = rw (← kept) w.represents;
          up = rw (sweep-circuit os (drain_of s) l.up) l.up;
          alive = l.alive;
          room = l.room;
          active = l.active;
          is_active = (w.tail).same_active ∙ l.is_active;
        },
        (h, (w.queued ∙ (ap (λ items. items ++ payloads w.moved) e ∙ ap payloads moved), refl)),
      )

  -- With nothing queued a sweep moves as many frames as the queue can take.
  sweep_moves :
      (os : ℕ → Attempt) (q : List DecodedFrame) (s : Pipeline)
      → ((i : ℕ) → IsReadable (os i))
      → s.in_hand ≡ none
      → s.queues.retry.items ≡ []
      → q ≢ []
      → Live hash initial max_backoff q s
      → let t = sweep_step hash os s in
        Live hash initial max_backoff (drop s.queues.retry.capacity q) t
        × ((t.in_hand ≡ none)
            × ((t.queues.retry.items ≡ payloads (take s.queues.retry.capacity q))
                × (t.delivered ≡ s.delivered)))
  sweep_moves os q s readable h e left l =
      moved_by os q s h e l
        (rw (l.up) at (sweep-Swept hash os q (drain_of s) readable (ap not l.alive) l.represents))
        ((has_backlog_lem hash s.store q l.represents left).0 l.active l.is_active)

  -- Rounds of a sweep and of posts, on the number of frames in the log.
  drain_log :
      (os : ℕ → Attempt) (n : ℕ) (q : List DecodedFrame) (s : Pipeline)
      → ((i : ℕ) → IsReadable (os i))
      → length q ≤ n
      → s.in_hand ≡ none
      → s.queues.retry.items ≡ []
      → Live hash initial max_backoff q s
      → Delivers hash initial max_backoff [] s (payloads q)
  drain_log os n [] s readable short h e l = flush_queue hash initial max_backoff [] [] s h e l
  drain_log os zero (f ∷ q) s readable short h e l = absurd (omega arith)
  drain_log os (suc n) (f ∷ q) s readable short h e l =
      let t = sweep_step hash os s in
      let k = s.queues.retry.capacity in
      let (live, (hand, (items, same))) =
        sweep_moves os (f ∷ q) s readable h e (λ none_left. cc) l in
      let d =
        flush_queue hash initial max_backoff (payloads (take k (f ∷ q))) (drop k (f ∷ q)) t hand
          items live in
      let rest =
        drain_log os n (drop k (f ∷ q)) d.after readable
          (omega (arith, length-drop k (f ∷ q), l.room)) d.hand d.queue d.live in
      record {
        after = rest.after;
        run =
            Run-trans hash initial max_backoff (sweep-Run os s readable)
              (Run-trans hash initial max_backoff d.run rest.run);
        live = rest.live;
        hand = rest.hand;
        queue = rest.queue;
        in_order =
            rest.in_order
            ∙ (ap (λ t. t ++ payloads (drop k (f ∷ q)))
                  (d.in_order ∙ ap (λ t. t ++ payloads (take k (f ∷ q))) same)
                ∙ (append_assoc s.delivered (payloads (take k (f ∷ q))) (payloads (drop k (f ∷ q)))
                    ∙ ap (λ t. s.delivered ++ t)
                        (sym (payloads-append (take k (f ∷ q)) (drop k (f ∷ q)))
                          ∙ ap payloads (take-append-drop k (f ∷ q)))));
      }

  -- Let the files be readable, a segment be active, the circuit be closed, the worker's receiver be
  -- there and the retry queue have a capacity of one or more. Then, with the gateway accepting each
  -- POST, there is a run of the worker and the drainer that delivers all that is held: first the
  -- body in the worker's hand, then the retry queue, then the whole log, oldest first, each once.
  -- It leaves the log, the queue and the hand empty. The channel to the writer is not part of
  -- this, and neither is a circuit that an outage has opened.
  pub can_deliver_all :
      (os : ℕ → Attempt) (q : List DecodedFrame) (s : Pipeline)
      → ((i : ℕ) → IsReadable (os i))
      → Live hash initial max_backoff q s
      → Delivers hash initial max_backoff [] s
          (in_hand_list s.in_hand ++ (s.queues.retry.items ++ payloads q))
  can_deliver_all os q s readable l = by_hand s.in_hand refl
    where
      idle :
          (t : Pipeline)
          → t.in_hand ≡ none
          → Live hash initial max_backoff q t
          → Delivers hash initial max_backoff [] t (t.queues.retry.items ++ payloads q)
      idle t h live =
          let d = flush_queue hash initial max_backoff t.queues.retry.items q t h refl live in
          let rest =
            drain_log os (length q) q d.after readable (omega arith) d.hand d.queue d.live in
          record {
            after = rest.after;
            run = Run-trans hash initial max_backoff d.run rest.run;
            live = rest.live;
            hand = rest.hand;
            queue = rest.queue;
            in_order =
                rest.in_order
                ∙ (ap (λ u. u ++ payloads q) d.in_order
                    ∙ append_assoc t.delivered t.queues.retry.items (payloads q));
          }

      by_hand :
          (o : Option (List ℕ))
          → s.in_hand ≡ o
          → Delivers hash initial max_backoff [] s
              (in_hand_list o ++ (s.queues.retry.items ++ payloads q))
      by_hand none h = idle s h l
      by_hand (some b) h =
          let (t, (run, (live, (hand, (items, done_one))))) =
            deliver_hand hash initial max_backoff b q s h l in
          let d : Delivers hash initial max_backoff [] t (s.queues.retry.items ++ payloads q) =
            rw items at (idle t hand live) in
          record {
            after = d.after;
            run = Run-trans hash initial max_backoff run d.run;
            live = d.live;
            hand = d.hand;
            queue = d.queue;
            in_order =
                d.in_order
                ∙ (ap (λ u. u ++ (s.queues.retry.items ++ payloads q)) done_one
                    ∙ append_assoc s.delivered (b ∷ []) (s.queues.retry.items ++ payloads q));
          }
