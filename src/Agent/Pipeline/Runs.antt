-- ===== src/Agent/Pipeline/Runs.antt =====
-- Runs of the worker of statix/src/output.rs while every POST is accepted.
use statix.Prelude.{
  ℕ, ◌+◌, ◌<◌, ◌≡◌, refl, ap, sym, ◌∙◌, false, none, some, List, [], ◌∷◌, ◌++◌, append_assoc,
  append-nil,
}
use statix.Wal.Segment.{DecodedFrame}
use statix.Wal.Circuit.{circuit_state, closed, record_post_success}
use statix.Wal.Circuit.Trips.{success_closes}
use statix.Wal.Store.{ActiveSegment}
use statix.Wal.Store.Layout.{Represents}
use statix.Agent.Output.{Answer, status, Worker, post_until_decided}
use statix.Agent.Pipeline.{
  Pipeline, received, posted, Reach, here, next, receive, receive_from, post,
}

module _ (hash : List ℕ → ℕ) (initial max_backoff : ℕ) where
  abbrev pub Run : Pipeline → Pipeline → Type 0
  Run s t = Reach hash initial max_backoff s [] t

  pub Run-trans : {s t u : Pipeline} → Run s t → Run t u → Run s u
  Run-trans r here = r
  Run-trans r (next k step) = next (Run-trans r k) step

  -- The circuit is closed, the worker alive, and a segment active.
  pub record Live (q : List DecodedFrame) (s : Pipeline) : Type 0 where
    pub represents : Represents hash s.store q
    pub up : circuit_state s.worker.circuit ≡ closed
    pub alive : s.queues.retry.closed ≡ false
    pub room : 0 < s.queues.retry.capacity
    pub active : ActiveSegment
    pub is_active : s.store.active ≡ some active

  -- From s a run leads to a state that has delivered these batches, in this order, and has `q` in
  -- the log and nothing in the queue or in the worker's hand.
  pub record Delivers (q : List DecodedFrame) (s : Pipeline) (batches : List (List ℕ))
      : Type 0 where
    pub after : Pipeline
    pub run : Run s after
    pub live : Live q after
    pub hand : after.in_hand ≡ none
    pub queue : after.queues.retry.items ≡ []
    pub in_order : after.delivered ≡ s.delivered ++ batches

  accepted_answer : List Answer
  accepted_answer = status 200 ∷ []

  -- The worker after a body is accepted.
  abbrev accepted : Worker → Worker
  accepted w = record w {
    backoff_secs = initial;
    circuit = record_post_success w.circuit;
    posts = w.posts + 1;
  }

  post-accepted :
      (b : List ℕ) (s : Pipeline)
      → s.in_hand ≡ some b
      → post initial max_backoff accepted_answer s
        ≡ record s { worker = accepted s.worker; in_hand = none; delivered = s.delivered ++ b ∷ [] }
  unfolding post post_until_decided accepted_answer
  post-accepted b s h = rw h refl

  receive_first :
      (b : List ℕ) (rest : List (List ℕ)) (s : Pipeline)
      → s.in_hand ≡ none
      → s.queues.retry.items ≡ b ∷ rest
      → receive s ≡ receive_from (b ∷ rest) s
  unfolding receive
  receive_first b rest s h e = rw (h, e) refl

  -- The body in the worker's hand goes first.
  pub deliver_hand :
      (b : List ℕ) (q : List DecodedFrame) (s : Pipeline)
      → s.in_hand ≡ some b
      → Live q s
      → (t : Pipeline) × (Run s t
          × (Live q t
              × ((t.in_hand ≡ none)
                  × ((t.queues.retry.items ≡ s.queues.retry.items)
                      × (t.delivered ≡ s.delivered ++ b ∷ [])))))
  deliver_hand b q s h l = (
    record s { worker = accepted s.worker; in_hand = none; delivered = s.delivered ++ b ∷ [] },
    (
      next here (rw (← post-accepted b s h) (posted s accepted_answer)),
      (
        record {
          represents = l.represents;
          up = (success_closes s.worker.circuit).0;
          alive = l.alive;
          room = l.room;
          active = l.active;
          is_active = l.is_active;
        },
        (refl, (refl, refl)),
      ),
    ),
  )

  pub flush_queue :
      (items : List (List ℕ)) (q : List DecodedFrame) (s : Pipeline)
      → s.in_hand ≡ none
      → s.queues.retry.items ≡ items
      → Live q s
      → Delivers q s items
  flush_queue [] q s h e l = record {
    after = s;
    run = here;
    live = l;
    hand = h;
    queue = e;
    in_order = sym (append-nil s.delivered);
  }
  flush_queue (b ∷ rest) q s h e l =
      let s1 = receive_from (b ∷ rest) s in
      let l1 : Live q s1 = record {
        represents = l.represents;
        up = l.up;
        alive = l.alive;
        room = l.room;
        active = l.active;
        is_active = l.is_active;
      } in
      let (t, (run, (live, (hand, (items, done_one))))) = deliver_hand b q s1 refl l1 in
      let d = flush_queue rest q t hand items live in
      record {
        after = d.after;
        run =
            Run-trans (next here (rw (← receive_first b rest s h e) (received s)))
              (Run-trans run d.run);
        live = d.live;
        hand = d.hand;
        queue = d.queue;
        in_order =
            d.in_order ∙ (ap (λ t. t ++ rest) done_one ∙ append_assoc s.delivered (b ∷ []) rest);
      }
