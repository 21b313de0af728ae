-- ===== src/Agent/Pipeline/Conserved.antt =====
-- No batch of statix/src/output.rs and statix/src/wal is lost unreported, and none is doubled.
use statix.Prelude.{
  ℕ, ◌+◌, ◌≡◌, inl, refl, Bool, Option, none, some, List, [], ◌∷◌, ◌++◌, arith, count, count-append,
}
use statix.Wal.Segment.{DecodedFrame}
use statix.Wal.Store.Layout.{Represents}
use statix.Wal.Store.Reported.{dropped}
use statix.Wal.Writer.Held.{payloads}
use statix.Agent.Output.{WalHandle}
use statix.Agent.Output.NoLoss.{count_wal}
use statix.Agent.Pipeline.{
  Pipeline, Step, received, posted, written, replayed, probed, Reach, here, enqueued, next,
  append_items, enqueue, receive, post, probe_step,
}
use statix.Agent.Pipeline.Accounts.{
  in_hand_list, held, enqueue-held, receive-held, post-held, LogSame, receive-LogSame, post-LogSame,
}
use statix.Agent.Pipeline.Losses.{Conserved, write-Conserved, replay-Conserved}

module _ (hash : List ℕ → ℕ) where
  -- The worker moves what it holds, and the log stays.
  moved_within :
      (base : ℕ) (all : List (List ℕ)) (s t : Pipeline)
      → LogSame s t
      → ((p : List ℕ → Bool) → held p t ≡ held p s)
      → Conserved hash base all s
      → Conserved hash base all t
  moved_within base all s t (store, errors) same c = record {
    kept = c.kept;
    lost = c.lost;
    represents = rw store c.represents;
    balanced = λ p. omega (arith, same p, c.balanced p);
    grown = rw store c.grown;
    reported = rw (store, errors) c.reported;
  }

  enqueue-Conserved :
      (base : ℕ) (all : List (List ℕ)) (s : Pipeline) (locked : Bool) (json : List ℕ)
      → Conserved hash base all s
      → Conserved hash base (json ∷ all) (enqueue locked json s)
  unfolding enqueue
  enqueue-Conserved base all s locked json c = record {
    kept = c.kept;
    lost = c.lost;
    represents = c.represents;
    balanced = λ p.
        omega (arith, enqueue-held p locked json s, c.balanced p, count-append p (json ∷ []) all);
    grown = c.grown;
    reported = c.reported;
  }

  wal-count :
      (p : List ℕ → Bool) (w : Option (WalHandle (List ℕ)))
      → count p (append_items w) ≡ count_wal p w
  wal-count p none = refl
  wal-count p (some w) = refl

  Step-Conserved :
      {initial max_backoff : ℕ} {s t : Pipeline} (base : ℕ) (all : List (List ℕ))
      → Step hash initial max_backoff s t
      → Conserved hash base all s
      → Conserved hash base all t
  Step-Conserved base all (received s) c =
      moved_within base all s (receive s) (receive-LogSame s) (λ p. receive-held p s) c
  Step-Conserved {initial} {max_backoff} base all (posted s answers) c =
      moved_within base all s (post initial max_backoff answers s)
        (post-LogSame initial max_backoff answers s)
        (λ p. post-held p initial max_backoff answers s) c
  Step-Conserved base all (written s first queued rest h e) c =
      write-Conserved hash base all s first queued rest h e c
  Step-Conserved base all (replayed s os readable) c =
      replay-Conserved hash base all s os readable c
  Step-Conserved base all (probed s) c =
      moved_within base all s (probe_step s) (refl, refl) (λ p. refl) c

  -- The batches that a state holds, whose log is the queue `q`.
  abbrev pub everything : List DecodedFrame → Pipeline → List (List ℕ)
  everything q s =
      s.queues.retry.items
      ++ (append_items s.queues.wal
          ++ (s.queues.dropped
              ++ (in_hand_list s.in_hand ++ (s.delivered ++ (s.discarded ++ payloads q)))))

  everything-count :
      (p : List ℕ → Bool) (q : List DecodedFrame) (s : Pipeline)
      → held p s + count p (payloads q) ≡ count p (everything q s)
  everything-count p q s = omega (
    arith,
    wal-count p s.queues.wal,
    count-append p s.queues.retry.items (
        append_items s.queues.wal
        ++ (s.queues.dropped
            ++ (in_hand_list s.in_hand ++ (s.delivered ++ (s.discarded ++ payloads q))))),
    count-append p (append_items s.queues.wal) (
        s.queues.dropped
        ++ (in_hand_list s.in_hand ++ (s.delivered ++ (s.discarded ++ payloads q)))),
    count-append p s.queues.dropped
        (in_hand_list s.in_hand ++ (s.delivered ++ (s.discarded ++ payloads q))),
    count-append p (in_hand_list s.in_hand) (s.delivered ++ (s.discarded ++ payloads q)),
    count-append p s.delivered (s.discarded ++ payloads q),
    count-append p s.discarded (payloads q),
  )

  -- From a state whose files and fields hold a queue as the log writes it, and however the worker,
  -- the writer thread and the replays of the drainer interleave, each batch
  -- that was there or was submitted is in exactly one place: the retry queue, the worker's hand,
  -- the channel to the writer, the log, or among those delivered, discarded on a decisive answer,
  -- or reported as dropped. The exception is the batches that the log's cap or a failed write
  -- took, and there are none while the counters of dropped bytes and of write errors have not
  -- moved. The conditions: the files can be read; each write succeeds, with a payload of 1 byte to
  -- 16 MiB whose checksum fits in 32 bits, or its rotation or one of its writes fails and the
  -- `set_len` and the seek of the repair succeed; and no write falls between the peek of a replay
  -- and its commit.
  pub Reach-Conserved :
      {initial max_backoff : ℕ} {s t : Pipeline} {submitted : List (List ℕ)} (q : List DecodedFrame)
      → Represents hash s.store q
      → Reach hash initial max_backoff s submitted t
      → Conserved hash (dropped s.store) (submitted ++ everything q s) t
  Reach-Conserved {s = s} q h here = record {
    kept = q;
    lost = [];
    represents = h;
    balanced = λ p. omega (arith, everything-count p q s);
    grown = omega arith;
    reported = inl refl;
  }
  Reach-Conserved {s = s} {submitted = json ∷ submitted} q h (enqueued {t = t} r locked json') =
      let c = Reach-Conserved q h r in
      enqueue-Conserved (dropped s.store) (submitted ++ everything q s) t locked json' c
  Reach-Conserved {s = s} {submitted = submitted} q h (next r step) =
      Step-Conserved (dropped s.store) (submitted ++ everything q s) step (Reach-Conserved q h r)
