-- ===== src/Agent/Pipeline/Accounts.antt =====
-- Where the batches of statix/src/output.rs and statix/src/wal are, counted, and what each step on
-- the retry queue does to the count.
use statix.Prelude.{
  ℕ, ◌+◌, ◌≡◌, refl, ap, Bool, Option, none, some, List, [], ◌∷◌, ◌++◌, arith, count, count-append,
}
use statix.Agent.Output.{
  Answer, Worker, Fate, delivered, discarded, undecided, post_until_decided, WalHandle,
}
use statix.Agent.Output.NoLoss.{count_all, count_wal, enqueue_batch_json-count}
use statix.Agent.Pipeline.{
  Pipeline, enqueue, receive, receive_from, settle, post_body, post, with_append_items,
  append_items,
}

abbrev pub in_hand_list : Option (List ℕ) → List (List ℕ)
in_hand_list none = []
in_hand_list (some b) = b ∷ []

module _ (p : List ℕ → Bool) where
  -- The batches of a kind outside the log.
  abbrev pub held : Pipeline → ℕ
  held s =
      count_all p s.queues
      + (count p (in_hand_list s.in_hand) + (count p s.delivered + count p s.discarded))

  pub enqueue-held :
      (locked : Bool) (json : List ℕ) (s : Pipeline)
      → held (enqueue locked json s) ≡ held s + count p (json ∷ [])
  unfolding enqueue
  enqueue-held locked json s = omega (arith, enqueue_batch_json-count p locked json s.queues)

  receive_from-held :
      (items : List (List ℕ)) (s : Pipeline)
      → s.in_hand ≡ none
      → s.queues.retry.items ≡ items
      → held (receive_from items s) ≡ held s
  receive_from-held [] s h e = refl
  receive_from-held (b ∷ rest) s h e = ground (arith, ap (count p) e)

  pub receive-held : (s : Pipeline) → held (receive s) ≡ held s
  unfolding receive
  receive-held s = by_hand s.in_hand refl
    where
      by_hand :
          (o : Option (List ℕ))
          → s.in_hand ≡ o
          → held (elim o [ none ↦ receive_from s.queues.retry.items s | some b ↦ s ]) ≡ held s
      by_hand none e = receive_from-held s.queues.retry.items s e refl
      by_hand (some b) e = refl

  settle-held :
      (b : List ℕ) (r : Fate × Worker) (s : Pipeline)
      → s.in_hand ≡ some b
      → held (settle b r s) ≡ held s
  settle-held b (delivered, w) s h = rw h (omega (arith, count-append p s.delivered (b ∷ [])))
  settle-held b (discarded, w) s h = rw h (omega (arith, count-append p s.discarded (b ∷ [])))
  settle-held b (undecided, w) s h = refl

  post_body-held :
      (initial max_backoff : ℕ) (answers : List Answer) (o : Option (List ℕ)) (s : Pipeline)
      → s.in_hand ≡ o
      → held (post_body initial max_backoff answers o s) ≡ held s
  post_body-held initial max_backoff answers none s h = refl
  post_body-held initial max_backoff answers (some b) s h =
      settle-held b (post_until_decided initial max_backoff answers s.worker) s h

  pub post-held :
      (initial max_backoff : ℕ) (answers : List Answer) (s : Pipeline)
      → held (post initial max_backoff answers s) ≡ held s
  unfolding post
  post-held initial max_backoff answers s =
      post_body-held initial max_backoff answers s.in_hand s refl

  -- What the writer thread takes from its channel.
  pub taken-count :
      (taken rest : List (List ℕ)) (w : Option (WalHandle (List ℕ)))
      → append_items w ≡ taken ++ rest
      → count_wal p (with_append_items rest w) + count p taken ≡ count_wal p w
  taken-count taken rest none h = omega (arith, ap (count p) h, count-append p taken rest)
  taken-count taken rest (some w) h = rw h (omega (arith, count-append p taken rest))

-- The worker does not touch the log.
abbrev pub LogSame : Pipeline → Pipeline → Type 0
LogSame s t = (t.store ≡ s.store) × (t.write_errors ≡ s.write_errors)

receive_from-LogSame : (items : List (List ℕ)) (s : Pipeline) → LogSame s (receive_from items s)
receive_from-LogSame [] s = (refl, refl)
receive_from-LogSame (b ∷ rest) s = (refl, refl)

pub receive-LogSame : (s : Pipeline) → LogSame s (receive s)
unfolding receive
receive-LogSame s = by_hand s.in_hand
  where
    by_hand :
        (o : Option (List ℕ))
        → LogSame s (elim o [ none ↦ receive_from s.queues.retry.items s | some b ↦ s ])
    by_hand none = receive_from-LogSame s.queues.retry.items s
    by_hand (some b) = (refl, refl)

settle-LogSame : (b : List ℕ) (r : Fate × Worker) (s : Pipeline) → LogSame s (settle b r s)
settle-LogSame b (delivered, w) s = (refl, refl)
settle-LogSame b (discarded, w) s = (refl, refl)
settle-LogSame b (undecided, w) s = (refl, refl)

post_body-LogSame :
    (initial max_backoff : ℕ) (answers : List Answer) (o : Option (List ℕ)) (s : Pipeline)
    → LogSame s (post_body initial max_backoff answers o s)
post_body-LogSame initial max_backoff answers none s = (refl, refl)
post_body-LogSame initial max_backoff answers (some b) s =
    settle-LogSame b (post_until_decided initial max_backoff answers s.worker) s

pub post-LogSame :
    (initial max_backoff : ℕ) (answers : List Answer) (s : Pipeline)
    → LogSame s (post initial max_backoff answers s)
unfolding post
post-LogSame initial max_backoff answers s =
    post_body-LogSame initial max_backoff answers s.in_hand s
