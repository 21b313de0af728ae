-- ===== src/Agent/Output/NoLoss.antt =====
-- Where a batch goes when statix/src/output.rs enqueues it.
use statix.Prelude.{
  ℕ, ◌+◌, ◌≡◌, refl, ap, Bool, true, false, Option, none, some, List, [], ◌∷◌, ◌++◌, if◌then◌else◌,
  arith, count, count-append,
}
use statix.Agent.Output.{
  Channel, try_send, WalHandle, try_append, is_ok, Queues, drop_oldest, last_resort, spill,
  enqueue_batch_json,
}

module _ {ℓ} {A : Type ℓ} (p : A → Bool) where
  abbrev pub count_wal : Option (WalHandle A) → ℕ
  count_wal none = 0
  count_wal (some w) = count p w.append_tx.items

  -- The batches of a kind, wherever they are.
  abbrev pub count_all : Queues A → ℕ
  count_all q = count p q.retry.items + (count_wal q.wal + count p q.dropped)

  try_send-count :
      (x : A) (c : Channel A)
      → count p (try_send x c).1.items
        ≡ count p c.items + (if is_ok (try_send x c).0 then count p (x ∷ []) else 0)
  unfolding try_send
  try_send-count x c = ground (arith, count-append p c.items (x ∷ []))

  drop_oldest-count :
      (json : A) (items : List A) (q : Queues A)
      → items ≡ q.retry.items
      → count_all (drop_oldest json items q) ≡ count_all q + count p (json ∷ [])
  drop_oldest-count json [] q h =
      ground (arith, try_send-count json q.retry, count-append p q.dropped (json ∷ []))
  drop_oldest-count json (oldest ∷ rest) q h = ground (
    arith,
    try_send-count json (record q.retry { items = rest }),
    count-append p q.dropped (oldest ∷ []),
    count-append p (q.dropped ++ oldest ∷ []) (json ∷ []),
    ap (count p) h,
  )

  last_resort-count :
      (locked : Bool) (json : A) (q : Queues A)
      → count_all (last_resort locked json q) ≡ count_all q + count p (json ∷ [])
  last_resort-count true json q = ground (arith, count-append p q.dropped (json ∷ []))
  last_resort-count false json q = drop_oldest-count json q.retry.items q refl

  spill-count :
      (locked : Bool) (json : A) (wal : Option (WalHandle A)) (q : Queues A)
      → wal ≡ q.wal
      → count_all (spill locked json wal q) ≡ count_all q + count p (json ∷ [])
  unfolding try_append
  spill-count locked json none q h = last_resort-count locked json q
  spill-count locked json (some w) q h =
      ground
        (arith, last_resort-count locked json q, try_send-count json w.append_tx, ap count_wal h)

  -- Enqueueing loses no batch silently and doubles none: of each kind of batch, the retry queue,
  -- the WAL's channel and the batches reported as dropped together hold what they held before,
  -- and the new batch once more.
  pub enqueue_batch_json-count :
      (locked : Bool) (json : A) (q : Queues A)
      → count_all (enqueue_batch_json locked json q) ≡ count_all q + count p (json ∷ [])
  unfolding enqueue_batch_json try_send
  enqueue_batch_json-count locked json q = ground (
    arith,
    spill-count locked json q.wal q refl,
    count-append p q.retry.items (json ∷ []),
    count-append p q.dropped (json ∷ []),
  )
