-- ===== src/Gateway/Writer/Retries.antt =====
-- The retries of statix-gateway/src/clickhouse_writer.rs, in terms of ClickHouse's answers.
use statix.Prelude.{
  ℕ, zero, suc, ◌+◌, ◌*◌, ◌≤◌, ◌<◌, ◌≡◌, refl, sym, ◌∙◌, ◌⊎◌, inl, inr, min, true, false, List, [],
  ◌∷◌, ◌++◌, ◌==◌, Bool-cases, arith, append_assoc, append-nil,
}
use statix.Gateway.Writer.{
  Insert, inserted, refused, Effects, flush_with_retry, retry_rounds, on_inserted, on_refused,
  max_backoff_ms,
}

-- The attempts from `attempt` on: the one at which ClickHouse takes the batch, or none of them.
abbrev pub Refuses : (ℕ → Insert) → ℕ → ℕ → Type 0
Refuses answers attempt n = (j : ℕ) → attempt ≤ j → j < attempt + n → answers j ≡ refused

abbrev pub delays : ℕ → ℕ → List ℕ
delays backoff zero = []
delays backoff (suc n) = backoff ∷ delays (min (backoff * 2) max_backoff_ms) n

none_refused : (answers : ℕ → Insert) (attempt : ℕ) → Refuses answers attempt 0
none_refused answers attempt j above below = absurd (omega arith)

one_more :
    (answers : ℕ → Insert) (attempt n : ℕ)
    → answers attempt ≡ refused
    → Refuses answers (attempt + 1) n
    → Refuses answers attempt (n + 1)
one_more answers attempt n here later j above below = elim (Bool-cases (j == attempt)) [
  | inl e ↦ let at : j ≡ attempt = ground arith in rw at here
  | inr e ↦ later j (ground arith) (omega arith)
]

Insert-cases : (i : Insert) → (i ≡ inserted) ⊎ (i ≡ refused)
Insert-cases inserted = inl refl
Insert-cases refused = inr refl

module _ {ℓ} {A : Type ℓ} where
  pub record Taken (left attempt backoff : ℕ) (answers : ℕ → Insert) (batch : List A)
      (e e' : Effects A) : Type ℓ where
    pub failures : ℕ
    pub in_time : failures ≤ left
    pub refused_before : Refuses answers attempt failures
    pub taken : answers (attempt + failures) ≡ inserted
    pub stored : e'.stored ≡ e.stored ++ batch
    pub dropped : e'.dropped ≡ e.dropped
    pub healthy : e'.ch_healthy ≡ true
    pub attempts : e'.attempts ≡ e.attempts + (failures + 1)
    pub sleeps : e'.sleeps ≡ e.sleeps ++ delays backoff failures

  pub record GivenUp (left attempt backoff : ℕ) (answers : ℕ → Insert) (batch : List A)
      (e e' : Effects A) : Type ℓ where
    pub refused_all : Refuses answers attempt (left + 1)
    pub stored : e'.stored ≡ e.stored
    pub dropped : e'.dropped ≡ e.dropped ++ batch
    pub unhealthy : e'.ch_healthy ≡ false
    pub attempts : e'.attempts ≡ e.attempts + (left + 1)
    pub sleeps : e'.sleeps ≡ e.sleeps ++ delays backoff left

  stored_at_once :
      (left attempt backoff : ℕ) (answers : ℕ → Insert) (batch : List A) (e : Effects A)
      → answers attempt ≡ inserted
      → Taken left attempt backoff answers batch e (on_inserted batch e)
  stored_at_once left attempt backoff answers batch e takes =
      let at : attempt + 0 ≡ attempt = omega arith in
      record {
        failures = 0;
        in_time = omega arith;
        refused_before = none_refused answers attempt;
        taken = rw at takes;
        stored = refl;
        dropped = refl;
        healthy = refl;
        attempts = omega arith;
        sleeps = sym (append-nil e.sleeps);
      }

  retry_rounds_lem :
      (left attempt backoff : ℕ) (answers : ℕ → Insert) (batch : List A) (e : Effects A)
      → let e' = retry_rounds left attempt backoff answers batch e in
        Taken left attempt backoff answers batch e e'
        ⊎ GivenUp left attempt backoff answers batch e e'
  unfolding retry_rounds
  retry_rounds_lem zero attempt backoff answers batch e = elim (Insert-cases (answers attempt)) [
    | inl takes ↦
        rw (retry_rounds, takes) (inl (stored_at_once zero attempt backoff answers batch e takes))
    | inr refuses ↦
        rw (retry_rounds, refuses)
          (inr (record {
            refused_all = one_more answers attempt 0 refuses (none_refused answers (attempt + 1));
            stored = refl;
            dropped = refl;
            unhealthy = refl;
            attempts = omega arith;
            sleeps = sym (append-nil e.sleeps);
          }))
  ]
  retry_rounds_lem (suc left) attempt backoff answers batch e =
      let e1 : Effects A = record (on_refused e) { sleeps = e.sleeps ++ backoff ∷ [] } in
      let next = min (backoff * 2) max_backoff_ms in
      let e2 = retry_rounds left (attempt + 1) next answers batch e1 in
      elim (Insert-cases (answers attempt)) [
        | inl takes ↦
            rw (retry_rounds, takes)
              (inl (stored_at_once (suc left) attempt backoff answers batch e takes))
        | inr refuses ↦
            rw (retry_rounds, refuses)
              (elim (retry_rounds_lem left (attempt + 1) next answers batch e1) [
                | inl t ↦
                    let at : attempt + (t.failures + 1) ≡ attempt + 1 + t.failures = omega arith in
                    let more : t.failures + 1 ≡ suc t.failures = omega arith in
                    inl (record {
                      failures = t.failures + 1;
                      in_time = omega (arith, t.in_time);
                      refused_before = one_more answers attempt t.failures refuses t.refused_before;
                      taken = rw at t.taken;
                      stored = t.stored;
                      dropped = t.dropped;
                      healthy = t.healthy;
                      attempts = omega (arith, t.attempts);
                      sleeps = rw more (
                          t.sleeps ∙ append_assoc e.sleeps (backoff ∷ []) (delays next t.failures));
                    })
                | inr g ↦
                    let all : suc left + 1 ≡ left + 1 + 1 = omega arith in
                    inr (record {
                      refused_all =
                          rw all (one_more answers attempt (left + 1) refuses g.refused_all);
                      stored = g.stored;
                      dropped = g.dropped;
                      unhealthy = g.unhealthy;
                      attempts = omega (arith, g.attempts);
                      sleeps = g.sleeps ∙ append_assoc e.sleeps (backoff ∷ []) (delays next left);
                    })
              ])
      ]

  -- A batch ends up in exactly one place, by ClickHouse's answers. If the answer to one of the five
  -- attempts, the `failures`-th from 0, is the first that takes it, then it is stored once, nothing
  -- is dropped, the writer is healthy and no later attempt is made. If all five are refused, it is
  -- dropped once, nothing is stored and the writer is not healthy. Between two attempts it sleeps,
  -- 100 ms first and then twice as long each time, the jitter apart.
  pub flush_with_retry_lem :
      (answers : ℕ → Insert) (batch : List A) (e : Effects A)
      → let e' = flush_with_retry answers batch e in
        Taken 4 0 100 answers batch e e' ⊎ GivenUp 4 0 100 answers batch e e'
  unfolding flush_with_retry
  flush_with_retry_lem answers batch e = retry_rounds_lem 4 0 100 answers batch e
