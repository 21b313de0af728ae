-- ===== src/Agent/Output/Backoff.antt =====
-- The retries of the worker in statix/src/output.rs.
use statix.Prelude.{ℕ, zero, suc, ◌*◌, ◌≡◌, refl, min, true, List, [], ◌∷◌, if◌then◌else◌}
use statix.Wal.Circuit.{Circuit, closed, circuit_state, record_post_failure}
use statix.Wal.Circuit.Trips.{success_closes}
use statix.Agent.Output.{
  Answer, PostOutcome, success, retryable, non_retryable, post_ingest, Worker, post_round,
  post_until_decided, is_decided,
}

abbrev pub IsRetryable : Answer → Type 0
IsRetryable a = post_ingest a ≡ retryable

-- The base of the delay after n failures.
abbrev pub backoff : ℕ → ℕ → ℕ → ℕ
backoff max_backoff secs zero = secs
backoff max_backoff secs (suc n) = backoff max_backoff (min (secs * 2) max_backoff) n

abbrev pub fail_times : ℕ → Circuit → Circuit
fail_times zero c = c
fail_times (suc n) c = fail_times n (record_post_failure c)

-- Once an answer is decisive, whatever came before it, the circuit is closed and the delay is the
-- initial one again.
post_until_decided-resets :
    (initial max_backoff : ℕ) (answers : List Answer) (w : Worker)
    → let r = post_until_decided initial max_backoff answers w in
      is_decided r.0 ≡ true → (circuit_state r.1.circuit ≡ closed) × (r.1.backoff_secs ≡ initial)
unfolding post_until_decided post_round
post_until_decided-resets initial max_backoff [] w h = absurd cc
post_until_decided-resets initial max_backoff (a ∷ answers) w h =
    by_outcome (post_ingest a) (λ w'. post_until_decided-resets initial max_backoff answers w') h
  where
    by_outcome :
        (o : PostOutcome)
        → ((w' : Worker)
            → is_decided (post_until_decided initial max_backoff answers w').0 ≡ true
            → (circuit_state (post_until_decided initial max_backoff answers w').1.circuit ≡ closed)
              × ((post_until_decided initial max_backoff answers w').1.backoff_secs ≡ initial))
        → let one = post_round initial max_backoff o w in
          let again = post_until_decided initial max_backoff answers one.1 in
          let r = if is_decided one.0 then one else again in
          is_decided r.0 ≡ true
          → (circuit_state r.1.circuit ≡ closed) × (r.1.backoff_secs ≡ initial)
    by_outcome success ih h = ((success_closes w.circuit).0, refl)
    by_outcome retryable ih h = ih _ h
    by_outcome (non_retryable code) ih h = ((success_closes w.circuit).0, refl)
