-- ===== src/Gateway/Ingest/AllOrNothing.antt =====
-- What `POST /ingest` of statix-gateway/src/routes/ingest.rs does to the channel, and when the
-- gateway of statix-gateway/src/main.rs is ready.
use statix.Prelude.{
  ℕ, suc, ◌-◌, ◌*◌, ◌/◌, ◌≤◌, ◌<◌, ◌≡◌, ◌≢◌, refl, ap, ◌↔◌, ◌⊎◌, true, false, Option, List, [], ◌∷◌,
  ◌++◌, map, length, ltb, ◌==◌, is_empty, arith, append-nil, u64_mod, length-append, sat_mul64,
}
use native.Mathlib.Nat.{div-lt_iff_lt-mul}
use statix.Prelude.Text.{Text}
use statix.Gateway.Writer.{IngestBatch, MetricRow, from_ingest}
use statix.Gateway.Ingest.{
  ok, AppState, handler, is_authorized, ingest_channel_over_threshold, readiness_check,
}

length-map : {A B : Type 0} (f : A → B) (xs : List A) → length (map f xs) ≡ length xs
length-map f [] = refl
length-map f (x ∷ xs) = ap suc (length-map f xs)

abbrev pub rows_of : IngestBatch → List MetricRow
rows_of batch = map (from_ingest batch) batch.workloads

-- A request is taken whole or not at all: the answer is `200` exactly when all rows of the batch
-- stand at the end of the channel, in order, and with any other answer the state is unchanged.
-- Where the channel was within its capacity, it still is.
pub handler_all_or_nothing :
    (header : Option Text) (batch : IngestBatch) (s : AppState)
    → length s.rows ≤ s.capacity
    → let r = handler header batch s in
      (((r.0 ≡ ok) × (r.1 ≡ record s { rows = s.rows ++ rows_of batch }))
        ⊎ ((r.0 ≢ ok) × (r.1 ≡ s)))
      × (length r.1.rows ≤ s.capacity)
unfolding handler
handler_all_or_nothing header batch s small = ground (
  arith,
  append-nil s.rows,
  length-append s.rows (rows_of batch),
  length-map (from_ingest batch) batch.workloads,
)

-- Nothing is taken from a client without the expected bearer, from a batch of another schema
-- version, while ClickHouse is unhealthy, or when the writer is gone.
pub handler_refuses :
    (header : Option Text) (batch : IngestBatch) (s : AppState)
    → (handler header batch s).0 ≡ ok
    → (is_authorized s.expected_bearer header ≡ true)
      × ((2 ≤ batch.schema_version)
          × ((batch.schema_version ≤ 4)
              × ((s.ch_healthy ≡ true)
                  × ((s.is_closed ≡ false) ⊎ (is_empty batch.workloads ≡ true)))))
unfolding handler
handler_refuses header batch s h = ground arith

-- The share of the channel that is free, without the division.
over_threshold :
    (remaining total : ℕ)
    → remaining ≤ total
    → total * 100 < u64_mod
    → 0 < total
    → ingest_channel_over_threshold remaining total 80 ≡ ltb (remaining * 100) (20 * total)
unfolding ingest_channel_over_threshold
over_threshold remaining total h small some_room =
    let product : sat_mul64 remaining 100 ≡ remaining * 100 = omega arith in
    let positive : (total == 0) ≡ false = ground arith in
    let share : (remaining * 100 / total < 20) ↔ (remaining * 100 < 20 * total) =
      div-lt_iff_lt-mul some_room in
    rw (positive, product) (ground (arith, share))

-- The gateway is ready exactly when the writer is there, ClickHouse is healthy, and at least a
-- fifth of the channel is free; a channel without capacity counts as free. The capacity is small
-- enough for a hundred times it to fit 64 bits.
readiness_iff :
    (s : AppState)
    → s.capacity * 100 < u64_mod
    → (readiness_check s ≡ ok) ↔ (
        (s.is_closed ≡ false)
        × ((s.ch_healthy ≡ true)
            × ((s.capacity ≡ 0) ⊎ (s.capacity * 20 ≤ (s.capacity - length s.rows) * 100))))
unfolding readiness_check
readiness_iff s small =
    ground (arith, over_threshold (s.capacity - length s.rows) s.capacity (omega arith) small)
