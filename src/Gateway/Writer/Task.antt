-- ===== src/Gateway/Writer/Task.antt =====
-- The task of the writer, `spawn_writer` of statix-gateway/src/clickhouse_writer.rs.
use statix.Prelude.{
  ℕ, zero, suc, ◌+◌, ◌≤◌, ◌<◌, ◌≡◌, ap, sym, ◌∙◌, Bool, List, [], ◌∷◌, length, count, count-append,
  arith, length-append,
}
use statix.Gateway.Writer.{
  Wake, Insert, Effects, fill_batch, fill_rounds, flush_with_retry, writer_task,
}
use statix.Gateway.Writer.Batches.{fill_rounds-IsCut}
use statix.Gateway.Writer.Drain.{settled, flush-settled, drain_rounds-settled}

module _ {ℓ} {A : Type ℓ} (p : A → Bool) where
  -- If every sender goes in the end, so that the channel gives its rows and then closes, the
  -- writer's task ends, and every row has been settled exactly once: it is stored, or given up
  -- after the retries. A round for each row and one more are enough, for any batch size from 1, and
  -- whatever ends the filling of a batch. That the senders go, or that the gateway waits for the
  -- task, is not part of this.
  pub writer_task-settled :
      (fuel batch_max : ℕ) (wakes : ℕ → List Wake) (answers : ℕ → ℕ → Insert) (rows : List A)
      (e : Effects A)
      → 1 ≤ batch_max
      → length rows < fuel
      → settled p (writer_task fuel batch_max wakes answers rows e) ≡ settled p e + count p rows
  unfolding writer_task fill_batch
  writer_task-settled zero batch_max wakes answers rows e some_room enough = absurd (omega arith)
  writer_task-settled (suc fuel) batch_max wakes answers [] e some_room enough =
      drain_rounds-settled p 1 batch_max answers [] [] e some_room (omega arith)
  writer_task-settled (suc fuel) batch_max wakes answers (first ∷ rows) e some_room enough =
      let n = length (first ∷ rows) in
      let b = (fill_rounds batch_max (wakes n) (first ∷ []) rows).0 in
      let r = (fill_rounds batch_max (wakes n) (first ∷ []) rows).1 in
      let cut = fill_rounds-IsCut batch_max (wakes n) (first ∷ []) rows some_room in
      let sizes : length b + length r ≡ length (first ∷ rows) =
        sym (length-append b r) ∙ ap length cut.whole in
      let kinds : count p b + count p r ≡ count p (first ∷ rows) =
        sym (count-append p b r) ∙ ap (count p) cut.whole in
      omega (
        arith,
        writer_task-settled fuel batch_max wakes answers r (flush_with_retry (answers n) b e)
            some_room (omega (arith, sizes, cut.grows)),
        flush-settled p (answers n) b e,
        kinds,
      )
