-- ===== src/Gateway/Writer/Drain.antt =====
-- The last drain of statix-gateway/src/clickhouse_writer.rs, when the gateway shuts down.
use statix.Prelude.{
  ℕ, zero, suc, ◌+◌, ◌-◌, ◌*◌, ◌≤◌, ◌<◌, ◌≡◌, ◌≢◌, refl, ap, sym, ◌∙◌, inl, inr, Bool, true, false,
  List, [], ◌∷◌, ◌++◌, length, take, drop, count, count-append, leb, ◌==◌, if_elim, is_empty, arith,
  length-append, length-take, length-drop, take-append-drop,
}
use statix.Gateway.Writer.{Insert, Effects, flush_with_retry, drain_rounds}
use statix.Gateway.Writer.Retries.{flush_with_retry_lem}

take_empty {ℓ} :
    {A : Type ℓ} (n : ℕ) (xs : List A) → is_empty (take n xs) ≡ true → n ≢ 0 → length xs ≡ 0
take_empty zero xs h k = absurd (k refl)
take_empty (suc n) [] h k = refl
take_empty (suc n) (x ∷ xs) h k = absurd cc

some_taken {ℓ} : {A : Type ℓ} (xs : List A) → is_empty xs ≡ false → 1 ≤ length xs
some_taken [] h = absurd cc
some_taken (x ∷ xs) h = omega arith

none_counted {ℓ} : {A : Type ℓ} (p : A → Bool) (xs : List A) → length xs ≡ 0 → count p xs ≡ 0
none_counted p [] h = refl
none_counted p (x ∷ xs) h = absurd (omega arith)

no_length {ℓ} : {A : Type ℓ} (xs : List A) → is_empty xs ≡ true → length xs ≡ 0
no_length [] h = refl
no_length (x ∷ xs) h = absurd cc

module _ {ℓ} {A : Type ℓ} (p : A → Bool) where
  -- The rows of a kind that are stored or given up.
  abbrev pub settled : Effects A → ℕ
  settled e = count p e.stored + count p e.dropped

  pub flush-settled :
      (answers : ℕ → Insert) (batch : List A) (e : Effects A)
      → settled (flush_with_retry answers batch e) ≡ settled e + count p batch
  flush-settled answers batch e = elim (flush_with_retry_lem answers batch e) [
    | inl h ↦ rw (h.stored, h.dropped) (omega (arith, count-append p e.stored batch))
    | inr h ↦ rw (h.stored, h.dropped) (omega (arith, count-append p e.dropped batch))
  ]

  cut_count : (n : ℕ) (rows : List A) → count p (take n rows) + count p (drop n rows) ≡ count p rows
  cut_count n rows =
      sym (count-append p (take n rows) (drop n rows)) ∙ ap (count p) (take-append-drop n rows)

  -- The drain settles whatever rows it finds in the batch or in the closed channel. Twice as many
  -- rounds as there are rows in the channel, and one for each row of the batch, are enough.
  pub drain_rounds-settled :
      (fuel batch_max : ℕ) (answers : ℕ → ℕ → Insert) (batch rows : List A) (e : Effects A)
      → 1 ≤ batch_max
      → 2 * length rows + length batch < fuel
      → settled (drain_rounds fuel batch_max answers batch rows e)
        ≡ settled e + (count p batch + count p rows)
  unfolding drain_rounds
  drain_rounds-settled zero batch_max answers batch rows e h h_fuel = absurd (omega arith)
  drain_rounds-settled (suc fuel) batch_max answers batch rows e h h_fuel =
      let room = batch_max - length batch in
      let got = take room rows in
      let rest = drop room rows in
      let goal = λ (r : Effects A). settled r ≡ settled e + (count p batch + count p rows) in
      let flushed = flush_with_retry (answers (length rows)) batch e in
      let flushed' = flush_with_retry (answers (length rows)) (batch ++ got) e in
      let cut = cut_count room rows in
      let sizes = length-drop room rows in
      let joined = count-append p batch got in
      if_elim goal (room == 0) _ _
        (λ z. omega (
          arith,
          drain_rounds-settled fuel batch_max answers [] rows flushed h (ground arith),
          flush-settled (answers (length rows)) batch e,
        ))
        (λ nz.
          if_elim goal (is_empty got) _ _
            (λ emp.
              let gone = take_empty room rows emp (ground arith) in
              let zero_rows = none_counted p rows gone in
              if_elim goal (is_empty batch) e _
                (λ eb. omega (arith, none_counted p batch (no_length batch eb), zero_rows))
                (λ _. omega (arith, flush-settled (answers 0) batch e, zero_rows)))
            (λ nemp.
              let k = some_taken got nemp in
              let l = length-take room rows in
              if_elim goal (leb batch_max (length (batch ++ got))) _ _
                (λ _. omega (
                  arith,
                  drain_rounds-settled fuel batch_max answers [] rest flushed' h (omega arith),
                  flush-settled (answers (length rows)) (batch ++ got) e,
                ))
                (λ _. omega (
                  arith,
                  drain_rounds-settled fuel batch_max answers (batch ++ got) rest e h
                      (omega (arith, length-append batch got)),
                ))))
