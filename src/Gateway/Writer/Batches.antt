-- ===== src/Gateway/Writer/Batches.antt =====
-- The coalescer of statix-gateway/src/clickhouse_writer.rs.
use statix.Prelude.{
  ℕ, ◌-◌, ◌≤◌, ◌≡◌, refl, ap, ◌∙◌, min, not, some, List, [], ◌∷◌, ◌++◌, length, take, drop, ltb,
  is_empty, arith, append_assoc, length-append, length-take, take-append-drop, if_elim, ◌||◌,
}
use statix.Gateway.Writer.{Wake, linger_elapsed, arrived, fill_rounds, fill_batch}

module _ {ℓ} {A : Type ℓ} where
  -- A batch and what is left of the rows.
  pub record IsCut (batch_max : ℕ) (batch rows : List A) (p : List A × List A) : Type ℓ where
    pub whole : p.0 ++ p.1 ≡ batch ++ rows
    pub fits : length p.0 ≤ batch_max
    pub grows : length batch ≤ length p.0

  pub fill_rounds-IsCut :
      (batch_max : ℕ) (ws : List Wake) (batch rows : List A)
      → length batch ≤ batch_max
      → IsCut batch_max batch rows (fill_rounds batch_max ws batch rows)
  unfolding fill_rounds
  fill_rounds-IsCut batch_max [] batch rows h = record {
    whole = refl;
    fits = h;
    grows = omega arith;
  }
  fill_rounds-IsCut batch_max (linger_elapsed ∷ ws) batch rows h = record {
    whole = refl;
    fits = h;
    grows = omega arith;
  }
  fill_rounds-IsCut batch_max (arrived n ∷ ws) batch rows h =
      let k = min (batch_max - length batch) n in
      let l : length (batch ++ take k rows) ≤ batch_max =
        omega (arith, length-append batch (take k rows), length-take k rows) in
      let ih : IsCut batch_max (batch ++ take k rows) (drop k rows)
          (fill_rounds batch_max ws (batch ++ take k rows) (drop k rows)) =
        fill_rounds-IsCut batch_max ws (batch ++ take k rows) (drop k rows) l in
      if_elim (IsCut batch_max batch rows)
        (not (ltb (length batch) batch_max) || is_empty (take k rows)) (batch, rows)
        (fill_rounds batch_max ws (batch ++ take k rows) (drop k rows))
        (λ _. record { whole = refl; fits = h; grows = omega arith })
        (λ _. record {
          whole =
              ih.whole
              ∙ (append_assoc batch (take k rows) (drop k rows)
                  ∙ ap (λ (t : List A). batch ++ t) (take-append-drop k rows));
          fits = ih.fits;
          grows = omega (arith, length-append batch (take k rows), ih.grows);
        })

  -- A batch has at least one row and at most `batch_max`, and it is a prefix, in order, of the rows
  -- that are sent: none is lost, doubled or overtaken. There is one as soon as there is a row.
  pub fill_batch_lem :
      (batch_max : ℕ) (ws : List Wake) (first : A) (rows : List A)
      → 1 ≤ batch_max
      → (b r : List A) × (fill_batch batch_max ws (first ∷ rows) ≡ some (b, r))
        × (b ++ r ≡ first ∷ rows)
        × (1 ≤ length b)
        × (length b ≤ batch_max)
  unfolding fill_batch
  fill_batch_lem batch_max ws first rows h =
      let cut : IsCut batch_max (first ∷ []) rows (fill_rounds batch_max ws (first ∷ []) rows) =
        fill_rounds-IsCut batch_max ws (first ∷ []) rows h in
      let p = fill_rounds batch_max ws (first ∷ []) rows in
      (p.0, p.1, refl, cut.whole, cut.grows, cut.fits)
