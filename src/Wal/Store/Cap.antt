-- ===== src/Wal/Store/Cap.antt =====
-- What `enforce_cap` of statix/src/wal/mod.rs drops.
use statix.Prelude.{
  ℕ, ◌+◌, ◌≤◌, ◌≡◌, refl, ap, sym, ◌∙◌, ◌⊎◌, inl, inr, true, false, none, List, [], ◌∷◌, ◌++◌,
  length, ltb, ◌==◌, if_elim, arith, append_assoc,
}
use statix.Wal.Segment.{DecodedFrame}
use statix.Wal.Store.{WalInner, without_front, cursor_to, drop_front, enforce_rounds, enforce_cap}
use statix.Wal.Store.Layout.{
  Group, Layout, Represents, metas, meta_of, sum_bytes, all_frames, CursorOk, Chain-with_file,
  After-other,
}
use statix.Wal.Store.WholeSegments.{segments_bytes, Whole, enforce_rounds-Whole}

module _ (hash : List ℕ → ℕ) where
  -- Some of the oldest frames are lost and counted, and the store holds the others.
  pub record Dropped (w w' : WalInner) (q : List DecodedFrame) : Type 0 where
    pub lost : List DecodedFrame
    pub kept : List DecodedFrame
    pub split : lost ++ kept ≡ q
    pub represents : Represents hash w' kept
    pub counted :
        w'.total_bytes + w'.metrics.dropped_bytes ≡ w.total_bytes + w.metrics.dropped_bytes
    pub same_cfg : w'.cfg ≡ w.cfg
    pub same_batch : w'.next_batch_seq ≡ w.next_batch_seq

  abbrev pub WithinCap : ℕ → WalInner → Type 0
  WithinCap incoming w = (w.total_bytes + incoming ≤ w.cfg.max_bytes) ⊎ (length w.segments ≤ 1)

  record Stepped (g' : Group) (gs : List Group) (w' : WalInner) (q : List DecodedFrame)
      : Type 0 where
    lost : List DecodedFrame
    kept : List DecodedFrame
    split : lost ++ kept ≡ q
    layout : Layout hash (g' ∷ gs) w' kept

  drop_front-Layout :
      (g g' : Group) (gs : List Group) (w : WalInner) (q : List DecodedFrame)
      → Layout hash (g ∷ g' ∷ gs) w q
      → Stepped g' gs (drop_front (meta_of hash g) (meta_of hash g') (metas hash gs) w) q
  unfolding drop_front
  drop_front-Layout g g' gs w q l =
      if_elim (λ w'. Stepped g' gs w' q) (w.read_seq == g.seq) _ _ (on_victim l.cursor)
        (elsewhere l.cursor)
    where
      on_victim :
          CursorOk hash w.read_seq w.read_offset w.pending_advance w.next_seq q (g ∷ g' ∷ gs)
          → (w.read_seq == g.seq) ≡ true
          → Stepped g' gs
              (cursor_to
                (meta_of hash g')
                (without_front (meta_of hash g) (metas hash (g' ∷ gs)) w))
              q
      on_victim (inl b) e = absurd (ground (arith, b.gone))
      on_victim (inr f) e = record {
        lost = f.rest;
        kept = all_frames (g' ∷ gs);
        split = sym f.queue;
        layout = record {
          segments = refl;
          chain =
              Chain-with_file hash w.disk w.next_seq g.seq none (g' ∷ gs)
                (After-other g.seq (g' ∷ gs) (l.chain.1).0) (l.chain.1).1;
          total = omega (arith, l.total);
          active = l.active;
          batch_fits = l.batch_fits;
          cursor = inr (record {
            past = [];
            rest = g'.frames;
            on_front = refl;
            split = refl;
            reached = omega arith;
            pending_ok = tt;
            queue = refl;
          });
        };
      }

      elsewhere :
          CursorOk hash w.read_seq w.read_offset w.pending_advance w.next_seq q (g ∷ g' ∷ gs)
          → (w.read_seq == g.seq) ≡ false
          → Stepped g' gs (without_front (meta_of hash g) (metas hash (g' ∷ gs)) w) q
      elsewhere (inr f) e = absurd (ground (arith, f.on_front))
      elsewhere (inl b) e = record {
        lost = g.frames;
        kept = all_frames (g' ∷ gs);
        split = sym b.queue;
        layout = record {
          segments = refl;
          chain =
              Chain-with_file hash w.disk w.next_seq g.seq none (g' ∷ gs)
                (After-other g.seq (g' ∷ gs) (l.chain.1).0) (l.chain.1).1;
          total = omega (arith, l.total);
          active = l.active;
          batch_fits = l.batch_fits;
          cursor = inl (record {
            gone = omega (arith, b.gone, ((l.chain.1).0).0);
            not_pending = b.not_pending;
            queue = refl;
          });
        };
      }

  drop_front-counted :
      (g g' : Group) (gs : List Group) (w : WalInner)
      → w.total_bytes ≡ sum_bytes hash (g ∷ g' ∷ gs)
      → ((drop_front (meta_of hash g) (meta_of hash g') (metas hash gs) w).total_bytes
            + (drop_front
                (meta_of hash g)
                (meta_of hash g')
                (metas hash gs)
                w).metrics.dropped_bytes
          ≡ w.total_bytes + w.metrics.dropped_bytes)
        × ((drop_front (meta_of hash g) (meta_of hash g') (metas hash gs) w).cfg ≡ w.cfg)
        × ((drop_front (meta_of hash g) (meta_of hash g') (metas hash gs) w).next_batch_seq
            ≡ w.next_batch_seq)
  unfolding drop_front
  drop_front-counted g g' gs w h = ground arith

  stays :
      (gs : List Group) (w : WalInner) (q : List DecodedFrame) → Layout hash gs w q → Dropped w w q
  stays gs w q l = record {
    lost = [];
    kept = q;
    split = refl;
    represents = (gs, l);
    counted = refl;
    same_cfg = refl;
    same_batch = refl;
  }

  enforce_rounds-Dropped :
      (incoming : ℕ) (gs : List Group) (w : WalInner) (q : List DecodedFrame)
      → Layout hash gs w q
      → Dropped w (enforce_rounds incoming (metas hash gs) w) q
        × WithinCap incoming (enforce_rounds incoming (metas hash gs) w)
  unfolding enforce_rounds
  enforce_rounds-Dropped incoming [] w q l = (stays [] w q l, inr (rw l.segments (omega arith)))
  enforce_rounds-Dropped incoming (g ∷ []) w q l =
      (stays (g ∷ []) w q l, inr (rw l.segments (omega arith)))
  enforce_rounds-Dropped incoming (g ∷ g' ∷ gs) w q l =
      if_elim (λ w'. Dropped w w' q × WithinCap incoming w')
        (ltb w.cfg.max_bytes (w.total_bytes + incoming)) _ w
        (λ _.
          let s : Stepped g' gs (drop_front (meta_of hash g) (meta_of hash g') (metas hash gs) w)
              q =
            drop_front-Layout g g' gs w q l in
          let (d, b) = enforce_rounds-Dropped incoming (g' ∷ gs) _ s.kept s.layout in
          let (counted, cfg, batch) = drop_front-counted g g' gs w l.total in
          (
            record {
              lost = s.lost ++ d.lost;
              kept = d.kept;
              split = append_assoc s.lost d.lost d.kept ∙ (ap (λ t. s.lost ++ t) d.split ∙ s.split);
              represents = d.represents;
              counted = d.counted ∙ counted;
              same_cfg = d.same_cfg ∙ cfg;
              same_batch = d.same_batch ∙ batch;
            },
            b,
          ))
        (λ off. (stays (g ∷ g' ∷ gs) w q l, inl (ground arith)))

  segments_bytes-metas : (gs : List Group) → segments_bytes (metas hash gs) ≡ sum_bytes hash gs
  segments_bytes-metas [] = refl
  segments_bytes-metas (g ∷ gs) = omega (arith, segments_bytes-metas gs)

  -- `enforce_cap` gives up the oldest frames only, and counts their bytes; what it keeps is the
  -- rest of the queue in order. It takes whole segments from the front, one after another, and
  -- none that was not needed: with the last one that went the bytes held and the incoming ones
  -- exceeded the cap. At the end they are within the cap, or at most one segment is left. A file
  -- that cannot be removed is taken to be removed.
  pub enforce_cap-Dropped :
      (incoming : ℕ) (w : WalInner) (q : List DecodedFrame)
      → Represents hash w q
      → Dropped w (enforce_cap incoming w) q
        × (WithinCap incoming (enforce_cap incoming w) × Whole incoming w (enforce_cap incoming w))
  unfolding enforce_cap
  enforce_cap-Dropped incoming w q (gs, l) =
      let total = l.total ∙ sym (segments_bytes-metas gs) in
      let (d, within) = enforce_rounds-Dropped incoming gs w q l in
      simp l.segments
        (d, (within, enforce_rounds-Whole incoming (metas hash gs) w l.segments total))

  -- Nothing is given up while the incoming bytes fit.
  pub enforce_cap_fits :
      (incoming : ℕ) (w : WalInner) (q : List DecodedFrame)
      → Represents hash w q
      → w.total_bytes + incoming ≤ w.cfg.max_bytes
      → enforce_cap incoming w ≡ w
  unfolding enforce_cap enforce_rounds
  enforce_cap_fits incoming w q ([], l) h = rw l.segments
  enforce_cap_fits incoming w q (g ∷ [], l) h = rw l.segments
  enforce_cap_fits incoming w q (g ∷ g' ∷ gs, l) h =
      let fits : ltb w.cfg.max_bytes (w.total_bytes + incoming) ≡ false = ground arith in
      rw (l.segments, fits)
