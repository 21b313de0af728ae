-- ===== src/Wal/Store/Cursor.antt =====
-- The cursor of statix/src/wal/mod.rs: the jump to the first segment and the collection of a
-- segment that has been read.
use statix.Prelude.{
  ℕ, ◌^◌, ◌<◌, ◌≡◌, refl, ap, ◌∙◌, inl, inr, true, false, Option, none, some, List, [], ◌∷◌, ◌++◌,
  any, last?, ◌==◌, if◌then◌else◌, arith,
}
use statix.Wal.Segment.{DecodedFrame, segment_header_len}
use statix.Wal.Store.{
  WalInner, SegmentMeta, ActiveSegment, resync, to_front, gc_front_consumed, active_is,
  find_segment, without_segment, delete_segment,
}
use statix.Wal.Store.Layout.{
  Group, Layout, metas, meta_of, sum_bytes, AtFront, CursorOk, After, ActiveOk, Chain,
  Chain-with_file, After-other, all_frames,
}

module _ (hash : List ℕ → ℕ) where
  -- The cursor stands on the first segment.
  pub record OnFront (g : Group) (gs : List Group) (w : WalInner) (q : List DecodedFrame)
      : Type 0 where
    pub layout : Layout hash (g ∷ gs) w q
    pub front : AtFront hash w.read_seq w.read_offset w.pending_advance q g gs

  none_behind :
      (s : ℕ) (gs : List Group)
      → After s gs
      → any (λ (m : SegmentMeta). m.seq == s) (metas hash gs) ≡ false
  none_behind s [] h = refl
  none_behind s (g ∷ gs) h =
      let lt : s < g.seq = h.0 in
      let other : (g.seq == s) ≡ false = ground arith in rw other (none_behind s gs h.1)

  After-trans : (s t : ℕ) (gs : List Group) → s < t → After t gs → After s gs
  After-trans s t [] h k = tt
  After-trans s t (g ∷ gs) h k = (omega (arith, k.0), After-trans s t gs h k.1)

  pub resync-OnFront :
      (g : Group) (gs : List Group) (w : WalInner) (q : List DecodedFrame)
      → Layout hash (g ∷ gs) w q
      → OnFront g gs (resync w) q
  unfolding resync
  resync-OnFront g gs w q l = by_place l.cursor
    where
      by_place :
          CursorOk hash w.read_seq w.read_offset w.pending_advance w.next_seq q (g ∷ gs)
          → OnFront g gs
              (if any (λ (m : SegmentMeta). m.seq == w.read_seq) w.segments
                then w
                else to_front w.segments w)
              q
      by_place (inr f) =
          let here : (g.seq == w.read_seq) ≡ true = ground (arith, f.on_front) in
          simp (l.segments, here) (record { layout = l; front = f })
      by_place (inl b) =
          let away : any (λ (m : SegmentMeta). m.seq == w.read_seq) (metas hash (g ∷ gs)) ≡ false =
            none_behind w.read_seq (g ∷ gs)
              (b.gone, After-trans w.read_seq g.seq gs b.gone (l.chain.1).0) in
          let front : AtFront hash g.seq segment_header_len w.pending_advance q g gs = record {
            past = [];
            rest = g.frames;
            on_front = refl;
            split = refl;
            reached = omega arith;
            pending_ok = rw b.not_pending tt;
            queue = b.queue;
          } in
          simp (l.segments, away)
            (record {
              layout = record {
                segments = refl;
                chain = l.chain;
                total = l.total;
                active = l.active;
                batch_fits = l.batch_fits;
                cursor = inr front;
              };
              front = front;
            })

  found_front :
      (g : Group) (gs : List Group) (w : WalInner)
      → w.segments ≡ metas hash (g ∷ gs)
      → w.read_seq ≡ g.seq
      → (find_segment w.read_seq w.segments ≡ some (meta_of hash g))
        × (without_segment w.read_seq w.segments ≡ metas hash gs)
  unfolding find_segment without_segment
  found_front g gs w h e =
      let here : (g.seq == g.seq) ≡ true = ground arith in
      (rw (h, e, here) refl, rw (h, e, here) refl)

  ActiveOk-tail :
      (g : Group) (gs : List Group) (active : Option ActiveSegment) (read_seq : ℕ)
      → read_seq ≡ g.seq
      → active_is read_seq active ≡ false
      → ActiveOk hash active (last? (g ∷ gs))
      → ActiveOk hash active (last? gs)
  ActiveOk-tail g gs none read_seq e h ok = tt
  ActiveOk-tail g [] (some a) read_seq e h ok = absurd (ground (arith, ok.0))
  ActiveOk-tail g (k ∷ gs) (some a) read_seq e h ok = ok

  Cursor-collected :
      (g : Group) (gs : List Group) (w : WalInner) (q : List DecodedFrame)
      → w.read_seq ≡ g.seq
      → g.seq < w.next_seq
      → q ≡ all_frames gs
      → CursorOk hash
          (to_front (metas hash gs) w).read_seq
          (to_front (metas hash gs) w).read_offset
          none
          w.next_seq
          q
          gs
  Cursor-collected g [] w q e known h = record {
    not_pending = refl;
    queue = h;
    place = inl (omega arith);
  }
  Cursor-collected g (k ∷ gs) w q e known h = inr (record {
    past = [];
    rest = k.frames;
    on_front = refl;
    split = refl;
    reached = omega arith;
    pending_ok = tt;
    queue = h;
  })

  to_front_fields :
      (gs : List Group) (w : WalInner) (q : List DecodedFrame)
      → Chain hash w.disk w.next_seq gs
      → w.segments ≡ metas hash gs
      → w.total_bytes ≡ sum_bytes hash gs
      → ActiveOk hash w.active (last? gs)
      → w.next_batch_seq < 2 ^ 64
      → CursorOk hash
          (to_front (metas hash gs) w).read_seq
          (to_front (metas hash gs) w).read_offset
          none
          w.next_seq
          q
          gs
      → Layout hash gs (record (to_front (metas hash gs) w) { pending_advance = none }) q
  to_front_fields [] w q chain segments total active batch cursor = record {
    segments = segments;
    chain = chain;
    total = total;
    active = active;
    batch_fits = batch;
    cursor = cursor;
  }
  to_front_fields (g ∷ gs) w q chain segments total active batch cursor = record {
    segments = segments;
    chain = chain;
    total = total;
    active = active;
    batch_fits = batch;
    cursor = cursor;
  }

  -- The segment under the cursor goes; it is not the active one.
  pub gc-Layout :
      (g : Group) (gs : List Group) (w : WalInner) (q : List DecodedFrame)
      → (o : OnFront g gs w q) → o.front.rest ≡ []
      → active_is w.read_seq w.active ≡ false
      → Layout hash gs (gc_front_consumed w) q
  unfolding gc_front_consumed
  gc-Layout g gs w q o drained inactive =
      let l = o.layout in
      let e = o.front.on_front in
      let found = found_front g gs w l.segments e in
      let w' = delete_segment (some (meta_of hash g)) w in
      rw found.0 (
        simp found.1 (
          to_front_fields gs (record w' { segments = metas hash gs }) q
            (Chain-with_file hash w.disk w.next_seq g.seq none gs
              (After-other g.seq gs (l.chain.1).0) (l.chain.1).1)
            refl (omega (arith, l.total))
            (ActiveOk-tail g gs w.active w.read_seq e inactive l.active) l.batch_fits
            (Cursor-collected g gs (record w' { segments = metas hash gs }) q e ((l.chain.0).known)
              (o.front.queue ∙ ap (λ r. r ++ all_frames gs) drained))))
