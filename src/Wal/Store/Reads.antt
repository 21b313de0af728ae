-- ===== src/Wal/Store/Reads.antt =====
-- `peek_next` and `commit_pending` of statix/src/wal/mod.rs take the frames off the front of the
-- queue.
use statix.Prelude.{
  ℕ, zero, suc, ◌+◌, ◌<◌, ◌≡◌, refl, ap, sym, ◌∙◌, inr, true, false, Option, none, some, List, [],
  ◌∷◌, ◌++◌, length, is_empty, All, last?, if_elim, arith, append_assoc, append-nil, length-append,
  drop-append,
}
use statix.Wal.Segment.{
  DecodedFrame, segment_header_len, encode_segment_header, frame_len_on_disk, frame, end,
}
use statix.Wal.Segment.Reading.ShortReads.{NotFailed}
use statix.Wal.Segment.Whole.{read_frame_at_whole}
use statix.Wal.Segment.RoundTrip.{encode_frame, read_frame_at-encode}
use statix.Wal.Segment.Torn.{torn_header}
use statix.Wal.Store.{
  WalInner, Attempt, ActiveSegment, Peek, nothing, found, read_at_cursor, after_read, peek_rounds,
  peek_next, resync, gc_front_consumed, active_is,
}
use statix.Wal.Store.Layout.{
  Group, GroupOk, IsStorable, encode_all, Layout, Represents, metas, all_frames, ActiveOk, After,
}
use statix.Wal.Store.Cursor.{OnFront, resync-OnFront, gc-Layout}
use statix.Wal.Store.Tail.{encode_all-append_all, active_last}
use statix.Wal.Store.FrameWrite.{length-encode_segment_header}

-- Every file can be opened, and no read fails.
pub record IsReadable (a : Attempt) : Type 0 where
  pub opens : a.open_ok ≡ true
  pub reads : All NotFailed a.calls

module _ (hash : List ℕ → ℕ) (os : ℕ → Attempt) where
  -- The answer for the first frame of the queue, which a commit would move the cursor past.
  abbrev pub Answer : List DecodedFrame → Peek × WalInner → Type 0
  Answer [] r = r.0 ≡ nothing
  Answer (f ∷ q) r =
      (r.0 ≡ found f)
      × (r.1.pending_advance ≡ some (r.1.read_offset + frame_len_on_disk (length f.payload)))

  pub record Peeked (q : List DecodedFrame) (r : Peek × WalInner) : Type 0 where
    pub answer : Answer q r
    pub represents : Represents hash r.1 q

  All-tail : (P : DecodedFrame → Type 0) (fs gs : List DecodedFrame) → All P (fs ++ gs) → All P gs
  All-tail P [] gs h = h
  All-tail P (f ∷ fs) gs h = All-tail P fs gs h.1

  read_found :
      (g : Group) (gs : List Group) (w : WalInner) (past rest : List DecodedFrame)
      (f : DecodedFrame)
      → IsReadable (os w.read_seq)
      → GroupOk hash w.disk w.next_seq g
      → w.read_seq ≡ g.seq
      → past ++ f ∷ rest ≡ g.frames
      → w.read_offset ≡ segment_header_len + length (encode_all hash past)
      → read_at_cursor hash os w
        ≡ some (frame f (w.read_offset + frame_len_on_disk (length f.payload)))
  read_found g gs w past rest f readable ok here split reached =
      let storable = (All-tail (IsStorable hash) past (f ∷ rest) (rw split ok.storable)).0 in
      let before = encode_segment_header ++ encode_all hash past in
      let content : w.disk w.read_seq
          ≡ some (before ++ (encode_frame hash f ++ encode_all hash rest)) =
        rw (here, ok.content, ← split, encode_all-append_all hash past (f ∷ rest))
          (ap (λ c. some c)
            (sym (
              append_assoc encode_segment_header (encode_all hash past)
                (encode_frame hash f ++ encode_all hash rest)))) in
      let place : w.read_offset ≡ length before = omega (
        arith,
        reached,
        length-encode_segment_header,
        length-append encode_segment_header (encode_all hash past),
      ) in
      rw (readable.opens, content, place)
        (read_frame_at-encode hash (os w.read_seq).calls f before (encode_all hash rest)
          readable.reads storable.frameable storable.seq_fits storable.crc_fits)

  read_end :
      (g : Group) (w : WalInner) (past : List DecodedFrame)
      → IsReadable (os w.read_seq)
      → GroupOk hash w.disk w.next_seq g
      → w.read_seq ≡ g.seq
      → past ≡ g.frames
      → w.read_offset ≡ segment_header_len + length (encode_all hash past)
      → read_at_cursor hash os w ≡ some end
  read_end g w past readable ok here split reached =
      let content : w.disk w.read_seq
          ≡ some ((encode_segment_header ++ encode_all hash past) ++ []) =
        rw (here, ok.content, ← split, append-nil) refl in
      let place : w.read_offset ≡ length (encode_segment_header ++ encode_all hash past) = omega (
        arith,
        reached,
        length-encode_segment_header,
        length-append encode_segment_header (encode_all hash past),
      ) in
      rw (readable.opens, content)
        (read_frame_at_whole hash (os w.read_seq).calls _ _ readable.reads
          ∙ torn_header hash ((encode_segment_header ++ encode_all hash past) ++ []) w.read_offset (
              rw
                (drop-append (encode_segment_header ++ encode_all hash past) [] w.read_offset place)
                (omega arith)))

  -- Nothing is left once the active segment has been read to its end.
  drained_at_active :
      (g : Group) (gs : List Group) (active : Option ActiveSegment)
      → active_is g.seq active ≡ true
      → ActiveOk hash active (last? (g ∷ gs))
      → After g.seq gs
      → gs ≡ []
  drained_at_active g gs none h ok after = absurd cc
  drained_at_active g [] (some a) h ok after = refl
  drained_at_active g (k ∷ gs) (some a) h ok after =
      absurd (ground (arith, active_last hash g.seq (k ∷ gs) a after ok))

  after_read-Peeked :
      (g : Group) (gs : List Group) (w : WalInner) (q : List DecodedFrame) (again : Peek × WalInner)
      → IsReadable (os w.read_seq)
      → (o : OnFront hash g gs w q)
      → (o.front.rest ≡ [] → active_is w.read_seq w.active ≡ false → Peeked q again)
      → Peeked q (after_read hash os (read_at_cursor hash os w) w again)
  after_read-Peeked g gs w q again readable o h = by_rest o.front.rest refl
    where
      by_rest :
          (rest : List DecodedFrame)
          → o.front.rest ≡ rest
          → Peeked q (after_read hash os (read_at_cursor hash os w) w again)
      by_rest [] e =
          let l = o.layout in
          let f = o.front in
          let read : read_at_cursor hash os w ≡ some end =
            read_end g w f.past readable (l.chain.0) f.on_front
              (sym (append-nil f.past) ∙ (ap (λ r. f.past ++ r) (sym e) ∙ f.split)) f.reached in
          simp read (
            if_elim (λ r. Peeked q r) (active_is w.read_seq w.active) (nothing, w) again
              (λ here.
                let last : gs ≡ [] =
                  drained_at_active g gs w.active (rw f.on_front at here) l.active (l.chain.1).0 in
                let empty : q ≡ [] = f.queue ∙ rw (e, last) refl in
                record { answer = rw empty refl; represents = (g ∷ gs, l) })
              (λ away. h e away))
      by_rest (k ∷ rest) e =
          let l = o.layout in
          let f = o.front in
          let next = w.read_offset + frame_len_on_disk (length k.payload) in
          let read : read_at_cursor hash os w ≡ some (frame k next) =
            read_found g gs w f.past rest k readable (l.chain.0) f.on_front
              (ap (λ r. f.past ++ r) (sym e) ∙ f.split) f.reached in
          let queue : q ≡ k ∷ rest ++ all_frames gs = f.queue ∙ ap (λ r. r ++ all_frames gs) e in
          simp read (record {
            answer = rw queue (refl, refl);
            represents = (
              g ∷ gs,
              record {
                segments = l.segments;
                chain = l.chain;
                total = l.total;
                active = l.active;
                batch_fits = l.batch_fits;
                cursor = inr (record {
                  past = f.past;
                  rest = k ∷ rest;
                  on_front = f.on_front;
                  split = ap (λ r. f.past ++ r) (sym e) ∙ f.split;
                  reached = f.reached;
                  pending_ok = refl;
                  queue = queue;
                });
              },
            );
          })

  pub peek_rounds-Peeked :
      (fuel : ℕ) (gs : List Group) (w : WalInner) (q : List DecodedFrame)
      → ((s : ℕ) → IsReadable (os s))
      → length gs < fuel
      → Layout hash gs w q
      → Peeked q (peek_rounds hash os fuel w)
  unfolding peek_rounds
  peek_rounds-Peeked zero gs w q readable h l = absurd (omega arith)
  peek_rounds-Peeked (suc fuel) [] w q readable h l =
      let empty : is_empty w.segments ≡ true = rw l.segments refl in
      rw empty (record { answer = rw l.cursor.queue refl; represents = ([], l) })
  peek_rounds-Peeked (suc fuel) (g ∷ gs) w q readable h l =
      let some_left : is_empty w.segments ≡ false = rw l.segments refl in
      let o = resync-OnFront hash g gs w q l in
      rw some_left (
        after_read-Peeked g gs (resync w) q
          (peek_rounds hash os fuel (gc_front_consumed (resync w))) (readable (resync w).read_seq) o
          (λ drained away.
            peek_rounds-Peeked fuel gs (gc_front_consumed (resync w)) q readable (omega arith)
              (gc-Layout hash g gs (resync w) q o drained away)))

  length-metas : (gs : List Group) → length (metas hash gs) ≡ length gs
  length-metas [] = refl
  length-metas (g ∷ gs) = omega (arith, length-metas gs)

  -- While files can be opened and read, `peek_next` returns the first frame of the queue, or
  -- `None` when the queue is empty, and changes nothing in the queue, however many read segments
  -- it collects on the way; the loop ends within its rounds.
  pub peek_next-Peeked :
      (w : WalInner) (q : List DecodedFrame)
      → ((s : ℕ) → IsReadable (os s))
      → Represents hash w q
      → Peeked q (peek_next hash os w)
  unfolding peek_next
  peek_next-Peeked w q readable (gs, l) =
      let count : length w.segments ≡ length gs = rw l.segments (length-metas gs) in
      peek_rounds-Peeked (suc (length w.segments)) gs w q readable (omega arith) l
