-- ===== src/Wal/Store/Commit.antt =====
-- `commit_pending` of statix/src/wal/mod.rs takes the frame that was read off the queue.
use statix.Prelude.{
  ℕ, ◌+◌, ◌≡◌, refl, ap, sym, ◌∙◌, inl, inr, some, List, [], ◌∷◌, ◌++◌, length, arith, append_assoc,
  length-append,
}
use statix.Wal.Segment.{DecodedFrame, segment_header_len, frame_len_on_disk}
use statix.Wal.Segment.RoundTrip.{length-encode_frame, encode_frame}
use statix.Wal.Store.{WalInner, commit_pending}
use statix.Wal.Store.Layout.{Group, encode_all, Layout, Represents, AtFront, CursorOk, all_frames}
use statix.Wal.Store.Extend.{encode_all-append}

cons-inj : (f k : DecodedFrame) (q r : List DecodedFrame) → f ∷ q ≡ k ∷ r → (f ≡ k) × (q ≡ r)
cons-inj f k q r e = (cc, cc)

module _ (hash : List ℕ → ℕ) where
  past_frame :
      (past : List DecodedFrame) (f : DecodedFrame) (offset : ℕ)
      → offset ≡ segment_header_len + length (encode_all hash past)
      → offset + frame_len_on_disk (length f.payload)
        ≡ segment_header_len + length (encode_all hash (past ++ f ∷ []))
  past_frame past f offset h = rw (encode_all-append hash past f) (
      omega (
        arith,
        h,
        length-append (encode_all hash past) (encode_frame hash f),
        length-encode_frame hash f,
      ))

  commit_first :
      (g : Group) (gs : List Group) (w : WalInner) (f : DecodedFrame) (q : List DecodedFrame)
      → Layout hash (g ∷ gs) w (f ∷ q)
      → w.pending_advance ≡ some (w.read_offset + frame_len_on_disk (length f.payload))
      → AtFront hash w.read_seq w.read_offset w.pending_advance (f ∷ q) g gs
      → Layout hash (g ∷ gs) (commit_pending w) q
  unfolding commit_pending
  commit_first g gs w f q l h a = by_rest a.rest refl
    where
      by_rest :
          (rest : List DecodedFrame) → a.rest ≡ rest → Layout hash (g ∷ gs) (commit_pending w) q
      by_rest [] e = absurd (rw (h, e) at a.pending_ok)
      by_rest (k ∷ rest) e =
          let queue : f ∷ q ≡ k ∷ (rest ++ all_frames gs) =
            a.queue ∙ ap (λ r. r ++ all_frames gs) e in
          let same = cons-inj f k q (rest ++ all_frames gs) queue in
          rw h (record {
            segments = l.segments;
            chain = l.chain;
            total = l.total;
            active = l.active;
            batch_fits = l.batch_fits;
            cursor = inr (record {
              past = a.past ++ f ∷ [];
              rest = rest;
              on_front = a.on_front;
              split =
                  append_assoc a.past (f ∷ []) rest
                  ∙ (ap (λ j. a.past ++ j ∷ rest) same.0
                      ∙ (ap (λ r. a.past ++ r) (sym e) ∙ a.split));
              reached = past_frame a.past f w.read_offset a.reached;
              pending_ok = tt;
              queue = same.1;
            });
          })

  -- A commit after a frame was read takes that frame off the queue.
  pub commit_pending-Represents :
      (w : WalInner) (f : DecodedFrame) (q : List DecodedFrame)
      → Represents hash w (f ∷ q)
      → w.pending_advance ≡ some (w.read_offset + frame_len_on_disk (length f.payload))
      → Represents hash (commit_pending w) q
  commit_pending-Represents w f q ([], l) h = absurd (cc (l.cursor.queue))
  commit_pending-Represents w f q (g ∷ gs, l) h = by_cursor l.cursor
    where
      by_cursor :
          CursorOk hash w.read_seq w.read_offset w.pending_advance w.next_seq (f ∷ q) (g ∷ gs)
          → Represents hash (commit_pending w) q
      by_cursor (inl b) = absurd (cc (b.not_pending, h))
      by_cursor (inr a) = (g ∷ gs, commit_first g gs w f q l h a)
