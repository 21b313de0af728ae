-- ===== src/Wal/Store/FrameWrite.antt =====
-- The two writes of a frame in `append` of statix/src/wal/mod.rs, at the end of the last segment.
use statix.Prelude.{ℕ, ◌+◌, ◌≡◌, refl, ap, some, List, [], ◌∷◌, ◌++◌, length, arith, length-append}
use statix.Wal.Segment.{
  DecodedFrame, encode_segment_header, encode_segment_header, frame_len_on_disk,
}
use statix.Wal.Segment.RoundTrip.{encode_frame, length-encode_frame}
use statix.Wal.Store.{Os, WalInner, done, ActiveSegment, write_frame}
use statix.Wal.Store.Layout.{Group, IsStorable, encode_all, Layout, metas, meta_of, bytes_of}
use statix.Wal.Store.Rotate.{IsCalm, last?-append, metas-append, sum_bytes-append}
use statix.Wal.Store.Extend.{
  overwrite_end, grow_back-append, extend, bytes_of-extend, Chain-last, Chain-extend, Cursor-extend,
}

pub length-encode_segment_header : length encode_segment_header ≡ 16
unfolding encode_segment_header
length-encode_segment_header = omega arith

module _ (hash : List ℕ → ℕ) where
  meta_of-extend :
      (f : DecodedFrame) (g : Group)
      → record (meta_of hash g) {
        bytes = bytes_of hash g + frame_len_on_disk (length f.payload);
        frames = length g.frames + 1;
      }
        ≡ meta_of hash (extend f g)
  meta_of-extend f g =
      let e : length (g.frames ++ f ∷ []) ≡ length g.frames + 1 =
        omega (arith, length-append g.frames (f ∷ [])) in
      rw (e, bytes_of-extend hash f g) refl

  pub write_frame-Layout :
      (os : Os) (payload : List ℕ) (b : ℕ) (a : ActiveSegment) (gs : List Group) (g : Group)
      (w : WalInner) (q : List DecodedFrame)
      → IsCalm os
      → IsStorable hash (record { batch_seq = b; payload = payload })
      → a.seq ≡ g.seq
      → a.position ≡ bytes_of hash g
      → a.offset ≡ bytes_of hash g
      → Layout hash (gs ++ g ∷ []) w q
      → ((write_frame hash os payload b (some a) w).0 ≡ done)
        × Layout hash
            (gs ++ extend (record { batch_seq = b; payload = payload }) g ∷ [])
            (write_frame hash os payload b (some a) w).1
            (q ++ record { batch_seq = b; payload = payload } ∷ [])
  write_frame-Layout os payload b a gs g w q calm ok seq position offset l =
      rw (calm.framed, calm.filled)
        (
          refl,
          record {
            segments =
                rw
                  (
                    l.segments,
                    metas-append hash gs (g ∷ []),
                    grow_back-append (metas hash gs) (meta_of hash g)
                        (frame_len_on_disk (length payload)),
                    metas-append hash gs (extend f g ∷ []),
                  )
                  (ap (λ m. metas hash gs ++ m ∷ []) (meta_of-extend f g));
            chain =
                rw
                  (
                    seq,
                    (Chain-last hash w.disk w.next_seq gs g l.chain).content,
                    overwrite_end (encode_segment_header ++ encode_all hash g.frames)
                        (encode_frame hash f) a.position
                        (omega (
                          arith,
                          position,
                          length-encode_segment_header,
                          length-append encode_segment_header (encode_all hash g.frames),
                        )),
                  )
                  (Chain-extend hash w.disk w.next_seq gs g f ok l.chain);
            total = omega (
              arith,
              l.total,
              sum_bytes-append hash gs g,
              sum_bytes-append hash gs (extend f g),
              bytes_of-extend hash f g,
            );
            active = rw (last?-append gs (extend f g)) (
              seq,
              (
                omega (arith, position, bytes_of-extend hash f g, length-encode_frame hash f),
                omega (arith, offset, bytes_of-extend hash f g),
              ),
            );
            batch_fits = l.batch_fits;
            cursor =
                Cursor-extend hash w.read_seq w.read_offset w.next_seq w.pending_advance q gs g f
                  l.cursor;
          },
        )
    where
      f : DecodedFrame
      f = record { batch_seq = b; payload = payload }
