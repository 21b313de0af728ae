-- ===== src/Wal/Store/Extend.antt =====
-- A frame at the end of the last segment: the files, the segments and the cursor of
-- statix/src/wal/mod.rs.
use statix.Prelude.{
  ℕ, ◌+◌, ◌-◌, ◌<◌, ◌≡◌, refl, ap, sym, ◌∙◌, inl, inr, true, false, Option, none, some, List, [],
  ◌∷◌, ◌++◌, length, ◌==◌, arith, append_assoc, append-nil, All-append, length-append, take_all,
  drop_all,
}
use statix.Wal.Segment.{DecodedFrame, encode_segment_header, frame_len_on_disk}
use statix.Wal.Segment.RoundTrip.{encode_frame, length-encode_frame}
use statix.Wal.Store.{Disk, with_file, overwrite, grow_back, SegmentMeta}
use statix.Wal.Store.Layout.{
  Group, GroupOk, IsStorable, encode_all, bytes_of, all_frames, CursorOk, Chain, After, PendingOk,
}
use statix.Wal.Store.Rotate.{all_frames-append}

-- A write at the end of a file.
pub overwrite_end :
    (content bytes : List ℕ) (position : ℕ)
    → position ≡ length content
    → overwrite content position bytes ≡ content ++ bytes
unfolding overwrite
overwrite_end content bytes position h =
    let e : position - length content ≡ 0 = omega arith in
    rw
      (
        take_all position content (omega arith),
        e,
        drop_all (position + length bytes) content (omega arith),
        append-nil,
      )
      refl

pub grow_back-append :
    (ms : List SegmentMeta) (m : SegmentMeta) (n : ℕ)
    → grow_back n (ms ++ m ∷ [])
      ≡ ms ++ record m { bytes = m.bytes + n; frames = m.frames + 1 } ∷ []
unfolding grow_back
grow_back-append [] m n = refl
grow_back-append (k ∷ []) m n = refl
grow_back-append (k ∷ k' ∷ ms) m n = ap (λ t. k ∷ t) (grow_back-append (k' ∷ ms) m n)

abbrev pub extend : DecodedFrame → Group → Group
extend f g = record g { frames = g.frames ++ f ∷ [] }

module _ (hash : List ℕ → ℕ) where
  pub encode_all-append :
      (fs : List DecodedFrame) (f : DecodedFrame)
      → encode_all hash (fs ++ f ∷ []) ≡ encode_all hash fs ++ encode_frame hash f
  encode_all-append [] f = append-nil (encode_frame hash f)
  encode_all-append (k ∷ fs) f =
      ap (λ t. encode_frame hash k ++ t) (encode_all-append fs f)
      ∙ sym (append_assoc (encode_frame hash k) (encode_all hash fs) (encode_frame hash f))

  pub bytes_of-extend :
      (f : DecodedFrame) (g : Group)
      → bytes_of hash (extend f g) ≡ bytes_of hash g + frame_len_on_disk (length f.payload)
  bytes_of-extend f g = rw (encode_all-append g.frames f) (
      omega (
        arith,
        length-append (encode_all hash g.frames) (encode_frame hash f),
        length-encode_frame hash f,
      ))

  pub Chain-last :
      (disk : Disk) (next_seq : ℕ) (gs : List Group) (g : Group)
      → Chain hash disk next_seq (gs ++ g ∷ [])
      → GroupOk hash disk next_seq g
  Chain-last disk next_seq [] g h = h.0
  Chain-last disk next_seq (k ∷ gs) g h = Chain-last disk next_seq gs g (h.1).1

  After-extend :
      (s : ℕ) (f : DecodedFrame) (gs : List Group) (g : Group)
      → After s (gs ++ g ∷ [])
      → After s (gs ++ extend f g ∷ [])
  After-extend s f [] g h = h
  After-extend s f (k ∷ gs) g h = (h.0, After-extend s f gs g h.1)

  After-last : (s : ℕ) (gs : List Group) (g : Group) → After s (gs ++ g ∷ []) → s < g.seq
  After-last s [] g h = h.0
  After-last s (k ∷ gs) g h = After-last s gs g h.1

  pub Chain-extend :
      (disk : Disk) (next_seq : ℕ) (gs : List Group) (g : Group) (f : DecodedFrame)
      → IsStorable hash f
      → Chain hash disk next_seq (gs ++ g ∷ [])
      → Chain hash
          (with_file disk g.seq
            (some ((encode_segment_header ++ encode_all hash g.frames) ++ encode_frame hash f)))
          next_seq
          (gs ++ extend f g ∷ [])
  Chain-extend disk next_seq [] g f ok h =
      let same : (g.seq == g.seq) ≡ true = ground arith in
      (
        record {
          content =
              rw (same, encode_all-append g.frames f)
                (ap (λ c. some c)
                  (append_assoc encode_segment_header (encode_all hash g.frames)
                    (encode_frame hash f)));
          storable = All-append (IsStorable hash) g.frames (f ∷ []) (h.0).storable (ok, tt);
          known = (h.0).known;
        },
        (tt, tt),
      )
  Chain-extend disk next_seq (k ∷ gs) g f ok h =
      let before : k.seq < g.seq = After-last k.seq gs g (h.1).0 in
      let other : (g.seq == k.seq) ≡ false = ground arith in
      (
        record {
          content = rw other ((h.0).content);
          storable = (h.0).storable;
          known = (h.0).known;
        },
        (After-extend k.seq f gs g (h.1).0, Chain-extend disk next_seq gs g f ok (h.1).1),
      )

  PendingOk-append :
      (pending : Option ℕ) (offset : ℕ) (rest : List DecodedFrame) (f : DecodedFrame)
      → PendingOk pending offset rest
      → PendingOk pending offset (rest ++ f ∷ [])
  PendingOk-append none offset rest f h = tt
  PendingOk-append (some next) offset [] f h = absurd h
  PendingOk-append (some next) offset (k ∷ rest) f h = h

  all_frames-extend :
      (gs : List Group) (g : Group) (f : DecodedFrame)
      → all_frames (gs ++ extend f g ∷ []) ≡ all_frames (gs ++ g ∷ []) ++ f ∷ []
  all_frames-extend gs g f =
      all_frames-append gs (extend f g)
      ∙ (sym (append_assoc (all_frames gs) g.frames (f ∷ []))
          ∙ ap (λ t. t ++ f ∷ []) (sym (all_frames-append gs g)))

  pub Cursor-extend :
      (read_seq read_offset next_seq : ℕ) (pending : Option ℕ) (q : List DecodedFrame)
      (gs : List Group) (g : Group) (f : DecodedFrame)
      → CursorOk hash read_seq read_offset pending next_seq q (gs ++ g ∷ [])
      → CursorOk hash read_seq read_offset pending next_seq (q ++ f ∷ []) (gs ++ extend f g ∷ [])
  Cursor-extend read_seq read_offset next_seq pending q [] g f (inl b) = inl (record {
    gone = b.gone;
    not_pending = b.not_pending;
    queue = ap (λ t. t ++ f ∷ []) b.queue ∙ sym (all_frames-extend [] g f);
  })
  Cursor-extend read_seq read_offset next_seq pending q [] g f (inr c) = inr (record {
    past = c.past;
    rest = c.rest ++ f ∷ [];
    on_front = c.on_front;
    split = sym (append_assoc c.past c.rest (f ∷ [])) ∙ ap (λ t. t ++ f ∷ []) c.split;
    reached = c.reached;
    pending_ok = PendingOk-append pending read_offset c.rest f c.pending_ok;
    queue =
        ap (λ t. t ++ f ∷ []) (c.queue ∙ append-nil c.rest) ∙ sym (append-nil (c.rest ++ f ∷ []));
  })
  Cursor-extend read_seq read_offset next_seq pending q (k ∷ gs) g f (inl b) = inl (record {
    gone = b.gone;
    not_pending = b.not_pending;
    queue = ap (λ t. t ++ f ∷ []) b.queue ∙ sym (all_frames-extend (k ∷ gs) g f);
  })
  Cursor-extend read_seq read_offset next_seq pending q (k ∷ gs) g f (inr c) = inr (record {
    past = c.past;
    rest = c.rest;
    on_front = c.on_front;
    split = c.split;
    reached = c.reached;
    pending_ok = c.pending_ok;
    queue =
        ap (λ t. t ++ f ∷ []) c.queue
        ∙ (append_assoc c.rest (all_frames (gs ++ g ∷ [])) (f ∷ [])
            ∙ ap (λ t. c.rest ++ t) (sym (all_frames-extend gs g f)));
  })
