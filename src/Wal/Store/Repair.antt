-- ===== src/Wal/Store/Repair.antt =====
-- `recover_active_after_error` of statix/src/wal/mod.rs undoes a write that failed halfway.
use statix.Prelude.{
  ℕ, ◌+◌, ◌-◌, ◌%◌, ◌≡◌, ◌<◌, ◌⊎◌, refl, ap, sym, ◌∙◌, inl, inr, true, false, ◌&&◌, Option, none,
  some, List, [], ◌∷◌, ◌++◌, length, take, replicate, ◌==◌, if◌then◌else◌, arith, append-nil,
  length-append, take-append, Bool-cases, u64_mod,
}
use statix.Wal.Segment.{DecodedFrame, encode_segment_header, encode_frame_header, frame_len_on_disk}
use statix.Wal.Store.{
  Os, WalInner, Disk, with_file, contents, Outcome, done, io_error, panicked, ActiveSegment,
  overwrite, succeeds, written, write_frame, append, append_after, enforce_cap,
  ensure_active_with_room, recover_active_after_error, repair,
}
use statix.Wal.Store.Layout.{Group, encode_all, Layout, Represents, bytes_of, ActiveOk, Chain}
use statix.Wal.Store.Cap.{enforce_cap-Dropped}
use statix.Wal.Store.Rotate.{last?-append}
use statix.Wal.Store.Extend.{overwrite_end, Chain-last}
use statix.Wal.Store.FrameWrite.{length-encode_segment_header}
use statix.Wal.Store.Reported.{
  dropped, enforce_cap_reported, append-dropped, recover_active-dropped,
}
use statix.Wal.Store.FailedRotate.{RotateFailed, ensure-cases}
use statix.Wal.Store.Room.{Ready}

-- One of the two writes of the frame fails, after any number of bytes, and the two calls of the
-- repair succeed. The rotation may fail as well: then the writes are not made, and their answers
-- here have no effect.
pub record IsTorn (os : Os) : Type 0 where
  pub fails : (succeeds os.frame_header && succeeds os.frame_payload) ≡ false
  pub cuts : os.set_len_ok ≡ true
  pub seeks : os.seek_ok ≡ true

module _ (hash : List ℕ → ℕ) where
  Chain-same :
      (d d' : Disk) (next_seq : ℕ) (gs : List Group)
      → ((j : ℕ) → d' j ≡ d j)
      → Chain hash d next_seq gs
      → Chain hash d' next_seq gs
  Chain-same d d' next_seq [] same h = tt
  Chain-same d d' next_seq (g ∷ gs) same h = (
    record { content = same g.seq ∙ (h.0).content; storable = (h.0).storable; known = (h.0).known },
    ((h.1).0, Chain-same d d' next_seq gs same (h.1).1),
  )

  -- The file after a torn write and the cut.
  cut_back :
      (content bytes : List ℕ) (offset : ℕ)
      → offset ≡ length content
      → let longer = overwrite content offset bytes in
        take offset longer ++ replicate (offset - length longer) 0 ≡ content
  cut_back content bytes offset h =
      let zero_left : offset - length (content ++ bytes) ≡ 0 =
        omega (arith, length-append content bytes) in
      rw (overwrite_end content bytes offset h, take-append content bytes offset h, zero_left)
        (append-nil content)

  repaired_disk :
      (disk : Disk) (s : ℕ) (content bytes : List ℕ) (position offset : ℕ)
      → disk s ≡ some content
      → position ≡ length content
      → offset ≡ position
      → let d1 = with_file disk s (some (overwrite (contents (disk s)) position bytes)) in
        let longer = contents (d1 s) in
        (j : ℕ)
        → with_file d1 s (some (take offset longer ++ replicate (offset - length longer) 0)) j
          ≡ disk j
  repaired_disk disk s content bytes position offset file h e j =
      let same : (s == s) ≡ true = ground arith in
      elim (Bool-cases (s == j)) [
        | inl t ↦
            let at : s ≡ j = ground arith in
            rw (t, same, file, e) (rw (cut_back content bytes position h) (sym file ∙ ap disk at))
        | inr t ↦ rw t refl
      ]

  write_frame-Repaired :
      (os : Os) (payload : List ℕ) (b : ℕ) (a : ActiveSegment) (gs : List Group) (g : Group)
      (w : WalInner) (q : List DecodedFrame)
      → IsTorn os
      → a.seq ≡ g.seq
      → a.position ≡ bytes_of hash g
      → a.offset ≡ bytes_of hash g
      → Layout hash (gs ++ g ∷ []) w q
      → ((write_frame hash os payload b (some a) w).0 ≡ io_error)
        × Layout hash
            (gs ++ g ∷ [])
            (recover_active_after_error os (write_frame hash os payload b (some a) w).1)
            q
  unfolding recover_active_after_error
  write_frame-Repaired os payload b a gs g w q torn seq position offset l =
      let ok = Chain-last hash w.disk w.next_seq gs g l.chain in
      let content = encode_segment_header ++ encode_all hash g.frames in
      let len : a.position ≡ length content = omega (
        arith,
        position,
        length-encode_segment_header,
        length-append encode_segment_header (encode_all hash g.frames),
      ) in
      let bytes =
        written os.frame_header (encode_frame_header hash payload b)
        ++ (if succeeds os.frame_header then written os.frame_payload payload else []) in
      let at : a.offset ≡ a.position = omega arith in
      rw (torn.fails, torn.cuts, torn.seeks)
        (
          refl,
          record {
            segments = l.segments;
            chain =
                Chain-same w.disk _ w.next_seq (gs ++ g ∷ [])
                  (repaired_disk w.disk a.seq content bytes a.position a.offset
                    (ap w.disk seq ∙ ok.content) len at)
                  l.chain;
            total = l.total;
            active = rw (last?-append gs g) (seq, (offset, offset));
            batch_fits = l.batch_fits;
            cursor = l.cursor;
          },
        )

  nothing_to_repair :
      (os : Os) (w : WalInner) → w.active ≡ none → recover_active_after_error os w ≡ w
  unfolding recover_active_after_error
  nothing_to_repair os w h = ap (λ (o : Option ActiveSegment). repair os o w) h

  append_after-Repaired :
      (os : Os) (payload : List ℕ) (batch : ℕ) (gs : List Group) (r : Outcome × WalInner)
      (q : List DecodedFrame)
      → IsTorn os
      → Ready hash batch r q ⊎ RotateFailed hash gs r q
      → ((append_after hash os payload r).0 ≡ io_error)
        × Represents hash (recover_active_after_error os (append_after hash os payload r).1) q
  append_after-Repaired os payload batch gs (io_error, w) q torn (inr f) =
      (refl, (gs, rw (nothing_to_repair os w f.inactive) f.layout))
  append_after-Repaired os payload batch gs (panicked, w) q torn (inr f) = absurd (cc (f.error))
  append_after-Repaired os payload batch gs (done, w) q torn (inr f) = absurd (cc (f.error))
  append_after-Repaired os payload batch gs (io_error, w) q torn (inl r) = absurd (cc (r.fine))
  append_after-Repaired os payload batch gs (panicked, w) q torn (inl r) = absurd (cc (r.fine))
  append_after-Repaired os payload batch gs (done, w) q torn (inl r) =
      let l = r.layout in
      let w' = record w { next_batch_seq = (w.next_batch_seq + 1) % u64_mod } in
      let l' : Layout hash (r.init ++ r.last ∷ []) w' q = record {
        segments = l.segments;
        chain = l.chain;
        total = l.total;
        active = l.active;
        batch_fits = omega arith;
        cursor = l.cursor;
      } in
      let facts : ActiveOk hash (some r.active) (some r.last) =
        rw (r.is_active, last?-append r.init r.last) at l.active in
      let repaired =
        write_frame-Repaired os payload w.next_batch_seq r.active r.init r.last w' q torn facts.0
          (facts.1).0 (facts.1).1 l' in
      rw r.is_active (repaired.0, (_, repaired.1))

  -- The queue after a failed append and its repair: at most its oldest frames are gone, and then
  -- they are counted.
  pub record Repaired (old w : WalInner) (q : List DecodedFrame) : Type 0 where
    pub lost : List DecodedFrame
    pub kept : List DecodedFrame
    pub split : lost ++ kept ≡ q
    pub reported : (lost ≡ []) ⊎ (dropped old < dropped w)
    pub represents : Represents hash w kept

  -- When the rotation that a frame needs fails, at any of its calls, or else a write of the frame
  -- fails after any number of bytes, `append` returns the error, and after the repair no part of the
  -- frame is left, if the repair's `set_len` and seek succeed (the source ignores their errors): the
  -- store holds the queue as it was, less what `enforce_cap` dropped at its front, and is as good as
  -- before for the next append. The writes of the frame are not made after a failed rotation, and
  -- are taken as failing.
  pub append-Repaired :
      (os : Os) (payload : List ℕ) (w : WalInner) (q : List DecodedFrame)
      → IsTorn os
      → Represents hash w q
      → ((append hash os payload w).0 ≡ io_error)
        × Repaired w (recover_active_after_error os (append hash os payload w).1) q
  unfolding append
  append-Repaired os payload w q torn h = elim (enforce_cap_reported hash size w q h) [
    | inl same ↦
        let r =
          append_after-Repaired os payload w.next_batch_seq h.0 (ensure_active_with_room os size w)
            q torn (ensure-cases hash os size h.0 w q h.1) in
        rw same
          (r.0, record { lost = []; kept = q; split = refl; reported = inl refl; represents = r.1 })
    | inr grown ↦
        let w1 = enforce_cap size w in
        let d = (enforce_cap-Dropped hash size w q h).0 in
        let r =
          append_after-Repaired os payload w1.next_batch_seq d.represents.0
            (ensure_active_with_room os size w1) d.kept torn
            (ensure-cases hash os size d.represents.0 w1 d.kept d.represents.1) in
        (
          r.0,
          record {
            lost = d.lost;
            kept = d.kept;
            split = d.split;
            reported = inr (
                omega (
                  arith,
                  grown,
                  append-dropped hash os payload w,
                  recover_active-dropped os (append hash os payload w).1,
                ));
            represents = r.1;
          },
        )
  ]
    where
      size : ℕ
      size = frame_len_on_disk (length payload)
