-- ===== src/Wal/Recovery/Scanning.antt =====
-- The whole scan of statix/src/wal/recovery.rs, over the files of a directory.
use statix.Prelude.{
  ℕ, ◌+◌, ◌≤◌, ◌<◌, ◌≡◌, refl, ap, sym, ◌∙◌, Bool, true, false, some, List, [], ◌∷◌, ◌++◌, All,
  ◌==◌, arith, append_assoc, append-nil,
}
use statix.Wal.Segment.{DecodedFrame, encode_segment_header}
use statix.Wal.Store.{Disk}
use statix.Wal.Store.Layout.{Group, encode_all, After, metas, meta_of, sum_bytes, all_frames}
use statix.Wal.Recovery.{Inspection, Scan, scan_segment, scan_all}
use statix.Wal.Recovery.Frames.{after_frames}
use statix.Wal.Recovery.Files.{IsSound, Left, group_of, file_of, scan_segment-Scanned}

module _ (hash : List ℕ → ℕ) where
  abbrev pub groups_of : List (Left hash) → List Group
  groups_of [] = []
  groups_of (c ∷ cs) = group_of hash c ∷ groups_of cs

  abbrev pub seqs_of : List (Left hash) → List ℕ
  seqs_of [] = []
  seqs_of (c ∷ cs) = c.seq ∷ seqs_of cs

  -- The files of a directory, in ascending order of their numbers.
  abbrev pub HoldsAll : Disk → List (Left hash) → Type 0
  HoldsAll disk [] = Unit
  HoldsAll disk (c ∷ cs) =
      (disk c.seq ≡ some (file_of hash c)) × (After c.seq (groups_of cs) × HoldsAll disk cs)

  -- The scan after all of them.
  pub record ScannedAll (cs : List (Left hash)) (s : Scan) (r : Bool × Scan) : Type 0 where
    pub fine : r.0 ≡ true
    pub segments : r.1.segments ≡ s.segments ++ metas hash (groups_of cs)
    pub total : r.1.total_bytes ≡ s.total_bytes + sum_bytes hash (groups_of cs)
    pub batch : r.1.next_batch_seq ≡ after_frames (all_frames (groups_of cs)) s.next_batch_seq
    pub top : All (λ (c : Left hash). c.seq ≤ r.1.max_seq) cs
    pub max_kept : s.max_seq ≤ r.1.max_seq
    pub bound : (m : ℕ) → s.max_seq ≤ m → All (λ (c : Left hash). c.seq ≤ m) cs → r.1.max_seq ≤ m
    pub others : (j : ℕ) → All (λ (c : Left hash). (c.seq == j) ≡ false) cs → r.1.disk j ≡ s.disk j
    pub files :
        All
          (λ (c : Left hash).
            r.1.disk c.seq ≡ some (encode_segment_header ++ encode_all hash c.frames))
          cs

  after_frames-append :
      (fs gs : List DecodedFrame) (b : ℕ)
      → after_frames (fs ++ gs) b ≡ after_frames gs (after_frames fs b)
  after_frames-append [] gs b = refl
  after_frames-append (f ∷ fs) gs b = after_frames-append fs gs _

  After-not :
      (s : ℕ) (cs : List (Left hash))
      → After s (groups_of cs)
      → All (λ (c : Left hash). (c.seq == s) ≡ false) cs
  After-not s [] h = tt
  After-not s (c ∷ cs) h = (ground (arith, h.0), After-not s cs h.1)

  HoldsAll-other :
      (d d' : Disk) (s : ℕ) (cs : List (Left hash))
      → ((j : ℕ) → (s == j) ≡ false → d' j ≡ d j)
      → After s (groups_of cs)
      → HoldsAll d cs
      → HoldsAll d' cs
  HoldsAll-other d d' s [] same h k = tt
  HoldsAll-other d d' s (c ∷ cs) same h k =
      let lt : s < c.seq = h.0 in
      (same c.seq (ground arith) ∙ k.0, ((k.1).0, HoldsAll-other d d' s cs same h.1 (k.1).1))

  pub scan_all-ScannedAll :
      (os : ℕ → Inspection) (cs : List (Left hash)) (s : Scan)
      → ((n : ℕ) → IsSound (os n))
      → HoldsAll s.disk cs
      → ScannedAll cs s (scan_all hash os (seqs_of cs) s)
  unfolding scan_all
  scan_all-ScannedAll os [] s sound h = record {
    fine = refl;
    segments = sym (append-nil s.segments);
    total = omega arith;
    batch = refl;
    top = tt;
    max_kept = omega arith;
    bound = λ m h o. h;
    others = λ j o. refl;
    files = tt;
  }
  scan_all-ScannedAll os (c ∷ cs) s sound h =
      let one = scan_segment-Scanned hash os c s (sound c.seq) h.0 in
      let s1 = (scan_segment hash os c.seq s).1 in
      let all =
        scan_all-ScannedAll os cs s1 sound
          (HoldsAll-other s.disk s1.disk c.seq cs one.others (h.1).0 (h.1).1) in
      rw one.fine (record {
        fine = all.fine;
        segments =
            all.segments
            ∙ (ap (λ ms. ms ++ metas hash (groups_of cs)) one.segments
                ∙ append_assoc s.segments (meta_of hash (group_of hash c) ∷ [])
                    (metas hash (groups_of cs)));
        total = omega (arith, all.total, one.total);
        batch =
            all.batch
            ∙ (ap (after_frames (all_frames (groups_of cs))) one.batch
                ∙ sym (after_frames-append c.frames (all_frames (groups_of cs)) s.next_batch_seq));
        top = (omega (arith, one.top, all.max_kept), all.top);
        max_kept = omega (arith, one.top, all.max_kept);
        bound = λ m h o. all.bound m (omega (arith, one.top, o.0)) o.1;
        others = λ j o. all.others j o.1 ∙ one.others j o.0;
        files = (all.others c.seq (After-not c.seq cs (h.1).0) ∙ one.cut, all.files);
      })
