-- ===== src/Wal/Recovery/Files.antt =====
-- One round of the scan of statix/src/wal/recovery.rs, over a file that a crash left.
use statix.Prelude.{
  ℕ, suc, ◌+◌, ◌≤◌, ◌<◌, ◌≡◌, refl, ap, sym, ◌∙◌, Bool, true, false, ◌&&◌, max, Option, none, some,
  List, [], ◌∷◌, ◌++◌, length, take, All, ltb, ◌==◌, if◌then◌else◌, if_elim, arith, append_assoc,
  append-nil, length-append, take-append, take_all,
}
use statix.Wal.Segment.{
  DecodedFrame, segment_header_len, encode_segment_header, validate_segment_header,
}
use statix.Wal.Segment.Reading.{ReadCall, ReadStatus, full, partial, eof, File, read_full_or_eof}
use statix.Wal.Segment.Reading.ShortReads.{NotFailed, seen}
use statix.Wal.Segment.Whole.{read_full_whole}
use statix.Wal.Segment.RoundTrip.{read_exactly, validate-encode_segment_header}
use statix.Wal.Store.{Disk, with_file}
use statix.Wal.Store.Layout.{Group, encode_all, IsStorable, meta_of, bytes_of}
use statix.Wal.Store.FrameWrite.{length-encode_segment_header}
use statix.Wal.Recovery.{Inspection, walked, walk_frames, Scan, header_ok, scan_segment}
use statix.Wal.Recovery.Frames.{after_frames, StopsAt, walk_frames-lem, length-encode_all}

-- Every call on a segment succeeds, and reads are at most cut short.
pub record IsSound (os : Inspection) : Type 0 where
  pub opens : os.open_ok ≡ true
  pub header_reads : All NotFailed os.header_calls
  pub frame_reads : (n : ℕ) → All NotFailed (os.frame_calls n)
  pub measures : os.metadata_ok ≡ true
  pub truncates : os.truncate_ok ≡ true

module _ (hash : List ℕ → ℕ) where
  header_ok-seen :
      (r : Option (ReadStatus × List ℕ × File)) (rest : List ℕ)
      → seen r ≡ some (full, encode_segment_header, rest)
      → header_ok hash r ≡ true
  header_ok-seen none rest h = absurd cc
  header_ok-seen (some (partial, b, f)) rest h = absurd cc
  header_ok-seen (some (eof, b, f)) rest h = absurd cc
  header_ok-seen (some (full, b, f)) rest h =
      let same : b ≡ encode_segment_header = cc in
      let valid : validate_segment_header encode_segment_header ≡ none =
        ap validate_segment_header (sym (append-nil encode_segment_header))
        ∙ (validate-encode_segment_header [] 0).0 in
      rw (same, valid) refl

  header_ok-encode :
      (calls : List ReadCall) (rest : List ℕ)
      → All NotFailed calls
      → header_ok hash
          (read_full_or_eof (record { rest = encode_segment_header ++ rest; calls = calls }) 16)
        ≡ true
  header_ok-encode calls rest calm = header_ok-seen _ rest (
      read_full_whole (record { rest = encode_segment_header ++ rest; calls = calls }) 16 calm
      ∙ ap seen (read_exactly hash encode_segment_header rest 16 length-encode_segment_header))

  -- A segment as a crash leaves it: whole frames, and bytes behind them that hold no whole frame.
  pub record Left : Type 0 where
    pub seq : ℕ
    pub frames : List DecodedFrame
    pub tail : List ℕ
    pub storable : All (IsStorable hash) frames
    pub stops : StopsAt hash tail

  abbrev pub group_of : Left → Group
  group_of c = record { seq = c.seq; frames = c.frames }

  abbrev pub file_of : Left → List ℕ
  file_of c = encode_segment_header ++ (encode_all hash c.frames ++ c.tail)

  -- The scan after one such segment: its whole frames are kept and the rest is cut off.
  pub record Scanned (c : Left) (s : Scan) (r : Bool × Scan) : Type 0 where
    pub fine : r.0 ≡ true
    pub segments : r.1.segments ≡ s.segments ++ meta_of hash (group_of c) ∷ []
    pub total : r.1.total_bytes ≡ s.total_bytes + bytes_of hash (group_of c)
    pub batch : r.1.next_batch_seq ≡ after_frames c.frames s.next_batch_seq
    pub top : r.1.max_seq ≡ max s.max_seq c.seq
    pub cut : r.1.disk c.seq ≡ some (encode_segment_header ++ encode_all hash c.frames)
    pub others : (j : ℕ) → (c.seq == j) ≡ false → r.1.disk j ≡ s.disk j

  walked-Left :
      (c : Left) (os : Inspection) (batch : ℕ)
      → IsSound os
      → walk_frames hash
          (suc (length (file_of c)))
          os.frame_calls
          (file_of c)
          segment_header_len
          0
          batch
        ≡ walked (bytes_of hash (group_of c)) (length c.frames) (after_frames c.frames batch)
  walked-Left c os batch sound =
      let enough : length c.frames < suc (length (file_of c)) = omega (
        arith,
        length-encode_all hash c.frames,
        length-append (encode_all hash c.frames) c.tail,
        length-append encode_segment_header (encode_all hash c.frames ++ c.tail),
      ) in
      let walk =
        walk_frames-lem hash (suc (length (file_of c))) os.frame_calls (file_of c)
          encode_segment_header c.tail c.frames 0 batch sound.frame_reads c.storable c.stops refl
          enough in
      let zero_plus : 0 + length c.frames ≡ length c.frames = omega arith in
      rw (length-encode_segment_header, zero_plus) at walk

  kept_bytes :
      (c : Left)
      → take (bytes_of hash (group_of c)) (file_of c)
        ≡ encode_segment_header ++ encode_all hash c.frames
  kept_bytes c =
      ap (take (bytes_of hash (group_of c)))
        (sym (append_assoc encode_segment_header (encode_all hash c.frames) c.tail))
      ∙ take-append (encode_segment_header ++ encode_all hash c.frames) c.tail
          (bytes_of hash (group_of c))
          (omega (
            arith,
            length-encode_segment_header,
            length-append encode_segment_header (encode_all hash c.frames),
          ))

  cut_disk :
      (c : Left) (disk : Disk)
      → disk c.seq ≡ some (file_of c)
      → let disk' =
          if ltb (bytes_of hash (group_of c)) (length (file_of c)) && true
          then with_file disk c.seq (some (take (bytes_of hash (group_of c)) (file_of c)))
          else disk in
        (disk' c.seq ≡ some (encode_segment_header ++ encode_all hash c.frames))
        × ((j : ℕ) → (c.seq == j) ≡ false → disk' j ≡ disk j)
  cut_disk c disk file =
      let same : (c.seq == c.seq) ≡ true = ground arith in
      if_elim
        (λ (d : Disk).
          (d c.seq ≡ some (encode_segment_header ++ encode_all hash c.frames))
          × ((j : ℕ) → (c.seq == j) ≡ false → d j ≡ disk j))
        (ltb (bytes_of hash (group_of c)) (length (file_of c)) && true)
        (with_file disk c.seq (some (take (bytes_of hash (group_of c)) (file_of c)))) disk
        (λ _. (rw same (ap (λ b. some b) (kept_bytes c)), λ j o. rw o refl))
        (λ off.
          let short : length (file_of c) ≤ bytes_of hash (group_of c) = ground arith in
          (
            file
                ∙ ap (λ b. some b)
                    (sym (take_all (bytes_of hash (group_of c)) (file_of c) short) ∙ kept_bytes c),
            λ j o. refl,
          ))

  pub scan_segment-Scanned :
      (os : ℕ → Inspection) (c : Left) (s : Scan)
      → IsSound (os c.seq)
      → s.disk c.seq ≡ some (file_of c)
      → Scanned c s (scan_segment hash os c.seq s)
  unfolding scan_segment
  scan_segment-Scanned os c s sound file =
      let header =
        header_ok-encode (os c.seq).header_calls (encode_all hash c.frames ++ c.tail)
          sound.header_reads in
      let cut = cut_disk c s.disk file in
      simp
        (
          sound.opens,
          file,
          header,
          walked-Left c (os c.seq) s.next_batch_seq sound,
          sound.measures,
          sound.truncates,
        )
        (record {
          fine = refl;
          segments = refl;
          total = refl;
          batch = refl;
          top = refl;
          cut = cut.0;
          others = cut.1;
        })
