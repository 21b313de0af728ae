-- ===== src/Wal/Recovery/Frames.antt =====
-- The walk of statix/src/wal/recovery.rs over the frames of one file.
use statix.Prelude.{
  ℕ, zero, suc, ◌+◌, ◌%◌, ◌^◌, ◌≤◌, ◌<◌, ◌≡◌, refl, ap, sym, ◌∙◌, ◌⊎◌, inl, inr, max, some, List,
  [], ◌∷◌, ◌++◌, length, All, take, drop-append, u64_mod, arith, append_assoc, length-append,
}
use statix.Wal.Segment.{DecodedFrame, frame_len_on_disk, frame, end, corrupt, read_frame_at}
use statix.Wal.Segment.Reading.{ReadCall}
use statix.Wal.Segment.Reading.ShortReads.{NotFailed}
use statix.Wal.Segment.Whole.{read_frame_at_whole}
use statix.Wal.Segment.RoundTrip.{
  encode_frame, read_frame_at-encode, length-encode_frame, IsFrameable,
}
use statix.Wal.Segment.Torn.{read_frame_at_torn, torn_header}
use statix.Wal.Recovery.{walked, walk_frames, walk_after}
use statix.Wal.Store.Layout.{encode_all, IsStorable}

-- The next batch number after frames have been seen.
abbrev pub after_frames : List DecodedFrame → ℕ → ℕ
after_frames [] b = b
after_frames (f ∷ fs) b = after_frames fs (max b ((f.batch_seq + 1) % u64_mod))

pub after_frames-fits : (fs : List DecodedFrame) (b : ℕ) → b < 2 ^ 64 → after_frames fs b < 2 ^ 64
after_frames-fits [] b h = h
after_frames-fits (f ∷ fs) b h = after_frames-fits fs _ (omega arith)

module _ (hash : List ℕ → ℕ) where
  -- Bytes that do not start with a whole frame: none, the rest of a torn write, or damage.
  abbrev pub StopsAt : List ℕ → Type 0
  StopsAt tail =
      (before : List ℕ)
      → (read_frame_at hash [] (before ++ tail) (length before) ≡ some end)
        ⊎ (read_frame_at hash [] (before ++ tail) (length before) ≡ some corrupt)

  pub walk_frames-lem :
      (fuel : ℕ) (calls : ℕ → List ReadCall) (content before tail : List ℕ) (fs : List DecodedFrame)
      (frames batch : ℕ)
      → ((n : ℕ) → All NotFailed (calls n))
      → All (IsStorable hash) fs
      → StopsAt tail
      → content ≡ before ++ (encode_all hash fs ++ tail)
      → length fs < fuel
      → walk_frames hash fuel calls content (length before) frames batch
        ≡ walked
            (length before + length (encode_all hash fs))
            (frames + length fs)
            (after_frames fs batch)
  unfolding walk_frames
  walk_frames-lem zero calls content before tail fs frames batch calm ok stop e h =
      absurd (omega arith)
  walk_frames-lem (suc fuel) calls content before tail [] frames batch calm ok stop e h =
      let whole =
        read_frame_at_whole hash (calls (length before)) content (length before) (calm _) in
      by_stop (stop before) whole
    where
      by_stop :
          (read_frame_at hash [] (before ++ tail) (length before) ≡ some end)
            ⊎ (read_frame_at hash [] (before ++ tail) (length before) ≡ some corrupt)
          → read_frame_at hash (calls (length before)) content (length before)
            ≡ read_frame_at hash [] content (length before)
          → walk_after hash
              (read_frame_at hash (calls (length before)) content (length before))
              (length before)
              frames
              batch
              (λ next batch'. walk_frames hash fuel calls content next (frames + 1) batch')
            ≡ walked (length before + 0) (frames + 0) batch
      by_stop (inl s) whole =
          let z : length before + 0 ≡ length before = omega arith in
          let y : frames + 0 ≡ frames = omega arith in
          rw (whole ∙ (ap (λ c. read_frame_at hash [] c (length before)) e ∙ s), z, y) refl
      by_stop (inr s) whole =
          let z : length before + 0 ≡ length before = omega arith in
          let y : frames + 0 ≡ frames = omega arith in
          rw (whole ∙ (ap (λ c. read_frame_at hash [] c (length before)) e ∙ s), z, y) refl
  walk_frames-lem (suc fuel) calls content before tail (f ∷ fs) frames batch calm ok stop e h =
      let rest = encode_all hash fs ++ tail in
      let e1 : content ≡ before ++ (encode_frame hash f ++ rest) =
        e ∙ ap (λ c. before ++ c) (append_assoc (encode_frame hash f) (encode_all hash fs) tail) in
      let read : read_frame_at hash (calls (length before)) content (length before)
          ≡ some (frame f (length before + frame_len_on_disk (length f.payload))) =
        ap (λ c. read_frame_at hash (calls (length before)) c (length before)) e1
        ∙ read_frame_at-encode hash (calls (length before)) f before rest (calm (length before))
            (ok.0).frameable (ok.0).seq_fits (ok.0).crc_fits in
      let next : length (before ++ encode_frame hash f)
          ≡ length before + frame_len_on_disk (length f.payload) =
        omega (arith, length-append before (encode_frame hash f), length-encode_frame hash f) in
      let again =
        walk_frames-lem fuel calls content (before ++ encode_frame hash f) tail fs (frames + 1)
          (max batch ((f.batch_seq + 1) % u64_mod)) calm ok.1 stop
          (e1 ∙ sym (append_assoc before (encode_frame hash f) rest)) (omega arith) in
      let bytes : length before + length (encode_frame hash f ++ encode_all hash fs)
          ≡ length (before ++ encode_frame hash f) + length (encode_all hash fs) =
        omega (
          arith,
          length-append before (encode_frame hash f),
          length-append (encode_frame hash f) (encode_all hash fs),
        ) in
      let count : frames + suc (length fs) ≡ frames + 1 + length fs = omega arith in
      rw (read, ← next, bytes, count) again

  pub length-encode_all : (fs : List DecodedFrame) → length fs ≤ length (encode_all hash fs)
  unfolding frame_len_on_disk
  length-encode_all [] = omega arith
  length-encode_all (f ∷ fs) = omega (
    arith,
    length-encode_all fs,
    length-append (encode_frame hash f) (encode_all hash fs),
    length-encode_frame hash f,
  )

  -- A file whose last frame was torn anywhere, and one that ends with a frame.
  pub StopsAt-torn :
      (f : DecodedFrame) (k : ℕ)
      → IsFrameable f.payload
      → hash f.payload < 2 ^ 32
      → k < length (encode_frame hash f)
      → StopsAt (take k (encode_frame hash f))
  StopsAt-torn f k ok crc h before = inl (read_frame_at_torn hash [] f before k tt ok crc h)

  pub StopsAt-nil : StopsAt []
  StopsAt-nil before = inl (
      torn_header hash (before ++ []) (length before)
        (rw (drop-append before [] (length before) refl) (omega arith)))
