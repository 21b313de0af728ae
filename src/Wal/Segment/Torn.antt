-- ===== src/Wal/Segment/Torn.antt =====
-- Torn and damaged frames: statix/src/wal/segment.rs.
use statix.Prelude.{
  ℕ, ◌-◌, ◌^◌, ◌<◌, ◌≤◌, ◌≡◌, ◌≢◌, refl, ◌∙◌, false, some, List, [], ◌∷◌, ◌++◌, length, take, drop,
  ltb, leb, ◌==◌, arith, All, length-append, length-take, take-append_ge, take_all, drop_all,
  drop-append, Bool-cases, ltb→lt, inl, inr,
}
use statix.Wal.Segment.{
  DecodedFrame, end, corrupt, read_frame_at, read_header, read_payload, encode_frame_header,
}
use statix.Wal.Segment.Bytes.{from_le_bytes}
use statix.Wal.Segment.Reading.{ReadCall, File, short_read, read_full_or_eof}
use statix.Wal.Segment.Reading.ShortReads.{NotFailed}
use statix.Wal.Segment.Whole.{read_frame_at_whole}
use statix.Wal.Segment.RoundTrip.{
  IsFrameable, encode_frame, length-encode_frame_header, read_exactly, header_len, header_crc,
  not_empty, not_huge,
}

-- Fewer bytes than asked for.
read_short :
    (a : List ℕ) (n : ℕ)
    → length a < n
    → read_full_or_eof (record { rest = a; calls = [] }) n
      ≡ some (short_read a, a, record { rest = []; calls = [] })
unfolding read_full_or_eof
read_short a n h =
    let e : n - 0 ≡ n = omega arith in
    let t : leb n (length a) ≡ false = ground arith in
    rw (e, t, take_all n a (omega arith), drop_all n a (omega arith))

module _ (hash : List ℕ → ℕ) where
  read_header_short :
      (a : List ℕ) (offset : ℕ) (f : File)
      → read_header hash offset (some (short_read a, a, f)) ≡ some end
  read_header_short [] offset f = refl
  read_header_short (b ∷ bs) offset f = refl

  pub torn_header :
      (content : List ℕ) (offset : ℕ)
      → length (drop offset content) < 16
      → read_frame_at hash [] content offset ≡ some end
  unfolding read_frame_at
  torn_header content offset h =
      rw (read_short (drop offset content) 16 h) (read_header_short (drop offset content) offset _)

  module _ (f : DecodedFrame) (ok : IsFrameable f.payload) (crc : hash f.payload < 2 ^ 32) where
    -- The header is whole and other bytes follow it.
    torn_payload :
        (content tail : List ℕ) (offset : ℕ)
        → drop offset content ≡ encode_frame_header hash f.payload f.batch_seq ++ tail
        → length tail < length f.payload
        → read_frame_at hash [] content offset ≡ some end
    unfolding read_frame_at
    torn_payload content tail offset e h = rw e (
        rw
          (read_exactly hash (encode_frame_header hash f.payload f.batch_seq) tail 16
            (length-encode_frame_header hash f))
          (rw
            (
              header_len hash f ok.fits,
              not_empty hash f ok.some_bytes,
              not_huge hash f ok.fits,
              read_short tail (length f.payload) h,
            )
            (short_payload tail)))
      where
        short_payload :
            (a : List ℕ)
            → read_payload hash offset
                (length f.payload)
                (from_le_bytes (take 4 (drop 4 (encode_frame_header hash f.payload f.batch_seq))))
                (from_le_bytes (take 8 (drop 8 (encode_frame_header hash f.payload f.batch_seq))))
                (some (short_read a, a, record { rest = []; calls = [] }))
              ≡ some end
        short_payload [] = refl
        short_payload (b ∷ bs) = refl

    -- Another payload of the same length behind the header.
    wrong_payload :
        (content other rest : List ℕ) (offset : ℕ)
        → drop offset content ≡ encode_frame_header hash f.payload f.batch_seq ++ (other ++ rest)
        → length other ≡ length f.payload
        → hash other ≢ hash f.payload
        → read_frame_at hash [] content offset ≡ some corrupt
    unfolding read_frame_at
    wrong_payload content other rest offset e h d =
        let t : (hash other == hash f.payload) ≡ false = ground arith in
        rw e (
          rw
            (read_exactly hash (encode_frame_header hash f.payload f.batch_seq) (other ++ rest) 16
              (length-encode_frame_header hash f))
            (rw (
              header_len hash f ok.fits,
              header_crc hash f crc,
              not_empty hash f ok.some_bytes,
              not_huge hash f ok.fits,
              read_exactly hash other rest (length f.payload) h,
              t,
            )))

  torn_frame :
      (f : DecodedFrame) (content : List ℕ) (offset k : ℕ)
      → IsFrameable f.payload
      → hash f.payload < 2 ^ 32
      → k < length (encode_frame hash f)
      → drop offset content ≡ take k (encode_frame hash f)
      → read_frame_at hash [] content offset ≡ some end
  torn_frame f content offset k ok crc h e = elim (Bool-cases (ltb k 16)) [
    | inl t ↦
        torn_header content offset
          (rw e (omega (arith, length-take k (encode_frame hash f), ltb→lt k 16 t)))
    | inr t ↦
        let header = encode_frame_header hash f.payload f.batch_seq in
        let l : length header ≡ 16 = length-encode_frame_header hash f in
        let j : 16 ≤ k = ground arith in
        torn_payload f ok crc content (take (k - length header) f.payload) offset
          (e ∙ take-append_ge header f.payload k (omega arith))
          (omega (arith, length-take (k - length header) f.payload, length-append header f.payload))
  ]

  -- A frame with a payload of 1 byte to 16 MiB that was cut at any point, as by a crash in the middle
  -- of the write, reads as the end of the data, wherever it stands and however the reads are cut
  -- or interrupted, as long as none fails.
  pub read_frame_at_torn :
      (calls : List ReadCall) (f : DecodedFrame) (before : List ℕ) (k : ℕ)
      → All NotFailed calls
      → IsFrameable f.payload
      → hash f.payload < 2 ^ 32
      → k < length (encode_frame hash f)
      → read_frame_at hash calls (before ++ take k (encode_frame hash f)) (length before) ≡ some end
  read_frame_at_torn calls f before k calm ok crc h =
      read_frame_at_whole hash calls _ _ calm
      ∙ torn_frame f _ (length before) k ok crc h (drop-append before _ (length before) refl)

  -- A payload of the same length with another checksum than the header's reads as corrupt.
  read_frame_at_damaged :
      (calls : List ReadCall) (f : DecodedFrame) (before other rest : List ℕ)
      → All NotFailed calls
      → IsFrameable f.payload
      → hash f.payload < 2 ^ 32
      → length other ≡ length f.payload
      → hash other ≢ hash f.payload
      → read_frame_at hash calls
          (before ++ (encode_frame_header hash f.payload f.batch_seq ++ (other ++ rest)))
          (length before)
        ≡ some corrupt
  read_frame_at_damaged calls f before other rest calm ok crc h d =
      read_frame_at_whole hash calls _ _ calm
      ∙ wrong_payload f ok crc _ other rest (length before)
          (drop-append before _ (length before) refl) h d
