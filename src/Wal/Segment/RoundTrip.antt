-- ===== src/Wal/Segment/RoundTrip.antt =====
-- Reading back what was written: statix/src/wal/segment.rs.
use statix.Prelude.{
  ℕ, ◌+◌, ◌-◌, ◌^◌, ◌<◌, ◌≡◌, ◌≤◌, refl, sym, ◌∙◌, true, false, none, some, ◌≢◌, List, [], ◌∷◌,
  ◌++◌, length, take, drop, leb, ltb, ◌==◌, arith, append_assoc, All, length-append, take-append,
  drop-append,
}
use statix.Wal.Segment.{
  DecodedFrame, bad_magic, frame, read_frame_at, encode_frame_header, frame_len_on_disk,
  max_frame_payload, validate_segment_header, encode_segment_header,
}
use statix.Wal.Segment.Bytes.{from_le_bytes, from-to_le_bytes4, from-to_le_bytes8}
use statix.Wal.Segment.Reading.ShortReads.{NotFailed}
use statix.Wal.Segment.Whole.{read_frame_at_whole}
use statix.Wal.Segment.Reading.{full, ReadCall, read_full_or_eof}

-- Payloads that a frame can carry.
pub record IsFrameable (payload : List ℕ) : Type 0 where
  pub some_bytes : 0 < length payload
  pub fits : length payload ≤ max_frame_payload

module _ (hash : List ℕ → ℕ) where
  -- The bytes that `append` writes for a frame.
  abbrev pub encode_frame : DecodedFrame → List ℕ
  encode_frame f = encode_frame_header hash f.payload f.batch_seq ++ f.payload

  pub length-encode_frame_header :
      (f : DecodedFrame) → length (encode_frame_header hash f.payload f.batch_seq) ≡ 16
  unfolding encode_frame_header
  length-encode_frame_header f = omega arith

  pub length-encode_frame :
      (f : DecodedFrame) → length (encode_frame f) ≡ frame_len_on_disk (length f.payload)
  unfolding encode_frame_header frame_len_on_disk
  length-encode_frame f = omega arith

  module _ (f : DecodedFrame) where
    pub header_len :
        length f.payload ≤ max_frame_payload
        → from_le_bytes (take 4 (encode_frame_header hash f.payload f.batch_seq)) ≡ length f.payload
    unfolding encode_frame_header
    header_len h = from-to_le_bytes4 (length f.payload) (omega arith)

    pub header_crc :
        hash f.payload < 2 ^ 32
        → from_le_bytes (take 4 (drop 4 (encode_frame_header hash f.payload f.batch_seq)))
          ≡ hash f.payload
    unfolding encode_frame_header
    header_crc h = from-to_le_bytes4 (hash f.payload) h

    pub header_seq :
        f.batch_seq < 2 ^ 64
        → from_le_bytes (take 8 (drop 8 (encode_frame_header hash f.payload f.batch_seq)))
          ≡ f.batch_seq
    unfolding encode_frame_header
    header_seq h = from-to_le_bytes8 f.batch_seq h

    pub not_empty : 0 < length f.payload → (length f.payload == 0) ≡ false
    not_empty h = ground arith

    pub not_huge :
        length f.payload ≤ max_frame_payload → ltb max_frame_payload (length f.payload) ≡ false
    not_huge h = ground arith

    same_crc : (hash f.payload == hash f.payload) ≡ true
    same_crc = ground arith

  -- Reading all of `a` off the front of `a ++ b`.
  pub read_exactly :
      (a b : List ℕ) (n : ℕ)
      → length a ≡ n
      → read_full_or_eof (record { rest = a ++ b; calls = [] }) n
        ≡ some (full, a, record { rest = b; calls = [] })
  unfolding read_full_or_eof
  read_exactly a b n h =
      let e : n - 0 ≡ n = omega arith in
      let t : leb n (length (a ++ b)) ≡ true = ground (arith, length-append a b) in
      rw (e, t, take-append a b n (sym h), drop-append a b n (sym h))

  pub read_frame_at_lem :
      (f : DecodedFrame) (rest content : List ℕ) (offset : ℕ)
      → IsFrameable f.payload
      → f.batch_seq < 2 ^ 64
      → hash f.payload < 2 ^ 32
      → drop offset content ≡ encode_frame f ++ rest
      → read_frame_at hash [] content offset
        ≡ some (frame f (offset + frame_len_on_disk (length f.payload)))
  unfolding read_frame_at
  read_frame_at_lem f rest content offset ok sq crc e =
      rw (e, append_assoc)
        (rw
          (read_exactly (encode_frame_header hash f.payload f.batch_seq) (f.payload ++ rest) 16
            (length-encode_frame_header f))
          (rw (
            header_len f ok.fits,
            header_crc f crc,
            header_seq f sq,
            not_empty f ok.some_bytes,
            not_huge f ok.fits,
            read_exactly f.payload rest (length f.payload) refl,
            same_crc f,
          )))

  -- A frame of one to 16 MiB of payload, with a 64-bit sequence number, is read back as it was
  -- written, wherever it stands in the file and whatever follows it, with the offset just past
  -- it. The reads may be short or interrupted, but none may fail, and the checksum is 32 bits.
  pub read_frame_at-encode :
      (calls : List ReadCall) (f : DecodedFrame) (before rest : List ℕ)
      → All NotFailed calls
      → IsFrameable f.payload
      → f.batch_seq < 2 ^ 64
      → hash f.payload < 2 ^ 32
      → read_frame_at hash calls (before ++ (encode_frame f ++ rest)) (length before)
        ≡ some (frame f (length before + frame_len_on_disk (length f.payload)))
  read_frame_at-encode calls f before rest calm ok sq crc =
      read_frame_at_whole hash calls _ _ calm
      ∙ read_frame_at_lem f rest _ (length before) ok sq crc
          (drop-append before _ (length before) refl)

-- The segment header that is written is accepted, with whatever follows it, and one whose first
-- byte is another is refused as bad magic.
pub validate-encode_segment_header :
    (rest : List ℕ) (b : ℕ)
    → (validate_segment_header (encode_segment_header ++ rest) ≡ none)
      × (b ≢ b'S'
          → validate_segment_header (b ∷ drop 1 encode_segment_header ++ rest) ≡ some bad_magic)
unfolding validate_segment_header encode_segment_header
validate-encode_segment_header rest b = (ground arith, λ h. ground arith)
