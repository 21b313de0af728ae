-- ===== src/Wal/Segment.antt =====
-- The on-disk codec of statix/src/wal/segment.rs. Bytes are numbers below 256. The checksum
-- `crc32fast::hash` is a parameter.
pub mod Bytes
pub mod Reading
pub mod Whole
pub mod RoundTrip
pub mod Torn
pub mod Names
use statix.Prelude.{
  ℕ, zero, suc, ◌+◌, ◌*◌, ◌≡◌, Bool, true, false, not, ◌&&◌, ◌||◌, Option, none, some, List, [],
  ◌∷◌, ◌++◌, length, take, drop, ltb, leb, ◌==◌, if◌then◌else◌,
}
use Bytes.{to_le_bytes, from_le_bytes}
use statix.Prelude.Text.{bytes_eq}
use Reading.{ReadCall, ReadStatus, full, partial, eof, File, read_full_or_eof}

abbrev pub segment_magic : List ℕ
segment_magic = b'S' ∷ b'T' ∷ b'A' ∷ b'T' ∷ b'X' ∷ b'W' ∷ b'A' ∷ b'L' ∷ []

abbrev pub format_version : ℕ
format_version = 1

abbrev pub segment_header_len : ℕ
segment_header_len = 16

abbrev pub frame_header_len : ℕ
frame_header_len = 16

abbrev pub max_frame_payload : ℕ
max_frame_payload = 16 * 1024 * 1024

unfoldable pub encode_segment_header : List ℕ
unfolding to_le_bytes
encode_segment_header = segment_magic ++ (to_le_bytes 4 format_version ++ 0 ∷ 0 ∷ 0 ∷ 0 ∷ [])

pub data HeaderError : Type 0 where
  truncated bad_magic : HeaderError
  unsupported_version : ℕ → HeaderError

-- `none` is `Ok(())`.
unfoldable pub validate_segment_header : List ℕ → Option HeaderError
unfolding from_le_bytes bytes_eq
validate_segment_header buf =
    if ltb (length buf) segment_header_len
    then some truncated
    else if not (bytes_eq (take 8 buf) segment_magic)
    then some bad_magic
    else let version = from_le_bytes (take 4 (drop 8 buf)) in
      if version == format_version then none else some (unsupported_version version)

unfoldable pub frame_len_on_disk : ℕ → ℕ
frame_len_on_disk payload_len = frame_header_len + payload_len

pub record DecodedFrame : Type 0 where
  pub batch_seq : ℕ
  pub payload : List ℕ

pub data FrameRead : Type 0 where
  frame : DecodedFrame → ℕ → FrameRead
  end : FrameRead
  corrupt : FrameRead

module _ (hash : List ℕ → ℕ) where
  -- `payload.len() as u32` cuts the length to 32 bits, which the four bytes do here.
  unfoldable pub encode_frame_header : List ℕ → ℕ → List ℕ
  unfolding to_le_bytes
  encode_frame_header payload batch_seq =
      to_le_bytes 4 (length payload) ++ (to_le_bytes 4 (hash payload) ++ to_le_bytes 8 batch_seq)

  abbrev read_payload : ℕ → ℕ → ℕ → ℕ → Option (ReadStatus × List ℕ × File) → Option FrameRead
  read_payload offset payload_len crc batch_seq none = none
  read_payload offset payload_len crc batch_seq (some (full, payload, f)) =
      if not (hash payload == crc)
      then some corrupt
      else some (
          frame (record { batch_seq = batch_seq; payload = payload })
            (offset + frame_len_on_disk payload_len))
  read_payload offset payload_len crc batch_seq (some (_, payload, f)) = some end

  abbrev read_header : ℕ → Option (ReadStatus × List ℕ × File) → Option FrameRead
  read_header offset none = none
  read_header offset (some (full, header, f)) =
      let payload_len = from_le_bytes (take 4 header) in
      let crc_expected = from_le_bytes (take 4 (drop 4 header)) in
      let batch_seq = from_le_bytes (take 8 (drop 8 header)) in
      if payload_len == 0 || ltb max_frame_payload payload_len
      then some corrupt
      else read_payload offset payload_len crc_expected batch_seq (read_full_or_eof f payload_len)
  read_header offset (some (_, header, f)) = some end

  -- `calls` is what the system does on the reads to come, and `none` an `io::Error`.
  unfoldable pub read_frame_at : List ReadCall → List ℕ → ℕ → Option FrameRead
  read_frame_at calls content offset =
      read_header offset
        (read_full_or_eof (record { rest = drop offset content; calls = calls }) frame_header_len)
