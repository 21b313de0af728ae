-- ===== src/Wal/CodecExamples.antt =====
-- The theorems on frames, file names and the circuit, applied.
use statix.Prelude.{
  ℕ, ◌+◌, ◌<◌, ◌≡◌, some, List, [], ◌∷◌, ◌++◌, length, take, leb, if◌then◌else◌, arith, ◌%◌,
}
use statix.Wal.Circuit.{
  half_open, open_state, circuit_state, record_post_success, record_post_failure, try_half_open,
}
use statix.Wal.Circuit.Trips.{failures, trial_failure}
use statix.Wal.Segment.{
  frame, end, read_frame_at, encode_segment_header, encode_frame_header, frame_len_on_disk,
}
use statix.Wal.Segment.Reading.{ReadCall, chunk, interrupted}
use statix.Wal.Segment.Whole.{read_frame_at_whole}
use statix.Wal.Segment.RoundTrip.{encode_frame, read_frame_at-encode}
use statix.Wal.Segment.Torn.{read_frame_at_torn}
use statix.Wal.Sample.{crc, first_frame, first_frame-IsStorable, healthy}

-- One interrupted and one short read.
abbrev short_reads : List ReadCall
short_reads = interrupted ∷ chunk 4 ∷ []

read_frame_at-encode_example :
    read_frame_at crc short_reads
      (encode_segment_header ++ (encode_frame crc first_frame ++ 9 ∷ 9 ∷ []))
      (length encode_segment_header)
    ≡ some (frame first_frame (length encode_segment_header + frame_len_on_disk 3))
read_frame_at-encode_example =
    read_frame_at-encode crc short_reads first_frame encode_segment_header (9 ∷ 9 ∷ [])
      (tt, (tt, tt)) first_frame-IsStorable.frameable (omega arith) (omega arith)

frame_is_longer : 17 < length (encode_frame crc first_frame)
unfolding encode_frame_header
frame_is_longer = omega arith

read_frame_at_torn_example :
    read_frame_at crc short_reads
      (encode_segment_header ++ take 17 (encode_frame crc first_frame))
      (length encode_segment_header)
    ≡ some end
read_frame_at_torn_example =
    read_frame_at_torn crc short_reads first_frame encode_segment_header 17 (tt, (tt, tt))
      first_frame-IsStorable.frameable (omega arith) frame_is_longer

abbrev sum_crc : List ℕ → ℕ
sum_crc [] = 0
sum_crc (b ∷ bs) = b + sum_crc bs

read_frame_at_whole_example :
    read_frame_at crc short_reads (1 ∷ 2 ∷ 3 ∷ []) 1 ≡ read_frame_at crc [] (1 ∷ 2 ∷ 3 ∷ []) 1
read_frame_at_whole_example = read_frame_at_whole crc short_reads (1 ∷ 2 ∷ 3 ∷ []) 1 (tt, (tt, tt))

trial_failure_example :
    circuit_state (record_post_failure (try_half_open (failures 256 (record_post_success healthy))))
    ≡ (if leb 2 (256 % 256) then open_state else half_open)
trial_failure_example = trial_failure 256 healthy (omega arith)
