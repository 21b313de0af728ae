-- ===== src/Wal/Store.antt =====
-- `WalInner` of statix/src/wal/mod.rs. The files under `cfg.dir` and the metric counters stand in
-- the same record, since its methods write both. A file is named by the sequence number of its
-- segment. What the system does on a call that may fail is an argument.
mod State
mod Writing
mod Replaying
pub mod Layout
pub mod WholeSegments
pub mod Cap
pub mod Reported
pub mod Rotate
pub mod Extend
pub mod FrameWrite
pub mod Room
pub mod FailedRotate
pub mod Append
pub mod Cursor
pub mod Repair
pub mod Tail
pub mod Reads
pub mod Commit
pub mod Backlog
use statix.Prelude.{
  ℕ, zero, suc, ◌+◌, ◌-◌, ◌%◌, ◌≡◌, max, Bool, true, false, not, ◌&&◌, ◌||◌, Option, none, some,
  List, [], ◌∷◌, ◌++◌, length, take, drop, replicate, any, is_empty, ltb, leb, ◌==◌, if◌then◌else◌,
  u64_mod,
}
use statix.Wal.Segment.{
  segment_header_len, encode_segment_header, encode_frame_header, frame_len_on_disk, DecodedFrame,
  FrameRead, frame, end, corrupt, read_frame_at,
}
use statix.Wal.Segment.Reading.{ReadCall}
unfoldable pub use State.*
unfoldable pub use Writing.*
unfoldable pub use Replaying.*

abbrev pub no_metrics : Metrics
no_metrics = record {
  frames_written = 0;
  frames_replayed = 0;
  dropped_batches = 0;
  dropped_bytes = 0;
}

unfoldable pub empty_inner : WalConfig → Disk → WalInner
empty_inner cfg disk = record {
  cfg = cfg;
  segments = [];
  active = none;
  total_bytes = 0;
  next_seq = 0;
  next_batch_seq = 0;
  read_seq = 0;
  read_offset = segment_header_len;
  pending_advance = none;
  disk = disk;
  metrics = no_metrics;
}

abbrev pub front_seq : ℕ → List SegmentMeta → ℕ
front_seq next_seq [] = next_seq
front_seq next_seq (m ∷ ms) = m.seq

unfoldable pub inner_from_recovered :
    WalConfig → List SegmentMeta → Option ActiveSegment → ℕ → ℕ → ℕ → Disk → WalInner
inner_from_recovered cfg segments active total_bytes next_seq next_batch_seq disk = record {
  cfg = cfg;
  segments = segments;
  active = active;
  total_bytes = total_bytes;
  next_seq = next_seq;
  next_batch_seq = next_batch_seq;
  read_seq = front_seq next_seq segments;
  read_offset = segment_header_len;
  pending_advance = none;
  disk = disk;
  metrics = no_metrics;
}
