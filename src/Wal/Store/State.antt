-- ===== src/Wal/Store/State.antt =====
-- The state of `WalInner` in statix/src/wal/mod.rs, its files, and what the system does on calls.
use statix.Prelude.{
  ℕ, ◌+◌, ◌-◌, Bool, true, false, Option, none, some, List, [], ◌++◌, length, take, drop, replicate,
  ◌==◌, if◌then◌else◌,
}
use statix.Wal.Segment.Reading.{ReadCall}

pub record WalConfig : Type 0 where
  pub enabled : Bool
  pub max_bytes : ℕ
  pub segment_bytes : ℕ
  pub fsync_frames : ℕ
  pub fsync_interval : ℕ

pub record SegmentMeta : Type 0 where
  pub seq : ℕ
  pub bytes : ℕ
  pub frames : ℕ

-- `position` is where the next write to `file` goes.
pub record ActiveSegment : Type 0 where
  pub seq : ℕ
  pub position : ℕ
  pub offset : ℕ

-- The files of the directory: their contents by sequence number.
abbrev pub Disk : Type 0
Disk = ℕ → Option (List ℕ)

abbrev pub with_file : Disk → ℕ → Option (List ℕ) → Disk
with_file d seq content j = if seq == j then content else d j

pub record Metrics : Type 0 where
  pub frames_written : ℕ
  pub frames_replayed : ℕ
  pub dropped_batches : ℕ
  pub dropped_bytes : ℕ

pub record WalInner : Type 0 where
  pub cfg : WalConfig
  pub segments : List SegmentMeta
  pub active : Option ActiveSegment
  pub total_bytes : ℕ
  pub next_seq : ℕ
  pub next_batch_seq : ℕ
  pub read_seq : ℕ
  pub read_offset : ℕ
  pub pending_advance : Option ℕ
  pub disk : Disk
  pub metrics : Metrics

-- `write_all`: all bytes, or an error after the first n.
pub data Write : Type 0 where
  complete : Write
  torn : ℕ → Write

-- What the system does on the calls of one `append` and of the repair after it.
pub record Os : Type 0 where
  pub create_dir_ok : Bool
  pub open_ok : Bool
  pub segment_header : Write
  pub frame_header : Write
  pub frame_payload : Write
  pub set_len_ok : Bool
  pub seek_ok : Bool

-- What the system does when the drainer opens and reads a segment.
pub record Attempt : Type 0 where
  pub open_ok : Bool
  pub calls : List ReadCall

-- `Ok(())`, an `io::Error`, or the panic of an `expect`.
pub data Outcome : Type 0 where
  done io_error panicked : Outcome

-- Bytes written at a position over what stands there; a gap is filled with zeros.
unfoldable pub overwrite : List ℕ → ℕ → List ℕ → List ℕ
overwrite content position bytes =
    take position content
    ++ (replicate (position - length content) 0
        ++ (bytes ++ drop (position + length bytes) content))

abbrev pub written : Write → List ℕ → List ℕ
written complete bytes = bytes
written (torn n) bytes = take n bytes

abbrev pub succeeds : Write → Bool
succeeds complete = true
succeeds (torn n) = false

abbrev pub contents : Option (List ℕ) → List ℕ
contents none = []
contents (some content) = content
