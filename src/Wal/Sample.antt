-- ===== src/Wal/Sample.antt =====
-- A small log for the examples: one segment with two frames of which the first has been peeked at,
-- and a checksum that is the length.
use statix.Prelude.{
  ℕ, ◌+◌, ◌≡◌, refl, inr, true, none, some, List, [], ◌∷◌, ◌++◌, length, arith, nat_eq,
}
use statix.Wal.Circuit.{is_closed, Circuit, circuit_state}
use statix.Wal.Segment.{DecodedFrame, encode_segment_header, frame_len_on_disk}
use statix.Wal.Segment.Reading.{chunk, interrupted}
use statix.Wal.Store.{WalConfig, with_file, WalInner, complete, torn, Os, Attempt, no_metrics}
use statix.Wal.Store.Layout.{Group, encode_all, IsStorable, Represents, bytes_of}
use statix.Wal.Store.Rotate.{CanRotate, IsCalm}
use statix.Wal.Store.Repair.{IsTorn}
use statix.Wal.Store.Reads.{IsReadable}
use statix.Wal.Drainer.{Drain}

abbrev pub crc : List ℕ → ℕ
crc bytes = length bytes

abbrev pub first_frame : DecodedFrame
first_frame = record { batch_seq = 7; payload = 1 ∷ 2 ∷ 3 ∷ [] }

abbrev pub second_frame : DecodedFrame
second_frame = record { batch_seq = 8; payload = 4 ∷ 5 ∷ [] }

abbrev pub cfg : WalConfig
cfg = record {
  enabled = true;
  max_bytes = 1000;
  segment_bytes = 60;
  fsync_frames = 2;
  fsync_interval = 1;
}

abbrev pub group : Group
group = record { seq = 3; frames = first_frame ∷ second_frame ∷ [] }

-- The cursor stands before the first frame, which has been peeked at.
abbrev pub log : WalInner
log = record {
  cfg = cfg;
  segments = record { seq = 3; bytes = bytes_of crc group; frames = 2 } ∷ [];
  active = some (record { seq = 3; position = bytes_of crc group; offset = bytes_of crc group });
  total_bytes = bytes_of crc group;
  next_seq = 4;
  next_batch_seq = 9;
  read_seq = 3;
  read_offset = 16;
  pending_advance = some (16 + frame_len_on_disk 3);
  disk = with_file (λ _. none) 3 (some (encode_segment_header ++ encode_all crc group.frames));
  metrics = no_metrics;
}

pub first_frame-IsStorable : IsStorable crc first_frame
first_frame-IsStorable = record {
  frameable = record { some_bytes = omega arith; fits = omega arith };
  seq_fits = omega arith;
  crc_fits = omega arith;
}

pub second_frame-IsStorable : IsStorable crc second_frame
second_frame-IsStorable = record {
  frameable = record { some_bytes = omega arith; fits = omega arith };
  seq_fits = omega arith;
  crc_fits = omega arith;
}

pub log-Represents : Represents crc log (first_frame ∷ second_frame ∷ [])
log-Represents = (
  group ∷ [],
  record {
    segments = refl;
    chain = (
      record {
        content = refl;
        storable = (first_frame-IsStorable, (second_frame-IsStorable, tt));
        known = omega arith;
      },
      (tt, tt),
    );
    total = omega arith;
    active = (refl, (refl, refl));
    batch_fits = omega arith;
    cursor = inr (record {
      past = [];
      rest = first_frame ∷ second_frame ∷ [];
      on_front = refl;
      split = refl;
      reached = omega arith;
      pending_ok = refl;
      queue = refl;
    });
  },
)

abbrev pub third_frame : DecodedFrame
third_frame = record { batch_seq = 9; payload = 6 ∷ [] }

abbrev second_group : Group
second_group = record { seq = 4; frames = third_frame ∷ [] }

-- As `log`, with a second segment.
abbrev pub longer_log : WalInner
longer_log = record log {
  segments = log.segments ++ record { seq = 4; bytes = bytes_of crc second_group; frames = 1 } ∷ [];
  active = some (record {
    seq = 4;
    position = bytes_of crc second_group;
    offset = bytes_of crc second_group;
  });
  total_bytes = bytes_of crc group + bytes_of crc second_group;
  next_seq = 5;
  next_batch_seq = 10;
  disk = with_file log.disk 4 (some (encode_segment_header ++ encode_all crc second_group.frames));
}

pub longer_log-Represents :
    Represents crc longer_log (first_frame ∷ second_frame ∷ third_frame ∷ [])
longer_log-Represents = (
  group ∷ second_group ∷ [],
  record {
    segments = refl;
    chain = (
      record {
        content = refl;
        storable = (first_frame-IsStorable, (second_frame-IsStorable, tt));
        known = omega arith;
      },
      (
        (omega arith, tt),
        (
          record {
            content = refl;
            storable = (
              record {
                frameable = record { some_bytes = omega arith; fits = omega arith };
                seq_fits = omega arith;
                crc_fits = omega arith;
              },
              tt,
            );
            known = omega arith;
          },
          (tt, tt),
        ),
      ),
    );
    total = omega arith;
    active = (refl, (refl, refl));
    batch_fits = omega arith;
    cursor = inr (record {
      past = [];
      rest = first_frame ∷ second_frame ∷ [];
      on_front = refl;
      split = refl;
      reached = omega arith;
      pending_ok = refl;
      queue = refl;
    });
  },
)

abbrev pub calm : Os
calm = record {
  create_dir_ok = true;
  open_ok = true;
  segment_header = complete;
  frame_header = complete;
  frame_payload = complete;
  set_len_ok = true;
  seek_ok = true;
}

pub can_rotate : CanRotate calm
can_rotate = record { created = refl; opened = refl; headed = refl }

pub calm-IsCalm : IsCalm calm
calm-IsCalm = record { rotates = can_rotate; framed = refl; filled = refl }

-- The payload is cut after two bytes.
abbrev pub cut_short : Os
cut_short = record calm { frame_payload = torn 2 }

pub cut_short-IsTorn : IsTorn cut_short
cut_short-IsTorn = record { fails = refl; cuts = refl; seeks = refl }

-- Every file opens; the first read is interrupted and the second is short.
abbrev pub slow : ℕ → Attempt
slow _ = record { open_ok = true; calls = interrupted ∷ chunk 4 ∷ [] }

pub slow-IsReadable : (s : ℕ) → IsReadable (slow s)
slow-IsReadable s = record { opens = refl; reads = (tt, (tt, tt)) }

abbrev pub healthy : Circuit
healthy = record { circuit = 0; consecutive_failures = 0 }

-- Room for one more payload.
abbrev pub drain : Drain
drain = record {
  wal = log;
  queue = record { items = (9 ∷ []) ∷ []; capacity = 2; is_open = true };
  circuit = healthy;
}

pub healthy-closed : is_closed (circuit_state healthy) ≡ true
unfolding circuit_state
healthy-closed = refl
