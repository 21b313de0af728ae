-- ===== src/Wal/RecoveryExamples.antt =====
-- The theorems on the recovery and the writer thread, applied.
use statix.Prelude.{
  length, ◌<◌, take, ℕ, ◌≡◌, refl, inl, inr, true, false, Option, none, some, List, [], ◌∷◌, arith,
}
use statix.Prelude.Text.{strip_suffix, parse_u64}
use mathlib.Core.List.{Permᴰ}
use statix.Wal.Segment.{encode_frame_header}
use statix.Wal.Segment.RoundTrip.{encode_frame}
use statix.Wal.Segment.Names.{segment_path, parse_segment_seq, padded}
use statix.Wal.Store.{WalInner, Disk, with_file}
use statix.Wal.Store.Layout.{Represents}
use statix.Wal.Recovery.{Inspection, ok, recover, found_seqs}
use statix.Wal.Recovery.Frames.{StopsAt-nil, StopsAt-torn}
use statix.Wal.Recovery.Files.{IsSound, Left, file_of}
use statix.Wal.Recovery.Rebuild.{recover-Represents}
use statix.Wal.Writer.{Received, group_commit}
use statix.Wal.Writer.Held.{Holds, HoldsAt, Decided}
use statix.Wal.Writer.Log.{group_commit-Holds}
use statix.Wal.Sample.{
  crc, cfg, first_frame, second_frame, first_frame-IsStorable, second_frame-IsStorable, log,
  log-Represents, calm, calm-IsCalm, cut_short, cut_short-IsTorn,
}

abbrev whole : Left crc
whole = record {
  seq = 2;
  frames = first_frame ∷ second_frame ∷ [];
  tail = [];
  storable = (first_frame-IsStorable, (second_frame-IsStorable, tt));
  stops = StopsAt-nil crc;
}

frame_is_longer : 17 < length (encode_frame crc first_frame)
unfolding encode_frame_header
frame_is_longer = omega arith

-- The last write was cut after 17 bytes.
abbrev cut : Left crc
cut = record {
  seq = 5;
  frames = second_frame ∷ [];
  tail = take 17 (encode_frame crc first_frame);
  storable = (second_frame-IsStorable, tt);
  stops =
      StopsAt-torn crc first_frame 17 first_frame-IsStorable.frameable (omega arith)
        frame_is_longer;
}

abbrev sound : ℕ → Inspection
sound _ = record {
  open_ok = true;
  header_calls = [];
  frame_calls = λ _. [];
  metadata_ok = true;
  truncate_ok = true;
}

sound-IsSound : (n : ℕ) → IsSound (sound n)
sound-IsSound n = record {
  opens = refl;
  header_reads = tt;
  frame_reads = λ _. tt;
  measures = refl;
  truncates = refl;
}

abbrev disk : Disk
disk = with_file (with_file (λ _. none) 2 (some (file_of crc whole))) 5 (some (file_of crc cut))

-- A file of another kind, and one whose name is no text.
abbrev entries : List (Option (List ℕ))
entries = some (segment_path 5) ∷ some (1 ∷ 2 ∷ []) ∷ none ∷ some (segment_path 2) ∷ []

entries_found : found_seqs entries ≡ 5 ∷ 2 ∷ []
unfolding found_seqs parse_segment_seq segment_path strip_suffix parse_u64 padded
entries_found = refl

entries_listed : Permᴰ (found_seqs entries) (2 ∷ 5 ∷ [])
entries_listed = rw entries_found (Permᴰ.swap refl refl)

recover-Represents_example :
    (w : WalInner) × ((recover crc cfg
          (record { exists = true; entries = some entries; disk = disk })
          sound
          true
        ≡ ok w)
      × Represents crc w (first_frame ∷ second_frame ∷ second_frame ∷ []))
recover-Represents_example =
    recover-Represents crc cfg disk entries sound (whole ∷ cut ∷ []) sound-IsSound
      (refl, ((omega arith, tt), (refl, (tt, tt)))) (omega arith, (omega arith, tt)) entries_listed

abbrev received : List ℕ → Received
received payload = record { payload = payload; os = calm; interval_elapsed = false }

-- The second write fails.
abbrev torn_write : Received
torn_write = record { payload = 8 ∷ []; os = cut_short; interval_elapsed = true }

abbrev decided : Decided crc (received (6 ∷ []) ∷ torn_write ∷ received (7 ∷ []) ∷ [])
decided = (
  inl (record {
    calm = calm-IsCalm;
    frameable = record { some_bytes = omega arith; fits = omega arith };
    crc_fits = omega arith;
  }),
  (
    inr cut_short-IsTorn,
    (
      inl (record {
        calm = calm-IsCalm;
        frameable = record { some_bytes = omega arith; fits = omega arith };
        crc_fits = omega arith;
      }),
      tt,
    ),
  ),
)

log-Holds : Holds crc 0 log ((1 ∷ 2 ∷ 3 ∷ []) ∷ (4 ∷ 5 ∷ []) ∷ [])
log-Holds = record {
  gone = [];
  kept = first_frame ∷ second_frame ∷ [];
  split = refl;
  grown = omega arith;
  reported = inl refl;
  represents = log-Represents;
}

group_commit-Holds_example :
    HoldsAt crc 0
      (group_commit crc (received (6 ∷ [])) (torn_write ∷ received (7 ∷ []) ∷ []) log)
      ((1 ∷ 2 ∷ 3 ∷ []) ∷ (4 ∷ 5 ∷ []) ∷ (6 ∷ []) ∷ (7 ∷ []) ∷ [])
      1
group_commit-Holds_example =
    group_commit-Holds crc 0 (received (6 ∷ [])) (torn_write ∷ received (7 ∷ []) ∷ []) log
      ((1 ∷ 2 ∷ 3 ∷ []) ∷ (4 ∷ 5 ∷ []) ∷ []) decided log-Holds
