-- ===== src/Wal/Recovery.antt =====
-- `recover` of statix/src/wal/recovery.rs. The directory is its listing and its `Disk`; what the
-- system does on each segment is an argument.
pub mod Frames
pub mod Files
pub mod Scanning
pub mod Order
pub mod Rebuild
use statix.Prelude.{
  ℕ, zero, suc, ◌+◌, ◌%◌, ◌≡◌, max, Bool, true, false, not, ◌&&◌, Option, none, some, List, [], ◌∷◌,
  ◌++◌, length, take, last?, ltb, leb, if◌then◌else◌, u64_mod, is_empty,
}
use statix.Prelude.Map.{is_some}
use statix.Wal.Segment.{
  segment_header_len, validate_segment_header, DecodedFrame, FrameRead, frame, end, corrupt,
  read_frame_at,
}
use statix.Wal.Segment.Reading.{ReadCall, ReadStatus, full, File, read_full_or_eof}
use statix.Wal.Segment.Names.{parse_segment_seq}
use statix.Wal.Store.{
  WalConfig, SegmentMeta, ActiveSegment, Disk, with_file, contents, WalInner, empty_inner,
  inner_from_recovered,
}

-- What the system does with one segment: `frame_calls` is by offset.
pub record Inspection : Type 0 where
  pub open_ok : Bool
  pub header_calls : List ReadCall
  pub frame_calls : ℕ → List ReadCall
  pub metadata_ok : Bool
  pub truncate_ok : Bool

-- The listing, with `none` for a name that is not UTF-8; `none` for an error of `read_dir`.
pub record Directory : Type 0 where
  pub exists : Bool
  pub entries : Option (List (Option (List ℕ)))
  pub disk : Disk

-- The names that parse, in the order of the listing.
unfoldable pub found_seqs : List (Option (List ℕ)) → List ℕ
found_seqs [] = []
found_seqs (none ∷ es) = found_seqs es
found_seqs (some name ∷ es) =
    let rest = found_seqs es in
    elim (parse_segment_seq name) [ none ↦ rest | some seq ↦ seq ∷ rest ]

-- `sort_unstable` on numbers.
unfoldable pub insert_sorted : ℕ → List ℕ → List ℕ
insert_sorted n [] = n ∷ []
insert_sorted n (m ∷ ms) = if leb n m then n ∷ m ∷ ms else m ∷ insert_sorted n ms

unfoldable pub sort_unstable : List ℕ → List ℕ
unfolding insert_sorted
sort_unstable [] = []
sort_unstable (n ∷ ns) = insert_sorted n (sort_unstable ns)

-- The walk over the frames of one file: the offset after the last whole one, their number, and
-- the next batch number. `failed` is an `io::Error`, `stuck` is out of fuel.
pub data Walk : Type 0 where
  walked : ℕ → ℕ → ℕ → Walk
  failed stuck : Walk

-- The variables of the loop over the segments.
pub record Scan : Type 0 where
  pub segments : List SegmentMeta
  pub total_bytes : ℕ
  pub next_batch_seq : ℕ
  pub max_seq : ℕ
  pub disk : Disk
  pub corrupt_frames : ℕ

pub data Recovered : Type 0 where
  ok : WalInner → Recovered
  error : Disk → Recovered

abbrev pub is_absent : Option (List ℕ) → Bool
is_absent none = true
is_absent (some c) = false

module _ (hash : List ℕ → ℕ) where
  abbrev pub walk_after : Option FrameRead → ℕ → ℕ → ℕ → (ℕ → ℕ → Walk) → Walk
  walk_after none offset frames batch again = failed
  walk_after (some (frame f next)) offset frames batch again =
      again next (max batch ((f.batch_seq + 1) % u64_mod))
  walk_after (some end) offset frames batch again = walked offset frames batch
  walk_after (some corrupt) offset frames batch again = walked offset frames batch

  unfoldable pub walk_frames : ℕ → (ℕ → List ReadCall) → List ℕ → ℕ → ℕ → ℕ → Walk
  walk_frames zero calls content offset frames batch = stuck
  walk_frames (suc fuel) calls content offset frames batch =
      walk_after (read_frame_at hash (calls offset) content offset) offset frames batch
        (λ next batch'. walk_frames fuel calls content next (frames + 1) batch')

  -- `read_exact` and the validation; any error of either counts as a bad header.
  abbrev pub header_ok : Option (ReadStatus × List ℕ × File) → Bool
  header_ok (some (full, header, f)) = not (is_some (validate_segment_header header))
  header_ok _ = false

  abbrev pub keep_segment : ℕ → Inspection → List ℕ → Scan → Walk → Bool × Scan
  keep_segment seq os content s (walked offset frames batch) =
      let cut = os.metadata_ok && (ltb offset (length content) && os.truncate_ok) in
      (
        true,
        record s {
          segments = s.segments ++ record { seq = seq; bytes = offset; frames = frames } ∷ [];
          total_bytes = s.total_bytes + offset;
          next_batch_seq = batch;
          disk = if cut then with_file s.disk seq (some (take offset content)) else s.disk;
        },
      )
  keep_segment seq os content s _ = (false, s)

  -- One round of the loop over `found`; `false` is the `?` on a failed read.
  unfoldable pub scan_segment : (ℕ → Inspection) → ℕ → Scan → Bool × Scan
  unfolding walk_frames
  scan_segment os seq s =
      let s' = record s { max_seq = max s.max_seq seq } in
      let content = contents (s.disk seq) in
      let opened = (os seq).open_ok && not (is_absent (s.disk seq)) in
      let header = read_full_or_eof (record { rest = content; calls = (os seq).header_calls }) 16 in
      if not opened
      then (true, s')
      else if not (header_ok header)
      then (
        true,
        record s' { disk = with_file s.disk seq none; corrupt_frames = s.corrupt_frames + 1 },
      )
      else keep_segment seq (os seq) content s' (
          walk_frames (suc (length content)) (os seq).frame_calls content segment_header_len 0
            s.next_batch_seq)

  unfoldable pub scan_all : (ℕ → Inspection) → List ℕ → Scan → Bool × Scan
  unfolding scan_segment
  scan_all os [] s = (true, s)
  scan_all os (seq ∷ seqs) s =
      let (fine, s') = scan_segment os seq s in
      let rest = scan_all os seqs s' in if fine then rest else (false, s')

  -- The newest segment is opened for appends at its recovered end.
  abbrev pub active_of : Option SegmentMeta → Option ActiveSegment
  active_of none = none
  active_of (some m) = some (record { seq = m.seq; position = m.bytes; offset = m.bytes })

  abbrev pub finish : WalConfig → Bool → Bool × Scan → Recovered
  finish cfg reopen_ok (false, s) = error s.disk
  finish cfg reopen_ok (true, s) =
      if not reopen_ok && not (is_empty s.segments)
      then error s.disk
      else ok (
          inner_from_recovered cfg s.segments (active_of (last? s.segments)) s.total_bytes
            ((s.max_seq + 1) % u64_mod) s.next_batch_seq s.disk)

  abbrev pub scan_start : Disk → Scan
  scan_start disk = record {
    segments = [];
    total_bytes = 0;
    next_batch_seq = 0;
    max_seq = 0;
    disk = disk;
    corrupt_frames = 0;
  }

  abbrev pub recover_found : WalConfig → Disk → (ℕ → Inspection) → Bool → List ℕ → Recovered
  recover_found cfg disk os reopen_ok [] = ok (empty_inner cfg disk)
  recover_found cfg disk os reopen_ok (n ∷ ns) =
      finish cfg reopen_ok (scan_all os (sort_unstable (n ∷ ns)) (scan_start disk))

  abbrev pub recover_listed :
      WalConfig → Disk → (ℕ → Inspection) → Bool → Option (List (Option (List ℕ))) → Recovered
  recover_listed cfg disk os reopen_ok none = error disk
  recover_listed cfg disk os reopen_ok (some entries) =
      recover_found cfg disk os reopen_ok (found_seqs entries)

  -- `reopen_ok` is the opening of the newest segment for appends.
  unfoldable pub recover : WalConfig → Directory → (ℕ → Inspection) → Bool → Recovered
  unfolding found_seqs sort_unstable scan_all
  recover cfg dir os reopen_ok =
      if not dir.exists
      then ok (empty_inner cfg dir.disk)
      else recover_listed cfg dir.disk os reopen_ok dir.entries
