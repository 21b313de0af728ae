-- ===== src/Wal/Store/Replaying.antt =====
-- `peek_next` and `commit_pending` of statix/src/wal/mod.rs, and the collection of read segments.
use statix.Prelude.{
  ℕ, zero, suc, ◌+◌, ◌-◌, Bool, false, not, ◌||◌, Option, none, some, List, [], ◌∷◌, length, any,
  is_empty, ltb, ◌==◌, if◌then◌else◌,
}
use statix.Wal.Segment.{
  segment_header_len, DecodedFrame, FrameRead, frame, end, corrupt, read_frame_at,
}
use statix.Wal.Store.State.{SegmentMeta, ActiveSegment, with_file, WalInner, Attempt}

-- Delete the segment that the cursor is on, wherever it stands, and go to the front.
unfoldable pub find_segment : ℕ → List SegmentMeta → Option SegmentMeta
find_segment seq [] = none
find_segment seq (m ∷ ms) = if m.seq == seq then some m else find_segment seq ms

unfoldable pub without_segment : ℕ → List SegmentMeta → List SegmentMeta
without_segment seq [] = []
without_segment seq (m ∷ ms) = if m.seq == seq then ms else m ∷ without_segment seq ms

abbrev pub to_front : List SegmentMeta → WalInner → WalInner
to_front [] w = w
to_front (m ∷ ms) w = record w { read_seq = m.seq; read_offset = segment_header_len }

abbrev pub delete_segment : Option SegmentMeta → WalInner → WalInner
delete_segment none w = w
delete_segment (some m) w = record w {
  segments = without_segment w.read_seq w.segments;
  total_bytes = w.total_bytes - m.bytes;
  disk = with_file w.disk m.seq none;
}

unfoldable pub gc_front_consumed : WalInner → WalInner
unfolding find_segment without_segment
gc_front_consumed w =
    let w' = delete_segment (find_segment w.read_seq w.segments) w in
    let w'' = to_front w'.segments w' in record w'' { pending_advance = none }

abbrev pub active_is : ℕ → Option ActiveSegment → Bool
active_is seq none = false
active_is seq (some a) = a.seq == seq

-- The cursor goes to the front if its segment is gone.
unfoldable pub resync : WalInner → WalInner
resync w = if any (λ m. m.seq == w.read_seq) w.segments then w else to_front w.segments w

-- `Ok(None)`, `Ok(Some(frame))`, an `io::Error`; `stuck` is out of fuel.
pub data Peek : Type 0 where
  nothing : Peek
  found : DecodedFrame → Peek
  failed : Peek
  stuck : Peek

module _ (hash : List ℕ → ℕ) (os : ℕ → Attempt) where
  -- A missing file cannot be opened.
  abbrev pub read_at_cursor : WalInner → Option FrameRead
  read_at_cursor w = if not (os w.read_seq).open_ok then none else elim (w.disk w.read_seq) [
    | none ↦ none
    | some content ↦ read_frame_at hash (os w.read_seq).calls content w.read_offset
  ]

  abbrev pub after_read : Option FrameRead → WalInner → Peek × WalInner → Peek × WalInner
  after_read none w again = (failed, w)
  after_read (some (frame f next)) w again = (found f, record w { pending_advance = some next })
  after_read (some end) w again = if active_is w.read_seq w.active then (nothing, w) else again
  after_read (some corrupt) w again = if active_is w.read_seq w.active then (nothing, w) else again

  -- The rounds of the loop, on fuel: each collects a segment.
  unfoldable pub peek_rounds : ℕ → WalInner → Peek × WalInner
  unfolding resync gc_front_consumed
  peek_rounds zero w = (stuck, w)
  peek_rounds (suc fuel) w =
      let w' = resync w in
      let again = peek_rounds fuel (gc_front_consumed w') in
      if is_empty w.segments then (nothing, w) else after_read (read_at_cursor w') w' again

  unfoldable pub peek_next : WalInner → Peek × WalInner
  unfolding peek_rounds
  peek_next w = peek_rounds (suc (length w.segments)) w

abbrev pub commit_at : Option ℕ → WalInner → WalInner
commit_at none w = w
commit_at (some next) w = record w {
  read_offset = next;
  pending_advance = none;
  metrics = record w.metrics { frames_replayed = w.metrics.frames_replayed + 1 };
}

unfoldable pub commit_pending : WalInner → WalInner
commit_pending w = commit_at w.pending_advance w

abbrev pub behind : ℕ → ℕ → Option ActiveSegment → Bool
behind read_seq read_offset none = false
behind read_seq read_offset (some a) = not (read_seq == a.seq) || ltb read_offset a.offset

unfoldable pub has_backlog : WalInner → Bool
has_backlog w = behind w.read_seq w.read_offset w.active
