-- ===== src/Wal/Store/Writing.antt =====
-- `append` of statix/src/wal/mod.rs with the cap and the rotation, and the repair after an error.
use statix.Prelude.{
  ℕ, ◌+◌, ◌-◌, ◌%◌, Bool, true, not, ◌&&◌, Option, none, some, List, [], ◌∷◌, ◌++◌, length, take,
  replicate, ltb, ◌==◌, if◌then◌else◌, u64_mod,
}
use statix.Wal.Segment.{
  segment_header_len, encode_segment_header, encode_frame_header, frame_len_on_disk,
}
use statix.Wal.Store.State.{
  SegmentMeta, ActiveSegment, with_file, WalInner, Os, Outcome, overwrite, written, succeeds,
  contents, done, io_error, panicked,
}

-- `self.segments.back_mut()`
unfoldable pub grow_back : ℕ → List SegmentMeta → List SegmentMeta
grow_back n [] = []
grow_back n (m ∷ []) = record m { bytes = m.bytes + n; frames = m.frames + 1 } ∷ []
grow_back n (m ∷ m' ∷ ms) = m ∷ grow_back n (m' ∷ ms)

-- One round of `enforce_cap`: the oldest segment goes, and a cursor that stood on it moves on. The
-- file is removed here; the source ignores an error of `remove_file` and goes on in the same way.
abbrev pub without_front : SegmentMeta → List SegmentMeta → WalInner → WalInner
without_front victim rest w = record w {
  segments = rest;
  total_bytes = w.total_bytes - victim.bytes;
  disk = with_file w.disk victim.seq none;
  metrics = record w.metrics {
    dropped_batches = w.metrics.dropped_batches + victim.frames;
    dropped_bytes = w.metrics.dropped_bytes + victim.bytes;
  };
}

abbrev pub cursor_to : SegmentMeta → WalInner → WalInner
cursor_to front w = record w {
  read_seq = front.seq;
  read_offset = segment_header_len;
  pending_advance = none;
}

unfoldable pub drop_front : SegmentMeta → SegmentMeta → List SegmentMeta → WalInner → WalInner
drop_front victim front rest w =
    let gone = without_front victim (front ∷ rest) w in
    if w.read_seq == victim.seq then cursor_to front gone else gone

-- The rounds; the list is `self.segments`.
unfoldable pub enforce_rounds : ℕ → List SegmentMeta → WalInner → WalInner
unfolding drop_front
enforce_rounds incoming [] w = w
enforce_rounds incoming (m ∷ []) w = w
enforce_rounds incoming (m ∷ m' ∷ ms) w =
    let next = enforce_rounds incoming (m' ∷ ms) (drop_front m m' ms w) in
    if ltb w.cfg.max_bytes (w.total_bytes + incoming) then next else w

unfoldable pub enforce_cap : ℕ → WalInner → WalInner
unfolding enforce_rounds
enforce_cap incoming w = enforce_rounds incoming w.segments w

-- The new segment, once its file is open. A failed header write leaves the file and the number.
abbrev pub new_segment : Os → ℕ → WalInner → Outcome × WalInner
new_segment os seq w =
    let header = written os.segment_header encode_segment_header in
    let w' = record w { disk = with_file w.disk seq (some header) } in
    if succeeds os.segment_header
    then (
      done,
      record w' {
        segments = w.segments ++ record { seq = seq; bytes = segment_header_len; frames = 0 } ∷ [];
        total_bytes = w.total_bytes + segment_header_len;
        active =
            some (record { seq = seq; position = segment_header_len; offset = segment_header_len });
      },
    )
    else (io_error, w')

unfoldable pub rotate : Os → WalInner → Outcome × WalInner
rotate os w =
    let w1 = record w { active = none } in
    let w2 = record w1 { next_seq = w1.next_seq + 1 } in
    if not os.create_dir_ok
    then (io_error, w1)
    else if not os.open_ok
    then (io_error, w2)
    else new_segment os w1.next_seq w2

abbrev pub needs_rotate : ℕ → ℕ → Option ActiveSegment → Bool
needs_rotate segment_bytes frame_size none = true
needs_rotate segment_bytes frame_size (some a) =
    ltb segment_header_len a.offset && ltb segment_bytes (a.offset + frame_size)

unfoldable pub ensure_active_with_room : Os → ℕ → WalInner → Outcome × WalInner
unfolding rotate
ensure_active_with_room os frame_size w =
    if needs_rotate w.cfg.segment_bytes frame_size w.active then rotate os w else (done, w)

module _ (hash : List ℕ → ℕ) where
  -- The two writes of a frame to the active file, and the counters after them.
  abbrev pub write_frame : Os → List ℕ → ℕ → Option ActiveSegment → WalInner → Outcome × WalInner
  write_frame os payload batch_seq none w = (panicked, w)
  write_frame os payload batch_seq (some a) w =
      let header = written os.frame_header (encode_frame_header hash payload batch_seq) in
      let body = if succeeds os.frame_header then written os.frame_payload payload else [] in
      let bytes = header ++ body in
      let size = frame_len_on_disk (length payload) in
      let w' = record w {
        disk = with_file w.disk a.seq (some (overwrite (contents (w.disk a.seq)) a.position bytes));
        active = some (record a { position = a.position + length bytes });
      } in
      if succeeds os.frame_header && succeeds os.frame_payload
      then (
        done,
        record w' {
          active =
              some (record a { position = a.position + length bytes; offset = a.offset + size });
          segments = grow_back size w.segments;
          total_bytes = w.total_bytes + size;
          metrics = record w.metrics { frames_written = w.metrics.frames_written + 1 };
        },
      )
      else (io_error, w')

  abbrev pub append_after : Os → List ℕ → Outcome × WalInner → Outcome × WalInner
  append_after os payload (io_error, w) = (io_error, w)
  append_after os payload (panicked, w) = (panicked, w)
  append_after os payload (done, w) =
      let w' = record w { next_batch_seq = (w.next_batch_seq + 1) % u64_mod } in
      write_frame os payload w.next_batch_seq w'.active w'

  unfoldable pub append : Os → List ℕ → WalInner → Outcome × WalInner
  unfolding ensure_active_with_room enforce_cap grow_back overwrite
  append os payload w =
      let frame_size = frame_len_on_disk (length payload) in
      append_after os payload (ensure_active_with_room os frame_size (enforce_cap frame_size w))

-- After a failed `append`: back to the last good frame boundary. Both errors are ignored (`let _`).
abbrev pub repair : Os → Option ActiveSegment → WalInner → WalInner
repair os none w = w
repair os (some a) w =
    let content = contents (w.disk a.seq) in
    let cut = take a.offset content ++ replicate (a.offset - length content) 0 in
    record w {
      disk = with_file w.disk a.seq (some (if os.set_len_ok then cut else content));
      active = some (record a { position = if os.seek_ok then a.offset else a.position });
    }

unfoldable pub recover_active_after_error : Os → WalInner → WalInner
recover_active_after_error os w = repair os w.active w
