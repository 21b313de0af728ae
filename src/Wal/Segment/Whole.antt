-- ===== src/Wal/Segment/Whole.antt =====
-- `read_frame_at` of statix/src/wal/segment.rs does not depend on how the system cuts the reads.
use statix.Prelude.{
  ℕ, ◌≡◌, refl, ap, take, ◌∙◌, sym, Option, none, some, List, [], drop, if◌then◌else◌, ◌==◌, ◌||◌,
  ltb, All, arith,
}
use statix.Wal.Segment.{
  FrameRead, corrupt, read_frame_at, read_header, read_payload, max_frame_payload,
}
use statix.Wal.Segment.Bytes.{from_le_bytes}
use statix.Wal.Segment.Reading.{ReadCall, ReadStatus, full, partial, eof, File, read_full_or_eof}
use statix.Wal.Segment.Reading.ShortReads.{
  NotFailed, seen, CallsOk, read_loop_whole, read_loop-CallsOk,
}

abbrev Read : Type 0
Read = Option (ReadStatus × List ℕ × File)

pub read_full_whole :
    (f : File) (n : ℕ)
    → All NotFailed f.calls
    → seen (read_full_or_eof f n) ≡ seen (read_full_or_eof (record { rest = f.rest; calls = [] }) n)
unfolding read_full_or_eof
read_full_whole f n ok = read_loop_whole f.calls n [] f.rest ok (omega arith)

read_full-CallsOk : (f : File) (n : ℕ) → All NotFailed f.calls → CallsOk (read_full_or_eof f n)
unfolding read_full_or_eof
read_full-CallsOk f n ok = read_loop-CallsOk f.calls n [] f.rest ok

module _ (hash : List ℕ → ℕ) (offset : ℕ) where
  read_payload_congr :
      (len crc sq : ℕ) (r s : Read)
      → seen r ≡ seen s
      → read_payload hash offset len crc sq r ≡ read_payload hash offset len crc sq s
  read_payload_congr len crc sq none none e = refl
  read_payload_congr len crc sq none (some s) e = cc
  read_payload_congr len crc sq (some r) none e = cc
  read_payload_congr len crc sq (some (full, buf, f)) (some (st, buf', f')) e = ground arith
  read_payload_congr len crc sq (some (partial, buf, f)) (some (st, buf', f')) e = ground arith
  read_payload_congr len crc sq (some (eof, buf, f)) (some (st, buf', f')) e = ground arith

  -- The second read goes on from the same position, whatever the first left of the calls.
  read_rest_congr :
      (len crc sq : ℕ) (f g : File)
      → All NotFailed f.calls
      → All NotFailed g.calls
      → f.rest ≡ g.rest
      → read_payload hash offset len crc sq (read_full_or_eof f len)
        ≡ read_payload hash offset len crc sq (read_full_or_eof g len)
  read_rest_congr len crc sq f g fo go e =
      read_payload_congr len crc sq (read_full_or_eof f len) (read_full_or_eof g len) (
        read_full_whole f len fo
        ∙ (ap (λ (r : List ℕ). seen (read_full_or_eof (record { rest = r; calls = [] }) len)) e
            ∙ sym (read_full_whole g len go)))

  read_header_congr :
      (r s : Read)
      → seen r ≡ seen s
      → CallsOk r
      → CallsOk s
      → read_header hash offset r ≡ read_header hash offset s
  read_header_congr none none e ro so = refl
  read_header_congr none (some s) e ro so = cc
  read_header_congr (some r) none e ro so = cc
  read_header_congr (some (full, h, f)) (some (full, h', g)) e ro so =
      let eh : h ≡ h' = cc in
      let er : f.rest ≡ g.rest = cc in
      let len = from_le_bytes (take 4 h') in
      let crc = from_le_bytes (take 4 (drop 4 h')) in
      let sq = from_le_bytes (take 8 (drop 8 h')) in
      rw eh (
        ap
          (λ (t : Option FrameRead).
            if len == 0 || ltb max_frame_payload len then some corrupt else t)
          (read_rest_congr len crc sq f g ro so er))
  read_header_congr (some (full, h, f)) (some (partial, h', g)) e ro so = cc
  read_header_congr (some (full, h, f)) (some (eof, h', g)) e ro so = cc
  read_header_congr (some (partial, h, f)) (some (full, h', g)) e ro so = cc
  read_header_congr (some (eof, h, f)) (some (full, h', g)) e ro so = cc
  read_header_congr (some (_, h, f)) (some (_, h', g)) e ro so = refl

-- Reads that are short or interrupted, and do not fail, give what whole reads give.
pub read_frame_at_whole :
    (hash : List ℕ → ℕ) (calls : List ReadCall) (content : List ℕ) (offset : ℕ)
    → All NotFailed calls
    → read_frame_at hash calls content offset ≡ read_frame_at hash [] content offset
unfolding read_frame_at
read_frame_at_whole hash calls content offset ok =
    let f : File = record { rest = drop offset content; calls = calls } in
    let g : File = record { rest = drop offset content; calls = [] } in
    read_header_congr hash offset (read_full_or_eof f 16) (read_full_or_eof g 16)
      (read_full_whole f 16 ok) (read_full-CallsOk f 16 ok) (read_full-CallsOk g 16 tt)
