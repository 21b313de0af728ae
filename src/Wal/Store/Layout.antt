-- ===== src/Wal/Store/Layout.antt =====
-- What the fields and the files of `WalInner` (statix/src/wal/mod.rs) stand for: a queue of frames.
use statix.Prelude.{
  ℕ, ◌+◌, ◌^◌, ◌≤◌, ◌<◌, ◌≡◌, ◌⊎◌, false, Option, none, some, List, [], ◌∷◌, ◌++◌, length, All,
  last?, ◌==◌, arith,
}
use statix.Wal.Segment.{DecodedFrame, encode_segment_header, frame_len_on_disk, segment_header_len}
use statix.Wal.Segment.RoundTrip.{IsFrameable, encode_frame}
use statix.Wal.Store.{WalInner, SegmentMeta, ActiveSegment, Disk, with_file}

-- A segment with the frames that its file holds.
pub record Group : Type 0 where
  pub seq : ℕ
  pub frames : List DecodedFrame

abbrev pub all_frames : List Group → List DecodedFrame
all_frames [] = []
all_frames (g ∷ gs) = g.frames ++ all_frames gs

abbrev pub After : ℕ → List Group → Type 0
After s gs = All (λ (g : Group). s < g.seq) gs

abbrev pub PendingOk : Option ℕ → ℕ → List DecodedFrame → Type 0
PendingOk none offset rest = Unit
PendingOk (some next) offset [] = ⊥
PendingOk (some next) offset (f ∷ rest) = next ≡ offset + frame_len_on_disk (length f.payload)

-- The cursor is on a segment that is gone.
pub record IsBehind (read_seq : ℕ) (pending : Option ℕ) (q : List DecodedFrame) (g : Group)
    (gs : List Group) : Type 0 where
  pub gone : read_seq < g.seq
  pub not_pending : pending ≡ none
  pub queue : q ≡ all_frames (g ∷ gs)

pub record IsDrained (read_seq read_offset : ℕ) (pending : Option ℕ) (next_seq : ℕ)
    (q : List DecodedFrame) : Type 0 where
  pub not_pending : pending ≡ none
  pub queue : q ≡ []
  pub place : (read_seq < next_seq) ⊎ ((read_seq ≡ next_seq) × (read_offset ≡ segment_header_len))

pub After-other :
    (s : ℕ) (gs : List Group) → After s gs → All (λ (g : Group). (s == g.seq) ≡ false) gs
After-other s [] h = tt
After-other s (g ∷ gs) h = (ground arith, After-other s gs h.1)

pub After-le : (s t : ℕ) (gs : List Group) → s ≤ t → After t gs → After s gs
After-le s t [] h k = tt
After-le s t (g ∷ gs) h k = (omega arith, After-le s t gs h k.1)

module _ (hash : List ℕ → ℕ) where
  pub record IsStorable (f : DecodedFrame) : Type 0 where
    pub frameable : IsFrameable f.payload
    pub seq_fits : f.batch_seq < 2 ^ 64
    pub crc_fits : hash f.payload < 2 ^ 32

  abbrev pub encode_all : List DecodedFrame → List ℕ
  encode_all [] = []
  encode_all (f ∷ fs) = encode_frame hash f ++ encode_all fs

  abbrev pub bytes_of : Group → ℕ
  bytes_of g = segment_header_len + length (encode_all g.frames)

  abbrev pub meta_of : Group → SegmentMeta
  meta_of g = record { seq = g.seq; bytes = bytes_of g; frames = length g.frames }

  abbrev pub metas : List Group → List SegmentMeta
  metas [] = []
  metas (g ∷ gs) = meta_of g ∷ metas gs

  abbrev pub sum_bytes : List Group → ℕ
  sum_bytes [] = 0
  sum_bytes (g ∷ gs) = bytes_of g + sum_bytes gs

  pub record GroupOk (disk : Disk) (next_seq : ℕ) (g : Group) : Type 0 where
    pub content : disk g.seq ≡ some (encode_segment_header ++ encode_all g.frames)
    pub storable : All IsStorable g.frames
    pub known : g.seq < next_seq

  -- Every file holds what its segment says, and the numbers ascend.
  abbrev pub Chain : Disk → ℕ → List Group → Type 0
  Chain disk next_seq [] = Unit
  Chain disk next_seq (g ∷ gs) = GroupOk disk next_seq g × (After g.seq gs × Chain disk next_seq gs)

  -- The active segment, where there is one, is the last, and is written at its end.
  abbrev pub ActiveOk : Option ActiveSegment → Option Group → Type 0
  ActiveOk none last = Unit
  ActiveOk (some a) none = ⊥
  ActiveOk (some a) (some g) =
      (a.seq ≡ g.seq) × ((a.position ≡ bytes_of g) × (a.offset ≡ bytes_of g))

  -- The cursor is on the first segment.
  pub record AtFront (read_seq read_offset : ℕ) (pending : Option ℕ) (q : List DecodedFrame)
      (g : Group) (gs : List Group) : Type 0 where
    pub past : List DecodedFrame
    pub rest : List DecodedFrame
    pub on_front : read_seq ≡ g.seq
    pub split : past ++ rest ≡ g.frames
    pub reached : read_offset ≡ segment_header_len + length (encode_all past)
    pub pending_ok : PendingOk pending read_offset rest
    pub queue : q ≡ rest ++ all_frames gs

  abbrev pub CursorOk : ℕ → ℕ → Option ℕ → ℕ → List DecodedFrame → List Group → Type 0
  CursorOk read_seq read_offset pending next_seq q [] =
      IsDrained read_seq read_offset pending next_seq q
  CursorOk read_seq read_offset pending next_seq q (g ∷ gs) =
      IsBehind read_seq pending q g gs ⊎ AtFront read_seq read_offset pending q g gs

  pub record Layout (gs : List Group) (w : WalInner) (q : List DecodedFrame) : Type 0 where
    pub segments : w.segments ≡ metas gs
    pub chain : Chain w.disk w.next_seq gs
    pub total : w.total_bytes ≡ sum_bytes gs
    pub active : ActiveOk w.active (last? gs)
    pub batch_fits : w.next_batch_seq < 2 ^ 64
    pub cursor : CursorOk w.read_seq w.read_offset w.pending_advance w.next_seq q gs

  -- The store holds the queue `q` of frames that are not replayed yet, the oldest first: the files
  -- hold it, the segments describe the files, the byte count is theirs, the active segment is the
  -- last, and the cursor stands before the first frame of `q`.
  abbrev pub Represents : WalInner → List DecodedFrame → Type 0
  Represents w q = (gs : List Group) × Layout gs w q

  -- A write of another file.
  pub Chain-with_file :
      (disk : Disk) (next_seq s : ℕ) (c : Option (List ℕ)) (gs : List Group)
      → All (λ (g : Group). (s == g.seq) ≡ false) gs
      → Chain disk next_seq gs
      → Chain (with_file disk s c) next_seq gs
  Chain-with_file disk next_seq s c [] h k = tt
  Chain-with_file disk next_seq s c (g ∷ gs) h k = (
    record { content = rw h.0 ((k.0).content); storable = (k.0).storable; known = (k.0).known },
    ((k.1).0, Chain-with_file disk next_seq s c gs h.1 (k.1).1),
  )
