-- ===== src/Wal/Store/Rotate.antt =====
-- A new segment at the end of the queue: `rotate` of statix/src/wal/mod.rs.
use statix.Prelude.{
  ℕ, ◌+◌, ◌<◌, ◌≡◌, refl, ap, sym, ◌∙◌, ◌⊎◌, inl, inr, true, false, Option, some, List, [], ◌∷◌,
  ◌++◌, last?, ◌==◌, arith, append_assoc, append-nil, All-append,
}
use statix.Wal.Segment.{DecodedFrame, segment_header_len, encode_segment_header}
use statix.Wal.Store.{Os, complete, WalInner, Disk, with_file, done, rotate}
use statix.Wal.Store.Layout.{
  Group, Layout, metas, meta_of, bytes_of, sum_bytes, all_frames, CursorOk, Chain,
}

-- A new segment can be opened.
pub record CanRotate (os : Os) : Type 0 where
  pub created : os.create_dir_ok ≡ true
  pub opened : os.open_ok ≡ true
  pub headed : os.segment_header ≡ complete

-- Every call of an `append` succeeds.
pub record IsCalm (os : Os) : Type 0 where
  pub rotates : CanRotate os
  pub framed : os.frame_header ≡ complete
  pub filled : os.frame_payload ≡ complete

abbrev pub new_group : ℕ → Group
new_group seq = record { seq = seq; frames = [] }

pub all_frames-append :
    (gs : List Group) (g : Group) → all_frames (gs ++ g ∷ []) ≡ all_frames gs ++ g.frames
all_frames-append [] g = append-nil g.frames
all_frames-append (h ∷ gs) g =
    ap (λ t. h.frames ++ t) (all_frames-append gs g)
    ∙ sym (append_assoc h.frames (all_frames gs) g.frames)

pub last?-append {ℓ} : {A : Type ℓ} (xs : List A) (a : A) → last? (xs ++ a ∷ []) ≡ some a
last?-append [] a = refl
last?-append (x ∷ []) a = refl
last?-append (x ∷ y ∷ ys) a = last?-append (y ∷ ys) a

module _ (hash : List ℕ → ℕ) where
  pub metas-append : (gs hs : List Group) → metas hash (gs ++ hs) ≡ metas hash gs ++ metas hash hs
  metas-append [] hs = refl
  metas-append (g ∷ gs) hs = ap (λ t. meta_of hash g ∷ t) (metas-append gs hs)

  pub sum_bytes-append :
      (gs : List Group) (g : Group)
      → sum_bytes hash (gs ++ g ∷ []) ≡ sum_bytes hash gs + bytes_of hash g
  sum_bytes-append [] g = omega arith
  sum_bytes-append (h ∷ gs) g = omega (arith, sum_bytes-append gs g)

  -- A group that is known under the numbers so far, and a file with a new number.
  Chain-new :
      (disk : Disk) (next_seq : ℕ) (gs : List Group)
      → Chain hash disk next_seq gs
      → Chain hash
          (with_file disk next_seq (some encode_segment_header))
          (next_seq + 1)
          (gs ++ new_group next_seq ∷ [])
  Chain-new disk next_seq [] h =
      let same : (next_seq == next_seq) ≡ true = ground arith in
      (record { content = rw (same, append-nil); storable = tt; known = omega arith }, (tt, tt))
  Chain-new disk next_seq (g ∷ gs) h =
      let known : g.seq < next_seq = (h.0).known in
      let other : (next_seq == g.seq) ≡ false = ground arith in
      (
        record {
          content = rw other ((h.0).content);
          storable = (h.0).storable;
          known = omega arith;
        },
        (
          All-append (λ (k : Group). g.seq < k.seq) gs _ (h.1).0 (known, tt),
          Chain-new disk next_seq gs (h.1).1,
        ),
      )

  Cursor-new :
      (read_seq read_offset next_seq : ℕ) (pending : Option ℕ) (q : List DecodedFrame)
      (gs : List Group)
      → CursorOk hash read_seq read_offset pending next_seq q gs
      → CursorOk hash read_seq read_offset pending (next_seq + 1) q (gs ++ new_group next_seq ∷ [])
  Cursor-new read_seq read_offset next_seq pending q [] c = place c.place
    where
      place :
          ((read_seq < next_seq) ⊎ ((read_seq ≡ next_seq) × (read_offset ≡ segment_header_len)))
          → CursorOk hash read_seq read_offset pending (next_seq + 1) q (new_group next_seq ∷ [])
      place (inl h) = inl (record { gone = h; not_pending = c.not_pending; queue = c.queue })
      place (inr h) = inr (record {
        past = [];
        rest = [];
        on_front = h.0;
        split = refl;
        reached = omega arith;
        pending_ok = rw c.not_pending tt;
        queue = c.queue;
      })
  Cursor-new read_seq read_offset next_seq pending q (g ∷ gs) (inl b) = inl (record {
    gone = b.gone;
    not_pending = b.not_pending;
    queue = rw (all_frames-append gs (new_group next_seq), append-nil) b.queue;
  })
  Cursor-new read_seq read_offset next_seq pending q (g ∷ gs) (inr f) = inr (record {
    past = f.past;
    rest = f.rest;
    on_front = f.on_front;
    split = f.split;
    reached = f.reached;
    pending_ok = f.pending_ok;
    queue = rw (all_frames-append gs (new_group next_seq), append-nil) f.queue;
  })

  pub rotate-Layout :
      (os : Os) (gs : List Group) (w : WalInner) (q : List DecodedFrame)
      → CanRotate os
      → Layout hash gs w q
      → ((rotate os w).0 ≡ done)
        × (Layout hash (gs ++ new_group w.next_seq ∷ []) (rotate os w).1 q
            × ((rotate os w).1.active
                ≡ some (record {
                  seq = w.next_seq;
                  position = segment_header_len;
                  offset = segment_header_len;
                })))
  unfolding rotate
  rotate-Layout os gs w q calm l =
      rw (calm.created, calm.opened, calm.headed)
        (
          refl,
          (
            record {
              segments =
                  ap (λ t. t ++ meta_of hash (new_group w.next_seq) ∷ []) l.segments
                  ∙ sym (metas-append gs (new_group w.next_seq ∷ []));
              chain = Chain-new w.disk w.next_seq gs l.chain;
              total = omega (arith, l.total, sum_bytes-append gs (new_group w.next_seq));
              active =
                  rw (last?-append gs (new_group w.next_seq)) (refl, (omega arith, omega arith));
              batch_fits = l.batch_fits;
              cursor =
                  Cursor-new w.read_seq w.read_offset w.next_seq w.pending_advance q gs l.cursor;
            },
            refl,
          ),
        )
