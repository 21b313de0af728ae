-- ===== src/Wal/Store/FailedRotate.antt =====
-- A rotation of statix/src/wal/mod.rs that fails: the queue stays, and no segment is active.
use statix.Prelude.{
  ℕ, ◌+◌, ◌<◌, ◌≡◌, refl, ◌⊎◌, inl, inr, false, Option, none, some, List, [], ◌∷◌, ◌==◌, arith,
  Bool-cases, if_elim, Option-cases,
}
use statix.Wal.Segment.{DecodedFrame, encode_segment_header}
use statix.Wal.Store.{
  Os, Write, complete, torn, written, succeeds, WalInner, Disk, with_file, Outcome, done, io_error,
  rotate, needs_rotate, ensure_active_with_room,
}
use statix.Wal.Store.Layout.{Group, Layout, CursorOk, Chain}
use statix.Wal.Store.Rotate.{CanRotate}
use statix.Wal.Store.Room.{Ready, rotate-Ready, active-Ready}

succeeds-cases : (c : Write) → (c ≡ complete) ⊎ (succeeds c ≡ false)
succeeds-cases complete = inl refl
succeeds-cases (torn n) = inr refl

module _ (hash : List ℕ → ℕ) where
  Chain-later :
      (disk : Disk) (content : Option (List ℕ)) (n : ℕ) (gs : List Group)
      → Chain hash disk n gs
      → Chain hash disk (n + 1) gs × Chain hash (with_file disk n content) (n + 1) gs
  Chain-later disk content n [] h = (tt, tt)
  Chain-later disk content n (g ∷ gs) h =
      let known : g.seq < n = (h.0).known in
      let other : (n == g.seq) ≡ false = ground arith in
      let (up, later) = Chain-later disk content n gs (h.1).1 in
      (
        (
          record { content = (h.0).content; storable = (h.0).storable; known = omega arith },
          ((h.1).0, up),
        ),
        (
          record {
            content = rw other ((h.0).content);
            storable = (h.0).storable;
            known = omega arith;
          },
          ((h.1).0, later),
        ),
      )

  Cursor-later :
      (read_seq read_offset n : ℕ) (pending : Option ℕ) (q : List DecodedFrame) (gs : List Group)
      → CursorOk hash read_seq read_offset pending n q gs
      → CursorOk hash read_seq read_offset pending (n + 1) q gs
  Cursor-later read_seq read_offset n pending q [] c = record {
    not_pending = c.not_pending;
    queue = c.queue;
    place = inl (elim c.place [ inl h ↦ omega arith | inr h ↦ omega (arith, h.0) ]);
  }
  Cursor-later read_seq read_offset n pending q (g ∷ gs) c = c

  pub record RotateFailed (gs : List Group) (r : Outcome × WalInner) (q : List DecodedFrame)
      : Type 0 where
    pub error : r.0 ≡ io_error
    pub layout : Layout hash gs r.1 q
    pub inactive : r.1.active ≡ none

  rotate-cases :
      (os : Os) (gs : List Group) (w : WalInner) (q : List DecodedFrame)
      → Layout hash gs w q
      → CanRotate os ⊎ RotateFailed gs (rotate os w) q
  unfolding rotate
  rotate-cases os gs w q l =
      let header = written os.segment_header encode_segment_header in
      let (up, later) = Chain-later w.disk (some header) w.next_seq gs l.chain in
      let cursor =
        Cursor-later w.read_seq w.read_offset w.next_seq w.pending_advance q gs l.cursor in
      elim (Bool-cases os.create_dir_ok) [
        | inr not_created ↦ inr (
            rw not_created (record {
              error = refl;
              layout = record {
                segments = l.segments;
                chain = l.chain;
                total = l.total;
                active = tt;
                batch_fits = l.batch_fits;
                cursor = l.cursor;
              };
              inactive = refl;
            }))
        | inl created ↦ elim (Bool-cases os.open_ok) [
          | inr not_opened ↦ inr (
              rw (created, not_opened)
                (record {
                  error = refl;
                  layout = record {
                    segments = l.segments;
                    chain = up;
                    total = l.total;
                    active = tt;
                    batch_fits = l.batch_fits;
                    cursor = cursor;
                  };
                  inactive = refl;
                }))
          | inl opened ↦ elim (succeeds-cases os.segment_header) [
            | inl headed ↦ inl (record { created = created; opened = opened; headed = headed })
            | inr not_headed ↦ inr (
                rw (created, opened, not_headed)
                  (record {
                    error = refl;
                    layout = record {
                      segments = l.segments;
                      chain = later;
                      total = l.total;
                      active = tt;
                      batch_fits = l.batch_fits;
                      cursor = cursor;
                    };
                    inactive = refl;
                  }))
          ]
        ]
      ]

  rotated :
      (os : Os) (gs : List Group) (w : WalInner) (q : List DecodedFrame)
      → Layout hash gs w q
      → Ready hash w.next_batch_seq (rotate os w) q ⊎ RotateFailed gs (rotate os w) q
  rotated os gs w q l = elim (rotate-cases os gs w q l) [
    | inl can ↦ inl (rotate-Ready hash os gs w q can l)
    | inr failure ↦ inr failure
  ]

  -- There is room in the active segment, or a rotation that was needed has failed.
  pub ensure-cases :
      (os : Os) (size : ℕ) (gs : List Group) (w : WalInner) (q : List DecodedFrame)
      → Layout hash gs w q
      → Ready hash w.next_batch_seq (ensure_active_with_room os size w) q
        ⊎ RotateFailed gs (ensure_active_with_room os size w) q
  unfolding ensure_active_with_room
  ensure-cases os size gs w q l = elim (Option-cases w.active) [
    | inl n ↦ rw n (rotated os gs w q l)
    | inr s ↦
        if_elim (λ (r : Outcome × WalInner). Ready hash w.next_batch_seq r q ⊎ RotateFailed gs r q)
          (needs_rotate w.cfg.segment_bytes size w.active) (rotate os w) (done, w)
          (λ _. rotated os gs w q l) (λ _. inl (active-Ready hash gs w q s.0 s.1 l))
  ]
