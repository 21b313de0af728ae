-- ===== src/Wal/Store/Room.antt =====
-- `ensure_active_with_room` of statix/src/wal/mod.rs leaves a last segment that can be written.
use statix.Prelude.{
  ℕ, ◌≡◌, refl, ap, ◌∙◌, inl, inr, Option, none, some, List, [], ◌∷◌, ◌++◌, last?, if_elim,
  Option-cases,
}
use statix.Wal.Segment.{DecodedFrame, segment_header_len}
use statix.Wal.Store.{
  Os, WalInner, Outcome, done, ActiveSegment, ensure_active_with_room, needs_rotate, rotate,
}
use statix.Wal.Store.Layout.{Group, Layout}
use statix.Wal.Store.Rotate.{CanRotate, new_group, rotate-Layout}

snoc :
    (gs : List Group) (g : Group) → last? gs ≡ some g → (init : List Group) × (gs ≡ init ++ g ∷ [])
snoc [] g h = absurd cc
snoc (k ∷ []) g h = ([], cc)
snoc (k ∷ k' ∷ gs) g h = let (init, e) = snoc (k' ∷ gs) g h in (k ∷ init, ap (λ t. k ∷ t) e)

module _ (hash : List ℕ → ℕ) where
  -- Ready for a frame: the active segment is the last.
  pub record Ready (batch : ℕ) (r : Outcome × WalInner) (q : List DecodedFrame) : Type 0 where
    pub fine : r.0 ≡ done
    pub init : List Group
    pub last : Group
    pub layout : Layout hash (init ++ last ∷ []) r.1 q
    pub active : ActiveSegment
    pub is_active : r.1.active ≡ some active
    pub same_batch : r.1.next_batch_seq ≡ batch

  rotate-next_batch_seq :
      (os : Os) (w : WalInner) → CanRotate os → (rotate os w).1.next_batch_seq ≡ w.next_batch_seq
  unfolding rotate
  rotate-next_batch_seq os w calm = rw (calm.created, calm.opened, calm.headed) refl

  pub rotate-Ready :
      (os : Os) (gs : List Group) (w : WalInner) (q : List DecodedFrame)
      → CanRotate os
      → Layout hash gs w q
      → Ready w.next_batch_seq (rotate os w) q
  rotate-Ready os gs w q calm l =
      let r = rotate-Layout hash os gs w q calm l in
      record {
        fine = r.0;
        init = gs;
        last = new_group w.next_seq;
        layout = (r.1).0;
        active = record {
          seq = w.next_seq;
          position = segment_header_len;
          offset = segment_header_len;
        };
        is_active = (r.1).1;
        same_batch = rotate-next_batch_seq os w calm;
      }

  pub active-Ready :
      (gs : List Group) (w : WalInner) (q : List DecodedFrame) (a : ActiveSegment)
      → w.active ≡ some a
      → Layout hash gs w q
      → Ready w.next_batch_seq (done, w) q
  active-Ready gs w q a e l = with_last (last? gs) refl
    where
      with_last : (o : Option Group) → last? gs ≡ o → Ready w.next_batch_seq (done, w) q
      with_last none n = absurd (rw (e, n) at l.active)
      with_last (some g) h =
          let (init, same) = snoc gs g h in
          record {
            fine = refl;
            init = init;
            last = g;
            layout = rw (← same) l;
            active = a;
            is_active = e;
            same_batch = refl;
          }

  pub ensure-Ready :
      (os : Os) (size : ℕ) (gs : List Group) (w : WalInner) (q : List DecodedFrame)
      → CanRotate os
      → Layout hash gs w q
      → Ready w.next_batch_seq (ensure_active_with_room os size w) q
  unfolding ensure_active_with_room
  ensure-Ready os size gs w q calm l = elim (Option-cases w.active) [
    | inl n ↦ rw n (rotate-Ready os gs w q calm l)
    | inr s ↦
        if_elim (λ (r : Outcome × WalInner). Ready w.next_batch_seq r q)
          (needs_rotate w.cfg.segment_bytes size w.active) (rotate os w) (done, w)
          (λ _. rotate-Ready os gs w q calm l) (λ _. active-Ready gs w q s.0 s.1 l)
  ]

  pub Ready-batch :
      (b b' : ℕ) (r : Outcome × WalInner) (q : List DecodedFrame)
      → b ≡ b'
      → Ready b r q
      → Ready b' r q
  Ready-batch b b' r q e h = record {
    fine = h.fine;
    init = h.init;
    last = h.last;
    layout = h.layout;
    active = h.active;
    is_active = h.is_active;
    same_batch = h.same_batch ∙ e;
  }
