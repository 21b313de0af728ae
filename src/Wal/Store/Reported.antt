-- ===== src/Wal/Store/Reported.antt =====
-- What `enforce_cap` of statix/src/wal/mod.rs gives up is counted in `dropped_bytes`, and nothing
-- else changes that counter on the way of `append`.
use statix.Prelude.{
  ℕ, ◌+◌, ◌≤◌, ◌<◌, ◌≡◌, ◌⊎◌, refl, ap, ◌∙◌, inl, inr, Option, none, some, List, [], ◌∷◌, ◌%◌,
  u64_mod, length, ltb, if_elim, arith,
}
use statix.Wal.Segment.{DecodedFrame, frame_len_on_disk}
use statix.Wal.Store.{
  Os, WalInner, Outcome, done, io_error, panicked, ActiveSegment, enforce_cap, enforce_rounds,
  drop_front, append_after, write_frame, ensure_active_with_room, rotate, repair,
  recover_active_after_error, append,
}
use statix.Wal.Store.Layout.{Group, Represents, metas, meta_of}

abbrev pub dropped : WalInner → ℕ
dropped w = w.metrics.dropped_bytes

module _ (hash : List ℕ → ℕ) where
  drop_front_grows :
      (g g' : Group) (gs : List Group) (w : WalInner)
      → dropped w < dropped (drop_front (meta_of hash g) (meta_of hash g') (metas hash gs) w)
  unfolding drop_front
  drop_front_grows g g' gs w = ground arith

  enforce_rounds_grows :
      (incoming : ℕ) (gs : List Group) (w : WalInner)
      → dropped w ≤ dropped (enforce_rounds incoming (metas hash gs) w)
  unfolding enforce_rounds
  enforce_rounds_grows incoming [] w = omega arith
  enforce_rounds_grows incoming (g ∷ []) w = omega arith
  enforce_rounds_grows incoming (g ∷ g' ∷ gs) w = ground (
    arith,
    drop_front_grows g g' gs w,
    enforce_rounds_grows incoming (g' ∷ gs)
        (drop_front (meta_of hash g) (meta_of hash g') (metas hash gs) w),
  )

  enforce_rounds_reported :
      (incoming : ℕ) (gs : List Group) (w : WalInner)
      → (enforce_rounds incoming (metas hash gs) w ≡ w)
        ⊎ (dropped w < dropped (enforce_rounds incoming (metas hash gs) w))
  unfolding enforce_rounds
  enforce_rounds_reported incoming [] w = inl refl
  enforce_rounds_reported incoming (g ∷ []) w = inl refl
  enforce_rounds_reported incoming (g ∷ g' ∷ gs) w =
      if_elim (λ (w' : WalInner). (w' ≡ w) ⊎ (dropped w < dropped w'))
        (ltb w.cfg.max_bytes (w.total_bytes + incoming)) _ w
        (λ _. inr (
          omega (
            arith,
            drop_front_grows g g' gs w,
            enforce_rounds_grows incoming (g' ∷ gs)
                (drop_front (meta_of hash g) (meta_of hash g') (metas hash gs) w),
          )))
        (λ _. inl refl)

  -- The cap either gives up nothing or counts what it gives up.
  pub enforce_cap_reported :
      (incoming : ℕ) (w : WalInner) (q : List DecodedFrame)
      → Represents hash w q
      → (enforce_cap incoming w ≡ w) ⊎ (dropped w < dropped (enforce_cap incoming w))
  unfolding enforce_cap
  enforce_cap_reported incoming w q (gs, l) =
      simp l.segments (enforce_rounds_reported incoming gs w)

rotate-dropped : (os : Os) (w : WalInner) → dropped (rotate os w).1 ≡ dropped w
unfolding rotate
rotate-dropped os w = ground arith

ensure-dropped :
    (os : Os) (size : ℕ) (w : WalInner) → dropped (ensure_active_with_room os size w).1 ≡ dropped w
unfolding ensure_active_with_room
ensure-dropped os size w = ground (arith, rotate-dropped os w)

module _ (hash : List ℕ → ℕ) where
  write_frame-dropped :
      (os : Os) (payload : List ℕ) (b : ℕ) (a : Option ActiveSegment) (w : WalInner)
      → dropped (write_frame hash os payload b a w).1 ≡ dropped w
  write_frame-dropped os payload b none w = refl
  write_frame-dropped os payload b (some a) w = ground arith

  append_after-dropped :
      (os : Os) (payload : List ℕ) (r : Outcome × WalInner)
      → dropped (append_after hash os payload r).1 ≡ dropped r.1
  append_after-dropped os payload (io_error, w) = refl
  append_after-dropped os payload (panicked, w) = refl
  append_after-dropped os payload (done, w) =
      write_frame-dropped os payload w.next_batch_seq w.active
        (record w { next_batch_seq = (w.next_batch_seq + 1) % u64_mod })

  pub append-dropped :
      (os : Os) (payload : List ℕ) (w : WalInner)
      → dropped (append hash os payload w).1
        ≡ dropped (enforce_cap (frame_len_on_disk (length payload)) w)
  unfolding append
  append-dropped os payload w =
      append_after-dropped os payload _
      ∙ ensure-dropped os (frame_len_on_disk (length payload))
          (enforce_cap (frame_len_on_disk (length payload)) w)

  pub append_grows :
      (os : Os) (payload : List ℕ) (w : WalInner) (q : List DecodedFrame)
      → Represents hash w q
      → dropped w ≤ dropped (append hash os payload w).1
  append_grows os payload w q h =
      let size = frame_len_on_disk (length payload) in
      elim (enforce_cap_reported hash size w q h) [
        | inl same ↦ omega (arith, append-dropped os payload w, ap dropped same)
        | inr grown ↦ omega (arith, append-dropped os payload w, grown)
      ]

repair-dropped :
    (os : Os) (a : Option ActiveSegment) (w : WalInner) → dropped (repair os a w) ≡ dropped w
repair-dropped os none w = refl
repair-dropped os (some a) w = refl

pub recover_active-dropped :
    (os : Os) (w : WalInner) → dropped (recover_active_after_error os w) ≡ dropped w
unfolding recover_active_after_error
recover_active-dropped os w = repair-dropped os w.active w
