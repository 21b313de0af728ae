-- ===== src/Wal/Store/WholeSegments.antt =====
-- The segments that `enforce_cap` of statix/src/wal/mod.rs removes, and why.
use statix.Prelude.{
  ℕ, ◌+◌, ◌-◌, ◌≤◌, ◌<◌, ◌≡◌, refl, ap, sym, ◌∙◌, ◌⊎◌, inl, inr, List, [], ◌∷◌, ◌++◌, ltb, ltb→lt,
  ◌==◌, if_elim, arith,
}
use statix.Wal.Store.{WalInner, SegmentMeta, drop_front, enforce_rounds}

abbrev pub segments_bytes : List SegmentMeta → ℕ
segments_bytes [] = 0
segments_bytes (m ∷ ms) = m.bytes + segments_bytes ms

abbrev pub segments_frames : List SegmentMeta → ℕ
segments_frames [] = 0
segments_frames (m ∷ ms) = m.frames + segments_frames ms

-- The last segment that went had to go: with it the cap was exceeded.
pub record Needed (incoming : ℕ) (gone : List SegmentMeta) (w' : WalInner) : Type 0 where
  pub earlier : List SegmentMeta
  pub last : SegmentMeta
  pub ends : gone ≡ earlier ++ last ∷ []
  pub over : w'.cfg.max_bytes < w'.total_bytes + last.bytes + incoming

-- Whole segments are gone, the oldest, with their bytes and their frames, and no more than needed.
pub record Whole (incoming : ℕ) (w w' : WalInner) : Type 0 where
  pub gone : List SegmentMeta
  pub split : gone ++ w'.segments ≡ w.segments
  pub total : segments_bytes gone + w'.total_bytes ≡ w.total_bytes
  pub batches : w'.metrics.dropped_batches ≡ w.metrics.dropped_batches + segments_frames gone
  pub needed : (gone ≡ []) ⊎ Needed incoming gone w'

none_gone : (incoming : ℕ) (w : WalInner) → Whole incoming w w
none_gone incoming w = record {
  gone = [];
  split = refl;
  total = omega arith;
  batches = omega arith;
  needed = inl refl;
}

-- One segment goes.
record OneGone (m m' : SegmentMeta) (ms : List SegmentMeta) (w w' : WalInner) : Type 0 where
  segments : w'.segments ≡ m' ∷ ms
  total : w'.total_bytes ≡ w.total_bytes - m.bytes
  batches : w'.metrics.dropped_batches ≡ w.metrics.dropped_batches + m.frames
  cfg : w'.cfg ≡ w.cfg

drop_front-OneGone :
    (m m' : SegmentMeta) (ms : List SegmentMeta) (w : WalInner)
    → OneGone m m' ms w (drop_front m m' ms w)
unfolding drop_front
drop_front-OneGone m m' ms w =
    if_elim (OneGone m m' ms w) (w.read_seq == m.seq) _ _
      (λ _. record { segments = refl; total = refl; batches = refl; cfg = refl })
      (λ _. record { segments = refl; total = refl; batches = refl; cfg = refl })

one_more :
    (incoming : ℕ) (m m' : SegmentMeta) (ms : List SegmentMeta) (w s w' : WalInner)
    → w.segments ≡ m ∷ m' ∷ ms
    → m.bytes ≤ w.total_bytes
    → w.cfg.max_bytes < w.total_bytes + incoming
    → w'.cfg ≡ w.cfg
    → OneGone m m' ms w s
    → Whole incoming s w'
    → Whole incoming w w'
one_more incoming m m' ms w s w' segments has over cfg one h = record {
  gone = m ∷ h.gone;
  split = ap (λ t. m ∷ t) (h.split ∙ one.segments) ∙ sym segments;
  total = omega (arith, h.total, one.total);
  batches = omega (arith, h.batches, one.batches);
  needed = inr (elim h.needed [
    | inl none_more ↦ record {
      earlier = [];
      last = m;
      ends = ap (λ t. m ∷ t) none_more;
      over = rw cfg (omega (arith, h.total, one.total, ap segments_bytes none_more));
    }
    | inr n ↦ record {
      earlier = m ∷ n.earlier;
      last = n.last;
      ends = ap (λ t. m ∷ t) n.ends;
      over = n.over;
    }
  ]);
}

enforce_rounds-cfg :
    (incoming : ℕ) (ms : List SegmentMeta) (w : WalInner)
    → (enforce_rounds incoming ms w).cfg ≡ w.cfg
unfolding enforce_rounds
enforce_rounds-cfg incoming [] w = refl
enforce_rounds-cfg incoming (m ∷ []) w = refl
enforce_rounds-cfg incoming (m ∷ m' ∷ ms) w =
    if_elim (λ (t : WalInner). t.cfg ≡ w.cfg) (ltb w.cfg.max_bytes (w.total_bytes + incoming)) _ w
      (λ _. enforce_rounds-cfg incoming (m' ∷ ms) _ ∙ (drop_front-OneGone m m' ms w).cfg)
      (λ _. refl)

pub enforce_rounds-Whole :
    (incoming : ℕ) (ms : List SegmentMeta) (w : WalInner)
    → w.segments ≡ ms
    → w.total_bytes ≡ segments_bytes ms
    → Whole incoming w (enforce_rounds incoming ms w)
unfolding enforce_rounds
enforce_rounds-Whole incoming [] w segments total = none_gone incoming w
enforce_rounds-Whole incoming (m ∷ []) w segments total = none_gone incoming w
enforce_rounds-Whole incoming (m ∷ m' ∷ ms) w segments total =
    let s = drop_front m m' ms w in
    let one = drop_front-OneGone m m' ms w in
    if_elim (Whole incoming w) (ltb w.cfg.max_bytes (w.total_bytes + incoming)) _ w
      (λ exceeded.
        one_more incoming m m' ms w s (enforce_rounds incoming (m' ∷ ms) s) segments (omega arith)
          (ltb→lt _ _ exceeded) (enforce_rounds-cfg incoming (m' ∷ ms) s ∙ one.cfg) one
          (enforce_rounds-Whole incoming (m' ∷ ms) s one.segments (omega (arith, one.total))))
      (λ _. none_gone incoming w)
