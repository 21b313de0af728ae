-- ===== src/Wal/Store/Tail.antt =====
-- The end of the log that statix/src/wal/mod.rs keeps: the frames of a file in two parts, and the
-- place of the active segment.
use statix.Prelude.{
  ℕ, ◌<◌, ◌≤◌, ◌≡◌, refl, ap, sym, ◌∙◌, some, List, [], ◌∷◌, ◌++◌, last?, arith, append_assoc,
}
use statix.Wal.Segment.{DecodedFrame}
use statix.Wal.Segment.RoundTrip.{encode_frame}
use statix.Wal.Store.{ActiveSegment}
use statix.Wal.Store.Layout.{Group, encode_all, ActiveOk, After}

module _ (hash : List ℕ → ℕ) where
  pub encode_all-append_all :
      (fs gs : List DecodedFrame)
      → encode_all hash (fs ++ gs) ≡ encode_all hash fs ++ encode_all hash gs
  encode_all-append_all [] gs = refl
  encode_all-append_all (f ∷ fs) gs =
      ap (λ t. encode_frame hash f ++ t) (encode_all-append_all fs gs)
      ∙ sym (append_assoc (encode_frame hash f) (encode_all hash fs) (encode_all hash gs))

  pub active_last :
      (s : ℕ) (gs : List Group) (a : ActiveSegment)
      → After s gs
      → ActiveOk hash (some a) (last? gs)
      → s < a.seq
  active_last s [] a h ok = absurd ok
  active_last s (g ∷ []) a h ok = omega (arith, h.0, ok.0)
  active_last s (g ∷ k ∷ gs) a h ok = active_last s (k ∷ gs) a h.1 ok

  -- The active segment is not before the first.
  pub first_le :
      (g : Group) (gs : List Group) (a : ActiveSegment)
      → After g.seq gs
      → ActiveOk hash (some a) (last? (g ∷ gs))
      → g.seq ≤ a.seq
  first_le g [] a after ok = omega (arith, ok.0)
  first_le g (k ∷ gs) a after ok =
      let later : g.seq < a.seq = active_last g.seq (k ∷ gs) a after ok in omega arith
