-- ===== src/Wal/Writer/Held.antt =====
-- The log of statix/src/wal/writer.rs as the payloads it holds, and what one payload does to it.
use statix.Prelude.{
  ℕ, ◌+◌, ◌^◌, ◌≤◌, ◌<◌, ◌≡◌, arith, refl, ap, sym, ◌∙◌, ◌⊎◌, inl, inr, List, [], ◌∷◌, ◌++◌,
  append_assoc, append-nil,
}
use statix.Wal.Segment.{DecodedFrame}
use statix.Wal.Segment.RoundTrip.{IsFrameable}
use statix.Wal.Store.{
  Os, Outcome, done, io_error, panicked, WalInner, append, recover_active_after_error,
}
use statix.Wal.Store.Layout.{Represents}
use statix.Wal.Store.Rotate.{IsCalm}
use statix.Wal.Store.Append.{append-Appended, new_frame}
use statix.Wal.Store.Repair.{IsTorn, append-Repaired}
use statix.Wal.Store.Reported.{dropped, append_grows, recover_active-dropped}
use statix.Wal.Writer.{Received, Round, append_outcome}

abbrev pub payloads : List DecodedFrame → List (List ℕ)
payloads [] = []
payloads (f ∷ fs) = f.payload ∷ payloads fs

pub payloads-append : (fs gs : List DecodedFrame) → payloads (fs ++ gs) ≡ payloads fs ++ payloads gs
payloads-append [] gs = refl
payloads-append (f ∷ fs) gs = ap (λ t. f.payload ∷ t) (payloads-append fs gs)

outcome_done : (os : Os) (r : Outcome × WalInner) → r.0 ≡ done → append_outcome os r ≡ (r.1, 0)
outcome_done os (done, w) h = refl
outcome_done os (io_error, w) h = absurd cc
outcome_done os (panicked, w) h = absurd cc

outcome_error :
    (os : Os) (r : Outcome × WalInner)
    → r.0 ≡ io_error
    → append_outcome os r ≡ (recover_active_after_error os r.1, 1)
outcome_error os (done, w) h = absurd cc
outcome_error os (io_error, w) h = refl
outcome_error os (panicked, w) h = absurd cc

still_reported :
    (base old new : ℕ) (gone : List (List ℕ)) (lost : List DecodedFrame)
    → base ≤ old
    → old ≤ new
    → (gone ≡ []) ⊎ (base < old)
    → (lost ≡ []) ⊎ (old < new)
    → (gone ++ payloads lost ≡ []) ⊎ (base < new)
still_reported base old new gone lost h up (inl none_gone) (inl none_lost) =
    inl (rw (none_gone, none_lost) refl)
still_reported base old new gone lost h up (inl none_gone) (inr grown) = inr (omega arith)
still_reported base old new gone lost h up (inr counted) k = inr (omega arith)

module _ (hash : List ℕ → ℕ) where
  -- A payload that a frame can carry, with every call on its way succeeding.
  pub record IsWritten (b : Received) : Type 0 where
    pub calm : IsCalm b.os
    pub frameable : IsFrameable b.payload
    pub crc_fits : hash b.payload < 2 ^ 32

  -- Each payload is written whole, or its rotation or its write fails and is undone.
  abbrev pub Decided : List Received → Type 0
  Decided [] = Unit
  Decided (b ∷ bs) = (IsWritten b ⊎ IsTorn b.os) × Decided bs

  abbrev pub stored_one : (b : Received) → IsWritten b ⊎ IsTorn b.os → List (List ℕ)
  stored_one b (inl h) = b.payload ∷ []
  stored_one b (inr h) = []

  -- The payloads that are written.
  abbrev pub stored : (bs : List Received) → Decided bs → List (List ℕ)
  stored [] h = []
  stored (b ∷ bs) h = stored_one b h.0 ++ stored bs h.1

  -- The writes that fail.
  abbrev pub failed_one : (b : Received) → IsWritten b ⊎ IsTorn b.os → ℕ
  failed_one b (inl h) = 0
  failed_one b (inr h) = 1

  abbrev pub failures_in : (bs : List Received) → Decided bs → ℕ
  failures_in [] h = 0
  failures_in (b ∷ bs) h = failed_one b h.0 + failures_in bs h.1

  -- The log holds the last of these payloads, in their order, and the others went at its front,
  -- which `dropped_bytes` shows against what it was at first.
  pub record Holds (first : ℕ) (w : WalInner) (all : List (List ℕ)) : Type 0 where
    pub gone : List (List ℕ)
    pub kept : List DecodedFrame
    pub split : gone ++ payloads kept ≡ all
    pub grown : first ≤ dropped w
    pub reported : (gone ≡ []) ⊎ (first < dropped w)
    pub represents : Represents hash w kept

  -- The same of a round, with the writes that failed in it.
  abbrev pub HoldsAt : ℕ → Round → List (List ℕ) → ℕ → Type 0
  HoldsAt first r all errors = Holds first r.inner all × (r.write_errors ≡ errors)

  pub written_outcome :
      (base : ℕ) (b : Received) (w : WalInner) (all : List (List ℕ))
      → IsWritten b
      → Holds base w all
      → let r = append_outcome b.os (append hash b.os b.payload w) in
        Holds base r.0 (all ++ b.payload ∷ []) × (r.1 ≡ 0)
  written_outcome base b w all h l =
      let r =
        append-Appended hash b.os b.payload w l.kept h.calm h.frameable h.crc_fits l.represents in
      let a = r.1 in
      let up = append_grows hash b.os b.payload w l.kept l.represents in
      rw (outcome_done b.os (append hash b.os b.payload w) r.0) (
        record {
          gone = l.gone ++ payloads a.lost;
          kept = a.kept ++ new_frame hash b.payload w ∷ [];
          split = rw (payloads-append a.kept (new_frame hash b.payload w ∷ [])) (
              append_assoc l.gone (payloads a.lost) (payloads a.kept ++ b.payload ∷ [])
              ∙ (ap (λ t. l.gone ++ t)
                    (sym (append_assoc (payloads a.lost) (payloads a.kept) (b.payload ∷ []))
                      ∙ ap (λ t. t ++ b.payload ∷ [])
                          (sym (payloads-append a.lost a.kept) ∙ ap payloads a.split))
                  ∙ (sym (append_assoc l.gone (payloads l.kept) (b.payload ∷ []))
                      ∙ ap (λ t. t ++ b.payload ∷ []) l.split)));
          grown = omega (arith, l.grown, up);
          reported =
              still_reported base (dropped w) (dropped (append hash b.os b.payload w).1) l.gone
                a.lost l.grown up l.reported a.reported;
          represents = a.represents;
        },
        refl,
      )

  pub torn_outcome :
      (base : ℕ) (b : Received) (w : WalInner) (all : List (List ℕ))
      → IsTorn b.os
      → Holds base w all
      → let r = append_outcome b.os (append hash b.os b.payload w) in
        Holds base r.0 (all ++ []) × (r.1 ≡ 1)
  torn_outcome base b w all h l =
      let r = append-Repaired hash b.os b.payload w l.kept h l.represents in
      let a = r.1 in
      let failed = append hash b.os b.payload w in
      let up : dropped w ≤ dropped (recover_active_after_error b.os failed.1) = omega (
        arith,
        append_grows hash b.os b.payload w l.kept l.represents,
        recover_active-dropped b.os failed.1,
      ) in
      rw (outcome_error b.os failed r.0) (
        record {
          gone = l.gone ++ payloads a.lost;
          kept = a.kept;
          split =
              append_assoc l.gone (payloads a.lost) (payloads a.kept)
              ∙ (ap (λ t. l.gone ++ t) (sym (payloads-append a.lost a.kept) ∙ ap payloads a.split)
                  ∙ (l.split ∙ sym (append-nil all)));
          grown = omega (arith, l.grown, up);
          reported =
              still_reported base (dropped w) (dropped (recover_active_after_error b.os failed.1))
                l.gone a.lost l.grown up l.reported a.reported;
          represents = a.represents;
        },
        refl,
      )
