-- ===== src/Wal/Store/Append.antt =====
-- `append` of statix/src/wal/mod.rs puts a frame at the end of the queue.
use statix.Prelude.{
  ℕ, ◌+◌, ◌^◌, ◌≤◌, ◌<◌, ◌≡◌, ◌⊎◌, ap, refl, inl, inr, some, List, [], ◌∷◌, ◌++◌, length, arith,
  ◌%◌, u64_mod,
}
use statix.Wal.Segment.{DecodedFrame, frame_len_on_disk}
use statix.Wal.Segment.RoundTrip.{IsFrameable}
use statix.Wal.Store.{
  Os, WalInner, Outcome, done, io_error, panicked, append, append_after, enforce_cap,
  ensure_active_with_room,
}
use statix.Wal.Store.Layout.{Layout, Represents, ActiveOk}
use statix.Wal.Store.Cap.{enforce_cap-Dropped, enforce_cap_fits}
use statix.Wal.Store.Rotate.{IsCalm, last?-append}
use statix.Wal.Store.FrameWrite.{write_frame-Layout}
use statix.Wal.Store.Reported.{dropped, enforce_cap_reported, append-dropped}
use statix.Wal.Store.Room.{Ready, ensure-Ready, Ready-batch}

module _ (hash : List ℕ → ℕ) where
  -- The frame that `append` writes.
  abbrev pub new_frame : List ℕ → WalInner → DecodedFrame
  new_frame payload w = record { batch_seq = w.next_batch_seq; payload = payload }

  abbrev Pushed : List ℕ → Outcome × WalInner → DecodedFrame → List DecodedFrame → Type 0
  Pushed payload r f q = (r.0 ≡ done) × Represents hash r.1 (q ++ f ∷ [])

  append_after-Pushed :
      (os : Os) (payload : List ℕ) (batch : ℕ) (r : Outcome × WalInner) (q : List DecodedFrame)
      → IsCalm os
      → IsFrameable payload
      → hash payload < 2 ^ 32
      → Ready hash batch r q
      → Pushed payload
          (append_after hash os payload r)
          (record { batch_seq = batch; payload = payload })
          q
  append_after-Pushed os payload batch (io_error, w) q calm ok crc r = absurd (cc (r.fine))
  append_after-Pushed os payload batch (panicked, w) q calm ok crc r = absurd (cc (r.fine))
  append_after-Pushed os payload batch (done, w) q calm ok crc r =
      let l = r.layout in
      let w' = record w { next_batch_seq = (w.next_batch_seq + 1) % u64_mod } in
      let l' : Layout hash (r.init ++ r.last ∷ []) w' q = record {
        segments = l.segments;
        chain = l.chain;
        total = l.total;
        active = l.active;
        batch_fits = omega arith;
        cursor = l.cursor;
      } in
      let facts : ActiveOk hash (some r.active) (some r.last) =
        rw (r.is_active, last?-append r.init r.last) at l.active in
      let pushed =
        write_frame-Layout hash os payload w.next_batch_seq r.active r.init r.last w' q calm
          (record { frameable = ok; seq_fits = l.batch_fits; crc_fits = crc }) facts.0 (facts.1).0
          (facts.1).1 l' in
      rw (r.is_active, ← r.same_batch) (pushed.0, (_, pushed.1))

  -- What `append` does to the queue: the kept frames, and the new one behind them.
  pub record Appended (payload : List ℕ) (w w' : WalInner) (q : List DecodedFrame) : Type 0 where
    pub lost : List DecodedFrame
    pub kept : List DecodedFrame
    pub split : lost ++ kept ≡ q
    pub none_lost : w.total_bytes + frame_len_on_disk (length payload) ≤ w.cfg.max_bytes → lost ≡ []
    pub reported : (lost ≡ []) ⊎ (dropped w < dropped w')
    pub represents : Represents hash w' (kept ++ new_frame payload w ∷ [])

  -- When the system's calls succeed, `append` returns `Ok` and puts the payload at the end of the
  -- queue, under the next batch number, whether it had to rotate or not; frames are lost only at
  -- the front of the queue, none while the new frame fits into the cap, and never without `dropped_bytes` growing. The payload has one
  -- byte to 16 MiB, and its checksum 32 bits.
  pub append-Appended :
      (os : Os) (payload : List ℕ) (w : WalInner) (q : List DecodedFrame)
      → IsCalm os
      → IsFrameable payload
      → hash payload < 2 ^ 32
      → Represents hash w q
      → ((append hash os payload w).0 ≡ done) × Appended payload w (append hash os payload w).1 q
  unfolding append
  append-Appended os payload w q calm ok crc (gs, l) =
      elim (enforce_cap_reported hash size w q (gs, l)) [
        | inl same ↦
            let pushed =
              append_after-Pushed os payload w.next_batch_seq _ q calm ok crc
                (ensure-Ready hash os size gs w q calm.rotates l) in
            rw same (
              pushed.0,
              record {
                lost = [];
                kept = q;
                split = refl;
                none_lost = λ _. refl;
                reported = inl refl;
                represents = pushed.1;
              },
            )
        | inr grown ↦
            let d = (enforce_cap-Dropped hash size w q (gs, l)).0 in
            let w1 = enforce_cap size w in
            let ready =
              Ready-batch hash w1.next_batch_seq w.next_batch_seq
                (ensure_active_with_room os size w1) d.kept d.same_batch
                (ensure-Ready hash os size d.represents.0 w1 d.kept calm.rotates d.represents.1) in
            let pushed =
              append_after-Pushed os payload w.next_batch_seq (ensure_active_with_room os size w1)
                d.kept calm ok crc ready in
            (
              pushed.0,
              record {
                lost = d.lost;
                kept = d.kept;
                split = d.split;
                none_lost = λ h.
                    absurd
                      (omega (arith, grown, ap dropped (enforce_cap_fits hash size w q (gs, l) h)));
                reported = inr (omega (arith, grown, append-dropped hash os payload w));
                represents = pushed.1;
              },
            )
      ]
    where
      size : ℕ
      size = frame_len_on_disk (length payload)
