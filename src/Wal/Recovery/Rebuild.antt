-- ===== src/Wal/Recovery/Rebuild.antt =====
-- `recover` of statix/src/wal/recovery.rs rebuilds the queue from the files that a crash leaves.
use statix.Prelude.{
  ◌∙◌, ℕ, ◌+◌, ◌-◌, ◌%◌, ◌^◌, ◌≤◌, ◌<◌, ◌≡◌, refl, inr, Bool, true, false, Option, none, some, List,
  [], ◌∷◌, ◌++◌, All, last?, u64_mod, arith,
}
use mathlib.Core.List.{Permᴰ}
use statix.Wal.Segment.{segment_header_len, encode_segment_header}
use statix.Wal.Store.{
  WalConfig, SegmentMeta, Disk, WalInner, inner_from_recovered, empty_inner, front_seq,
}
use statix.Wal.Store.Layout.{
  Group, encode_all, metas, sum_bytes, all_frames, Layout, Represents, Chain, ActiveOk, CursorOk,
}
use statix.Wal.Recovery.{
  active_of, Inspection, Scan, ok, scan_all, scan_start, finish, recover_found, recover, found_seqs,
  sort_unstable,
}
use statix.Wal.Recovery.Frames.{after_frames-fits}
use statix.Wal.Recovery.Files.{IsSound, Left}
use statix.Wal.Recovery.Order.{sort_unstable-Perm, sort_unstable-seqs_of}
use statix.Wal.Recovery.Scanning.{groups_of, seqs_of, HoldsAll, ScannedAll, scan_all-ScannedAll}

module _ (hash : List ℕ → ℕ) where
  Chain-files :
      (disk : Disk) (next_seq : ℕ) (cs : List (Left hash))
      → All
          (λ (c : Left hash). disk c.seq ≡ some (encode_segment_header ++ encode_all hash c.frames))
          cs
      → All (λ (c : Left hash). c.seq < next_seq) cs
      → (d : Disk) → HoldsAll hash d cs
      → Chain hash disk next_seq (groups_of hash cs)
  Chain-files disk next_seq [] h k d o = tt
  Chain-files disk next_seq (c ∷ cs) h k d o = (
    record { content = h.0; storable = c.storable; known = k.0 },
    ((o.1).0, Chain-files disk next_seq cs h.1 k.1 d (o.1).1),
  )

  active_of-last :
      (gs : List Group) → ActiveOk hash (active_of hash (last? (metas hash gs))) (last? gs)
  active_of-last [] = tt
  active_of-last (g ∷ []) = (refl, (refl, refl))
  active_of-last (g ∷ k ∷ gs) = active_of-last (k ∷ gs)

  cursor_start :
      (next : ℕ) (gs : List Group)
      → CursorOk hash
          (front_seq next (metas hash gs))
          segment_header_len
          none
          next
          (all_frames gs)
          gs
  cursor_start next [] = record { not_pending = refl; queue = refl; place = inr (refl, refl) }
  cursor_start next (g ∷ gs) = inr (record {
    past = [];
    rest = g.frames;
    on_front = refl;
    split = refl;
    reached = omega arith;
    pending_ok = tt;
    queue = refl;
  })

  inner_from_recovered-Layout :
      (cfg : WalConfig) (segments : List SegmentMeta) (total next batch : ℕ) (disk : Disk)
      (gs : List Group)
      → segments ≡ metas hash gs
      → Chain hash disk next gs
      → total ≡ sum_bytes hash gs
      → batch < 2 ^ 64
      → Layout hash gs
          (inner_from_recovered cfg segments
            (active_of hash (last? segments))
            total
            next
            batch
            disk)
          (all_frames gs)
  unfolding inner_from_recovered
  inner_from_recovered-Layout cfg segments total next batch disk gs h chain sum fits = record {
    segments = h;
    chain = chain;
    total = sum;
    active = rw h (active_of-last gs);
    batch_fits = fits;
    cursor = rw h (cursor_start next gs);
  }

  All-lt :
      (m next : ℕ) (cs : List (Left hash))
      → m < next
      → All (λ (c : Left hash). c.seq ≤ m) cs
      → All (λ (c : Left hash). c.seq < next) cs
  All-lt m next [] h k = tt
  All-lt m next (c ∷ cs) h k = (omega (arith, k.0), All-lt m next cs h k.1)

  finish-Represents :
      (cfg : WalConfig) (disk : Disk) (cs : List (Left hash)) (r : Bool × Scan)
      → HoldsAll hash disk cs
      → All (λ (c : Left hash). c.seq ≤ 2 ^ 64 - 2) cs
      → ScannedAll hash cs (scan_start hash disk) r
      → (w : WalInner) × ((finish hash cfg true r ≡ ok w)
          × Represents hash w (all_frames (groups_of hash cs)))
  finish-Represents cfg disk cs (false, s) held small a = absurd (cc (a.fine))
  finish-Represents cfg disk cs (true, s) held small a =
      let top : s.max_seq ≤ 2 ^ 64 - 2 = a.bound (2 ^ 64 - 2) (omega arith) small in
      let next : s.max_seq + 1 ≡ (s.max_seq + 1) % u64_mod = omega arith in
      let known =
        Chain-files s.disk ((s.max_seq + 1) % u64_mod) cs a.files
          (All-lt s.max_seq ((s.max_seq + 1) % u64_mod) cs (omega arith) a.top) disk held in
      let fits : s.next_batch_seq < 2 ^ 64 =
        rw a.batch (after_frames-fits (all_frames (groups_of hash cs)) 0 (omega arith)) in
      (
        _,
        (
          refl,
          (
            groups_of hash cs,
            inner_from_recovered-Layout cfg s.segments s.total_bytes ((s.max_seq + 1) % u64_mod)
                s.next_batch_seq s.disk (groups_of hash cs) a.segments known
                (omega (arith, a.total)) fits,
          ),
        ),
      )

  empty_inner-Represents :
      (cfg : WalConfig) (disk : Disk) → Represents hash (empty_inner cfg disk) []
  unfolding empty_inner
  empty_inner-Represents cfg disk = (
    [],
    record {
      segments = refl;
      chain = tt;
      total = refl;
      active = tt;
      batch_fits = omega arith;
      cursor = record { not_pending = refl; queue = refl; place = inr (refl, refl) };
    },
  )

  recover_found-Represents :
      (cfg : WalConfig) (disk : Disk) (os : ℕ → Inspection) (found : List ℕ) (cs : List (Left hash))
      → ((n : ℕ) → IsSound (os n))
      → HoldsAll hash disk cs
      → All (λ (c : Left hash). c.seq ≤ 2 ^ 64 - 2) cs
      → sort_unstable found ≡ seqs_of hash cs
      → (w : WalInner) × ((recover_found hash cfg disk os true found ≡ ok w)
          × Represents hash w (all_frames (groups_of hash cs)))
  unfolding sort_unstable
  recover_found-Represents cfg disk os [] [] sound held small e =
      (_, (refl, empty_inner-Represents cfg disk))
  recover_found-Represents cfg disk os [] (c ∷ cs) sound held small e = absurd cc
  recover_found-Represents cfg disk os (n ∷ ns) cs sound held small e = rw e (
      finish-Represents cfg disk cs (scan_all hash os (seqs_of hash cs) (scan_start hash disk)) held
        small (scan_all-ScannedAll hash os cs (scan_start hash disk) sound held))

  -- After a crash that left any number of whole frames in each file and a torn or damaged end
  -- behind them, `recover` returns a store whose queue is all whole frames, the oldest first, with
  -- the torn ends cut off, so that it can be written to and read at once. The listing may name
  -- the segments in any order, and other files besides; every call succeeds, and the sequence
  -- numbers leave room for the next.
  pub recover-Represents :
      (cfg : WalConfig) (disk : Disk) (entries : List (Option (List ℕ))) (os : ℕ → Inspection)
      (cs : List (Left hash))
      → ((n : ℕ) → IsSound (os n))
      → HoldsAll hash disk cs
      → All (λ (c : Left hash). c.seq ≤ 2 ^ 64 - 2) cs
      → Permᴰ (found_seqs entries) (seqs_of hash cs)
      → (w : WalInner) × ((recover hash cfg
              (record { exists = true; entries = some entries; disk = disk })
              os
              true
            ≡ ok w)
          × Represents hash w (all_frames (groups_of hash cs)))
  unfolding recover
  recover-Represents cfg disk entries os cs sound held small listed =
      recover_found-Represents cfg disk os (found_seqs entries) cs sound held small
        (sort_unstable-Perm listed ∙ sort_unstable-seqs_of hash disk cs held)
