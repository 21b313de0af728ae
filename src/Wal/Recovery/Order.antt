-- ===== src/Wal/Recovery/Order.antt =====
-- The order in which statix/src/wal/recovery.rs takes the segments of a listing.
use statix.Prelude.{ℕ, ◌≡◌, refl, ap, ◌∙◌, List, [], ◌∷◌, arith}
use mathlib.Core.List.{Permᴰ}
use statix.Wal.Store.{Disk}
use statix.Wal.Store.Layout.{After}
use statix.Wal.Recovery.{insert_sorted, sort_unstable}
use statix.Wal.Recovery.Files.{Left}
use statix.Wal.Recovery.Scanning.{seqs_of, groups_of, HoldsAll}

insert_sorted-insert_sorted :
    (m n : ℕ) (ns : List ℕ)
    → insert_sorted m (insert_sorted n ns) ≡ insert_sorted n (insert_sorted m ns)
unfolding insert_sorted
insert_sorted-insert_sorted m n [] = ground arith
insert_sorted-insert_sorted m n (k ∷ ns) = ground (arith, insert_sorted-insert_sorted m n ns)

-- The order of the listing does not matter.
pub sort_unstable-Perm : {ms ns : List ℕ} → Permᴰ ms ns → sort_unstable ms ≡ sort_unstable ns
unfolding sort_unstable
sort_unstable-Perm Permᴰ.nil = refl
sort_unstable-Perm (Permᴰ.cons {b = b} {l₁ = l} e p) =
    ap (λ a. insert_sorted a (sort_unstable l)) e ∙ ap (insert_sorted b) (sort_unstable-Perm p)
sort_unstable-Perm (Permᴰ.swap {a = a} {b = b} {l = l} e f) =
    rw (← f, ← e) (insert_sorted-insert_sorted a b (sort_unstable l))
sort_unstable-Perm (Permᴰ.trans p q) = sort_unstable-Perm p ∙ sort_unstable-Perm q

module _ (hash : List ℕ → ℕ) where
  insert_front :
      (n : ℕ) (cs : List (Left hash))
      → After n (groups_of hash cs)
      → insert_sorted n (seqs_of hash cs) ≡ n ∷ seqs_of hash cs
  unfolding insert_sorted
  insert_front n [] h = refl
  insert_front n (c ∷ cs) h = ground (arith, h.0)

  -- Numbers that ascend are in order.
  pub sort_unstable-seqs_of :
      (disk : Disk) (cs : List (Left hash))
      → HoldsAll hash disk cs
      → sort_unstable (seqs_of hash cs) ≡ seqs_of hash cs
  unfolding sort_unstable
  sort_unstable-seqs_of disk [] h = refl
  sort_unstable-seqs_of disk (c ∷ cs) h =
      ap (insert_sorted c.seq) (sort_unstable-seqs_of disk cs (h.1).1)
      ∙ insert_front c.seq cs (h.1).0
