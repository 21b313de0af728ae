-- ===== src/Wal/Examples.antt =====
-- The theorems on the log, applied to a small log.
use statix.Prelude.{◌≡◌, refl, [], ◌∷◌, arith, nat_eq, true, false, none, some}
use statix.Wal.Store.{
  ActiveSegment, has_backlog, done, io_error, append, enforce_cap, recover_active_after_error,
  peek_next,
}
use statix.Wal.Store.WholeSegments.{Whole}
use statix.Wal.Store.Cap.{Dropped, WithinCap, enforce_cap-Dropped}
use statix.Wal.Store.Append.{Appended, append-Appended}
use statix.Wal.Store.Repair.{Repaired, append-Repaired}
use statix.Wal.Store.Reads.{Peeked, peek_next-Peeked}
use statix.Wal.Store.Backlog.{has_backlog_lem}
use statix.Wal.Circuit.{circuit_state}
use statix.Wal.Drainer.{sweep}
use statix.Wal.Drainer.Sweep.{Swept, sweep-Swept}
use statix.Wal.Sample.{
  crc, third_frame, longer_log, longer_log-Represents, first_frame, second_frame, log,
  log-Represents, calm, calm-IsCalm, cut_short, cut_short-IsTorn, slow, slow-IsReadable, drain,
}

append-Appended_example :
    ((append crc calm (6 ∷ 7 ∷ []) log).0 ≡ done)
    × Appended crc
        (6 ∷ 7 ∷ [])
        log
        (append crc calm (6 ∷ 7 ∷ []) log).1
        (first_frame ∷ second_frame ∷ [])
append-Appended_example =
    append-Appended crc calm (6 ∷ 7 ∷ []) log (first_frame ∷ second_frame ∷ []) calm-IsCalm
      (record { some_bytes = omega arith; fits = omega arith }) (omega arith) log-Represents

append-Repaired_example :
    ((append crc cut_short (6 ∷ 7 ∷ 8 ∷ []) log).0 ≡ io_error)
    × Repaired crc log
        (recover_active_after_error cut_short (append crc cut_short (6 ∷ 7 ∷ 8 ∷ []) log).1)
        (first_frame ∷ second_frame ∷ [])
append-Repaired_example =
    append-Repaired crc cut_short (6 ∷ 7 ∷ 8 ∷ []) log (first_frame ∷ second_frame ∷ [])
      cut_short-IsTorn log-Represents

-- The first segment goes.
enforce_cap-Dropped_example :
    Dropped crc longer_log
      (enforce_cap 950 longer_log)
      (first_frame ∷ second_frame ∷ third_frame ∷ [])
    × (WithinCap crc 950 (enforce_cap 950 longer_log)
        × Whole 950 longer_log (enforce_cap 950 longer_log))
enforce_cap-Dropped_example =
    enforce_cap-Dropped crc 950 longer_log (first_frame ∷ second_frame ∷ third_frame ∷ [])
      longer_log-Represents

peek_next-Peeked_example :
    Peeked crc slow (first_frame ∷ second_frame ∷ []) (peek_next crc slow log)
peek_next-Peeked_example =
    peek_next-Peeked crc slow log (first_frame ∷ second_frame ∷ []) slow-IsReadable log-Represents

has_backlog_example :
    ((a : ActiveSegment) → log.active ≡ some a → has_backlog log ≡ true)
    × (log.active ≡ none → has_backlog log ≡ false)
has_backlog_example =
    has_backlog_lem crc log (first_frame ∷ second_frame ∷ []) log-Represents (λ h. cc)

sweep-Swept_example :
    Swept crc
      (first_frame ∷ second_frame ∷ [])
      (circuit_state drain.circuit)
      drain
      (sweep crc slow drain)
sweep-Swept_example =
    sweep-Swept crc slow (first_frame ∷ second_frame ∷ []) drain slow-IsReadable refl log-Represents
