-- ===== src/Agent/Pipeline/Examples.antt =====
-- The theorems on the way of a batch, applied to a small log.
use statix.Prelude.{refl, inl, true, false, some, [], ◌∷◌, arith}
use statix.Wal.Circuit.{circuit_state}
use statix.Wal.Writer.{Received}
use statix.Wal.Writer.Held.{Decided}
use statix.Wal.Sample.{
  crc, first_frame, second_frame, log, log-Represents, calm, calm-IsCalm, slow, slow-IsReadable,
  healthy,
}
use statix.Agent.Output.{send_error, status}
use statix.Agent.Pipeline.{
  Pipeline, posted, written, replayed, Reach, here, enqueued, next, enqueue, post, write,
  replay_step,
}
use statix.Agent.Pipeline.Losses.{Conserved}
use statix.Agent.Pipeline.Conserved.{everything, Reach-Conserved}
use statix.Agent.Pipeline.Runs.{Live, Delivers}
use statix.Agent.Pipeline.Delivery.{can_deliver_all}

-- One body is queued, one is in the worker's hand, and one is on its way to the writer.
abbrev start : Pipeline
start = record {
  queues = record {
    retry = record { items = (9 ∷ []) ∷ []; capacity = 2; closed = false };
    wal = some (record {
      enabled = true;
      append_tx = record { items = (6 ∷ 7 ∷ []) ∷ []; capacity = 4; closed = false };
    });
    dropped = [];
  };
  store = log;
  worker = record { backoff_secs = 1; circuit = healthy; sleeps = []; posts = 0 };
  in_hand = some (8 ∷ []);
  delivered = [];
  discarded = [];
  write_errors = 0;
}

abbrev to_write : Received
to_write = record { payload = 6 ∷ 7 ∷ []; os = calm; interval_elapsed = false }

abbrev can_write : Decided crc (to_write ∷ [])
can_write = (
  inl (record {
    calm = calm-IsCalm;
    frameable = record { some_bytes = omega arith; fits = omega arith };
    crc_fits = omega arith;
  }),
  tt,
)

-- A batch comes in, the writer and the drainer move, and the worker delivers.
abbrev at_the_end : Pipeline
at_the_end =
    post 1 30 (send_error ∷ status 200 ∷ [])
      (replay_step crc slow (write crc to_write [] [] (enqueue false (5 ∷ []) start)))

run : Reach crc 1 30 start ((5 ∷ []) ∷ []) at_the_end
unfolding enqueue write
run =
    next
      (next (next (enqueued here false (5 ∷ [])) (written _ to_write [] [] can_write refl))
        (replayed _ slow slow-IsReadable))
      (posted _ (send_error ∷ status 200 ∷ []))

Reach-Conserved_example :
    Conserved crc 0 ((5 ∷ []) ∷ everything crc (first_frame ∷ second_frame ∷ []) start) at_the_end
Reach-Conserved_example = Reach-Conserved crc (first_frame ∷ second_frame ∷ []) log-Represents run

start-Live : Live crc 1 30 (first_frame ∷ second_frame ∷ []) start
unfolding circuit_state
start-Live = record {
  represents = log-Represents;
  up = refl;
  alive = refl;
  room = omega arith;
  active = _;
  is_active = refl;
}

can_deliver_all_example :
    Delivers crc 1 30 [] start ((8 ∷ []) ∷ (9 ∷ []) ∷ (1 ∷ 2 ∷ 3 ∷ []) ∷ (4 ∷ 5 ∷ []) ∷ [])
can_deliver_all_example =
    can_deliver_all crc 1 30 slow (first_frame ∷ second_frame ∷ []) start slow-IsReadable start-Live
