-- ===== src/Wal/Circuit/Trips.antt =====
-- When the circuit of statix/src/wal/mod.rs opens.
use statix.Prelude.{ℕ, zero, suc, ◌%◌, ◌≤◌, ◌≡◌, leb, ◌==◌, if◌then◌else◌, arith}
use statix.Wal.Circuit.{
  Circuit, closed, half_open, open_state, circuit_state, record_post_success, record_post_failure,
  try_half_open,
}

-- A run of failed POSTs.
abbrev pub failures : ℕ → Circuit → Circuit
failures zero c = c
failures (suc n) c = record_post_failure (failures n c)

record_post_success_fields :
    (c : Circuit)
    → ((record_post_success c).circuit ≡ 0) × ((record_post_success c).consecutive_failures ≡ 0)
unfolding record_post_success
record_post_success_fields c = ground arith

failures_fields :
    (n : ℕ) (c : Circuit)
    → ((failures n (record_post_success c)).circuit ≡ (if leb 3 n then 2 else 0))
      × ((failures n (record_post_success c)).consecutive_failures ≡ n % 256)
unfolding record_post_failure
failures_fields zero c = ground (arith, record_post_success_fields c)
failures_fields (suc n) c = ground (arith, failures_fields n c)

-- After a successful POST, in whatever state the circuit was, a run of n failures leaves it open
-- when n has reached the threshold of three, and closed before that.
pub failures-success :
    (n : ℕ) (c : Circuit)
    → circuit_state (failures n (record_post_success c)) ≡ (if leb 3 n then open_state else closed)
unfolding circuit_state
failures-success n c = ground (arith, failures_fields n c)

-- The trial after an outage of n ≥ 3 failures: one more failure opens the circuit again exactly
-- when n modulo 256 is at least two; otherwise the 8-bit failure count has wrapped, and the
-- circuit stays half open.
pub trial_failure :
    (n : ℕ) (c : Circuit)
    → 3 ≤ n
    → circuit_state (record_post_failure (try_half_open (failures n (record_post_success c))))
      ≡ (if leb 2 (n % 256) then open_state else half_open)
unfolding circuit_state record_post_failure try_half_open
trial_failure n c h = ground (arith, failures_fields n c)

-- A successful POST closes the circuit from every state, and a trial can only be started from the
-- open state: every other state is left as it is.
pub success_closes :
    (c : Circuit)
    → (circuit_state (record_post_success c) ≡ closed)
      × (circuit_state (try_half_open c) ≡ (if c.circuit == 0 then closed else half_open))
unfolding circuit_state record_post_success try_half_open
success_closes c = ground arith
