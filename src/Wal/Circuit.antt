-- ===== src/Wal/Circuit.antt =====
pub mod Trips
-- The gateway-health circuit of statix/src/wal/mod.rs: the two process-wide atomics are a record
-- that each operation replaces.
use statix.Prelude.{
  ℕ, suc, ◌+◌, ◌%◌, ◌≤◌, ◌<◌, ◌≡◌, refl, Bool, true, false, not, ◌&&◌, List, [], ◌∷◌, ltb, leb,
  ◌==◌, if◌then◌else◌, u8_mod, min, ◌-◌, arith,
}

pub data CircuitState : Type 0 where
  closed half_open open_state : CircuitState

-- The `AtomicU8`s CIRCUIT and CONSECUTIVE_FAILURES.
pub record Circuit : Type 0 where
  pub circuit : ℕ
  pub consecutive_failures : ℕ

abbrev pub open_threshold : ℕ
open_threshold = 3

abbrev pub as_u8 : CircuitState → ℕ
as_u8 closed = 0
as_u8 half_open = 1
as_u8 open_state = 2

unfoldable pub circuit_state : Circuit → CircuitState
circuit_state c =
    if c.circuit == 0 then closed else if c.circuit == 1 then half_open else open_state

unfoldable pub set_circuit : CircuitState → Circuit → Circuit
set_circuit s c = record c { circuit = as_u8 s }

abbrev pub is_closed : CircuitState → Bool
is_closed closed = true
is_closed _ = false

abbrev pub is_open : CircuitState → Bool
is_open open_state = true
is_open _ = false

unfoldable pub record_post_success : Circuit → Circuit
unfolding circuit_state set_circuit
record_post_success c =
    let c' = record c { consecutive_failures = 0 } in
    if is_closed (circuit_state c') then c' else set_circuit closed c'

-- `fetch_add` on the `AtomicU8` wraps, `saturating_add` on the value that it returns does not.
unfoldable pub record_post_failure : Circuit → Circuit
unfolding circuit_state set_circuit
record_post_failure c =
    let prev = c.consecutive_failures in
    let c' = record c { consecutive_failures = (prev + 1) % u8_mod } in
    if leb open_threshold (min (prev + 1) (u8_mod - 1)) && not (is_open (circuit_state c'))
    then set_circuit open_state c'
    else c'

unfoldable pub try_half_open : Circuit → Circuit
unfolding circuit_state set_circuit
try_half_open c = if is_open (circuit_state c) then set_circuit half_open c else c
