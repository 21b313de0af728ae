-- ===== src/Ebpf/Drops.antt =====
-- The drops of statix-ebpf/src/main.rs, as statix/src/loader.rs exports them.
use statix.Prelude.{
  ℕ, ◌+◌, ◌≤◌, ◌<◌, ◌≡◌, refl, ap, sym, ◌∙◌, true, false, some, List, [], ◌∷◌, ◌++◌, length, ◌^◌,
  if◌then◌else◌, u64_mod, nat_eq, arith, append_assoc, Bool-cases, inl, inr, append-nil,
}
use statix.Prelude.Map.{Map, get, insert}
use Prim.Native.Nat.{◌%◌}
use statix.Ebpf.{
  StatixEvent, Exec, Maps, slot, record_ring_drop, event_of, submit, capture_identity, capture,
  Monitor, sum_values, monitor_tick,
}

sum_values-insert :
    (cpu n : ℕ) (m : Map ℕ ℕ) → sum_values (insert cpu n m) + slot cpu m ≡ sum_values m + n
unfolding get insert
sum_values-insert cpu n [] = omega arith
sum_values-insert cpu n ((j, k) ∷ m) = ground (arith, sum_values-insert cpu n m)

slot_le : (cpu : ℕ) (m : Map ℕ ℕ) → slot cpu m ≤ sum_values m
unfolding get
slot_le cpu [] = omega arith
slot_le cpu ((j, k) ∷ m) = ground (arith, slot_le cpu m)

record_ring_drop-sum :
    (cpu : ℕ) (m : Map ℕ ℕ)
    → sum_values m + 1 < 2 ^ 64
    → sum_values (record_ring_drop cpu m) ≡ sum_values m + 1
unfolding record_ring_drop
record_ring_drop-sum cpu m h =
    omega (arith, sum_values-insert cpu ((slot cpu m + 1) % u64_mod) m, slot_le cpu m)

-- The execs that found room, as events, and how many did not.
abbrev pub submitted : List Exec → List StatixEvent
submitted [] = []
submitted (x ∷ xs) = if x.has_room then event_of x ∷ submitted xs else submitted xs

abbrev pub refused : List Exec → ℕ
refused [] = 0
refused (x ∷ xs) = if x.has_room then refused xs else refused xs + 1

submitted-room :
    (x : Exec) (xs : List Exec) → x.has_room ≡ true → submitted (x ∷ xs) ≡ event_of x ∷ submitted xs
submitted-room x xs h = rw h

submitted-full :
    (x : Exec) (xs : List Exec) → x.has_room ≡ false → submitted (x ∷ xs) ≡ submitted xs
submitted-full x xs h = rw h

refused-room : (x : Exec) (xs : List Exec) → x.has_room ≡ true → refused (x ∷ xs) ≡ refused xs
refused-room x xs h = rw h

refused-full : (x : Exec) (xs : List Exec) → x.has_room ≡ false → refused (x ∷ xs) ≡ refused xs + 1
refused-full x xs h = rw h

capture-room : (x : Exec) (m : Maps) → x.has_room ≡ true → capture_identity x m ≡ submit x m
unfolding capture_identity
capture-room x m h = rw h

capture-full :
    (x : Exec) (m : Maps)
    → x.has_room ≡ false
    → capture_identity x m ≡ record m { ring_drops = record_ring_drop x.cpu_id m.ring_drops }
unfolding capture_identity
capture-full x m h = rw h

record Captured (xs : List Exec) (m m' : Maps) : Type 0 where
  events : m'.events ≡ m.events ++ submitted xs
  drops : sum_values m'.ring_drops ≡ sum_values m.ring_drops + refused xs

capture-Captured :
    (xs : List Exec) (m : Maps)
    → sum_values m.ring_drops + refused xs < 2 ^ 64
    → Captured xs m (capture xs m)
unfolding capture
capture-Captured [] m h = record { events = sym (append-nil m.events); drops = omega arith }
capture-Captured (x ∷ xs) m h = elim (Bool-cases x.has_room) [
  | inl room ↦
      let seen : capture_identity x m ≡ submit x m = capture-room x m room in
      let k = capture-Captured xs (submit x m) (omega (arith, refused-room x xs room)) in
      rw seen (record {
        events =
            k.events
            ∙ (append_assoc m.events (event_of x ∷ []) (submitted xs)
                ∙ ap (λ es. m.events ++ es) (sym (submitted-room x xs room)));
        drops = omega (arith, k.drops, refused-room x xs room);
      })
  | inr full ↦
      let seen = capture-full x m full in
      let m' : Maps = record m { ring_drops = record_ring_drop x.cpu_id m.ring_drops } in
      let one =
        record_ring_drop-sum x.cpu_id m.ring_drops (omega (arith, refused-full x xs full)) in
      let k = capture-Captured xs m' (omega (arith, one, refused-full x xs full)) in
      rw seen (record {
        events = k.events ∙ ap (λ es. m.events ++ es) (sym (submitted-full x xs full));
        drops = omega (arith, k.drops, one, refused-full x xs full);
      })
]

submitted-refused : (xs : List Exec) → length (submitted xs) + refused xs ≡ length xs
submitted-refused [] = refl
submitted-refused (x ∷ xs) = ground (arith, submitted-refused xs)

-- The execs since the maps were `m`, once the monitor has read the counters.
pub record Reported (xs : List Exec) (m m' : Maps) (s : Monitor) : Type 0 where
  pub events : m'.events ≡ m.events ++ submitted xs
  pub each_once : length (submitted xs) + refused xs ≡ length xs
  pub exported : s.exported ≡ sum_values m.ring_drops + refused xs
  pub caught_up : s.prev_total ≡ s.exported

-- An exec is never lost silently: of any execs on any CPUs, each is a record in the ring buffer,
-- in order and with the fields of the process, or one of the drops; and a monitor whose last total
-- is what it has exported, and no more than the drops before, exports at its next tick exactly all
-- drops. This is so as long as the drops fit a u64.
pub capture-Reported :
    (xs : List Exec) (m : Maps) (s : Monitor)
    → sum_values m.ring_drops + refused xs < 2 ^ 64
    → s.prev_total ≡ s.exported
    → s.exported ≤ sum_values m.ring_drops
    → Reported xs m (capture xs m) (monitor_tick (some (capture xs m).ring_drops) s)
unfolding monitor_tick
capture-Reported xs m s fits same below =
    let k = capture-Captured xs m fits in
    let whole : sum_values (capture xs m).ring_drops % u64_mod
        ≡ sum_values (capture xs m).ring_drops =
      omega (arith, k.drops) in
    record {
      events = k.events;
      each_once = submitted-refused xs;
      exported = ground (arith, k.drops, whole);
      caught_up = ground (arith, k.drops, whole);
    }
