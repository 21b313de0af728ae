-- ===== src/Agent/Loop/Polls.antt =====
-- The drain budget of statix/src/main.rs: polling again and again empties the ring buffer.
use statix.Prelude.{ℕ, zero, suc, ◌+◌, List, [], ◌∷◌}
use statix.Agent.Loop.{Item, undersized, sized, Loop, Arm, poll_tick}

abbrev pub sized_count : List Item → ℕ
sized_count [] = 0
sized_count (undersized ∷ q) = sized_count q
sized_count (sized i e ∷ q) = sized_count q + 1

abbrev pub polls : ℕ → List Arm
polls zero = []
polls (suc n) = poll_tick ∷ polls n
