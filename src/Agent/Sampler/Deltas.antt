-- ===== src/Agent/Sampler/Deltas.antt =====
-- The CPU baseline of statix/src/memory_sampler.rs.
use statix.Prelude.{
  ℕ, ◌+◌, ◌-◌, ◌≤◌, ◌≡◌, refl, ap, Bool, true, false, Option, none, some, List, [], ◌∷◌, any, ◌==◌,
  if◌then◌else◌, if_elim, arith, nat_eq,
}
use statix.Prelude.Map.{get, insert, get-insert}
use statix.Agent.Sampler.{Reading, Baseline, retain_live, cpu_delta, or_zero}

-- The deltas that one cgroup's counter gives, reading by reading, added up.
abbrev pub sum_deltas : ℕ → List ℕ → Baseline → ℕ
sum_deltas id [] b = 0
sum_deltas id (u ∷ us) b = or_zero (cpu_delta id u b).0 + sum_deltas id us (cpu_delta id u b).1

-- The counter does not go back.
abbrev pub Ascends : ℕ → List ℕ → Type 0
Ascends last [] = Unit
Ascends last (u ∷ us) = (last ≤ u) × Ascends u us

abbrev pub last_reading : ℕ → List ℕ → ℕ
last_reading last [] = last
last_reading last (u ∷ us) = last_reading u us

stored : (id u : ℕ) (b : Baseline) → get id (insert id u b) ≡ some u
stored id u b = ground (arith, get-insert id id u b)

-- The deltas of a counter that does not go back add up to how far it has moved since the
-- baseline, however the readings are spaced: nothing is counted twice or missed between ticks.
sum_deltas-telescopes :
    (id last : ℕ) (us : List ℕ) (b : Baseline)
    → get id b ≡ some last
    → Ascends last us
    → sum_deltas id us b + last ≡ last_reading last us
unfolding cpu_delta
sum_deltas-telescopes id last [] b h up = omega arith
sum_deltas-telescopes id last (u ∷ us) b h up =
    rw h (omega (arith, up.0, sum_deltas-telescopes id u us (insert id u b) (stored id u b) up.1))

-- A first reading only primes the baseline, and a counter that went back, as after a restart of
-- the container, gives no time at all instead of an underflow; both leave the new reading behind.
pub cpu_delta_lem :
    (id u : ℕ) (b : Baseline)
    → ((get id b ≡ none → (cpu_delta id u b).0 ≡ none)
        × ((last : ℕ) → get id b ≡ some last → u ≤ last → (cpu_delta id u b).0 ≡ some 0))
      × (get id (cpu_delta id u b).1 ≡ some u)
unfolding cpu_delta
cpu_delta_lem id u b = (
  (λ h. rw h refl, λ last h le. let e : u - last ≡ 0 = omega arith in rw (h, e) refl),
  stored id u b,
)

abbrev pub was_read : List Reading → ℕ → Bool
was_read rs id = any (λ (r : Reading). r.cgroup_id == id) rs

retained :
    (j last id : ℕ) (u v : Bool) (rest b : Baseline)
    → (j ≡ id → u ≡ v)
    → get id rest ≡ (if v then get id b else none)
    → get id (if u then (j, last) ∷ rest else rest) ≡ (if v then get id ((j, last) ∷ b) else none)
unfolding get
retained j last id true true rest b same ih = ground arith
retained j last id true false rest b same ih = ground arith
retained j last id false true rest b same ih = ground arith
retained j last id false false rest b same ih = ih

-- After a tick the baseline has a cgroup exactly when it was read, with its value unchanged, so
-- one that is gone starts afresh if its number is used again.
get-retain_live :
    (rs : List Reading) (b : Baseline) (id : ℕ)
    → get id (retain_live rs b) ≡ (if was_read rs id then get id b else none)
unfolding get retain_live
get-retain_live rs [] id =
    if_elim (λ (o : Option ℕ). none ≡ o) (was_read rs id) none none (λ _. refl) (λ _. refl)
get-retain_live rs ((j, last) ∷ b) id =
    retained j last id (was_read rs j) (was_read rs id) (retain_live rs b) b (ap (was_read rs))
      (get-retain_live rs b id)
