-- ===== src/Gateway/Dashboard/Examples.antt =====
-- The theorems on the dashboard, applied.
use statix.Prelude.{
  ℕ, ◌+◌, ◌-◌, ◌*◌, ◌≤◌, ◌≡◌, refl, min, true, false, none, some, [], ◌∷◌, ◌++◌, length, arith,
}
use statix.Prelude.Map.{get}
use statix.Prelude.Text.{text_key, bytes_eq}
use statix.Gateway.Dashboard.Cache.{Entry, TtlCache, retain, oldest_unpinned, put}
use statix.Gateway.Dashboard.Cache.Pinned.{length-put_all_pinned}
use statix.Gateway.Dashboard.Limiter.{RateLimiter}
use statix.Gateway.Dashboard.Limiter.Budget.{allowed, allowed_in_window}
use statix.Gateway.Dashboard.Query.{
  StateParams, NormalizedQuery, cpu, desc, cache_key, codes, cutoff_ns_from_hours, ns_per_sec,
}
use statix.Gateway.Dashboard.Query.Bounds.{cache_key_collides, cutoff_ns_from_hours_lem}

-- A pinned entry fills the cache, and is long past its time to live.
abbrev pinned_entry : Entry
pinned_entry = record { stored_at = 0; body = b'x' ∷ []; pinned = true }

abbrev cache : TtlCache
cache = record {
  entries = (b'k' ∷ [], pinned_entry) ∷ [];
  ttl = 5;
  max_entries = 1;
  hits = 0;
  misses = 0;
}

none_unpinned : oldest_unpinned (retain 100 5 cache.entries) ≡ none
unfolding oldest_unpinned retain
none_unpinned = refl

new_key : get (b'j' ∷ []) (retain 100 5 cache.entries) ≡ none
unfolding get retain bytes_eq
new_key = refl

length-put_all_pinned_example :
    length (put 100 (b'j' ∷ []) (b'y' ∷ []) false cache).entries
    ≡ length (retain 100 5 cache.entries) + 1
length-put_all_pinned_example =
    length-put_all_pinned 100 (b'j' ∷ []) (b'y' ∷ []) false cache none_unpinned new_key

abbrev limiter : RateLimiter
limiter = record { started = 100; count = 1; max_per_window = 3; window = 50 }

allowed_in_window_example : allowed (110 ∷ 120 ∷ 130 ∷ []) limiter ≡ min 3 (3 - 1)
allowed_in_window_example =
    allowed_in_window (110 ∷ 120 ∷ 130 ∷ []) limiter (omega arith, (omega arith, (omega arith, tt)))
      (omega arith)

abbrev params : StateParams
params = record {
  range_secs = some 7;
  sort = none;
  order = none;
  q = some (b'a' ∷ []);
  node = none;
  unattributed = none;
  limit = some 5000;
}

abbrev query : NormalizedQuery
query = statix.Gateway.Dashboard.Query.new (λ t. t) (λ t. t) params 1000

cache_key_collides_example :
    cache_key
      (λ _. [])
      (record query { node = some ((b'n' ∷ []) ++ codes "&q="); q = some (b't' ∷ []) })
    ≡ cache_key
        (λ _. [])
        (record query { node = some (b'n' ∷ []); q = some (codes "&q=" ++ (b't' ∷ [])) })
cache_key_collides_example = cache_key_collides (λ _. []) query (b'n' ∷ []) (b't' ∷ [])

abbrev a_day : ℕ
a_day = 24

abbrev now_ns : ℕ
now_ns = 1700000000000000000

cutoff_ns_from_hours_example :
    (a_day ≤ 5124095 → cutoff_ns_from_hours now_ns a_day ≡ now_ns - a_day * 3600 * ns_per_sec)
    × (a_day ≡ 5124096 → now_ns ≤ cutoff_ns_from_hours now_ns a_day + 3600 * ns_per_sec)
cutoff_ns_from_hours_example = cutoff_ns_from_hours_lem now_ns a_day
