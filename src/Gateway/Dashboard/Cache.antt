-- ===== src/Gateway/Dashboard/Cache.antt =====
-- `TtlCache` of statix-gateway/src/routes/dashboard/cache.rs. An `Instant` is a number of
-- nanoseconds; each call is given the present one.
pub mod Pinned
use statix.Prelude.{
  ℕ, zero, suc, ◌+◌, ◌-◌, ◌≤◌, ◌<◌, ◌≡◌, refl, max, Bool, true, false, ◌&&◌, ◌||◌, not, Option,
  none, some, List, [], ◌∷◌, ◌++◌, length, ltb, leb, ◌==◌, if◌then◌else◌, arith,
}
use statix.Prelude.Map.{Map, get, insert, remove, contains_key}
use statix.Prelude.Text.{Text, text_key}

pub record Entry : Type 0 where
  pub stored_at : ℕ
  pub body : Text
  pub pinned : Bool

pub record TtlCache : Type 0 where
  pub entries : Map Text Entry
  pub ttl : ℕ
  pub max_entries : ℕ
  pub hits : ℕ
  pub misses : ℕ

unfoldable pub new : ℕ → ℕ → TtlCache
new ttl max_entries = record {
  entries = [];
  ttl = ttl;
  max_entries = max max_entries 4;
  hits = 0;
  misses = 0;
}

-- `elapsed() <= ttl`
abbrev pub is_fresh : ℕ → ℕ → Entry → Bool
is_fresh now ttl e = leb (now - e.stored_at) ttl

abbrev pub answer : ℕ → Option Entry → TtlCache → Option Text × TtlCache
answer now none c = (none, c)
answer now (some e) c =
    if is_fresh now c.ttl e
    then (some e.body, record c { hits = c.hits + 1 })
    else (none, record c { misses = c.misses + 1 })

unfoldable pub get_body : ℕ → Text → TtlCache → Option Text × TtlCache
get_body now key c = answer now (get key c.entries) c

unfoldable pub retain : ℕ → ℕ → Map Text Entry → Map Text Entry
retain now ttl [] = []
retain now ttl ((k, e) ∷ m) =
    let rest = retain now ttl m in if is_fresh now ttl e || e.pinned then (k, e) ∷ rest else rest

-- The unpinned entry that was stored first: `min_by_key` keeps the first of equals.
abbrev pub older : Text × Entry → Option (Text × Entry) → Text × Entry
older a none = a
older a (some b) = if leb (a.1).stored_at (b.1).stored_at then a else b

unfoldable pub oldest_unpinned : Map Text Entry → Option (Text × Entry)
oldest_unpinned [] = none
oldest_unpinned ((k, e) ∷ m) =
    let rest = oldest_unpinned m in if e.pinned then rest else some (older (k, e) rest)

abbrev pub without_victim : Option (Text × Entry) → Map Text Entry → Map Text Entry
without_victim none m = m
without_victim (some v) m = remove v.0 m

unfoldable pub make_room : ℕ → Text → Map Text Entry → Map Text Entry
unfolding oldest_unpinned
make_room max_entries key m =
    if leb max_entries (length m) && not (contains_key key m)
    then without_victim (oldest_unpinned m) m
    else m

unfoldable pub put : ℕ → Text → Text → Bool → TtlCache → TtlCache
unfolding retain make_room
put now key body pinned c =
    let m = make_room c.max_entries key (retain now c.ttl c.entries) in
    record c { entries = insert key (record { stored_at = now; body = body; pinned = pinned }) m }
