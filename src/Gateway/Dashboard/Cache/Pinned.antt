-- ===== src/Gateway/Dashboard/Cache/Pinned.antt =====
-- What `put` of statix-gateway/src/routes/dashboard/cache.rs keeps, and how large the cache gets.
use statix.Prelude.{
  ℕ, ◌+◌, ◌≤◌, ◌≡◌, refl, Bool, true, false, ◌&&◌, not, ◌⊎◌, inl, inr, Option, none, some, [], ◌∷◌,
  length, leb, if◌then◌else◌, if_elim, arith, Option-cases,
}
use statix.Prelude.Map.{
  Map, get, insert, remove, contains_key, get-insert, get-remove, length-insert, length-remove_le,
}
use statix.Prelude.Text.{Text, text_key, bytes_eq, bytes_eq_iff, bytes_eq_refl}
use statix.Gateway.Dashboard.Cache.{
  Entry, TtlCache, retain, oldest_unpinned, make_room, without_victim, older, put,
}

-- Each key occurs once.
abbrev pub Distinct : Map Text Entry → Type 0
Distinct [] = Unit
Distinct ((k, e) ∷ m) = (get k m ≡ none) × Distinct m

get-retain_pinned :
    (now ttl : ℕ) (k : Text) (e : Entry) (m : Map Text Entry)
    → get k m ≡ some e
    → e.pinned ≡ true
    → get k (retain now ttl m) ≡ some e
unfolding get retain
get-retain_pinned now ttl k e [] h p = cc
get-retain_pinned now ttl k e ((j, f) ∷ m) h p = ground (arith, get-retain_pinned now ttl k e m)

get-retain_absent :
    (now ttl : ℕ) (k : Text) (m : Map Text Entry) → get k m ≡ none → get k (retain now ttl m) ≡ none
unfolding get retain
get-retain_absent now ttl k [] h = refl
get-retain_absent now ttl k ((j, f) ∷ m) h = ground (arith, get-retain_absent now ttl k m)

Distinct-retain : (now ttl : ℕ) (m : Map Text Entry) → Distinct m → Distinct (retain now ttl m)
unfolding retain
Distinct-retain now ttl [] d = tt
Distinct-retain now ttl ((k, e) ∷ m) d =
    ground (arith, get-retain_absent now ttl k m, Distinct-retain now ttl m)

-- The victim is an unpinned entry of the map.
record IsVictim (v : Text × Entry) (m : Map Text Entry) : Type 0 where
  present : get v.0 m ≡ some v.1
  unpinned : (v.1).pinned ≡ false

IsVictim-tail :
    (k : Text) (e : Entry) (m : Map Text Entry) (v : Text × Entry)
    → get k m ≡ none
    → IsVictim v m
    → IsVictim v ((k, e) ∷ m)
unfolding get
IsVictim-tail k e m v none_here h = record {
  present =
      if_elim (λ (r : Option Entry). r ≡ some v.1) (bytes_eq k v.0) (some e) (get v.0 m)
        (λ same. cc (h.present, none_here, (bytes_eq_iff k v.0).0 same)) (λ _. h.present);
  unpinned = h.unpinned;
}

IsVictim-head :
    (k : Text) (e : Entry) (m : Map Text Entry) → e.pinned ≡ false → IsVictim (k, e) ((k, e) ∷ m)
unfolding get
IsVictim-head k e m h = record { present = rw (bytes_eq_refl k); unpinned = h }

IsVictim-older :
    (k : Text) (e : Entry) (m : Map Text Entry) (o : Option (Text × Entry))
    → get k m ≡ none
    → e.pinned ≡ false
    → ((w : Text × Entry) → o ≡ some w → IsVictim w m)
    → IsVictim (older (k, e) o) ((k, e) ∷ m)
IsVictim-older k e m none n p h = IsVictim-head k e m p
IsVictim-older k e m (some w) n p h =
    if_elim (λ (v : Text × Entry). IsVictim v ((k, e) ∷ m)) (leb e.stored_at (w.1).stored_at) (k, e)
      w (λ _. IsVictim-head k e m p) (λ _. IsVictim-tail k e m w n (h w refl))

oldest_step :
    (k : Text) (e : Entry) (m : Map Text Entry) (pinned : Bool) (v : Text × Entry)
    → e.pinned ≡ pinned
    → get k m ≡ none
    → ((w : Text × Entry) → oldest_unpinned m ≡ some w → IsVictim w m)
    → (if pinned then oldest_unpinned m else some (older (k, e) (oldest_unpinned m))) ≡ some v
    → IsVictim v ((k, e) ∷ m)
oldest_step k e m true v p n ih h = IsVictim-tail k e m v n (ih v h)
oldest_step k e m false v p n ih h =
    let eq : older (k, e) (oldest_unpinned m) ≡ v = cc in
    rw (← eq) (IsVictim-older k e m (oldest_unpinned m) n p ih)

oldest-IsVictim :
    (m : Map Text Entry)
    → Distinct m
    → (v : Text × Entry) → oldest_unpinned m ≡ some v
    → IsVictim v m
unfolding oldest_unpinned
oldest-IsVictim [] d v h = cc
oldest-IsVictim ((k, e) ∷ m) d v h = oldest_step k e m e.pinned v refl d.0 (oldest-IsVictim m d.1) h

length-remove_lt :
    (k : Text) (e : Entry) (m : Map Text Entry)
    → get k m ≡ some e
    → length (remove k m) + 1 ≤ length m
unfolding get remove
length-remove_lt k e [] h = cc
length-remove_lt k e ((j, f) ∷ m) h = ground (arith, length-remove_le k m, length-remove_lt k e m)

get-make_room_pinned :
    (max_entries : ℕ) (key k : Text) (e : Entry) (m : Map Text Entry)
    → Distinct m
    → get k m ≡ some e
    → e.pinned ≡ true
    → get k (make_room max_entries key m) ≡ some e
unfolding make_room
get-make_room_pinned max_entries key k e m d h p =
    if_elim (λ (r : Map Text Entry). get k r ≡ some e)
      (leb max_entries (length m) && not (contains_key key m))
      (without_victim (oldest_unpinned m) m) m (λ _. kept (oldest_unpinned m) refl) (λ _. h)
  where
    kept : (o : Option (Text × Entry)) → oldest_unpinned m ≡ o → get k (without_victim o m) ≡ some e
    kept none eq = h
    kept (some v) eq =
        let victim : IsVictim v m = oldest-IsVictim m d v eq in
        ground (arith, get-remove v.0 k m, bytes_eq_iff v.0 k, victim.present, victim.unpinned)

-- A pinned entry outlives every write under another key, however old it is and however full the
-- cache, in a cache where each key occurs once.
put-keeps_pinned :
    (now : ℕ) (key body : Text) (pinned : Bool) (c : TtlCache) (k : Text) (e : Entry)
    → Distinct c.entries
    → get k c.entries ≡ some e
    → e.pinned ≡ true
    → bytes_eq key k ≡ false
    → get k (put now key body pinned c).entries ≡ some e
unfolding put
put-keeps_pinned now key body pinned c k e d h p ne =
    rw (get-insert, ne)
      (get-make_room_pinned c.max_entries key k e (retain now c.ttl c.entries)
        (Distinct-retain now c.ttl c.entries d) (get-retain_pinned now c.ttl k e c.entries h p) p)

length-insert_room :
    (key : Text) (entry : Entry) (v : Text × Entry) (m : Map Text Entry) (max_entries : ℕ)
    → IsVictim v m
    → length m ≤ max_entries
    → length (
        insert key entry
          (if leb max_entries (length m) && not (contains_key key m) then remove v.0 m else m))
      ≤ max_entries
length-insert_room key entry v m max_entries victim h =
    if_elim (λ (r : Map Text Entry). length (insert key entry r) ≤ max_entries)
      (leb max_entries (length m) && not (contains_key key m)) (remove v.0 m) m
      (λ _.
        ground (
          arith,
          length-insert key entry (remove v.0 m),
          length-remove_lt v.0 v.1 m victim.present,
        ))
      (λ off. ground (arith, length-insert key entry m))

-- A cache within its cap stays within it, unless every entry that is still held is pinned.
pub length-put :
    (now : ℕ) (key body : Text) (pinned : Bool) (c : TtlCache)
    → Distinct c.entries
    → length (retain now c.ttl c.entries) ≤ c.max_entries
    → (length (put now key body pinned c).entries ≤ c.max_entries)
      ⊎ (oldest_unpinned (retain now c.ttl c.entries) ≡ none)
unfolding put make_room
length-put now key body pinned c d h =
    split (Option-cases (oldest_unpinned (retain now c.ttl c.entries)))
  where
    m : Map Text Entry
    m = retain now c.ttl c.entries

    entry : Entry
    entry = record { stored_at = now; body = body; pinned = pinned }

    split :
        (oldest_unpinned m ≡ none) ⊎ ((v : Text × Entry) × (oldest_unpinned m ≡ some v))
        → (length (put now key body pinned c).entries ≤ c.max_entries) ⊎ (oldest_unpinned m ≡ none)
    split (inl n) = inr n
    split (inr (v, e)) = inl (
        rw e (
          length-insert_room key entry v m c.max_entries
            (oldest-IsVictim m (Distinct-retain now c.ttl c.entries d) v e) h))

-- Where every entry that is held is pinned, a write of a new key makes the cache one larger,
-- whatever its cap.
pub length-put_all_pinned :
    (now : ℕ) (key body : Text) (pinned : Bool) (c : TtlCache)
    → oldest_unpinned (retain now c.ttl c.entries) ≡ none
    → get key (retain now c.ttl c.entries) ≡ none
    → length (put now key body pinned c).entries ≡ length (retain now c.ttl c.entries) + 1
unfolding put make_room
length-put_all_pinned now key body pinned c all_pinned new_key = ground (
  arith,
  length-insert key (record { stored_at = now; body = body; pinned = pinned })
      (retain now c.ttl c.entries),
)
