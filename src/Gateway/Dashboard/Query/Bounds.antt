-- ===== src/Gateway/Dashboard/Query/Bounds.antt =====
-- What `NormalizedQuery` of statix-gateway/src/routes/dashboard/mod.rs bounds, and what its key and
-- its cutoffs tell apart.
use statix.Prelude.{
  ℕ, ◌+◌, ◌-◌, ◌*◌, ◌≤◌, ◌≡◌, Option, none, some, [], ◌∷◌, ◌++◌, length, take, ltb, arith,
  append_assoc, length-take, if_elim, ltb→lt,
}
use statix.Prelude.Text.{Text}
use statix.Gateway.Dashboard.Query.{
  StateParams, NormalizedQuery, codes, new, bounded_q, bounded_node, normalize_q, normalize_node,
  cache_key, cutoff_ns, cutoff_ns_from_hours, ns_per_sec,
}

-- Present, not empty, and at most 64 characters.
abbrev pub IsBounded : Option Text → Type 0
IsBounded none = Unit
IsBounded (some t) = (1 ≤ length t) × (length t ≤ 64)

bounded_q-IsBounded : (t : Text) → IsBounded (bounded_q t)
bounded_q-IsBounded [] = tt
bounded_q-IsBounded (c ∷ cs) =
    if_elim (λ (t : Text). (1 ≤ length t) × (length t ≤ 64)) (ltb 64 (length (c ∷ cs)))
      (take 64 (c ∷ cs)) (c ∷ cs)
      (λ long. let h = ltb→lt 64 (length (c ∷ cs)) long in omega (arith, length-take 64 (c ∷ cs)))
      (λ short. ground arith)

bounded_node-IsBounded : (t : Text) → IsBounded (bounded_node t)
bounded_node-IsBounded [] = tt
bounded_node-IsBounded (c ∷ cs) = ground arith

module _ (text_trim to_lowercase : Text → Text) where
  normalize_q-IsBounded : (q : Option Text) → IsBounded (normalize_q text_trim to_lowercase q)
  normalize_q-IsBounded none = tt
  normalize_q-IsBounded (some s) = bounded_q-IsBounded (to_lowercase (text_trim s))

  normalize_node-IsBounded : (n : Option Text) → IsBounded (normalize_node text_trim to_lowercase n)
  normalize_node-IsBounded none = tt
  normalize_node-IsBounded (some s) = bounded_node-IsBounded (text_trim s)

  -- Whatever the request asks: a range of one minute to one hour, a limit of one to the configured
  -- maximum, and filters that are absent or of one to 64 characters.
  new_bounds :
      (p : StateParams) (max_limit : ℕ)
      → 1 ≤ max_limit
      → let n = new text_trim to_lowercase p max_limit in
        (60 ≤ n.range_secs)
        × (n.range_secs ≤ 3600)
        × (1 ≤ n.limit)
        × (n.limit ≤ max_limit)
        × IsBounded n.q
        × IsBounded n.node
  unfolding new
  new_bounds p max_limit h = (
    omega arith,
    omega arith,
    omega arith,
    omega arith,
    normalize_q-IsBounded p.q,
    normalize_node-IsBounded p.node,
  )

-- Two questions with different filters and one key: a node that ends in "&q=" with a text t, and
-- the node before it with the text "&q=" followed by t. This holds of every query, node and text.
pub cache_key_collides :
    (decimal : ℕ → Text) (n : NormalizedQuery) (node t : Text)
    → cache_key decimal (record n { node = some (node ++ codes "&q="); q = some t })
      ≡ cache_key decimal (record n { node = some node; q = some (codes "&q=" ++ t) })
unfolding cache_key
cache_key_collides decimal n node t = simp append_assoc

-- The cutoff of a normalized query lies exactly its range behind the present, or at zero.
pub cutoff_ns_lem :
    (n : NormalizedQuery) (now_ns : ℕ)
    → n.range_secs ≤ 3600
    → cutoff_ns n now_ns ≡ now_ns - n.range_secs * ns_per_sec
unfolding cutoff_ns
cutoff_ns_lem n now_ns h = omega arith

-- The cutoff of the summary route lies the given hours behind the present, or at zero, up to
-- 5124095 hours; for the next number of hours the product wraps, and the cutoff is less than
-- an hour behind.
pub cutoff_ns_from_hours_lem :
    (now_ns hours : ℕ)
    → (hours ≤ 5124095 → cutoff_ns_from_hours now_ns hours ≡ now_ns - hours * 3600 * ns_per_sec)
      × (hours ≡ 5124096 → now_ns ≤ cutoff_ns_from_hours now_ns hours + 3600 * ns_per_sec)
unfolding cutoff_ns_from_hours
cutoff_ns_from_hours_lem now_ns hours = (λ h. omega arith, λ h. omega arith)
