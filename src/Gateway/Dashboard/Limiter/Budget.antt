-- ===== src/Gateway/Dashboard/Limiter/Budget.antt =====
-- What `RateLimiter` of statix-gateway/src/routes/dashboard/cache.rs lets through.
use statix.Prelude.{
  ℕ, suc, ◌+◌, ◌-◌, ◌≤◌, ◌<◌, ◌≡◌, min, Bool, true, false, List, [], ◌∷◌, length, All, arith,
}
use statix.Gateway.Dashboard.Limiter.{RateLimiter, allow}

abbrev pub count_if : Bool → ℕ → ℕ
count_if true n = suc n
count_if false n = n

-- The number of requests that are allowed, of those at the given instants.
unfoldable pub allowed : List ℕ → RateLimiter → ℕ
allowed [] l = 0
allowed (t ∷ ts) l = let (ok, l') = allow t l in count_if ok (allowed ts l')

-- Of the requests that come before the window ends, exactly as many are allowed as are left in
-- the budget: all of them, if they are no more than that.
pub allowed_in_window :
    (ts : List ℕ) (l : RateLimiter)
    → All (λ t. t - l.started < l.window) ts
    → l.count ≤ l.max_per_window
    → allowed ts l ≡ min (length ts) (l.max_per_window - l.count)
unfolding allowed allow
allowed_in_window [] l h c = omega arith
allowed_in_window (t ∷ ts) l h c =
    ground (
      arith,
      allowed_in_window ts l h.1,
      allowed_in_window ts (record l { count = l.count + 1 }) h.1,
    )

-- Whatever the instants, the count never passes the cap, and a request after the end of the
-- window is allowed and starts the next one.
allow_bounds :
    (t : ℕ) (l : RateLimiter)
    → 0 < l.max_per_window
    → l.count ≤ l.max_per_window
    → ((allow t l).1.count ≤ l.max_per_window)
      × (l.window ≤ t - l.started → ((allow t l).0 ≡ true) × ((allow t l).1.started ≡ t))
unfolding allow
allow_bounds t l p c = ground arith
