-- ===== src/Gateway/Dashboard/Limiter.antt =====
-- `RateLimiter` of statix-gateway/src/routes/dashboard/cache.rs, with the present instant as an
-- argument and the lock not poisoned.
pub mod Budget
use statix.Prelude.{
  ℕ, zero, suc, ◌+◌, ◌-◌, ◌≤◌, ◌<◌, ◌≡◌, refl, max, Bool, true, false, List, [], ◌∷◌, ltb, leb,
  if◌then◌else◌, arith,
}

pub record RateLimiter : Type 0 where
  pub started : ℕ
  pub count : ℕ
  pub max_per_window : ℕ
  pub window : ℕ

unfoldable pub new : ℕ → ℕ → ℕ → RateLimiter
new now max_per_window window = record {
  started = now;
  count = 0;
  max_per_window = max max_per_window 1;
  window = window;
}

abbrev pub refill : ℕ → RateLimiter → RateLimiter
refill now l = if leb l.window (now - l.started) then record l { started = now; count = 0 } else l

abbrev pub spend : RateLimiter → Bool × RateLimiter
spend l =
    if leb l.max_per_window l.count then (false, l) else (true, record l { count = l.count + 1 })

unfoldable pub allow : ℕ → RateLimiter → Bool × RateLimiter
allow now l = spend (refill now l)
