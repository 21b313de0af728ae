-- ===== src/Gateway/Dashboard/Handlers/Guarded.antt =====
-- What the guard of statix-gateway/src/routes/dashboard/mod.rs keeps away from the handlers.
use statix.Prelude.{
  ℕ, ◌≡◌, ◌≢◌, refl, Bool, true, false, ◌&&◌, not, Option, none, some, [], if◌then◌else◌, arith,
}
use statix.Prelude.Text.{Text}
use statix.Gateway.Ingest.{is_authorized}
use statix.Gateway.Dashboard.Cache.{TtlCache, get_body}
use statix.Gateway.Dashboard.Limiter.{RateLimiter, allow}
use statix.Gateway.Dashboard.Query.{StateParams, codes}
use statix.Gateway.Dashboard.State.{Floats, Backend}
use statix.Gateway.Dashboard.Handlers.{
  Dashboard, Request, Response, json_body, plain, after_allow, guard, unless_rejected, answer_state,
  state_handler, health_after, answer_health, health_handler, or_error,
}

-- The dashboard is enabled, the caller is authorized, and the limiter allows the request.
abbrev pub passes : Request → Option Text → Dashboard → Bool
passes r expected d =
    d.config.enabled && (is_authorized expected r.authorization && (allow r.allow_at d.limiter).0)

abbrev pub after_guard : Request → Dashboard → Dashboard
after_guard r d = record d { limiter = (allow r.allow_at d.limiter).1 }

-- The guard over the values that it tests.
abbrev guarded : Bool → Bool → Bool × RateLimiter → Dashboard → Option Response × Dashboard
guarded enabled authorized allowed d =
    if not enabled
    then (some (plain 404 (codes "Dashboard disabled.")), d)
    else if not authorized
    then (some (plain 401 []), d)
    else after_allow allowed d

guarded_passes :
    (enabled authorized : Bool) (allowed : Bool × RateLimiter) (d : Dashboard)
    → enabled && (authorized && allowed.0) ≡ true
    → guarded enabled authorized allowed d ≡ (none, record d { limiter = allowed.1 })
guarded_passes true true (true, l) d h = refl
guarded_passes true true (false, l) d h = absurd cc
guarded_passes true false allowed d h = absurd cc
guarded_passes false authorized allowed d h = absurd cc

pub guard-passes :
    (r : Request) (expected : Option Text) (d : Dashboard)
    → passes r expected d ≡ true
    → guard r expected d ≡ (none, after_guard r d)
unfolding guard
guard-passes r expected d h =
    guarded_passes d.config.enabled (is_authorized expected r.authorization)
      (allow r.allow_at d.limiter) d h

-- A rejection: an answer that is not 200 and not from a cache, and no cache is touched.
abbrev pub Rejects : Option Response × Dashboard → Dashboard → Type 0
Rejects g d =
    (response : Response) × ((g.0 ≡ some response)
      × ((response.status ≢ 200)
          × ((response.cache_hit ≡ none)
              × ((g.1.state_cache ≡ d.state_cache) × (g.1.health_cache ≡ d.health_cache)))))

guarded-Rejects :
    (enabled authorized : Bool) (allowed : Bool × RateLimiter) (d : Dashboard)
    → enabled && (authorized && allowed.0) ≡ false
    → Rejects (guarded enabled authorized allowed d) d
guarded-Rejects false authorized allowed d h = (_, (refl, (λ e. omega arith, (refl, (refl, refl)))))
guarded-Rejects true false allowed d h = (_, (refl, (λ e. omega arith, (refl, (refl, refl)))))
guarded-Rejects true true (false, l) d h = (_, (refl, (λ e. omega arith, (refl, (refl, refl)))))
guarded-Rejects true true (true, l) d h = absurd cc

pub guard-Rejects :
    (r : Request) (expected : Option Text) (d : Dashboard)
    → passes r expected d ≡ false
    → Rejects (guard r expected d) d
unfolding guard
guard-Rejects r expected d h =
    guarded-Rejects d.config.enabled (is_authorized expected r.authorization)
      (allow r.allow_at d.limiter) d h

health_after-status :
    (r : Request) (body : Text) (x : Option Text × TtlCache) (d : Dashboard)
    → (health_after r body x d).0.status ≡ 200
unfolding json_body
health_after-status r body (some cached, c) d = refl
health_after-status r body (none, c) d = refl

module _ {F : Type 0} (f : Floats F) (text_trim to_lowercase : Text → Text)
    (decimal : ℕ → Text) where
  -- A request that the guard does not pass is rejected by both handlers with the same answer,
  -- which is not 200 and does not depend on ClickHouse, and neither cache changes. One that it
  -- passes is always answered with 200 by the health handler, whatever the health is.
  pub guarded_lem :
      (b b' : Backend F) (json : Option Text) (r : Request) (params : StateParams)
      (expected : Option Text) (d : Dashboard)
      → let state = state_handler f text_trim to_lowercase decimal b r params expected d in
        let health = health_handler json r expected d in
        (passes r expected d ≡ false
          → (state ≡ state_handler f text_trim to_lowercase decimal b' r params expected d)
            × ((state ≡ health)
                × ((state.0.status ≢ 200)
                    × ((state.1.state_cache ≡ d.state_cache)
                        × (state.1.health_cache ≡ d.health_cache)))))
        × (passes r expected d ≡ true → health.0.status ≡ 200)
  unfolding state_handler health_handler
  guarded_lem b b' json r params expected d = (
    λ h. rejected (guard r expected d) (guard-Rejects r expected d h),
    λ h. rw (guard-passes r expected d h) (
        health_after-status r (or_error json) (get_body r.get_at (codes "health") d.health_cache)
          (after_guard r d)),
  )
    where
      rejected :
          (g : Option Response × Dashboard)
          → Rejects g d
          → let state =
              unless_rejected g (answer_state f text_trim to_lowercase decimal b r params) in
            (state ≡ unless_rejected g (answer_state f text_trim to_lowercase decimal b' r params))
            × ((state ≡ unless_rejected g (answer_health r (or_error json)))
                × ((state.0.status ≢ 200)
                    × ((state.1.state_cache ≡ d.state_cache)
                        × (state.1.health_cache ≡ d.health_cache))))
      rejected (none, d') k = absurd (cc (k.1).0)
      rejected (some response, d') (answer, (same, (other, (uncached, caches)))) =
          let e : response ≡ answer = cc in (refl, (refl, (rw e other, caches)))
