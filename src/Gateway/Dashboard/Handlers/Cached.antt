-- ===== src/Gateway/Dashboard/Handlers/Cached.antt =====
-- What the state handler of statix-gateway/src/routes/dashboard/mod.rs answers from its cache.
use statix.Prelude.{
  ℕ, ◌-◌, ◌≤◌, ◌≡◌, Bool-cases, inl, inr, refl, ap, ◌∙◌, Bool, true, false, Option, none, some,
  arith, leb,
}
use statix.Prelude.Text.{Text, text_key, bytes_eq_refl}
use statix.Prelude.Map.{get, get-insert}
use statix.Gateway.Dashboard.Cache.{Entry, TtlCache, get_body, put, answer, make_room, retain}
use statix.Gateway.Dashboard.Query.{StateParams, NormalizedQuery, cache_key, is_hot_view}
use statix.Gateway.Dashboard.State.{
  Floats, Backend, Built, built, rows_failed, totals_failed, serialize_failed, build_state,
}
use statix.Gateway.Dashboard.Handlers.{
  Dashboard, Request, Response, json_body, guard, state_after, unless_rejected, question,
  answer_state, state_handler,
}
use statix.Gateway.Dashboard.Handlers.Guarded.{
  passes, guard-passes, after_guard, Rejects, guard-Rejects,
}

-- What was put is got while it is fresh.
pub get_body-put :
    (now at_put : ℕ) (key body : Text) (pinned : Bool) (c : TtlCache)
    → now - at_put ≤ c.ttl
    → (get_body now key (put at_put key body pinned c)).0 ≡ some body
unfolding get_body put
get_body-put now at_put key body pinned c h =
    let m = make_room c.max_entries key (retain at_put c.ttl c.entries) in
    let fresh : leb (now - at_put) c.ttl ≡ true = ground arith in
    rw
      (
        get-insert key key (record { stored_at = at_put; body = body; pinned = pinned }) m,
        bytes_eq_refl key,
        fresh,
      )
      refl

answer-ttl : (now : ℕ) (e : Option Entry) (c : TtlCache) → (answer now e c).1.ttl ≡ c.ttl
answer-ttl now none c = refl
answer-ttl now (some e) c = ground arith

get_body-ttl : (now : ℕ) (key : Text) (c : TtlCache) → (get_body now key c).1.ttl ≡ c.ttl
unfolding get_body
get_body-ttl now key c = answer-ttl now (get key c.entries) c

-- An answer that is a miss has been put into the cache.
stored :
    (r : Request) (key : Text) (q : NormalizedQuery) (build : Built) (x : Option Text × TtlCache)
    (d : Dashboard)
    → let first = state_after r key q build x d in
      first.0.cache_hit ≡ some false
      → first.1 ≡ record d { state_cache = put r.put_at key first.0.body (is_hot_view q) x.1 }
unfolding json_body
stored r key q build (some body, c) d h = absurd cc
stored r key q (built body) (none, c) d h = refl
stored r key q rows_failed (none, c) d h = absurd cc
stored r key q totals_failed (none, c) d h = absurd cc
stored r key q serialize_failed (none, c) d h = absurd cc

hit_after :
    (r : Request) (key : Text) (q : NormalizedQuery) (build : Built) (body : Text)
    (x : Option Text × TtlCache) (d : Dashboard)
    → x.0 ≡ some body
    → (state_after r key q build x d).0 ≡ json_body body true
hit_after r key q build body (none, c) d h = absurd cc
hit_after r key q build body (some found, c) d h =
    let e : found ≡ body = cc in ap (λ t. json_body t true) e

module _ {F : Type 0} (f : Floats F) (text_trim to_lowercase : Text → Text)
    (decimal : ℕ → Text) where
  handler_passes :
      (b : Backend F) (r : Request) (params : StateParams) (expected : Option Text) (d : Dashboard)
      → passes r expected d ≡ true
      → state_handler f text_trim to_lowercase decimal b r params expected d
        ≡ answer_state f text_trim to_lowercase decimal b r params (after_guard r d)
  unfolding state_handler
  handler_passes b r params expected d h = rw (guard-passes r expected d h) refl

  handler_rejects :
      (b : Backend F) (r : Request) (params : StateParams) (expected : Option Text) (d : Dashboard)
      → passes r expected d ≡ false
      → (state_handler f text_trim to_lowercase decimal b r params expected d).0.cache_hit ≡ none
  unfolding state_handler
  handler_rejects b r params expected d h =
      rejected (guard r expected d) (guard-Rejects r expected d h)
    where
      rejected :
          (g : Option Response × Dashboard)
          → Rejects g d
          → (unless_rejected g
              (answer_state f text_trim to_lowercase decimal b r params)).0.cache_hit
            ≡ none
      rejected (none, d') k = absurd (cc (k.1).0)
      rejected (some response, d') (found, (same, (other, (uncached, caches)))) =
          let e : response ≡ found = cc in rw e uncached

  answered_again :
      (b b' : Backend F) (r r' : Request) (params : StateParams) (d d' : Dashboard)
      → let first = answer_state f text_trim to_lowercase decimal b r params d in
        first.0.cache_hit ≡ some false
        → d'.config ≡ first.1.config
        → d'.state_cache ≡ first.1.state_cache
        → r'.get_at - r.put_at ≤ d.state_cache.ttl
        → (answer_state f text_trim to_lowercase decimal b' r' params d').0
          ≡ json_body first.0.body true
  answered_again b b' r r' params d d' miss same_config same_cache fresh =
      let q = question f text_trim to_lowercase decimal params d in
      let q' = question f text_trim to_lowercase decimal params d' in
      let key = cache_key decimal q in
      let x = get_body r.get_at key d.state_cache in
      let first = answer_state f text_trim to_lowercase decimal b r params d in
      let put_there = stored r key q (build_state f b r.now_ns q) x d miss in
      let config : d'.config ≡ d.config =
        same_config ∙ ap (λ (k : Dashboard). k.config) put_there in
      let cache = same_cache ∙ ap (λ (k : Dashboard). k.state_cache) put_there in
      hit_after r' (cache_key decimal q') q' (build_state f b' r'.now_ns q') first.0.body
        (get_body r'.get_at (cache_key decimal q') d'.state_cache) d'
        (rw (config, cache)
          (get_body-put r'.get_at r.put_at key first.0.body (is_hot_view q) x.1
            (rw (get_body-ttl r.get_at key d.state_cache) fresh)))

  -- An answer that had to be built is served again: if the very next request of this route asks the
  -- same question, passes the guard and comes while the answer is fresh, it gets the same body from
  -- the cache, whoever asks, and whatever ClickHouse would answer by then. After other requests
  -- have put their answers it may be gone earlier, since an unpinned entry can be evicted.
  pub served_again :
      (b b' : Backend F) (r r' : Request) (params : StateParams) (expected : Option Text)
      (d : Dashboard)
      → let first = state_handler f text_trim to_lowercase decimal b r params expected d in
        first.0.cache_hit ≡ some false
        → passes r' expected first.1 ≡ true
        → r'.get_at - r.put_at ≤ d.state_cache.ttl
        → (state_handler f text_trim to_lowercase decimal b' r' params expected first.1).0
          ≡ json_body first.0.body true
  served_again b b' r r' params expected d miss again fresh =
      elim (Bool-cases (passes r expected d)) [
        | inl passed ↦
            let e = handler_passes b r params expected d passed in
            let miss' = rw e at miss in
            let again' = rw e at again in
            let first =
              answer_state f text_trim to_lowercase decimal b r params (after_guard r d) in
            rw (e, handler_passes b' r' params expected first.1 again')
              (answered_again b b' r r' params (after_guard r d) (after_guard r' first.1) miss' refl
                refl fresh)
        | inr stopped ↦ absurd (cc (handler_rejects b r params expected d stopped))
      ]
