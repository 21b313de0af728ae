-- ===== src/Gateway/Dashboard/Handlers.antt =====
-- The handlers of statix-gateway/src/routes/dashboard/mod.rs, with the guard before them. The
-- caches and the limiter are passed along; what lies outside is an argument: the instants at which
-- the limiter and the caches are asked, the wall clock, ClickHouse and JSON.
pub mod Cached
pub mod Guarded
use statix.Prelude.{
  ℕ, ◌+◌, ◌*◌, Bool, true, false, not, Option, none, some, List, [], ◌∷◌, if◌then◌else◌, clamp,
}
use statix.Prelude.Text.{Text}
use statix.Prelude.Map.{is_some}
use statix.Gateway.Ingest.{AppState, is_authorized}
use statix.Gateway.Dashboard.Cache.{TtlCache, get_body, put}
use statix.Gateway.Dashboard.Cache
use statix.Gateway.Dashboard.Limiter.{RateLimiter, allow}
use statix.Gateway.Dashboard.Limiter
use statix.Gateway.Dashboard.Query.{
  StateParams, NormalizedQuery, codes, cache_key, is_hot_view, ns_per_sec,
}
use statix.Gateway.Dashboard.Query
use statix.Gateway.Dashboard.State.{
  Floats, Backend, Built, built, rows_failed, totals_failed, serialize_failed, build_state,
}

pub record DashboardConfig : Type 0 where
  pub enabled : Bool
  pub dir : Option Text
  pub cache_ttl : ℕ
  pub max_limit : ℕ
  pub rate_limit_per_min : ℕ

abbrev pub cache_entries : ℕ
cache_entries = 64

pub record Dashboard : Type 0 where
  pub config : DashboardConfig
  pub state_cache : TtlCache
  pub health_cache : TtlCache
  pub limiter : RateLimiter

unfoldable pub new_dashboard : ℕ → DashboardConfig → Dashboard
unfolding Cache.new Limiter.new
new_dashboard now config = record {
  config = config;
  state_cache = Cache.new config.cache_ttl cache_entries;
  health_cache = Cache.new config.cache_ttl 4;
  limiter = Limiter.new now config.rate_limit_per_min (60 * ns_per_sec);
}

-- The status, the body, and the `x-statix-cache` header of an answer from `json_body`.
pub record Response : Type 0 where
  pub status : ℕ
  pub body : Text
  pub cache_hit : Option Bool

unfoldable pub json_body : Text → Bool → Response
json_body body cache_hit = record { status = 200; body = body; cache_hit = some cache_hit }

abbrev pub plain : ℕ → Text → Response
plain status body = record { status = status; body = body; cache_hit = none }

abbrev pub too_many : Response
too_many = plain 429 (codes "Rate limit exceeded.")

-- The request's `Authorization` header, and when each lock is taken.
pub record Request : Type 0 where
  pub authorization : Option Text
  pub allow_at : ℕ
  pub get_at : ℕ
  pub put_at : ℕ
  pub now_ns : ℕ

abbrev pub after_allow : Bool × RateLimiter → Dashboard → Option Response × Dashboard
after_allow (true, l) d = (none, record d { limiter = l })
after_allow (false, l) d = (some too_many, record d { limiter = l })

unfoldable pub guard : Request → Option Text → Dashboard → Option Response × Dashboard
guard r expected_bearer d =
    if not d.config.enabled
    then (some (plain 404 (codes "Dashboard disabled.")), d)
    else if not (is_authorized expected_bearer r.authorization)
    then (some (plain 401 []), d)
    else after_allow (allow r.allow_at d.limiter) d

abbrev pub store_state : Request → Text → NormalizedQuery → Built → Dashboard → Response × Dashboard
store_state r key q (built body) d = (
  json_body body false,
  record d { state_cache = put r.put_at key body (is_hot_view q) d.state_cache },
)
store_state r key q rows_failed d =
    (plain 503 (codes "ClickHouse query failed; see /api/v1/dashboard/health."), d)
store_state r key q totals_failed d =
    (plain 503 (codes "ClickHouse query failed; see /api/v1/dashboard/health."), d)
store_state r key q serialize_failed d =
    (plain 503 (codes "ClickHouse query failed; see /api/v1/dashboard/health."), d)

-- What follows the look into the cache; `build` is the call of `build_state`.
abbrev pub state_after :
    Request
    → Text
    → NormalizedQuery
    → Built
    → Option Text × TtlCache
    → Dashboard
    → Response × Dashboard
state_after r key q build (some body, c) d = (json_body body true, record d { state_cache = c })
state_after r key q build (none, c) d = store_state r key q build (record d { state_cache = c })

abbrev pub health_after : Request → Text → Option Text × TtlCache → Dashboard → Response × Dashboard
health_after r build (some body, c) d = (json_body body true, record d { health_cache = c })
health_after r build (none, c) d =
    (json_body build false, record d { health_cache = put r.put_at (codes "health") build true c })

abbrev pub unless_rejected :
    Option Response × Dashboard → (Dashboard → Response × Dashboard) → Response × Dashboard
unless_rejected (some reject, d) next = (reject, d)
unless_rejected (none, d) next = next d

-- `text_trim` and `to_lowercase` are those of `str`, `decimal` prints a number.
module _ {F : Type 0} (f : Floats F) (text_trim to_lowercase : Text → Text)
    (decimal : ℕ → Text) where
  abbrev pub question : StateParams → Dashboard → NormalizedQuery
  question params d = Query.new text_trim to_lowercase params d.config.max_limit

  abbrev pub answer_state : Backend F → Request → StateParams → Dashboard → Response × Dashboard
  answer_state b r params d =
      let q = question params d in
      let key = cache_key decimal q in
      state_after r key q (build_state f b r.now_ns q) (get_body r.get_at key d.state_cache) d

  unfoldable pub state_handler :
      Backend F → Request → StateParams → Option Text → Dashboard → Response × Dashboard
  state_handler b r params expected_bearer d =
      unless_rejected (guard r expected_bearer d) (answer_state b r params)

-- `body` is the JSON of `build_health`, or the text that stands for a failed serialization.
abbrev pub answer_health : Request → Text → Dashboard → Response × Dashboard
answer_health r body d = health_after r body (get_body r.get_at (codes "health") d.health_cache) d

abbrev pub or_error : Option Text → Text
or_error none = codes "{\"error\":\"serialize failed\"}"
or_error (some body) = body

unfoldable pub health_handler :
    Option Text → Request → Option Text → Dashboard → Response × Dashboard
health_handler json r expected_bearer d =
    unless_rejected (guard r expected_bearer d) (answer_health r (or_error json))

-- The page, from the file in `dir` if it can be read, else the embedded copy.
abbrev pub page_html : Text → Option Text → Option Text → Text
page_html embedded none file = embedded
page_html embedded (some dir) none = embedded
page_html embedded (some dir) (some html) = html

unfoldable pub page_handler : Text → Option Text → Dashboard → Response
page_handler embedded file d =
    if not d.config.enabled
    then plain 404 (codes "Dashboard disabled.")
    else plain 200 (page_html embedded d.config.dir file)
