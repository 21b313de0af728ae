-- ===== src/Gateway/Dashboard/Query.antt =====
-- `NormalizedQuery` of statix-gateway/src/routes/dashboard/mod.rs, with `Sort` and `Order` of
-- sql.rs beside it, and the cutoff of routes/query.rs. `to_lowercase` and the decimal and Boolean
-- texts of `format!` are arguments.
pub mod Bounds
use statix.Prelude.{
  ℕ, zero, suc, ◌+◌, ◌-◌, ◌*◌, ◌%◌, ◌≤◌, ◌<◌, ◌≡◌, refl, min, max, Bool, true, false, ◌&&◌, ◌||◌,
  not, Option, none, some, List, [], ◌∷◌, ◌++◌, length, take, ltb, leb, ◌==◌, if◌then◌else◌,
  is_empty, clamp, sat_mul64, u64_mod, String, arith, str_eq,
}
pub use statix.Prelude.Text.{codes}
use statix.Prelude.Text.{Text}
use statix.Agent.Attribution.Names.{trim}
use statix.Prelude.Map.{is_some}

pub data Sort : Type 0 where
  cpu memory memory_peak execs last_seen : Sort

pub data Order : Type 0 where
  asc desc : Order

abbrev pub parse_sort_text : String → Sort
parse_sort_text s =
    if str_eq s "mem" || str_eq s "memory"
    then memory
    else if str_eq s "mem_peak" || str_eq s "memory_peak"
    then memory_peak
    else if str_eq s "execs" || str_eq s "exec_count"
    then execs
    else if str_eq s "last_seen"
    then last_seen
    else cpu

unfoldable pub parse_sort : Option String → Sort
parse_sort none = parse_sort_text "cpu"
parse_sort (some s) = parse_sort_text s

unfoldable pub column : Sort → String
column cpu = "cpu_millicores"
column memory = "memory_bytes_last"
column memory_peak = "memory_bytes_max"
column execs = "exec_count"
column last_seen = "window_end_ns"

unfoldable pub sort_as_str : Sort → String
sort_as_str cpu = "cpu"
sort_as_str memory = "mem"
sort_as_str memory_peak = "mem_peak"
sort_as_str execs = "execs"
sort_as_str last_seen = "last_seen"

abbrev pub parse_order_text : String → Order
parse_order_text s = if str_eq s "asc" then asc else desc

unfoldable pub parse_order : Option String → Order
parse_order none = parse_order_text "desc"
parse_order (some s) = parse_order_text s

unfoldable pub keyword : Order → String
keyword asc = "ASC"
keyword desc = "DESC"

unfoldable pub order_as_str : Order → String
order_as_str asc = "asc"
order_as_str desc = "desc"

pub record StateParams : Type 0 where
  pub range_secs : Option ℕ
  pub sort : Option String
  pub order : Option String
  pub q : Option Text
  pub node : Option Text
  pub unattributed : Option Bool
  pub limit : Option ℕ

pub record NormalizedQuery : Type 0 where
  pub range_secs : ℕ
  pub sort : Sort
  pub order : Order
  pub q : Option Text
  pub node : Option Text
  pub unattributed : Bool
  pub limit : ℕ

abbrev pub default_range_secs : ℕ
default_range_secs = 300

abbrev pub min_range_secs : ℕ
min_range_secs = 60

abbrev pub max_range_secs : ℕ
max_range_secs = 3600

abbrev pub default_limit : ℕ
default_limit = 100

abbrev pub max_q_len : ℕ
max_q_len = 64

abbrev pub unwrap_or {ℓ} : {A : Type ℓ} → Option A → A → A
unwrap_or none d = d
unwrap_or (some a) d = a

abbrev pub bounded_q : Text → Option Text
bounded_q [] = none
bounded_q (c ∷ cs) =
    some (if ltb max_q_len (length (c ∷ cs)) then take max_q_len (c ∷ cs) else c ∷ cs)

abbrev pub bounded_node : Text → Option Text
bounded_node [] = none
bounded_node (c ∷ cs) = if leb (length (c ∷ cs)) max_q_len then some (c ∷ cs) else none

-- `text_trim` and `to_lowercase` are those of `str`.
module _ (text_trim to_lowercase : Text → Text) where
  abbrev pub normalize_q : Option Text → Option Text
  normalize_q none = none
  normalize_q (some s) = bounded_q (to_lowercase (text_trim s))

  abbrev pub normalize_node : Option Text → Option Text
  normalize_node none = none
  normalize_node (some s) = bounded_node (text_trim s)

  unfoldable pub new : StateParams → ℕ → NormalizedQuery
  new p max_limit = record {
    range_secs = clamp min_range_secs max_range_secs (unwrap_or p.range_secs default_range_secs);
    sort = parse_sort p.sort;
    order = parse_order p.order;
    q = normalize_q p.q;
    node = normalize_node p.node;
    unattributed = unwrap_or p.unattributed false;
    limit = clamp 1 max_limit (unwrap_or p.limit default_limit);
  }

abbrev pub bool_text : Bool → Text
bool_text true = codes "true"
bool_text false = codes "false"

-- `decimal` prints a number.
unfoldable pub cache_key : (ℕ → Text) → NormalizedQuery → Text
unfolding sort_as_str order_as_str
cache_key decimal n =
    codes "r="
    ++ (decimal n.range_secs
        ++ (codes "&s="
            ++ (codes (sort_as_str n.sort)
                ++ (codes "&o="
                    ++ (codes (order_as_str n.order)
                        ++ (codes "&u="
                            ++ (bool_text n.unattributed
                                ++ (codes "&l="
                                    ++ (decimal n.limit
                                        ++ (codes "&n="
                                            ++ (unwrap_or n.node []
                                                ++ (codes "&q=" ++ unwrap_or n.q []))))))))))))

unfoldable pub is_hot_view : NormalizedQuery → Bool
is_hot_view n = not (is_some n.q) && (not (is_some n.node) && not n.unattributed)

unfoldable pub filter_active : NormalizedQuery → Bool
unfolding is_hot_view
filter_active n = not (is_hot_view n)

abbrev pub ns_per_sec : ℕ
ns_per_sec = 1000000000

unfoldable pub cutoff_ns : NormalizedQuery → ℕ → ℕ
cutoff_ns n now_ns = now_ns - sat_mul64 n.range_secs ns_per_sec

-- statix-gateway/src/routes/query.rs. The second product is a plain `*`, which wraps in a release
-- build.
unfoldable pub cutoff_ns_from_hours : ℕ → ℕ → ℕ
cutoff_ns_from_hours now_ns hours = now_ns - sat_mul64 hours 3600 * ns_per_sec % u64_mod
