-- ===== src/Gateway/Dashboard/State.antt =====
-- `build_state` of statix-gateway/src/routes/dashboard/mod.rs: the two queries with their bound
-- parameters, and the answer that is made of the rows. ClickHouse answers are arguments, `f64` is
-- a type with the operations that the code uses, and JSON is a function to text that may fail.
pub mod Bound
use statix.Prelude.{
  ℕ, ◌+◌, ◌-◌, ◌*◌, Bool, true, false, Option, none, some, List, [], ◌∷◌, ◌++◌, length, ltb, ◌==◌,
  if◌then◌else◌, String,
}
use statix.Prelude.Text.{Text}
use statix.Prelude.Map.{is_some}
use statix.Gateway.Dashboard.Query.{
  NormalizedQuery, codes, sort_as_str, order_as_str, filter_active, cutoff_ns,
}
use statix.Gateway.Dashboard.Sql.{rows, totals}

pub record Floats (F : Type 0) : Type 0 where
  pub zero : F
  pub of_u64 : ℕ → F
  pub divide : F → F → F
  pub greater : F → F → Bool

pub data Param : Type 0 where
  number : ℕ → Param
  text : Text → Param

-- A query with its parameters by name, in the order in which they are bound.
pub record Query : Type 0 where
  pub sql : Text
  pub params : List (Text × Param)

abbrev pub bind : String → Param → Query → Query
bind name value q = record q { params = q.params ++ (codes name, value) ∷ [] }

abbrev pub text_param : String → Option Text → List (Text × Param)
text_param name none = []
text_param name (some t) = (codes name, text t) ∷ []

abbrev pub bind_text : String → Option Text → Query → Query
bind_text name t q = record q { params = q.params ++ text_param name t }

unfoldable pub rows_query : NormalizedQuery → ℕ → Query
rows_query n cutoff =
    let query : Query = record {
      sql = rows n.sort n.order (is_some n.q) n.unattributed (is_some n.node);
      params = [];
    } in
    bind_text "q" n.q (
      bind_text "node" n.node
        (bind "limit" (number n.limit) (bind "cutoff_ns" (number cutoff) query)))

unfoldable pub totals_query : NormalizedQuery → ℕ → Query
totals_query n cutoff =
    let query : Query = record {
      sql = totals (is_some n.q) n.unattributed (is_some n.node);
      params = [];
    } in
    bind_text "q" n.q (bind_text "node" n.node (bind "cutoff_ns" (number cutoff) query))

pub record WorkloadLive (F : Type 0) : Type 0 where
  pub node : Text
  pub cgroup_id : ℕ
  pub namespace : Option Text
  pub pod : Option Text
  pub container : Option Text
  pub k8s_resolved : Bool
  pub memory_bytes_last : ℕ
  pub memory_bytes_max : ℕ
  pub cpu_usage_usec : ℕ
  pub cpu_millicores : F
  pub exec_count : ℕ
  pub sample_count : ℕ
  pub window_start_ns : ℕ
  pub window_end_ns : ℕ

pub record TotalsRow (F : Type 0) : Type 0 where
  pub matched_count : ℕ
  pub memory_bytes : ℕ
  pub exec_count : ℕ
  pub cpu_millicores : F
  pub unattributed_count : ℕ
  pub newest_window_end_ns : ℕ

pub record Totals (F : Type 0) : Type 0 where
  pub workload_count : ℕ
  pub matched_count : ℕ
  pub cpu_millicores : F
  pub memory_bytes : ℕ
  pub exec_count : ℕ
  pub exec_rate_per_sec : F
  pub unattributed_count : ℕ
  pub newest_window_end_ns : ℕ

pub record StateResponse (F : Type 0) : Type 0 where
  pub generated_at_ns : ℕ
  pub range_secs : ℕ
  pub sort : String
  pub order : String
  pub filter_active : Bool
  pub returned : ℕ
  pub totals : Totals F
  pub workloads : List (WorkloadLive F)

-- `Ok`, or which step failed.
pub data Built : Type 0 where
  built : Text → Built
  rows_failed totals_failed serialize_failed : Built

-- What ClickHouse answers to a query, and the JSON of a response.
pub record Backend (F : Type 0) : Type 0 where
  pub fetch_rows : Query → Option (List (WorkloadLive F))
  pub fetch_totals : Query → Option (List (TotalsRow F))
  pub to_json : StateResponse F → Option Text

module _ {F : Type 0} (f : Floats F) where
  abbrev pub no_totals : TotalsRow F
  no_totals = record {
    matched_count = 0;
    memory_bytes = 0;
    exec_count = 0;
    cpu_millicores = f.zero;
    unattributed_count = 0;
    newest_window_end_ns = 0;
  }

  abbrev pub first_or_none : List (TotalsRow F) → TotalsRow F
  first_or_none [] = no_totals
  first_or_none (t ∷ ts) = t

  abbrev pub exec_rate : ℕ → ℕ → F
  exec_rate exec_count range_secs =
      if ltb 0 range_secs then f.divide (f.of_u64 exec_count) (f.of_u64 range_secs) else f.zero

  unfoldable pub state_response :
      ℕ → NormalizedQuery → List (WorkloadLive F) → TotalsRow F → StateResponse F
  unfolding sort_as_str order_as_str filter_active
  state_response generated_at_ns n workloads t = record {
    generated_at_ns = generated_at_ns;
    range_secs = n.range_secs;
    sort = sort_as_str n.sort;
    order = order_as_str n.order;
    filter_active = filter_active n;
    returned = length workloads;
    totals = record {
      workload_count = t.matched_count;
      matched_count = t.matched_count;
      cpu_millicores = t.cpu_millicores;
      memory_bytes = t.memory_bytes;
      exec_count = t.exec_count;
      exec_rate_per_sec = exec_rate t.exec_count n.range_secs;
      unattributed_count = t.unattributed_count;
      newest_window_end_ns = t.newest_window_end_ns;
    };
    workloads = workloads;
  }

  abbrev pub serialized : Option Text → Built
  serialized none = serialize_failed
  serialized (some body) = built body

  abbrev pub after_totals :
      Backend F → ℕ → NormalizedQuery → List (WorkloadLive F) → Option (List (TotalsRow F)) → Built
  after_totals b now n workloads none = totals_failed
  after_totals b now n workloads (some ts) =
      serialized (b.to_json (state_response now n workloads (first_or_none ts)))

  abbrev pub after_rows : Backend F → ℕ → NormalizedQuery → Option (List (WorkloadLive F)) → Built
  after_rows b now n none = rows_failed
  after_rows b now n (some workloads) =
      after_totals b now n workloads (b.fetch_totals (totals_query n (cutoff_ns n now)))

  unfoldable pub build_state : Backend F → ℕ → NormalizedQuery → Built
  unfolding rows_query totals_query state_response cutoff_ns
  build_state b now n = after_rows b now n (b.fetch_rows (rows_query n (cutoff_ns n now)))
