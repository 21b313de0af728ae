-- ===== src/Gateway/Dashboard/Sql.antt =====
-- The query builders of statix-gateway/src/routes/dashboard/sql.rs: the text that `format!` makes.
use statix.Prelude.{Bool, true, false, List, [], ◌∷◌, ◌++◌, String, if◌then◌else◌, is_empty}
use statix.Prelude.Text.{Text}
use statix.Gateway.Dashboard.Query.{Sort, Order, column, keyword, codes}

-- The text of the pieces.
unfoldable pub text_of : List String → Text
text_of [] = []
text_of (s ∷ ss) = codes s ++ text_of ss

abbrev pub cpu_millicores_text : String
cpu_millicores_text = "if(w_end > w_start, cpu_usec * 1000000.0 / (w_end - w_start), 0.0)"

abbrev pub node_clause : Bool → String
node_clause true = " AND node = {node:String}"
node_clause false = ""

unfoldable pub inner : Bool → Text
unfolding text_of
inner node_filter = text_of (
    "SELECT node AS n, cgroup_id AS cg,\n"
    ∷ "            max(window_start_ns)                       AS w_start,\n"
    ∷ "            argMax(window_end_ns,     window_start_ns) AS w_end,\n"
    ∷ "            argMax(namespace,         window_start_ns) AS ns,\n"
    ∷ "            argMax(pod,               window_start_ns) AS pod_name,\n"
    ∷ "            argMax(container,         window_start_ns) AS cont_name,\n"
    ∷ "            argMax(k8s_resolved,      window_start_ns) AS resolved,\n"
    ∷ "            argMax(memory_bytes_last, window_start_ns) AS mem_last,\n"
    ∷ "            argMax(memory_bytes_max,  window_start_ns) AS mem_max,\n"
    ∷ "            argMax(cpu_usage_usec,    window_start_ns) AS cpu_usec,\n"
    ∷ "            argMax(exec_count,        window_start_ns) AS execs,\n"
    ∷ "            argMax(sample_count,      window_start_ns) AS samples\n"
    ∷ "         FROM statix.workload_metrics\n"
    ∷ "         WHERE window_start_ns >= {cutoff_ns:UInt64}"
    ∷ node_clause node_filter
    ∷ "\n"
    ∷ "         GROUP BY node, cgroup_id"
    ∷ [])

-- `parts`, and `parts.join(" AND ")`.
abbrev pub filter_parts : Bool → Bool → List (List String)
filter_parts has_q unattributed_only =
    (if has_q
      then ("positionCaseInsensitive(\n"
          ∷ "                concat(ifNull(ns,''),'/',ifNull(pod_name,''),'/',ifNull(cont_name,'')),\n"
          ∷ "                {q:String}) > 0" ∷ [])
        ∷ []
      else [])
    ++ (if unattributed_only then ("resolved = 0" ∷ []) ∷ [] else [])

abbrev pub join_and : List (List String) → Text
join_and [] = []
join_and (p ∷ []) = text_of p
join_and (p ∷ p' ∷ ps) = text_of p ++ (codes " AND " ++ join_and (p' ∷ ps))

unfoldable pub filters : Bool → Bool → Text
unfolding text_of
filters has_q unattributed_only =
    let parts = filter_parts has_q unattributed_only in
    if is_empty parts then [] else codes " WHERE " ++ join_and parts

unfoldable pub rows : Sort → Order → Bool → Bool → Bool → Text
unfolding text_of inner filters column keyword
rows sort order has_q unattributed_only node_filter =
    text_of (
      "SELECT\n" ∷ "            CAST(n AS String) AS node,\n"
      ∷ "            cg          AS cgroup_id,\n" ∷ "            ns          AS namespace,\n"
      ∷ "            pod_name    AS pod,\n" ∷ "            cont_name   AS container,\n"
      ∷ "            resolved    AS k8s_resolved,\n"
      ∷ "            mem_last    AS memory_bytes_last,\n"
      ∷ "            mem_max     AS memory_bytes_max,\n"
      ∷ "            cpu_usec    AS cpu_usage_usec,\n" ∷ "            " ∷ cpu_millicores_text
      ∷ " AS cpu_millicores,\n" ∷ "            execs       AS exec_count,\n"
      ∷ "            samples     AS sample_count,\n"
      ∷ "            w_start     AS window_start_ns,\n"
      ∷ "            w_end       AS window_end_ns\n" ∷ "         FROM (" ∷ [])
    ++ (inner node_filter
        ++ (text_of (")" ∷ [])
            ++ (filters has_q unattributed_only
                ++ (text_of (
                    "\n"
                    ∷ "         ORDER BY "
                    ∷ column sort
                    ∷ " "
                    ∷ keyword order
                    ∷ ", node ASC, cgroup_id ASC\n"
                    ∷ "         LIMIT {limit:UInt64}"
                    ∷ [])))))

unfoldable pub totals : Bool → Bool → Bool → Text
unfolding text_of inner filters
totals has_q unattributed_only node_filter =
    text_of (
      "SELECT\n" ∷ "            count()                  AS matched_count,\n"
      ∷ "            sum(mem_last)            AS memory_bytes,\n"
      ∷ "            sum(execs)               AS exec_count,\n" ∷ "            sum("
      ∷ cpu_millicores_text ∷ ")    AS cpu_millicores,\n"
      ∷ "            countIf(resolved = 0)    AS unattributed_count,\n"
      ∷ "            max(w_end)               AS newest_window_end_ns\n" ∷ "         FROM (" ∷ [])
    ++ (inner node_filter ++ (text_of (")" ∷ []) ++ (filters has_q unattributed_only)))

unfoldable pub nodes : Text
unfolding text_of
nodes = text_of (
    "SELECT CAST(node AS String) AS node, max(window_end_ns) AS last_seen_ns\n"
    ∷ "     FROM statix.workload_metrics\n" ∷ "     WHERE window_start_ns >= {cutoff_ns:UInt64}\n"
    ∷ "     GROUP BY node\n" ∷ "     ORDER BY node" ∷ [])
