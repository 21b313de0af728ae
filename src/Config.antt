-- ===== src/Config.antt =====
-- The configuration from environment variables: statix-infra/src/env.rs, and what
-- statix-gateway/src/config.rs, statix-gateway/src/routes/dashboard/mod.rs, statix/src/wal/mod.rs,
-- statix/src/output.rs, statix/src/attribution/mod.rs and statix/src/ebpf_select.rs read through it.
-- The environment is a map of its readable variables.
pub mod Bounded
pub mod Tokens
mod Examples
use statix.Prelude.{
  ℕ, Bool, true, false, ◌&&◌, ◌||◌, not, Option, none, some, List, [], ◌∷◌, ◌++◌, is_empty, ltb,
  leb, ◌==◌, if◌then◌else◌, max, clamp,
}
use statix.Prelude.Map.{Map, get, is_some}
use statix.Prelude.Text.{Text, codes, text_key, strip_prefix, bytes_eq, parse_u64}
use statix.Wal.Store.{WalConfig}
use statix.Gateway.Writer.{
  ingest_channel_capacity, read_batch_max, read_linger_ms, read_insert_timeout_secs,
}
use statix.Gateway.Dashboard.Handlers.{DashboardConfig}

abbrev pub Env : Type 0
Env = Map Text Text

abbrev pub or_else : Option Text → Option Text → Option Text
or_else none o = o
or_else (some s) o = some s

abbrev pub legacy_of : Env → Option Text → Option Text
legacy_of env none = none
legacy_of env (some legacy) = get (codes "FINOPS_" ++ legacy) env

-- `var`, which is `var_with_legacy`
unfoldable pub var : Env → Text → Option Text
unfolding strip_prefix
var env name = or_else (get name env) (legacy_of env (strip_prefix (codes "STATIX_") name))

abbrev pub positive_or : ℕ → Option ℕ → ℕ
positive_or default none = default
positive_or default (some v) = if ltb 0 v then v else default

abbrev pub parsed_or : ℕ → Option Text → ℕ
parsed_or default none = default
parsed_or default (some s) = positive_or default (parse_u64 s)

-- `read_env_u64`, and `read_env_usize` on a 64-bit target
unfoldable pub read_env_u64 : Env → Text → ℕ → ℕ
unfolding var parse_u64
read_env_u64 env name default = parsed_or default (var env name)

abbrev pub one_of : List Text → Text → Bool
one_of [] s = false
one_of (w ∷ ws) s = bytes_eq s w || one_of ws s

abbrev pub off_words : List Text
off_words = codes "0" ∷ codes "false" ∷ codes "no" ∷ codes "off" ∷ []

abbrev pub unless_off : (Text → Text) → Option Text → Bool
unless_off change none = true
unless_off change (some v) = not (one_of off_words (change v))

-- `trim().to_ascii_lowercase()` of the value is a parameter.
unfoldable pub wal_config_from_env : (Text → Text) → Env → WalConfig
unfolding read_env_u64 var bytes_eq
wal_config_from_env trim_lowercase env =
    let max_bytes = read_env_u64 env (codes "STATIX_WAL_MAX_BYTES") 536870912 in
    let segment_bytes = read_env_u64 env (codes "STATIX_WAL_SEGMENT_BYTES") 8388608 in
    record {
      enabled = unless_off trim_lowercase (var env (codes "STATIX_WAL_ENABLED"));
      max_bytes = max max_bytes segment_bytes;
      segment_bytes = segment_bytes;
      fsync_frames = max (read_env_u64 env (codes "STATIX_WAL_FSYNC_FRAMES") 64) 1;
      fsync_interval = read_env_u64 env (codes "STATIX_WAL_FSYNC_INTERVAL_MS") 200;
    }

abbrev pub nonempty : Option Text → Option Text
nonempty none = none
nonempty (some s) = if is_empty s then none else some s

-- The `as u32` of the rate is of a number within its range.
unfoldable pub dashboard_config_from_env : Env → DashboardConfig
unfolding read_env_u64 var bytes_eq
dashboard_config_from_env env = record {
  enabled = unless_off (λ v. v) (var env (codes "STATIX_DASHBOARD_ENABLED"));
  dir = nonempty (var env (codes "STATIX_DASHBOARD_DIR"));
  cache_ttl = clamp 0 60000 (read_env_u64 env (codes "STATIX_DASHBOARD_CACHE_MS") 2000);
  max_limit = clamp 10 5000 (read_env_u64 env (codes "STATIX_DASHBOARD_MAX_LIMIT") 500);
  rate_limit_per_min =
      clamp 10 1000000 (read_env_u64 env (codes "STATIX_DASHBOARD_RATE_LIMIT_PER_MIN") 600);
}

-- statix-gateway/src/config.rs
pub record Config : Type 0 where
  pub api_port : ℕ
  pub api_token : Option Text
  pub expected_bearer : Option Text
  pub clickhouse_url : Text
  pub clickhouse_user : Text
  pub clickhouse_password : Text

abbrev pub bearer : Option Text → Option Text
bearer none = none
bearer (some token) = some (codes "Bearer " ++ token)

abbrev pub string_or : Text → Option Text → Text
string_or default none = default
string_or default (some s) = if is_empty s then default else s

unfoldable pub env_string : Env → Text → Text → Text
env_string env name default = string_or default (get name env)

-- `none` is an exit. `parse::<u16>` is `parse::<u64>` of a number below 2^16.
abbrev pub port_in : Option ℕ → Option ℕ
port_in none = none
port_in (some port) = if port == 0 then none else if ltb port 65536 then some port else none

abbrev pub port_of : Option Text → Option ℕ
port_of none = some 3000
port_of (some s) = port_in (parse_u64 s)

unfoldable pub env_api_port : Env → Option ℕ
unfolding var parse_u64
env_api_port env = port_of (var env (codes "STATIX_API_PORT"))

abbrev pub or_empty : Option Text → Text
or_empty none = []
or_empty (some s) = s

unfoldable pub with_port : Env → Option ℕ → Option Config
unfolding var env_string
with_port env none = none
with_port env (some port) =
    let api_token = nonempty (var env (codes "STATIX_API_TOKEN")) in
    some (record {
      api_port = port;
      api_token = api_token;
      expected_bearer = bearer api_token;
      clickhouse_url = env_string env (codes "CLICKHOUSE_URL") (codes "http://localhost:8123");
      clickhouse_user = env_string env (codes "CLICKHOUSE_USER") (codes "default");
      clickhouse_password = or_empty (get (codes "CLICKHOUSE_PASSWORD") env);
    })

unfoldable pub config_from_env : Env → Option Config
unfolding env_api_port with_port
config_from_env env = with_port env (env_api_port env)

-- The header of the agent's client, `init_http_client`, when the text can be one.
abbrev pub header_of : (Text → Bool) → Option Text → Option Text
header_of is_header none = none
header_of is_header (some token) =
    let value = codes "Bearer " ++ token in if is_header value then some value else none

unfoldable pub init_http_client : (Text → Bool) → Env → Option Text
unfolding var
init_http_client is_header env = header_of is_header (nonempty (var env (codes "STATIX_API_TOKEN")))

-- `read_node_name`, with what `/etc/hostname` holds, trimmed.
abbrev pub node_or : Option Text → Option Text → Text
node_or (some name) hostname = name
node_or none (some name) = name
node_or none none = codes "localhost"

unfoldable pub read_node_name : Option Text → Env → Text
unfolding var
read_node_name hostname env =
    node_or (or_else (var env (codes "STATIX_NODE_NAME")) (get (codes "NODE_NAME") env)) hostname

unfoldable pub dev_kubeconfig : Env → Option Text
dev_kubeconfig env = nonempty (get (codes "STATIX_DEV_KUBECONFIG") env)

unfoldable pub k8s_configured : Env → Bool
unfolding dev_kubeconfig
k8s_configured env =
    is_some (get (codes "KUBERNETES_SERVICE_HOST") env) || is_some (dev_kubeconfig env)

-- The variant and its ring buffer's bytes.
unfoldable pub select_variant : ℕ → Text × ℕ
select_variant cpus =
    if leb cpus 8
    then (codes "statix-ebpf-small", 524288)
    else if leb cpus 64
    then (codes "statix-ebpf-large", 4194304)
    else (codes "statix-ebpf-xlarge", 8388608)

abbrev pub text_or : Text → Option Text → Text
text_or default none = default
text_or default (some s) = s

abbrev pub if_file : (Text → Bool) → Text → Option Text
if_file is_file path = if is_file path then some path else none

-- `none` is the error that the file is not there.
abbrev pub path_or_variant : (Text → Bool) → Text → ℕ → Option Text → Option Text
path_or_variant is_file dir cpus (some path) = some path
path_or_variant is_file dir cpus none =
    if_file is_file (dir ++ (codes "/" ++ (select_variant cpus).0))

unfoldable pub resolve_ebpf_path : (Text → Bool) → Text → ℕ → Env → Option Text
unfolding var select_variant
resolve_ebpf_path is_file bundle_dir cpus env =
    path_or_variant is_file (text_or bundle_dir (var env (codes "STATIX_BPF_DIR"))) cpus
      (var env (codes "STATIX_EBF_PATH"))

-- The settings of statix-gateway/src/clickhouse_writer.rs.
pub record WriterSettings : Type 0 where
  pub channel_capacity : ℕ
  pub batch_max : ℕ
  pub linger_ms : ℕ
  pub insert_timeout_secs : ℕ

unfoldable pub writer_settings : Env → WriterSettings
unfolding read_env_u64 ingest_channel_capacity read_batch_max read_linger_ms
    read_insert_timeout_secs
writer_settings env = record {
  channel_capacity =
      ingest_channel_capacity (read_env_u64 env (codes "STATIX_INGEST_CHANNEL_SIZE") 8192);
  batch_max = read_batch_max (read_env_u64 env (codes "STATIX_CH_BATCH_MAX") 1024);
  linger_ms = read_linger_ms (read_env_u64 env (codes "STATIX_CH_LINGER_MS") 50);
  insert_timeout_secs =
      read_insert_timeout_secs (read_env_u64 env (codes "STATIX_CH_INSERT_TIMEOUT_SECS") 3);
}
