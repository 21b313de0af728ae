-- ===== src/Config/Examples.antt =====
-- The theorems on the configuration, applied.
use statix.Prelude.{◌≡◌, ◌≢◌, refl, true, false, none, some, [], ◌∷◌, ◌++◌}
use statix.Prelude.Map.{get}
use statix.Prelude.Text.{codes, bytes_eq}
use statix.Gateway.Writer.{IngestBatch}
use statix.Gateway.Ingest.{AppState, unauthorized, handler, ingest_inner}
use statix.Config.{
  Env, var, Config, wal_config_from_env, dashboard_config_from_env, config_from_env, env_api_port,
  init_http_client, writer_settings,
}
use statix.Config.Bounded.{IsUsable, IsBounded, IsSized, IsPort, configs-IsBounded}
use statix.Config.Tokens.{token_of, handler_same_token}

-- The token stands under its older name.
abbrev env : Env
env =
    (codes "FINOPS_API_TOKEN", codes "secret")
    ∷ (codes "STATIX_API_PORT", codes "8080")
    ∷ (codes "STATIX_WAL_SEGMENT_BYTES", codes "0")
    ∷ []

configs-IsBounded_example :
    IsUsable (wal_config_from_env (λ s. s) env)
    × (IsBounded (dashboard_config_from_env env)
        × (IsSized (writer_settings env) × IsPort (env_api_port env)))
configs-IsBounded_example = configs-IsBounded (λ s. s) env

abbrev loaded : Config
loaded = record {
  api_port = 8080;
  api_token = some (codes "secret");
  expected_bearer = some (codes "Bearer secret");
  clickhouse_url = codes "http://localhost:8123";
  clickhouse_user = codes "default";
  clickhouse_password = [];
}

env-loaded : config_from_env env ≡ some loaded
unfolding config_from_env get bytes_eq
env-loaded = refl

token_set : token_of env ≡ some (codes "secret")
unfolding var get bytes_eq
token_set = refl

abbrev batch : IngestBatch
batch = record {
  schema_version = 4;
  window_start_ns = 1;
  window_end_ns = 2;
  node = [];
  batch_id = [];
  agent_version = [];
  workloads = [];
}

abbrev state : AppState
state = record {
  rows = [];
  capacity = 10;
  is_closed = false;
  ch_healthy = true;
  expected_bearer = some (codes "Bearer secret");
}

no_header : none ≢ some (codes "Bearer " ++ codes "secret")
no_header e = absurd cc

handler_same_token_example :
    (handler (init_http_client (λ _. true) env) batch state ≡ ingest_inner batch state)
    × (handler none batch state ≡ (unauthorized, state))
handler_same_token_example =
    handler_same_token (λ _. true) env loaded (codes "secret") none batch state env-loaded refl
      token_set refl no_header
