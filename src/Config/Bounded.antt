-- ===== src/Config/Bounded.antt =====
-- What the configuration of statix-infra/src/env.rs and its readers is for any environment.
use statix.Prelude.{
  ℕ, ◌≤◌, ◌<◌, Option, none, some, ltb, ◌==◌, if_elim, arith, Bool-cases, inl, inr, ◌^◌,
}
use statix.Prelude.Text.{Text, codes, parse_u64}
use statix.Wal.Store.{WalConfig}
use statix.Gateway.Dashboard.Handlers.{DashboardConfig}
use statix.Config.{
  Env, var, positive_or, parsed_or, read_env_u64, wal_config_from_env, dashboard_config_from_env,
  port_in, port_of, env_api_port, WriterSettings, writer_settings,
}

positive_or-positive : (default : ℕ) (o : Option ℕ) → 0 < default → 0 < positive_or default o
positive_or-positive default none h = h
positive_or-positive default (some v) h = ground arith

parsed_or-positive : (default : ℕ) (o : Option Text) → 0 < default → 0 < parsed_or default o
parsed_or-positive default none h = h
parsed_or-positive default (some s) h = positive_or-positive default (parse_u64 s) h

read_env_u64-positive :
    (env : Env) (name : Text) (default : ℕ) → 0 < default → 0 < read_env_u64 env name default
unfolding read_env_u64
read_env_u64-positive env name default h = parsed_or-positive default (var env name) h

-- A port that is served is one of the ports there are.
abbrev pub IsPort : Option ℕ → Type 0
IsPort none = Unit
IsPort (some port) = (1 ≤ port) × (port < 65536)

port_in-IsPort : (o : Option ℕ) → IsPort (port_in o)
port_in-IsPort none = tt
port_in-IsPort (some port) = elim (Bool-cases (port == 0)) [
  | inl zero' ↦ rw zero' tt
  | inr nonzero ↦ rw nonzero (
      if_elim IsPort (ltb port 65536) (some port) none (λ e. (ground arith, ground arith))
        (λ _. tt))
]

port_of-IsPort : (o : Option Text) → IsPort (port_of o)
port_of-IsPort none = (omega arith, omega arith)
port_of-IsPort (some s) = port_in-IsPort (parse_u64 s)

-- The settings of the WAL: a cap that has room for a whole segment, segments that are not empty,
-- and syncs that happen.
pub record IsUsable (cfg : WalConfig) : Type 0 where
  pub some_segment : 0 < cfg.segment_bytes
  pub cap_of_segment : cfg.segment_bytes ≤ cfg.max_bytes
  pub some_frames : 1 ≤ cfg.fsync_frames
  pub some_interval : 0 < cfg.fsync_interval

pub record IsBounded (cfg : DashboardConfig) : Type 0 where
  pub cache_ttl : (1 ≤ cfg.cache_ttl) × (cfg.cache_ttl ≤ 60000)
  pub max_limit : (10 ≤ cfg.max_limit) × (cfg.max_limit ≤ 5000)
  pub rate : (10 ≤ cfg.rate_limit_per_min) × (cfg.rate_limit_per_min < 2 ^ 32)

pub record IsSized (w : WriterSettings) : Type 0 where
  pub channel : 1024 ≤ w.channel_capacity
  pub batch : (64 ≤ w.batch_max) × (w.batch_max ≤ 16384)
  pub linger : (1 ≤ w.linger_ms) × (w.linger_ms ≤ 1000)
  pub insert_timeout : (1 ≤ w.insert_timeout_secs) × (w.insert_timeout_secs ≤ 30)

wal_config-IsUsable :
    (trim_lowercase : Text → Text) (env : Env) → IsUsable (wal_config_from_env trim_lowercase env)
unfolding wal_config_from_env
wal_config-IsUsable trim_lowercase env =
    let positive : 0 < read_env_u64 env (codes "STATIX_WAL_SEGMENT_BYTES") 8388608 =
      read_env_u64-positive env (codes "STATIX_WAL_SEGMENT_BYTES") 8388608 (omega arith) in
    let interval : 0 < read_env_u64 env (codes "STATIX_WAL_FSYNC_INTERVAL_MS") 200 =
      read_env_u64-positive env (codes "STATIX_WAL_FSYNC_INTERVAL_MS") 200 (omega arith) in
    record {
      some_segment = positive;
      cap_of_segment = omega arith;
      some_frames = omega arith;
      some_interval = interval;
    }

dashboard_config-IsBounded : (env : Env) → IsBounded (dashboard_config_from_env env)
unfolding dashboard_config_from_env
dashboard_config-IsBounded env =
    let positive : 0 < read_env_u64 env (codes "STATIX_DASHBOARD_CACHE_MS") 2000 =
      read_env_u64-positive env (codes "STATIX_DASHBOARD_CACHE_MS") 2000 (omega arith) in
    record {
      cache_ttl = (omega arith, omega arith);
      max_limit = (omega arith, omega arith);
      rate = (omega arith, omega arith);
    }

writer-IsSized : (env : Env) → IsSized (writer_settings env)
unfolding writer_settings
writer-IsSized env = record {
  channel = omega arith;
  batch = (omega arith, omega arith);
  linger = (omega arith, omega arith);
  insert_timeout = (omega arith, omega arith);
}

-- Whatever the environment is, the settings are in their ranges: the WAL's cap holds a whole
-- segment, its segments, sync count and sync interval are positive, the dashboard's lifetimes,
-- limits and rate are within their ranges (so the rate fits a u32), the ClickHouse writer's
-- channel, batch, linger and timeout are within theirs, and the gateway exits or serves a port
-- from 1 to 65535.
pub configs-IsBounded :
    (trim_lowercase : Text → Text) (env : Env)
    → IsUsable (wal_config_from_env trim_lowercase env)
      × (IsBounded (dashboard_config_from_env env)
          × (IsSized (writer_settings env) × IsPort (env_api_port env)))
unfolding env_api_port
configs-IsBounded trim_lowercase env = (
  wal_config-IsUsable trim_lowercase env,
  (
    dashboard_config-IsBounded env,
    (writer-IsSized env, port_of-IsPort (var env (codes "STATIX_API_PORT"))),
  ),
)
