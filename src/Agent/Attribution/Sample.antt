-- ===== src/Agent/Attribution/Sample.antt =====
-- A small cache, `AttributionCache` of statix/src/attribution/mod.rs, for the examples.
use statix.Prelude.{[], ◌∷◌, nat_eq}
use statix.Agent.Attribution.Names.{CgroupPath}
use statix.Agent.Attribution.Cache.{CacheState, default_labels}

abbrev pub path : CgroupPath
path = (b'k' ∷ []) ∷ []

abbrev pub other_path : CgroupPath
other_path = (b'j' ∷ []) ∷ []

-- One registered cgroup.
abbrev pub cache : CacheState
cache = record {
  cgroup_paths = (5, path) ∷ [];
  memory_current_paths = (5, path) ∷ [];
  memory_stat_paths = (5, path) ∷ [];
  cpu_stat_paths = (5, path) ∷ [];
  cgroup_labels = (5, default_labels) ∷ [];
  pod_by_uid = [];
}
