-- ===== src/Agent/Attribution/Examples.antt =====
-- The theorems on attribution, applied.
use statix.Prelude.{◌≡◌, refl, Bool, false, none, some, [], ◌∷◌, nat_eq}
use statix.Prelude.Map.{get}
use statix.Agent.Attribution.Names.{CgroupPath}
use statix.Agent.Attribution.Cache.{
  PodInfo, labels_from_cgroup_path, register_cgroup_directory, on_identity_event,
  evict_stale_cgroups, upsert_pod, remove_pod_by_uid,
}
use statix.Agent.Attribution.Cache.Evict.{
  EvictedAt, is_stale, KeysOnce, evict_stale_cgroups-EvictedAt, evict-unresolved,
}
use statix.Agent.Attribution.Cache.Consistent.{IsConsistent, changes-IsConsistent}
use statix.Agent.Attribution.Sample.{path, other_path, cache}

abbrev nothing_exists : CgroupPath → Bool
nothing_exists _ = false

cache_once : KeysOnce cache.memory_current_paths
unfolding get
cache_once = (refl, tt)

no_path : get 6 cache.cgroup_paths ≡ none
unfolding get
no_path = refl

evict_stale_cgroups-EvictedAt_example :
    EvictedAt
      (is_stale nothing_exists (get 5 cache.memory_current_paths))
      5
      cache
      (evict_stale_cgroups nothing_exists cache).1
evict_stale_cgroups-EvictedAt_example =
    evict_stale_cgroups-EvictedAt nothing_exists cache 5 cache_once

evict-unresolved_example :
    get 6 (evict_stale_cgroups nothing_exists (on_identity_event path 6 none cache)).1.cgroup_labels
    ≡ some (labels_from_cgroup_path none)
evict-unresolved_example = evict-unresolved nothing_exists path 6 cache cache_once no_path no_path

abbrev pod_info : PodInfo
pod_info = record { namespace = b'n' ∷ []; name = b'p' ∷ []; containers = []; resources = [] }

changes-IsConsistent_example :
    IsConsistent (register_cgroup_directory path 6 other_path cache)
    × (IsConsistent (on_identity_event path 6 (some other_path) cache)
        × (IsConsistent (evict_stale_cgroups nothing_exists cache).1
            × (IsConsistent (upsert_pod (b'u' ∷ []) pod_info cache)
                × IsConsistent (remove_pod_by_uid (b'u' ∷ []) cache))))
changes-IsConsistent_example =
    changes-IsConsistent path 6 other_path (some other_path) nothing_exists (b'u' ∷ []) pod_info
      cache (record { memory = λ _. refl; stat = λ _. refl; cpu = λ _. refl })
