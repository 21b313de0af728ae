-- ===== src/Agent/Attribution/Cache.antt =====
-- `AttributionCache` of statix/src/attribution/mod.rs: its six maps behind one lock are a record
-- that each operation replaces. Paths relative to the root are lists of components.
pub mod Evict
pub mod Consistent
use statix.Prelude.{
  ℕ, zero, suc, ◌+◌, ◌≤◌, ◌<◌, ◌≡◌, refl, Bool, true, false, ◌&&◌, ◌||◌, not, Option, none, some,
  List, [], ◌∷◌, ◌++◌, map, length, take, ltb, leb, ◌==◌, if◌then◌else◌, is_empty, arith,
}
use statix.Prelude.{nat_eq}
use statix.Prelude.Map.{Map, get, insert, remove, contains_key, is_some}
use statix.Prelude.Text.{Text, text_key}
use statix.Agent.Attribution.Names.{
  CgroupPath, pod_uid_from_path, container_id_from_dir_name, file_name,
}

pub record Resources : Type 0 where
  pub cpu_request_millicores : ℕ
  pub memory_request_bytes : ℕ
  pub cpu_limit_millicores : ℕ
  pub memory_limit_bytes : ℕ

abbrev pub no_resources : Resources
no_resources = record {
  cpu_request_millicores = 0;
  memory_request_bytes = 0;
  cpu_limit_millicores = 0;
  memory_limit_bytes = 0;
}

pub record WorkloadLabels : Type 0 where
  pub namespace : Option Text
  pub pod : Option Text
  pub container : Option Text
  pub pod_uid : Option Text
  pub k8s_resolved : Bool
  pub resources : Resources

abbrev pub default_labels : WorkloadLabels
default_labels = record {
  namespace = none;
  pod = none;
  container = none;
  pod_uid = none;
  k8s_resolved = false;
  resources = no_resources;
}

pub record PodInfo : Type 0 where
  pub namespace : Text
  pub name : Text
  pub containers : Map Text Text
  pub resources : Map Text Resources

pub record CacheState : Type 0 where
  pub cgroup_paths : Map ℕ CgroupPath
  pub memory_current_paths : Map ℕ CgroupPath
  pub memory_stat_paths : Map ℕ CgroupPath
  pub cpu_stat_paths : Map ℕ CgroupPath
  pub cgroup_labels : Map ℕ WorkloadLabels
  pub pod_by_uid : Map Text PodInfo

-- "memory.current", "memory.stat", "cpu.stat"
abbrev memory_current_name : Text
memory_current_name =
    b'm' ∷ b'e' ∷ b'm' ∷ b'o' ∷ b'r' ∷ b'y' ∷ b'.' ∷ b'c' ∷ b'u' ∷ b'r' ∷ b'r' ∷ b'e' ∷ b'n' ∷ b't'
    ∷ []

abbrev memory_stat_name : Text
memory_stat_name = b'm' ∷ b'e' ∷ b'm' ∷ b'o' ∷ b'r' ∷ b'y' ∷ b'.' ∷ b's' ∷ b't' ∷ b'a' ∷ b't' ∷ []

abbrev cpu_stat_name : Text
cpu_stat_name = b'c' ∷ b'p' ∷ b'u' ∷ b'.' ∷ b's' ∷ b't' ∷ b'a' ∷ b't' ∷ []

unfoldable pub precompute_memory_current : CgroupPath → CgroupPath → CgroupPath
precompute_memory_current root rel = root ++ (rel ++ memory_current_name ∷ [])

unfoldable pub precompute_memory_stat : CgroupPath → CgroupPath → CgroupPath
precompute_memory_stat root rel = root ++ (rel ++ memory_stat_name ∷ [])

unfoldable pub precompute_cpu_stat : CgroupPath → CgroupPath → CgroupPath
precompute_cpu_stat root rel = root ++ (rel ++ cpu_stat_name ∷ [])

-- The first twelve characters of the container ID in the last component.
abbrev pub short_container_id : Option Text → Option Text
short_container_id none = none
short_container_id (some name) = elim (container_id_from_dir_name name) [
  | none ↦ none
  | some id ↦ some (take 12 id)
]

unfoldable pub labels_from_cgroup_path : Option CgroupPath → WorkloadLabels
unfolding file_name
labels_from_cgroup_path none = default_labels
labels_from_cgroup_path (some path) = record {
  namespace = none;
  pod = none;
  container = short_container_id (file_name path);
  pod_uid = pod_uid_from_path path;
  k8s_resolved = false;
  resources = no_resources;
}

unfoldable pub register_cgroup_directory : CgroupPath → ℕ → CgroupPath → CacheState → CacheState
register_cgroup_directory root id rel s = record s {
  cgroup_paths = insert id rel s.cgroup_paths;
  memory_current_paths = insert id (precompute_memory_current root rel) s.memory_current_paths;
  memory_stat_paths = insert id (precompute_memory_stat root rel) s.memory_stat_paths;
  cpu_stat_paths = insert id (precompute_cpu_stat root rel) s.cpu_stat_paths;
  cgroup_labels = insert id (labels_from_cgroup_path (some rel)) s.cgroup_labels;
}

-- The path is the answer of `/proc/{pid}/cgroup`, read before the write lock is taken.
abbrev pub on_new_identity : CgroupPath → ℕ → Option CgroupPath → CacheState → CacheState
on_new_identity root id none s = record s {
  cgroup_labels = insert id (labels_from_cgroup_path (get id s.cgroup_paths)) s.cgroup_labels;
}
on_new_identity root id (some rel) s = record s {
  cgroup_paths = insert id rel s.cgroup_paths;
  memory_current_paths = insert id (precompute_memory_current root rel) s.memory_current_paths;
  memory_stat_paths = insert id (precompute_memory_stat root rel) s.memory_stat_paths;
  cpu_stat_paths = insert id (precompute_cpu_stat root rel) s.cpu_stat_paths;
  cgroup_labels =
      insert id (labels_from_cgroup_path (get id (insert id rel s.cgroup_paths))) s.cgroup_labels;
}

unfoldable pub on_identity_event : CgroupPath → ℕ → Option CgroupPath → CacheState → CacheState
on_identity_event root id rel_path s =
    if contains_key id s.cgroup_paths then s else on_new_identity root id rel_path s

abbrev pub or_default : Option WorkloadLabels → WorkloadLabels
or_default none = default_labels
or_default (some l) = l

unfoldable pub labels_for_cgroup : ℕ → CacheState → WorkloadLabels
labels_for_cgroup id s = or_default (get id s.cgroup_labels)

-- The identifiers whose `memory.current` is gone, by the paths that exist.
unfoldable pub stale_ids : (CgroupPath → Bool) → Map ℕ CgroupPath → List ℕ
stale_ids exists [] = []
stale_ids exists ((id, path) ∷ m) =
    let rest = stale_ids exists m in if exists path then rest else id ∷ rest

unfoldable pub remove_all {ℓ} : {V : Type ℓ} → List ℕ → Map ℕ V → Map ℕ V
remove_all [] m = m
remove_all (id ∷ ids) m = remove_all ids (remove id m)

unfoldable pub evict_stale_cgroups : (CgroupPath → Bool) → CacheState → ℕ × CacheState
unfolding stale_ids
evict_stale_cgroups exists s =
    let ids = stale_ids exists s.memory_current_paths in
    if is_empty ids then (0, s) else (
      length ids,
      record s {
        cgroup_paths = remove_all ids s.cgroup_paths;
        memory_current_paths = remove_all ids s.memory_current_paths;
        memory_stat_paths = remove_all ids s.memory_stat_paths;
        cpu_stat_paths = remove_all ids s.cpu_stat_paths;
        cgroup_labels = remove_all ids s.cgroup_labels;
      },
    )

unfoldable pub upsert_pod : Text → PodInfo → CacheState → CacheState
upsert_pod uid info s = record s { pod_by_uid = insert uid info s.pod_by_uid }

unfoldable pub remove_pod_by_uid : Text → CacheState → CacheState
remove_pod_by_uid uid s = record s { pod_by_uid = remove uid s.pod_by_uid }

pub record SampleTarget : Type 0 where
  pub cgroup_id : ℕ
  pub mem_path : CgroupPath
  pub cpu_path : CgroupPath
  pub stat_path : CgroupPath

abbrev pub target_of : ℕ → CgroupPath → Option CgroupPath → Option CgroupPath → List SampleTarget
target_of id mem (some cpu) (some stat) =
    record { cgroup_id = id; mem_path = mem; cpu_path = cpu; stat_path = stat } ∷ []
target_of id mem _ _ = []

-- The targets in the order in which `for_each_sample_target` visits them.
unfoldable pub targets_in : Map ℕ CgroupPath → CacheState → List SampleTarget
targets_in [] s = []
targets_in ((id, mem) ∷ m) s =
    target_of id mem (get id s.cpu_stat_paths) (get id s.memory_stat_paths) ++ targets_in m s

unfoldable pub for_each_sample_target : CacheState → List SampleTarget
unfolding targets_in
for_each_sample_target s = targets_in s.memory_current_paths s
