-- ===== src/Agent/Attribution/Pods.antt =====
-- The pod watcher of statix/src/attribution/mod.rs: labels for cgroups inside known pods, and
-- what each watch event does to the cache.
use statix.Prelude.{ℕ, suc, true, ◌&&◌, not, Option, none, some, [], ◌∷◌, if◌then◌else◌}
use statix.Prelude.{nat_eq}
use statix.Prelude.Map.{Map, get, insert, is_some}
use statix.Prelude.Text.{Text, text_key, strip_prefix}
use statix.Agent.Attribution.Names.{CgroupPath, container_id_from_dir_name, file_name}
use statix.Agent.Attribution.Cache.{
  Resources, no_resources, WorkloadLabels, PodInfo, CacheState, labels_from_cgroup_path, upsert_pod,
  remove_pod_by_uid,
}

-- "crio-conmon-"
abbrev pub conmon_prefix : Text
conmon_prefix =
    b'c' ∷ b'r' ∷ b'i' ∷ b'o' ∷ b'-' ∷ b'c' ∷ b'o' ∷ b'n' ∷ b'm' ∷ b'o' ∷ b'n' ∷ b'-' ∷ []

unfoldable pub container_name_in_pod : Text → PodInfo → Option Text
unfolding strip_prefix
container_name_in_pod dir_name pod =
    if is_some (strip_prefix conmon_prefix dir_name)
    then none
    else elim (container_id_from_dir_name dir_name) [
      | none ↦ none
      | some id ↦ get id pod.containers
    ]

abbrev pub container_of : Option Text → PodInfo → Option Text
container_of none pod = none
container_of (some name) pod = container_name_in_pod name pod

abbrev pub resources_of : Option Text → PodInfo → Resources
resources_of none pod = no_resources
resources_of (some name) pod = elim (get name pod.resources) [ none ↦ no_resources | some r ↦ r ]

abbrev pub with_pod : CgroupPath → WorkloadLabels → Option PodInfo → WorkloadLabels
with_pod path labels none = labels
with_pod path labels (some pod) =
    let container = container_of (file_name path) pod in
    record labels {
      namespace = some pod.namespace;
      pod = some pod.name;
      k8s_resolved = true;
      container = container;
      resources = resources_of container pod;
    }

abbrev pub pod_of : Option Text → Map Text PodInfo → Option PodInfo
pod_of none pods = none
pod_of (some uid) pods = get uid pods

-- The labels of one tracked cgroup under a snapshot of the pods.
unfoldable pub merged_labels : Map Text PodInfo → CgroupPath → WorkloadLabels
merged_labels pods path =
    let labels = labels_from_cgroup_path (some path) in
    with_pod path labels (pod_of labels.pod_uid pods)

-- Cgroups under a pod that the watcher does not know.
unfoldable pub unmatched_in : Map Text PodInfo → Map ℕ CgroupPath → ℕ
unmatched_in pods [] = 0
unmatched_in pods ((id, path) ∷ m) =
    let rest = unmatched_in pods m in
    let uid = (labels_from_cgroup_path (some path)).pod_uid in
    if is_some uid && not (is_some (pod_of uid pods)) then suc rest else rest

-- The writes under the second lock.
unfoldable pub write_labels :
    Map Text PodInfo → Map ℕ CgroupPath → Map ℕ WorkloadLabels → Map ℕ WorkloadLabels
unfolding merged_labels
write_labels pods [] labels = labels
write_labels pods ((id, path) ∷ m) labels =
    write_labels pods m (insert id (merged_labels pods path) labels)

-- With no other writer between the two locks.
unfoldable pub merge_cgroup_labels_from_k8s : CacheState → CacheState
unfolding write_labels
merge_cgroup_labels_from_k8s s = record s {
  cgroup_labels = write_labels s.pod_by_uid s.cgroup_paths s.cgroup_labels;
}

-- An event of the watch stream; a pod is what `pod_info_from` makes of it.
pub data PodEvent : Type 0 where
  apply : Option (Text × PodInfo) → PodEvent
  delete : Option Text → PodEvent
  init_apply : Option (Text × PodInfo) → PodEvent
  init init_done : PodEvent

unfoldable pub on_pod_event : PodEvent → CacheState → CacheState
unfolding merge_cgroup_labels_from_k8s upsert_pod remove_pod_by_uid
on_pod_event (apply none) s = s
on_pod_event (apply (some (uid, info))) s = merge_cgroup_labels_from_k8s (upsert_pod uid info s)
on_pod_event (delete none) s = s
on_pod_event (delete (some uid)) s = remove_pod_by_uid uid s
on_pod_event (init_apply none) s = s
on_pod_event (init_apply (some (uid, info))) s = upsert_pod uid info s
on_pod_event init s = s
on_pod_event init_done s = merge_cgroup_labels_from_k8s s
