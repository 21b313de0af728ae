-- ===== src/Agent/Attribution/PodInfo/Merged.antt =====
-- What the pod watcher of statix/src/attribution/mod.rs writes into the labels of the tracked
-- cgroups.
use statix.Prelude.{
  ℕ, ◌≡◌, ◌≢◌, refl, ap, sym, ◌∙◌, true, false, Option, none, some, List, [], ◌∷◌, ◌++◌, length,
  is_empty, ◌==◌, ==_iff, All, Bool-cases, inl, inr, nat_eq,
}
use statix.Prelude.Map.{Map, get, insert, get-insert}
use statix.Prelude.Text.{Text, codes, text_key, strip_prefix, bytes_eq_refl}
use statix.Agent.Attribution.Names.{CgroupPath, scope_suffix, file_name, pod_uid_from_path}
use statix.Agent.Attribution.Cache.{
  PodInfo, WorkloadLabels, CacheState, labels_from_cgroup_path, upsert_pod,
}
use statix.Agent.Attribution.Cache.Evict.{KeysOnce}
use statix.Agent.Attribution.Pods.{
  conmon_prefix, container_name_in_pod, resources_of, merged_labels, write_labels,
  merge_cgroup_labels_from_k8s, apply, on_pod_event,
}
use statix.Agent.Attribution.PodInfo.{
  Quantities, Pod, ContainerStatus, scheme_end, id_of, statuses_of, unwrap_or, info_of,
  pod_info_from,
}
use statix.Agent.Attribution.PodInfo.Names.{
  IsHex, container_id-scope, after_scheme-id, get-insert_statuses,
}

-- The labels of a cgroup once the pods are merged: its own, when it is tracked.
abbrev pub merged_or :
    Option WorkloadLabels → Map Text PodInfo → Option CgroupPath → Option WorkloadLabels
merged_or old pods none = old
merged_or old pods (some path) = some (merged_labels pods path)

get-write_labels :
    (pods : Map Text PodInfo) (m : Map ℕ CgroupPath) (labels : Map ℕ WorkloadLabels) (id : ℕ)
    → KeysOnce m
    → get id (write_labels pods m labels) ≡ merged_or (get id labels) pods (get id m)
unfolding write_labels get
get-write_labels pods [] labels id h = refl
get-write_labels pods ((j, path) ∷ m) labels id h =
    get-write_labels pods m (insert j (merged_labels pods path) labels) id h.1
    ∙ elim (Bool-cases (j == id)) [
      | inl e ↦
          let untracked : get id m ≡ none = ap (λ k. get k m) (sym ((==_iff j id).0 e)) ∙ h.0 in
          rw (untracked, get-insert j id (merged_labels pods path) labels, e)
      | inr e ↦ rw (get-insert j id (merged_labels pods path) labels, e)
    ]

-- After a merge, every tracked cgroup has the labels of its path under the pods that are known,
-- and the labels of a cgroup that is not tracked are as they were.
merge-labels :
    (s : CacheState) (id : ℕ)
    → KeysOnce s.cgroup_paths
    → get id (merge_cgroup_labels_from_k8s s).cgroup_labels
      ≡ merged_or (get id s.cgroup_labels) s.pod_by_uid (get id s.cgroup_paths)
unfolding merge_cgroup_labels_from_k8s
merge-labels s id once = get-write_labels s.pod_by_uid s.cgroup_paths s.cgroup_labels id once

-- The labels of the container with this name in this pod.
abbrev pub pod_labels : Quantities → Pod → Text → Text → WorkloadLabels
pod_labels q pod uid name = record {
  namespace = some (unwrap_or (codes "default") pod.namespace);
  pod = some (unwrap_or [] pod.name);
  container = some name;
  pod_uid = some uid;
  k8s_resolved = true;
  resources = resources_of (some name) (info_of q pod uid).1;
}

merged_labels-pod :
    (q : Quantities) (pod : Pod) (uid name dir : Text) (path : CgroupPath) (pods : Map Text PodInfo)
    → pod_uid_from_path path ≡ some uid
    → file_name path ≡ some dir
    → get uid pods ≡ some (info_of q pod uid).1
    → container_name_in_pod dir (info_of q pod uid).1 ≡ some name
    → merged_labels pods path ≡ pod_labels q pod uid name
unfolding merged_labels labels_from_cgroup_path
merged_labels-pod q pod uid name dir path pods is_uid is_dir known named =
    rw (is_uid, known, is_dir, named)

scope_name :
    (q : Quantities) (pod : Pod) (uid runtime scheme id : Text)
    (before after : List ContainerStatus) (c : ContainerStatus)
    → statuses_of pod.status ≡ before ++ c ∷ after
    → c.container_id ≡ some (scheme ++ (scheme_end ++ id))
    → All (λ b. b ≢ b':') scheme
    → All (λ d. id_of d.container_id ≢ some id) after
    → length id ≡ 64
    → All IsHex id
    → strip_prefix conmon_prefix ((runtime ++ b'-' ∷ id) ++ scope_suffix) ≡ none
    → container_name_in_pod ((runtime ++ b'-' ∷ id) ++ scope_suffix) (info_of q pod uid).1
      ≡ some c.name
unfolding container_name_in_pod
scope_name q pod uid runtime scheme id before after c statuses has_id plain last size hex
      not_monitor =
    let here : id_of c.container_id ≡ some id = ap id_of has_id ∙ after_scheme-id scheme id plain in
    rw (
      not_monitor,
      container_id-scope runtime id size hex,
      statuses,
      get-insert_statuses before after c id [] here last,
    )

-- An Apply event names the container. The pod has a UID that is not empty; a cgroup that is
-- tracked, under an ID that occurs once, is the scope of a container of the pod: its path has the
-- pod's UID, and its directory ends in the container's ID of 64 hexadecimal digits and is not a
-- conmon monitor's; the ID is in one of the three status lists, behind a scheme without a colon,
-- and no later status has the same ID. Then after the event the cgroup's labels are those of the
-- pod and of the status's name.
pub apply-pod_labels :
    (q : Quantities) (pod : Pod) (uid runtime scheme cid : Text)
    (before after : List ContainerStatus) (c : ContainerStatus) (s : CacheState) (id : ℕ)
    (path : CgroupPath)
    → pod.uid ≡ some uid
    → is_empty uid ≡ false
    → statuses_of pod.status ≡ before ++ c ∷ after
    → c.container_id ≡ some (scheme ++ (scheme_end ++ cid))
    → All (λ b. b ≢ b':') scheme
    → All (λ d. id_of d.container_id ≢ some cid) after
    → length cid ≡ 64
    → All IsHex cid
    → strip_prefix conmon_prefix ((runtime ++ b'-' ∷ cid) ++ scope_suffix) ≡ none
    → KeysOnce s.cgroup_paths
    → get id s.cgroup_paths ≡ some path
    → pod_uid_from_path path ≡ some uid
    → file_name path ≡ some ((runtime ++ b'-' ∷ cid) ++ scope_suffix)
    → get id (on_pod_event (apply (pod_info_from q pod)) s).cgroup_labels
      ≡ some (pod_labels q pod uid c.name)
unfolding on_pod_event pod_info_from upsert_pod
apply-pod_labels q pod uid runtime scheme cid before after c s id path has_uid nonempty statuses
      has_id plain last size hex not_monitor once tracked is_uid is_dir =
    let info : PodInfo = (info_of q pod uid).1 in
    let s' : CacheState = upsert_pod uid info s in
    let event : on_pod_event (apply (pod_info_from q pod)) s ≡ merge_cgroup_labels_from_k8s s' =
      rw (has_uid, nonempty) in
    let known : get uid s'.pod_by_uid ≡ some info =
      get-insert uid uid info s.pod_by_uid ∙ rw (bytes_eq_refl uid) in
    let named =
      scope_name q pod uid runtime scheme cid before after c statuses has_id plain last size hex
        not_monitor in
    ap (λ t. get id t.cgroup_labels) event
    ∙ (merge-labels s' id once
        ∙ (ap (merged_or (get id s'.cgroup_labels) s'.pod_by_uid) tracked
            ∙ ap (λ l. some l)
                (merged_labels-pod q pod uid c.name ((runtime ++ b'-' ∷ cid) ++ scope_suffix) path
                  s'.pod_by_uid is_uid is_dir known named)))
