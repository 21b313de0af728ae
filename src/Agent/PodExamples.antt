-- ===== src/Agent/PodExamples.antt =====
-- The pod watcher, applied.
use statix.Prelude.{◌≡◌, refl, none, some, [], ◌∷◌, ◌++◌, ℕ, true, nat_eq, arith, ◌*◌}
use statix.Prelude.Map.{get}
use statix.Prelude.Text.{Text, codes, text_key, strip_prefix, parse_u64}
use statix.Agent.Attribution.Names.{CgroupPath, scope_suffix, pod_uid_from_path, file_name}
use statix.Agent.Attribution.Cache.{CacheState}
use statix.Agent.Attribution.Cache.Evict.{KeysOnce}
use statix.Agent.Attribution.Sample.{cache}
use statix.Agent.Attribution.Pods.{conmon_prefix, apply, on_pod_event}
use statix.Agent.Attribution.PodInfo.{Quantities, Pod, ContainerStatus, scheme_end, pod_info_from}
use statix.Agent.Attribution.PodInfo.Merged.{pod_labels, apply-pod_labels}

abbrev whole_numbers : Quantities
whole_numbers = record {
  Float = ℕ;
  parse_f64 = parse_u64;
  literal = λ n. n;
  times = λ a b. a * b;
  is_counted = λ _. true;
  round_u64 = λ n. n;
}

abbrev container_digits : Text
container_digits = codes "af223617009e7b29a5359185bbe2a9b79b296314cc8e4eca93ecbd19d7c0daae"

abbrev web_status : ContainerStatus
web_status = record {
  name = codes "web";
  container_id = some (codes "containerd" ++ (scheme_end ++ container_digits));
}

abbrev pod_uid : Text
pod_uid = codes "2b7669e8-6828-4310-9a1f-0eaad6933466"

abbrev web_pod : Pod
web_pod = record {
  uid = some pod_uid;
  namespace = none;
  name = some (codes "web-0");
  status = some (record {
    container_statuses = some (web_status ∷ []);
    init_container_statuses = none;
    ephemeral_container_statuses = none;
  });
  spec = none;
}

abbrev web_scope : Text
web_scope = (codes "cri-containerd" ++ b'-' ∷ container_digits) ++ scope_suffix

abbrev web_path : CgroupPath
web_path =
    codes "kubepods.slice"
    ∷ codes "kubepods-pod2b7669e8_6828_4310_9a1f_0eaad6933466.slice"
    ∷ web_scope
    ∷ []

abbrev tracking : CacheState
tracking = record cache { cgroup_paths = (5, web_path) ∷ [] }

web_uid : pod_uid_from_path web_path ≡ some pod_uid
unfolding pod_uid_from_path
web_uid = refl

web_dir : file_name web_path ≡ some web_scope
unfolding file_name
web_dir = refl

web_not_monitor : strip_prefix conmon_prefix web_scope ≡ none
unfolding strip_prefix
web_not_monitor = refl

web_tracked : get 5 tracking.cgroup_paths ≡ some web_path
unfolding get
web_tracked = refl

tracking_once : KeysOnce tracking.cgroup_paths
unfolding get
tracking_once = (refl, tt)

apply-pod_labels_example :
    get 5 (on_pod_event (apply (pod_info_from whole_numbers web_pod)) tracking).cgroup_labels
    ≡ some (pod_labels whole_numbers web_pod pod_uid (codes "web"))
apply-pod_labels_example =
    apply-pod_labels whole_numbers web_pod pod_uid (codes "cri-containerd") (codes "containerd")
      container_digits [] [] web_status tracking 5 web_path refl refl refl refl (ground arith) tt
      refl (ground arith) web_not_monitor tracking_once web_tracked web_uid web_dir
