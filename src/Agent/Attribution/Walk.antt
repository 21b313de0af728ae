-- ===== src/Agent/Attribution/Walk.antt =====
-- The two passes over everything there is, statix/src/attribution/mod.rs: the walk of the cgroup
-- tree at start-up, and the list of pods when the watch ends. What the walk finds and what the
-- Kubernetes API lists are arguments.
use statix.Prelude.{
  ℕ, ◌≡◌, refl, ap, ◌∙◌, Bool, Option, none, some, List, [], ◌∷◌, ◌==◌, is_empty, if◌then◌else◌,
  nat_eq, min, ◌*◌,
}
use statix.Prelude.Map.{get, get-insert}
use statix.Prelude.Text.{Text}
use statix.Agent.Attribution.Names.{CgroupPath}
use statix.Agent.Attribution.Cache.{CacheState, PodInfo, register_cgroup_directory, upsert_pod}
use statix.Agent.Attribution.Pods.{merge_cgroup_labels_from_k8s}

-- An entry of the walk that could be read: its path below the root, which is empty for the root
-- itself, and its inode, or `none` when its metadata cannot be read.
pub record WalkEntry : Type 0 where
  pub is_dir : Bool
  pub rel_path : CgroupPath
  pub inode : Option ℕ

abbrev pub found_id : WalkEntry → ℕ
found_id e = elim e.inode [ none ↦ 0 | some id ↦ id ]

-- The cgroups that the walk discovers, in order.
unfoldable pub discovered : List WalkEntry → List (ℕ × CgroupPath)
discovered [] = []
discovered (e ∷ es) =
    let rest = discovered es in
    if e.is_dir
    then (if is_empty e.rel_path
        then rest
        else if found_id e == 0
        then rest
        else (found_id e, e.rel_path) ∷ rest)
    else rest

unfoldable pub register_all : CgroupPath → List (ℕ × CgroupPath) → CacheState → CacheState
unfolding register_cgroup_directory
register_all root [] s = s
register_all root ((id, rel) ∷ found) s =
    register_all root found (register_cgroup_directory root id rel s)

-- `none` is a walk that failed.
unfoldable pub bootstrap_existing_cgroups :
    CgroupPath → Option (List WalkEntry) → CacheState → CacheState
unfolding discovered register_all
bootstrap_existing_cgroups root none s = s
bootstrap_existing_cgroups root (some entries) s = register_all root (discovered entries) s

abbrev pub upsert_if_some : Option (Text × PodInfo) → CacheState → CacheState
upsert_if_some none s = s
upsert_if_some (some (uid, info)) s = upsert_pod uid info s

-- A pod is what `pod_info_from` makes of it.
unfoldable pub upsert_all : List (Option (Text × PodInfo)) → CacheState → CacheState
unfolding upsert_pod
upsert_all [] s = s
upsert_all (p ∷ ps) s = upsert_all ps (upsert_if_some p s)

abbrev pub after_list : Option (List (Option (Text × PodInfo))) → CacheState → CacheState
after_list none s = s
after_list (some pods) s = merge_cgroup_labels_from_k8s (upsert_all pods s)

-- `none` is a list that failed.
unfoldable pub refresh_k8s_pods :
    Bool → Option (List (Option (Text × PodInfo))) → CacheState → CacheState
unfolding upsert_all merge_cgroup_labels_from_k8s
refresh_k8s_pods configured listed s = if configured then after_list listed s else s

-- The delay before the watch is opened again, in seconds and without jitter: after an event, and
-- after a stream that ended.
abbrev pub first_reconnect_backoff : ℕ
first_reconnect_backoff = 5

unfoldable pub next_reconnect_backoff : ℕ → ℕ
next_reconnect_backoff secs = min (secs * 2) 300

-- The path under which a cgroup was found last, or what was known before.
abbrev pub found_path : ℕ → List (ℕ × CgroupPath) → Option CgroupPath → Option CgroupPath
found_path id [] known = known
found_path id ((j, rel) ∷ found) known = found_path id found (if j == id then some rel else known)

-- Registering what the walk found gives every cgroup the path that it was found under last, and
-- leaves the paths of the others.
register_all-path :
    (root : CgroupPath) (found : List (ℕ × CgroupPath)) (s : CacheState) (id : ℕ)
    → get id (register_all root found s).cgroup_paths ≡ found_path id found (get id s.cgroup_paths)
unfolding register_all register_cgroup_directory
register_all-path root [] s id = refl
register_all-path root ((j, rel) ∷ found) s id =
    register_all-path root found (register_cgroup_directory root j rel s) id
    ∙ ap (found_path id found) (get-insert j id rel s.cgroup_paths)
