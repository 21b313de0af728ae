-- ===== src/Agent/Attribution/Cache/Consistent.antt =====
-- The four path maps of statix/src/attribution/mod.rs know the same cgroups.
use statix.Prelude.{
  ℕ, ◌≡◌, refl, Bool, true, false, Option, none, some, List, is_empty, ◌==◌, if◌then◌else◌, if_elim,
  nat_eq,
}
use statix.Prelude.Map.{Map, get, insert, get-insert, contains_key, is_some}
use statix.Agent.Attribution.Names.{CgroupPath}
use statix.Agent.Attribution.Cache.{
  CacheState, PodInfo, register_cgroup_directory, on_identity_event, on_new_identity, stale_ids,
  remove_all, evict_stale_cgroups, upsert_pod, remove_pod_by_uid,
}
use statix.Agent.Attribution.Cache.Evict.{get-remove_all, holds}
use statix.Prelude.Text.{Text}

-- A cgroup with a path has its three file paths, one without has none.
pub record IsConsistent (s : CacheState) : Type 0 where
  pub memory : (id : ℕ) → contains_key id s.memory_current_paths ≡ contains_key id s.cgroup_paths
  pub stat : (id : ℕ) → contains_key id s.memory_stat_paths ≡ contains_key id s.cgroup_paths
  pub cpu : (id : ℕ) → contains_key id s.cpu_stat_paths ≡ contains_key id s.cgroup_paths

both_insert :
    (id : ℕ) (p q : CgroupPath) (m n : Map ℕ CgroupPath)
    → ((j : ℕ) → contains_key j m ≡ contains_key j n)
    → (j : ℕ) → contains_key j (insert id p m) ≡ contains_key j (insert id q n)
both_insert id p q m n h j = rw (get-insert id j p m, get-insert id j q n) (by_key (id == j) (h j))
  where
    by_key :
        (t : Bool)
        → is_some (get j m) ≡ is_some (get j n)
        → is_some (if t then some p else get j m) ≡ is_some (if t then some q else get j n)
    by_key true e = refl
    by_key false e = e

both_remove :
    (ids : List ℕ) (m n : Map ℕ CgroupPath)
    → ((j : ℕ) → contains_key j m ≡ contains_key j n)
    → (j : ℕ) → contains_key j (remove_all ids m) ≡ contains_key j (remove_all ids n)
both_remove ids m n h j =
    rw (get-remove_all ids m j, get-remove_all ids n j) (by_key (holds j ids) (h j))
  where
    by_key :
        (t : Bool)
        → is_some (get j m) ≡ is_some (get j n)
        → is_some (if t then none else get j m) ≡ is_some (if t then none else get j n)
    by_key true e = refl
    by_key false e = e

register-IsConsistent :
    (root : CgroupPath) (id : ℕ) (rel : CgroupPath) (s : CacheState)
    → IsConsistent s
    → IsConsistent (register_cgroup_directory root id rel s)
unfolding register_cgroup_directory
register-IsConsistent root id rel s h = record {
  memory = both_insert id _ _ s.memory_current_paths s.cgroup_paths h.memory;
  stat = both_insert id _ _ s.memory_stat_paths s.cgroup_paths h.stat;
  cpu = both_insert id _ _ s.cpu_stat_paths s.cgroup_paths h.cpu;
}

on_new_identity-IsConsistent :
    (root : CgroupPath) (id : ℕ) (rel : Option CgroupPath) (s : CacheState)
    → IsConsistent s
    → IsConsistent (on_new_identity root id rel s)
on_new_identity-IsConsistent root id none s h = record {
  memory = h.memory;
  stat = h.stat;
  cpu = h.cpu;
}
on_new_identity-IsConsistent root id (some rel) s h = record {
  memory = both_insert id _ _ s.memory_current_paths s.cgroup_paths h.memory;
  stat = both_insert id _ _ s.memory_stat_paths s.cgroup_paths h.stat;
  cpu = both_insert id _ _ s.cpu_stat_paths s.cgroup_paths h.cpu;
}

evict-IsConsistent :
    (exists : CgroupPath → Bool) (s : CacheState)
    → IsConsistent s
    → IsConsistent (evict_stale_cgroups exists s).1
unfolding evict_stale_cgroups
evict-IsConsistent exists s h =
    let ids = stale_ids exists s.memory_current_paths in
    if_elim (λ (r : ℕ × CacheState). IsConsistent r.1) (is_empty ids) _ _ (λ _. h)
      (λ _. record {
        memory = both_remove ids s.memory_current_paths s.cgroup_paths h.memory;
        stat = both_remove ids s.memory_stat_paths s.cgroup_paths h.stat;
        cpu = both_remove ids s.cpu_stat_paths s.cgroup_paths h.cpu;
      })

-- Every change of the cache keeps the four path maps in step: a registered directory, an event
-- with and without a path, an eviction, and the changes of pods.
pub changes-IsConsistent :
    (root : CgroupPath) (id : ℕ) (rel : CgroupPath) (found : Option CgroupPath)
    (exists : CgroupPath → Bool) (uid : Text) (info : PodInfo) (s : CacheState)
    → IsConsistent s
    → IsConsistent (register_cgroup_directory root id rel s)
      × (IsConsistent (on_identity_event root id found s)
          × (IsConsistent (evict_stale_cgroups exists s).1
              × (IsConsistent (upsert_pod uid info s) × IsConsistent (remove_pod_by_uid uid s))))
unfolding on_identity_event upsert_pod remove_pod_by_uid
changes-IsConsistent root id rel found exists uid info s h = (
  register-IsConsistent root id rel s h,
  (
    if_elim IsConsistent (contains_key id s.cgroup_paths) s (on_new_identity root id found s)
        (λ _. h) (λ _. on_new_identity-IsConsistent root id found s h),
    (
      evict-IsConsistent exists s h,
      (
        record { memory = h.memory; stat = h.stat; cpu = h.cpu },
        record { memory = h.memory; stat = h.stat; cpu = h.cpu },
      ),
    ),
  ),
)
