-- ===== src/Agent/Attribution/Cache/Evict.antt =====
-- What `evict_stale_cgroups` of statix/src/attribution/mod.rs removes.
use statix.Prelude.{
  ℕ, ◌≡◌, refl, ap, ◌∙◌, Bool, true, false, not, ◌||◌, Option, none, some, List, [], ◌∷◌, any,
  is_empty, ◌==◌, if◌then◌else◌, if_elim, arith, nat_eq,
}
use statix.Prelude.Map.{Map, get, insert, remove, get-insert, get-remove}
use statix.Agent.Attribution.Names.{CgroupPath}
use statix.Agent.Attribution.Cache.{
  CacheState, stale_ids, remove_all, evict_stale_cgroups, on_identity_event,
  labels_from_cgroup_path,
}

abbrev pub holds : ℕ → List ℕ → Bool
holds id ids = any (λ (j : ℕ). j == id) ids

pub get-remove_all {ℓ} :
    {V : Type ℓ} (ids : List ℕ) (m : Map ℕ V) (id : ℕ)
    → get id (remove_all ids m) ≡ (if holds id ids then none else get id m)
unfolding remove_all
get-remove_all [] m id = refl
get-remove_all (j ∷ ids) m id =
    get-remove_all ids (remove j m) id ∙ by_key (j == id) (holds id ids) (get-remove j id m)
  where
    by_key :
        (t u : Bool)
        → get id (remove j m) ≡ (if t then none else get id m)
        → (if u then none else get id (remove j m)) ≡ (if t || u then none else get id m)
    by_key true true h = refl
    by_key true false h = h
    by_key false true h = refl
    by_key false false h = h

-- Each key occurs once.
abbrev pub KeysOnce : Map ℕ CgroupPath → Type 0
KeysOnce [] = Unit
KeysOnce ((id, path) ∷ m) = (get id m ≡ none) × KeysOnce m

abbrev pub is_stale : (CgroupPath → Bool) → Option CgroupPath → Bool
is_stale exists none = false
is_stale exists (some path) = not (exists path)

holds-stale_ids :
    (exists : CgroupPath → Bool) (m : Map ℕ CgroupPath) (id : ℕ)
    → KeysOnce m
    → holds id (stale_ids exists m) ≡ is_stale exists (get id m)
unfolding stale_ids get
holds-stale_ids exists [] id h = refl
holds-stale_ids exists ((j, path) ∷ m) id h =
    ground (arith, holds-stale_ids exists m id h.1, ap (is_stale exists) h.0)

-- One lookup in all five maps.
pub record SameAt (id : ℕ) (s t : CacheState) : Type 0 where
  pub path : get id t.cgroup_paths ≡ get id s.cgroup_paths
  pub memory : get id t.memory_current_paths ≡ get id s.memory_current_paths
  pub stat : get id t.memory_stat_paths ≡ get id s.memory_stat_paths
  pub cpu : get id t.cpu_stat_paths ≡ get id s.cpu_stat_paths
  pub labels : get id t.cgroup_labels ≡ get id s.cgroup_labels

pub record GoneAt (id : ℕ) (t : CacheState) : Type 0 where
  pub path : get id t.cgroup_paths ≡ none
  pub memory : get id t.memory_current_paths ≡ none
  pub stat : get id t.memory_stat_paths ≡ none
  pub cpu : get id t.cpu_stat_paths ≡ none
  pub labels : get id t.cgroup_labels ≡ none

abbrev pub EvictedAt : Bool → ℕ → CacheState → CacheState → Type 0
EvictedAt true id s t = GoneAt id t
EvictedAt false id s t = SameAt id s t

removed_at :
    (ids : List ℕ) (id : ℕ) (s : CacheState)
    → EvictedAt (holds id ids) id s (record s {
      cgroup_paths = remove_all ids s.cgroup_paths;
      memory_current_paths = remove_all ids s.memory_current_paths;
      memory_stat_paths = remove_all ids s.memory_stat_paths;
      cpu_stat_paths = remove_all ids s.cpu_stat_paths;
      cgroup_labels = remove_all ids s.cgroup_labels;
    })
removed_at ids id s =
    by_member (holds id ids) (get-remove_all ids s.cgroup_paths id)
      (get-remove_all ids s.memory_current_paths id) (get-remove_all ids s.memory_stat_paths id)
      (get-remove_all ids s.cpu_stat_paths id) (get-remove_all ids s.cgroup_labels id)
  where
    t : CacheState
    t = record s {
      cgroup_paths = remove_all ids s.cgroup_paths;
      memory_current_paths = remove_all ids s.memory_current_paths;
      memory_stat_paths = remove_all ids s.memory_stat_paths;
      cpu_stat_paths = remove_all ids s.cpu_stat_paths;
      cgroup_labels = remove_all ids s.cgroup_labels;
    }

    by_member :
        (b : Bool)
        → get id t.cgroup_paths ≡ (if b then none else get id s.cgroup_paths)
        → get id t.memory_current_paths ≡ (if b then none else get id s.memory_current_paths)
        → get id t.memory_stat_paths ≡ (if b then none else get id s.memory_stat_paths)
        → get id t.cpu_stat_paths ≡ (if b then none else get id s.cpu_stat_paths)
        → get id t.cgroup_labels ≡ (if b then none else get id s.cgroup_labels)
        → EvictedAt b id s t
    by_member true p m st c l = record { path = p; memory = m; stat = st; cpu = c; labels = l }
    by_member false p m st c l = record { path = p; memory = m; stat = st; cpu = c; labels = l }

none_held : (ids : List ℕ) (id : ℕ) → is_empty ids ≡ true → holds id ids ≡ false
none_held [] id h = refl
none_held (j ∷ ids) id h = absurd cc

-- An eviction removes a cgroup from all five maps at once exactly when its `memory.current` is
-- known and gone, and leaves every other cgroup as it was in all of them.
pub evict_stale_cgroups-EvictedAt :
    (exists : CgroupPath → Bool) (s : CacheState) (id : ℕ)
    → KeysOnce s.memory_current_paths
    → EvictedAt
        (is_stale exists (get id s.memory_current_paths))
        id
        s
        (evict_stale_cgroups exists s).1
unfolding evict_stale_cgroups
evict_stale_cgroups-EvictedAt exists s id once =
    let ids = stale_ids exists s.memory_current_paths in
    let same = holds-stale_ids exists s.memory_current_paths id once in
    rw (← same) (
      if_elim (λ (r : ℕ × CacheState). EvictedAt (holds id ids) id s r.1) (is_empty ids) _ _
        (λ e.
          rw (none_held ids id e)
            (record { path = refl; memory = refl; stat = refl; cpu = refl; labels = refl }))
        (λ _. removed_at ids id s))

-- The labels that an identity event leaves for a cgroup whose path is not found stay in an eviction,
-- whatever exists: only cgroups with a known `memory.current` are looked at.
pub evict-unresolved :
    (exists : CgroupPath → Bool) (root : CgroupPath) (id : ℕ) (s : CacheState)
    → KeysOnce s.memory_current_paths
    → get id s.cgroup_paths ≡ none
    → get id s.memory_current_paths ≡ none
    → get id (evict_stale_cgroups exists (on_identity_event root id none s)).1.cgroup_labels
      ≡ some (labels_from_cgroup_path none)
unfolding on_identity_event
evict-unresolved exists root id s once no_path no_memory =
    let l = labels_from_cgroup_path none in
    let s' = record s { cgroup_labels = insert id l s.cgroup_labels } in
    let event : on_identity_event root id none s ≡ s' = rw no_path refl in
    let kept : SameAt id s' (evict_stale_cgroups exists s').1 =
      rw no_memory at (evict_stale_cgroups-EvictedAt exists s' id once) in
    rw event (kept.labels ∙ ground (arith, get-insert id id l s.cgroup_labels))
