-- ===== src/Agent/Attribution.antt =====
-- statix/src/attribution/mod.rs: what is read off a cgroup path, the cache, and the labels from
-- the pod watcher. Text is its bytes, and a path the list of its components.
pub mod Names
pub mod Cache
pub mod Pods
pub mod Files
pub mod PodInfo
pub mod Walk
pub mod Sample
mod Examples
