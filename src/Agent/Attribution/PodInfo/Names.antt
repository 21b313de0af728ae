-- ===== src/Agent/Attribution/PodInfo/Names.antt =====
-- The names of containers, statix/src/attribution/mod.rs: the ID in a pod's status is the ID in
-- the name of the container's cgroup directory.
use statix.Prelude.{
  ℕ, ◌≡◌, ◌≢◌, refl, ap, sym, ◌∙◌, true, false, Option, none, some, List, [], ◌∷◌, ◌++◌, length,
  all, ◌==◌, if◌then◌else◌, All, arith, append-nil, append_assoc, Bool-cases, inl, inr,
}
use statix.Prelude.Map.{Map, get, get-insert}
use statix.Prelude.Text.{
  Text, text_key, strip_prefix, strip_suffix-append, bytes_eq_iff, bytes_eq, bytes_eq_refl,
}
use statix.Agent.Attribution.Names.{
  is_ascii_hexdigit, rsplit_next, scope_suffix, container_id_from_dir_name,
}
use statix.Agent.Attribution.PodInfo.{
  ContainerStatus, scheme_end, after_scheme, id_of, insert_id, insert_statuses,
}

abbrev pub IsHex : ℕ → Type 0
IsHex c = is_ascii_hexdigit c ≡ true

hex_not_dash : (c : ℕ) → IsHex c → (c == b'-') ≡ false
hex_not_dash c h = ground arith

all-hex : (id : Text) → All IsHex id → all is_ascii_hexdigit id ≡ true
all-hex [] h = refl
all-hex (c ∷ cs) h = rw (h.0, all-hex cs h.1)

rsplit-hex : (acc id : Text) → All IsHex id → rsplit_next b'-' acc id ≡ acc ++ id
unfolding rsplit_next
rsplit-hex acc [] h = sym (append-nil acc)
rsplit-hex acc (c ∷ cs) h = rw (
  rsplit_next,
  hex_not_dash c h.0,
  rsplit-hex (acc ++ c ∷ []) cs h.1,
  append_assoc acc (c ∷ []) cs,
)

rsplit-last :
    (acc runtime id : Text) → All IsHex id → rsplit_next b'-' acc (runtime ++ b'-' ∷ id) ≡ id
unfolding rsplit_next
rsplit-last acc [] id h = rsplit-hex [] id h
rsplit-last acc (c ∷ cs) id h = rsplit-last (if c == b'-' then [] else acc ++ c ∷ []) cs id h

-- A scope of a container runtime, whatever the prefix of the runtime.
pub container_id-scope :
    (runtime id : Text)
    → length id ≡ 64
    → All IsHex id
    → container_id_from_dir_name ((runtime ++ b'-' ∷ id) ++ scope_suffix) ≡ some id
unfolding container_id_from_dir_name
container_id-scope runtime id size h = rw (
  strip_suffix-append (runtime ++ b'-' ∷ id) scope_suffix,
  rsplit-last [] runtime id h,
  all-hex id h,
  size,
)

pub after_scheme-id :
    (scheme id : Text)
    → All (λ c. c ≢ b':') scheme
    → after_scheme (scheme ++ (scheme_end ++ id)) ≡ some id
unfolding after_scheme strip_prefix
after_scheme-id [] id h = refl
after_scheme-id (c ∷ cs) id h =
    let e : (b':' == c) ≡ false = ground (arith, h.0) in
    rw (after_scheme, strip_prefix, e) (after_scheme-id cs id h.1)

get-insert_id :
    (id name : Text) (o : Option Text) (m : Map Text Text)
    → o ≢ some id
    → get id (insert_id o name m) ≡ get id m
get-insert_id id name none m h = refl
get-insert_id id name (some j) m h = elim (Bool-cases (bytes_eq j id)) [
  | inl e ↦ absurd (h (ap (λ t. some t) ((bytes_eq_iff j id).0 e)))
  | inr e ↦ get-insert j id name m ∙ rw e
]

insert_statuses-others :
    (after : List ContainerStatus) (id : Text) (m : Map Text Text)
    → All (λ d. id_of d.container_id ≢ some id) after
    → get id (insert_statuses after m) ≡ get id m
unfolding insert_statuses
insert_statuses-others [] id m h = refl
insert_statuses-others (d ∷ ds) id m h =
    insert_statuses-others ds id (insert_id (id_of d.container_id) d.name m) h.1
    ∙ get-insert_id id d.name (id_of d.container_id) m h.0

-- A status that no later one replaces is found under its ID.
pub get-insert_statuses :
    (before after : List ContainerStatus) (c : ContainerStatus) (id : Text) (m : Map Text Text)
    → id_of c.container_id ≡ some id
    → All (λ d. id_of d.container_id ≢ some id) after
    → get id (insert_statuses (before ++ c ∷ after) m) ≡ some c.name
unfolding insert_statuses
get-insert_statuses [] after c id m here h =
    insert_statuses-others after id (insert_id (id_of c.container_id) c.name m) h
    ∙ rw (here, get-insert id id c.name m, bytes_eq_refl id)
get-insert_statuses (b ∷ bs) after c id m here h =
    get-insert_statuses bs after c id (insert_id (id_of b.container_id) b.name m) here h
