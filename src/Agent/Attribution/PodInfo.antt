-- ===== src/Agent/Attribution/PodInfo.antt =====
-- `pod_info_from` of statix/src/attribution/mod.rs and the quantities it reads. The pod is what the
-- source uses of the Kubernetes API's type, a `BTreeMap` of quantities is an association list, and
-- the floating-point numbers of a quantity are a parameter.
pub mod Names
pub mod Merged
use statix.Prelude.{
  ℕ, Bool, true, false, ◌&&◌, Option, none, some, List, [], ◌∷◌, ◌++◌, is_empty, ◌==◌,
  if◌then◌else◌,
}
use statix.Prelude.Map.{Map, get, insert}
use statix.Prelude.Text.{Text, codes, text_key, strip_prefix, strip_suffix}
use statix.Agent.Attribution.Names.{trim}
use statix.Agent.Attribution.Cache.{Resources, no_resources, PodInfo}

-- `f64` as the quantities use it: `parse`, a decimal literal, `*`, `is_finite() && >= 0.0`, and
-- `round() as u64`.
pub record Quantities : Type 1 where
  pub Float : Type 0
  pub parse_f64 : Text → Option Float
  pub literal : ℕ → Float
  pub times : Float → Float → Float
  pub is_counted : Float → Bool
  pub round_u64 : Float → ℕ

pub record ResourceRequirements : Type 0 where
  pub requests : Option (Map Text Text)
  pub limits : Option (Map Text Text)

pub record ContainerSpec : Type 0 where
  pub name : Text
  pub resources : Option ResourceRequirements

pub record PodSpec : Type 0 where
  pub containers : List ContainerSpec
  pub init_containers : Option (List ContainerSpec)

pub record ContainerStatus : Type 0 where
  pub name : Text
  pub container_id : Option Text

pub record PodStatus : Type 0 where
  pub container_statuses : Option (List ContainerStatus)
  pub init_container_statuses : Option (List ContainerStatus)
  pub ephemeral_container_statuses : Option (List ContainerStatus)

pub record Pod : Type 0 where
  pub uid : Option Text
  pub namespace : Option Text
  pub name : Option Text
  pub status : Option PodStatus
  pub spec : Option PodSpec

abbrev pub unwrap_or : Text → Option Text → Text
unwrap_or d none = d
unwrap_or d (some s) = s

abbrev pub or_empty : {A : Type 0} → Option (List A) → List A
or_empty none = []
or_empty (some xs) = xs

-- `split_once("://")`, as what stands behind it.
abbrev pub scheme_end : Text
scheme_end = b':' ∷ b'/' ∷ b'/' ∷ []

unfoldable pub after_scheme : Text → Option Text
unfolding strip_prefix
after_scheme [] = none
after_scheme (c ∷ cs) = elim (strip_prefix scheme_end (c ∷ cs)) [
  | none ↦ after_scheme cs
  | some id ↦ some id
]

abbrev pub id_of : Option Text → Option Text
id_of none = none
id_of (some s) = after_scheme s

abbrev pub insert_id : Option Text → Text → Map Text Text → Map Text Text
insert_id none name m = m
insert_id (some id) name m = insert id name m

unfoldable pub insert_statuses : List ContainerStatus → Map Text Text → Map Text Text
unfolding after_scheme
insert_statuses [] m = m
insert_statuses (cs ∷ rest) m = insert_statuses rest (insert_id (id_of cs.container_id) cs.name m)

abbrev pub statuses_of : Option PodStatus → List ContainerStatus
statuses_of none = []
statuses_of (some status) =
    or_empty status.container_statuses
    ++ (or_empty status.init_container_statuses ++ or_empty status.ephemeral_container_statuses)

abbrev pub specs_of : Option PodSpec → List ContainerSpec
specs_of none = []
specs_of (some spec) = spec.containers ++ or_empty spec.init_containers

abbrev pub quantity : Option (Map Text Text) → Text → Option Text
quantity none key = none
quantity (some m) key = get key m

abbrev pub or_zero : Option ℕ → ℕ
or_zero none = 0
or_zero (some n) = n

module _ (q : Quantities) where
  abbrev pub rounded : Option q.Float → Option ℕ
  rounded none = none
  rounded (some x) = if q.is_counted x then some (q.round_u64 x) else none

  abbrev pub scaled : q.Float → Option q.Float → Option q.Float
  scaled factor none = none
  scaled factor (some x) = some (q.times x factor)

  abbrev pub millicores_in : Text → Option Text → Option ℕ
  millicores_in s none = rounded (scaled (q.literal 1000) (q.parse_f64 s))
  millicores_in s (some m) = rounded (q.parse_f64 m)

  unfoldable pub cpu_millicores : Text → Option ℕ
  unfolding trim strip_suffix
  cpu_millicores s = millicores_in (trim s) (strip_suffix (b'm' ∷ []) (trim s))

  -- The first suffix that the text ends in, with its factor; a product of literals in the source is
  -- exact, a power of two.
  unfoldable pub find_unit : List (Text × ℕ) → Text → Text × q.Float
  unfolding strip_suffix
  find_unit [] s = (s, q.literal 1)
  find_unit ((suffix, factor) ∷ units) s = elim (strip_suffix suffix s) [
    | none ↦ find_unit units s
    | some number ↦ (number, q.literal factor)
  ]

  abbrev pub units : List (Text × ℕ)
  units =
      (codes "Ki", 1024)
      ∷ (codes "Mi", 1048576)
      ∷ (codes "Gi", 1073741824)
      ∷ (codes "Ti", 1099511627776)
      ∷ (codes "Pi", 1125899906842624)
      ∷ (codes "Ei", 1152921504606846976)
      ∷ (codes "k", 1000)
      ∷ (codes "M", 1000000)
      ∷ (codes "G", 1000000000)
      ∷ (codes "T", 1000000000000)
      ∷ (codes "P", 1000000000000000)
      ∷ (codes "E", 1000000000000000000)
      ∷ []

  unfoldable pub memory_bytes : Text → Option ℕ
  unfolding trim find_unit
  memory_bytes s =
      let (number, factor) = find_unit units (trim s) in
      rounded (scaled factor (q.parse_f64 number))

  abbrev pub and_then : Option Text → (Text → Option ℕ) → Option ℕ
  and_then none f = none
  and_then (some s) f = f s

  unfoldable pub resources_from : Option ResourceRequirements → Resources
  unfolding cpu_millicores memory_bytes get
  resources_from none = no_resources
  resources_from (some r) = record {
    cpu_request_millicores = or_zero (and_then (quantity r.requests (codes "cpu")) cpu_millicores);
    memory_request_bytes = or_zero (and_then (quantity r.requests (codes "memory")) memory_bytes);
    cpu_limit_millicores = or_zero (and_then (quantity r.limits (codes "cpu")) cpu_millicores);
    memory_limit_bytes = or_zero (and_then (quantity r.limits (codes "memory")) memory_bytes);
  }

  unfoldable pub insert_specs : List ContainerSpec → Map Text Resources → Map Text Resources
  unfolding resources_from insert
  insert_specs [] m = m
  insert_specs (c ∷ rest) m = insert_specs rest (insert c.name (resources_from c.resources) m)

  abbrev pub info_of : Pod → Text → Text × PodInfo
  info_of pod uid = (
    uid,
    record {
      namespace = unwrap_or (codes "default") pod.namespace;
      name = unwrap_or [] pod.name;
      containers = insert_statuses (statuses_of pod.status) [];
      resources = insert_specs (specs_of pod.spec) [];
    },
  )

  abbrev pub if_uid : Pod → Option Text → Option (Text × PodInfo)
  if_uid pod none = none
  if_uid pod (some uid) = if is_empty uid then none else some (info_of pod uid)

  unfoldable pub pod_info_from : Pod → Option (Text × PodInfo)
  unfolding insert_statuses insert_specs
  pod_info_from pod = if_uid pod pod.uid
