-- ===== src/Agent/Attribution/Names.antt =====
-- The parsers of statix/src/attribution/mod.rs: container IDs, pod UIDs and the lines of
-- `/proc/{pid}/cgroup`, over the bytes of the text.
use statix.Prelude.{
  ℕ, suc, Bool, true, false, ◌&&◌, ◌||◌, Option, none, some, List, [], ◌∷◌, ◌++◌, map, length, take,
  all, leb, ◌==◌, if◌then◌else◌,
}
use statix.Prelude.Text.{Text, strip_prefix, strip_suffix}

abbrev pub CgroupPath : Type 0
CgroupPath = List Text

abbrev pub is_ascii_hexdigit : ℕ → Bool
is_ascii_hexdigit b =
    (leb b'0' b && leb b b'9') || ((leb b'a' b && leb b b'f') || (leb b'A' b && leb b b'F'))

abbrev pub is_ascii_whitespace : ℕ → Bool
is_ascii_whitespace b = b == 32 || (leb 9 b && leb b 13)

-- `str::trim`, for the ASCII text that the kernel writes.
unfoldable pub trim_start : Text → Text
trim_start [] = []
trim_start (b ∷ bs) = let rest = trim_start bs in if is_ascii_whitespace b then rest else b ∷ bs

abbrev pub keep_unless_blank : ℕ → Text → Text
keep_unless_blank b [] = if is_ascii_whitespace b then [] else b ∷ []
keep_unless_blank b (c ∷ cs) = b ∷ c ∷ cs

unfoldable pub trim_end : Text → Text
trim_end [] = []
trim_end (b ∷ bs) = keep_unless_blank b (trim_end bs)

unfoldable pub trim : Text → Text
unfolding trim_start trim_end
trim s = trim_end (trim_start s)

-- `rsplit(sep).next()`: what stands behind the last separator.
unfoldable pub rsplit_next : ℕ → Text → Text → Text
rsplit_next sep acc [] = acc
rsplit_next sep acc (b ∷ bs) = rsplit_next sep (if b == sep then [] else acc ++ b ∷ []) bs

abbrev pub scope_suffix : Text
scope_suffix = b'.' ∷ b's' ∷ b'c' ∷ b'o' ∷ b'p' ∷ b'e' ∷ []

abbrev pub or_whole : Option Text → Text → Text
or_whole none name = name
or_whole (some s) name = s

unfoldable pub container_id_from_dir_name : Text → Option Text
unfolding rsplit_next strip_suffix
container_id_from_dir_name name =
    let id = rsplit_next b'-' [] (or_whole (strip_suffix scope_suffix name) name) in
    if length id == 64 && all is_ascii_hexdigit id then some id else none

-- Position by position: a dash or underscore at 8, 13, 18 and 23, hex elsewhere.
abbrev pub uuid_byte : ℕ → ℕ → Bool
uuid_byte i b =
    if i == 8 || (i == 13 || (i == 18 || i == 23))
    then b == b'_' || b == b'-'
    else is_ascii_hexdigit b

unfoldable pub uuid_bytes : ℕ → Text → Bool
uuid_bytes i [] = true
uuid_bytes i (b ∷ bs) = uuid_byte i b && uuid_bytes (suc i) bs

unfoldable pub is_uuid : Text → Bool
unfolding uuid_bytes
is_uuid s = length s == 36 && uuid_bytes 0 s

-- `rfind("pod")`, as what stands behind the last occurrence.
abbrev pub pod_here : Text → Option Text
pod_here s = strip_prefix (b'p' ∷ b'o' ∷ b'd' ∷ []) s

unfoldable pub after_last_pod : Text → Option Text
unfolding strip_prefix
after_last_pod [] = none
after_last_pod (b ∷ bs) = elim (after_last_pod bs) [ none ↦ pod_here (b ∷ bs) | some t ↦ some t ]

abbrev pub dash_for_underscore : ℕ → ℕ
dash_for_underscore b = if b == b'_' then b'-' else b

abbrev pub uid_of : Option Text → Option Text
uid_of none = none
uid_of (some t) =
    if leb 36 (length t) && is_uuid (take 36 t)
    then some (map dash_for_underscore (take 36 t))
    else none

unfoldable pub pod_uid_from_path : CgroupPath → Option Text
unfolding after_last_pod is_uuid
pod_uid_from_path [] = none
pod_uid_from_path (part ∷ parts) = elim (uid_of (after_last_pod part)) [
  | none ↦ pod_uid_from_path parts
  | some u ↦ some u
]

-- `file_name()`
unfoldable pub file_name : CgroupPath → Option Text
file_name [] = none
file_name (p ∷ []) = some p
file_name (p ∷ q ∷ qs) = file_name (q ∷ qs)

-- `split_once("::")`
unfoldable pub after_double_colon : Text → Option Text
after_double_colon [] = none
after_double_colon (b ∷ []) = none
after_double_colon (b ∷ c ∷ cs) =
    let rest = after_double_colon (c ∷ cs) in if b == b':' && c == b':' then some cs else rest

abbrev pub is_absolute : Text → Bool
is_absolute [] = false
is_absolute (b ∷ bs) = b == b'/'

abbrev pub if_absolute : Text → Option Text
if_absolute path = if is_absolute path then some path else none

abbrev pub v2_or_v1 : Option Text → Text → Option Text
v2_or_v1 none line = if_absolute (rsplit_next b':' [] line)
v2_or_v1 (some path) line =
    if is_absolute path then some path else if_absolute (rsplit_next b':' [] line)

abbrev pub parse_nonempty_line : Text → Option Text
parse_nonempty_line [] = none
parse_nonempty_line (b ∷ bs) = v2_or_v1 (after_double_colon (b ∷ bs)) (b ∷ bs)

unfoldable pub parse_cgroup_v2_path_line : Text → Option Text
unfolding trim after_double_colon rsplit_next
parse_cgroup_v2_path_line line = parse_nonempty_line (trim line)
