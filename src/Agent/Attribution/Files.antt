-- ===== src/Agent/Attribution/Files.antt =====
-- The readers of statix/src/attribution/mod.rs: `/proc/{pid}/cgroup`, `memory.current`, `cpu.stat`
-- and `memory.stat`. Each makes one `read` into a fixed buffer, which gives the first bytes of the
-- file; a path in an error is left out. Text is its bytes.
pub mod Values
pub mod Fields
pub mod Paths
use statix.Prelude.{
  ℕ, zero, suc, ◌+◌, ◌-◌, Bool, true, false, ◌&&◌, ◌||◌, Option, none, some, List, [], ◌∷◌, ◌++◌,
  take, is_empty, ltb, leb, ◌==◌, if◌then◌else◌,
}
use statix.Prelude.Text.{Text, codes, strip_prefix, strip_suffix, parse_u64}
use statix.Agent.Attribution.Names.{trim, parse_cgroup_v2_path_line}

pub data AttributionError : Type 0 where
  open_file empty_cgroup_file invalid_cgroup_utf8 no_cgroup_path : AttributionError
  empty_memory_current invalid_memory_utf8 : AttributionError
  parse_memory_bytes : Text → AttributionError
  empty_cpu_stat invalid_cpu_utf8 no_cpu_usage_field : AttributionError
  parse_cpu_usage : Text → AttributionError
  k8s_list : AttributionError

pub data Result (A : Type 0) : Type 0 where
  ok : A → Result A
  err : AttributionError → Result A

-- A file that cannot be opened, one that cannot be read, or its content.
pub data FileContent : Type 0 where
  cannot_open cannot_read : FileContent
  holds : List ℕ → FileContent

-- `str::from_utf8`: how many continuation bytes follow a lead byte, and the range of the first.
abbrev pub lead : ℕ → Option (ℕ × ℕ × ℕ)
lead b =
    if ltb b 0x80
    then some (0, 0x80, 0xBF)
    else if leb 0xC2 b && leb b 0xDF
    then some (1, 0x80, 0xBF)
    else if b == 0xE0
    then some (2, 0xA0, 0xBF)
    else if b == 0xED
    then some (2, 0x80, 0x9F)
    else if leb 0xE1 b && leb b 0xEF
    then some (2, 0x80, 0xBF)
    else if b == 0xF0
    then some (3, 0x90, 0xBF)
    else if leb 0xF1 b && leb b 0xF3
    then some (3, 0x80, 0xBF)
    else if b == 0xF4
    then some (3, 0x80, 0x8F)
    else none

unfoldable pub utf8_from : ℕ → ℕ → ℕ → List ℕ → Bool
utf8_from zero lo hi [] = true
utf8_from (suc n) lo hi [] = false
utf8_from zero lo hi (b ∷ bs) = elim (lead b) [
  | none ↦ false
  | some (n, lo', hi') ↦ utf8_from n lo' hi' bs
]
utf8_from (suc n) lo hi (b ∷ bs) =
    let rest = utf8_from n 0x80 0xBF bs in (leb lo b && leb b hi) && rest

unfoldable pub from_utf8 : List ℕ → Option Text
unfolding utf8_from
from_utf8 bs = if utf8_from 0 0x80 0xBF bs then some bs else none

abbrev pub or_self : Option Text → Text → Text
or_self none s = s
or_self (some t) s = t

-- `str::lines`
unfoldable pub lines_from : Text → Text → List Text
unfolding strip_suffix
lines_from acc [] = if is_empty acc then [] else acc ∷ []
lines_from acc (c ∷ cs) = elim (c == b'\n') [
  | true ↦ or_self (strip_suffix (b'\r' ∷ []) acc) acc ∷ lines_from [] cs
  | false ↦ lines_from (acc ++ c ∷ []) cs
]

unfoldable pub lines : Text → List Text
unfolding lines_from
lines s = lines_from [] s

abbrev pub first_path : List Text → Result Text
first_path [] = err no_cgroup_path
first_path (l ∷ ls) = elim (parse_cgroup_v2_path_line l) [ none ↦ first_path ls | some p ↦ ok p ]

abbrev pub path_in : Option Text → Result Text
path_in none = err invalid_cgroup_utf8
path_in (some contents) = first_path (lines contents)

abbrev pub path_in_bytes : List ℕ → Result Text
path_in_bytes [] = err empty_cgroup_file
path_in_bytes (b ∷ bs) = path_in (from_utf8 (b ∷ bs))

unfoldable pub cgroup_path_from_pid : FileContent → Result Text
unfolding lines from_utf8 parse_cgroup_v2_path_line
cgroup_path_from_pid cannot_open = err open_file
cgroup_path_from_pid cannot_read = err open_file
cgroup_path_from_pid (holds content) = path_in_bytes (take 1024 content)

abbrev pub parsed : (Text → AttributionError) → Text → Option ℕ → Result ℕ
parsed e value none = err (e value)
parsed e value (some n) = ok n

abbrev pub memory_in : Option Text → Result ℕ
memory_in none = err invalid_memory_utf8
memory_in (some s) = parsed parse_memory_bytes (trim s) (parse_u64 (trim s))

abbrev pub memory_in_bytes : List ℕ → Result ℕ
memory_in_bytes [] = err empty_memory_current
memory_in_bytes (b ∷ bs) = memory_in (from_utf8 (b ∷ bs))

unfoldable pub read_memory_current_at : FileContent → Result ℕ
unfolding from_utf8 trim parse_u64
read_memory_current_at cannot_open = err open_file
read_memory_current_at cannot_read = err open_file
read_memory_current_at (holds content) = memory_in_bytes (take 32 content)

abbrev pub usage_prefix : Text
usage_prefix = codes "usage_usec "

abbrev pub usage_value : Option Text → Result ℕ
usage_value none = err no_cpu_usage_field
usage_value (some v) = parsed parse_cpu_usage (trim v) (parse_u64 (trim v))

abbrev pub usage_in_lines : List Text → Result ℕ
usage_in_lines [] = err no_cpu_usage_field
usage_in_lines (l ∷ ls) = usage_value (strip_prefix usage_prefix l)

abbrev pub usage_in : Option Text → Result ℕ
usage_in none = err invalid_cpu_utf8
usage_in (some contents) = usage_in_lines (lines contents)

abbrev pub usage_in_bytes : List ℕ → Result ℕ
usage_in_bytes [] = err empty_cpu_stat
usage_in_bytes (b ∷ bs) = usage_in (from_utf8 (b ∷ bs))

unfoldable pub read_cpu_usage_usec_at : FileContent → Result ℕ
unfolding lines from_utf8 strip_prefix trim parse_u64
read_cpu_usage_usec_at cannot_open = err open_file
read_cpu_usage_usec_at cannot_read = err open_file
read_cpu_usage_usec_at (holds content) = usage_in_bytes (take 256 content)

abbrev pub inactive_prefix : Text
inactive_prefix = codes "inactive_file "

-- `find_map(strip_prefix)`
unfoldable pub find_stripped : Text → List Text → Option Text
unfolding strip_prefix
find_stripped p [] = none
find_stripped p (l ∷ ls) = elim (strip_prefix p l) [ none ↦ find_stripped p ls | some v ↦ some v ]

abbrev pub inactive_value : Option Text → Option ℕ
inactive_value none = none
inactive_value (some v) = parse_u64 (trim v)

abbrev pub inactive_in : Option Text → Option ℕ
inactive_in none = none
inactive_in (some contents) = inactive_value (find_stripped inactive_prefix (lines contents))

unfoldable pub read_inactive_file_at : FileContent → Option ℕ
unfolding lines from_utf8 find_stripped trim parse_u64
read_inactive_file_at cannot_open = none
read_inactive_file_at cannot_read = none
read_inactive_file_at (holds content) = inactive_in (from_utf8 (take 4096 content))
