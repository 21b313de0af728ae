-- ===== src/Agent/FileExamples.antt =====
-- The readers of a cgroup's files, applied.
use statix.Prelude.{◌≡◌, refl, ◌-◌, none, some, All, [], ◌∷◌, ◌++◌, take, arith}
use statix.Prelude.Text.{Text, codes, parse_digits, strip_prefix}
use statix.Agent.Attribution.Files.{ok, holds, cgroup_path_from_pid, inactive_prefix}
use statix.Agent.Attribution.Files.Values.{file_of}
use statix.Agent.Attribution.Files.Fields.{up_to_field}
use statix.Agent.Attribution.Files.Paths.{v2_line, cgroup_path_from_pid-v2_line}
use statix.Agent.Sampler.{working_set}
use statix.Agent.Sampler.Files.{CgroupDirectory, read_directory, read_directory-working_set}

abbrev slice_path : Text
slice_path = codes "/a.slice"

cgroup_path_from_pid-v2_line_example :
    cgroup_path_from_pid (holds (v2_line slice_path ++ 10 ∷ [])) ≡ ok (take 1021 slice_path)
cgroup_path_from_pid-v2_line_example = cgroup_path_from_pid-v2_line slice_path (ground arith) refl

abbrev directory : CgroupDirectory
directory = record {
  nlink = some 2;
  memory_current_file = holds (codes "90" ++ 10 ∷ []);
  memory_stat_file = holds (file_of (up_to_field (codes "anon 7" ∷ []) (codes "40")) ++ codes "x");
  cpu_stat_file = holds [];
}

used_value : parse_digits 0 (codes "90") ≡ some 90
unfolding parse_digits
used_value = refl

inactive_bytes : parse_digits 0 (codes "40") ≡ some 40
unfolding parse_digits
inactive_bytes = refl

not_the_field : All (λ l. strip_prefix inactive_prefix l ≡ none) (codes "anon 7" ∷ [])
unfolding strip_prefix
not_the_field = (refl, tt)

read_directory-working_set_example : working_set (read_directory directory) ≡ some (90 - 40)
read_directory-working_set_example =
    read_directory-working_set directory (codes "90") (codes "40") (codes "x") (codes "anon 7" ∷ [])
      90 40 refl refl (omega arith, omega arith) (ground arith) used_value (ground arith, tt)
      not_the_field (omega arith) (ground arith) inactive_bytes (ground arith) (omega arith)
