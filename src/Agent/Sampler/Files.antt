-- ===== src/Agent/Sampler/Files.antt =====
-- What the blocking task of statix/src/memory_sampler.rs finds in the directory of a cgroup, and
-- the working set it computes from the text of the files.
use statix.Prelude.{
  ℕ, ◌-◌, ◌≤◌, ◌<◌, ◌≡◌, ap, ◌∙◌, Bool, false, Option, none, some, List, [], ◌∷◌, ◌++◌, length, All,
  ◌==◌,
}
use statix.Prelude.Text.{Text, IsDigit, parse_digits, strip_prefix}
use statix.Agent.Attribution.Files.{
  Result, ok, err, FileContent, holds, read_memory_current_at, read_cpu_usage_usec_at,
  read_inactive_file_at, inactive_prefix,
}
use statix.Agent.Attribution.Files.Values.{IsAscii, IsPlain, file_of}
use statix.Agent.Attribution.Files.Fields.{
  up_to_field, read_memory_current_at-digits, read_inactive_file_at-field,
}
use statix.Agent.Sampler.{CgroupFiles, working_set}

-- The directory of a target: its link count, or `none` when its metadata cannot be read, and
-- its files.
pub record CgroupDirectory : Type 0 where
  pub nlink : Option ℕ
  pub memory_current_file : FileContent
  pub memory_stat_file : FileContent
  pub cpu_stat_file : FileContent

abbrev pub is_leaf_cgroup : Option ℕ → Bool
is_leaf_cgroup none = false
is_leaf_cgroup (some n) = n == 2

abbrev pub to_option : Result ℕ → Option ℕ
to_option (ok n) = some n
to_option (err e) = none

unfoldable pub read_directory : CgroupDirectory → CgroupFiles
unfolding read_memory_current_at read_inactive_file_at read_cpu_usage_usec_at
read_directory d = record {
  is_leaf = is_leaf_cgroup d.nlink;
  memory_current = to_option (read_memory_current_at d.memory_current_file);
  inactive_file = read_inactive_file_at d.memory_stat_file;
  usage_usec = to_option (read_cpu_usage_usec_at d.cpu_stat_file);
}

-- The working set of a directory as the kernel writes it: `memory.current` is one number of less
-- than 32 digits and a line end, and `memory.stat` is ASCII text whose first `inactive_file` line,
-- on whatever line, ends within the first 4,096 bytes. Then it is the difference of the two
-- numbers, and zero when the second is the larger.
pub read_directory-working_set :
    (d : CgroupDirectory) (current ds rest : Text) (before : List Text) (used inactive : ℕ)
    → d.memory_current_file ≡ holds (current ++ 10 ∷ [])
    → d.memory_stat_file ≡ holds (file_of (up_to_field before ds) ++ rest)
    → (0 < length current) × (length current < 32)
    → All IsDigit current
    → parse_digits 0 current ≡ some used
    → All (All IsPlain) before
    → All (λ l. strip_prefix inactive_prefix l ≡ none) before
    → 0 < length ds
    → All IsDigit ds
    → parse_digits 0 ds ≡ some inactive
    → All IsAscii rest
    → length (file_of (up_to_field before ds)) ≤ 4096
    → working_set (read_directory d) ≡ some (used - inactive)
unfolding read_directory
read_directory-working_set d current ds rest before used inactive is_current is_stat size digits
      value plain other some_digit all_digits inactive_value ascii fits =
    let mem : read_memory_current_at d.memory_current_file ≡ ok used =
      ap read_memory_current_at is_current
      ∙ read_memory_current_at-digits current used size.0 size.1 digits value in
    let stat : read_inactive_file_at d.memory_stat_file ≡ some inactive =
      ap read_inactive_file_at is_stat
      ∙ read_inactive_file_at-field before ds rest inactive plain other some_digit all_digits
          inactive_value ascii fits in
    rw (mem, stat)
