-- ===== src/Agent/Attribution/Files/Fields.antt =====
-- The values that statix/src/attribution/mod.rs reads from the files of a cgroup.
use statix.Prelude.{
  ℕ, ◌-◌, ◌≤◌, ◌<◌, ◌≡◌, refl, ap, ◌∙◌, none, some, List, [], ◌∷◌, ◌++◌, length, take, All,
  All-append, arith, append_assoc, length-append, take-append_ge, take_all,
}
use statix.Prelude.Text.{Text, IsDigit, strip_prefix, parse_digits, parse_u64_of_digits}
use statix.Agent.Attribution.Files.{
  ok, holds, from_utf8, lines, memory_in_bytes, memory_in, read_memory_current_at, find_stripped,
  inactive_prefix, inactive_value, inactive_in, read_inactive_file_at,
}
use statix.Agent.Attribution.Files.Values.{
  IsAscii, from_utf8_ascii, All-take, digits-IsAscii, IsPlain, plain-IsAscii, digits-IsPlain,
  file_of, lines-file_of, find_stripped-skips, trim-digits, trim-digits_newline,
}

-- `memory.current`: one line of digits.
pub read_memory_current_at-digits :
    (ds : Text) (n : ℕ)
    → 0 < length ds
    → length ds < 32
    → All IsDigit ds
    → parse_digits 0 ds ≡ some n
    → read_memory_current_at (holds (ds ++ 10 ∷ [])) ≡ ok n
unfolding read_memory_current_at
read_memory_current_at-digits [] n some_digit short all_digits value = absurd (omega arith)
read_memory_current_at-digits (d ∷ ds) n some_digit short all_digits value =
    let whole : take 32 ((d ∷ ds) ++ 10 ∷ []) ≡ (d ∷ ds) ++ 10 ∷ [] =
      take_all 32 ((d ∷ ds) ++ 10 ∷ []) (omega (arith, length-append (d ∷ ds) (10 ∷ []))) in
    let ascii : All IsAscii ((d ∷ ds) ++ 10 ∷ []) =
      All-append IsAscii (d ∷ ds) (10 ∷ []) (digits-IsAscii (d ∷ ds) all_digits)
        (omega arith, tt) in
    ap memory_in_bytes whole
    ∙ (ap memory_in (from_utf8_ascii ((d ∷ ds) ++ 10 ∷ []) ascii)
        ∙ rw (
          trim-digits_newline (d ∷ ds) some_digit all_digits,
          parse_u64_of_digits (d ∷ ds) some_digit all_digits,
          value,
        ))

prefix-IsPlain : All IsPlain inactive_prefix
prefix-IsPlain = ground arith

inactive_line-IsPlain : (ds : Text) → All IsDigit ds → All IsPlain (inactive_prefix ++ ds)
inactive_line-IsPlain ds h =
    All-append IsPlain inactive_prefix ds prefix-IsPlain (digits-IsPlain ds h)

pub file_of-IsAscii : (ls : List Text) → All (All IsPlain) ls → All IsAscii (file_of ls)
file_of-IsAscii [] h = tt
file_of-IsAscii (l ∷ ls) h =
    All-append IsAscii l (10 ∷ file_of ls) (plain-IsAscii l h.0)
      (omega arith, file_of-IsAscii ls h.1)

-- The lines of `memory.stat` up to the field.
abbrev pub up_to_field : List Text → Text → List Text
up_to_field before ds = before ++ (inactive_prefix ++ ds) ∷ []

up_to_field-IsPlain :
    (before : List Text) (ds : Text)
    → All (All IsPlain) before
    → All IsDigit ds
    → All (All IsPlain) (up_to_field before ds)
up_to_field-IsPlain before ds h k =
    All-append (All IsPlain) before ((inactive_prefix ++ ds) ∷ []) h
      (inactive_line-IsPlain ds k, tt)

strip_inactive : (ds : Text) → strip_prefix inactive_prefix (inactive_prefix ++ ds) ≡ some ds
unfolding strip_prefix
strip_inactive ds = refl

-- `memory.stat`: the field on any line within the buffer.
pub read_inactive_file_at-field :
    (before : List Text) (ds rest : Text) (n : ℕ)
    → All (All IsPlain) before
    → All (λ l. strip_prefix inactive_prefix l ≡ none) before
    → 0 < length ds
    → All IsDigit ds
    → parse_digits 0 ds ≡ some n
    → All IsAscii rest
    → length (file_of (up_to_field before ds)) ≤ 4096
    → read_inactive_file_at (holds (file_of (up_to_field before ds) ++ rest)) ≡ some n
unfolding read_inactive_file_at
read_inactive_file_at-field before ds rest n plain other some_digit all_digits value ascii fits =
    let ls : List Text = up_to_field before ds in
    let plain_lines : All (All IsPlain) ls = up_to_field-IsPlain before ds plain all_digits in
    let shown : Text = take (4096 - length (file_of ls)) rest in
    let cut : take 4096 (file_of ls ++ rest) ≡ file_of ls ++ shown =
      take-append_ge (file_of ls) rest 4096 fits in
    let ascii_shown : All IsAscii (file_of ls ++ shown) =
      All-append IsAscii (file_of ls) shown (file_of-IsAscii ls plain_lines)
        (All-take IsAscii (4096 - length (file_of ls)) rest ascii) in
    let split : lines (file_of ls ++ shown) ≡ before ++ (inactive_prefix ++ ds) ∷ lines shown =
      lines-file_of ls shown plain_lines
      ∙ append_assoc before ((inactive_prefix ++ ds) ∷ []) (lines shown) in
    let found : find_stripped inactive_prefix (lines (file_of ls ++ shown)) ≡ some ds =
      ap (find_stripped inactive_prefix) split
      ∙ find_stripped-skips inactive_prefix (inactive_prefix ++ ds) ds before (lines shown) other
          (strip_inactive ds) in
    ap (λ bs. inactive_in (from_utf8 bs)) cut
    ∙ (ap inactive_in (from_utf8_ascii (file_of ls ++ shown) ascii_shown)
        ∙ (ap inactive_value found
            ∙ rw (trim-digits ds all_digits, parse_u64_of_digits ds some_digit all_digits) value))
