-- ===== src/Agent/Attribution/Files/Paths.antt =====
-- `cgroup_path_from_pid` of statix/src/attribution/mod.rs on the one line of a cgroup v2 host.
use statix.Prelude.{
  ℕ, zero, suc, ◌≤◌, ◌<◌, ◌≡◌, refl, ap, ◌∙◌, true, false, some, List, [], ◌∷◌, ◌++◌, length, take,
  leb, ◌==◌, All, All-append, arith, append_assoc, append-nil, length-append, take_all, Bool-cases,
  leb→le, inl, inr,
}
use statix.Prelude.Text.{Text}
use statix.Agent.Attribution.Names.{
  trim, trim_start, trim_end, is_ascii_whitespace, is_absolute, after_double_colon,
  parse_cgroup_v2_path_line,
}
use statix.Agent.Attribution.Files.{
  ok, holds, from_utf8, lines_from, lines, path_in, first_path, cgroup_path_from_pid,
}
use statix.Agent.Attribution.Files.Values.{
  IsAscii, IsPlain, from_utf8_ascii, All-take, lines_from-line, plain-IsAscii,
}

-- A byte of a path as the kernel prints it: no blank.
abbrev pub IsPathByte : ℕ → Type 0
IsPathByte c = (32 < c) × (c < 128)

path-IsPlain : (s : Text) → All IsPathByte s → All IsPlain s
path-IsPlain [] h = tt
path-IsPlain (c ∷ s) h =
    (((h.0).1, (λ e. omega (arith, (h.0).0), λ e. omega (arith, (h.0).0))), path-IsPlain s h.1)

trim_start-path : (s : Text) → All IsPathByte s → trim_start s ≡ s
unfolding trim_start
trim_start-path [] h = refl
trim_start-path (c ∷ s) h = let e : is_ascii_whitespace c ≡ false = ground (arith, (h.0).0) in rw e

trim_end-path : (s : Text) → All IsPathByte s → trim_end s ≡ s
unfolding trim_end
trim_end-path [] h = refl
trim_end-path (c ∷ []) h = let e : is_ascii_whitespace c ≡ false = ground (arith, (h.0).0) in rw e
trim_end-path (c ∷ d ∷ s) h = rw (trim_end-path (d ∷ s) h.1)

trim-path : (s : Text) → All IsPathByte s → trim s ≡ s
unfolding trim
trim-path s h = rw (trim_start-path s h, trim_end-path s h)

-- The last line, when nothing ends it.
lines_from-last :
    (acc l : Text)
    → All IsPlain acc
    → All IsPlain l
    → 0 < length (acc ++ l)
    → lines_from acc l ≡ (acc ++ l) ∷ []
unfolding lines_from
lines_from-last [] [] h k p = absurd (omega arith)
lines_from-last (a ∷ acc) [] h k p = rw (append-nil acc)
lines_from-last acc (c ∷ l) h k p =
    let e : (c == 10) ≡ false = ground (arith, ((k.0).1).0) in
    let long : 0 < length ((acc ++ c ∷ []) ++ l) =
      omega (arith, length-append (acc ++ c ∷ []) l, length-append acc (c ∷ [])) in
    let more =
      lines_from-last (acc ++ c ∷ []) l (All-append IsPlain acc (c ∷ []) h (k.0, tt)) k.1 long in
    rw (lines_from, e, more, append_assoc acc (c ∷ []) l)

-- The line of a cgroup v2 host.
abbrev pub v2_line : Text → Text
v2_line path = b'0' ∷ b':' ∷ b':' ∷ path

v2_line_path : (path : Text) → All IsPathByte path → All IsPathByte (v2_line path)
v2_line_path path h =
    ((omega arith, omega arith), ((omega arith, omega arith), ((omega arith, omega arith), h)))

parse-v2_line :
    (path : Text)
    → All IsPathByte path
    → is_absolute path ≡ true
    → parse_cgroup_v2_path_line (v2_line path) ≡ some path
unfolding parse_cgroup_v2_path_line after_double_colon
parse-v2_line path h absolute = rw (trim-path (v2_line path) (v2_line_path path h), absolute)

take_absolute :
    (n : ℕ) (path : Text) → is_absolute path ≡ true → is_absolute (take (suc n) path) ≡ true
take_absolute n [] h = h
take_absolute n (b ∷ bs) h = h

take-append_le :
    {A : Type 0} → (n : ℕ) (xs ys : List A) → n ≤ length xs → take n (xs ++ ys) ≡ take n xs
take-append_le zero xs ys h = refl
take-append_le (suc n) [] ys h = absurd (omega arith)
take-append_le (suc n) (x ∷ xs) ys h = ap (λ t. x ∷ t) (take-append_le n xs ys (omega arith))

path_in-v2_line :
    (path shown : Text) (rest : List Text)
    → All IsPathByte path
    → is_absolute path ≡ true
    → All IsAscii shown
    → lines shown ≡ v2_line path ∷ rest
    → path_in (from_utf8 shown) ≡ ok path
path_in-v2_line path shown rest h absolute ascii split =
    ap path_in (from_utf8_ascii shown ascii)
    ∙ (ap first_path split ∙ rw (first_path, parse-v2_line path h absolute))

-- A line that the buffer holds whole, and one that it cuts.
path_short :
    (path : Text)
    → All IsPathByte path
    → is_absolute path ≡ true
    → path_in (from_utf8 (v2_line path ++ 10 ∷ [])) ≡ ok path
unfolding lines
path_short path h absolute =
    let plain = path-IsPlain (v2_line path) (v2_line_path path h) in
    path_in-v2_line path (v2_line path ++ 10 ∷ []) (lines []) h absolute
      (All-append IsAscii (v2_line path) (10 ∷ []) (plain-IsAscii (v2_line path) plain)
        (omega arith, tt))
      (lines_from-line [] (v2_line path) [] tt plain)

path_long :
    (path : Text)
    → All IsPathByte path
    → is_absolute path ≡ true
    → path_in (from_utf8 (v2_line path)) ≡ ok path
unfolding lines
path_long path h absolute =
    let plain = path-IsPlain (v2_line path) (v2_line_path path h) in
    path_in-v2_line path (v2_line path) [] h absolute (plain-IsAscii (v2_line path) plain)
      (lines_from-last [] (v2_line path) tt plain (omega arith))

-- On a cgroup v2 host the file is `0::`, an absolute path and a line end. For a path in ASCII
-- without blanks, what is returned is its first 1,021 bytes, since the buffer holds them and
-- `0::`: the path itself when it is no longer, and a cut path, not an error, when it is.
pub cgroup_path_from_pid-v2_line :
    (path : Text)
    → All IsPathByte path
    → is_absolute path ≡ true
    → cgroup_path_from_pid (holds (v2_line path ++ 10 ∷ [])) ≡ ok (take 1021 path)
unfolding cgroup_path_from_pid
cgroup_path_from_pid-v2_line path h absolute = elim (Bool-cases (leb (length path) 1020)) [
  | inl e ↦
      let fits : length path ≤ 1020 = leb→le (length path) 1020 e in
      let whole : take 1021 (path ++ 10 ∷ []) ≡ path ++ 10 ∷ [] =
        take_all 1021 (path ++ 10 ∷ []) (omega (arith, length-append path (10 ∷ []))) in
      rw (whole, take_all 1021 path (omega arith)) (path_short path h absolute)
  | inr e ↦
      let long : 1020 < length path = ground arith in
      rw (take-append_le 1021 path (10 ∷ []) (omega arith)) (
        path_long (take 1021 path) (All-take IsPathByte 1021 path h)
          (take_absolute 1020 path absolute))
]
