-- ===== src/Wal/Segment/Names.antt =====
-- The names of segment files: `segment_path` and `parse_segment_seq` of statix/src/wal/segment.rs,
-- over the bytes of the file name. The directory is a fixed prefix and is left out.
use native.Mathlib.Nat.{pow-suc}
use statix.Prelude.{
  ℕ, zero, suc, ◌+◌, ◌-◌, ◌*◌, ◌/◌, ◌%◌, ◌^◌, ◌<◌, ◌≡◌, refl, ap, sym, ◌∙◌, true, ◌&&◌, Option,
  none, some, List, [], ◌∷◌, ◌++◌, length, ltb, leb, arith, append_assoc, append-nil, u64_mod, All,
  All-append, length-append,
}
use statix.Prelude.Text.{
  IsDigit, strip_prefix, strip_suffix, parse_digits, parse_u64, parse_u64_of_digits,
  parse_digits-nil, strip_suffix-append,
}

abbrev pub segment_prefix : List ℕ
segment_prefix = b's' ∷ b'e' ∷ b'g' ∷ b'-' ∷ []

abbrev pub segment_suffix : List ℕ
segment_suffix = b'.' ∷ b'w' ∷ b'a' ∷ b'l' ∷ []

-- The last `w` decimal digits of `n`. A u64 has at most twenty, so `{seq:020}` is all of them.
unfoldable pub padded : ℕ → ℕ → List ℕ
padded zero n = []
padded (suc w) n = padded w (n / 10) ++ (48 + n % 10) ∷ []

unfoldable pub segment_path : ℕ → List ℕ
segment_path seq = segment_prefix ++ (padded 20 seq ++ segment_suffix)

-- The `?` after each step.
abbrev pub parse_unsuffixed : Option (List ℕ) → Option ℕ
parse_unsuffixed none = none
parse_unsuffixed (some digits) = parse_u64 digits

abbrev pub parse_unprefixed : Option (List ℕ) → Option ℕ
parse_unprefixed none = none
parse_unprefixed (some name) = parse_unsuffixed (strip_suffix segment_suffix name)

unfoldable pub parse_segment_seq : List ℕ → Option ℕ
unfolding strip_prefix
parse_segment_seq name = parse_unprefixed (strip_prefix segment_prefix name)

padded_digits : (w n : ℕ) → All IsDigit (padded w n)
unfolding padded
padded_digits zero n = tt
padded_digits (suc w) n =
    All-append IsDigit (padded w (n / 10)) _ (padded_digits w (n / 10)) (omega arith)

length-padded : (w n : ℕ) → length (padded w n) ≡ w
unfolding padded
length-padded zero n = refl
length-padded (suc w) n =
    omega (arith, length-padded w (n / 10), length-append (padded w (n / 10)) ((48 + n % 10) ∷ []))

parse_digit :
    (n : ℕ) (tail : List ℕ)
    → n < u64_mod
    → parse_digits (n / 10) ((48 + n % 10) ∷ tail) ≡ parse_digits n tail
unfolding parse_digits
parse_digit n tail h =
    let e : n / 10 * 10 + (48 + n % 10 - 48) ≡ n = omega arith in
    let t : (leb 48 (48 + n % 10) && (leb (48 + n % 10) 57 && ltb n u64_mod)) ≡ true =
      ground arith in
    rw e (rw t)

parse_digits-padded :
    (w n : ℕ) (tail : List ℕ)
    → n < 10 ^ w
    → n < u64_mod
    → parse_digits 0 (padded w n ++ tail) ≡ parse_digits n tail
unfolding padded
parse_digits-padded zero n tail h k = let e : n ≡ 0 = omega arith in rw e
parse_digits-padded (suc w) n tail h k = rw append_assoc (
    parse_digits-padded w (n / 10) ((48 + n % 10) ∷ tail) (omega (arith, pow-suc 10 w))
      (omega arith)
    ∙ parse_digit n tail k)

-- The name that is written for a sequence number of 64 bits is parsed as that number.
parse-segment_path : (seq : ℕ) → seq < u64_mod → parse_segment_seq (segment_path seq) ≡ some seq
unfolding parse_segment_seq segment_path
parse-segment_path seq h = rw (strip_suffix-append (padded 20 seq) segment_suffix) (
    parse_u64_of_digits (padded 20 seq) (omega (arith, length-padded 20 seq)) (padded_digits 20 seq)
    ∙ (ap (parse_digits 0) (sym (append-nil (padded 20 seq)))
        ∙ (parse_digits-padded 20 seq [] (omega arith) h ∙ parse_digits-nil seq)))
