-- ===== src/Prelude/Text.antt =====
-- Text as bytes, with the `str` functions that the source calls: `strip_prefix`, `strip_suffix`,
-- `parse::<u64>` and comparison.
use Prim.Native.Char.{code}
use Prim.Native.String.{String}
use Prim.Native.Nat.{ℕ, ◌+◌, ◌-◌, ◌*◌, ◌≤◌, ◌<◌}
use mathlib.Core.Path.{◌≡◌, refl}
use mathlib.Core.Logic.{◌↔◌}
use mathlib.Core.Bool.{Bool, true, false, ◌&&◌}
use mathlib.Core.Option.{Option, none, some}
use mathlib.Core.List.{List, [], ◌∷◌, ◌++◌}
use native.Mathlib.Omega.{arith}
use statix.Prelude.Tests.{Eq, ltb, leb, ◌==◌, if◌then◌else◌}
use statix.Prelude.Lists.{length, take, drop, All, length-append, drop-append, take-append}
use statix.Prelude.Words.{u64_mod}

abbrev pub Text : Type 0
Text = List ℕ

-- The code points of a text literal.
abbrev pub codes : String → Text
codes String.[] = []
codes (String.◌∷◌ c s) = code c ∷ codes s

unfoldable pub bytes_eq : Text → Text → Bool
bytes_eq [] [] = true
bytes_eq (a ∷ as') (b ∷ bs) = (a == b) && bytes_eq as' bs
bytes_eq _ _ = false

bytes_eq_sound : (s t : Text) → bytes_eq s t ≡ true → s ≡ t
unfolding bytes_eq
bytes_eq_sound [] [] h = refl
bytes_eq_sound (a ∷ s) (b ∷ t) h = ground (arith, bytes_eq_sound s t)
bytes_eq_sound [] (b ∷ t) h = cc
bytes_eq_sound (a ∷ s) [] h = cc

pub bytes_eq_refl : (s : List ℕ) → bytes_eq s s ≡ true
unfolding bytes_eq
bytes_eq_refl [] = refl
bytes_eq_refl (c ∷ s) = let e : (c == c) ≡ true = ground arith in rw (e, bytes_eq_refl s)

bytes_eq_of_eq : (s t : Text) → s ≡ t → bytes_eq s t ≡ true
bytes_eq_of_eq s t e = rw e (bytes_eq_refl t)

pub bytes_eq_iff : (s t : Text) → (bytes_eq s t ≡ true) ↔ (s ≡ t)
bytes_eq_iff s t = (bytes_eq_sound s t, bytes_eq_of_eq s t)

instance abbrev pub text_key : Eq Text
text_key = record { beq = bytes_eq; beq_iff = bytes_eq_iff }

unfoldable pub strip_prefix : List ℕ → List ℕ → Option (List ℕ)
strip_prefix [] s = some s
strip_prefix (p ∷ ps) [] = none
strip_prefix (p ∷ ps) (c ∷ cs) = if p == c then strip_prefix ps cs else none

unfoldable pub strip_suffix : List ℕ → List ℕ → Option (List ℕ)
unfolding bytes_eq
strip_suffix suffix s =
    let n = length s - length suffix in
    if leb (length suffix) (length s) && bytes_eq (drop n s) suffix then some (take n s) else none

-- `str::parse::<u64>`: digits whose value fits, behind at most one `+`.
unfoldable pub parse_digits : ℕ → List ℕ → Option ℕ
parse_digits acc [] = some acc
parse_digits acc (c ∷ cs) =
    let acc' = acc * 10 + (c - 48) in
    let rest = parse_digits acc' cs in
    if leb 48 c && (leb c 57 && ltb acc' u64_mod) then rest else none

unfoldable pub parse_u64 : List ℕ → Option ℕ
unfolding parse_digits
parse_u64 [] = none
parse_u64 (c ∷ []) = if c == b'+' then none else parse_digits 0 (c ∷ [])
parse_u64 (c ∷ d ∷ ds) = parse_digits 0 (if c == b'+' then d ∷ ds else c ∷ d ∷ ds)

abbrev pub IsDigit : ℕ → Type 0
IsDigit c = (48 ≤ c) × (c ≤ 57)

pub parse_u64_of_digits :
    (cs : List ℕ) → 0 < length cs → All IsDigit cs → parse_u64 cs ≡ parse_digits 0 cs
unfolding parse_u64
parse_u64_of_digits [] h ds = absurd (omega arith)
parse_u64_of_digits (c ∷ []) h ds = let e : (c == b'+') ≡ false = ground arith in rw e
parse_u64_of_digits (c ∷ d ∷ ds) h all_digits = let e : (c == b'+') ≡ false = ground arith in rw e

pub parse_digits-nil : (n : ℕ) → parse_digits n [] ≡ some n
unfolding parse_digits
parse_digits-nil n = refl

pub strip_suffix-append : (s suffix : List ℕ) → strip_suffix suffix (s ++ suffix) ≡ some s
unfolding strip_suffix
strip_suffix-append s suffix =
    let e : length (s ++ suffix) - length suffix ≡ length s =
      omega (arith, length-append s suffix) in
    let t : leb (length suffix) (length (s ++ suffix)) ≡ true =
      ground (arith, length-append s suffix) in
    rw (
      e,
      t,
      drop-append s suffix (length s) refl,
      bytes_eq_refl suffix,
      take-append s suffix (length s) refl,
    )
