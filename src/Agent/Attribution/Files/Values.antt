-- ===== src/Agent/Attribution/Files/Values.antt =====
-- The text of a cgroup's files, as statix/src/attribution/mod.rs takes it apart.
use statix.Prelude.{
  ℕ, zero, suc, ◌-◌, ◌<◌, ◌≡◌, ◌≢◌, refl, ap, true, false, ◌&&◌, none, some, List, [], ◌∷◌, ◌++◌,
  length, take, drop, leb, ◌==◌, if◌then◌else◌, All, All-append, arith, append_assoc, append-nil,
}
use statix.Prelude.Text.{Text, IsDigit, strip_prefix, strip_suffix, bytes_eq}
use statix.Agent.Attribution.Names.{trim, trim_start, trim_end, is_ascii_whitespace}
use statix.Agent.Attribution.Files.{
  lead, utf8_from, from_utf8, or_self, lines_from, lines, find_stripped,
}

abbrev pub IsAscii : ℕ → Type 0
IsAscii c = c < 128

lead_ascii : (b : ℕ) → b < 128 → lead b ≡ some (0, 0x80, 0xBF)
lead_ascii b h = ground arith

utf8_ascii : (lo hi : ℕ) (bs : List ℕ) → All IsAscii bs → utf8_from 0 lo hi bs ≡ true
unfolding utf8_from
utf8_ascii lo hi [] h = refl
utf8_ascii lo hi (b ∷ bs) h = rw (utf8_from, lead_ascii b h.0) (utf8_ascii 0x80 0xBF bs h.1)

pub from_utf8_ascii : (bs : List ℕ) → All IsAscii bs → from_utf8 bs ≡ some bs
unfolding from_utf8
from_utf8_ascii bs h = rw (utf8_ascii 0x80 0xBF bs h)

pub All-take {ℓ} : (P : ℕ → Type ℓ) (n : ℕ) (xs : List ℕ) → All P xs → All P (take n xs)
All-take P zero xs h = tt
All-take P (suc n) [] h = tt
All-take P (suc n) (x ∷ xs) h = (h.0, All-take P n xs h.1)

All-drop {ℓ} : (P : ℕ → Type ℓ) (n : ℕ) (xs : List ℕ) → All P xs → All P (drop n xs)
All-drop P zero xs h = h
All-drop P (suc n) [] h = tt
All-drop P (suc n) (x ∷ xs) h = All-drop P n xs h.1

pub digits-IsAscii : (ds : List ℕ) → All IsDigit ds → All IsAscii ds
digits-IsAscii [] h = tt
digits-IsAscii (d ∷ ds) h = (omega arith, digits-IsAscii ds h.1)

-- A line of a file: ASCII, without line ends.
abbrev pub IsPlain : ℕ → Type 0
IsPlain c = (c < 128) × ((c ≢ 10) × (c ≢ 13))

pub plain-IsAscii : (l : Text) → All IsPlain l → All IsAscii l
plain-IsAscii [] h = tt
plain-IsAscii (c ∷ cs) h = ((h.0).0, plain-IsAscii cs h.1)

pub digits-IsPlain : (ds : List ℕ) → All IsDigit ds → All IsPlain ds
digits-IsPlain [] h = tt
digits-IsPlain (d ∷ ds) h =
    ((omega arith, (λ e. omega arith, λ e. omega arith)), digits-IsPlain ds h.1)

plain_no_cr : (xs : Text) → All IsPlain xs → bytes_eq xs (13 ∷ []) ≡ false
unfolding bytes_eq
plain_no_cr [] h = refl
plain_no_cr (c ∷ cs) h = let e : (c == 13) ≡ false = ground (arith, ((h.0).1).1) in rw e

-- A line that does not end in a carriage return is kept whole.
pub keeps_line : (l : Text) → All IsPlain l → or_self (strip_suffix (13 ∷ []) l) l ≡ l
unfolding strip_suffix
keeps_line l h =
    let e = plain_no_cr (drop (length l - 1) l) (All-drop IsPlain (length l - 1) l h) in
    elim (leb 1 (length l))
      as (λ b.
        or_self
          (if b && bytes_eq (drop (length l - 1) l) (13 ∷ [])
            then some (take (length l - 1) l)
            else none)
          l
        ≡ l) [ true ↦ rw e | false ↦ refl ]

pub lines_from-line :
    (acc l rest : Text)
    → All IsPlain acc
    → All IsPlain l
    → lines_from acc (l ++ 10 ∷ rest) ≡ (acc ++ l) ∷ lines rest
unfolding lines_from lines
lines_from-line acc [] rest h k = rw (keeps_line acc h, append-nil acc)
lines_from-line acc (c ∷ l) rest h k =
    let e : (c == 10) ≡ false = ground (arith, ((k.0).1).0) in
    let more =
      lines_from-line (acc ++ c ∷ []) l rest (All-append IsPlain acc (c ∷ []) h (k.0, tt)) k.1 in
    rw (lines_from, e, more, append_assoc acc (c ∷ []) l)

-- The text of a file with these lines.
abbrev pub file_of : List Text → Text
file_of [] = []
file_of (l ∷ ls) = l ++ 10 ∷ file_of ls

pub lines-file_of :
    (ls : List Text) (rest : Text)
    → All (All IsPlain) ls
    → lines (file_of ls ++ rest) ≡ ls ++ lines rest
unfolding lines
lines-file_of [] rest h = refl
lines-file_of (l ∷ ls) rest h =
    rw (append_assoc l (10 ∷ file_of ls) rest, lines_from-line [] l (file_of ls ++ rest) tt h.0)
      (ap (λ x. l ∷ x) (lines-file_of ls rest h.1))

pub find_stripped-skips :
    (p l v : Text) (before after : List Text)
    → All (λ m. strip_prefix p m ≡ none) before
    → strip_prefix p l ≡ some v
    → find_stripped p (before ++ l ∷ after) ≡ some v
unfolding find_stripped
find_stripped-skips p l v [] after h e = rw (find_stripped, e)
find_stripped-skips p l v (m ∷ ms) after h e =
    rw (find_stripped, h.0) (find_stripped-skips p l v ms after h.1 e)

trim_start-digits : (ds : Text) → All IsDigit ds → trim_start ds ≡ ds
unfolding trim_start
trim_start-digits [] h = refl
trim_start-digits (d ∷ ds) h = let e : is_ascii_whitespace d ≡ false = ground arith in rw e

trim_end-digits : (ds : Text) → All IsDigit ds → trim_end ds ≡ ds
unfolding trim_end
trim_end-digits [] h = refl
trim_end-digits (d ∷ []) h = let e : is_ascii_whitespace d ≡ false = ground arith in rw e
trim_end-digits (d ∷ c ∷ ds) h = rw (trim_end-digits (c ∷ ds) h.1)

pub trim-digits : (ds : Text) → All IsDigit ds → trim ds ≡ ds
unfolding trim
trim-digits ds h = rw (trim_start-digits ds h, trim_end-digits ds h)

trim_end-digits_newline :
    (ds : Text) → 0 < length ds → All IsDigit ds → trim_end (ds ++ 10 ∷ []) ≡ ds
unfolding trim_end
trim_end-digits_newline [] h k = absurd (omega arith)
trim_end-digits_newline (d ∷ []) h k = let e : is_ascii_whitespace d ≡ false = ground arith in rw e
trim_end-digits_newline (d ∷ c ∷ ds) h k = rw (trim_end-digits_newline (c ∷ ds) (omega arith) k.1)

pub trim-digits_newline : (ds : Text) → 0 < length ds → All IsDigit ds → trim (ds ++ 10 ∷ []) ≡ ds
unfolding trim trim_start
trim-digits_newline [] h k = absurd (omega arith)
trim-digits_newline (d ∷ ds) h k =
    let e : is_ascii_whitespace d ≡ false = ground arith in
    rw (e, trim_end-digits_newline (d ∷ ds) h k)
