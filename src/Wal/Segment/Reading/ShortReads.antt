-- ===== src/Wal/Segment/Reading/ShortReads.antt =====
-- `read_full_or_eof` of statix/src/wal/segment.rs does not depend on how the system cuts the reads.
use statix.Prelude.{
  ℕ, zero, suc, ◌-◌, ◌≡◌, ◌≤◌, refl, ap, sym, ◌∙◌, Bool, true, false, Option, none, some, List, [],
  ◌∷◌, ◌++◌, length, take, drop, min, leb, if◌then◌else◌, is_empty, arith, append_assoc, append-nil,
  All, length-append, length-take, length-drop, Bool-cases, inl, inr,
}
use statix.Wal.Segment.Reading.{
  ReadCall, full, chunk, interrupted, failed, ReadStatus, File, read_loop,
}

abbrev pub NotFailed : ReadCall → Type 0
NotFailed failed = ⊥
NotFailed _ = Unit

-- What the caller sees: the status, the buffer and the bytes that are left.
abbrev pub seen : Option (ReadStatus × List ℕ × File) → Option (ReadStatus × List ℕ × List ℕ)
seen none = none
seen (some (st, buf, f)) = some (st, buf, f.rest)

take_nil : (m : ℕ) → take {A = ℕ} m [] ≡ []
take_nil zero = refl
take_nil (suc m) = refl

drop_nil : (m : ℕ) → drop {A = ℕ} m [] ≡ []
drop_nil zero = refl
drop_nil (suc m) = refl

take-take :
    (j m : ℕ) (xs : List ℕ)
    → j ≤ m
    → take j xs ++ take (m - length (take j xs)) (drop j xs) ≡ take m xs
take-take zero m xs h = let e : m - 0 ≡ m = omega arith in ap (λ (k : ℕ). take k xs) e
take-take (suc j) zero xs h = absurd (omega arith)
take-take (suc j) (suc m) [] h = take_nil _
take-take (suc j) (suc m) (x ∷ xs) h =
    let e : suc m - suc (length (take j xs)) ≡ m - length (take j xs) = omega arith in
    rw e (ap (λ t. x ∷ t) (take-take j m xs (omega arith)))

drop-take : (j m : ℕ) (xs : List ℕ) → j ≤ m → drop (m - length (take j xs)) (drop j xs) ≡ drop m xs
drop-take zero m xs h = let e : m - 0 ≡ m = omega arith in ap (λ (k : ℕ). drop k xs) e
drop-take (suc j) zero xs h = absurd (omega arith)
drop-take (suc j) (suc m) [] h = drop_nil _
drop-take (suc j) (suc m) (x ∷ xs) h =
    let e : suc m - suc (length (take j xs)) ≡ m - length (take j xs) = omega arith in
    rw e (drop-take j m xs (omega arith))

room_left :
    (j m : ℕ) (xs : List ℕ)
    → j ≤ m
    → leb (m - length (take j xs)) (length (drop j xs)) ≡ leb m (length xs)
room_left j m xs h = ground (arith, length-take j xs, length-drop j xs)

-- A full buffer ends the loop.
read_done :
    (n : ℕ) (buf rest : List ℕ)
    → length buf ≡ n
    → seen (read_loop [] n buf rest) ≡ some (full, buf, rest)
unfolding read_loop
read_done n buf rest h =
    let e : n - length buf ≡ 0 = omega arith in
    let t : leb 0 (length rest) ≡ true = ground arith in rw (e, t, append-nil)

-- One short read and then the rest is one long read.
read_more :
    (n j : ℕ) (buf rest : List ℕ)
    → j ≤ n - length buf
    → seen (read_loop [] n (buf ++ take j rest) (drop j rest)) ≡ seen (read_loop [] n buf rest)
unfolding read_loop
read_more n j buf rest h =
    let e : n - length (buf ++ take j rest) ≡ n - length buf - length (take j rest) =
      omega (arith, length-append buf (take j rest)) in
    rw (
      e,
      append_assoc,
      take-take j (n - length buf) rest h,
      drop-take j (n - length buf) rest h,
      room_left j (n - length buf) rest h,
    )

module _ (cs : List ReadCall) (n : ℕ) (buf rest : List ℕ) where
  stops_when_full :
      (c : ReadCall)
      → length buf ≡ n
      → seen (read_loop (c ∷ cs) n buf rest) ≡ some (full, buf, rest)
  unfolding read_loop
  stops_when_full (chunk k) h = let t : leb n (length buf) ≡ true = ground arith in rw t
  stops_when_full interrupted h = let t : leb n (length buf) ≡ true = ground arith in rw t
  stops_when_full failed h = let t : leb n (length buf) ≡ true = ground arith in rw t

  step_interrupted :
      leb n (length buf) ≡ false
      → seen (read_loop (interrupted ∷ cs) n buf rest) ≡ seen (read_loop cs n buf rest)
  unfolding read_loop
  step_interrupted t = rw t

  step_chunk :
      (k : ℕ)
      → leb n (length buf) ≡ false
      → is_empty rest ≡ false
      → let m = min (suc k) (n - length buf) in
        seen (read_loop (chunk k ∷ cs) n buf rest)
        ≡ seen (read_loop cs n (buf ++ take m rest) (drop m rest))
  unfolding read_loop
  step_chunk k t u = rw (t, u)

-- At the end of the file the loop stops with what it has.
stops_at_end :
    (k : ℕ) (cs : List ReadCall) (n : ℕ) (buf : List ℕ)
    → leb n (length buf) ≡ false
    → seen (read_loop (chunk k ∷ cs) n buf []) ≡ seen (read_loop [] n buf [])
unfolding read_loop
stops_at_end k cs n buf t =
    let u : leb (n - length buf) 0 ≡ false = ground arith in
    rw (t, u, take_nil (n - length buf), drop_nil (n - length buf), append-nil)

-- Whatever the sizes of the short reads and wherever the calls are interrupted, if none fails
-- then status, buffer and position are those of calls that return all that is asked for.
pub read_loop_whole :
    (calls : List ReadCall) (n : ℕ) (buf rest : List ℕ)
    → All NotFailed calls
    → length buf ≤ n
    → seen (read_loop calls n buf rest) ≡ seen (read_loop [] n buf rest)
read_loop_whole [] n buf rest ok h = refl
read_loop_whole (failed ∷ cs) n buf rest ok h = absurd ok.0
read_loop_whole (interrupted ∷ cs) n buf rest ok h = elim (Bool-cases (leb n (length buf))) [
  | inl t ↦
      let e : length buf ≡ n = ground arith in
      stops_when_full cs n buf rest interrupted e ∙ sym (read_done n buf rest e)
  | inr t ↦ step_interrupted cs n buf rest t ∙ read_loop_whole cs n buf rest ok.1 h
]
read_loop_whole (chunk k ∷ cs) n buf rest ok h =
    let m = min (suc k) (n - length buf) in
    let ih : seen (read_loop cs n (buf ++ take m rest) (drop m rest))
        ≡ seen (read_loop [] n (buf ++ take m rest) (drop m rest)) =
      read_loop_whole cs n (buf ++ take m rest) (drop m rest) ok.1
        (omega (arith, length-append buf (take m rest), length-take m rest)) in
    elim (Bool-cases (leb n (length buf))) [
      | inl t ↦
          let e : length buf ≡ n = ground arith in
          stops_when_full cs n buf rest (chunk k) e ∙ sym (read_done n buf rest e)
      | inr t ↦ more rest t ih
    ]
  where
    more :
        (rest : List ℕ)
        → leb n (length buf) ≡ false
        → seen (
            read_loop cs n
              (buf ++ take (min (suc k) (n - length buf)) rest)
              (drop (min (suc k) (n - length buf)) rest))
          ≡ seen (
              read_loop [] n
                (buf ++ take (min (suc k) (n - length buf)) rest)
                (drop (min (suc k) (n - length buf)) rest))
        → seen (read_loop (chunk k ∷ cs) n buf rest) ≡ seen (read_loop [] n buf rest)
    more [] t ih = stops_at_end k cs n buf t
    more (y ∷ ys) t ih =
        step_chunk cs n buf (y ∷ ys) k t refl
        ∙ (ih ∙ read_more n (min (suc k) (n - length buf)) buf (y ∷ ys) (omega arith))

-- The calls that are left have not failed either.
abbrev pub CallsOk : Option (ReadStatus × List ℕ × File) → Type 0
CallsOk none = Unit
CallsOk (some (st, buf, f)) = All NotFailed f.calls

CallsOk-if :
    (b : Bool) (r s : Option (ReadStatus × List ℕ × File))
    → CallsOk r
    → CallsOk s
    → CallsOk (if b then r else s)
CallsOk-if true r s h k = h
CallsOk-if false r s h k = k

pub read_loop-CallsOk :
    (calls : List ReadCall) (n : ℕ) (buf rest : List ℕ)
    → All NotFailed calls
    → CallsOk (read_loop calls n buf rest)
unfolding read_loop
read_loop-CallsOk [] n buf rest ok = tt
read_loop-CallsOk (failed ∷ cs) n buf rest ok = absurd ok.0
read_loop-CallsOk (interrupted ∷ cs) n buf rest ok =
    CallsOk-if (leb n (length buf)) _ _ ok (read_loop-CallsOk cs n buf rest ok.1)
read_loop-CallsOk (chunk k ∷ cs) n buf rest ok =
    let m = min (suc k) (n - length buf) in
    CallsOk-if (leb n (length buf)) _ _ ok (
      CallsOk-if (is_empty rest) _ _ ok.1
        (read_loop-CallsOk cs n (buf ++ take m rest) (drop m rest) ok.1))
