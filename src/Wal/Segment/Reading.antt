-- ===== src/Wal/Segment/Reading.antt =====
-- `read_full_or_eof` of statix/src/wal/segment.rs, over what the system does on each `read` call.
pub mod ShortReads
use statix.Prelude.{
  ℕ, zero, suc, ◌+◌, ◌-◌, ◌≡◌, ◌≤◌, refl, ap, sym, Bool, true, false, Option, none, some, List, [],
  ◌∷◌, ◌++◌, length, take, drop, min, leb, if◌then◌else◌, is_empty, arith, append_assoc,
}

-- One `read` call: at most k + 1 bytes, an interruption, or another error.
pub data ReadCall : Type 0 where
  chunk : ℕ → ReadCall
  interrupted failed : ReadCall

pub data ReadStatus : Type 0 where
  full partial eof : ReadStatus

-- An open file: the bytes from its position on, and what the system does on the calls to come.
-- When `calls` is empty, each call returns as many bytes as are asked for and left.
pub record File : Type 0 where
  pub rest : List ℕ
  pub calls : List ReadCall

abbrev pub short_read : List ℕ → ReadStatus
short_read [] = eof
short_read (b ∷ bs) = partial

-- The rounds of the loop; `buf` is `buf[..filled]`.
unfoldable pub read_loop : List ReadCall → ℕ → List ℕ → List ℕ → Option (ReadStatus × List ℕ × File)
read_loop [] n buf rest =
    let m = n - length buf in
    let buf' = buf ++ take m rest in
    some (
      (if leb m (length rest) then full else short_read buf'),
      buf',
      record { rest = drop m rest; calls = [] },
    )
read_loop (interrupted ∷ cs) n buf rest =
    let again = read_loop cs n buf rest in
    if leb n (length buf)
    then some (full, buf, record { rest = rest; calls = interrupted ∷ cs })
    else again
read_loop (failed ∷ cs) n buf rest =
    if leb n (length buf)
    then some (full, buf, record { rest = rest; calls = failed ∷ cs })
    else none
read_loop (chunk k ∷ cs) n buf rest =
    let m = min (suc k) (n - length buf) in
    let again = read_loop cs n (buf ++ take m rest) (drop m rest) in
    if leb n (length buf)
    then some (full, buf, record { rest = rest; calls = chunk k ∷ cs })
    else if is_empty rest
    then some (short_read buf, buf, record { rest = rest; calls = cs })
    else again

unfoldable pub read_full_or_eof : File → ℕ → Option (ReadStatus × List ℕ × File)
unfolding read_loop
read_full_or_eof f n = read_loop f.calls n [] f.rest
