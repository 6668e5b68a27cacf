-- ===== src/Stream.antt =====
-- sylar/stream.h and sylar/stream.cc: reading and writing a fixed number of bytes.
-- What `read` and `write` of the stream return, one call after the other, is an argument.
pub mod Fixed
mod Tests
use sylar_from_scratch.Base.{
  ℕ, zero, suc, ◌+◌, ◌-◌, ◌%◌, List, [], ◌∷◌, ◌++◌, Option, some, none, if◌then◌else◌, length,
}
use mathlib.Core.Option

-- One answer of `read`: at least one byte, or the code that is not positive, by its absolute value: 0
-- where the peer closed the stream.
pub data Reading : Type 0 where
  bytes : ℕ → List ℕ → Reading
  stop : ℕ → Reading

-- What `readFixSize` returns as an int: the length, by its bit pattern, or the code of the call that
-- failed, which fits.
pub data Result : Type 0 where
  whole : ℕ → Result
  failed : ℕ → Result

-- The buffer as far as it is filled, and the answers that are left.
pub record Filled : Type 0 where
  pub buffer : List ℕ
  pub result : Result
  pub later : List Reading

-- The bit pattern of a size_t as an int.
pub to_int : ℕ → ℕ
to_int size = size % 4294967296

abbrev pub prepend : List ℕ → Filled → Filled
prepend bs f = record f { buffer = bs ++ f.buffer }

-- The loop of `readFixSize(buffer, length)`, which at its end returns `size`, with `left` bytes to read; none where the call of `read`
-- that it makes does not return.
pub read_fix_loop : ℕ → List Reading → ℕ → Option Filled
read_fix_loop size later zero = some (record { buffer = []; result = whole size; later = later })
read_fix_loop size [] (suc left) = none
read_fix_loop size (stop e ∷ later) (suc left) =
    some (record { buffer = []; result = failed e; later = later })
read_fix_loop size (bytes b bs ∷ later) (suc left) =
    Option.map (prepend (b ∷ bs)) (read_fix_loop size later (suc left - length (b ∷ bs)))

pub read_fix_size : List Reading → ℕ → Option Filled
unfolding to_int read_fix_loop
read_fix_size calls size = read_fix_loop (to_int size) calls size

-- One answer of `write`, or of the calls on a ByteArray: the number of bytes, at least one.
pub data Count : Type 0 where
  sent : ℕ → Count
  refused : ℕ → Count

-- The loops of `readFixSize(ba, length)` and of both forms of `writeFixSize`; `sent n` is n + 1
-- bytes.
pub transfer_loop : ℕ → List Count → ℕ → Option (Result × List Count)
transfer_loop size later zero = some (whole size, later)
transfer_loop size [] (suc left) = none
transfer_loop size (refused e ∷ later) (suc left) = some (failed e, later)
transfer_loop size (sent n ∷ later) (suc left) = transfer_loop size later (suc left - suc n)

pub transfer_fix_size : List Count → ℕ → Option (Result × List Count)
unfolding to_int transfer_loop
transfer_fix_size calls size = transfer_loop (to_int size) calls size
