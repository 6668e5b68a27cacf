-- ===== src/Stream/Tests.antt =====
-- readFixSize of three bytes from a stream that gives two and then one.
use sylar_from_scratch.Base.{◌≡◌, List, [], ◌∷◌, some, arith}
use sylar_from_scratch.Stream.{Reading, bytes, stop, Filled, read_fix_size}
use sylar_from_scratch.Stream.Fixed.{Fits, Finished, read_fix_size_lem}

abbrev calls : List Reading
calls = bytes 1 (2 ∷ []) ∷ bytes 3 [] ∷ stop 0 ∷ []

calls-Fits : Fits 3 calls
unfolding Fits
calls-Fits = (omega arith, (omega arith, tt))

read_fix_size_lem_example : (f : Filled) × (read_fix_size calls 3 ≡ some f) × Finished calls 3 3 f
read_fix_size_lem_example = read_fix_size_lem calls 3 (omega arith) (omega arith) calls-Fits
