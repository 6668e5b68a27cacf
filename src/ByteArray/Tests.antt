-- ===== src/ByteArray/Tests.antt =====
-- Runs of sylar/bytearray.cc on small arrays, and the theorems at concrete inputs.
use sylar_from_scratch.Base.{ℕ, ◌+◌, ◌≤◌, ◌≡◌, refl, List, [], ◌∷◌, some, none, arith, drop}
use sylar_from_scratch.ByteArray.{
  ByteArray, little, big, ok, null_deref, ◌>>=◌, read, write, set_position,
}
use sylar_from_scratch.ByteArray.View.{file_read, file_write, view}
use sylar_from_scratch.ByteArray.Chain.{IsValid}
use sylar_from_scratch.ByteArray.Write.{write-File}
use sylar_from_scratch.ByteArray.Read.{read-File, read_empty}
use sylar_from_scratch.ByteArray.Position.{set_position_lem}
use sylar_from_scratch.ByteArray.Ahead.{Ahead}
use sylar_from_scratch.ByteArray.Codec.{write_uint32, read_uint32, write_fixed, read_fixed}
use sylar_from_scratch.ByteArray.Codec.Vint.{read_uint32-write_uint32}
use sylar_from_scratch.ByteArray.Codec.Fixed.{read_fixed-write_fixed}

-- Two blocks of two bytes, three bytes of data, the position behind the first of them.
abbrev three_bytes : ByteArray
three_bytes = record {
  base_size = 2;
  position = 1;
  capacity = 4;
  size = 3;
  endian = big;
  nodes = (1 ∷ 2 ∷ []) ∷ (3 ∷ 0 ∷ []) ∷ [];
  cur = some 0;
}

three_bytes-IsValid : IsValid three_bytes
three_bytes-IsValid = record {
  positive = omega arith;
  chain = (refl, (refl, tt));
  rooted = omega arith;
  total = refl;
  position_le = omega arith;
  size_le = omega arith;
  cur_at = refl;
}

write-File_example :
    (t : ByteArray) × (write (7 ∷ 8 ∷ 9 ∷ 10 ∷ []) three_bytes ≡ ok t)
    × IsValid t
    × (view t ≡ file_write (7 ∷ 8 ∷ 9 ∷ 10 ∷ []) (view three_bytes))
    × (t.endian ≡ big)
    × (t.base_size ≡ 2)
write-File_example = write-File (7 ∷ 8 ∷ 9 ∷ 10 ∷ []) three_bytes three_bytes-IsValid

read-File_example :
    (bytes : List ℕ) × (t : ByteArray) × (read 2 three_bytes ≡ ok (bytes, t))
    × IsValid t
    × (file_read 2 (view three_bytes) ≡ some (bytes, view t))
    × (t.endian ≡ big)
read-File_example = read-File 2 three_bytes three_bytes-IsValid (omega arith) (omega arith)

read_empty_example : read 0 three_bytes ≡ ok ([], three_bytes)
read_empty_example = read_empty three_bytes three_bytes-IsValid

set_position_lem_example :
    (t : ByteArray) × (set_position 4 three_bytes ≡ ok t)
    × IsValid t
    × (t.position ≡ 4)
    × (t.size ≡ 4)
    × (t.nodes ≡ three_bytes.nodes)
    × (t.endian ≡ big)
set_position_lem_example = set_position_lem 4 three_bytes three_bytes-IsValid (omega arith)

read_uint32-write_uint32_example :
    (t : ByteArray) × (n : ℕ) × ((write_uint32 300 three_bytes >>= set_position 1 >>= read_uint32)
      ≡ ok (300, t))
    × (1 ≤ n)
    × (n ≤ 5)
    × Ahead t (drop (1 + n) (1 ∷ 2 ∷ 3 ∷ []))
read_uint32-write_uint32_example =
    read_uint32-write_uint32 300 three_bytes three_bytes-IsValid (omega arith)

read_fixed-write_fixed_example :
    (t : ByteArray) × ((write_fixed little 4 0x1020304 three_bytes
        >>= set_position 1
        >>= read_fixed little 4)
      ≡ ok (0x1020304, t))
    × Ahead t (drop (1 + 4) (1 ∷ 2 ∷ 3 ∷ []))
    × (t.endian ≡ big)
read_fixed-write_fixed_example =
    read_fixed-write_fixed little 4 0x1020304 three_bytes three_bytes-IsValid (omega arith)
      (omega arith)

-- An array filled to the end of its only block.
abbrev full : ByteArray
full = record {
  base_size = 2;
  position = 2;
  capacity = 2;
  size = 2;
  endian = big;
  nodes = (0 ∷ 0 ∷ []) ∷ [];
  cur = none;
}

-- `readStringF16` of an empty string that ends the array comes to this read.
full-read : read 0 full ≡ null_deref
unfolding read
full-read = refl
