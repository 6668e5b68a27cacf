-- ===== src/ByteArray/Codec.antt =====
-- sylar/bytearray.cc and sylar/endian.h: integers, varints and strings on a `ByteArray`.
-- An integer of `w` bytes, signed or not, is its bit pattern; a float or double is the integer with
-- its bits. `host` is the byte order of the machine, SYLAR_BYTE_ORDER.
pub mod Fixed
pub mod Vint
pub mod Zigzag
use mathlib.Core.List.{reverse}
use Prim.Native.Nat.{bit_and, bit_or, bit_xor}
use sylar_from_scratch.Base.{
  ℕ, zero, suc, ◌+◌, ◌-◌, ◌*◌, ◌/◌, ◌%◌, ◌^◌, Bool, true, false, List, [], ◌∷◌, ltb, leb,
  if◌then◌else◌, length,
}
use sylar_from_scratch.ByteArray.{
  ByteArray, Endian, little, big, Outcome, ok, overrun, ◌>>=◌, read, write,
}

-- The bytes of a number from the lowest up, and the number of such bytes.
unfoldable pub le_bytes : ℕ → ℕ → List ℕ
le_bytes zero v = []
le_bytes (suc w) v = (v % 256) ∷ le_bytes w (v / 256)

unfoldable pub le_value : List ℕ → ℕ
le_value [] = 0
le_value (b ∷ bs) = b + 256 * le_value bs

-- bswap_16, bswap_32, bswap_64.
unfoldable pub byteswap : ℕ → ℕ → ℕ
unfolding le_bytes le_value
byteswap w v = le_value (reverse (le_bytes w v))

abbrev pub same_order : Endian → Endian → Bool
same_order little little = true
same_order little big = false
same_order big little = false
same_order big big = true

-- A variable of `w` bytes as the machine keeps it in memory.
pub store : Endian → ℕ → ℕ → List ℕ
unfolding le_bytes
store little w v = le_bytes w v
store big w v = reverse (le_bytes w v)

pub load : Endian → List ℕ → ℕ
unfolding le_value
load little bs = le_value bs
load big bs = le_value (reverse bs)

pub write_fixed : Endian → ℕ → ℕ → ByteArray → Outcome ByteArray
unfolding store byteswap
write_fixed host w value s =
    let value = if same_order s.endian host then value else byteswap w value in
    write (store host w value) s

pub read_fixed : Endian → ℕ → ByteArray → Outcome (ℕ × ByteArray)
unfolding load byteswap
read_fixed host w s = read w s >>= λ (bytes, t).
    let v = load host bytes in ok (if same_order t.endian host then v else byteswap w v, t)

-- writeFint8, writeFuint8: one byte has no order.
pub write_fint8 : ℕ → ByteArray → Outcome ByteArray
write_fint8 value s = write ((value % 256) ∷ []) s

pub write_fuint8 : ℕ → ByteArray → Outcome ByteArray
write_fuint8 value s = write ((value % 256) ∷ []) s

pub first_byte : List ℕ → ℕ
first_byte [] = 0
first_byte (b ∷ bs) = b

pub read_fint8 : ByteArray → Outcome (ℕ × ByteArray)
unfolding first_byte
read_fint8 s = read 1 s >>= λ (bytes, t). ok (first_byte bytes, t)

pub read_fuint8 : ByteArray → Outcome (ℕ × ByteArray)
unfolding first_byte
read_fuint8 s = read 1 s >>= λ (bytes, t). ok (first_byte bytes, t)

-- `tmp[i++] = (value & 0x7F) | 0x80; value >>= 7;` in an array with `room` places left.
pub vint : ℕ → ℕ → Outcome (List ℕ)
vint zero value = overrun
vint (suc room) value =
    let more = vint room (value / 128) in
    if ltb value 0x80
    then ok (value ∷ [])
    else (more >>= λ bs. ok (bit_or (bit_and value 0x7f) 0x80 ∷ bs))

pub write_uint32 : ℕ → ByteArray → Outcome ByteArray
write_uint32 value s = vint 5 value >>= λ tmp. write tmp s

pub write_uint64 : ℕ → ByteArray → Outcome ByteArray
write_uint64 value s = vint 10 value >>= λ tmp. write tmp s

-- `for(int i = 0; i < bits; i += 7)` with the rounds that are left.
pub read_vint : ℕ → ℕ → ℕ → ℕ → ByteArray → Outcome (ℕ × ByteArray)
read_vint zero bits i result s = ok (result, s)
read_vint (suc rounds) bits i result s = read_fuint8 s >>= λ (b, t).
    let rest =
      read_vint rounds bits (i + 7) (bit_or result (bit_and b 0x7f * 2 ^ i % 2 ^ bits)) t in
    if ltb b 0x80 then ok (bit_or result (b * 2 ^ i % 2 ^ bits), t) else rest

-- i is 0, 7, 14, 21, 28.
pub read_uint32 : ByteArray → Outcome (ℕ × ByteArray)
read_uint32 s = read_vint 5 32 0 0 s

-- i is 0, 7, ..., 63.
pub read_uint64 : ByteArray → Outcome (ℕ × ByteArray)
read_uint64 s = read_vint 10 64 0 0 s

-- `-x` in an unsigned type of `w` bits.
pub negate : ℕ → ℕ → ℕ
negate w x = (2 ^ w - x) % 2 ^ w

-- EncodeZigzag32, EncodeZigzag64: `v` has `w` bits, the highest of them the sign.
pub encode_zigzag : ℕ → ℕ → ℕ
unfolding negate
encode_zigzag w v =
    if leb (2 ^ (w - 1)) v then (negate w v * 2 + 2 ^ w - 1) % 2 ^ w else v * 2 % 2 ^ w

-- DecodeZigzag32, DecodeZigzag64: `(v >> 1) ^ -(v & 1)`.
pub decode_zigzag : ℕ → ℕ → ℕ
unfolding negate
decode_zigzag w v = bit_xor (v / 2) (negate w (bit_and v 1))

pub write_int32 : ℕ → ByteArray → Outcome ByteArray
write_int32 value s = write_uint32 (encode_zigzag 32 value) s

pub write_int64 : ℕ → ByteArray → Outcome ByteArray
write_int64 value s = write_uint64 (encode_zigzag 64 value) s

pub read_int32 : ByteArray → Outcome (ℕ × ByteArray)
read_int32 s = read_uint32 s >>= λ (v, t). ok (decode_zigzag 32 v, t)

pub read_int64 : ByteArray → Outcome (ℕ × ByteArray)
read_int64 s = read_uint64 s >>= λ (v, t). ok (decode_zigzag 64 v, t)

module _ (host : Endian) where
  pub write_fint16 : ℕ → ByteArray → Outcome ByteArray
  write_fint16 = write_fixed host 2

  pub write_fuint16 : ℕ → ByteArray → Outcome ByteArray
  write_fuint16 = write_fixed host 2

  pub write_fint32 : ℕ → ByteArray → Outcome ByteArray
  write_fint32 = write_fixed host 4

  pub write_fuint32 : ℕ → ByteArray → Outcome ByteArray
  write_fuint32 = write_fixed host 4

  pub write_fint64 : ℕ → ByteArray → Outcome ByteArray
  write_fint64 = write_fixed host 8

  pub write_fuint64 : ℕ → ByteArray → Outcome ByteArray
  write_fuint64 = write_fixed host 8

  pub write_float : ℕ → ByteArray → Outcome ByteArray
  write_float = write_fuint32

  pub write_double : ℕ → ByteArray → Outcome ByteArray
  write_double = write_fuint64

  pub read_fint16 : ByteArray → Outcome (ℕ × ByteArray)
  read_fint16 = read_fixed host 2

  pub read_fuint16 : ByteArray → Outcome (ℕ × ByteArray)
  read_fuint16 = read_fixed host 2

  pub read_fint32 : ByteArray → Outcome (ℕ × ByteArray)
  read_fint32 = read_fixed host 4

  pub read_fuint32 : ByteArray → Outcome (ℕ × ByteArray)
  read_fuint32 = read_fixed host 4

  pub read_fint64 : ByteArray → Outcome (ℕ × ByteArray)
  read_fint64 = read_fixed host 8

  pub read_fuint64 : ByteArray → Outcome (ℕ × ByteArray)
  read_fuint64 = read_fixed host 8

  pub read_float : ByteArray → Outcome (ℕ × ByteArray)
  read_float = read_fuint32

  pub read_double : ByteArray → Outcome (ℕ × ByteArray)
  read_double = read_fuint64

  -- The length goes through a parameter of 16, 32 or 64 bits.
  pub write_string_f16 : List ℕ → ByteArray → Outcome ByteArray
  write_string_f16 value s = write_fuint16 (length value % 2 ^ 16) s >>= write value

  pub write_string_f32 : List ℕ → ByteArray → Outcome ByteArray
  write_string_f32 value s = write_fuint32 (length value % 2 ^ 32) s >>= write value

  pub write_string_f64 : List ℕ → ByteArray → Outcome ByteArray
  write_string_f64 value s = write_fuint64 (length value % 2 ^ 64) s >>= write value

  pub read_string_f16 : ByteArray → Outcome (List ℕ × ByteArray)
  read_string_f16 s = read_fuint16 s >>= λ (len, t). read len t

  pub read_string_f32 : ByteArray → Outcome (List ℕ × ByteArray)
  read_string_f32 s = read_fuint32 s >>= λ (len, t). read len t

  pub read_string_f64 : ByteArray → Outcome (List ℕ × ByteArray)
  read_string_f64 s = read_fuint64 s >>= λ (len, t). read len t

pub write_string_vint : List ℕ → ByteArray → Outcome ByteArray
write_string_vint value s = write_uint64 (length value % 2 ^ 64) s >>= write value

pub write_string_without_length : List ℕ → ByteArray → Outcome ByteArray
write_string_without_length value s = write value s

pub read_string_vint : ByteArray → Outcome (List ℕ × ByteArray)
read_string_vint s = read_uint64 s >>= λ (len, t). read len t
