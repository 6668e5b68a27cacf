-- ===== src/ByteArray/Codec/Vint.antt =====
-- The varint coding: seven bits a byte from the lowest up, the top bit set on every byte but the last.
use Prim.Native.Nat.{bit_or, bit_and}
use native.Mathlib.Nat.{pow-suc, mod-eq_of_lt, div-add-mod}
use mathlib.Core.Path.{subst}
use native.Mathlib.Numerals.{towards_suc}
use sylar_from_scratch.Base.{
  ℕ, zero, suc, true, false, ◌+◌, ◌*◌, ◌/◌, ◌%◌, ◌^◌, ◌≤◌, ◌<◌, ◌≡◌, ap, ◌∙◌, inl, inr, arith, List,
  [], ◌∷◌, ◌++◌, length, drop, if◌then◌else◌, ltb, ltb→lt, lt→ltb, le→ltb, Bool-cases,
}
use sylar_from_scratch.Base.Bits.{bit_or-disjoint, bit_and-0x7f, bit_or-0x80}
use sylar_from_scratch.ByteArray.{
  ByteArray, Outcome, ok, out_of_range, null_deref, overrun, ◌>>=◌, write, set_position,
}
use sylar_from_scratch.ByteArray.View.{view}
use sylar_from_scratch.ByteArray.Chain.{IsValid}
use sylar_from_scratch.ByteArray.Ahead.{Ahead, read-Ahead, rewind-Ahead}
use sylar_from_scratch.ByteArray.Codec.{
  vint, read_vint, read_fuint8, write_uint32, write_uint64, read_uint32, read_uint64, write_int32,
  write_int64, read_int32, read_int64, encode_zigzag, decode_zigzag,
}
use sylar_from_scratch.ByteArray.Codec.Zigzag.{encode_zigzag-cases, decode_zigzag-encode_zigzag}

-- The groups of seven bits of a number below 128 ^ (k + 1).
pub groups : ℕ → ℕ → List ℕ
groups zero v = v ∷ []
groups (suc k) v =
    let rest = groups k (v / 128) in if ltb v 128 then v ∷ [] else (v % 128 + 128) ∷ rest

inner_byte : (v : ℕ) → bit_or (bit_and v 0x7f) 0x80 ≡ v % 128 + 128
inner_byte v = rw (bit_and-0x7f v) (bit_or-0x80 (v % 128) (omega arith))

-- The loop fits its array, and writes the groups.
pub vint-groups : (k v : ℕ) → v < 128 ^ suc k → vint (suc k) v ≡ ok (groups k v)
unfolding vint groups
vint-groups zero v h = rw (lt→ltb v 128 (omega arith))
vint-groups (suc k) v h = elim (Bool-cases (ltb v 128)) [
  | inl last ↦ rw last
  | inr more ↦
      let ih = vint-groups k (v / 128) (omega (arith, pow-suc 128 (suc k))) in
      rw (more, ih, inner_byte v)
]

pub length-groups : (k v : ℕ) → (1 ≤ length (groups k v)) × (length (groups k v) ≤ suc k)
unfolding groups
length-groups zero v = omega arith
length-groups (suc k) v = ground (arith, length-groups k (v / 128))

pub read_byte :
    (s : ByteArray) (b : ℕ) (rest : List ℕ)
    → Ahead s (b ∷ rest)
    → (t : ByteArray) × (read_fuint8 s ≡ ok (b, t)) × Ahead t rest × (t.endian ≡ s.endian)
unfolding read_fuint8
read_byte s b rest a =
    let (t, e, ahead, endian) = read-Ahead s (b ∷ []) rest (omega arith) a in
    (t, rw e, ahead, endian)

-- One more group of the result: `result |= b << i`.
or_group :
    (acc b i bits : ℕ)
    → acc < 2 ^ i
    → acc + b * 2 ^ i < 2 ^ bits
    → bit_or acc (b * 2 ^ i % 2 ^ bits) ≡ acc + b * 2 ^ i
or_group acc b i bits h fits =
    rw (mod-eq_of_lt {n = b * 2 ^ i} {m = 2 ^ bits} (omega arith)) (bit_or-disjoint i acc b h)

shift_seven : (i : ℕ) → 2 ^ (i + 7) ≡ 128 * 2 ^ i
shift_seven i = simp towards_suc (omega arith)

split_group : (v i : ℕ) → v % 128 * 2 ^ i + v / 128 * 2 ^ (i + 7) ≡ v * 2 ^ i
split_group v i = omega (
  arith,
  ap (λ (t : ℕ). t * 2 ^ i) (div-add-mod v 128),
  ap (λ (t : ℕ). v / 128 * t) (shift_seven i),
)

group_below : (v i : ℕ) (acc : ℕ) → acc < 2 ^ i → acc + v % 128 * 2 ^ i < 2 ^ (i + 7)
group_below v i acc h = let r : v % 128 ≤ 127 = omega arith in grind (arith, shift_seven i)

module _ (s t : ByteArray) (k bits i acc v : ℕ) (low : acc < 2 ^ i) where
  last_round :
      read_fuint8 s ≡ ok (v, t)
      → v < 128
      → acc + v * 2 ^ i < 2 ^ bits
      → read_vint (suc k) bits i acc s ≡ ok (acc + v * 2 ^ i, t)
  unfolding read_vint
  last_round e h fits = rw (e, lt→ltb v 128 h, or_group acc v i bits low fits)

  inner_round :
      read_fuint8 s ≡ ok (v % 128 + 128, t)
      → acc + v % 128 * 2 ^ i < 2 ^ bits
      → read_vint (suc k) bits i acc s ≡ read_vint k bits (i + 7) (acc + v % 128 * 2 ^ i) t
  unfolding read_vint
  inner_round e fits =
      let small : bit_and (v % 128 + 128) 0x7f ≡ v % 128 =
        rw (bit_and-0x7f (v % 128 + 128)) (omega arith) in
      rw
        (e, le→ltb (v % 128 + 128) 128 (omega arith), small, or_group acc (v % 128) i bits low fits)

groups_last : (k v : ℕ) → ltb v 128 ≡ true → groups (suc k) v ≡ v ∷ []
unfolding groups
groups_last k v h = rw h

groups_more :
    (k v : ℕ) → ltb v 128 ≡ false → groups (suc k) v ≡ (v % 128 + 128) ∷ groups k (v / 128)
unfolding groups
groups_more k v h = rw h

-- The loop of the readers gathers the groups again.
pub read_vint-groups :
    (k v bits i acc : ℕ) (s : ByteArray) (rest : List ℕ)
    → v < 128 ^ suc k
    → acc < 2 ^ i
    → acc + v * 2 ^ i < 2 ^ bits
    → Ahead s (groups k v ++ rest)
    → (t : ByteArray) × (read_vint (suc k) bits i acc s ≡ ok (acc + v * 2 ^ i, t))
      × Ahead t rest
      × (t.endian ≡ s.endian)
unfolding groups
read_vint-groups zero v bits i acc s rest h low fits a =
    let (t, e, ahead, endian) = read_byte s v rest a in
    (t, last_round s t 0 bits i acc v low e (omega arith) fits, ahead, endian)
read_vint-groups (suc k) v bits i acc s rest h low fits a = elim (Bool-cases (ltb v 128)) [
  | inl last ↦
      let b : Ahead s (v ∷ rest) = subst (λ bs. Ahead s (bs ++ rest)) (groups_last k v last) a in
      let (t, e, ahead, endian) = read_byte s v rest b in
      (t, last_round s t (suc k) bits i acc v low e (ltb→lt v 128 last) fits, ahead, endian)
  | inr more ↦
      let b : Ahead s ((v % 128 + 128) ∷ (groups k (v / 128) ++ rest)) =
        subst (λ bs. Ahead s (bs ++ rest)) (groups_more k v more) a in
      let (t, e, ahead, endian) = read_byte s _ (groups k (v / 128) ++ rest) b in
      let split = split_group v i in
      let (u, e', ahead', endian') =
        read_vint-groups k (v / 128) bits (i + 7) (acc + v % 128 * 2 ^ i) t rest
          (omega (arith, pow-suc 128 (suc k))) (group_below v i acc low) (omega (arith, split))
          ahead in
      (
        u,
        inner_round s t (suc k) bits i acc v low e (omega (arith, split))
            ∙ e'
            ∙ ap (λ n. ok (n, u)) (omega (arith, split)),
        ahead',
        endian' ∙ endian,
      )
]

reader_map :
    (m : Outcome ByteArray) (reader : ByteArray → Outcome (ℕ × ByteArray)) (f : ℕ → ℕ) {n : ℕ}
    {t : ByteArray}
    → (m >>= reader) ≡ ok (n, t)
    → (m >>= λ s. ◌>>=◌ {B = ℕ × ByteArray} (reader s) (λ (v, u). ok (f v, u))) ≡ ok (f n, t)
reader_map (ok s) reader f e = rw e
reader_map out_of_range reader f e = cc
reader_map null_deref reader f e = cc
reader_map overrun reader f e = cc

-- Writing a varint of up to `k + 1` bytes, going back and reading it: `value` is read again, and what
-- lay behind the written bytes lies ahead.
vint_round :
    (k bits value : ℕ) (s : ByteArray)
    → IsValid s
    → value < 128 ^ suc k
    → value < 2 ^ bits
    → (t : ByteArray) × (((vint (suc k) value >>= λ tmp. write tmp s)
          >>= set_position s.position
          >>= read_vint (suc k) bits 0 0)
        ≡ ok (value, t))
      × Ahead t (drop (s.position + length (groups k value)) (view s).contents)
      × (t.endian ≡ s.endian)
vint_round k bits value s v room fits =
    let (u, e, ahead, endian, at) = rewind-Ahead (groups k value) s v in
    let (t, e', ahead', endian') =
      read_vint-groups k value bits 0 0 u _ room (omega arith) (omega arith) ahead in
    let sum : 0 + value * 2 ^ 0 ≡ value = omega arith in
    (t, rw (vint-groups k value room, e) (e' ∙ ap (λ n. ok (n, t)) sum), ahead', endian' ∙ endian)

-- `readUint32` reads back each 32-bit number that `writeUint32` wrote, in one to five bytes.
pub read_uint32-write_uint32 :
    (value : ℕ) (s : ByteArray)
    → IsValid s
    → value < 2 ^ 32
    → (t : ByteArray) × (n : ℕ) × ((write_uint32 value s
          >>= set_position s.position
          >>= read_uint32)
        ≡ ok (value, t))
      × (1 ≤ n)
      × (n ≤ 5)
      × Ahead t (drop (s.position + n) (view s).contents)
unfolding write_uint32 read_uint32
read_uint32-write_uint32 value s v h =
    let (t, e, ahead, endian) = vint_round 4 32 value s v (omega arith) h in
    let (lo, hi) = length-groups 4 value in (t, length (groups 4 value), e, lo, hi, ahead)

-- `readUint64` reads back each 64-bit number that `writeUint64` wrote, in one to ten bytes.
pub read_uint64-write_uint64 :
    (value : ℕ) (s : ByteArray)
    → IsValid s
    → value < 2 ^ 64
    → (t : ByteArray) × (n : ℕ) × ((write_uint64 value s
          >>= set_position s.position
          >>= read_uint64)
        ≡ ok (value, t))
      × (1 ≤ n)
      × (n ≤ 10)
      × Ahead t (drop (s.position + n) (view s).contents)
unfolding write_uint64 read_uint64
read_uint64-write_uint64 value s v h =
    let (t, e, ahead, endian) = vint_round 9 64 value s v (omega arith) h in
    let (lo, hi) = length-groups 9 value in (t, length (groups 9 value), e, lo, hi, ahead)

encode_zigzag-lt : (k v : ℕ) → v < 2 ^ suc k → encode_zigzag (suc k) v < 2 ^ suc k
encode_zigzag-lt k v h = elim (encode_zigzag-cases k v h) [
  | inl (lt, e) ↦ rw e (omega (arith, pow-suc 2 k))
  | inr (le, e) ↦ rw e (omega (arith, pow-suc 2 k))
]

-- The zigzag coding behind the varint: every int32_t, given by its bits, is read back.
pub read_int32-write_int32 :
    (value : ℕ) (s : ByteArray)
    → IsValid s
    → value < 2 ^ 32
    → (t : ByteArray) × ((write_int32 value s >>= set_position s.position >>= read_int32)
        ≡ ok (value, t))
      × IsValid t
unfolding write_int32 read_int32
read_int32-write_int32 value s v h =
    let (t, n, e, lo, hi, ahead) =
      read_uint32-write_uint32 (encode_zigzag 32 value) s v (encode_zigzag-lt 31 value h) in
    let back = decode_zigzag-encode_zigzag 31 value h in
    (
      t,
      reader_map (write_uint32 (encode_zigzag 32 value) s >>= set_position s.position) read_uint32
            (decode_zigzag 32) e
          ∙ ap (λ n. ok (n, t)) back,
      ahead.valid,
    )

-- Every int64_t likewise.
pub read_int64-write_int64 :
    (value : ℕ) (s : ByteArray)
    → IsValid s
    → value < 2 ^ 64
    → (t : ByteArray) × ((write_int64 value s >>= set_position s.position >>= read_int64)
        ≡ ok (value, t))
      × IsValid t
unfolding write_int64 read_int64
read_int64-write_int64 value s v h =
    let (t, n, e, lo, hi, ahead) =
      read_uint64-write_uint64 (encode_zigzag 64 value) s v (encode_zigzag-lt 63 value h) in
    let back = decode_zigzag-encode_zigzag 63 value h in
    (
      t,
      reader_map (write_uint64 (encode_zigzag 64 value) s >>= set_position s.position) read_uint64
            (decode_zigzag 64) e
          ∙ ap (λ n. ok (n, t)) back,
      ahead.valid,
    )
