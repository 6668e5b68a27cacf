-- ===== src/ByteArray/Codec/Fixed.antt =====
-- Integers of a fixed size: the bytes in memory depend on the byte order that was chosen, and on
-- nothing else, and they are read back.
use mathlib.Core.List.{reverse, reverse-reverse, reverse-cons}
use mathlib.Core.Path.{subst}
use native.Mathlib.Nat.{pow-suc}
use sylar_from_scratch.Base.{
  ℕ, zero, suc, ◌+◌, ◌*◌, ◌/◌, ◌%◌, ◌^◌, ◌≤◌, ◌<◌, ◌≡◌, refl, sym, ap, ◌∙◌, arith, List, [], ◌∷◌,
  ◌++◌, All, length, length-append, drop, if◌then◌else◌,
}
use sylar_from_scratch.ByteArray.{
  ByteArray, Endian, little, big, ok, ◌>>=◌, read, write, set_position,
}
use sylar_from_scratch.ByteArray.View.{view}
use sylar_from_scratch.ByteArray.Chain.{IsValid}
use sylar_from_scratch.ByteArray.Ahead.{Ahead, read-Ahead, rewind-Ahead}
use sylar_from_scratch.ByteArray.Codec.{
  le_bytes, le_value, byteswap, same_order, store, load, write_fixed, read_fixed,
}

abbrev IsByte : ℕ → Type 0
IsByte b = b < 256

-- The specification: the bytes of `value` in a byte order, whatever the machine.
pub order_bytes : Endian → ℕ → ℕ → List ℕ
order_bytes little w value = le_bytes w value
order_bytes big w value = reverse (le_bytes w value)

length-le_bytes : (w v : ℕ) → length (le_bytes w v) ≡ w
unfolding le_bytes
length-le_bytes zero v = refl
length-le_bytes (suc w) v = ap suc (length-le_bytes w (v / 256))

length-reverse : (xs : List ℕ) → length (reverse xs) ≡ length xs
length-reverse [] = refl
length-reverse (x ∷ xs) =
    omega
      (arith, ap length (reverse-cons x xs), length-append (reverse xs) (x ∷ []), length-reverse xs)

le_bytes-IsByte : (w v : ℕ) → All IsByte (le_bytes w v)
unfolding le_bytes
le_bytes-IsByte zero v = tt
le_bytes-IsByte (suc w) v = (omega arith, le_bytes-IsByte w (v / 256))

All-append : (xs ys : List ℕ) → All IsByte xs → All IsByte ys → All IsByte (xs ++ ys)
All-append [] ys h k = k
All-append (x ∷ xs) ys (h, hs) k = (h, All-append xs ys hs k)

All-reverse : (xs : List ℕ) → All IsByte xs → All IsByte (reverse xs)
All-reverse [] h = h
All-reverse (x ∷ xs) (h, hs) =
    rw (reverse-cons x xs) (All-append (reverse xs) (x ∷ []) (All-reverse xs hs) (h, tt))

le_value-le_bytes : (w v : ℕ) → v < 256 ^ w → le_value (le_bytes w v) ≡ v
unfolding le_value le_bytes
le_value-le_bytes zero v h = omega arith
le_value-le_bytes (suc w) v h =
    omega (arith, le_value-le_bytes w (v / 256) (omega (arith, pow-suc 256 w)))

le_bytes-le_value : (bs : List ℕ) → All IsByte bs → le_bytes (length bs) (le_value bs) ≡ bs
unfolding le_value le_bytes
le_bytes-le_value [] h = refl
le_bytes-le_value (b ∷ bs) (h, hs) =
    let low : (b + 256 * le_value bs) % 256 ≡ b = omega arith in
    let high : (b + 256 * le_value bs) / 256 ≡ le_value bs = omega arith in
    rw (low, high, le_bytes-le_value bs hs)

byteswap_bytes : (w v : ℕ) → le_bytes w (byteswap w v) ≡ reverse (le_bytes w v)
unfolding byteswap
byteswap_bytes w v =
    let back = reverse (le_bytes w v) in
    let len : length back ≡ w = length-reverse (le_bytes w v) ∙ length-le_bytes w v in
    ap (λ k. le_bytes k (le_value back)) (sym len)
    ∙ le_bytes-le_value back (All-reverse (le_bytes w v) (le_bytes-IsByte w v))

pub byteswap_twice : (w v : ℕ) → v < 256 ^ w → byteswap w (byteswap w v) ≡ v
unfolding byteswap
byteswap_twice w v h =
    ap (λ bs. le_value (reverse bs)) (byteswap_bytes w v)
    ∙ ap le_value (reverse-reverse (le_bytes w v))
    ∙ le_value-le_bytes w v h

store-order :
    (order host : Endian) (w value : ℕ)
    → store host w (if same_order order host then value else byteswap w value)
      ≡ order_bytes order w value
unfolding store order_bytes
store-order little little w value = refl
store-order little big w value =
    ap reverse (byteswap_bytes w value) ∙ reverse-reverse (le_bytes w value)
store-order big little w value = byteswap_bytes w value
store-order big big w value = refl

load-order :
    (order host : Endian) (w value : ℕ)
    → value < 256 ^ w
    → (let v = load host (order_bytes order w value) in
        if same_order order host then v else byteswap w v)
      ≡ value
unfolding load order_bytes byteswap
load-order little little w value h = le_value-le_bytes w value h
load-order little big w value h = byteswap_twice w value h
load-order big little w value h = byteswap_twice w value h
load-order big big w value h =
    ap le_value (reverse-reverse (le_bytes w value)) ∙ le_value-le_bytes w value h

length-order_bytes : (order : Endian) (w value : ℕ) → length (order_bytes order w value) ≡ w
unfolding order_bytes
length-order_bytes little w value = length-le_bytes w value
length-order_bytes big w value = length-reverse (le_bytes w value) ∙ length-le_bytes w value

-- On every machine, the bytes handed to `write` are those of the byte order that was chosen.
pub write_fixed-order_bytes :
    (host : Endian) (w value : ℕ) (s : ByteArray)
    → write_fixed host w value s ≡ write (order_bytes s.endian w value) s
unfolding write_fixed
write_fixed-order_bytes host w value s = ap (λ bs. write bs s) (store-order s.endian host w value)

read_fixed_of :
    (host : Endian) (w : ℕ) (s t : ByteArray) (bs : List ℕ)
    → read w s ≡ ok (bs, t)
    → read_fixed host w s
      ≡ ok (let v = load host bs in if same_order t.endian host then v else byteswap w v, t)
unfolding read_fixed
read_fixed_of host w s t bs e = rw e

-- What lies ahead in the chosen byte order is read as its value.
pub read_fixed-Ahead :
    (host : Endian) (w value : ℕ) (s : ByteArray) (rest : List ℕ)
    → 1 ≤ w
    → value < 256 ^ w
    → Ahead s (order_bytes s.endian w value ++ rest)
    → (t : ByteArray) × (read_fixed host w s ≡ ok (value, t)) × Ahead t rest × (t.endian ≡ s.endian)
read_fixed-Ahead host w value s rest one h a =
    let len = length-order_bytes s.endian w value in
    let (t, e, ahead, endian) =
      read-Ahead s (order_bytes s.endian w value) rest (omega (arith, len)) a in
    (
      t,
      read_fixed_of host w s t _ (ap (λ n. read n s) (sym len) ∙ e)
          ∙ ap (λ o. ok (swapped o, t)) endian
          ∙ ap (λ v. ok (v, t)) (load-order s.endian host w value h),
      ahead,
      endian,
    )
  where
    swapped : Endian → ℕ
    swapped o =
        let v = load host (order_bytes s.endian w value) in
        if same_order o host then v else byteswap w v

-- Every integer of `w` bytes that was written is read back, on every machine and in either byte order;
-- what lay behind it lies ahead.
pub read_fixed-write_fixed :
    (host : Endian) (w value : ℕ) (s : ByteArray)
    → IsValid s
    → 1 ≤ w
    → value < 256 ^ w
    → (t : ByteArray) × ((write_fixed host w value s
          >>= set_position s.position
          >>= read_fixed host w)
        ≡ ok (value, t))
      × Ahead t (drop (s.position + w) (view s).contents)
      × (t.endian ≡ s.endian)
read_fixed-write_fixed host w value s v one h =
    let bytes : List ℕ = order_bytes s.endian w value in
    let (u, e, ahead, endian, at) = rewind-Ahead (order_bytes s.endian w value) s v in
    let behind = drop (s.position + length (order_bytes s.endian w value)) (view s).contents in
    let (t, e', ahead', endian') =
      read_fixed-Ahead host w value u behind one h
        (subst (λ o. Ahead u (order_bytes o w value ++ behind)) (sym endian) ahead) in
    (
      t,
      rw (write_fixed-order_bytes host w value s, e) e',
      subst (λ n. Ahead t (drop (s.position + n) (view s).contents))
          (length-order_bytes s.endian w value) ahead',
      endian' ∙ endian,
    )
