-- ===== src/Address/Swap.antt =====
-- sylar/endian.h, byteswap of four bytes: it commutes with the bitwise operations of masks.
use sylar_from_scratch.Base.{ℕ, ◌+◌, ◌*◌, ◌/◌, ◌%◌, ◌^◌, ◌<◌, ◌≡◌, sym, ap, ap₂, ◌∙◌, arith}
use sylar_from_scratch.Base.Join.{Bitwise, op_join, op_below}
use sylar_from_scratch.ByteArray.Codec.{le_bytes, le_value, byteswap}

-- Four bytes, the lowest first.
abbrev quad : ℕ → ℕ → ℕ → ℕ → ℕ
quad a b c d = a + (b + (c + d * 2 ^ 8) * 2 ^ 8) * 2 ^ 8

quad_eq :
    (v : ℕ)
    → v < 2 ^ 32
    → v ≡ quad (v % 256) (v / 256 % 256) (v / 256 / 256 % 256) (v / 256 / 256 / 256 % 256)
quad_eq v h = omega arith

byteswap_eq :
    (v : ℕ)
    → byteswap 4 v
      ≡ quad (v / 256 / 256 / 256 % 256) (v / 256 / 256 % 256) (v / 256 % 256) (v % 256)
unfolding byteswap le_bytes le_value
byteswap_eq v = omega arith

byteswap-quad :
    (a b c d : ℕ) → a < 256 → b < 256 → c < 256 → d < 256 → byteswap 4 (quad a b c d) ≡ quad d c b a
byteswap-quad a b c d h i j k =
    let v = quad a b c d in
    let v0 : v % 256 ≡ a = omega arith in
    let v1 : v / 256 % 256 ≡ b = omega arith in
    let v2 : v / 256 / 256 % 256 ≡ c = omega arith in
    let v3 : v / 256 / 256 / 256 % 256 ≡ d = omega arith in
    omega (arith, byteswap_eq v, v0, v1, v2, v3)

pub byteswap-below : (v : ℕ) → byteswap 4 v < 2 ^ 32
byteswap-below v = omega (arith, byteswap_eq v)

module _ (F : Bitwise) where
  open F use {op}

  op-quad :
      (a b c d a' b' c' d' : ℕ)
      → a < 256
      → b < 256
      → c < 256
      → a' < 256
      → b' < 256
      → c' < 256
      → op (quad a b c d) (quad a' b' c' d') ≡ quad (op a a') (op b b') (op c c') (op d d')
  op-quad a b c d a' b' c' d' ha hb hc ha' hb' hc' = omega (
    arith,
    op_join F 8 (b + (c + d * 2 ^ 8) * 2 ^ 8) a (b' + (c' + d' * 2 ^ 8) * 2 ^ 8) a' ha ha',
    op_join F 8 (c + d * 2 ^ 8) b (c' + d' * 2 ^ 8) b' hb hb',
    op_join F 8 d c d' c' hc hc',
  )

  pub byteswap-op :
      (x y : ℕ) → x < 2 ^ 32 → y < 2 ^ 32 → byteswap 4 (op x y) ≡ op (byteswap 4 x) (byteswap 4 y)
  byteswap-op x y h k =
      let x0 = x % 256 in
      let x1 = x / 256 % 256 in
      let x2 = x / 256 / 256 % 256 in
      let x3 = x / 256 / 256 / 256 % 256 in
      let y0 = y % 256 in
      let y1 = y / 256 % 256 in
      let y2 = y / 256 / 256 % 256 in
      let y3 = y / 256 / 256 / 256 % 256 in
      let below = λ (p : ℕ) (q : ℕ) (hp : p < 256) (hq : q < 256). op_below F 8 p q hp hq in
      ap₂ (λ a b. byteswap 4 (op a b)) (quad_eq x h) (quad_eq y k)
      ∙ ap (byteswap 4) (
          op-quad x0 x1 x2 x3 y0 y1 y2 y3 (omega arith) (omega arith) (omega arith) (omega arith)
            (omega arith) (omega arith))
      ∙ byteswap-quad (op x0 y0) (op x1 y1) (op x2 y2) (op x3 y3)
          (below x0 y0 (omega arith) (omega arith)) (below x1 y1 (omega arith) (omega arith))
          (below x2 y2 (omega arith) (omega arith)) (below x3 y3 (omega arith) (omega arith))
      ∙ sym (
          op-quad x3 x2 x1 x0 y3 y2 y1 y0 (omega arith) (omega arith) (omega arith) (omega arith)
            (omega arith) (omega arith))
      ∙ sym (ap₂ op (byteswap_eq x) (byteswap_eq y))
