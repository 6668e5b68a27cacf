-- ===== src/Base/Division.antt =====
-- Division by a variable: facts that linear arithmetic does not reach.
use Prim.Native.Nat.{ℕ, suc, ◌+◌, ◌-◌, ◌*◌, ◌/◌, ◌≤◌, ◌<◌}
use mathlib.Core.Path.{◌≡◌}
use native.Mathlib.Nat.{div-lt_iff_lt-mul, div-eq_of_lt-le, lt-div-mul-add}
use native.Mathlib.Omega.{arith}

pub div-lt : (b n c : ℕ) → 0 < b → n < c * b → n / b < c
div-lt b n c p h = (div-lt_iff_lt-mul p).1 h

pub div_unique : (b q n : ℕ) → q * b ≤ n → n < suc q * b → n / b ≡ q
div_unique b q n lo hi = div-eq_of_lt-le b lo (omega (arith, hi))

pub div-mul_self : (b c : ℕ) → 0 < b → c * b / b ≡ c
div-mul_self b c p = div_unique b c (c * b) (omega arith) (omega arith)

-- ceil(a / b)
abbrev pub ceil_div : ℕ → ℕ → ℕ
ceil_div a b = (a + b - 1) / b

-- Rounding up loses nothing.
pub le-ceil_div : (a b : ℕ) → 0 < b → a ≤ ceil_div a b * b
le-ceil_div a b p = omega (arith, lt-div-mul-add {a = a + b - 1} p)

pub ceil_div_pos : (a b : ℕ) → 0 < a → 0 < b → 1 ≤ ceil_div a b
ceil_div_pos a b h p = grind (arith, le-ceil_div a b p)
