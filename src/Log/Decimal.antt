-- ===== src/Log/Decimal.antt =====
-- sylar/log.cpp, the numbers that a stream prints: the digits that the loop is given are enough.
use native.Mathlib.Nat.{pow-suc}
use sylar_from_scratch.Base.{
  ℕ, zero, suc, ◌/◌, ◌%◌, ◌+◌, ◌^◌, ◌<◌, ◌≡◌, refl, ap, [], ◌∷◌, ◌++◌, ltb, lt→ltb, if◌then◌else◌,
  arith,
}
use sylar_from_scratch.Log.{decimal_loop, decimal}

-- A number of at most so many digits does not need another round.
decimal_loop-suc :
    (digits n : ℕ)
    → n < 10 ^ suc digits
    → decimal_loop (suc (suc digits)) n ≡ decimal_loop (suc digits) n
unfolding decimal_loop
decimal_loop-suc zero n h = rw (lt→ltb n 10 (omega arith)) refl
decimal_loop-suc (suc digits) n h =
    ap (λ rest. (if ltb n 10 then [] else rest) ++ (48 + n % 10) ∷ [])
      (decimal_loop-suc digits (n / 10) (omega (arith, pow-suc 10 (suc digits))))

-- A uint64_t is printed in full: with one round more the text is the same.
decimal_lem : (n : ℕ) → n < 2 ^ 64 → decimal_loop 21 n ≡ decimal n
unfolding decimal
decimal_lem n h = decimal_loop-suc 19 n (omega arith)
