-- ===== src/Base/Bytes.antt =====
-- Statements about all bytes, by evaluation, and the equality of texts.
use Prim.Native.Char.{code}
use Prim.Native.String.{String}
use Prim.Native.Nat.{ℕ, zero, suc, ◌<◌}
use mathlib.Core.Path.{◌≡◌, refl, sym, ap, ap₂, ◌∙◌}
use mathlib.Core.Bool.{Bool, true, false, not, ◌&&◌, false≢true}
use mathlib.Core.Logic.{inl, inr}
use mathlib.Core.List.{List, [], ◌∷◌}
use sylar_from_scratch.Base.Tests.{◌==◌, ==→eq, eq→==, Bool-cases}
use native.Mathlib.Omega.{arith}

unfoldable pub all_below : ℕ → (ℕ → Bool) → Bool
all_below zero p = true
all_below (suc n) p = p n && all_below n p

pub all_below_lem : (n : ℕ) (p : ℕ → Bool) (x : ℕ) → all_below n p ≡ true → x < n → p x ≡ true
unfolding all_below
all_below_lem zero p x h lt = absurd (omega arith)
all_below_lem (suc n) p x h lt = ground (arith, all_below_lem n p x)

abbrev pub Text : Type 0
Text = List ℕ

-- The bytes of an ASCII literal.
abbrev pub codes : String → Text
codes String.[] = []
codes (String.◌∷◌ c s) = code c ∷ codes s

-- `==` of std::string.
unfoldable pub same : Text → Text → Bool
same [] [] = true
same [] (b ∷ bs) = false
same (a ∷ as') [] = false
same (a ∷ as') (b ∷ bs) = (a == b) && same as' bs

pub same_refl : (a : Text) → same a a ≡ true
unfolding same
same_refl [] = refl
same_refl (x ∷ xs) = rw (eq→== x x refl, same_refl xs)

pub same-eq : (a b : Text) → same a b ≡ true → a ≡ b
unfolding same
same-eq [] [] e = refl
same-eq [] (b ∷ bs) e = absurd (false≢true e)
same-eq (a ∷ as') [] e = absurd (false≢true e)
same-eq (a ∷ as') (b ∷ bs) e = elim (Bool-cases (a == b)) [
  | inl t ↦
      ap₂ (λ x xs. x ∷ xs) (==→eq a b t) (same-eq as' bs (sym (ap (λ z. z && same as' bs) t) ∙ e))
  | inr f ↦ absurd (false≢true (sym (ap (λ z. z && same as' bs) f) ∙ e))
]

pub same-left : (a b c : Text) → same a b ≡ true → same a c ≡ same b c
same-left a b c e = ap (λ z. same z c) (same-eq a b e)

pub same-false : (a b : Text) → same a b ≡ false → same b a ≡ false
same-false a b e = elim (Bool-cases (same b a)) [
  | inl t ↦ absurd (false≢true (sym e ∙ sym (same-left b a b t) ∙ same_refl b))
  | inr f ↦ f
]

-- A text without the byte `d`.
unfoldable pub avoids : ℕ → Text → Bool
avoids d [] = true
avoids d (x ∷ str) = not (x == d) && avoids d str

pub and-split : (a b : Bool) → (a && b) ≡ true → (a ≡ true) × (b ≡ true)
and-split true b e = (refl, e)
and-split false b e = absurd (false≢true e)

pub not-split : (a : Bool) → not a ≡ true → a ≡ false
not-split true e = sym e
not-split false e = refl
