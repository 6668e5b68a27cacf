-- ===== src/Base/Lists.antt =====
-- Lists measured by native numbers, under the library's names, and the two accesses to a block
-- of memory: reading a range and overwriting a range.
use Prim.Native.Nat.{ℕ, zero, suc, ◌+◌, ◌-◌, ◌≤◌, max}
use mathlib.Core.Path.{◌≡◌, refl, sym, ap}
use mathlib.Core.List.{List, [], ◌∷◌, ◌++◌}
use mathlib.Core.Option.{Option, none, some}
use native.Mathlib.Omega.{arith}

module _ {ℓ} {A : Type ℓ} where
  abbrev pub length : List A → ℕ
  length [] = 0
  length (x ∷ xs) = suc (length xs)

  abbrev pub All {κ} : (A → Type κ) → List A → Type κ
  All P [] = Unit
  All P (x ∷ xs) = P x × All P xs

  abbrev pub get_elem? : List A → ℕ → Option A
  get_elem? [] i = none
  get_elem? (x ∷ xs) zero = some x
  get_elem? (x ∷ xs) (suc i) = get_elem? xs i

  abbrev pub set : List A → ℕ → A → List A
  set [] i v = []
  set (x ∷ xs) zero v = v ∷ xs
  set (x ∷ xs) (suc i) v = x ∷ set xs i v

  abbrev pub take : ℕ → List A → List A
  take zero xs = []
  take (suc n) [] = []
  take (suc n) (x ∷ xs) = x ∷ take n xs

  abbrev pub drop : ℕ → List A → List A
  drop zero xs = xs
  drop (suc n) [] = []
  drop (suc n) (x ∷ xs) = drop n xs

  abbrev pub replicate : ℕ → A → List A
  replicate zero a = []
  replicate (suc n) a = a ∷ replicate n a

  abbrev pub flatten : List (List A) → List A
  flatten [] = []
  flatten (xs ∷ xss) = xs ++ flatten xss

  -- What stays of `xs` when `buf` is copied over it from index `i` on; bytes past the end are lost.
  pub overwrite : List A → ℕ → List A → List A
  overwrite [] i buf = []
  overwrite (x ∷ xs) (suc i) buf = x ∷ overwrite xs i buf
  overwrite (x ∷ xs) zero [] = x ∷ xs
  overwrite (x ∷ xs) zero (b ∷ buf) = b ∷ overwrite xs zero buf

  -- `n` elements of `xs` from index `i` on.
  abbrev pub slice : List A → ℕ → ℕ → List A
  slice xs i n = take n (drop i xs)

module _ {ℓ} {A : Type ℓ} where
  pub length-append : (xs ys : List A) → length (xs ++ ys) ≡ length xs + length ys
  length-append [] ys = omega arith
  length-append (x ∷ xs) ys = omega (arith, length-append xs ys)

  pub length-drop : (n : ℕ) (xs : List A) → length (drop n xs) ≡ length xs - n
  length-drop zero xs = omega arith
  length-drop (suc n) [] = omega arith
  length-drop (suc n) (x ∷ xs) = omega (arith, length-drop n xs)

  pub length-take : (n : ℕ) (xs : List A) → n ≤ length xs → length (take n xs) ≡ n
  length-take zero xs h = refl
  length-take (suc n) [] h = absurd (omega arith)
  length-take (suc n) (x ∷ xs) h = omega (arith, length-take n xs)

  pub length-replicate : (n : ℕ) (a : A) → length (replicate n a) ≡ n
  length-replicate zero a = refl
  length-replicate (suc n) a = ap suc (length-replicate n a)

  pub length-overwrite :
      (xs : List A) (i : ℕ) (buf : List A) → length (overwrite xs i buf) ≡ length xs
  unfolding overwrite
  length-overwrite [] i buf = refl
  length-overwrite (x ∷ xs) (suc i) buf = ap suc (length-overwrite xs i buf)
  length-overwrite (x ∷ xs) zero [] = refl
  length-overwrite (x ∷ xs) zero (b ∷ buf) = ap suc (length-overwrite xs zero buf)

  pub take_all : (n : ℕ) (xs : List A) → length xs ≤ n → take n xs ≡ xs
  take_all zero [] h = refl
  take_all zero (x ∷ xs) h = absurd (omega arith)
  take_all (suc n) [] h = refl
  take_all (suc n) (x ∷ xs) h = ap (◌∷◌ x) (take_all n xs (omega arith))

  pub drop_all : (n : ℕ) (xs : List A) → length xs ≤ n → drop n xs ≡ []
  drop_all zero [] h = refl
  drop_all zero (x ∷ xs) h = absurd (omega arith)
  drop_all (suc n) [] h = refl
  drop_all (suc n) (x ∷ xs) h = drop_all n xs (omega arith)

  pub take_nil : (n : ℕ) → take n (let e : List A = [] in e) ≡ []
  take_nil zero = refl
  take_nil (suc n) = refl

  pub take-append_self : (xs ys : List A) → take (length xs) (xs ++ ys) ≡ xs
  take-append_self [] ys = refl
  take-append_self (x ∷ xs) ys = ap (◌∷◌ x) (take-append_self xs ys)

  pub drop-append_self : (xs ys : List A) → drop (length xs) (xs ++ ys) ≡ ys
  drop-append_self [] ys = refl
  drop-append_self (x ∷ xs) ys = drop-append_self xs ys

  pub overwrite-nil : (xs : List A) (i : ℕ) → overwrite xs i [] ≡ xs
  unfolding overwrite
  overwrite-nil [] i = refl
  overwrite-nil (x ∷ xs) zero = refl
  overwrite-nil (x ∷ xs) (suc i) = ap (◌∷◌ x) (overwrite-nil xs i)

  -- A copy across the border of two blocks is a copy into each.
  pub overwrite-append :
      (xs ys : List A) (i : ℕ) (buf : List A)
      → i ≤ length xs
      → overwrite (xs ++ ys) i buf
        ≡ overwrite xs i (take (length xs - i) buf) ++ overwrite ys 0 (drop (length xs - i) buf)
  unfolding overwrite
  overwrite-append [] ys zero buf h = refl
  overwrite-append [] ys (suc i) buf h = absurd (omega arith)
  overwrite-append (x ∷ xs) ys (suc i) buf h =
      let e : length (x ∷ xs) - suc i ≡ length xs - i = omega arith in
      rw e (ap (◌∷◌ x) (overwrite-append xs ys i buf (omega arith)))
  overwrite-append (x ∷ xs) ys zero [] h =
      let e : length (x ∷ xs) - 0 ≡ suc (length xs) = omega arith in
      rw e (ap (◌∷◌ x) (ap (◌++◌ xs) (sym (overwrite-nil ys 0))))
  overwrite-append (x ∷ xs) ys zero (b ∷ buf) h =
      let e : length (x ∷ xs) - 0 ≡ suc (length xs - 0) = omega arith in
      rw e (ap (◌∷◌ b) (overwrite-append xs ys zero buf (omega arith)))

  pub slice-append :
      (xs ys : List A) (i n : ℕ)
      → i ≤ length xs
      → slice (xs ++ ys) i n ≡ take n (drop i xs) ++ take (n - (length xs - i)) ys
  slice-append [] ys zero n h = let e : n - (0 - 0) ≡ n = omega arith in rw (e, take_nil n)
  slice-append [] ys (suc i) n h = absurd (omega arith)
  slice-append (x ∷ xs) ys (suc i) n h =
      let e : length (x ∷ xs) - suc i ≡ length xs - i = omega arith in
      rw e (slice-append xs ys i n (omega arith))
  slice-append (x ∷ xs) ys zero zero h = let e : 0 - (length (x ∷ xs) - 0) ≡ 0 = omega arith in rw e
  slice-append (x ∷ xs) ys zero (suc n) h =
      let e : suc n - (length (x ∷ xs) - 0) ≡ n - (length xs - 0) = omega arith in
      rw e (ap (◌∷◌ x) (slice-append xs ys zero n (omega arith)))

  -- What was written is read back.
  pub slice-overwrite :
      (xs : List A) (i : ℕ) (buf : List A)
      → i + length buf ≤ length xs
      → slice (overwrite xs i buf) i (length buf) ≡ buf
  unfolding overwrite
  slice-overwrite [] i [] h = refl
  slice-overwrite [] i (b ∷ buf) h = absurd (omega arith)
  slice-overwrite (x ∷ xs) (suc i) buf h = slice-overwrite xs i buf (omega arith)
  slice-overwrite (x ∷ xs) zero [] h = refl
  slice-overwrite (x ∷ xs) zero (b ∷ buf) h = ap (◌∷◌ b) (slice-overwrite xs zero buf (omega arith))

  drop-nil : (n : ℕ) → drop n (let e : List A = [] in e) ≡ []
  drop-nil zero = refl
  drop-nil (suc n) = refl

  -- Overwriting memory from inside its first `n` cells on, as a splice of those cells.
  pub take-overwrite :
      (xs buf : List A) (i n m : ℕ)
      → m ≡ max (i + length buf) n
      → i ≤ n
      → n ≤ length xs
      → i + length buf ≤ length xs
      → take m (overwrite xs i buf) ≡ take i (take n xs) ++ buf ++ drop (i + length buf) (take n xs)
  unfolding overwrite
  take-overwrite [] (b ∷ buf) i n m e h k room = absurd (omega arith)
  take-overwrite [] [] (suc i) n m e h k room = absurd (omega arith)
  take-overwrite [] [] zero n m e h k room = rw (take_nil m, take_nil n)
  take-overwrite (x ∷ xs) [] zero n m e h k room = let same : m ≡ n = omega arith in rw same
  take-overwrite (x ∷ xs) (b ∷ buf) zero n zero e h k room = absurd (omega arith)
  take-overwrite (x ∷ xs) (b ∷ buf) zero zero (suc m) e h k room =
      let z : 0 + length buf ≡ length buf = omega arith in
      let ih = take-overwrite xs buf zero zero m (omega arith) h (omega arith) (omega arith) in
      let s : 0 + suc (length buf) ≡ suc (length buf) = omega arith in
      rw s (ap (◌∷◌ b) (rw (z, drop-nil (length buf)) at ih))
  take-overwrite (x ∷ xs) (b ∷ buf) zero (suc n) (suc m) e h k room =
      let z : 0 + length buf ≡ length buf = omega arith in
      let ih =
        take-overwrite xs buf zero n m (omega arith) (omega arith) (omega arith) (omega arith) in
      let s : 0 + suc (length buf) ≡ suc (length buf) = omega arith in
      rw s (ap (◌∷◌ b) (rw z at ih))
  take-overwrite (x ∷ xs) buf (suc i) zero m e h k room = absurd (omega arith)
  take-overwrite (x ∷ xs) buf (suc i) (suc n) zero e h k room = absurd (omega arith)
  take-overwrite (x ∷ xs) buf (suc i) (suc n) (suc m) e h k room =
      let s : suc i + length buf ≡ suc (i + length buf) = omega arith in
      rw s (
        ap (◌∷◌ x)
          (take-overwrite xs buf i n m (omega arith) (omega arith) (omega arith) (omega arith)))

  pub slice-take : (xs : List A) (i m n : ℕ) → i + m ≤ n → slice (take n xs) i m ≡ slice xs i m
  slice-take [] i m n h = rw (take_nil n)
  slice-take (x ∷ xs) zero zero n h = refl
  slice-take (x ∷ xs) zero (suc m) zero h = absurd (omega arith)
  slice-take (x ∷ xs) (suc i) m zero h = absurd (omega arith)
  slice-take (x ∷ xs) zero (suc m) (suc n) h = ap (◌∷◌ x) (slice-take xs zero m n (omega arith))
  slice-take (x ∷ xs) (suc i) m (suc n) h = slice-take xs i m n (omega arith)

  pub overwrite-append_right :
      (xs ys : List A) (i : ℕ) (buf : List A)
      → overwrite (xs ++ ys) (length xs + i) buf ≡ xs ++ overwrite ys i buf
  unfolding overwrite
  overwrite-append_right [] ys i buf = let e : 0 + i ≡ i = omega arith in rw e
  overwrite-append_right (x ∷ xs) ys i buf =
      let e : suc (length xs) + i ≡ suc (length xs + i) = omega arith in
      rw e (ap (◌∷◌ x) (overwrite-append_right xs ys i buf))

  pub drop-append_right : (xs ys : List A) (i : ℕ) → drop (length xs + i) (xs ++ ys) ≡ drop i ys
  drop-append_right [] ys i = let e : 0 + i ≡ i = omega arith in rw e
  drop-append_right (x ∷ xs) ys i =
      let e : suc (length xs) + i ≡ suc (length xs + i) = omega arith in
      rw e (drop-append_right xs ys i)

  pub take-append_left : (n : ℕ) (xs ys : List A) → n ≤ length xs → take n (xs ++ ys) ≡ take n xs
  take-append_left zero xs ys h = refl
  take-append_left (suc n) [] ys h = absurd (omega arith)
  take-append_left (suc n) (x ∷ xs) ys h = ap (◌∷◌ x) (take-append_left n xs ys (omega arith))

  pub take-append-drop : (n : ℕ) (xs : List A) → take n xs ++ drop n xs ≡ xs
  take-append-drop zero xs = refl
  take-append-drop (suc n) [] = refl
  take-append-drop (suc n) (x ∷ xs) = ap (◌∷◌ x) (take-append-drop n xs)

  pub drop-drop : (m n : ℕ) (xs : List A) → drop (m + n) xs ≡ drop n (drop m xs)
  drop-drop m n [] = rw (drop-nil (m + n), drop-nil m, drop-nil n)
  drop-drop zero n (x ∷ xs) = let e : 0 + n ≡ n = omega arith in rw e
  drop-drop (suc m) n (x ∷ xs) =
      let e : suc m + n ≡ suc (m + n) = omega arith in rw e (drop-drop m n xs)
