-- ===== src/Address/Print/Short.antt =====
-- sylar/address.cc, IPv6Address::insert: the text of the groups.
use mathlib.Core.Path.{subst}
use sylar_from_scratch.Base.{
  ℕ, zero, suc, Bool, true, false, not, ◌&&◌, List, [], ◌∷◌, ◌++◌, Option, some, none, ◌==◌,
  if◌then◌else◌, maybe, is_some, replicate, ◌≡◌, refl, sym, ap, ◌∙◌, inl, inr, All, Bool-cases,
  ==→eq, append_assoc, append-nil,
}
use sylar_from_scratch.Base.Bytes.{Text}
use sylar_from_scratch.Address.Print.{print_groups, last_is_zero, print_address}

abbrev IsNonzero : ℕ → Type 0
IsNonzero g = (g == 0) ≡ false

abbrev StartsNonzero : List ℕ → Type 0
StartsNonzero [] = Unit
StartsNonzero (g ∷ gs) = IsNonzero g

-- Groups as a text, with colons between them.
unfoldable pub join : (ℕ → Text) → List ℕ → Text
join hex [] = []
join hex (g ∷ []) = hex g
join hex (g ∷ h ∷ gs) = hex g ++ 58 ∷ join hex (h ∷ gs)

-- The text of groups: all of them if none is zero, or those before the first run of zeros, two colons,
-- and those behind it.
pub data Shown (hex : ℕ → Text) : List ℕ → Text → Type 0 where
  whole : (gs : List ℕ) → All IsNonzero gs → Shown hex gs (join hex gs)
  short :
      (before : List ℕ) (n : ℕ) (after : List ℕ)
      → All IsNonzero before
      → StartsNonzero after
      → Shown hex
          (before ++ (replicate (suc n) 0 ++ after))
          (join hex before ++ 58 ∷ 58 ∷ join hex after)

-- The same without the text.
data Parts : List ℕ → Type 0 where
  all_of : (gs : List ℕ) → All IsNonzero gs → Parts gs
  with_zeros :
      (before : List ℕ) (n : ℕ) (after : List ℕ)
      → All IsNonzero before
      → StartsNonzero after
      → Parts (before ++ (replicate (suc n) 0 ++ after))

data Run : List ℕ → Type 0 where
  run : (n : ℕ) (after : List ℕ) → StartsNonzero after → Run (replicate n 0 ++ after)

Run-cons : (gs : List ℕ) → Run gs → Run (0 ∷ gs)
Run-cons _ (run n after h) = run (suc n) after h

Run-of : (gs : List ℕ) → Run gs
Run-of [] = run 0 [] tt
Run-of (g ∷ gs) = elim (Bool-cases (g == 0)) [
  | inl t ↦ rw (==→eq g 0 t) (Run-cons gs (Run-of gs))
  | inr f ↦ run 0 (g ∷ gs) f
]

Parts-zero : (gs : List ℕ) → Run gs → Parts (0 ∷ gs)
Parts-zero _ (run n after h) = with_zeros [] n after tt h

Parts-cons : (g : ℕ) (gs : List ℕ) → IsNonzero g → Parts gs → Parts (g ∷ gs)
Parts-cons g _ f (all_of gs h) = all_of (g ∷ gs) (f, h)
Parts-cons g _ f (with_zeros before n after h k) = with_zeros (g ∷ before) n after (f, h) k

Parts-of : (gs : List ℕ) → Parts gs
Parts-of [] = all_of [] tt
Parts-of (g ∷ gs) = elim (Bool-cases (g == 0)) [
  | inl t ↦ rw (==→eq g 0 t) (Parts-zero gs (Run-of gs))
  | inr f ↦ Parts-cons g gs f (Parts-of gs)
]

and-false : (b : Bool) → (b && false) ≡ false
and-false true = refl
and-false false = refl

module _ (hex : ℕ → Text) where
  -- Groups behind another one, each with a colon.
  tail : List ℕ → Text
  tail [] = []
  tail (g ∷ gs) = 58 ∷ hex g ++ tail gs

  hex-tail : (g : ℕ) (gs : List ℕ) → hex g ++ tail gs ≡ join hex (g ∷ gs)
  unfolding tail join
  hex-tail g [] = append-nil (hex g)
  hex-tail g (h ∷ gs) = ap (λ t. hex g ++ 58 ∷ t) (hex-tail h gs)

  -- Behind the two colons.
  print_used : (b : ℕ) (gs : List ℕ) → print_groups hex (some b) true gs ≡ (tail gs, true)
  unfolding print_groups tail
  print_used b [] = refl
  print_used b (g ∷ gs) = rw (and-false (g == 0), and-false (b == 0), print_used g gs) refl

  -- In a run of zeros.
  print_zeros :
      (n : ℕ) (after : List ℕ)
      → StartsNonzero after
      → print_groups hex (some 0) false (replicate n 0 ++ after)
        ≡ print_groups hex (some 0) false after
  unfolding print_groups
  print_zeros zero after h = refl
  print_zeros (suc n) after h = print_zeros n after h

  print_behind :
      (g : ℕ) (gs : List ℕ)
      → IsNonzero g
      → print_groups hex (some 0) false (g ∷ gs) ≡ (58 ∷ 58 ∷ join hex (g ∷ gs), true)
  unfolding print_groups
  print_behind g gs f = rw (f, print_used g gs, hex-tail g gs) refl

  -- The group before the next one, after some more groups.
  last_of : Option ℕ → List ℕ → Option ℕ
  last_of b [] = b
  last_of b (g ∷ gs) = last_of (some g) gs

  -- No colon is due for a zero before the next group.
  abbrev IsFree : Option ℕ → Type 0
  IsFree b = maybe false (λ g. g == 0) b ≡ false

  -- Groups without a zero, behind an optional one.
  groups_behind : Option ℕ → List ℕ → Text
  groups_behind none gs = join hex gs
  groups_behind (some b) gs = tail gs

  groups_behind-cons :
      (b : Option ℕ) (g : ℕ) (gs : List ℕ)
      → groups_behind b (g ∷ gs) ≡ (if is_some b then 58 ∷ [] else []) ++ hex g ++ tail gs
  unfolding groups_behind tail
  groups_behind-cons none g gs = sym (hex-tail g gs)
  groups_behind-cons (some b) g gs = refl

  due : (b : Option ℕ) → IsFree b → maybe false (λ g. g == 0 && not false) b ≡ false
  due none h = refl
  due (some g) h = ap (λ t. t && true) h

  one_group :
      (b : Option ℕ) (g : ℕ) (gs : List ℕ)
      → IsFree b
      → IsNonzero g
      → print_groups hex b false (g ∷ gs) ≡ (
          let (text, used) = print_groups hex (some g) false gs in
          ((if is_some b then 58 ∷ [] else []) ++ hex g ++ text, used))
  unfolding print_groups
  one_group b g gs h f = rw (f, due b h) refl

  groups_behind-nil : (b : Option ℕ) → groups_behind b [] ≡ []
  unfolding groups_behind tail join
  groups_behind-nil none = refl
  groups_behind-nil (some b) = refl

  abbrev pair_of : Text → Text × Bool → Text × Bool
  pair_of t (text, used) = (t ++ text, used)

  print_before :
      (b : Option ℕ) (before rest : List ℕ)
      → IsFree b
      → All IsNonzero before
      → print_groups hex b false (before ++ rest)
        ≡ pair_of (groups_behind b before) (print_groups hex (last_of b before) false rest)
  unfolding last_of groups_behind tail
  print_before b [] rest h k =
      ap (λ t. pair_of t (print_groups hex b false rest)) (sym (groups_behind-nil b))
  print_before b (g ∷ gs) rest h (f, k) =
      let colon = if is_some b then 58 ∷ [] else [] in
      let (text, used) = print_groups hex (last_of (some g) gs) false rest in
      one_group b g (gs ++ rest) h f
      ∙ ap (λ (p : Text × Bool). (colon ++ hex g ++ p.0, p.1)) (print_before (some g) gs rest f k)
      ∙ ap (λ t. (t, used))
          (sym (append_assoc (colon ++ hex g) (tail gs) text)
            ∙ ap (λ t. t ++ text) (sym (groups_behind-cons b g gs)))

  not_last : (gs : List ℕ) → All IsNonzero gs → last_is_zero gs ≡ false
  unfolding last_is_zero
  not_last [] h = refl
  not_last (g ∷ []) (f, h) = f
  not_last (g ∷ k ∷ gs) (f, h) = not_last (k ∷ gs) h

  last_zeros :
      (before : List ℕ) (n : ℕ) → last_is_zero (before ++ (replicate (suc n) 0 ++ [])) ≡ true
  unfolding last_is_zero
  last_zeros [] zero = refl
  last_zeros [] (suc n) = last_zeros [] n
  last_zeros (g ∷ []) n = last_zeros [] n
  last_zeros (g ∷ h ∷ gs) n = last_zeros (h ∷ gs) n

  finished :
      (gs : List ℕ) (text : Text) (used : Bool)
      → print_groups hex none false gs ≡ (text, used)
      → print_address hex gs ≡ text ++ (if not used && last_is_zero gs then 58 ∷ 58 ∷ [] else [])
  unfolding print_address
  finished gs text used e = rw e refl

  skip_zero :
      (b : Option ℕ) (gs : List ℕ)
      → print_groups hex b false (0 ∷ gs) ≡ print_groups hex (some 0) false gs
  unfolding print_groups
  skip_zero b gs = refl

  print_whole : (gs : List ℕ) → All IsNonzero gs → print_address hex gs ≡ join hex gs
  unfolding print_groups groups_behind
  print_whole gs h =
      let groups = print_before none gs [] refl h in
      finished gs (join hex gs ++ []) false
        (ap (print_groups hex none false) (sym (append-nil gs)) ∙ groups)
      ∙ ap (λ z. (join hex gs ++ []) ++ (if z then 58 ∷ 58 ∷ [] else [])) (not_last gs h)
      ∙ append-nil (join hex gs ++ [])
      ∙ append-nil (join hex gs)

  -- The groups from the first zero on.
  print_zeros_from :
      (before : List ℕ) (n : ℕ) (after : List ℕ)
      → All IsNonzero before
      → StartsNonzero after
      → print_groups hex none false (before ++ (replicate (suc n) 0 ++ after))
        ≡ pair_of (join hex before) (print_groups hex (some 0) false after)
  unfolding groups_behind
  print_zeros_from before n after h k =
      print_before none before (replicate (suc n) 0 ++ after) refl h
      ∙ ap (pair_of (join hex before))
          (skip_zero (last_of none before) (replicate n 0 ++ after) ∙ print_zeros n after k)

  print_short :
      (before : List ℕ) (n : ℕ) (after : List ℕ)
      → All IsNonzero before
      → StartsNonzero after
      → print_address hex (before ++ (replicate (suc n) 0 ++ after))
        ≡ join hex before ++ 58 ∷ 58 ∷ join hex after
  unfolding print_groups join
  print_short before n [] h k =
      let gs = before ++ (replicate (suc n) 0 ++ []) in
      finished gs (join hex before ++ []) false (print_zeros_from before n [] h k)
      ∙ ap (λ z. (join hex before ++ []) ++ (if z then 58 ∷ 58 ∷ [] else [])) (last_zeros before n)
      ∙ ap (λ t. t ++ 58 ∷ 58 ∷ []) (append-nil (join hex before))
  print_short before n (g ∷ after) h k =
      let text = 58 ∷ 58 ∷ join hex (g ∷ after) in
      finished (before ++ (replicate (suc n) 0 ++ g ∷ after)) (join hex before ++ text) true (
        print_zeros_from before n (g ∷ after) h k
        ∙ ap (pair_of (join hex before)) (print_behind g after k))
      ∙ append-nil (join hex before ++ text)

  shown_parts : (gs : List ℕ) → Parts gs → Shown hex gs (print_address hex gs)
  shown_parts _ (all_of gs h) = subst (λ t. Shown hex gs t) (sym (print_whole gs h)) (whole gs h)
  shown_parts _ (with_zeros before n after h k) =
      subst (λ t. Shown hex (before ++ (replicate (suc n) 0 ++ after)) t)
        (sym (print_short before n after h k)) (short before n after h k)

  -- IPv6Address::insert writes all groups with colons between them if none is zero, and otherwise the
  -- groups before the first run of zeros, two colons, and the groups behind that run.
  pub print_address_lem : (gs : List ℕ) → Shown hex gs (print_address hex gs)
  print_address_lem gs = shown_parts gs (Parts-of gs)
