-- ===== src/Servlet/Tables.antt =====
-- Lookup, assignment and erasure in a table of servlets.
use sylar_from_scratch.Base.{
  ◌≡◌, inl, inr, Bool, true, false, arith, refl, sym, ◌∙◌, [], ◌∷◌, ◌++◌, Option, none, some,
  Bool-cases, if◌then◌else◌, maybe,
}
use sylar_from_scratch.Base.Bytes.{same, same-eq, same-left, same-false}
use mathlib.Core.Option
use mathlib.Core.Path.{subst}
use sylar_from_scratch.Servlet.{
  Uri, Creator, Table, find, assign, erase, first_match, Infos, list_all,
}

-- Assignment gives the key its value and keeps the others.
pub find-assign :
    (uri key : Uri) (c : Creator) (m : Table)
    → find key (assign uri c m) ≡ (if same uri key then some c else find key m)
unfolding find assign
find-assign uri key c [] = refl
find-assign uri key c ((k, d) ∷ m) = elim (Bool-cases (same k uri)) [
  | inl t ↦ rw (t, same-left k uri key t) (ground arith)
  | inr f ↦ elim (Bool-cases (same k key)) [
    | inl t ↦ rw (f, t, same-false key uri (sym (same-left k key uri t) ∙ f)) refl
    | inr g ↦ rw (f, g, find-assign uri key c m) refl
  ]
]

pub first_match-snoc :
    (fnmatch : Uri → Uri → Bool) (path uri : Uri) (c : Creator) (m : Table)
    → first_match fnmatch path (m ++ (uri, c) ∷ []) ≡ elim (first_match fnmatch path m) [
      | some d ↦ some d
      | none ↦ if fnmatch uri path then some c else none
    ]
unfolding first_match
first_match-snoc fnmatch path uri c [] = refl
first_match-snoc fnmatch path uri c ((k, d) ∷ m) = elim (Bool-cases (fnmatch k path)) [
  | inl t ↦ rw (t) refl
  | inr f ↦ rw (f) (first_match-snoc fnmatch path uri c m)
]

pub find-snoc :
    (key uri : Uri) (c : Creator) (m : Table)
    → find key (m ++ (uri, c) ∷ [])
      ≡ elim (find key m) [ some d ↦ some d | none ↦ if same uri key then some c else none ]
unfolding find
find-snoc key uri c [] = refl
find-snoc key uri c ((k, d) ∷ m) = elim (Bool-cases (same k key)) [
  | inl t ↦ rw (t) refl
  | inr f ↦ rw (f) (find-snoc key uri c m)
]

-- No key has two entries.
unfoldable pub IsUnique : Table → Type 0
IsUnique [] = Unit
IsUnique ((key, c) ∷ m) = (find key m ≡ none) × IsUnique m

pub find-erase_other :
    (uri key : Uri) (m : Table) → same uri key ≡ false → find key (erase uri m) ≡ find key m
unfolding find erase
find-erase_other uri key [] n = refl
find-erase_other uri key ((k, d) ∷ m) n = elim (Bool-cases (same k uri)) [
  | inl t ↦ rw (t, same-left k uri key t, n) refl
  | inr f ↦ rw (f, find-erase_other uri key m n) refl
]

pub find-erase : (uri : Uri) (m : Table) → IsUnique m → find uri (erase uri m) ≡ none
unfolding find erase IsUnique
find-erase uri [] u = refl
find-erase uri ((k, d) ∷ m) (n, u) = elim (Bool-cases (same k uri)) [
  | inl t ↦ rw (t) (subst (λ z. find z m ≡ none) (same-eq k uri t) n)
  | inr f ↦ rw (f, f) (find-erase uri m u)
]

pub erase-IsUnique : (uri : Uri) (m : Table) → IsUnique m → IsUnique (erase uri m)
unfolding erase IsUnique
erase-IsUnique uri [] u = u
erase-IsUnique uri ((k, d) ∷ m) (n, u) = elim (Bool-cases (same k uri)) [
  | inl t ↦ rw (t) u
  | inr f ↦ rw (f) (find-erase_other uri k m (same-false k uri f) ∙ n, erase-IsUnique uri m u)
]

pub assign-IsUnique : (uri : Uri) (c : Creator) (m : Table) → IsUnique m → IsUnique (assign uri c m)
unfolding assign IsUnique find
assign-IsUnique uri c [] u = (refl, u)
assign-IsUnique uri c ((k, d) ∷ m) (n, u) = elim (Bool-cases (same k uri)) [
  | inl t ↦ rw (t) (n, u)
  | inr f ↦ rw (f) (find-assign uri k c m ∙ rw (same-false k uri f) n, assign-IsUnique uri c m u)
]

some_or_else-none :
    (b : Bool) (c : Creator) (o : Option Creator)
    → (if b then some c else o) ≡ none
    → (b ≡ false) × (o ≡ none)
some_or_else-none true c o e = absurd (Option.some-ne-none c e)
some_or_else-none false c o e = (refl, e)

pub snoc-IsUnique :
    (uri : Uri) (c : Creator) (m : Table)
    → find uri m ≡ none
    → IsUnique m
    → IsUnique (m ++ (uri, c) ∷ [])
unfolding IsUnique find
snoc-IsUnique uri c [] n u = (refl, u)
snoc-IsUnique uri c ((k, d) ∷ m) n (l, u) =
    let (f, n') = some_or_else-none (same k uri) d (find uri m) n in
    (find-snoc k uri c m ∙ rw (l, same-false k uri f) refl, snoc-IsUnique uri c m n' u)

-- The creators of a table take the place of what the map had for their paths.
pub list_all_lem :
    (m : Table) (infos : Infos) (uri : Uri)
    → IsUnique m
    → list_all m infos uri ≡ maybe (infos uri) some (find uri m)
unfolding list_all find IsUnique
list_all_lem [] infos uri u = refl
list_all_lem ((k, c) ∷ m) infos uri (n, u) =
    list_all_lem m (λ x. if same k x then some c else infos x) uri u
    ∙ elim (Bool-cases (same k uri)) [
      | inl t ↦
          let gone : find uri m ≡ none = subst (λ z. find z m ≡ none) (same-eq k uri t) n in
          rw (gone, t) refl
      | inr f ↦ rw (f) refl
    ]
