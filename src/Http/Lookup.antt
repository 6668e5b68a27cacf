-- ===== src/Http/Lookup.antt =====
-- Lookup in a map of headers, parameters or cookies after entries were inserted.
use sylar_from_scratch.Base.{
  ◌≡◌, refl, sym, ap, ap₂, ◌∙◌, inl, inr, Bool, true, false, [], ◌∷◌, Option, none, some,
  if◌then◌else◌, or_else, Bool-cases, Option-cases,
}
use mathlib.Core.Option
use mathlib.Core.Bool.{false≢true}
use sylar_from_scratch.Base.Bytes.{Text, same, same-eq, same_refl, same-left}
use sylar_from_scratch.Http.{
  Map, HttpRequest, find, insert, replace, assign, insert_all, place, same_nocase, get_header,
  set_header, case_insensitive_less, fold_case,
}

some_or-none :
    {A : Type 0} (b : Bool) (a : A) (o : Option A)
    → (if b then some a else o) ≡ none
    → (b ≡ false) × (o ≡ none)
some_or-none true a o e = absurd (Option.some-ne-none a e)
some_or-none false a o e = (refl, e)

nocase-left : (a b c : Text) → same_nocase a b ≡ true → same_nocase a c ≡ same_nocase b c
unfolding same_nocase
nocase-left a b c e = same-left (fold_case a) (fold_case b) (fold_case c) e

nocase-right :
    (a b c : Text) → same_nocase a c ≡ true → same_nocase b c ≡ true → same_nocase a b ≡ true
unfolding same_nocase
nocase-right a b c e f =
    rw (same-eq (fold_case a) (fold_case c) e, same-eq (fold_case b) (fold_case c) f)
      (same_refl (fold_case c))

find-place :
    (key k v : Text) (m : Map)
    → find k m ≡ none
    → find key (place k v m) ≡ (if same_nocase k key then some v else find key m)
unfolding find place
find-place key k v [] n = refl
find-place key k v ((j, w) ∷ m) n = elim (Bool-cases (case_insensitive_less k j)) [
  | inl t ↦ rw (t) refl
  | inr f ↦
      let (apart, n') = some_or-none (same_nocase j k) w (find k m) n in
      rw (f, find-place key k v m n')
        (elim (Bool-cases (same_nocase j key)) [
          | inl here ↦ elim (Bool-cases (same_nocase k key)) [
            | inl same' ↦ absurd (false≢true (sym apart ∙ nocase-right j k key here same'))
            | inr other ↦ rw (here, other) refl
          ]
          | inr past ↦ rw (past) refl
        ])
]

-- What a map answers with the entries of `ps` inserted: its own, else the first in `ps`.
pub first_of : Option Text → Option Text → Option Text
first_of none b = b
first_of (some a) b = some a

first_of-none : (o : Option Text) → first_of o none ≡ o
unfolding first_of
first_of-none none = refl
first_of-none (some a) = refl

first_of_assoc : (a b c : Option Text) → first_of (first_of a b) c ≡ first_of a (first_of b c)
unfolding first_of
first_of_assoc none b c = refl
first_of_assoc (some a) b c = refl

nocase-eq : (j k key : Text) → same_nocase k key ≡ true → same_nocase j k ≡ same_nocase j key
unfolding same_nocase
nocase-eq j k key e = ap (same (fold_case j)) (same-eq (fold_case k) (fold_case key) e)

find-same : (k key : Text) (m : Map) → same_nocase k key ≡ true → find k m ≡ find key m
unfolding find
find-same k key [] e = refl
find-same k key ((j, w) ∷ m) e =
    ap₂ (λ b o. if b then some w else o) (nocase-eq j k key e) (find-same k key m e)

find-insert :
    (key k v : Text) (m : Map)
    → find key (insert k v m) ≡ first_of (find key m) (if same_nocase k key then some v else none)
unfolding insert first_of
find-insert key k v m = elim (Option-cases (find k m)) [
  | inl n ↦
      rw (n, find-place key k v m n)
        (elim (Bool-cases (same_nocase k key)) [
          | inl t ↦ rw (t, sym (find-same k key m t) ∙ n) refl
          | inr f ↦ rw (f) (sym (first_of-none (find key m)))
        ])
  | inr (w, e) ↦ rw (e) (elim (Bool-cases (same_nocase k key)) [
    | inl t ↦ rw (sym (find-same k key m t) ∙ e) refl
    | inr f ↦ rw (f) (sym (first_of-none (find key m)))
  ])
]

first_of-if :
    (b : Bool) (v : Text) (o : Option Text)
    → first_of (if b then some v else none) o ≡ (if b then some v else o)
unfolding first_of
first_of-if true v o = refl
first_of-if false v o = refl

pub first_of-nil : (key : Text) (o : Option Text) → first_of (find key []) o ≡ o
unfolding first_of find
first_of-nil key o = refl

pub find-insert_all :
    (key : Text) (ps m : Map) → find key (insert_all ps m) ≡ first_of (find key m) (find key ps)
unfolding insert_all find
find-insert_all key [] m = sym (first_of-none (find key m))
find-insert_all key ((k, v) ∷ ps) m =
    find-insert_all key ps (insert k v m)
    ∙ ap (λ o. first_of o (find key ps)) (find-insert key k v m)
    ∙ first_of_assoc (find key m) (if same_nocase k key then some v else none) (find key ps)
    ∙ ap (first_of (find key m)) (first_of-if (same_nocase k key) v (find key ps))

nocase-apart :
    (j k key : Text)
    → same_nocase j k ≡ false
    → same_nocase j key ≡ true
    → same_nocase k key ≡ false
nocase-apart j k key f here = elim (Bool-cases (same_nocase k key)) [
  | inl t ↦ absurd (false≢true (sym f ∙ nocase-right j k key here t))
  | inr n ↦ n
]

find-replace :
    (key k v w : Text) (m : Map)
    → find k m ≡ some w
    → find key (replace k v m) ≡ (if same_nocase k key then some v else find key m)
unfolding find replace
find-replace key k v w [] e = absurd (Option.none-ne-some w e)
find-replace key k v w ((j, x) ∷ m) e = elim (Bool-cases (same_nocase j k)) [
  | inl t ↦
      rw (t, nocase-left j k key t)
        (elim (Bool-cases (same_nocase k key)) [ inl y ↦ rw (y) refl | inr n ↦ rw (n) refl ])
  | inr f ↦ elim (Bool-cases (same_nocase j key)) [
    | inl here ↦ rw (f, here, nocase-apart j k key f here) refl
    | inr past ↦ rw (f, past) (find-replace key k v w m (rw (f) at e))
  ]
]

find-assign :
    (key k v : Text) (m : Map)
    → find key (assign k v m) ≡ (if same_nocase k key then some v else find key m)
unfolding assign
find-assign key k v m = elim (Option-cases (find k m)) [
  | inl n ↦ rw (n) (find-place key k v m n)
  | inr (w, e) ↦ rw (e) (find-replace key k v w m e)
]

-- After setHeader, getHeader answers the new value for every spelling of the key, and for the other
-- keys what it answered before.
pub get_header-set_header :
    (key k v def : Text) (r : HttpRequest)
    → get_header key def (set_header k v r)
      ≡ (if same_nocase k key then v else get_header key def r)
unfolding get_header set_header
get_header-set_header key k v def r =
    ap (or_else def) (find-assign key k v r.headers) ∙ split (same_nocase k key)
  where
    split :
        (b : Bool)
        → or_else def (if b then some v else find key r.headers)
          ≡ (if b then v else or_else def (find key r.headers))
    split true = refl
    split false = refl
