-- ===== src/Address/Print/Path.antt =====
-- sylar/address.cc, UnixAddress: a path is shown as it was given.
use sylar_from_scratch.Base.{
  ℕ, suc, ◌+◌, ◌-◌, ◌≤◌, Bool, true, false, not, ◌&&◌, ◌||◌, leb, leb→le, List, [], ◌∷◌, ◌++◌, some,
  none, ltb, ◌==◌, if◌then◌else◌, length, replicate, ◌≡◌, refl, sym, ap, ◌∙◌, arith, lt→ltb,
  take-append_self, Bool-cases, inl, inr, ==→eq,
}
use sylar_from_scratch.Base.Bytes.{Text, codes, avoids, and-split, not-split}
use mathlib.Core.Option
use sylar_from_scratch.Address.{UnixAddress, af_unix}
use sylar_from_scratch.Address.Print.{path_length, unix_address, get_path, c_str}

-- A path as it is shown: a first NUL as a backslash and a 0.
unfoldable pub shown_path : Text → Text
shown_path [] = codes "\\0"
shown_path (c ∷ path) = if c == 0 then codes "\\0" ++ path else c ∷ path

-- A path that has no NUL, or is abstract: its first byte is one.
unfoldable pub is_path : Text → Bool
unfolding avoids
is_path [] = true
is_path (c ∷ path) = c == 0 || avoids 0 path

-- Whether a path can be laid into 108 bytes: an abstract one as it is, any other with a NUL behind it.
unfoldable pub has_room : Text → Bool
has_room [] = true
has_room (c ∷ path) = if c == 0 then leb (length (c ∷ path)) 108 else leb (length (c ∷ path)) 107

c_str-append : (path zeros : Text) → avoids 0 path ≡ true → c_str (path ++ 0 ∷ zeros) ≡ some path
unfolding c_str avoids
c_str-append [] zeros h = refl
c_str-append (x ∷ xs) zeros h =
    let (ne, rest) = and-split (not (x == 0)) (avoids 0 xs) h in
    rw (not-split (x == 0) ne, c_str-append xs zeros rest) refl

and-false : (b : Bool) → (b && false) ≡ false
and-false true = refl
and-false false = refl

abbrev laid_out : Text → ℕ → UnixAddress
laid_out path n = record {
  sun_family = af_unix;
  sun_path = path ++ replicate (108 - length path) 0;
  m_length = n + 2;
}

abstract_path :
    (path : Text) → get_path (laid_out (0 ∷ path) (suc (length path))) ≡ some (codes "\\0" ++ path)
unfolding get_path
abstract_path path =
    let zeros : List ℕ = replicate (108 - suc (length path)) 0 in
    let n : suc (length path) + 2 - 2 - 1 ≡ length path = omega arith in
    rw (lt→ltb 2 (suc (length path) + 2) (omega arith), n, take-append_self path zeros) refl

named_path :
    (c : ℕ) (path : Text)
    → (c == 0) ≡ false
    → avoids 0 path ≡ true
    → suc (suc (length path)) ≤ 108
    → get_path (laid_out (c ∷ path) (suc (suc (length path)))) ≡ some (c ∷ path)
unfolding get_path c_str
named_path c path f free fits =
    let n : 108 - suc (length path) ≡ suc (107 - suc (length path)) = omega arith in
    let tested = and-false (ltb 2 (suc (suc (length path)) + 2)) in
    rw (f, tested, n, c_str-append path (replicate (107 - suc (length path)) 0) free) refl

fits_abstract : (n : ℕ) → ltb 108 (suc n) ≡ not (leb (suc n) 108)
fits_abstract n = ground arith

fits_named : (n : ℕ) → ltb 108 (suc (suc n)) ≡ not (leb (suc n) 107)
fits_named n = ground arith

-- The code throws where the path has no room.
path_length-has_room : (path : Text) → ltb 108 (path_length path) ≡ not (has_room path)
unfolding has_room
path_length-has_room [] = refl
path_length-has_room (c ∷ path) = elim (Bool-cases (c == 0)) [
  | inl t ↦ rw (t) (fits_abstract (length path))
  | inr f ↦ rw (f) (fits_named (length path))
]

shown_lem :
    (c : ℕ) (path : Text)
    → (c == 0 || avoids 0 path) ≡ true
    → has_room (c ∷ path) ≡ true
    → get_path (laid_out (c ∷ path) (path_length (c ∷ path))) ≡ some (shown_path (c ∷ path))
unfolding shown_path has_room
shown_lem c path free fits = elim (Bool-cases (c == 0)) [
  | inl t ↦ rw (==→eq c 0 t) (abstract_path path)
  | inr f ↦
      let free' : avoids 0 path ≡ true = sym (ap (λ z. z || avoids 0 path) f) ∙ free in
      let small : leb (suc (length path)) 107 ≡ true =
        sym (ap (λ z. if z then leb (suc (length path)) 108 else leb (suc (length path)) 107) f)
        ∙ fits in
      rw (f) (named_path c path f free' (omega (arith, leb→le (suc (length path)) 107 small)))
]

shown_nil : get_path (laid_out [] 1) ≡ some (shown_path [])
unfolding get_path shown_path c_str
shown_nil = refl

throws_or :
    (b : Bool) (a : UnixAddress) (t : Text)
    → (b ≡ true → get_path a ≡ some t)
    → Option.map get_path (if not b then none else some a) ≡ (if b then some (some t) else none)
throws_or true a t h = ap some (h refl)
throws_or false a t h = refl

empty_path :
    Option.map get_path (unix_address [])
    ≡ (if has_room [] then some (some (shown_path [])) else none)
unfolding unix_address has_room
empty_path = ap some shown_nil

-- The constructor throws exactly if the path has no room in 108 bytes, an abstract one, which starts
-- with a NUL, as it is, any other with a NUL behind it. Otherwise getPath reads no further than these
-- bytes and answers the path, the first NUL of an abstract one and the empty path as \0. A path that is not
-- abstract has no NUL in it.
pub get_path-unix_address :
    (path : Text)
    → is_path path ≡ true
    → Option.map get_path (unix_address path)
      ≡ (if has_room path then some (some (shown_path path)) else none)
unfolding unix_address is_path
get_path-unix_address [] h = empty_path
get_path-unix_address (c ∷ path) h = rw (path_length-has_room (c ∷ path)) (
    throws_or (has_room (c ∷ path)) (laid_out (c ∷ path) (path_length (c ∷ path)))
      (shown_path (c ∷ path)) (shown_lem c path h))
