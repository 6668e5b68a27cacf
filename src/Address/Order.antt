-- ===== src/Address/Order.antt =====
-- sylar/address.cc: the comparisons of addresses.
use sylar_from_scratch.Base.{
  ℕ, zero, suc, min, Bool, true, false, not, ◌&&◌, List, [], ◌∷◌, ◌++◌, ltb, ◌==◌, if◌then◌else◌,
  length, take, ◌≡◌, refl, sym, lt→ltb, le→ltb, ne→==, arith,
}
use mathlib.Core.Bool.{false≢true}
use sylar_from_scratch.ByteArray.Codec.{le_bytes}
use sylar_from_scratch.Address.{Address, ipv4, ipv6, local, unknown}

-- The bytes of `getAddr()`, as many as `getAddrLen()` says.
pub get_addr : Address → List ℕ
unfolding le_bytes
get_addr (ipv4 a) =
    le_bytes 2 a.sin_family ++ le_bytes 2 a.sin_port ++ le_bytes 4 a.s_addr ++ a.sin_zero
get_addr (ipv6 a) =
    le_bytes 2 a.sin6_family
    ++ le_bytes 2 a.sin6_port
    ++ le_bytes 4 a.sin6_flowinfo
    ++ a.s6_addr
    ++ le_bytes 4 a.sin6_scope_id
get_addr (local a) = take a.m_length (le_bytes 2 a.sun_family ++ a.sun_path)
get_addr (unknown family sa_data) = le_bytes 2 family ++ sa_data

-- `memcmp`: less, equal, greater.
pub data Compared : Type 0 where
  less : Compared
  equal : Compared
  greater : Compared

pub memcmp : ℕ → List ℕ → List ℕ → Compared
memcmp zero xs ys = equal
memcmp (suc n) [] ys = equal
memcmp (suc n) (x ∷ xs) [] = equal
memcmp (suc n) (x ∷ xs) (y ∷ ys) =
    if ltb x y then less else if ltb y x then greater else memcmp n xs ys

abbrev pub less_by : Compared → Bool → Bool
less_by less shorter = true
less_by equal shorter = shorter
less_by greater shorter = false

abbrev pub is_equal : Compared → Bool
is_equal less = false
is_equal equal = true
is_equal greater = false

-- operator<, operator== and operator!=.
pub address_lt : Address → Address → Bool
address_lt a b =
    let xs = get_addr a in
    let ys = get_addr b in
    less_by (memcmp (min (length xs) (length ys)) xs ys) (ltb (length xs) (length ys))

pub address_eq : Address → Address → Bool
address_eq a b =
    let xs = get_addr a in
    let ys = get_addr b in (length xs == length ys) && is_equal (memcmp (length xs) xs ys)

pub address_ne : Address → Address → Bool
unfolding address_eq
address_ne a b = not (address_eq a b)

-- One of the three holds: the first address is less, the two are equal, or the second is less. The
-- tests are given in that order, each with its converse.
unfoldable pub tests : Address → Address → List Bool
tests a b = address_lt a b ∷ address_eq a b ∷ address_ne a b ∷ address_lt b a ∷ []

abbrev pub verdict : Compared → List Bool
verdict less = true ∷ false ∷ true ∷ false ∷ []
verdict equal = false ∷ true ∷ false ∷ false ∷ []
verdict greater = false ∷ false ∷ true ∷ true ∷ []

-- The lexicographic order of byte strings.
unfoldable pub lexicographic : List ℕ → List ℕ → Compared
lexicographic [] [] = equal
lexicographic [] (y ∷ ys) = less
lexicographic (x ∷ xs) [] = greater
lexicographic (x ∷ xs) (y ∷ ys) =
    if ltb x y then less else if ltb y x then greater else lexicographic xs ys

abbrev pub turned : Compared → Compared
turned less = greater
turned equal = equal
turned greater = less

abbrev lt_of : List ℕ → List ℕ → Bool
lt_of xs ys = less_by (memcmp (min (length xs) (length ys)) xs ys) (ltb (length xs) (length ys))

abbrev eq_of : List ℕ → List ℕ → Bool
eq_of xs ys = (length xs == length ys) && is_equal (memcmp (length xs) xs ys)

abbrev is_less : Compared → Bool
is_less less = true
is_less equal = false
is_less greater = false

min-suc : (m n : ℕ) → min (suc m) (suc n) ≡ suc (min m n)
min-suc m n = omega arith

min-zero : (n : ℕ) → min 0 n ≡ 0
min-zero n = omega arith

min-zero_right : (n : ℕ) → min n 0 ≡ 0
min-zero_right n = omega arith

ltb-suc : (m n : ℕ) → ltb (suc m) (suc n) ≡ ltb m n
ltb-suc m n = ground arith

==-suc : (m n : ℕ) → (suc m == suc n) ≡ (m == n)
==-suc m n = ground arith

-- The tests by the first bytes, and by what the others are to each other.
abbrev first : Bool → Bool → Compared → Compared
first below above c = if below then less else if above then greater else c

less_by-first :
    (below above : Bool) (c : Compared) (shorter : Bool) (d : Compared)
    → less_by c shorter ≡ is_less d
    → less_by (first below above c) shorter ≡ is_less (first below above d)
less_by-first true above c shorter d h = refl
less_by-first false true c shorter d h = refl
less_by-first false false c shorter d h = h

equal-first :
    (below above same_length : Bool) (c d : Compared)
    → (same_length && is_equal c) ≡ is_equal d
    → (same_length && is_equal (first below above c)) ≡ is_equal (first below above d)
equal-first true above true c d h = refl
equal-first true above false c d h = refl
equal-first false true true c d h = refl
equal-first false true false c d h = refl
equal-first false false same_length c d h = h

lt_of_lem : (xs ys : List ℕ) → lt_of xs ys ≡ is_less (lexicographic xs ys)
unfolding memcmp lexicographic
lt_of_lem [] [] = refl
lt_of_lem [] (y ∷ ys) =
    rw (min-zero (suc (length ys)), lt→ltb 0 (suc (length ys)) (omega arith)) refl
lt_of_lem (x ∷ xs) [] =
    rw (min-zero_right (suc (length xs)), le→ltb (suc (length xs)) 0 (omega arith)) refl
lt_of_lem (x ∷ xs) (y ∷ ys) =
    rw (min-suc (length xs) (length ys), ltb-suc (length xs) (length ys))
      (less_by-first (ltb x y) (ltb y x) (memcmp (min (length xs) (length ys)) xs ys)
        (ltb (length xs) (length ys)) (lexicographic xs ys) (lt_of_lem xs ys))

eq_of_lem : (xs ys : List ℕ) → eq_of xs ys ≡ is_equal (lexicographic xs ys)
unfolding memcmp lexicographic
eq_of_lem [] [] = refl
eq_of_lem [] (y ∷ ys) = rw (ne→== 0 (suc (length ys)) (λ e. omega arith)) refl
eq_of_lem (x ∷ xs) [] = rw (ne→== (suc (length xs)) 0 (λ e. omega arith)) refl
eq_of_lem (x ∷ xs) (y ∷ ys) = rw (==-suc (length xs) (length ys)) (
    equal-first (ltb x y) (ltb y x) (length xs == length ys) (memcmp (length xs) xs ys)
      (lexicographic xs ys) (eq_of_lem xs ys))

turned-first :
    (below above : Bool) (c d : Compared)
    → (below && above) ≡ false
    → d ≡ turned c
    → first above below d ≡ turned (first below above c)
turned-first true true c d h e = absurd (false≢true (sym h))
turned-first true false c d h e = refl
turned-first false true c d h e = refl
turned-first false false c d h e = e

asymmetric : (x y : ℕ) → (ltb x y && ltb y x) ≡ false
asymmetric x y = ground arith

-- With the strings exchanged, less and greater change places.
pub lexicographic-turned : (xs ys : List ℕ) → lexicographic ys xs ≡ turned (lexicographic xs ys)
unfolding lexicographic
lexicographic-turned [] [] = refl
lexicographic-turned [] (y ∷ ys) = refl
lexicographic-turned (x ∷ xs) [] = refl
lexicographic-turned (x ∷ xs) (y ∷ ys) =
    turned-first (ltb x y) (ltb y x) (lexicographic xs ys) (lexicographic ys xs) (asymmetric x y)
      (lexicographic-turned xs ys)

verdict_eq :
    (c : Compared) → is_less c ∷ is_equal c ∷ not (is_equal c) ∷ is_less (turned c) ∷ [] ≡ verdict c
verdict_eq less = refl
verdict_eq equal = refl
verdict_eq greater = refl

-- The comparisons are those of the lexicographic order of the bytes of the addresses: if the first
-- one is less, operator< and operator!= hold and the others do not; if they are equal, only
-- operator== holds; otherwise operator!= and operator< the other way round.
pub tests_lem : (a b : Address) → tests a b ≡ verdict (lexicographic (get_addr a) (get_addr b))
unfolding tests address_lt address_eq address_ne
tests_lem a b =
    let xs = get_addr a in
    let ys = get_addr b in
    simp (lt_of_lem xs ys, eq_of_lem xs ys, lt_of_lem ys xs, lexicographic-turned xs ys)
      (verdict_eq (lexicographic xs ys))
