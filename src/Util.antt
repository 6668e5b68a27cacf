-- ===== src/Util.antt =====
-- sylar/util.h and sylar/util.cpp: the helpers on strings, `StringUtil`, and the path helpers of
-- `FSUtil` that only look at the name. Strings are lists of bytes.
pub mod Url
mod Tests
use Prim.Native.Nat.{bit_and, bit_or}
use sylar_from_scratch.Base.{
  ℕ, zero, suc, ◌+◌, ◌*◌, ◌/◌, ◌%◌, Bool, true, false, not, ◌&&◌, ◌||◌, List, [], ◌∷◌, ◌++◌, Option,
  some, none, ltb, leb, ◌==◌, if◌then◌else◌, or_else, get_elem?, replicate,
}
use sylar_from_scratch.Base.Bytes.{Text}
use mathlib.Core.Option
use mathlib.Core.List.{reverse}

-- A table from its runs of equal entries.
abbrev runs : List (ℕ × ℕ) → List ℕ
runs [] = []
runs ((n, v) ∷ rest) = replicate n v ++ runs rest

-- `n` numbers from `v` on.
abbrev count_up : ℕ → ℕ → List ℕ
count_up v zero = []
count_up v (suc n) = v ∷ count_up (suc v) n

abbrev pub uri_chars : List ℕ
uri_chars = runs (
    (45, 0)
    ∷ (2, 1)
    ∷ (1, 0)
    ∷ (10, 1)
    ∷ (3, 0)
    ∷ (1, 1)
    ∷ (3, 0)
    ∷ (26, 1)
    ∷ (4, 0)
    ∷ (1, 1)
    ∷ (1, 0)
    ∷ (26, 1)
    ∷ (3, 0)
    ∷ (1, 1)
    ∷ (129, 0)
    ∷ [])

-- The digits of either case.
abbrev pub xdigit_chars : List ℕ
xdigit_chars =
    replicate 48 0
    ++ count_up 0 10
    ++ replicate 7 0
    ++ count_up 10 6
    ++ replicate 26 0
    ++ count_up 10 6
    ++ replicate 153 0

-- An entry of a table, for an index below its length.
abbrev pub entry : List ℕ → ℕ → ℕ
entry table i = or_else 0 (get_elem? table i)

-- CHAR_IS_UNRESERVED.
pub is_unreserved : ℕ → Bool
is_unreserved c = not (entry uri_chars c == 0)

-- "0123456789ABCDEF".
abbrev pub hexdigits : List ℕ
hexdigits = count_up 48 10 ++ count_up 65 6

-- What `UrlEncode` appends for a reserved character; 32 is the space, 43 `+` and 37 `%`.
pub escape : Bool → ℕ → Text
escape space_as_plus c =
    if c == 32 && space_as_plus
    then 43 ∷ []
    else 37 ∷ entry hexdigits (c / 16) ∷ entry hexdigits (bit_and c 0xf) ∷ []

-- The loop of `UrlEncode` with `seen` the characters before the pointer; the buffer is made at the
-- first reserved one.
pub url_encode_loop : Bool → Text → Option Text → Text → Option Text
url_encode_loop space_as_plus seen ss [] = ss
url_encode_loop space_as_plus seen ss (c ∷ str) =
    let ss' =
      if is_unreserved c
      then Option.map (λ buf. buf ++ c ∷ []) ss
      else some (or_else seen ss ++ escape space_as_plus c) in
    url_encode_loop space_as_plus (seen ++ c ∷ []) ss' str

pub url_encode : Bool → Text → Text
unfolding url_encode_loop
url_encode space_as_plus str = or_else str (url_encode_loop space_as_plus [] none str)

-- The C library's isxdigit.
pub is_xdigit : ℕ → Bool
is_xdigit c = leb 48 c && leb c 57 || leb 65 c && leb c 70 || leb 97 c && leb c 102

-- The byte of two hexadecimal digits, as a char.
pub unescape : ℕ → ℕ → ℕ
unescape h l = bit_or (entry xdigit_chars h * 16) (entry xdigit_chars l) % 256

-- The last branch of `UrlDecode` and that for `+`, on one character.
pub plain : Bool → Text → ℕ → Option Text → Option Text
plain space_as_plus seen c ss =
    if c == 43 && space_as_plus
    then some (or_else seen ss ++ 32 ∷ [])
    else Option.map (λ buf. buf ++ c ∷ []) ss

-- The loop of `UrlDecode`; two characters behind a `%` are left when the pointer is three before the
-- end.
pub url_decode_loop : Bool → Text → Option Text → Text → Option Text
url_decode_loop space_as_plus seen ss [] = ss
url_decode_loop space_as_plus seen ss (c ∷ []) = plain space_as_plus seen c ss
url_decode_loop space_as_plus seen ss (c ∷ h ∷ []) =
    plain space_as_plus (seen ++ c ∷ []) h (plain space_as_plus seen c ss)
url_decode_loop space_as_plus seen ss (c ∷ h ∷ l ∷ str) =
    let one =
      url_decode_loop space_as_plus (seen ++ c ∷ []) (plain space_as_plus seen c ss)
        (h ∷ l ∷ str) in
    let three =
      url_decode_loop space_as_plus (seen ++ c ∷ h ∷ l ∷ [])
        (some (or_else seen ss ++ unescape h l ∷ [])) str in
    if c == 43 && space_as_plus
    then one
    else if c == 37 && is_xdigit h && is_xdigit l
    then three
    else one

pub url_decode : Bool → Text → Text
unfolding url_decode_loop
url_decode space_as_plus str = or_else str (url_decode_loop space_as_plus [] none str)

-- Whether a character is in `delimit`.
pub is_among : ℕ → Text → Bool
is_among c [] = false
is_among c (d ∷ delimit) = c == d || is_among c delimit

-- `str.substr(str.find_first_not_of(delimit))`, empty where there is none.
pub trim_left : Text → Text → Text
unfolding is_among
trim_left delimit [] = []
trim_left delimit (c ∷ str) = if is_among c delimit then trim_left delimit str else c ∷ str

-- `str.substr(0, str.find_last_not_of(delimit) + 1)`, empty where there is none.
pub up_to_last : Text → Text → Text
unfolding trim_left
up_to_last delimit str = reverse (trim_left delimit (reverse str))

pub trim : Text → Text → Text
unfolding trim_left up_to_last
trim delimit str = up_to_last delimit (trim_left delimit str)

pub drop_last : Text → Text
drop_last [] = []
drop_last (c ∷ []) = []
drop_last (c ∷ d ∷ str) = c ∷ drop_last (d ∷ str)

-- `str.substr(0, end)`: without the character at `end`.
pub trim_right : Text → Text → Text
unfolding up_to_last drop_last
trim_right delimit str = drop_last (up_to_last delimit str)

-- The characters before the last `/` and those behind it, none where there is no `/`.
pub rsplit : Text → Option (Text × Text)
rsplit [] = none
rsplit (c ∷ str) = elim (rsplit str) [
  | some (dir, base) ↦ some (c ∷ dir, base)
  | none ↦ if c == 47 then some ([], str) else none
]

pub dirname : Text → Text
unfolding rsplit
dirname filename = elim (rsplit filename) [
  | none ↦ 46 ∷ []
  | some ([], base) ↦ 47 ∷ []
  | some (c ∷ dir, base) ↦ c ∷ dir
]

pub basename : Text → Text
unfolding rsplit
basename filename = elim (rsplit filename) [ none ↦ filename | some (dir, base) ↦ base ]
