-- ===== src/Http.antt =====
-- sylar/http/http.h and sylar/http/http.cc: requests, their headers, and the parameters and cookies that a
-- request holds in its text.
-- Methods and states are their numbers; the tables of their names, which the http-parser library
-- has, are arguments. A flag of `m_parserParamFlag` is a field.

pub mod Lookup
pub mod Params
mod Tests
use sylar_from_scratch.Base.{
  ℕ, zero, suc, ◌+◌, ◌/◌, ◌%◌, Bool, true, false, not, ◌&&◌, ◌||◌, List, [], ◌∷◌, ◌++◌, Option,
  some, none, ltb, leb, ◌==◌, if◌then◌else◌, or_else, get_elem?, length, maybe,
}
use sylar_from_scratch.Base.Bytes.{Text, codes, same}
use mathlib.Core.List.{map}
use sylar_from_scratch.Util.{url_decode, trim}
use mathlib.Core.Option

-- `tolower` of a byte in the C locale.
pub to_lower : ℕ → ℕ
to_lower c = if leb 65 c && leb c 90 then c + 32 else c

-- A text as strcasecmp reads it: up to the first NUL, in lower case.
pub fold_case : Text → Text
unfolding to_lower
fold_case [] = []
fold_case (c ∷ cs) = let rest = fold_case cs in if c == 0 then [] else to_lower c ∷ rest

-- strcasecmp as an equality.
pub same_nocase : Text → Text → Bool
unfolding fold_case same
same_nocase a b = same (fold_case a) (fold_case b)

-- The order of strcasecmp, for texts that it reads.
pub before : Text → Text → Bool
before a [] = false
before [] (y ∷ b) = true
before (x ∷ a) (y ∷ b) = ltb x y || x == y && before a b

pub case_insensitive_less : Text → Text → Bool
unfolding fold_case before
case_insensitive_less a b = before (fold_case a) (fold_case b)

-- A std::map with that order: its entries, in order.
abbrev pub Map : Type 0
Map = List (Text × Text)

pub find : Text → Map → Option Text
unfolding same_nocase
find key [] = none
find key ((k, v) ∷ m) = if same_nocase k key then some v else find key m

-- A new entry at its place.
pub place : Text → Text → Map → Map
unfolding case_insensitive_less
place key val [] = (key, val) ∷ []
place key val ((k, v) ∷ m) =
    if case_insensitive_less key k then (key, val) ∷ (k, v) ∷ m else (k, v) ∷ place key val m

pub replace : Text → Text → Map → Map
unfolding same_nocase
replace key val [] = []
replace key val ((k, v) ∷ m) =
    if same_nocase k key then (k, val) ∷ m else (k, v) ∷ replace key val m

-- `m[key] = val`.
pub assign : Text → Text → Map → Map
unfolding place replace
assign key val m = maybe (place key val m) (λ _. replace key val m) (find key m)

-- `m.insert`: an entry that is there stays.
pub insert : Text → Text → Map → Map
unfolding place
insert key val m = maybe (place key val m) (λ _. m) (find key m)

pub erase : Text → Map → Map
unfolding same_nocase
erase key [] = []
erase key ((k, v) ∷ m) = if same_nocase k key then m else (k, v) ∷ erase key m

pub string_to_http_method : List Text → Text → ℕ
unfolding same
string_to_http_method [] m = 0
string_to_http_method (name ∷ names) m =
    if same name m then 0 else suc (string_to_http_method names m)

pub http_method_to_string : List Text → ℕ → Text
http_method_to_string names m = or_else (codes "<unknown>") (get_elem? names m)

pub http_status_to_string : List (ℕ × Text) → ℕ → Text
http_status_to_string [] s = codes "<unknown>"
http_status_to_string ((c, msg) ∷ reasons) s =
    if c == s then msg else http_status_to_string reasons s

pub record HttpRequest : Type 0 where
  pub method : ℕ
  pub version : ℕ
  pub close : Bool
  pub websocket : Bool
  pub query_parsed : Bool
  pub body_parsed : Bool
  pub cookies_parsed : Bool
  pub path : Text
  pub query : Text
  pub fragment : Text
  pub body : Text
  pub headers : Map
  pub params : Map
  pub cookies : Map

unfoldable pub http_request : ℕ → ℕ → Bool → HttpRequest
http_request get version close = record {
  method = get;
  version = version;
  close = close;
  websocket = false;
  query_parsed = false;
  body_parsed = false;
  cookies_parsed = false;
  path = codes "/";
  query = [];
  fragment = [];
  body = [];
  headers = [];
  params = [];
  cookies = [];
}

pub get_header : Text → Text → HttpRequest → Text
unfolding find
get_header key def r = or_else def (find key r.headers)

unfoldable pub set_header : Text → Text → HttpRequest → HttpRequest
unfolding assign
set_header key val r = record r { headers = assign key val r.headers }

pub set_param : Text → Text → HttpRequest → HttpRequest
unfolding assign
set_param key val r = record r { params = assign key val r.params }

pub set_cookie : Text → Text → HttpRequest → HttpRequest
unfolding assign
set_cookie key val r = record r { cookies = assign key val r.cookies }

pub del_header : Text → HttpRequest → HttpRequest
unfolding erase
del_header key r = record r { headers = erase key r.headers }

pub del_param : Text → HttpRequest → HttpRequest
unfolding erase
del_param key r = record r { params = erase key r.params }

pub del_cookie : Text → HttpRequest → HttpRequest
unfolding erase
del_cookie key r = record r { cookies = erase key r.cookies }

-- `str.find(c, pos)`: the text before the first `c` and that behind it, none for npos.
pub split_at : ℕ → Text → Option (Text × Text)
split_at c [] = none
split_at c (x ∷ str) =
    if x == c then some ([], str) else Option.map (λ (a, b). (x ∷ a, b)) (split_at c str)

-- PARSE_PARAM, with the rest of the text at `pos`: the pairs that it inserts. None is no more fuel.
pub parse_param : ℕ → ℕ → (Text → Text) → Text → Option Map
parse_param zero flag trim str = none
parse_param (suc fuel) flag trim str =
    maybe (some [])
      (λ (key, after).
        maybe (some ((url_decode true (trim key), url_decode true after) ∷ []))
          (λ (val, rest).
            Option.map (λ ps. (url_decode true (trim key), url_decode true val) ∷ ps)
              (parse_param fuel flag trim rest))
          (split_at flag after))
      (split_at 61 str)

pub insert_all : Map → Map → Map
insert_all [] m = m
insert_all ((k, v) ∷ ps) m = insert_all ps (insert k v m)

-- The loop needs one round for each `=`, and a last one.
abbrev pub parsed : ℕ → (Text → Text) → Text → Map
parsed flag trim str = or_else [] (parse_param (suc (length str)) flag trim str)

abbrev pub unchanged : Text → Text
unchanged str = str

pub init_query_param : HttpRequest → HttpRequest
init_query_param r = if r.query_parsed then r else record r {
  params = insert_all (parsed 38 unchanged r.query) r.params;
  query_parsed = true;
}

-- Whether `text` starts with `pattern`, and strcasestr.
pub starts : Text → Text → Bool
starts [] text = true
starts (a ∷ pattern') [] = false
starts (a ∷ pattern') (b ∷ text) = a == b && starts pattern' text

pub contains : Text → Text → Bool
unfolding starts
contains pattern' [] = starts pattern' []
contains pattern' (b ∷ text) = starts pattern' (b ∷ text) || contains pattern' text

-- `strcasestr` of the form's type in the content type.
pub is_form : HttpRequest → Bool
unfolding contains to_lower get_header
is_form r =
    contains (codes "application/x-www-form-urlencoded")
      (map to_lower (get_header (codes "content-type") [] r))

pub init_body_param : HttpRequest → HttpRequest
init_body_param r =
    if r.body_parsed
    then r
    else if is_form r
    then record r { params = insert_all (parsed 38 unchanged r.body) r.params; body_parsed = true }
    else record r { body_parsed = true }

abbrev pub is_empty : Text → Bool
is_empty [] = true
is_empty (c ∷ str) = false

-- The delimiters of `Trim`.
abbrev pub blanks : Text
blanks = 32 ∷ 9 ∷ 13 ∷ 10 ∷ []

pub init_cookies : HttpRequest → HttpRequest
init_cookies r =
    let cookie = get_header (codes "cookie") [] r in
    if r.cookies_parsed
    then r
    else if is_empty cookie
    then record r { cookies_parsed = true }
    else record r {
      cookies = insert_all (parsed 59 (trim blanks) cookie) r.cookies;
      cookies_parsed = true;
    }

pub get_param : Text → Text → HttpRequest → HttpRequest × Text
get_param key def r =
    let r = init_body_param (init_query_param r) in (r, or_else def (find key r.params))

pub get_cookie : Text → Text → HttpRequest → HttpRequest × Text
get_cookie key def r = let r = init_cookies r in (r, or_else def (find key r.cookies))

pub init : HttpRequest → HttpRequest
init r =
    let conn = get_header (codes "connection") [] r in
    if is_empty conn then r else record r { close = not (same_nocase conn (codes "keep-alive")) }
