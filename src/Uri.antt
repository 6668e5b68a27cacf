-- ===== src/Uri.antt =====
-- sylar/uri.h and sylar/uri.cc: URIs, their default ports and their texts.
-- The answer of http_parser_parse_url is an argument, by the fields that it found, and so are std::stoi, which
-- throws or gives a number, and std::to_string.
pub mod Port
mod Tests
use sylar_from_scratch.Base.{
  ℕ, Bool, true, false, not, ◌&&◌, ◌||◌, List, [], ◌∷◌, ◌++◌, Option, some, none, ◌==◌,
  if◌then◌else◌, maybe, take, drop,
}
use sylar_from_scratch.Base.Bytes.{Text, codes, same}

pub record Uri : Type 0 where
  pub scheme : Text
  pub userinfo : Text
  pub host : Text
  pub path : Text
  pub query : Text
  pub fragment : Text
  pub port : ℕ

-- http_parser_url: offset and length of each field that is set.
pub record UrlFields : Type 0 where
  pub uf_schema : Option (ℕ × ℕ)
  pub uf_host : Option (ℕ × ℕ)
  pub uf_port : Option (ℕ × ℕ)
  pub uf_path : Option (ℕ × ℕ)
  pub uf_query : Option (ℕ × ℕ)
  pub uf_fragment : Option (ℕ × ℕ)
  pub uf_userinfo : Option (ℕ × ℕ)

-- A field of a new URI: its text, or empty.
abbrev pub field : Text → Option (ℕ × ℕ) → Text
field urlstr none = []
field urlstr (some (off, len)) = take len (drop off urlstr)

-- The port that `Create` sets where there is none.
pub set_default_port : Text → ℕ
set_default_port scheme =
    if same scheme (codes "http") || same scheme (codes "ws")
    then 80
    else if same scheme (codes "https")
    then 443
    else 0

-- What `Create` does: a null pointer, the exception of std::stoi, or a URI.
pub data Created : Type 0 where
  null : Created
  stoi_throws : Created
  created : Uri → Created

abbrev pub port_of : (Text → Option ℕ) → Text → Text → Option (ℕ × ℕ) → Option ℕ
port_of stoi urlstr scheme none = some (set_default_port scheme)
port_of stoi urlstr scheme (some f) = stoi (field urlstr (some f))

pub create_of : (Text → Option ℕ) → Text → UrlFields → Created
unfolding set_default_port
create_of stoi urlstr f =
    let scheme = field urlstr f.uf_schema in
    maybe stoi_throws
      (λ port. created (record {
        scheme = scheme;
        userinfo = field urlstr f.uf_userinfo;
        host = field urlstr f.uf_host;
        path = field urlstr f.uf_path;
        query = field urlstr f.uf_query;
        fragment = field urlstr f.uf_fragment;
        port = port;
      }))
      (port_of stoi urlstr scheme f.uf_port)

pub create : (Text → Option UrlFields) → (Text → Option ℕ) → Text → Created
unfolding create_of
create http_parser_parse_url stoi urlstr =
    maybe null (create_of stoi urlstr) (http_parser_parse_url urlstr)

pub get_port : Uri → ℕ
get_port u =
    if not (u.port == 0)
    then u.port
    else if same u.scheme (codes "http") || same u.scheme (codes "ws")
    then 80
    else if same u.scheme (codes "https") || same u.scheme (codes "wss")
    then 443
    else u.port

abbrev pub or_slash : Text → Text
or_slash [] = 47 ∷ []
or_slash (c ∷ path) = c ∷ path

pub get_path : Uri → Text
get_path u = or_slash u.path

pub is_default_port : Uri → Bool
is_default_port u =
    if same u.scheme (codes "http") || same u.scheme (codes "ws")
    then u.port == 80
    else if same u.scheme (codes "https")
    then u.port == 443
    else false

-- A mark that stands only with a text.
abbrev pub mark_if : Text → Text → Text
mark_if [] mark = []
mark_if (c ∷ cs) mark = mark

pub to_string : (ℕ → Text) → Uri → Text
unfolding is_default_port get_path
to_string number u =
    u.scheme
    ++ codes "://"
    ++ u.userinfo
    ++ mark_if u.userinfo (codes "@")
    ++ u.host
    ++ (if is_default_port u then [] else 58 ∷ number u.port)
    ++ get_path u
    ++ mark_if u.query (codes "?")
    ++ u.query
    ++ mark_if u.fragment (codes "#")
    ++ u.fragment
