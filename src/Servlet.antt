-- ===== src/Servlet.antt =====
-- sylar/http/servlet.h and sylar/http/servlet.cc: the dispatch of a request path to a servlet.
-- Paths are strings of bytes. fnmatch is an argument, true where the C function returns 0.
pub mod Tables
pub mod Dispatch
mod Tests
use sylar_from_scratch.Base.{
  ℕ, Bool, true, false, List, [], ◌∷◌, ◌++◌, Option, none, some, ◌&&◌, ◌==◌, if◌then◌else◌,
}
use sylar_from_scratch.Base.Bytes.{same}
use mathlib.Core.Option

abbrev pub Uri : Type 0
Uri = List ℕ

pub data Servlet : Type 0 where
  -- An object that the caller made.
  object : ℕ → Servlet
  -- A FunctionServlet around a callback.
  function_servlet : ℕ → Servlet
  -- A new object of the type that a ServletCreator is for.
  created : ℕ → Servlet
  not_found_servlet : Servlet

pub data Creator : Type 0 where
  hold_servlet_creator : Servlet → Creator
  servlet_creator : ℕ → Creator

pub get : Creator → Servlet
get (hold_servlet_creator slt) = slt
get (servlet_creator type) = created type

-- A std::unordered_map, and the vector of glob patterns.
abbrev pub Table : Type 0
Table = List (Uri × Creator)

pub record ServletDispatch : Type 0 where
  pub datas : Table
  pub globs : Table
  pub default : Servlet

servlet_dispatch : ServletDispatch
servlet_dispatch = record { datas = []; globs = []; default = not_found_servlet }

-- `find(uri)`, and the loop of `getGlobServlet`.
pub find : Uri → Table → Option Creator
unfolding same
find uri [] = none
find uri ((key, c) ∷ rest) = if same key uri then some c else find uri rest

-- `m_datas[uri] = creator`.
pub assign : Uri → Creator → Table → Table
unfolding same
assign uri c [] = (uri, c) ∷ []
assign uri c ((key, d) ∷ rest) =
    if same key uri then (key, c) ∷ rest else (key, d) ∷ assign uri c rest

-- The loops that erase the entry of a key, and `m_datas.erase(uri)`.
pub erase : Uri → Table → Table
unfolding same
erase uri [] = []
erase uri ((key, d) ∷ rest) = if same key uri then rest else (key, d) ∷ erase uri rest

-- The loop over the patterns in `getMatchedServlet`.
pub first_match : (Uri → Uri → Bool) → Uri → Table → Option Creator
first_match fnmatch uri [] = none
first_match fnmatch uri ((pattern', c) ∷ rest) =
    if fnmatch pattern' uri then some c else first_match fnmatch uri rest

pub add_servlet_creator : Uri → Creator → ServletDispatch → ServletDispatch
add_servlet_creator uri creator d = record d { datas = assign uri creator d.datas }

pub add_servlet : Uri → Servlet → ServletDispatch → ServletDispatch
add_servlet uri slt d = record d { datas = assign uri (hold_servlet_creator slt) d.datas }

pub add_servlet_function : Uri → ℕ → ServletDispatch → ServletDispatch
add_servlet_function uri cb d = record d {
  datas = assign uri (hold_servlet_creator (function_servlet cb)) d.datas;
}

pub add_glob_servlet_creator : Uri → Creator → ServletDispatch → ServletDispatch
add_glob_servlet_creator uri creator d = record d {
  globs = erase uri d.globs ++ (uri, creator) ∷ [];
}

pub add_glob_servlet : Uri → Servlet → ServletDispatch → ServletDispatch
add_glob_servlet uri slt d = record d {
  globs = erase uri d.globs ++ (uri, hold_servlet_creator slt) ∷ [];
}

pub add_glob_servlet_function : Uri → ℕ → ServletDispatch → ServletDispatch
add_glob_servlet_function uri cb d = add_glob_servlet uri (function_servlet cb) d

pub del_servlet : Uri → ServletDispatch → ServletDispatch
del_servlet uri d = record d { datas = erase uri d.datas }

pub del_glob_servlet : Uri → ServletDispatch → ServletDispatch
del_glob_servlet uri d = record d { globs = erase uri d.globs }

pub get_default : ServletDispatch → Servlet
get_default d = d.default

pub set_default : Servlet → ServletDispatch → ServletDispatch
set_default v d = record d { default = v }

-- A std::map of creators, by its entries.
abbrev pub Infos : Type 0
Infos = Uri → Option Creator

-- The loops of `listAllServletCreator` and `listAllGlobServletCreator`: `infos[i.first] = i.second`.
pub list_all : Table → Infos → Infos
unfolding same
list_all [] infos = infos
list_all ((key, c) ∷ rest) infos = list_all rest (λ uri. if same key uri then some c else infos uri)

pub list_all_servlet_creator : ServletDispatch → Infos → Infos
unfolding list_all
list_all_servlet_creator d infos = list_all d.datas infos

pub list_all_glob_servlet_creator : ServletDispatch → Infos → Infos
unfolding list_all
list_all_glob_servlet_creator d infos = list_all d.globs infos

-- None is the null pointer.
pub get_servlet : Uri → ServletDispatch → Option Servlet
unfolding find get
get_servlet uri d = Option.map get (find uri d.datas)

pub get_glob_servlet : Uri → ServletDispatch → Option Servlet
unfolding find get
get_glob_servlet uri d = Option.map get (find uri d.globs)

pub get_or : Option Creator → Servlet → Servlet
unfolding get
get_or none slt = slt
get_or (some c) slt = get c

pub get_matched_servlet : (Uri → Uri → Bool) → Uri → ServletDispatch → Servlet
unfolding find first_match get_or
get_matched_servlet fnmatch uri d =
    get_or (find uri d.datas) (get_or (first_match fnmatch uri d.globs) d.default)
