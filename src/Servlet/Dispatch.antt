-- ===== src/Servlet/Dispatch.antt =====
-- What each operation of ServletDispatch does to the dispatch of paths.
use sylar_from_scratch.Base.{
  ℕ, ◌≡◌, inl, inr, Bool, true, false, refl, ap, ◌∙◌, [], ◌∷◌, ◌++◌, Option, none, some, Bool-cases,
  if◌then◌else◌,
}
use mathlib.Core.Option
use sylar_from_scratch.Base.Bytes.{same, same-eq}
use mathlib.Core.Path.{subst}
use sylar_from_scratch.Servlet.{
  Uri, Servlet, Creator, hold_servlet_creator, function_servlet, get, Table, ServletDispatch, same,
  find, assign, erase, first_match, add_servlet, add_servlet_creator, add_servlet_function,
  add_glob_servlet, add_glob_servlet_creator, add_glob_servlet_function, del_servlet,
  del_glob_servlet, get_servlet, get_glob_servlet, get_matched_servlet, get_or,
}
use sylar_from_scratch.Servlet.Tables.{
  IsUnique, find-assign, first_match-snoc, find-snoc, find-erase, find-erase_other, erase-IsUnique,
  assign-IsUnique, snoc-IsUnique,
}

-- No path and no pattern has two entries.
unfoldable pub IsValid : ServletDispatch → Type 0
IsValid d = IsUnique d.datas × IsUnique d.globs

find_erased :
    (uri key : Uri) (m : Table) → IsUnique m → same uri key ≡ true → find key (erase uri m) ≡ none
find_erased uri key m u t =
    subst (λ z. find z (erase uri m) ≡ none) (same-eq uri key t) (find-erase uri m u)

get_or-if :
    (b : Bool) (c : Creator) (o : Option Creator) (slt : Servlet)
    → get_or (if b then some c else o) slt ≡ (if b then get c else get_or o slt)
unfolding get_or
get_or-if true c o slt = refl
get_or-if false c o slt = refl

get_or-last :
    (o : Option Creator) (b : Bool) (c : Creator) (slt : Servlet)
    → get_or (elim o [ some d ↦ some d | none ↦ if b then some c else none ]) slt
      ≡ get_or o (if b then get c else slt)
unfolding get_or
get_or-last none true c slt = refl
get_or-last none false c slt = refl
get_or-last (some d) b c slt = refl

find-erase_unique :
    (uri key : Uri) (m : Table)
    → IsUnique m
    → find key (erase uri m) ≡ (if same uri key then none else find key m)
find-erase_unique uri key m u = elim (Bool-cases (same uri key)) [
  | inl t ↦ rw (t) (find_erased uri key m u t)
  | inr f ↦ rw (f) (find-erase_other uri key m f)
]

map-last :
    (b : Bool) (c : Creator) (o other : Option Creator)
    → o ≡ (if b then none else other)
    → Option.map get (elim o [ some d ↦ some d | none ↦ if b then some c else none ])
      ≡ (if b then some (get c) else Option.map get other)
map-last true c none other e = refl
map-last true c (some d) other e = absurd (Option.some-ne-none d e)
map-last false c none other e = ap (Option.map get) e
map-last false c (some d) other e = ap (Option.map get) e

map-erase :
    (b : Bool) (o other : Option Creator)
    → o ≡ (if b then none else other)
    → Option.map get o ≡ (if b then none else Option.map get other)
map-erase true o other e = ap (Option.map get) e
map-erase false o other e = ap (Option.map get) e

-- After addServlet of a servlet, its path is dispatched to it and every other path as before.
pub add_servlet_lem :
    (fnmatch : Uri → Uri → Bool) (uri path : Uri) (slt : Servlet) (d : ServletDispatch)
    → get_matched_servlet fnmatch path (add_servlet uri slt d)
      ≡ (if same uri path then slt else get_matched_servlet fnmatch path d)
unfolding get_matched_servlet add_servlet get
add_servlet_lem fnmatch uri path slt d =
    let last = get_or (first_match fnmatch path d.globs) d.default in
    let c = hold_servlet_creator slt in
    ap (λ o. get_or o last) (find-assign uri path c d.datas)
    ∙ get_or-if (same uri path) c (find path d.datas) last

-- After addGlobServlet, every path is dispatched as it would be with the pattern deleted and, for
-- the paths that match the pattern, the new servlet as the default.
pub add_glob_servlet_lem :
    (fnmatch : Uri → Uri → Bool) (uri path : Uri) (slt : Servlet) (d : ServletDispatch)
    → get_matched_servlet fnmatch path (add_glob_servlet uri slt d)
      ≡ get_matched_servlet fnmatch path (record (del_glob_servlet uri d) {
        default = if fnmatch uri path then slt else d.default;
      })
unfolding get_matched_servlet add_glob_servlet del_glob_servlet get
add_glob_servlet_lem fnmatch uri path slt d =
    let others = erase uri d.globs in
    let c = hold_servlet_creator slt in
    ap (λ o. get_or (find path d.datas) (get_or o d.default))
      (first_match-snoc fnmatch path uri c others)
    ∙ ap (get_or (find path d.datas))
        (get_or-last (first_match fnmatch path others) (fnmatch uri path) c d.default)

-- In a valid table, getGlobServlet answers the servlet that addGlobServlet stored last for the
-- pattern, and for the other patterns what it answered before.
pub get_glob_servlet-add_glob_servlet :
    (uri key : Uri) (slt : Servlet) (d : ServletDispatch)
    → IsValid d
    → get_glob_servlet key (add_glob_servlet uri slt d)
      ≡ (if same uri key then some slt else get_glob_servlet key d)
unfolding get_glob_servlet add_glob_servlet IsValid get
get_glob_servlet-add_glob_servlet uri key slt d (_, u) =
    ap (Option.map get) (find-snoc key uri (hold_servlet_creator slt) (erase uri d.globs))
    ∙ map-last (same uri key) (hold_servlet_creator slt) (find key (erase uri d.globs))
        (find key d.globs) (find-erase_unique uri key d.globs u)

-- In a valid table, a path or pattern that was deleted has no servlet any more, and the others keep
-- theirs.
pub del_servlet_lem :
    (uri key : Uri) (d : ServletDispatch)
    → IsValid d
    → (get_servlet key (del_servlet uri d) ≡ (if same uri key then none else get_servlet key d))
      × (get_glob_servlet key (del_glob_servlet uri d)
          ≡ (if same uri key then none else get_glob_servlet key d))
unfolding get_servlet get_glob_servlet del_servlet del_glob_servlet IsValid
del_servlet_lem uri key d (u, v) = (kept d.datas u, kept d.globs v)
  where
    kept :
        (m : Table)
        → IsUnique m
        → Option.map get (find key (erase uri m))
          ≡ (if same uri key then none else Option.map get (find key m))
    kept m w =
        map-erase (same uri key) (find key (erase uri m)) (find key m)
          (find-erase_unique uri key m w)

-- Every operation keeps the tables valid.
pub add_servlet-IsValid :
    (uri : Uri) (c : Creator) (slt : Servlet) (cb : ℕ) (d : ServletDispatch)
    → IsValid d
    → IsValid (add_servlet uri slt d)
      × IsValid (add_servlet_creator uri c d)
      × IsValid (add_servlet_function uri cb d)
      × IsValid (add_glob_servlet uri slt d)
      × IsValid (add_glob_servlet_creator uri c d)
      × IsValid (add_glob_servlet_function uri cb d)
      × IsValid (del_servlet uri d)
      × IsValid (del_glob_servlet uri d)
unfolding IsValid add_servlet add_servlet_creator add_servlet_function add_glob_servlet
    add_glob_servlet_creator add_glob_servlet_function del_servlet del_glob_servlet
add_servlet-IsValid uri c slt cb d (u, v) = (
  (put (hold_servlet_creator slt), v),
  (put c, v),
  (put (hold_servlet_creator (function_servlet cb)), v),
  (u, push (hold_servlet_creator slt)),
  (u, push c),
  (u, push (hold_servlet_creator (function_servlet cb))),
  (erase-IsUnique uri d.datas u, v),
  (u, erase-IsUnique uri d.globs v),
)
  where
    put : (c : Creator) → IsUnique (assign uri c d.datas)
    put c = assign-IsUnique uri c d.datas u

    push : (c : Creator) → IsUnique (erase uri d.globs ++ (uri, c) ∷ [])
    push c =
        snoc-IsUnique uri c (erase uri d.globs) (find-erase uri d.globs v)
          (erase-IsUnique uri d.globs v)
