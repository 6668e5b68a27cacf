-- ===== src/Servlet/Tests.antt =====
-- Runs of the dispatch, and the theorems about it at a table with one path and one pattern.
use sylar_from_scratch.Base.{◌≡◌, Bool, true, false, [], ◌∷◌, ◌==◌, refl, if◌then◌else◌}
use sylar_from_scratch.Servlet.{
  Uri, ServletDispatch, object, find, erase, assign, del_glob_servlet, add_servlet,
  add_glob_servlet, get_matched_servlet, servlet_dispatch, not_found_servlet,
}
use sylar_from_scratch.Base.Bytes.{same}
use sylar_from_scratch.Servlet.Tables.{IsUnique}
use sylar_from_scratch.Servlet.Dispatch.{IsValid, add_glob_servlet_lem}

-- A pattern `x*`, written here as its first letter, matches what starts with it.
starts : Uri → Uri → Bool
starts [] uri = true
starts (a ∷ as') [] = false
starts (a ∷ as') (b ∷ bs) = a == b

abbrev dispatch : ServletDispatch
unfolding add_servlet add_glob_servlet assign erase same servlet_dispatch
dispatch = add_glob_servlet (7 ∷ []) (object 2) (add_servlet (1 ∷ []) (object 1) servlet_dispatch)

dispatch-IsValid : IsValid dispatch
unfolding IsValid IsUnique dispatch find
dispatch-IsValid = ((refl, tt), (refl, tt))

matched_glob : get_matched_servlet starts (7 ∷ 3 ∷ []) dispatch ≡ object 2
unfolding starts get_matched_servlet dispatch
matched_glob = refl

matched_default : get_matched_servlet starts (8 ∷ []) dispatch ≡ not_found_servlet
unfolding starts get_matched_servlet dispatch
matched_default = refl

add_glob_servlet_lem_example :
    get_matched_servlet starts (8 ∷ []) (add_glob_servlet (8 ∷ []) (object 3) dispatch)
    ≡ get_matched_servlet starts (8 ∷ []) (record (del_glob_servlet (8 ∷ []) dispatch) {
      default = if starts (8 ∷ []) (8 ∷ []) then object 3 else dispatch.default;
    })
add_glob_servlet_lem_example = add_glob_servlet_lem starts (8 ∷ []) (8 ∷ []) (object 3) dispatch
