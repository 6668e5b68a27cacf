-- ===== src/Http/Tests.antt =====
-- The theorems about parameters and headers at a request with two parameters.
use sylar_from_scratch.Base.{◌≡◌, true, refl, [], ◌∷◌, arith, some, or_else}
use sylar_from_scratch.Base.Bytes.{avoids}
use sylar_from_scratch.Http.{Map, HttpRequest, http_request, find, get_param, is_form}
use sylar_from_scratch.Http.Params.{IsPlain, print_query, get_param-print_query}

-- A=b&c=d, where a value may hold any byte.
abbrev pairs : Map
pairs = (65 ∷ [], 98 ∷ 38 ∷ []) ∷ (99 ∷ [], 100 ∷ []) ∷ []

pairs-IsPlain : IsPlain pairs
unfolding IsPlain avoids
pairs-IsPlain = ((omega arith, omega arith, refl), ((omega arith, omega arith, refl), tt))

abbrev request : HttpRequest
unfolding http_request
request = record (http_request 1 17 true) { query = print_query pairs }

get_param-print_query_example :
    (get_param (97 ∷ []) [] request).1 ≡ or_else [] (find (97 ∷ []) pairs)
unfolding request is_form
get_param-print_query_example =
    get_param-print_query (97 ∷ []) [] pairs request pairs-IsPlain refl refl refl refl

find_small : find (97 ∷ []) pairs ≡ some (98 ∷ 38 ∷ [])
unfolding find
find_small = refl
