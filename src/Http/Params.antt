-- ===== src/Http/Params.antt =====
-- The parameters of a query: PARSE_PARAM reads back what is printed with UrlEncode.
use sylar_from_scratch.Base.{
  ℕ, zero, suc, ◌<◌, ◌≤◌, ◌≡◌, refl, append_assoc, ap, ◌∙◌, inl, inr, true, false, not, ◌||◌, [],
  ◌∷◌, ◌++◌, none, some, ◌==◌, or_else, arith, All, Bool-cases, eq→==, length, length-append,
}
use sylar_from_scratch.Base.Bytes.{avoids, and-split, not-split, Text, all_below, all_below_lem}
use sylar_from_scratch.Util.{url_encode}
use sylar_from_scratch.Util.Url.{encoded, encode_char, url_encode-encoded, url_decode-url_encode}
use sylar_from_scratch.Http.Lookup.{find-insert_all, first_of-nil}
use sylar_from_scratch.Http.{
  Map, HttpRequest, find, insert_all, split_at, parse_param, parsed, unchanged, init_query_param,
  init_body_param, get_param, is_form,
}

avoids-append :
    (d : ℕ) (a b : Text) → avoids d a ≡ true → avoids d b ≡ true → avoids d (a ++ b) ≡ true
unfolding avoids
avoids-append d [] b p q = q
avoids-append d (x ∷ a) b p q =
    let (n, r) = and-split (not (x == d)) (avoids d a) p in rw (n) (avoids-append d a b r q)

split_at-append : (d : ℕ) (a b : Text) → avoids d a ≡ true → split_at d (a ++ d ∷ b) ≡ some (a, b)
unfolding avoids split_at
split_at-append d [] b p = rw (eq→== d d refl) refl
split_at-append d (x ∷ a) b p =
    let (n, r) = and-split (not (x == d)) (avoids d a) p in
    rw (not-split (x == d) n, split_at-append d a b r) refl

split_at-none : (d : ℕ) (a : Text) → avoids d a ≡ true → split_at d a ≡ none
unfolding avoids split_at
split_at-none d [] p = refl
split_at-none d (x ∷ a) p =
    let (n, r) = and-split (not (x == d)) (avoids d a) p in
    rw (not-split (x == d) n, split_at-none d a r) refl

ampersand_table : all_below 256 (λ c. avoids 38 (encode_char true c)) ≡ true
unfolding all_below avoids encode_char
ampersand_table = refl

equals_table : all_below 256 (λ c. c == 61 || avoids 61 (encode_char true c)) ≡ true
unfolding all_below avoids encode_char
equals_table = refl

encoded-ampersand : (str : Text) → All (λ c. c < 256) str → avoids 38 (encoded true str) ≡ true
unfolding encoded avoids
encoded-ampersand [] bs = refl
encoded-ampersand (c ∷ str) (b, bs) =
    avoids-append 38 (encode_char true c) (encoded true str)
      (all_below_lem 256 (λ c. avoids 38 (encode_char true c)) c ampersand_table b)
      (encoded-ampersand str bs)

encoded-equals :
    (str : Text)
    → All (λ c. c < 256) str
    → avoids 61 str ≡ true
    → avoids 61 (encoded true str) ≡ true
unfolding encoded avoids
encoded-equals [] bs e = refl
encoded-equals (c ∷ str) (b, bs) e =
    let (n, r) = and-split (not (c == 61)) (avoids 61 str) e in
    let row = all_below_lem 256 (λ c. c == 61 || avoids 61 (encode_char true c)) c equals_table b in
    avoids-append 61 (encode_char true c) (encoded true str) (rw (not-split (c == 61) n) at row)
      (encoded-equals str bs r)

-- A query that can be printed: keys and values are bytes, and no key has a `=`, which UrlEncode leaves.
unfoldable pub IsPlain : Map → Type 0
IsPlain = All (λ (k, v). All (λ c. c < 256) k × All (λ c. c < 256) v × (avoids 61 k ≡ true))

-- The query that holds the pairs.
pub print_pair : Text → Text → Text
print_pair k v = url_encode true k ++ 61 ∷ url_encode true v

pub print_query : Map → Text
unfolding print_pair
print_query [] = []
print_query ((k, v) ∷ []) = print_pair k v
print_query ((k, v) ∷ p ∷ ps) = print_pair k v ++ 38 ∷ print_query (p ∷ ps)

encode-ampersand : (str : Text) → All (λ c. c < 256) str → avoids 38 (url_encode true str) ≡ true
encode-ampersand str bs = rw ((url_encode-encoded true str).0) (encoded-ampersand str bs)

encode-equals :
    (str : Text)
    → All (λ c. c < 256) str
    → avoids 61 str ≡ true
    → avoids 61 (url_encode true str) ≡ true
encode-equals str bs e = rw ((url_encode-encoded true str).0) (encoded-equals str bs e)

parse_param-print_query :
    (fuel : ℕ) (ps : Map)
    → IsPlain ps
    → length ps < fuel
    → parse_param fuel 38 unchanged (print_query ps) ≡ some ps
unfolding parse_param print_query print_pair IsPlain avoids
parse_param-print_query zero ps h lt = absurd (omega arith)
parse_param-print_query (suc fuel) [] h lt = rw (split_at-none 61 [] refl) refl
parse_param-print_query (suc fuel) ((k, v) ∷ []) ((bk, bv, a), h) lt =
    rw
      (
        split_at-append 61 (url_encode true k) (url_encode true v) (encode-equals k bk a),
        split_at-none 38 (url_encode true v) (encode-ampersand v bv),
        url_decode-url_encode true k bk,
        url_decode-url_encode true v bv,
      )
      refl
parse_param-print_query (suc fuel) ((k, v) ∷ p ∷ ps) ((bk, bv, a), h) lt =
    let rest = print_query (p ∷ ps) in
    let value = url_encode true v in
    rw
      (
        append_assoc (url_encode true k) (61 ∷ value) (38 ∷ rest),
        split_at-append 61 (url_encode true k) (value ++ 38 ∷ rest) (encode-equals k bk a),
        split_at-append 38 value rest (encode-ampersand v bv),
        parse_param-print_query fuel (p ∷ ps) h (omega arith),
        url_decode-url_encode true k bk,
        url_decode-url_encode true v bv,
      )
      refl

length-le-print_query : (ps : Map) → length ps ≤ length (print_query ps)
unfolding print_query print_pair
length-le-print_query [] = omega arith
length-le-print_query ((k, v) ∷ []) =
    omega (arith, length-append {0} (url_encode true k) (61 ∷ url_encode true v))
length-le-print_query ((k, v) ∷ p ∷ ps) = omega (
  arith,
  length-append {0} (url_encode true k ++ 61 ∷ url_encode true v) (38 ∷ print_query (p ∷ ps)),
  length-append {0} (url_encode true k) (61 ∷ url_encode true v),
  length-le-print_query (p ∷ ps),
)

parsed-print_query : (ps : Map) → IsPlain ps → parsed 38 unchanged (print_query ps) ≡ ps
parsed-print_query ps h = ap (or_else []) (
    parse_param-print_query (suc (length (print_query ps))) ps h
      (omega (arith, length-le-print_query ps)))

init_body_param-params :
    (r : HttpRequest) → is_form r ≡ false → (init_body_param r).params ≡ r.params
unfolding init_body_param is_form
init_body_param-params r n = elim (Bool-cases r.body_parsed) [
  | inl t ↦ rw (t) refl
  | inr f ↦ rw (f, n) refl
]

init_query_param_lem :
    (ps : Map) (r : HttpRequest)
    → IsPlain ps
    → r.query ≡ print_query ps
    → r.query_parsed ≡ false
    → init_query_param r ≡ record r { params = insert_all ps r.params; query_parsed = true }
unfolding init_query_param
init_query_param_lem ps r h q f = rw (f, q, parsed-print_query ps h) refl

-- A request whose query is printed from pairs of bytes, with no `=` in a key, which has no parameter
-- yet, has not parsed the query and carries no form, answers for a key the value of the first pair
-- that has the key as strcasecmp compares, and the default where there is none.
pub get_param-print_query :
    (key def : Text) (ps : Map) (r : HttpRequest)
    → IsPlain ps
    → r.query ≡ print_query ps
    → r.params ≡ []
    → r.query_parsed ≡ false
    → is_form r ≡ false
    → (get_param key def r).1 ≡ or_else def (find key ps)
unfolding get_param is_form
get_param-print_query key def ps r h q e f n =
    let r' = record r { params = insert_all ps r.params; query_parsed = true } in
    ap (λ (r : HttpRequest). or_else def (find key (init_body_param r).params))
      (init_query_param_lem ps r h q f)
    ∙ ap (λ m. or_else def (find key m)) (init_body_param-params r' n)
    ∙ ap (λ m. or_else def (find key (insert_all ps m))) e
    ∙ ap (or_else def) (find-insert_all key ps [] ∙ first_of-nil key (find key ps))
