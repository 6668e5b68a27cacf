-- ===== src/Uri/Tests.antt =====
-- Small URIs.
use sylar_from_scratch.Base.{ℕ, [], ◌∷◌, ◌+◌, Option, some, none, ◌≡◌, refl}
use sylar_from_scratch.Base.Bytes.{Text, codes, same}
use sylar_from_scratch.Uri.{
  UrlFields, Created, create_of, to_string, set_default_port, is_default_port, get_path,
}

abbrev fields : UrlFields
fields = record {
  uf_schema = some (0, 3);
  uf_host = some (6, 1);
  uf_port = none;
  uf_path = none;
  uf_query = none;
  uf_fragment = none;
  uf_userinfo = none;
}

abbrev stoi : Text → Option ℕ
stoi t = none

abbrev printed : Created → Text
printed Created.null = []
printed Created.stoi_throws = []
printed (Created.created u) = to_string (λ n. (48 + n) ∷ []) u

-- The port of wss is not set, and is printed as 0.
wss_text : printed (create_of stoi (codes "wss://a") fields) ≡ codes "wss://a:0/"
unfolding create_of set_default_port to_string is_default_port get_path same
wss_text = refl
