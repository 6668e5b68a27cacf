-- ===== src/Uri/Port.antt =====
-- sylar/uri.cc: the port of a URI that was created without one.
use mathlib.Core.Bool.{false≢true}
use sylar_from_scratch.Base.{Bool, true, false, ◌||◌, ◌==◌, if◌then◌else◌, ◌≡◌, refl}
use sylar_from_scratch.Base.Bytes.{Text, codes, same}
use sylar_from_scratch.Uri.{Uri, set_default_port, is_default_port}

-- A scheme that `Create` knows the port of.
unfoldable pub is_known : Text → Bool
unfolding same
is_known scheme =
    same scheme (codes "http") || same scheme (codes "ws") || same scheme (codes "https")

by_scheme :
    (web secure : Bool)
    → (web || secure) ≡ true
    → (let port = if web then 80 else if secure then 443 else 0 in
        if web then port == 80 else if secure then port == 443 else false)
      ≡ true
by_scheme true secure h = refl
by_scheme false true h = refl
by_scheme false false h = absurd (false≢true h)

-- A port that Create sets for lack of one in the text is the default port of its scheme, if the scheme
-- is http, ws or https.
pub is_default_port-set_default_port :
    (u : Uri)
    → is_known u.scheme ≡ true
    → u.port ≡ set_default_port u.scheme
    → is_default_port u ≡ true
unfolding is_known is_default_port set_default_port
is_default_port-set_default_port u h e = rw e (
    by_scheme (same u.scheme (codes "http") || same u.scheme (codes "ws"))
      (same u.scheme (codes "https")) h)
