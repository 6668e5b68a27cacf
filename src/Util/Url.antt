-- ===== src/Util/Url.antt =====
-- UrlEncode and UrlDecode without the lazily made buffer, and their round trip.
use sylar_from_scratch.Base.{
  ℕ, ◌<◌, ◌/◌, ◌≡◌, refl, sym, ap, ◌∙◌, inl, inr, Bool, true, false, not, ◌&&◌, ◌||◌, [], ◌∷◌, ◌++◌,
  append_assoc, append-nil, Option, some, none, ◌==◌, if◌then◌else◌, or_else, All, Bool-cases,
  ==→eq,
}
use sylar_from_scratch.Base.Bytes.{all_below, all_below_lem}
use Prim.Native.Nat.{bit_and}
use mathlib.Core.Bool.{false≢true}
use sylar_from_scratch.Base.Bytes.{Text}
use mathlib.Core.Option
use sylar_from_scratch.Util.{
  is_unreserved, escape, url_encode, url_encode_loop, is_xdigit, unescape, plain, entry, hexdigits,
  url_decode, url_decode_loop,
}

-- What each character becomes, one after the other.
unfoldable pub encode_char : Bool → ℕ → Text
unfolding is_unreserved escape
encode_char plus c = if is_unreserved c then c ∷ [] else escape plus c

unfoldable pub encoded : Bool → Text → Text
unfolding encode_char
encoded plus [] = []
encoded plus (c ∷ str) = encode_char plus c ++ encoded plus str

or_else-map :
    (seen : Text) (ss : Option Text) (c : ℕ)
    → or_else (seen ++ c ∷ []) (Option.map (λ buf. buf ++ c ∷ []) ss) ≡ or_else seen ss ++ c ∷ []
or_else-map seen none c = refl
or_else-map seen (some buf) c = refl

step : Bool → Text → Option Text → ℕ → Option Text
step plus seen ss c =
    if is_unreserved c
    then Option.map (λ buf. buf ++ c ∷ []) ss
    else some (or_else seen ss ++ escape plus c)

or_else-step :
    (plus : Bool) (seen : Text) (ss : Option Text) (c : ℕ)
    → or_else (seen ++ c ∷ []) (step plus seen ss c) ≡ or_else seen ss ++ encode_char plus c
unfolding step encode_char
or_else-step plus seen ss c = elim (Bool-cases (is_unreserved c)) [
  | inl t ↦ rw (t) (or_else-map seen ss c)
  | inr f ↦ rw (f) refl
]

url_encode_loop-encoded :
    (plus : Bool) (seen : Text) (ss : Option Text) (str : Text)
    → or_else (seen ++ str) (url_encode_loop plus seen ss str) ≡ or_else seen ss ++ encoded plus str
unfolding url_encode_loop encoded step
url_encode_loop-encoded plus seen none [] = refl
url_encode_loop-encoded plus seen (some buf) [] = sym (append-nil buf)
url_encode_loop-encoded plus seen ss (c ∷ str) =
    let ss' = step plus seen ss c in
    ap (λ (s : Text). or_else s (url_encode_loop plus (seen ++ c ∷ []) ss' str))
      (sym (append_assoc seen (c ∷ []) str))
    ∙ url_encode_loop-encoded plus (seen ++ c ∷ []) ss' str
    ∙ ap (λ (s : Text). s ++ encoded plus str) (or_else-step plus seen ss c)
    ∙ append_assoc (or_else seen ss) (encode_char plus c) (encoded plus str)

plain_char : Bool → ℕ → ℕ
plain_char plus c = if c == 43 && plus then 32 else c

pub decoded : Bool → Text → Text
decoded plus [] = []
decoded plus (c ∷ []) = plain_char plus c ∷ []
decoded plus (c ∷ h ∷ []) = plain_char plus c ∷ plain_char plus h ∷ []
decoded plus (c ∷ h ∷ l ∷ str) =
    let one = plain_char plus c ∷ decoded plus (h ∷ l ∷ str) in
    let three = unescape h l ∷ decoded plus str in
    if c == 43 && plus then one else if c == 37 && is_xdigit h && is_xdigit l then three else one

or_else-plain :
    (plus : Bool) (seen : Text) (c : ℕ) (ss : Option Text)
    → or_else (seen ++ c ∷ []) (plain plus seen c ss) ≡ or_else seen ss ++ plain_char plus c ∷ []
unfolding plain plain_char
or_else-plain plus seen c ss = elim (Bool-cases (c == 43 && plus)) [
  | inl t ↦ rw (t) refl
  | inr f ↦ rw (f) (or_else-map seen ss c)
]

-- The rest of a text behind its first characters, for a loop that has put them into the buffer.
shift :
    (seen mid str out acc new rest : Text) (loop : Option Text)
    → or_else ((seen ++ mid) ++ str) loop ≡ out ++ rest
    → out ≡ acc ++ new
    → or_else (seen ++ (mid ++ str)) loop ≡ acc ++ (new ++ rest)
shift seen mid str out acc new rest loop e d =
    ap (λ (s : Text). or_else s loop) (sym (append_assoc seen mid str))
    ∙ e
    ∙ ap (λ (s : Text). s ++ rest) d
    ∙ append_assoc acc new rest

url_decode_loop-decoded :
    (plus : Bool) (seen : Text) (ss : Option Text) (str : Text)
    → or_else (seen ++ str) (url_decode_loop plus seen ss str) ≡ or_else seen ss ++ decoded plus str
unfolding url_decode_loop decoded
url_decode_loop-decoded plus seen none [] = refl
url_decode_loop-decoded plus seen (some buf) [] = sym (append-nil buf)
url_decode_loop-decoded plus seen ss (c ∷ []) = or_else-plain plus seen c ss
url_decode_loop-decoded plus seen ss (c ∷ h ∷ []) =
    let ss' = plain plus seen c ss in
    shift seen (c ∷ []) (h ∷ []) (or_else (seen ++ c ∷ []) ss') (or_else seen ss)
      (plain_char plus c ∷ []) (plain_char plus h ∷ []) (plain plus (seen ++ c ∷ []) h ss')
      (or_else-plain plus (seen ++ c ∷ []) h ss') (or_else-plain plus seen c ss)
url_decode_loop-decoded plus seen ss (c ∷ h ∷ l ∷ str) =
    let ss' = plain plus seen c ss in
    let one =
      shift seen (c ∷ []) (h ∷ l ∷ str) (or_else (seen ++ c ∷ []) ss') (or_else seen ss)
        (plain_char plus c ∷ []) (decoded plus (h ∷ l ∷ str))
        (url_decode_loop plus (seen ++ c ∷ []) ss' (h ∷ l ∷ str))
        (url_decode_loop-decoded plus (seen ++ c ∷ []) ss' (h ∷ l ∷ str))
        (or_else-plain plus seen c ss) in
    let buf = or_else seen ss ++ unescape h l ∷ [] in
    let three =
      shift seen (c ∷ h ∷ l ∷ []) str buf (or_else seen ss) (unescape h l ∷ []) (decoded plus str)
        (url_decode_loop plus (seen ++ c ∷ h ∷ l ∷ []) (some buf) str)
        (url_decode_loop-decoded plus (seen ++ c ∷ h ∷ l ∷ []) (some buf) str) refl in
    elim (Bool-cases (c == 43 && plus)) [
      | inl t ↦ rw (t) one
      | inr f ↦ rw (f) (elim (Bool-cases (c == 37 && is_xdigit h && is_xdigit l)) [
        | inl x ↦ rw (x) three
        | inr n ↦ rw (n) one
      ])
    ]

decoded-plain :
    (plus : Bool) (c : ℕ) (str : Text)
    → (c == 43) ≡ false
    → (c == 37) ≡ false
    → decoded plus (c ∷ str) ≡ c ∷ decoded plus str
unfolding decoded plain_char
decoded-plain plus c [] p q = rw (p) refl
decoded-plain plus c (h ∷ []) p q = rw (p) refl
decoded-plain plus c (h ∷ l ∷ str) p q = rw (p, q) refl

decoded-space : (str : Text) → decoded true (43 ∷ str) ≡ 32 ∷ decoded true str
unfolding decoded plain_char
decoded-space [] = refl
decoded-space (h ∷ []) = refl
decoded-space (h ∷ l ∷ str) = refl

-- No unreserved character is a `+` or a `%`.
unreserved_table :
    all_below 256 (λ c. not (is_unreserved c) || (not (c == 43) && not (c == 37))) ≡ true
unfolding all_below is_unreserved
unreserved_table = refl

-- The escape of a byte has two hexadecimal digits, which stand for it.
escape_table :
    all_below 256 (λ c.
      let h = entry hexdigits (c / 16) in
      let l = entry hexdigits (bit_and c 0xf) in is_xdigit h && is_xdigit l && unescape h l == c)
    ≡ true
unfolding all_below is_xdigit unescape
escape_table = refl

and-left : (a b : Bool) → (a && b) ≡ true → a ≡ true
and-left true b e = refl
and-left false b e = e

and-right : (a b : Bool) → (a && b) ≡ true → b ≡ true
and-right true b e = e
and-right false b e = absurd (false≢true e)

not-true : (a : Bool) → not a ≡ true → a ≡ false
not-true true e = sym e
not-true false e = refl

decoded-unreserved :
    (plus : Bool) (c : ℕ) (str : Text)
    → c < 256
    → is_unreserved c ≡ true
    → decoded plus (c ∷ str) ≡ c ∷ decoded plus str
decoded-unreserved plus c str b u =
    let row =
      all_below_lem 256 (λ c. not (is_unreserved c) || (not (c == 43) && not (c == 37))) c
        unreserved_table b in
    let row' = rw (u) at row in
    decoded-plain plus c str (not-true (c == 43) (and-left (not (c == 43)) (not (c == 37)) row'))
      (not-true (c == 37) (and-right (not (c == 43)) (not (c == 37)) row'))

decoded-nil : (plus : Bool) → decoded plus [] ≡ []
unfolding decoded
decoded-nil plus = refl

decoded-hex :
    (plus : Bool) (h l c : ℕ) (str : Text)
    → (is_xdigit h && is_xdigit l && unescape h l == c) ≡ true
    → decoded plus (37 ∷ h ∷ l ∷ str) ≡ c ∷ decoded plus str
unfolding decoded
decoded-hex plus h l c str e =
    let digits = and-left (is_xdigit h && is_xdigit l) (unescape h l == c) e in
    let value =
      ==→eq (unescape h l) c (and-right (is_xdigit h && is_xdigit l) (unescape h l == c) e) in
    rw (digits, value) refl

decoded-escape :
    (plus : Bool) (c : ℕ) (str : Text)
    → c < 256
    → decoded plus (escape plus c ++ str) ≡ c ∷ decoded plus str
unfolding escape
decoded-escape plus c str b =
    let row =
      all_below_lem 256
        (λ c.
          let h = entry hexdigits (c / 16) in
          let l = entry hexdigits (bit_and c 0xf) in
          is_xdigit h && is_xdigit l && unescape h l == c)
        c escape_table b in
    let hex =
      decoded-hex plus (entry hexdigits (c / 16)) (entry hexdigits (bit_and c 0xf)) c str row in
    elim (Bool-cases (c == 32 && plus)) [
      | inl t ↦
          rw (t, and-right (c == 32) plus t, ==→eq c 32 (and-left (c == 32) plus t))
            (decoded-space str)
      | inr f ↦ rw (f) hex
    ]

-- Decoding takes every character that encoding wrote back to the byte it stands for.
decoded-encoded :
    (plus : Bool) (str : Text) → All (λ c. c < 256) str → decoded plus (encoded plus str) ≡ str
unfolding encoded encode_char
decoded-encoded plus [] bs = decoded-nil plus
decoded-encoded plus (c ∷ str) (b, bs) = elim (Bool-cases (is_unreserved c)) [
  | inl u ↦ rw (u) (
      decoded-unreserved plus c (encoded plus str) b u
      ∙ ap (λ (s : Text). c ∷ s) (decoded-encoded plus str bs))
  | inr r ↦ rw (r) (
      decoded-escape plus c (encoded plus str) b
      ∙ ap (λ (s : Text). c ∷ s) (decoded-encoded plus str bs))
]

-- UrlEncode and UrlDecode, whose buffer is made only at the first change, give for every text what
-- the character by character versions give.
pub url_encode-encoded :
    (plus : Bool) (str : Text)
    → (url_encode plus str ≡ encoded plus str) × (url_decode plus str ≡ decoded plus str)
unfolding url_encode url_decode
url_encode-encoded plus str =
    (url_encode_loop-encoded plus [] none str, url_decode_loop-decoded plus [] none str)

-- UrlDecode gives back every text of bytes that UrlEncode was given, when both read a space as a
-- plus or both do not.
pub url_decode-url_encode :
    (plus : Bool) (str : Text)
    → All (λ c. c < 256) str
    → url_decode plus (url_encode plus str) ≡ str
url_decode-url_encode plus str b =
    ap (url_decode plus) (url_encode-encoded plus str).0
    ∙ (url_encode-encoded plus (encoded plus str)).1
    ∙ decoded-encoded plus str b
