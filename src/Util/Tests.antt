-- ===== src/Util/Tests.antt =====
-- Runs of the string helpers, and the round trip of UrlEncode at one text.
use sylar_from_scratch.Base.{◌≡◌, true, refl, [], ◌∷◌, ◌<◌, All, arith}
use sylar_from_scratch.Base.Bytes.{Text}
use sylar_from_scratch.Util.{
  url_encode, url_decode, is_unreserved, escape, trim, trim_right, dirname, basename,
}
use sylar_from_scratch.Util.Url.{url_decode-url_encode}

-- "a b=\xe4".
abbrev text : Text
text = 97 ∷ 32 ∷ 98 ∷ 61 ∷ 0xe4 ∷ []

-- "a+b=%E4": the equals sign is not escaped.
encoded_text : url_encode true text ≡ 97 ∷ 43 ∷ 98 ∷ 61 ∷ 37 ∷ 69 ∷ 52 ∷ []
unfolding url_encode is_unreserved escape
encoded_text = refl

-- TrimRight of "ab  " is "a", TrimLeft of "  ab" is "ab" and Trim of " ab " is "ab".
trim_right_short : trim_right (32 ∷ []) (97 ∷ 98 ∷ 32 ∷ 32 ∷ []) ≡ 97 ∷ []
unfolding trim_right
trim_right_short = refl

trim_both : trim (32 ∷ []) (32 ∷ 97 ∷ 98 ∷ 32 ∷ []) ≡ 97 ∷ 98 ∷ []
unfolding trim
trim_both = refl

-- Dirname and Basename of "/a/b".
dirname-path : dirname (47 ∷ 97 ∷ 47 ∷ 98 ∷ []) ≡ 47 ∷ 97 ∷ []
unfolding dirname
dirname-path = refl

basename-path : basename (47 ∷ 97 ∷ 47 ∷ 98 ∷ []) ≡ 98 ∷ []
unfolding basename
basename-path = refl

text-bytes : All (λ c. c < 256) text
text-bytes = omega arith

url_decode-url_encode_example : url_decode true (url_encode true text) ≡ text
url_decode-url_encode_example = url_decode-url_encode true text text-bytes
