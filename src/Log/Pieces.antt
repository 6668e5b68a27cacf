-- ===== src/Log/Pieces.antt =====
-- sylar/log.cpp, LogFormatter::init: the loop over a pattern that is written from pieces.
use sylar_from_scratch.Base.{
  ℕ, Bool, true, false, not, List, [], ◌∷◌, ◌++◌, ◌==◌, ◌≡◌, ◌≢◌, refl, sym, ap, ap₂, ◌∙◌,
  append-nil, append_assoc, ne→==, is_some,
}
use sylar_from_scratch.Base.Bytes.{Text, avoids, and-split, not-split}
use mathlib.Core.Bool.{false≢true}
use mathlib.Core.List.{map}
use sylar_from_scratch.Log.{
  Part, regular, escaped, Mode, in_string, in_pattern, in_braces, Scan, push_text, step_string,
  step_in, scan_loop, Scanned, parts, finish_in, s_format_items, item_of,
}

-- What a pattern says: a text, a time in a format, or the item of a character.
pub data Piece : Type 0 where
  text : ℕ → Text → Piece
  date : Text → Piece
  item : ℕ → Piece

unfoldable pub print_pattern : List Piece → Text
print_pattern [] = []
print_pattern (text c str ∷ ps) = (c ∷ str) ++ print_pattern ps
print_pattern (date f ∷ ps) = 37 ∷ 100 ∷ 123 ∷ (f ++ 125 ∷ print_pattern ps)
print_pattern (item c ∷ ps) = 37 ∷ c ∷ print_pattern ps

-- No text has a percent sign or follows another, no format has a closing brace, and the character of an
-- item is in the table. The flag says that a text came before.
unfoldable pub IsPattern : Bool → List Piece → Type 0
IsPattern after [] = Unit
IsPattern after (text c str ∷ ps) =
    (after ≡ false) × (avoids 37 (c ∷ str) ≡ true) × IsPattern true ps
IsPattern after (date f ∷ ps) = (avoids 125 f ≡ true) × IsPattern false ps
IsPattern after (item c ∷ ps) = (is_some (item_of s_format_items c) ≡ true) × IsPattern false ps

unfoldable pub part : Piece → Part
part (text c str) = regular (c ∷ str)
part (date f) = escaped 100
part (item c) = escaped c

unfoldable pub formats : List Piece → Text
formats [] = []
formats (text c str ∷ ps) = formats ps
formats (date f ∷ ps) = f ++ formats ps
formats (item c ∷ ps) = formats ps

abbrev pub scan : Mode → List Part → Text → Text → Scan
scan m done tmp df = record { mode = m; patterns = done; tmp = tmp; dateformat = df }

module _ (done : List Part) (tmp df : Text) where
  step_text :
      (c : ℕ)
      → (c == 37) ≡ false
      → step_in in_string c (scan in_string done tmp df) ≡ scan in_string done (tmp ++ c ∷ []) df
  unfolding step_in step_string
  step_text c h = rw (h) refl

  step_format :
      (c : ℕ)
      → (c == 125) ≡ false
      → step_in in_braces c (scan in_braces done tmp df) ≡ scan in_braces done tmp (df ++ c ∷ [])
  unfolding step_in
  step_format c h = rw (h) refl

  step_item :
      (c : ℕ)
      → c ≢ 100
      → step_in in_pattern c (scan in_pattern done tmp df)
        ≡ scan in_string (done ++ escaped c ∷ []) tmp df
  unfolding step_in
  step_item c h = rw (ne→== c 100 h) refl

scan_text :
    (str rest : Text) (done : List Part) (tmp df : Text)
    → avoids 37 str ≡ true
    → scan_loop (str ++ rest) (scan in_string done tmp df)
      ≡ scan_loop rest (scan in_string done (tmp ++ str) df)
unfolding scan_loop avoids
scan_text [] rest done tmp df h =
    ap (λ z. scan_loop rest (scan in_string done z df)) (sym (append-nil tmp))
scan_text (c ∷ str) rest done tmp df h =
    let (n, r) = and-split (not (c == 37)) (avoids 37 str) h in
    ap (scan_loop (str ++ rest)) (step_text done tmp df c (not-split (c == 37) n))
    ∙ scan_text str rest done (tmp ++ c ∷ []) df r
    ∙ ap (λ z. scan_loop rest (scan in_string done z df)) (append_assoc tmp (c ∷ []) str)

scan_format :
    (f rest : Text) (done : List Part) (tmp df : Text)
    → avoids 125 f ≡ true
    → scan_loop (f ++ 125 ∷ rest) (scan in_braces done tmp df)
      ≡ scan_loop rest (scan in_string done tmp (df ++ f))
unfolding scan_loop step_in avoids
scan_format [] rest done tmp df h =
    ap (λ z. scan_loop rest (scan in_string done tmp z)) (sym (append-nil df))
scan_format (c ∷ f) rest done tmp df h =
    let (n, r) = and-split (not (c == 125)) (avoids 125 f) h in
    ap (scan_loop (f ++ 125 ∷ rest)) (step_format done tmp df c (not-split (c == 125) n))
    ∙ scan_format f rest done tmp (df ++ c ∷ []) r
    ∙ ap (λ z. scan_loop rest (scan in_string done tmp z)) (append_assoc df (c ∷ []) f)

abbrev pub finish : Scan → Scanned
unfolding finish_in
finish s = finish_in s.mode s

pub known-date : (c : ℕ) → is_some (item_of s_format_items c) ≡ true → c ≢ 100
unfolding item_of
known-date c h e = false≢true (sym (ap (λ z. is_some (item_of s_format_items z)) e) ∙ h)

-- The scan of a printed pattern after some parts, a text and a date format.
pub scan_pieces :
    (after : Bool) (ps : List Piece) (done : List Part) (tmp df : Text)
    → IsPattern after ps
    → (after ≡ false → tmp ≡ [])
    → finish (scan_loop (print_pattern ps) (scan in_string done tmp df))
      ≡ parts (push_text tmp done ++ map part ps) (df ++ formats ps)
unfolding scan_loop step_in step_string print_pattern IsPattern part formats finish_in
scan_pieces after [] done tmp df w e =
    ap₂ parts (sym (append-nil (push_text tmp done))) (sym (append-nil df))
scan_pieces after (text c str ∷ ps) done tmp df (a, h, w) e =
    ap finish (scan_text (c ∷ str) (print_pattern ps) done tmp df h)
    ∙ ap (λ z. finish (scan_loop (print_pattern ps) (scan in_string done (z ++ c ∷ str) df))) (e a)
    ∙ scan_pieces true ps done (c ∷ str) df w (λ z. absurd (false≢true (sym z)))
    ∙ ap (λ z. parts z (df ++ formats ps))
        (append_assoc done (regular (c ∷ str) ∷ []) (map part ps))
    ∙ ap (λ z. parts (push_text z done ++ regular (c ∷ str) ∷ map part ps) (df ++ formats ps))
        (sym (e a))
scan_pieces after (date f ∷ ps) done tmp df (h, w) e =
    ap finish (scan_format f (print_pattern ps) (push_text tmp done ++ escaped 100 ∷ []) [] df h)
    ∙ scan_pieces false ps (push_text tmp done ++ escaped 100 ∷ []) [] (df ++ f) w (λ z. refl)
    ∙ ap₂ parts (append_assoc (push_text tmp done) (escaped 100 ∷ []) (map part ps))
        (append_assoc df f (formats ps))
scan_pieces after (item c ∷ ps) done tmp df (n, w) e =
    ap (λ z. finish (scan_loop (print_pattern ps) z))
      (step_item (push_text tmp done) [] df c (known-date c n))
    ∙ scan_pieces false ps (push_text tmp done ++ escaped c ∷ []) [] df w (λ z. refl)
    ∙ ap (λ z. parts z (df ++ formats ps))
        (append_assoc (push_text tmp done) (escaped c ∷ []) (map part ps))
