-- ===== src/Log/Pattern.antt =====
-- sylar/log.cpp, LogFormatter: the items of a pattern that is written from pieces, and what they print.
use sylar_from_scratch.Base.{
  ℕ, Bool, true, false, List, [], ◌∷◌, ◌++◌, Option, some, none, ◌==◌, ◌≡◌, ◌≢◌, refl, sym, ap, ap₂,
  ◌∙◌, ne→==, is_some, or_else, Bool-cases, inl, inr,
}
use sylar_from_scratch.Base.Bytes.{Text, codes}
use mathlib.Core.Bool.{false≢true}
use mathlib.Core.List.{map}
use mathlib.Core.Option
use sylar_from_scratch.Log.{
  Part, regular, escaped, scan_pattern, FormatItem, LogEvent, s_format_items, item_of,
  level_to_string, decimal, format_item, date_time_item, string_format_item, part_item, add_items,
  format_items, LogFormatter, log_formatter, build, format,
}
use sylar_from_scratch.Log.Pieces.{
  Piece, text, date, item, print_pattern, IsPattern, part, formats, known-date, scan_pieces,
}

-- The format that all dates of a pattern have.
date_format : Text → Text
date_format [] = codes "%Y-%m-%d %H:%M:%S"
date_format (c ∷ f) = c ∷ f

-- What the characters stand for, by the documentation of the class.
unfoldable pub said : LogEvent → List (ℕ × Text)
said e =
    (109, e.content)
    ∷ (112, level_to_string e.level)
    ∷ (99, e.logger_name)
    ∷ (114, decimal e.elapse)
    ∷ (102, e.file)
    ∷ (108, decimal e.line)
    ∷ (116, decimal e.thread_id)
    ∷ (70, decimal e.fiber_id)
    ∷ (78, e.thread_name)
    ∷ (37, codes "%")
    ∷ (84, 9 ∷ [])
    ∷ (110, 10 ∷ [])
    ∷ []

-- The text of an event by the pieces of a pattern whose dates have the format `df`.
unfoldable pub written : (Text → ℕ → Text) → Text → List Piece → LogEvent → Text
unfolding date_format
written strftime df [] e = []
written strftime df (text c str ∷ ps) e = (c ∷ str) ++ written strftime df ps e
written strftime df (date f ∷ ps) e = strftime (date_format df) e.time ++ written strftime df ps e
written strftime df (item c ∷ ps) e = or_else [] (item_of (said e) c) ++ written strftime df ps e

abbrev second {ℓ} : {A B : Type ℓ} → (A → B) → ℕ × A → ℕ × B
second f (k, x) = (k, f x)

item_of-map {ℓ} :
    {A B : Type ℓ} (f : A → B) (table : List (ℕ × A)) (c : ℕ)
    → item_of (map (second f) table) c ≡ Option.map f (item_of table c)
unfolding item_of
item_of-map f [] c = refl
item_of-map f ((k, x) ∷ table) c = elim (Bool-cases (k == c)) [
  | inl t ↦ rw (t) refl
  | inr n ↦ rw (n) (item_of-map f table c)
]

said-table :
    (strftime : Text → ℕ → Text) (e : LogEvent) (c : ℕ)
    → item_of (said e) c ≡ Option.map (λ i. format_item strftime i e) (item_of s_format_items c)
unfolding said format_item
said-table strftime e c = item_of-map (λ i. format_item strftime i e) s_format_items c

said-item :
    (strftime : Text → ℕ → Text) (e : LogEvent) (c : ℕ) (i : FormatItem)
    → item_of s_format_items c ≡ some i
    → format_item strftime i e ≡ or_else [] (item_of (said e) c)
said-item strftime e c i h =
    sym (
      ap (or_else []) (said-table strftime e c ∙ ap (Option.map (λ j. format_item strftime j e)) h))

said-date :
    (strftime : Text → ℕ → Text) (df : Text) (e : LogEvent)
    → format_item strftime (date_time_item df) e ≡ strftime (date_format df) e.time
unfolding format_item date_time_item date_format
said-date strftime [] e = refl
said-date strftime (c ∷ df) e = refl

item_at : (o : Option FormatItem) → is_some o ≡ true → (i : FormatItem) × (o ≡ some i)
item_at none h = absurd (false≢true h)
item_at (some i) h = (i, refl)

add_part :
    (df : Text) (p : Part) (i : FormatItem) (ps : List Part) (items : List FormatItem)
    → part_item df p ≡ some i
    → add_items df ps ≡ (items, false)
    → add_items df (p ∷ ps) ≡ (i ∷ items, false)
unfolding add_items
add_part df p i ps items h eq = rw (h, eq) refl

escaped_item :
    (c : ℕ) (df : Text) (i : FormatItem)
    → c ≢ 100
    → item_of s_format_items c ≡ some i
    → part_item df (escaped c) ≡ some i
unfolding part_item
escaped_item c df i n h = rw (ne→== c 100 n) h

-- The items of the parts.
items-written :
    (after : Bool) (ps : List Piece) (df : Text)
    → IsPattern after ps
    → (items : List FormatItem) × (add_items df (map part ps) ≡ (items, false))
      × ((strftime : Text → ℕ → Text) (e : LogEvent)
          → format_items strftime items e ≡ written strftime df ps e)
unfolding IsPattern add_items part part_item format_items written format_item
items-written after [] df w = ([], refl, λ s e. refl)
items-written after (text c str ∷ ps) df (a, h, w) =
    let (items, eq, says) = items-written true ps df w in
    (
      string_format_item (c ∷ str) ∷ items,
      add_part df (regular (c ∷ str)) (string_format_item (c ∷ str)) (map part ps) items refl eq,
      λ s e. ap (λ z. (c ∷ str) ++ z) (says s e),
    )
items-written after (date f ∷ ps) df (h, w) =
    let (items, eq, says) = items-written false ps df w in
    (
      date_time_item df ∷ items,
      add_part df (escaped 100) (date_time_item df) (map part ps) items refl eq,
      λ s e. ap₂ (λ x y. x ++ y) (said-date s df e) (says s e),
    )
items-written after (item c ∷ ps) df (n, w) =
    let (items, eq, says) = items-written false ps df w in
    let (i, at) = item_at (item_of s_format_items c) n in
    (
      i ∷ items,
      add_part df (escaped c) i (map part ps) items (escaped_item c df i (known-date c n) at) eq,
      λ s e. ap₂ (λ x y. x ++ y) (said-item s e c i at) (says s e),
    )

-- The formatter of a pattern, printed from pieces with texts apart, without percent signs, with formats
-- without closing braces and known characters, is made without an error, and writes an event as
-- the pieces say, where every date has the formats of all dates put together.
pub format-print_pattern :
    (ps : List Piece)
    → IsPattern false ps
    → (f : LogFormatter) × (log_formatter (print_pattern ps) ≡ some f)
      × (f.error ≡ false)
      × ((strftime : Text → ℕ → Text) (e : LogEvent)
          → format strftime f e ≡ written strftime (formats ps) ps e)
unfolding log_formatter scan_pattern build format
format-print_pattern ps w =
    let (items, eq, says) = items-written false ps (formats ps) w in
    (
      record { pattern = print_pattern ps; items = items; error = false },
      ap (build (print_pattern ps)) (scan_pieces false ps [] [] [] w (λ z. refl))
          ∙ ap (λ z. some (record { pattern = print_pattern ps; items = z.0; error = z.1 })) eq,
      refl,
      says,
    )
