-- ===== src/Log/Tests.antt =====
-- The default pattern, patterns with errors, and the theorems about patterns at examples.
use sylar_from_scratch.Base.{ℕ, ◌≡◌, true, false, refl, List, [], ◌∷◌, some, none}
use sylar_from_scratch.Base.Bytes.{Text, codes, avoids}
use sylar_from_scratch.Log.{
  log_formatter, item_of, LogFormatter, LogEvent, date_time_format_item, string_format_item,
  elapse_format_item, level_to_string, level_from_string, decimal, format,
}
use sylar_from_scratch.Log.Pieces.{Piece, text, date, item, print_pattern, IsPattern, formats}
use sylar_from_scratch.Log.Pattern.{written, format-print_pattern}
use mathlib.Core.Option

items_small :
    Option.map (λ f. f.items) (log_formatter (codes "%d{%Y} [%r"))
    ≡ some (
        date_time_format_item (codes "%Y")
        ∷ string_format_item (codes " [")
        ∷ elapse_format_item
        ∷ [])
unfolding log_formatter
items_small = refl

-- A pattern that ends with %d is read behind its end.
date_last : log_formatter (codes "a%d") ≡ none
unfolding log_formatter
date_last = refl

unknown_item : Option.map (λ f. f.error) (log_formatter (codes "a%x")) ≡ some true
unfolding log_formatter
unknown_item = refl

decimal_small : decimal 1034 ≡ codes "1034"
unfolding decimal
decimal_small = refl

level_small : level_from_string (level_to_string 500) ≡ 500
unfolding level_from_string level_to_string
level_small = refl

-- "[%p]%d{%H}".
abbrev pieces : List Piece
pieces = text 91 [] ∷ item 112 ∷ text 93 [] ∷ date (codes "%H") ∷ []

pieces-IsPattern : IsPattern false pieces
unfolding IsPattern avoids item_of
pieces-IsPattern = (refl, refl, (refl, (refl, refl, (refl, tt))))

format-print_pattern_example :
    (f : LogFormatter) × (log_formatter (print_pattern pieces) ≡ some f)
    × (f.error ≡ false)
    × ((strftime : Text → ℕ → Text) (e : LogEvent)
        → format strftime f e ≡ written strftime (formats pieces) pieces e)
format-print_pattern_example = format-print_pattern pieces pieces-IsPattern
