-- ===== src/Log.antt =====
-- sylar/log.h and sylar/log.cpp: levels, events, and the formatter of a pattern.
-- A text is the list of its bytes. What strftime writes for a format and a time is an argument.
pub mod Pieces
pub mod Pattern
pub mod Logger
pub mod Listener
mod Decimal
mod Tests
use sylar_from_scratch.Base.{
  ℕ, zero, suc, ◌+◌, ◌/◌, ◌%◌, Bool, true, false, List, [], ◌∷◌, ◌++◌, Option, some, none, ltb,
  ◌==◌, if◌then◌else◌, maybe, ◌≡◌, refl, ap,
}
use sylar_from_scratch.Base.Bytes.{Text, codes, same}
use mathlib.Core.List.{map}
use mathlib.Core.Option

-- enum LogLevel::Level by its values; NOTSET is 800.
abbrev pub level_names : List (ℕ × Text)
level_names =
    (0, codes "FATAL")
    ∷ (100, codes "ALERT")
    ∷ (200, codes "CRIT")
    ∷ (300, codes "ERROR")
    ∷ (400, codes "WARN")
    ∷ (500, codes "NOTICE")
    ∷ (600, codes "INFO")
    ∷ (700, codes "DEBUG")
    ∷ []

abbrev pub small_level_names : List (ℕ × Text)
small_level_names =
    (0, codes "fatal")
    ∷ (100, codes "alert")
    ∷ (200, codes "crit")
    ∷ (300, codes "error")
    ∷ (400, codes "warn")
    ∷ (500, codes "notice")
    ∷ (600, codes "info")
    ∷ (700, codes "debug")
    ∷ []

pub name_of : List (ℕ × Text) → ℕ → Text
name_of [] level = codes "NOTSET"
name_of ((l, name) ∷ names) level = if l == level then name else name_of names level

pub level_to_string : ℕ → Text
unfolding name_of
level_to_string = name_of level_names

pub level_of : List (ℕ × Text) → Text → ℕ
unfolding same
level_of [] str = 800
level_of ((l, name) ∷ names) str = if same str name then l else level_of names str

pub level_from_string : Text → ℕ
unfolding level_of
level_from_string = level_of (small_level_names ++ level_names)

-- The members of LogEvent; the content is the text of its string stream.
pub record LogEvent : Type 0 where
  pub level : ℕ
  pub content : Text
  pub file : Text
  pub line : ℕ
  pub elapse : ℕ
  pub thread_id : ℕ
  pub fiber_id : ℕ
  pub time : ℕ
  pub thread_name : Text
  pub logger_name : Text

-- `<<` of a number in decimal, by its digits: twenty are enough below 2 ^ 64.
pub decimal_loop : ℕ → ℕ → Text
decimal_loop zero n = []
decimal_loop (suc fuel) n =
    let rest = decimal_loop fuel (n / 10) in (if ltb n 10 then [] else rest) ++ (48 + n % 10) ∷ []

pub decimal : ℕ → Text
unfolding decimal_loop
decimal = decimal_loop 20

-- The subclasses of FormatItem.
pub data FormatItem : Type 0 where
  message_format_item : FormatItem
  level_format_item : FormatItem
  elapse_format_item : FormatItem
  logger_name_format_item : FormatItem
  thread_id_format_item : FormatItem
  fiber_id_format_item : FormatItem
  thread_name_format_item : FormatItem
  date_time_format_item : Text → FormatItem
  file_name_format_item : FormatItem
  line_format_item : FormatItem
  new_line_format_item : FormatItem
  string_format_item : Text → FormatItem
  tab_format_item : FormatItem
  percent_sign_format_item : FormatItem

-- The constructor of DateTimeFormatItem.
pub date_time_item : Text → FormatItem
date_time_item [] = date_time_format_item (codes "%Y-%m-%d %H:%M:%S")
date_time_item (c ∷ format) = date_time_format_item (c ∷ format)

-- The method format of each; 9, 10 and 37 are the tab, the new line and the percent sign.
pub format_item : (Text → ℕ → Text) → FormatItem → LogEvent → Text
unfolding level_to_string decimal
format_item strftime message_format_item e = e.content
format_item strftime level_format_item e = level_to_string e.level
format_item strftime elapse_format_item e = decimal e.elapse
format_item strftime logger_name_format_item e = e.logger_name
format_item strftime thread_id_format_item e = decimal e.thread_id
format_item strftime fiber_id_format_item e = decimal e.fiber_id
format_item strftime thread_name_format_item e = e.thread_name
format_item strftime (date_time_format_item format) e = strftime format e.time
format_item strftime file_name_format_item e = e.file
format_item strftime line_format_item e = decimal e.line
format_item strftime new_line_format_item e = 10 ∷ []
format_item strftime (string_format_item str) e = str
format_item strftime tab_format_item e = 9 ∷ []
format_item strftime percent_sign_format_item e = 37 ∷ []

-- A pair of `patterns`: (0, a text) or (1, one character).
pub data Part : Type 0 where
  regular : Text → Part
  escaped : ℕ → Part

-- Where the loop of `init` stands: in regular characters, after a percent sign, after its `d`, in the
-- braces of a date format.
pub data Mode : Type 0 where
  in_string : Mode
  in_pattern : Mode
  after_date : Mode
  in_braces : Mode

pub record Scan : Type 0 where
  pub mode : Mode
  pub patterns : List Part
  pub tmp : Text
  pub dateformat : Text

abbrev pub push_text : Text → List Part → List Part
push_text [] patterns = patterns
push_text (c ∷ tmp) patterns = patterns ++ regular (c ∷ tmp) ∷ []

pub step_string : ℕ → Scan → Scan
step_string c s =
    if c == 37
    then record s { mode = in_pattern; patterns = push_text s.tmp s.patterns; tmp = [] }
    else record s { mode = in_string; tmp = s.tmp ++ c ∷ [] }

-- One character of the pattern, 37 '%', 100 'd', 123 '{' and 125 '}'.
pub step_in : Mode → ℕ → Scan → Scan
unfolding step_string
step_in in_string c s = step_string c s
step_in in_pattern c s = record s {
  mode = if c == 100 then after_date else in_string;
  patterns = s.patterns ++ escaped c ∷ [];
}
step_in after_date c s = if c == 123 then record s { mode = in_braces } else step_string c s
step_in in_braces c s =
    if c == 125
    then record s { mode = in_string }
    else record s { dateformat = s.dateformat ++ c ∷ [] }

pub scan_loop : Text → Scan → Scan
unfolding step_in
scan_loop [] s = s
scan_loop (c ∷ cs) s = scan_loop cs (step_in s.mode c s)

-- The loop's end: the parts and the date format; the error of a brace that is not closed; a read
-- behind the pattern's end after a last `%d`.
pub data Scanned : Type 0 where
  parts : List Part → Text → Scanned
  unclosed : Scanned
  past_end : Scanned

pub finish_in : Mode → Scan → Scanned
finish_in in_string s = parts (push_text s.tmp s.patterns) s.dateformat
finish_in in_pattern s = parts (push_text s.tmp s.patterns) s.dateformat
finish_in after_date s = past_end
finish_in in_braces s = unclosed

pub scan_pattern : Text → Scanned
unfolding scan_loop finish_in
scan_pattern pattern =
    let s =
      scan_loop pattern (record { mode = in_string; patterns = []; tmp = []; dateformat = [] }) in
    finish_in s.mode s

-- s_format_items, by the characters' codes.
abbrev pub s_format_items : List (ℕ × FormatItem)
s_format_items =
    (109, message_format_item)
    ∷ (112, level_format_item)
    ∷ (99, logger_name_format_item)
    ∷ (114, elapse_format_item)
    ∷ (102, file_name_format_item)
    ∷ (108, line_format_item)
    ∷ (116, thread_id_format_item)
    ∷ (70, fiber_id_format_item)
    ∷ (78, thread_name_format_item)
    ∷ (37, percent_sign_format_item)
    ∷ (84, tab_format_item)
    ∷ (110, new_line_format_item)
    ∷ []

pub item_of {ℓ} : {A : Type ℓ} → List (ℕ × A) → ℕ → Option A
item_of [] c = none
item_of ((k, item) ∷ rest) c = if k == c then some item else item_of rest c

pub part_item : Text → Part → Option FormatItem
unfolding item_of date_time_item
part_item dateformat (regular str) = some (string_format_item str)
part_item dateformat (escaped c) =
    if c == 100 then some (date_time_item dateformat) else item_of s_format_items c

-- m_items and m_error.
pub add_items : Text → List Part → List FormatItem × Bool
unfolding part_item
add_items dateformat [] = ([], false)
add_items dateformat (p ∷ ps) =
    maybe ([], true) (λ item. let (items, error) = add_items dateformat ps in (item ∷ items, error))
      (part_item dateformat p)

pub record LogFormatter : Type 0 where
  pub pattern : Text
  pub items : List FormatItem
  pub error : Bool

-- The constructor with its call of `init`; none where it reads behind the pattern.
pub build : Text → Scanned → Option LogFormatter
unfolding add_items
build pattern (parts ps dateformat) =
    let (items, error) = add_items dateformat ps in
    some (record { pattern = pattern; items = items; error = error })
build pattern unclosed = some (record { pattern = pattern; items = []; error = true })
build pattern past_end = none

pub log_formatter : Text → Option LogFormatter
unfolding build scan_pattern
log_formatter pattern = build pattern (scan_pattern pattern)

pub format_items : (Text → ℕ → Text) → List FormatItem → LogEvent → Text
unfolding format_item
format_items strftime [] e = []
format_items strftime (item ∷ items) e =
    format_item strftime item e ++ format_items strftime items e

pub format : (Text → ℕ → Text) → LogFormatter → LogEvent → Text
unfolding format_items
format strftime f e = format_items strftime f.items e
