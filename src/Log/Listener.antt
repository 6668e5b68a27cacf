-- ===== src/Log/Listener.antt =====
-- sylar/log.cpp, LogDefine and LogIniter: the listener that applies a change of the log configuration
-- to the loggers. A use of a null pointer, or a read behind a pattern, is none.
pub mod Appenders
pub mod Apply
pub mod Change
mod Tests
use sylar_from_scratch.Base.{
  ℕ, Bool, true, false, ◌&&◌, List, [], ◌∷◌, ◌++◌, Option, some, none, ◌==◌, if◌then◌else◌, maybe,
}
use sylar_from_scratch.Base.Bytes.{Text, codes, same}
use sylar_from_scratch.Log.{LogFormatter, log_formatter}
use sylar_from_scratch.Log.Logger.{
  Target, file_log_appender, stdout_log_appender, LogAppender, set_formatter, Logger, add_appender,
  clear_appenders, set_level, LoggerManager, assign, get_logger,
}

pub record LogAppenderDefine : Type 0 where
  pub type : ℕ
  pub pattern : Text
  pub file : Text

pub record LogDefine : Type 0 where
  pub name : Text
  pub level : ℕ
  pub appenders : List LogAppenderDefine

pub same_appender : LogAppenderDefine → LogAppenderDefine → Bool
unfolding same
same_appender a oth = a.type == oth.type && (same a.pattern oth.pattern && same a.file oth.file)

-- `==` of std::vector.
pub same_appenders : List LogAppenderDefine → List LogAppenderDefine → Bool
unfolding same_appender
same_appenders [] [] = true
same_appenders [] (b ∷ bs) = false
same_appenders (a ∷ as') [] = false
same_appenders (a ∷ as') (b ∷ bs) = same_appender a b && same_appenders as' bs

-- `operator==`, which compares its own appenders with themselves.
pub same_define : LogDefine → LogDefine → Bool
unfolding same same_appenders
same_define i oth =
    same i.name oth.name && (i.level == oth.level && same_appenders i.appenders i.appenders)

-- `find` of a std::set in the order of names.
pub find_define : Text → List LogDefine → Option LogDefine
unfolding same
find_define name [] = none
find_define name (i ∷ is) = if same i.name name then some i else find_define name is

abbrev pub default_pattern : Text
default_pattern = codes "%d{%Y-%m-%d %H:%M:%S} [%rms]%T%t%T%N%T%F%T[%p]%T[%c]%T%f:%l%T%m%n"

abbrev pub pattern_or_default : Text → Text
pattern_or_default [] = default_pattern
pattern_or_default (c ∷ pattern) = c ∷ pattern

-- A new appender with its default formatter and the formatter of its definition.
pub new_appender : Target → Text → Option LogAppender
new_appender target pattern =
    maybe none
      (λ d.
        maybe none
          (λ f.
            some (
              set_formatter f
                (record { target = target; formatter = none; default_formatter = d })))
          (log_formatter (pattern_or_default pattern)))
      (log_formatter default_pattern)

-- The appender of a definition; another type leaves the pointer null.
pub appender_of : LogAppenderDefine → Option LogAppender
appender_of a =
    if a.type == 1
    then new_appender (file_log_appender a.file) a.pattern
    else if a.type == 2
    then new_appender stdout_log_appender a.pattern
    else none

-- One round of the loop over the appenders; `daemon` is whether the option d is set.
pub add_define : Bool → LogAppenderDefine → Logger → Option Logger
add_define daemon a l =
    if a.type == 2 && daemon
    then some l
    else maybe none (λ ap. some (add_appender ap l)) (appender_of a)

pub add_defines : Bool → List LogAppenderDefine → Logger → Option Logger
unfolding add_define
add_defines daemon [] l = some l
add_defines daemon (a ∷ as') l = maybe none (add_defines daemon as') (add_define daemon a l)

pub configure : Bool → LogDefine → Logger → Option Logger
unfolding set_level clear_appenders add_defines
configure daemon i l = add_defines daemon i.appenders (clear_appenders (set_level i.level l))

-- One round of the loop over the new value. Where the old one has the name with another level, the
-- source compares the logger with its null pointer in place of assigning it, and goes through it.
pub apply_define : Bool → List LogDefine → LogDefine → LoggerManager → Option LoggerManager
unfolding get_logger configure assign find_define same_define
apply_define daemon old i m =
    maybe
      (let (l, m') = get_logger i.name m in
        maybe none (λ l'. some (assign i.name l' m')) (configure daemon i l))
      (λ o. if same_define i o then some m else none) (find_define i.name old)

pub apply_defines : Bool → List LogDefine → List LogDefine → LoggerManager → Option LoggerManager
unfolding apply_define
apply_defines daemon old [] m = some m
apply_defines daemon old (i ∷ is) m =
    maybe none (apply_defines daemon old is) (apply_define daemon old i m)

-- One round of the loop over the old value: a logger that the new one does not have loses its
-- appenders.
pub drop_define : List LogDefine → LogDefine → LoggerManager → LoggerManager
unfolding get_logger set_level clear_appenders assign find_define
drop_define new i m =
    maybe
      (let (l, m') = get_logger i.name m in assign i.name (clear_appenders (set_level 800 l)) m')
      (λ o. m) (find_define i.name new)

pub drop_defines : List LogDefine → List LogDefine → LoggerManager → LoggerManager
unfolding drop_define
drop_defines new [] m = m
drop_defines new (i ∷ is) m = drop_defines new is (drop_define new i m)

pub on_change : Bool → List LogDefine → List LogDefine → LoggerManager → Option LoggerManager
unfolding apply_defines drop_defines
on_change daemon old new m =
    maybe none (λ m'. some (drop_defines new old m')) (apply_defines daemon old new m)
