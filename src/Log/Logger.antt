-- ===== src/Log/Logger.antt =====
-- sylar/log.h and sylar/log.cpp: appenders, loggers and their manager. A log file's stream is not part
-- of an appender.
use sylar_from_scratch.Base.{
  ℕ, List, [], ◌∷◌, ◌++◌, Option, some, leb, if◌then◌else◌, maybe, or_else,
}
use sylar_from_scratch.Base.Bytes.{Text, same}
use sylar_from_scratch.Log.{LogEvent, LogFormatter, format}
use mathlib.Core.List.{map}

pub data Target : Type 0 where
  file_log_appender : Text → Target
  stdout_log_appender : Target

pub record LogAppender : Type 0 where
  pub target : Target
  pub formatter : Option LogFormatter
  pub default_formatter : LogFormatter

abbrev pub set_formatter : LogFormatter → LogAppender → LogAppender
set_formatter val a = record a { formatter = some val }

pub get_formatter : LogAppender → LogFormatter
get_formatter a = or_else a.default_formatter a.formatter

pub record Logger : Type 0 where
  pub name : Text
  pub level : ℕ
  pub appenders : List LogAppender

-- The constructor: level INFO and no appender.
unfoldable pub new_logger : Text → Logger
new_logger name = record { name = name; level = 600; appenders = [] }

unfoldable pub add_appender : LogAppender → Logger → Logger
add_appender a l = record l { appenders = l.appenders ++ a ∷ [] }

unfoldable pub clear_appenders : Logger → Logger
clear_appenders l = record l { appenders = [] }

unfoldable pub set_level : ℕ → Logger → Logger
set_level level l = record l { level = level }

-- What `log` writes, and where: one text for each appender, if the event's level is at most the
-- logger's. Every file is open.
pub log : (Text → ℕ → Text) → LogEvent → Logger → List (Target × Text)
unfolding get_formatter format
log strftime e l =
    if leb e.level l.level
    then map (λ a. (a.target, format strftime (get_formatter a) e)) l.appenders
    else []

-- LoggerManager: the map from names to loggers. A logger that changes is assigned again.
abbrev pub LoggerManager : Type 0
LoggerManager = Text → Option Logger

unfoldable pub assign : Text → Logger → LoggerManager → LoggerManager
unfolding same
assign name l m n = if same name n then some l else m n

-- A name that is not there gets a new logger, without appenders.
unfoldable pub get_logger : Text → LoggerManager → Logger × LoggerManager
unfolding new_logger assign
get_logger name m = maybe (new_logger name, assign name (new_logger name) m) (λ l. (l, m)) (m name)
