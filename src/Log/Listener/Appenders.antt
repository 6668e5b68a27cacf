-- ===== src/Log/Listener/Appenders.antt =====
-- sylar/log.cpp, LogIniter: the appenders that a logger gets from its definition.
use sylar_from_scratch.Base.{
  Bool, true, false, ◌&&◌, List, [], ◌∷◌, ◌++◌, Option, some, none, ◌==◌, if◌then◌else◌, maybe,
  or_else, is_some, ◌≡◌, refl, sym, ap, ◌∙◌, append-nil, append_assoc,
}
use sylar_from_scratch.Log.Logger.{LogAppender, Logger, add_appender, clear_appenders, set_level}
use sylar_from_scratch.Log.Listener.{
  LogAppenderDefine, LogDefine, appender_of, add_define, add_defines, configure,
}
use mathlib.Core.Bool.{false≢true}
use mathlib.Core.Option

-- The appenders that definitions ask for: none where one has no target or no pattern; a daemon has no
-- output.
unfoldable pub appenders_of : Bool → List LogAppenderDefine → Option (List LogAppender)
appenders_of daemon [] = some []
appenders_of daemon (a ∷ as') =
    let rest = appenders_of daemon as' in
    if a.type == 2 && daemon
    then rest
    else maybe none (λ ap. Option.map (λ aps. ap ∷ aps) rest) (appender_of a)

abbrev with_appenders : Logger → List LogAppender → Logger
with_appenders l aps = record l { appenders = l.appenders ++ aps }

with-cons :
    (l : Logger) (a : LogAppender) (o : Option (List LogAppender))
    → Option.map (with_appenders (add_appender a l)) o
      ≡ Option.map (with_appenders l) (Option.map (λ aps. a ∷ aps) o)
unfolding add_appender
with-cons l a none = refl
with-cons l a (some aps) =
    ap (λ z. some (record l { appenders = z })) (append_assoc l.appenders (a ∷ []) aps)

add_round :
    (next : Logger → Option Logger) (rest : Option (List LogAppender))
    → ((l : Logger) → next l ≡ Option.map (with_appenders l) rest)
    → (skip : Bool) (o : Option LogAppender) (l : Logger)
    → maybe none next (if skip then some l else maybe none (λ a. some (add_appender a l)) o)
      ≡ Option.map
          (with_appenders l)
          (if skip then rest else maybe none (λ a. Option.map (λ aps. a ∷ aps) rest) o)
add_round next rest e true o l = e l
add_round next rest e false none l = refl
add_round next rest e false (some a) l = e (add_appender a l) ∙ with-cons l a rest

add_defines_lem :
    (daemon : Bool) (as' : List LogAppenderDefine) (l : Logger)
    → add_defines daemon as' l ≡ Option.map (with_appenders l) (appenders_of daemon as')
unfolding add_defines add_define appenders_of
add_defines_lem daemon [] l =
    ap (λ z. some (record l { appenders = z })) (sym (append-nil l.appenders))
add_defines_lem daemon (a ∷ as') l =
    add_round (add_defines daemon as') (appenders_of daemon as') (add_defines_lem daemon as')
      (a.type == 2 && daemon) (appender_of a) l

-- What a definition makes of a logger.
unfoldable pub configured : Bool → LogDefine → Logger → Logger
configured daemon i l = record l {
  level = i.level;
  appenders = or_else [] (appenders_of daemon i.appenders);
}

or_else-some {ℓ} : {A : Type ℓ} (d : A) (o : Option A) → is_some o ≡ true → o ≡ some (or_else d o)
or_else-some d none h = absurd (false≢true h)
or_else-some d (some a) h = refl

pub configure_lem :
    (daemon : Bool) (i : LogDefine) (l : Logger)
    → is_some (appenders_of daemon i.appenders) ≡ true
    → configure daemon i l ≡ some (configured daemon i l)
unfolding configure configured clear_appenders set_level
configure_lem daemon i l h =
    add_defines_lem daemon i.appenders (clear_appenders (set_level i.level l))
    ∙ ap (Option.map (with_appenders (clear_appenders (set_level i.level l))))
        (or_else-some [] (appenders_of daemon i.appenders) h)
