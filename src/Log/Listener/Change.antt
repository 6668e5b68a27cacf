-- ===== src/Log/Listener/Change.antt =====
-- sylar/log.cpp, LogIniter: the loggers after a change of the log configuration.
use sylar_from_scratch.Base.{
  Bool, true, false, ◌&&◌, List, [], ◌∷◌, ◌++◌, Option, some, none, if◌then◌else◌, maybe, All, ◌≡◌,
  ◌≢◌, refl, sym, ap, ◌∙◌, Bool-cases, inl, inr, ne→==,
}
use sylar_from_scratch.Base.Bytes.{Text, same, same-eq}
use sylar_from_scratch.Log.Logger.{
  Logger, LoggerManager, clear_appenders, set_level, assign, get_logger,
}
use sylar_from_scratch.Log.Listener.{
  LogDefine, same_define, find_define, apply_define, apply_defines, drop_define, drop_defines,
  on_change,
}
use sylar_from_scratch.Log.Listener.Appenders.{configured}
use sylar_from_scratch.Log.Listener.Apply.{
  logger_at, get_logger-logger, assigned-same, assigned-other, applied, Applies, IsUnique,
  find_define-same, apply_defines_lem,
}

-- What the loss of its definition makes of a logger.
unfoldable pub muted : Logger → Logger
muted l = record l { level = 800; appenders = [] }

and_false : (b : Bool) → (b && false) ≡ false
and_false true = refl
and_false false = refl

-- The logger of a name after the loop over the old value, by its definitions in both.
dropped : Text → Option LogDefine → Option LogDefine → Option Logger → Option Logger
unfolding logger_at muted
dropped n (some i) old c = c
dropped n none none c = c
dropped n none (some o) c = some (muted (logger_at n c))

module _ (new : List LogDefine) (i : LogDefine) (m : LoggerManager) where
  abbrev left : Text → Option Logger
  left n = if same i.name n then dropped n (find_define n new) (some i) (m n) else m n

  abbrev stopped : LoggerManager
  stopped =
      assign i.name (clear_appenders (set_level 800 (get_logger i.name m).0))
        (get_logger i.name m).1

  drop_none : find_define i.name new ≡ none → drop_define new i m ≡ stopped
  unfolding drop_define
  drop_none e = rw (e) refl

  drop_some : (o : LogDefine) → find_define i.name new ≡ some o → drop_define new i m ≡ m
  unfolding drop_define
  drop_some o e = rw (e) refl

  by_same :
      (n : Text) (b : Bool)
      → same i.name n ≡ b
      → (if b then dropped n (find_define n new) (some i) (m n) else m n) ≡ left n
  by_same n b e = ap (λ z. if z then dropped n (find_define n new) (some i) (m n) else m n) (sym e)

  stopped-left : find_define i.name new ≡ none → (n : Text) → stopped n ≡ left n
  unfolding dropped muted clear_appenders set_level
  stopped-left e n = elim (Bool-cases (same i.name n)) [
    | inl t ↦
        assigned-same i.name m (clear_appenders (set_level 800 (get_logger i.name m).0)) n t
        ∙ ap (λ l. some (muted l)) (get_logger-logger i.name m)
        ∙ ap (λ q. dropped i.name q (some i) (m i.name)) (sym e)
        ∙ ap (λ k. dropped k (find_define k new) (some i) (m k)) (same-eq i.name n t)
        ∙ by_same n true t
    | inr f ↦
        assigned-other i.name m (clear_appenders (set_level 800 (get_logger i.name m).0)) n f
        ∙ by_same n false f
  ]

  kept-left : (o : LogDefine) → find_define i.name new ≡ some o → (n : Text) → m n ≡ left n
  unfolding dropped
  kept-left o e n = elim (Bool-cases (same i.name n)) [
    | inl t ↦
        ap (λ q. dropped n q (some i) (m n)) (sym e ∙ find_define-same i.name n new t)
        ∙ by_same n true t
    | inr f ↦ by_same n false f
  ]

  drop-left :
      (q : Option LogDefine)
      → find_define i.name new ≡ q
      → (n : Text) → drop_define new i m n ≡ left n
  drop-left none e n = ap (λ z. z n) (drop_none e) ∙ stopped-left e n
  drop-left (some o) e n = ap (λ z. z n) (drop_some o e) ∙ kept-left o e n

dropped-none : (n : Text) (q : Option LogDefine) (c : Option Logger) → dropped n q none c ≡ c
unfolding dropped
dropped-none n none c = refl
dropped-none n (some o) c = refl

later-dropped :
    (n : Text) (b : Bool) (i : LogDefine) (q r : Option LogDefine) (c y x : Option Logger)
    → y ≡ (if b then dropped n q (some i) c else c)
    → x ≡ dropped n q r y
    → x ≡ dropped n q (if b then some i else r) c
unfolding dropped muted logger_at
later-dropped n true i (some o) r c y x e f = f ∙ e
later-dropped n true i none none c y x e f = f ∙ e
later-dropped n true i none (some o) c y x e f = f ∙ ap (λ z. some (muted (logger_at n z))) e
later-dropped n false i q r c y x e f = f ∙ ap (dropped n q r) e

drop_defines_lem :
    (new old : List LogDefine) (m : LoggerManager) (n : Text)
    → drop_defines new old m n ≡ dropped n (find_define n new) (find_define n old) (m n)
unfolding drop_defines dropped find_define
drop_defines_lem new [] m n = sym (dropped-none n (find_define n new) (m n))
drop_defines_lem new (i ∷ is) m n =
    later-dropped n (same i.name n) i (find_define n new) (find_define n is) (m n)
      (drop_define new i m n) (drop_defines new is (drop_define new i m) n)
      (drop-left new i m (find_define i.name new) refl n)
      (drop_defines_lem new is (drop_define new i m) n)

-- The logger of a name after a change, by its definitions in the new and the old value.
unfoldable pub changed :
    Bool → Text → Option LogDefine → Option LogDefine → Option Logger → Option Logger
changed daemon n none none c = c
changed daemon n none (some o) c = some (muted (logger_at n c))
changed daemon n (some i) (some o) c = c
changed daemon n (some i) none c = some (configured daemon i (logger_at n c))

changed_lem :
    (daemon : Bool) (n : Text) (p q : Option LogDefine) (c : Option Logger)
    → dropped n p q (applied daemon n p q c) ≡ changed daemon n p q c
unfolding dropped applied changed
changed_lem daemon n none none c = refl
changed_lem daemon n none (some o) c = refl
changed_lem daemon n (some i) none c = refl
changed_lem daemon n (some i) (some o) c = refl

-- Where every new definition is of another name than the old ones, with appenders, or keeps the level
-- that the old one has, the listener returns. Then a new name has the level and the appenders
-- of its definition, a name that lost its definition has level NOTSET and no appender, and
-- every other logger is as before.
pub on_change_lem :
    (daemon : Bool) (old new : List LogDefine) (m : LoggerManager)
    → IsUnique new
    → All (λ i. Applies daemon i (find_define i.name old)) new
    → (m' : LoggerManager) × (on_change daemon old new m ≡ some m')
      × ((n : Text) → m' n ≡ changed daemon n (find_define n new) (find_define n old) (m n))
unfolding on_change
on_change_lem daemon old new m u h =
    let (m1, e, p) = apply_defines_lem daemon old new m u h in
    (
      drop_defines new old m1,
      rw (e) refl,
      λ n.
          drop_defines_lem new old m1 n
          ∙ ap (dropped n (find_define n new) (find_define n old)) (p n)
          ∙ changed_lem daemon n (find_define n new) (find_define n old) (m n),
    )

level-same_define : (i o : LogDefine) → i.level ≢ o.level → same_define i o ≡ false
unfolding same_define
level-same_define i o h = rw (ne→== i.level o.level h) (and_false (same i.name o.name))

level-apply_define :
    (daemon : Bool) (old : List LogDefine) (i o : LogDefine) (m : LoggerManager)
    → find_define i.name old ≡ some o
    → i.level ≢ o.level
    → apply_define daemon old i m ≡ none
unfolding apply_define
level-apply_define daemon old i o m e h = rw (e, level-same_define i o h) refl

maybe-none {ℓ} :
    {A : Type ℓ} (f : A → Option A)
    → ((a : A) → f a ≡ none)
    → (c : Option A) → maybe none f c ≡ none
maybe-none f h none = refl
maybe-none f h (some a) = h a

none-apply_defines :
    (daemon : Bool) (old : List LogDefine) (i : LogDefine) (rest : List LogDefine)
    → ((m : LoggerManager) → apply_define daemon old i m ≡ none)
    → (before : List LogDefine) (m : LoggerManager)
    → apply_defines daemon old (before ++ i ∷ rest) m ≡ none
unfolding apply_defines
none-apply_defines daemon old i rest h [] m = rw (h m) refl
none-apply_defines daemon old i rest h (j ∷ before) m =
    maybe-none (apply_defines daemon old (before ++ i ∷ rest))
      (none-apply_defines daemon old i rest h before) (apply_define daemon old j m)

-- Where a new definition has another level than the old one of its name, the listener goes through a
-- null pointer.
pub level-on_change :
    (daemon : Bool) (old before : List LogDefine) (i o : LogDefine) (rest : List LogDefine)
    (m : LoggerManager)
    → find_define i.name old ≡ some o
    → i.level ≢ o.level
    → on_change daemon old (before ++ i ∷ rest) m ≡ none
unfolding on_change
level-on_change daemon old before i o rest m e h =
    ap (maybe none (λ m'. some (drop_defines (before ++ i ∷ rest) old m')))
      (none-apply_defines daemon old i rest (λ z. level-apply_define daemon old i o z e h) before m)
