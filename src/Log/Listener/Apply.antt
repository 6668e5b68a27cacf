-- ===== src/Log/Listener/Apply.antt =====
-- sylar/log.cpp, LogIniter: the loggers after the loop over the new definitions.
use sylar_from_scratch.Base.{
  Bool, true, false, List, [], ◌∷◌, Option, some, none, if◌then◌else◌, maybe, or_else, is_some, All,
  ◌≡◌, refl, sym, ap, ◌∙◌, Bool-cases, inl, inr, eq→==, some_inj,
}
use sylar_from_scratch.Base.Bytes.{Text, same, same_refl, same-eq}
use sylar_from_scratch.Log.Logger.{Logger, LoggerManager, new_logger, assign, get_logger}
use sylar_from_scratch.Log.Listener.{
  LogAppenderDefine, LogDefine, same_appender, same_appenders, same_define, find_define,
  apply_define, apply_defines,
}
use mathlib.Core.Bool.{false≢true}
use sylar_from_scratch.Log.Listener.Appenders.{appenders_of, configured, configure_lem}

unfoldable pub logger_at : Text → Option Logger → Logger
unfolding new_logger
logger_at n c = or_else (new_logger n) c

-- The effect of `getLogger` and an assignment.
module _ (k : Text) (m : LoggerManager) where
  abbrev got : Option Logger → Logger × LoggerManager
  unfolding new_logger
  got c = maybe (new_logger k, assign k (new_logger k) m) (λ l. (l, m)) c

  got-logger : (c : Option Logger) → (got c).0 ≡ logger_at k c
  unfolding new_logger logger_at
  got-logger none = refl
  got-logger (some l) = refl

  pub get_logger-logger : (get_logger k m).0 ≡ logger_at k (m k)
  unfolding get_logger
  get_logger-logger = got-logger (m k)

  got-kept : (n : Text) (c : Option Logger) → same k n ≡ false → (got c).1 n ≡ m n
  unfolding assign got
  got-kept n none f = rw (f) refl
  got-kept n (some l) f = refl

  pub assigned-same :
      (l : Logger) (n : Text) → same k n ≡ true → assign k l (get_logger k m).1 n ≡ some l
  unfolding assign
  assigned-same l n t = rw (t) refl

  pub assigned-other :
      (l : Logger) (n : Text) → same k n ≡ false → assign k l (get_logger k m).1 n ≡ m n
  unfolding get_logger assign
  assigned-other l n f = rw (f) (got-kept n (m k) f)

-- The logger of a name after the loop over the new value, by its definitions in both.
unfoldable pub applied :
    Bool → Text → Option LogDefine → Option LogDefine → Option Logger → Option Logger
unfolding logger_at
applied daemon n none old c = c
applied daemon n (some i) (some o) c = c
applied daemon n (some i) none c = some (configured daemon i (logger_at n c))

-- A definition that the listener applies: it has appenders if it is new, and its old level if not.
unfoldable pub Applies : Bool → LogDefine → Option LogDefine → Type 0
Applies daemon i none = is_some (appenders_of daemon i.appenders) ≡ true
Applies daemon i (some o) = i.level ≡ o.level

-- A std::set has a name once.
unfoldable pub IsUnique : List LogDefine → Type 0
IsUnique [] = Unit
IsUnique (i ∷ is) = (find_define i.name is ≡ none) × IsUnique is

pub find_define-same :
    (k n : Text) (is : List LogDefine) → same k n ≡ true → find_define k is ≡ find_define n is
find_define-same k n is t = ap (λ z. find_define z is) (same-eq k n t)

same-sym : (a b k : Text) → a ≡ b → same a k ≡ true → same k b ≡ true
same-sym a b k e t =
    ap (λ z. same z b) (sym (same-eq a k t)) ∙ ap (λ z. same a z) (sym e) ∙ same_refl a

find_define-name :
    (k : Text) (is : List LogDefine) (o : LogDefine)
    → find_define k is ≡ some o
    → same k o.name ≡ true
unfolding find_define
find_define-name k [] o e = absurd (false≢true (ap is_some e))
find_define-name k (i ∷ is) o e = elim (Bool-cases (same i.name k)) [
  | inl t ↦
      same-sym i.name o.name k
        (ap (λ z. z.name) (some_inj (sym (ap (λ b. if b then some i else find_define k is) t) ∙ e)))
        t
  | inr f ↦ find_define-name k is o (sym (ap (λ b. if b then some i else find_define k is) f) ∙ e)
]

same_appenders_refl : (as' : List LogAppenderDefine) → same_appenders as' as' ≡ true
unfolding same_appenders same_appender
same_appenders_refl [] = refl
same_appenders_refl (a ∷ as') =
    rw (eq→== a.type a.type refl, same_refl a.pattern, same_refl a.file, same_appenders_refl as')
      refl

same_define-true :
    (i o : LogDefine) → same i.name o.name ≡ true → i.level ≡ o.level → same_define i o ≡ true
unfolding same_define
same_define-true i o t e = rw (t, eq→== i.level o.level e, same_appenders_refl i.appenders) refl

-- One round: the logger of its name is as the definitions say, and the others as before.
module _ (daemon : Bool) (old : List LogDefine) (i : LogDefine) (m : LoggerManager) where
  abbrev made : LoggerManager
  made = assign i.name (configured daemon i (get_logger i.name m).0) (get_logger i.name m).1

  -- What the round leaves at a name.
  abbrev left : Text → Option Logger
  left n = if same i.name n then applied daemon n (some i) (find_define n old) (m n) else m n

  apply_new :
      find_define i.name old ≡ none
      → is_some (appenders_of daemon i.appenders) ≡ true
      → apply_define daemon old i m ≡ some made
  unfolding apply_define
  apply_new e h = rw (e, configure_lem daemon i (get_logger i.name m).0 h) refl

  made-left : find_define i.name old ≡ none → (n : Text) → made n ≡ left n
  unfolding applied
  made-left e n = elim (Bool-cases (same i.name n)) [
    | inl t ↦
        assigned-same i.name m (configured daemon i (get_logger i.name m).0) n t
        ∙ ap (λ l. some (configured daemon i l)) (get_logger-logger i.name m)
        ∙ ap (λ q. applied daemon i.name (some i) q (m i.name)) (sym e)
        ∙ ap (λ k. applied daemon k (some i) (find_define k old) (m k)) (same-eq i.name n t)
        ∙ ap (λ b. if b then applied daemon n (some i) (find_define n old) (m n) else m n) (sym t)
    | inr f ↦
        assigned-other i.name m (configured daemon i (get_logger i.name m).0) n f
        ∙ ap (λ b. if b then applied daemon n (some i) (find_define n old) (m n) else m n) (sym f)
  ]

  apply_old :
      (o : LogDefine)
      → find_define i.name old ≡ some o
      → i.level ≡ o.level
      → apply_define daemon old i m ≡ some m
  unfolding apply_define
  apply_old o e h = rw (e, same_define-true i o (find_define-name i.name old o e) h) refl

  old-left : (o : LogDefine) → find_define i.name old ≡ some o → (n : Text) → m n ≡ left n
  unfolding applied
  old-left o e n = elim (Bool-cases (same i.name n)) [
    | inl t ↦
        ap (λ q. applied daemon n (some i) q (m n)) (sym e ∙ find_define-same i.name n old t)
        ∙ ap (λ b. if b then applied daemon n (some i) (find_define n old) (m n) else m n) (sym t)
    | inr f ↦
        ap (λ b. if b then applied daemon n (some i) (find_define n old) (m n) else m n) (sym f)
  ]

  apply_at :
      (q : Option LogDefine)
      → find_define i.name old ≡ q
      → Applies daemon i q
      → (m' : LoggerManager) × (apply_define daemon old i m ≡ some m')
        × ((n : Text) → m' n ≡ left n)
  unfolding Applies
  apply_at none e h = (made, apply_new e h, made-left e)
  apply_at (some o) e h = (m, apply_old o e h, old-left o e)

later-applied :
    (daemon : Bool) (n : Text) (b : Bool) (i : LogDefine) (q r : Option LogDefine)
    (c y x : Option Logger)
    → (b ≡ true → q ≡ none)
    → y ≡ (if b then applied daemon n (some i) r c else c)
    → x ≡ applied daemon n q r y
    → x ≡ applied daemon n (if b then some i else q) r c
unfolding applied
later-applied daemon n true i q r c y x u e f = f ∙ ap (λ z. applied daemon n z r y) (u refl) ∙ e
later-applied daemon n false i q r c y x u e f = f ∙ ap (applied daemon n q r) e

-- The loop over the new value.
pub apply_defines_lem :
    (daemon : Bool) (old new : List LogDefine) (m : LoggerManager)
    → IsUnique new
    → All (λ i. Applies daemon i (find_define i.name old)) new
    → (m' : LoggerManager) × (apply_defines daemon old new m ≡ some m')
      × ((n : Text) → m' n ≡ applied daemon n (find_define n new) (find_define n old) (m n))
unfolding apply_defines IsUnique applied find_define
apply_defines_lem daemon old [] m u h = (m, refl, λ n. refl)
apply_defines_lem daemon old (i ∷ is) m (u, us) (h, hs) =
    let (m1, e1, p1) = apply_at daemon old i m (find_define i.name old) refl h in
    let (m2, e2, p2) = apply_defines_lem daemon old is m1 us hs in
    (
      m2,
      rw (e1) e2,
      λ n.
          later-applied daemon n (same i.name n) i (find_define n is) (find_define n old) (m n)
            (m1 n) (m2 n) (λ t. sym (find_define-same i.name n is t) ∙ u) (p1 n) (p2 n),
    )
