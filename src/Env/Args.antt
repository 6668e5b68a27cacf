-- ===== src/Env/Args.antt =====
-- sylar/env.cc: a command line of options is read back.
use sylar_from_scratch.Base.{
  ℕ, Bool, true, List, [], ◌∷◌, Option, some, none, maybe, or_else, ◌≡◌, ◌≢◌, refl, ap, ◌∙◌, ne→==,
}
use sylar_from_scratch.Base.Bytes.{Text}
use sylar_from_scratch.Env.{Args, Env, add, parse_args, init, cwd_of}

-- An option with its key, which is not empty, and its value, if it has one.
pub record Opt : Type 0 where
  pub first : ℕ
  pub key : Text
  pub val : Option Text

abbrev pub name : Opt → Text
name o = o.first ∷ o.key

unfoldable pub print_args : List Opt → List Text
print_args [] = []
print_args (o ∷ os) = (45 ∷ name o) ∷ maybe (print_args os) (λ v. v ∷ print_args os) o.val

-- A value does not start with '-'.
unfoldable pub IsVal : Option Text → Type 0
IsVal none = Unit
IsVal (some []) = Unit
IsVal (some (c ∷ v)) = c ≢ 45

unfoldable pub AreOpts : List Opt → Type 0
AreOpts [] = Unit
AreOpts (o ∷ os) = IsVal o.val × AreOpts os

-- What a key has after the options: the value of the last that has it, the empty text where that has
-- none, and what it had before where there is no such option.
unfoldable pub last_val : List Opt → Args → Args
last_val [] args = args
last_val (o ∷ os) args = last_val os (add (name o) (or_else [] o.val) args)

-- A key that waits for its value, in front of options.
pending :
    (os : List Opt) (key : Text) (args : Args)
    → parse_args (print_args os) (some key) args ≡ parse_args (print_args os) none (add key [] args)
unfolding parse_args print_args
pending [] key args = refl
pending (o ∷ os) key args = refl

after_val :
    (key v : Text) (argv : List Text) (args : Args)
    → IsVal (some v)
    → parse_args (v ∷ argv) (some key) args ≡ parse_args argv none (add key v args)
unfolding parse_args IsVal
after_val key [] argv args h = refl
after_val key (c ∷ v) argv args h = rw (ne→== c 45 h) refl

one_option :
    (o : Opt) (val : Option Text) (os : List Opt) (args : Args)
    → IsVal val
    → AreOpts os
    → parse_args (maybe (print_args os) (λ v. v ∷ print_args os) val) (some (name o)) args
      ≡ parse_args (print_args os) none (add (name o) (or_else [] val) args)
one_option o none os args h k = pending os (name o) args
one_option o (some v) os args h k = after_val (name o) v (print_args os) args h

parse_args-print_args :
    (os : List Opt) (args : Args)
    → AreOpts os
    → parse_args (print_args os) none args ≡ (true, last_val os args)
unfolding parse_args print_args AreOpts last_val
parse_args-print_args [] args h = refl
parse_args-print_args (o ∷ os) args (h, hs) =
    one_option o o.val os args h hs
    ∙ parse_args-print_args os (add (name o) (or_else [] o.val) args) hs

-- A command line that is printed from options, of which no value starts with -, is accepted: its keys
-- have the values of the options, the last one where a key is given twice, and the empty text where
-- an option has none.
pub init-print_args :
    (exe program : Text) (os : List Opt) (env : Env)
    → AreOpts os
    → init exe program (print_args os) env ≡ (
      true,
      record env { args = last_val os env.args; program = program; exe = exe; cwd = cwd_of exe },
    )
unfolding init
init-print_args exe program os env h =
    ap
      (λ (r : Bool × Args).
        (r.0, record env { args = r.1; program = program; exe = exe; cwd = cwd_of exe }))
      (parse_args-print_args os env.args h)
