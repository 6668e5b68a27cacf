-- ===== src/Env.antt =====
-- sylar/env.h and sylar/env.cc: the command line, its help texts, and paths.
-- The path of the executable, which the system has, is an argument; so are the environment's variables.
pub mod Args
mod Tests
use sylar_from_scratch.Base.{
  ℕ, Bool, true, false, List, [], ◌∷◌, ◌++◌, Option, some, none, ◌==◌, if◌then◌else◌, maybe,
  or_else, is_some,
}
use sylar_from_scratch.Base.Bytes.{Text, codes, same}

-- m_args: what a key has.
abbrev pub Args : Type 0
Args = Text → Option Text

pub record Env : Type 0 where
  pub args : Args
  pub helps : List (Text × Text)
  pub program : Text
  pub exe : Text
  pub cwd : Text

unfoldable pub add : Text → Text → Args → Args
unfolding same
add key val args k = if same key k then some val else args k

pub del : Text → Args → Args
unfolding same
del key args k = if same key k then none else args k

pub has : Text → Args → Bool
has key args = is_some (args key)

pub get : Text → Text → Args → Text
get key default_value args = or_else default_value (args key)

abbrev pub add_key : Option Text → Args → Args
add_key none args = args
add_key (some key) args = add key [] args

-- An argument that starts with '-', by what follows that: the next round has it as its key.
abbrev pub parse_option : Text → (Text → Args → Bool × Args) → Option Text → Args → Bool × Args
parse_option [] next now_key args = (false, args)
parse_option (k ∷ ks) next now_key args = next (k ∷ ks) (add_key now_key args)

-- The loop of `init` over argv from 1 on, with `now_key`; 45 is '-'.
pub parse_args : List Text → Option Text → Args → Bool × Args
unfolding add
parse_args [] now_key args = (true, add_key now_key args)
parse_args ([] ∷ argv) now_key args =
    maybe (false, args) (λ key. parse_args argv none (add key [] args)) now_key
parse_args ((c ∷ cs) ∷ argv) now_key args =
    if c == 45
    then parse_option cs (λ key args'. parse_args argv (some key) args') now_key args
    else maybe (false, args) (λ key. parse_args argv none (add key (c ∷ cs) args)) now_key

-- m_cwd of m_exe: up to the last slash; without one `substr(0, npos)` is the whole text.
pub up_to_slash : Text → Option Text
up_to_slash [] = none
up_to_slash (c ∷ cs) =
    maybe (if c == 47 then some [] else none) (λ dir. some (c ∷ dir)) (up_to_slash cs)

pub cwd_of : Text → Text
unfolding up_to_slash
cwd_of exe = or_else exe (up_to_slash exe) ++ 47 ∷ []

-- `init`, with argv[0] and the others.
pub init : Text → Text → List Text → Env → Bool × Env
unfolding parse_args cwd_of
init exe program argv env =
    let (done, args) = parse_args argv none env.args in
    (done, record env { args = args; program = program; exe = exe; cwd = cwd_of exe })

pub remove_help : Text → List (Text × Text) → List (Text × Text)
unfolding same
remove_help key [] = []
remove_help key ((k, desc) ∷ helps) =
    if same k key then remove_help key helps else (k, desc) ∷ remove_help key helps

pub add_help : Text → Text → List (Text × Text) → List (Text × Text)
unfolding remove_help
add_help key desc helps = remove_help key helps ++ (key, desc) ∷ []

abbrev pub absolute : Text → Text → Text
absolute dir [] = 47 ∷ []
absolute dir (c ∷ path) = if c == 47 then c ∷ path else dir ++ c ∷ path

pub get_absolute_path : Text → Env → Text
get_absolute_path path env = absolute env.cwd path

-- `getAbsoluteWorkPath`, by the value of server.work_path.
pub get_absolute_work_path : Text → Text → Text
get_absolute_work_path work_path path = absolute (work_path ++ 47 ∷ []) path

pub get_config_path : Env → Text
unfolding get get_absolute_path
get_config_path env = get_absolute_path (get (codes "c") (codes "conf") env.args) env
