-- ===== src/Env/Tests.antt =====
-- The command line `-c conf -d`.
use sylar_from_scratch.Base.{◌≡◌, refl, true, List, [], ◌∷◌, some, none, arith}
use sylar_from_scratch.Base.Bytes.{codes}
use sylar_from_scratch.Env.{Env, init, parse_args, add, get, cwd_of}
use sylar_from_scratch.Env.Args.{Opt, print_args, AreOpts, IsVal, last_val, init-print_args}

abbrev options : List Opt
options =
    record { first = 99; key = []; val = some (codes "conf") }
    ∷ record { first = 100; key = []; val = none }
    ∷ []

options-AreOpts : AreOpts options
unfolding AreOpts IsVal
options-AreOpts = ((λ e. omega arith), (tt, tt))

abbrev empty : Env
empty = record { args = λ k. none; helps = []; program = []; exe = []; cwd = [] }

init-print_args_example : init (codes "/bin/x") (codes "x") (print_args options) empty ≡ (
  true,
  record empty {
    args = last_val options empty.args;
    program = codes "x";
    exe = codes "/bin/x";
    cwd = cwd_of (codes "/bin/x");
  },
)
init-print_args_example = init-print_args (codes "/bin/x") (codes "x") options empty options-AreOpts

config_value :
    get
      (codes "c")
      (codes "none")
      (init (codes "/bin/x") (codes "x") (codes "-c" ∷ codes "conf" ∷ codes "-d" ∷ []) empty).1.args
    ≡ codes "conf"
unfolding get init parse_args add
config_value = refl

cwd_small : cwd_of (codes "/bin/x") ≡ codes "/bin/"
unfolding cwd_of
cwd_small = refl
