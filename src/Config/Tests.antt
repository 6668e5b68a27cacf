-- ===== src/Config/Tests.antt =====
-- Variables of one type whose texts are single bytes, and the theorems at them.
use sylar_from_scratch.Base.{ℕ, [], ◌∷◌, Option, some, none, ◌==◌, ◌≡◌, refl}
use sylar_from_scratch.Base.Bytes.{Text, codes, same}
use sylar_from_scratch.Config.{
  Types, ConfigVar, ConfigVarMap, Node, scalar, mapping, end, entry, list_all_member, set_value,
  load_from_yaml, put, lookup, invalid_argument,
}
use sylar_from_scratch.Config.Value.{Set, set_value_lem}
use mathlib.Core.Option

abbrev first_byte : Text → Option ℕ
first_byte [] = none
first_byte (c ∷ cs) = some c

-- Listener 9 throws.
abbrev bytes : Types
bytes = record {
  Value = ℕ;
  same_value = λ type a b. a == b;
  from_str = λ type t. first_byte t;
  throws = λ cb old new. cb == 9;
}

abbrev port : ConfigVar bytes
port = record {
  name = codes "tcp.port";
  description = [];
  type = 1;
  val = 5;
  cbs = (1, 8) ∷ (2, 9) ∷ (3, 7) ∷ [];
}

set_value_lem_example : Set bytes 6 port (set_value bytes 6 port)
set_value_lem_example = set_value_lem bytes 6 port

abbrev quiet : ConfigVar bytes
quiet = record port { cbs = (1, 8) ∷ [] }

abbrev table : ConfigVarMap bytes
table = put bytes (codes "tcp.port") quiet (λ n. none)

-- tcp: {port: A, host: B}
abbrev document : Node
document = mapping [] (
    entry (codes "tcp")
      (mapping []
        (entry (codes "port") (scalar (codes "A")) (entry (codes "host") (scalar (codes "B")) end)))
      end)

port_loaded :
    Option.map
      (λ (c : ConfigVar bytes). c.val)
      ((load_from_yaml bytes document table).1 (codes "tcp.port"))
    ≡ some 65
unfolding load_from_yaml list_all_member same
port_loaded = refl

-- The digit 9 is no character of a name.
nine_refused : (lookup bytes 1 (codes "port9") 3 [] table).0 ≡ invalid_argument
unfolding lookup same
nine_refused = refl
