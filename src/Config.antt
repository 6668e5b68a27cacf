-- ===== src/Config.antt =====
-- sylar/config.h and sylar/config.cc: configuration variables with their listeners, the table of
-- variables, and how a YAML document is loaded into it.
-- A variable has the number of its type T and a value; operator== of values, LexicalCast from a text,
-- which may throw, and whether a listener throws are arguments. Listeners do not change the table.
pub mod Value
pub mod Load
mod Tests
use sylar_from_scratch.Base.{
  ℕ, ◌+◌, ◌%◌, Bool, true, false, not, ◌&&◌, List, [], ◌∷◌, ◌++◌, Option, some, none, ltb, ◌==◌,
  if◌then◌else◌, maybe, or_else,
}
use sylar_from_scratch.Base.Bytes.{Text, codes, same}
use mathlib.Core.List.{map}

-- The types of the values.
pub record Types : Type 1 where
  pub Value : Type 0
  pub same_value : ℕ → Value → Value → Bool
  pub from_str : ℕ → Text → Option Value
  pub throws : ℕ → Value → Value → Bool

pub has_byte : Text → ℕ → Bool
has_byte [] c = false
has_byte (x ∷ xs) c = if x == c then true else has_byte xs c

-- `find_first_not_of(chars) == npos`.
pub consists_of : Text → Text → Bool
unfolding has_byte
consists_of chars [] = true
consists_of chars (c ∷ name) = has_byte chars c && consists_of chars name

abbrev pub name_chars : Text
name_chars = codes "abcdefghikjlmnopqrstuvwxyz._012345678"

unfoldable pub is_valid_name : Text → Bool
unfolding consists_of
is_valid_name = consists_of name_chars

-- A node of a YAML document, as far as it is read: its kind, and the text that it prints.
mutual
  pub data Node : Type 0 where
    scalar : Text → Node
    mapping : Text → Entries → Node
    other : Text → Node

  pub data Entries : Type 0 where
    end : Entries
    entry : Text → Node → Entries → Entries

-- The text that `LoadFromYaml` hands to `fromString`.
abbrev pub text_of : Node → Text
text_of (scalar t) = t
text_of (mapping t es) = t
text_of (other t) = t

abbrev pub member_name : Text → Text → Text
member_name [] key = key
member_name (c ∷ prefix) key = (c ∷ prefix) ++ 46 ∷ key

-- `ListAllMember`: what it appends to its output.
unfoldable mutual
  unfolding is_valid_name

  pub list_all_member : Text → Node → List (Text × Node)
  list_all_member prefix (scalar t) = if is_valid_name prefix then (prefix, scalar t) ∷ [] else []
  list_all_member prefix (mapping t es) =
      let members = list_entries prefix es in
      if is_valid_name prefix then (prefix, mapping t es) ∷ members else []
  list_all_member prefix (other t) = if is_valid_name prefix then (prefix, other t) ∷ [] else []

  pub list_entries : Text → Entries → List (Text × Node)
  list_entries prefix end = []
  list_entries prefix (entry key node es) =
      list_all_member (member_name prefix key) node ++ list_entries prefix es

-- `::tolower` in the C locale.
pub to_lower : ℕ → ℕ
to_lower c = if not (ltb c 65) && ltb c 91 then c + 32 else c

module _ (T : Types) where
  open T use {Value, same_value, from_str, throws}

  -- ConfigVar<T>; m_cbs maps keys to listeners, in the order of the keys.
  pub record ConfigVar : Type 0 where
    pub name : Text
    pub description : Text
    pub type : ℕ
    pub val : Value
    pub cbs : List (ℕ × ℕ)

  -- A call of a listener with the old and the new value.
  pub record Call : Type 0 where
    pub cb : ℕ
    pub old_value : Value
    pub new_value : Value

  -- The calls that were made, and whether all of them returned.
  pub run_cbs : List (ℕ × ℕ) → Value → Value → List Call × Bool
  run_cbs [] old new = ([], true)
  run_cbs ((key, cb) ∷ cbs) old new =
      let call : Call = record { cb = cb; old_value = old; new_value = new } in
      let (calls, done) = run_cbs cbs old new in
      if throws cb old new then (call ∷ [], false) else (call ∷ calls, done)

  -- `setValue`: the calls, whether it returned, and the variable.
  pub set_value : Value → ConfigVar → List Call × Bool × ConfigVar
  unfolding run_cbs
  set_value v c =
      if same_value c.type v c.val
      then ([], true, c)
      else (let (calls, done) = run_cbs c.cbs c.val v in
          (calls, done, if done then record c { val = v } else c))

  -- `fromString`, which catches the exceptions, logs them, and always answers false.
  pub from_string : Text → ConfigVar → List Call × ConfigVar
  unfolding set_value
  from_string str c =
      maybe ([], c) (λ v. let (calls, done, c') = set_value v c in (calls, c'))
        (from_str c.type str)

  -- `m_cbs[key] = cb`.
  pub put_cb : ℕ → ℕ → List (ℕ × ℕ) → List (ℕ × ℕ)
  put_cb key cb [] = (key, cb) ∷ []
  put_cb key cb ((k, x) ∷ cbs) =
      if ltb key k
      then (key, cb) ∷ (k, x) ∷ cbs
      else if k == key
      then (key, cb) ∷ cbs
      else (k, x) ∷ put_cb key cb cbs

  -- `addListener`; the counter is that of the type.
  pub add_listener : ℕ → ℕ → ConfigVar → ℕ × ConfigVar
  unfolding put_cb
  add_listener fun_id cb c =
      let key = (fun_id + 1) % 18446744073709551616 in (key, record c { cbs = put_cb key cb c.cbs })

  pub erase_cb : ℕ → List (ℕ × ℕ) → List (ℕ × ℕ)
  erase_cb key [] = []
  erase_cb key ((k, x) ∷ cbs) = if k == key then erase_cb key cbs else (k, x) ∷ erase_cb key cbs

  pub del_listener : ℕ → ConfigVar → ConfigVar
  unfolding erase_cb
  del_listener key c = record c { cbs = erase_cb key c.cbs }

  pub find_cb : ℕ → List (ℕ × ℕ) → Option ℕ
  find_cb key [] = none
  find_cb key ((k, x) ∷ cbs) = if k == key then some x else find_cb key cbs

  pub get_listener : ℕ → ConfigVar → Option ℕ
  unfolding find_cb
  get_listener key c = find_cb key c.cbs

  pub clear_listener : ConfigVar → ConfigVar
  clear_listener c = record c { cbs = [] }

  -- GetDatas(): the variables by their names.
  abbrev pub ConfigVarMap : Type 0
  ConfigVarMap = Text → Option ConfigVar

  abbrev pub put : Text → ConfigVar → ConfigVarMap → ConfigVarMap
  put name c datas n = if same name n then some c else datas n

  -- What `Lookup` does: a variable, a null pointer, or std::invalid_argument.
  pub data Looked : Type 0 where
    found : ConfigVar → Looked
    null : Looked
    invalid_argument : Looked

  -- dynamic_pointer_cast to ConfigVar<T>.
  pub cast : ℕ → ConfigVar → Looked
  cast type c = if c.type == type then found c else null

  pub lookup : ℕ → Text → Value → Text → ConfigVarMap → Looked × ConfigVarMap
  unfolding cast is_valid_name
  lookup type name default_value description datas =
      maybe
        (if is_valid_name name
          then (let c : ConfigVar = record {
            name = name;
            description = description;
            type = type;
            val = default_value;
            cbs = [];
          } in
              (found c, put name c datas))
          else (invalid_argument, datas))
        (λ c. (cast type c, datas)) (datas name)

  -- `Lookup` without a default value.
  pub lookup_typed : ℕ → Text → ConfigVarMap → Looked
  unfolding cast
  lookup_typed type name datas = maybe null (cast type) (datas name)

  pub lookup_base : Text → ConfigVarMap → Option ConfigVar
  lookup_base name datas = datas name

  -- One round of `LoadFromYaml`.
  pub load_node : Text × Node → ConfigVarMap → List Call × ConfigVarMap
  unfolding to_lower from_string lookup_base
  load_node ([], node) datas = ([], datas)
  load_node (c ∷ cs, node) datas =
      let key = map to_lower (c ∷ cs) in
      maybe ([], datas)
        (λ v. let (calls, v') = from_string (text_of node) v in (calls, put key v' datas))
        (lookup_base key datas)

  pub load_nodes : List (Text × Node) → ConfigVarMap → List Call × ConfigVarMap
  unfolding load_node
  load_nodes [] datas = ([], datas)
  load_nodes (i ∷ is) datas =
      let (calls, datas') = load_node i datas in
      let (more, datas'') = load_nodes is datas' in (calls ++ more, datas'')

  pub load_from_yaml : Node → ConfigVarMap → List Call × ConfigVarMap
  unfolding load_nodes
  load_from_yaml root = load_nodes (list_all_member [] root)

  -- A configuration file: its path, its time of modification, and what it holds, if it can be read.
  pub record ConfFile : Type 0 where
    pub path : Text
    pub mtime : ℕ
    pub root : Option Node

  -- s_file2modifytime, 0 where there is no entry.
  abbrev pub ModifyTimes : Type 0
  ModifyTimes = Text → ℕ

  pub load_file : Bool → ConfFile → ModifyTimes × ConfigVarMap → ModifyTimes × ConfigVarMap
  unfolding load_from_yaml
  load_file force f (times, datas) =
      if not force && times f.path == f.mtime then (times, datas) else (
        λ p. if same f.path p then f.mtime else times p,
        maybe datas (λ root. (load_from_yaml root datas).1) f.root,
      )

  pub load_from_conf_dir :
      Bool → List ConfFile → ModifyTimes × ConfigVarMap → ModifyTimes × ConfigVarMap
  unfolding load_file
  load_from_conf_dir force [] s = s
  load_from_conf_dir force (f ∷ fs) s = load_from_conf_dir force fs (load_file force f s)
