-- ===== src/Config/Load.antt =====
-- sylar/config.cc: what a YAML document does to the variables.
use sylar_from_scratch.Base.{
  Bool, true, false, ◌&&◌, List, [], ◌∷◌, ◌++◌, Option, if◌then◌else◌, ◌≡◌, refl, sym, ap₂, ◌∙◌,
  Bool-cases, inl, inr,
}
use sylar_from_scratch.Base.Bytes.{Text, same}
use mathlib.Core.List.{map}
use mathlib.Core.Option
use sylar_from_scratch.Config.{
  Types, ConfigVar, Node, Entries, scalar, mapping, other, end, entry, text_of, to_lower,
  list_all_member, list_entries, member_name, is_valid_name, from_string,
}

-- The texts that members of a document have for a variable, in the order of the document.
unfoldable pub texts_at : Text → List (Text × Node) → List Text
texts_at name [] = []
texts_at name (([], node) ∷ is) = texts_at name is
texts_at name ((c ∷ cs, node) ∷ is) =
    if same (map to_lower (c ∷ cs)) name then text_of node ∷ texts_at name is else texts_at name is

-- All nodes of a document in its order, each with the keys that lead to it: a mapping stands before
-- what it holds.
abbrev pub Located : Type 0
Located = List Text × Node

pub under : Text → List Located → List Located
under key [] = []
under key ((keys, node) ∷ is) = (key ∷ keys, node) ∷ under key is

mutual
  unfolding under

  pub located : Node → List Located
  located (scalar t) = ([], scalar t) ∷ []
  located (mapping t es) = ([], mapping t es) ∷ located_in es
  located (other t) = ([], other t) ∷ []

  pub located_in : Entries → List Located
  located_in end = []
  located_in (entry key node es) = under key (located node) ++ located_in es

-- The dotted path of keys behind a prefix, and whether it and each path on the way to it is a name.
pub dotted : Text → List Text → Text
dotted prefix [] = prefix
dotted prefix (key ∷ keys) = dotted (member_name prefix key) keys

pub is_named : Text → List Text → Bool
is_named prefix [] = is_valid_name prefix
is_named prefix (key ∷ keys) = is_valid_name prefix && is_named (member_name prefix key) keys

-- The nodes whose paths are names, with these.
pub named : Text → List Located → List (Text × Node)
unfolding dotted is_named
named prefix [] = []
named prefix ((keys, node) ∷ is) =
    if is_named prefix keys then (dotted prefix keys, node) ∷ named prefix is else named prefix is

named-append :
    (prefix : Text) (xs ys : List Located)
    → named prefix (xs ++ ys) ≡ named prefix xs ++ named prefix ys
unfolding named
named-append prefix [] ys = refl
named-append prefix ((keys, node) ∷ xs) ys = elim (Bool-cases (is_named prefix keys)) [
  | inl t ↦ rw (t, named-append prefix xs ys) refl
  | inr f ↦ rw (f) (named-append prefix xs ys)
]

named-under :
    (prefix key : Text) (is : List Located)
    → is_valid_name prefix ≡ true
    → named prefix (under key is) ≡ named (member_name prefix key) is
unfolding named under
named-under prefix key [] v = refl
named-under prefix key ((keys, node) ∷ is) v = rw (v, named-under prefix key is v) refl

named-refused :
    (prefix key : Text) (is : List Located)
    → is_valid_name prefix ≡ false
    → named prefix (under key is) ≡ []
unfolding named under
named-refused prefix key [] v = refl
named-refused prefix key ((keys, node) ∷ is) v = rw (v) (named-refused prefix key is v)

named-refused_in :
    (prefix : Text) (es : Entries)
    → is_valid_name prefix ≡ false
    → named prefix (located_in es) ≡ []
unfolding located_in named
named-refused_in prefix end v = refl
named-refused_in prefix (entry key node es) v =
    named-append prefix (under key (located node)) (located_in es)
    ∙ ap₂ (λ xs ys. xs ++ ys) (named-refused prefix key (located node) v)
        (named-refused_in prefix es v)

-- ListAllMember finds the nodes whose paths are names.
mutual
  unfolding list_all_member located named

  list_all_member_lem :
      (prefix : Text) (node : Node) → list_all_member prefix node ≡ named prefix (located node)
  list_all_member_lem prefix (scalar t) = refl
  list_all_member_lem prefix (other t) = refl
  list_all_member_lem prefix (mapping t es) = elim (Bool-cases (is_valid_name prefix)) [
    | inl v ↦ rw (v, list_entries_lem prefix es v) refl
    | inr f ↦ rw (f) (sym (named-refused_in prefix es f))
  ]

  list_entries_lem :
      (prefix : Text) (es : Entries)
      → is_valid_name prefix ≡ true
      → list_entries prefix es ≡ named prefix (located_in es)
  list_entries_lem prefix end v = refl
  list_entries_lem prefix (entry key node es) v =
      ap₂ (λ xs ys. xs ++ ys)
        (list_all_member_lem (member_name prefix key) node
          ∙ sym (named-under prefix key (located node) v))
        (list_entries_lem prefix es v)
      ∙ sym (named-append prefix (under key (located node)) (located_in es))

module _ (T : Types) where
  -- A variable after `fromString` of some texts.
  unfoldable pub loaded : List Text → ConfigVar T → ConfigVar T
  loaded [] c = c
  loaded (t ∷ ts) c = loaded ts (from_string T t c).1
