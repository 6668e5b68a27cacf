-- ===== src/Config/Value.antt =====
-- sylar/config.h, ConfigVar: what a change of a value does, and the listeners of a variable.
use sylar_from_scratch.Base.{
  ℕ, Bool, true, false, List, [], ◌∷◌, ◌++◌, if◌then◌else◌, ◌≡◌, refl, ap, All, Bool-cases, inl,
  inr,
}
use mathlib.Core.List.{map}
use sylar_from_scratch.Config.{Types, ConfigVar, Call, run_cbs, set_value}

module _ (T : Types) where
  open T use {Value, same_value, throws}

  abbrev call_of : Value → Value → ℕ × ℕ → Call T
  call_of old new (key, cb) = record { cb = cb; old_value = old; new_value = new }

  abbrev Returns : Value → Value → ℕ × ℕ → Type 0
  Returns old new (key, cb) = throws cb old new ≡ false

  -- The calls of the listeners: one of each, in their order, as far as none throws.
  pub data Ran (cbs : List (ℕ × ℕ)) (old new : Value) : List (Call T) → Bool → Type 0 where
    all_returned : All (Returns old new) cbs → Ran cbs old new (map (call_of old new) cbs) true
    one_threw :
        (before : List (ℕ × ℕ)) (key cb : ℕ) (after : List (ℕ × ℕ))
        → cbs ≡ before ++ (key, cb) ∷ after
        → All (Returns old new) before
        → throws cb old new ≡ true
        → Ran cbs old new (map (call_of old new) before ++ call_of old new (key, cb) ∷ []) false

  Ran-cons :
      (key cb : ℕ) (cbs : List (ℕ × ℕ)) (old new : Value) (calls : List (Call T)) (done : Bool)
      → throws cb old new ≡ false
      → Ran cbs old new calls done
      → Ran ((key, cb) ∷ cbs) old new (call_of old new (key, cb) ∷ calls) done
  Ran-cons key cb cbs old new _ _ f (all_returned h) = all_returned (f, h)
  Ran-cons key cb cbs old new _ _ f (one_threw before k c after e h t) =
      one_threw ((key, cb) ∷ before) k c after (ap (λ z. (key, cb) ∷ z) e) (f, h) t

  run_cbs_lem :
      (cbs : List (ℕ × ℕ)) (old new : Value)
      → Ran cbs old new (run_cbs T cbs old new).0 (run_cbs T cbs old new).1
  unfolding run_cbs
  run_cbs_lem [] old new = all_returned tt
  run_cbs_lem ((key, cb) ∷ cbs) old new = elim (Bool-cases (throws cb old new)) [
    | inl t ↦ rw (t) (one_threw [] key cb cbs refl tt t)
    | inr f ↦ rw (f) (
        Ran-cons key cb cbs old new (run_cbs T cbs old new).0 (run_cbs T cbs old new).1 f
          (run_cbs_lem cbs old new))
  ]

  -- A call of `setValue`: the value is the old one and nothing is called, or it is new, every listener
  -- is called, and it is stored if all of them return.
  pub data Set (v : Value) (c : ConfigVar T) : List (Call T) × Bool × ConfigVar T → Type 0 where
    unchanged : same_value c.type v c.val ≡ true → Set v c ([], true, c)
    changed :
        (calls : List (Call T))
        → same_value c.type v c.val ≡ false
        → Ran c.cbs c.val v calls true
        → Set v c (calls, true, record c { val = v })
    failed :
        (calls : List (Call T))
        → same_value c.type v c.val ≡ false
        → Ran c.cbs c.val v calls false
        → Set v c (calls, false, c)

  finish :
      (v : Value) (c : ConfigVar T) (calls : List (Call T)) (done : Bool)
      → same_value c.type v c.val ≡ false
      → Ran c.cbs c.val v calls done
      → Set v c (calls, done, if done then record c { val = v } else c)
  finish v c calls true f r = changed calls f r
  finish v c calls false f r = failed calls f r

  -- `setValue` of an equal value calls no listener and changes nothing. Of another value it calls the
  -- listeners in the order of their keys, each once and with the old and the new value,
  -- up to the first that throws; the value is stored exactly if none does.
  pub set_value_lem : (v : Value) (c : ConfigVar T) → Set v c (set_value T v c)
  unfolding set_value
  set_value_lem v c = elim (Bool-cases (same_value c.type v c.val)) [
    | inl t ↦ rw (t) (unchanged t)
    | inr f ↦ rw (f) (
        finish v c (run_cbs T c.cbs c.val v).0 (run_cbs T c.cbs c.val v).1 f
          (run_cbs_lem c.cbs c.val v))
  ]
