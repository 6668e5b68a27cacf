-- ===== src/IoManager/Table.antt =====
-- The vector of contexts as a table of registrations.
use sylar_from_scratch.Base.{
  ℕ, zero, suc, ◌+◌, ◌-◌, ◌*◌, ◌/◌, ◌≤◌, ◌≡◌, inl, inr, refl, sym, ap, ap₂, ◌∙◌, some_inj, arith,
  List, [], ◌∷◌, ◌++◌, some, none, length, get_elem?, set, take, replicate, take_all, if◌then◌else◌,
  ltb, Bool-cases, ltb→le,
}
use mathlib.Core.Option
use sylar_from_scratch.IoManager.{IoManager, FdContext, new_contexts, make_room, context_resize}
use sylar_from_scratch.IoManager.Slot.{Pair, context, count}

abbrev pub Table : Type 0
Table = List Pair

abbrev pub contexts : ℕ → Table → List FdContext
contexts i [] = []
contexts i (p ∷ t) = context p i ∷ contexts (suc i) t

abbrev pub total : Table → ℕ
total [] = 0
total (p ∷ t) = count p + total t

-- A manager keeps a table: its contexts are those of the table's pairs, and its count of pending
-- events is the number of registrations.
pub record Keeps (m : IoManager) (t : Table) : Type 0 where
  pub contexts_eq : m.fd_contexts ≡ contexts 0 t
  pub count_eq : m.pending_event_count ≡ total t

pub get_elem?-contexts :
    (i fd : ℕ) (t : Table) (p : Pair)
    → get_elem? t fd ≡ some p
    → get_elem? (contexts i t) fd ≡ some (context p (i + fd))
get_elem?-contexts i fd [] p h = absurd (Option.none-ne-some p h)
get_elem?-contexts i zero (q ∷ t) p h = ap₂ (λ p j. some (context p j)) (some_inj h) (omega arith)
get_elem?-contexts i (suc fd) (q ∷ t) p h =
    get_elem?-contexts (suc i) fd t p h ∙ ap (λ j. some (context p j)) (omega arith)

pub set-contexts :
    (i fd : ℕ) (t : Table) (p : Pair)
    → set (contexts i t) fd (context p (i + fd)) ≡ contexts i (set t fd p)
set-contexts i fd [] p = refl
set-contexts i zero (q ∷ t) p = ap (λ j. context p j ∷ contexts (suc i) t) (omega arith)
set-contexts i (suc fd) (q ∷ t) p =
    ap (λ j. context q i ∷ set (contexts (suc i) t) fd (context p j)) (omega arith)
    ∙ ap (λ cs. context q i ∷ cs) (set-contexts (suc i) fd t p)

pub length-contexts : (i : ℕ) (t : Table) → length (contexts i t) ≡ length t
length-contexts i [] = refl
length-contexts i (p ∷ t) = ap suc (length-contexts (suc i) t)

pub total-set :
    (fd : ℕ) (t : Table) (p q : Pair)
    → get_elem? t fd ≡ some p
    → total (set t fd q) + count p ≡ total t + count q
total-set fd [] p q h = absurd (Option.none-ne-some p h)
total-set zero (r ∷ t) p q h = rw (sym (some_inj h)) (omega arith)
total-set (suc fd) (r ∷ t) p q h = omega (arith, total-set fd t p q h)

pub none-get_elem? :
    (i fd : ℕ) (t : Table) → get_elem? t fd ≡ none → get_elem? (contexts i t) fd ≡ none
none-get_elem? i fd [] h = refl
none-get_elem? i zero (q ∷ t) h = absurd (Option.some-ne-none q h)
none-get_elem? i (suc fd) (q ∷ t) h = none-get_elem? (suc i) fd t h

-- The table that `make_room` leaves.
abbrev pub room : ℕ → Table → Table
room fd t = if ltb fd (length t) then t else t ++ replicate (fd * 3 / 2 - length t) (none, none)

contexts-append :
    (i : ℕ) (t u : Table) → contexts i (t ++ u) ≡ contexts i t ++ contexts (i + length t) u
contexts-append i [] u = ap (λ j. contexts j u) (omega arith)
contexts-append i (p ∷ t) u =
    ap (λ cs. context p i ∷ cs)
      (contexts-append (suc i) t u ∙ ap (λ j. contexts (suc i) t ++ contexts j u) (omega arith))

contexts-replicate : (i n : ℕ) → contexts i (replicate n (none, none)) ≡ new_contexts i n
unfolding new_contexts
contexts-replicate i zero = refl
contexts-replicate i (suc n) = ap (λ cs. context (none, none) i ∷ cs) (contexts-replicate (suc i) n)

total-replicate : (t : Table) (n : ℕ) → total (t ++ replicate n (none, none)) ≡ total t
total-replicate [] zero = refl
total-replicate [] (suc n) = omega (arith, total-replicate [] n)
total-replicate (p ∷ t) n = ap (λ k. count p + k) (total-replicate t n)

pub zero_add : (n : ℕ) → 0 + n ≡ n
zero_add n = omega arith

grown :
    (size : ℕ) (cs : List FdContext) (t : Table)
    → cs ≡ contexts 0 t
    → length t ≤ size
    → take size cs ++ new_contexts (length (take size cs)) (size - length (take size cs))
      ≡ contexts 0 (t ++ replicate (size - length t) (none, none))
grown size cs t e h =
    let same : length cs ≡ length t = ap length e ∙ length-contexts 0 t in
    rw (take_all size cs (omega arith), same, e)
      (sym (
        contexts-append 0 t (replicate (size - length t) (none, none))
        ∙ ap (λ x. contexts 0 t ++ x)
            (contexts-replicate (0 + length t) (size - length t)
              ∙ ap (λ j. new_contexts j (size - length t)) (zero_add (length t)))))

-- Making room for a descriptor adds contexts without registrations and changes no other.
pub make_room-Keeps :
    (fd : ℕ) (m : IoManager) (t : Table) → Keeps m t → Keeps (make_room fd m) (room fd t)
unfolding make_room context_resize
make_room-Keeps fd m t k =
    let same : length m.fd_contexts ≡ length t = ap length k.contexts_eq ∙ length-contexts 0 t in
    elim (Bool-cases (ltb fd (length t))) [
      | inl e ↦ rw (same, e) k
      | inr e ↦
          let le : length t ≤ fd = ltb→le fd (length t) e in
          rw (same, e)
            record {
              contexts_eq = grown (fd * 3 / 2) m.fd_contexts t k.contexts_eq (omega arith);
              count_eq = k.count_eq ∙ sym (total-replicate t (fd * 3 / 2 - length t));
            }
    ]

pub set-Keeps :
    (fd : ℕ) (m : IoManager) (t : Table) (q : Pair)
    → Keeps m t
    → set m.fd_contexts fd (context q fd) ≡ contexts 0 (set t fd q)
set-Keeps fd m t q k =
    ap (λ cs. set cs fd (context q fd)) k.contexts_eq
    ∙ ap (λ j. set (contexts 0 t) fd (context q j)) (sym (zero_add fd))
    ∙ set-contexts 0 fd t q

pub get_elem?-Keeps :
    (fd : ℕ) (m : IoManager) (t : Table) (p : Pair)
    → Keeps m t
    → get_elem? t fd ≡ some p
    → get_elem? m.fd_contexts fd ≡ some (context p fd)
get_elem?-Keeps fd m t p k h =
    ap (λ cs. get_elem? cs fd) k.contexts_eq
    ∙ get_elem?-contexts 0 fd t p h
    ∙ ap (λ j. some (context p j)) (zero_add fd)

pub make_room-ctls : (fd : ℕ) (m : IoManager) → (make_room fd m).ctls ≡ m.ctls
unfolding make_room context_resize
make_room-ctls fd m = elim (Bool-cases (ltb fd (length m.fd_contexts))) [
  | inl e ↦ rw (e) refl
  | inr e ↦ rw (e) refl
]

pub make_room-scheduled : (fd : ℕ) (m : IoManager) → (make_room fd m).scheduled ≡ m.scheduled
unfolding make_room context_resize
make_room-scheduled fd m = elim (Bool-cases (ltb fd (length m.fd_contexts))) [
  | inl e ↦ rw (e) refl
  | inr e ↦ rw (e) refl
]
