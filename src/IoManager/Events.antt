-- ===== src/IoManager/Events.antt =====
-- Adding, deleting and cancelling events, as operations on the table of registrations.
use sylar_from_scratch.Base.{
  ◌+◌, ◌-◌, ◌*◌, ◌/◌, ◌≤◌, ◌<◌, ◌⊎◌, ◌++◌, zero, [], ◌∷◌, length, replicate, or_else, ltb, ltb→lt,
  ltb→le, Bool-cases, inl, inr, ℕ, suc, ◌≡◌, inl, inr, Bool, refl, sym, ap, arith, List, ◌∷◌,
  Option, some, none, get_elem?, set, if◌then◌else◌, Bool-cases,
}
use mathlib.Core.Option
use sylar_from_scratch.IoManager.{
  IoManager, EpollCtl, Ctl, Task, make_room, add_event, add_locked, add_call, del_event, left_call,
  decrement, reset_event_context, get_event_context,
}
use sylar_from_scratch.IoManager.Slot.{
  Pair, Registration, Side, reading, writing, code, put, pick, context, count, mask, registration,
  has-vacant, has-some, register-context, without-mask, get_event_context-context,
  reset_event_context-context,
}
use sylar_from_scratch.IoManager.Table.{
  Table, Keeps, total, room, total-set, set-Keeps, get_elem?-Keeps, make_room-Keeps, make_room-ctls,
  make_room-scheduled,
}

-- What a call did: its result, and the table, the calls of `schedule` and the call of epoll_ctl that it leaves.
pub record Did (o : Option (IoManager × Bool)) (result : Bool) (t : Table) (tasks : List (ℕ × Task))
    : Type 0 where
  pub after : IoManager
  pub returned : o ≡ some (after, result)
  pub keeps : Keeps after t
  pub tasks_eq : after.scheduled ≡ tasks

count-put :
    (e : Side) (p : Pair) (g : Registration)
    → pick e p ≡ none
    → count (put e (some g) p) ≡ suc (count p)
count-put reading (none, none) g h = refl
count-put reading (none, some w) g h = refl
count-put reading (some r, w) g h = absurd (Option.some-ne-none r h)
count-put writing (none, none) g h = refl
count-put writing (some r, none) g h = refl
count-put writing (r, some w) g h = absurd (Option.some-ne-none w h)

count-take :
    (e : Side) (p : Pair) (g : Registration)
    → pick e p ≡ some g
    → count p ≡ suc (count (put e none p))
count-take reading (none, w) g h = absurd (Option.none-ne-some g h)
count-take reading (some r, none) g h = refl
count-take reading (some r, some w) g h = refl
count-take writing (r, none) g h = absurd (Option.none-ne-some g h)
count-take writing (none, some w) g h = refl
count-take writing (some r, some w) g h = refl

added :
    (epoll_ctl : EpollCtl) (s fiber fd : ℕ) (e : Side) (cb : Option ℕ) (m : IoManager) (t : Table)
    (p : Pair)
    → Keeps m t
    → get_elem? t fd ≡ some p
    → pick e p ≡ none
    → let ok = epoll_ctl m.ctls (add_call fd (context p fd) (code e)) in
      Did
        (add_locked epoll_ctl (some s) fiber fd (code e) cb (context p fd) m)
        ok
        (if ok then set t fd (put e (some (registration s fiber cb)) p) else t)
        m.scheduled
unfolding add_locked
added epoll_ctl s fiber fd e cb m t p k h v =
    rw (has-vacant e p v)
      (elim (Bool-cases (epoll_ctl m.ctls (add_call fd (context p fd) (code e)))) [
        | inl y ↦
            rw (y, register-context e p s fiber fd cb v)
              record {
                after = record m {
                  fd_contexts =
                      set m.fd_contexts fd (context (put e (some (registration s fiber cb)) p) fd);
                  pending_event_count = suc m.pending_event_count;
                  ctls = add_call fd (context p fd) (code e) ∷ m.ctls;
                };
                returned = refl;
                keeps = record {
                  contexts_eq = set-Keeps fd m t (put e (some (registration s fiber cb)) p) k;
                  count_eq = omega (
                    arith,
                    k.count_eq,
                    total-set fd t p (put e (some (registration s fiber cb)) p) h,
                    count-put e p (registration s fiber cb) v,
                  );
                };
                tasks_eq = refl;
              }
        | inr n ↦ rw (n) record { after = m; returned = refl; keeps = k; tasks_eq = refl }
      ])

retold :
    (o : Option (IoManager × Bool)) (f : EpollCtl) (call : Ctl) (t t' : Table) {cs cs' : List Ctl}
    {tasks tasks' : List (ℕ × Task)}
    → cs ≡ cs'
    → tasks ≡ tasks'
    → Did o (f cs call) (if f cs call then t else t') tasks
    → Did o (f cs' call) (if f cs' call then t else t') tasks'
retold o f call t t' e e' d = rw (sym e, sym e') d

-- The registrations of a descriptor, none where it is behind the table.
abbrev pub pair_at : ℕ → Table → Pair
pair_at fd t = or_else (none, none) (get_elem? t fd)

pair_at-some : (fd : ℕ) (t : Table) → fd < length t → get_elem? t fd ≡ some (pair_at fd t)
pair_at-some fd [] h = absurd (omega arith)
pair_at-some zero (p ∷ t) h = refl
pair_at-some (suc fd) (p ∷ t) h = pair_at-some fd t (omega arith)

pair_at-none : (fd : ℕ) (t : Table) → length t ≤ fd → pair_at fd t ≡ (none, none)
pair_at-none fd [] h = refl
pair_at-none zero (p ∷ t) h = absurd (omega arith)
pair_at-none (suc fd) (p ∷ t) h = pair_at-none fd t (omega arith)

pair_at-grown :
    (fd n : ℕ) (t : Table)
    → length t ≤ fd
    → fd < length t + n
    → get_elem? (t ++ replicate n (none, none)) fd ≡ some (none, none)
pair_at-grown fd zero [] h k = absurd (omega arith)
pair_at-grown zero (suc n) [] h k = refl
pair_at-grown (suc fd) (suc n) [] h k = pair_at-grown fd n [] (omega arith) (omega arith)
pair_at-grown zero n (p ∷ t) h k = absurd (omega arith)
pair_at-grown (suc fd) n (p ∷ t) h k = pair_at-grown fd n t (omega arith) (omega arith)

-- After the growth there is a place for the descriptor, which is empty if it is new.
room-pair_at :
    (fd : ℕ) (t : Table)
    → (fd < length t) ⊎ (2 ≤ fd)
    → get_elem? (room fd t) fd ≡ some (pair_at fd t)
room-pair_at fd t h = elim (Bool-cases (ltb fd (length t))) [
  | inl i ↦ rw (i) (pair_at-some fd t (ltb→lt fd (length t) i))
  | inr o ↦
      let big : 2 ≤ fd = elim h [
        | inl i ↦ absurd (omega (arith, i, ltb→le fd (length t) o))
        | inr b ↦ b
      ] in
      let behind : length t ≤ fd = ltb→le fd (length t) o in
      rw (o, pair_at-none fd t behind)
        (pair_at-grown fd (fd * 3 / 2 - length t) t behind (omega arith))
]

-- On a manager that keeps a table, for a descriptor within the table or from 2 on, addEvent of an event
-- that is not registered makes room for the descriptor; where epoll_ctl succeeds it then returns 0
-- and adds exactly the registration of this thread's scheduler with the callback, or with the
-- running fiber where there is none, and where epoll_ctl fails it returns -1 and adds none. Nothing is
-- scheduled, and no assertion fails.
pub add_event_lem :
    (epoll_ctl : EpollCtl) (s fiber fd : ℕ) (e : Side) (cb : Option ℕ) (m : IoManager) (t : Table)
    → Keeps m t
    → (fd < length t) ⊎ (2 ≤ fd)
    → pick e (pair_at fd t) ≡ none
    → let p = pair_at fd t in
      let ok = epoll_ctl m.ctls (add_call fd (context p fd) (code e)) in
      Did
        (add_event epoll_ctl (some s) fiber fd (code e) cb m)
        ok
        (if ok then set (room fd t) fd (put e (some (registration s fiber cb)) p) else room fd t)
        m.scheduled
unfolding add_event
add_event_lem epoll_ctl s fiber fd e cb m t k within v =
    let p = pair_at fd t in
    let h = room-pair_at fd t within in
    let k' : Keeps (make_room fd m) (room fd t) = make_room-Keeps fd m t k in
    let done = added epoll_ctl s fiber fd e cb (make_room fd m) (room fd t) p k' h v in
    rw (get_elem?-Keeps fd (make_room fd m) (room fd t) p k' h)
      (retold _ epoll_ctl _ _ _ (make_room-ctls fd m) (make_room-scheduled fd m) done)

pub removed :
    (fd : ℕ) (e : Side) (m : IoManager) (t : Table) (p : Pair) (g : Registration)
    → Keeps m t
    → get_elem? t fd ≡ some p
    → pick e p ≡ some g
    → decrement m.pending_event_count ≡ total (set t fd (put e none p))
removed fd e m t p g k h v = ap decrement one_more
  where
    one_more : m.pending_event_count ≡ suc (total (set t fd (put e none p)))
    one_more = omega (arith, k.count_eq, total-set fd t p (put e none p) h, count-take e p g v)

-- On a manager that keeps a table, delEvent of a registered event calls epoll_ctl once; where that
-- succeeds, it removes exactly this registration, schedules nothing, and returns true; where it
-- fails, nothing changes and it returns false.
pub del_event_lem :
    (epoll_ctl : EpollCtl) (fd : ℕ) (e : Side) (m : IoManager) (t : Table) (p : Pair)
    (g : Registration)
    → Keeps m t
    → get_elem? t fd ≡ some p
    → pick e p ≡ some g
    → let ok = epoll_ctl m.ctls (left_call fd (mask (put e none p))) in
      Did
        (del_event epoll_ctl fd (code e) m)
        ok
        (if ok then set t fd (put e none p) else t)
        m.scheduled
unfolding del_event get_event_context reset_event_context
del_event_lem epoll_ctl fd e m t p g k h v =
    rw (get_elem?-Keeps fd m t p k h, has-some e p g v, without-mask e p)
      (elim (Bool-cases (epoll_ctl m.ctls (left_call fd (mask (put e none p))))) [
        | inl y ↦
            rw (y) rw (get_event_context-context e p fd, reset_event_context-context e p fd)
              record {
                after = record m {
                  fd_contexts = set m.fd_contexts fd (context (put e none p) fd);
                  pending_event_count = decrement m.pending_event_count;
                  ctls = left_call fd (mask (put e none p)) ∷ m.ctls;
                };
                returned = refl;
                keeps = record {
                  contexts_eq = set-Keeps fd m t (put e none p) k;
                  count_eq = removed fd e m t p g k h v;
                };
                tasks_eq = refl;
              }
        | inr n ↦ rw (n) record { after = m; returned = refl; keeps = k; tasks_eq = refl }
      ])
