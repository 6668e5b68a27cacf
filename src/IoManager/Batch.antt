-- ===== src/IoManager/Batch.antt =====
-- Triggering both events of a descriptor, one after the other.
use sylar_from_scratch.Base.{
  ℕ, zero, suc, ◌≡◌, Bool, true, false, refl, sym, ap, ◌∙◌, List, [], ◌∷◌, Option, some, none,
  get_elem?, set, some_inj,
}
use mathlib.Core.Option
use mathlib.Core.Path.{subst}
use sylar_from_scratch.IoManager.{
  IoManager, Task, has, trigger, trigger_if, trigger_both, decrement, read_event, write_event,
}
use sylar_from_scratch.IoManager.Slot.{
  Pair, Registration, Side, reading, writing, code, put, pick, context, task, trigger_event-context,
}
use sylar_from_scratch.IoManager.Table.{Table, Keeps, get_elem?-Keeps, set-Keeps}
use sylar_from_scratch.IoManager.Events.{removed}

pub get_elem?-set :
    (t : Table) (fd : ℕ) (p q : Pair) → get_elem? t fd ≡ some p → get_elem? (set t fd q) fd ≡ some q
get_elem?-set [] fd p q h = absurd (Option.none-ne-some p h)
get_elem?-set (r ∷ t) zero p q h = refl
get_elem?-set (r ∷ t) (suc fd) p q h = get_elem?-set t fd p q h

pub set-set : (t : Table) (fd : ℕ) (p q : Pair) → set (set t fd p) fd q ≡ set t fd q
set-set [] fd p q = refl
set-set (r ∷ t) zero p q = refl
set-set (r ∷ t) (suc fd) p q = ap (λ s. r ∷ s) (set-set t fd p q)

set_same : (t : Table) (fd : ℕ) (p : Pair) → get_elem? t fd ≡ some p → set t fd p ≡ t
set_same [] fd p h = refl
set_same (r ∷ t) zero p h = ap (λ q. q ∷ t) (sym (some_inj h))
set_same (r ∷ t) (suc fd) p h = ap (λ s. r ∷ s) (set_same t fd p h)

-- Whether a report may trigger an event: only where the event is registered.
abbrev pub Allowed : Bool → Option Registration → Type 0
Allowed false r = Unit
Allowed true none = ⊥
Allowed true (some g) = Unit

abbrev pub keep : Bool → Option Registration → Option Registration
keep true r = none
keep false r = r

abbrev pub told : Bool → Option Registration → List (ℕ × Task) → List (ℕ × Task)
told true none tasks = tasks
told true (some g) tasks = task g ∷ tasks
told false r tasks = tasks

-- What a step leaves: the table and the tasks.
pub record After (o : Option IoManager) (t : Table) (tasks : List (ℕ × Task)) : Type 0 where
  pub after : IoManager
  pub returned : o ≡ some after
  pub keeps : Keeps after t
  pub tasks_eq : after.scheduled ≡ tasks

trigger-After :
    (fd : ℕ) (e : Side) (m : IoManager) (t : Table) (p : Pair) (g : Registration)
    → Keeps m t
    → get_elem? t fd ≡ some p
    → pick e p ≡ some g
    → After (trigger fd (code e) (context p fd) m) (set t fd (put e none p)) (task g ∷ m.scheduled)
unfolding trigger
trigger-After fd e m t p g k h v = rw (trigger_event-context e p fd g v) record {
  after = record m {
    fd_contexts = set m.fd_contexts fd (context (put e none p) fd);
    pending_event_count = decrement m.pending_event_count;
    scheduled = task g ∷ m.scheduled;
  };
  returned = refl;
  keeps = record {
    contexts_eq = set-Keeps fd m t (put e none p) k;
    count_eq = removed fd e m t p g k h v;
  };
  tasks_eq = refl;
}

put-pick : (e : Side) (p : Pair) → put e (pick e p) p ≡ p
put-pick reading (r, w) = refl
put-pick writing (r, w) = refl

fired :
    (real fd : ℕ) (e : Side) (m : IoManager) (t : Table) (p : Pair) (o : Option Registration)
    → has real (code e) ≡ true
    → pick e p ≡ o
    → Allowed true o
    → Keeps m t
    → get_elem? t fd ≡ some p
    → After (trigger_if real fd (code e) m) (set t fd (put e none p)) (told true o m.scheduled)
unfolding trigger_if
fired real fd e m t p none eq v ok k h = absurd ok
fired real fd e m t p (some g) eq v ok k h =
    rw (eq, get_elem?-Keeps fd m t p k h) (trigger-After fd e m t p g k h v)

-- `if (real_events & event)` on a table in which the event is registered where the bit is set.
pub trigger_if-After :
    (real : ℕ) (b : Bool) (fd : ℕ) (e : Side) (m : IoManager) (t : Table) (p : Pair)
    → has real (code e) ≡ b
    → Allowed b (pick e p)
    → Keeps m t
    → get_elem? t fd ≡ some p
    → After
        (trigger_if real fd (code e) m)
        (set t fd (put e (keep b (pick e p)) p))
        (told b (pick e p) m.scheduled)
unfolding trigger_if
trigger_if-After real false fd e m t p eq ok k h = rw (eq) record {
  after = m;
  returned = refl;
  keeps = subst (Keeps m) (sym (ap (set t fd) (put-pick e p) ∙ set_same t fd p h)) k;
  tasks_eq = refl;
}
trigger_if-After real true fd e m t p eq ok k h = fired real fd e m t p (pick e p) eq refl ok k h

-- Both events, one after the other.
pub both-After :
    (i o : Bool) (real_i real_o fd : ℕ) (m : IoManager) (t : Table) (r w : Option Registration)
    → has real_i read_event ≡ i
    → has real_o write_event ≡ o
    → Allowed i r
    → Allowed o w
    → Keeps m t
    → get_elem? t fd ≡ some (r, w)
    → After
        (trigger_both real_i real_o fd m)
        (set t fd (keep i r, keep o w))
        (told o w (told i r m.scheduled))
both-After i o real_i real_o fd m t r w ei eo ai ao k h =
    let one = trigger_if-After real_i i fd reading m t (r, w) ei ai k h in
    let h' = get_elem?-set t fd (r, w) (keep i r, w) h in
    let two =
      trigger_if-After real_o o fd writing one.after (set t fd (keep i r, w)) (keep i r, w) eo ao
        one.keeps h' in
    rw (one.returned) record {
      after = two.after;
      returned = two.returned;
      keeps = subst (Keeps two.after) (set-set t fd (keep i r, w) (keep i r, keep o w)) two.keeps;
      tasks_eq = two.tasks_eq ∙ ap (told o w) one.tasks_eq;
    }

abbrev pub is_registered : Option Registration → Bool
is_registered none = false
is_registered (some g) = true
