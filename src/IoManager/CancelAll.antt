-- ===== src/IoManager/CancelAll.antt =====
-- cancelAll as an operation on the table of registrations.
use sylar_from_scratch.Base.{
  ℕ, ◌≡◌, inl, inr, false, refl, ap, ◌∙◌, ◌∷◌, Option, some, none, ◌==◌, get_elem?, set,
  if◌then◌else◌, Bool-cases,
}
use mathlib.Core.Path.{subst}
use sylar_from_scratch.IoManager.{
  IoManager, EpollCtl, Ctl, has, cancel_all, read_event, write_event, epoll_ctl_del,
}
use sylar_from_scratch.IoManager.Slot.{Registration, reading, writing, mask}
use sylar_from_scratch.IoManager.Table.{Table, Keeps, get_elem?-Keeps}
use sylar_from_scratch.IoManager.Events.{Did}
use sylar_from_scratch.IoManager.Batch.{
  get_elem?-set, set-set, trigger_if-After, Allowed, keep, told, is_registered,
}

mask-read : (r w : Option Registration) → has (mask (r, w)) read_event ≡ is_registered r
mask-read none none = refl
mask-read none (some g) = refl
mask-read (some g) none = refl
mask-read (some g) (some g') = refl

mask-write : (w : Option Registration) → has (mask (none, w)) write_event ≡ is_registered w
mask-write none = refl
mask-write (some g) = refl

registered-Allowed : (r : Option Registration) → Allowed (is_registered r) r
registered-Allowed none = tt
registered-Allowed (some g) = tt

keep-registered : (r : Option Registration) → keep (is_registered r) r ≡ none
keep-registered none = refl
keep-registered (some g) = refl

-- On a manager that keeps a table, cancelAll of a descriptor with a registered event fails no
-- assertion; where epoll_ctl succeeds, both events are free afterwards, each registered task was
-- scheduled once, and the call returns true; else nothing changes and it returns false.
pub cancel_all_lem :
    (epoll_ctl : EpollCtl) (fd : ℕ) (m : IoManager) (t : Table) (r w : Option Registration)
    → Keeps m t
    → get_elem? t fd ≡ some (r, w)
    → (mask (r, w) == 0) ≡ false
    → let ok = epoll_ctl m.ctls (record { op = epoll_ctl_del; fd = fd; events = 0 }) in
      Did (cancel_all epoll_ctl fd m) ok (if ok then set t fd (none, none) else t) (
        if ok then told (is_registered w) w (told (is_registered r) r m.scheduled) else m.scheduled)
unfolding cancel_all
cancel_all_lem epoll_ctl fd m t r w k h n =
    let call : Ctl = record { op = epoll_ctl_del; fd = fd; events = 0 } in
    let m' = record m { ctls = call ∷ m.ctls } in
    let k' : Keeps m' t = record { contexts_eq = k.contexts_eq; count_eq = k.count_eq } in
    let one =
      trigger_if-After (mask (r, w)) (is_registered r) fd reading m' t (r, w) (mask-read r w)
        (registered-Allowed r) k' h in
    let keeps : Keeps one.after (set t fd (none, w)) =
      subst (λ o. Keeps one.after (set t fd (o, w))) (keep-registered r) one.keeps in
    let h' = get_elem?-set t fd (r, w) (none, w) h in
    let two =
      trigger_if-After (mask (none, w)) (is_registered w) fd writing one.after (set t fd (none, w))
        (none, w) (mask-write w) (registered-Allowed w) keeps h' in
    let free : Keeps two.after (set t fd (none, none)) =
      subst (λ o. Keeps two.after (set t fd (none, o))) (keep-registered w)
        (subst (Keeps two.after) (set-set t fd (none, w) (none, keep (is_registered w) w))
          two.keeps) in
    let h2 = get_elem?-set t fd (r, w) (none, none) h in
    rw (get_elem?-Keeps fd m t (r, w) k h, n)
      (elim (Bool-cases (epoll_ctl m.ctls call)) [
        | inr failed ↦ rw (failed) record { after = m; returned = refl; keeps = k; tasks_eq = refl }
        | inl done ↦
            rw
              (
                done,
                one.returned,
                get_elem?-Keeps fd one.after (set t fd (none, w)) (none, w) keeps h',
                two.returned,
                get_elem?-Keeps fd two.after (set t fd (none, none)) (none, none) free h2,
              )
              record {
                after = two.after;
                returned = refl;
                keeps = free;
                tasks_eq = two.tasks_eq ∙ ap (told (is_registered w) w) one.tasks_eq;
              }
      ])
