-- ===== src/IoManager/Report.antt =====
-- The handling of a report of epoll_wait.
use sylar_from_scratch.Base.{
  ℕ, ◌/◌, ◌%◌, ◌==◌, ==→eq, sym, ap, ◌∙◌, ◌≡◌, inl, inr, Bool, true, false, refl, ◌∷◌, Option, some,
  none, not, ◌&&◌, ◌||◌, ◌<◌, get_elem?, set, if◌then◌else◌, Bool-cases,
}
use mathlib.Core.Bool.{false≢true}
use sylar_from_scratch.Base.Bytes.{all_below, all_below_lem, and-split}
use sylar_from_scratch.IoManager.{
  IoManager, EpollCtl, has, without, handle, real_events, left_call, read_event, write_event,
}
use sylar_from_scratch.IoManager.Slot.{Pair, Registration, mask}
use sylar_from_scratch.IoManager.Table.{Table, Keeps, get_elem?-Keeps}
use sylar_from_scratch.IoManager.Batch.{both-After, Allowed, keep, told, After, is_registered}

-- A report of epoll_wait on a manager that keeps a table.
handled :
    (epoll_ctl : EpollCtl) (fd reported : ℕ) (m : IoManager) (t : Table) (r w : Option Registration)
    → Keeps m t
    → get_elem? t fd ≡ some (r, w)
    → let real = real_events reported (mask (r, w)) in
      Allowed (has real read_event) r
      → Allowed (has real write_event) w
      → let ok =
          has (mask (r, w)) real && epoll_ctl m.ctls (left_call fd (without (mask (r, w)) real)) in
        After
          (handle epoll_ctl fd reported m)
          (if ok then set t fd (keep (has real read_event) r, keep (has real write_event) w) else t)
          (if ok
            then told (has real write_event) w (told (has real read_event) r m.scheduled)
            else m.scheduled)
unfolding handle
handled epoll_ctl fd reported m t r w k h ai ao =
    let real = real_events reported (mask (r, w)) in
    let call = left_call fd (without (mask (r, w)) real) in
    rw (get_elem?-Keeps fd m t (r, w) k h) (elim (Bool-cases (has (mask (r, w)) real)) [
      | inr n ↦ rw (n) record { after = m; returned = refl; keeps = k; tasks_eq = refl }
      | inl y ↦ rw (y) (elim (Bool-cases (epoll_ctl m.ctls call)) [
        | inr n ↦ rw (n) record { after = m; returned = refl; keeps = k; tasks_eq = refl }
        | inl c ↦ rw (c) (
            both-After (has real read_event) (has real write_event) real real fd
              (record m { ctls = call ∷ m.ctls }) t r w refl refl ai ao
              (record { contexts_eq = k.contexts_eq; count_eq = k.count_eq }) h)
      ])
    ])

abbrev implies : Bool → Bool → Bool
implies a b = not a || b

Allowed-implies :
    (b : Bool) (r : Option Registration) → Allowed b r → implies b (is_registered r) ≡ true
Allowed-implies false r a = refl
Allowed-implies true none a = absurd a
Allowed-implies true (some g) a = refl

implies-Allowed :
    (b : Bool) (r : Option Registration) → implies b (is_registered r) ≡ true → Allowed b r
implies-Allowed false r e = tt
implies-Allowed true none e = false≢true e
implies-Allowed true (some g) e = tt

-- A flag of a report, by its binary digit.
abbrev pub flagged : ℕ → ℕ → Bool
flagged reported flag = reported / flag % 2 == 1

-- Whether a report is one for a registration that waits for `flag`: it names the event, or EPOLLERR, 8,
-- or EPOLLHUP, 16.
abbrev pub is_due : ℕ → ℕ → Option Registration → Bool
is_due flag reported g =
    is_registered g && (flagged reported flag || flagged reported 8 || flagged reported 16)

abbrev names_registered : ℕ → Option Registration → Option Registration → Bool
names_registered reported r w =
    implies (flagged reported 1) (is_registered r) && implies (flagged reported 4) (is_registered w)

abbrev agree : Bool → Bool → Bool
agree true b = b
agree false b = not b

agree-eq : (a b : Bool) → agree a b ≡ true → a ≡ b
agree-eq true true e = refl
agree-eq true false e = sym e
agree-eq false true e = e
agree-eq false false e = refl

-- What the code computes of a report, and what is due.
abbrev computes_due : Option Registration → Option Registration → ℕ → Bool
computes_due r w reported =
    let real = real_events reported (mask (r, w)) in
    let read = is_due 1 reported r in
    let write = is_due 4 reported w in
    implies (has real read_event) (is_registered r)
    && (implies (has real write_event) (is_registered w)
        && (agree (has real read_event) read
            && (agree (has real write_event) write
                && (agree (has (mask (r, w)) real) (read || write)
                    && without (mask (r, w)) real == mask (keep read r, keep write w)))))

report_table :
    (r w : Option Registration)
    → all_below 32 (λ n. implies (names_registered n r w) (computes_due r w n)) ≡ true
unfolding all_below real_events
report_table none none = refl
report_table none (some g) = refl
report_table (some g) none = refl
report_table (some g) (some g') = refl

and_both : (a b : Bool) → a ≡ true → b ≡ true → (a && b) ≡ true
and_both true b e f = f
and_both false b e f = e

computes_due_lem :
    (reported : ℕ) (r w : Option Registration)
    → reported < 32
    → Allowed (flagged reported 1) r
    → Allowed (flagged reported 4) w
    → computes_due r w reported ≡ true
computes_due_lem reported r w b ai ao =
    let row =
      all_below_lem 32 (λ n. implies (names_registered n r w) (computes_due r w n)) reported
        (report_table r w) b in
    let given =
      and_both _ _ (Allowed-implies (flagged reported 1) r ai)
        (Allowed-implies (flagged reported 4) w ao) in
    sym (ap (λ z. implies z (computes_due r w reported)) given) ∙ row

-- A report handled, by what is kept of the registrations and what epoll_ctl is called with.
Handled :
    EpollCtl
    → ℕ
    → Option IoManager
    → IoManager
    → Table
    → Option Registration
    → Option Registration
    → Bool
    → Bool
    → Bool
    → ℕ
    → Type 0
Handled epoll_ctl fd o m t r w read write some_due kept =
    let ok = some_due && epoll_ctl m.ctls (left_call fd kept) in
    After o (if ok then set t fd (keep read r, keep write w) else t)
      (if ok then told write w (told read r m.scheduled) else m.scheduled)

Handled-same :
    (epoll_ctl : EpollCtl) (fd : ℕ) (o : Option IoManager) (m : IoManager) (t : Table)
    (r w : Option Registration) {read read' write write' some_due some_due' : Bool} {kept kept' : ℕ}
    → read ≡ read'
    → write ≡ write'
    → some_due ≡ some_due'
    → kept ≡ kept'
    → Handled epoll_ctl fd o m t r w read write some_due kept
    → Handled epoll_ctl fd o m t r w read' write' some_due' kept'
Handled-same epoll_ctl fd o m t r w e f g h d = rw (sym e, sym f, sym g, sym h) d

-- On a manager that keeps a table, a report of epoll_wait for a descriptor, which names only registered
-- events, fails no assertion. Due are the registered events that it names, or all that are
-- registered if it has EPOLLERR or EPOLLHUP. Where one is due and epoll_ctl succeeds in keeping the
-- others, exactly the due ones are taken out of the table and their tasks scheduled, that for
-- reading first; otherwise nothing changes.
pub handle_lem :
    (epoll_ctl : EpollCtl) (fd reported : ℕ) (m : IoManager) (t : Table) (r w : Option Registration)
    → Keeps m t
    → get_elem? t fd ≡ some (r, w)
    → reported < 32
    → Allowed (flagged reported 1) r
    → Allowed (flagged reported 4) w
    → let read = is_due 1 reported r in
      let write = is_due 4 reported w in
      let left : Pair = (keep read r, keep write w) in
      let ok = (read || write) && epoll_ctl m.ctls (left_call fd (mask left)) in
      After
        (handle epoll_ctl fd reported m)
        (if ok then set t fd left else t)
        (if ok then told write w (told read r m.scheduled) else m.scheduled)
unfolding Handled
handle_lem epoll_ctl fd reported m t r w k h b ai ao =
    let real = real_events reported (mask (r, w)) in
    let (ri, more) = and-split _ _ (computes_due_lem reported r w b ai ao) in
    let (wi, more2) = and-split _ _ more in
    let (re, more3) = and-split _ _ more2 in
    let (we, more4) = and-split _ _ more3 in
    let (se, ke) = and-split _ _ more4 in
    Handled-same epoll_ctl fd (handle epoll_ctl fd reported m) m t r w (agree-eq _ _ re)
      (agree-eq _ _ we) (agree-eq _ _ se) (==→eq _ _ ke)
      (handled epoll_ctl fd reported m t r w k h (implies-Allowed (has real read_event) r ri)
        (implies-Allowed (has real write_event) w wi))
