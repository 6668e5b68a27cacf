-- ===== src/Timer.antt =====
-- sylar/timer.h and sylar/timer.cc: timers, and the manager that keeps them in a std::set.
-- A timer lives at an address of the store, and the set holds addresses in the comparator's order.
-- The clock, GetElapsedMS, and the addresses that `new` returns are arguments.
pub mod Order
pub mod Set
pub mod Manager
pub mod Expire
pub mod Listing
mod Tests
use sylar_from_scratch.Base.{
  ℕ, ◌+◌, ◌-◌, ◌*◌, ◌%◌, ◌^◌, Bool, true, false, not, ◌&&◌, List, [], ◌∷◌, ◌++◌, Option, some, none,
  ltb, leb, ◌==◌, if◌then◌else◌,
}
use mathlib.Core.Option

pub record Timer : Type 0 where
  pub recurring : Bool
  pub ms : ℕ
  pub next : ℕ
  pub cb : Option ℕ

abbrev pub Store : Type 0
Store = ℕ → Timer

abbrev pub update : Store → ℕ → Timer → Store
update h a t b = if b == a then t else h b

pub record TimerManager : Type 0 where
  pub store : Store
  pub timers : List ℕ
  pub tickled : Bool
  pub previous_time : ℕ

abbrev pub u64 : ℕ → ℕ
u64 n = n % 2 ^ 64

-- `Timer::Comparator` on pointers, none for a null one.
pub comparator : Store → Option ℕ → Option ℕ → Bool
comparator h none none = false
comparator h none (some b) = true
comparator h (some a) none = false
comparator h (some a) (some b) =
    if ltb (h a).next (h b).next then true else if ltb (h b).next (h a).next then false else ltb a b

abbrev pub less : Store → ℕ → ℕ → Bool
unfolding comparator
less h a b = comparator h (some a) (some b)

-- std::set::insert: nothing happens where an equivalent element is there.
pub insert : Store → ℕ → List ℕ → List ℕ
insert h a [] = a ∷ []
insert h a (b ∷ bs) =
    if less h a b then a ∷ b ∷ bs else if less h b a then b ∷ insert h a bs else b ∷ bs

-- std::set::find followed by erase: none where `find` gives `end()`.
pub erase : Store → ℕ → List ℕ → Option (List ℕ)
erase h a [] = none
erase h a (b ∷ bs) =
    if less h b a
    then Option.map (λ r. b ∷ r) (erase h a bs)
    else if less h a b
    then none
    else some bs

abbrev pub is_begin : ℕ → List ℕ → Bool
is_begin a [] = false
is_begin a (b ∷ bs) = a == b

-- `addTimer(val, lock)`: the second result is the call of onTimerInsertedAtFront.
pub add_locked : ℕ → TimerManager → TimerManager × Bool
add_locked a m =
    let timers = insert m.store a m.timers in
    let at_front = is_begin a timers && not m.tickled in
    (record m { timers = timers; tickled = if at_front then true else m.tickled }, at_front)

-- `addTimer(ms, cb, recurring)` with the new timer at address `a`.
pub add_timer : ℕ → ℕ → ℕ → Option ℕ → Bool → TimerManager → TimerManager × Bool
unfolding add_locked
add_timer now a ms cb recurring m =
    let t : Timer = record { recurring = recurring; ms = ms; next = u64 (now + ms); cb = cb } in
    add_locked a (record m { store = update m.store a t })

abbrev clear_cb : Store → ℕ → Store
clear_cb h a = update h a (record (h a) { cb = none })

-- None stands for `erase(end())`, which is undefined.
pub cancel : ℕ → TimerManager → Option (TimerManager × Bool)
cancel a m = elim (m.store a).cb [
  | none ↦ some (m, false)
  | some _ ↦
      let store = clear_cb m.store a in
      Option.map (λ timers. (record m { store = store; timers = timers }, true))
        (erase store a m.timers)
]

abbrev set_next : Store → ℕ → ℕ → Store
set_next h a n = update h a (record (h a) { next = n })

pub refresh : ℕ → ℕ → TimerManager → TimerManager × Bool
refresh now a m = elim (m.store a).cb [
  | none ↦ (m, false)
  | some _ ↦ elim (erase m.store a m.timers) [
    | none ↦ (m, false)
    | some rest ↦
        let store = set_next m.store a (u64 (now + (m.store a).ms)) in
        (record m { store = store; timers = insert store a rest }, true)
  ]
]

-- The third result is the call of onTimerInsertedAtFront.
pub reset : ℕ → ℕ → ℕ → Bool → TimerManager → TimerManager × Bool × Bool
unfolding add_locked
reset now a ms from_now m =
    let t = m.store a in
    if ms == t.ms && not from_now then (m, true, false) else elim t.cb [
      | none ↦ (m, false, false)
      | some _ ↦ elim (erase m.store a m.timers) [
        | none ↦ (m, false, false)
        | some rest ↦
            let start = if from_now then now else u64 (t.next + 2 ^ 64 - t.ms) in
            let store = update m.store a (record t { ms = ms; next = u64 (start + ms) }) in
            let (m', notified) = add_locked a (record m { store = store; timers = rest }) in
            (m', true, notified)
      ]
    ]

-- `~0ull` where there is no timer.
pub next_wait : ℕ → Store → List ℕ → ℕ
next_wait now h [] = 2 ^ 64 - 1
next_wait now h (a ∷ _) = if leb (h a).next now then 0 else (h a).next - now

pub get_next_timer : ℕ → TimerManager → TimerManager × ℕ
unfolding next_wait
get_next_timer now m = (record m { tickled = false }, next_wait now m.store m.timers)

pub has_timer : TimerManager → Bool
has_timer m = elim m.timers [ [] ↦ false | _ ∷ _ ↦ true ]

-- The hour is subtracted in uint64_t.
pub detect_clock_rollover : ℕ → TimerManager → TimerManager × Bool
detect_clock_rollover now m = (
  record m { previous_time = now },
  ltb now m.previous_time && ltb now (u64 (m.previous_time + 2 ^ 64 - 60 * 60 * 1000)),
)

-- The elements before `lower_bound(now_timer)`, then those after them whose time is `now`.
pub take_at : Store → ℕ → List ℕ → List ℕ × List ℕ
take_at h now [] = ([], [])
take_at h now (a ∷ as') =
    let (taken, rest) = take_at h now as' in
    if (h a).next == now then (a ∷ taken, rest) else ([], a ∷ as')

pub take_expired : Store → ℕ → ℕ → List ℕ → List ℕ × List ℕ
unfolding take_at
take_expired h now key [] = ([], [])
take_expired h now key (a ∷ as') =
    let (taken, rest) = take_expired h now key as' in
    if less h a key then (a ∷ taken, rest) else take_at h now (a ∷ as')

-- One round of the loop over the expired timers.
pub fire : ℕ → ℕ → Store → List ℕ → Store × List ℕ
fire now a h timers =
    if (h a).recurring
    then (let store = set_next h a (u64 (now + (h a).ms)) in (store, insert store a timers))
    else (clear_cb h a, timers)

pub record Fired : Type 0 where
  pub store : Store
  pub timers : List ℕ
  pub cbs : List (Option ℕ)

pub fire_all : ℕ → List ℕ → Store → List ℕ → Fired
unfolding fire
fire_all now [] h timers = record { store = h; timers = timers; cbs = [] }
fire_all now (a ∷ as') h timers =
    let (h', timers') = fire now a h timers in
    let rest = fire_all now as' h' timers' in record rest { cbs = (h a).cb ∷ rest.cbs }

abbrev first_later : ℕ → TimerManager → Bool
first_later now m = elim m.timers [ [] ↦ true | a ∷ _ ↦ ltb now (m.store a).next ]

-- The part of `listExpiredCb` behind its early returns, with the timer for comparisons at `key`.
pub fire_due : ℕ → ℕ → Bool → TimerManager → TimerManager × List (Option ℕ)
unfolding take_expired fire_all
fire_due now key rollover m =
    let now_timer : Timer = record { recurring = false; ms = 0; next = now; cb = none } in
    let h = update m.store key now_timer in
    let (expired, rest) = if rollover then (m.timers, []) else take_expired h now key m.timers in
    let fired = fire_all now expired h rest in
    (record m { store = fired.store; timers = fired.timers }, fired.cbs)

pub expire : ℕ → ℕ → TimerManager → TimerManager × List (Option ℕ)
unfolding detect_clock_rollover fire_due
expire now key m =
    let (m, rollover) = detect_clock_rollover now m in
    if not rollover && first_later now m then (m, []) else fire_due now key rollover m

pub list_expired_cb : ℕ → ℕ → TimerManager → TimerManager × List (Option ℕ)
unfolding expire
list_expired_cb now key m = elim m.timers [ [] ↦ (m, []) | _ ∷ _ ↦ expire now key m ]
