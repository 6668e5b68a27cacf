-- ===== src/Fiber.antt =====
-- sylar/fiber.h and sylar/fiber.cc: the states of fibers and the switches between them on one thread.
-- A fiber lives at an address of the store. A context is the address of the fiber whose code goes on
-- when it is entered, and `flow` is the fiber whose code the thread runs; swapcontext saves the one in
-- the first context and enters the second. The numbers and the count of fibers are not modelled.
pub mod Switch
mod Tests
use sylar_from_scratch.Base.{
  ℕ, Bool, true, false, not, Option, some, none, ◌==◌, ◌||◌, if◌then◌else◌, maybe,
}

pub data State : Type 0 where
  ready : State
  running : State
  term : State

pub record Fiber : Type 0 where
  pub state : State
  pub has_stack : Bool
  pub cb : Option ℕ
  pub run_in_scheduler : Bool
  pub ctx : ℕ

abbrev pub Fibers : Type 0
Fibers = ℕ → Fiber

-- `t_fiber`, `t_thread_fiber` and `t_scheduler_fiber`, none for null.
pub record Thread : Type 0 where
  pub fibers : Fibers
  pub current : Option ℕ
  pub thread_fiber : Option ℕ
  pub scheduler_fiber : Option ℕ
  pub flow : ℕ

abbrev pub update : Fibers → ℕ → Fiber → Fibers
update h a f b = if b == a then f else h b

abbrev is_term : State → Bool
is_term ready = false
is_term running = false
is_term term = true

abbrev is_ready : State → Bool
is_ready ready = true
is_ready running = false
is_ready term = false

-- The constructor with a callback, for a new fiber at `a`.
pub create : ℕ → ℕ → Bool → Thread → Thread
create a cb run_in_scheduler t = record t {
  fibers = update t.fibers a (record {
    state = ready;
    has_stack = true;
    cb = some cb;
    run_in_scheduler = run_in_scheduler;
    ctx = a;
  });
}

-- `GetThis`, with the address of the main fiber that it makes where there is no current one.
pub get_this : ℕ → Thread → Thread × ℕ
get_this a t =
    maybe
      (
        record t {
          fibers = update t.fibers a (record {
            state = running;
            has_stack = false;
            cb = none;
            run_in_scheduler = false;
            ctx = a;
          });
          current = some a;
          thread_fiber = some a;
        },
        a,
      )
      (λ f. (t, f)) t.current

-- None is a failed assertion or a null pointer.
pub reset : ℕ → ℕ → Thread → Option Thread
reset a cb t =
    let f = t.fibers a in
    if f.has_stack
    then (if is_term f.state
        then some (record t {
          fibers = update t.fibers a (record f { state = ready; cb = some cb; ctx = a });
        })
        else none)
    else none

pub swap_context : ℕ → ℕ → Thread → Thread
swap_context from to t =
    let fibers = update t.fibers from (record (t.fibers from) { ctx = t.flow }) in
    record t { fibers = fibers; flow = (fibers to).ctx }

-- The fiber that `resume` leaves and `yield` enters.
abbrev pub root : ℕ → Thread → Option ℕ
root a t = if (t.fibers a).run_in_scheduler then t.scheduler_fiber else t.thread_fiber

abbrev pub with_state : State → ℕ → Thread → Thread
with_state s a t = record t { fibers = update t.fibers a (record (t.fibers a) { state = s }) }

pub resume : ℕ → Thread → Option Thread
unfolding swap_context
resume a t =
    if is_ready (t.fibers a).state
    then maybe none
        (λ from. some (swap_context from a (record (with_state running a t) { current = some a })))
        (root a t)
    else none

pub yield : ℕ → Thread → Option Thread
unfolding swap_context
yield a t =
    if is_ready (t.fibers a).state
    then none
    else maybe none
        (λ to.
          let s = if is_term (t.fibers a).state then term else ready in
          some (swap_context a to (record (with_state s a t) { current = some to })))
        (root a t)

-- `MainFunc` behind the return of the callback, in fiber `a`.
pub finish : ℕ → Thread → Option Thread
unfolding yield
finish a t =
    let f = t.fibers a in
    yield a (record t { fibers = update t.fibers a (record f { state = term; cb = none }) })
