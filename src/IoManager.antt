-- ===== src/IoManager.antt =====
-- sylar/iomanager.h and sylar/iomanager.cc: the contexts of file descriptors, and the operations that
-- register, remove and trigger their read and write events.
-- epoll_ctl is an argument, true where the call returns 0, told the calls that succeeded before.
pub mod Slot
pub mod Table
pub mod Events
pub mod Batch
pub mod Report
pub mod CancelAll
mod Tests
use sylar_from_scratch.Base.{
  ℕ, zero, suc, ◌+◌, ◌-◌, ◌*◌, ◌/◌, ◌%◌, ◌^◌, Bool, true, false, not, ◌&&◌, ◌||◌, List, [], ◌∷◌,
  ◌++◌, Option, some, none, ltb, leb, ◌==◌, if◌then◌else◌, length, get_elem?, set, take, maybe,
}
use mathlib.Core.Option
use Prim.Native.Nat.{bit_and, bit_or}

-- The events NONE, READ and WRITE are 0, 1 and 4.
abbrev pub read_event : ℕ
read_event = 1

abbrev pub write_event : ℕ
write_event = 4

abbrev epollet : ℕ
epollet = 2 ^ 31

pub record EventContext : Type 0 where
  pub scheduler : Option ℕ
  pub fiber : Option ℕ
  pub cb : Option ℕ

pub record FdContext : Type 0 where
  pub read : EventContext
  pub write : EventContext
  pub fd : ℕ
  pub events : ℕ

pub data Task : Type 0 where
  callback : ℕ → Task
  coroutine : Option ℕ → Task

pub data Op : Type 0 where
  epoll_ctl_add : Op
  epoll_ctl_mod : Op
  epoll_ctl_del : Op

pub record Ctl : Type 0 where
  pub op : Op
  pub fd : ℕ
  pub events : ℕ

-- The calls of `schedule`, with their scheduler, and the successful calls of epoll_ctl, latest first.
pub record IoManager : Type 0 where
  pub fd_contexts : List FdContext
  pub pending_event_count : ℕ
  pub scheduled : List (ℕ × Task)
  pub ctls : List Ctl

abbrev pub EpollCtl : Type 0
EpollCtl = List Ctl → Ctl → Bool

-- `reset_event_context`.
abbrev pub empty_context : EventContext
empty_context = record { scheduler = none; fiber = none; cb = none }

-- `--m_pendingEventCount` on size_t.
abbrev pub decrement : ℕ → ℕ
decrement zero = 2 ^ 64 - 1
decrement (suc n) = n

-- None is a failed assertion or a null pointer.
pub get_event_context : ℕ → FdContext → Option EventContext
get_event_context event c =
    if event == read_event then some c.read else if event == write_event then some c.write else none

abbrev pub set_event_context : ℕ → EventContext → FdContext → FdContext
set_event_context event ctx c =
    if event == read_event then record c { read = ctx } else record c { write = ctx }

pub reset_event_context : ℕ → FdContext → FdContext
reset_event_context event c = set_event_context event empty_context c

-- `events & event`, and `events & ~event` on int.
abbrev pub has : ℕ → ℕ → Bool
has events event = not (bit_and events event == 0)

abbrev pub without : ℕ → ℕ → ℕ
without events event = bit_and events (2 ^ 32 - 1 - event)

abbrev pub task_of : EventContext → Task
task_of ctx = elim ctx.cb [ some cb ↦ callback cb | none ↦ coroutine ctx.fiber ]

pub trigger_event : ℕ → FdContext → Option (FdContext × (ℕ × Task))
unfolding get_event_context reset_event_context
trigger_event event c =
    if has c.events event
    then maybe none
        (λ ctx.
          maybe none
            (λ scheduler. some (
              reset_event_context event (record c { events = without c.events event }),
              (scheduler, task_of ctx),
            ))
            ctx.scheduler)
        (get_event_context event c)
    else none

abbrev new_context : ℕ → FdContext
new_context i = record { read = empty_context; write = empty_context; fd = i; events = 0 }

-- The new contexts for the descriptors from `i` on.
pub new_contexts : ℕ → ℕ → List FdContext
new_contexts i zero = []
new_contexts i (suc n) = new_context i ∷ new_contexts (suc i) n

pub context_resize : ℕ → IoManager → IoManager
context_resize size m =
    let old = take size m.fd_contexts in
    record m { fd_contexts = old ++ new_contexts (length old) (size - length old) }

-- The context of `fd` in `addEvent`, made where the vector is too short.
pub make_room : ℕ → IoManager → IoManager
unfolding context_resize
make_room fd m = if ltb fd (length m.fd_contexts) then m else context_resize (fd * 3 / 2) m

abbrev pub is_null : Option ℕ → Bool
is_null none = true
is_null (some a) = false

abbrev pub is_empty : EventContext → Bool
is_empty ctx = is_null ctx.scheduler && is_null ctx.fiber && is_null ctx.cb

-- The context that `addEvent` fills: the callback, or the running fiber where there is none.
abbrev pub filled : Option ℕ → ℕ → Option ℕ → EventContext
filled scheduler fiber none = record { scheduler = scheduler; fiber = some fiber; cb = none }
filled scheduler fiber (some cb) = record { scheduler = scheduler; fiber = none; cb = some cb }

-- The part of `addEvent` behind epoll_ctl.
pub register : ℕ → EventContext → FdContext → Option FdContext
unfolding get_event_context
register event ctx c =
    maybe none
      (λ old.
        if is_empty old
        then some (set_event_context event ctx (record c { events = bit_or c.events event }))
        else none)
      (get_event_context event c)

abbrev pub add_call : ℕ → FdContext → ℕ → Ctl
add_call fd c event = record {
  op = if c.events == 0 then epoll_ctl_add else epoll_ctl_mod;
  fd = fd;
  events = bit_or (bit_or epollet c.events) event;
}

-- `addEvent` from the lock of the context on.
pub add_locked :
    EpollCtl → Option ℕ → ℕ → ℕ → ℕ → Option ℕ → FdContext → IoManager → Option (IoManager × Bool)
unfolding register
add_locked epoll_ctl scheduler fiber fd event cb c m =
    if has c.events event
    then none
    else if not (epoll_ctl m.ctls (add_call fd c event))
    then some (m, false)
    else maybe none
        (λ c'. some (
          record m {
            fd_contexts = set m.fd_contexts fd c';
            pending_event_count = suc m.pending_event_count;
            ctls = add_call fd c event ∷ m.ctls;
          },
          true,
        ))
        (register event (filled scheduler fiber cb) c)

-- `addEvent`; the scheduler and the current fiber of the thread, which is in state RUNNING, are
-- arguments.
pub add_event : EpollCtl → Option ℕ → ℕ → ℕ → ℕ → Option ℕ → IoManager → Option (IoManager × Bool)
unfolding make_room add_locked
add_event epoll_ctl scheduler fiber fd event cb m =
    let m = make_room fd m in
    maybe none (λ c. add_locked epoll_ctl scheduler fiber fd event cb c m)
      (get_elem? m.fd_contexts fd)

abbrev pub left_call : ℕ → ℕ → Ctl
left_call fd left_events = record {
  op = if left_events == 0 then epoll_ctl_del else epoll_ctl_mod;
  fd = fd;
  events = bit_or epollet left_events;
}

pub del_event : EpollCtl → ℕ → ℕ → IoManager → Option (IoManager × Bool)
del_event epoll_ctl fd event m =
    maybe (some (m, false))
      (λ c.
        let new_events = without c.events event in
        let call = left_call fd new_events in
        if not (has c.events event)
        then some (m, false)
        else if not (epoll_ctl m.ctls call)
        then some (m, false)
        else maybe none
            (λ _.
              let c' = reset_event_context event (record c { events = new_events }) in
              some (
                record m {
                  fd_contexts = set m.fd_contexts fd c';
                  pending_event_count = decrement m.pending_event_count;
                  ctls = call ∷ m.ctls;
                },
                true,
              ))
            (get_event_context event c))
      (get_elem? m.fd_contexts fd)

-- `triggerEvent` on the context of `fd`, and the decrement behind it.
pub trigger : ℕ → ℕ → FdContext → IoManager → Option IoManager
trigger fd event c m =
    maybe none
      (λ (c', task). some (record m {
        fd_contexts = set m.fd_contexts fd c';
        pending_event_count = decrement m.pending_event_count;
        scheduled = task ∷ m.scheduled;
      }))
      (trigger_event event c)

pub cancel_event : EpollCtl → ℕ → ℕ → IoManager → Option (IoManager × Bool)
cancel_event epoll_ctl fd event m =
    maybe (some (m, false))
      (λ c.
        let call = left_call fd (without c.events event) in
        if not (has c.events event)
        then some (m, false)
        else if not (epoll_ctl m.ctls call)
        then some (m, false)
        else Option.map (λ m. (m, true)) (trigger fd event c (record m { ctls = call ∷ m.ctls })))
      (get_elem? m.fd_contexts fd)

-- `if (real_events & event)`: the context is triggered as it stands by then.
pub trigger_if : ℕ → ℕ → ℕ → IoManager → Option IoManager
trigger_if real_events fd event m =
    if has real_events event
    then maybe none (λ c. trigger fd event c m) (get_elem? m.fd_contexts fd)
    else some m

abbrev pub trigger_both : ℕ → ℕ → ℕ → IoManager → Option IoManager
trigger_both for_read for_write fd m =
    maybe none (λ m. trigger_if for_write fd write_event m) (trigger_if for_read fd read_event m)

abbrev pub events_of : ℕ → IoManager → ℕ
events_of fd m = maybe 0 (λ c. c.events) (get_elem? m.fd_contexts fd)

-- The second `if` of `cancelAll` reads the events that the first trigger left, and the assertion at
-- the end those that both left.
pub cancel_all : EpollCtl → ℕ → IoManager → Option (IoManager × Bool)
cancel_all epoll_ctl fd m =
    maybe (some (m, false))
      (λ c.
        let call : Ctl = record { op = epoll_ctl_del; fd = fd; events = 0 } in
        if c.events == 0
        then some (m, false)
        else if not (epoll_ctl m.ctls call)
        then some (m, false)
        else maybe none
            (λ m.
              maybe none (λ m. if events_of fd m == 0 then some (m, true) else none)
                (trigger_if (events_of fd m) fd write_event m))
            (trigger_if c.events fd read_event (record m { ctls = call ∷ m.ctls })))
      (get_elem? m.fd_contexts fd)

-- The events that a report of epoll_wait stands for: EPOLLERR and EPOLLHUP, 8 and 16, stand for all
-- registered ones.
pub real_events : ℕ → ℕ → ℕ
real_events reported events =
    let reported =
      if has reported (bit_or 8 16)
      then bit_or reported (bit_and (bit_or 1 4) events)
      else reported in
    bit_or (if has reported 1 then read_event else 0) (if has reported 4 then write_event else 0)

-- One round of the loop of `idle` over the reports, for one that is not of the pipe.
pub handle : EpollCtl → ℕ → ℕ → IoManager → Option IoManager
handle epoll_ctl fd reported m =
    maybe none
      (λ c.
        let real = real_events reported c.events in
        let call = left_call c.fd (without c.events real) in
        if not (has c.events real)
        then some m
        else if not (epoll_ctl m.ctls call)
        then some m
        else trigger_both real real fd (record m { ctls = call ∷ m.ctls }))
      (get_elem? m.fd_contexts fd)

-- `epoll_wait` gets `std::min((int)next_timeout, 5000)`, or 5000 where there is no timer; none is a
-- negative number, with which it waits without end.
pub wait_timeout : ℕ → Option ℕ
wait_timeout next_timeout =
    let low = next_timeout % 2 ^ 32 in
    if next_timeout == 2 ^ 64 - 1
    then some 5000
    else if leb (2 ^ 31) low
    then none
    else if ltb 5000 low
    then some 5000
    else some low

-- `stopping`, for the answers of `getNextTimer` and `Scheduler::stopping`.
pub stopping : ℕ → Bool → IoManager → Bool
stopping timeout scheduler_stopping m =
    timeout == 2 ^ 64 - 1 && m.pending_event_count == 0 && scheduler_stopping
