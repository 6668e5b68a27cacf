-- ===== src/Hook.antt =====
-- sylar/hook.cc: the system calls that wait in a fiber.
-- What the system's call, addEvent and a wait answer, one after the other, is an argument. A trace says
-- what was done to the system, the timers and the events. The flags of a descriptor are their bit
-- O_NONBLOCK and the other bits.
pub mod Trace
pub mod Blocking
pub mod Flags
mod Tests
use sylar_from_scratch.Base.{
  ℕ, ◌+◌, ◌-◌, ◌^◌, ltb, ◌*◌, ◌/◌, ◌%◌, Bool, true, false, not, ◌&&◌, ◌||◌, List, [], ◌∷◌, ◌++◌,
  Option, some, none, ◌==◌, if◌then◌else◌, maybe,
}
use sylar_from_scratch.FdManager.{
  FdCtx, FdManager, get_timeout, set_timeout, set_user_nonblock, no_timeout, data_at, del,
}
use mathlib.Core.Option

abbrev pub eintr : ℕ
eintr = 4

abbrev pub eagain : ℕ
eagain = 11

abbrev pub ebadf : ℕ
ebadf = 9

abbrev pub etimedout : ℕ
etimedout = 110

abbrev pub einprogress : ℕ
einprogress = 115

-- One answer of the system's call: what it returns, or the errno of -1.
pub data Answer : Type 0 where
  returned : ℕ → Answer
  error : ℕ → Answer

-- What follows an EAGAIN: addEvent fails, or the fiber resumes, and the timer may have run out.
pub data Wait : Type 0 where
  refused : Wait
  resumed : Wait
  timed_out : Wait

pub data Action : Type 0 where
  call : Answer → Action
  add_timer : ℕ → Action
  cancel_timer : Action
  add_event : Action
  yield : Action

-- What the hooked call returns: a number, or -1 with errno, or -1 with the errno of addEvent.
pub data Result : Type 0 where
  value : ℕ → Result
  failed : ℕ → Result
  event_failed : Result

pub record Done : Type 0 where
  pub trace : List Action
  pub result : Result

abbrev pub after : List Action → Done → Done
after actions d = record d { trace = actions ++ d.trace }

-- The timer is there if the time is not -1.
abbrev pub if_timer : ℕ → Action → List Action
if_timer to a = if to == no_timeout then [] else a ∷ []

-- A wait: the timer is set, the event added, the fiber left unless that fails, and the timer cancelled.
abbrev pub wait_actions : ℕ → Wait → List Action
wait_actions to refused = if_timer to (add_timer to) ++ add_event ∷ if_timer to cancel_timer
wait_actions to timed_out =
    if_timer to (add_timer to) ++ add_event ∷ yield ∷ if_timer to cancel_timer
wait_actions to resumed = if_timer to (add_timer to) ++ add_event ∷ yield ∷ if_timer to cancel_timer

-- After an EAGAIN, with what `retry` does from then on.
pub go_on : ℕ → List Wait → (List Wait → Option Done) → Option Done
go_on to [] again = none
go_on to (refused ∷ ws) again =
    some (record { trace = wait_actions to refused; result = event_failed })
go_on to (timed_out ∷ ws) again =
    some (record { trace = wait_actions to timed_out; result = failed etimedout })
go_on to (resumed ∷ ws) again = Option.map (after (wait_actions to resumed)) (again ws)

-- The part of `do_io` from `retry` on; none where a call of the system or the wait does not return.
pub retry : ℕ → List Answer → List Wait → Option Done
unfolding go_on
retry to [] waits = none
retry to (returned n ∷ as') waits =
    some (record { trace = call (returned n) ∷ []; result = value n })
retry to (error e ∷ as') waits = Option.map (after (call (error e) ∷ [])) (
    if e == eintr
    then retry to as' waits
    else if e == eagain
    then go_on to waits (λ ws. retry to as' ws)
    else some (record { trace = []; result = failed e }))

-- The old interface: one call.
pub direct : List Answer → Option Done
direct [] = none
direct (returned n ∷ as') = some (record { trace = call (returned n) ∷ []; result = value n })
direct (error e ∷ as') = some (record { trace = call (error e) ∷ []; result = failed e })

-- `do_io`: `hook` is t_hook_enable, `recv` whether timeout_so is SO_RCVTIMEO.
pub do_io : Bool → Option FdCtx → Bool → List Answer → List Wait → Option Done
unfolding retry direct
do_io hook ctx recv answers waits =
    if not hook
    then direct answers
    else maybe (direct answers)
        (λ c.
          if c.is_closed
          then some (record { trace = []; result = failed ebadf })
          else if not c.is_socket || c.user_nonblock
          then direct answers
          else retry (get_timeout recv c) answers waits)
        ctx

-- `connect_with_timeout`; the last argument is what getsockopt says: SO_ERROR, or none for -1 with
-- its errno.
pub connect_end : Option ℕ → ℕ → Result
connect_end none e = failed e
connect_end (some code) e = if code == 0 then value 0 else failed code

pub connect_waited : ℕ → Wait → Option ℕ → ℕ → Done
unfolding connect_end
connect_waited to timed_out so_error e = record {
  trace = wait_actions to timed_out;
  result = failed etimedout;
}
connect_waited to refused so_error e = record {
  trace = wait_actions to refused;
  result = connect_end so_error e;
}
connect_waited to resumed so_error e = record {
  trace = wait_actions to resumed;
  result = connect_end so_error e;
}

-- The call of connect and, after EINPROGRESS, the wait.
pub connect_call : ℕ → List Answer → Wait → Option ℕ → ℕ → Option Done
unfolding connect_waited
connect_call to [] w so_error e = none
connect_call to (returned n ∷ as') w so_error e =
    some (record { trace = call (returned n) ∷ []; result = value n })
connect_call to (error n ∷ as') w so_error e = some (
    after (call (error n) ∷ []) (
      if n == einprogress
      then connect_waited to w so_error e
      else record { trace = []; result = failed n }))

pub connect_with_timeout : Bool → Option FdCtx → ℕ → List Answer → Wait → Option ℕ → ℕ → Option Done
unfolding direct connect_call
connect_with_timeout hook ctx timeout_ms answers wait so_error e =
    if not hook
    then direct answers
    else maybe (some (record { trace = []; result = failed ebadf }))
        (λ c.
          if c.is_closed
          then some (record { trace = []; result = failed ebadf })
          else if not c.is_socket || c.user_nonblock
          then direct answers
          else connect_call timeout_ms answers wait so_error e)
        ctx

-- The flags of a descriptor, and fcntl with F_SETFL: the context, and the flags that the system gets.
pub record FileFlags : Type 0 where
  pub o_nonblock : Bool
  pub others : ℕ

-- A context that fcntl and ioctl treat: an open socket's.
abbrev pub is_hooked : FdCtx → Bool
is_hooked c = not c.is_closed && c.is_socket

pub set_flags : FileFlags → Option FdCtx → Option FdCtx × FileFlags
set_flags arg none = (none, arg)
set_flags arg (some c) =
    if is_hooked c
    then (some (set_user_nonblock arg.o_nonblock c), record arg { o_nonblock = c.sys_nonblock })
    else (some c, arg)

-- fcntl with F_GETFL, by what the system has.
pub get_flags : FileFlags → Option FdCtx → FileFlags
get_flags flags none = flags
get_flags flags (some c) =
    if is_hooked c then record flags { o_nonblock = c.user_nonblock } else flags

-- ioctl with FIONBIO: the context.
pub set_fionbio : Bool → Option FdCtx → Option FdCtx
set_fionbio nonblock none = none
set_fionbio nonblock (some c) = some (if is_hooked c then set_user_nonblock nonblock c else c)

-- setsockopt of SO_RCVTIMEO (`recv`) or SO_SNDTIMEO to a timeval.
pub set_so_timeout : Bool → ℕ → ℕ → Option FdCtx → Option FdCtx
set_so_timeout recv sec usec =
    Option.map (set_timeout recv ((sec * 1000 + usec / 1000) % 18446744073709551616))

-- `close` on the table of descriptors, with the hook on.
pub close_fd : ℕ → FdManager → FdManager
close_fd fd m = maybe m (λ c. del fd m) (data_at m fd)

-- `sleep`, `usleep` and `nanosleep`: the milliseconds of the timer that resumes the fiber.
pub sleep_ms : ℕ → ℕ
sleep_ms seconds = seconds * 1000 % 4294967296

pub usleep_ms : ℕ → ℕ
usleep_ms usec = usec / 1000

-- The time is an int, which as the uint64_t that addTimer takes has the bits of its sign in front.
pub nanosleep_ms : ℕ → ℕ → ℕ
nanosleep_ms sec nsec =
    let timeout_ms = (sec * 1000 + nsec / 1000 / 1000) % 4294967296 in
    if ltb timeout_ms 2147483648 then timeout_ms else timeout_ms + (2 ^ 64 - 2 ^ 32)
