-- ===== src/Hook/Trace.antt =====
-- sylar/hook.cc, do_io and connect_with_timeout: what is done to timers, events and fibers.
use sylar_from_scratch.Base.{
  ℕ, Bool, true, false, not, ◌||◌, List, [], ◌∷◌, ◌++◌, Option, some, none, ◌==◌, if◌then◌else◌,
  Bool-cases, inl, inr, append-nil,
}
use sylar_from_scratch.FdManager.{FdCtx, get_timeout, no_timeout}
use sylar_from_scratch.Hook.{
  Answer, returned, error, Wait, refused, resumed, timed_out, Action, call, add_timer, cancel_timer,
  add_event, yield, Done, after, wait_actions, go_on, retry, direct, do_io, connect_waited,
  connect_call, connect_with_timeout, eintr, eagain, einprogress, ebadf, failed,
}
use mathlib.Core.Option

-- A trace in order, by whether a timer is set and whether an event was added just before: there is at most
-- one timer, it is cancelled before the system is called again and at the end, and the fiber
-- is left only directly after its event was added.
unfoldable pub InOrder : Bool → Bool → List Action → Type 0
InOrder true added [] = ⊥
InOrder false added [] = Unit
InOrder true added (call a ∷ t) = ⊥
InOrder false added (call a ∷ t) = InOrder false false t
InOrder true added (add_timer ms ∷ t) = ⊥
InOrder false added (add_timer ms ∷ t) = InOrder true false t
InOrder true added (cancel_timer ∷ t) = InOrder false false t
InOrder false added (cancel_timer ∷ t) = ⊥
InOrder timer added (add_event ∷ t) = InOrder timer true t
InOrder timer true (yield ∷ t) = InOrder timer false t
InOrder timer false (yield ∷ t) = ⊥

-- What a call does, if it returns.
unfoldable pub IsOrdered : Option Done → Type 0
IsOrdered none = Unit
IsOrdered (some d) = InOrder false false d.trace

added-InOrder : (t : List Action) → InOrder false false t → InOrder false true t
unfolding InOrder
added-InOrder [] h = h
added-InOrder (call a ∷ t) h = h
added-InOrder (add_timer ms ∷ t) h = h
added-InOrder (cancel_timer ∷ t) h = h
added-InOrder (add_event ∷ t) h = h
added-InOrder (yield ∷ t) h = absurd h

wait-InOrder :
    (to : ℕ) (w : Wait) (t : List Action)
    → InOrder false false t
    → InOrder false false (wait_actions to w ++ t)
unfolding InOrder
wait-InOrder to refused t h = elim (Bool-cases (to == no_timeout)) [
  | inl e ↦ rw (e) (added-InOrder t h)
  | inr f ↦ rw (f) h
]
wait-InOrder to timed_out t h = elim (Bool-cases (to == no_timeout)) [
  | inl e ↦ rw (e) h
  | inr f ↦ rw (f) h
]
wait-InOrder to resumed t h = elim (Bool-cases (to == no_timeout)) [
  | inl e ↦ rw (e) h
  | inr f ↦ rw (f) h
]

-- The same where nothing follows.
wait-InOrder_end : (to : ℕ) (w : Wait) → InOrder false false (wait_actions to w)
unfolding InOrder
wait-InOrder_end to w = let h = wait-InOrder to w [] tt in rw (append-nil (wait_actions to w)) at h

-- Actions in order before a call in order.
after-IsOrdered :
    (actions : List Action)
    → ((t : List Action) → InOrder false false t → InOrder false false (actions ++ t))
    → (o : Option Done) → IsOrdered o
    → IsOrdered (Option.map (after actions) o)
unfolding IsOrdered
after-IsOrdered actions h none o = tt
after-IsOrdered actions h (some d) o = h d.trace o

go_on-IsOrdered :
    (to : ℕ) (ws : List Wait) (again : List Wait → Option Done)
    → ((vs : List Wait) → IsOrdered (again vs))
    → IsOrdered (go_on to ws again)
unfolding go_on IsOrdered
go_on-IsOrdered to [] again h = tt
go_on-IsOrdered to (refused ∷ ws) again h = wait-InOrder_end to refused
go_on-IsOrdered to (timed_out ∷ ws) again h = wait-InOrder_end to timed_out
go_on-IsOrdered to (resumed ∷ ws) again h =
    after-IsOrdered (wait_actions to resumed) (wait-InOrder to resumed) (again ws) (h ws)

if-IsOrdered :
    (b : Bool) (o p : Option Done) → IsOrdered o → IsOrdered p → IsOrdered (if b then o else p)
if-IsOrdered true o p h k = h
if-IsOrdered false o p h k = k

retry-IsOrdered :
    (to : ℕ) (answers : List Answer) (waits : List Wait) → IsOrdered (retry to answers waits)
unfolding retry IsOrdered InOrder
retry-IsOrdered to [] waits = tt
retry-IsOrdered to (returned n ∷ as') waits = tt
retry-IsOrdered to (error e ∷ as') waits =
    let final : Option Done = some (record { trace = []; result = failed e }) in
    let wait : Option Done = go_on to waits (λ ws. retry to as' ws) in
    let wait_or_final : Option Done = if e == eagain then wait else final in
    let again : Option Done = if e == eintr then retry to as' waits else wait_or_final in
    let waited : IsOrdered wait =
      go_on-IsOrdered to waits (retry to as') (retry-IsOrdered to as') in
    after-IsOrdered (call (error e) ∷ []) (λ t h. h) again
      (if-IsOrdered (e == eintr) (retry to as' waits) wait_or_final (retry-IsOrdered to as' waits)
        (if-IsOrdered (e == eagain) wait final waited (tt {0})))

direct-IsOrdered : (answers : List Answer) → IsOrdered (direct answers)
unfolding direct IsOrdered InOrder
direct-IsOrdered [] = tt
direct-IsOrdered (returned n ∷ as') = tt
direct-IsOrdered (error e ∷ as') = tt

-- However the system, the timers and addEvent answer, a call of do_io that returns has at most one
-- timer, which it cancels before it calls the system again and before it returns, and leaves the
-- fiber only directly after it has added its event.
pub do_io-IsOrdered :
    (hook : Bool) (ctx : Option FdCtx) (recv : Bool) (answers : List Answer) (waits : List Wait)
    → IsOrdered (do_io hook ctx recv answers waits)
unfolding do_io IsOrdered InOrder
do_io-IsOrdered false ctx recv answers waits = direct-IsOrdered answers
do_io-IsOrdered true none recv answers waits = direct-IsOrdered answers
do_io-IsOrdered true (some c) recv answers waits =
    let closed : Option Done = some (record { trace = []; result = failed ebadf }) in
    let io : Option Done = retry (get_timeout recv c) answers waits in
    let plain_or_io : Option Done =
      if not c.is_socket || c.user_nonblock then direct answers else io in
    if-IsOrdered c.is_closed closed plain_or_io (tt {0}) (
      if-IsOrdered (not c.is_socket || c.user_nonblock) (direct answers) io
        (direct-IsOrdered answers) (retry-IsOrdered (get_timeout recv c) answers waits))

waited-InOrder :
    (to : ℕ) (w : Wait) (so_error : Option ℕ) (e : ℕ)
    → InOrder false false (connect_waited to w so_error e).trace
unfolding connect_waited
waited-InOrder to refused so_error e = wait-InOrder_end to refused
waited-InOrder to timed_out so_error e = wait-InOrder_end to timed_out
waited-InOrder to resumed so_error e = wait-InOrder_end to resumed

connect_call-IsOrdered :
    (to : ℕ) (answers : List Answer) (w : Wait) (so_error : Option ℕ) (e : ℕ)
    → IsOrdered (connect_call to answers w so_error e)
unfolding connect_call IsOrdered InOrder
connect_call-IsOrdered to [] w so_error e = tt
connect_call-IsOrdered to (returned n ∷ as') w so_error e = tt
connect_call-IsOrdered to (error n ∷ as') w so_error e = elim (Bool-cases (n == einprogress)) [
  | inl t ↦ rw (t) (waited-InOrder to w so_error e)
  | inr f ↦ rw (f) (tt {0})
]

-- The same of connect_with_timeout.
pub connect_with_timeout-IsOrdered :
    (hook : Bool) (ctx : Option FdCtx) (timeout_ms : ℕ) (answers : List Answer) (w : Wait)
    (so_error : Option ℕ) (e : ℕ)
    → IsOrdered (connect_with_timeout hook ctx timeout_ms answers w so_error e)
unfolding connect_with_timeout IsOrdered InOrder
connect_with_timeout-IsOrdered false ctx timeout_ms answers w so_error e = direct-IsOrdered answers
connect_with_timeout-IsOrdered true none timeout_ms answers w so_error e = tt
connect_with_timeout-IsOrdered true (some c) timeout_ms answers w so_error e =
    let closed : Option Done = some (record { trace = []; result = failed ebadf }) in
    let io : Option Done = connect_call timeout_ms answers w so_error e in
    let plain_or_io : Option Done =
      if not c.is_socket || c.user_nonblock then direct answers else io in
    if-IsOrdered c.is_closed closed plain_or_io (tt {0}) (
      if-IsOrdered (not c.is_socket || c.user_nonblock) (direct answers) io
        (direct-IsOrdered answers) (connect_call-IsOrdered timeout_ms answers w so_error e))
