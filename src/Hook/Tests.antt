-- ===== src/Hook/Tests.antt =====
-- A read that is interrupted, waits, and then returns, and the theorems at it.
use sylar_from_scratch.Base.{◌≡◌, refl, true, false, List, [], ◌∷◌, some}
use sylar_from_scratch.FdManager.{FdCtx, no_timeout}
use sylar_from_scratch.Hook.{
  Answer, returned, error, Wait, resumed, do_io, connect_with_timeout, connect_call, connect_waited,
  refused, value,
}
use sylar_from_scratch.Hook.Trace.{IsOrdered, do_io-IsOrdered}
use mathlib.Core.Option

abbrev socket : FdCtx
socket = record {
  fd = 7;
  is_init = true;
  is_socket = true;
  sys_nonblock = true;
  user_nonblock = false;
  is_closed = false;
  recv_timeout = 0;
  send_timeout = no_timeout;
}

abbrev answers : List Answer
answers = error 4 ∷ error 11 ∷ returned 12 ∷ []

abbrev waits : List Wait
waits = resumed ∷ resumed ∷ resumed ∷ []

do_io-IsOrdered_example : IsOrdered (do_io true (some socket) true answers waits)
do_io-IsOrdered_example = do_io-IsOrdered true (some socket) true answers waits

-- A wait for connect whose event could not be added ends as a success.
connect_refused :
    Option.map
      (λ d. d.result)
      (connect_with_timeout true (some socket) 5000 (error 115 ∷ []) refused (some 0) 0)
    ≡ some (value 0)
unfolding connect_with_timeout connect_call connect_waited
connect_refused = refl
