-- ===== src/Hook/Blocking.antt =====
-- sylar/hook.cc, do_io: a hooked call of a socket against the blocking call that is restarted
-- after interrupts.
use sylar_from_scratch.Base.{
  true, false, ◌||◌, List, [], ◌∷◌, Option, some, none, ◌==◌, if◌then◌else◌, ◌≡◌,
}
use sylar_from_scratch.FdManager.{FdCtx}
use sylar_from_scratch.Hook.{
  Answer, returned, error, Wait, resumed, Result, value, failed, eintr, eagain,
}
use mathlib.Core.Option

-- A blocking call that is restarted after an interrupt, as signal handlers with SA_RESTART have it: the
-- first answer of the system that is no interrupt, where a blocking socket would wait instead of
-- answering "try again".
unfoldable pub restarted : List Answer → Option Result
restarted [] = none
restarted (returned n ∷ as') = some (value n)
restarted (error e ∷ as') =
    let later = restarted as' in if e == eintr || e == eagain then later else some (failed e)

-- An open socket that the user has not made non-blocking.
pub record IsBlocking (c : FdCtx) : Type 0 where
  pub open_fd : c.is_closed ≡ false
  pub socket : c.is_socket ≡ true
  pub user : c.user_nonblock ≡ false

abbrev Resumes : Wait → Type 0
Resumes w = w ≡ resumed
