-- ===== src/Hook/Flags.antt =====
-- sylar/hook.cc, fcntl: the flags that the user sees and those that the system has.
use sylar_from_scratch.Base.{ℕ, Bool, true, false, Option, some, none, if◌then◌else◌, ◌≡◌, refl}
use sylar_from_scratch.FdManager.{FdCtx, set_user_nonblock}
use sylar_from_scratch.Hook.{FileFlags, is_hooked, set_flags, get_flags}

-- The system keeps O_NONBLOCK on an open socket that the context made non-blocking, and gets the user's
-- flags of any other descriptor.
unfoldable pub HasFlags : FileFlags → FileFlags → Option FdCtx → Type 0
HasFlags arg flags none = flags ≡ arg
HasFlags arg flags (some c) =
    flags ≡ (if is_hooked c then record arg { o_nonblock = c.sys_nonblock } else arg)

context : ℕ → Bool → Bool → Bool → Bool → Bool → ℕ → ℕ → FdCtx
context fd init socket sys user closed recv send = record {
  fd = fd;
  is_init = init;
  is_socket = socket;
  sys_nonblock = sys;
  user_nonblock = user;
  is_closed = closed;
  recv_timeout = recv;
  send_timeout = send;
}

by_state :
    (arg : FileFlags) (fd : ℕ) (init socket sys user closed : Bool) (recv send : ℕ)
    → let ctx = some (context fd init socket sys user closed recv send) in
      (get_flags (set_flags arg ctx).1 (set_flags arg ctx).0 ≡ arg)
      × HasFlags arg (set_flags arg ctx).1 ctx
unfolding get_flags set_flags set_user_nonblock HasFlags context
by_state arg fd init true sys user false recv send = (refl, refl)
by_state arg fd init true sys user true recv send = (refl, refl)
by_state arg fd init false sys user false recv send = (refl, refl)
by_state arg fd init false sys user true recv send = (refl, refl)

-- F_GETFL after F_SETFL answers the flags that the user set, O_NONBLOCK included, on every
-- descriptor, though the system has O_NONBLOCK on an open socket whatever the user set.
pub get_flags-set_flags :
    (arg : FileFlags) (ctx : Option FdCtx)
    → (get_flags (set_flags arg ctx).1 (set_flags arg ctx).0 ≡ arg)
      × HasFlags arg (set_flags arg ctx).1 ctx
unfolding get_flags set_flags HasFlags context
get_flags-set_flags arg none = (refl, refl)
get_flags-set_flags arg (some c) =
    by_state arg c.fd c.is_init c.is_socket c.sys_nonblock c.user_nonblock c.is_closed
      c.recv_timeout c.send_timeout
