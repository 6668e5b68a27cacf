-- ===== src/FdManager.antt =====
-- sylar/fd_manager.h and sylar/fd_manager.cc: the contexts of descriptors. What fstat answers about a
-- descriptor is an argument; a vector that is read behind its end is none.
pub mod Table
mod Tests
use sylar_from_scratch.Base.{
  ℕ, ◌-◌, ◌*◌, ◌/◌, Bool, true, false, ◌&&◌, ◌||◌, List, ◌++◌, Option, some, none, ltb, leb,
  if◌then◌else◌, maybe, get_elem?, set, take, replicate, length,
}

-- The members of FdCtx; a time of -1 is 2 ^ 64 - 1.
pub record FdCtx : Type 0 where
  pub fd : ℕ
  pub is_init : Bool
  pub is_socket : Bool
  pub sys_nonblock : Bool
  pub user_nonblock : Bool
  pub is_closed : Bool
  pub recv_timeout : ℕ
  pub send_timeout : ℕ

abbrev pub no_timeout : ℕ
no_timeout = 18446744073709551615

-- The constructor with its call of `init`, by whether fstat finds the descriptor and says that it is a
-- socket. The O_NONBLOCK that it gives a socket is the system's.
pub fd_ctx : ℕ → Option Bool → FdCtx
fd_ctx fd stat =
    let sock = maybe false (λ s. s) stat in
    record {
      fd = fd;
      is_init = maybe false (λ s. true) stat;
      is_socket = sock;
      sys_nonblock = sock;
      user_nonblock = false;
      is_closed = false;
      recv_timeout = no_timeout;
      send_timeout = no_timeout;
    }

-- `type == SO_RCVTIMEO` is true for the time of reads.
pub set_timeout : Bool → ℕ → FdCtx → FdCtx
set_timeout recv v c = if recv then record c { recv_timeout = v } else record c { send_timeout = v }

pub get_timeout : Bool → FdCtx → ℕ
get_timeout recv c = if recv then c.recv_timeout else c.send_timeout

unfoldable pub set_user_nonblock : Bool → FdCtx → FdCtx
set_user_nonblock v c = record c { user_nonblock = v }

pub set_sys_nonblock : Bool → FdCtx → FdCtx
set_sys_nonblock v c = record c { sys_nonblock = v }

-- m_datas of FdManager, with null pointers as none.
abbrev pub FdManager : Type 0
FdManager = List (Option FdCtx)

pub fd_manager : FdManager
fd_manager = replicate 64 none

pub resize : ℕ → FdManager → FdManager
resize n m = take n m ++ replicate (n - length m) none

-- What stands at a descriptor.
pub data_at : FdManager → ℕ → Option FdCtx
data_at m fd = maybe none (λ c. c) (get_elem? m fd)

-- `get` behind the read lock: the new context at its place.
pub create : FdCtx → ℕ → FdManager → Option (Option FdCtx × FdManager)
unfolding resize
create ctx fd m =
    let m' = if leb (length m) fd then resize (fd * 3 / 2) m else m in
    if ltb fd (length m') then some (some ctx, set m' fd (some ctx)) else none

-- `get`; the descriptor -1 is none.
pub get : Option Bool → Option ℕ → Bool → FdManager → Option (Option FdCtx × FdManager)
unfolding fd_ctx data_at create
get stat none auto_create m = some (none, m)
get stat (some fd) auto_create m =
    maybe (if auto_create then create (fd_ctx fd stat) fd m else some (none, m))
      (λ c. some (some c, m)) (data_at m fd)

pub del : ℕ → FdManager → FdManager
del fd m = if leb (length m) fd then m else set m fd none
