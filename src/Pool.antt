-- ===== src/Pool.antt =====
-- sylar/http/http_connection.h and sylar/http/http_connection.cc: HttpConnectionPool, which lends
-- connections and takes them back. A new connection's socket, or its failure, is an argument, and so
-- is which sockets are connected at a call. Calls do not overlap. The pool's atomic counter, an
-- int32_t, is its bit pattern.
pub mod Count
pub mod Request
mod Tests
use sylar_from_scratch.Base.{
  ℕ, zero, suc, ◌+◌, ◌-◌, ◌%◌, ◌^◌, Bool, true, false, not, ◌||◌, List, [], ◌∷◌, ◌++◌, Option, some,
  none, ltb, leb, if◌then◌else◌, maybe, length,
}

-- HttpConnection, by its socket; the source never sets the creation time.
pub record HttpConnection : Type 0 where
  pub sock : ℕ
  pub create_time : ℕ
  pub request : ℕ

pub http_connection : ℕ → HttpConnection
http_connection sock = record { sock = sock; create_time = 0; request = 0 }

pub record HttpConnectionPool : Type 0 where
  pub max_alive_time : ℕ
  pub max_request : ℕ
  pub conns : List HttpConnection
  pub total : ℕ

pub http_connection_pool : ℕ → ℕ → HttpConnectionPool
http_connection_pool max_alive_time max_request = record {
  max_alive_time = max_alive_time;
  max_request = max_request;
  conns = [];
  total = 0;
}

-- The conditions of `getConnection` for the deletion of a connection.
pub is_invalid : (ℕ → Bool) → ℕ → ℕ → HttpConnection → Bool
is_invalid connected now max_alive_time c =
    not (connected c.sock) || ltb now ((c.create_time + max_alive_time) % 18446744073709551616)

-- What the loop over the pool finds: the connection, the ones that stay, and the number of deleted
-- ones.
pub record Taken : Type 0 where
  pub ptr : Option HttpConnection
  pub conns : List HttpConnection
  pub invalid : ℕ

pub take_conn : (HttpConnection → Bool) → List HttpConnection → Taken
take_conn drop [] = record { ptr = none; conns = []; invalid = 0 }
take_conn drop (c ∷ cs) =
    let t = take_conn drop cs in
    if drop c
    then record t { invalid = suc t.invalid }
    else record { ptr = some c; conns = cs; invalid = 0 }

-- `m_total -= n`.
abbrev pub minus : ℕ → ℕ → ℕ
minus total n = (total + 4294967296 - n % 4294967296) % 4294967296

-- A new connection on a socket that is connected, if there is one.
pub open_conn : Option ℕ → HttpConnectionPool → Option HttpConnection × HttpConnectionPool
unfolding http_connection
open_conn none p = (none, p)
open_conn (some sock) p =
    (some (http_connection sock), record p { total = (p.total + 1) % 4294967296 })

pub get_connection :
    (ℕ → Bool) → ℕ → Option ℕ → HttpConnectionPool → Option HttpConnection × HttpConnectionPool
unfolding is_invalid take_conn open_conn
get_connection connected now fresh p =
    let t = take_conn (is_invalid connected now p.max_alive_time) p.conns in
    let p' = record p { conns = t.conns; total = minus p.total t.invalid } in
    maybe (open_conn fresh p') (λ c. (some c, p')) t.ptr

-- Whether `ReleasePtr` deletes a connection that has been counted.
pub is_spent : (ℕ → Bool) → ℕ → HttpConnectionPool → HttpConnection → Bool
is_spent connected now p c =
    not (connected c.sock)
    || (leb now ((c.create_time + p.max_alive_time) % 18446744073709551616)
        || leb p.max_request c.request)

pub release_ptr : (ℕ → Bool) → ℕ → HttpConnection → HttpConnectionPool → HttpConnectionPool
unfolding is_spent
release_ptr connected now c p =
    let c' = record c { request = (c.request + 1) % 18446744073709551616 } in
    if is_spent connected now p c'
    then record p { total = minus p.total 1 }
    else record p { conns = p.conns ++ c' ∷ [] }
