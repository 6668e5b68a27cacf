-- ===== src/Pool/Request.antt =====
-- sylar/http/http_connection.h and sylar/http/http_connection.cc, HttpConnectionPool::doRequest: the request that is made of headers, and
-- what a request does to the pool.
-- Sending and receiving are arguments, by what they answer.
use sylar_from_scratch.Base.{
  ℕ, Bool, true, false, not, ◌&&◌, ◌||◌, List, [], ◌∷◌, Option, some, none, if◌then◌else◌, maybe,
  ◌≡◌, refl, sym, ap, ◌∙◌,
}
use sylar_from_scratch.Base.Bytes.{Text, codes}
use sylar_from_scratch.Http.{HttpRequest, http_request, Map, set_header, same_nocase, is_empty}
use sylar_from_scratch.Pool.{
  HttpConnection, HttpConnectionPool, http_connection_pool, get_connection, release_ptr,
}
use sylar_from_scratch.Pool.Count.{
  State, get, release, Reached, start, next, Counted, Reached-Counted, lend,
}

-- The loop over the headers, with `has_host`.
pub add_headers : Map → Bool → HttpRequest → Bool × HttpRequest
add_headers [] has_host req = (has_host, req)
add_headers ((key, val) ∷ headers) has_host req =
    let keep = if same_nocase val (codes "keep-alive") then record req { close = false } else req in
    let skipped = add_headers headers has_host keep in
    let has =
      if not has_host && same_nocase key (codes "host") then not (is_empty val) else has_host in
    let added = add_headers headers has (set_header key val req) in
    if same_nocase key (codes "connection") then skipped else added

-- The request that `doRequest` makes; `host` and `vhost` are the pool's.
pub make_request : Text → Text → ℕ → Text → Map → Text → HttpRequest
unfolding add_headers
make_request host vhost method url headers body =
    let req = http_request 1 0x11 true in
    let (has_host, made) = add_headers headers false (record req { path = url; method = method }) in
    let named =
      if has_host
      then made
      else set_header (codes "Host") (if is_empty vhost then host else vhost) made in
    record named { body = body }

-- What sending a request answers: 0, a negative number, or a positive one.
pub data Sent : Type 0 where
  closed_by_peer : Sent
  socket_error : Sent
  sent : Sent

-- HttpResult, by its error; `ok` with the response.
pub data HttpResult (R : Type 0) : Type 0 where
  ok : R → HttpResult R
  invalid_url : HttpResult R
  invalid_host : HttpResult R
  connect_fail : HttpResult R
  send_close_by_peer : HttpResult R
  send_socket_error : HttpResult R
  timeout : HttpResult R
  create_socket_error : HttpResult R
  pool_get_connection : HttpResult R
  pool_invalid_connection : HttpResult R

-- The answers of a call: whether the connection has a socket, what sending and receiving give, and which
-- sockets are connected and the time when the connection is taken and when it is returned.
pub record Answers (R : Type 0) : Type 0 where
  pub connected : ℕ → Bool
  pub now : ℕ
  pub fresh : Option ℕ
  pub has_socket : Bool
  pub send : Sent
  pub response : Option R
  pub connected_then : ℕ → Bool
  pub now_then : ℕ

module _ {R : Type 0} where
  abbrev pub after_send : Option R → Sent → HttpResult R
  after_send response closed_by_peer = send_close_by_peer
  after_send response socket_error = send_socket_error
  after_send response sent = maybe timeout ok response

  pub result_of : Answers R → HttpResult R
  result_of a = if a.has_socket then after_send a.response a.send else pool_invalid_connection

  -- `doRequest`: the connection is returned at the end, whichever it is.
  pub do_request : Answers R → HttpConnectionPool → HttpResult R × HttpConnectionPool
  unfolding result_of
  do_request a p =
      let (conn, p') = get_connection a.connected a.now a.fresh p in
      maybe (pool_get_connection, p')
        (λ c. (result_of a, release_ptr a.connected_then a.now_then c p')) conn

  -- The pool after some requests.
  pub requests : List (Answers R) → HttpConnectionPool → HttpConnectionPool
  requests [] p = p
  requests (a ∷ as') p = requests as' (do_request a p).1

  -- The return of the connection that was lent, if there was one.
  returned-Reached :
      (max_alive_time max_request : ℕ) (a : Answers R) (o : Option HttpConnection)
      (p : HttpConnectionPool)
      → Reached max_alive_time max_request (record { pool = p; lent = lend [] o })
      → Reached max_alive_time max_request (record {
        pool =
            (maybe {B = HttpResult R × HttpConnectionPool}
              (pool_get_connection, p)
              (λ c. (result_of a, release_ptr a.connected_then a.now_then c p))
              o).1;
        lent = [];
      })
  returned-Reached max_alive_time max_request a none p r = r
  returned-Reached max_alive_time max_request a (some c) p r =
      next _ _ r (release a.connected_then a.now_then [] [] c p)

  request-Reached :
      (max_alive_time max_request : ℕ) (a : Answers R) (p : HttpConnectionPool)
      → Reached max_alive_time max_request (record { pool = p; lent = [] })
      → Reached max_alive_time max_request (record { pool = (do_request a p).1; lent = [] })
  unfolding do_request
  request-Reached max_alive_time max_request a p r =
      let s : State = record { pool = p; lent = [] } in
      let o = (get_connection a.connected a.now a.fresh p).0 in
      let p' = (get_connection a.connected a.now a.fresh p).1 in
      let taken =
        next s (record { pool = p'; lent = lend [] o }) r (get a.connected a.now a.fresh s) in
      returned-Reached max_alive_time max_request a o p' taken

  requests-Reached :
      (max_alive_time max_request : ℕ) (as' : List (Answers R)) (p : HttpConnectionPool)
      → Reached max_alive_time max_request (record { pool = p; lent = [] })
      → Reached max_alive_time max_request (record { pool = requests as' p; lent = [] })
  unfolding requests
  requests-Reached max_alive_time max_request [] p r = r
  requests-Reached max_alive_time max_request (a ∷ as') p r =
      requests-Reached max_alive_time max_request as' (do_request a p).1
        (request-Reached max_alive_time max_request a p r)

  -- However each request ends, no connection stays lent, and after any number of them the pool's
  -- counter is the number of connections that it keeps, each of which has been used less often than
  -- the limit.
  pub requests-Counted :
      (max_alive_time max_request : ℕ) (as' : List (Answers R))
      → Counted max_request (record {
        pool = requests as' (http_connection_pool max_alive_time max_request);
        lent = [];
      })
  requests-Counted max_alive_time max_request as' = Reached-Counted max_alive_time max_request _ (
      requests-Reached max_alive_time max_request as'
        (http_connection_pool max_alive_time max_request) start)

-- Whether a connection header of the list asks to keep the connection.
unfoldable pub asks_keep_alive : Map → Bool
asks_keep_alive [] = false
asks_keep_alive ((key, val) ∷ headers) =
    same_nocase key (codes "connection") && same_nocase val (codes "keep-alive")
    || asks_keep_alive headers

and-true : (b : Bool) → (b && true) ≡ b
and-true true = refl
and-true false = refl

-- One header, by the tests of its key and its value and what the others ask.
close_step :
    (is_connection keeps others close : Bool) (skipped added : Bool × HttpRequest)
    → skipped.1.close ≡ ((if keeps then false else close) && not others)
    → added.1.close ≡ (close && not others)
    → (if is_connection then skipped else added).1.close
      ≡ (close && not (is_connection && keeps || others))
close_step true true others true skipped added h k = h
close_step true true others false skipped added h k = h
close_step true false others close skipped added h k = h
close_step false keeps others close skipped added h k = k

kept_close :
    (keeps : Bool) (req : HttpRequest)
    → (if keeps then record req { close = false } else req).close
      ≡ (if keeps then false else req.close)
kept_close true req = refl
kept_close false req = refl

add_headers-close :
    (headers : Map) (has_host : Bool) (req : HttpRequest)
    → (add_headers headers has_host req).1.close ≡ (req.close && not (asks_keep_alive headers))
unfolding add_headers asks_keep_alive set_header
add_headers-close [] has_host req = sym (and-true req.close)
add_headers-close ((key, val) ∷ headers) has_host req =
    let keeps = same_nocase val (codes "keep-alive") in
    let keep = if keeps then record req { close = false } else req in
    let has =
      if not has_host && same_nocase key (codes "host") then not (is_empty val) else has_host in
    close_step (same_nocase key (codes "connection")) keeps (asks_keep_alive headers) req.close
      (add_headers headers has_host keep) (add_headers headers has (set_header key val req))
      (add_headers-close headers has_host keep
        ∙ ap (λ b. b && not (asks_keep_alive headers)) (kept_close keeps req))
      (add_headers-close headers has (set_header key val req))

named_close :
    (has_host : Bool) (host : Text) (req : HttpRequest)
    → (if has_host then req else set_header (codes "Host") host req).close ≡ req.close
unfolding set_header
named_close true host req = refl
named_close false host req = refl

-- The request that doRequest makes has the body that was given, and closes its connection unless a
-- connection header asks to keep it.
pub make_request_lem :
    (host vhost : Text) (method : ℕ) (url : Text) (headers : Map) (body : Text)
    → (let req = make_request host vhost method url headers body in
        (req.close ≡ not (asks_keep_alive headers)) × (req.body ≡ body))
unfolding make_request http_request
make_request_lem host vhost method url headers body =
    let req = record (http_request 1 0x11 true) { path = url; method = method } in
    (
      named_close (add_headers headers false req).0 (if is_empty vhost then host else vhost)
            (add_headers headers false req).1
          ∙ add_headers-close headers false req,
      refl,
    )
