-- ===== src/Pool/Tests.antt =====
-- A pool that lends a connection, takes it back and lends it again.
use sylar_from_scratch.Base.{ℕ, Bool, true, false, not, [], ◌∷◌, some, none, ◌≡◌, refl}
use sylar_from_scratch.Base.Bytes.{codes}
use sylar_from_scratch.Http.{Map}
use sylar_from_scratch.Pool.Request.{
  Answers, sent, socket_error, requests, requests-Counted, make_request, make_request_lem,
  asks_keep_alive,
}
use sylar_from_scratch.Pool.{
  http_connection_pool, get_connection, release_ptr, is_invalid, is_spent, take_conn, open_conn,
  http_connection,
}
use sylar_from_scratch.Pool.Count.{
  State, Step, get, release, Reached, start, next, Counted, Reached-Counted,
}

abbrev connected : ℕ → Bool
connected sock = true

-- One connection, lent at the time 100 and returned at the time 200, with a life of 50.
abbrev first : State
first = record { pool = http_connection_pool 50 3; lent = [] }

abbrev lent_once : State
lent_once = record {
  pool = record { max_alive_time = 50; max_request = 3; conns = []; total = 1 };
  lent = record { sock = 7; create_time = 0; request = 0 } ∷ [];
}

abbrev returned : State
returned = record {
  pool = record {
    max_alive_time = 50;
    max_request = 3;
    conns = record { sock = 7; create_time = 0; request = 1 } ∷ [];
    total = 1;
  };
  lent = [];
}

lends : Step first lent_once
unfolding http_connection_pool get_connection take_conn open_conn http_connection
lends = get connected 100 (some 7) first

takes_back : Step lent_once returned
unfolding release_ptr is_spent
takes_back =
    release connected 200 [] [] (record { sock = 7; create_time = 0; request = 0 }) lent_once.pool

returned-Reached : Reached 50 3 returned
returned-Reached = next lent_once returned (next first lent_once start lends) takes_back

-- A connection that is old is used again.
lent_again : (get_connection connected 300 none returned.pool).1.conns ≡ []
unfolding get_connection take_conn is_invalid
lent_again = refl

Reached-Counted_example : Counted 3 returned
Reached-Counted_example = Reached-Counted 50 3 returned returned-Reached

-- A request that is answered, and one whose sending fails.
abbrev answered : Answers ℕ
answered = record {
  connected = connected;
  now = 100;
  fresh = some 7;
  has_socket = true;
  send = sent;
  response = some 200;
  connected_then = connected;
  now_then = 200;
}

abbrev refused : Answers ℕ
refused = record answered { send = socket_error; connected_then = λ sock. false }

requests-Counted_example :
    Counted 3
      (record { pool = requests (answered ∷ refused ∷ []) (http_connection_pool 50 3); lent = [] })
requests-Counted_example = requests-Counted 50 3 (answered ∷ refused ∷ [])

abbrev keep_alive : Map
keep_alive = (codes "Accept", codes "*/*") ∷ (codes "Connection", codes "Keep-Alive") ∷ []

make_request_lem_example :
    let req = make_request (codes "a.org") [] 1 (codes "/x") keep_alive (codes "b") in
    (req.close ≡ not (asks_keep_alive keep_alive)) × (req.body ≡ codes "b")
make_request_lem_example = make_request_lem (codes "a.org") [] 1 (codes "/x") keep_alive (codes "b")
