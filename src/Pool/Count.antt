-- ===== src/Pool/Count.antt =====
-- HttpConnectionPool: the counter of connections and their use, over every sequence of calls.
use sylar_from_scratch.Base.{
  ℕ, suc, ◌+◌, ◌%◌, ◌<◌, Bool, true, false, List, [], ◌∷◌, ◌++◌, Option, some, none, if◌then◌else◌,
  maybe, length, length-append, leb, ◌||◌, ◌≡◌, refl, sym, All, Bool-cases, inl, inr, ◌⊎◌, leb→lt,
  arith,
}
use mathlib.Core.Bool.{not, false≢true}
use sylar_from_scratch.Pool.{
  HttpConnection, http_connection, HttpConnectionPool, http_connection_pool, is_invalid, take_conn,
  minus, open_conn, get_connection, is_spent, release_ptr,
}

-- The pool and the connections that are lent.
pub record State : Type 0 where
  pub pool : HttpConnectionPool
  pub lent : List HttpConnection

abbrev pub lend : List HttpConnection → Option HttpConnection → List HttpConnection
lend lent none = lent
lend lent (some c) = c ∷ lent

-- A call of getConnection, or the return of a connection.
pub data Step : State → State → Type 0 where
  get :
      (connected : ℕ → Bool) (now : ℕ) (fresh : Option ℕ) (s : State)
      → Step s (record {
        pool = (get_connection connected now fresh s.pool).1;
        lent = lend s.lent (get_connection connected now fresh s.pool).0;
      })
  release :
      (connected : ℕ → Bool) (now : ℕ) (before after : List HttpConnection) (c : HttpConnection)
      (p : HttpConnectionPool)
      → Step
          (record { pool = p; lent = before ++ c ∷ after })
          (record { pool = release_ptr connected now c p; lent = before ++ after })

-- A pool after some calls.
pub data Reached (max_alive_time max_request : ℕ) : State → Type 0 where
  start :
      Reached max_alive_time max_request
        (record { pool = http_connection_pool max_alive_time max_request; lent = [] })
  next :
      (s s' : State)
      → Reached max_alive_time max_request s
      → Step s s'
      → Reached max_alive_time max_request s'

-- A connection has been lent less often than the pool's limit; a lent one may be new.
unfoldable pub IsKept : ℕ → HttpConnection → Type 0
IsKept max_request c = c.request < max_request

unfoldable pub IsLent : ℕ → HttpConnection → Type 0
IsLent max_request c = (c.request ≡ 0) ⊎ (c.request < max_request)

-- The counter is the number of connections in the pool and lent, up to the wrap of 32 bits.
pub record Counted (max_request : ℕ) (s : State) : Type 0 where
  pub limit : s.pool.max_request ≡ max_request
  pub count : s.pool.total ≡ (length s.pool.conns + length s.lent) % 4294967296
  pub kept : All (IsKept max_request) s.pool.conns
  pub used : All (IsLent max_request) s.lent

abbrev held : Option HttpConnection → ℕ
held none = 0
held (some c) = 1

take_conn-length :
    (drop : HttpConnection → Bool) (cs : List HttpConnection)
    → length cs
      ≡ (take_conn drop cs).invalid
        + (held (take_conn drop cs).ptr + length (take_conn drop cs).conns)
unfolding take_conn
take_conn-length drop [] = refl
take_conn-length drop (c ∷ cs) = elim (Bool-cases (drop c)) [
  | inl t ↦ rw (t) (omega (arith, take_conn-length drop cs))
  | inr f ↦ rw (f) (omega arith)
]

abbrev AllHeld : (HttpConnection → Type 0) → Option HttpConnection → Type 0
AllHeld P none = Unit
AllHeld P (some c) = P c

take_conn-AllHeld :
    (P : HttpConnection → Type 0) (drop : HttpConnection → Bool) (cs : List HttpConnection)
    → All P cs
    → AllHeld P (take_conn drop cs).ptr × All P (take_conn drop cs).conns
unfolding take_conn
take_conn-AllHeld P drop [] h = (tt, tt)
take_conn-AllHeld P drop (c ∷ cs) (h, hs) = elim (Bool-cases (drop c)) [
  | inl t ↦ rw (t) (take_conn-AllHeld P drop cs hs)
  | inr f ↦ rw (f) (h, hs)
]

All-last :
    (P : HttpConnection → Type 0) (cs : List HttpConnection) (c : HttpConnection)
    → All P cs
    → P c
    → All P (cs ++ c ∷ [])
All-last P [] c h k = (k, tt)
All-last P (x ∷ cs) c (h, hs) k = (h, All-last P cs c hs k)

All-without :
    (P : HttpConnection → Type 0) (before : List HttpConnection) (c : HttpConnection)
    (after : List HttpConnection)
    → All P (before ++ c ∷ after)
    → All P (before ++ after)
All-without P [] c after (h, hs) = hs
All-without P (x ∷ before) c after (h, hs) = (h, All-without P before c after hs)

or-right : (a b : Bool) → (a || b) ≡ false → b ≡ false
or-right true b e = absurd (false≢true (sym e))
or-right false b e = e

module _ (max_request : ℕ) where
  -- What getConnection does with the connection that it found.
  lent-Counted :
      (o : Option HttpConnection) (fresh : Option ℕ) (p : HttpConnectionPool)
      (lent : List HttpConnection)
      → p.max_request ≡ max_request
      → p.total ≡ (held o + length p.conns + length lent) % 4294967296
      → AllHeld (IsKept max_request) o
      → All (IsKept max_request) p.conns
      → All (IsLent max_request) lent
      → Counted max_request (record {
        pool =
            (maybe {B = Option HttpConnection × HttpConnectionPool}
              (open_conn fresh p)
              (λ c. (some c, p))
              o).1;
        lent =
            lend lent
              (maybe {B = Option HttpConnection × HttpConnectionPool}
                (open_conn fresh p)
                (λ c. (some c, p))
                o).0;
      })
  unfolding open_conn http_connection IsLent IsKept
  lent-Counted (some c) fresh p lent l e h k u = record {
    limit = l;
    count = omega arith;
    kept = k;
    used = (inr h, u);
  }
  lent-Counted none none p lent l e h k u = record {
    limit = l;
    count = omega arith;
    kept = k;
    used = u;
  }
  lent-Counted none (some sock) p lent l e h k u = record {
    limit = l;
    count = omega arith;
    kept = k;
    used = (inl refl, u);
  }

  get-Counted :
      (connected : ℕ → Bool) (now : ℕ) (fresh : Option ℕ) (s : State)
      → Counted max_request s
      → Counted max_request (record {
        pool = (get_connection connected now fresh s.pool).1;
        lent = lend s.lent (get_connection connected now fresh s.pool).0;
      })
  unfolding get_connection
  get-Counted connected now fresh s v =
      let drop = is_invalid connected now s.pool.max_alive_time in
      let t = take_conn drop s.pool.conns in
      let (h, k) = take_conn-AllHeld (IsKept max_request) drop s.pool.conns v.kept in
      lent-Counted t.ptr fresh
        (record s.pool { conns = t.conns; total = minus s.pool.total t.invalid }) s.lent v.limit
        (omega (arith, v.count, take_conn-length drop s.pool.conns)) h k v.used

  -- What ReleasePtr does with a connection, by whether it is spent.
  returned-Counted :
      (b : Bool) (c : HttpConnection) (p : HttpConnectionPool) (lent : List HttpConnection)
      → p.max_request ≡ max_request
      → p.total ≡ (length p.conns + suc (length lent)) % 4294967296
      → (b ≡ false → c.request < p.max_request)
      → All (IsKept max_request) p.conns
      → All (IsLent max_request) lent
      → Counted max_request (record {
        pool =
            if b
            then record p { total = minus p.total 1 }
            else record p { conns = p.conns ++ c ∷ [] };
        lent = lent;
      })
  unfolding IsKept
  returned-Counted true c p lent l e h k u = record {
    limit = l;
    count = omega arith;
    kept = k;
    used = u;
  }
  returned-Counted false c p lent l e h k u = record {
    limit = l;
    count = omega (arith, length-append p.conns (c ∷ []));
    kept = All-last (IsKept max_request) p.conns c k (omega (arith, h refl));
    used = u;
  }

  release-Counted :
      (connected : ℕ → Bool) (now : ℕ) (before after : List HttpConnection) (c : HttpConnection)
      (p : HttpConnectionPool)
      → Counted max_request (record { pool = p; lent = before ++ c ∷ after })
      → Counted max_request
          (record { pool = release_ptr connected now c p; lent = before ++ after })
  unfolding release_ptr is_spent
  release-Counted connected now before after c p v =
      let c' = record c { request = (c.request + 1) % 18446744073709551616 } in
      returned-Counted (is_spent connected now p c') c' p (before ++ after) v.limit
        (omega (arith, v.count, length-append before (c ∷ after), length-append before after))
        (λ f. leb→lt p.max_request c'.request (
          or-right (leb now ((c.create_time + p.max_alive_time) % 18446744073709551616))
            (leb p.max_request c'.request) (or-right (not (connected c.sock)) _ f)))
        v.kept (All-without (IsLent max_request) before c after v.used)

  step-Counted : (s s' : State) → Step s s' → Counted max_request s → Counted max_request s'
  step-Counted _ _ (get connected now fresh s) v = get-Counted connected now fresh s v
  step-Counted _ _ (release connected now before after c p) v =
      release-Counted connected now before after c p v

-- After any calls of getConnection and returns of connections, the counter is the number of
-- connections that the pool keeps or has lent, no connection that it keeps has been
-- lent as often as the limit, and a lent one has been so less often or is new.
pub Reached-Counted :
    (max_alive_time max_request : ℕ) (s : State)
    → Reached max_alive_time max_request s
    → Counted max_request s
unfolding http_connection_pool
Reached-Counted max_alive_time max_request _ start = record {
  limit = refl;
  count = refl;
  kept = tt;
  used = tt;
}
Reached-Counted max_alive_time max_request _ (next s0 s1 r st) =
    step-Counted max_request s0 s1 st (Reached-Counted max_alive_time max_request s0 r)
