-- ===== src/Fiber/Switch.antt =====
-- A fiber that is resumed and yields or ends gives the thread back to the fiber it came from.
use sylar_from_scratch.Base.{ℕ, ◌≡◌, ◌≢◌, refl, sym, true, false, some, none, ◌==◌, eq→==, ne→==}
use sylar_from_scratch.Fiber.{
  ready, running, term, Thread, update, resume, yield, finish, reset, root, swap_context,
  with_state,
}

-- Fiber `a` can be resumed from fiber `r`, whose code runs.
pub record CanResume (a r : ℕ) (t : Thread) : Type 0 where
  pub apart : a ≢ r
  pub state_eq : (t.fibers a).state ≡ ready
  pub ctx_eq : (t.fibers a).ctx ≡ a
  pub root_eq : root a t ≡ some r
  pub flow_eq : t.flow ≡ r

-- Fiber `a` runs, and `yield` gives the thread back to `r`.
pub record Runs (a r : ℕ) (t : Thread) : Type 0 where
  pub apart : a ≢ r
  pub state_eq : (t.fibers a).state ≡ running
  pub back_eq : (t.fibers r).ctx ≡ r
  pub root_eq : root a t ≡ some r
  pub flow_eq : t.flow ≡ a
  pub current_eq : t.current ≡ some a

not_same : (a b : ℕ) → a ≢ b → (b == a) ≡ false
not_same a b n = ne→== b a (λ e. n (sym e))

abbrev resumed : ℕ → ℕ → Thread → Thread
unfolding swap_context
resumed a r t = swap_context r a (record (with_state running a t) { current = some a })

resumed-Runs : (a r : ℕ) (t : Thread) → CanResume a r t → Runs a r (resumed a r t)
unfolding resumed swap_context
resumed-Runs a r t k = record {
  apart = k.apart;
  state_eq = rw (ne→== a r k.apart, eq→== a a refl) refl;
  back_eq = rw (eq→== r r refl) k.flow_eq;
  root_eq = rw (ne→== a r k.apart, eq→== a a refl) k.root_eq;
  flow_eq = rw (ne→== a r k.apart, eq→== a a refl) k.ctx_eq;
  current_eq = refl;
}

-- A fiber that can be resumed runs after `resume`: its code runs, it is the current fiber, and the
-- fiber that resumed it is where `yield` goes back to.
pub resume_lem :
    (a r : ℕ) (t : Thread) → CanResume a r t → (t' : Thread) × (resume a t ≡ some t') × Runs a r t'
unfolding resume
resume_lem a r t k = (resumed a r t, rw (k.state_eq, k.root_eq) refl, resumed-Runs a r t k)

abbrev yielded : ℕ → ℕ → Thread → Thread
unfolding swap_context
yielded a r t = swap_context a r (record (with_state ready a t) { current = some r })

yielded-CanResume : (a r : ℕ) (t : Thread) → Runs a r t → CanResume a r (yielded a r t)
unfolding yielded swap_context
yielded-CanResume a r t k = record {
  apart = k.apart;
  state_eq = rw (eq→== a a refl) refl;
  ctx_eq = rw (eq→== a a refl) k.flow_eq;
  root_eq = rw (eq→== a a refl) k.root_eq;
  flow_eq = rw (not_same a r k.apart) k.back_eq;
}

-- A running fiber that yields can be resumed again, from the same fiber, which is the current one.
pub yield_lem :
    (a r : ℕ) (t : Thread)
    → Runs a r t
    → (t' : Thread) × (yield a t ≡ some t') × CanResume a r t' × (t'.current ≡ some r)
unfolding yield
yield_lem a r t k =
    (yielded a r t, rw (k.state_eq, k.root_eq) refl, yielded-CanResume a r t k, refl)

abbrev returned : ℕ → Thread → Thread
returned a t = record t {
  fibers = update t.fibers a (record (t.fibers a) { state = term; cb = none });
}

abbrev ended : ℕ → ℕ → Thread → Thread
unfolding swap_context
ended a r t = swap_context a r (record (with_state term a (returned a t)) { current = some r })

abbrev restarted : ℕ → ℕ → Thread → Thread
restarted a cb t = record t {
  fibers = update t.fibers a (record (t.fibers a) { state = ready; cb = some cb; ctx = a });
}

restarted-CanResume :
    (a r cb : ℕ) (t : Thread) → Runs a r t → CanResume a r (restarted a cb (ended a r t))
unfolding ended swap_context
restarted-CanResume a r cb t k = record {
  apart = k.apart;
  state_eq = rw (eq→== a a refl) refl;
  ctx_eq = rw (eq→== a a refl) refl;
  root_eq = rw (eq→== a a refl) k.root_eq;
  flow_eq = rw (not_same a r k.apart) k.back_eq;
}

-- A running fiber whose callback returns gives the thread back, cannot be resumed any more, and can be
-- resumed again after `reset` with a new callback.
pub finish_lem :
    (a r cb : ℕ) (t : Thread)
    → Runs a r t
    → (t.fibers a).has_stack ≡ true
    → (t' : Thread) × (t'' : Thread) × (finish a t ≡ some t')
      × (t'.flow ≡ r)
      × (t'.current ≡ some r)
      × (resume a t' ≡ none)
      × (reset a cb t' ≡ some t'')
      × CanResume a r t''
unfolding finish yield resume reset
finish_lem a r cb t k s = (
  ended a r t,
  restarted a cb (ended a r t),
  rw (eq→== a a refl, k.root_eq) refl,
  rw (not_same a r k.apart) k.back_eq,
  refl,
  rw (eq→== a a refl) refl,
  rw (eq→== a a refl, s) refl,
  restarted-CanResume a r cb t k,
)
