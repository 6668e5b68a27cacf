-- ===== src/Timer/Order.antt =====
-- The comparator is a strict total order on addresses, and reads the store at its arguments only.
use sylar_from_scratch.Base.{ℕ, ◌≤◌, ◌<◌, ◌≡◌, ◌≢◌, true, false, arith, ne→==}
use sylar_from_scratch.Timer.{Timer, Store, update, comparator, less}

-- Deadlines first, addresses where they agree.
pub less-le : (h : Store) (a b : ℕ) → less h a b ≡ true → (h a).next ≤ (h b).next
unfolding comparator
less-le h a b e = ground arith

pub lt-less : (h : Store) (a b : ℕ) → (h a).next < (h b).next → less h a b ≡ true
unfolding comparator
lt-less h a b e = ground arith

pub less_irrefl : (h : Store) (a : ℕ) → less h a a ≡ false
unfolding comparator
less_irrefl h a = ground arith

pub less_trans : (h : Store) (a b c : ℕ) → less h a b ≡ true → less h b c ≡ true → less h a c ≡ true
unfolding comparator
less_trans h a b c p q = ground arith

pub less-antisym : (h : Store) (a b : ℕ) → less h a b ≡ true → less h b a ≡ false
unfolding comparator
less-antisym h a b p = ground arith

pub less-eq : (h : Store) (a b : ℕ) → less h a b ≡ false → less h b a ≡ false → a ≡ b
unfolding comparator
less-eq h a b p q = ground arith

pub less-update :
    (h : Store) (k : ℕ) (t : Timer) (a b : ℕ) → a ≢ k → b ≢ k → less (update h k t) a b ≡ less h a b
unfolding comparator
less-update h k t a b p q = rw (ne→== a k p, ne→== b k q)

-- The comparator reads nothing but the time.
pub less-same_next :
    (h : Store) (k : ℕ) (t : Timer) (a b : ℕ)
    → t.next ≡ (h k).next
    → less (update h k t) a b ≡ less h a b
unfolding comparator
less-same_next h k t a b e = ground arith
