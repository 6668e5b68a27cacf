-- ===== src/Timer/Expire.antt =====
-- `listExpiredCb`: which timers fire, in which order, and what becomes of them.
use mathlib.Core.Path.{subst}
use sylar_from_scratch.Base.{
  ℕ, ◌+◌, ◌≤◌, ◌<◌, ◌≡◌, ◌≢◌, inl, inr, true, false, arith, refl, sym, ap, ◌∙◌, List, [], ◌∷◌, ◌++◌,
  All, Option, none, Bool-cases, ◌==◌, ==→eq, ==→ne, ne→==,
}
use sylar_from_scratch.Timer.{
  Timer, Store, update, u64, less, comparator, insert, clear_cb, set_next, take_at, take_expired,
  fire, Fired, fire_all,
}
use sylar_from_scratch.Timer.Order.{less-le}
use sylar_from_scratch.Timer.Set.{
  Member, IsSorted, All-map, All-insert, insert-IsSorted, Member-insert_self, Member-insert_old,
  IsSorted-update,
}
use sylar_from_scratch.Timer.Manager.{update_ne, update_self}

-- The set cut at `now`.
pub record Cut (h : Store) (now : ℕ) (l due rest : List ℕ) : Type 0 where
  pub whole : due ++ rest ≡ l
  pub due_le : All (λ a. (h a).next ≤ now) due
  pub rest_gt : All (λ a. now < (h a).next) rest

pub later-All :
    (h : Store) (now a : ℕ) (l : List ℕ)
    → IsSorted h (a ∷ l)
    → now < (h a).next
    → All (λ b. now < (h b).next) (a ∷ l)
later-All h now a l (first, s) lt =
    (lt, All-map _ _ l (λ b e. omega (arith, less-le h a b e)) first)

Cut-cons :
    (h : Store) (now a : ℕ) (l due rest : List ℕ)
    → (h a).next ≤ now
    → Cut h now l due rest
    → Cut h now (a ∷ l) (a ∷ due) rest
Cut-cons h now a l due rest le c = record {
  whole = ap (◌∷◌ a) c.whole;
  due_le = (le, c.due_le);
  rest_gt = c.rest_gt;
}

take_at-Cut :
    (h : Store) (now : ℕ) (l : List ℕ)
    → IsSorted h l
    → All (λ a. now ≤ (h a).next) l
    → Cut h now l (take_at h now l).0 (take_at h now l).1
unfolding take_at
take_at-Cut h now [] s g = record { whole = refl; due_le = tt; rest_gt = tt }
take_at-Cut h now (a ∷ l) s g = elim (Bool-cases ((h a).next == now)) [
  | inl same ↦
      rw same (Cut-cons h now a l _ _ (omega (arith, ==→eq _ _ same)) (take_at-Cut h now l s.1 g.1))
  | inr other ↦ rw other (record {
    whole = refl;
    due_le = tt;
    rest_gt = later-All h now a l s (omega (arith, ==→ne _ _ other, g.0));
  })
]

less_key :
    (h : Store) (now key a : ℕ) → (h key).next ≡ now → less h a key ≡ false → now ≤ (h a).next
unfolding comparator
less_key h now key a e f = ground arith

-- Whatever the address of the timer for comparisons, the cut is at `now`.
pub take_expired-Cut :
    (h : Store) (now key : ℕ) (l : List ℕ)
    → (h key).next ≡ now
    → IsSorted h l
    → Cut h now l (take_expired h now key l).0 (take_expired h now key l).1
unfolding take_expired
take_expired-Cut h now key [] e s = record { whole = refl; due_le = tt; rest_gt = tt }
take_expired-Cut h now key (a ∷ l) e s = elim (Bool-cases (less h a key)) [
  | inl lt ↦ rw lt (
      Cut-cons h now a l _ _ (omega (arith, less-le h a key lt, e))
        (take_expired-Cut h now key l e s.1))
  | inr ge ↦
      let le = less_key h now key a e ge in
      rw ge (
        take_at-Cut h now (a ∷ l) s
          (le, All-map _ _ l (λ b lt. omega (arith, less-le h a b lt, le)) s.0))
]

-- No element twice.
abbrev pub IsDistinct : List ℕ → Type 0
IsDistinct [] = Unit {0}
IsDistinct (a ∷ l) = All (λ b. b ≢ a) l × IsDistinct l

abbrev pub Apart : List ℕ → List ℕ → Type 0
Apart as' l = All (λ a. All (λ b. b ≢ a) l) as'

-- The callbacks of timers, in their order.
abbrev pub callbacks : Store → List ℕ → List (Option ℕ)
callbacks h [] = []
callbacks h (a ∷ as') = (h a).cb ∷ callbacks h as'

pub callbacks-update :
    (h : Store) (a : ℕ) (t : Timer) (l : List ℕ)
    → All (λ b. b ≢ a) l
    → callbacks (update h a t) l ≡ callbacks h l
callbacks-update h a t [] ne = refl
callbacks-update h a t (b ∷ l) (n, ns) =
    rw (ne→== b a n) (ap (◌∷◌ (h b).cb) (callbacks-update h a t l ns))

Apart-insert :
    (h : Store) (a : ℕ) (as' l : List ℕ)
    → All (λ b. b ≢ a) as'
    → Apart as' l
    → Apart as' (insert h a l)
Apart-insert h a [] l ne p = tt
Apart-insert h a (b ∷ as') l (n, ns) (p, ps) =
    (All-insert (λ x. x ≢ b) h a l (λ e. n (sym e)) p, Apart-insert h a as' l ns ps)

-- What the loop over the timers that are due leaves.
pub record Refill (h : Store) (now : ℕ) (due l : List ℕ) (f : Fired) : Type 0 where
  pub cbs_eq : f.cbs ≡ callbacks h due
  pub sorted : IsSorted f.store f.timers
  pub kept : (x : ℕ) → Member x l → Member x f.timers
  pub others : (x : ℕ) → All (λ b. b ≢ x) due → f.store x ≡ h x
  pub rearmed :
      All
        (λ a.
          (h a).recurring ≡ true
          → (f.store a ≡ record (h a) { next = u64 (now + (h a).ms) }) × Member a f.timers)
        due
  pub spent : All (λ a. (h a).recurring ≡ false → (f.store a).cb ≡ none) due

pub All-pair {ℓ κ μ} :
    (P : ℕ → Type ℓ) (Q : ℕ → Type κ) (R : ℕ → Type μ) (l : List ℕ)
    → ((x : ℕ) → P x → Q x → R x)
    → All P l
    → All Q l
    → All R l
All-pair P Q R [] f p q = tt
All-pair P Q R (x ∷ l) f (p, ps) (q, qs) = (f x p q, All-pair P Q R l f ps qs)

module _ (h : Store) (now a : ℕ) (due l l' : List ℕ) (t : Timer) (f : Fired)
    (ne : All (λ b. b ≢ a) due) (r : Refill (update h a t) now due l' f) where
  Refill-cons :
      ((x : ℕ) → Member x l → Member x l')
      → ((h a).recurring ≡ true → (t ≡ record (h a) { next = u64 (now + (h a).ms) }) × Member a l')
      → ((h a).recurring ≡ false → t.cb ≡ none)
      → Refill h now (a ∷ due) l (record f { cbs = (h a).cb ∷ f.cbs })
  Refill-cons old again once = record {
    cbs_eq = ap (◌∷◌ (h a).cb) (r.cbs_eq ∙ callbacks-update h a t due ne);
    sorted = r.sorted;
    kept = λ x m. r.kept x (old x m);
    others = λ x (n, ns). r.others x ns ∙ update_ne h a x t (λ e. n (sym e));
    rearmed = (
      λ e. (here ∙ (again e).0, r.kept a (again e).1),
      All-pair _ _ _ due
          (λ b n u.
            subst
              (λ (k : Timer).
                k.recurring ≡ true
                → (f.store b ≡ record k { next = u64 (now + k.ms) }) × Member b f.timers)
              (update_ne h a b t n) u)
          ne r.rearmed,
    );
    spent = (
      λ e. ap (λ k. k.cb) here ∙ once e,
      All-pair _ _ _ due
          (λ b n u.
            subst (λ (k : Timer). k.recurring ≡ false → (f.store b).cb ≡ none) (update_ne h a b t n)
              u)
          ne r.spent,
    );
  }
    where
      here : f.store a ≡ t
      here = r.others a ne ∙ update_self h a t

fire_recurring :
    (now a : ℕ) (h : Store) (l : List ℕ)
    → (h a).recurring ≡ true
    → fire now a h l
      ≡ (set_next h a (u64 (now + (h a).ms)), insert (set_next h a (u64 (now + (h a).ms))) a l)
unfolding fire
fire_recurring now a h l e = ground arith

fire_once :
    (now a : ℕ) (h : Store) (l : List ℕ)
    → (h a).recurring ≡ false
    → fire now a h l ≡ (clear_cb h a, l)
unfolding fire
fire_once now a h l e = ground arith

-- Each timer that is due fires once, in order; a recurring one is set to `now` plus its interval and is
-- in the set again, any other loses its callback; no other timer is touched.
pub fire_all-Refill :
    (h : Store) (now : ℕ) (due l : List ℕ)
    → IsDistinct due
    → Apart due l
    → IsSorted h l
    → Refill h now due l (fire_all now due h l)
unfolding fire_all
fire_all-Refill h now [] l d p s = record {
  cbs_eq = refl;
  sorted = s;
  kept = λ x m. m;
  others = λ x ne. refl;
  rearmed = tt;
  spent = tt;
}
fire_all-Refill h now (a ∷ due) l d p s = elim (Bool-cases (h a).recurring) [
  | inl again ↦
      let t = record (h a) { next = u64 (now + (h a).ms) } in
      let h' = set_next h a (u64 (now + (h a).ms)) in
      let ih =
        fire_all-Refill h' now due (insert h' a l) d.1 (Apart-insert h' a due l d.0 p.1)
          (insert-IsSorted h' a l (IsSorted-update h a t l p.0 s)) in
      rw (fire_recurring now a h l again) (
        Refill-cons h now a due l (insert h' a l) t _ d.0 ih (λ x m. Member-insert_old h' x a l m)
          (λ e. (refl, Member-insert_self h' a l)) (λ e. cc (again, e)))
  | inr once ↦
      let t = record (h a) { cb = none } in
      let ih = fire_all-Refill (clear_cb h a) now due l d.1 p.1 (IsSorted-update h a t l p.0 s) in
      rw (fire_once now a h l once)
        (Refill-cons h now a due l l t _ d.0 ih (λ x m. m) (λ e. cc (once, e)) (λ e. refl))
]
