-- ===== src/Timer/Manager.antt =====
-- The invariant of the timer manager, and what each of its operations does under it.
use Prim.Native.Nat.{max}
use sylar_from_scratch.Base.{
  ℕ, ◌+◌, ◌-◌, ◌^◌, ◌≤◌, ◌⊎◌, ◌≡◌, ◌≢◌, inl, inr, Bool, true, false, arith, refl, ap, ◌∙◌, List, [],
  ◌∷◌, All, Option, none, some, Bool-cases, Option-cases, ◌==◌, ==→eq, ==→ne, eq→==, ne→==,
}
use sylar_from_scratch.Timer.{
  Timer, Store, update, TimerManager, u64, less, insert, erase, add_timer, clear_cb, cancel,
  set_next, refresh, next_wait,
}
use sylar_from_scratch.Timer.Order.{less-le}
use sylar_from_scratch.Timer.Set.{
  Member, IsSorted, All-Member, insert-IsSorted, Member-insert_self, Member-insert_old,
  erase-Erased, IsSorted-update, IsSorted-same_next,
}

-- The set is sorted, and holds every timer that still has its callback.
pub record IsValid (m : TimerManager) : Type 0 where
  pub sorted : IsSorted m.store m.timers
  pub known : (a : ℕ) → (m.store a).cb ≢ none → Member a m.timers

pub update_self : (h : Store) (a : ℕ) (t : Timer) → update h a t a ≡ t
update_self h a t = rw (eq→== a a refl)

pub update_ne : (h : Store) (a b : ℕ) (t : Timer) → b ≢ a → update h a t b ≡ h b
update_ne h a b t ne = rw (ne→== b a ne)

-- A timer outside the set is set anew and inserted.
pub insert-IsValid :
    (h : Store) (a : ℕ) (t : Timer) (l : List ℕ) (m : TimerManager)
    → All (λ b. b ≢ a) l
    → IsSorted h l
    → ((x : ℕ) → x ≢ a → (h x).cb ≢ none → Member x l)
    → m.store ≡ update h a t
    → m.timers ≡ insert (update h a t) a l
    → IsValid m
insert-IsValid h a t l m fresh sorted known store timers = record {
  sorted =
      rw (store, timers)
        (insert-IsSorted (update h a t) a l (IsSorted-update h a t l fresh sorted));
  known = λ x live. rw timers (elim (Bool-cases (x == a)) [
    | inl same ↦ rw (==→eq x a same) (Member-insert_self (update h a t) a l)
    | inr other ↦
        let ne = ==→ne x a other in
        Member-insert_old (update h a t) x a l (
          known x ne
            (λ e. live (ap (λ s. (s x).cb) store ∙ ap (λ u. u.cb) (update_ne h a x t ne) ∙ e)))
  ]);
}

-- `addTimer` at a fresh address.
pub add_timer-IsValid :
    (now a ms : ℕ) (cb : Option ℕ) (recurring : Bool) (m : TimerManager)
    → IsValid m
    → All (λ b. b ≢ a) m.timers
    → IsValid (add_timer now a ms cb recurring m).0
unfolding add_timer
add_timer-IsValid now a ms cb recurring m v fresh =
    insert-IsValid m.store a _ m.timers _ fresh v.sorted (λ x ne. v.known x) refl refl

cleared_known :
    (a : ℕ) (m : TimerManager)
    → IsValid m
    → (r : List ℕ) → ((x : ℕ) → x ≢ a → Member x m.timers → Member x r)
    → (x : ℕ) → (clear_cb m.store a x).cb ≢ none
    → Member x r
cleared_known a m v r others x live = elim (Bool-cases (x == a)) [
  | inl same ↦ absurd (live (rw same))
  | inr other ↦ others x (==→ne x a other) (v.known x (λ e. live (rw other e)))
]

cancel_found :
    (a c : ℕ) (m : TimerManager) (r : List ℕ)
    → (m.store a).cb ≡ some c
    → erase (clear_cb m.store a) a m.timers ≡ some r
    → cancel a m ≡ some (record m { store = clear_cb m.store a; timers = r }, true)
unfolding cancel
cancel_found a c m r e found = ground arith

cancel_dead : (a : ℕ) (m : TimerManager) → (m.store a).cb ≡ none → cancel a m ≡ some (m, false)
unfolding cancel
cancel_dead a m e = ground arith

refreshed : ℕ → ℕ → TimerManager → List ℕ → TimerManager
refreshed now a m r =
    let store = set_next m.store a (u64 (now + (m.store a).ms)) in
    record m { store = store; timers = insert store a r }

refresh_found :
    (now a c : ℕ) (m : TimerManager) (r : List ℕ)
    → (m.store a).cb ≡ some c
    → erase m.store a m.timers ≡ some r
    → refresh now a m ≡ (refreshed now a m r, true)
unfolding refresh refreshed
refresh_found now a c m r e found = ground arith

-- A timer with a callback is found by `cancel`: the set loses it and nothing else, its callback is gone,
-- and a second `cancel` answers false. `erase(end())` does not happen.
pub cancel_lem :
    (a : ℕ) (m : TimerManager)
    → IsValid m
    → (m.store a).cb ≢ none
    → (n : TimerManager) × (cancel a m ≡ some (n, true))
      × IsValid n
      × All (λ b. b ≢ a) n.timers
      × ((x : ℕ) → x ≢ a → Member x m.timers → Member x n.timers)
      × (cancel a n ≡ some (n, false))
cancel_lem a m v live = elim (Option-cases (m.store a).cb) [
  | inl dead ↦ absurd (live dead)
  | inr (c, e) ↦
      let h = clear_cb m.store a in
      let sorted =
        IsSorted-same_next m.store a (record (m.store a) { cb = none }) m.timers refl v.sorted in
      let (r, found, er) = erase-Erased h a m.timers sorted (v.known a live) in
      let here = ap (λ t. t.cb) (update_self m.store a (record (m.store a) { cb = none })) in
      (
        record m { store = h; timers = r },
        cancel_found a c m r e found,
        record { sorted = er.sorted; known = λ x lx. cleared_known a m v r er.others x lx },
        er.gone,
        er.others,
        cancel_dead a (record m { store = h; timers = r }) here,
      )
]

-- `refresh` moves a live timer to `now` plus its interval.
pub refresh_lem :
    (now a : ℕ) (m : TimerManager)
    → IsValid m
    → (m.store a).cb ≢ none
    → (n : TimerManager) × (refresh now a m ≡ (n, true))
      × IsValid n
      × (n.store a ≡ record (m.store a) { next = u64 (now + (m.store a).ms) })
      × ((x : ℕ) → x ≢ a → n.store x ≡ m.store x)
unfolding refreshed
refresh_lem now a m v live = elim (Option-cases (m.store a).cb) [
  | inl dead ↦ absurd (live dead)
  | inr (c, e) ↦
      let (r, found, er) = erase-Erased m.store a m.timers v.sorted (v.known a live) in
      let t = record (m.store a) { next = u64 (now + (m.store a).ms) } in
      (
        refreshed now a m r,
        refresh_found now a c m r e found,
        insert-IsValid m.store a t r _ er.gone er.sorted (λ x ne lx. er.others x ne (v.known x lx))
            refl refl,
        update_self m.store a t,
        λ x ne. update_ne m.store a x t ne,
      )
]

-- The wait that getNextTimer answers, on a sorted set, ends no later than any deadline that is not past,
-- and exactly at one of them or, where that is past, at once; without a timer it is ~0ull.
pub next_wait_lem :
    (now : ℕ) (h : Store) (l : List ℕ)
    → IsSorted h l
    → ((a : ℕ) → Member a l → now + next_wait now h l ≤ max now (h a).next)
      × (((l ≡ []) × (next_wait now h l ≡ 2 ^ 64 - 1))
          ⊎ ((a : ℕ) × Member a l × (now + next_wait now h l ≡ max now (h a).next)))
unfolding next_wait
next_wait_lem now h [] s = (λ a m. absurd m, inl (refl, refl))
next_wait_lem now h (b ∷ l) s = (
  λ a m. elim m [
    | inl e ↦ rw e (ground arith)
    | inr m' ↦
        let later = less-le h b a (All-Member (λ x. less h b x ≡ true) a l s.0 m') in
        ground (arith, later)
  ],
  inr (b, inl refl, ground arith),
)
