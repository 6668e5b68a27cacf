-- ===== src/Timer/Listing.antt =====
-- `listExpiredCb` as a whole, where the clock did not go back.
use mathlib.Core.Path.{subst}
use sylar_from_scratch.Base.{
  ℕ, ◌+◌, ◌≤◌, ◌<◌, ◌≡◌, ◌≢◌, ◌⊎◌, inl, inr, true, false, arith, refl, sym, ap, ◌∙◌, List, [], ◌∷◌,
  ◌++◌, All, none, Bool-cases, ◌==◌, ==→eq, ==→ne,
}
use sylar_from_scratch.Timer.{
  Timer, Store, update, TimerManager, u64, take_expired, fire_due, expire, Fired, fire_all,
  first_later, detect_clock_rollover, list_expired_cb,
}
use sylar_from_scratch.Timer.Set.{
  Member, IsSorted, All-Member, All-map, IsSorted-update, ne_of_less,
}
use sylar_from_scratch.Timer.Manager.{IsValid, update_ne, update_self}
use sylar_from_scratch.Timer.Expire.{
  Cut, take_expired-Cut, IsDistinct, Apart, callbacks, callbacks-update, Refill, fire_all-Refill,
  later-All, All-pair,
}

-- What one call does: `due` are the timers that fired and `rest` the others, in the set's order.
pub record Expired (now key : ℕ) (m n : TimerManager) (due rest : List ℕ) : Type 0 where
  pub whole : due ++ rest ≡ m.timers
  pub due_le : All (λ a. (m.store a).next ≤ now) due
  pub rest_gt : All (λ a. now < (m.store a).next) rest
  pub rearmed :
      All
        (λ a.
          (m.store a).recurring ≡ true
          → (n.store a ≡ record (m.store a) { next = u64 (now + (m.store a).ms) })
            × Member a n.timers)
        due
  pub spent : All (λ a. (m.store a).recurring ≡ false → (n.store a).cb ≡ none) due
  pub others : (x : ℕ) → x ≢ key → All (λ b. b ≢ x) due → n.store x ≡ m.store x
  pub valid : IsValid n

All-append_left {ℓ} : (P : ℕ → Type ℓ) (xs ys : List ℕ) → All P (xs ++ ys) → All P xs
All-append_left P [] ys h = tt
All-append_left P (x ∷ xs) ys (h, hs) = (h, All-append_left P xs ys hs)

All-append_right {ℓ} : (P : ℕ → Type ℓ) (xs ys : List ℕ) → All P (xs ++ ys) → All P ys
All-append_right P [] ys h = h
All-append_right P (x ∷ xs) ys (h, hs) = All-append_right P xs ys hs

module _ (h : Store) where
  IsSorted-right : (xs ys : List ℕ) → IsSorted h (xs ++ ys) → IsSorted h ys
  IsSorted-right [] ys s = s
  IsSorted-right (x ∷ xs) ys s = IsSorted-right xs ys s.1

  sorted-IsDistinct : (xs ys : List ℕ) → IsSorted h (xs ++ ys) → IsDistinct xs
  sorted-IsDistinct [] ys s = tt
  sorted-IsDistinct (x ∷ xs) ys (first, s) = (
    All-append_left _ xs ys (All-map _ _ (xs ++ ys) (λ b lt. ne_of_less h x b lt) first),
    sorted-IsDistinct xs ys s,
  )

  sorted-Apart : (xs ys : List ℕ) → IsSorted h (xs ++ ys) → Apart xs ys
  sorted-Apart [] ys s = tt
  sorted-Apart (x ∷ xs) ys (first, s) = (
    All-append_right _ xs ys (All-map _ _ (xs ++ ys) (λ b lt. ne_of_less h x b lt) first),
    sorted-Apart xs ys s,
  )

Member-or : (x : ℕ) (l : List ℕ) → Member x l ⊎ All (λ b. b ≢ x) l
Member-or x [] = inr tt
Member-or x (a ∷ l) = elim (Bool-cases (x == a)) [
  | inl same ↦ inl (inl (==→eq x a same))
  | inr other ↦ elim (Member-or x l) [
    | inl m ↦ inl (inr m)
    | inr n ↦ inr (λ e. ==→ne x a other (sym e), n)
  ]
]

Member-append : (x : ℕ) (xs ys : List ℕ) → All (λ b. b ≢ x) xs → Member x (xs ++ ys) → Member x ys
Member-append x [] ys ne m = m
Member-append x (a ∷ xs) ys (n, ns) (inl e) = absurd (n (sym e))
Member-append x (a ∷ xs) ys (n, ns) (inr m) = Member-append x xs ys ns m

-- On the cut that the comparisons with `now_timer` make.
module _ (now key : ℕ) (m : TimerManager) (v : IsValid m)
    (fresh : All (λ b. b ≢ key) m.timers) where
  abbrev now_timer : Timer
  now_timer = record { recurring = false; ms = 0; next = now; cb = none }

  abbrev cleared : Store
  cleared = update m.store key now_timer

  cut :
      Cut cleared now m.timers
        (take_expired cleared now key m.timers).0
        (take_expired cleared now key m.timers).1
  cut =
      take_expired-Cut cleared now key m.timers
        (ap (λ t. t.next) (update_self m.store key now_timer))
        (IsSorted-update m.store key now_timer m.timers fresh v.sorted)

  cleared_at : (a : ℕ) → a ≢ key → cleared a ≡ m.store a
  cleared_at a ne = update_ne m.store key a now_timer ne

  known_after :
      (due rest : List ℕ) (f : Fired)
      → due ++ rest ≡ m.timers
      → Refill cleared now due rest f
      → (x : ℕ) → (f.store x).cb ≢ none
      → Member x f.timers
  known_after due rest f whole r x live = elim (Member-or x due) [
    | inl fired ↦ elim (Bool-cases (cleared x).recurring) [
      | inl again ↦ (All-Member _ x due r.rearmed fired again).1
      | inr once ↦ absurd (live (All-Member _ x due r.spent fired once))
    ]
    | inr left ↦ elim (Bool-cases (x == key)) [
      | inl same ↦ absurd (live (ap (λ t. t.cb) (r.others x left) ∙ rw same))
      | inr other ↦
          let ne = ==→ne x key other in
          let alive : (m.store x).cb ≢ none =
            λ e. live (ap (λ t. t.cb) (r.others x left ∙ cleared_at x ne) ∙ e) in
          r.kept x (Member-append x due rest left (subst (Member x) (sym whole) (v.known x alive)))
    ]
  ]

  Expired-of :
      (due rest : List ℕ) (f : Fired)
      → Cut cleared now m.timers due rest
      → Refill cleared now due rest f
      → Expired now key m (record m { store = f.store; timers = f.timers }) due rest
  Expired-of due rest f c r =
      let split : All (λ b. b ≢ key) (due ++ rest) =
        subst (All (λ b. b ≢ key)) (sym c.whole) fresh in
      let due_ne = All-append_left _ due rest split in
      let rest_ne = All-append_right _ due rest split in
      record {
        whole = c.whole;
        due_le =
            All-pair _ _ _ due (λ a n. subst (λ (t : Timer). t.next ≤ now) (cleared_at a n)) due_ne
              c.due_le;
        rest_gt =
            All-pair _ _ _ rest (λ a n. subst (λ (t : Timer). now < t.next) (cleared_at a n))
              rest_ne c.rest_gt;
        rearmed =
            All-pair _ _ _ due
              (λ a n.
                subst
                  (λ (t : Timer).
                    t.recurring ≡ true
                    → (f.store a ≡ record t { next = u64 (now + t.ms) }) × Member a f.timers)
                  (cleared_at a n))
              due_ne r.rearmed;
        spent =
            All-pair _ _ _ due
              (λ a n.
                subst (λ (t : Timer). t.recurring ≡ false → (f.store a).cb ≡ none) (cleared_at a n))
              due_ne r.spent;
        others = λ x ne left. r.others x left ∙ cleared_at x ne;
        valid = record { sorted = r.sorted; known = known_after due rest f c.whole r };
      }

  fire_due_lem :
      (due : List ℕ) × (rest : List ℕ) × (n : TimerManager) × (fire_due now key false m
        ≡ (n, callbacks m.store due))
      × Expired now key m n due rest
  unfolding fire_due
  fire_due_lem =
      let parts = take_expired cleared now key m.timers in
      let c = cut in
      let sorted : IsSorted cleared (parts.0 ++ parts.1) =
        subst (IsSorted cleared) (sym c.whole)
          (IsSorted-update m.store key now_timer m.timers fresh v.sorted) in
      let r =
        fire_all-Refill cleared now parts.0 parts.1 (sorted-IsDistinct cleared _ _ sorted)
          (sorted-Apart cleared _ _ sorted) (IsSorted-right cleared _ _ sorted) in
      let due_ne =
        All-append_left _ parts.0 parts.1 (subst (All (λ b. b ≢ key)) (sym c.whole) fresh) in
      let f = fire_all now parts.0 cleared parts.1 in
      let n : TimerManager = record m { store = f.store; timers = f.timers } in
      (
        parts.0,
        parts.1,
        n,
        ap (λ cbs. (n, cbs)) (r.cbs_eq ∙ callbacks-update m.store key now_timer parts.0 due_ne),
        Expired-of parts.0 parts.1 f c r,
      )

-- The clock that is kept does not show in what a call does.
abbrev at_clock : ℕ → TimerManager → TimerManager
at_clock now m = record m { previous_time = now }

Expired-at_clock :
    {now key : ℕ} {m n : TimerManager} {due rest : List ℕ}
    → Expired now key (at_clock now m) n due rest
    → Expired now key m n due rest
Expired-at_clock e = record {
  whole = e.whole;
  due_le = e.due_le;
  rest_gt = e.rest_gt;
  rearmed = e.rearmed;
  spent = e.spent;
  others = e.others;
  valid = e.valid;
}

IsValid-at_clock : (now : ℕ) {m : TimerManager} → IsValid m → IsValid (at_clock now m)
IsValid-at_clock now v = record { sorted = v.sorted; known = v.known }

nothing_due :
    (now key clock : ℕ) (m : TimerManager)
    → IsValid m
    → All (λ a. now < (m.store a).next) m.timers
    → Expired now key m (at_clock clock m) [] m.timers
nothing_due now key clock m v later = record {
  whole = refl;
  due_le = tt;
  rest_gt = later;
  rearmed = tt;
  spent = tt;
  others = λ x ne left. refl;
  valid = IsValid-at_clock clock v;
}

none_later :
    (now : ℕ) (h : Store) (l : List ℕ) (m : TimerManager)
    → m.store ≡ h
    → m.timers ≡ l
    → IsSorted h l
    → first_later now m ≡ true
    → All (λ a. now < (h a).next) l
none_later now h [] m e f s first = tt
none_later now h (a ∷ l) m e f s first = later-All h now a l s (ground arith)

expire_lem :
    (now key : ℕ) (m : TimerManager)
    → IsValid m
    → All (λ b. b ≢ key) m.timers
    → (detect_clock_rollover now m).1 ≡ false
    → (due : List ℕ) × (rest : List ℕ) × (n : TimerManager) × (expire now key m
        ≡ (n, callbacks m.store due))
      × Expired now key m n due rest
unfolding expire
expire_lem now key m v fresh steady = elim (Bool-cases (first_later now (at_clock now m))) [
  | inl later ↦ (
    [],
    m.timers,
    at_clock now m,
    rw (steady, later),
    nothing_due now key now m v (none_later now m.store m.timers m refl refl v.sorted later),
  )
  | inr first ↦
      let (due, rest, n, e, expired) =
        fire_due_lem now key (at_clock now m) (IsValid-at_clock now v) fresh in
      (due, rest, n, rw (steady, first) e, Expired-at_clock expired)
]

List-cases : (l : List ℕ) → (l ≡ []) ⊎ ((a : ℕ) × (r : List ℕ) × (l ≡ a ∷ r))
List-cases [] = inl refl
List-cases (a ∷ r) = inr (a, r, refl)

-- Where the clock did not go back, a call returns the callbacks of the timers whose time is reached, in
-- the set's order, each once; the recurring ones among them are set anew, the others are spent, and no
-- other timer changes.
pub list_expired_cb_lem :
    (now key : ℕ) (m : TimerManager)
    → IsValid m
    → All (λ b. b ≢ key) m.timers
    → (detect_clock_rollover now m).1 ≡ false
    → (due : List ℕ) × (rest : List ℕ) × (n : TimerManager) × (list_expired_cb now key m
        ≡ (n, callbacks m.store due))
      × Expired now key m n due rest
unfolding list_expired_cb
list_expired_cb_lem now key m v fresh steady = elim (List-cases m.timers) [
  | inl e ↦ ([], m.timers, m, ground arith, nothing_due now key m.previous_time m v (rw e tt))
  | inr (a, r, e) ↦
      let (due, rest, n, e', expired) = expire_lem now key m v fresh steady in
      (due, rest, n, nonempty e ∙ e', expired)
]
  where
    nonempty :
        {a : ℕ} {r : List ℕ} → m.timers ≡ a ∷ r → list_expired_cb now key m ≡ expire now key m
    nonempty e = ground arith
