-- ===== src/Timer/Tests.antt =====
-- Runs of sylar/timer.cc on a small set, and the theorems at concrete inputs.
use Prim.Native.Nat.{max}
use sylar_from_scratch.Base.{
  ℕ, ◌+◌, ◌-◌, ◌^◌, ◌⊎◌, ◌≤◌, ◌≡◌, ◌≢◌, refl, List, [], ◌∷◌, All, some, none, true, false, arith,
  if◌then◌else◌, ◌==◌,
}
use sylar_from_scratch.Timer.{
  Timer, TimerManager, u64, comparator, add_timer, cancel, refresh, next_wait, list_expired_cb,
  detect_clock_rollover,
}
use sylar_from_scratch.Timer.Set.{Member}
use sylar_from_scratch.Timer.Manager.{
  IsValid, add_timer-IsValid, cancel_lem, refresh_lem, next_wait_lem,
}
use sylar_from_scratch.Timer.Expire.{callbacks}
use sylar_from_scratch.Timer.Listing.{Expired, list_expired_cb_lem}

-- Timer 1 fires once at 10, timer 2 every 5 ms from 20 on; there are no others.
abbrev once : Timer
once = record { recurring = false; ms = 10; next = 10; cb = some 100 }

abbrev again : Timer
again = record { recurring = true; ms = 5; next = 20; cb = some 200 }

abbrev unused : Timer
unused = record { recurring = false; ms = 0; next = 0; cb = none }

abbrev two_timers : TimerManager
two_timers = record {
  store = λ a. if a == 1 then once else if a == 2 then again else unused;
  timers = 1 ∷ 2 ∷ [];
  tickled = false;
  previous_time = 0;
}

two_timers-known : (a : ℕ) → (two_timers.store a).cb ≢ none → Member a (1 ∷ 2 ∷ [])
two_timers-known a live = ground arith

two_timers-IsValid : IsValid two_timers
unfolding comparator
two_timers-IsValid = record { sorted = ((refl, tt), (tt, tt)); known = two_timers-known }

add_timer-IsValid_example : IsValid (add_timer 3 9 4 (some 300) false two_timers).0
add_timer-IsValid_example =
    add_timer-IsValid 3 9 4 (some 300) false two_timers two_timers-IsValid (omega arith)

cancel_lem_example :
    (n : TimerManager) × (cancel 1 two_timers ≡ some (n, true))
    × IsValid n
    × All (λ b. b ≢ 1) n.timers
    × ((x : ℕ) → x ≢ 1 → Member x (1 ∷ 2 ∷ []) → Member x n.timers)
    × (cancel 1 n ≡ some (n, false))
cancel_lem_example = cancel_lem 1 two_timers two_timers-IsValid (λ e. cc e)

refresh_lem_example :
    (n : TimerManager) × (refresh 15 1 two_timers ≡ (n, true))
    × IsValid n
    × (n.store 1 ≡ record once { next = u64 (15 + 10) })
    × ((x : ℕ) → x ≢ 1 → n.store x ≡ two_timers.store x)
refresh_lem_example = refresh_lem 15 1 two_timers two_timers-IsValid (λ e. cc e)

next_wait_lem_example :
    let l : List ℕ = 1 ∷ 2 ∷ [] in
    let wait = next_wait 3 two_timers.store l in
    ((a : ℕ) → Member a l → 3 + wait ≤ max 3 (two_timers.store a).next)
    × (((l ≡ []) × (wait ≡ 2 ^ 64 - 1))
        ⊎ ((a : ℕ) × Member a l × (3 + wait ≡ max 3 (two_timers.store a).next)))
next_wait_lem_example = next_wait_lem 3 two_timers.store (1 ∷ 2 ∷ []) two_timers-IsValid.sorted

list_expired_cb_lem_example :
    (due : List ℕ) × (rest : List ℕ) × (n : TimerManager) × (list_expired_cb 12 9 two_timers
      ≡ (n, callbacks two_timers.store due))
    × Expired 12 9 two_timers n due rest
unfolding detect_clock_rollover
list_expired_cb_lem_example =
    list_expired_cb_lem 12 9 two_timers two_timers-IsValid (omega arith) refl
