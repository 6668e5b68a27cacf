-- ===== src/Scheduler/Queue.antt =====
-- The choice of a task: the first one that the thread may run.
use sylar_from_scratch.Base.{
  ℕ, suc, ◌≡◌, inl, inr, Bool, true, false, not, ◌||◌, refl, ap, List, [], ◌∷◌, ◌++◌, Option, some,
  none, All, maybe, Bool-cases,
}
use mathlib.Core.Path.{subst}
use sylar_from_scratch.Fiber.{State}
use sylar_from_scratch.Scheduler.{
  ScheduleTask, Scheduler, Choice, is_task, is_elsewhere, is_busy, is_nil, choose, skip,
  skip_elsewhere, schedule_no_lock, take_task,
}

-- A queue of tasks each of which has a fiber or a callback.
unfoldable pub IsValid : List ScheduleTask → Type 0
IsValid tasks = All (λ task. is_task task ≡ true) tasks

-- A task that a thread may not run: it is for another thread, or its fiber runs.
abbrev pub is_skipped : (ℕ → State) → ℕ → ScheduleTask → Bool
is_skipped state me task = is_elsewhere me task || is_busy state task

abbrev pub any_elsewhere : ℕ → List ScheduleTask → Bool
any_elsewhere me [] = false
any_elsewhere me (task ∷ tasks) = is_elsewhere me task || any_elsewhere me tasks

abbrev pub Skipped : (ℕ → State) → ℕ → List ScheduleTask → Type 0
Skipped state me tasks = All (λ task. is_skipped state me task ≡ true) tasks

-- The first task that the thread may run is taken out, or there is none and the queue stays. Others are
-- woken where a task before it is for another thread, or where a task stands behind it.
pub data Chosen (state : ℕ → State) (me : ℕ) : List ScheduleTask → Choice → Type 0 where
  nothing :
      (tasks : List ScheduleTask)
      → Skipped state me tasks
      → Chosen state me tasks
          (record { task = none; left = tasks; tickle_me = any_elsewhere me tasks })
  first :
      (before : List ScheduleTask) (task : ScheduleTask) (after : List ScheduleTask)
      → Skipped state me before
      → is_skipped state me task ≡ false
      → Chosen state me (before ++ task ∷ after) (record {
        task = some task;
        left = before ++ after;
        tickle_me = any_elsewhere me before || not (is_nil after);
      })

or-right : (a b : Bool) → b ≡ true → (a || b) ≡ true
or-right true b e = refl
or-right false b e = e

or-false : (a b : Bool) → a ≡ false → b ≡ false → (a || b) ≡ false
or-false true b e f = e
or-false false b e f = f

skip_elsewhere-Chosen :
    (state : ℕ → State) (me : ℕ) (task : ScheduleTask) {tasks : List ScheduleTask} {c : Choice}
    → is_elsewhere me task ≡ true
    → Chosen state me tasks c
    → Chosen state me (task ∷ tasks) (skip_elsewhere task c)
skip_elsewhere-Chosen state me task e (nothing tasks s) =
    subst
      (λ b.
        Chosen state me (task ∷ tasks) (record { task = none; left = task ∷ tasks; tickle_me = b }))
      (ap (λ b. b || any_elsewhere me tasks) e)
      (nothing (task ∷ tasks) (ap (λ b. b || is_busy state task) e, s))
skip_elsewhere-Chosen state me task e (first before t after s n) =
    subst
      (λ b.
        Chosen state me (task ∷ before ++ t ∷ after)
          (record { task = some t; left = task ∷ before ++ after; tickle_me = b }))
      (ap (λ b. (b || any_elsewhere me before) || not (is_nil after)) e)
      (first (task ∷ before) t after (ap (λ b. b || is_busy state task) e, s) n)

skip-Chosen :
    (state : ℕ → State) (me : ℕ) (task : ScheduleTask) {tasks : List ScheduleTask} {c : Choice}
    → is_elsewhere me task ≡ false
    → is_busy state task ≡ true
    → Chosen state me tasks c
    → Chosen state me (task ∷ tasks) (skip task c)
skip-Chosen state me task f e (nothing tasks s) =
    subst
      (λ b.
        Chosen state me (task ∷ tasks) (record { task = none; left = task ∷ tasks; tickle_me = b }))
      (ap (λ b. b || any_elsewhere me tasks) f)
      (nothing (task ∷ tasks) (or-right (is_elsewhere me task) (is_busy state task) e, s))
skip-Chosen state me task f e (first before t after s n) =
    subst
      (λ b.
        Chosen state me (task ∷ before ++ t ∷ after)
          (record { task = some t; left = task ∷ before ++ after; tickle_me = b }))
      (ap (λ b. (b || any_elsewhere me before) || not (is_nil after)) f)
      (first (task ∷ before) t after (or-right (is_elsewhere me task) (is_busy state task) e, s) n)

-- In a queue of tasks that each have a fiber or a callback, no assertion fails and the loop takes the
-- first task that is not for another thread and whose fiber does not run, leaves the others in their
-- order, and wakes the others exactly where a task that it passed is for another thread or a task
-- stands behind the one it took.
pub choose_lem :
    (state : ℕ → State) (me : ℕ) (tasks : List ScheduleTask)
    → IsValid tasks
    → (c : Choice) × (choose state me tasks ≡ some c) × Chosen state me tasks c
unfolding choose IsValid
choose_lem state me [] v =
    (record { task = none; left = []; tickle_me = false }, refl, nothing [] tt)
choose_lem state me (task ∷ tasks) (v, vs) =
    let (c, e, ch) = choose_lem state me tasks vs in
    elim (Bool-cases (is_elsewhere me task)) [
      | inl t ↦ (skip_elsewhere task c, rw (t, e) refl, skip_elsewhere-Chosen state me task t ch)
      | inr f ↦ elim (Bool-cases (is_busy state task)) [
        | inl b ↦ (skip task c, rw (f, v, b, e) refl, skip-Chosen state me task f b ch)
        | inr n ↦ (
          record { task = some task; left = tasks; tickle_me = not (is_nil tasks) },
          rw (f, v, n) refl,
          first [] task tasks tt (or-false (is_elsewhere me task) (is_busy state task) f n),
        )
      ]
    ]

snoc-IsValid :
    (task : ScheduleTask) (tasks : List ScheduleTask)
    → is_task task ≡ true
    → IsValid tasks
    → IsValid (tasks ++ task ∷ [])
unfolding IsValid
snoc-IsValid task [] e v = (e, tt)
snoc-IsValid task (t ∷ tasks) e (v, vs) = (v, snoc-IsValid task tasks e vs)

without_middle :
    (t : ScheduleTask) (before after : List ScheduleTask)
    → IsValid (before ++ t ∷ after)
    → IsValid (before ++ after)
unfolding IsValid
without_middle t [] after v = v.1
without_middle t (b ∷ before) after v = (v.0, without_middle t before after v.1)

kept-IsValid :
    (state : ℕ → State) (me : ℕ) {tasks : List ScheduleTask} {c : Choice}
    → Chosen state me tasks c
    → IsValid tasks
    → IsValid c.left
kept-IsValid state me (nothing tasks s) v = v
kept-IsValid state me (first before t after s n) v = without_middle t before after v

-- A queue keeps its invariant when any task is scheduled, an empty one included, and when a thread
-- takes a task; the count of active threads grows by one where it took one.
pub schedule_no_lock-IsValid :
    (state : ℕ → State) (me : ℕ) (task : ScheduleTask) (s : Scheduler)
    → IsValid s.tasks
    → IsValid (schedule_no_lock task s).0.tasks
      × ((s' : Scheduler) × (taken : Option ScheduleTask) × (wake : Bool) × (take_task state me s
            ≡ some (s', taken, wake))
          × IsValid s'.tasks
          × (s'.active_thread_count
              ≡ maybe s.active_thread_count (λ _. suc s.active_thread_count) taken))
unfolding schedule_no_lock take_task
schedule_no_lock-IsValid state me task s v =
    let (c, e, ch) = choose_lem state me s.tasks v in
    (
      elim (Bool-cases (is_task task)) [
        | inl t ↦ rw (t) (snoc-IsValid task s.tasks t v)
        | inr f ↦ rw (f) v
      ],
      (
        record s {
          tasks = c.left;
          active_thread_count = maybe s.active_thread_count (λ _. suc s.active_thread_count) c.task;
        },
        c.task,
        c.tickle_me,
        rw (e) refl,
        kept-IsValid state me ch v,
        refl,
      ),
    )
