-- ===== src/Scheduler.antt =====
-- sylar/scheduler.h and sylar/scheduler.cc: the queue of tasks, and how a thread takes a task from it.
-- Threads, fibers and callbacks are numbers, none for the thread -1 and for null pointers; the states
-- of the fibers are an argument.
pub mod Queue
mod Tests
use sylar_from_scratch.Base.{
  ℕ, suc, ◌-◌, Bool, true, false, not, ◌&&◌, ◌||◌, List, [], ◌∷◌, ◌++◌, Option, some, none, ◌==◌,
  if◌then◌else◌, maybe,
}
use mathlib.Core.Option
use sylar_from_scratch.Fiber.{State, ready, running, term}

pub record ScheduleTask : Type 0 where
  pub fiber : Option ℕ
  pub cb : Option ℕ
  pub thread : Option ℕ

pub record Scheduler : Type 0 where
  pub tasks : List ScheduleTask
  pub active_thread_count : ℕ
  pub idle_thread_count : ℕ
  pub is_stopping : Bool

abbrev pub is_set : Option ℕ → Bool
is_set none = false
is_set (some a) = true

-- `fiber || cb`.
abbrev pub is_task : ScheduleTask → Bool
is_task task = is_set task.fiber || is_set task.cb

abbrev pub is_nil : List ScheduleTask → Bool
is_nil [] = true
is_nil (t ∷ ts) = false

-- The second result is `need_tickle`.
pub schedule_no_lock : ScheduleTask → Scheduler → Scheduler × Bool
schedule_no_lock task s =
    (record s { tasks = if is_task task then s.tasks ++ task ∷ [] else s.tasks }, is_nil s.tasks)

-- A task for a thread other than `me`.
abbrev pub is_elsewhere : ℕ → ScheduleTask → Bool
is_elsewhere me task = maybe false (λ thread. not (thread == me)) task.thread

abbrev is_running : State → Bool
is_running ready = false
is_running running = true
is_running term = false

abbrev pub is_busy : (ℕ → State) → ScheduleTask → Bool
is_busy state task = maybe false (λ fiber. is_running (state fiber)) task.fiber

-- What the loop over the queue leaves: the task it took, the queue, and `tickle_me`.
pub record Choice : Type 0 where
  pub task : Option ScheduleTask
  pub left : List ScheduleTask
  pub tickle_me : Bool

abbrev pub skip : ScheduleTask → Choice → Choice
skip task c = record c { left = task ∷ c.left }

abbrev pub skip_elsewhere : ScheduleTask → Choice → Choice
skip_elsewhere task c = record c { left = task ∷ c.left; tickle_me = true }

-- The loop of `run` over the queue; none is the failed assertion.
pub choose : (ℕ → State) → ℕ → List ScheduleTask → Option Choice
choose state me [] = some (record { task = none; left = []; tickle_me = false })
choose state me (task ∷ tasks) =
    let rest = choose state me tasks in
    if is_elsewhere me task
    then Option.map (skip_elsewhere task) rest
    else if not (is_task task)
    then none
    else if is_busy state task
    then Option.map (skip task) rest
    else some (record { task = some task; left = tasks; tickle_me = not (is_nil tasks) })

-- The part of a round of `run` under the lock: the task, and whether other threads are woken.
pub take_task : (ℕ → State) → ℕ → Scheduler → Option (Scheduler × Option ScheduleTask × Bool)
unfolding choose
take_task state me s =
    maybe none
      (λ c. some (
        record s {
          tasks = c.left;
          active_thread_count = maybe s.active_thread_count (λ _. suc s.active_thread_count) c.task;
        },
        c.task,
        c.tickle_me,
      ))
      (choose state me s.tasks)

pub stopping : Scheduler → Bool
stopping s = s.is_stopping && is_nil s.tasks && s.active_thread_count == 0
