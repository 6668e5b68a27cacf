-- ===== src/Scheduler/Tests.antt =====
-- Runs of the choice of a task, and the theorems about it at a queue of four tasks.
use sylar_from_scratch.Base.{
  ℕ, false, true, ◌≡◌, ◌==◌, refl, List, [], ◌∷◌, some, none, if◌then◌else◌,
}
use sylar_from_scratch.Fiber.{State, ready, running}
use sylar_from_scratch.Scheduler.{ScheduleTask, Scheduler, Choice, choose}
use sylar_from_scratch.Scheduler.Queue.{IsValid, Chosen, choose_lem}

-- Fiber 3 runs, the others are ready.
abbrev states : ℕ → State
states fiber = if fiber == 3 then running else ready

abbrev elsewhere : ScheduleTask
elsewhere = record { fiber = some 1; cb = none; thread = some 8 }

abbrev busy : ScheduleTask
busy = record { fiber = some 3; cb = none; thread = none }

abbrev call : ScheduleTask
call = record { fiber = none; cb = some 4; thread = some 7 }

abbrev last : ScheduleTask
last = record { fiber = some 2; cb = none; thread = none }

abbrev queue : List ScheduleTask
queue = elsewhere ∷ busy ∷ call ∷ last ∷ []

abbrev scheduler : Scheduler
scheduler = record {
  tasks = queue;
  active_thread_count = 0;
  idle_thread_count = 0;
  is_stopping = false;
}

queue-IsValid : IsValid queue
unfolding IsValid
queue-IsValid = (refl, (refl, (refl, (refl, tt))))

choose-elsewhere_first :
    choose states 7 queue
    ≡ some (record { task = some call; left = elsewhere ∷ busy ∷ last ∷ []; tickle_me = true })
unfolding choose
choose-elsewhere_first = refl

choose_lem_example : (c : Choice) × (choose states 7 queue ≡ some c) × Chosen states 7 queue c
choose_lem_example = choose_lem states 7 queue queue-IsValid
