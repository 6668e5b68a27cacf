-- ===== src/Fiber/Tests.antt =====
-- The theorems about switches at a thread with a main fiber at 1 and a new fiber at 2.
use sylar_from_scratch.Base.{ℕ, ◌≡◌, true, false, refl, some, none, ◌==◌, if◌then◌else◌, ==→ne}
use sylar_from_scratch.Fiber.{ready, running, Fiber, Thread, resume, yield}
use sylar_from_scratch.Fiber.Switch.{CanResume, Runs, resume_lem, yield_lem}

abbrev nobody : Fiber
nobody = record { state = ready; has_stack = false; cb = none; run_in_scheduler = false; ctx = 0 }

abbrev thread : Thread
thread = record {
  fibers = λ (a : ℕ). if a == 1 then record nobody { state = running; ctx = 1 } else record {
    state = ready;
    has_stack = true;
    cb = some 5;
    run_in_scheduler = false;
    ctx = a;
  };
  current = some 1;
  thread_fiber = some 1;
  scheduler_fiber = none;
  flow = 1;
}

-- The thread once fiber 2 runs.
abbrev inside : Thread
inside = record thread {
  fibers = λ (a : ℕ). if a == 1 then record nobody { state = running; ctx = 1 } else record {
    state = running;
    has_stack = true;
    cb = some 5;
    run_in_scheduler = false;
    ctx = a;
  };
  current = some 2;
  flow = 2;
}

thread-CanResume : CanResume 2 1 thread
thread-CanResume = record {
  apart = ==→ne 2 1 refl;
  state_eq = refl;
  ctx_eq = refl;
  root_eq = refl;
  flow_eq = refl;
}

inside-Runs : Runs 2 1 inside
inside-Runs = record {
  apart = ==→ne 2 1 refl;
  state_eq = refl;
  back_eq = refl;
  root_eq = refl;
  flow_eq = refl;
  current_eq = refl;
}

resume_lem_example : (t' : Thread) × (resume 2 thread ≡ some t') × Runs 2 1 t'
resume_lem_example = resume_lem 2 1 thread thread-CanResume

yield_lem_example :
    (t' : Thread) × (yield 2 inside ≡ some t') × CanResume 2 1 t' × (t'.current ≡ some 1)
yield_lem_example = yield_lem 2 1 inside inside-Runs
