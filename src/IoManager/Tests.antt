-- ===== src/IoManager/Tests.antt =====
-- Runs of the event operations, and the theorems about them at a manager with two descriptors.
use sylar_from_scratch.Base.{◌^◌, ◌≡◌, inr, true, [], ◌∷◌, refl, arith, some, none, set}
use sylar_from_scratch.IoManager.{
  IoManager, EpollCtl, add_event, cancel_all, handle, get_event_context, reset_event_context,
  trigger, trigger_if, trigger_event, real_events, wait_timeout,
}
use sylar_from_scratch.IoManager.Slot.{
  Pair, Registration, writing, code, put, context, registration, task,
}
use sylar_from_scratch.IoManager.Table.{Table, Keeps, room}
use sylar_from_scratch.IoManager.Batch.{After}
use sylar_from_scratch.IoManager.Report.{handle_lem}
use sylar_from_scratch.IoManager.CancelAll.{cancel_all_lem}
use sylar_from_scratch.IoManager.Events.{Did, add_event_lem}

-- epoll_ctl that succeeds, as it does for calls that its documentation allows.
abbrev willing : EpollCtl
willing calls call = true

abbrev reader : Registration
reader = record { scheduler = 9; fiber = some 5; cb = none }

-- Descriptor 1 waits to be read, descriptor 0 for nothing.
abbrev waiting : Pair
waiting = (some reader, none)

abbrev table : Table
table = (none, none) ∷ waiting ∷ []

abbrev manager : IoManager
manager = record {
  fd_contexts = context (none, none) 0 ∷ context waiting 1 ∷ [];
  pending_event_count = 1;
  scheduled = [];
  ctls = [];
}

manager-Keeps : Keeps manager table
manager-Keeps = record { contexts_eq = refl; count_eq = refl }

-- A report of both events, of which the one for writing was deleted meanwhile, fails the assertion
-- of `triggerEvent`.
handle_deleted : handle willing 1 5 manager ≡ none
unfolding handle real_events trigger_if trigger trigger_event get_event_context reset_event_context
handle_deleted = refl

-- A timer 2 ^ 31 milliseconds ahead makes epoll_wait wait without end.
wait_timeout_far : wait_timeout (2 ^ 31) ≡ none
unfolding wait_timeout
wait_timeout_far = refl

-- Descriptor 3 lies behind the table, which grows by two contexts.
add_event_lem_example :
    Did
      (add_event willing (some 9) 6 3 (code writing) (some 3) manager)
      true
      (set (room 3 table) 3 (put writing (some (registration 9 6 (some 3))) (none, none)))
      []
add_event_lem_example =
    add_event_lem willing 9 6 3 writing (some 3) manager table manager-Keeps (inr (omega arith))
      refl

-- A hang-up on descriptor 1, which stands for its registered event.
handle_lem_example :
    After (handle willing 1 16 manager) (set table 1 (none, none)) (task reader ∷ [])
handle_lem_example =
    handle_lem willing 1 16 manager table (some reader) none manager-Keeps refl (omega arith) tt tt

cancel_all_lem_example :
    Did (cancel_all willing 1 manager) true (set table 1 (none, none)) (task reader ∷ [])
cancel_all_lem_example =
    cancel_all_lem willing 1 manager table (some reader) none manager-Keeps refl refl
