-- ===== src/IoManager/Slot.antt =====
-- What a descriptor's context stands for: a registration or none for each of its two events.
use sylar_from_scratch.Base.{ℕ, ◌≡◌, true, false, refl, sym, some_inj, Option, some, none}
use mathlib.Core.Option
use sylar_from_scratch.IoManager.{
  EventContext, FdContext, Task, read_event, write_event, empty_context, has, without,
  get_event_context, reset_event_context, register, filled, trigger_event, task_of,
}

-- Who is to be told of an event: a scheduler, and the callback or fiber for it.
pub record Registration : Type 0 where
  pub scheduler : ℕ
  pub fiber : Option ℕ
  pub cb : Option ℕ

abbrev pub Pair : Type 0
Pair = Option Registration × Option Registration

pub data Side : Type 0 where
  reading : Side
  writing : Side

abbrev pub code : Side → ℕ
code reading = read_event
code writing = write_event

abbrev pub pick : Side → Pair → Option Registration
pick reading (r, w) = r
pick writing (r, w) = w

abbrev pub put : Side → Option Registration → Pair → Pair
put reading o (r, w) = (o, w)
put writing o (r, w) = (r, o)

abbrev pub slot : Option Registration → EventContext
slot none = empty_context
slot (some r) = record { scheduler = some r.scheduler; fiber = r.fiber; cb = r.cb }

abbrev pub mask : Pair → ℕ
mask (none, none) = 0
mask (some r, none) = 1
mask (none, some w) = 4
mask (some r, some w) = 5

abbrev pub count : Pair → ℕ
count (none, none) = 0
count (some r, none) = 1
count (none, some w) = 1
count (some r, some w) = 2

abbrev pub context : Pair → ℕ → FdContext
context (r, w) fd = record { read = slot r; write = slot w; fd = fd; events = mask (r, w) }

abbrev pub registration : ℕ → ℕ → Option ℕ → Registration
registration s fiber none = record { scheduler = s; fiber = some fiber; cb = none }
registration s fiber (some cb) = record { scheduler = s; fiber = none; cb = some cb }

abbrev pub task : Registration → ℕ × Task
task r = (r.scheduler, task_of (slot (some r)))

pub has-vacant : (e : Side) (p : Pair) → pick e p ≡ none → has (mask p) (code e) ≡ false
has-vacant reading (none, none) h = refl
has-vacant reading (none, some w) h = refl
has-vacant reading (some r, w) h = absurd (Option.some-ne-none r h)
has-vacant writing (none, none) h = refl
has-vacant writing (some r, none) h = refl
has-vacant writing (r, some w) h = absurd (Option.some-ne-none w h)

pub has-some :
    (e : Side) (p : Pair) (g : Registration) → pick e p ≡ some g → has (mask p) (code e) ≡ true
has-some reading (none, w) g h = absurd (Option.none-ne-some g h)
has-some reading (some r, none) g h = refl
has-some reading (some r, some w) g h = refl
has-some writing (r, none) g h = absurd (Option.none-ne-some g h)
has-some writing (none, some w) g h = refl
has-some writing (some r, some w) g h = refl

pub register-context :
    (e : Side) (p : Pair) (s fiber fd : ℕ) (cb : Option ℕ)
    → pick e p ≡ none
    → register (code e) (filled (some s) fiber cb) (context p fd)
      ≡ some (context (put e (some (registration s fiber cb)) p) fd)
unfolding register get_event_context
register-context reading (none, none) s fiber fd none h = refl
register-context reading (none, none) s fiber fd (some cb) h = refl
register-context reading (none, some w) s fiber fd none h = refl
register-context reading (none, some w) s fiber fd (some cb) h = refl
register-context reading (some r, w) s fiber fd cb h = absurd (Option.some-ne-none r h)
register-context writing (none, none) s fiber fd none h = refl
register-context writing (none, none) s fiber fd (some cb) h = refl
register-context writing (some r, none) s fiber fd none h = refl
register-context writing (some r, none) s fiber fd (some cb) h = refl
register-context writing (r, some w) s fiber fd cb h = absurd (Option.some-ne-none w h)

pub without-mask : (e : Side) (p : Pair) → without (mask p) (code e) ≡ mask (put e none p)
without-mask reading (none, none) = refl
without-mask reading (none, some w) = refl
without-mask reading (some r, none) = refl
without-mask reading (some r, some w) = refl
without-mask writing (none, none) = refl
without-mask writing (none, some w) = refl
without-mask writing (some r, none) = refl
without-mask writing (some r, some w) = refl

pub trigger_event-context :
    (e : Side) (p : Pair) (fd : ℕ) (g : Registration)
    → pick e p ≡ some g
    → trigger_event (code e) (context p fd) ≡ some (context (put e none p) fd, task g)
unfolding trigger_event get_event_context reset_event_context
trigger_event-context reading (none, w) fd g h = absurd (Option.none-ne-some g h)
trigger_event-context reading (some r, none) fd g h = rw (sym (some_inj h)) refl
trigger_event-context reading (some r, some w) fd g h = rw (sym (some_inj h)) refl
trigger_event-context writing (r, none) fd g h = absurd (Option.none-ne-some g h)
trigger_event-context writing (none, some w) fd g h = rw (sym (some_inj h)) refl
trigger_event-context writing (some r, some w) fd g h = rw (sym (some_inj h)) refl

pub get_event_context-context :
    (e : Side) (p : Pair) (fd : ℕ)
    → get_event_context (code e) (context p fd) ≡ some (slot (pick e p))
unfolding get_event_context
get_event_context-context reading (r, w) fd = refl
get_event_context-context writing (r, w) fd = refl

pub reset_event_context-context :
    (e : Side) (p : Pair) (fd : ℕ)
    → reset_event_context (code e) (record (context p fd) { events = mask (put e none p) })
      ≡ context (put e none p) fd
unfolding reset_event_context
reset_event_context-context reading (r, w) fd = refl
reset_event_context-context writing (r, w) fd = refl
