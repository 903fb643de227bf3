-- ===== src/World.antt =====
-- The state that the library keeps: the slots and members of `Scheduler` (scheduler.h), the members
-- of `Event` (event.h) and `ThreadSafeFlag` (threadsafeflag.h), and what user code supplies.
-- A `Slot*` is the slot's index in `slots_`, a null pointer is `none`; a coroutine handle is the
-- frame's address; an `Event*` or `ThreadSafeFlag*` is the object's address.
use simple_await.Base.{ℕ, ◌+◌, ◌-◌, ◌%◌, ◌^◌, Bool, true, false, Option, none, List, ◌∷◌, update}
use simple_await.Error.{Error, ErrorLog}
use simple_await.Time.{uint64_max}

-- `Scheduler::State`.
pub data State : Type 0 where
  free ready running waiting_timer waiting_child waiting_local suspended completed : State

-- Comparisons of a `State` with one constant.
abbrev pub is_free : State → Bool
is_free free = true
is_free _ = false

abbrev pub is_ready : State → Bool
is_ready ready = true
is_ready _ = false

abbrev pub is_running : State → Bool
is_running running = true
is_running _ = false

abbrev pub is_waiting_timer : State → Bool
is_waiting_timer waiting_timer = true
is_waiting_timer _ = false

abbrev pub is_waiting_child : State → Bool
is_waiting_child waiting_child = true
is_waiting_child _ = false

abbrev pub is_waiting_local : State → Bool
is_waiting_local waiting_local = true
is_waiting_local _ = false

abbrev pub is_completed : State → Bool
is_completed completed = true
is_completed _ = false

-- `Scheduler::Slot`.
pub record Slot : Type 0 where
  pub handle : Option ℕ
  pub next : Option ℕ
  pub parent : Option ℕ
  pub deadline_us : ℕ
  pub generation : ℕ
  pub state : State

-- `slots_`: the slots from `max_tasks` on are no part of the array, and no code reaches them.
abbrev pub Slots : Type 0
Slots = ℕ → Slot

abbrev pub set_next : Slots → ℕ → Option ℕ → Slots
set_next slots x p = update slots x (record (slots x) { next = p })

abbrev pub set_state : Slots → ℕ → State → Slots
set_state slots x v = update slots x (record (slots x) { state = v })

-- `Scheduler::WaitQueue`.
pub record WaitQueue : Type 0 where
  pub head : Option ℕ
  pub tail : Option ℕ

-- The members of `Scheduler`, diagnostics compiled in.
pub record Scheduler : Type 0 where
  pub slots : Slots
  pub ready_head : Option ℕ
  pub ready_tail : Option ℕ
  pub ready_count : ℕ
  pub active_count : ℕ
  pub peak_count : ℕ
  pub current : Option ℕ
  pub in_poll : Bool
  pub shutting_down : Bool
  pub now : ℕ
  pub nearest_deadline : ℕ

-- The members of `Event`.
pub record Event : Type 0 where
  pub is_set : Bool
  pub waiters : WaitQueue

-- The members of `ThreadSafeFlag`.
pub record ThreadSafeFlag : Type 0 where
  pub signaled : Bool
  pub waiter : Option ℕ
  pub armed_next : Option ℕ

-- The scheduler, the objects that hold waiting slots, the statics of `ThreadSafeFlag`, and three
-- records of what happened, newest first: the calls of the error hook, the frames destroyed, and
-- the slots whose frame was resumed.
pub record World : Type 0 where
  pub sched : Scheduler
  pub events : ℕ → Event
  pub flags : ℕ → ThreadSafeFlag
  pub armed_head : Option ℕ
  pub pending : Bool
  pub errors : ErrorLog
  pub destroyed : List ℕ
  pub resumed : List ℕ

abbrev pub on_error : Error → World → World
on_error e w = record w { errors = e ∷ w.errors }

-- User code and the compiler's coroutines: `resume` runs a frame up to its next suspension, `done`
-- tells whether it stands at its final suspension, and `release` is what the destructors of a
-- frame's parameters do when the frame is destroyed.
pub record Coroutines : Type 0 where
  pub resume : ℕ → World → World
  pub done : ℕ → World → Bool
  pub release : ℕ → World → World

-- `coroutine_handle::destroy`.
abbrev pub destroy : Coroutines → ℕ → World → World
destroy c frame w = c.release frame (record w { destroyed = frame ∷ w.destroyed })

-- The initial members.
abbrev pub empty_slot : Slot
empty_slot = record {
  handle = none;
  next = none;
  parent = none;
  deadline_us = 0;
  generation = 0;
  state = free;
}

abbrev pub new_scheduler : Scheduler
new_scheduler = record {
  slots = λ _. empty_slot;
  ready_head = none;
  ready_tail = none;
  ready_count = 0;
  active_count = 0;
  peak_count = 0;
  current = none;
  in_poll = false;
  shutting_down = false;
  now = 0;
  nearest_deadline = uint64_max;
}

-- `++` and `--` on a `size_t` of 32 bits.
abbrev pub increment : ℕ → ℕ
increment k = (k + 1) % 2 ^ 32

abbrev pub decrement : ℕ → ℕ
decrement k = (k + 2 ^ 32 - 1) % 2 ^ 32
