-- ===== src/Tests.antt =====
-- Concrete worlds of scheduler.h, and the theorems applied to them.
mod Passes
mod Calls
mod Flags
mod Idle
mod Devices
mod Sections
mod Programs
mod Pool
mod Queues
mod Waits
use simple_await.Base.{
  ℕ, Bool, true, false, Option, none, some, List, [], ◌∷◌, ◌==◌, if◌then◌else◌, arith, refl,
}
use simple_await.World.{
  State, free, ready, running, waiting_timer, waiting_local, Slot, Slots, Event, Scheduler, World,
  empty_slot,
}
use simple_await.Scheduler.Ready.{ReadyFifo}
use simple_await.World.{Coroutines}
use simple_await.Waits.{yield_current}
use simple_await.Invariant.{Inv}
use simple_await.Invariant.Initial.{new_world}

abbrev pub capacity : ℕ
capacity = 6

abbrev slot : ℕ → State → ℕ → Option ℕ → Slot
slot frame state deadline next = record {
  handle = some frame;
  next = next;
  parent = none;
  deadline_us = deadline;
  generation = 1;
  state = state;
}

-- Slot 1 waits for event 5, slot 3 for a timer, and slot 2 is the last to become ready.
abbrev pub slots_with : Slot → Slots
slots_with first i =
    if i == 0
    then first
    else if i == 1
    then slot 11 waiting_local 0 none
    else if i == 2
    then slot 12 ready 0 none
    else if i == 3
    then slot 13 waiting_timer 100 none
    else empty_slot

abbrev pub event_of : ℕ → Event
event_of e =
    if e == 5
    then record { is_set = false; waiters = record { head = some 1; tail = some 1 } }
    else record { is_set = false; waiters = record { head = none; tail = none } }

abbrev scheduler_with : Slot → Option ℕ → ℕ → Option ℕ → Scheduler
scheduler_with first head count current = record {
  slots = slots_with first;
  ready_head = head;
  ready_tail = some 2;
  ready_count = count;
  active_count = 4;
  peak_count = 4;
  current = current;
  in_poll = true;
  shutting_down = false;
  now = 150;
  nearest_deadline = 100;
}

-- Slots 0 and 2 are ready.
abbrev pub idle_world : World
idle_world = record new_world {
  sched = scheduler_with (slot 10 ready 0 (some 2)) (some 0) 2 none;
  events = event_of;
}

-- Slot 0 runs, and slot 2 is ready.
abbrev pub busy_world : World
busy_world = record new_world {
  sched = scheduler_with (slot 10 running 0 none) (some 2) 1 (some 0);
  events = event_of;
}

abbrev pub waiters : ℕ → List ℕ
waiters e = if e == 5 then 1 ∷ [] else []

pub idle_world-Inv : Inv capacity idle_world (0 ∷ 2 ∷ []) waiters
idle_world-Inv = record {
  fifo = record {
    limit = omega arith;
    fifo = ground arith;
    member = λ i. ground arith;
    counted = refl;
    beyond = λ i h. ground arith;
  };
  parked = record {
    fifo = λ e. ground arith;
    waiting = λ e i. ground arith;
    apart = λ c d i h. ground arith;
  };
}

pub busy_world-Inv : Inv capacity busy_world (2 ∷ []) waiters
busy_world-Inv = record {
  fifo = record {
    limit = omega arith;
    fifo = ground arith;
    member = λ i. ground arith;
    counted = refl;
    beyond = λ i h. ground arith;
  };
  parked = record {
    fifo = λ e. ground arith;
    waiting = λ e i. ground arith;
    apart = λ c d i h. ground arith;
  };
}

-- The coroutine of frame 10 runs to its end; every other one yields.
abbrev pub mixed : Coroutines
mixed = record {
  resume = λ frame w. if frame == 10 then w else record w { sched = yield_current w.sched };
  done = λ frame w. frame == 10;
  release = λ frame w. w;
}
