-- ===== src/Pass.antt =====
-- The scheduler pass of scheduler.h: `poll`, `run_pass` and the destructor.
pub mod Contract
pub mod Body
pub mod Slot
pub mod Round
pub mod Run
pub mod Signals
pub mod Poll
pub mod Teardown
pub mod Kept
pub mod Nearest
pub mod Active
pub mod Counts
pub mod Generations
pub mod Runs
use simple_await.Base.{
  ℕ, zero, suc, Bool, true, false, Option, none, some, ◌∷◌, update, ◌==◌, if◌then◌else◌,
}
use simple_await.Error.{scheduler_reentry}
use simple_await.World.{
  running, suspended, completed, set_state, is_ready, is_running, is_waiting_child, is_completed,
  World, Coroutines, on_error, destroy, decrement,
}
use simple_await.Scheduler.{ready_pop, make_ready}
use simple_await.Timers.{process_due_timers}
use simple_await.Flag.{poll_external_signals, has_external_waiters}

-- `slot->handle.resume()` and `slot->handle.done()`; the handle of a ready slot is not null.
abbrev resume_handle : Coroutines → Option ℕ → World → World
resume_handle c none w = w
resume_handle c (some frame) w = c.resume frame w

abbrev pub is_done : Coroutines → Option ℕ → World → Bool
is_done c none w = false
is_done c (some frame) w = c.done frame w

abbrev destroy_handle : Coroutines → Option ℕ → World → World
destroy_handle c none w = w
destroy_handle c (some frame) w = destroy c frame w

-- `slot->state = State::running; current_ = slot; slot->handle.resume(); current_ = nullptr;`
unfoldable pub resume_slot : Coroutines → ℕ → World → World
resume_slot c x w =
    let begun = record w {
      sched = record (w.sched) { slots = set_state w.sched.slots x running; current = some x };
      resumed = x ∷ w.resumed;
    } in
    let after = resume_handle c (begun.sched.slots x).handle begun in
    record after { sched = record (after.sched) { current = none } }

-- The end of a completed slot: its frame is destroyed, and the slot marked completed.
unfoldable pub retire_slot : Coroutines → ℕ → World → World
retire_slot c x w =
    let released = destroy_handle c (w.sched.slots x).handle w in
    let s = released.sched in
    record released {
      sched = record s {
        slots =
            update s.slots x
              (record (s.slots x) { handle = none; parent = none; state = completed });
        active_count = decrement s.active_count;
      };
    }

-- Then its parent, if it has one that waits for a child.
unfoldable pub wake_parent : Option ℕ → World → World
wake_parent none w = w
wake_parent (some p) w =
    if is_waiting_child (w.sched.slots p).state
    then record w { sched = make_ready p w.sched }
    else w

-- The parent is read first.
unfoldable pub complete_slot : Coroutines → ℕ → World → World
complete_slot c x w =
    let parent = (w.sched.slots x).parent in wake_parent parent (retire_slot c x w)

-- The round of a slot that is ready.
unfoldable pub run_slot : Coroutines → ℕ → World → World
run_slot c x w =
    let after = resume_slot c x w in
    if is_done c (after.sched.slots x).handle after
    then complete_slot c x after
    else if is_running (after.sched.slots x).state
    then record after {
      sched = record (after.sched) { slots = set_state after.sched.slots x suspended };
    }
    else after

-- The body of the loop: a slot that is not ready any more is passed over.
unfoldable pub run_ready : Coroutines → ℕ → World → World
run_ready c x w = if is_ready (w.sched.slots x).state then run_slot c x w else w

-- The loop of `run_pass` with `left` rounds of the budget left.
unfoldable pub run_budget : Coroutines → ℕ → World → World
run_budget c zero w = w
run_budget c (suc left) w =
    let (popped, s) = ready_pop w.sched in
    elim popped [
      | none ↦ record w { sched = s }
      | some x ↦ run_budget c left (run_ready c x (record w { sched = s }))
    ]

-- `run_pass`.
unfoldable pub run_pass : Coroutines → World → World
run_pass c w = run_budget c w.sched.ready_count w

-- `run_poll_pass`, with the value of `platform_now_us()`: whether a pass ran, and the world.
unfoldable pub run_poll_pass : Coroutines → ℕ → ℕ → World → Bool × World
run_poll_pass c max_tasks clock w =
    if w.sched.shutting_down
    then (false, w)
    else if w.sched.in_poll
    then (false, on_error scheduler_reentry w)
    else (let entered = record w { sched = record (w.sched) { in_poll = true; now = clock } } in
        let signaled = poll_external_signals max_tasks entered in
        let timed = record signaled { sched = process_due_timers max_tasks signaled.sched } in
        let ran = run_pass c timed in
        (true, record ran { sched = record (ran.sched) { in_poll = false } }))

-- `poll`.
unfoldable pub poll : Coroutines → ℕ → ℕ → World → World
poll c max_tasks clock w = (run_poll_pass c max_tasks clock w).1

-- `wait_for_work`: the arguments of the call of `platform_wait_until`, if it is made.
unfoldable pub wait_for_work : World → Option (ℕ × Bool)
wait_for_work w =
    if w.sched.ready_count == 0
    then some (w.sched.nearest_deadline, has_external_waiters w)
    else none

-- `poll_and_wait`: the world, and the platform wait that follows a complete pass.
unfoldable pub poll_and_wait : Coroutines → ℕ → ℕ → World → World × Option (ℕ × Bool)
poll_and_wait c max_tasks clock w =
    let (completed_pass, w') = run_poll_pass c max_tasks clock w in
    (w', if completed_pass then wait_for_work w' else none)

-- The body of the loop of `~Scheduler` at slot `i`.
unfoldable pub teardown_slot : Coroutines → ℕ → World → World
teardown_slot c i w = elim (w.sched.slots i).handle [
  | none ↦ w
  | some frame ↦
      if is_completed (w.sched.slots i).state
      then w
      else destroy c frame (record w {
        sched = record (w.sched) {
          slots =
              update w.sched.slots i
                (record (w.sched.slots i) { handle = none; state = completed });
        };
      })
]

-- The loop with `k` slots left from index `i`.
unfoldable pub teardown_from : Coroutines → ℕ → ℕ → World → World
teardown_from c zero i w = w
teardown_from c (suc k) i w = teardown_from c k (suc i) (teardown_slot c i w)

-- `~Scheduler`.
unfoldable pub teardown : Coroutines → ℕ → World → World
teardown c max_tasks w =
    teardown_from c max_tasks 0 (record w { sched = record (w.sched) { shutting_down = true } })
