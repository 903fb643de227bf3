-- ===== src/Timers.antt =====
-- The timers of scheduler.h and the delays of delay.h.
pub mod Soonest
pub mod Due
pub mod Arm
use simple_await.Base.{
  ℕ, zero, suc, Bool, true, Option, none, some, ◌++◌, update, ◌&&◌, ltb, leb, ◌==◌, if◌then◌else◌,
}
use simple_await.Time.{uint64_max, ms_to_us, compute_deadline}
use simple_await.World.{Slots, waiting_timer, is_waiting_timer, Scheduler, World}
use simple_await.Scheduler.{make_ready}
use simple_await.Waits.{yield_current}

-- The writes of `arm_current_timer` for slot `x`.
unfoldable pub set_timer : ℕ → ℕ → Scheduler → Scheduler
set_timer x deadline s = record s {
  slots = update s.slots x (record (s.slots x) { deadline_us = deadline; state = waiting_timer });
  nearest_deadline = if ltb deadline s.nearest_deadline then deadline else s.nearest_deadline;
}

-- `arm_current_timer`. The hook is called by `compute_deadline`.
unfoldable pub arm_current_timer : ℕ → World → World
arm_current_timer duration_us w = elim w.sched.current [
  | none ↦ w
  | some x ↦
      if duration_us == 0
      then record w { sched = yield_current w.sched }
      else (let (ok, deadline, calls) = compute_deadline w.sched.now duration_us 0 in
          if ok
          then record w { sched = set_timer x deadline w.sched }
          else record w { sched = yield_current w.sched; errors = calls ++ w.errors })
]

-- `co_await delay_us(n)`, `delay_ms(n)` and `delay(n)`: what suspending does.
unfoldable pub delay_us : ℕ → World → World
delay_us microseconds w = arm_current_timer microseconds w

unfoldable pub delay_ms : ℕ → World → World
delay_ms milliseconds w = arm_current_timer (ms_to_us milliseconds) w

-- The inner loop of `process_due_timers`: `k` slots are left from index `i`.
unfoldable pub is_due : Slots → ℕ → ℕ → Bool
is_due slots now i = is_waiting_timer (slots i).state && leb (slots i).deadline_us now

unfoldable pub beats : Slots → ℕ → Option ℕ → Bool
beats slots i none = true
beats slots i (some b) = ltb (slots i).deadline_us (slots b).deadline_us

unfoldable pub soonest_from : ℕ → ℕ → Slots → ℕ → Option ℕ → Option ℕ
soonest_from zero i slots now soonest = soonest
soonest_from (suc k) i slots now soonest =
    soonest_from k (suc i) slots now
      (if is_due slots now i && beats slots i soonest then some i else soonest)

-- The outer loop, at most `fuel` rounds. Each round leaves one timer less, so one round more than
-- there are slots ends it.
unfoldable pub wake_due : ℕ → ℕ → Scheduler → Scheduler
wake_due zero max_tasks s = s
wake_due (suc fuel) max_tasks s = elim (soonest_from max_tasks 0 s.slots s.now none) [
  | none ↦ s
  | some x ↦ wake_due fuel max_tasks (make_ready x s)
]

-- The loop of `recompute_nearest_deadline`.
unfoldable pub nearest_from : ℕ → ℕ → Slots → ℕ → ℕ
nearest_from zero i slots nearest = nearest
nearest_from (suc k) i slots nearest = nearest_from k (suc i) slots (
    if is_waiting_timer (slots i).state && ltb (slots i).deadline_us nearest
    then (slots i).deadline_us
    else nearest)

unfoldable pub recompute_nearest_deadline : ℕ → Scheduler → Scheduler
unfolding nearest_from
recompute_nearest_deadline max_tasks s = record s {
  nearest_deadline = nearest_from max_tasks 0 s.slots uint64_max;
}

-- `process_due_timers`.
unfoldable pub process_due_timers : ℕ → Scheduler → Scheduler
process_due_timers max_tasks s =
    if ltb s.now s.nearest_deadline
    then s
    else recompute_nearest_deadline max_tasks (wake_due (suc max_tasks) max_tasks s)
