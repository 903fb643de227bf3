-- ===== src/Waits.antt =====
-- The suspensions of scheduler.h that `Event`, `ThreadSafeFlag` and `Queue` use, and the awaitable
-- of `yield()` in delay.h.
use simple_await.Base.{ℕ, zero, suc, Bool, true, false, Option, none, some, if◌then◌else◌}
use simple_await.Error.{invalid_task}
use simple_await.World.{set_state, waiting_local, WaitQueue, Scheduler, World, on_error}
use simple_await.Scheduler.{push_back, pop_front, make_ready}
use simple_await.Tasks.{is_current}

-- `yield_current`.
unfoldable pub yield_current : Scheduler → Scheduler
yield_current s = elim s.current [ none ↦ s | some x ↦ make_ready x s ]

-- `wait_on`: whether the caller stays suspended, the queue and the world.
unfoldable pub wait_on : WaitQueue → ℕ → World → Bool × WaitQueue × World
wait_on q awaiting w = elim w.sched.current [
  | none ↦ (false, q, on_error invalid_task w)
  | some x ↦
      if is_current w.sched awaiting
      then (let (slots, q') = push_back (set_state w.sched.slots x waiting_local) q x in
          (true, q', record w { sched = record (w.sched) { slots = slots } }))
      else (false, q, on_error invalid_task w)
]

-- `wake_all`: the loop, at most `fuel` rounds. A queue holds each slot at most once, so one round
-- more than there are slots ends it.
unfoldable pub wake_all : ℕ → WaitQueue → Scheduler → WaitQueue × Scheduler
wake_all zero q s = (q, s)
wake_all (suc fuel) q s =
    let (popped, slots, q') = pop_front s.slots q in
    elim popped [
      | none ↦ (q', s)
      | some x ↦ wake_all fuel q' (make_ready x (record s { slots = slots }))
    ]

-- `running_is`.
unfoldable pub running_is : ℕ → World → Bool × World
running_is awaiting w =
    let ok = is_current w.sched awaiting in if ok then (ok, w) else (ok, on_error invalid_task w)

-- `park_running`: the parked slot and the scheduler. The caller has checked `running_is`.
unfoldable pub park_running : Scheduler → Option ℕ × Scheduler
park_running s = elim s.current [
  | none ↦ (none, s)
  | some x ↦ (some x, record s { slots = set_state s.slots x waiting_local })
]

-- `wake_slot`.
unfoldable pub wake_slot : Option ℕ → Scheduler → Scheduler
wake_slot none s = s
wake_slot (some x) s = make_ready x s
