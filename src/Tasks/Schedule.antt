-- ===== src/Tasks/Schedule.antt =====
-- `schedule` of scheduler.h on every branch.
use simple_await.Base.{
  ℕ, ◌≡◌, refl, ap, true, false, Option, none, some, arith, inl, inr, subst, Bool-cases,
}
use simple_await.Error.{invalid_task, task_limit}
use simple_await.World.{Scheduler, World, on_error}
use simple_await.Scheduler.{bump, acquire_slot}
use simple_await.Scheduler.Acquire.{Took, Exhausted, AcquireResult, acquire_slot-AcquireResult}
use simple_await.Tasks.{Task, TaskHandle, no_handle, index_of, adopt, schedule}

-- What a call returns that put a frame into slot `x` and made the scheduler `s`.
abbrev pub success : World → ℕ → Scheduler → TaskHandle × Task × World
success w x s = (
  record { bound = true; id = record { slot = index_of x; generation = (s.slots x).generation } },
  none,
  record w { sched = s },
)

-- The handle, the task left to the caller, and the world, on each branch.
pub data ScheduleResult (n : ℕ) (task : Task) (w : World) (out : TaskHandle × Task × World)
    : Type 0 where
  refused : w.sched.shutting_down ≡ true → out ≡ (no_handle, task, w) → ScheduleResult n task w out
  no_frame :
      w.sched.shutting_down ≡ false
      → task ≡ none
      → out ≡ (no_handle, none, on_error invalid_task w)
      → ScheduleResult n task w out
  no_slot :
      (frame : ℕ)
      → w.sched.shutting_down ≡ false
      → task ≡ some frame
      → Exhausted n w.sched w.sched
      → out ≡ (no_handle, some frame, on_error task_limit w)
      → ScheduleResult n task w out
  scheduled :
      (frame x : ℕ)
      → w.sched.shutting_down ≡ false
      → task ≡ some frame
      → Took n w.sched x (bump x w.sched)
      → out ≡ success w x (adopt x frame none (bump x w.sched))
      → ScheduleResult n task w out

schedule_frame :
    (n frame : ℕ) (w : World)
    → w.sched.shutting_down ≡ false
    → (o : Option ℕ × Scheduler) → acquire_slot n w.sched ≡ o
    → AcquireResult n w.sched o
    → ScheduleResult n (some frame) w (schedule n (some frame) w)
unfolding schedule
schedule_frame n frame w up (none, t) p a =
    no_slot frame up refl (subst (Exhausted n w.sched) a.unchanged a) (
      simp (up, p)
        (ap (λ s. (no_handle, some frame, on_error task_limit (record w { sched = s })))
          a.unchanged))
schedule_frame n frame w up (some x, t) p a =
    scheduled frame x up refl (subst (Took n w.sched x) a.bumped a)
      (simp (up, p) (ap (λ s. success w x (adopt x frame none s)) a.bumped))

-- Every call of `schedule` ends in one of four ways: it is refused while the scheduler shuts down
-- and changes nothing; it reports an empty task, or that no slot can be taken, and leaves the task
-- with the caller; or it takes the frame into the slot that `acquire_slot` chose, with a new
-- generation, and returns that slot and generation.
pub schedule-ScheduleResult :
    (n : ℕ) (task : Task) (w : World) → ScheduleResult n task w (schedule n task w)
unfolding schedule
schedule-ScheduleResult n none w = elim (Bool-cases w.sched.shutting_down) [
  | inl down ↦ refused down (ground (arith, down))
  | inr up ↦ no_frame up refl (ground (arith, up))
]
schedule-ScheduleResult n (some frame) w = elim (Bool-cases w.sched.shutting_down) [
  | inl down ↦ refused down (simp down)
  | inr up ↦
      schedule_frame n frame w up (acquire_slot n w.sched) refl
        (acquire_slot-AcquireResult n w.sched)
]
