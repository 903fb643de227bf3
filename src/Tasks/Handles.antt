-- ===== src/Tasks/Handles.antt =====
-- The handle of task.h that `schedule` of scheduler.h returns.
use simple_await.Base.{
  ℕ, ◌+◌, ◌∙◌, ◌%◌, ◌^◌, ◌≤◌, ◌≡◌, refl, true, false, Option, none, some, arith, update,
}
use simple_await.Time.{uint32_max}
use simple_await.World.{ready, Scheduler, World, increment}
use simple_await.Scheduler.{bump}
use simple_await.Scheduler.Acquire.{Took}
use simple_await.Scheduler.Ready.{ready_push_rest}
use simple_await.Tasks.{
  Task, TaskHandle, index_of, adopt, schedule, handle_valid, handle_done, valid, done,
}
use simple_await.Tasks.Schedule.{
  ScheduleResult, refused, no_frame, no_slot, scheduled, schedule-ScheduleResult,
}

adopted_slot :
    (s : Scheduler) (x frame : ℕ) (parent : Option ℕ)
    → let t = adopt x frame parent (bump x s) in
      ((t.slots x).state ≡ ready) × ((t.slots x).generation ≡ increment (s.slots x).generation)
unfolding adopt bump
adopted_slot s x frame parent =
    let p =
      ready_push_rest x
        (record s {
          slots = update s.slots x (record (s.slots x) {
            generation = increment (s.slots x).generation;
            handle = some frame;
            state = ready;
            next = none;
            parent = parent;
          });
        })
        x in
    (ground (arith, p.0), ground (arith, p.4))

-- A handle made for a slot just taken is valid and not done.
fresh_handle :
    (n : ℕ) (w : World) (x frame : ℕ)
    → Took n w.sched x (bump x w.sched)
    → let s = adopt x frame none (bump x w.sched) in
      let h : TaskHandle = record {
        bound = true;
        id = record { slot = x; generation = (s.slots x).generation };
      } in
      (valid n s h ≡ true) × (done n s h ≡ false)
unfolding valid done handle_valid handle_done
fresh_handle n w x frame k =
    let a = adopted_slot w.sched x frame none in
    (ground (arith, a.0, a.1, k.below), ground (arith, a.0, a.1, k.below))

-- What a bound handle tells after the call that made it: its generation is a new one.
abbrev pub HandleFacts : ℕ → World → TaskHandle × Task × World → Type 0
HandleFacts n w (h, left, u) =
    (valid n u.sched h ≡ true)
    × (done n u.sched h ≡ false)
    × (h.id.generation ≡ (w.sched.slots h.id.slot).generation + 1)
    × ((u.sched.slots h.id.slot).generation ≡ h.id.generation)

result_facts :
    (n : ℕ) (task : Task) (w : World) (out : TaskHandle × Task × World)
    → n ≤ 2 ^ 16
    → ((i : ℕ) → (w.sched.slots i).generation ≤ uint32_max)
    → ScheduleResult n task w out
    → out.0.bound ≡ true
    → HandleFacts n w out
unfolding index_of
result_facts n task w out limit bound (refused d e) b = absurd (ground arith)
result_facts n task w out limit bound (no_frame d f e) b = absurd (ground arith)
result_facts n task w out limit bound (no_slot frame d f x e) b = absurd (ground arith)
result_facts n task w out limit bound (scheduled frame x d f k e) b =
    let i : x % 2 ^ 16 ≡ x = omega (arith, k.below) in
    let new = fresh_handle n w x frame k in
    let a = adopted_slot w.sched x frame none in
    let up : increment (w.sched.slots x).generation ≡ (w.sched.slots x).generation + 1 =
      ground (arith, bound x, k.fresh) in
    rw (e, i) (new.0, new.1, a.1 ∙ up, refl)

-- Of at most 2 ^ 16 slots whose generations are 32-bit words: the handle that `schedule` returns for
-- an accepted task is valid and not done, and has the next generation of its slot.
pub schedule-HandleFacts :
    (n : ℕ) (task : Task) (w : World)
    → n ≤ 2 ^ 16
    → ((i : ℕ) → (w.sched.slots i).generation ≤ uint32_max)
    → (schedule n task w).0.bound ≡ true
    → HandleFacts n w (schedule n task w)
schedule-HandleFacts n task w limit bound b =
    result_facts n task w (schedule n task w) limit bound (schedule-ScheduleResult n task w) b
