-- ===== src/Pass/Kept.antt =====
-- Properties of the scheduler that its operations keep because they hold of generations and timers only:
-- the calls that user code makes, and the pass.
use simple_await.Base.{
  ℕ, zero, suc, ◌≡◌, ◌≢◌, refl, sym, subst, Bool, true, Option, none, some, ◌∷◌, arith, inl, inr,
  Bool-cases, Option-cases,
}
use simple_await.World.{
  set_state, waiting_child, running, suspended, Scheduler, World, Coroutines, destroy, is_ready,
  is_running, is_waiting_child,
}
use simple_await.Scheduler.{ready_pop, bump, acquire_slot}
use simple_await.Scheduler.Acquire.{acquire_slot-AcquireResult}
use simple_await.Tasks.{Task, TaskHandle, adopt, schedule, start_child_await}
use simple_await.Tasks.Schedule.{
  ScheduleResult, schedule-ScheduleResult, refused, no_frame, no_slot, scheduled,
}
use simple_await.Waits.{wake_slot}
use simple_await.Event
use simple_await.Invariant.Kept.{
  Kept, same-Kept, make_ready-Kept, set_state-Kept, wake_all-Kept, yield_current-Kept, arm-Kept,
  event_wait-Kept, park_running-Kept, unpopped-Kept, completed-Kept,
}
use simple_await.Invariant.{queues}
use simple_await.Invariant.Effects.{Effect, Effects, schedules, sets, wakes, quiet, here, next}
use simple_await.Pass.{
  resume_slot, retire_slot, wake_parent, complete_slot, run_slot, run_ready, run_budget, run_pass,
  is_done,
}
use simple_await.Pass.Slot.{
  begun, resume_slot-none, resume_slot-some, run_slot-done, run_slot-bare, run_slot-waits,
}
use simple_await.Pass.Run.{run_budget-none, run_budget-some}
use simple_await.Pass.Body.{child_cases}
use simple_await.Pass.Contract.{
  Suspension, yields, delays, awaits_child, awaits_event, parks, bare, Cooperative, Ran, finishes,
  suspends, stopped,
}

module _ {n : ℕ} {P : Scheduler → Type 0} (keep : Kept n P) where
  schedule-Kept : (task : Task) (w : World) → P w.sched → P (schedule n task w).2.sched
  schedule-Kept task w old = by_result (schedule n task w) (schedule-ScheduleResult n task w)
    where
      by_result : (out : TaskHandle × Task × World) → ScheduleResult n task w out → P out.2.sched
      by_result out (refused d e) = rw e old
      by_result out (no_frame d f e) = rw e old
      by_result out (no_slot frame d f x e) = rw e old
      by_result out (scheduled frame y d f k e) = rw e (keep.adopted w.sched y frame none k old)

  pub Effect-Kept : {w u : World} → Effect n w u → P w.sched → P u.sched
  unfolding Event.set wake_slot
  Effect-Kept {w} (schedules task) old = schedule-Kept task w old
  Effect-Kept {w} (sets e) old = wake_all-Kept keep (suc n) (queues w e) w.sched old
  Effect-Kept {w} (wakes y local alone) old = make_ready-Kept keep y w.sched old
  Effect-Kept (quiet u s q m) old = subst P (sym s) old

  Effects-Kept : {w u : World} → Effects n w u → P w.sched → P u.sched
  Effects-Kept here old = old
  Effects-Kept (next s e) old = Effect-Kept e (Effects-Kept s old)

module _ {n : ℕ} {P : Scheduler → Type 0} (keep : Kept n P) (c : Coroutines)
    (k : Cooperative n c) where
  destroyed-Kept : (frame : ℕ) (w : World) → P w.sched → P (destroy c frame w).sched
  destroyed-Kept frame w old =
      Effects-Kept keep (k.releases frame (record w { destroyed = frame ∷ w.destroyed })) old

  no_child_await :
      (child awaiting : ℕ) (w : World) {u : World}
      → w.sched.current ≡ none
      → start_child_await c n child awaiting w ≢ (true, u)
  unfolding start_child_await
  no_child_await child awaiting w e h = ground arith

  child-Kept :
      (child awaiting : ℕ) (w : World) {u : World}
      → start_child_await c n child awaiting w ≡ (true, u)
      → P w.sched
      → P u.sched
  child-Kept child awaiting w {u} h old = elim (Option-cases w.sched.current) [
    | inl none_runs ↦ absurd (no_child_await child awaiting w none_runs h)
    | inr (x, at) ↦
        elim (child_cases at c child awaiting (acquire_slot n w.sched) refl
          (acquire_slot-AcquireResult n w.sched) h) [
            | inl e ↦
                rw e (make_ready-Kept keep x (destroy c child w).sched (destroyed-Kept child w old))
            | inr (y, took, e) ↦ rw e (
                set_state-Kept keep (adopt y child (some x) (bump y w.sched)) x waiting_child
                  (λ k. ground arith) (keep.adopted w.sched y child (some x) took old))
          ]
  ]

  Suspension-Kept : {w u : World} → Suspension n c w u → P w.sched → P u.sched
  Suspension-Kept {w} (yields e) old = rw e (yield_current-Kept keep w.sched old)
  Suspension-Kept {w} (delays d e) old = rw e (arm-Kept keep d w old)
  Suspension-Kept {w} (awaits_child child awaiting e) old = child-Kept child awaiting w e old
  Suspension-Kept {w} (awaits_event i awaiting e) old = event_wait-Kept keep i awaiting w e old
  Suspension-Kept {w} (parks s q m) old = subst P (sym s) (park_running-Kept keep w.sched old)
  Suspension-Kept (bare e) old = rw e old

  resumed-Kept : (x : ℕ) (w : World) → P w.sched → P (resume_slot c x w).sched
  resumed-Kept x w old =
      let s = record (w.sched) { slots = set_state w.sched.slots x running } in
      let old' : P (begun x w).sched =
        same-Kept keep s (begun x w).sched refl refl
          (set_state-Kept keep w.sched x running (λ q. ground arith) old) in
      elim (Option-cases (w.sched.slots x).handle) [
        | inl h ↦
            rw (resume_slot-none c x w h)
              (same-Kept keep (begun x w).sched (stopped (begun x w)).sched refl refl old')
        | inr (frame, h) ↦ rw (resume_slot-some c x frame w h) (
            by_end frame (c.resume frame (begun x w)) old'
              (k.resumes x frame (begun x w) refl (ground arith) (ground arith)))
      ]
    where
      by_end :
          (frame : ℕ) (u : World) {t : Bool}
          → P (begun x w).sched
          → Ran n c (begun x w) u t
          → P (stopped u).sched
      by_end frame u old (finishes d f) =
          same-Kept keep u.sched (stopped u).sched refl refl (Effects-Kept keep f old)
      by_end frame u old (suspends m d f q) =
          same-Kept keep u.sched (stopped u).sched refl refl
            (Suspension-Kept q (Effects-Kept keep f old))

  retired-Kept : (x : ℕ) (w : World) → P w.sched → P (retire_slot c x w).sched
  unfolding retire_slot
  retired-Kept x w old = elim (Option-cases (w.sched.slots x).handle) [
    | inl h ↦ simp h (completed-Kept keep x w.sched old)
    | inr (frame, h) ↦
        simp h (completed-Kept keep x (destroy c frame w).sched (destroyed-Kept frame w old))
  ]

  waked_parent-Kept : (p : Option ℕ) (w : World) → P w.sched → P (wake_parent p w).sched
  unfolding wake_parent
  waked_parent-Kept none w old = old
  waked_parent-Kept (some p) w old = elim (Bool-cases (is_waiting_child (w.sched.slots p).state)) [
    | inl h ↦ simp h (make_ready-Kept keep p w.sched old)
    | inr h ↦ simp h old
  ]

  run_slot-Kept : (x : ℕ) (w : World) → P w.sched → P (run_slot c x w).sched
  unfolding complete_slot
  run_slot-Kept x w old =
      let u = resume_slot c x w in
      let old' = resumed-Kept x w old in
      elim (Bool-cases (is_done c (u.sched.slots x).handle u)) [
        | inl h ↦
            rw (run_slot-done c x w h)
              (waked_parent-Kept (u.sched.slots x).parent _ (retired-Kept x u old'))
        | inr h ↦ elim (Bool-cases (is_running (u.sched.slots x).state)) [
          | inl r ↦
              rw (run_slot-bare c x w h r)
                (set_state-Kept keep u.sched x suspended (λ q. ground arith) old')
          | inr r ↦ rw (run_slot-waits c x w h r) old'
        ]
      ]

  run_ready-Kept : (x : ℕ) (w : World) → P w.sched → P (run_ready c x w).sched
  unfolding run_ready
  run_ready-Kept x w old = elim (Bool-cases (is_ready (w.sched.slots x).state)) [
    | inl h ↦ simp h (run_slot-Kept x w old)
    | inr h ↦ simp h old
  ]

  run_budget-Kept : (left : ℕ) (w : World) → P w.sched → P (run_budget c left w).sched
  unfolding run_budget
  run_budget-Kept zero w old = old
  run_budget-Kept (suc left) w old = elim (Option-cases (ready_pop w.sched).0) [
    | inl e ↦ rw (run_budget-none c left w e) (unpopped-Kept keep w.sched old)
    | inr (x, e) ↦ rw (run_budget-some c left x w e) (
        run_budget-Kept left _ (
          run_ready-Kept x (record w { sched = (ready_pop w.sched).1 })
            (unpopped-Kept keep w.sched old)))
  ]

  pub run_pass-Kept : (w : World) → P w.sched → P (run_pass c w).sched
  unfolding run_pass
  run_pass-Kept w old = run_budget-Kept w.sched.ready_count w old
