-- ===== src/Device/Passes.antt =====
-- The rest of a pass of scheduler.h, behind the poll for external signals, is a sequence of steps, so
-- that it signals, waits for and destroys flags at any point of it.
use simple_await.Base.{
  ℕ, zero, suc, ◌≡◌, refl, sym, ◌∙◌, ap, Option, none, some, ◌∷◌, inl, inr, Bool-cases,
  Option-cases,
}
use simple_await.World.{
  World, Coroutines, destroy, is_ready, is_running, is_waiting_child, Scheduler,
}
use simple_await.Scheduler.{ready_pop}
use simple_await.Timers.{process_due_timers}
use simple_await.Pass.{
  resume_slot, retire_slot, wake_parent, complete_slot, run_slot, run_ready, run_budget, run_pass,
  is_done,
}
use simple_await.Pass.Poll.{left_poll}
use simple_await.Pass.Slot.{
  begun, resume_slot-none, resume_slot-some, run_slot-done, run_slot-bare, run_slot-waits,
}
use simple_await.Pass.Run.{run_budget-none, run_budget-some}
use simple_await.Device.{Semaphore, Device}
use simple_await.Device.Steps.{elsewhere, Steps, done, after}

-- From `d`, some steps lead to a device in the world `w`.
pub record Goes {S : Type 0} (b : Semaphore S) (d : Device S) (w : World) : Type 0 where
  pub reached : Device S
  pub there : reached.world ≡ w
  pub steps : Steps b d reached

-- User code uses flags by the steps of `Step`, signals that come meanwhile included.
pub record Behaves {S : Type 0} (b : Semaphore S) (c : Coroutines) : Type 0 where
  pub resumes : (frame : ℕ) (d : Device S) → Goes b d (c.resume frame d.world)
  pub releases : (frame : ℕ) (d : Device S) → Goes b d (c.release frame d.world)

module _ {S : Type 0} (b : Semaphore S) where
  pub Steps-trans : {d e u : Device S} → Steps b d e → Steps b e u → Steps b d u
  Steps-trans ss (done e) = ss
  Steps-trans ss (after ts t) = after (Steps-trans ss ts) t

  -- What leaves flags, armed list and mark is a step.
  Goes-elsewhere :
      (d : Device S) (w v : World)
      → v.flags ≡ w.flags
      → v.armed_head ≡ w.armed_head
      → v.pending ≡ w.pending
      → Goes b d w
      → Goes b d v
  Goes-elsewhere d w v f h p g = record {
    reached = record (g.reached) { world = v };
    there = refl;
    steps = after g.steps (
        elsewhere g.reached v (f ∙ ap (λ (x : World). x.flags) (sym g.there))
          (h ∙ ap (λ (x : World). x.armed_head) (sym g.there))
          (p ∙ ap (λ (x : World). x.pending) (sym g.there)));
  }

  -- The scheduler's members are no flags.
  Goes-sched :
      (d : Device S) (w : World) (s : Scheduler) → Goes b d w → Goes b d (record w { sched = s })
  Goes-sched d w s g = Goes-elsewhere d w (record w { sched = s }) refl refl refl g

  Goes-follow :
      (d : Device S) (w : World) (change : World → World)
      → ((e : Device S) → Goes b e (change e.world))
      → Goes b d w
      → Goes b d (change w)
  Goes-follow d w change k g =
      let n = k g.reached in
      record {
        reached = n.reached;
        there = n.there ∙ ap change g.there;
        steps = Steps-trans g.steps n.steps;
      }

  module _ (c : Coroutines) (k : Behaves b c) (d : Device S) where
    destroyed-Goes : (frame : ℕ) (w : World) → Goes b d w → Goes b d (destroy c frame w)
    destroyed-Goes frame w g =
        let logged : World = record w { destroyed = frame ∷ w.destroyed } in
        Goes-follow d logged (c.release frame) (k.releases frame)
          (Goes-elsewhere d w logged refl refl refl g)

    resumed-Goes : (x : ℕ) (w : World) → Goes b d w → Goes b d (resume_slot c x w)
    resumed-Goes x w g =
        let g' = Goes-elsewhere d w (begun x w) refl refl refl g in
        elim (Option-cases (w.sched.slots x).handle) [
          | inl h ↦ rw (resume_slot-none c x w h) (Goes-sched d (begun x w) _ g')
          | inr (frame, h) ↦ rw (resume_slot-some c x frame w h) (
              Goes-sched d (c.resume frame (begun x w)) _
                (Goes-follow d (begun x w) (c.resume frame) (k.resumes frame) g'))
        ]

    retired-Goes : (x : ℕ) (w : World) → Goes b d w → Goes b d (retire_slot c x w)
    unfolding retire_slot
    retired-Goes x w g = elim (Option-cases (w.sched.slots x).handle) [
      | inl h ↦ simp h (Goes-sched d w _ g)
      | inr (frame, h) ↦ simp h (Goes-sched d (destroy c frame w) _ (destroyed-Goes frame w g))
    ]

    waked_parent-Goes : (p : Option ℕ) (w : World) → Goes b d w → Goes b d (wake_parent p w)
    unfolding wake_parent
    waked_parent-Goes none w g = g
    waked_parent-Goes (some p) w g = elim (Bool-cases (is_waiting_child (w.sched.slots p).state)) [
      | inl h ↦ simp h (Goes-sched d w _ g)
      | inr h ↦ simp h g
    ]

    run_slot-Goes : (x : ℕ) (w : World) → Goes b d w → Goes b d (run_slot c x w)
    unfolding complete_slot
    run_slot-Goes x w g =
        let u = resume_slot c x w in
        let g' = resumed-Goes x w g in
        elim (Bool-cases (is_done c (u.sched.slots x).handle u)) [
          | inl h ↦
              rw (run_slot-done c x w h)
                (waked_parent-Goes (u.sched.slots x).parent _ (retired-Goes x u g'))
          | inr h ↦ elim (Bool-cases (is_running (u.sched.slots x).state)) [
            | inl r ↦ rw (run_slot-bare c x w h r) (Goes-sched d u _ g')
            | inr r ↦ rw (run_slot-waits c x w h r) g'
          ]
        ]

    run_ready-Goes : (x : ℕ) (w : World) → Goes b d w → Goes b d (run_ready c x w)
    unfolding run_ready
    run_ready-Goes x w g = elim (Bool-cases (is_ready (w.sched.slots x).state)) [
      | inl h ↦ simp h (run_slot-Goes x w g)
      | inr h ↦ simp h g
    ]

    run_budget-Goes : (left : ℕ) (w : World) → Goes b d w → Goes b d (run_budget c left w)
    unfolding run_budget
    run_budget-Goes zero w g = g
    run_budget-Goes (suc left) w g = elim (Option-cases (ready_pop w.sched).0) [
      | inl e ↦ rw (run_budget-none c left w e) (Goes-sched d w _ g)
      | inr (x, e) ↦ rw (run_budget-some c left x w e) (
          run_budget-Goes left _
            (run_ready-Goes x (record w { sched = (ready_pop w.sched).1 }) (Goes-sched d w _ g)))
    ]

    run_pass-Goes : (w : World) → Goes b d w → Goes b d (run_pass c w)
    unfolding run_pass
    run_pass-Goes w g = run_budget-Goes w.sched.ready_count w g

-- What `run_poll_pass` does behind `poll_external_signals`.
abbrev pub rest_of_pass : Coroutines → ℕ → World → World
rest_of_pass c max_tasks w =
    left_poll (run_pass c (record w { sched = process_due_timers max_tasks w.sched }))

-- With user code that uses flags by the steps of `Step`: from any device, the rest of the pass is a
-- sequence of the steps of `Step`.
pub rest-Goes :
    {S : Type 0} (b : Semaphore S) (c : Coroutines)
    → Behaves b c
    → (max_tasks : ℕ) (d : Device S) → Goes b d (rest_of_pass c max_tasks d.world)
rest-Goes b c k max_tasks d =
    let timed : World = record (d.world) { sched = process_due_timers max_tasks d.world.sched } in
    let start : Goes b d d.world = record { reached = d; there = refl; steps = done d } in
    Goes-sched b d (run_pass c timed) _
      (run_pass-Goes b c k d timed (Goes-sched b d d.world _ start))
