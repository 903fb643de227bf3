-- ===== src/Pass/Active.antt =====
-- `active_count_` of scheduler.h during a pass: it counts the slots that hold a task.
use simple_await.Base.{
  ℕ, ◌≡◌, ◌≢◌, refl, sym, ◌∙◌, ap, subst, true, some, List, ◌∷◌, arith, inl, inr,
}
use simple_await.World.{
  running, waiting_local, waiting_child, World, Coroutines, set_state, destroy,
}
use simple_await.Scheduler.{push_back, make_ready, bump, acquire_slot}
use simple_await.Scheduler.Fifo.{push_back_rest}
use simple_await.Scheduler.Acquire.{Took, acquire_slot-AcquireResult}
use simple_await.Tasks.{adopt, start_child_await}
use simple_await.Waits.{yield_current, wait_on, park_running}
use simple_await.Timers.{set_timer}
use simple_await.Event
use simple_await.Invariant.{Inv, queues}
use simple_await.Invariant.Adopt.{adopt-Adopted}
use simple_await.Invariant.Effects.{quiet-Inv}
use simple_await.Invariant.Active.{
  is_occupied, Counted, same-Counted, set_state-Counted, make_ready-Counted, adopt-Counted,
  Effects-Counted,
}
use simple_await.Pass.Contract.{
  Suspension, yields, delays, awaits_child, awaits_event, parks, bare, Cooperative,
}
use simple_await.Pass.Body.{child_cases, exhausted_child, adopted_child, arm_cases, destroyed-Grown}

module _ {n : ℕ} {w : World} {r : List ℕ} {ws : ℕ → List ℕ} (v : Inv n w r ws) (x : ℕ)
    (at : w.sched.current ≡ some x) (active : (w.sched.slots x).state ≡ running)
    (c : Counted n w.sched) where
  readied-Counted : Counted n (make_ready x w.sched)
  readied-Counted = make_ready-Counted n x w.sched (ap is_occupied active) c

  yielded-Counted : Counted n (yield_current w.sched)
  unfolding yield_current
  yielded-Counted =
      let q : yield_current w.sched ≡ make_ready x w.sched = ground arith in rw q readied-Counted

  timed-Counted : (deadline : ℕ) → Counted n (set_timer x deadline w.sched)
  unfolding set_timer
  timed-Counted deadline =
      same-Counted n w.sched (set_timer x deadline w.sched) refl (λ i. ground (arith, active)) c

  parked-Counted : Counted n (park_running w.sched).1
  unfolding park_running
  parked-Counted =
      let q : (park_running w.sched).1
          ≡ record (w.sched) { slots = set_state w.sched.slots x waiting_local } =
        ground arith in
      rw q (set_state-Counted n w.sched x waiting_local (ap is_occupied active) refl c)

  on_event-Counted :
      (e awaiting : ℕ) {u : World} → Event.wait e awaiting w ≡ (true, u) → Counted n u.sched
  unfolding Event.wait wait_on
  on_event-Counted e awaiting {u} h =
      let pushed = (push_back (set_state w.sched.slots x waiting_local) (queues w e) x).0 in
      let q : u.sched ≡ record (w.sched) { slots = pushed } = ground arith in
      rw q (
        same-Counted n w.sched (record (w.sched) { slots = pushed }) refl
          (λ i.
            ap is_occupied
              (push_back_rest (set_state w.sched.slots x waiting_local) (queues w e) x i).0
            ∙ ground (arith, active))
          c)

  module _ (co : Coroutines) (k : Cooperative n co) where
    exhausted-Counted : (child : ℕ) → Counted n (exhausted_child co child x w).sched
    exhausted-Counted child =
        let logged : World = record w { destroyed = child ∷ w.destroyed } in
        let s = (destroyed-Grown co child k.releases v active).1 in
        make_ready-Counted n x (destroy co child w).sched (ap is_occupied s.state) (
          Effects-Counted (quiet-Inv {w = w} logged refl (λ e. refl) v) active
            (k.releases child logged) c)

    adopted-Counted :
        (child y : ℕ)
        → Took n w.sched y (bump y w.sched)
        → Counted n (adopted_child child x y w).sched
    adopted-Counted child y took =
        let a = adopt-Adopted w.sched y child (some x) in
        let ne : x ≢ y = λ e. ground (arith, took.lowest) in
        set_state-Counted n (adopt y child (some x) (bump y w.sched)) x waiting_child
          (ap is_occupied (a.state_out x ne ∙ active)) refl
          (adopt-Counted n y child (some x) w.sched v.fifo.limit took c)

    child-Counted :
        (child awaiting : ℕ) {u : World}
        → start_child_await co n child awaiting w ≡ (true, u)
        → Counted n u.sched
    child-Counted child awaiting {u} h =
        elim (child_cases at co child awaiting (acquire_slot n w.sched) refl
          (acquire_slot-AcquireResult n w.sched) h) [
            | inl e ↦ rw e (exhausted-Counted child)
            | inr (y, took, e) ↦ rw e (adopted-Counted child y took)
          ]

    pub Suspension-Counted : {u : World} → Suspension n co w u → Counted n u.sched
    Suspension-Counted (yields e) = rw e yielded-Counted
    Suspension-Counted (delays d e) = elim (arm_cases v x at active d) [
      | inl (calls, h) ↦ rw (e, h) readied-Counted
      | inr (deadline, h) ↦ rw (e, h) (timed-Counted deadline)
    ]
    Suspension-Counted (awaits_child child awaiting e) = child-Counted child awaiting e
    Suspension-Counted (awaits_event e awaiting h) = on_event-Counted e awaiting h
    Suspension-Counted (parks s q m) = subst (Counted n) (sym s) parked-Counted
    Suspension-Counted (bare e) = rw e c
