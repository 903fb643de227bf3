-- ===== src/Invariant/Kept.antt =====
-- Properties of the scheduler that its operations keep because they hold of generations and timers only:
-- the operations of scheduler.h, one by one.
use simple_await.Base.{
  ℕ, zero, suc, ◌≡◌, ◌≢◌, refl, sym, ap, ◌∙◌, true, Option, none, arith, update, inl, inr,
  Bool-cases, Option-cases, ◌==◌,
}
use simple_await.World.{
  State, Slots, ready, waiting_timer, waiting_local, Scheduler, World, WaitQueue, set_next,
  set_state, decrement, completed,
}
use simple_await.Scheduler.{push_back, pop_front, ready_pop, make_ready, bump}
use simple_await.Scheduler.Ready.{ready_push_rest, ready_push_members}
use simple_await.Scheduler.Acquire.{Took}
use simple_await.Tasks.{adopt}
use simple_await.Time.{compute_deadline}
use simple_await.Waits.{yield_current, wait_on, wake_all, park_running}
use simple_await.Timers.{set_timer, arm_current_timer}
use simple_await.Event
use simple_await.Invariant.{queues}
use simple_await.Invariant.Wake.{wake_all-empty, wake_all_step}

-- A change that makes no slot a timer and leaves the generations, the timers and the cached deadline.
pub record Calm (s t : Scheduler) : Type 0 where
  pub nearest : t.nearest_deadline ≡ s.nearest_deadline
  pub generations : (i : ℕ) → (t.slots i).generation ≡ (s.slots i).generation
  pub timers :
      (i : ℕ)
      → (t.slots i).state ≡ waiting_timer
      → ((s.slots i).state ≡ waiting_timer) × ((t.slots i).deadline_us ≡ (s.slots i).deadline_us)

-- A property that survives such a change, a task in a slot just taken, and a timer.
pub record Kept (n : ℕ) (P : Scheduler → Type 0) : Type 0 where
  pub calm : (s t : Scheduler) → Calm s t → P s → P t
  pub adopted :
      (s : Scheduler) (x frame : ℕ) (parent : Option ℕ)
      → Took n s x (bump x s)
      → P s
      → P (adopt x frame parent (bump x s))
  pub timed : (x deadline : ℕ) (s : Scheduler) → P s → P (set_timer x deadline s)

module _ {n : ℕ} {P : Scheduler → Type 0} (keep : Kept n P) where
  -- A change outside the slots and the cached deadline.
  pub same-Kept :
      (s t : Scheduler) → t.slots ≡ s.slots → t.nearest_deadline ≡ s.nearest_deadline → P s → P t
  same-Kept s t e d = keep.calm s t (record {
    nearest = d;
    generations = λ i. ap (λ (slots : Slots). (slots i).generation) e;
    timers = λ i h. (
      sym (ap (λ (slots : Slots). (slots i).state) e) ∙ h,
      ap (λ (slots : Slots). (slots i).deadline_us) e,
    );
  })

  pub make_ready-Kept : (x : ℕ) (s : Scheduler) → P s → P (make_ready x s)
  unfolding make_ready
  make_ready-Kept x s =
      let t : Scheduler = record s { slots = set_state s.slots x ready } in
      let p = ready_push_rest x t in
      keep.calm s (make_ready x s) (record {
        nearest = (ready_push_members x t).7;
        generations = λ i. (p i).4 ∙ ground arith;
        timers = λ i e.
            let old : (t.slots i).state ≡ waiting_timer = sym (p i).0 ∙ e in
            (ground (arith, old), (p i).3 ∙ ground (arith, old));
      })

  -- The state of one slot is written, and it is not made a timer.
  pub set_state-Kept :
      (s : Scheduler) (x : ℕ) (k : State)
      → k ≢ waiting_timer
      → P s
      → P (record s { slots = set_state s.slots x k })
  set_state-Kept s x k other =
      keep.calm s (record s { slots = set_state s.slots x k })
        (record {
          nearest = refl;
          generations = λ i. ground arith;
          timers = λ i e. (ground (arith, e, other), ground (arith, e, other));
        })

  -- `pop_front` writes a link only.
  popped-Kept :
      (s : Scheduler) (x : ℕ) (p : Option ℕ) → P s → P (record s { slots = set_next s.slots x p })
  popped-Kept s x p =
      keep.calm s (record s { slots = set_next s.slots x p })
        (record {
          nearest = refl;
          generations = λ i. ground arith;
          timers = λ i e. (ground (arith, e), ground arith);
        })

  pub wake_all-Kept : (fuel : ℕ) (q : WaitQueue) (s : Scheduler) → P s → P (wake_all fuel q s).1
  unfolding wake_all pop_front
  wake_all-Kept zero q s old = old
  wake_all-Kept (suc fuel) q s old = elim (Option-cases q.head) [
    | inl e ↦ rw (wake_all-empty fuel q s e) old
    | inr (x, e) ↦
        rw (wake_all_step fuel q s x e)
          (wake_all-Kept fuel _ _ (make_ready-Kept x _ (popped-Kept s x none old)))
  ]

  pub yield_current-Kept : (s : Scheduler) → P s → P (yield_current s)
  unfolding yield_current
  yield_current-Kept s old = elim (Option-cases s.current) [
    | inl e ↦ let q : yield_current s ≡ s = ground arith in rw q old
    | inr (x, e) ↦
        let q : yield_current s ≡ make_ready x s = ground arith in rw q (make_ready-Kept x s old)
  ]

  pub arm-Kept : (d : ℕ) (w : World) → P w.sched → P (arm_current_timer d w).sched
  unfolding arm_current_timer
  arm-Kept d w old = elim (Option-cases w.sched.current) [
    | inl e ↦ let q : (arm_current_timer d w).sched ≡ w.sched = ground arith in rw q old
    | inr (x, e) ↦ elim (Bool-cases (d == 0)) [
      | inl z ↦
          let q : (arm_current_timer d w).sched ≡ yield_current w.sched = ground arith in
          rw q (yield_current-Kept w.sched old)
      | inr nz ↦ elim (Bool-cases (compute_deadline w.sched.now d 0).0) [
        | inl fits ↦
            let t = (compute_deadline w.sched.now d 0).1 in
            let q : (arm_current_timer d w).sched ≡ set_timer x t w.sched = ground arith in
            rw q (keep.timed x t w.sched old)
        | inr over ↦
            let q : (arm_current_timer d w).sched ≡ yield_current w.sched = ground arith in
            rw q (yield_current-Kept w.sched old)
      ]
    ]
  ]

  pushed_back-Kept :
      (s : Scheduler) (q : WaitQueue) (x : ℕ)
      → P s
      → P (record s { slots = (push_back (set_state s.slots x waiting_local) q x).0 })
  unfolding push_back
  pushed_back-Kept s q x =
      keep.calm s (record s { slots = (push_back (set_state s.slots x waiting_local) q x).0 })
        (record {
          nearest = refl;
          generations = λ i. ground arith;
          timers = λ i e. (ground arith, ground arith);
        })

  pub event_wait-Kept :
      (e awaiting : ℕ) (w : World) {u : World}
      → Event.wait e awaiting w ≡ (true, u)
      → P w.sched
      → P u.sched
  unfolding Event.wait wait_on
  event_wait-Kept e awaiting w {u} h old = elim (Option-cases w.sched.current) [
    | inl q ↦ absurd (ground arith)
    | inr (x, q) ↦
        let pushed = (push_back (set_state w.sched.slots x waiting_local) (queues w e) x).0 in
        let p : u.sched ≡ record (w.sched) { slots = pushed } = ground arith in
        rw p (pushed_back-Kept w.sched (queues w e) x old)
  ]

  pub park_running-Kept : (s : Scheduler) → P s → P (park_running s).1
  unfolding park_running
  park_running-Kept s old = elim (Option-cases s.current) [
    | inl e ↦ let q : (park_running s).1 ≡ s = ground arith in rw q old
    | inr (x, e) ↦
        let q : (park_running s).1 ≡ record s { slots = set_state s.slots x waiting_local } =
          ground arith in
        rw q (set_state-Kept s x waiting_local (λ k. ground arith) old)
  ]

  -- `ready_pop` writes a link only.
  pub unpopped-Kept : (s : Scheduler) → P s → P (ready_pop s).1
  unfolding ready_pop
  unpopped-Kept s old = elim (Option-cases s.ready_head) [
    | inl e ↦ let q : (ready_pop s).1 ≡ s = ground arith in rw q old
    | inr (x, e) ↦
        keep.calm s (ready_pop s).1
          (record {
            nearest = ground arith;
            generations = λ i. ground arith;
            timers = λ i h. (ground arith, ground arith);
          })
          old
  ]

  pub completed-Kept :
      (x : ℕ) (s : Scheduler)
      → P s
      → P (record s {
        slots =
            update s.slots x
              (record (s.slots x) { handle = none; parent = none; state = completed });
        active_count = decrement s.active_count;
      })
  completed-Kept x s = keep.calm s _ (record {
    nearest = refl;
    generations = λ i. ground arith;
    timers = λ i e. (ground (arith, e), ground (arith, e));
  })
