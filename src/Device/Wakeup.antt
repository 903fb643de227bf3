-- ===== src/Device/Wakeup.antt =====
-- The wait of `poll_and_wait` (detail/platform_idle.h, scheduler.h) is not entered, or ends, when an
-- armed flag is signalled.
use simple_await.Base.{
  ℕ, ◌≡◌, ◌≢◌, refl, ◌∙◌, ap, subst, Bool, true, false, Option, none, some, List, [], ◌∷◌, is_some,
  arith, inl, inr, ◌⊎◌, Bool-cases, ◌==◌,
}
use simple_await.Time.{uint64_max}
use simple_await.World.{World}
use simple_await.Flag.{has_external_waiters}
use simple_await.Flag.Arming.{Arming}
use simple_await.Pass
use simple_await.Idle.{Rtos, Blocking, no_wait, platform_ticks_until, platform_wait_until}
use simple_await.Device.{
  Semaphore, IsBinary, Device, Signal, call_wake, signal, platform_prepare_scheduler_wait,
  poll_interrupted, idle_wait, has_token, returns_at_once,
}
use simple_await.Device.Signals.{wakes}
use simple_await.Device.Steps.{Steps, Steps-Guarded}
use simple_await.Device.Cycle.{Fits, Reached, prepared-Guarded, polled-Guarded, Reached-Guarded}

module _ {S : Type 0} (b : Semaphore S) (law : IsBinary b) where
  armed_first :
      (w : World) (l : List ℕ) (f : ℕ)
      → Arming w l
      → is_some (w.flags f).waiter ≡ true
      → is_some w.armed_head ≡ true
  armed_first w [] f a n = absurd (ground (arith, a.member f))
  armed_first w (g ∷ l) f a n = ap is_some a.linked.0

  -- A call of `platform_wake_scheduler` that is due.
  waked_token :
      (in_isr : Bool) (d : Device S)
      → d.waking ≢ 0
      → is_some d.scheduler_wake ≡ true
      → (has_token b (signal b (call_wake in_isr) d).scheduler_wake ≡ true)
        × (is_some (signal b (call_wake in_isr) d).scheduler_wake ≡ true)
        × ((signal b (call_wake in_isr) d).world ≡ d.world)
  unfolding signal
  waked_token in_isr d h p =
      let k = wakes b law in_isr d.scheduler_wake in
      elim (Bool-cases (d.waking == 0)) [
        | inl e ↦ absurd (ground arith)
        | inr e ↦ rw e (k.1 p, k.0 ∙ p, refl)
      ]

  wait_for_work_idle :
      (w : World)
      → (w.sched.ready_count == 0) ≡ true
      → is_some w.armed_head ≡ true
      → Pass.wait_for_work w ≡ some (w.sched.nearest_deadline, true)
  unfolding Pass.wait_for_work has_external_waiters
  wait_for_work_idle w z h = ground (arith, z, h)

  wait_for_work_busy :
      (w : World) → (w.sched.ready_count == 0) ≡ false → Pass.wait_for_work w ≡ none
  unfolding Pass.wait_for_work
  wait_for_work_busy w z = ground (arith, z)

  module _ (os : Rtos) (now : ℕ) (d : Device S) (token : has_token b d.scheduler_wake ≡ true) where
    blocking : Option (ℕ × Bool) → Blocking
    blocking o = elim o [
      | none ↦ no_wait
      | some (deadline, wakeable) ↦
          platform_wait_until os (is_some d.scheduler_wake) now deadline wakeable
    ]

    idle_step :
        {deadline : ℕ}
        → is_some d.scheduler_wake ≡ true
        → Pass.wait_for_work d.world ≡ some (deadline, true)
        → idle_wait b os now d ≡ platform_wait_until os true now deadline true
    unfolding idle_wait blocking
    idle_step {deadline} p e =
        ap blocking e ∙ ap (λ k. platform_wait_until os k now deadline true) p

    idle_none : Pass.wait_for_work d.world ≡ none → idle_wait b os now d ≡ no_wait
    unfolding idle_wait blocking
    idle_none e = ap blocking e

    -- A wait that an external signal can end is not the wait of one tick.
    platform_wait_returns :
        (deadline : ℕ) → returns_at_once b (platform_wait_until os true now deadline true) d ≡ true
    unfolding platform_wait_until
    platform_wait_returns deadline = elim (Bool-cases (deadline == uint64_max)) [
      | inl e ↦ elim (Bool-cases (platform_ticks_until os now deadline == 0)) [
        | inl z ↦ simp (e, z) refl
        | inr z ↦ simp (e, z) token
      ]
      | inr e ↦ elim (Bool-cases (platform_ticks_until os now deadline == 0)) [
        | inl z ↦ simp (e, z) refl
        | inr z ↦ simp (e, z) token
      ]
    ]

    awake_if :
        is_some d.scheduler_wake ≡ true
        → is_some d.world.armed_head ≡ true
        → returns_at_once b (idle_wait b os now d) d ≡ true
    awake_if p h = elim (Bool-cases (d.world.sched.ready_count == 0)) [
      | inl z ↦
          rw (idle_step p (wait_for_work_idle d.world z h))
            (platform_wait_returns d.world.sched.nearest_deadline)
      | inr z ↦ rw (idle_none (wait_for_work_busy d.world z)) refl
    ]

  -- With a binary semaphore, from any device that a program reaches, with at most `max_tasks` armed
  -- flags: the wait is prepared and external signals are polled, with steps of other contexts in
  -- between, and any number of steps follow, up to the platform wait or during it. If a flag with a
  -- waiting slot is then signalled, the wait returns at once, or a caller of `set` has yet to call the
  -- wake and the wait returns at once after that call.
  pub no_lost_wakeup :
      (max_tasks : ℕ) (calls : ℕ → List Signal) {d u : Device S} (os : Rtos) (now f : ℕ)
      → Reached b max_tasks d
      → Fits max_tasks d
      → Steps b (poll_interrupted b max_tasks calls (platform_prepare_scheduler_wait b d)) u
      → is_some (u.world.flags f).waiter ≡ true
      → (u.world.flags f).signaled ≡ true
      → (returns_at_once b (idle_wait b os now u) u ≡ true)
        ⊎ ((u.waking ≢ 0)
            × ((in_isr : Bool)
                → returns_at_once b
                    (idle_wait b os now (signal b (call_wake in_isr) u))
                    (signal b (call_wake in_isr) u)
                  ≡ true))
  no_lost_wakeup max_tasks calls {d} {u} os now f r fits ss n s =
      let p = prepared-Guarded b law d (Reached-Guarded b law max_tasks r) in
      let e = platform_prepare_scheduler_wait b d in
      let q =
        polled-Guarded b law true max_tasks calls e p.0 (λ _. p.1)
          (λ l a. fits l (subst (λ w. Arming w l) p.2 a)) in
      let m = Steps-Guarded b true law ss q in
      let prepared = m.1.prepared refl in
      let armed = armed_first u.world m.0 f m.1.arming n in
      let alerted = m.1.covered f n s in
      elim (Bool-cases (has_token b u.scheduler_wake)) [
        | inl t ↦ inl (awake_if os now u t prepared armed)
        | inr t ↦
            let due : u.waking ≢ 0 = λ z. ground (arith, t, alerted, z) in
            inr (
              due,
              λ in_isr.
                  let k = waked_token in_isr u due prepared in
                  awake_if os now (signal b (call_wake in_isr) u) k.0 k.1
                    (ap (λ (w : World). is_some w.armed_head) k.2 ∙ armed),
            )
      ]
