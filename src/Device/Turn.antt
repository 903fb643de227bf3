-- ===== src/Device/Turn.antt =====
-- `poll_and_wait` of scheduler.h as a whole: the preparation of the wait, the pass with the user code that
-- it runs, and the platform wait, with other contexts at any point.
use simple_await.Base.{
  ℕ, ◌≡◌, ◌≢◌, ◌⊎◌, refl, sym, ◌∙◌, ap, subst, Bool, true, false, List, [], is_some, inl, inr,
  Bool-cases,
}
use simple_await.World.{World, Coroutines}
use simple_await.Idle.{Rtos}
use simple_await.Flag.{poll_external_signals}
use simple_await.Pass.{poll}
use simple_await.Pass.Poll.{entered, phases}
use simple_await.Device.{
  Semaphore, IsBinary, Device, Signal, call_wake, signal, platform_prepare_scheduler_wait,
  poll_interrupted, idle_wait, returns_at_once,
}
use simple_await.Device.Steps.{Steps, elsewhere}
use simple_await.Device.Cycle.{Fits, Reached, steps}
use simple_await.Device.Alone.{poll_interrupted-alone}
use simple_await.Device.Passes.{Goes, Behaves, rest_of_pass, rest-Goes, Steps-trans}
use simple_await.Device.Wakeup.{no_lost_wakeup}

module _ {S : Type 0} (b : Semaphore S) where
  abbrev entering : ℕ → Device S → Device S
  entering clock d = record d { world = entered clock d.world }

  -- The device behind the poll for external signals of a turn, with the steps `calls` of other contexts.
  abbrev pub polled_in : ℕ → ℕ → (ℕ → List Signal) → Device S → Device S
  polled_in max_tasks clock calls d =
      poll_interrupted b max_tasks calls (entering clock (platform_prepare_scheduler_wait b d))

  entering_prepared :
      (clock : ℕ) (d : Device S)
      → platform_prepare_scheduler_wait b (entering clock d)
        ≡ entering clock (platform_prepare_scheduler_wait b d)
  unfolding platform_prepare_scheduler_wait
  entering_prepared clock d = elim (Bool-cases (is_some d.scheduler_wake)) [
    | inl e ↦ simp e refl
    | inr e ↦ simp e refl
  ]

  prepared_world : (d : Device S) → (platform_prepare_scheduler_wait b d).world ≡ d.world
  unfolding platform_prepare_scheduler_wait
  prepared_world d = elim (Bool-cases (is_some d.scheduler_wake)) [
    | inl e ↦ simp e refl
    | inr e ↦ simp e refl
  ]

  -- The platform wait returns at once, or as soon as a caller of `set` has made the wake that it owes.
  abbrev pub Wakes : Rtos → ℕ → Device S → Type 0
  Wakes os now u =
      (returns_at_once b (idle_wait b os now u) u ≡ true)
      ⊎ ((u.waking ≢ 0)
          × ((in_isr : Bool)
              → returns_at_once b (idle_wait b os now (signal b (call_wake in_isr) u))
                  (signal b (call_wake in_isr) u)
                ≡ true))

  alone_poll :
      (c : Coroutines) (max_tasks clock : ℕ) (d : Device S)
      → d.world.sched.shutting_down ≡ false
      → d.world.sched.in_poll ≡ false
      → rest_of_pass c max_tasks (polled_in max_tasks clock (λ _. []) d).world
        ≡ poll c max_tasks clock d.world
  alone_poll c max_tasks clock d up idle =
      let p = platform_prepare_scheduler_wait b d in
      ap (λ (e : Device S). rest_of_pass c max_tasks e.world)
        (poll_interrupted-alone b max_tasks 0 0 (entering clock p)).0
      ∙ ap
          (λ (w : World).
            rest_of_pass c max_tasks (poll_external_signals max_tasks (entered clock w)))
          (prepared_world d)
      ∙ sym (phases max_tasks c clock d.world up idle)

  module _ (law : IsBinary b) (c : Coroutines) (k : Behaves b c) (max_tasks clock : ℕ)
      {d : Device S} (r : Reached b max_tasks d) (fits : Fits max_tasks d) where
    alert :
        (calls : ℕ → List Signal) (os : Rtos) (now f : ℕ) {u : Device S}
        → Steps b (polled_in max_tasks clock calls d) u
        → is_some (u.world.flags f).waiter ≡ true
        → (u.world.flags f).signaled ≡ true
        → Wakes os now u
    alert calls os now f {u} ss n s =
        let r' : Reached b max_tasks (entering clock d) =
          steps (elsewhere d (entered clock d.world) refl refl refl) r in
        let fits' : Fits max_tasks (entering clock d) =
          λ l a. fits l (record { linked = a.linked; member = a.member }) in
        no_lost_wakeup b law max_tasks calls os now f r' fits'
          (subst (λ (p : Device S). Steps b (poll_interrupted b max_tasks calls p) u)
            (sym (entering_prepared clock d)) ss)
          n s

-- What a turn of `poll_and_wait` from `d` promises: where no other context steps in before the pass, it
-- is `poll`; and it ends in a device from which no wakeup is lost.
pub record TurnAlert {S : Type 0} (b : Semaphore S) (c : Coroutines) (max_tasks clock : ℕ)
    (calls : ℕ → List Signal) (os : Rtos) (now : ℕ) (d : Device S) : Type 0 where
  pub ended :
      Goes b
        (polled_in b max_tasks clock calls d)
        (rest_of_pass c max_tasks (polled_in b max_tasks clock calls d).world)
  pub wakes :
      (f : ℕ) {u : Device S}
      → Steps b ended.reached u
      → is_some (u.world.flags f).waiter ≡ true
      → (u.world.flags f).signaled ≡ true
      → Wakes b os now u
  pub alone :
      rest_of_pass c max_tasks (polled_in b max_tasks clock (λ _. []) d).world
      ≡ poll c max_tasks clock d.world

-- With a binary semaphore and user code that uses flags by the steps of `Step`, from any device that a
-- program reaches, outside a poll and a teardown, with at most `max_tasks` armed flags: `poll_and_wait`
-- prepares the wait, polls for external signals with steps of other contexts in between, and runs the
-- rest of the pass, whatever its tasks do; any number of steps follow, up to the platform wait or
-- during it. If a flag with a waiting slot is then signalled, the wait returns at once, or a caller of
-- `set` has yet to call the wake and the wait returns at once after that call. Without the steps in
-- between, the pass is `poll`.
pub poll_and_wait-TurnAlert :
    {S : Type 0} (b : Semaphore S) (c : Coroutines) (max_tasks clock : ℕ) (calls : ℕ → List Signal)
    (os : Rtos) (now : ℕ) {d : Device S}
    → IsBinary b
    → Behaves b c
    → Reached b max_tasks d
    → Fits max_tasks d
    → d.world.sched.shutting_down ≡ false
    → d.world.sched.in_poll ≡ false
    → TurnAlert b c max_tasks clock calls os now d
poll_and_wait-TurnAlert b c max_tasks clock calls os now {d} law k r fits up idle =
    let g = rest-Goes b c k max_tasks (polled_in b max_tasks clock calls d) in
    record {
      ended = g;
      wakes = λ f ss n s.
          alert b law c k max_tasks clock r fits calls os now f (Steps-trans b g.steps ss) n s;
      alone = alone_poll b c max_tasks clock d up idle;
    }
