-- ===== src/Device.antt =====
-- The scheduler of an ESP32 with the contexts that call `ThreadSafeFlag::set`: the wake of
-- detail/platform_idle.h, and threadsafeflag.h cut at its critical sections, between which
-- interrupts and other tasks run. The binary semaphore of FreeRTOS is a parameter.
pub mod Signals
pub mod Scan
pub mod Round
pub mod Served
pub mod Drain
pub mod Poll
pub mod Alone
pub mod Park
pub mod Steps
pub mod Cycle
pub mod Wakeup
pub mod Passes
pub mod Turn
use simple_await.Base.{
  ℕ, zero, suc, ◌+◌, ◌-◌, ◌≡◌, Bool, true, false, Option, none, some, List, [], ◌∷◌, ◌&&◌, ◌==◌,
  not, is_some, if◌then◌else◌, update,
}
use simple_await.World.{World}
use simple_await.Waits.{wake_slot}
use simple_await.Flag
use simple_await.Flag.{put_flag, write_link, consume, park}
use simple_await.Pass
use simple_await.Idle.{Rtos, Blocking, task_delay, semaphore_take, no_wait, platform_wait_until}

-- `xSemaphoreCreateBinaryStatic`, `xSemaphoreGive`, `xSemaphoreGiveFromISR` with whether a task of
-- higher priority has been woken, the effect of `xSemaphoreTake` that gets the token, and whether
-- there is a token to take.
pub record Semaphore (S : Type 0) : Type 0 where
  pub create : S
  pub give : S → S
  pub give_from_isr : S → Bool × S
  pub take : S → S
  pub available : S → Bool

-- What FreeRTOS documents of a binary semaphore.
pub record IsBinary {S : Type 0} (b : Semaphore S) : Type 0 where
  pub created_empty : b.available b.create ≡ false
  pub gives : (s : S) → b.available (b.give s) ≡ true
  pub gives_from_isr : (s : S) → b.available (b.give_from_isr s).1 ≡ true
  pub takes : (s : S) → b.available (b.take s) ≡ false

-- The world, `scheduler_wake`, and how many callers of `set` have left its critical section and
-- have yet to call `platform_wake_scheduler`.
pub record Device (S : Type 0) : Type 0 where
  pub world : World
  pub scheduler_wake : Option S
  pub waking : ℕ

-- A step of another context: the critical section of `set` on a flag, or the call of
-- `platform_wake_scheduler` that follows it, in an interrupt or in a task.
pub data Signal : Type 0 where
  mark_signaled : ℕ → Signal
  call_wake : Bool → Signal

module _ {S : Type 0} (b : Semaphore S) where
  -- `platform_prepare_scheduler_wait`.
  unfoldable pub platform_prepare_scheduler_wait : Device S → Device S
  platform_prepare_scheduler_wait d =
      if is_some d.scheduler_wake then d else record d { scheduler_wake = some b.create }

  -- `platform_wake_scheduler`, with the value of `xPortInIsrContext()`. The yield that may follow
  -- lets another task run and changes nothing here.
  unfoldable pub platform_wake_scheduler : Bool → Option S → Option S
  platform_wake_scheduler in_isr none = none
  platform_wake_scheduler in_isr (some s) =
      if in_isr then some (b.give_from_isr s).1 else some (b.give s)

  -- A step of another context. Without a caller that has to, no one calls the wake.
  unfoldable pub signal : Signal → Device S → Device S
  signal (mark_signaled f) d =
      let (newly_signaled, w) = Flag.set f d.world in
      record d { world = w; waking = if newly_signaled then suc d.waking else d.waking }
  signal (call_wake in_isr) d = if d.waking == 0 then d else record d {
    scheduler_wake = platform_wake_scheduler in_isr d.scheduler_wake;
    waking = d.waking - 1;
  }

  -- The steps of other contexts that come between two steps of the scheduler's.
  unfoldable pub interrupted : List Signal → Device S → Device S
  interrupted [] d = d
  interrupted (s ∷ ss) d = interrupted ss (signal s d)

-- The critical section of a round of `poll_external_signals`: `wake`, and the world.
unfoldable pub consume_armed : ℕ → World → Bool × World
consume_armed f w =
    if (w.flags f).signaled && is_some (w.flags f).waiter
    then (true, put_flag f (record (w.flags f) { signaled = false }) w)
    else (false, w)

-- The rest of the round: the new `prev`, and the world.
unfoldable pub finish_round : Option ℕ → ℕ → Bool → World → Option ℕ × World
finish_round prev f wake w =
    if wake
    then (let next = (w.flags f).armed_next in
        let woken = record w {
          sched = wake_slot (w.flags f).waiter w.sched;
          flags = update w.flags f (record (w.flags f) { waiter = none; armed_next = none });
        } in
        (prev, write_link prev next woken))
    else (some f, w)

module _ {S : Type 0} (b : Semaphore S) where
  -- The loop of `poll_external_signals`, at most `fuel` rounds, with the steps `calls k` of other
  -- contexts before its critical sections and behind them.
  unfoldable pub resolve_interrupted :
      ℕ → (ℕ → List Signal) → Option ℕ → Option ℕ → Device S → Device S
  resolve_interrupted zero calls prev f d = d
  resolve_interrupted (suc fuel) calls prev none d = d
  resolve_interrupted (suc fuel) calls prev (some f) d =
      let before = interrupted b (calls 0) d in
      let (wake, w) = consume_armed f before.world in
      let after = interrupted b (calls 1) (record before { world = w }) in
      let next = (after.world.flags f).armed_next in
      let (prev', w') = finish_round prev f wake after.world in
      resolve_interrupted fuel (λ k. calls (2 + k)) prev' next (record after { world = w' })

  -- `poll_external_signals`, with the steps of other contexts.
  unfoldable pub poll_interrupted : ℕ → (ℕ → List Signal) → Device S → Device S
  poll_interrupted max_tasks calls d =
      let before = interrupted b (calls 0) d in
      if not before.world.pending
      then before
      else (let cleared = record before { world = record (before.world) { pending = false } } in
          resolve_interrupted (suc max_tasks) (λ k. calls (suc k)) none cleared.world.armed_head
            cleared)

  -- `co_await flag.wait()`, with the steps of other contexts between `consume` and `park`.
  unfoldable pub wait_interrupted : ℕ → ℕ → List Signal → Device S → Bool × Device S
  wait_interrupted f awaiting calls d =
      let (ready_now, w) = consume f d.world in
      let between = interrupted b calls (record d { world = w }) in
      let (suspended, w') = park f awaiting between.world in
      if ready_now then (false, between) else (suspended, record between { world = w' })

  -- `wait_for_work`: how `platform_wait_until` blocks, with the time of its clock.
  unfoldable pub idle_wait : Rtos → ℕ → Device S → Blocking
  idle_wait os now d = elim (Pass.wait_for_work d.world) [
    | none ↦ no_wait
    | some (deadline, wakeable) ↦
        platform_wait_until os (is_some d.scheduler_wake) now deadline wakeable
  ]

  -- Whether there is a token to take.
  unfoldable pub has_token : Option S → Bool
  has_token none = false
  has_token (some s) = b.available s

  -- Whether a blocking call returns at once.
  abbrev pub returns_at_once : Blocking → Device S → Bool
  returns_at_once no_wait d = true
  returns_at_once (task_delay _) d = false
  returns_at_once (semaphore_take _) d = has_token d.scheduler_wake
