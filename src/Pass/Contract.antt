-- ===== src/Pass/Contract.antt =====
-- What scheduler.h relies on in user code.
use simple_await.Base.{ℕ, ◌≡◌, Bool, true, false, none, some}
use simple_await.World.{running, World, Coroutines}
use simple_await.Tasks.{start_child_await}
use simple_await.Waits.{yield_current, park_running}
use simple_await.Timers.{arm_current_timer}
use simple_await.Event
use simple_await.Invariant.{queues}
use simple_await.Invariant.Effects.{Effects}

-- How the running slot suspends: `yield()`, a delay, a child, an event, a flag or a queue (which
-- park the slot and touch neither the scheduler otherwise nor an event's waiters), or an awaitable
-- that registers nothing.
pub data Suspension (n : ℕ) (c : Coroutines) (w u : World) : Type 0 where
  yields : u ≡ record w { sched = yield_current w.sched } → Suspension n c w u
  delays : (duration_us : ℕ) → u ≡ arm_current_timer duration_us w → Suspension n c w u
  awaits_child :
      (child awaiting : ℕ) → start_child_await c n child awaiting w ≡ (true, u) → Suspension n c w u
  awaits_event : (e awaiting : ℕ) → Event.wait e awaiting w ≡ (true, u) → Suspension n c w u
  parks :
      u.sched ≡ (park_running w.sched).1
      → ((e : ℕ) → queues u e ≡ queues w e)
      → u.resumed ≡ w.resumed
      → Suspension n c w u
  bare : u ≡ w → Suspension n c w u

abbrev pub stopped : World → World
stopped u = record u { sched = record (u.sched) { current = none } }

-- A resumption runs to the end of the body or to a suspension, and tells which by `done`.
pub data Ran (n : ℕ) (c : Coroutines) (w u : World) (is_finished : Bool) : Type 0 where
  finishes : is_finished ≡ true → Effects n w u → Ran n c w u is_finished
  suspends :
      (m : World)
      → is_finished ≡ false
      → Effects n w m
      → Suspension n c m u
      → Ran n c w u is_finished

-- User code uses the scheduler through the library's operations only.
pub record Cooperative (n : ℕ) (c : Coroutines) : Type 0 where
  pub resumes :
      (x frame : ℕ) (w : World)
      → w.sched.current ≡ some x
      → (w.sched.slots x).state ≡ running
      → (w.sched.slots x).handle ≡ some frame
      → Ran n c w (c.resume frame w) (c.done frame (stopped (c.resume frame w)))
  pub releases : (frame : ℕ) (w : World) → Effects n w (c.release frame w)
