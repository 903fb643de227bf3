-- ===== src/Event.antt =====
-- src/simpleawait/event.h. An event is named by its address in `World.events`.
use mathlib.Core.Option.{Option}
use simple_await.Base.{ℕ, suc, Bool, true, false, update, is_some, if◌then◌else◌}
use simple_await.Error.{object_destroyed_with_waiters}
use simple_await.World.{Event, World, on_error}
use simple_await.Waits.{wait_on, wake_all}

abbrev pub new_event : Event
new_event = record { is_set = false; waiters = record { head = Option.none; tail = Option.none } }

-- `Event::set`.
unfoldable pub set : ℕ → ℕ → World → World
set max_tasks e w =
    let (q, s) = wake_all (suc max_tasks) (w.events e).waiters w.sched in
    record w { sched = s; events = update w.events e (record { is_set = true; waiters = q }) }

-- `Event::clear`.
unfoldable pub clear : ℕ → World → World
clear e w = record w { events = update w.events e (record (w.events e) { is_set = false }) }

-- `co_await ev.wait()`: whether the coroutine suspends (`await_ready`, then `await_suspend` through
-- `park`), and the world.
unfoldable pub wait : ℕ → ℕ → World → Bool × World
wait e awaiting w =
    if (w.events e).is_set
    then (false, w)
    else (let (suspend, q, w') = wait_on (w.events e).waiters awaiting w in
        (suspend, record w' { events = update w'.events e (record (w'.events e) { waiters = q }) }))

-- `~Event`.
unfoldable pub destroy_event : ℕ → World → World
destroy_event e w =
    if is_some (w.events e).waiters.head then on_error object_destroyed_with_waiters w else w
