-- ===== src/Lib.antt =====
-- SimpleAwait: a cooperative scheduler for C++20 coroutines on microcontrollers.
--
-- The program. User code writes coroutines that return `Task<void>`. `create_task` and `spawn` hand a
-- task's frame to the scheduler, which keeps it in one of SIMPLEAWAIT_MAX_TASKS slots; `poll` runs
-- one bounded pass over the ready tasks. A task suspends by `yield`, a delay, the await of a child
-- task, an `Event`, a `ThreadSafeFlag` or a `Queue`, and each of these puts its slot back on the
-- ready FIFO later.
--
-- The files, and the code each is about:
--   Base          Boolean tests on numbers, lists, counting, updates of arrays (no code).
--   Error         src/simpleawait/error.h and the hook SIMPLEAWAIT_ON_ERROR of config.h.
--   Time          detail/time_math.h, `Micros32Extender` of detail/platform_clock.h and
--                 `platform_timeout_ticks` of detail/platform_idle.h.
--   World         the data of scheduler.h, event.h and threadsafeflag.h: `Slot`, `WaitQueue`, the
--                 members of `Scheduler`, the events, the flags and their statics.
--   Scheduler     `WaitQueue::push_back`, `WaitQueue::pop_front`, `ready_push`, `ready_pop` and
--                 `acquire_slot` of scheduler.h.
--   Tasks         `schedule`, `start_child_await` and `TaskHandle` of scheduler.h; `Task` and
--                 `TaskAwaiter` of task.h.
--   Waits         `yield_current`, `wait_on`, `wake_all`, `running_is`, `park_running` and
--                 `wake_slot` of scheduler.h.
--   Timers        `arm_current_timer` and `process_due_timers` of scheduler.h, and delay.h.
--   Event         event.h.
--   Flag          threadsafeflag.h.
--   Idle          `platform_wait_until` of detail/platform_idle.h for the ESP32, and the scheduler's
--                 counters of diagnostics.h.
--   Device        the semaphore of detail/platform_idle.h, and threadsafeflag.h cut at its critical
--                 sections, with the steps of interrupts and other tasks between them.
--   Critical      detail/platform_sync.h, and the bodies of the critical sections of threadsafeflag.h.
--   FramePool     detail/frame_pool.h.
--   Frames        how task.h and the pool of detail/global_frame_pool.h make and destroy a coroutine's
--                 frame, and `stats` of diagnostics.h.
--   Waiters       the two waiting lists of queue.h, which it writes out twice.
--   Queue         queue.h.
--   WaitUntil     waituntil.h.
--   Pass          `run_pass`, `run_poll_pass`, `poll`, `wait_for_work`, `poll_and_wait` and
--                 `~Scheduler` of scheduler.h.
--   Invariant     what holds of the intrusive lists between the calls, and that the calls keep it. `Kept`
--                 and Pass/Kept do the same for any property of generations and timers.
--   Tests         concrete worlds, and the theorems applied to them.
--
-- How the state corresponds. `World` is the process-wide scheduler with every event and every flag.
-- A `Slot*`, an `Event*` or a `ThreadSafeFlag*` is an index, and a null pointer is `none`; an array
-- or a set of objects is a function of the index. A coroutine handle is the number of its frame, so
-- `Task` is an optional number. Three logs have no counterpart in the code: the errors passed to the
-- hook, the frames destroyed and the slots resumed, each newest first.
--
-- The hook is taken to return, as a non-halting SIMPLEAWAIT_ON_ERROR does; the default one stops the
-- program at the first error. `tick_t` is a 64-bit number, and sums, products and counters wrap
-- where the code's do; `size_t` is taken to have 32 bits, as on the targets. The number of slots is a
-- parameter, of which only the bound that the `static_assert` of scheduler.h states is used.
--
-- The frame pool is a model of its own, beside `World`: its storage is the block headers, as a function of
-- the offset, and `Arena` has its size and address with the compiler's alignment and header size.
-- `IsArena` states what the declaration of the storage and the `static_assert`s give. Pointers have 32
-- bits, and the payloads' bytes, which the frames own, are not modelled.
--
-- Sequences of calls are relations: `Runs` and `Later` of the scheduler's calls and polls, `PoolRuns` of the
-- pool's, `Reachable` of a queue's operations and `Reached` of a device's steps.
--
-- A queue is not part of `World`: its operations take a `QueueWorld`, the queue with the world. Its awaiters
-- are nodes at their addresses, and its cells say which of them hold an object; a moved-from object is
-- taken to be equal to what it was. `T` is any type, and the capacity any number from 1 to 2 ^ 31.
--
-- User code is a parameter too, `Coroutines`: what resuming a frame does to the world, whether the
-- frame is then done, and what its destruction runs. The theorems that need to know how it behaves
-- take `Cooperative`: it reaches the scheduler only through the library's calls, and a resumption
-- ends at the end of the body or at one suspension. The destructor's theorem takes `Passive`: what the
-- destruction of a frame runs reaches neither the scheduler nor another frame.
--
-- Other contexts. In `World` a critical section makes its statements one step, and nothing comes between
-- the steps of one call. `Device` is a `World` with `scheduler_wake` and the number of callers of `set`
-- that have left its critical section and have yet to call `platform_wake_scheduler`. A `Signal` is a
-- step of such a caller, and `poll_interrupted` and `wait_interrupted` are `poll_external_signals` and
-- `wait` with any list of them before or behind each critical section. `Step` has what may happen
-- between two polls. The binary semaphore of FreeRTOS is a parameter, of which `IsBinary` states what
-- its documentation says; a call of `xSemaphoreTake` that finds a token returns at once. Device/Turn puts
-- the preparation of the wait, `poll` and the platform wait together as `poll_and_wait` does. `Behaves` says of
-- user code that it uses flags by those steps only.
--
-- The loops. The two `for` loops of `acquire_slot` and those of the timers run over the slots by
-- structural recursion. `wake_all`, the outer loop of `process_due_timers` and the loop over the armed
-- flags run until a list or a search is empty: each takes one round more than there are slots, and
-- each round takes away one waiter, one due timer or one flag, of which there are at most as many
-- as slots. The loop of `run_pass` counts down its budget. The pool's loops take one round more than
-- there are usable bytes: each round steps over a block or joins two, and a block has at least one byte.
-- The loops over a queue's waiters take their fuel as an argument, and the theorems ask for one round more
-- than there are waiters; the loop over its values takes `count_`.
--
-- The critical sections. In `Flag` and `Device` the body of a critical section is one step; in `Critical`
-- it is a list of statements, before each of which other contexts may change the memory if they can come
-- in. Other contexts are the interrupts of the same core on an RP2040, and on an ESP32 also the other
-- core. The interrupt mask and the spinlock are parameters, with what their documentation says.
--
-- Not modelled: the clocks and the coroutine machinery of the compiler, which the library only calls;
-- `SIMPLEAWAIT_CRITICAL_SECTION_ENTER` and `_EXIT`, which the application writes; the section of the
-- host, which does nothing; and the version header.
pub mod Base
pub mod Error
pub mod Time
pub mod World
pub mod Scheduler
pub mod Tasks
pub mod Waits
pub mod Timers
pub mod Event
pub mod Flag
pub mod Idle
pub mod Device
pub mod Critical
pub mod FramePool
pub mod Frames
pub mod WaitUntil
pub mod Waiters
pub mod Queue
pub mod Pass
pub mod Invariant
mod Tests
