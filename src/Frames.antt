-- ===== src/Frames.antt =====
-- How task.h uses the frame pool: `operator new` and `operator delete` of the promise, and the task of
-- a coroutine whose frame could not be allocated; and `stats` of diagnostics.h.
pub mod Creation
use simple_await.Base.{ℕ, Option, none, some, List, [], ◌∷◌}
use simple_await.Error.{ErrorLog, frame_pool_exhausted, unhandled_exception}
use simple_await.World.{Scheduler}
use simple_await.Tasks.{Task}
use simple_await.FramePool.{Arena, FramePool, allocate, deallocate, bytes_free}
use simple_await.Idle.{scheduler_counters}

-- `frame_alloc`, which both forms of `operator new` call: the pointer, the pool and the hook's calls.
unfoldable pub frame_alloc : Arena → ℕ → FramePool → Option ℕ × FramePool × ErrorLog
frame_alloc a size p =
    let (frame, p') = allocate a size a.align p in
    (frame, p', elim frame [ none ↦ frame_pool_exhausted ∷ [] | some _ ↦ [] ])

-- The call of a coroutine whose frame has `size` bytes: the compiler takes the task of
-- `get_return_object_on_allocation_failure` for a null pointer, and that of `get_return_object` otherwise.
unfoldable pub call_coroutine : Arena → ℕ → FramePool → Task × FramePool × ErrorLog
call_coroutine a size p =
    let (frame, p', calls) = frame_alloc a size p in
    (elim frame [ none ↦ none | some address ↦ some address ], p', calls)

-- `operator delete`, which the destruction of a frame ends with.
unfoldable pub frame_free : Arena → Option ℕ → FramePool → FramePool × ErrorLog
frame_free a frame p = deallocate a frame p

-- `Stats`.
pub record Stats : Type 0 where
  pub active_tasks : ℕ
  pub peak_tasks : ℕ
  pub ready_tasks : ℕ
  pub waiting_timers : ℕ
  pub frame_bytes_used : ℕ
  pub peak_frame_bytes_used : ℕ
  pub frame_bytes_free : ℕ
  pub allocation_failures : ℕ

-- `stats`.
unfoldable pub stats : ℕ → Arena → Scheduler → FramePool → Stats
stats max_tasks a s p =
    let counters = scheduler_counters max_tasks s in
    record {
      active_tasks = counters.active_tasks;
      peak_tasks = counters.peak_tasks;
      ready_tasks = counters.ready_tasks;
      waiting_timers = counters.waiting_timers;
      frame_bytes_used = p.bytes_used;
      peak_frame_bytes_used = p.peak_bytes_used;
      frame_bytes_free = bytes_free a p;
      allocation_failures = p.allocation_failures;
    }
