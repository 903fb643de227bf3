-- ===== src/Error.antt =====
-- src/simpleawait/error.h: the error codes, and the hook of config.h. `SIMPLEAWAIT_ON_ERROR` is the
-- application's. The model is of a hook that returns: it records the error, newest first, and the
-- code goes on. Under the default hook, which halts, a run ends at the first entry.
use simple_await.Base.{List}

-- `enum class Error`, in its order.
pub data Error : Type 0 where
  no_error task_limit frame_pool_exhausted scheduler_reentry invalid_task : Error
  task_already_scheduled task_awaited_twice multiple_flag_waiters : Error
  object_destroyed_with_waiters deadline_overflow unhandled_exception internal_error : Error

-- The calls of the hook so far, newest first.
abbrev pub ErrorLog : Type 0
ErrorLog = List Error
