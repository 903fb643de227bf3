-- ===== src/Idle.antt =====
-- The ESP32 wait of detail/platform_idle.h and the counters of diagnostics.h. FreeRTOS is a
-- parameter: `portMAX_DELAY` and `configTICK_RATE_HZ`; a `TickType_t` holds the numbers up to
-- `portMAX_DELAY`.
pub mod Wait
pub mod Counters
use simple_await.Base.{
  ℕ, zero, suc, ◌+◌, ◌-◌, ◌%◌, ◌^◌, Bool, true, false, ◌&&◌, ◌||◌, not, ◌==◌, if◌then◌else◌, bit,
}
use simple_await.Time.{uint64_max, platform_timeout_ticks}
use simple_await.World.{Slots, is_waiting_timer, Scheduler}

pub record Rtos : Type 0 where
  pub port_max_delay : ℕ
  pub tick_rate_hz : ℕ

-- `platform_ticks_until`.
unfoldable pub platform_ticks_until : Rtos → ℕ → ℕ → ℕ
platform_ticks_until os now deadline =
    if deadline == uint64_max
    then os.port_max_delay
    else platform_timeout_ticks now deadline os.tick_rate_hz (os.port_max_delay - 1)
      % suc os.port_max_delay

-- The call by which `platform_wait_until` blocks, if it does: `vTaskDelay` or `xSemaphoreTake`.
pub data Blocking : Type 0 where
  task_delay : ℕ → Blocking
  semaphore_take : ℕ → Blocking
  no_wait : Blocking

-- `platform_wait_until`, with whether `scheduler_wake` is created and the time of the clock.
unfoldable pub platform_wait_until : Rtos → Bool → ℕ → ℕ → Bool → Blocking
platform_wait_until os prepared now deadline externally_wakeable =
    if not prepared || (deadline == uint64_max && not externally_wakeable)
    then task_delay 1
    else (let timeout = platform_ticks_until os now deadline in
        if not (timeout == 0) then semaphore_take timeout else no_wait)

-- `SchedulerCounters`.
pub record SchedulerCounters : Type 0 where
  pub active_tasks : ℕ
  pub peak_tasks : ℕ
  pub ready_tasks : ℕ
  pub waiting_timers : ℕ

-- The loop of `scheduler_counters` with `k` slots left from index `i`; a `size_t` has 32 bits.
unfoldable pub count_timers : ℕ → ℕ → Slots → ℕ → ℕ
count_timers zero i slots total = total
count_timers (suc k) i slots total =
    count_timers k (suc i) slots
      (if is_waiting_timer (slots i).state then (total + 1) % 2 ^ 32 else total)

-- `scheduler_counters`.
unfoldable pub scheduler_counters : ℕ → Scheduler → SchedulerCounters
scheduler_counters max_tasks s = record {
  active_tasks = s.active_count;
  peak_tasks = s.peak_count;
  ready_tasks = s.ready_count;
  waiting_timers = count_timers max_tasks 0 s.slots 0;
}
