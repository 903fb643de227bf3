-- ===== src/Idle/Wait.antt =====
-- `platform_wait_until` of detail/platform_idle.h on every branch.
use simple_await.Base.{
  ℕ, suc, ◌-◌, ◌*◌, ◌^◌, ◌<◌, ◌≤◌, ◌≡◌, ◌≢◌, refl, Bool, true, false, ◌⊎◌, inl, inr, arith,
  Bool-cases, ◌==◌,
}
use native.Mathlib.Nat.{mul-le-mul_right, mod-eq_of_lt}
use native.Mathlib.Decide.{ℕ_discrete, dec_lt}
use simple_await.Time.{uint64_max, platform_timeout_ticks}
use simple_await.Time.Ticks.{RoundsUp, platform_timeout_ticks-RoundsUp}
use simple_await.Idle.{
  Rtos, platform_ticks_until, Blocking, task_delay, semaphore_take, no_wait, platform_wait_until,
}

-- How the call blocks: one tick when nothing could wake it, for ever when only a signal could, not at
-- all when the deadline has come, and otherwise for a timeout that ends less than one tick
-- after the deadline, and before it only when the deadline is beyond the longest finite timeout.
pub data WaitCase (os : Rtos) (prepared : Bool) (now deadline : ℕ) (wakeable : Bool)
    (out : Blocking) : Type 0 where
  fallback :
      (prepared ≡ false) ⊎ ((deadline ≡ uint64_max) × (wakeable ≡ false))
      → out ≡ task_delay 1
      → WaitCase os prepared now deadline wakeable out
  forever :
      prepared ≡ true
      → deadline ≡ uint64_max
      → wakeable ≡ true
      → out ≡ semaphore_take os.port_max_delay
      → WaitCase os prepared now deadline wakeable out
  due :
      prepared ≡ true
      → deadline ≢ uint64_max
      → deadline ≤ now
      → out ≡ no_wait
      → WaitCase os prepared now deadline wakeable out
  timed :
      (timeout : ℕ)
      → prepared ≡ true
      → deadline ≢ uint64_max
      → now < deadline
      → 0 < timeout
      → timeout < os.port_max_delay
      → RoundsUp ((deadline - now) * os.tick_rate_hz) (os.port_max_delay - 1) timeout
      → out ≡ semaphore_take timeout
      → WaitCase os prepared now deadline wakeable out

module _ (os : Rtos) (now deadline : ℕ) (wakeable : Bool) (finite : deadline ≢ uint64_max) where
  due_ticks : deadline ≤ now → platform_ticks_until os now deadline ≡ 0
  unfolding platform_ticks_until platform_timeout_ticks
  due_ticks l = ground arith

  finite_ticks :
      platform_timeout_ticks now deadline os.tick_rate_hz (os.port_max_delay - 1)
        < suc os.port_max_delay
      → platform_ticks_until os now deadline
        ≡ platform_timeout_ticks now deadline os.tick_rate_hz (os.port_max_delay - 1)
  unfolding platform_ticks_until
  finite_ticks l = elim (Bool-cases (deadline == uint64_max)) [
    | inl e ↦ absurd (finite (ground arith))
    | inr e ↦ rw e (mod-eq_of_lt l)
  ]

  waited_none :
      platform_ticks_until os now deadline ≡ 0
      → platform_wait_until os true now deadline wakeable ≡ no_wait
  unfolding platform_wait_until
  waited_none e = ground arith

  waited_some :
      (t : ℕ)
      → platform_ticks_until os now deadline ≡ t
      → 0 < t
      → platform_wait_until os true now deadline wakeable ≡ semaphore_take t
  unfolding platform_wait_until
  waited_some t e l = ground arith

future_wait :
    (os : Rtos) (now deadline : ℕ) (wakeable : Bool)
    → 0 < os.tick_rate_hz
    → os.tick_rate_hz * 1000000 < 2 ^ 64
    → 1 < os.port_max_delay
    → os.port_max_delay < 2 ^ 64
    → deadline ≢ uint64_max
    → now < deadline
    → WaitCase os true now deadline wakeable (platform_wait_until os true now deadline wakeable)
future_wait os now deadline wakeable rate fits long word finite later =
    let t = platform_timeout_ticks now deadline os.tick_rate_hz (os.port_max_delay - 1) in
    let r =
      platform_timeout_ticks-RoundsUp now deadline os.tick_rate_hz (os.port_max_delay - 1) later
        rate fits (omega arith) (omega arith) in
    let work =
      mul-le-mul_right os.tick_rate_hz (let one : 1 ≤ deadline - now = omega arith in one) in
    let some_ticks : 0 < t = omega (arith, work, r) in
    timed t refl finite later some_ticks (omega (arith, r)) r (
      waited_some os now deadline wakeable finite t
        (finite_ticks os now deadline wakeable finite (omega (arith, r))) some_ticks)

-- With a positive tick rate whose product with a second fits 64 bits, and a `portMAX_DELAY` above 1
-- that fits 64 bits, `platform_wait_until` blocks in one of four ways: one tick when it is not prepared
-- or nothing could wake it; without limit when only a signal could; not at all when the deadline has
-- come; and otherwise for a positive finite timeout that ends less than one tick after the
-- deadline, and before it only when it is the longest finite one.
pub platform_wait_until-WaitCase :
    (os : Rtos) (prepared : Bool) (now deadline : ℕ) (wakeable : Bool)
    → 0 < os.tick_rate_hz
    → os.tick_rate_hz * 1000000 < 2 ^ 64
    → 1 < os.port_max_delay
    → os.port_max_delay < 2 ^ 64
    → WaitCase os prepared now deadline wakeable
        (platform_wait_until os prepared now deadline wakeable)
unfolding platform_wait_until platform_ticks_until
platform_wait_until-WaitCase os false now deadline wakeable rate fits long word =
    fallback (inl refl) refl
platform_wait_until-WaitCase os true now deadline wakeable rate fits long word =
    elim (ℕ_discrete deadline uint64_max) [
      | yes e ↦ elim (Bool-cases wakeable) [
        | inl k ↦ forever refl e k (ground arith)
        | inr k ↦ fallback (inr (e, k)) (ground arith)
      ]
      | no ne ↦ elim (dec_lt now deadline) [
        | yes l ↦ future_wait os now deadline wakeable rate fits long word ne l
        | no g ↦ due refl ne (omega arith) (
            waited_none os now deadline wakeable ne
              (due_ticks os now deadline wakeable ne (omega arith)))
      ]
    ]
