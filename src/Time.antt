-- ===== src/Time.antt =====
-- src/simpleawait/detail/time_math.h, the `Micros32Extender` of detail/platform_clock.h and the tick
-- arithmetic of detail/platform_idle.h. `tick_t` is a 64-bit count of microseconds.
pub mod Deadline
pub mod Extender
pub mod Ticks
mod Tests
use simple_await.Base.{
  ℕ, ◌+◌, ◌-◌, ◌*◌, ◌/◌, ◌%◌, ◌^◌, Bool, true, false, List, [], ◌∷◌, ◌||◌, not, ltb, leb, ◌==◌,
  if◌then◌else◌, bit,
}
use simple_await.Error.{Error, deadline_overflow, ErrorLog}

abbrev pub uint32_max : ℕ
uint32_max = 2 ^ 32 - 1

abbrev pub uint64_max : ℕ
uint64_max = 2 ^ 64 - 1

-- `ms_to_us`: the product is a `uint64_t`.
unfoldable pub ms_to_us : ℕ → ℕ
ms_to_us milliseconds = (milliseconds * 1000) % 2 ^ 64

unfoldable pub add_overflows : ℕ → ℕ → Bool
add_overflows a b = ltb (uint64_max - a) b

-- `compute_deadline`: the returned test, what `out` holds afterwards, and the hook's calls.
unfoldable pub compute_deadline : ℕ → ℕ → ℕ → Bool × ℕ × ErrorLog
unfolding add_overflows
compute_deadline now duration_us out =
    let overflow = add_overflows now duration_us in
    if overflow
    then (not overflow, out, deadline_overflow ∷ [])
    else (not overflow, (now + duration_us) % 2 ^ 64, [])

-- `Micros32Extender`: both members are `uint32_t`.
pub record Micros32Extender : Type 0 where
  pub last : ℕ
  pub wraps : ℕ

-- The returned word is `(wraps << 32) | now32`; the shifted word has no low bits, so `|` adds.
unfoldable pub extend : Micros32Extender → ℕ → ℕ × Micros32Extender
extend e now32 =
    let wraps = if ltb now32 e.last then (e.wraps + 1) % 2 ^ 32 else e.wraps in
    (wraps * 2 ^ 32 + now32, record { last = now32; wraps = wraps })

-- The extender fed with a list of 32-bit samples; what it returned for each.
unfoldable pub extend_all : Micros32Extender → List ℕ → List ℕ
extend_all e [] = []
extend_all e (now32 ∷ samples) = let (time, e') = extend e now32 in time ∷ extend_all e' samples

unfoldable pub platform_timeout_ticks : ℕ → ℕ → ℕ → ℕ → ℕ
platform_timeout_ticks now deadline ticks_per_second maximum_finite_ticks =
    if leb deadline now || ticks_per_second == 0 || maximum_finite_ticks == 0
    then 0
    else (let remaining_us = deadline - now in
        let whole_seconds = remaining_us / 1000000 in
        let remaining_fraction_us = remaining_us % 1000000 in
        if ltb (maximum_finite_ticks / ticks_per_second) whole_seconds
        then maximum_finite_ticks
        else (let ticks = (whole_seconds * ticks_per_second) % 2 ^ 64 in
            let fractional_numerator = (remaining_fraction_us * ticks_per_second) % 2 ^ 64 in
            let fractional_ticks =
              fractional_numerator / 1000000 + bit (not (fractional_numerator % 1000000 == 0)) in
            if ltb (maximum_finite_ticks - ticks) fractional_ticks
            then maximum_finite_ticks
            else ticks + fractional_ticks))
