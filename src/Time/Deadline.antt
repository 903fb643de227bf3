-- ===== src/Time/Deadline.antt =====
-- Deadlines of detail/time_math.h.
use simple_await.Base.{ℕ, ◌+◌, ◌*◌, ◌^◌, ◌<◌, ◌≡◌, ◌⊎◌, true, false, inl, inr, [], ◌∷◌, arith}
use native.Mathlib.Decide.{dec_lt}
use simple_await.Error.{deadline_overflow}
use simple_await.Time.{ms_to_us, compute_deadline}

pub ms_to_us-eq :
    (milliseconds : ℕ) → milliseconds < 2 ^ 32 → ms_to_us milliseconds ≡ milliseconds * 1000
unfolding ms_to_us
ms_to_us-eq milliseconds h = omega arith

-- For operands of 64 bits: either the sum fits, and the result is the exact sum with no call of the
-- hook, or it does not, and then the test is false, `out` keeps its value and the hook is called
-- once with `deadline_overflow`.
pub compute_deadline_exact :
    (now duration out : ℕ)
    → now < 2 ^ 64
    → duration < 2 ^ 64
    → ((now + duration < 2 ^ 64) × (compute_deadline now duration out ≡ (true, now + duration, [])))
      ⊎ ((¬ (now + duration < 2 ^ 64))
          × (compute_deadline now duration out ≡ (false, out, deadline_overflow ∷ [])))
unfolding compute_deadline
compute_deadline_exact now duration out h k = elim (dec_lt (now + duration) (2 ^ 64)) [
  | yes p ↦ inl (p, ground arith)
  | no p ↦ inr (p, ground arith)
]
