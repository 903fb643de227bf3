-- ===== src/Timers/Arm.antt =====
-- `arm_current_timer` of scheduler.h and the delays of delay.h on every branch.
use simple_await.Base.{
  ℕ, ◌+◌, ◌*◌, ◌^◌, ◌<◌, ◌≡◌, ◌≢◌, sym, none, some, ◌∷◌, inl, inr, arith, subst, Option-cases,
}
use native.Mathlib.Decide.{ℕ_discrete}
use simple_await.Error.{deadline_overflow}
use simple_await.World.{ready, set_state, Scheduler, World}
use simple_await.Scheduler.{make_ready}
use simple_await.Scheduler.Ready.{ready_push_rest, ready_push_members}
use simple_await.Time.Deadline.{compute_deadline_exact, ms_to_us-eq}
use simple_await.Waits.{yield_current}
use simple_await.Timers.{set_timer, arm_current_timer, delay_ms}
use simple_await.Timers.Due.{IsNearest}

-- What arming a timer does: nothing outside a task; a delay of zero, and one whose deadline does not
-- fit 64 bits, make the running task ready again; any other waits for the exact deadline.
pub data ArmResult (duration_us : ℕ) (w u : World) : Type 0 where
  no_task : w.sched.current ≡ none → u ≡ w → ArmResult duration_us w u
  yields :
      (x : ℕ)
      → w.sched.current ≡ some x
      → duration_us ≡ 0
      → u ≡ record w { sched = make_ready x w.sched }
      → ArmResult duration_us w u
  overflows :
      (x : ℕ)
      → w.sched.current ≡ some x
      → ¬ (w.sched.now + duration_us < 2 ^ 64)
      → u ≡ record w { sched = make_ready x w.sched; errors = deadline_overflow ∷ w.errors }
      → ArmResult duration_us w u
  arms :
      (x : ℕ)
      → w.sched.current ≡ some x
      → duration_us ≢ 0
      → w.sched.now + duration_us < 2 ^ 64
      → u ≡ record w { sched = set_timer x (w.sched.now + duration_us) w.sched }
      → ArmResult duration_us w u

arm_cases :
    (d : ℕ) (w : World) → w.sched.now < 2 ^ 64 → d < 2 ^ 64 → ArmResult d w (arm_current_timer d w)
unfolding arm_current_timer yield_current
arm_cases d w l k = elim (Option-cases w.sched.current) [
  | inl e ↦ no_task e (ground arith)
  | inr (x, e) ↦ elim (ℕ_discrete d 0) [
    | yes z ↦ yields x e z (ground arith)
    | no nz ↦ elim (compute_deadline_exact w.sched.now d 0 l k) [
      | inl (fits, c) ↦ arms x e nz fits (ground arith)
      | inr (over, c) ↦ overflows x e over (ground arith)
    ]
  ]
]

pub make_ready-IsNearest : (x : ℕ) (s : Scheduler) → IsNearest s → IsNearest (make_ready x s)
unfolding make_ready
make_ready-IsNearest x s near i e =
    let t : Scheduler = record s { slots = set_state s.slots x ready } in
    let p = ready_push_rest x t i in
    let other : i ≢ x = λ q. ground (arith, p.0) in
    ground (arith, other, p.0, p.3, (ready_push_members x t).7, near i)

pub set_timer-IsNearest :
    (x deadline : ℕ) (s : Scheduler) → IsNearest s → IsNearest (set_timer x deadline s)
unfolding set_timer
set_timer-IsNearest x deadline s near i e = ground (arith, near i)

ArmResult-IsNearest :
    {d : ℕ} {w u : World} → ArmResult d w u → IsNearest w.sched → IsNearest u.sched
ArmResult-IsNearest (no_task a e) near = subst (λ (v : World). IsNearest v.sched) (sym e) near
ArmResult-IsNearest {w = w} (yields x a z e) near =
    subst (λ (v : World). IsNearest v.sched) (sym e) (make_ready-IsNearest x w.sched near)
ArmResult-IsNearest {w = w} (overflows x a o e) near =
    subst (λ (v : World). IsNearest v.sched) (sym e) (make_ready-IsNearest x w.sched near)
ArmResult-IsNearest {w = w} (arms x a z o e) near =
    subst (λ (v : World). IsNearest v.sched) (sym e) (set_timer-IsNearest x _ w.sched near)

-- With a clock and a duration of 64 bits and a cached deadline no later than any timer's, arming a
-- timer ends in one of four ways: nothing happens outside a task; a zero duration makes the running
-- task ready; so does a deadline that does not fit, which is also reported; any other duration
-- makes the task wait for exactly now + duration. The cached deadline is still no later than any.
pub arm_current_timer-ArmResult :
    (duration_us : ℕ) (w : World)
    → w.sched.now < 2 ^ 64
    → duration_us < 2 ^ 64
    → IsNearest w.sched
    → ArmResult duration_us w (arm_current_timer duration_us w)
      × IsNearest (arm_current_timer duration_us w).sched
arm_current_timer-ArmResult d w l k near =
    let r = arm_cases d w l k in (r, ArmResult-IsNearest r near)

-- With a 64-bit clock, `delay_ms` of a 32-bit number of milliseconds ends in one of the four ways of
-- `arm_current_timer`, for exactly a thousand times as many microseconds.
pub delay_ms-ArmResult :
    (milliseconds : ℕ) (w : World)
    → w.sched.now < 2 ^ 64
    → milliseconds < 2 ^ 32
    → ArmResult (milliseconds * 1000) w (delay_ms milliseconds w)
unfolding delay_ms
delay_ms-ArmResult m w l k = rw (ms_to_us-eq m k) (arm_cases (m * 1000) w l (omega arith))
