-- ===== src/Pass/Nearest.antt =====
-- The cached deadline of scheduler.h during a pass: whatever the tasks do, it stays no later than the
-- deadline of any timer, so that the fast path of `process_due_timers` passes over no due timer.
use simple_await.Base.{ℕ, ◌≡◌, sym, ◌∙◌, arith}
use simple_await.World.{waiting_timer, World, Coroutines}
use simple_await.Scheduler.{bump}
use simple_await.Scheduler.Ready.{ready_push_rest, ready_push_members}
use simple_await.Tasks.{adopt}
use simple_await.Timers.Due.{IsNearest}
use simple_await.Timers.Arm.{set_timer-IsNearest}
use simple_await.Invariant.Adopt.{filled}
use simple_await.Invariant.Kept.{Kept}
use simple_await.Invariant.Effects.{Effect}
use simple_await.Pass.{run_pass}
use simple_await.Pass.Contract.{Cooperative}
use simple_await.Pass.Kept.{Effect-Kept, run_pass-Kept}

IsNearest-Kept : (n : ℕ) → Kept n IsNearest
unfolding adopt bump
IsNearest-Kept n = record {
  calm = λ s t k near i e. let (old, same) = k.timers i e in rw (k.nearest, same) (near i old);
  adopted = λ s x frame parent took near i e.
      let t = filled x frame parent (bump x s) in
      let p = ready_push_rest x t i in
      let old : (t.slots i).state ≡ waiting_timer = sym p.0 ∙ e in
      let was : (s.slots i).state ≡ waiting_timer = ground (arith, old) in
      let same : (adopt x frame parent (bump x s)).nearest_deadline ≡ s.nearest_deadline =
        (ready_push_members x t).7 in
      let kept : ((adopt x frame parent (bump x s)).slots i).deadline_us ≡ (s.slots i).deadline_us =
        p.3 ∙ ground (arith, old) in
      rw (same, kept) (near i was);
  timed = λ x deadline s near. set_timer-IsNearest x deadline s near;
}

pub Effect-IsNearest : (n : ℕ) {w u : World} → Effect n w u → IsNearest w.sched → IsNearest u.sched
Effect-IsNearest n e near = Effect-Kept (IsNearest-Kept n) e near

-- With user code that uses the scheduler through its operations only: if the cached deadline is no
-- later than any timer's before a pass, then it is so after the pass.
pub run_pass-IsNearest :
    {n : ℕ} (c : Coroutines)
    → Cooperative n c
    → (w : World) → IsNearest w.sched
    → IsNearest (run_pass c w).sched
run_pass-IsNearest {n} c k w near = run_pass-Kept (IsNearest-Kept n) c k w near
