-- ===== src/Invariant/Waiting.antt =====
-- `co_await ev.wait()` of event.h on every branch.
use simple_await.Base.{
  ℕ, ◌≡◌, refl, ◌∙◌, Bool, true, false, some, List, [], ◌∷◌, ◌++◌, arith, update, inl, inr,
  Bool-cases, subst, sym,
}
use simple_await.Error.{invalid_task}
use simple_await.World.{running, waiting_local, World, set_state}
use simple_await.Scheduler.Fifo.{push_back_rest}
use simple_await.Tasks.{is_current}
use simple_await.Waits.{wait_on}
use simple_await.Event
use simple_await.Invariant.{Inv, queues}
use simple_await.Invariant.Suspend.{parked_on, parked_on-Inv}

-- What a wait on event `e` returns: it passes if the event is set; it parks the running slot `x`
-- behind the waiters if the awaiting coroutine is the slot's; otherwise it reports the error and
-- does not suspend.
pub data WaitResult (n x e awaiting : ℕ) (w : World) (r : List ℕ) (ws : ℕ → List ℕ)
    (out : Bool × World) : Type 0 where
  passes : (w.events e).is_set ≡ true → out ≡ (false, w) → WaitResult n x e awaiting w r ws out
  parks :
      (w.events e).is_set ≡ false
      → is_current w.sched awaiting ≡ true
      → out.0 ≡ true
      → (out.1.sched.slots x).state ≡ waiting_local
      → Inv n out.1 r (update ws e (ws e ++ x ∷ []))
      → WaitResult n x e awaiting w r ws out
  rejects :
      (w.events e).is_set ≡ false
      → is_current w.sched awaiting ≡ false
      → out.0 ≡ false
      → out.1.sched ≡ w.sched
      → out.1.errors ≡ invalid_task ∷ w.errors
      → WaitResult n x e awaiting w r ws out

-- From a state of the invariant in which slot `x` runs, `wait` on an event ends in one of three ways:
-- if the event is set it does not suspend and changes nothing; if the awaiting coroutine is not
-- the slot's it reports the error and neither suspends nor changes the scheduler; otherwise it parks
-- `x` behind the event's other waiters, and the invariant holds again.
pub wait-WaitResult :
    {n : ℕ} {w : World} {r : List ℕ} {ws : ℕ → List ℕ} (x e awaiting : ℕ)
    → Inv n w r ws
    → w.sched.current ≡ some x
    → (w.sched.slots x).state ≡ running
    → WaitResult n x e awaiting w r ws (Event.wait e awaiting w)
unfolding Event.wait wait_on
wait-WaitResult {n} {w} {r} {ws} x e awaiting v at active = elim (Bool-cases (w.events e).is_set) [
  | inl h ↦ passes h (ground arith)
  | inr h ↦ elim (Bool-cases (is_current w.sched awaiting)) [
    | inl k ↦ subst (WaitResult n x e awaiting w r ws) (sym (parked h k)) (
        parks h k refl
          ((push_back_rest (set_state w.sched.slots x waiting_local) (queues w e) x x).0
            ∙ ground arith)
          (parked_on-Inv v x e active))
    | inr k ↦ rejects h k (ground arith) (ground arith) (ground arith)
  ]
]
  where
    parked :
        (w.events e).is_set ≡ false
        → is_current w.sched awaiting ≡ true
        → Event.wait e awaiting w ≡ (true, parked_on e x w)
    parked h k = ground arith
