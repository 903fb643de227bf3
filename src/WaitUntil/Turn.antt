-- ===== src/WaitUntil/Turn.antt =====
-- A turn of `waitUntil` of waituntil.h in a pass: it ends, or it waits for the next poll.
use simple_await.Base.{
  ℕ, ◌≡◌, refl, ◌∙◌, ap, Bool, true, false, Option, none, some, List, ◌++◌, arith, count, bit,
  Bool-cases, inl, inr,
}
use simple_await.World.{ready, running, is_ready, Scheduler, World}
use simple_await.Scheduler.{make_ready}
use simple_await.Scheduler.Ready.{ready_push_rest}
use simple_await.Waits.{yield_current}
use simple_await.Invariant.{Inv}
use simple_await.Invariant.Effects.{Effects, Grown, Grown-trans, Effects-Grown}
use simple_await.Pass.Body.{readied}
use simple_await.WaitUntil.{wait_until}

-- What a turn in slot `x` does, with the ready FIFO `r`.
pub data Turn (n x : ℕ) (w : World) (r : List ℕ) (predicate : World → Bool × World)
    (out : Bool × World) : Type 0 where
  ends :
      (predicate w).0 ≡ true
      → out ≡ (true, (predicate w).1)
      → Grown n out.1 r
      → Turn n x w r predicate out
  waits :
      (predicate w).0 ≡ false
      → out.0 ≡ false
      → (g : Grown n out.1 r) → count x (r ++ g.extra) ≡ 1
      → Turn n x w r predicate out

module _ (predicate : World → Bool × World) (w : World) where
  turn_end : (predicate w).0 ≡ true → wait_until predicate w ≡ (true, (predicate w).1)
  unfolding wait_until
  turn_end e = rw e refl

  turn_wait :
      (predicate w).0 ≡ false
      → wait_until predicate w
        ≡ (false, record ((predicate w).1) { sched = yield_current (predicate w).1.sched })
  unfolding wait_until
  turn_wait e = rw e refl

yielded : (s : Scheduler) (x : ℕ) → s.current ≡ some x → yield_current s ≡ make_ready x s
unfolding yield_current
yielded s x e =
    ap (λ (o : Option ℕ). (let t : Scheduler = elim o [ none ↦ s | some y ↦ make_ready y s ] in t))
      e

made_ready : (x : ℕ) (s : Scheduler) → ((make_ready x s).slots x).state ≡ ready
unfolding make_ready
made_ready x s = (ready_push_rest x _ x).0 ∙ ground arith

-- From any state of the invariant with the ready FIFO `r`, in which the frame runs in slot `x`, and with a
-- predicate that uses the scheduler only through the library's operations: a turn evaluates the
-- predicate once. If it holds, the body ends, without another suspension. Otherwise the slot is
-- on the ready FIFO again, once, so that a later pass resumes it. The invariant holds either way,
-- and the FIFO has only grown.
pub wait_until-Turn :
    {n x : ℕ} {w : World} {r : List ℕ} {ws : ℕ → List ℕ} (predicate : World → Bool × World)
    → Inv n w r ws
    → w.sched.current ≡ some x
    → (w.sched.slots x).state ≡ running
    → Effects n w (predicate w).1
    → Turn n x w r predicate (wait_until predicate w)
wait_until-Turn {n} {x} {w} {r} predicate v at active effects =
    let (g, k) = Effects-Grown v active effects in
    let m = (predicate w).1 in
    elim (Bool-cases (predicate w).0) [
      | inl on ↦ rw (turn_end predicate w on) (ends on refl g)
      | inr off ↦
          let u : World = record m { sched = yield_current m.sched } in
          let s = yielded m.sched x (k.current ∙ at) in
          let y = readied g.inv x (k.current ∙ at) k.state u s (λ e. refl) refl in
          let whole = Grown-trans g.extra y.grown in
          rw (turn_wait predicate w off) (
            waits off refl whole (
              whole.inv.fifo.member x
              ∙ ap (λ (t : Scheduler). bit (is_ready (t.slots x).state)) s
              ∙ ap (λ t. bit (is_ready t)) (made_ready x m.sched)))
    ]
