-- ===== src/Pass/Counts.antt =====
-- A pass of scheduler.h keeps `active_count_` the number of the slots that hold a task.
use simple_await.Base.{
  ℕ, zero, suc, ◌≡◌, ◌≢◌, refl, sym, ◌∙◌, ap, subst, true, false, Option, none, some, List, [], ◌∷◌,
  ◌++◌, arith, length, count, inl, inr, Bool-cases, Option-cases, append_assoc, append-nil, ltb,
}
use simple_await.World.{
  running, suspended, is_running, is_waiting_child, Scheduler, World, Coroutines, destroy,
}
use simple_await.Scheduler.{ready_pop, make_ready}
use simple_await.Scheduler.Ready.{ready_push_rest}
use simple_await.Timers.{
  is_due, soonest_from, wake_due, process_due_timers, recompute_nearest_deadline,
}
use simple_await.Timers.Soonest.{Soonest, soonest_from-Soonest}
use simple_await.Invariant.{Inv}
use simple_await.Invariant.Effects.{Effects-Grown, quiet-Inv}
use simple_await.Invariant.Suspend.{active-lt}
use simple_await.Invariant.Active.{
  is_occupied, Counted, same-Counted, lost-Counted, set_state-Counted, make_ready-Counted,
  Effects-Counted,
}
use simple_await.Pass.{
  resume_slot, complete_slot, wake_parent, run_slot, run_budget, run_pass, is_done,
}
use simple_await.Pass.Contract.{Cooperative, Ran, finishes, suspends, stopped}
use simple_await.Pass.Body.{destroyed-Grown, Suspension-Suspended}
use simple_await.Pass.Slot.{
  begun, finished, retire_slot_lem, stopped-Inv, resume_slot-some, resume_slot-none, run_slot-done,
  run_slot-bare, run_slot-waits,
}
use simple_await.Pass.Round.{same_test, test_none, begun-running, running_of_test, run_slot-Round}
use simple_await.Pass.Run.{first-ready, begun-Inv, popped, run_budget_step}
use simple_await.Pass.Active.{Suspension-Counted}
use simple_await.Pass.Signals.{make_all_ready}

waked_parent-Counted :
    (n : ℕ) (p : Option ℕ) (w : World) → Counted n w.sched → Counted n (wake_parent p w).sched
unfolding wake_parent
waked_parent-Counted n none w c = c
waked_parent-Counted n (some p) w c = elim (Bool-cases (is_waiting_child (w.sched.slots p).state)) [
  | inl h ↦ simp h (make_ready-Counted n p w.sched (ground arith) c)
  | inr h ↦ simp h c
]

module _ {n : ℕ} (c : Coroutines) (k : Cooperative n c) where
  finished-Counted :
      {u : World} {r : List ℕ} {ws : ℕ → List ℕ} (frame x : ℕ)
      → Inv n u r ws
      → (u.sched.slots x).state ≡ running
      → Counted n u.sched
      → Counted n (finished c frame x u).sched
  finished-Counted {u} frame x v active m =
      let (g, s) = destroyed-Grown c frame k.releases v active in
      let logged : World = record u { destroyed = frame ∷ u.destroyed } in
      let m' =
        Effects-Counted (quiet-Inv {w = u} logged refl (λ e. refl) v) active
          (k.releases frame logged) m in
      lost-Counted n (destroy c frame u).sched (finished c frame x u).sched x g.inv.fifo.limit
        (active-lt g.inv.fifo g.inv.parked x s.state) (ap is_occupied s.state) (ground arith)
        (λ i q. ground arith) refl m'

  complete_slot-Counted :
      {u : World} {r : List ℕ} {ws : ℕ → List ℕ} (frame x : ℕ)
      → Inv n u r ws
      → (u.sched.slots x).state ≡ running
      → (u.sched.slots x).handle ≡ some frame
      → Counted n u.sched
      → Counted n (complete_slot c x u).sched
  unfolding complete_slot
  complete_slot-Counted {u} frame x v active h m =
      rw (retire_slot_lem c x frame u h)
        (waked_parent-Counted n _ (finished c frame x u) (finished-Counted frame x v active m))

  waiting-Counted :
      (x : ℕ) (w a : World)
      → resume_slot c x w ≡ a
      → is_done c (a.sched.slots x).handle a ≡ false
      → Counted n a.sched
      → Counted n (run_slot c x w).sched
  waiting-Counted x w a e h m =
      subst
        (λ b.
          is_done c (b.sched.slots x).handle b ≡ false
          → Counted n b.sched
          → Counted n (run_slot c x w).sched)
        e
        (λ h m.
          let u = resume_slot c x w in
          elim (Bool-cases (is_running (u.sched.slots x).state)) [
            | inl q ↦ rw (run_slot-bare c x w h q) (
                set_state-Counted n u.sched x suspended
                  (ap is_occupied (running_of_test (u.sched.slots x).state q)) refl m)
            | inr q ↦ rw (run_slot-waits c x w h q) m
          ])
        h m

  module _ (x : ℕ) (w : World) {r : List ℕ} {ws : ℕ → List ℕ} (v : Inv n (begun x w) r ws)
      (m : Counted n (begun x w).sched) where
    Ran-Counted :
        (frame : ℕ) (u : World)
        → (w.sched.slots x).handle ≡ some frame
        → c.resume frame (begun x w) ≡ u
        → Ran n c (begun x w) u (c.done frame (stopped u))
        → Counted n (run_slot c x w).sched
    Ran-Counted frame u h e (finishes d f) =
        let (g, s) = Effects-Grown v (begun-running x w) f in
        let held : (u.sched.slots x).handle ≡ some frame = s.handle ∙ ground arith in
        let at : resume_slot c x w ≡ stopped u = resume_slot-some c x frame w h ∙ ap stopped e in
        let ends : run_slot c x w ≡ complete_slot c x (stopped u) =
          subst
            (λ b.
              is_done c (b.sched.slots x).handle b ≡ true → run_slot c x w ≡ complete_slot c x b)
            at (run_slot-done c x w) (same_test c x frame u true held d) in
        rw ends (
          complete_slot-Counted frame x (stopped-Inv g.inv) s.state held
            (Effects-Counted v (begun-running x w) f m))
    Ran-Counted frame u h e (suspends t d f q) =
        let (g, s) = Effects-Grown v (begun-running x w) f in
        let o = Suspension-Suspended g.inv x s.current s.state c k q in
        waiting-Counted x w (stopped u) (resume_slot-some c x frame w h ∙ ap stopped e)
          (same_test c x frame u false (o.handle ∙ s.handle ∙ ground arith) d)
          (Suspension-Counted g.inv x s.current s.state (Effects-Counted v (begun-running x w) f m)
            c k q)

    run_slot-Counted : Counted n (run_slot c x w).sched
    run_slot-Counted = elim (Option-cases (w.sched.slots x).handle) [
      | inl h ↦
          waiting-Counted x w (stopped (begun x w)) (resume_slot-none c x w h)
            (test_none c _ (ground arith)) m
      | inr (frame, h) ↦
          Ran-Counted frame (c.resume frame (begun x w)) h refl
            (k.resumes x frame (begun x w) refl (begun-running x w) (ground arith))
    ]

begun-Counted :
    {n x : ℕ} {w : World} {r : List ℕ} {ws : ℕ → List ℕ}
    → Inv n w (x ∷ r) ws
    → Counted n w.sched
    → Counted n (begun x (popped w)).sched
unfolding ready_pop
begun-Counted {n} {x} {w} v m =
    same-Counted n w.sched (begun x (popped w)).sched (ground arith)
      (λ i. ground (arith, v.fifo.fifo.0.0, first-ready v.fifo)) m

run_budget-Counted :
    {n : ℕ} (c : Coroutines) (l r : List ℕ) {w : World} {ws : ℕ → List ℕ}
    → Cooperative n c
    → Inv n w (l ++ r) ws
    → Counted n w.sched
    → Counted n (run_budget c (length l) w).sched
unfolding run_budget
run_budget-Counted c [] r k v m = m
run_budget-Counted {n} c (x ∷ l) r {w} k v m =
    let b = begun-Inv v in
    let g = (run_slot-Round c k x b).grown in
    let v' = subst (λ o. Inv n (run_slot c x (popped w)) o g.ws) (append_assoc l r g.extra) g.inv in
    rw (run_budget_step c (length l) v) (
      run_budget-Counted c l (r ++ g.extra) k v'
        (run_slot-Counted c k x (popped w) b (begun-Counted v m)))

-- With user code that uses the scheduler through its operations only, from any state of the invariant
-- in which `active_count_` is the number of slots that hold a task: it is so after a pass.
pub run_pass-Counted :
    {n : ℕ} (c : Coroutines) (r : List ℕ) {w : World} {ws : ℕ → List ℕ}
    → Cooperative n c
    → Inv n w r ws
    → Counted n w.sched
    → Counted n (run_pass c w).sched
unfolding run_pass
run_pass-Counted {n} c r {w} {ws} k v m =
    subst (λ b. Counted n (run_budget c b w).sched) (sym v.fifo.counted)
      (run_budget-Counted c r [] k (subst (λ l. Inv n w l ws) (sym (append-nil r)) v) m)

due-occupied :
    (s : Scheduler) (x : ℕ) → is_due s.slots s.now x ≡ true → is_occupied (s.slots x).state ≡ true
unfolding is_due
due-occupied s x h = ground arith

wake_due-Counted : (fuel n : ℕ) (s : Scheduler) → Counted n s → Counted n (wake_due fuel n s)
unfolding wake_due
wake_due-Counted zero n s m = m
wake_due-Counted (suc fuel) n s m =
    elim (soonest_from n 0 s.slots s.now none)
        as (λ o.
          Soonest n s.slots s.now o
          → Counted n (elim o [ none ↦ s | some x ↦ wake_due fuel n (make_ready x s) ])) [
            | none ↦ λ f. m
            | some x ↦ λ f.
                wake_due-Counted fuel n (make_ready x s)
                  (make_ready-Counted n x s (due-occupied s x f.1) m)
          ]
      (soonest_from-Soonest n s.slots s.now)

pub process_due_timers-Counted :
    (n : ℕ) (s : Scheduler) → Counted n s → Counted n (process_due_timers n s)
unfolding process_due_timers recompute_nearest_deadline
process_due_timers-Counted n s m = elim (Bool-cases (ltb s.now s.nearest_deadline)) [
  | inl early ↦ simp early m
  | inr late ↦ simp late (wake_due-Counted (suc n) n s m)
]

readied-occupied :
    (y i : ℕ) (s : Scheduler)
    → is_occupied (s.slots i).state ≡ true
    → is_occupied ((make_ready y s).slots i).state ≡ true
unfolding make_ready
readied-occupied y i s h = ap is_occupied (ready_push_rest y _ i).0 ∙ ground arith

pub make_all_ready-Counted :
    (n : ℕ) (ys : List ℕ) (s : Scheduler)
    → ((i : ℕ) → count i ys ≢ 0 → is_occupied (s.slots i).state ≡ true)
    → Counted n s
    → Counted n (make_all_ready ys s)
make_all_ready-Counted n [] s o m = m
make_all_ready-Counted n (y ∷ ys) s o m =
    make_all_ready-Counted n ys (make_ready y s)
      (λ i h. readied-occupied y i s (o i (ground arith)))
      (make_ready-Counted n y s (o y (ground arith)) m)
