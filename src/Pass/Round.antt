-- ===== src/Pass/Round.antt =====
-- One round of the loop of `run_pass` in scheduler.h resumes its slot once, keeps the invariant, and
-- only appends to the ready FIFO.
use simple_await.Base.{
  ℕ, ◌≡◌, refl, ◌∙◌, ap, Bool, true, false, Option, none, some, List, ◌∷◌, arith, subst, Bool-cases,
  Option-cases, inl, inr,
}
use simple_await.World.{State, running, suspended, is_running, World, Coroutines, set_state}
use simple_await.Pass.{resume_slot, complete_slot, run_slot, is_done}
use simple_await.Invariant.{Inv}
use simple_await.Invariant.Effects.{Grown, Grown-same, Grown-trans, Effects-Grown}
use simple_await.Invariant.Suspend.{idle_change}
use simple_await.Pass.Contract.{Cooperative, Ran, finishes, suspends, stopped}
use simple_await.Pass.Body.{Suspension-Suspended}
use simple_await.Pass.Slot.{
  Round, begun, stopped-Inv, stopped-Grown, resume_slot-some, resume_slot-none, run_slot-done,
  run_slot-bare, run_slot-waits, complete_slot-Grown,
}

pub running_of_test : (k : State) → is_running k ≡ true → k ≡ running
running_of_test k h = ground arith

suspend_bare :
    {n : ℕ} {u : World} {r : List ℕ} (x : ℕ)
    → Grown n u r
    → is_running (u.sched.slots x).state ≡ true
    → Grown n
        (record u { sched = record (u.sched) { slots = set_state u.sched.slots x suspended } })
        r
suspend_bare {n} {u} {r} x g h =
    let t = record (u.sched) { slots = set_state u.sched.slots x suspended } in
    let (f, p) =
      idle_change g.inv.fifo g.inv.parked x (running_of_test (u.sched.slots x).state h) t refl refl
        refl (λ i k. ground arith) (ground arith) in
    Grown-trans g.extra (Grown-same (record { fifo = f; parked = p }))

-- A slot that was resumed and is not at its final suspension.
run_slot-waiting :
    {n x : ℕ} {w : World} {r : List ℕ} (c : Coroutines) (a : World)
    → resume_slot c x w ≡ a
    → is_done c (a.sched.slots x).handle a ≡ false
    → Grown n a r
    → a.resumed ≡ x ∷ w.resumed
    → Round n x w (run_slot c x w) r
run_slot-waiting {n} {x} {w} {r} c a e h g m =
    subst
      (λ b.
        is_done c (b.sched.slots x).handle b ≡ false
        → Grown n b r
        → b.resumed ≡ x ∷ w.resumed
        → Round n x w (run_slot c x w) r)
      e
      (λ h g m. elim (Bool-cases (is_running ((resume_slot c x w).sched.slots x).state)) [
        | inl k ↦ rw (run_slot-bare c x w h k) (record { grown = suspend_bare x g k; resumed = m })
        | inr k ↦ rw (run_slot-waits c x w h k) (record { grown = g; resumed = m })
      ])
      h g m

pub test_none : (c : Coroutines) (u : World) {p : Option ℕ} → p ≡ none → is_done c p u ≡ false
test_none c u e = rw e

pub begun-running : (x : ℕ) (w : World) → ((begun x w).sched.slots x).state ≡ running
begun-running x w = ground arith

pub same_test :
    (c : Coroutines) (x frame : ℕ) (u : World) (t : Bool)
    → (u.sched.slots x).handle ≡ some frame
    → c.done frame (stopped u) ≡ t
    → is_done c ((stopped u).sched.slots x).handle (stopped u) ≡ t
same_test c x frame u t h e = rw h e

module _ {n : ℕ} {w : World} {r : List ℕ} {ws : ℕ → List ℕ} (c : Coroutines) (k : Cooperative n c)
    (x : ℕ) (v : Inv n (begun x w) r ws) where
  Round-none : (w.sched.slots x).handle ≡ none → Round n x w (run_slot c x w) r
  Round-none h =
      run_slot-waiting c (stopped (begun x w)) (resume_slot-none c x w h)
        (test_none c _ (ground arith)) (stopped-Grown (Grown-same v)) refl

  Round-Ran :
      (frame : ℕ) (u : World)
      → (w.sched.slots x).handle ≡ some frame
      → c.resume frame (begun x w) ≡ u
      → Ran n c (begun x w) u (c.done frame (stopped u))
      → Round n x w (run_slot c x w) r
  Round-Ran frame u h e (finishes d f) =
      let (g, s) = Effects-Grown v (begun-running x w) f in
      let held : (u.sched.slots x).handle ≡ some frame = s.handle ∙ ground arith in
      let at : resume_slot c x w ≡ stopped u = resume_slot-some c x frame w h ∙ ap stopped e in
      let (done, log) = complete_slot-Grown c frame x k.releases (stopped-Inv g.inv) s.state held in
      let ends : run_slot c x w ≡ complete_slot c x (stopped u) =
        subst
          (λ b. is_done c (b.sched.slots x).handle b ≡ true → run_slot c x w ≡ complete_slot c x b)
          at (run_slot-done c x w) (same_test c x frame u true held d) in
      rw ends (record { grown = Grown-trans g.extra done; resumed = log ∙ s.resumed })
  Round-Ran frame u h e (suspends m d f q) =
      let (g, s) = Effects-Grown v (begun-running x w) f in
      let o = Suspension-Suspended g.inv x s.current s.state c k q in
      run_slot-waiting c (stopped u) (resume_slot-some c x frame w h ∙ ap stopped e)
        (same_test c x frame u false (o.handle ∙ s.handle ∙ ground arith) d)
        (stopped-Grown (Grown-trans g.extra o.grown)) (o.resumed ∙ s.resumed)

  Round-some : (frame : ℕ) → (w.sched.slots x).handle ≡ some frame → Round n x w (run_slot c x w) r
  Round-some frame h =
      Round-Ran frame (c.resume frame (begun x w)) h refl
        (k.resumes x frame (begun x w) refl (begun-running x w) (ground arith))

  -- The round of `x`, from a world in which it has just been marked running.
  pub run_slot-Round : Round n x w (run_slot c x w) r
  run_slot-Round = elim (Option-cases (w.sched.slots x).handle) [
    | inl h ↦ Round-none h
    | inr (frame, h) ↦ Round-some frame h
  ]
