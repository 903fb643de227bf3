-- ===== src/Pass/Run.antt =====
-- `run_pass` of scheduler.h: the tasks that are ready at the start run once each, in order.
use mathlib.Core.List.{reverse, reverse-cons}
use simple_await.Base.{
  ℕ, suc, ◌≡◌, refl, sym, ◌∙◌, ap, true, none, some, List, [], ◌∷◌, ◌++◌, arith, length,
  append_assoc, append-nil, subst,
}
use simple_await.World.{is_ready, World, WaitQueue, Scheduler, Coroutines}
use simple_await.Scheduler.{ready_pop}
use simple_await.Scheduler.Ready.{ReadyFifo, begin_run, ready_pop-ReadyFifo}
use simple_await.Pass.{run_slot, run_ready, run_budget, run_pass}
use simple_await.Invariant.{Inv, Parked, Parked-frame, waits_locally}
use simple_await.Invariant.Effects.{Grown, Grown-same, Grown-trans}
use simple_await.Pass.Contract.{Cooperative}
use simple_await.Pass.Slot.{begun}
use simple_await.Pass.Round.{run_slot-Round}

-- The world after `ready_pop`.
abbrev pub popped : World → World
popped w = record w { sched = (ready_pop w.sched).1 }

module _ {n : ℕ} {s : Scheduler} {x : ℕ} {r : List ℕ} (v : ReadyFifo n s (x ∷ r)) where
  pub first-ready : is_ready (s.slots x).state ≡ true
  first-ready = ground (arith, v.member x)

  popped_state : is_ready ((ready_pop s).1.slots x).state ≡ true
  unfolding ready_pop
  popped_state = ground (arith, v.fifo.0.0, first-ready)

  begin-Parked :
      {q : ℕ → WaitQueue} {ws : ℕ → List ℕ}
      → Parked s q ws
      → Parked (begin_run x (ready_pop s).1) q ws
  unfolding ready_pop
  begin-Parked p = Parked-frame (begin_run x (ready_pop s).1) p λ e i h. (
    ground (arith, v.fifo.0.0, first-ready, waits_locally p e i h),
    ground (arith, v.fifo.0.0, first-ready, waits_locally p e i h),
  )

pub begun-Inv :
    {n x : ℕ} {w : World} {r : List ℕ} {ws : ℕ → List ℕ}
    → Inv n w (x ∷ r) ws
    → Inv n (begun x (popped w)) r ws
begun-Inv v = record {
  fifo = (ready_pop-ReadyFifo v.fifo).1;
  parked = begin-Parked v.fifo v.parked;
}

run_ready_lem :
    (c : Coroutines) (x : ℕ) (w : World)
    → is_ready (w.sched.slots x).state ≡ true
    → run_ready c x w ≡ run_slot c x w
unfolding run_ready
run_ready_lem c x w h = simp h

pub run_budget-none :
    (c : Coroutines) (left : ℕ) (w : World)
    → (ready_pop w.sched).0 ≡ none
    → run_budget c (suc left) w ≡ popped w
unfolding run_budget
run_budget-none c left w e = ground (arith, e)

pub run_budget-some :
    (c : Coroutines) (left x : ℕ) (w : World)
    → (ready_pop w.sched).0 ≡ some x
    → run_budget c (suc left) w ≡ run_budget c left (run_ready c x (popped w))
unfolding run_budget
run_budget-some c left x w e = ground (arith, e)

pub run_budget_step :
    {n x : ℕ} {w : World} {r : List ℕ} {ws : ℕ → List ℕ} (c : Coroutines) (left : ℕ)
    → Inv n w (x ∷ r) ws
    → run_budget c (suc left) w ≡ run_budget c left (run_slot c x (popped w))
run_budget_step {x = x} {w = w} c left v =
    run_budget-some c left x w (ready_pop-ReadyFifo v.fifo).0
    ∙ ap (run_budget c left) (run_ready_lem c x (popped w) (popped_state v.fifo))

-- A run of the slots `l` that leaves `r`, and what the run added, on the FIFO.
pub record Passed (n : ℕ) (w u : World) (l r : List ℕ) : Type 0 where
  pub grown : Grown n u r
  pub resumed : u.resumed ≡ reverse l ++ w.resumed

run_budget-Passed :
    {n : ℕ} (c : Coroutines) (l r : List ℕ) {w : World} {ws : ℕ → List ℕ}
    → Cooperative n c
    → Inv n w (l ++ r) ws
    → Passed n w (run_budget c (length l) w) l r
unfolding run_budget
run_budget-Passed c [] r k v = record { grown = Grown-same v; resumed = refl }
run_budget-Passed {n} c (x ∷ l) r {w} k v =
    let o = run_slot-Round c k x (begun-Inv v) in
    let g = o.grown in
    let v' = subst (λ m. Inv n (run_slot c x (popped w)) m g.ws) (append_assoc l r g.extra) g.inv in
    let p = run_budget-Passed c l (r ++ g.extra) k v' in
    rw (run_budget_step c (length l) v) (record {
      grown = Grown-trans g.extra p.grown;
      resumed = p.resumed ∙ log (run_slot c x (popped w)) o.resumed;
    })
  where
    log :
        (u : World)
        → u.resumed ≡ x ∷ w.resumed
        → reverse l ++ u.resumed ≡ reverse (x ∷ l) ++ w.resumed
    log u e = rw (e, reverse-cons x l, append_assoc (reverse l) (x ∷ []) w.resumed)

-- With user code that uses the scheduler through its operations only, from any state of the
-- invariant with the ready FIFO `r`: one pass resumes exactly the slots of `r`, each once and in
-- their order, keeps the invariant, and leaves on the FIFO exactly what became ready meanwhile, for
-- a later pass.
pub run_pass-Passed :
    {n : ℕ} (c : Coroutines) (r : List ℕ) {w : World} {ws : ℕ → List ℕ}
    → Cooperative n c
    → Inv n w r ws
    → Passed n w (run_pass c w) r []
unfolding run_pass
run_pass-Passed {n} c r {w} {ws} k v =
    subst (λ k. Passed n w (run_budget c k w) r []) (sym v.fifo.counted)
      (run_budget-Passed c r [] k (subst (λ l. Inv n w l ws) (sym (append-nil r)) v))
