-- ===== src/Tasks/Children.antt =====
-- `start_child_await` of scheduler.h on every branch.
use simple_await.Base.{
  ℕ, ◌≡◌, ◌≢◌, refl, sym, ◌∙◌, ap, Bool, true, false, Option, none, some, arith, inl, inr, subst,
  Bool-cases, Option-cases,
}
use simple_await.Error.{invalid_task, task_limit}
use simple_await.World.{
  ready, running, waiting_child, Scheduler, World, Coroutines, on_error, destroy, set_state,
}
use simple_await.Scheduler.{bump, acquire_slot, make_ready}
use simple_await.Scheduler.Acquire.{Took, Exhausted, AcquireResult, acquire_slot-AcquireResult}
use simple_await.Tasks.{adopt, is_current, start_child_await}
use simple_await.Invariant.Adopt.{adopt-Adopted}

-- The child is in slot `x`, ready and linked to its parent `p`, which waits and keeps its frame.
pub record Family (child p x : ℕ) (w u : World) : Type 0 where
  pub apart : x ≢ p
  pub state : (u.sched.slots x).state ≡ ready
  pub handle : (u.sched.slots x).handle ≡ some child
  pub parent : (u.sched.slots x).parent ≡ some p
  pub waiting : (u.sched.slots p).state ≡ waiting_child
  pub kept : (u.sched.slots p).handle ≡ (w.sched.slots p).handle
  pub others :
      (i : ℕ)
      → i ≢ x
      → i ≢ p
      → ((u.sched.slots i).state ≡ (w.sched.slots i).state)
        × ((u.sched.slots i).handle ≡ (w.sched.slots i).handle)
        × ((u.sched.slots i).parent ≡ (w.sched.slots i).parent)
  pub errors : u.errors ≡ w.errors
  pub destroyed : u.destroyed ≡ w.destroyed

-- Whether the awaiting coroutine suspends, and the world, on each branch.
pub data ChildResult (n : ℕ) (c : Coroutines) (child awaiting : ℕ) (w : World) (out : Bool × World)
    : Type 0 where
  foreign :
      is_current w.sched awaiting ≡ false
      → out ≡ (false, on_error invalid_task (destroy c child w))
      → ChildResult n c child awaiting w out
  no_slot :
      (p : ℕ)
      → w.sched.current ≡ some p
      → is_current w.sched awaiting ≡ true
      → Exhausted n w.sched w.sched
      → out ≡ (
        true,
        on_error task_limit
            (record (destroy c child w) { sched = make_ready p (destroy c child w).sched }),
      )
      → ChildResult n c child awaiting w out
  adopts :
      (p x : ℕ)
      → w.sched.current ≡ some p
      → is_current w.sched awaiting ≡ true
      → Took n w.sched x (bump x w.sched)
      → out.0 ≡ true
      → Family child p x w out.1
      → ChildResult n c child awaiting w out

-- The world after the child was put into slot `x`.
abbrev with_child : ℕ → ℕ → ℕ → World → World
with_child child p x w =
    let s = adopt x child (some p) (bump x w.sched) in
    record w { sched = record s { slots = set_state s.slots p waiting_child } }

module _ (n : ℕ) (c : Coroutines) (child awaiting : ℕ) (w : World) (p : ℕ)
    (at : w.sched.current ≡ some p) (own : is_current w.sched awaiting ≡ true) where
  running_parent : (w.sched.slots p).state ≡ running
  unfolding is_current
  running_parent = ground arith

  with_child-Family :
      (x : ℕ) → Took n w.sched x (bump x w.sched) → Family child p x w (with_child child p x w)
  with_child-Family x k =
      let a = adopt-Adopted w.sched x child (some p) in
      let apart : x ≢ p = λ e. ground (arith, running_parent, k.lowest) in
      record {
        apart = apart;
        state = ground (arith, apart, a.state_in);
        handle = ground (arith, apart, a.handle_in);
        parent = ground (arith, apart, a.parent_in);
        waiting = ground arith;
        kept = ground (arith, a.handle_out p (λ e. apart (sym e)));
        others = λ i h g. ground (arith, a.state_out i h, a.handle_out i h, a.parent_out i h);
        errors = refl;
        destroyed = refl;
      }

  released :
      acquire_slot n w.sched ≡ (none, w.sched)
      → start_child_await c n child awaiting w ≡ (
        true,
        on_error task_limit
            (record (destroy c child w) { sched = make_ready p (destroy c child w).sched }),
      )
  unfolding start_child_await
  released q = ground arith

  placed :
      (x : ℕ) (t : Scheduler)
      → acquire_slot n w.sched ≡ (some x, t)
      → t ≡ bump x w.sched
      → with_child child p x w ≡ (start_child_await c n child awaiting w).1
  unfolding start_child_await
  placed x t q e = ground arith

  await_cases :
      (o : Option ℕ × Scheduler)
      → acquire_slot n w.sched ≡ o
      → AcquireResult n w.sched o
      → ChildResult n c child awaiting w (start_child_await c n child awaiting w)
  unfolding start_child_await
  await_cases (none, t) q a =
      no_slot p at own (subst (Exhausted n w.sched) a.unchanged a)
        (released (q ∙ ap (λ (s : Scheduler). (none, s)) a.unchanged))
  await_cases (some x, t) q a =
      let k = subst (Took n w.sched x) a.bumped a in
      adopts p x at own k (ground arith)
        (subst (Family child p x w) (placed x t q a.bumped) (with_child-Family x k))

pub nobody : (s : Scheduler) (awaiting : ℕ) → s.current ≡ none → is_current s awaiting ≡ true → ⊥
unfolding is_current
nobody s awaiting e own = ground arith

-- `start_child_await` ends in one of three ways. If the awaiting coroutine is not the running task's,
-- it destroys the child, reports the error and does not suspend. If no slot can be taken, it
-- destroys the child, makes the parent ready and reports the error. Otherwise the child is in
-- the slot that `acquire_slot` chose, ready and linked to the parent, which waits for it and keeps its
-- frame; no other slot changes its state, frame or parent, no error is reported and no frame destroyed.
pub start_child_await-ChildResult :
    (n : ℕ) (c : Coroutines) (child awaiting : ℕ) (w : World)
    → ChildResult n c child awaiting w (start_child_await c n child awaiting w)
unfolding start_child_await
start_child_await-ChildResult n c child awaiting w =
    elim (Bool-cases (is_current w.sched awaiting)) [
      | inl own ↦ elim (Option-cases w.sched.current) [
        | inl e ↦ absurd (nobody w.sched awaiting e own)
        | inr (p, at) ↦
            await_cases n c child awaiting w p at own (acquire_slot n w.sched) refl
              (acquire_slot-AcquireResult n w.sched)
      ]
      | inr other ↦ foreign other (ground arith)
    ]
