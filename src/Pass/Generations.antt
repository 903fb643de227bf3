-- ===== src/Pass/Generations.antt =====
-- The generations of scheduler.h over any sequence of calls and polls, and the handles of task.h that
-- outlive the task they were made for.
use simple_await.Base.{
  ℕ, zero, suc, ◌^◌, ◌≤◌, ◌≡◌, ◌≢◌, refl, ap, true, false, Option, none, some, arith, inl, inr,
  Bool-cases, Option-cases, subst, ltb, is_some, ◌&&◌,
}
use simple_await.Time.{uint32_max}
use simple_await.World.{Scheduler, World, Coroutines}
use simple_await.Scheduler.{bump, make_ready}
use simple_await.Scheduler.Ready.{ready_push_rest}
use simple_await.Tasks.{
  Task, TaskId, TaskHandle, adopt, schedule, handle_valid, handle_done, valid, done,
}
use simple_await.Tasks.Handles.{HandleFacts, schedule-HandleFacts}
use simple_await.Waits.{wake_slot}
use simple_await.Timers.{
  set_timer, soonest_from, wake_due, recompute_nearest_deadline, process_due_timers,
}
use simple_await.Flag.{write_link, resolve, resolve_all, poll_external_signals}
use simple_await.Invariant.Adopt.{filled}
use simple_await.Invariant.Kept.{Kept, make_ready-Kept}
use simple_await.Invariant.Effects.{Effect, schedules}
use simple_await.Pass.{poll}
use simple_await.Pass.Contract.{Cooperative}
use simple_await.Pass.Kept.{Effect-Kept, run_pass-Kept}
use simple_await.Pass.Poll.{phases, refused_poll, reentered_poll, entered}

-- The worlds that a program reaches from the world `w` by calls and polls.
pub data Later (n : ℕ) (c : Coroutines) (w : World) : World → Type 0 where
  here : Later n c w w
  calls : {u v : World} → Effect n u v → Later n c w u → Later n c w v
  polls : {u : World} (clock : ℕ) → Later n c w u → Later n c w (poll c n clock u)

-- No slot's generation is below `floor`, or beyond 32 bits.
abbrev Aged : (ℕ → ℕ) → Scheduler → Type 0
Aged floor s = (i : ℕ) → (floor i ≤ (s.slots i).generation) × ((s.slots i).generation ≤ uint32_max)

Aged-Kept : (n : ℕ) (floor : ℕ → ℕ) → Kept n (Aged floor)
unfolding adopt bump set_timer
Aged-Kept n floor = record {
  calm = λ s t k old i. rw (k.generations i) (old i);
  adopted = λ s x frame parent took old i.
      let p = (ready_push_rest x (filled x frame parent (bump x s)) i).4 in
      (ground (arith, p, old i, old x, took.fresh), ground (arith, p, old i, old x, took.fresh));
  timed = λ x deadline s old i. (ground (arith, old i), ground (arith, old i));
}

module _ (n : ℕ) (floor : ℕ → ℕ) where
  abbrev keep : Kept n (Aged floor)
  keep = Aged-Kept n floor

  woken-Aged : (p : Option ℕ) (s : Scheduler) → Aged floor s → Aged floor (wake_slot p s)
  unfolding wake_slot
  woken-Aged none s old = old
  woken-Aged (some x) s old = make_ready-Kept keep x s old

  linked_sched : (prev next : Option ℕ) (w : World) → (write_link prev next w).sched ≡ w.sched
  linked_sched none next w = refl
  linked_sched (some g) next w = refl

  resolved-Aged :
      (prev : Option ℕ) (f : ℕ) (w : World)
      → Aged floor w.sched
      → Aged floor (resolve prev f w).1.sched
  unfolding resolve
  resolved-Aged prev f w old =
      elim (Bool-cases ((w.flags f).signaled && is_some (w.flags f).waiter)) [
        | inl h ↦
            let q : (resolve prev f w).1.sched ≡ wake_slot (w.flags f).waiter w.sched =
              simp h (linked_sched prev (w.flags f).armed_next _) in
            rw q (woken-Aged (w.flags f).waiter w.sched old)
        | inr h ↦ let q : (resolve prev f w).1.sched ≡ w.sched = simp h refl in rw q old
      ]

  resolve_all-Aged :
      (fuel : ℕ) (prev f : Option ℕ) (w : World)
      → Aged floor w.sched
      → Aged floor (resolve_all fuel prev f w).sched
  unfolding resolve_all
  resolve_all-Aged zero prev f w old = old
  resolve_all-Aged (suc fuel) prev none w old = old
  resolve_all-Aged (suc fuel) prev (some f) w old =
      resolve_all-Aged fuel _ _ _ (resolved-Aged prev f w old)

  signaled-Aged : (w : World) → Aged floor w.sched → Aged floor (poll_external_signals n w).sched
  unfolding poll_external_signals
  signaled-Aged w old = elim (Bool-cases w.pending) [
    | inl on ↦ simp on (resolve_all-Aged (suc n) none w.armed_head _ old)
    | inr off ↦ simp off old
  ]

  wake_due-Aged : (fuel : ℕ) (s : Scheduler) → Aged floor s → Aged floor (wake_due fuel n s)
  unfolding wake_due
  wake_due-Aged zero s old = old
  wake_due-Aged (suc fuel) s old = elim (Option-cases (soonest_from n 0 s.slots s.now none)) [
    | inl e ↦ let q : wake_due (suc fuel) n s ≡ s = ground arith in rw q old
    | inr (x, e) ↦
        let q : wake_due (suc fuel) n s ≡ wake_due fuel n (make_ready x s) = ground arith in
        rw q (wake_due-Aged fuel (make_ready x s) (make_ready-Kept keep x s old))
  ]

  timed-Aged : (s : Scheduler) → Aged floor s → Aged floor (process_due_timers n s)
  unfolding process_due_timers recompute_nearest_deadline
  timed-Aged s old = elim (Bool-cases (ltb s.now s.nearest_deadline)) [
    | inl early ↦ let q : process_due_timers n s ≡ s = simp early refl in rw q old
    | inr late ↦
        let q : (process_due_timers n s).slots ≡ (wake_due (suc n) n s).slots = simp late refl in
        λ i. rw q (wake_due-Aged (suc n) s old i)
  ]

  poll-Aged :
      (c : Coroutines) (clock : ℕ) (w : World)
      → Cooperative n c
      → Aged floor w.sched
      → Aged floor (poll c n clock w).sched
  poll-Aged c clock w k old = elim (Bool-cases w.sched.shutting_down) [
    | inl down ↦ rw (refused_poll n c clock w down) old
    | inr up ↦ elim (Bool-cases w.sched.in_poll) [
      | inl busy ↦ rw (reentered_poll n c clock w up busy) old
      | inr idle ↦
          let u = poll_external_signals n (entered clock w) in
          let t : World = record u { sched = process_due_timers n u.sched } in
          rw (phases n c clock w up idle) (λ i.
            run_pass-Kept keep c k t
              (timed-Aged u.sched (signaled-Aged (entered clock w) (λ j. old j))) i)
    ]
  ]

  Later-Aged :
      {c : Coroutines} {w u : World}
      → Cooperative n c
      → Later n c w u
      → Aged floor w.sched
      → Aged floor u.sched
  Later-Aged k here old = old
  Later-Aged k (calls e s) old = Effect-Kept keep e (Later-Aged k s old)
  Later-Aged {c} k (polls {u} clock s) old = poll-Aged c clock u k (Later-Aged k s old)

-- A handle of a generation that its slot has left behind is neither valid nor done.
left_behind :
    (n : ℕ) (s : Scheduler) (id : TaskId)
    → id.generation ≢ (s.slots id.slot).generation
    → (handle_valid n s id ≡ false) × (handle_done n s id ≡ false)
unfolding handle_valid handle_done
left_behind n s id h = (ground (arith, h), ground (arith, h))

-- What the handle of an accepted task, and the older ones of the same slot, tell from the call on.
pub record Tracked (n : ℕ) (c : Coroutines) (w : World) (out : TaskHandle × Task × World)
    : Type 0 where
  pub fresh : (valid n out.2.sched out.0 ≡ true) × (done n out.2.sched out.0 ≡ false)
  pub older :
      {u : World} (id : TaskId)
      → id.slot ≡ out.0.id.slot
      → id.generation ≤ (w.sched.slots id.slot).generation
      → Later n c out.2 u
      → (handle_valid n u.sched id ≡ false) × (handle_done n u.sched id ≡ false)
  pub replaced :
      {u v : World}
      → Later n c out.2 u
      → (u.sched.slots out.0.id.slot).generation ≢ out.0.id.generation
      → Later n c u v
      → (valid n v.sched out.0 ≡ false) × (done n v.sched out.0 ≡ false)

module _ {n : ℕ} {c : Coroutines} (k : Cooperative n c) (task : Task) (w : World)
    (limit : n ≤ 2 ^ 16) (bound : (i : ℕ) → (w.sched.slots i).generation ≤ uint32_max)
    (accepted : (schedule n task w).0.bound ≡ true) where
  abbrev handle : TaskHandle
  handle = (schedule n task w).0

  abbrev world : World
  world = (schedule n task w).2

  facts : HandleFacts n w (schedule n task w)
  facts = schedule-HandleFacts n task w limit bound accepted

  bound_after : (i : ℕ) → (world.sched.slots i).generation ≤ uint32_max
  bound_after i =
      (Effect-Kept (Aged-Kept n (λ _. 0)) (schedules task) (λ j. (omega arith, bound j)) i).1

  -- From a world on, the generations are at least those of that world.
  not_before :
      {u : World} → Later n c world u → Aged (λ i. (world.sched.slots i).generation) u.sched
  not_before s =
      Later-Aged n (λ i. (world.sched.slots i).generation) k s (λ i. (omega arith, bound_after i))

  older_id :
      {u : World} (id : TaskId)
      → id.slot ≡ handle.id.slot
      → id.generation ≤ (w.sched.slots id.slot).generation
      → Later n c world u
      → (handle_valid n u.sched id ≡ false) × (handle_done n u.sched id ≡ false)
  older_id {u} id same old s =
      let was : id.generation ≤ (w.sched.slots handle.id.slot).generation =
        subst (λ x. id.generation ≤ (w.sched.slots x).generation) same old in
      let since : (u.sched.slots id.slot).generation ≡ (u.sched.slots handle.id.slot).generation =
        ap (λ x. (u.sched.slots x).generation) same in
      left_behind n u.sched id (λ e.
        absurd (omega (arith, e, since, was, facts.2, facts.3, (not_before s handle.id.slot).0)))

  replaced_id :
      {u v : World}
      → Later n c world u
      → (u.sched.slots handle.id.slot).generation ≢ handle.id.generation
      → Later n c u v
      → (valid n v.sched handle ≡ false) × (done n v.sched handle ≡ false)
  unfolding valid done
  replaced_id {u} {v} s moved t =
      let at_u = not_before s handle.id.slot in
      let at_v =
        Later-Aged n (λ i. (u.sched.slots i).generation) k t
          (λ i. (omega arith, (not_before s i).1)) handle.id.slot in
      let gone =
        left_behind n v.sched handle.id (λ e. moved (omega (arith, e, at_u, at_v, facts.3))) in
      rw (gone.0, gone.1, accepted) (refl, refl)

-- With user code that uses the scheduler through its operations only, and at most 2 ^ 16 slots whose
-- generations are 32-bit words: the handle that `schedule` returns for an accepted task is valid and not done
-- right after the call. In every world that the program reaches from then on by calls and polls, an
-- earlier handle of the same slot, whose generation the slot had at most reached before the call, is neither
-- valid nor done; and once the slot has another generation than the new handle, that handle
-- is neither valid nor done in any world reached later.
pub schedule-Tracked :
    {n : ℕ} (c : Coroutines) (task : Task) (w : World)
    → Cooperative n c
    → n ≤ 2 ^ 16
    → ((i : ℕ) → (w.sched.slots i).generation ≤ uint32_max)
    → (schedule n task w).0.bound ≡ true
    → Tracked n c w (schedule n task w)
schedule-Tracked c task w k limit bound accepted =
    let f = facts k task w limit bound accepted in
    record {
      fresh = (f.0, f.1);
      older = λ id same old s. older_id k task w limit bound accepted id same old s;
      replaced = λ s moved t. replaced_id k task w limit bound accepted s moved t;
    }
