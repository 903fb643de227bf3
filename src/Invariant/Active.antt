-- ===== src/Invariant/Active.antt =====
-- `active_count_` of scheduler.h counts the slots that hold a task: the operations keep it so.
use simple_await.Base.{
  ℕ, zero, suc, ◌<◌, ◌≤◌, ◌^◌, ◌≡◌, ◌≢◌, refl, sym, ◌∙◌, ap, subst, Bool, true, false, Option, none,
  List, arith, count, inl, inr, Option-cases, not, ◌&&◌, tally, tally-le, tally_agree, tally_change,
}
use native.Mathlib.Decide.{ℕ_discrete}
use simple_await.World.{
  running, State, Scheduler, World, WaitQueue, increment, decrement, is_free, is_completed,
  set_state,
}
use simple_await.Scheduler.{make_ready, bump}
use simple_await.Scheduler.Ready.{ready_push_rest, ready_push_members}
use simple_await.Scheduler.Acquire.{Took}
use simple_await.Tasks.{Task, TaskHandle, adopt, schedule}
use simple_await.Tasks.Schedule.{
  ScheduleResult, schedule-ScheduleResult, refused, no_frame, no_slot, scheduled,
}
use simple_await.Waits.{wake_all, wake_slot}
use simple_await.Event
use simple_await.Invariant.{Inv, queues}
use simple_await.Invariant.Wake.{wake_all-empty, wake_all_step}
use simple_await.Invariant.Events.{woke_all}
use simple_await.Invariant.Adopt.{adopt-Adopted, filled}
use simple_await.Invariant.Effects.{
  Effect, Effects, schedules, sets, wakes, quiet, here, next, Effects-Grown,
}

-- A slot in this state holds a task.
abbrev pub is_occupied : State → Bool
is_occupied k = not (is_free k) && not (is_completed k)

-- The counter is the number of the slots that hold a task.
abbrev pub Counted : ℕ → Scheduler → Type 0
Counted n s = s.active_count ≡ tally n (λ i. is_occupied (s.slots i).state)

pub same-Counted :
    (n : ℕ) (s t : Scheduler)
    → t.active_count ≡ s.active_count
    → ((i : ℕ) → is_occupied (t.slots i).state ≡ is_occupied (s.slots i).state)
    → Counted n s
    → Counted n t
same-Counted n s t a o c = a ∙ c ∙ tally_agree n _ _ (λ i l. sym (o i))

-- One slot more holds a task, or one less.
pub gained-Counted :
    (n : ℕ) (s t : Scheduler) (x : ℕ)
    → n ≤ 2 ^ 16
    → x < n
    → is_occupied (s.slots x).state ≡ false
    → is_occupied (t.slots x).state ≡ true
    → ((i : ℕ) → i ≢ x → is_occupied (t.slots i).state ≡ is_occupied (s.slots i).state)
    → t.active_count ≡ increment s.active_count
    → Counted n s
    → Counted n t
gained-Counted n s t x h l off on out e c =
    let k =
      tally_change n x (λ i. is_occupied (s.slots i).state) (λ i. is_occupied (t.slots i).state) l
        (λ i q. sym (out i q)) in
    let b = tally-le n (λ i. is_occupied (t.slots i).state) in ground (arith, k, b)

pub lost-Counted :
    (n : ℕ) (s t : Scheduler) (x : ℕ)
    → n ≤ 2 ^ 16
    → x < n
    → is_occupied (s.slots x).state ≡ true
    → is_occupied (t.slots x).state ≡ false
    → ((i : ℕ) → i ≢ x → is_occupied (t.slots i).state ≡ is_occupied (s.slots i).state)
    → t.active_count ≡ decrement s.active_count
    → Counted n s
    → Counted n t
lost-Counted n s t x h l on off out e c =
    let k =
      tally_change n x (λ i. is_occupied (s.slots i).state) (λ i. is_occupied (t.slots i).state) l
        (λ i q. sym (out i q)) in
    let b = tally-le n (λ i. is_occupied (s.slots i).state) in ground (arith, k, b)

pub set_state-Counted :
    (n : ℕ) (s : Scheduler) (x : ℕ) (k : State)
    → is_occupied (s.slots x).state ≡ true
    → is_occupied k ≡ true
    → Counted n s
    → Counted n (record s { slots = set_state s.slots x k })
set_state-Counted n s x k was now =
    same-Counted n s (record s { slots = set_state s.slots x k }) refl
      (λ i. ground (arith, was, now))

pub make_ready-Counted :
    (n x : ℕ) (s : Scheduler)
    → is_occupied (s.slots x).state ≡ true
    → Counted n s
    → Counted n (make_ready x s)
unfolding make_ready
make_ready-Counted n x s was =
    same-Counted n s (make_ready x s) ((ready_push_members x _).1)
      (λ i. ap is_occupied (ready_push_rest x _ i).0 ∙ ground (arith, was))

adopt_active :
    (x frame : ℕ) (parent : Option ℕ) (s : Scheduler)
    → (adopt x frame parent (bump x s)).active_count ≡ increment s.active_count
unfolding adopt bump
adopt_active x frame parent s =
    ap increment (ready_push_members x (filled x frame parent (bump x s))).1

pub adopt-Counted :
    (n x frame : ℕ) (parent : Option ℕ) (s : Scheduler)
    → n ≤ 2 ^ 16
    → Took n s x (bump x s)
    → Counted n s
    → Counted n (adopt x frame parent (bump x s))
adopt-Counted n x frame parent s h k =
    let a = adopt-Adopted s x frame parent in
    gained-Counted n s (adopt x frame parent (bump x s)) x h k.below (ground (arith, k.lowest))
      (ap is_occupied a.state_in) (λ i q. ap is_occupied (a.state_out i q))
      (adopt_active x frame parent s)

wake_all-active :
    (fuel : ℕ) (q : WaitQueue) (s : Scheduler) → (wake_all fuel q s).1.active_count ≡ s.active_count
unfolding wake_all make_ready
wake_all-active zero q s = refl
wake_all-active (suc fuel) q s = elim (Option-cases q.head) [
  | inl e ↦ rw (wake_all-empty fuel q s e) refl
  | inr (x, e) ↦
      rw (wake_all_step fuel q s x e) (wake_all-active fuel _ _ ∙ (ready_push_members x _).1)
]

module _ {n : ℕ} {w : World} {r : List ℕ} {ws : ℕ → List ℕ} (v : Inv n w r ws)
    (c : Counted n w.sched) where
  schedule-Counted : (task : Task) → Counted n (schedule n task w).2.sched
  schedule-Counted task = by_result (schedule n task w) (schedule-ScheduleResult n task w)
    where
      by_result :
          (out : TaskHandle × Task × World) → ScheduleResult n task w out → Counted n out.2.sched
      by_result out (refused d e) = rw e c
      by_result out (no_frame d f e) = rw e c
      by_result out (no_slot frame d f x e) = rw e c
      by_result out (scheduled frame y d f k e) =
          rw e (adopt-Counted n y frame none w.sched v.fifo.limit k c)

  set-Counted : (e : ℕ) → Counted n (Event.set n e w).sched
  unfolding Event.set
  set-Counted e =
      let k = (woke_all v e).woken in
      same-Counted n w.sched (Event.set n e w).sched (wake_all-active (suc n) (queues w e) w.sched)
        (λ i. elim (ℕ_discrete (count i (ws e)) 0) [
          | yes z ↦ ap is_occupied (k.state_out i z)
          | no nz ↦ ap is_occupied (k.state_in i nz) ∙ ground (arith, v.parked.waiting e i)
        ])
        c

  pub Effect-Counted : {u : World} → Effect n w u → Counted n u.sched
  unfolding wake_slot
  Effect-Counted (schedules task) = schedule-Counted task
  Effect-Counted (sets e) = set-Counted e
  Effect-Counted (wakes y local alone) = make_ready-Counted n y w.sched (ap is_occupied local) c
  Effect-Counted (quiet u s q m) = subst (Counted n) (sym s) c

pub Effects-Counted :
    {n x : ℕ} {w u : World} {r : List ℕ} {ws : ℕ → List ℕ}
    → Inv n w r ws
    → (w.sched.slots x).state ≡ running
    → Effects n w u
    → Counted n w.sched
    → Counted n u.sched
Effects-Counted v active here c = c
Effects-Counted v active (next s e) c =
    Effect-Counted ((Effects-Grown v active s).0.inv) (Effects-Counted v active s c) e
