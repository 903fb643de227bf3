-- ===== src/Pass/Runs.antt =====
-- Any sequence of calls and polls, from the start of the program (scheduler.h).
use simple_await.Base.{
  zero, suc, tally, false, true, ◌<◌, ℕ, ◌≤◌, ◌^◌, ◌≡◌, refl, List, [], ◌∷◌, arith, length,
  tally-le, count, ap, Bool, inl, inr, Bool-cases,
}
use simple_await.Error.{scheduler_reentry}
use native.Mathlib.Decide.{ℕ_discrete}
use simple_await.World.{Scheduler, is_ready, World, Coroutines, on_error}
use simple_await.Scheduler.Ready.{ReadyFifo}
use simple_await.Scheduler.{active_task_count, has_pending_tasks, has_ready_tasks}
use simple_await.Timers.Due.{IsNearest}
use simple_await.Flag.Arming.{Arming}
use simple_await.Invariant.{Inv, Parked, queues}
use simple_await.Invariant.Effects.{Effect, Grown, called-Grown, quiet-Inv}
use simple_await.Invariant.Active.{is_occupied, Counted, Effect-Counted}
use simple_await.Invariant.Initial.{new_world, new_world-Inv}
use simple_await.Pass.{poll}
use simple_await.Pass.Contract.{Cooperative}
use simple_await.Pass.Nearest.{Effect-IsNearest}
use simple_await.Pass.Signals.{Sleeping}
use simple_await.Pass.Poll.{signals, poll-Polled, refused_poll, reentered_poll}

-- Between two calls the invariant holds with some ready FIFO and some waiters of the events, and the
-- cached deadline is no later than any timer's; `active_count_` is the number of slots that hold a task.
pub record Live (n : ℕ) (w : World) : Type 0 where
  pub ready : List ℕ
  pub waiters : ℕ → List ℕ
  pub inv : Inv n w ready waiters
  pub near : IsNearest w.sched
  pub counted : Counted n w.sched

-- The armed flags `l` are those with a waiting slot, each of which waits for no other flag and no event.
pub record FlagsApart (n : ℕ) (w : World) (l : List ℕ) : Type 0 where
  pub arming : Arming w l
  pub room : length l ≤ n
  pub sleeping :
      (ws : ℕ → List ℕ) → Parked w.sched (queues w) ws → Sleeping w.sched ws (signals w l)

-- The worlds that a program reaches between two of its calls of the library from outside a task.
pub data Runs (n : ℕ) (c : Coroutines) : World → Type 0 where
  begins : Runs n c new_world
  calls : {w u : World} → Effect n w u → Runs n c w → Runs n c u
  polls :
      {w : World} (clock : ℕ) (l : List ℕ)
      → FlagsApart n w l
      → Runs n c w
      → Runs n c (poll c n clock w)

Live-Grown :
    {n : ℕ} {w : World} {r : List ℕ}
    → Grown n w r
    → IsNearest w.sched
    → Counted n w.sched
    → Live n w
Live-Grown g near m = record { ready = _; waiters = g.ws; inv = g.inv; near = near; counted = m }

none_occupied : (n : ℕ) → 0 ≡ tally n (λ _. false)
none_occupied zero = refl
none_occupied (suc n) = omega (arith, none_occupied n)

module _ {n : ℕ} (c : Coroutines) (k : Cooperative n c) where
  polled-Live :
      (clock : ℕ) (l : List ℕ) (w : World) → FlagsApart n w l → Live n w → Live n (poll c n clock w)
  polled-Live clock l w a v = elim (Bool-cases w.sched.shutting_down) [
    | inl down ↦ rw (refused_poll n c clock w down) v
    | inr up ↦ elim (Bool-cases w.sched.in_poll) [
      | inl busy ↦ rw (reentered_poll n c clock w up busy) (record {
        ready = v.ready;
        waiters = v.waiters;
        inv = quiet-Inv (on_error scheduler_reentry w) refl (λ e. refl) v.inv;
        near = v.near;
        counted = v.counted;
      })
      | inr idle ↦
          let p =
            poll-Polled c clock k v.inv v.near a.arming a.room (a.sleeping v.waiters v.inv.parked)
              up idle in
          Live-Grown p.grown p.near (p.counted v.counted)
    ]
  ]

  -- With at most 2 ^ 16 slots, and user code that uses the scheduler through its operations only: in
  -- every world that a program reaches by calls and polls, where at each poll the armed flags, at most
  -- `n`, are those with a waiting slot, and the slots of the signalled ones wait for no other flag and no
  -- event: the ready FIFO holds exactly the ready slots, the events' FIFOs hold slots that wait, no slot
  -- is in two of them, the cached deadline is no later than any timer's, and `active_count_` is the
  -- number of slots that hold a task.
  pub Runs-Live : {w : World} → n ≤ 2 ^ 16 → Runs n c w → Live n w
  Runs-Live h begins = record {
    ready = [];
    waiters = λ _. [];
    inv = new_world-Inv n h;
    near = λ i e. absurd (ground arith);
    counted = none_occupied n;
  }
  Runs-Live h (calls e s) =
      let v = Runs-Live h s in
      Live-Grown (called-Grown v.inv e) (Effect-IsNearest n e v.near)
        (Effect-Counted v.inv v.counted e)
  Runs-Live h (polls {w} clock l a s) = polled-Live clock l w a (Runs-Live h s)

-- What the program reads of the scheduler between two calls.
pub record Observed (n : ℕ) (s : Scheduler) : Type 0 where
  pub active : active_task_count s ≡ tally n (λ i. is_occupied (s.slots i).state)
  pub bounded : active_task_count s ≤ n
  pub pending : (i : ℕ) → i < n → is_occupied (s.slots i).state ≡ true → has_pending_tasks s ≡ true
  pub pending_only :
      has_pending_tasks s ≡ true → (i : ℕ) × (i < n) × (is_occupied (s.slots i).state ≡ true)
  pub ready : (i : ℕ) → is_ready (s.slots i).state ≡ true → has_ready_tasks s ≡ true
  pub ready_only : has_ready_tasks s ≡ true → (i : ℕ) × (is_ready (s.slots i).state ≡ true)

count-le-length : (i : ℕ) (l : List ℕ) → count i l ≤ length l
count-le-length i [] = omega arith
count-le-length i (x ∷ l) = ground (arith, count-le-length i l)

tally-member : (n i : ℕ) (p : ℕ → Bool) → i < n → p i ≡ true → 1 ≤ tally n p
tally-member zero i p l h = elim l [ ]
tally-member (suc n) i p l h = elim (ℕ_discrete i n) [
  | yes e ↦ ground (arith, h, ap p e)
  | no ne ↦ omega (arith, tally-member n i p (omega arith) h)
]

-- A predicate that some number below `n` has is had by one that can be named.
tally-witness : (n : ℕ) (p : ℕ → Bool) → 1 ≤ tally n p → (i : ℕ) × (i < n) × (p i ≡ true)
tally-witness zero p l = absurd (omega (arith, l))
tally-witness (suc n) p l = elim (Bool-cases (p n)) [
  | inl h ↦ (n, omega arith, h)
  | inr h ↦
      let (i, below, q) = tally-witness n p (ground (arith, l, h)) in (i, omega (arith, below), q)
]

-- The head of a FIFO that is not empty is ready.
some_ready :
    {n : ℕ} {s : Scheduler} (r : List ℕ)
    → ReadyFifo n s r
    → 1 ≤ length r
    → (i : ℕ) × (is_ready (s.slots i).state ≡ true)
some_ready [] v l = absurd (omega (arith, l))
some_ready (x ∷ r) v l = (x, ground (arith, v.member x))

Live-Observed : {n : ℕ} {w : World} → Live n w → Observed n w.sched
unfolding active_task_count has_pending_tasks has_ready_tasks
Live-Observed {n} {w} v = record {
  active = v.counted;
  bounded = omega (arith, v.counted, tally-le n (λ i. is_occupied (w.sched.slots i).state));
  pending = λ i l h.
      ground (arith, v.counted, tally-member n i (λ j. is_occupied (w.sched.slots j).state) l h);
  pending_only = λ h.
      tally-witness n (λ j. is_occupied (w.sched.slots j).state) (ground (arith, v.counted, h));
  ready_only = λ h. some_ready v.ready v.inv.fifo (ground (arith, v.inv.fifo.counted, h));
  ready = λ i h. ground (arith, v.inv.fifo.counted, count-le-length i v.ready, v.inv.fifo.member i);
}

-- With at most 2 ^ 16 slots, and user code that uses the scheduler through its operations only: in
-- every world that a program reaches by calls and polls, where at each poll the armed flags, at most
-- `n`, are those with a waiting slot, and the slots of the signalled ones wait for no other flag and no
-- event: `activeTaskCount` is the number of slots that hold a task, at most `n`; `hasPendingTasks` is
-- true exactly if one of the `n` slots holds one; and `hasReadyTasks` is true exactly if a slot is ready.
pub Runs-Observed :
    {n : ℕ} (c : Coroutines) {w : World}
    → Cooperative n c
    → n ≤ 2 ^ 16
    → Runs n c w
    → Observed n w.sched
Runs-Observed c k h s = Live-Observed (Runs-Live c k h s)
