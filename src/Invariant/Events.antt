-- ===== src/Invariant/Events.antt =====
-- event.h keeps the invariant, and moves its waiters between the FIFOs.
use simple_await.Base.{
  ℕ, suc, ◌≤◌, ◌≡◌, ◌≢◌, true, List, [], ◌++◌, arith, count, bit, length, tally-le, length-eq-tally,
  update, ◌==◌, update_each,
}
use native.Mathlib.Decide.{ℕ_discrete}
use simple_await.World.{State, waiting_local, is_waiting_local, Scheduler, World}
use simple_await.Scheduler.Fifo.{IsFifo, Chain-frame}
use simple_await.Scheduler.Ready.{bit-le-one}
use simple_await.Waits.{wake_all}
use simple_await.Event
use simple_await.Event.{new_event}
use simple_await.Invariant.{Inv, waits_locally}
use simple_await.Invariant.Wake.{WaitList, WokeAll, wake_all-WokeAll}

local_of_test : (v : State) → is_waiting_local v ≡ true → v ≡ waiting_local
local_of_test v h = ground arith

-- The scheduler after `Event::set`.
abbrev pub woken_by : ℕ → World → ℕ → Scheduler
woken_by n w e = (wake_all (suc n) (w.events e).waiters w.sched).1

module _ {n : ℕ} {w : World} {r : List ℕ} {ws : ℕ → List ℕ} (v : Inv n w r ws) where
  wait_list : (e : ℕ) → WaitList w.sched (w.events e).waiters (ws e)
  wait_list e = record {
    fifo = v.parked.fifo e;
    distinct = λ i.
        omega (arith, v.parked.waiting e i, bit-le-one (is_waiting_local (w.sched.slots i).state));
    waiting = λ i h. local_of_test (w.sched.slots i).state (waits_locally v.parked e i h);
  }

  -- An event has at most as many waiters as there are slots.
  length-waiters-le : (e : ℕ) → length (ws e) ≤ n
  length-waiters-le e = omega (
    arith,
    length-eq-tally n (ws e) (λ i. count i (ws e) == 1)
        (λ i. ground (arith, (wait_list e).distinct i))
        (λ i k. ground (arith, v.parked.waiting e i, v.fifo.beyond i k)),
    tally-le n (λ i. count i (ws e) == 1),
  )

  pub woke_all :
      (e : ℕ) → WokeAll n w.sched r (ws e) (wake_all (suc n) (w.events e).waiters w.sched)
  woke_all e =
      wake_all-WokeAll (suc n) (w.events e).waiters (ws e) v.fifo (wait_list e)
        (omega (arith, length-waiters-le e))

  elsewhere : (e d : ℕ) → d ≢ e → (i : ℕ) → count i (ws d) ≢ 0 → count i (ws e) ≡ 0
  elsewhere e d ne i h = omega (arith, v.parked.apart d e i ne)

  others :
      (e d : ℕ)
      → d ≢ e
      → (i : ℕ) → count i (ws d) ≢ 0
      → ((woken_by n w e).slots i).next ≡ (w.sched.slots i).next
  others e d ne i h =
      (woke_all e).woken.next_out i (elsewhere e d ne i h)
        (ground (arith, waits_locally v.parked d i h))

  -- From a state of the invariant, `Event::set` appends the event's waiters, in their order, to the ready
  -- FIFO, leaves the event with none, and the invariant holds again.
  pub set-Inv : (e : ℕ) → Inv n (Event.set n e w) (r ++ ws e) (update ws e [])
  unfolding Event.set
  set-Inv e = record {
    fifo = (woke_all e).fifo;
    parked = record {
      fifo =
          update_each (λ d ev l. IsFifo (woken_by n w e).slots ev.waiters.head ev.waiters.tail l)
            w.events ws e _ [] ((woke_all e).head, (woke_all e).tail)
            (λ d ne. (
              Chain-frame w.sched.slots (woken_by n w e).slots _ (ws d) (others e d ne)
                  (v.parked.fifo d).0,
              (v.parked.fifo d).1,
            ));
      waiting =
          update_each
            (λ d ev l.
              (i : ℕ) → count i l ≤ bit (is_waiting_local ((woken_by n w e).slots i).state))
            w.events ws e new_event [] (λ i. omega arith)
            (λ d ne i. still d ne i (ℕ_discrete (count i (ws d)) 0));
      apart = λ c d i h. ground (arith, v.parked.apart c d i h);
    };
  }
    where
      still :
          (d : ℕ)
          → d ≢ e
          → (i : ℕ) → Dec (count i (ws d) ≡ 0)
          → count i (ws d) ≤ bit (is_waiting_local ((woken_by n w e).slots i).state)
      still d ne i (yes z) = omega arith
      still d ne i (no nz) =
          rw ((woke_all e).woken.state_out i (elsewhere e d ne i nz)) (v.parked.waiting d i)
