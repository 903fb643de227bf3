-- ===== src/Invariant.antt =====
-- The invariant of the scheduler's lists: the ready FIFO of scheduler.h and the waiter FIFO of every
-- `Event`. The intrusive link of a slot serves one list at a time.
pub mod Wake
pub mod Events
pub mod Adopt
pub mod Kept
pub mod Effects
pub mod Suspend
pub mod Waiting
pub mod Initial
pub mod Active
use simple_await.Base.{
  count-last, ℕ, ◌+◌, ◌≤◌, ◌≡◌, ◌≢◌, refl, sym, ◌∙◌, ap, Bool, true, false, Option, some, List, [],
  ◌∷◌, arith, count, bit, get_last?, ◌⊎◌, inl, inr, Bool-cases,
}
use simple_await.World.{State, ready, is_ready, is_waiting_local, WaitQueue, Scheduler, World}
use simple_await.Scheduler.Fifo.{Chain, IsFifo, Chain-frame}
use simple_await.Scheduler.Ready.{ReadyFifo, bit-le-one}
use native.Mathlib.Decide.{ℕ_discrete}

-- Each event's FIFO holds the slots `ws e`, which wait, and none of which waits for two events.
pub record Parked (s : Scheduler) (q : ℕ → WaitQueue) (ws : ℕ → List ℕ) : Type 0 where
  pub fifo : (e : ℕ) → IsFifo s.slots (q e).head (q e).tail (ws e)
  pub waiting : (e i : ℕ) → count i (ws e) ≤ bit (is_waiting_local (s.slots i).state)
  pub apart : (d e i : ℕ) → d ≢ e → count i (ws d) + count i (ws e) ≤ 1

abbrev pub queues : World → ℕ → WaitQueue
queues w e = (w.events e).waiters

pub record Inv (n : ℕ) (w : World) (r : List ℕ) (ws : ℕ → List ℕ) : Type 0 where
  pub fifo : ReadyFifo n w.sched r
  pub parked : Parked w.sched (queues w) ws

-- A slot in an event's FIFO is in state `waiting_local`.
pub waits_locally :
    {s : Scheduler} {q : ℕ → WaitQueue} {ws : ℕ → List ℕ}
    → Parked s q ws
    → (e i : ℕ) → count i (ws e) ≢ 0
    → is_waiting_local (s.slots i).state ≡ true
waits_locally {s} p e i h = ground (arith, p.waiting e i)

-- The last slot of the ready FIFO is ready.
pub tail-ready :
    {n : ℕ} {s : Scheduler} {r : List ℕ}
    → ReadyFifo n s r
    → (t : ℕ) → s.ready_tail ≡ some t
    → is_ready (s.slots t).state ≡ true
tail-ready {n} {s} {r} v t e = ground (arith, count-last r t (sym v.fifo.1 ∙ e), v.member t)

-- The events' FIFOs survive a change that spares the links and the states of their slots.
pub Parked-frame :
    {s : Scheduler} {q : ℕ → WaitQueue} {ws : ℕ → List ℕ} (t : Scheduler)
    → Parked s q ws
    → ((e i : ℕ)
        → count i (ws e) ≢ 0
        → ((t.slots i).next ≡ (s.slots i).next) × (is_waiting_local (t.slots i).state ≡ true))
    → Parked t q ws
Parked-frame {s} {q} {ws} t p same = record {
  fifo = λ e.
      (Chain-frame s.slots t.slots _ (ws e) (λ i h. (same e i h).0) ((p.fifo e).0), (p.fifo e).1);
  waiting = λ e i. elim (ℕ_discrete (count i (ws e)) 0) [
    | yes z ↦ omega arith
    | no nz ↦
        ground (arith, same e i nz, p.waiting e i, bit-le-one (is_waiting_local (s.slots i).state))
  ];
  apart = p.apart;
}
