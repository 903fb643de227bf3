-- ===== src/Invariant/Suspend.antt =====
-- Suspending the running slot keeps the invariant: on the ready FIFO (`yield_current`), on a timer,
-- on a child, on an event, or parked.
use simple_await.Base.{
  count-last, ℕ, ◌<◌, ◌≤◌, ◌≡◌, ◌≢◌, refl, sym, ◌∙◌, ap, false, some, List, [], ◌∷◌, ◌++◌, arith,
  count, count-append, bit, update, update_each, if◌then◌else◌, ◌==◌,
}
use native.Mathlib.Decide.{ℕ_discrete}
use simple_await.World.{
  running, waiting_local, free, is_ready, is_waiting_local, WaitQueue, Scheduler, World, Slots,
  set_state,
}
use simple_await.Scheduler.{push_back}
use simple_await.Scheduler.Fifo.{
  IsFifo, Chain-frame, push_back-IsFifo, push_back_rest, push_back_next,
}
use simple_await.Scheduler.Ready.{ReadyFifo, ReadyFifo-frame, in_range, bit-le-one}
use simple_await.Invariant.{Inv, queues, Parked, Parked-frame, waits_locally}

module _ {n : ℕ} {s : Scheduler} {r : List ℕ} {q : ℕ → WaitQueue} {ws : ℕ → List ℕ}
    (v : ReadyFifo n s r) (p : Parked s q ws) (x : ℕ) (active : (s.slots x).state ≡ running) where
  pub not_waiting : (e : ℕ) → count x (ws e) ≡ 0
  not_waiting e = ground (arith, p.waiting e x)

  pub active-lt : x < n
  active-lt = in_range v x (λ k. ground arith)

  -- Only the running slot changes, to a state that is not `ready`.
  pub idle_change :
      (t : Scheduler)
      → t.ready_head ≡ s.ready_head
      → t.ready_tail ≡ s.ready_tail
      → t.ready_count ≡ s.ready_count
      → ((i : ℕ) → i ≢ x → t.slots i ≡ s.slots i)
      → is_ready (t.slots x).state ≡ false
      → ReadyFifo n t r × Parked t q ws
  idle_change t head tail amount same idle = (
    ReadyFifo-frame v t head tail amount links states outside,
    Parked-frame t p λ e i h.
        let ne : i ≢ x = λ k. ground (arith, not_waiting e) in
        (
          ap (λ a. a.next) (same i ne),
          ap (λ a. is_waiting_local a.state) (same i ne) ∙ waits_locally p e i h,
        ),
  )
    where
      links : (i : ℕ) → count i r ≢ 0 → (t.slots i).next ≡ (s.slots i).next
      links i h = ap (λ a. a.next) (same i (λ k. ground (arith, v.member x)))

      states : (i : ℕ) → is_ready (t.slots i).state ≡ is_ready (s.slots i).state
      states i = elim (ℕ_discrete i x) [
        | yes e ↦ rw (e, idle, active) refl
        | no ne ↦ ap (λ a. is_ready a.state) (same i ne)
      ]

      outside : (i : ℕ) → n ≤ i → (t.slots i).state ≡ free
      outside i h = ap (λ a. a.state) (same i (λ k. ground (arith, active-lt))) ∙ v.beyond i h

-- Pushing the running slot onto an event's FIFO, as `Event::park` does.
abbrev pub parked_on : ℕ → ℕ → World → World
parked_on e x w =
    let (slots, q') = push_back (set_state w.sched.slots x waiting_local) (queues w e) x in
    record w {
      sched = record (w.sched) { slots = slots };
      events = update w.events e (record (w.events e) { waiters = q' });
    }

module _ {n : ℕ} {w : World} {r : List ℕ} {ws : ℕ → List ℕ} (v : Inv n w r ws) (x e : ℕ)
    (active : (w.sched.slots x).state ≡ running) where
  local_slots : Slots
  local_slots = set_state w.sched.slots x waiting_local

  linked_slots : Slots
  linked_slots = (push_back local_slots (queues w e) x).0

  other : (d i : ℕ) → count i (ws d) ≢ 0 → i ≢ x
  other d i h k = ground (arith, not_waiting v.fifo v.parked x active d)

  waits_last : (i : ℕ) → (queues w e).tail ≡ some i → count i (ws e) ≢ 0
  waits_last i k = omega (arith, count-last (ws e) i (sym (v.parked.fifo e).1 ∙ k))

  state_of :
      (i : ℕ) → (linked_slots i).state ≡ (if i == x then waiting_local else (w.sched.slots i).state)
  unfolding linked_slots local_slots
  state_of i = (push_back_rest local_slots (queues w e) x i).0 ∙ ground arith

  next_of :
      (i : ℕ) → i ≢ x → (queues w e).tail ≢ some i → (linked_slots i).next ≡ (w.sched.slots i).next
  unfolding linked_slots local_slots
  next_of i h k = push_back_next local_slots (queues w e) x i h k ∙ ground arith

  pushed-IsFifo :
      let (slots, q') = push_back local_slots (queues w e) x in
      IsFifo slots q'.head q'.tail (ws e ++ x ∷ [])
  unfolding local_slots
  pushed-IsFifo =
      push_back-IsFifo local_slots (queues w e) (ws e) x
        (λ i.
          omega
            (arith, v.parked.waiting e i, bit-le-one (is_waiting_local (w.sched.slots i).state)))
        (not_waiting v.fifo v.parked x active e)
        (
          Chain-frame w.sched.slots local_slots _ (ws e) (λ i h. ground arith) (v.parked.fifo e).0,
          (v.parked.fifo e).1,
        )

  parked_waiting :
      (d : ℕ) → d ≢ e → (i : ℕ) → count i (ws d) ≤ bit (is_waiting_local (linked_slots i).state)
  parked_waiting d ne i =
      ground (arith, state_of i, v.parked.waiting d i, not_waiting v.fifo v.parked x active d)

  -- The running slot becomes the event's last waiter.
  pub parked_on-Inv : Inv n (parked_on e x w) r (update ws e (ws e ++ x ∷ []))
  unfolding linked_slots local_slots
  parked_on-Inv = record {
    fifo =
        ReadyFifo-frame v.fifo (record (w.sched) { slots = linked_slots }) refl refl refl
          (λ i h.
            next_of i (λ k. ground (arith, v.fifo.member x))
              (λ k. ground (arith, waits_last i k, v.parked.waiting e i, v.fifo.member i)))
          (λ i. ground (arith, state_of i))
          (λ i h.
            ground (arith, state_of i, v.fifo.beyond i h, active-lt v.fifo v.parked x active));
    parked = record {
      fifo =
          update_each (λ d ev l. IsFifo linked_slots ev.waiters.head ev.waiters.tail l) w.events ws
            e _ _ pushed-IsFifo
            (λ d ne. (
              Chain-frame w.sched.slots linked_slots _ (ws d)
                  (λ i h.
                    next_of i (other d i h)
                      (λ k. ground (arith, waits_last i k, v.parked.apart d e i ne)))
                  (v.parked.fifo d).0,
              (v.parked.fifo d).1,
            ));
      waiting =
          update_each
            (λ d ev l. (i : ℕ) → count i l ≤ bit (is_waiting_local (linked_slots i).state)) w.events
            ws e (w.events e) _
            (λ i. ground (
              arith,
              count-append i (ws e) (x ∷ []),
              state_of i,
              v.parked.waiting e i,
              not_waiting v.fifo v.parked x active e,
            ))
            parked_waiting;
      apart = λ c d i h. ground (
        arith,
        v.parked.apart c d i h,
        count-append i (ws e) (x ∷ []),
        not_waiting v.fifo v.parked x active c,
        not_waiting v.fifo v.parked x active d,
        not_waiting v.fifo v.parked x active e,
      );
    };
  }
