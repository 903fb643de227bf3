-- ===== src/Scheduler.antt =====
-- src/simpleawait/scheduler.h: the FIFO of ready slots and the FIFOs of waiting slots.
pub mod Fifo
pub mod Ready
pub mod Acquire
use simple_await.Base.{
  ℕ, zero, suc, Bool, Option, none, some, update, not, ◌&&◌, ◌==◌, ltb, if◌then◌else◌,
}
use simple_await.World.{
  Slots, set_next, set_state, ready, WaitQueue, Scheduler, increment, decrement, is_free,
  is_completed,
}
use simple_await.Time.{uint32_max}

-- `WaitQueue::push_back`.
unfoldable pub push_back : Slots → WaitQueue → ℕ → Slots × WaitQueue
push_back slots q x =
    let cleared = set_next slots x none in
    elim q.tail [
      | none ↦ (cleared, record q { head = some x; tail = some x })
      | some t ↦ (set_next cleared t (some x), record q { tail = some x })
    ]

-- `WaitQueue::pop_front`.
unfoldable pub pop_front : Slots → WaitQueue → Option ℕ × Slots × WaitQueue
pop_front slots q = elim q.head [
  | none ↦ (none, slots, q)
  | some x ↦
      let rest = (slots x).next in
      (
        some x,
        set_next slots x none,
        record { head = rest; tail = elim rest [ none ↦ none | some _ ↦ q.tail ] },
      )
]

-- `ready_push`.
unfoldable pub ready_push : ℕ → Scheduler → Scheduler
ready_push x s =
    let cleared = set_next s.slots x none in
    elim s.ready_tail [
      | none ↦ record s {
        slots = cleared;
        ready_head = some x;
        ready_tail = some x;
        ready_count = increment s.ready_count;
      }
      | some t ↦ record s {
        slots = set_next cleared t (some x);
        ready_tail = some x;
        ready_count = increment s.ready_count;
      }
    ]

-- `ready_pop`.
unfoldable pub ready_pop : Scheduler → Option ℕ × Scheduler
ready_pop s = elim s.ready_head [
  | none ↦ (none, s)
  | some x ↦
      let rest = (s.slots x).next in
      (
        some x,
        record s {
          slots = set_next s.slots x none;
          ready_head = rest;
          ready_tail = elim rest [ none ↦ none | some _ ↦ s.ready_tail ];
          ready_count = decrement s.ready_count;
        },
      )
]

-- `slot->state = State::ready; ready_push(slot);`, which the code writes at each wake.
unfoldable pub make_ready : ℕ → Scheduler → Scheduler
make_ready x s = ready_push x (record s { slots = set_state s.slots x ready })

-- `for (Slot& s : slots_) if (test(s)) return &s;`, with `k` slots left from index `i`.
unfoldable pub find_from : ℕ → ℕ → (ℕ → Bool) → Option ℕ
find_from zero i test = none
find_from (suc k) i test = if test i then some i else find_from k (suc i) test

-- `++s.generation`, on a `uint32_t`.
unfoldable pub bump : ℕ → Scheduler → Scheduler
bump x s = record s {
  slots = update s.slots x (record (s.slots x) { generation = increment (s.slots x).generation });
}

-- `acquire_slot`.
unfoldable pub acquire_slot : ℕ → Scheduler → Option ℕ × Scheduler
acquire_slot max_tasks s =
    elim (find_from max_tasks 0
      (λ i. is_free (s.slots i).state && not ((s.slots i).generation == uint32_max))) [
        | some x ↦ (some x, bump x s)
        | none ↦
            elim (find_from max_tasks 0
              (λ i. is_completed (s.slots i).state && not ((s.slots i).generation == uint32_max))) [
                | some x ↦ (some x, bump x s)
                | none ↦ (none, s)
              ]
      ]

-- `hasReadyTasks`, `hasPendingTasks` and `activeTaskCount`.
unfoldable pub has_ready_tasks : Scheduler → Bool
has_ready_tasks s = ltb 0 s.ready_count

unfoldable pub has_pending_tasks : Scheduler → Bool
has_pending_tasks s = ltb 0 s.active_count

unfoldable pub active_task_count : Scheduler → ℕ
active_task_count s = s.active_count
