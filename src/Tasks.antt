-- ===== src/Tasks.antt =====
-- src/simpleawait/task.h and the scheduling of tasks in scheduler.h: `Task<void>` and its awaiter,
-- handles, `schedule` and `start_child_await`. A `Task` is the address of the frame that it owns.
pub mod Schedule
pub mod Handles
pub mod Outcome
pub mod Children
use simple_await.Base.{
  ℕ, ◌%◌, ◌^◌, Bool, true, false, Option, none, some, update, not, is_some, ◌&&◌, ◌==◌, ltb, leb,
  if◌then◌else◌,
}
use simple_await.Error.{invalid_task, task_limit, task_awaited_twice}
use simple_await.World.{
  set_state, ready, waiting_child, Scheduler, World, Coroutines, on_error, destroy, increment,
  is_free, is_completed, is_running,
}
use simple_await.Scheduler.{ready_push, make_ready, acquire_slot}

abbrev pub Task : Type 0
Task = Option ℕ

pub record TaskId : Type 0 where
  pub slot : ℕ
  pub generation : ℕ

-- `bound` is `sched_ != nullptr`.
pub record TaskHandle : Type 0 where
  pub bound : Bool
  pub id : TaskId

abbrev pub no_handle : TaskHandle
no_handle = record { bound = false; id = record { slot = 0; generation = 0 } }

-- `index_of`: the cast to `uint16_t`.
unfoldable pub index_of : ℕ → ℕ
index_of x = x % 2 ^ 16

unfoldable pub handle_valid : ℕ → Scheduler → TaskId → Bool
handle_valid max_tasks s id =
    if leb max_tasks id.slot
    then false
    else ((s.slots id.slot).generation == id.generation && not (is_free (s.slots id.slot).state))

unfoldable pub handle_done : ℕ → Scheduler → TaskId → Bool
handle_done max_tasks s id =
    if leb max_tasks id.slot
    then false
    else ((s.slots id.slot).generation == id.generation && is_completed (s.slots id.slot).state)

-- `TaskHandle::valid` and `TaskHandle::done`.
unfoldable pub valid : ℕ → Scheduler → TaskHandle → Bool
valid max_tasks s h = h.bound && handle_valid max_tasks s h.id

unfoldable pub done : ℕ → Scheduler → TaskHandle → Bool
done max_tasks s h = h.bound && handle_done max_tasks s h.id

-- `currentTask`.
unfoldable pub current_task : Scheduler → TaskHandle
current_task s = elim s.current [
  | none ↦ no_handle
  | some x ↦ record {
    bound = true;
    id = record { slot = index_of x; generation = (s.slots x).generation };
  }
]

-- The statements that fill an acquired slot, the same in `schedule` and in `start_child_await`.
unfoldable pub adopt : ℕ → ℕ → Option ℕ → Scheduler → Scheduler
adopt x frame parent s =
    let filled = record s {
      slots =
          update s.slots x (record (s.slots x) {
            handle = some frame;
            state = ready;
            next = none;
            parent = parent;
          });
    } in
    let pushed = ready_push x filled in
    let active = increment pushed.active_count in
    record pushed {
      active_count = active;
      peak_count = if ltb pushed.peak_count active then active else pushed.peak_count;
    }

-- `schedule`, which `create_task` and `spawn` call: the handle, the caller's task afterwards, and
-- the world.
unfoldable pub schedule : ℕ → Task → World → TaskHandle × Task × World
schedule max_tasks task w = if w.sched.shutting_down then (no_handle, task, w) else elim task [
  | none ↦ (no_handle, none, on_error invalid_task w)
  | some frame ↦
      let (slot, s) = acquire_slot max_tasks w.sched in
      elim slot [
        | none ↦ (no_handle, some frame, on_error task_limit (record w { sched = s }))
        | some x ↦
            let adopted = adopt x frame none s in
            (
              record {
                bound = true;
                id = record { slot = index_of x; generation = (adopted.slots x).generation };
              },
              none,
              record w { sched = adopted },
            )
      ]
]

-- `Task::reset`, the body of `~Task`.
unfoldable pub reset : Coroutines → Task → World → Task × World
reset c task w = elim task [ none ↦ (none, w) | some frame ↦ (none, destroy c frame w) ]

-- The statement `spawn(f());` on a temporary task, with the temporary's destructor.
unfoldable pub spawn : Coroutines → ℕ → Task → World → World
unfolding schedule reset
spawn c max_tasks task w = let (_, left, w') = schedule max_tasks task w in (reset c left w').1

-- Move assignment between two distinct tasks: the target, the source and the world afterwards.
unfoldable pub move_assign : Coroutines → Task → Task → World → Task × Task × World
move_assign c target source w =
    let previous = target in
    (source, none, elim previous [ none ↦ w | some frame ↦ destroy c frame w ])

-- `handle.address() == awaiting.address()`.
abbrev pub same_frame : Option ℕ → ℕ → Bool
same_frame none awaiting = false
same_frame (some frame) awaiting = frame == awaiting

-- `current_ != nullptr && current_->state == State::running && current_->handle.address() ==
-- awaiting.address()`, which the code writes at each await.
unfoldable pub is_current : Scheduler → ℕ → Bool
is_current s awaiting = elim s.current [
  | none ↦ false
  | some x ↦ is_running (s.slots x).state && same_frame (s.slots x).handle awaiting
]

-- `start_child_await`: whether the awaiting coroutine stays suspended, and the world.
unfoldable pub start_child_await : Coroutines → ℕ → ℕ → ℕ → World → Bool × World
start_child_await c max_tasks child awaiting w = elim w.sched.current [
  | none ↦ (false, on_error invalid_task (destroy c child w))
  | some parent ↦
      if not (is_current w.sched awaiting)
      then (false, on_error invalid_task (destroy c child w))
      else (let (slot, s) = acquire_slot max_tasks w.sched in
          elim slot [
            | none ↦
                let w' = destroy c child (record w { sched = s }) in
                (true, on_error task_limit (record w' { sched = make_ready parent w'.sched }))
            | some x ↦
                let s' = adopt x child (some parent) s in
                (
                  true,
                  record w {
                    sched = record s' { slots = set_state s'.slots parent waiting_child };
                  },
                )
          ])
]

-- `TaskAwaiter`: the child frame that it owns, and whether it was made from an empty task.
pub record TaskAwaiter : Type 0 where
  pub child : Option ℕ
  pub was_empty : Bool

-- `operator co_await`: the awaiter, and the task that it empties.
unfoldable pub co_await : Task → TaskAwaiter × Task
co_await task = (record { child = task; was_empty = not (is_some task) }, none)

-- The three calls of the awaiter that `co_await` makes, and its destructor: whether the awaiting
-- coroutine suspends, the child left in the awaiter, and the world.
unfoldable pub await_task : Coroutines → ℕ → TaskAwaiter → ℕ → World → Bool × Option ℕ × World
await_task c max_tasks a awaiting w =
    if a.was_empty then (false, a.child, on_error task_awaited_twice w) else elim a.child [
      | none ↦ (false, none, w)
      | some child ↦
          let (suspend, w') = start_child_await c max_tasks child awaiting w in (suspend, none, w')
    ]

unfoldable pub drop_awaiter : Coroutines → TaskAwaiter → World → World
drop_awaiter c a w = elim a.child [ none ↦ w | some child ↦ destroy c child w ]
