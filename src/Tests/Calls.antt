-- ===== src/Tests/Calls.antt =====
-- The theorems on single calls of scheduler.h, at concrete schedulers.
use simple_await.Base.{◌*◌, ◌≡◌, refl, true, some, [], ◌∷◌, arith}
use simple_await.Scheduler.{find_from, push_back, pop_front, make_ready, acquire_slot, ready_pop}
use simple_await.Scheduler.Fifo.{IsFifo, push_back-IsFifo, pop_front-IsFifo}
use simple_await.Scheduler.Ready.{ReadyFifo, make_ready-ReadyFifo, ready_pop-ReadyFifo, begin_run}
use simple_await.Scheduler.Acquire.{AcquireResult, acquire_slot-AcquireResult}
use simple_await.Tasks.{schedule, start_child_await}
use simple_await.Tasks.Schedule.{ScheduleResult, schedule-ScheduleResult}
use simple_await.Tasks.Outcome.{Outcome}
use simple_await.Tasks.Handles.{HandleFacts, schedule-HandleFacts}
use simple_await.Invariant.{Inv, queues}
use simple_await.Invariant.Initial.{new_world, new_world-Inv}
use simple_await.Tasks.Children.{ChildResult, start_child_await-ChildResult}
use simple_await.Timers.{arm_current_timer, delay_ms}
use simple_await.Timers.Due.{IsNearest}
use simple_await.Timers.Arm.{ArmResult, arm_current_timer-ArmResult, delay_ms-ArmResult}
use simple_await.Tests.{mixed, capacity, idle_world, busy_world, idle_world-Inv}

schedule-ScheduleResult_at_work :
    ScheduleResult capacity (some 30) busy_world (schedule capacity (some 30) busy_world)
schedule-ScheduleResult_at_work = schedule-ScheduleResult capacity (some 30) busy_world

accepted : (schedule capacity (some 30) busy_world).0.bound ≡ true
unfolding schedule acquire_slot find_from
accepted = refl

schedule-HandleFacts_at_work :
    HandleFacts capacity busy_world (schedule capacity (some 30) busy_world)
schedule-HandleFacts_at_work =
    schedule-HandleFacts capacity (some 30) busy_world (omega arith) (λ i. ground arith) accepted

acquire_slot-AcquireResult_example :
    AcquireResult capacity idle_world.sched (acquire_slot capacity idle_world.sched)
acquire_slot-AcquireResult_example = acquire_slot-AcquireResult capacity idle_world.sched

make_ready-ReadyFifo_at_work : ReadyFifo capacity (make_ready 3 idle_world.sched) (0 ∷ 2 ∷ 3 ∷ [])
make_ready-ReadyFifo_at_work = make_ready-ReadyFifo idle_world-Inv.fifo 3 (omega arith) refl

ready_pop-ReadyFifo_at_work :
    ((ready_pop idle_world.sched).0 ≡ some 0)
    × ReadyFifo capacity (begin_run 0 (ready_pop idle_world.sched).1) (2 ∷ [])
ready_pop-ReadyFifo_at_work = ready_pop-ReadyFifo idle_world-Inv.fifo

push_back-IsFifo_at_work :
    let (slots, q) = push_back idle_world.sched.slots (queues idle_world 5) 3 in
    IsFifo slots q.head q.tail (1 ∷ 3 ∷ [])
push_back-IsFifo_at_work =
    push_back-IsFifo idle_world.sched.slots (queues idle_world 5) (1 ∷ []) 3 (λ i. ground arith)
      refl (idle_world-Inv.parked.fifo 5)

first_waiter-IsFifo :
    let (x, slots, q) = pop_front idle_world.sched.slots (queues idle_world 5) in
    (x ≡ some 1) × IsFifo slots q.head q.tail []
first_waiter-IsFifo =
    pop_front-IsFifo idle_world.sched.slots (queues idle_world 5) 1 [] (λ i. ground arith)
      (idle_world-Inv.parked.fifo 5)

new_world_start-Inv : Inv capacity new_world [] (λ _. [])
new_world_start-Inv = new_world-Inv capacity (omega arith)

start_child_await-ChildResult_example :
    ChildResult capacity mixed 40 10 busy_world (start_child_await mixed capacity 40 10 busy_world)
start_child_await-ChildResult_example =
    start_child_await-ChildResult capacity mixed 40 10 busy_world

arm_current_timer-ArmResult_at_work :
    ArmResult 20 busy_world (arm_current_timer 20 busy_world)
    × IsNearest (arm_current_timer 20 busy_world).sched
arm_current_timer-ArmResult_at_work =
    arm_current_timer-ArmResult 20 busy_world (omega arith) (omega arith) (λ i e. ground arith)

delay_ms-ArmResult_at_work : ArmResult (3 * 1000) busy_world (delay_ms 3 busy_world)
delay_ms-ArmResult_at_work = delay_ms-ArmResult 3 busy_world (omega arith) (omega arith)
