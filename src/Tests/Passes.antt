-- ===== src/Tests/Passes.antt =====
-- The theorems on whole passes of scheduler.h, at concrete worlds.
use simple_await.Base.{
  true, false, refl, none, some, [], ◌∷◌, ◌==◌, arith, inl, inr, Bool-cases, update, if◌then◌else◌,
}
use simple_await.World.{World, waiting_local}
use simple_await.Flag.{new_flag}
use simple_await.Pass.{poll}
use simple_await.Pass.Poll.{Polled, poll-Polled}
use simple_await.Waits.{yield_current, wake_all}
use simple_await.Timers.{process_due_timers}
use simple_await.Event
use simple_await.Pass.{run_pass, teardown}
use simple_await.Pass.Teardown.{TornDown, teardown-TornDown}
use simple_await.Pass.Contract.{Cooperative, yields, finishes, suspends}
use simple_await.Pass.Body.{Suspension-Suspended, Suspended}
use simple_await.Pass.Run.{Passed, run_pass-Passed}
use simple_await.Timers.Due.{WokeDue, IsNearest, process_due_timers-WokeDue}
use simple_await.Invariant.{Inv, queues}
use simple_await.Invariant.Effects.{here}
use simple_await.Invariant.Wake.{WaitList, WokeAll, wake_all-WokeAll}
use simple_await.Invariant.Events.{set-Inv}
use simple_await.Invariant.Waiting.{WaitResult, wait-WaitResult}
use simple_await.Tests.{
  mixed, capacity, idle_world, busy_world, waiters, idle_world-Inv, busy_world-Inv,
}

pub mixed-Cooperative : Cooperative capacity mixed
mixed-Cooperative = record {
  resumes = λ x frame w current active owned. elim (Bool-cases (frame == 10)) [
    | inl h ↦ rw h (finishes refl here)
    | inr h ↦ rw h (suspends w refl here (yields refl))
  ];
  releases = λ frame w. here;
}

run_pass-Passed_example : Passed capacity idle_world (run_pass mixed idle_world) (0 ∷ 2 ∷ []) []
run_pass-Passed_example = run_pass-Passed mixed (0 ∷ 2 ∷ []) mixed-Cooperative idle_world-Inv

process_due_timers-WokeDue_example :
    WokeDue capacity idle_world.sched
      (0 ∷ 2 ∷ [])
      (queues idle_world)
      waiters
      (process_due_timers capacity idle_world.sched)
    × IsNearest (process_due_timers capacity idle_world.sched)
process_due_timers-WokeDue_example =
    process_due_timers-WokeDue idle_world-Inv.fifo idle_world-Inv.parked (λ i e. ground arith)

set-Inv_at_work :
    Inv capacity (Event.set capacity 5 idle_world) (0 ∷ 2 ∷ 1 ∷ []) (update waiters 5 [])
set-Inv_at_work = set-Inv idle_world-Inv 5

wait-WaitResult_example :
    WaitResult capacity 0 5 10 busy_world (2 ∷ []) waiters (Event.wait 5 10 busy_world)
wait-WaitResult_example = wait-WaitResult 0 5 10 busy_world-Inv refl refl

waiting_one : WaitList idle_world.sched (queues idle_world 5) (1 ∷ [])
waiting_one = record {
  fifo = idle_world-Inv.parked.fifo 5;
  distinct = λ i. ground arith;
  waiting = λ i h. ground arith;
}

wake_all-WokeAll_example :
    WokeAll capacity idle_world.sched
      (0 ∷ 2 ∷ [])
      (1 ∷ [])
      (wake_all 2 (queues idle_world 5) idle_world.sched)
wake_all-WokeAll_example =
    wake_all-WokeAll 2 (queues idle_world 5) (1 ∷ []) idle_world-Inv.fifo waiting_one (omega arith)

Suspension-Suspended_at_work :
    Suspended capacity 0 busy_world
      (record busy_world { sched = yield_current busy_world.sched })
      (2 ∷ [])
Suspension-Suspended_at_work =
    Suspension-Suspended busy_world-Inv 0 refl refl mixed mixed-Cooperative (yields refl)

teardown-TornDown_example :
    TornDown capacity 0
      (record idle_world { sched = record (idle_world.sched) { shutting_down = true } })
      (teardown mixed capacity idle_world)
teardown-TornDown_example = teardown-TornDown mixed capacity idle_world (λ frame w. (refl, refl))

-- Between two polls: slots 0 and 2 are ready, slot 3 waits for a timer, slot 1 for event 5 and slot 4 for
-- flag 1, which is signalled.
abbrev poll_world : World
poll_world = record idle_world {
  sched = record (idle_world.sched) {
    slots = update idle_world.sched.slots 4 (record {
      handle = some 14;
      next = none;
      parent = none;
      deadline_us = 0;
      generation = 1;
      state = waiting_local;
    });
    in_poll = false;
  };
  flags = λ f.
      if f == 1 then record { signaled = true; waiter = some 4; armed_next = none } else new_flag;
  armed_head = some 1;
  pending = true;
}

poll_world-Inv : Inv capacity poll_world (0 ∷ 2 ∷ []) waiters
poll_world-Inv = record {
  fifo = record {
    limit = omega arith;
    fifo = ground arith;
    member = λ i. ground arith;
    counted = refl;
    beyond = λ i h. ground arith;
  };
  parked = record {
    fifo = λ e. ground arith;
    waiting = λ e i. ground arith;
    apart = λ c d i h. ground arith;
  };
}

poll-Polled_example :
    Polled capacity 150 poll_world (poll mixed capacity 150 poll_world) (0 ∷ 2 ∷ []) (1 ∷ [])
poll-Polled_example =
    poll-Polled mixed 150 mixed-Cooperative poll_world-Inv (λ i e. ground arith)
      (record { linked = ground arith; member = λ f. ground arith }) (omega arith)
      (record {
        distinct = λ i. ground arith;
        waiting = λ i h. ground arith;
        unparked = λ e i h. ground arith;
      })
      refl refl
