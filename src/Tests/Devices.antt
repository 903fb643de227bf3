-- ===== src/Tests/Devices.antt =====
-- The theorems on external contexts, at devices whose semaphore is a Boolean.
use simple_await.Base.{
  inl, inr, Bool-cases, ap, ℕ, ◌≡◌, ◌≢◌, ◌⊎◌, refl, Bool, true, false, none, some, List, [], ◌∷◌,
  arith, ◌==◌, is_some, if◌then◌else◌, not,
}
use simple_await.Flag
use simple_await.Flag.{poll_external_signals, put_flag, consume, park, arm}
use simple_await.Tasks.{is_current}
use simple_await.Waits.{running_is, park_running}
use simple_await.Device.{
  Semaphore, IsBinary, Device, Signal, mark_signaled, call_wake, signal, interrupted,
  platform_prepare_scheduler_wait, poll_interrupted, wait_interrupted, idle_wait, returns_at_once,
}
use simple_await.Device.Scan.{Guarded}
use simple_await.Device.Served.{Drained}
use simple_await.Device.Poll.{MarkedIn, poll_interrupted-Drained}
use simple_await.Device.Alone.{poll_interrupted-alone}
use simple_await.Device.Steps.{signals, waits, Steps, done, after, IsGuarded, Steps-Guarded}
use simple_await.Device.Cycle.{Fits, Arming-Fits, starts}
use simple_await.World.{Coroutines}
use simple_await.Device.Passes.{Behaves}
use simple_await.Device.Turn.{TurnAlert, poll_and_wait-TurnAlert}
use simple_await.Device.Wakeup.{no_lost_wakeup}
use simple_await.Tests.{capacity, busy_world, idle_world}
use simple_await.Tests.Flags.{flag_world, flag_world-Arming}
use simple_await.Tests.Idle.{esp32}

abbrev boolean : Semaphore Bool
boolean = record {
  create = false;
  give = λ _. true;
  give_from_isr = λ s. (not s, true);
  take = λ _. false;
  available = λ s. s;
}

boolean-IsBinary : IsBinary boolean
boolean-IsBinary = record {
  created_empty = refl;
  gives = λ s. refl;
  gives_from_isr = λ s. refl;
  takes = λ s. refl;
}

-- Flag 1 is signalled and pending, and flag 2 is not; the semaphore is created.
abbrev flag_device : Device Bool
flag_device = record { world = flag_world; scheduler_wake = some false; waking = 1 }

-- Flag 2 is signalled before the first round, and its caller gives the token behind it.
abbrev late_calls : ℕ → List Signal
late_calls k =
    if k == 1
    then mark_signaled 2 ∷ []
    else if k == 2
    then call_wake true ∷ call_wake false ∷ []
    else []

flag_device-Guarded : Guarded boolean false flag_device (1 ∷ 2 ∷ [])
flag_device-Guarded = record {
  arming = flag_world-Arming;
  prepared = λ q. refl;
  covered = λ f n s. refl;
}

poll_interrupted-Drained_example :
    Drained boolean true
      (MarkedIn late_calls)
      []
      (1 ∷ 2 ∷ [])
      flag_device
      (poll_interrupted boolean capacity late_calls flag_device)
poll_interrupted-Drained_example =
    poll_interrupted-Drained boolean true capacity late_calls boolean-IsBinary flag_device-Guarded
      (λ q. refl) (omega arith)

poll_interrupted-alone_at_work :
    (poll_interrupted boolean capacity (λ _. []) flag_device
      ≡ record flag_device { world = poll_external_signals capacity flag_world })
    × (wait_interrupted boolean 3 10 [] flag_device ≡ (
      (Flag.wait 3 10 flag_world).0,
      record flag_device { world = (Flag.wait 3 10 flag_world).1 },
    ))
poll_interrupted-alone_at_work = poll_interrupted-alone boolean capacity 3 10 flag_device

-- The running task waits for flag 3, which is signalled between the test of the flag and the wait.
abbrev waited_device : Device Bool
waited_device = (wait_interrupted boolean 3 10 (mark_signaled 3 ∷ []) flag_device).1

Steps-Guarded_example : IsGuarded boolean false waited_device
Steps-Guarded_example =
    Steps-Guarded boolean false boolean-IsBinary
      (after (done flag_device) (waits 3 10 (mark_signaled 3 ∷ []) flag_device))
      (1 ∷ 2 ∷ [], flag_device-Guarded)

-- No flag is armed, and slot 0 runs.
abbrev quiet_device : Device Bool
quiet_device = record { world = busy_world; scheduler_wake = none; waking = 0 }

abbrev polled_device : Device Bool
polled_device =
    poll_interrupted boolean capacity (λ _. [])
      (platform_prepare_scheduler_wait boolean quiet_device)

-- The running task waits for flag 3; then the flag is signalled.
abbrev parked_device : Device Bool
parked_device = (wait_interrupted boolean 3 10 [] polled_device).1

abbrev rung_device : Device Bool
rung_device = signal boolean (mark_signaled 3) parked_device

rung_steps : Steps boolean polled_device rung_device
rung_steps =
    after (after (done polled_device) (waits 3 10 [] polled_device))
      (signals (mark_signaled 3) parked_device)

quiet_device-Fits : Fits capacity quiet_device
quiet_device-Fits =
    Arming-Fits capacity quiet_device [] (record { linked = refl; member = λ f. refl })
      (omega arith)

rung_waiter : is_some (rung_device.world.flags 3).waiter ≡ true
unfolding poll_interrupted interrupted platform_prepare_scheduler_wait wait_interrupted consume park
    running_is park_running arm signal Flag.set is_current
rung_waiter = refl

rung_signal : (rung_device.world.flags 3).signaled ≡ true
unfolding poll_interrupted interrupted platform_prepare_scheduler_wait wait_interrupted consume park
    running_is park_running arm signal Flag.set is_current
rung_signal = refl

no_lost_wakeup_example :
    (returns_at_once boolean (idle_wait boolean esp32 200 rung_device) rung_device ≡ true)
    ⊎ ((rung_device.waking ≢ 0)
        × ((in_isr : Bool)
            → returns_at_once boolean
                (idle_wait boolean esp32 200 (signal boolean (call_wake in_isr) rung_device))
                (signal boolean (call_wake in_isr) rung_device)
              ≡ true))
no_lost_wakeup_example =
    no_lost_wakeup boolean boolean-IsBinary capacity (λ _. []) esp32 200 3
      (starts quiet_device refl (λ f. refl)) quiet_device-Fits rung_steps rung_waiter rung_signal

-- The coroutine of frame 10 waits for flag 3; every other one runs to its end.
abbrev waiting : Coroutines
waiting = record {
  resume = λ frame w. if frame == 10 then (Flag.wait 3 10 w).1 else w;
  done = λ frame w. not (frame == 10);
  release = λ frame w. w;
}

waiting-Behaves : Behaves boolean waiting
waiting-Behaves = record {
  resumes = λ frame d. elim (Bool-cases (frame == 10)) [
    | inl h ↦ rw h (record {
      reached = (wait_interrupted boolean 3 10 [] d).1;
      there =
          ap (λ (o : Bool × Device Bool). o.1.world)
            (poll_interrupted-alone boolean capacity 3 10 d).1;
      steps = after (done d) (waits 3 10 [] d);
    })
    | inr h ↦ rw h (record { reached = d; there = refl; steps = done d })
  ];
  releases = λ frame d. record { reached = d; there = refl; steps = done d };
}

-- No poll is under way, and no flag is armed.
abbrev open_device : Device Bool
open_device = record {
  world = record idle_world { sched = record (idle_world.sched) { in_poll = false } };
  scheduler_wake = none;
  waking = 0;
}

open_device-Fits : Fits capacity open_device
open_device-Fits =
    Arming-Fits capacity open_device [] (record { linked = refl; member = λ f. refl }) (omega arith)

poll_and_wait-TurnAlert_example :
    TurnAlert boolean waiting capacity 200 (λ _. mark_signaled 3 ∷ []) esp32 200 open_device
poll_and_wait-TurnAlert_example =
    poll_and_wait-TurnAlert boolean waiting capacity 200 (λ _. mark_signaled 3 ∷ []) esp32 200
      boolean-IsBinary waiting-Behaves (starts open_device refl (λ f. refl)) open_device-Fits refl
      refl
