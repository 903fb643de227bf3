-- ===== src/Tests/Programs.antt =====
-- The theorems on sequences of calls, at programs that create a task and poll.
use simple_await.Base.{◌≡◌, true, some, refl, [], arith}
use simple_await.World.{World}
use simple_await.Scheduler.{acquire_slot, find_from, bump, ready_push}
use simple_await.Tasks.{schedule, adopt}
use simple_await.Invariant.Effects.{schedules}
use simple_await.Invariant.Initial.{new_world}
use simple_await.Pass.{poll}
use simple_await.Pass.Runs.{
  Live, FlagsApart, begins, calls, polls, Runs-Live, Observed, Runs-Observed,
}
use simple_await.Pass.Generations.{Tracked, schedule-Tracked}
use simple_await.Tests.{mixed, capacity}
use simple_await.Tests.Passes.{mixed-Cooperative}

abbrev started : World
started = (schedule capacity (some 10) new_world).2

started-FlagsApart : FlagsApart capacity started []
unfolding schedule acquire_slot find_from adopt bump ready_push
started-FlagsApart = record {
  arming = record { linked = refl; member = λ f. refl };
  room = omega arith;
  sleeping = λ ws p. record {
    distinct = λ i. omega arith;
    waiting = λ i h. absurd (h refl);
    unparked = λ e i h. absurd (h refl);
  };
}

Runs-Live_example : Live capacity (poll mixed capacity 5 started)
Runs-Live_example =
    Runs-Live mixed mixed-Cooperative (omega arith)
      (polls 5 [] started-FlagsApart (calls (schedules (some 10)) begins))

Runs-Observed_example : Observed capacity (poll mixed capacity 5 started).sched
Runs-Observed_example =
    Runs-Observed mixed mixed-Cooperative (omega arith)
      (polls 5 [] started-FlagsApart (calls (schedules (some 10)) begins))

-- In the new scheduler, slot 0 is taken.
first_accepted : (schedule capacity (some 10) new_world).0.bound ≡ true
unfolding schedule acquire_slot find_from
first_accepted = refl

schedule-Tracked_example : Tracked capacity mixed new_world (schedule capacity (some 10) new_world)
schedule-Tracked_example =
    schedule-Tracked mixed (some 10) new_world mixed-Cooperative (omega arith) (λ i. omega arith)
      first_accepted
