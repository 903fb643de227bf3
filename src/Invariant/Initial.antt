-- ===== src/Invariant/Initial.antt =====
-- The statics of the program before its first call.
use simple_await.Base.{ℕ, ◌^◌, ◌≤◌, refl, [], arith, none, false}
use simple_await.World.{World, new_scheduler}
use simple_await.Event.{new_event}
use simple_await.Flag.{new_flag}
use simple_await.Invariant.{Inv}

-- The program's statics before the first call.
abbrev pub new_world : World
new_world = record {
  sched = new_scheduler;
  events = λ _. new_event;
  flags = λ _. new_flag;
  armed_head = none;
  pending = false;
  errors = [];
  destroyed = [];
  resumed = [];
}

-- With at most 2 ^ 16 slots, the invariant holds at the start, with nothing ready and nobody waiting.
pub new_world-Inv : (n : ℕ) → n ≤ 2 ^ 16 → Inv n new_world [] (λ _. [])
new_world-Inv n h = record {
  fifo = record {
    limit = h;
    fifo = (refl, refl);
    member = λ i. refl;
    counted = refl;
    beyond = λ i k. refl;
  };
  parked = record {
    fifo = λ e. (refl, refl);
    waiting = λ e i. omega arith;
    apart = λ c d i k. omega arith;
  };
}
