-- ===== src/Flag.antt =====
-- src/simpleawait/threadsafeflag.h. A flag is named by its address in `World.flags`. A critical
-- section makes its statements one step; `set` is the only operation of another context.
pub mod Armed
pub mod Resolve
pub mod Poll
pub mod Arming
pub mod Unarm
use simple_await.Base.{
  ℕ, zero, suc, Bool, true, false, Option, none, some, update, not, is_some, ◌&&◌, ◌==◌,
  if◌then◌else◌,
}
use simple_await.Error.{multiple_flag_waiters, object_destroyed_with_waiters}
use simple_await.World.{ThreadSafeFlag, World, on_error}
use simple_await.Waits.{running_is, park_running, wake_slot}

abbrev pub new_flag : ThreadSafeFlag
new_flag = record { signaled = false; waiter = none; armed_next = none }

abbrev pub put_flag : ℕ → ThreadSafeFlag → World → World
put_flag f v w = record w { flags = update w.flags f v }

-- `ThreadSafeFlag::set`: whether it calls `platform_wake_scheduler`, and the world.
unfoldable pub set : ℕ → World → Bool × World
set f w =
    let newly_signaled = not (w.flags f).signaled in
    (
      newly_signaled,
      record w {
        flags = update w.flags f (record (w.flags f) { signaled = true });
        pending = true;
      },
    )

-- `ThreadSafeFlag::clear`.
unfoldable pub clear : ℕ → World → World
clear f w = put_flag f (record (w.flags f) { signaled = false }) w

-- `ThreadSafeFlag::isSet`.
unfoldable pub is_set : ℕ → World → Bool
is_set f w = (w.flags f).signaled

-- `consume`.
unfoldable pub consume : ℕ → World → Bool × World
consume f w =
    if (w.flags f).signaled
    then (true, put_flag f (record (w.flags f) { signaled = false }) w)
    else (false, w)

-- `arm`.
unfoldable pub arm : ℕ → World → World
arm f w = record w {
  flags = update w.flags f (record (w.flags f) { armed_next = w.armed_head });
  armed_head = some f;
}

-- The pointer that `unarm`'s `link` points to: `s_armed_head_`, or the link of a flag.
abbrev pub read_link : Option ℕ → World → Option ℕ
read_link none w = w.armed_head
read_link (some g) w = (w.flags g).armed_next

abbrev pub write_link : Option ℕ → Option ℕ → World → World
write_link none p w = record w { armed_head = p }
write_link (some g) p w = put_flag g (record (w.flags g) { armed_next = p }) w

-- The loop of `unarm`, at most `fuel` rounds.
unfoldable pub unlink : ℕ → Option ℕ → ℕ → World → World
unlink zero link f w = w
unlink (suc fuel) link f w = elim (read_link link w) [
  | none ↦ w
  | some g ↦
      let rest = unlink fuel (some g) f w in
      if g == f then write_link link (w.flags f).armed_next w else rest
]

-- `unarm`.
unfoldable pub unarm : ℕ → ℕ → World → World
unarm fuel f w =
    let w' = unlink fuel none f w in
    put_flag f (record (w'.flags f) { armed_next = none; waiter = none }) w'

-- `park`: the awaiting coroutine is checked before the single waiter.
unfoldable pub park : ℕ → ℕ → World → Bool × World
park f awaiting w =
    let (ok, w') = running_is awaiting w in
    if not ok
    then (false, w')
    else if is_some (w'.flags f).waiter
    then (false, on_error multiple_flag_waiters w')
    else (let (slot, s) = park_running w'.sched in
        (
          true,
          arm f (put_flag f (record (w'.flags f) { waiter = slot }) (record w' { sched = s })),
        ))

-- `co_await flag.wait()`: `await_ready`, then `await_suspend`.
unfoldable pub wait : ℕ → ℕ → World → Bool × World
wait f awaiting w =
    let (ready_now, w') = consume f w in if ready_now then (false, w') else park f awaiting w'

-- `~ThreadSafeFlag`.
unfoldable pub destroy_flag : ℕ → ℕ → World → World
destroy_flag fuel f w =
    if is_some (w.flags f).waiter
    then on_error object_destroyed_with_waiters (unarm fuel f w)
    else w

-- `has_external_waiters`.
unfoldable pub has_external_waiters : World → Bool
has_external_waiters w = is_some w.armed_head

-- One round of the loop of `poll_external_signals` at flag `f`, and the new `prev`.
unfoldable pub resolve : Option ℕ → ℕ → World → Option ℕ × World
resolve prev f w =
    if (w.flags f).signaled && is_some (w.flags f).waiter
    then (let next = (w.flags f).armed_next in
        let waiter = (w.flags f).waiter in
        let consumed = record w {
          sched = wake_slot waiter w.sched;
          flags = update w.flags f (record { signaled = false; waiter = none; armed_next = none });
        } in
        (prev, write_link prev next consumed))
    else (some f, w)

-- The loop, at most `fuel` rounds.
unfoldable pub resolve_all : ℕ → Option ℕ → Option ℕ → World → World
resolve_all zero prev f w = w
resolve_all (suc fuel) prev none w = w
resolve_all (suc fuel) prev (some f) w =
    let (prev', w') = resolve prev f w in resolve_all fuel prev' (w.flags f).armed_next w'

-- `poll_external_signals`. Every armed flag has a waiting slot of its own, so one round more than
-- there are slots ends the loop.
unfoldable pub poll_external_signals : ℕ → World → World
poll_external_signals max_tasks w =
    if not w.pending
    then w
    else (let cleared = record w { pending = false } in
        resolve_all (suc max_tasks) none cleared.armed_head cleared)
