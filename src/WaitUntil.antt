-- ===== src/WaitUntil.antt =====
-- src/simpleawait/waituntil.h: the coroutine that yields until its predicate holds.
pub mod Turn
use simple_await.Base.{Bool, true, false, not, if◌then◌else◌}
use simple_await.World.{World}
use simple_await.Waits.{yield_current}

-- One resumption of the frame of `waitUntil(predicate)`, from its start or from its `yield()` to its end or its
-- next `yield()`: the loop evaluates its condition, and tells whether the body has ended. The
-- predicate is user code, which may change the world.
unfoldable pub wait_until : (World → Bool × World) → World → Bool × World
wait_until predicate w =
    let (holds, w') = predicate w in
    if not holds then (false, record w' { sched = yield_current w'.sched }) else (true, w')
