-- ===== src/Tests/Waits.antt =====
-- The theorem on waituntil.h, at a world in which slot 0 runs.
use simple_await.Base.{Bool, false, refl, [], ◌∷◌}
use simple_await.World.{World}
use simple_await.Invariant.Effects.{here}
use simple_await.WaitUntil.{wait_until}
use simple_await.WaitUntil.Turn.{Turn, wait_until-Turn}
use simple_await.Tests.{capacity, busy_world, busy_world-Inv}

abbrev never : World → Bool × World
never w = (false, w)

wait_until-Turn_example : Turn capacity 0 busy_world (2 ∷ []) never (wait_until never busy_world)
wait_until-Turn_example = wait_until-Turn never busy_world-Inv refl refl here
