-- ===== src/Tests/Flags.antt =====
-- The theorems on threadsafeflag.h, at a world with two armed flags.
use simple_await.Base.{◌≡◌, ℕ, refl, true, false, none, some, [], ◌∷◌, ◌==◌, if◌then◌else◌, arith}
use simple_await.World.{ThreadSafeFlag, World}
use simple_await.Flag
use simple_await.Flag.{new_flag, unarm, poll_external_signals}
use simple_await.Flag.Poll.{Resolved}
use simple_await.Flag.Arming.{Arming, FlagResult, wait-FlagResult, poll_external_signals-Arming}
use simple_await.Flag.Unarm.{unarm-Arming}
use simple_await.Tests.{capacity, busy_world}

-- Slot 4 waits for flag 1, which is signalled, and slot 5 for flag 2.
abbrev flag_of : ℕ → ThreadSafeFlag
flag_of f =
    if f == 1
    then record { signaled = true; waiter = some 4; armed_next = some 2 }
    else if f == 2
    then record { signaled = false; waiter = some 5; armed_next = none }
    else new_flag

abbrev pub flag_world : World
flag_world = record busy_world { flags = flag_of; armed_head = some 1; pending = true }

pub flag_world-Arming : Arming flag_world (1 ∷ 2 ∷ [])
flag_world-Arming = record { linked = ground arith; member = λ f. ground arith }

wait-FlagResult_example : FlagResult 3 10 (1 ∷ 2 ∷ []) flag_world (Flag.wait 3 10 flag_world)
wait-FlagResult_example = wait-FlagResult 3 10 flag_world-Arming

poll_external_signals-Arming_example :
    Resolved []
      (1 ∷ 2 ∷ [])
      (record flag_world { pending = false })
      (poll_external_signals capacity flag_world)
    × Arming (poll_external_signals capacity flag_world) (2 ∷ [])
poll_external_signals-Arming_example =
    poll_external_signals-Arming capacity flag_world-Arming (omega arith) refl

unarm-Arming_example :
    Arming (unarm 3 2 flag_world) (1 ∷ []) × (((unarm 3 2 flag_world).flags 2).waiter ≡ none)
unarm-Arming_example = unarm-Arming 3 2 flag_world-Arming (omega arith)
