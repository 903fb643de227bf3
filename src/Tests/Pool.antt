-- ===== src/Tests/Pool.antt =====
-- The theorems on detail/frame_pool.h and its use, at an arena of 256 bytes.
use native.Mathlib.Nat.{dvd-mul_right}
use simple_await.Base.{◌+◌, ◌≤◌, ◌≡◌, refl, false, some, [], ◌∷◌, arith, tally}
use simple_await.World.{is_ready, is_waiting_timer}
use simple_await.FramePool.{
  Arena, BlockHeader, FramePool, round_up, align_padding, is_power_of_two, header_slot, usable,
  reset, payload_offset_at, fits, split, take_block, allocate_from, allocate, deallocate,
}
use simple_await.FramePool.Words.{IsArena}
use simple_await.FramePool.Blocks.{Tiled, used}
use simple_await.FramePool.Pool.{PoolInv, reset-PoolInv}
use simple_await.FramePool.FirstFit.{AllocateResult, allocate-AllocateResult}
use simple_await.FramePool.Deallocate.{DeallocateResult, deallocate-DeallocateResult}
use simple_await.FramePool.Recovery.{deallocate-allocate}
use simple_await.FramePool.Runs.{PoolRuns, begins, allocates, deallocates, PoolRuns-recovered}
use simple_await.Frames.{call_coroutine, stats}
use simple_await.Frames.Creation.{CallResult, call_coroutine-CallResult, stats-tally}
use simple_await.Tests.{capacity, idle_world, idle_world-Inv}

abbrev arena : Arena
arena = record { bytes = 256; align = 8; header_bytes = 12; base = 4096 }

arena-IsArena : IsArena arena
unfolding header_slot
arena-IsArena = record {
  power = 3;
  align_eq = refl;
  placed = omega arith;
  aligned = dvd-mul_right 8 512;
  ends = omega arith;
  header = omega arith;
  slot = omega arith;
  capacity = omega arith;
}

abbrev blank : BlockHeader
blank = record { size = 0; payload_offset = 0; allocated = false }

abbrev new_pool : FramePool
new_pool =
    reset arena (record {
      headers = λ _. blank;
      bytes_used = 0;
      peak_bytes_used = 0;
      allocation_failures = 0;
    })

abbrev whole : BlockHeader
whole = record { size = usable arena; payload_offset = header_slot arena; allocated = false }

new_pool-PoolInv : PoolInv arena new_pool (whole ∷ [])
new_pool-PoolInv =
    reset-PoolInv
      (record {
        headers = λ _. blank;
        bytes_used = 0;
        peak_bytes_used = 0;
        allocation_failures = 0;
      })
      arena-IsArena

allocate-AllocateResult_example :
    AllocateResult arena 40 16 new_pool (whole ∷ []) (allocate arena 40 16 new_pool)
allocate-AllocateResult_example =
    allocate-AllocateResult 40 16 arena-IsArena new_pool-PoolInv (omega arith)

deallocate-DeallocateResult_example :
    DeallocateResult arena 4112 new_pool (whole ∷ []) (deallocate arena (some 4112) new_pool)
deallocate-DeallocateResult_example =
    deallocate-DeallocateResult 4112 arena-IsArena new_pool-PoolInv

first_pointer : (allocate arena 40 16 new_pool).0 ≡ some 4112
unfolding allocate allocate_from take_block split fits payload_offset_at reset usable header_slot
    is_power_of_two align_padding round_up
first_pointer = refl

-- A payload is taken and given back.
returned : PoolRuns arena (deallocate arena (some 4112) (allocate arena 40 16 new_pool).1).0
returned = deallocates (some 4112) (allocates 40 16 (omega arith) (begins _))

none_used : (deallocate arena (some 4112) (allocate arena 40 16 new_pool).1).0.bytes_used ≡ 0
unfolding reset
none_used =
    (deallocate-allocate 40 16 4112 arena-IsArena new_pool-PoolInv (omega arith) first_pointer).1

PoolRuns-recovered_example :
    (b : BlockHeader) × Tiled
      (deallocate arena (some 4112) (allocate arena 40 16 new_pool).1).0.headers
      0
      (b ∷ [])
      (usable arena)
    × (b.allocated ≡ false)
    × (b.size ≡ usable arena)
PoolRuns-recovered_example = PoolRuns-recovered arena-IsArena returned none_used

deallocate-allocate_example :
    ((deallocate arena (some 4112) (allocate arena 40 16 new_pool).1).1 ≡ [])
    × ((deallocate arena (some 4112) (allocate arena 40 16 new_pool).1).0.bytes_used
        ≡ new_pool.bytes_used)
deallocate-allocate_example =
    deallocate-allocate 40 16 4112 arena-IsArena new_pool-PoolInv (omega arith) first_pointer

call_coroutine-CallResult_example :
    CallResult arena 40 new_pool (whole ∷ []) (call_coroutine arena 40 new_pool)
call_coroutine-CallResult_example = call_coroutine-CallResult 40 arena-IsArena new_pool-PoolInv

stats-tally_example :
    let t = stats capacity arena idle_world.sched new_pool in
    (t.ready_tasks ≡ tally capacity (λ i. is_ready (idle_world.sched.slots i).state))
    × (t.waiting_timers ≡ tally capacity (λ i. is_waiting_timer (idle_world.sched.slots i).state))
    × (t.frame_bytes_used ≡ used (whole ∷ []))
    × (t.frame_bytes_used + t.frame_bytes_free ≡ usable arena)
    × (t.frame_bytes_used ≤ t.peak_frame_bytes_used)
    × (t.peak_frame_bytes_used ≤ usable arena)
stats-tally_example = stats-tally idle_world-Inv.fifo arena-IsArena new_pool-PoolInv
