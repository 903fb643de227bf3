-- ===== src/Frames/Creation.antt =====
-- A coroutine's frame from its call to its destruction, through the pool.
use Prim.Native.Nat.{bit_and}
use native.Mathlib.Nat.{one-le-pow, mod_self}
use simple_await.FramePool.Bits.{bit_and-low_mask}
use simple_await.Base.{
  ℕ, ◌+◌, ◌^◌, ◌≤◌, ◌<◌, ◌≡◌, refl, ◌∙◌, ap, arith, true, Option, none, some, List, [], ◌∷◌, ◌++◌,
  subst, ◌-◌, tally,
}
use simple_await.Error.{ErrorLog, frame_pool_exhausted}
use simple_await.World.{is_ready, is_waiting_timer, Scheduler}
use simple_await.Scheduler.Ready.{ReadyFifo}
use simple_await.Idle.Counters.{scheduler_counters-tally}
use simple_await.Tasks.{Task}
use simple_await.FramePool.{
  Arena, BlockHeader, FramePool, usable, allocate, failed, is_power_of_two, bytes_free,
}
use simple_await.FramePool.Words.{IsArena, usable_lem, real_align, align_bounds}
use simple_await.FramePool.Blocks.{used, extent}
use simple_await.FramePool.Pool.{PoolInv, Taken}
use simple_await.FramePool.FirstFit.{
  NoRoom, AllocateResult, invalid, exhausted, takes, allocate-AllocateResult,
}
use simple_await.Frames.{frame_alloc, call_coroutine, stats}

-- What the call of a coroutine gives.
pub data CallResult (a : Arena) (size : ℕ) (p : FramePool) (bs : List BlockHeader)
    (out : Task × FramePool × ErrorLog) : Type 0 where
  empty_task :
      NoRoom a size a.align 0 bs
      → out ≡ (none, (failed p).1, frame_pool_exhausted ∷ [])
      → CallResult a size p bs out
  framed :
      (pre : List BlockHeader) (b : BlockHeader) (post : List BlockHeader) (q : ℕ)
      → bs ≡ pre ++ b ∷ post
      → out.0 ≡ some q
      → out.2 ≡ []
      → Taken a size a.align pre b post p (some q, out.1)
      → CallResult a size p bs out

-- The arena's own alignment is one that `allocate` accepts.
own_align : {a : Arena} → IsArena a → is_power_of_two a.align ≡ true
unfolding is_power_of_two
own_align {a} v =
    let p : 0 < 2 ^ v.power = one-le-pow v.power 2 (omega arith) in
    let z : bit_and (2 ^ v.power) (2 ^ v.power - 1) ≡ 0 =
      bit_and-low_mask v.power (2 ^ v.power) ∙ mod_self (2 ^ v.power) in
    rw (v.align_eq, z) (ground (arith, p))

same_align : (a : Arena) → real_align a a.align ≡ a.align
same_align a = ground arith

-- The task and the hook's calls for what the pool returned.
abbrev called : Option ℕ × FramePool → Task × FramePool × ErrorLog
called o = (
  elim o.0 [ none ↦ none | some address ↦ some address ],
  o.1,
  elim o.0 [ none ↦ frame_pool_exhausted ∷ [] | some _ ↦ [] ],
)

call_coroutine-called :
    (a : Arena) (size : ℕ) (p : FramePool)
    → call_coroutine a size p ≡ called (allocate a size a.align p)
unfolding call_coroutine frame_alloc
call_coroutine-called a size p = refl

allocated_call :
    {a : Arena} (v : IsArena a) (size : ℕ) {p : FramePool} {bs : List BlockHeader}
    → AllocateResult a size a.align p bs (allocate a size a.align p)
    → CallResult a size p bs (call_coroutine a size p)
allocated_call {a} v size (invalid k e) = absurd (ground (arith, own_align v, same_align a, k))
allocated_call {a} v size {p} {bs} (exhausted k l e) =
    empty_task (subst (λ x. NoRoom a size x 0 bs) (same_align a) l)
      (call_coroutine-called a size p ∙ ap called e)
allocated_call {a} v size {p} {bs} (takes pre b post k e open_block l t) =
    let t' =
      subst (λ x. Taken a size x pre b post p (allocate a size a.align p)) (same_align a) t in
    framed pre b post (a.base + extent pre + t'.block.payload_offset) e
      (ap (λ (o : Task × FramePool × ErrorLog). o.0) (call_coroutine-called a size p)
        ∙ rw t'.place refl)
      (ap (λ (o : Task × FramePool × ErrorLog). o.2) (call_coroutine-called a size p)
        ∙ rw t'.place refl)
      (rw call_coroutine-called (
        subst (λ o. Taken a size a.align pre b post p (o, (allocate a size a.align p).1)) t'.place
          t'))

-- From a pool of the blocks `bs`, the call of a coroutine ends in one of two ways. If no free block has
-- room for its frame, the task is empty, the pool counts a failure and the error is reported. Otherwise
-- the task holds the address that the pool returned, aligned and with the frame inside its block,
-- and nothing is reported.
pub call_coroutine-CallResult :
    {a : Arena} (size : ℕ) {p : FramePool} {bs : List BlockHeader}
    → IsArena a
    → PoolInv a p bs
    → CallResult a size p bs (call_coroutine a size p)
call_coroutine-CallResult {a} size v inv =
    allocated_call v size
      (allocate-AllocateResult size a.align v inv (omega (arith, align_bounds v)))

-- From a ready FIFO `r` of exactly the ready slots, and a pool of the blocks `bs` in an arena: the counters of
-- `stats` are the numbers of slots that are ready and that wait for a timer, the frame bytes are those
-- of the allocated blocks, and used and free bytes make up the arena, with the peak in between.
pub stats-tally :
    {n : ℕ} {s : Scheduler} {r : List ℕ} {a : Arena} {p : FramePool} {bs : List BlockHeader}
    → ReadyFifo n s r
    → IsArena a
    → PoolInv a p bs
    → let t = stats n a s p in
      (t.ready_tasks ≡ tally n (λ i. is_ready (s.slots i).state))
      × (t.waiting_timers ≡ tally n (λ i. is_waiting_timer (s.slots i).state))
      × (t.frame_bytes_used ≡ used bs)
      × (t.frame_bytes_used + t.frame_bytes_free ≡ usable a)
      × (t.frame_bytes_used ≤ t.peak_frame_bytes_used)
      × (t.peak_frame_bytes_used ≤ usable a)
unfolding stats bytes_free
stats-tally v arena inv =
    let c = scheduler_counters-tally v in
    (
      c.0,
      c.1,
      inv.counted,
      omega (arith, inv.peak, inv.bound, usable_lem arena, arena.ends),
      inv.peak,
      inv.bound,
    )
