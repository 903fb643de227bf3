-- ===== src/FramePool/Runs.antt =====
-- Any sequence of the calls of detail/frame_pool.h, from the pool that its constructor makes.
use simple_await.Base.{ℕ, ◌^◌, ◌<◌, ◌≡◌, sym, subst, Option, none, some, List, [], ◌∷◌, false}
use simple_await.Error.{ErrorLog}
use simple_await.FramePool.{
  Arena, BlockHeader, FramePool, usable, failed, reset, allocate, deallocate,
}
use simple_await.FramePool.Words.{IsArena}
use simple_await.FramePool.Blocks.{Tiled}
use simple_await.FramePool.Pool.{PoolInv, reset-PoolInv}
use simple_await.FramePool.FirstFit.{
  AllocateResult, invalid, exhausted, takes, allocate-AllocateResult,
}
use simple_await.FramePool.Deallocate.{
  DeallocateResult, unknown, frees, deallocate-DeallocateResult,
}
use simple_await.FramePool.Recovery.{all_recovered}

-- The pools that a program reaches by calls, `deallocate` of any pointer among them.
pub data PoolRuns (a : Arena) : FramePool → Type 0 where
  begins : (p : FramePool) → PoolRuns a (reset a p)
  allocates :
      {p : FramePool} (size align : ℕ)
      → align < 2 ^ 32
      → PoolRuns a p
      → PoolRuns a (allocate a size align p).1
  deallocates : {p : FramePool} (q : Option ℕ) → PoolRuns a p → PoolRuns a (deallocate a q p).0

abbrev Held : Arena → FramePool → Type 0
Held a p = (bs : List BlockHeader) × PoolInv a p bs

counted_failure :
    {a : Arena} {p : FramePool} {bs : List BlockHeader} → PoolInv a p bs → PoolInv a (failed p).1 bs
counted_failure v = record {
  tiled = v.tiled;
  blocks = v.blocks;
  apart = v.apart;
  counted = v.counted;
  peak = v.peak;
  bound = v.bound;
}

allocated-Held :
    {a : Arena} {size align : ℕ} {p : FramePool} {bs : List BlockHeader}
    {out : Option ℕ × FramePool}
    → PoolInv a p bs
    → AllocateResult a size align p bs out
    → Held a out.1
allocated-Held {a} {p = p} {bs} v (invalid k e) =
    (bs, subst (λ (o : Option ℕ × FramePool). PoolInv a o.1 bs) (sym e) (counted_failure v))
allocated-Held {a} {p = p} {bs} v (exhausted k l e) =
    (bs, subst (λ (o : Option ℕ × FramePool). PoolInv a o.1 bs) (sym e) (counted_failure v))
allocated-Held v (takes pre b post k e open_block l t) = (_, t.inv)

deallocated-Held :
    {a : Arena} {q : ℕ} {p : FramePool} {bs : List BlockHeader} {out : FramePool × ErrorLog}
    → PoolInv a p bs
    → DeallocateResult a q p bs out
    → Held a out.0
deallocated-Held {a} {bs = bs} v (unknown k e) =
    (bs, subst (λ (o : FramePool × ErrorLog). PoolInv a o.0 bs) (sym e) v)
deallocated-Held v (frees pre b post e k held ptr log f) = (_, f.inv)

PoolRuns-Held : {a : Arena} {p : FramePool} → IsArena a → PoolRuns a p → Held a p
unfolding deallocate
PoolRuns-Held v (begins p) = (_, reset-PoolInv p v)
PoolRuns-Held v (allocates size align small s) =
    let (bs, inv) = PoolRuns-Held v s in
    allocated-Held inv (allocate-AllocateResult size align v inv small)
PoolRuns-Held v (deallocates none s) = PoolRuns-Held v s
PoolRuns-Held v (deallocates (some q) s) =
    let (bs, inv) = PoolRuns-Held v s in deallocated-Held inv (deallocate-DeallocateResult q v inv)

-- Whatever calls a program makes of a new pool, with alignments of 32 bits and any pointers: whenever no
-- byte is in use, the headers in the storage are those of one free block with all usable bytes.
pub PoolRuns-recovered :
    {a : Arena} {p : FramePool}
    → IsArena a
    → PoolRuns a p
    → p.bytes_used ≡ 0
    → (b : BlockHeader) × Tiled p.headers 0 (b ∷ []) (usable a)
      × (b.allocated ≡ false)
      × (b.size ≡ usable a)
PoolRuns-recovered {a} {p} v s z =
    let (bs, inv) = PoolRuns-Held v s in
    let (b, one, open_block, whole) = all_recovered v inv z in
    (b, subst (λ cs. Tiled p.headers 0 cs (usable a)) one inv.tiled, open_block, whole)
