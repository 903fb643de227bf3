-- ===== src/FramePool/Recovery.antt =====
-- What detail/frame_pool.h promises of its operations together: no byte is lost, and a pointer that
-- `allocate` returned is known to `deallocate`.
use simple_await.Base.{
  ℕ, ◌+◌, ◌^◌, ◌<◌, ◌≡◌, refl, sym, ◌∙◌, ap, subst, arith, true, false, Option, some, List, [], ◌∷◌,
  ◌++◌, Bool-cases, inl, inr,
}
use simple_await.Error.{ErrorLog}
use simple_await.FramePool.{Arena, BlockHeader, FramePool, usable, allocate, deallocate}
use simple_await.FramePool.Words.{IsArena, usable_lem}
use simple_await.FramePool.Blocks.{
  Tiled, AllBlocks, extent, used, Apart, Positive, AllBlocks-Positive, AllBlocks-split,
}
use simple_await.FramePool.Pool.{PoolInv, Taken, header_pos}
use simple_await.FramePool.FirstFit.{
  AllocateResult, invalid, exhausted, takes, allocate-AllocateResult,
}
use simple_await.FramePool.Deallocate.{
  points_to, NoneAt, DeallocateResult, unknown, frees, deallocate-DeallocateResult,
}

-- A list without allocated bytes, of blocks that are not empty, has free blocks only.
free_head :
    (b : BlockHeader) (bs : List BlockHeader)
    → 0 < b.size
    → used (b ∷ bs) ≡ 0
    → (b.allocated ≡ false) × (used bs ≡ 0)
free_head b bs pos z = ground (arith, z)

-- When no byte is in use, the pool of the blocks `bs` is one free block with all usable bytes.
pub all_recovered :
    {a : Arena} {p : FramePool} {bs : List BlockHeader}
    → IsArena a
    → PoolInv a p bs
    → p.bytes_used ≡ 0
    → (b : BlockHeader) × (bs ≡ b ∷ []) × (b.allocated ≡ false) × (b.size ≡ usable a)
all_recovered {a} {p} {bs} v inv z =
    single bs inv.tiled (AllBlocks-Positive a bs (header_pos v) inv.blocks) inv.apart
      (sym inv.counted ∙ z)
  where
    single :
        (cs : List BlockHeader)
        → Tiled p.headers 0 cs (usable a)
        → Positive cs
        → Apart cs
        → used cs ≡ 0
        → (b : BlockHeader) × (cs ≡ b ∷ []) × (b.allocated ≡ false) × (b.size ≡ usable a)
    single [] t big far u = absurd (omega (arith, t, usable_lem v, header_pos v))
    single (b ∷ []) t big far u = (b, refl, (free_head b [] big.0 u).0, omega (arith, t.1))
    single (b ∷ c ∷ cs) t big far u =
        let (k, l) = free_head b (c ∷ cs) big.0 u in
        let m = (free_head c cs big.1.0 l).0 in
        absurd (elim (far.0) [ inl x ↦ ground (arith, k, x) | inr x ↦ ground (arith, m, x) ])

-- The pointers of the blocks before an address are below it.
before :
    (a : Arena) (q off : ℕ) (bs : List BlockHeader)
    → AllBlocks a bs
    → a.base + off + extent bs < q
    → NoneAt a q off bs
before a q off [] k h = tt
before a q off (b ∷ bs) k h = (
  elim (Bool-cases (points_to a q off b)) [
    | inl e ↦ absurd (ground (arith, e, k.0.payload))
    | inr e ↦ e
  ],
  before a q (off + b.size) bs k.1 (omega arith),
)

-- A list has one first block with the pointer.
same_place :
    (a : Arena) (q off : ℕ) (pre pre' : List BlockHeader) (b b' : BlockHeader)
    (post post' : List BlockHeader)
    → pre ++ b ∷ post ≡ pre' ++ b' ∷ post'
    → NoneAt a q off pre
    → NoneAt a q off pre'
    → points_to a q (off + extent pre) b ≡ true
    → points_to a q (off + extent pre') b' ≡ true
    → b ≡ b'
same_place a q off [] [] b b' post post' e k k' h h' = cc
same_place a q off [] (x ∷ pre') b b' post post' e k k' h h' =
    let first : b ≡ x = cc in absurd (ground (arith, h, k'.0, first))
same_place a q off (x ∷ pre) [] b b' post post' e k k' h h' =
    let first : x ≡ b' = cc in absurd (ground (arith, h', k.0, first))
same_place a q off (x ∷ pre) (x' ∷ pre') b b' post post' e k k' h h' =
    let first : x ≡ x' = cc in
    let later : pre ++ b ∷ post ≡ pre' ++ b' ∷ post' = cc in
    same_place a q (off + x.size) pre pre' b b' post post' later k.1
      (subst (λ (y : BlockHeader). NoneAt a q (off + y.size) pre') (sym first) k'.1)
      (subst (λ o. points_to a q o b ≡ true) (omega arith) h)
      (subst (λ o. points_to a q o b' ≡ true)
        (omega (arith, ap (λ (y : BlockHeader). y.size) first)) h')

missed :
    (a : Arena) (q off : ℕ) (pre : List BlockHeader) (b : BlockHeader) (post : List BlockHeader)
    → NoneAt a q off (pre ++ b ∷ post)
    → points_to a q (off + extent pre) b ≡ false
missed a q off [] b post k = subst (λ o. points_to a q o b ≡ false) (omega arith) k.0
missed a q off (x ∷ pre) b post k =
    subst (λ o. points_to a q o b ≡ false) (omega arith) (missed a q (off + x.size) pre b post k.1)

module _ {a : Arena} (v : IsArena a) (size align : ℕ) (pre : List BlockHeader) (b : BlockHeader)
    (post : List BlockHeader) {p : FramePool} {out : Option ℕ × FramePool}
    (t : Taken a size align pre b post p out) (q : ℕ) (got : out.0 ≡ some q) where
  at_q : a.base + extent pre + t.block.payload_offset ≡ q
  at_q = cc (t.place)

  hits : points_to a q (0 + extent pre) t.block ≡ true
  hits = ground (arith, t.taken, at_q)

  early : NoneAt a q 0 pre
  early =
      before a q 0 pre (AllBlocks-split a pre (t.block ∷ (t.rest ++ post)) t.inv.blocks).0
        (omega (arith, at_q, t.behind, header_pos v))

  given_back :
      {u : FramePool × ErrorLog}
      → DeallocateResult a q out.1 (pre ++ t.block ∷ (t.rest ++ post)) u
      → (u.1 ≡ []) × (u.0.bytes_used ≡ p.bytes_used)
  given_back (unknown k e) =
      absurd (ground (arith, hits, missed a q 0 pre t.block (t.rest ++ post) k))
  given_back (frees pre' b' post' e k held ptr log f) =
      let same =
        same_place a q 0 pre pre' t.block b' (t.rest ++ post) post' e early k hits
          (ground (arith, held, ptr)) in
      (log, omega (arith, f.shrunk, t.grown, ap (λ (y : BlockHeader). y.size) same))

-- From a pool of the blocks `bs`, and with an alignment of 32 bits: a pointer that `allocate` returns can
-- be given to `deallocate`, which reports nothing and takes the bytes used back to what they were.
pub deallocate-allocate :
    {a : Arena} (size align q : ℕ) {p : FramePool} {bs : List BlockHeader}
    → IsArena a
    → PoolInv a p bs
    → align < 2 ^ 32
    → (allocate a size align p).0 ≡ some q
    → ((deallocate a (some q) (allocate a size align p).1).1 ≡ [])
      × ((deallocate a (some q) (allocate a size align p).1).0.bytes_used ≡ p.bytes_used)
deallocate-allocate {a} size align q {p} {bs} v inv small got =
    back (allocate-AllocateResult size align v inv small)
  where
    back :
        AllocateResult a size align p bs (allocate a size align p)
        → ((deallocate a (some q) (allocate a size align p).1).1 ≡ [])
          × ((deallocate a (some q) (allocate a size align p).1).0.bytes_used ≡ p.bytes_used)
    back (invalid k e) = absurd (ground (arith, got, ap (λ (o : Option ℕ × FramePool). o.0) e))
    back (exhausted k l e) = absurd (ground (arith, got, ap (λ (o : Option ℕ × FramePool). o.0) e))
    back (takes pre b post k e open_block l t) =
        given_back v size _ pre b post t q got (deallocate-DeallocateResult q v t.inv)
