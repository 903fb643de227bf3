-- ===== src/FramePool/Pool.antt =====
-- The pool of detail/frame_pool.h as a list of blocks, and what taking one of them leaves.
use Prim.Native.Nat.{◌∣◌}
use simple_await.Base.{
  ℕ, ◌+◌, ◌≤◌, ◌<◌, ◌≡◌, refl, arith, true, false, Option, some, List, [], ◌∷◌, ◌++◌,
}
use simple_await.FramePool.{Arena, BlockHeader, FramePool, word, header_slot, usable, reset}
use simple_await.FramePool.Words.{IsArena, header_slot-Rounded, usable_lem}
use simple_await.FramePool.Blocks.{Tiled, AllBlocks, extent, used, Apart}

-- The pool holds the blocks `bs`: they tile the arena, no two free ones meet, and the counters tell
-- the bytes of the allocated ones.
pub record PoolInv (a : Arena) (p : FramePool) (bs : List BlockHeader) : Type 0 where
  pub tiled : Tiled p.headers 0 bs (usable a)
  pub blocks : AllBlocks a bs
  pub apart : Apart bs
  pub counted : p.bytes_used ≡ used bs
  pub peak : p.bytes_used ≤ p.peak_bytes_used
  pub bound : p.peak_bytes_used ≤ usable a

pub header_pos : {a : Arena} → IsArena a → 0 < header_slot a
header_pos v = omega (arith, v.header, (header_slot-Rounded v).above)

-- `reset` leaves one free block.
pub reset-PoolInv :
    {a : Arena} (p : FramePool)
    → IsArena a
    → PoolInv a
        (reset a p)
        (record { size = usable a; payload_offset = header_slot a; allocated = false } ∷ [])
unfolding reset
reset-PoolInv {a} p v =
    let u = usable_lem v in
    let e : word (usable a) ≡ usable a = omega (arith, u, v.ends) in
    let f : word (header_slot a) ≡ header_slot a = omega (arith, u, v.ends) in
    record {
      tiled = (ground (arith, e, f), omega arith);
      blocks = (
        record { header = omega (arith, u); aligned = u.0; payload = λ h. absurd (ground arith) },
        tt,
      );
      apart = tt;
      counted = refl;
      peak = omega arith;
      bound = omega arith;
    }

-- The free block `b` behind `pre` was taken: it gave way to a block that holds the payload and, where
-- enough is left, a free one. The pointer has the alignment, and the payload lies in its block.
pub record Taken (a : Arena) (size align : ℕ) (pre : List BlockHeader) (b : BlockHeader)
    (post : List BlockHeader) (p : FramePool) (out : Option ℕ × FramePool) : Type 0 where
  pub block : BlockHeader
  pub rest : List BlockHeader
  pub place : out.0 ≡ some (a.base + extent pre + block.payload_offset)
  pub aligned : align ∣ a.base + extent pre + block.payload_offset
  pub behind : header_slot a ≤ block.payload_offset
  pub inside : block.payload_offset + size ≤ block.size
  pub taken : block.allocated ≡ true
  pub exact : block.size + extent rest ≡ b.size
  pub free : used rest ≡ 0
  pub grown : out.1.bytes_used ≡ p.bytes_used + block.size
  pub failures : out.1.allocation_failures ≡ p.allocation_failures
  pub inv : PoolInv a out.1 (pre ++ block ∷ (rest ++ post))
