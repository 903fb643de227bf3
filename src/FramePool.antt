-- ===== src/FramePool.antt =====
-- src/simpleawait/detail/frame_pool.h: the fixed arena of coroutine frames, a first-fit list of blocks.
-- The storage holds a block header at the start of each block; a payload's bytes are the caller's, and
-- no header lies in one. A pointer is an address, and `size_t` and `uintptr_t` have 32 bits.
pub mod Bits
pub mod Words
pub mod Blocks
pub mod Pool
pub mod Allocate
pub mod FirstFit
pub mod Coalesce
pub mod Deallocate
pub mod Recovery
pub mod Runs
use Prim.Native.Nat.{bit_and}
use simple_await.Base.{
  ℕ, zero, suc, ◌+◌, ◌-◌, ◌%◌, ◌^◌, Bool, true, false, Option, none, some, ◌&&◌, not, update, ltb,
  leb, ◌==◌, if◌then◌else◌, List, [], ◌∷◌,
}
use simple_await.Error.{ErrorLog, internal_error}

abbrev pub word : ℕ → ℕ
word x = x % 2 ^ 32

pub record BlockHeader : Type 0 where
  pub size : ℕ
  pub payload_offset : ℕ
  pub allocated : Bool

abbrev pub Headers : Type 0
Headers = ℕ → BlockHeader

-- The template's parameter, `alignof(std::max_align_t)`, `sizeof(BlockHeader)` and the address of
-- `storage_`.
pub record Arena : Type 0 where
  pub bytes : ℕ
  pub align : ℕ
  pub header_bytes : ℕ
  pub base : ℕ

-- `FramePool`, with the headers that its storage holds.
pub record FramePool : Type 0 where
  pub headers : Headers
  pub bytes_used : ℕ
  pub peak_bytes_used : ℕ
  pub allocation_failures : ℕ

-- `~(a - 1)` is `2 ^ 32 - a`, for an `a` that is not zero.
unfoldable pub round_up : ℕ → ℕ → ℕ
round_up v a = bit_and (word (v + (a - 1))) (2 ^ 32 - a)

unfoldable pub align_padding : ℕ → ℕ → ℕ
align_padding addr align =
    let mask = align - 1 in bit_and (word (align + 2 ^ 32 - bit_and addr mask)) mask

-- `v - 1` is only computed for a `v` that is not zero.
unfoldable pub is_power_of_two : ℕ → Bool
is_power_of_two v = not (v == 0) && (bit_and v (v - 1) == 0)

-- `kHeader` and `kUsable`.
unfoldable pub header_slot : Arena → ℕ
header_slot a = bit_and (word (a.header_bytes + a.align - 1)) (2 ^ 32 - a.align)

unfoldable pub usable : Arena → ℕ
usable a = a.bytes - a.bytes % a.align

-- `reset`, which is all that the constructor does.
unfoldable pub reset : Arena → FramePool → FramePool
reset a p = record {
  headers =
      update p.headers 0 (record {
        size = word (usable a);
        payload_offset = word (header_slot a);
        allocated = false;
      });
  bytes_used = 0;
  peak_bytes_used = 0;
  allocation_failures = 0;
}

-- The payload's offset in a free block at `off`.
unfoldable pub payload_offset_at : Arena → ℕ → ℕ → ℕ
payload_offset_at a align off =
    let start_addr = word (a.base + off) in
    word (header_slot a + align_padding (word (start_addr + header_slot a)) align)

-- `payloadOffset <= blkSize && size <= blkSize - payloadOffset`.
unfoldable pub fits : Arena → ℕ → ℕ → ℕ → BlockHeader → Bool
fits a size align off blk =
    let offset = payload_offset_at a align off in
    leb offset blk.size && leb size (blk.size - offset)

-- The headers and the block's size after the split, if there is one.
unfoldable pub split : Arena → ℕ → ℕ → BlockHeader → Headers → Headers × ℕ
split a needed off blk headers =
    let remainder = blk.size - needed in
    if leb (header_slot a + a.align) remainder
    then (
      update headers (off + needed) (record {
        size = word remainder;
        payload_offset = word (header_slot a);
        allocated = false;
      }),
      word needed,
    )
    else (headers, blk.size)

-- The statements that take the block at `off`: the pointer, and the pool.
unfoldable pub take_block : Arena → ℕ → ℕ → ℕ → BlockHeader → FramePool → Option ℕ × FramePool
take_block a size align off blk p =
    let offset = payload_offset_at a align off in
    let needed = round_up (word (offset + size)) a.align in
    let (headers, blk_size) = split a needed off blk p.headers in
    let used = word (p.bytes_used + blk_size) in
    (
      some (a.base + off + offset),
      record p {
        headers =
            update headers off
              (record { size = blk_size; payload_offset = word offset; allocated = true });
        bytes_used = used;
        peak_bytes_used = if ltb p.peak_bytes_used used then used else p.peak_bytes_used;
      },
    )

-- `++allocationFailures_; return nullptr;`
abbrev pub failed : FramePool → Option ℕ × FramePool
failed p = (none, record p { allocation_failures = word (p.allocation_failures + 1) })

-- The loop of `allocate` from `off`, at most `fuel` rounds.
unfoldable pub allocate_from : ℕ → Arena → ℕ → ℕ → ℕ → FramePool → Option ℕ × FramePool
allocate_from zero a size align off p = failed p
allocate_from (suc fuel) a size align off p =
    let blk = p.headers off in
    let rest = allocate_from fuel a size align (word (off + blk.size)) p in
    if not (ltb off (usable a))
    then failed p
    else if not blk.allocated && fits a size align off blk
    then take_block a size align off blk p
    else rest

-- `allocate`. Each block takes at least one byte, so one round more than there are bytes ends the loop.
unfoldable pub allocate : Arena → ℕ → ℕ → FramePool → Option ℕ × FramePool
allocate a size align p =
    let align' = if ltb align a.align then a.align else align in
    if not (is_power_of_two align')
    then failed p
    else allocate_from (suc (usable a)) a size align' 0 p

-- One round of `coalesce` at `off`: where the next one looks, and the headers.
unfoldable pub coalesce_step : Arena → ℕ → Headers → ℕ × Headers
coalesce_step a off headers =
    let blk = headers off in
    let next_off = word (off + blk.size) in
    if not blk.allocated && ltb next_off (usable a) && not (headers next_off).allocated
    then (off, update headers off (record blk { size = word (blk.size + (headers next_off).size) }))
    else (next_off, headers)

unfoldable pub coalesce_from : ℕ → Arena → ℕ → Headers → Headers
coalesce_from zero a off headers = headers
coalesce_from (suc fuel) a off headers =
    let (off', headers') = coalesce_step a off headers in
    let rest = coalesce_from fuel a off' headers' in if ltb off (usable a) then rest else headers

-- `coalesce`. Each round steps over a block or joins two.
unfoldable pub coalesce : Arena → Headers → Headers
coalesce a headers = coalesce_from (suc (usable a)) a 0 headers

-- The statements that free the block at `off`.
unfoldable pub free_block : Arena → ℕ → BlockHeader → FramePool → FramePool
free_block a off blk p = record p {
  headers = coalesce a (update p.headers off (record blk { allocated = false }));
  bytes_used = word (p.bytes_used + 2 ^ 32 - blk.size);
}

-- The loop of `deallocate` from `off`: the pool, and the hook's calls.
unfoldable pub deallocate_from : ℕ → Arena → ℕ → ℕ → FramePool → FramePool × ErrorLog
deallocate_from zero a q off p = (p, internal_error ∷ [])
deallocate_from (suc fuel) a q off p =
    let blk = p.headers off in
    let rest = deallocate_from fuel a q (word (off + blk.size)) p in
    if not (ltb off (usable a))
    then (p, internal_error ∷ [])
    else if blk.allocated && (a.base + off + blk.payload_offset == q)
    then (free_block a off blk p, [])
    else rest

-- `deallocate`.
unfoldable pub deallocate : Arena → Option ℕ → FramePool → FramePool × ErrorLog
deallocate a none p = (p, [])
deallocate a (some q) p = deallocate_from (suc (usable a)) a q 0 p

-- `bytesFree`.
unfoldable pub bytes_free : Arena → FramePool → ℕ
bytes_free a p = word (usable a + 2 ^ 32 - p.bytes_used)
