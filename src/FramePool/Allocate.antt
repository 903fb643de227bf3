-- ===== src/FramePool/Allocate.antt =====
-- `take_block`: what `allocate` of detail/frame_pool.h does to the list of blocks.
use Prim.Native.Nat.{◌∣◌}
use native.Mathlib.Nat.{dvd-sub, mod-eq_of_lt}
use simple_await.Base.{
  ℕ, ◌+◌, ◌-◌, ◌^◌, ◌≤◌, ◌<◌, ◌≡◌, refl, sym, ◌∙◌, subst, arith, true, false, some, List, [], ◌∷◌,
  ◌++◌, update_self, update_ne, if◌then◌else◌, Bool-cases, update, inl, inr, leb, ltb,
}
use simple_await.FramePool.{
  Arena, BlockHeader, Headers, FramePool, word, header_slot, usable, round_up, payload_offset_at,
  fits, split, take_block, is_power_of_two,
}
use simple_await.FramePool.Words.{
  IsArena, Rounded-le, usable_lem, needed-Rounded, Payload, payload_offset_at-Payload,
}
use simple_await.FramePool.Pool.{PoolInv, Taken, header_pos}
use simple_await.FramePool.Blocks.{
  Tiled, IsBlock, AllBlocks, extent, used, Apart, Tiled-limit, Tiled-replace, Tiled-above,
  AllBlocks-Positive, AllBlocks-append, AllBlocks-split, used-append, extent-append, used-le-extent,
  Apart-taken, Apart-carved,
}

module _ {a : Arena} (v : IsArena a) (size align : ℕ) (pre : List BlockHeader) (b : BlockHeader)
    (post : List BlockHeader) {p : FramePool} (inv : PoolInv a p (pre ++ b ∷ post))
    (fit : fits a size align (extent pre) b ≡ true) where
  abbrev off : ℕ
  off = extent pre

  abbrev offset : ℕ
  offset = payload_offset_at a align off

  abbrev needed : ℕ
  needed = round_up (word (offset + size)) a.align

  total : off + (b.size + extent post) ≡ usable a
  total = omega (
    arith,
    Tiled-limit p.headers 0 (pre ++ b ∷ post) (usable a) inv.tiled,
    extent-append pre (b ∷ post),
  )

  middle-IsBlock : IsBlock a b
  middle-IsBlock = (AllBlocks-split a pre (b ∷ post) inv.blocks).1.0

  within : offset + size ≤ b.size
  unfolding fits
  within = ground (arith, fit)

  whole : word (offset + size) ≡ offset + size
  whole = omega (arith, within, total, usable_lem v, v.ends)

  needed_lem : (offset + size ≤ needed) × (a.align ∣ needed) × (needed ≤ b.size)
  needed_lem =
      let r = needed-Rounded v (offset + size) (omega (arith, within, total)) in
      rw whole (r.above, r.divides, Rounded-le r b.size middle-IsBlock.aligned within)

  -- The pool after the statements that take the block, with the headers and the size that they leave.
  abbrev taken_pool : Headers → ℕ → FramePool
  taken_pool headers blk_size = record p {
    headers =
        update headers off (record { size = blk_size; payload_offset = offset; allocated = true });
    bytes_used = p.bytes_used + blk_size;
    peak_bytes_used =
        if ltb p.peak_bytes_used (p.bytes_used + blk_size)
        then p.bytes_used + blk_size
        else p.peak_bytes_used;
  }

  module _ (open_block : b.allocated ≡ false) (power : is_power_of_two align ≡ true)
      (small : align < 2 ^ 32) where
    payload : Payload a align off offset
    payload =
        payload_offset_at-Payload v align off power small
          (omega (arith, middle-IsBlock.header, total))

    -- The counters, for any size that the block does not exceed.
    counters :
        (blk_size : ℕ) (rest : List BlockHeader)
        → blk_size + extent rest ≡ b.size
        → used rest ≡ 0
        → (p.bytes_used + blk_size
            ≡ used (
                pre
                ++ record { size = blk_size; payload_offset = offset; allocated = true }
                  ∷ (rest ++ post)))
          × (p.bytes_used + blk_size ≤ usable a)
    counters blk_size rest e z =
        let c : BlockHeader = record {
          size = blk_size;
          payload_offset = offset;
          allocated = true;
        } in
        let before : used (pre ++ b ∷ post) ≡ used pre + used post =
          omega (arith, used-append pre (b ∷ post), free_bytes) in
        (
          omega (
            arith,
            inv.counted,
            before,
            used-append pre (c ∷ (rest ++ post)),
            used-append rest post,
            z,
          ),
          omega (arith, inv.counted, before, used-le-extent pre, used-le-extent post, total, e),
        )
      where
        free_bytes : (if b.allocated then b.size else 0) ≡ 0
        free_bytes = rw open_block refl

    carved-Taken :
        (headers : Headers) (blk_size : ℕ) (rest : List BlockHeader)
        → blk_size + extent rest ≡ b.size
        → used rest ≡ 0
        → offset + size ≤ blk_size
        → a.align ∣ blk_size
        → AllBlocks a rest
        → Apart (
            pre
            ++ record { size = blk_size; payload_offset = offset; allocated = true }
              ∷ (rest ++ post))
        → ((i : ℕ) → i < off → headers i ≡ p.headers i)
        → ((i : ℕ) → off + b.size ≤ i → headers i ≡ p.headers i)
        → Tiled headers (off + blk_size) rest (off + b.size)
        → Taken a size align pre b post p
            (some (a.base + off + offset), taken_pool headers blk_size)
    carved-Taken headers blk_size rest e z fit' div blocks apart low high tiled =
        let c : BlockHeader = record {
          size = blk_size;
          payload_offset = offset;
          allocated = true;
        } in
        let h' : Headers = update headers off c in
        let k = counters blk_size rest e z in
        let parts = AllBlocks-split a pre (b ∷ post) inv.blocks in
        let pos : 0 < blk_size = omega (arith, fit', payload.behind, header_pos v) in
        record {
          block = c;
          rest = rest;
          place = refl;
          aligned = payload.aligned;
          behind = payload.behind;
          inside = fit';
          taken = refl;
          exact = e;
          free = z;
          grown = refl;
          failures = refl;
          inv = record {
            tiled =
                Tiled-replace p.headers h' pre b (c ∷ rest) post (usable a)
                  (AllBlocks-Positive a pre (header_pos v) parts.0) e
                  (λ i l. update_ne headers off i c (omega arith) ∙ low i l)
                  (λ i l. update_ne headers off i c (omega (arith, pos, e)) ∙ high i l)
                  (
                    update_self headers off c,
                    Tiled-above headers h' (off + blk_size) rest _
                        (λ i l. update_ne headers off i c (omega (arith, pos)))
                        (subst (Tiled headers (off + blk_size) rest) (omega (arith, e)) tiled),
                  )
                  inv.tiled;
            blocks = AllBlocks-append a pre (c ∷ (rest ++ post)) parts.0 (
              record {
                header = omega (arith, fit', payload.behind);
                aligned = div;
                payload = λ t. (payload.behind, omega (arith, fit'));
              },
              AllBlocks-append a rest post blocks parts.1.1,
            );
            apart = apart;
            counted = k.0;
            peak = ground arith;
            bound = ground (arith, k.1, inv.bound);
          };
        }

    take_block_lem :
        (headers : Headers) (blk_size : ℕ)
        → split a needed off b p.headers ≡ (headers, blk_size)
        → p.bytes_used + blk_size ≤ usable a
        → take_block a size align off b p
          ≡ (some (a.base + off + offset), taken_pool headers blk_size)
    unfolding take_block
    take_block_lem headers blk_size e l =
        let o : word offset ≡ offset =
          mod-eq_of_lt (omega (arith, within, total, usable_lem v, v.ends)) in
        let k : word (p.bytes_used + blk_size) ≡ p.bytes_used + blk_size =
          mod-eq_of_lt (omega (arith, usable_lem v, v.ends)) in
        rw (e, o, k) refl

    abbrev split_rest : BlockHeader
    split_rest = record {
      size = b.size - needed;
      payload_offset = header_slot a;
      allocated = false;
    }

    abbrev split_headers : Headers
    split_headers = update p.headers (off + needed) split_rest

    split_lem :
        leb (header_slot a + a.align) (b.size - needed) ≡ true
        → split a needed off b p.headers ≡ (split_headers, needed)
    unfolding split
    split_lem room =
        let u = usable_lem v in
        let r : word (b.size - needed) ≡ b.size - needed =
          mod-eq_of_lt (omega (arith, total, u, v.ends)) in
        let n : word needed ≡ needed = mod-eq_of_lt (omega (arith, needed_lem, total, u, v.ends)) in
        let h : word (header_slot a) ≡ header_slot a = mod-eq_of_lt (omega (arith, u, v.ends)) in
        rw room (rw (r, n, h) refl)

    whole_lem :
        leb (header_slot a + a.align) (b.size - needed) ≡ false
        → split a needed off b p.headers ≡ (p.headers, b.size)
    unfolding split
    whole_lem tight = rw tight refl

    -- The statements that take the block do this, whether they split it or not.
    pub take_block-Taken : Taken a size align pre b post p (take_block a size align off b p)
    take_block-Taken = elim (Bool-cases (leb (header_slot a + a.align) (b.size - needed))) [
      | inl room ↦
          let left : header_slot a + a.align ≤ b.size - needed = ground arith in
          let e : needed + extent (split_rest ∷ []) ≡ b.size = omega (arith, needed_lem, left) in
          rw
            (take_block_lem split_headers needed (split_lem room)
              (counters needed (split_rest ∷ []) e refl).1)
            (carved-Taken split_headers needed (split_rest ∷ []) e refl needed_lem.0 needed_lem.1
              (
                record {
                  header = omega (arith, left);
                  aligned = dvd-sub a.align middle-IsBlock.aligned needed_lem.1;
                  payload = λ t. absurd (ground arith);
                },
                tt,
              )
              (Apart-carved pre b _ split_rest post refl (sym open_block) inv.apart)
              (λ i l. update_ne p.headers (off + needed) i split_rest (omega arith))
              (λ i l.
                update_ne p.headers (off + needed) i split_rest
                  (omega (arith, left, needed_lem, header_pos v)))
              (update_self p.headers (off + needed) split_rest, omega (arith, e)))
      | inr tight ↦
          let e : b.size + extent [] ≡ b.size = omega arith in
          rw (take_block_lem p.headers b.size (whole_lem tight) (counters b.size [] e refl).1) (
            carved-Taken p.headers b.size [] e refl within middle-IsBlock.aligned tt
              (Apart-taken pre b _ post refl inv.apart) (λ i l. refl) (λ i l. refl) refl)
    ]
