-- ===== src/FramePool/Deallocate.antt =====
-- `deallocate` of detail/frame_pool.h: the block of the pointer is freed and joined to its neighbours.
use native.Mathlib.Nat.{mod-eq_of_lt}
use simple_await.Base.{
  ℕ, zero, suc, ◌+◌, ◌-◌, ◌^◌, ◌<◌, ◌≡◌, refl, sym, ◌∙◌, ap, subst, arith, true, false, Bool, some,
  List, [], ◌∷◌, ◌++◌, length, ◌&&◌, Bool-cases, inl, inr, ltb, ◌==◌, update, update_self,
  update_ne,
}
use simple_await.Error.{ErrorLog, internal_error}
use simple_await.FramePool.{
  Arena, BlockHeader, Headers, FramePool, word, usable, free_block, deallocate_from, deallocate,
}
use simple_await.FramePool.Words.{IsArena, usable_lem}
use simple_await.FramePool.Blocks.{
  Tiled, AllBlocks, extent, used, Positive, Tiled-limit, Tiled-replace, AllBlocks-Positive,
  AllBlocks-append, AllBlocks-split, used-append, length-le-extent,
}
use simple_await.FramePool.Coalesce.{
  merge_all, used-merge_all, merge_all-AllBlocks, merge_all-Apart, coalesce-merge_all,
}
use simple_await.FramePool.Pool.{PoolInv, header_pos}

-- The test of `deallocate` at the block `b` at `off`.
abbrev pub points_to : Arena → ℕ → ℕ → BlockHeader → Bool
points_to a q off b = b.allocated && (a.base + off + b.payload_offset == q)

-- No block of the stretch from `off` holds the pointer `q`.
abbrev pub NoneAt : Arena → ℕ → ℕ → List BlockHeader → Type 0
NoneAt a q off [] = Unit {0}
NoneAt a q off (b ∷ bs) = (points_to a q off b ≡ false) × NoneAt a q (off + b.size) bs

abbrev pub freed : BlockHeader → BlockHeader
freed b = record b { allocated = false }

-- Where the loop stops.
data Located (a : Arena) (q off : ℕ) (bs : List BlockHeader) (p : FramePool)
    (out : FramePool × ErrorLog) : Type 0 where
  nowhere : NoneAt a q off bs → out ≡ (p, internal_error ∷ []) → Located a q off bs p out
  at_block :
      (pre : List BlockHeader) (b : BlockHeader) (post : List BlockHeader)
      → bs ≡ pre ++ b ∷ post
      → NoneAt a q off pre
      → points_to a q (off + extent pre) b ≡ true
      → out ≡ (free_block a (off + extent pre) b p, [])
      → Located a q off bs p out

Located-later :
    (a : Arena) (q off : ℕ) (b : BlockHeader) (bs : List BlockHeader) (p : FramePool)
    (out : FramePool × ErrorLog)
    → points_to a q off b ≡ false
    → Located a q (off + b.size) bs p out
    → Located a q off (b ∷ bs) p out
Located-later a q off b bs p out h (nowhere k e) = nowhere (h, k) e
Located-later a q off b bs p out h (at_block pre c post eq k u e) =
    let o : off + b.size + extent pre ≡ off + (b.size + extent pre) = omega arith in
    at_block (b ∷ pre) c post (ap (◌∷◌ b) eq) (h, k) (subst (λ x. points_to a q x c ≡ true) o u)
      (e ∙ ap (λ (x : ℕ). (free_block a x c p, [])) o)

module _ {a : Arena} (v : IsArena a) (q : ℕ) (p : FramePool) where
  deallocate_from-Located :
      (fuel off : ℕ) (bs : List BlockHeader)
      → Tiled p.headers off bs (usable a)
      → Positive bs
      → length bs < fuel
      → Located a q off bs p (deallocate_from fuel a q off p)
  unfolding deallocate_from
  deallocate_from-Located zero off bs t big h = elim h [ ]
  deallocate_from-Located (suc fuel) off [] t big h =
      nowhere tt (let stop : ltb off (usable a) ≡ false = ground arith in rw stop refl)
  deallocate_from-Located (suc fuel) off (b ∷ bs) t big h =
      let l = Tiled-limit p.headers (off + b.size) bs (usable a) t.1 in
      let inside : ltb off (usable a) ≡ true = ground (arith, l, big.0) in
      let next : word (off + b.size) ≡ off + b.size =
        mod-eq_of_lt (omega (arith, l, usable_lem v, v.ends)) in
      let at : off + 0 ≡ off = omega arith in
      rw (inside, t.0)
        (elim (Bool-cases (points_to a q off b)) [
          | inl u ↦ rw u (
              at_block [] b bs refl tt (subst (λ x. points_to a q x b ≡ true) (sym at) u)
                (ap (λ (x : ℕ). (free_block a x b p, [])) (sym at)))
          | inr u ↦
              rw (u, next)
                (Located-later a q off b bs p _ u
                  (deallocate_from-Located fuel (off + b.size) bs t.1 big.1 (omega arith)))
        ])

-- The allocated block `b` behind `pre` was freed.
pub record Freed (a : Arena) (pre : List BlockHeader) (b : BlockHeader) (post : List BlockHeader)
    (p u : FramePool) : Type 0 where
  pub inv : PoolInv a u (merge_all (pre ++ freed b ∷ post))
  pub shrunk : u.bytes_used + b.size ≡ p.bytes_used
  pub peak : u.peak_bytes_used ≡ p.peak_bytes_used
  pub failures : u.allocation_failures ≡ p.allocation_failures

-- What is used of a list, where one block becomes free.
module _ {a : Arena} (v : IsArena a) (pre : List BlockHeader) (b : BlockHeader)
    (post : List BlockHeader) {p : FramePool} (inv : PoolInv a p (pre ++ b ∷ post))
    (held : b.allocated ≡ true) where
  free_block-Freed : Freed a pre b post p (free_block a (extent pre) b p)
  unfolding free_block
  free_block-Freed =
      let parts = AllBlocks-split a pre (b ∷ post) inv.blocks in
      let block = parts.1.0 in
      let big = AllBlocks-Positive a pre (header_pos v) parts.0 in
      let pos : 0 < b.size = omega (arith, block.header, header_pos v) in
      let h' : Headers = update p.headers (extent pre) (freed b) in
      let tiled =
        Tiled-replace p.headers h' pre b (freed b ∷ []) post (usable a) big (omega arith)
          (λ i l. update_ne p.headers (extent pre) i (freed b) (omega arith))
          (λ i l. update_ne p.headers (extent pre) i (freed b) (omega (arith, pos)))
          (update_self p.headers (extent pre) (freed b), omega arith) inv.tiled in
      let blocks : AllBlocks a (pre ++ freed b ∷ post) =
        AllBlocks-append a pre (freed b ∷ post) parts.0 (
          record {
            header = block.header;
            aligned = block.aligned;
            payload = λ t. absurd (ground arith);
          },
          parts.1.1,
        ) in
      let many = AllBlocks-Positive a (pre ++ freed b ∷ post) (header_pos v) blocks in
      let whole = Tiled-limit h' 0 (pre ++ freed b ∷ post) (usable a) tiled in
      let was : used (pre ++ b ∷ post) ≡ used pre + (b.size + used post) =
        used-append pre (b ∷ post) ∙ rw held refl in
      let now : used (pre ++ freed b ∷ post) ≡ used pre + used post =
        omega (arith, used-append pre (freed b ∷ post)) in
      let left : word (p.bytes_used + 2 ^ 32 - b.size) ≡ used pre + used post =
        omega (arith, inv.counted, was, inv.peak, inv.bound, usable_lem v, v.ends) in
      record {
        inv = record {
          tiled =
              coalesce-merge_all v (pre ++ freed b ∷ post) h' tiled many
                (omega (arith, length-le-extent (pre ++ freed b ∷ post) many, whole));
          blocks = merge_all-AllBlocks a (pre ++ freed b ∷ post) blocks;
          apart = merge_all-Apart (pre ++ freed b ∷ post);
          counted = left ∙ sym now ∙ sym (used-merge_all (pre ++ freed b ∷ post));
          peak = omega (arith, left, inv.counted, was, inv.peak);
          bound = inv.bound;
        };
        shrunk = omega (arith, left, inv.counted, was);
        peak = refl;
        failures = refl;
      }

-- What `deallocate` of the pointer `q` does to the pool `p` of the blocks `bs`.
pub data DeallocateResult (a : Arena) (q : ℕ) (p : FramePool) (bs : List BlockHeader)
    (out : FramePool × ErrorLog) : Type 0 where
  unknown : NoneAt a q 0 bs → out ≡ (p, internal_error ∷ []) → DeallocateResult a q p bs out
  frees :
      (pre : List BlockHeader) (b : BlockHeader) (post : List BlockHeader)
      → bs ≡ pre ++ b ∷ post
      → NoneAt a q 0 pre
      → b.allocated ≡ true
      → a.base + extent pre + b.payload_offset ≡ q
      → out.1 ≡ []
      → Freed a pre b post p out.0
      → DeallocateResult a q p bs out

Located-DeallocateResult :
    {a : Arena} (v : IsArena a) (q : ℕ) {p : FramePool} {bs : List BlockHeader}
    {out : FramePool × ErrorLog}
    → PoolInv a p bs
    → Located a q 0 bs p out
    → DeallocateResult a q p bs out
Located-DeallocateResult v q inv (nowhere k e) = unknown k e
Located-DeallocateResult {a} v q {p} {bs} {out} inv (at_block pre b post eq k u e) =
    let z : 0 + extent pre ≡ extent pre = omega arith in
    let u' : points_to a q (extent pre) b ≡ true = subst (λ x. points_to a q x b ≡ true) z u in
    let held : b.allocated ≡ true = ground (arith, u') in
    let e' : out ≡ (free_block a (extent pre) b p, []) =
      e ∙ ap (λ (x : ℕ). (free_block a x b p, [])) z in
    frees pre b post eq k held (ground (arith, u')) (ap (λ (o : FramePool × ErrorLog). o.1) e') (
      subst (λ (o : FramePool × ErrorLog). Freed a pre b post p o.0) (sym e')
        (free_block-Freed v pre b post (subst (PoolInv a p) eq inv) held))

-- From a pool of the blocks `bs`, `deallocate` of a pointer that is not null ends in one of two ways. If
-- no allocated block holds the pointer, as for a second free or a foreign pointer, it reports the
-- error and changes nothing. Otherwise it frees the first such block without a report: the bytes
-- used shrink by the block, and every run of free blocks is joined, so that the blocks again tile the
-- arena with no two free ones side by side.
pub deallocate-DeallocateResult :
    {a : Arena} (q : ℕ) {p : FramePool} {bs : List BlockHeader}
    → IsArena a
    → PoolInv a p bs
    → DeallocateResult a q p bs (deallocate a (some q) p)
unfolding deallocate
deallocate-DeallocateResult {a} q {p} {bs} v inv =
    let big = AllBlocks-Positive a bs (header_pos v) inv.blocks in
    Located-DeallocateResult v q inv (
      deallocate_from-Located v q p (suc (usable a)) 0 bs inv.tiled big
        (omega (arith, length-le-extent bs big, Tiled-limit p.headers 0 bs (usable a) inv.tiled)))
