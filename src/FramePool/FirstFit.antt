-- ===== src/FramePool/FirstFit.antt =====
-- `allocate` of detail/frame_pool.h: the first free block with room is taken, and otherwise none.
use native.Mathlib.Nat.{mod-eq_of_lt}
use simple_await.Base.{
  ℕ, zero, suc, ◌+◌, ◌^◌, ◌<◌, ◌≡◌, refl, sym, ◌∙◌, ap, subst, arith, true, false, Bool, Option,
  List, [], ◌∷◌, ◌++◌, length, not, ◌&&◌, Bool-cases, inl, inr, ltb,
}
use simple_await.FramePool.{
  Arena, BlockHeader, FramePool, word, usable, fits, take_block, is_power_of_two, failed,
  allocate_from, allocate,
}
use simple_await.FramePool.Words.{IsArena, usable_lem, real_align}
use simple_await.FramePool.Blocks.{
  Tiled, extent, Positive, Tiled-limit, AllBlocks-Positive, length-le-extent,
}
use simple_await.FramePool.Pool.{PoolInv, Taken, header_pos}
use simple_await.FramePool.Allocate.{take_block-Taken}

-- A free block at `off` in which the payload fits.
abbrev pub usable_block : Arena → ℕ → ℕ → ℕ → BlockHeader → Bool
usable_block a size align off b = not b.allocated && fits a size align off b

-- No block of the stretch from `off` is one.
abbrev pub NoRoom : Arena → ℕ → ℕ → ℕ → List BlockHeader → Type 0
NoRoom a size align off [] = Unit {0}
NoRoom a size align off (b ∷ bs) =
    (usable_block a size align off b ≡ false) × NoRoom a size align (off + b.size) bs

-- Where the loop stops: at the end, or at the first such block.
data Found (a : Arena) (size align off : ℕ) (bs : List BlockHeader) (p : FramePool)
    (out : Option ℕ × FramePool) : Type 0 where
  nowhere : NoRoom a size align off bs → out ≡ failed p → Found a size align off bs p out
  at_block :
      (pre : List BlockHeader) (b : BlockHeader) (post : List BlockHeader)
      → bs ≡ pre ++ b ∷ post
      → NoRoom a size align off pre
      → usable_block a size align (off + extent pre) b ≡ true
      → out ≡ take_block a size align (off + extent pre) b p
      → Found a size align off bs p out

Found-later :
    (a : Arena) (size align off : ℕ) (b : BlockHeader) (bs : List BlockHeader) (p : FramePool)
    (out : Option ℕ × FramePool)
    → usable_block a size align off b ≡ false
    → Found a size align (off + b.size) bs p out
    → Found a size align off (b ∷ bs) p out
Found-later a size align off b bs p out h (nowhere k e) = nowhere (h, k) e
Found-later a size align off b bs p out h (at_block pre c post eq k u e) =
    let o : off + b.size + extent pre ≡ off + (b.size + extent pre) = omega arith in
    at_block (b ∷ pre) c post (ap (◌∷◌ b) eq) (h, k)
      (subst (λ x. usable_block a size align x c ≡ true) o u)
      (e ∙ ap (λ (x : ℕ). take_block a size align x c p) o)

module _ {a : Arena} (v : IsArena a) (size align : ℕ) (p : FramePool) where
  allocate_from-Found :
      (fuel off : ℕ) (bs : List BlockHeader)
      → Tiled p.headers off bs (usable a)
      → Positive bs
      → length bs < fuel
      → Found a size align off bs p (allocate_from fuel a size align off p)
  unfolding allocate_from
  allocate_from-Found zero off bs t big h = elim h [ ]
  allocate_from-Found (suc fuel) off [] t big h =
      nowhere tt (let stop : ltb off (usable a) ≡ false = ground arith in rw stop refl)
  allocate_from-Found (suc fuel) off (b ∷ bs) t big h =
      let l = Tiled-limit p.headers (off + b.size) bs (usable a) t.1 in
      let inside : ltb off (usable a) ≡ true = ground (arith, l, big.0) in
      let next : word (off + b.size) ≡ off + b.size =
        mod-eq_of_lt (omega (arith, l, usable_lem v, v.ends)) in
      let at : off + 0 ≡ off = omega arith in
      rw (inside, t.0)
        (elim (Bool-cases (usable_block a size align off b)) [
          | inl u ↦ rw u (
              at_block [] b bs refl tt
                (subst (λ x. usable_block a size align x b ≡ true) (sym at) u)
                (ap (λ (x : ℕ). take_block a size align x b p) (sym at)))
          | inr u ↦
              rw (u, next)
                (Found-later a size align off b bs p _ u
                  (allocate_from-Found fuel (off + b.size) bs t.1 big.1 (omega arith)))
        ])

-- What `allocate` returns from the pool `p` of the blocks `bs`.
pub data AllocateResult (a : Arena) (size align : ℕ) (p : FramePool) (bs : List BlockHeader)
    (out : Option ℕ × FramePool) : Type 0 where
  invalid :
      is_power_of_two (real_align a align) ≡ false
      → out ≡ failed p
      → AllocateResult a size align p bs out
  exhausted :
      is_power_of_two (real_align a align) ≡ true
      → NoRoom a size (real_align a align) 0 bs
      → out ≡ failed p
      → AllocateResult a size align p bs out
  takes :
      (pre : List BlockHeader) (b : BlockHeader) (post : List BlockHeader)
      → is_power_of_two (real_align a align) ≡ true
      → bs ≡ pre ++ b ∷ post
      → b.allocated ≡ false
      → NoRoom a size (real_align a align) 0 pre
      → Taken a size (real_align a align) pre b post p out
      → AllocateResult a size align p bs out

module _ {a : Arena} (v : IsArena a) (size align : ℕ) {p : FramePool} {bs : List BlockHeader}
    (inv : PoolInv a p bs) (small : align < 2 ^ 32)
    (power : is_power_of_two (real_align a align) ≡ true) where
  real_small : real_align a align < 2 ^ 32
  real_small = ground (arith, v.slot)

  Found-AllocateResult :
      {out : Option ℕ × FramePool}
      → Found a size (real_align a align) 0 bs p out
      → AllocateResult a size align p bs out
  Found-AllocateResult (nowhere k e) = exhausted power k e
  Found-AllocateResult {out} (at_block pre b post eq k u e) =
      let z : 0 + extent pre ≡ extent pre = omega arith in
      let open_block : b.allocated ≡ false = ground (arith, u) in
      let fit : fits a size (real_align a align) (extent pre) b ≡ true =
        subst (λ x. fits a size (real_align a align) x b ≡ true) z (ground (arith, u)) in
      let t =
        take_block-Taken v size (real_align a align) pre b post (subst (PoolInv a p) eq inv) fit
          open_block power real_small in
      takes pre b post power eq open_block k (
        subst (Taken a size (real_align a align) pre b post p)
          (sym (e ∙ ap (λ (x : ℕ). take_block a size (real_align a align) x b p) z)) t)

-- From a pool of the blocks `bs`, `allocate` with an alignment of 32 bits ends in one of three ways. An
-- alignment that is not a power of two, and a request for which no free block has room, return a
-- null pointer and count a failure. Otherwise the first free block with room is taken: the pointer has
-- the alignment, the payload lies behind the header and in its block, the bytes used grow by the
-- block, and the pool's blocks again tile the arena with no two free ones side by side.
pub allocate-AllocateResult :
    {a : Arena} (size align : ℕ) {p : FramePool} {bs : List BlockHeader}
    → IsArena a
    → PoolInv a p bs
    → align < 2 ^ 32
    → AllocateResult a size align p bs (allocate a size align p)
unfolding allocate
allocate-AllocateResult {a} size align {p} {bs} v inv small =
    elim (Bool-cases (is_power_of_two (real_align a align))) [
      | inr bad ↦ invalid bad (rw bad refl)
      | inl power ↦
          let big = AllBlocks-Positive a bs (header_pos v) inv.blocks in
          rw power (
            Found-AllocateResult v size align inv small power (
              allocate_from-Found v size (real_align a align) p (suc (usable a)) 0 bs inv.tiled big
                (omega (
                  arith,
                  length-le-extent bs big,
                  Tiled-limit p.headers 0 bs (usable a) inv.tiled,
                ))))
    ]
