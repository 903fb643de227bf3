-- ===== src/FramePool/Coalesce.antt =====
-- `coalesce` of detail/frame_pool.h joins every run of free blocks.
use native.Mathlib.Nat.{dvd-add, mod-eq_of_lt}
use simple_await.Base.{
  ℕ, zero, suc, ◌+◌, ◌≤◌, ◌<◌, ◌≡◌, refl, ◌∙◌, ap, subst, arith, true, false, Bool, List, [], ◌∷◌,
  length, not, ◌&&◌, if◌then◌else◌, Bool-cases, inl, inr, ◌⊎◌, ltb, update, update_self, update_ne,
}
use simple_await.FramePool.{
  Arena, BlockHeader, Headers, word, usable, coalesce_step, coalesce_from, coalesce,
}
use simple_await.FramePool.Words.{IsArena, usable_lem, header_slot-Rounded}
use simple_await.FramePool.Blocks.{
  Tiled, IsBlock, AllBlocks, used, Apart, Positive, Tiled-limit, Tiled-above,
}

abbrev pub both_free : BlockHeader → BlockHeader → Bool
both_free b c = not b.allocated && not c.allocated

-- Two free neighbours as one block.
abbrev pub joined : BlockHeader → BlockHeader → BlockHeader
joined b c = record b { size = b.size + c.size }

-- The blocks `b ∷ bs` with each run of free blocks joined.
abbrev pub merge : BlockHeader → List BlockHeader → List BlockHeader
merge b [] = b ∷ []
merge b (c ∷ bs) = if both_free b c then merge (joined b c) bs else b ∷ merge c bs

abbrev pub merge_all : List BlockHeader → List BlockHeader
merge_all [] = []
merge_all (b ∷ bs) = merge b bs

used-merge : (b : BlockHeader) (bs : List BlockHeader) → used (merge b bs) ≡ used (b ∷ bs)
used-merge b [] = refl
used-merge b (c ∷ bs) = elim (Bool-cases (both_free b c)) [
  | inl free ↦ rw free (used-merge (joined b c) bs ∙ ground arith)
  | inr k ↦ rw k (omega (arith, used-merge c bs))
]

merge-AllBlocks :
    {a : Arena} (b : BlockHeader) (bs : List BlockHeader)
    → IsBlock a b
    → AllBlocks a bs
    → AllBlocks a (merge b bs)
merge-AllBlocks b [] p q = (p, tt)
merge-AllBlocks {a} b (c ∷ bs) p q = elim (Bool-cases (both_free b c)) [
  | inl free ↦ rw free (
      merge-AllBlocks (joined b c) bs
        (record {
          header = omega (arith, p.header);
          aligned = dvd-add a.align p.aligned q.0.aligned;
          payload = λ t. absurd (ground arith);
        })
        q.1)
  | inr k ↦ rw k (p, merge-AllBlocks c bs q.0 q.1)
]

-- The first block of the result is allocated if `b` is.
Apart-cons :
    (b c : BlockHeader) (bs : List BlockHeader)
    → (b.allocated ≡ true) ⊎ (c.allocated ≡ true)
    → Apart (merge c bs)
    → Apart (b ∷ merge c bs)
Apart-cons b c [] h p = (h, tt)
Apart-cons b c (d ∷ bs) h p = elim (Bool-cases (both_free c d)) [
  | inl free ↦ rw free (Apart-cons b (joined c d) bs h (rw free at p))
  | inr k ↦ rw k (h, rw k at p)
]

merge-Apart : (b : BlockHeader) (bs : List BlockHeader) → Apart (merge b bs)
merge-Apart b [] = tt
merge-Apart b (c ∷ bs) = elim (Bool-cases (both_free b c)) [
  | inl free ↦ rw free (merge-Apart (joined b c) bs)
  | inr k ↦ rw k (Apart-cons b c bs (ground arith) (merge-Apart c bs))
]

-- What the loop leaves from `off` on: the merged blocks; before `off` it writes nothing.
abbrev Merged : Arena → ℕ → BlockHeader → List BlockHeader → Headers → Headers → Type 0
Merged a off b bs headers headers' =
    Tiled headers' off (merge b bs) (usable a) × ((i : ℕ) → i < off → headers' i ≡ headers i)

module _ {a : Arena} (v : IsArena a) where
  stops : (fuel : ℕ) (headers : Headers) → coalesce_from (suc fuel) a (usable a) headers ≡ headers
  unfolding coalesce_from
  stops fuel headers = let e : ltb (usable a) (usable a) ≡ false = ground arith in rw e refl

  goes_on :
      (fuel off : ℕ) (headers : Headers)
      → off < usable a
      → coalesce_from (suc fuel) a off headers
        ≡ (let (off', headers') = coalesce_step a off headers in coalesce_from fuel a off' headers')
  unfolding coalesce_from
  goes_on fuel off headers h = let e : ltb off (usable a) ≡ true = ground arith in rw e refl

  steps_over :
      (off : ℕ) (headers : Headers) (b : BlockHeader)
      → headers off ≡ b
      → off + b.size ≤ usable a
      → (b.allocated ≡ true)
        ⊎ ((off + b.size ≡ usable a) ⊎ ((headers (off + b.size)).allocated ≡ true))
      → coalesce_step a off headers ≡ (off + b.size, headers)
  unfolding coalesce_step
  steps_over off headers b e l h =
      let n : word (off + b.size) ≡ off + b.size =
        mod-eq_of_lt (omega (arith, usable_lem v, v.ends)) in
      let test : (not b.allocated
            && ltb (off + b.size) (usable a)
            && not (headers (off + b.size)).allocated)
          ≡ false =
        ground arith in
      rw (e, n) (rw test refl)

  joins :
      (off : ℕ) (headers : Headers) (b c : BlockHeader)
      → headers off ≡ b
      → headers (off + b.size) ≡ c
      → off + b.size + c.size ≤ usable a
      → 0 < c.size
      → both_free b c ≡ true
      → coalesce_step a off headers ≡ (off, update headers off (joined b c))
  unfolding coalesce_step
  joins off headers b c e f l pos free =
      let n : word (off + b.size) ≡ off + b.size =
        mod-eq_of_lt (omega (arith, usable_lem v, v.ends)) in
      let s : word (b.size + c.size) ≡ b.size + c.size =
        mod-eq_of_lt (omega (arith, usable_lem v, v.ends)) in
      let test : (not b.allocated && ltb (off + b.size) (usable a) && not c.allocated) ≡ true =
        ground arith in
      rw (e, n, f, s) (rw test refl)

  coalesce_from-Merged :
      (fuel off : ℕ) (b : BlockHeader) (bs : List BlockHeader) (headers : Headers)
      → Tiled headers off (b ∷ bs) (usable a)
      → Positive (b ∷ bs)
      → suc (length bs) < fuel
      → Merged a off b bs headers (coalesce_from fuel a off headers)
  coalesce_from-Merged zero off b bs headers t big h = elim h [ ]
  coalesce_from-Merged (suc zero) off b bs headers t big h = absurd (omega arith)
  coalesce_from-Merged (suc (suc fuel)) off b [] headers t big h =
      let step = steps_over off headers b t.0 (omega (arith, t.1)) (inr (inl t.1)) in
      rw (goes_on (suc fuel) off headers (omega (arith, t.1, big.0)), step, t.1)
        (rw (stops fuel headers) ((t.0, refl), λ i l. refl))
  coalesce_from-Merged (suc (suc fuel)) off b (c ∷ bs) headers t big h =
      let l = Tiled-limit headers off (b ∷ c ∷ bs) (usable a) t in
      let first = goes_on (suc fuel) off headers (omega (arith, l, big.0)) in
      elim (Bool-cases (both_free b c)) [
        | inl free ↦
            let h' : Headers = update headers off (joined b c) in
            let step = joins off headers b c t.0 t.1.0 (omega (arith, l)) big.1.0 free in
            let t' : Tiled h' off (joined b c ∷ bs) (usable a) = (
              update_self headers off (joined b c),
              subst (λ o. Tiled h' o bs (usable a))
                  (let e : off + b.size + c.size ≡ off + (b.size + c.size) = omega arith in e)
                  (Tiled-above headers h' (off + b.size + c.size) bs (usable a)
                    (λ i k. update_ne headers off i (joined b c) (omega (arith, big.0))) t.1.1),
            ) in
            let (u, same) =
              coalesce_from-Merged (suc fuel) off (joined b c) bs h' t'
                (omega (arith, big.0), big.1.1) (omega arith) in
            rw (first, step, free)
              (u, λ i k. same i k ∙ update_ne headers off i (joined b c) (omega arith))
        | inr k ↦
            let step = steps_over off headers b t.0 (omega (arith, l)) (
              let e : (b.allocated ≡ true) ⊎ (c.allocated ≡ true) = ground arith in
              elim e [
                | inl x ↦ inl x
                | inr x ↦ inr (inr (ap (λ (y : BlockHeader). y.allocated) t.1.0 ∙ x))
              ]) in
            let (u, same) =
              coalesce_from-Merged (suc fuel) (off + b.size) c bs headers t.1 big.1 (omega arith) in
            rw (first, step, k)
              ((same off (omega (arith, big.0)) ∙ t.0, u), λ i m. same i (omega arith))
      ]

  -- `coalesce` leaves the blocks with each run of free ones joined.
  coalesce-Tiled :
      (b : BlockHeader) (bs : List BlockHeader) (headers : Headers)
      → Tiled headers 0 (b ∷ bs) (usable a)
      → Positive (b ∷ bs)
      → suc (length bs) < suc (usable a)
      → Tiled (coalesce a headers) 0 (merge b bs) (usable a)
  unfolding coalesce
  coalesce-Tiled b bs headers t big h =
      (coalesce_from-Merged (suc (usable a)) 0 b bs headers t big h).0

  -- The same for a list that may be given as a whole.
  pub coalesce-merge_all :
      (bs : List BlockHeader) (headers : Headers)
      → Tiled headers 0 bs (usable a)
      → Positive bs
      → length bs ≤ usable a
      → Tiled (coalesce a headers) 0 (merge_all bs) (usable a)
  coalesce-merge_all [] headers t big h =
      absurd (omega (arith, t, usable_lem v, v.header, (header_slot-Rounded v).above))
  coalesce-merge_all (b ∷ bs) headers t big h = coalesce-Tiled b bs headers t big (omega arith)

pub merge_all-AllBlocks :
    (a : Arena) (bs : List BlockHeader) → AllBlocks a bs → AllBlocks a (merge_all bs)
merge_all-AllBlocks a [] p = tt
merge_all-AllBlocks a (b ∷ bs) p = merge-AllBlocks b bs p.0 p.1

pub merge_all-Apart : (bs : List BlockHeader) → Apart (merge_all bs)
merge_all-Apart [] = tt
merge_all-Apart (b ∷ bs) = merge-Apart b bs

pub used-merge_all : (bs : List BlockHeader) → used (merge_all bs) ≡ used bs
used-merge_all [] = refl
used-merge_all (b ∷ bs) = used-merge b bs
