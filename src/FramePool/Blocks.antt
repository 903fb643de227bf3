-- ===== src/FramePool/Blocks.antt =====
-- The blocks of the arena of detail/frame_pool.h as a list: they tile the arena from its start.
use Prim.Native.Nat.{◌∣◌}
use simple_await.Base.{
  ℕ, ◌+◌, ◌≤◌, ◌<◌, ◌≡◌, sym, ◌∙◌, subst, arith, true, List, [], ◌∷◌, ◌++◌, length, if◌then◌else◌,
  inl, inr, ◌⊎◌,
}
use simple_await.FramePool.{Arena, BlockHeader, Headers, header_slot}

-- The blocks `bs` lie one behind the other from `off`, and end at `limit`.
abbrev pub Tiled : Headers → ℕ → List BlockHeader → ℕ → Type 0
Tiled headers off [] limit = off ≡ limit
Tiled headers off (b ∷ bs) limit = (headers off ≡ b) × Tiled headers (off + b.size) bs limit

-- A block has room for its header, keeps the next one aligned, and its payload begins inside it.
pub record IsBlock (a : Arena) (b : BlockHeader) : Type 0 where
  pub header : header_slot a ≤ b.size
  pub aligned : a.align ∣ b.size
  pub payload :
      b.allocated ≡ true → (header_slot a ≤ b.payload_offset) × (b.payload_offset ≤ b.size)

abbrev pub AllBlocks : Arena → List BlockHeader → Type 0
AllBlocks a [] = Unit {0}
AllBlocks a (b ∷ bs) = IsBlock a b × AllBlocks a bs

abbrev pub extent : List BlockHeader → ℕ
extent [] = 0
extent (b ∷ bs) = b.size + extent bs

-- The bytes of the allocated blocks.
abbrev pub used : List BlockHeader → ℕ
used [] = 0
used (b ∷ bs) = (if b.allocated then b.size else 0) + used bs

-- No free block follows a free one.
abbrev pub Apart : List BlockHeader → Type 0
Apart [] = Unit {0}
Apart (b ∷ []) = Unit {0}
Apart (b ∷ c ∷ bs) = ((b.allocated ≡ true) ⊎ (c.allocated ≡ true)) × Apart (c ∷ bs)

pub Tiled-limit :
    (headers : Headers) (off : ℕ) (bs : List BlockHeader) (limit : ℕ)
    → Tiled headers off bs limit
    → off + extent bs ≡ limit
Tiled-limit headers off [] limit t = omega (arith, t)
Tiled-limit headers off (b ∷ bs) limit t =
    omega (arith, Tiled-limit headers (off + b.size) bs limit t.1)

pub Tiled-append :
    (headers : Headers) (off : ℕ) (bs cs : List BlockHeader) (limit : ℕ)
    → Tiled headers off bs (off + extent bs)
    → Tiled headers (off + extent bs) cs limit
    → Tiled headers off (bs ++ cs) limit
Tiled-append headers off [] cs limit t u = subst (λ o. Tiled headers o cs limit) (omega arith) u
Tiled-append headers off (b ∷ bs) cs limit t u =
    let e : off + b.size + extent bs ≡ off + (b.size + extent bs) = omega arith in
    (
      t.0,
      Tiled-append headers (off + b.size) bs cs limit
          (subst (Tiled headers (off + b.size) bs) (sym e) t.1)
          (subst (λ o. Tiled headers o cs limit) (sym e) u),
    )

pub Tiled-split :
    (headers : Headers) (off : ℕ) (bs cs : List BlockHeader) (limit : ℕ)
    → Tiled headers off (bs ++ cs) limit
    → Tiled headers off bs (off + extent bs) × Tiled headers (off + extent bs) cs limit
Tiled-split headers off [] cs limit t =
    (omega arith, subst (λ o. Tiled headers o cs limit) (omega arith) t)
Tiled-split headers off (b ∷ bs) cs limit t =
    let e : off + b.size + extent bs ≡ off + (b.size + extent bs) = omega arith in
    let (p, q) = Tiled-split headers (off + b.size) bs cs limit t.1 in
    ((t.0, subst (Tiled headers (off + b.size) bs) e p), subst (λ o. Tiled headers o cs limit) e q)

abbrev pub Positive : List BlockHeader → Type 0
Positive [] = Unit {0}
Positive (b ∷ bs) = (0 < b.size) × Positive bs

pub length-le-extent : (bs : List BlockHeader) → Positive bs → length bs ≤ extent bs
length-le-extent [] p = omega arith
length-le-extent (b ∷ bs) p = omega (arith, p.0, length-le-extent bs p.1)

-- The blocks before `limit` read headers before it, and those from `off` headers from it.
pub Tiled-below :
    (headers headers' : Headers) (off : ℕ) (bs : List BlockHeader) (limit : ℕ)
    → Positive bs
    → ((i : ℕ) → i < limit → headers' i ≡ headers i)
    → Tiled headers off bs limit
    → Tiled headers' off bs limit
Tiled-below headers headers' off [] limit big same t = t
Tiled-below headers headers' off (b ∷ bs) limit big same t = (
  same off (omega (arith, big.0, Tiled-limit headers (off + b.size) bs limit t.1)) ∙ t.0,
  Tiled-below headers headers' (off + b.size) bs limit big.1 same t.1,
)

pub Tiled-above :
    (headers headers' : Headers) (off : ℕ) (bs : List BlockHeader) (limit : ℕ)
    → ((i : ℕ) → off ≤ i → headers' i ≡ headers i)
    → Tiled headers off bs limit
    → Tiled headers' off bs limit
Tiled-above headers headers' off [] limit same t = t
Tiled-above headers headers' off (b ∷ bs) limit same t = (
  same off (omega arith) ∙ t.0,
  Tiled-above headers headers' (off + b.size) bs limit (λ i h. same i (omega arith)) t.1,
)

module _ (a : Arena) where
  pub AllBlocks-Positive :
      (bs : List BlockHeader) → 0 < header_slot a → AllBlocks a bs → Positive bs
  AllBlocks-Positive [] h p = tt
  AllBlocks-Positive (b ∷ bs) h p = (omega (arith, p.0.header), AllBlocks-Positive bs h p.1)

  pub AllBlocks-append :
      (bs cs : List BlockHeader) → AllBlocks a bs → AllBlocks a cs → AllBlocks a (bs ++ cs)
  AllBlocks-append [] cs p q = q
  AllBlocks-append (b ∷ bs) cs p q = (p.0, AllBlocks-append bs cs p.1 q)

  pub AllBlocks-split :
      (bs cs : List BlockHeader) → AllBlocks a (bs ++ cs) → AllBlocks a bs × AllBlocks a cs
  AllBlocks-split [] cs p = (tt, p)
  AllBlocks-split (b ∷ bs) cs p = let (q, r) = AllBlocks-split bs cs p.1 in ((p.0, q), r)

pub used-append : (bs cs : List BlockHeader) → used (bs ++ cs) ≡ used bs + used cs
used-append [] cs = omega arith
used-append (b ∷ bs) cs = omega (arith, used-append bs cs)

pub extent-append : (bs cs : List BlockHeader) → extent (bs ++ cs) ≡ extent bs + extent cs
extent-append [] cs = omega arith
extent-append (b ∷ bs) cs = omega (arith, extent-append bs cs)

pub used-le-extent : (bs : List BlockHeader) → used bs ≤ extent bs
used-le-extent [] = omega arith
used-le-extent (b ∷ bs) = ground (arith, used-le-extent bs)

-- The block behind `pre` gives way to `cs`, which take the same bytes.
pub Tiled-replace :
    (headers headers' : Headers) (pre : List BlockHeader) (b : BlockHeader)
    (cs post : List BlockHeader) (limit : ℕ)
    → Positive pre
    → extent cs ≡ b.size
    → ((i : ℕ) → i < extent pre → headers' i ≡ headers i)
    → ((i : ℕ) → extent pre + b.size ≤ i → headers' i ≡ headers i)
    → Tiled headers' (extent pre) cs (extent pre + extent cs)
    → Tiled headers 0 (pre ++ b ∷ post) limit
    → Tiled headers' 0 (pre ++ (cs ++ post)) limit
Tiled-replace headers headers' pre b cs post limit big same low high new t =
    let (p, q) = Tiled-split headers 0 pre (b ∷ post) limit t in
    let z : 0 + extent pre ≡ extent pre = omega arith in
    let q' = subst (λ o. Tiled headers o (b ∷ post) limit) z q in
    Tiled-append headers' 0 pre (cs ++ post) limit
      (Tiled-below headers headers' 0 pre (0 + extent pre) big (λ i h. low i (omega arith)) p)
      (subst (λ o. Tiled headers' o (cs ++ post) limit) (sym z)
        (Tiled-append headers' (extent pre) cs post limit new (
          subst (λ o. Tiled headers' o post limit) (omega (arith, same))
            (Tiled-above headers headers' (extent pre + b.size) post limit high q'.1))))

-- A block that becomes allocated, and a free rest of it, keep free blocks apart.
pub Apart-taken :
    (pre : List BlockHeader) (b c : BlockHeader) (post : List BlockHeader)
    → c.allocated ≡ true
    → Apart (pre ++ b ∷ post)
    → Apart (pre ++ c ∷ post)
Apart-taken [] b c [] h p = tt
Apart-taken [] b c (x ∷ post) h p = (inl h, p.1)
Apart-taken (y ∷ []) b c post h p = (inr h, Apart-taken [] b c post h p.1)
Apart-taken (y ∷ z ∷ pre) b c post h p = (p.0, Apart-taken (z ∷ pre) b c post h p.1)

pub Apart-carved :
    (pre : List BlockHeader) (b c d : BlockHeader) (post : List BlockHeader)
    → c.allocated ≡ true
    → d.allocated ≡ b.allocated
    → Apart (pre ++ b ∷ post)
    → Apart (pre ++ c ∷ d ∷ post)
Apart-carved [] b c d [] h e p = (inl h, tt)
Apart-carved [] b c d (x ∷ post) h e p =
    (inl h, (elim (p.0) [ inl k ↦ inl (e ∙ k) | inr k ↦ inr k ], p.1))
Apart-carved (y ∷ []) b c d post h e p = (inr h, Apart-carved [] b c d post h e p.1)
Apart-carved (y ∷ z ∷ pre) b c d post h e p = (p.0, Apart-carved (z ∷ pre) b c d post h e p.1)
