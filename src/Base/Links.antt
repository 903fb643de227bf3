-- ===== src/Base/Links.antt =====
-- Singly linked lists as functions from a node to the next one: stretches of links, and writes to them.
use Prim.Native.Nat.{ℕ, ◌≤◌}
use mathlib.Core.Path.{◌≡◌, refl, ap, subst, sym}
use mathlib.Core.Logic.{◌≢◌}
use mathlib.Core.List.{List, [], ◌∷◌, ◌++◌}
use mathlib.Core.Option.{Option, none, some}
use native.Mathlib.Omega.{arith}
use simple_await.Base.Lists.{count, get_last?}

-- The nodes `l` are linked from `p`, and the last one links to `q`.
abbrev pub Segment : (ℕ → Option ℕ) → Option ℕ → List ℕ → Option ℕ → Type 0
Segment next p [] q = p ≡ q
Segment next p (x ∷ l) q = (p ≡ some x) × Segment next (next x) l q

pub Segment-frame :
    (next next' : ℕ → Option ℕ) (p : Option ℕ) (l : List ℕ) (q : Option ℕ)
    → ((i : ℕ) → count i l ≢ 0 → next' i ≡ next i)
    → Segment next p l q
    → Segment next' p l q
Segment-frame next next' p [] q same c = c
Segment-frame next next' p (x ∷ l) q same c = (
  c.0,
  Segment-frame next next' (next' x) l q (λ i h. same i (omega arith))
      (subst (λ o. Segment next o l q) (sym (same x (ground arith))) c.1),
)

pub Segment-join :
    (next : ℕ → Option ℕ) (p q r : Option ℕ) (k l : List ℕ)
    → Segment next p k q
    → Segment next q l r
    → Segment next p (k ++ l) r
Segment-join next p q r [] l c m = subst (λ o. Segment next o l r) (sym c) m
Segment-join next p q r (x ∷ k) l c m = (c.0, Segment-join next (next x) q r k l c.1 m)

-- The links determine the nodes.
pub Segment-unique :
    (next : ℕ → Option ℕ) (p : Option ℕ) (l k : List ℕ)
    → Segment next p l none
    → Segment next p k none
    → l ≡ k
Segment-unique next p [] [] c m = refl
Segment-unique next p [] (y ∷ k) c m = absurd (ground (arith, c, m.0))
Segment-unique next p (x ∷ l) [] c m = absurd (ground (arith, c.0, m))
Segment-unique next p (x ∷ l) (y ∷ k) c m =
    let same : y ≡ x = ground (arith, c.0, m.0) in
    rw same (
      ap (λ t. x ∷ t)
        (Segment-unique next (next x) l k c.1 (subst (λ z. Segment next (next z) k none) same m.1)))

pub Segment-last :
    (next : ℕ → Option ℕ) (p : Option ℕ) (l : List ℕ) (q : Option ℕ) (t : ℕ)
    → get_last? l ≡ some t
    → Segment next p l q
    → next t ≡ q
Segment-last next p [] q t e c = ground arith
Segment-last next p (x ∷ []) q t e c = ground (arith, c.1)
Segment-last next p (x ∷ y ∷ l) q t e c = Segment-last next (next x) (y ∷ l) q t e c.1

pub count-last : (r : List ℕ) (t : ℕ) → get_last? r ≡ some t → 1 ≤ count t r
count-last [] t e = ground arith
count-last (x ∷ []) t e = ground arith
count-last (x ∷ y ∷ xs) t e = omega (arith, count-last (y ∷ xs) t e)

-- A write to the link of the last node.
pub Segment-relink :
    (next next' : ℕ → Option ℕ) (p : Option ℕ) (l : List ℕ) (q : Option ℕ) (t : ℕ)
    → ((i : ℕ) → count i l ≤ 1)
    → get_last? l ≡ some t
    → ((i : ℕ) → count i l ≢ 0 → i ≢ t → next' i ≡ next i)
    → Segment next p l q
    → Segment next' p l (next' t)
Segment-relink next next' p [] q t d e same c = ground arith
Segment-relink next next' p (x ∷ []) q t d e same c = ground (arith, c.0, e)
Segment-relink next next' p (x ∷ y ∷ l) q t d e same c = (
  c.0,
  Segment-relink next next' (next' x) (y ∷ l) q t (λ i. omega (arith, d i)) e
      (λ i h. same i (omega arith))
      (subst (λ o. Segment next o (y ∷ l) q) (sym (same x (ground arith) (λ k. apart k))) c.1),
)
  where
    apart : x ≢ t
    apart k = ground (arith, d t, count-last (y ∷ l) t e)
