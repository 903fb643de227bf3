-- ===== src/Queue/Ring.antt =====
-- The ring of queue.h as a list: `store_back` appends a value, and `pop_front_storage` takes the first.
use simple_await.Base.{
  ℕ, suc, ◌+◌, ◌-◌, ◌^◌, ◌≤◌, ◌<◌, ◌≡◌, ◌≢◌, sym, ◌∙◌, subst, Option, none, some, List, [], ◌∷◌,
  ◌++◌, arith, length, length-append, update, update_self, update_ne, leb, ◌==◌, if◌then◌else◌,
}
use native.Mathlib.Decide.{ℕ_discrete}
use simple_await.World.{increment}
use simple_await.Queue.{Queue, next_index, tail_index, store_back, pop_front_storage}

-- The index that is `k` for a `k` below twice the capacity.
abbrev pub wrap : ℕ → ℕ → ℕ
wrap capacity k = if leb capacity k then k - capacity else k

-- The cells from index `i` on hold the values, going round at the capacity.
abbrev pub Holds {ℓ} : {A : Type ℓ} → ℕ → (ℕ → Option A) → ℕ → List A → Type ℓ
Holds capacity cells i [] = Unit
Holds capacity cells i (x ∷ xs) =
    (cells i ≡ some x) × Holds capacity cells (wrap capacity (i + 1)) xs

-- The index `j` is none of the `n` from `i` on.
abbrev pub Outside : ℕ → ℕ → ℕ → ℕ → Type 0
Outside capacity i n j = (k : ℕ) → k < n → wrap capacity (i + k) ≢ j

-- The values of the queue, with no object in any other cell. The array has at most 2 ^ 31 cells.
pub record IsRing {ℓ} {A : Type ℓ} (capacity : ℕ) (cells : ℕ → Option A) (head n : ℕ) (buf : List A)
    : Type ℓ where
  pub small : capacity ≤ 2 ^ 31
  pub inside : head < capacity
  pub counted : n ≡ length buf
  pub bound : length buf ≤ capacity
  pub holds : Holds capacity cells head buf
  pub free : (j : ℕ) → Outside capacity head (length buf) j → cells j ≡ none

step_wrap :
    (capacity i k : ℕ)
    → i < capacity
    → k < capacity
    → wrap capacity (wrap capacity (i + 1) + k) ≡ wrap capacity (i + suc k)
step_wrap capacity i k h l = ground arith

module _ {ℓ} {A : Type ℓ} (capacity : ℕ) where
  Holds-update :
      (cells : ℕ → Option A) (i : ℕ) (buf : List A) (t : ℕ) (v : Option A)
      → i < capacity
      → length buf ≤ capacity
      → Outside capacity i (length buf) t
      → Holds capacity cells i buf
      → Holds capacity (update cells t v) i buf
  Holds-update cells i [] t v h l out c = c
  Holds-update cells i (x ∷ buf) t v h l out c = (
    update_ne cells t i v (ground (arith, out 0)) ∙ c.0,
    Holds-update cells (wrap capacity (i + 1)) buf t v (ground arith) (omega arith)
        (λ k m. ground (arith, out (suc k), step_wrap capacity i k h)) c.1,
  )

  Holds-append :
      (cells : ℕ → Option A) (i : ℕ) (buf : List A) (x : A)
      → i < capacity
      → length buf < capacity
      → Holds capacity cells i buf
      → cells (wrap capacity (i + length buf)) ≡ some x
      → Holds capacity cells i (buf ++ x ∷ [])
  Holds-append cells i [] x h l c e = (subst (λ k. cells k ≡ some x) (ground arith) e, tt)
  Holds-append cells i (y ∷ buf) x h l c e = (
    c.0,
    Holds-append cells (wrap capacity (i + 1)) buf x (ground arith) (omega arith) c.1
        (subst (λ k. cells k ≡ some x) (sym (step_wrap capacity i (length buf) h (omega arith))) e),
  )

module _ {ℓ} {A : Type ℓ} (capacity : ℕ) (q : Queue A) where
  tail_index_lem :
      {buf : List A}
      → IsRing capacity q.cells q.head q.count buf
      → tail_index capacity q ≡ wrap capacity (q.head + length buf)
  unfolding tail_index
  tail_index_lem {buf} v = ground (arith, v.small, v.inside, v.counted, v.bound)

  -- The cell behind the last value holds none.
  behind-Outside :
      (i n : ℕ) → i < capacity → n < capacity → Outside capacity i n (wrap capacity (i + n))
  behind-Outside i n h l k m = ground arith

  pub store_back-IsRing :
      (value : A) {buf : List A}
      → IsRing capacity q.cells q.head q.count buf
      → length buf < capacity
      → let q' = store_back capacity value q in
        IsRing capacity q'.cells q'.head q'.count (buf ++ value ∷ [])
  unfolding store_back
  store_back-IsRing value {buf} v room =
      let t = wrap capacity (q.head + length buf) in
      let at : tail_index capacity q ≡ t = tail_index_lem v in
      rw at (record {
        small = v.small;
        inside = v.inside;
        counted = omega (arith, v.counted, length-append buf (value ∷ []), v.small);
        bound = omega (arith, length-append buf (value ∷ []));
        holds =
            Holds-append capacity (update q.cells t (some value)) q.head buf value v.inside room
              (Holds-update capacity q.cells q.head buf t (some value) v.inside v.bound
                (behind-Outside q.head (length buf) v.inside room) v.holds)
              (update_self q.cells t (some value));
        free = λ j out.
            let longer : length (buf ++ value ∷ []) ≡ length buf + 1 =
              omega (arith, length-append buf (value ∷ [])) in
            let apart : j ≢ t = λ e.
              out (length buf)
                (let l : length buf < length (buf ++ value ∷ []) = omega (arith, longer) in l)
                (sym e) in
            update_ne q.cells t j (some value) apart
            ∙ v.free j (λ k l. out k (omega (arith, longer)));
      })

  pub pop_front_storage-IsRing :
      {x : A} {buf : List A}
      → IsRing capacity q.cells q.head q.count (x ∷ buf)
      → let q' = pop_front_storage capacity q in IsRing capacity q'.cells q'.head q'.count buf
  unfolding pop_front_storage next_index
  pop_front_storage-IsRing {x} {buf} v =
      let h = wrap capacity (q.head + 1) in
      let at : (if increment q.head == capacity then 0 else increment q.head) ≡ h =
        ground (arith, v.inside, v.small) in
      rw at (record {
        small = v.small;
        inside = ground (arith, v.inside);
        counted = omega (arith, v.counted, v.bound, v.small);
        bound = omega (arith, v.bound);
        holds =
            Holds-update capacity q.cells h buf q.head none (ground (arith, v.inside))
              (omega (arith, v.bound)) (λ k l. ground (arith, v.inside, v.bound)) v.holds.1;
        free = λ j out. elim (ℕ_discrete j q.head) [
          | yes e ↦ rw e (update_self q.cells q.head none)
          | no ne ↦
              update_ne q.cells q.head j none ne
              ∙ v.free j (λ k l. elim (ℕ_discrete k 0) [
                | yes z ↦ λ m. ne (ground (arith, v.inside))
                | no nz ↦ λ m. out (k - 1) (omega arith) (ground (arith, v.inside, v.bound))
              ])
        ];
      })
