-- ===== src/Waiters/Linked.antt =====
-- The waiting lists of queue.h as lists of awaiters: linking appends, and popping takes the first.
use simple_await.Base.{
  ℕ, ◌≡◌, refl, sym, ◌∙◌, subst, true, false, Option, none, some, List, [], ◌∷◌, ◌++◌, arith, bit,
  count, count-append, get_last?, get_last?-append, Option-cases, inl, inr, if◌then◌else◌, ◌==◌,
  update_same, Segment, Segment-frame, Segment-join, Segment-relink, count-last,
}
use simple_await.Scheduler.Fifo.{Distinct, get_last?-none}
use simple_await.Waiters.{Awaiter, Waiters, put_node, set_next, link_waiter, pop_waiter}

abbrev pub links {ℓ} : {X : Type ℓ} → Waiters X → ℕ → Option ℕ
links ws i = (ws.nodes i).next

-- The awaiters `l`, and no others, are linked, in that order.
pub record IsWaiters {ℓ} {X : Type ℓ} (ws : Waiters X) (l : List ℕ) : Type ℓ where
  pub chain : Segment (links ws) ws.head l none
  pub last : ws.tail ≡ get_last? l
  pub member : (i : ℕ) → count i l ≡ bit (ws.nodes i).linked

-- What a change of the links leaves of the awaiters.
abbrev pub SamePayloads {ℓ} : {X : Type ℓ} → Waiters X → Waiters X → Type ℓ
SamePayloads ws ws' = (i : ℕ) → (ws'.nodes i).payload ≡ (ws.nodes i).payload

abbrev pub SameSlots {ℓ} : {X : Type ℓ} → Waiters X → Waiters X → Type 0
SameSlots ws ws' = (i : ℕ) → (ws'.nodes i).slot ≡ (ws.nodes i).slot

module _ {ℓ} {X : Type ℓ} {ws : Waiters X} where
  pub IsWaiters-Distinct : {l : List ℕ} → IsWaiters ws l → Distinct l
  IsWaiters-Distinct v i = ground (arith, v.member i)

  -- An awaiter that is not linked is appended.
  pub link_waiter-IsWaiters :
      (a : ℕ) (slot : Option ℕ) {l : List ℕ}
      → IsWaiters ws l
      → count a l ≡ 0
      → IsWaiters (link_waiter a slot ws) (l ++ a ∷ [])
  unfolding link_waiter
  link_waiter-IsWaiters a slot {l} v out = elim (Option-cases ws.tail) [
    | inl e ↦
        let z : l ≡ [] = get_last?-none l (sym v.last ∙ e) in
        rw (z, e)
          (record {
            chain = (refl, ground arith);
            last = refl;
            member = λ i. ground (arith, v.member i, z);
          })
    | inr (t, e) ↦
        let e' : get_last? l ≡ some t = sym v.last ∙ e in
        let here = count-last l t e' in
        rw e (record {
          chain =
              Segment-join _ ws.head (some a) none l (a ∷ [])
                (subst (Segment _ ws.head l) (ground (arith, out, here)) (
                  Segment-relink (links ws) _ ws.head l none t (IsWaiters-Distinct v) e'
                    (λ i h k. ground (arith, out)) v.chain))
                (refl, ground (arith, out, here));
          last = sym (get_last?-append l a);
          member = λ i. count-append i l (a ∷ []) ∙ ground (arith, v.member i, out);
        })
  ]

  -- The first awaiter is taken.
  pub pop_waiter-IsWaiters :
      (a : ℕ) {l : List ℕ} → IsWaiters ws (a ∷ l) → IsWaiters (pop_waiter a ws) l
  unfolding pop_waiter
  pop_waiter-IsWaiters a {l} v =
      let d = IsWaiters-Distinct v in
      record {
        chain = Segment-frame (links ws) _ _ l none (λ i h. ground (arith, d a)) v.chain.1;
        last = popped (ws.nodes a).next l v.chain.1 v.last;
        member = λ i. ground (arith, v.member i, d a);
      }
    where
      popped :
          (p : Option ℕ) (r : List ℕ)
          → Segment (links ws) p r none
          → ws.tail ≡ get_last? (a ∷ r)
          → (elim p [ none ↦ none | some _ ↦ ws.tail ]) ≡ get_last? r
      popped p [] c e = rw c refl
      popped p (y ∷ r) c e = rw (c.0) e

pub put_node-SamePayloads {ℓ} :
    {X : Type ℓ} (ws : Waiters X) (a : ℕ) (v : Awaiter X)
    → v.payload ≡ (ws.nodes a).payload
    → SamePayloads ws (put_node a v ws)
put_node-SamePayloads {X = X} ws a v e = update_same (λ (u : Awaiter X). u.payload) ws.nodes a v e

module _ {ℓ} {X : Type ℓ} (ws : Waiters X) where
  pub link_waiter-SamePayloads : (a : ℕ) (slot : Option ℕ) → SamePayloads ws (link_waiter a slot ws)
  unfolding link_waiter
  link_waiter-SamePayloads a slot i =
      let v : Awaiter X = record (ws.nodes a) { slot = slot; next = none } in
      let cleared : Waiters X = put_node a v ws in
      elim (Option-cases ws.tail) [
        | inl e ↦ rw e (
            put_node-SamePayloads cleared a (record (cleared.nodes a) { linked = true }) refl i
            ∙ put_node-SamePayloads ws a v refl i)
        | inr (t, e) ↦
            let placed : Waiters X = set_next t (some a) cleared in
            rw e (
              put_node-SamePayloads placed a (record (placed.nodes a) { linked = true }) refl i
              ∙ put_node-SamePayloads cleared t (record (cleared.nodes t) { next = some a }) refl i
              ∙ put_node-SamePayloads ws a v refl i)
      ]

  pub link_waiter_slot :
      (a : ℕ) (slot : Option ℕ) (i : ℕ)
      → ((link_waiter a slot ws).nodes i).slot ≡ (if i == a then slot else (ws.nodes i).slot)
  unfolding link_waiter
  link_waiter_slot a slot i = ground arith

  pub pop_waiter-SamePayloads : (a : ℕ) → SamePayloads ws (pop_waiter a ws)
  unfolding pop_waiter
  pop_waiter-SamePayloads a = update_same (λ (v : Awaiter X). v.payload) ws.nodes a _ refl

  pub pop_waiter-SameSlots : (a : ℕ) → SameSlots ws (pop_waiter a ws)
  unfolding pop_waiter
  pop_waiter-SameSlots a i = ground arith

-- Any change of an awaiter that is not linked and stays so.
pub put_node-IsWaiters {ℓ} :
    {X : Type ℓ} {ws : Waiters X} {l : List ℕ} (a : ℕ) (v : Awaiter X)
    → IsWaiters ws l
    → count a l ≡ 0
    → v.linked ≡ false
    → IsWaiters (put_node a v ws) l
put_node-IsWaiters {ws = ws} {l = l} a v w out e = record {
  chain =
      Segment-frame (links ws) (links (put_node a v ws)) ws.head l none (λ i h. ground (arith, out))
        w.chain;
  last = w.last;
  member = λ i. ground (arith, w.member i, out, e);
}

pub IsWaiters-free {ℓ} :
    {X : Type ℓ} {ws : Waiters X} {l : List ℕ} (a : ℕ)
    → IsWaiters ws l
    → count a l ≡ 0
    → (ws.nodes a).linked ≡ false
IsWaiters-free a w out = ground (arith, w.member a)
