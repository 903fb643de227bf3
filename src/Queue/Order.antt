-- ===== src/Queue/Order.antt =====
-- The order of the values of queue.h: first in, first out, those of waiting senders included.
use simple_await.Base.{
  ℕ, zero, suc, ◌+◌, ◌≡◌, refl, ◌∙◌, ap, Option, none, some, List, [], ◌∷◌, ◌++◌, arith, length,
  length-append, map, append_assoc,
}
use simple_await.Waiters.{Waiters}
use simple_await.Waiters.Linked.{SamePayloads}
use simple_await.Queue.{QueueWorld, try_receive}
use simple_await.Queue.Inv.{QueueInv}
use simple_await.Queue.Receive.{
  nobody, admits, ReceiveResult, nothing, takes, try_receive-ReceiveResult,
  try_receive-SamePayloads,
}

-- The values that the senders `ss` hold.
abbrev pub held {ℓ} : {A : Type ℓ} → Waiters A → List ℕ → List A
held ws [] = []
held ws (s ∷ ss) = (ws.nodes s).payload ∷ held ws ss

-- What `n` calls of `tryReceive` in a row give.
abbrev pub receive_all {ℓ} : {A : Type ℓ} → ℕ → ℕ → QueueWorld A → List (Option A)
receive_all capacity zero c = []
receive_all capacity (suc n) c =
    let (ok, value, c') = try_receive capacity none c in value ∷ receive_all capacity n c'

held-SamePayloads {ℓ} :
    {A : Type ℓ} (ws ws' : Waiters A) (ss : List ℕ) → SamePayloads ws ws' → held ws' ss ≡ held ws ss
held-SamePayloads ws ws' [] same = refl
held-SamePayloads ws ws' (s ∷ ss) same = rw (same s, held-SamePayloads ws ws' ss same) refl

module _ {ℓ} {A : Type ℓ} (capacity : ℕ) where
  -- The first call, where the later ones keep the order.
  first_in_order :
      (n : ℕ) (c : QueueWorld A) (buf : List A) (ss rs : List ℕ)
      → QueueInv capacity c.queue buf ss rs
      → suc n ≡ length buf + length ss
      → ((c' : QueueWorld A) (buf' : List A) (ss' : List ℕ)
          → QueueInv capacity c'.queue buf' ss' []
          → n ≡ length buf' + length ss'
          → receive_all capacity n c' ≡ map some (buf' ++ held c'.queue.send ss'))
      → ReceiveResult capacity none buf ss rs c (try_receive capacity none c)
      → receive_all capacity (suc n) c ≡ map some (buf ++ held c.queue.send ss)
  first_in_order n c buf ss rs v e again (nothing z k) = absurd (
      omega (
        arith,
        ap length z,
        e,
        v.ring.inside,
        v.full_first (λ y. omega (arith, ap length z, e, ap length y)),
      ))
  first_in_order n c buf ss rs v e again (takes x buf' z free ok got (nobody none_wait w i)) =
      rw (got, z, none_wait)
        (ap (◌∷◌ (some x)) (
          again (try_receive capacity none c).2 buf' [] i
            (omega (arith, e, ap length z, ap length none_wait))))
  first_in_order n c buf ss rs v e again (takes x buf' z free ok got (admits s ss' first w i)) =
      let c' = (try_receive capacity none c).2 in
      let p = (c.queue.send.nodes s).payload in
      let same =
        held-SamePayloads c.queue.send c'.queue.send ss'
          (try_receive-SamePayloads capacity none c) in
      let rest =
        again c' (buf' ++ p ∷ []) ss' i
          (omega (arith, e, ap length z, ap length first, length-append buf' (p ∷ []))) in
      rw (got, z, first)
        (ap (◌∷◌ (some x)) (
          rest
          ∙ ap (map some) (ap (λ (l : List A). (buf' ++ p ∷ []) ++ l) same)
          ∙ ap (map some) (append_assoc buf' (p ∷ []) (held c.queue.send ss'))))

  -- By induction over the number of values that are left.
  in_order :
      (n : ℕ) (c : QueueWorld A) (buf : List A) (ss rs : List ℕ)
      → QueueInv capacity c.queue buf ss rs
      → n ≡ length buf + length ss
      → receive_all capacity n c ≡ map some (buf ++ held c.queue.send ss)
  in_order zero c [] [] rs v e = refl
  in_order zero c [] (s ∷ ss) rs v e = absurd (omega (arith, e))
  in_order zero c (x ∷ buf) ss rs v e = absurd (omega (arith, e))
  in_order (suc n) c buf ss rs v e =
      first_in_order n c buf ss rs v e (λ c' buf' ss' i k. in_order n c' buf' ss' [] i k)
        (try_receive-ReceiveResult none v)

-- From a queue with the values `buf` and the waiting senders `ss`: as many calls of `tryReceive` as
-- there are values and senders give the values in their order, and then those of the senders in
-- theirs.
pub receive_all-held {ℓ} :
    {A : Type ℓ} {capacity : ℕ} (c : QueueWorld A) {buf : List A} {ss rs : List ℕ}
    → QueueInv capacity c.queue buf ss rs
    → receive_all capacity (length buf + length ss) c ≡ map some (buf ++ held c.queue.send ss)
receive_all-held {capacity = capacity} c {buf} {ss} {rs} v =
    in_order capacity (length buf + length ss) c buf ss rs v refl
