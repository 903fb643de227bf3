-- ===== src/Queue/Teardown.antt =====
-- `~Queue` of queue.h.
use simple_await.Base.{
  ℕ, zero, suc, ◌≤◌, ◌<◌, ◌≡◌, refl, ◌∙◌, ap, true, false, Option, none, List, [], ◌∷◌, arith,
  length, ◌==◌, if◌then◌else◌, Bool-cases, inl, inr, is_some, ◌||◌,
}
use simple_await.Error.{object_destroyed_with_waiters}
use simple_await.World.{World, on_error}
use simple_await.Waiters.{Waiters, detach}
use simple_await.Waiters.Unlink.{detach-all}
use simple_await.Queue.{Queue, QueueWorld, pop_front_storage, destroy_sender, drain, destroy_queue}
use simple_await.Queue.Ring.{IsRing, pop_front_storage-IsRing}
use simple_await.Queue.Inv.{QueueInv}

-- Whether a waiter is left.
abbrev pub Abandoned : List ℕ → List ℕ → World → World → Type 0
Abandoned [] [] w w' = w' ≡ w
Abandoned ss rs w w' = w' ≡ on_error object_destroyed_with_waiters w

module _ {ℓ} {A : Type ℓ} (capacity : ℕ) where
  drain_waiters :
      (fuel : ℕ) (q : Queue A)
      → ((drain fuel capacity q).send ≡ q.send) × ((drain fuel capacity q).recv ≡ q.recv)
  unfolding drain pop_front_storage
  drain_waiters zero q = (refl, refl)
  drain_waiters (suc fuel) q = elim (Bool-cases (q.count == 0)) [
    | inl e ↦ rw e (refl, refl)
    | inr e ↦ rw e (drain_waiters fuel (pop_front_storage capacity q))
  ]

  -- Every value is destroyed.
  drain-IsRing :
      (fuel : ℕ) (q : Queue A) (buf : List A)
      → IsRing capacity q.cells q.head q.count buf
      → length buf ≤ fuel
      → let q' = drain fuel capacity q in IsRing capacity q'.cells q'.head q'.count []
  unfolding drain
  drain-IsRing zero q [] v h = v
  drain-IsRing zero q (x ∷ buf) v h = absurd (omega (arith, h))
  drain-IsRing (suc fuel) q [] v h =
      let z : (q.count == 0) ≡ true = ground (arith, v.counted) in rw z v
  drain-IsRing (suc fuel) q (x ∷ buf) v h =
      let nz : (q.count == 0) ≡ false = ground (arith, v.counted) in
      rw nz (
        drain-IsRing fuel (pop_front_storage capacity q) buf (pop_front_storage-IsRing capacity q v)
          (omega (arith, h)))

  reported :
      (q : Queue A) (buf : List A) (ss rs : List ℕ) (w : World)
      → QueueInv capacity q buf ss rs
      → Abandoned ss rs w (
          if is_some q.send.head || is_some q.recv.head
          then on_error object_destroyed_with_waiters w
          else w)
  reported q buf [] [] w v = rw (v.senders.chain, v.receivers.chain) refl
  reported q buf [] (r ∷ rs) w v = rw (v.senders.chain, v.receivers.chain.0) refl
  reported q buf (s ∷ ss) rs w v = rw (v.senders.chain.0) refl

-- From a queue with the values `buf`, the waiting senders `ss` and the waiting receivers `rs`, fewer than
-- `fuel`: `~Queue` destroys every value, so that no cell holds one; it reports an error exactly if a
-- sender or a receiver waits; no awaiter stays linked, so that the later destruction of a sender
-- leaves the destroyed queue alone.
pub destroy_queue-Abandoned {ℓ} :
    {A : Type ℓ} {capacity : ℕ} (fuel : ℕ) (c : QueueWorld A) {buf : List A} {ss rs : List ℕ}
    → QueueInv capacity c.queue buf ss rs
    → length ss < fuel
    → length rs < fuel
    → let out = destroy_queue fuel capacity c in
      (out.queue.count ≡ 0)
      × ((j : ℕ) → out.queue.cells j ≡ none)
      × Abandoned ss rs c.world out.world
      × ((a : ℕ) → (out.queue.recv.nodes a).linked ≡ false)
      × ((a : ℕ) → destroy_sender fuel a out.queue ≡ out.queue)
unfolding destroy_queue destroy_sender
destroy_queue-Abandoned {A = A} {capacity} fuel c {buf} {ss} {rs} v h k =
    let q = c.queue in
    let detached : Queue A = record q {
      send = detach fuel q.send.head q.send;
      recv = detach fuel q.recv.head q.recv;
    } in
    let empty_ring =
      drain-IsRing capacity q.count detached buf v.ring (omega (arith, v.ring.counted)) in
    let same = drain_waiters capacity q.count detached in
    let off : (a : ℕ) → ((drain q.count capacity detached).send.nodes a).linked ≡ false =
      λ a. ap (λ (ws : Waiters A). (ws.nodes a).linked) same.0 ∙ detach-all fuel v.senders h a in
    (
      empty_ring.counted,
      λ j. empty_ring.free j (λ i l. absurd (omega (arith, l))),
      reported capacity q buf ss rs c.world v,
      λ a.
          ap (λ (ws : Waiters (Option A)). (ws.nodes a).linked) same.1
          ∙ detach-all fuel v.receivers k a,
      λ a. rw (off a) refl,
    )
