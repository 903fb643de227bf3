-- ===== src/Queue/Destroy.antt =====
-- `~SendAwaiter`, `~ReceiveAwaiter` and `~Queue` of queue.h.
use simple_await.Base.{
  ℕ, ◌<◌, ◌≡◌, ◌≢◌, refl, ◌∙◌, ap, false, Option, none, List, [], ◌∷◌, arith, count, length, ◌==◌,
  if◌then◌else◌, update_self, update_ne, Bool-cases, inl, inr, remove, count-remove,
  count-remove_self,
}
use simple_await.Waiters.{Awaiter, Waiters, unlink_waiter}
use simple_await.Waiters.Linked.{IsWaiters, IsWaiters-Distinct, SamePayloads, put_node-IsWaiters}
use simple_await.Waiters.Unlink.{unlink_waiter-IsWaiters}
use simple_await.Queue.{Queue, construct_result, destroy_sender, destroy_receiver}
use simple_await.Queue.Inv.{QueueInv}

remove-absent : (a : ℕ) (l : List ℕ) → count a l ≡ 0 → remove a l ≡ l
remove-absent a [] h = refl
remove-absent a (x ∷ l) h =
    let ne : (x == a) ≡ false = ground arith in
    rw ne (ap (◌∷◌ x) (remove-absent a l (omega (arith, h))))

-- The destruction of an awaiter that may be linked, on its list.
gone_waiter {ℓ} :
    {X : Type ℓ} (fuel a : ℕ) {ws : Waiters X} {l : List ℕ}
    → IsWaiters ws l
    → length l < fuel
    → let ws' = if (ws.nodes a).linked then unlink_waiter fuel a ws else ws in
      IsWaiters ws' (remove a l) × ((ws'.nodes a).linked ≡ false) × SamePayloads ws ws'
gone_waiter fuel a {ws} {l} v h = elim (Bool-cases (ws.nodes a).linked) [
  | inl on ↦ rw on (unlink_waiter-IsWaiters fuel a v h)
  | inr off ↦
      let same = remove-absent a l (ground (arith, v.member a, off)) in
      rw (off, same) (v, off, λ i. refl)
]

module _ {ℓ} {A : Type ℓ} {capacity : ℕ} (fuel a : ℕ) {q : Queue A} {buf : List A} {ss rs : List ℕ}
    (v : QueueInv capacity q buf ss rs) where
  destroy_sender_lem :
      destroy_sender fuel a q
      ≡ record q { send = if (q.send.nodes a).linked then unlink_waiter fuel a q.send else q.send }
  unfolding destroy_sender
  destroy_sender_lem = elim (Bool-cases (q.send.nodes a).linked) [
    | inl e ↦ simp e refl
    | inr e ↦ simp e refl
  ]

  pub sender_gone :
      length ss < fuel → QueueInv capacity (destroy_sender fuel a q) buf (remove a ss) rs
  sender_gone h = rw destroy_sender_lem (record {
    ring = v.ring;
    senders = (gone_waiter fuel a v.senders h).0;
    receivers = v.receivers;
    full_first = λ n. v.full_first (λ e. n (rw e refl));
    empty_first = v.empty_first;
    no_result = v.no_result;
  })

  destroy_receiver_lem :
      destroy_receiver fuel a q
      ≡ construct_result a none (record q {
        recv = if (q.recv.nodes a).linked then unlink_waiter fuel a q.recv else q.recv;
      })
  unfolding destroy_receiver
  destroy_receiver_lem = elim (Bool-cases (q.recv.nodes a).linked) [
    | inl e ↦ simp e refl
    | inr e ↦ simp e refl
  ]

  pub receiver_gone :
      length rs < fuel
      → QueueInv capacity (destroy_receiver fuel a q) buf ss (remove a rs)
        × (((destroy_receiver fuel a q).recv.nodes a).payload ≡ none)
  receiver_gone h =
      let u = if (q.recv.nodes a).linked then unlink_waiter fuel a q.recv else q.recv in
      let g = gone_waiter fuel a v.receivers h in
      let gone = count-remove_self a rs (IsWaiters-Distinct v.receivers a) in
      let n : Awaiter (Option A) = record (u.nodes a) { payload = none } in
      rw destroy_receiver_lem (
        record {
          ring = v.ring;
          senders = v.senders;
          receivers = put_node-IsWaiters a n g.0 gone g.1;
          full_first = v.full_first;
          empty_first = λ k. v.empty_first (λ e. k (rw e refl));
          no_result = λ b k.
              let ne : b ≢ a = λ e. k (rw e gone) in
              ap (λ (m : Awaiter (Option A)). m.payload) (update_ne u.nodes a b n ne)
              ∙ g.2 b
              ∙ v.no_result b (λ z. k (count-remove a b rs ne ∙ z));
        },
        ap (λ (m : Awaiter (Option A)). m.payload) (update_self u.nodes a n),
      )

-- From a queue with the values `buf`, the waiting senders `ss` and the waiting receivers `rs`, fewer than
-- `fuel`: the destruction of a sender takes it out of the waiting senders, that of a receiver takes
-- it out of the waiting receivers and destroys its result; the others stay in their order, and the
-- values of the queue stay.
pub destroy_sender-QueueInv {ℓ} :
    {A : Type ℓ} {capacity : ℕ} (fuel a : ℕ) {q : Queue A} {buf : List A} {ss rs : List ℕ}
    → QueueInv capacity q buf ss rs
    → length ss < fuel
    → length rs < fuel
    → QueueInv capacity (destroy_sender fuel a q) buf (remove a ss) rs
      × QueueInv capacity (destroy_receiver fuel a q) buf ss (remove a rs)
      × (((destroy_receiver fuel a q).recv.nodes a).payload ≡ none)
destroy_sender-QueueInv fuel a v h k =
    let r = receiver_gone fuel a v k in (sender_gone fuel a v h, r.0, r.1)
