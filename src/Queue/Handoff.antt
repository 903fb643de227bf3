-- ===== src/Queue/Handoff.antt =====
-- The direct hand-off of queue.h: what a waiting receiver resumes with.
use simple_await.Base.{
  ℕ, ◌≡◌, refl, sym, ◌∙◌, ap, subst, Bool, Option, none, some, List, [], ◌∷◌, arith, count,
  update_ne,
}
use simple_await.Error.{invalid_task}
use simple_await.World.{on_error}
use simple_await.Waiters.{Awaiter}
use simple_await.Waiters.Linked.{put_node-IsWaiters, IsWaiters-Distinct, IsWaiters-free}
use simple_await.Queue.{Queue, QueueWorld, construct_result, do_send, receive_await_resume}
use simple_await.Queue.Inv.{QueueInv, woken, SendResult, hands, stores, refuses, do_send-SendResult}

module _ {ℓ} {A : Type ℓ} (fallback : Option A) where
  abbrev pub resumed : ℕ → QueueWorld A → Option A → Option A × QueueWorld A
  resumed a c result = elim result [
    | some v ↦ (some v, record c { queue = construct_result a none c.queue })
    | none ↦ elim fallback [
      | some d ↦ (some d, c)
      | none ↦ (none, record c { world = on_error invalid_task c.world })
    ]
  ]

  resume_some :
      (a : ℕ) (value : A) (c : QueueWorld A)
      → (c.queue.recv.nodes a).payload ≡ some value
      → receive_await_resume fallback a c
        ≡ (some value, record c { queue = construct_result a none c.queue })
  unfolding receive_await_resume
  resume_some a value c e = ap (resumed a c) e

  -- The stored result of a receiver that does not wait is destroyed.
  pub consumed-QueueInv :
      {capacity : ℕ} (a : ℕ) {q : Queue A} {buf : List A} {ss rs : List ℕ}
      → QueueInv capacity q buf ss rs
      → count a rs ≡ 0
      → QueueInv capacity (construct_result a none q) buf ss rs
  consumed-QueueInv a {q} v out =
      let n : Awaiter (Option A) = record (q.recv.nodes a) { payload = none } in
      record {
        ring = v.ring;
        senders = v.senders;
        receivers = put_node-IsWaiters a n v.receivers out (IsWaiters-free a v.receivers out);
        full_first = v.full_first;
        empty_first = v.empty_first;
        no_result = λ b h.
            ap (λ (m : Awaiter (Option A)). m.payload)
              (update_ne q.recv.nodes a b n (λ k. h (ground (arith, k, out))))
            ∙ v.no_result b h;
      }

  handed_over :
      {capacity : ℕ} (r : ℕ) (value : A) (c : QueueWorld A) {buf : List A} {ss rs : List ℕ}
      (out : Bool × QueueWorld A)
      → count r rs ≡ 0
      → SendResult capacity value buf ss (r ∷ rs) c out
      → let (result, c') = receive_await_resume fallback r out.1 in
        (result ≡ some value)
        × (c'.world ≡ woken (c.queue.recv.nodes r).slot c.world)
        × QueueInv capacity c'.queue [] [] rs
  handed_over {capacity} r value c {rs = rs} out fresh (hands s rs' e t p w i) =
      let same : r ≡ s = ground (arith, e) in
      let rest : rs' ≡ rs = sym (ap (λ (l : List ℕ). elim l [ [] ↦ [] | _ ∷ k ↦ k ]) e) in
      rw
        (resume_some r value out.1
          (subst (λ k. (out.1.queue.recv.nodes k).payload ≡ some value) (sym same) p))
        (
          refl,
          subst (λ k. out.1.world ≡ woken (c.queue.recv.nodes k).slot c.world) (sym same) w,
          consumed-QueueInv r (subst (QueueInv capacity out.1.queue [] []) rest i) fresh,
        )
  handed_over r value c {rs = rs} out fresh (stores e l t w i) = absurd (ground (arith, e))
  handed_over r value c {rs = rs} out fresh (refuses e full k) = absurd (ground (arith, e))

-- From a queue for which the receivers `r` and then `rs` wait: when `r` resumes after a `do_send` of a value,
-- it returns that value, whatever the fallback; its slot was woken, and the queue is empty, with the
-- receivers `rs` waiting.
pub receive_await_resume-do_send {ℓ} :
    {A : Type ℓ} {capacity : ℕ} (fallback : Option A) (r : ℕ) (value : A) (c : QueueWorld A)
    {buf : List A} {ss rs : List ℕ}
    → QueueInv capacity c.queue buf ss (r ∷ rs)
    → let (result, c') = receive_await_resume fallback r (do_send capacity value c).1 in
      (result ≡ some value)
      × (c'.world ≡ woken (c.queue.recv.nodes r).slot c.world)
      × QueueInv capacity c'.queue [] [] rs
receive_await_resume-do_send {capacity = capacity} fallback r value c v =
    handed_over fallback r value c (do_send capacity value c)
      (ground (arith, IsWaiters-Distinct v.receivers r)) (do_send-SendResult value v)
