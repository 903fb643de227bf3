-- ===== src/Queue/Steps.antt =====
-- Every queue of queue.h that a program can reach, by any sequence of its operations.
use simple_await.Base.{
  ℕ, ◌^◌, ◌≤◌, ◌<◌, ◌≡◌, ◌∙◌, ap, Bool, false, Option, none, some, List, arith, count, bit, length,
}
use simple_await.World.{World}
use simple_await.Waiters.Linked.{IsWaiters}
use simple_await.Queue.{
  Queue, QueueWorld, new_queue, do_send, try_receive, send, receive, receive_await_resume,
  destroy_sender, destroy_receiver,
}
use simple_await.Queue.Inv.{
  QueueInv, new_queue-QueueInv, SendResult, hands, stores, refuses, do_send-SendResult,
}
use simple_await.Queue.Receive.{
  AdmitResult, nobody, admits, ReceiveResult, nothing, takes, try_receive-ReceiveResult,
}
use simple_await.Queue.SendAwait
use simple_await.Queue.SendAwait.{SendCase, send-SendCase}
use simple_await.Queue.ReceiveAwait
use simple_await.Queue.ReceiveAwait.{ReceiveCase, receive-ReceiveCase}
use simple_await.Queue.Destroy.{sender_gone, receiver_gone}
use simple_await.Queue.Handoff.{resumed, consumed-QueueInv}

-- One operation on the queue, or anything that other code does to the world. An awaiter is made, resumed or
-- taken away only as the compiler does it: it is made where none is linked, and it resumes once it is
-- not linked any more. The fuel is enough for the waiters there are.
pub data QueueStep {ℓ} {A : Type ℓ} (capacity : ℕ) (c : QueueWorld A) : QueueWorld A → Type ℓ where
  sends :
      (a : ℕ) (value : A) (awaiting : ℕ)
      → (c.queue.send.nodes a).linked ≡ false
      → QueueStep capacity c (send capacity a value awaiting c).1
  receives :
      (a awaiting : ℕ)
      → (c.queue.recv.nodes a).linked ≡ false
      → QueueStep capacity c (receive capacity a awaiting c).1
  tries_send : (value : A) → QueueStep capacity c (do_send capacity value c).1
  tries_receive : (variable : Option A) → QueueStep capacity c (try_receive capacity variable c).2
  resumes :
      (fallback : Option A) (a : ℕ)
      → (c.queue.recv.nodes a).linked ≡ false
      → QueueStep capacity c (receive_await_resume fallback a c).1
  drops_sender :
      (fuel a : ℕ)
      → ((l : List ℕ) → IsWaiters c.queue.send l → length l < fuel)
      → QueueStep capacity c (record c { queue = destroy_sender fuel a c.queue })
  drops_receiver :
      (fuel a : ℕ)
      → ((l : List ℕ) → IsWaiters c.queue.recv l → length l < fuel)
      → QueueStep capacity c (record c { queue = destroy_receiver fuel a c.queue })
  elsewhere : (w : World) → QueueStep capacity c (record c { world = w })

pub data Reachable {ℓ} {A : Type ℓ} (capacity : ℕ) (blank : A) : QueueWorld A → Type ℓ where
  start : (w : World) → Reachable capacity blank (record { queue = new_queue blank; world = w })
  step :
      {c d : QueueWorld A}
      → Reachable capacity blank c
      → QueueStep capacity c d
      → Reachable capacity blank d

-- The queue holds some values, with some senders and receivers waiting.
pub record Consistent {ℓ} {A : Type ℓ} (capacity : ℕ) (q : Queue A) : Type ℓ where
  pub buf : List A
  pub ss : List ℕ
  pub rs : List ℕ
  pub inv : QueueInv capacity q buf ss rs

consistent {ℓ} :
    {A : Type ℓ} {capacity : ℕ} {q : Queue A} {buf : List A} {ss rs : List ℕ}
    → QueueInv capacity q buf ss rs
    → Consistent capacity q
consistent {buf = buf} {ss} {rs} v = record { buf = buf; ss = ss; rs = rs; inv = v }

module _ {ℓ} {A : Type ℓ} {capacity : ℕ} where
  after_send :
      {value : A} {buf : List A} {ss rs : List ℕ} {c : QueueWorld A} {out : Bool × QueueWorld A}
      → Consistent capacity c.queue
      → SendResult capacity value buf ss rs c out
      → Consistent capacity out.1.queue
  after_send v (hands r rs' e t p w i) = consistent i
  after_send v (stores e l t w i) = consistent i
  after_send v (refuses e full k) = rw k v

  after_admit :
      {buf : List A} {ss : List ℕ} {ws : _} {w : World} {out : QueueWorld A}
      → AdmitResult capacity buf ss ws w out
      → Consistent capacity out.queue
  after_admit (nobody e w i) = consistent i
  after_admit (admits s ss' e w i) = consistent i

  after_try_receive :
      {variable : Option A} {buf : List A} {ss rs : List ℕ} {c : QueueWorld A}
      {out : Bool × Option A × QueueWorld A}
      → Consistent capacity c.queue
      → ReceiveResult capacity variable buf ss rs c out
      → Consistent capacity out.2.queue
  after_try_receive v (nothing e k) = rw k v
  after_try_receive v (takes x buf' e free ok got r) = after_admit r

  after_awaited_send :
      {a : ℕ} {value : A} {awaiting : ℕ} {buf : List A} {ss rs : List ℕ} {c : QueueWorld A}
      {out : Bool × QueueWorld A}
      → SendCase capacity a value awaiting buf ss rs c out
      → Consistent capacity out.1.queue
  after_awaited_send (SendAwait.delivered e (hands r rs' e' t p w i)) = consistent i
  after_awaited_send (SendAwait.delivered e (stores e' l t w i)) = consistent i
  after_awaited_send (SendAwait.delivered e (refuses e' full k)) =
      absurd (ground (arith, ap (λ (o : Bool × QueueWorld A). o.0) k))
  after_awaited_send (SendAwait.rejected e full other f w i) = consistent i
  after_awaited_send (SendAwait.parked x e full own at t w p s i) = consistent i

  after_awaited_receive :
      {a awaiting : ℕ} {buf : List A} {ss rs : List ℕ} {c : QueueWorld A}
      {out : Bool × QueueWorld A}
      → ReceiveCase capacity a awaiting buf ss rs c out
      → Consistent capacity out.1.queue
  after_awaited_receive (ReceiveAwait.received x buf' e free f p r) = after_admit r
  after_awaited_receive (ReceiveAwait.rejected e other f w p i) = consistent i
  after_awaited_receive (ReceiveAwait.parked x e own at t w s i) = consistent i

  after_resumed :
      (fallback : Option A) (a : ℕ) (c : QueueWorld A) (result : Option A) {buf : List A}
      {ss rs : List ℕ}
      → QueueInv capacity c.queue buf ss rs
      → count a rs ≡ 0
      → Consistent capacity (resumed fallback a c result).1.queue
  after_resumed fallback a c (some value) v out = consistent (consumed-QueueInv fallback a v out)
  after_resumed (some d) a c none v out = consistent v
  after_resumed none a c none v out = consistent v

  after_resume :
      (fallback : Option A) (a : ℕ) (c : QueueWorld A) {buf : List A} {ss rs : List ℕ}
      → QueueInv capacity c.queue buf ss rs
      → count a rs ≡ 0
      → Consistent capacity (receive_await_resume fallback a c).1.queue
  unfolding receive_await_resume
  after_resume fallback a c v out = after_resumed fallback a c (c.queue.recv.nodes a).payload v out

  step-Consistent :
      {c d : QueueWorld A}
      → Consistent capacity c.queue
      → QueueStep capacity c d
      → Consistent capacity d.queue
  step-Consistent {c = c} k (sends a value awaiting off) =
      after_awaited_send
        (send-SendCase a value awaiting {c = c} k.inv (k.inv.senders.member a ∙ ap bit off))
  step-Consistent {c = c} k (receives a awaiting off) =
      after_awaited_receive
        (receive-ReceiveCase a awaiting {c = c} k.inv (k.inv.receivers.member a ∙ ap bit off))
  step-Consistent {c = c} k (tries_send value) =
      after_send k (do_send-SendResult value {c = c} k.inv)
  step-Consistent {c = c} k (tries_receive variable) =
      after_try_receive k (try_receive-ReceiveResult variable {c = c} k.inv)
  step-Consistent {c = c} k (resumes fallback a off) =
      after_resume fallback a c k.inv (k.inv.receivers.member a ∙ ap bit off)
  step-Consistent {c = c} k (drops_sender fuel a enough) =
      consistent (sender_gone fuel a k.inv (enough k.ss k.inv.senders))
  step-Consistent {c = c} k (drops_receiver fuel a enough) =
      consistent (receiver_gone fuel a k.inv (enough k.rs k.inv.receivers)).0
  step-Consistent k (elsewhere w) = consistent k.inv

-- Whatever operations a program performs on a new queue, in whatever order and with whatever between them: the
-- queue holds some list of values, not more than its capacity, with some senders and receivers
-- waiting in order; senders only for a full queue, and receivers only for an empty one.
pub Reachable-Consistent {ℓ} :
    {A : Type ℓ} (capacity : ℕ) (blank : A) {c : QueueWorld A}
    → 0 < capacity
    → capacity ≤ 2 ^ 31
    → Reachable capacity blank c
    → Consistent capacity c.queue
Reachable-Consistent capacity blank pos small (start w) =
    consistent (new_queue-QueueInv capacity blank pos small)
Reachable-Consistent capacity blank pos small (step r s) =
    step-Consistent (Reachable-Consistent capacity blank pos small r) s
