-- ===== src/Queue/SendAwait.antt =====
-- `co_await queue.send(value)` of queue.h up to its suspension.
use simple_await.Base.{
  ℕ, ◌≡◌, refl, ◌∙◌, ap, subst, Bool, true, false, some, List, [], ◌∷◌, ◌++◌, arith, count, length,
  if◌then◌else◌, update_self, Bool-cases, Option-cases, inl, inr,
}
use simple_await.Error.{invalid_task}
use simple_await.World.{waiting_local, set_state, World, on_error}
use simple_await.Tasks.{is_current}
use simple_await.Tasks.Children.{nobody}
use simple_await.Waits.{running_is, park_running}
use simple_await.Waiters.{Awaiter, new_awaiter, put_node, link_waiter}
use simple_await.Waiters.Linked.{
  IsWaiters, link_waiter-IsWaiters, link_waiter-SamePayloads, link_waiter_slot, put_node-IsWaiters,
}
use simple_await.Queue.{QueueWorld, do_send, park_sender, send_await_ready, send}
use simple_await.Queue.Inv.{QueueInv, SendResult, hands, stores, refuses, do_send-SendResult}

-- The world in which slot `x` waits.
abbrev pub waiting_world : ℕ → World → World
waiting_world x w = record w {
  sched = record (w.sched) { slots = set_state w.sched.slots x waiting_local };
}

-- The queue with the new awaiter at `a`.
abbrev pub made_sender {ℓ} : {A : Type ℓ} → ℕ → A → QueueWorld A → QueueWorld A
made_sender a value c = record c {
  queue = record (c.queue) { send = put_node a (new_awaiter value) c.queue.send };
}

-- What the awaited send does.
pub data SendCase {ℓ} {A : Type ℓ} (capacity a : ℕ) (value : A) (awaiting : ℕ) (buf : List A)
    (ss rs : List ℕ) (c : QueueWorld A) (out : Bool × QueueWorld A) : Type ℓ where
  delivered :
      out.0 ≡ false
      → SendResult capacity value buf ss rs (made_sender a value c) (true, out.1)
      → SendCase capacity a value awaiting buf ss rs c out
  rejected :
      rs ≡ []
      → length buf ≡ capacity
      → is_current c.world.sched awaiting ≡ false
      → out.0 ≡ false
      → out.1.world ≡ on_error invalid_task c.world
      → QueueInv capacity out.1.queue buf ss []
      → SendCase capacity a value awaiting buf ss rs c out
  parked :
      (x : ℕ)
      → rs ≡ []
      → length buf ≡ capacity
      → is_current c.world.sched awaiting ≡ true
      → c.world.sched.current ≡ some x
      → out.0 ≡ true
      → out.1.world ≡ waiting_world x c.world
      → (out.1.queue.send.nodes a).payload ≡ value
      → (out.1.queue.send.nodes a).slot ≡ some x
      → QueueInv capacity out.1.queue buf (ss ++ a ∷ []) []
      → SendCase capacity a value awaiting buf ss rs c out

module _ {ℓ} {A : Type ℓ} (a awaiting : ℕ) (c : QueueWorld A) where
  park_foreign :
      is_current c.world.sched awaiting ≡ false
      → park_sender a awaiting c ≡ (false, record c { world = on_error invalid_task c.world })
  unfolding park_sender running_is
  park_foreign e = simp e refl

  park_own :
      (x : ℕ)
      → is_current c.world.sched awaiting ≡ true
      → c.world.sched.current ≡ some x
      → park_sender a awaiting c ≡ (
        true,
        record {
          queue = record (c.queue) { send = link_waiter a (some x) c.queue.send };
          world = waiting_world x c.world;
        },
      )
  unfolding park_sender running_is park_running
  park_own x e at = simp (e, at) refl

module _ {ℓ} {A : Type ℓ} {capacity : ℕ} (a : ℕ) (value : A) (awaiting : ℕ) (c : QueueWorld A)
    {buf : List A} {ss rs : List ℕ} (v : QueueInv capacity c.queue buf ss rs)
    (fresh : count a ss ≡ 0) where
  made_sender-QueueInv : QueueInv capacity (made_sender a value c).queue buf ss rs
  made_sender-QueueInv = record {
    ring = v.ring;
    senders = put_node-IsWaiters a (new_awaiter value) v.senders fresh refl;
    receivers = v.receivers;
    full_first = v.full_first;
    empty_first = v.empty_first;
    no_result = v.no_result;
  }

  -- The suspension, for a full queue.
  parked_send :
      rs ≡ []
      → length buf ≡ capacity
      → SendCase capacity a value awaiting buf ss rs c
          (park_sender a awaiting (made_sender a value c))
  parked_send none_wait full = elim (Bool-cases (is_current c.world.sched awaiting)) [
    | inr other ↦
        let i =
          subst (QueueInv capacity (made_sender a value c).queue buf ss) none_wait
            made_sender-QueueInv in
        rw (park_foreign a awaiting (made_sender a value c) other)
          (rejected none_wait full other refl refl i)
    | inl own ↦ elim (Option-cases c.world.sched.current) [
      | inl e ↦ absurd (nobody c.world.sched awaiting e own)
      | inr (x, at) ↦
          let i = made_sender-QueueInv in
          let ws = (made_sender a value c).queue.send in
          rw (park_own a awaiting (made_sender a value c) x own at) (
            parked x none_wait full own at refl refl
              (link_waiter-SamePayloads ws a (some x) a
                ∙ ap (λ (n : Awaiter A). n.payload)
                    (update_self c.queue.send.nodes a (new_awaiter value)))
              (link_waiter_slot ws a (some x) a ∙ ground arith)
              (record {
                ring = i.ring;
                senders = link_waiter-IsWaiters a (some x) i.senders fresh;
                receivers = subst (IsWaiters c.queue.recv) none_wait i.receivers;
                full_first = λ h. full;
                empty_first = λ h. absurd (h refl);
                no_result = λ b h. absurd (h refl);
              }))
    ]
  ]

  -- What `await_ready` leaves to do.
  abbrev after_ready : Bool × QueueWorld A → Bool × QueueWorld A
  after_ready o = if o.0 then (false, o.1) else park_sender a awaiting o.1

  send_lem :
      send capacity a value awaiting c
      ≡ after_ready (do_send capacity value (made_sender a value c))
  unfolding send send_await_ready
  send_lem =
      ap (λ (p : A). after_ready (do_send capacity p (made_sender a value c)))
        (ap (λ (n : Awaiter A). n.payload) (update_self c.queue.send.nodes a (new_awaiter value)))

  sent :
      (out : Bool × QueueWorld A)
      → SendResult capacity value buf ss rs (made_sender a value c) out
      → SendCase capacity a value awaiting buf ss rs c (after_ready out)
  sent out (hands r rs' e t p w i) = rw t (delivered refl (hands r rs' e refl p w i))
  sent out (stores e l t w i) = rw t (delivered refl (stores e l refl w i))
  sent out (refuses e full k) = rw k (parked_send e full)

  sending : SendCase capacity a value awaiting buf ss rs c (send capacity a value awaiting c)
  sending = rw send_lem (
      sent (do_send capacity value (made_sender a value c))
        (do_send-SendResult value made_sender-QueueInv))

-- From a queue with the values `buf`, the waiting senders `ss`, of which `a` is none, and the waiting
-- receivers `rs`: the awaited send of a value by an awaiter at `a` ends in one of three ways. Where
-- `do_send` takes the value, it does not suspend. Where the queue is full and the await is not the running
-- task's, it reports that, does not suspend, and leaves the values and the waiting senders. Where
-- the queue is full and the await is the running task's, its slot waits, the awaiter holds the value
-- and the slot, and is the last waiting sender.
pub send-SendCase {ℓ} :
    {A : Type ℓ} {capacity : ℕ} (a : ℕ) (value : A) (awaiting : ℕ) {c : QueueWorld A} {buf : List A}
    {ss rs : List ℕ}
    → QueueInv capacity c.queue buf ss rs
    → count a ss ≡ 0
    → SendCase capacity a value awaiting buf ss rs c (send capacity a value awaiting c)
send-SendCase a value awaiting {c} v fresh = sending a value awaiting c v fresh
