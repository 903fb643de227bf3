-- ===== src/Queue/ReceiveAwait.antt =====
-- `co_await queue.receive()` of queue.h up to its suspension.
use simple_await.Base.{
  ℕ, ◌≡◌, ◌≢◌, refl, ◌∙◌, ap, subst, Bool, true, false, Option, none, some, List, [], ◌∷◌, ◌++◌,
  arith, count, count-append, ◌==◌, update_self, update_ne, Bool-cases, Option-cases, inl, inr,
}
use native.Mathlib.Decide.{ℕ_discrete}
use simple_await.Error.{invalid_task}
use simple_await.World.{on_error}
use simple_await.Tasks.{is_current}
use simple_await.Tasks.Children.{nobody}
use simple_await.Waits.{running_is, park_running}
use simple_await.Waiters.{Awaiter, Waiters, new_awaiter, put_node, link_waiter}
use simple_await.Waiters.Linked.{
  link_waiter-IsWaiters, link_waiter-SamePayloads, link_waiter_slot, put_node-IsWaiters,
}
use simple_await.Queue.{
  Queue, QueueWorld, construct_result, pop_front_storage, admit_oldest_sender, park_receiver,
  receive_await_ready, receive,
}
use simple_await.Queue.Inv.{QueueInv}
use simple_await.Queue.Receive.{
  AdmitResult, admit_oldest_sender-AdmitResult, admit_oldest_sender_recv, pop_front_storage-Opened,
  no_receivers,
}
use simple_await.Queue.SendAwait.{waiting_world}

-- The queue with the new awaiter at `a`.
abbrev pub made_receiver {ℓ} : {A : Type ℓ} → ℕ → QueueWorld A → QueueWorld A
made_receiver a c = record c {
  queue = record (c.queue) { recv = put_node a (new_awaiter none) c.queue.recv };
}

-- What the awaited receive does.
pub data ReceiveCase {ℓ} {A : Type ℓ} (capacity a awaiting : ℕ) (buf : List A) (ss rs : List ℕ)
    (c : QueueWorld A) (out : Bool × QueueWorld A) : Type ℓ where
  received :
      (x : A) (buf' : List A)
      → buf ≡ x ∷ buf'
      → rs ≡ []
      → out.0 ≡ false
      → (out.1.queue.recv.nodes a).payload ≡ some x
      → AdmitResult capacity buf' ss c.queue.send c.world out.1
      → ReceiveCase capacity a awaiting buf ss rs c out
  rejected :
      buf ≡ []
      → is_current c.world.sched awaiting ≡ false
      → out.0 ≡ false
      → out.1.world ≡ on_error invalid_task c.world
      → (out.1.queue.recv.nodes a).payload ≡ none
      → QueueInv capacity out.1.queue [] ss rs
      → ReceiveCase capacity a awaiting buf ss rs c out
  parked :
      (x : ℕ)
      → buf ≡ []
      → is_current c.world.sched awaiting ≡ true
      → c.world.sched.current ≡ some x
      → out.0 ≡ true
      → out.1.world ≡ waiting_world x c.world
      → (out.1.queue.recv.nodes a).slot ≡ some x
      → QueueInv capacity out.1.queue [] ss (rs ++ a ∷ [])
      → ReceiveCase capacity a awaiting buf ss rs c out

module _ {ℓ} {A : Type ℓ} (a awaiting : ℕ) (c : QueueWorld A) where
  park_receiver_foreign :
      is_current c.world.sched awaiting ≡ false
      → park_receiver a awaiting c ≡ (false, record c { world = on_error invalid_task c.world })
  unfolding park_receiver running_is
  park_receiver_foreign e = simp e refl

  park_receiver_own :
      (x : ℕ)
      → is_current c.world.sched awaiting ≡ true
      → c.world.sched.current ≡ some x
      → park_receiver a awaiting c ≡ (
        true,
        record {
          queue = record (c.queue) { recv = link_waiter a (some x) c.queue.recv };
          world = waiting_world x c.world;
        },
      )
  unfolding park_receiver running_is park_running
  park_receiver_own x e at = simp (e, at) refl

module _ {ℓ} {A : Type ℓ} {capacity : ℕ} (a awaiting : ℕ) (c : QueueWorld A) {buf : List A}
    {ss rs : List ℕ} (v : QueueInv capacity c.queue buf ss rs) (fresh : count a rs ≡ 0) where
  -- Any change of the awaiter `a` that leaves it without a link.
  changed-QueueInv :
      (n : Awaiter (Option A))
      → n.linked ≡ false
      → QueueInv capacity (record (c.queue) { recv = put_node a n c.queue.recv }) buf ss rs
  changed-QueueInv n e = record {
    ring = v.ring;
    senders = v.senders;
    receivers = put_node-IsWaiters a n v.receivers fresh e;
    full_first = v.full_first;
    empty_first = v.empty_first;
    no_result = λ b h.
        ap (λ (m : Awaiter (Option A)). m.payload)
          (update_ne c.queue.recv.nodes a b n (λ k. h (ground (arith, k, fresh))))
        ∙ v.no_result b h;
  }

  abbrev made : QueueWorld A
  made = made_receiver a c

  made_self : made.queue.recv.nodes a ≡ new_awaiter none
  made_self = update_self c.queue.recv.nodes a (new_awaiter none)

  -- The suspension, for an empty queue.
  parked_receive :
      buf ≡ [] → ReceiveCase capacity a awaiting buf ss rs c (park_receiver a awaiting made)
  parked_receive no_value = elim (Bool-cases (is_current c.world.sched awaiting)) [
    | inr other ↦
        let i =
          subst (λ l. QueueInv capacity made.queue l ss rs) no_value
            (changed-QueueInv (new_awaiter none) refl) in
        rw (park_receiver_foreign a awaiting made other) (
          rejected no_value other refl refl (ap (λ (n : Awaiter (Option A)). n.payload) made_self)
            i)
    | inl own ↦ elim (Option-cases c.world.sched.current) [
      | inl e ↦ absurd (nobody c.world.sched awaiting e own)
      | inr (x, at) ↦
          let i =
            subst (λ l. QueueInv capacity made.queue l ss rs) no_value
              (changed-QueueInv (new_awaiter none) refl) in
          let ws = made.queue.recv in
          rw (park_receiver_own a awaiting made x own at) (
            parked x no_value own at refl refl (link_waiter_slot ws a (some x) a ∙ ground arith)
              (record {
                ring = i.ring;
                senders = i.senders;
                receivers = link_waiter-IsWaiters a (some x) i.receivers fresh;
                full_first = i.full_first;
                empty_first = λ h. refl;
                no_result = λ b h.
                    link_waiter-SamePayloads ws a (some x) b ∙ (elim (ℕ_discrete b a) [
                      | yes e ↦ rw e (ap (λ (n : Awaiter (Option A)). n.payload) made_self)
                      | no ne ↦
                          i.no_result b
                            (λ z. h (omega (arith, count-append b rs (a ∷ []), z, ground_ne b ne)))
                    ]);
              }))
    ]
  ]
    where
      ground_ne : (b : ℕ) → b ≢ a → count b (a ∷ []) ≡ 0
      ground_ne b ne = ground arith

  receive_empty :
      (c.queue.count == 0) ≡ true → receive capacity a awaiting c ≡ park_receiver a awaiting made
  unfolding receive receive_await_ready
  receive_empty z = rw z refl

  abbrev constructed : Queue A
  constructed = construct_result a (c.queue.cells c.queue.head) made.queue

  receive_first :
      (c.queue.count == 0) ≡ false
      → receive capacity a awaiting c ≡ (
        false,
        admit_oldest_sender capacity
            (record made { queue = pop_front_storage capacity constructed }),
      )
  unfolding receive receive_await_ready
  receive_first z = rw z refl

receive_first-ReceiveCase {ℓ} :
    {A : Type ℓ} {capacity : ℕ} (a awaiting : ℕ) (c : QueueWorld A) {x : A} {buf : List A}
    {ss rs : List ℕ}
    → QueueInv capacity c.queue (x ∷ buf) ss rs
    → count a rs ≡ 0
    → ReceiveCase capacity a awaiting (x ∷ buf) ss rs c (receive capacity a awaiting c)
unfolding pop_front_storage
receive_first-ReceiveCase {A = A} {capacity} a awaiting c {x} {buf} {ss} v fresh =
    let nz : (c.queue.count == 0) ≡ false = ground (arith, v.ring.counted) in
    let m = made_receiver a c in
    let self = update_self c.queue.recv.nodes a (new_awaiter none) in
    let i = changed-QueueInv a awaiting c v fresh (new_awaiter none) refl in
    let n : Awaiter (Option A) = record (m.queue.recv.nodes a) {
      payload = c.queue.cells c.queue.head;
    } in
    let j =
      changed-QueueInv a awaiting m i fresh n (ap (λ (k : Awaiter (Option A)). k.linked) self) in
    let q = construct_result a (c.queue.cells c.queue.head) m.queue in
    let opened : QueueWorld A = record m { queue = pop_front_storage capacity q } in
    rw (receive_first a awaiting c v fresh nz) (
      received x buf refl (no_receivers v) refl
        (ap (λ (ws : Waiters (Option A)). (ws.nodes a).payload)
            (admit_oldest_sender_recv capacity opened)
          ∙ ap (λ (k : Awaiter (Option A)). k.payload) (update_self m.queue.recv.nodes a n)
          ∙ v.ring.holds.0)
        (admit_oldest_sender-AdmitResult capacity opened ss (pop_front_storage-Opened j)))

-- From a queue with the values `buf`, the waiting senders `ss`, and the waiting receivers `rs`, of which
-- `a` is none: the awaited receive by an awaiter at `a` ends in one of three ways. If there is a value, it
-- takes the first one as its result and does not suspend, and the first waiting sender is admitted. If
-- there is none and the await is not the running task's, it reports that, has no result and does not
-- suspend. If there is none and the await is the running task's, its slot waits, and the awaiter
-- holds it and is the last waiting receiver.
pub receive-ReceiveCase {ℓ} :
    {A : Type ℓ} {capacity : ℕ} (a awaiting : ℕ) {c : QueueWorld A} {buf : List A} {ss rs : List ℕ}
    → QueueInv capacity c.queue buf ss rs
    → count a rs ≡ 0
    → ReceiveCase capacity a awaiting buf ss rs c (receive capacity a awaiting c)
receive-ReceiveCase a awaiting {c} {buf = []} v fresh =
    let z : (c.queue.count == 0) ≡ true = ground (arith, v.ring.counted) in
    rw (receive_empty a awaiting c v fresh z) (parked_receive a awaiting c v fresh refl)
receive-ReceiveCase a awaiting {c} {buf = x ∷ buf} v fresh =
    receive_first-ReceiveCase a awaiting c v fresh
