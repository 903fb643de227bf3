-- ===== src/Queue/Inv.antt =====
-- What holds of a queue of queue.h between the calls, and what `do_send` does.
use simple_await.Base.{
  ℕ, ◌^◌, ◌≤◌, ◌<◌, ◌≡◌, ◌≢◌, refl, ◌∙◌, ap, subst, Bool, true, false, Option, none, some, List, [],
  ◌∷◌, ◌++◌, arith, count, length, update_self, update_ne, ltb, if◌then◌else◌,
}
use native.Mathlib.Decide.{dec_lt}
use simple_await.World.{World}
use simple_await.Waits.{wake_slot}
use simple_await.Waiters.{Awaiter, pop_waiter}
use simple_await.Waiters.Linked.{
  IsWaiters, IsWaiters-Distinct, pop_waiter-IsWaiters, pop_waiter-SamePayloads,
  pop_waiter-SameSlots, put_node-IsWaiters, IsWaiters-free,
}
use simple_await.Queue.{Queue, QueueWorld, construct_result, store_back, do_send, new_queue, wake}
use simple_await.Queue.Ring.{IsRing, store_back-IsRing}

-- The queue holds the values `buf`, the senders `ss` and the receivers `rs` wait, each in their order;
-- a sender only waits for a full queue, and a receiver only for an empty one and without a result.
pub record QueueInv {ℓ} {A : Type ℓ} (capacity : ℕ) (q : Queue A) (buf : List A) (ss rs : List ℕ)
    : Type ℓ where
  pub ring : IsRing capacity q.cells q.head q.count buf
  pub senders : IsWaiters q.send ss
  pub receivers : IsWaiters q.recv rs
  pub full_first : ss ≢ [] → length buf ≡ capacity
  pub empty_first : rs ≢ [] → buf ≡ []
  pub no_result : (a : ℕ) → count a rs ≢ 0 → (q.recv.nodes a).payload ≡ none

-- The world in which the parked slot was woken.
abbrev pub woken : Option ℕ → World → World
woken slot w = record w { sched = wake_slot slot w.sched }

pub new_queue-QueueInv {ℓ} :
    {A : Type ℓ} (capacity : ℕ) (blank : A)
    → 0 < capacity
    → capacity ≤ 2 ^ 31
    → QueueInv capacity (new_queue blank) [] [] []
unfolding new_queue
new_queue-QueueInv capacity blank pos small = record {
  ring = record {
    small = small;
    inside = pos;
    counted = refl;
    bound = omega arith;
    holds = tt;
    free = λ j h. refl;
  };
  senders = record { chain = refl; last = refl; member = λ i. refl };
  receivers = record { chain = refl; last = refl; member = λ i. refl };
  full_first = λ h. absurd (h refl);
  empty_first = λ h. refl;
  no_result = λ a h. refl;
}

-- What `do_send` of a value does to a queue.
pub data SendResult {ℓ} {A : Type ℓ} (capacity : ℕ) (value : A) (buf : List A) (ss rs : List ℕ)
    (c : QueueWorld A) (out : Bool × QueueWorld A) : Type ℓ where
  hands :
      (r : ℕ) (rs' : List ℕ)
      → rs ≡ r ∷ rs'
      → out.0 ≡ true
      → (out.1.queue.recv.nodes r).payload ≡ some value
      → out.1.world ≡ woken (c.queue.recv.nodes r).slot c.world
      → QueueInv capacity out.1.queue [] [] rs'
      → SendResult capacity value buf ss rs c out
  stores :
      rs ≡ []
      → length buf < capacity
      → out.0 ≡ true
      → out.1.world ≡ c.world
      → QueueInv capacity out.1.queue (buf ++ value ∷ []) [] []
      → SendResult capacity value buf ss rs c out
  refuses :
      rs ≡ [] → length buf ≡ capacity → out ≡ (false, c) → SendResult capacity value buf ss rs c out

-- `do_send` without and with a waiting receiver.
abbrev given_to {ℓ} : {A : Type ℓ} → ℕ → A → Queue A → Queue A
given_to r value q = construct_result r (some value) (record q { recv = pop_waiter r q.recv })

module _ {ℓ} {A : Type ℓ} (capacity : ℕ) (value : A) (c : QueueWorld A) where
  do_send_alone :
      c.queue.recv.head ≡ none
      → do_send capacity value c ≡ (
          if ltb c.queue.count capacity
          then (true, record c { queue = store_back capacity value c.queue })
          else (false, c))
  unfolding do_send
  do_send_alone e = rw e refl

  do_send_waiting :
      (r : ℕ)
      → c.queue.recv.head ≡ some r
      → do_send capacity value c ≡ (
        true,
        wake ((given_to r value c.queue).recv.nodes r).slot (given_to r value c.queue) c.world,
      )
  unfolding do_send
  do_send_waiting r e = rw e refl

module _ {ℓ} {A : Type ℓ} {capacity : ℕ} where
  -- The receivers wait for an empty queue, in which no sender waits.
  pub no_senders :
      {q : Queue A} {buf : List A} {ss rs : List ℕ}
      → QueueInv capacity q buf ss rs
      → length buf < capacity
      → ss ≡ []
  no_senders {ss = []} v h = refl
  no_senders {ss = s ∷ ss} v h = absurd (omega (arith, h, v.full_first (λ e. ground (arith, e))))

  -- The first receiver is out and has the value.
  handed-QueueInv :
      {q : Queue A} {buf : List A} {ss rs : List ℕ} (r : ℕ) (value : A)
      → QueueInv capacity q buf ss (r ∷ rs)
      → QueueInv capacity
          (construct_result r (some value) (record q { recv = pop_waiter r q.recv }))
          []
          []
          rs
  handed-QueueInv {q} {buf} {ss} {rs} r value v =
      let empty_buf : buf ≡ [] = v.empty_first (λ e. ground (arith, e)) in
      let ring : IsRing capacity q.cells q.head q.count [] =
        subst (IsRing capacity q.cells q.head q.count) empty_buf v.ring in
      let none_send : ss ≡ [] = no_senders v (rw empty_buf (omega (arith, v.ring.inside))) in
      let popped = pop_waiter-IsWaiters r v.receivers in
      let out : count r rs ≡ 0 = ground (arith, IsWaiters-Distinct v.receivers r) in
      let u = pop_waiter r q.recv in
      let given : Awaiter (Option A) = record (u.nodes r) { payload = some value } in
      record {
        ring = ring;
        senders = subst (IsWaiters q.send) none_send v.senders;
        receivers = put_node-IsWaiters r given popped out (IsWaiters-free r popped out);
        full_first = λ h. absurd (h refl);
        empty_first = λ h. refl;
        no_result = λ a h.
            let ne : a ≢ r = λ e. h (ground (arith, e, out)) in
            ap (λ (n : Awaiter (Option A)). n.payload) (update_ne u.nodes r a given ne)
            ∙ pop_waiter-SamePayloads q.recv r a
            ∙ v.no_result a (omega (arith, h));
      }

  stored-QueueInv :
      {q : Queue A} {buf : List A} {ss : List ℕ} (value : A)
      → QueueInv capacity q buf ss []
      → length buf < capacity
      → QueueInv capacity (store_back capacity value q) (buf ++ value ∷ []) [] []
  unfolding store_back
  stored-QueueInv {q} value v room = record {
    ring = store_back-IsRing capacity q value v.ring room;
    senders = subst (IsWaiters q.send) (no_senders v room) v.senders;
    receivers = v.receivers;
    full_first = λ h. absurd (h refl);
    empty_first = λ h. absurd (h refl);
    no_result = λ a h. absurd (h refl);
  }

  -- From a queue with the values `buf`, the waiting senders `ss` and the waiting receivers `rs`: `do_send`
  -- of a value ends in one of three ways. If a receiver waits, the first one has the value as its result, its
  -- slot is woken and it waits no longer. If none waits and there is room, the value is the last one of
  -- the queue. If the queue is full, it returns `false` and changes nothing.
  pub do_send-SendResult :
      (value : A) {c : QueueWorld A} {buf : List A} {ss rs : List ℕ}
      → QueueInv capacity c.queue buf ss rs
      → SendResult capacity value buf ss rs c (do_send capacity value c)
  do_send-SendResult value {c = c} {buf = buf} {rs = []} v =
      rw (do_send_alone capacity value c v.receivers.chain) (elim (dec_lt (length buf) capacity) [
        | yes l ↦
            let open_queue : ltb c.queue.count capacity ≡ true = ground (arith, v.ring.counted) in
            rw open_queue (stores refl l refl refl (stored-QueueInv value v l))
        | no g ↦
            let full_queue : ltb c.queue.count capacity ≡ false = ground (arith, v.ring.counted) in
            rw full_queue (refuses refl (omega (arith, v.ring.bound)) refl)
      ])
  do_send-SendResult value {c = c} {rs = r ∷ rs} v =
      let q = c.queue in
      let u = pop_waiter r q.recv in
      let given : Awaiter (Option A) = record (u.nodes r) { payload = some value } in
      let self = update_self u.nodes r given in
      rw (do_send_waiting capacity value c r v.receivers.chain.0) (
        hands r rs refl refl (ap (λ (n : Awaiter (Option A)). n.payload) self)
          (ap (λ (p : Option ℕ). woken p c.world)
            (ap (λ (n : Awaiter (Option A)). n.slot) self ∙ pop_waiter-SameSlots q.recv r r))
          (handed-QueueInv r value v))
