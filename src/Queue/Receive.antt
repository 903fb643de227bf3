-- ===== src/Queue/Receive.antt =====
-- `tryReceive` of queue.h and what both ways to receive share: the first value is taken, and the oldest
-- waiting sender takes the cell that has become free.
use simple_await.Base.{
  ℕ, ◌+◌, ◌<◌, ◌≡◌, ◌≢◌, refl, ◌∙◌, ap, subst, Bool, true, false, Option, none, some, List, [], ◌∷◌,
  ◌++◌, arith, length, length-append, Option-cases, Bool-cases, inl, inr, ◌==◌,
}
use simple_await.World.{World}
use simple_await.Waiters.{Waiters, pop_waiter}
use simple_await.Waiters.Linked.{
  IsWaiters, pop_waiter-IsWaiters, pop_waiter-SamePayloads, pop_waiter-SameSlots, SamePayloads,
}
use simple_await.Queue.{
  Queue, QueueWorld, store_back, pop_front_storage, admit_oldest_sender, try_receive, wake,
}
use simple_await.Queue.Ring.{IsRing, store_back-IsRing, pop_front_storage-IsRing}
use simple_await.Queue.Inv.{QueueInv, woken}

-- A queue of the values `buf` in which a cell has become free, and no receiver waits.
pub record Opened {ℓ} {A : Type ℓ} (capacity : ℕ) (q : Queue A) (buf : List A) (ss : List ℕ)
    : Type ℓ where
  pub ring : IsRing capacity q.cells q.head q.count buf
  pub senders : IsWaiters q.send ss
  pub receivers : IsWaiters q.recv []
  pub room : length buf < capacity
  pub last_free : ss ≢ [] → length buf + 1 ≡ capacity

-- What the admission of the oldest sender leaves, from the values `buf`, with the senders `ws`.
pub data AdmitResult {ℓ} {A : Type ℓ} (capacity : ℕ) (buf : List A) (ss : List ℕ) (ws : Waiters A)
    (w : World) (out : QueueWorld A) : Type ℓ where
  nobody :
      ss ≡ []
      → out.world ≡ w
      → QueueInv capacity out.queue buf [] []
      → AdmitResult capacity buf ss ws w out
  admits :
      (s : ℕ) (ss' : List ℕ)
      → ss ≡ s ∷ ss'
      → out.world ≡ woken (ws.nodes s).slot w
      → QueueInv capacity out.queue (buf ++ (ws.nodes s).payload ∷ []) ss' []
      → AdmitResult capacity buf ss ws w out

module _ {ℓ} {A : Type ℓ} (capacity : ℕ) (c : QueueWorld A) where
  admit_none : c.queue.send.head ≡ none → admit_oldest_sender capacity c ≡ c
  unfolding admit_oldest_sender
  admit_none e = rw e refl

  abbrev popped_sender : ℕ → Queue A
  popped_sender s = record (c.queue) { send = pop_waiter s c.queue.send }

  abbrev admitted : ℕ → Queue A
  admitted s = store_back capacity ((pop_waiter s c.queue.send).nodes s).payload (popped_sender s)

  admit_some :
      (s : ℕ)
      → c.queue.send.head ≡ some s
      → admit_oldest_sender capacity c ≡ wake ((admitted s).send.nodes s).slot (admitted s) c.world
  unfolding admit_oldest_sender
  admit_some s e = rw e refl

  admitted-QueueInv :
      {buf : List A} (s : ℕ) {ss : List ℕ}
      → Opened capacity c.queue buf (s ∷ ss)
      → QueueInv capacity (admitted s) (buf ++ (c.queue.send.nodes s).payload ∷ []) ss []
  unfolding store_back
  admitted-QueueInv {buf} s {ss} v =
      let value = (c.queue.send.nodes s).payload in
      let full = v.last_free (λ e. ground (arith, e)) in
      rw (pop_waiter-SamePayloads c.queue.send s s) (record {
        ring = store_back-IsRing capacity (popped_sender s) value v.ring v.room;
        senders = pop_waiter-IsWaiters s v.senders;
        receivers = v.receivers;
        full_first = λ h. omega (arith, full, length-append buf (value ∷ []));
        empty_first = λ h. absurd (h refl);
        no_result = λ a h. absurd (h refl);
      })

  pub admit_oldest_sender-AdmitResult :
      {buf : List A} (ss : List ℕ)
      → Opened capacity c.queue buf ss
      → AdmitResult capacity buf ss c.queue.send c.world (admit_oldest_sender capacity c)
  unfolding store_back
  admit_oldest_sender-AdmitResult [] v = rw (admit_none v.senders.chain) (
      nobody refl refl (record {
        ring = v.ring;
        senders = v.senders;
        receivers = v.receivers;
        full_first = λ h. absurd (h refl);
        empty_first = λ h. absurd (h refl);
        no_result = λ a h. absurd (h refl);
      }))
  admit_oldest_sender-AdmitResult (s ∷ ss) v = rw (admit_some s v.senders.chain.0) (
      admits s ss refl
        (ap (λ (p : Option ℕ). woken p c.world) (pop_waiter-SameSlots c.queue.send s s))
        (admitted-QueueInv s v))

pub admit_oldest_sender_recv {ℓ} :
    {A : Type ℓ} (capacity : ℕ) (c : QueueWorld A)
    → (admit_oldest_sender capacity c).queue.recv ≡ c.queue.recv
unfolding store_back
admit_oldest_sender_recv {A = A} capacity c = elim (Option-cases c.queue.send.head) [
  | inl e ↦ ap (λ (o : QueueWorld A). o.queue.recv) (admit_none capacity c e)
  | inr (s, e) ↦ ap (λ (o : QueueWorld A). o.queue.recv) (admit_some capacity c s e)
]

pub admit_oldest_sender-SamePayloads {ℓ} :
    {A : Type ℓ} (capacity : ℕ) (c : QueueWorld A)
    → SamePayloads c.queue.send (admit_oldest_sender capacity c).queue.send
unfolding store_back
admit_oldest_sender-SamePayloads {A = A} capacity c i = elim (Option-cases c.queue.send.head) [
  | inl e ↦ ap (λ (o : QueueWorld A). (o.queue.send.nodes i).payload) (admit_none capacity c e)
  | inr (s, e) ↦
      ap (λ (o : QueueWorld A). (o.queue.send.nodes i).payload) (admit_some capacity c s e)
      ∙ pop_waiter-SamePayloads c.queue.send s i
]

-- What `tryReceive` does to a queue of the values `buf`.
pub data ReceiveResult {ℓ} {A : Type ℓ} (capacity : ℕ) (variable : Option A) (buf : List A)
    (ss rs : List ℕ) (c : QueueWorld A) (out : Bool × Option A × QueueWorld A) : Type ℓ where
  nothing : buf ≡ [] → out ≡ (false, variable, c) → ReceiveResult capacity variable buf ss rs c out
  takes :
      (x : A) (buf' : List A)
      → buf ≡ x ∷ buf'
      → rs ≡ []
      → out.0 ≡ true
      → out.1 ≡ some x
      → AdmitResult capacity buf' ss c.queue.send c.world out.2
      → ReceiveResult capacity variable buf ss rs c out

module _ {ℓ} {A : Type ℓ} {capacity : ℕ} where
  -- No receiver waits while there is a value.
  pub no_receivers :
      {q : Queue A} {x : A} {buf : List A} {ss rs : List ℕ}
      → QueueInv capacity q (x ∷ buf) ss rs
      → rs ≡ []
  no_receivers {rs = []} v = refl
  no_receivers {rs = r ∷ rs} v =
      absurd (omega (arith, ap length (v.empty_first (λ e. ground (arith, e)))))

  pub pop_front_storage-Opened :
      {q : Queue A} {x : A} {buf : List A} {ss rs : List ℕ}
      → QueueInv capacity q (x ∷ buf) ss rs
      → Opened capacity (pop_front_storage capacity q) buf ss
  unfolding pop_front_storage
  pop_front_storage-Opened {q} {x} {buf} v = record {
    ring = pop_front_storage-IsRing capacity q v.ring;
    senders = v.senders;
    receivers = subst (IsWaiters q.recv) (no_receivers v) v.receivers;
    room = omega (arith, v.ring.bound);
    last_free = λ h. omega (arith, v.full_first h);
  }

  -- From a queue with the values `buf`, the waiting senders `ss` and the waiting receivers `rs`: `tryReceive`
  -- of an empty queue returns `false` and changes nothing. Otherwise it returns `true` and gives the first
  -- value; if a sender waits, the value of the first one becomes the last of the queue, its slot is woken
  -- and it waits no longer.
  pub try_receive-ReceiveResult :
      (variable : Option A) {c : QueueWorld A} {buf : List A} {ss rs : List ℕ}
      → QueueInv capacity c.queue buf ss rs
      → ReceiveResult capacity variable buf ss rs c (try_receive capacity variable c)
  unfolding try_receive pop_front_storage
  try_receive-ReceiveResult variable {c = c} {buf = []} v =
      let z : (c.queue.count == 0) ≡ true = ground (arith, v.ring.counted) in
      rw z (nothing refl refl)
  try_receive-ReceiveResult variable {c = c} {buf = x ∷ buf} {ss = ss} v =
      let nz : (c.queue.count == 0) ≡ false = ground (arith, v.ring.counted) in
      let r =
        admit_oldest_sender-AdmitResult capacity
          (record c { queue = pop_front_storage capacity c.queue }) ss
          (pop_front_storage-Opened v) in
      rw nz (takes x buf refl (no_receivers v) refl v.ring.holds.0 r)

module _ {ℓ} {A : Type ℓ} (capacity : ℕ) where
  -- `tryReceive` leaves the values of the senders.
  pub try_receive-SamePayloads :
      (variable : Option A) (c : QueueWorld A)
      → SamePayloads c.queue.send (try_receive capacity variable c).2.queue.send
  unfolding try_receive pop_front_storage
  try_receive-SamePayloads variable c i = elim (Bool-cases (c.queue.count == 0)) [
    | inl e ↦ rw e refl
    | inr e ↦ rw e (
        admit_oldest_sender-SamePayloads capacity
          (record c { queue = pop_front_storage capacity c.queue }) i)
  ]
