-- ===== src/Queue.antt =====
-- src/simpleawait/queue.h: the bounded FIFO with waiting senders and receivers. The ring's cells hold the
-- constructed objects, and a move leaves the value where it was until it is destroyed. An operation
-- takes the queue with the world, which has the scheduler; `fuel` bounds the loops over the waiters.
pub mod Ring
pub mod Inv
pub mod Receive
pub mod SendAwait
pub mod ReceiveAwait
pub mod Destroy
pub mod Teardown
pub mod Order
pub mod Handoff
pub mod Steps
use simple_await.Base.{
  ℕ, zero, suc, ◌+◌, ◌-◌, ◌%◌, ◌^◌, Bool, true, false, Option, none, some, update, ltb, leb, ◌==◌,
  ◌||◌, is_some, if◌then◌else◌,
}
use simple_await.Error.{invalid_task, object_destroyed_with_waiters}
use simple_await.World.{World, on_error, increment, decrement}
use simple_await.Waits.{running_is, park_running, wake_slot}
use simple_await.Waiters.{
  Waiters, new_awaiter, put_node, link_waiter, pop_waiter, unlink_waiter, detach,
}

pub record Queue {ℓ} (A : Type ℓ) : Type ℓ where
  pub cells : ℕ → Option A
  pub head : ℕ
  pub count : ℕ
  pub send : Waiters A
  pub recv : Waiters (Option A)

-- The initial members. `blank` stands in the nodes where there is no awaiter yet.
unfoldable pub new_queue {ℓ} : {A : Type ℓ} → A → Queue A
new_queue blank = record {
  cells = λ _. none;
  head = 0;
  count = 0;
  send = record { nodes = λ _. new_awaiter blank; head = none; tail = none };
  recv = record { nodes = λ _. new_awaiter none; head = none; tail = none };
}

-- A queue in the world.
pub record QueueWorld {ℓ} (A : Type ℓ) : Type ℓ where
  pub queue : Queue A
  pub world : World

-- `scheduler().wake_slot`.
abbrev pub wake {ℓ} : {A : Type ℓ} → Option ℕ → Queue A → World → QueueWorld A
wake slot q w = record { queue = q; world = record w { sched = wake_slot slot w.sched } }

-- `next_index`.
unfoldable pub next_index : ℕ → ℕ → ℕ
next_index capacity i = if increment i == capacity then 0 else increment i

-- `tail_index`.
unfoldable pub tail_index {ℓ} : {A : Type ℓ} → ℕ → Queue A → ℕ
tail_index capacity q =
    let t = (q.head + q.count) % 2 ^ 32 in if leb capacity t then t - capacity else t

-- `store_back`.
unfoldable pub store_back {ℓ} : {A : Type ℓ} → ℕ → A → Queue A → Queue A
store_back capacity value q = record q {
  cells = update q.cells (tail_index capacity q) (some value);
  count = increment q.count;
}

-- `pop_front_storage`.
unfoldable pub pop_front_storage {ℓ} : {A : Type ℓ} → ℕ → Queue A → Queue A
pop_front_storage capacity q = record q {
  cells = update q.cells q.head none;
  head = next_index capacity q.head;
  count = decrement q.count;
}

-- `send_pop_front` and `recv_pop_front`, where the head is the given awaiter.
abbrev pub send_pop_front {ℓ} : {A : Type ℓ} → ℕ → Queue A → Queue A
send_pop_front s q = record q { send = pop_waiter s q.send }

abbrev pub recv_pop_front {ℓ} : {A : Type ℓ} → ℕ → Queue A → Queue A
recv_pop_front r q = record q { recv = pop_waiter r q.recv }

-- `unlink_sender` and `unlink_receiver`.
abbrev pub unlink_sender {ℓ} : {A : Type ℓ} → ℕ → ℕ → Queue A → Queue A
unlink_sender fuel a q = record q { send = unlink_waiter fuel a q.send }

abbrev pub unlink_receiver {ℓ} : {A : Type ℓ} → ℕ → ℕ → Queue A → Queue A
unlink_receiver fuel a q = record q { recv = unlink_waiter fuel a q.recv }

-- `construct_result` on a receiver.
abbrev pub construct_result {ℓ} : {A : Type ℓ} → ℕ → Option A → Queue A → Queue A
construct_result r value q = record q {
  recv = put_node r (record (q.recv.nodes r) { payload = value }) q.recv;
}

-- `do_send`, which is also `trySend`.
unfoldable pub do_send {ℓ} : {A : Type ℓ} → ℕ → A → QueueWorld A → Bool × QueueWorld A
do_send capacity value c =
    let q = c.queue in
    elim q.recv.head [
      | some r ↦
          let popped = recv_pop_front r q in
          let given = construct_result r (some value) popped in
          (true, wake (given.recv.nodes r).slot given c.world)
      | none ↦
          if ltb q.count capacity
          then (true, record c { queue = store_back capacity value q })
          else (false, c)
    ]

-- `admit_oldest_sender`.
unfoldable pub admit_oldest_sender {ℓ} : {A : Type ℓ} → ℕ → QueueWorld A → QueueWorld A
admit_oldest_sender capacity c =
    let q = c.queue in
    elim q.send.head [
      | none ↦ c
      | some s ↦
          let popped = send_pop_front s q in
          let stored = store_back capacity (popped.send.nodes s).payload popped in
          wake (stored.send.nodes s).slot stored c.world
    ]

-- `tryReceive`: `out` is the caller's variable.
unfoldable pub try_receive {ℓ} :
    {A : Type ℓ} → ℕ → Option A → QueueWorld A → Bool × Option A × QueueWorld A
try_receive capacity out c = if c.queue.count == 0 then (false, out, c) else (
  true,
  c.queue.cells c.queue.head,
  admit_oldest_sender capacity (record c { queue = pop_front_storage capacity c.queue }),
)

-- `park_sender` and `park_receiver`.
unfoldable pub park_sender {ℓ} : {A : Type ℓ} → ℕ → ℕ → QueueWorld A → Bool × QueueWorld A
park_sender a awaiting c =
    let (ok, w') = running_is awaiting c.world in
    if ok
    then (let (slot, s) = park_running w'.sched in
        (
          true,
          record {
            queue = record (c.queue) { send = link_waiter a slot c.queue.send };
            world = record w' { sched = s };
          },
        ))
    else (false, record c { world = w' })

unfoldable pub park_receiver {ℓ} : {A : Type ℓ} → ℕ → ℕ → QueueWorld A → Bool × QueueWorld A
park_receiver a awaiting c =
    let (ok, w') = running_is awaiting c.world in
    if ok
    then (let (slot, s) = park_running w'.sched in
        (
          true,
          record {
            queue = record (c.queue) { recv = link_waiter a slot c.queue.recv };
            world = record w' { sched = s };
          },
        ))
    else (false, record c { world = w' })

-- `SendAwaiter::await_ready`.
unfoldable pub send_await_ready {ℓ} : {A : Type ℓ} → ℕ → ℕ → QueueWorld A → Bool × QueueWorld A
send_await_ready capacity a c = do_send capacity (c.queue.send.nodes a).payload c

-- `ReceiveAwaiter::await_ready`.
unfoldable pub receive_await_ready {ℓ} : {A : Type ℓ} → ℕ → ℕ → QueueWorld A → Bool × QueueWorld A
receive_await_ready capacity a c =
    let q = c.queue in
    if q.count == 0 then (false, c) else (
      true,
      admit_oldest_sender capacity
          (record c { queue = pop_front_storage capacity (construct_result a (q.cells q.head) q) }),
    )

-- `co_await queue.send(value)` up to its suspension: whether it suspends. The awaiter is made at `a`.
unfoldable pub send {ℓ} : {A : Type ℓ} → ℕ → ℕ → A → ℕ → QueueWorld A → Bool × QueueWorld A
send capacity a value awaiting c =
    let q = c.queue in
    let made = record c { queue = record q { send = put_node a (new_awaiter value) q.send } } in
    let (done, c') = send_await_ready capacity a made in
    if done then (false, c') else park_sender a awaiting c'

-- `co_await queue.receive()` up to its suspension.
unfoldable pub receive {ℓ} : {A : Type ℓ} → ℕ → ℕ → ℕ → QueueWorld A → Bool × QueueWorld A
receive capacity a awaiting c =
    let q = c.queue in
    let made = record c { queue = record q { recv = put_node a (new_awaiter none) q.recv } } in
    let (done, c') = receive_await_ready capacity a made in
    if done then (false, c') else park_receiver a awaiting c'

-- `ReceiveAwaiter::await_resume`. `fallback` is `T{}` where `T` is default-constructible; where it is
-- not, the code reports for ever, of which the model has the first report, and there is no value.
unfoldable pub receive_await_resume {ℓ} :
    {A : Type ℓ} → Option A → ℕ → QueueWorld A → Option A × QueueWorld A
receive_await_resume fallback a c = elim (c.queue.recv.nodes a).payload [
  | some v ↦ (some v, record c { queue = construct_result a none c.queue })
  | none ↦ elim fallback [
    | some d ↦ (some d, c)
    | none ↦ (none, record c { world = on_error invalid_task c.world })
  ]
]

-- `~SendAwaiter` and `~ReceiveAwaiter`.
unfoldable pub destroy_sender {ℓ} : {A : Type ℓ} → ℕ → ℕ → Queue A → Queue A
destroy_sender fuel a q = if (q.send.nodes a).linked then unlink_sender fuel a q else q

unfoldable pub destroy_receiver {ℓ} : {A : Type ℓ} → ℕ → ℕ → Queue A → Queue A
destroy_receiver fuel a q =
    let q' = if (q.recv.nodes a).linked then unlink_receiver fuel a q else q in
    construct_result a none q'

-- `while (count_ > 0) pop_front_storage();`, at most `fuel` rounds.
unfoldable pub drain {ℓ} : {A : Type ℓ} → ℕ → ℕ → Queue A → Queue A
drain zero capacity q = q
drain (suc fuel) capacity q =
    let rest = drain fuel capacity (pop_front_storage capacity q) in
    if q.count == 0 then q else rest

-- `~Queue`. The loop over the payloads ends with `count_`, which is its fuel.
unfoldable pub destroy_queue {ℓ} : {A : Type ℓ} → ℕ → ℕ → QueueWorld A → QueueWorld A
destroy_queue fuel capacity c =
    let q = c.queue in
    let detached = record q {
      send = detach fuel q.send.head q.send;
      recv = detach fuel q.recv.head q.recv;
    } in
    record {
      queue = drain q.count capacity detached;
      world =
          if is_some q.send.head || is_some q.recv.head
          then on_error object_destroyed_with_waiters c.world
          else c.world;
    }

-- `empty` and `full`.
unfoldable pub empty {ℓ} : {A : Type ℓ} → Queue A → Bool
empty q = q.count == 0

unfoldable pub full {ℓ} : {A : Type ℓ} → ℕ → Queue A → Bool
full capacity q = q.count == capacity
