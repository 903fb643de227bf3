-- ===== src/Waiters.antt =====
-- The waiting lists of src/simpleawait/queue.h. `SendAwaiter` and `ReceiveAwaiter` link and unlink their
-- nodes in the same way, so both are an `Awaiter`, and a queue has two `Waiters`. A node is named by the
-- awaiter's address. The nodes also hold the awaiters that are not linked.
pub mod Linked
pub mod Unlink
use simple_await.Base.{
  ℕ, zero, suc, Bool, true, false, Option, none, some, update, ◌==◌, if◌then◌else◌, is_some,
}

-- `SendAwaiter` with the value it sends, or `ReceiveAwaiter` with its result if there is one.
pub record Awaiter {ℓ} (X : Type ℓ) : Type ℓ where
  pub payload : X
  pub next : Option ℕ
  pub slot : Option ℕ
  pub linked : Bool

pub record Waiters {ℓ} (X : Type ℓ) : Type ℓ where
  pub nodes : ℕ → Awaiter X
  pub head : Option ℕ
  pub tail : Option ℕ

-- The constructors of the awaiters.
abbrev pub new_awaiter {ℓ} : {X : Type ℓ} → X → Awaiter X
new_awaiter x = record { payload = x; next = none; slot = none; linked = false }

abbrev pub put_node {ℓ} : {X : Type ℓ} → ℕ → Awaiter X → Waiters X → Waiters X
put_node a v ws = record ws { nodes = update ws.nodes a v }

abbrev pub set_next {ℓ} : {X : Type ℓ} → ℕ → Option ℕ → Waiters X → Waiters X
set_next a p ws = put_node a (record (ws.nodes a) { next = p }) ws

abbrev pub set_linked {ℓ} : {X : Type ℓ} → ℕ → Bool → Waiters X → Waiters X
set_linked a v ws = put_node a (record (ws.nodes a) { linked = v }) ws

-- The statements of `park_sender` and `park_receiver` once the slot is parked.
unfoldable pub link_waiter {ℓ} : {X : Type ℓ} → ℕ → Option ℕ → Waiters X → Waiters X
link_waiter {X = X} a slot ws =
    let cleared = put_node a (record (ws.nodes a) { slot = slot; next = none }) ws in
    let placed : Waiters X = elim ws.tail [
      | none ↦ record cleared { head = some a }
      | some t ↦ set_next t (some a) cleared
    ] in
    set_linked a true (record placed { tail = some a })

-- `send_pop_front` and `recv_pop_front`, where the head is `a`.
unfoldable pub pop_waiter {ℓ} : {X : Type ℓ} → ℕ → Waiters X → Waiters X
pop_waiter a ws =
    let rest = (ws.nodes a).next in
    record {
      nodes = update ws.nodes a (record (ws.nodes a) { next = none; linked = false });
      head = rest;
      tail = elim rest [ none ↦ none | some _ ↦ ws.tail ];
    }

-- The body of the loop of `unlink_sender` and `unlink_receiver` at the node `s` itself.
unfoldable pub splice {ℓ} : {X : Type ℓ} → Option ℕ → ℕ → Waiters X → Waiters X
splice {X = X} prev s ws =
    let bypassed : Waiters X = elim prev [
      | none ↦ record ws { head = (ws.nodes s).next }
      | some p ↦ set_next p (ws.nodes s).next ws
    ] in
    if elim ws.tail [ none ↦ false | some t ↦ t == s ]
    then record bypassed { tail = prev }
    else bypassed

-- The loop, at most `fuel` rounds.
unfoldable pub unlink_from {ℓ} : {X : Type ℓ} → ℕ → Option ℕ → Option ℕ → ℕ → Waiters X → Waiters X
unlink_from zero prev s a ws = ws
unlink_from (suc fuel) prev none a ws = ws
unlink_from (suc fuel) prev (some s) a ws =
    let rest = unlink_from fuel (some s) (ws.nodes s).next a ws in
    if s == a then splice prev s ws else rest

-- `unlink_sender` and `unlink_receiver`.
unfoldable pub unlink_waiter {ℓ} : {X : Type ℓ} → ℕ → ℕ → Waiters X → Waiters X
unlink_waiter fuel a ws =
    let ws' = unlink_from fuel none ws.head a ws in
    put_node a (record (ws'.nodes a) { next = none; linked = false }) ws'

-- The loops of `~Queue` over its waiters, at most `fuel` rounds.
unfoldable pub detach {ℓ} : {X : Type ℓ} → ℕ → Option ℕ → Waiters X → Waiters X
detach zero s ws = ws
detach (suc fuel) none ws = ws
detach (suc fuel) (some s) ws =
    let ws' = set_linked s false ws in detach fuel (ws'.nodes s).next ws'
