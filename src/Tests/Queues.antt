-- ===== src/Tests/Queues.antt =====
-- The theorems on queue.h, at queues of two cells.
use simple_await.Base.{
  ℕ, ◌≡◌, refl, true, false, none, some, [], ◌∷◌, ◌++◌, arith, map, remove, ◌==◌, if◌then◌else◌,
}
use simple_await.Waiters.{new_awaiter}
use simple_await.Queue.{
  QueueWorld, do_send, try_receive, send, receive, destroy_sender, destroy_receiver, destroy_queue,
  receive_await_resume,
}
use simple_await.Queue.Inv.{QueueInv, woken, SendResult, do_send-SendResult}
use simple_await.Queue.Receive.{ReceiveResult, try_receive-ReceiveResult}
use simple_await.Queue.SendAwait.{SendCase, send-SendCase}
use simple_await.Queue.ReceiveAwait.{ReceiveCase, receive-ReceiveCase}
use simple_await.Queue.Destroy.{destroy_sender-QueueInv}
use simple_await.Queue.Teardown.{Abandoned, destroy_queue-Abandoned}
use simple_await.Queue.Order.{receive_all, held, receive_all-held}
use simple_await.Queue.Handoff.{receive_await_resume-do_send}
use simple_await.Queue.{new_queue}
use simple_await.Queue.Steps.{
  Reachable, start, step, tries_send, tries_receive, Consistent, Reachable-Consistent,
}
use simple_await.Tests.{busy_world}

-- The values 7 and 8 fill the queue from cell 1, and a sender at 30 waits with 9 in slot 1.
abbrev full_queue : QueueWorld ℕ
full_queue = record {
  queue = record {
    cells = λ i. if i == 0 then some 8 else if i == 1 then some 7 else none;
    head = 1;
    count = 2;
    send = record {
      nodes = λ a.
          if a == 30
          then record { payload = 9; next = none; slot = some 1; linked = true }
          else new_awaiter 0;
      head = some 30;
      tail = some 30;
    };
    recv = record { nodes = λ _. new_awaiter none; head = none; tail = none };
  };
  world = busy_world;
}

full_queue-QueueInv : QueueInv 2 full_queue.queue (7 ∷ 8 ∷ []) (30 ∷ []) []
full_queue-QueueInv = record {
  ring = record {
    small = omega arith;
    inside = omega arith;
    counted = refl;
    bound = omega arith;
    holds = (refl, (refl, tt));
    free = λ j out. ground (arith, out 0, out 1);
  };
  senders = record { chain = (refl, refl); last = refl; member = λ i. ground arith };
  receivers = record { chain = refl; last = refl; member = λ i. refl };
  full_first = λ h. refl;
  empty_first = λ h. absurd (h refl);
  no_result = λ a h. refl;
}

-- A receiver at 40 waits in slot 1.
abbrev empty_queue : QueueWorld ℕ
empty_queue = record {
  queue = record {
    cells = λ _. none;
    head = 0;
    count = 0;
    send = record { nodes = λ _. new_awaiter 0; head = none; tail = none };
    recv = record {
      nodes = λ a.
          if a == 40
          then record { payload = none; next = none; slot = some 1; linked = true }
          else new_awaiter none;
      head = some 40;
      tail = some 40;
    };
  };
  world = busy_world;
}

empty_queue-QueueInv : QueueInv 2 empty_queue.queue [] [] (40 ∷ [])
empty_queue-QueueInv = record {
  ring = record {
    small = omega arith;
    inside = omega arith;
    counted = refl;
    bound = omega arith;
    holds = tt;
    free = λ j out. refl;
  };
  senders = record { chain = refl; last = refl; member = λ i. refl };
  receivers = record { chain = (refl, refl); last = refl; member = λ i. ground arith };
  full_first = λ h. absurd (h refl);
  empty_first = λ h. refl;
  no_result = λ a h. ground arith;
}

do_send-SendResult_example : SendResult 2 5 [] [] (40 ∷ []) empty_queue (do_send 2 5 empty_queue)
do_send-SendResult_example = do_send-SendResult 5 empty_queue-QueueInv

try_receive-ReceiveResult_example :
    ReceiveResult 2 none (7 ∷ 8 ∷ []) (30 ∷ []) [] full_queue (try_receive 2 none full_queue)
try_receive-ReceiveResult_example = try_receive-ReceiveResult none full_queue-QueueInv

send-SendCase_example :
    SendCase 2 31 6 10 (7 ∷ 8 ∷ []) (30 ∷ []) [] full_queue (send 2 31 6 10 full_queue)
send-SendCase_example = send-SendCase 31 6 10 full_queue-QueueInv refl

receive-ReceiveCase_example :
    ReceiveCase 2 41 10 [] [] (40 ∷ []) empty_queue (receive 2 41 10 empty_queue)
receive-ReceiveCase_example = receive-ReceiveCase 41 10 empty_queue-QueueInv refl

destroy_sender-QueueInv_example :
    QueueInv 2 (destroy_sender 3 30 full_queue.queue) (7 ∷ 8 ∷ []) (remove 30 (30 ∷ [])) []
    × QueueInv 2 (destroy_receiver 3 30 full_queue.queue) (7 ∷ 8 ∷ []) (30 ∷ []) []
    × (((destroy_receiver 3 30 full_queue.queue).recv.nodes 30).payload ≡ none)
destroy_sender-QueueInv_example =
    destroy_sender-QueueInv 3 30 full_queue-QueueInv (omega arith) (omega arith)

destroy_queue-Abandoned_example :
    let out = destroy_queue 3 2 full_queue in
    (out.queue.count ≡ 0)
    × ((j : ℕ) → out.queue.cells j ≡ none)
    × Abandoned (30 ∷ []) [] full_queue.world out.world
    × ((a : ℕ) → (out.queue.recv.nodes a).linked ≡ false)
    × ((a : ℕ) → destroy_sender 3 a out.queue ≡ out.queue)
destroy_queue-Abandoned_example =
    destroy_queue-Abandoned 3 full_queue full_queue-QueueInv (omega arith) (omega arith)

receive_all-held_example :
    receive_all 2 3 full_queue ≡ map some ((7 ∷ 8 ∷ []) ++ held full_queue.queue.send (30 ∷ []))
receive_all-held_example = receive_all-held full_queue full_queue-QueueInv

receive_await_resume-do_send_example :
    let (result, c') = receive_await_resume none 40 (do_send 2 5 empty_queue).1 in
    (result ≡ some 5)
    × (c'.world ≡ woken (empty_queue.queue.recv.nodes 40).slot empty_queue.world)
    × QueueInv 2 c'.queue [] [] []
receive_await_resume-do_send_example =
    receive_await_resume-do_send none 40 5 empty_queue empty_queue-QueueInv

-- A value is sent and received.
abbrev used_queue : QueueWorld ℕ
used_queue =
    (try_receive 2 none (do_send 2 5 (record { queue = new_queue 0; world = busy_world })).1).2

used_queue-Reachable : Reachable 2 0 used_queue
used_queue-Reachable = step (step (start busy_world) (tries_send 5)) (tries_receive none)

Reachable-Consistent_example : Consistent 2 used_queue.queue
Reachable-Consistent_example =
    Reachable-Consistent 2 0 (omega arith) (omega arith) used_queue-Reachable
