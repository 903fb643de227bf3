-- ===== src/Invariant/Wake.antt =====
-- Pushing a slot onto the ready FIFO keeps the events' FIFOs, and `wake_all` of scheduler.h moves a
-- whole waiter FIFO, in order, behind the ready slots.
use simple_await.Base.{
  ℕ, zero, suc, ◌<◌, ◌≡◌, ◌≢◌, refl, sym, ◌∙◌, ap, false, Option, none, some, List, [], ◌∷◌, ◌++◌,
  arith, count, length, append-nil, append_assoc, if◌then◌else◌, ◌==◌,
}
use simple_await.World.{
  Slots, ready, waiting_local, is_ready, is_waiting_local, WaitQueue, Scheduler, set_next,
  set_state,
}
use simple_await.Scheduler.{ready_push, make_ready, pop_front}
use simple_await.Scheduler.Fifo.{IsFifo, Distinct, Chain-frame, popped_tail}
use simple_await.Scheduler.Ready.{
  ReadyFifo, ready_push_rest, ready_push_next, ready_push_members, make_ready-ReadyFifo, in_range,
  ReadyFifo-frame,
}
use native.Mathlib.Decide.{ℕ_discrete}
use simple_await.Waits.{wake_all}
use simple_await.Invariant.{Parked, Parked-frame, waits_locally, tail-ready}

module _ {n : ℕ} {s : Scheduler} {r : List ℕ} {q : ℕ → WaitQueue} {ws : ℕ → List ℕ}
    (v : ReadyFifo n s r) (p : Parked s q ws) where
  -- A slot in an event's FIFO is not the last of the ready FIFO.
  pub not_tail : (e i : ℕ) → count i (ws e) ≢ 0 → s.ready_tail ≢ some i
  not_tail e i h k = ground (arith, waits_locally p e i h, tail-ready v i k)

  -- A push after a change of the pushed slot only.
  pub ready_push-Parked :
      (x : ℕ) (t : Scheduler)
      → t.ready_tail ≡ s.ready_tail
      → ((i : ℕ) → i ≢ x → t.slots i ≡ s.slots i)
      → ((e : ℕ) → count x (ws e) ≡ 0)
      → Parked (ready_push x t) q ws
  ready_push-Parked x t tail same out = Parked-frame (ready_push x t) p λ e i h.
      let ne : i ≢ x = λ k. ground (arith, out e) in
      (
        ready_push_next x t i ne (λ k. not_tail e i h (sym tail ∙ k))
            ∙ ap (λ a. a.next) (same i ne),
        ap is_waiting_local ((ready_push_rest x t i).0 ∙ ap (λ a. a.state) (same i ne))
            ∙ waits_locally p e i h,
      )

  pub make_ready-Parked : (x : ℕ) → ((e : ℕ) → count x (ws e) ≡ 0) → Parked (make_ready x s) q ws
  unfolding make_ready
  make_ready-Parked x out =
      ready_push-Parked x (record s { slots = set_state s.slots x ready }) refl
        (λ i h. ground arith) out

-- What waking the slots `w` leaves as it was.
pub record Woken (s t : Scheduler) (w : List ℕ) : Type 0 where
  pub state_in : (i : ℕ) → count i w ≢ 0 → (t.slots i).state ≡ ready
  pub state_out : (i : ℕ) → count i w ≡ 0 → (t.slots i).state ≡ (s.slots i).state
  pub next_out :
      (i : ℕ)
      → count i w ≡ 0
      → is_ready (s.slots i).state ≡ false
      → (t.slots i).next ≡ (s.slots i).next
  pub handle : (i : ℕ) → (t.slots i).handle ≡ (s.slots i).handle
  pub parent : (i : ℕ) → (t.slots i).parent ≡ (s.slots i).parent
  pub current : t.current ≡ s.current

Woken-nil : (s : Scheduler) → Woken s s []
Woken-nil s = record {
  state_in = λ i h. absurd (h refl);
  state_out = λ i h. refl;
  next_out = λ i h k. refl;
  handle = λ i. refl;
  parent = λ i. refl;
  current = refl;
}

-- One round of the loop of `wake_all`.
abbrev pub wake_one : ℕ → Scheduler → Scheduler
wake_one x s = make_ready x (record s { slots = set_next s.slots x none })

module _ {n : ℕ} {s : Scheduler} {r : List ℕ} (v : ReadyFifo n s r) where
  unlinked-ReadyFifo :
      (x : ℕ)
      → is_ready (s.slots x).state ≡ false
      → ReadyFifo n (record s { slots = set_next s.slots x none }) r
  unlinked-ReadyFifo x h =
      ReadyFifo-frame v (record s { slots = set_next s.slots x none }) refl refl refl
        (λ i k. ground (arith, v.member i)) (λ i. ground arith)
        (λ i k. ground (arith, v.beyond i k))

  wake_one-ReadyFifo :
      (x : ℕ) → (s.slots x).state ≡ waiting_local → ReadyFifo n (wake_one x s) (r ++ x ∷ [])
  wake_one-ReadyFifo x h =
      make_ready-ReadyFifo (unlinked-ReadyFifo x (rw h)) x (in_range v x (λ k. ground arith))
        (ground arith)

  wake_one-next :
      (x i : ℕ)
      → i ≢ x
      → is_ready (s.slots i).state ≡ false
      → ((wake_one x s).slots i).next ≡ (s.slots i).next
  unfolding make_ready
  wake_one-next x i ne h =
      ready_push_next x _ i ne (λ k. ground (arith, tail-ready v i k)) ∙ ground arith

wake_one-state :
    (x i : ℕ) (s : Scheduler)
    → ((wake_one x s).slots i).state ≡ (if i == x then ready else (s.slots i).state)
unfolding make_ready
wake_one-state x i s = (ready_push_rest x _ i).0 ∙ ground arith

wake_one-rest :
    (x : ℕ) (s : Scheduler)
    → ((i : ℕ)
        → (((wake_one x s).slots i).handle ≡ (s.slots i).handle)
          × (((wake_one x s).slots i).parent ≡ (s.slots i).parent))
      × ((wake_one x s).current ≡ s.current)
unfolding make_ready
wake_one-rest x s = (
  (λ i.
      (let a =
          ready_push_rest x (record s { slots = set_state (set_next s.slots x none) x ready }) i in
        (a.1 ∙ ground arith, a.2 ∙ ground arith))),
  (ready_push_members x _).3,
)

-- A waiter FIFO of distinct waiting slots.
pub record WaitList (s : Scheduler) (q : WaitQueue) (w : List ℕ) : Type 0 where
  pub fifo : IsFifo s.slots q.head q.tail w
  pub distinct : Distinct w
  pub waiting : (i : ℕ) → count i w ≢ 0 → (s.slots i).state ≡ waiting_local

-- What the loop of `wake_all` does, from any point of it.
pub record WokeAll (n : ℕ) (s : Scheduler) (r w : List ℕ) (out : WaitQueue × Scheduler)
    : Type 0 where
  pub fifo : ReadyFifo n out.1 (r ++ w)
  pub head : out.0.head ≡ none
  pub tail : out.0.tail ≡ none
  pub woken : Woken s out.1 w

rest_list :
    {n : ℕ} {s : Scheduler} {r : List ℕ} (q : WaitQueue) (x : ℕ) (w : List ℕ)
    → ReadyFifo n s r
    → WaitList s q (x ∷ w)
    → WaitList
        (wake_one x s)
        (record {
          head = (s.slots x).next;
          tail = elim ((s.slots x).next) [ none ↦ none | some _ ↦ q.tail ];
        })
        w
rest_list {s} q x w v l = record {
  fifo = (
    Chain-frame s.slots (wake_one x s).slots _ w
        (λ i h. wake_one-next v x i (other i h) (ground (arith, l.waiting i))) l.fifo.0.1,
    popped_tail s.slots _ q.tail x w l.fifo.0.1 l.fifo.1,
  );
  distinct = λ i. omega (arith, l.distinct i);
  waiting = λ i h. ground (arith, wake_one-state x i s, other i h, l.waiting i);
}
  where
    other : (i : ℕ) → count i w ≢ 0 → i ≢ x
    other i h e = ground (arith, l.distinct x)

Woken-cons :
    {n : ℕ} {s t : Scheduler} {r : List ℕ} (x : ℕ) (w : List ℕ)
    → ReadyFifo n s r
    → Distinct (x ∷ w)
    → Woken (wake_one x s) t w
    → Woken s t (x ∷ w)
Woken-cons {s} {t} x w v d k = record {
  state_in = λ i h. elim (ℕ_discrete (count i w) 0) [
    | yes z ↦ k.state_out i z ∙ wake_one-state x i s ∙ ground arith
    | no nz ↦ k.state_in i nz
  ];
  state_out = λ i h. k.state_out i (omega arith) ∙ wake_one-state x i s ∙ ground arith;
  next_out = λ i h g.
      k.next_out i (omega arith) (ground (arith, wake_one-state x i s))
      ∙ wake_one-next v x i (ground arith) g;
  handle = λ i. k.handle i ∙ ((wake_one-rest x s).0 i).0;
  parent = λ i. k.parent i ∙ ((wake_one-rest x s).0 i).1;
  current = k.current ∙ (wake_one-rest x s).1;
}

pub wake_all-empty :
    (fuel : ℕ) (q : WaitQueue) (s : Scheduler) → q.head ≡ none → wake_all (suc fuel) q s ≡ (q, s)
unfolding wake_all pop_front
wake_all-empty fuel q s e = ground arith

-- The FIFO after its first slot is popped.
abbrev pub popped : Slots → WaitQueue → ℕ → WaitQueue
popped slots q x = record {
  head = (slots x).next;
  tail = elim ((slots x).next) [ none ↦ none | some _ ↦ q.tail ];
}

pop_front-some :
    (slots : Slots) (q : WaitQueue) (x : ℕ)
    → q.head ≡ some x
    → pop_front slots q ≡ (some x, set_next slots x none, popped slots q x)
unfolding pop_front
pop_front-some slots q x e = rw (e, pop_front)

pub wake_all_step :
    (fuel : ℕ) (q : WaitQueue) (s : Scheduler) (x : ℕ)
    → q.head ≡ some x
    → wake_all (suc fuel) q s ≡ wake_all fuel (popped s.slots q x) (wake_one x s)
unfolding wake_all
wake_all_step fuel q s x e =
    let p = pop_front-some s.slots q x e in
    rw (p, wake_all)
      (ap
        (λ (o : Option ℕ × Slots × WaitQueue).
          wake_all fuel o.2 (make_ready x (record s { slots = o.1 })))
        p)

WokeAll-cons :
    {n : ℕ} {s : Scheduler} {r : List ℕ} {out : WaitQueue × Scheduler} (x : ℕ) (w : List ℕ)
    → ReadyFifo n s r
    → Distinct (x ∷ w)
    → WokeAll n (wake_one x s) (r ++ x ∷ []) w out
    → WokeAll n s r (x ∷ w) out
WokeAll-cons {r = r} x w v d rest = record {
  fifo = rw (← append_assoc r (x ∷ []) w) rest.fifo;
  head = rest.head;
  tail = rest.tail;
  woken = Woken-cons x w v d rest.woken;
}

-- From a ready FIFO that holds exactly the ready slots, and a FIFO of distinct waiting slots: with one
-- round more than there are waiters, `wake_all` appends all of them to the ready FIFO in their
-- order, leaves the waiter FIFO empty, and changes no other slot's state.
pub wake_all-WokeAll :
    (fuel : ℕ) {n : ℕ} {s : Scheduler} {r : List ℕ} (q : WaitQueue) (w : List ℕ)
    → ReadyFifo n s r
    → WaitList s q w
    → length w < fuel
    → WokeAll n s r w (wake_all fuel q s)
wake_all-WokeAll zero q w v l h = elim h [ ]
wake_all-WokeAll (suc fuel) {n} {s} {r} q [] v l h =
    rw (wake_all-empty fuel q s l.fifo.0)
      (record { fifo = rw append-nil v; head = l.fifo.0; tail = l.fifo.1; woken = Woken-nil s })
wake_all-WokeAll (suc fuel) {n} {s} {r} q (x ∷ w) v l h = rw (wake_all_step fuel q s x l.fifo.0.0) (
    WokeAll-cons x w v l.distinct (
      wake_all-WokeAll fuel _ w (wake_one-ReadyFifo v x (l.waiting x (ground arith)))
        (rest_list q x w v l) (omega arith)))
