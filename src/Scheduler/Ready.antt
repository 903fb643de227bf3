-- ===== src/Scheduler/Ready.antt =====
-- The ready FIFO of scheduler.h as a list of slots: `ready_push` appends, `ready_pop` takes the
-- oldest, and the counter is the length.
use simple_await.Base.{
  ℕ, ◌^◌, ◌<◌, ◌≤◌, ◌≡◌, ◌≢◌, refl, sym, ◌∙◌, ap, inl, inr, Bool, false, none, some, List, [], ◌∷◌,
  ◌++◌, arith, count, count-append, length, length-append, get_last?-append, Option-cases, bit,
  tally, tally-le, length-eq-tally,
}
use native.Mathlib.Decide.{ℕ_discrete, dec_lt}
use simple_await.World.{set_next, set_state, is_ready, free, ready, running, Scheduler, increment}
use simple_await.Scheduler.{ready_push, ready_pop, make_ready}
use simple_await.Scheduler.Fifo.{
  IsFifo, Distinct, Chain-frame, linked-Chain, popped_tail, get_last?-none,
}

-- The scheduler's ready FIFO holds exactly the slots in state `ready`, each once, in the order `r`,
-- `ready_count` is their number, and only slots below `n` are in use.
pub record ReadyFifo (n : ℕ) (s : Scheduler) (r : List ℕ) : Type 0 where
  pub limit : n ≤ 2 ^ 16
  pub fifo : IsFifo s.slots s.ready_head s.ready_tail r
  pub member : (i : ℕ) → count i r ≡ bit (is_ready (s.slots i).state)
  pub counted : s.ready_count ≡ length r
  pub beyond : (i : ℕ) → n ≤ i → (s.slots i).state ≡ free

-- What `ready_push` does to each slot, apart from its link.
pub ready_push_rest :
    (x : ℕ) (s : Scheduler) (i : ℕ)
    → let a = (ready_push x s).slots i in
      let b = s.slots i in
      (a.state ≡ b.state)
      × (a.handle ≡ b.handle)
      × (a.parent ≡ b.parent)
      × (a.deadline_us ≡ b.deadline_us)
      × (a.generation ≡ b.generation)
unfolding ready_push
ready_push_rest x s i = ground arith

-- The links of other slots change at the old tail only.
pub ready_push_next :
    (x : ℕ) (s : Scheduler) (i : ℕ)
    → i ≢ x
    → s.ready_tail ≢ some i
    → ((ready_push x s).slots i).next ≡ (s.slots i).next
unfolding ready_push
ready_push_next x s i h k = ground arith

pub ready_push_members :
    (x : ℕ) (s : Scheduler)
    → let t = ready_push x s in
      (t.ready_count ≡ increment s.ready_count)
      × (t.active_count ≡ s.active_count)
      × (t.peak_count ≡ s.peak_count)
      × (t.current ≡ s.current)
      × (t.in_poll ≡ s.in_poll)
      × (t.shutting_down ≡ s.shutting_down)
      × (t.now ≡ s.now)
      × (t.nearest_deadline ≡ s.nearest_deadline)
unfolding ready_push
ready_push_members x s = ground arith

-- `ready_push` of a slot outside the FIFO appends it.
ready_push-IsFifo :
    (x : ℕ) (s : Scheduler) (r : List ℕ)
    → Distinct r
    → count x r ≡ 0
    → IsFifo s.slots s.ready_head s.ready_tail r
    → let t = ready_push x s in IsFifo t.slots t.ready_head t.ready_tail (r ++ x ∷ [])
unfolding ready_push
ready_push-IsFifo x s r d out f = elim (Option-cases s.ready_tail) [
  | inl e ↦ rw (get_last?-none r (sym f.1 ∙ e), e, ready_push) ((refl, ground arith), refl)
  | inr (t, e) ↦
      rw (e, ready_push)
        (
          linked-Chain s.slots s.ready_head r x t d out (sym f.1 ∙ e) f.0,
          sym (get_last?-append r x),
        )
]

pub bit-le-one : (b : Bool) → bit b ≤ 1
bit-le-one b = ground arith

module _ {n : ℕ} {s : Scheduler} {r : List ℕ} (v : ReadyFifo n s r) where
  pub ready-Distinct : Distinct r
  ready-Distinct i = omega (arith, v.member i, bit-le-one (is_ready (s.slots i).state))

  pub not_ready : (i : ℕ) → n ≤ i → is_ready (s.slots i).state ≡ false
  not_ready i l = ap is_ready (v.beyond i l)

  pub length-tally : length r ≡ tally n (λ i. is_ready (s.slots i).state)
  length-tally = length-eq-tally n r (λ i. is_ready (s.slots i).state) v.member not_ready

  -- The counter is at most the number of slots, so it does not wrap.
  pub length-le : length r ≤ n
  length-le = omega (arith, length-tally, tally-le n (λ i. is_ready (s.slots i).state))

  -- A slot that is in use is one of the array.
  pub in_range : (x : ℕ) → (s.slots x).state ≢ free → x < n
  in_range x h = elim (dec_lt x n) [ yes l ↦ l | no g ↦ absurd (h (v.beyond x (omega arith))) ]

  -- A scheduler that differs only in links outside the FIFO, and in states that are not `ready`.
  pub ReadyFifo-frame :
      (t : Scheduler)
      → t.ready_head ≡ s.ready_head
      → t.ready_tail ≡ s.ready_tail
      → t.ready_count ≡ s.ready_count
      → ((i : ℕ) → count i r ≢ 0 → (t.slots i).next ≡ (s.slots i).next)
      → ((i : ℕ) → is_ready (t.slots i).state ≡ is_ready (s.slots i).state)
      → ((i : ℕ) → n ≤ i → (t.slots i).state ≡ free)
      → ReadyFifo n t r
  ReadyFifo-frame t head tail amount links states outside = record {
    limit = v.limit;
    fifo = (rw head (Chain-frame s.slots t.slots _ r links v.fifo.0), tail ∙ v.fifo.1);
    member = λ i. v.member i ∙ sym (ap bit (states i));
    counted = amount ∙ v.counted;
    beyond = outside;
  }

  -- Pushing a slot that has just been given the state `ready` appends it to the FIFO.
  pub ready_push-ReadyFifo :
      (x : ℕ) (t : Scheduler)
      → x < n
      → count x r ≡ 0
      → t.ready_head ≡ s.ready_head
      → t.ready_tail ≡ s.ready_tail
      → t.ready_count ≡ s.ready_count
      → ((i : ℕ) → count i r ≢ 0 → (t.slots i).next ≡ (s.slots i).next)
      → ((i : ℕ) → i ≢ x → (t.slots i).state ≡ (s.slots i).state)
      → (t.slots x).state ≡ ready
      → ReadyFifo n (ready_push x t) (r ++ x ∷ [])
  ready_push-ReadyFifo x t l out head tail amount links states now_ready = record {
    limit = v.limit;
    fifo =
        ready_push-IsFifo x t r ready-Distinct out
          (rw head (Chain-frame s.slots t.slots _ r links v.fifo.0), tail ∙ v.fifo.1);
    member = members;
    counted = omega (
      arith,
      length-append r (x ∷ []),
      (ready_push_members x t).0,
      v.counted,
      length-le,
      v.limit,
    );
    beyond = λ i k. (ready_push_rest x t i).0 ∙ states i (omega arith) ∙ v.beyond i k;
  }
    where
      members : (i : ℕ) → count i (r ++ x ∷ []) ≡ bit (is_ready ((ready_push x t).slots i).state)
      members i = elim (ℕ_discrete i x) [
        | yes e ↦
            rw (e, (ready_push_rest x t x).0, now_ready) (ground (arith, count-append x r (x ∷ [])))
        | no ne ↦
            rw ((ready_push_rest x t i).0, states i ne)
              (ground (arith, count-append i r (x ∷ []), v.member i))
      ]

  -- From a ready FIFO that holds exactly the ready slots: making a slot of the array ready that was not
  -- appends it to the FIFO, which again holds exactly the ready slots, each once, with
  -- `ready_count` their number.
  pub make_ready-ReadyFifo :
      (x : ℕ)
      → x < n
      → is_ready (s.slots x).state ≡ false
      → ReadyFifo n (make_ready x s) (r ++ x ∷ [])
  unfolding make_ready
  make_ready-ReadyFifo x l h =
      ready_push-ReadyFifo x (record s { slots = set_state s.slots x ready }) l
        (v.member x ∙ ap bit h) refl refl refl (λ i k. ground arith) (λ i k. ground arith)
        (ground arith)

-- `slot->state = State::running; current_ = slot;`
abbrev pub begin_run : ℕ → Scheduler → Scheduler
begin_run x s = record s { slots = set_state s.slots x running; current = some x }

-- From a ready FIFO that holds exactly the ready slots and is not empty: `ready_pop` returns the oldest
-- slot; with that slot marked running, the FIFO again holds exactly the ready slots.
pub ready_pop-ReadyFifo :
    {n : ℕ} {s : Scheduler} {x : ℕ} {r : List ℕ}
    → ReadyFifo n s (x ∷ r)
    → ((ready_pop s).0 ≡ some x) × ReadyFifo n (begin_run x (ready_pop s).1) r
unfolding ready_pop
ready_pop-ReadyFifo {n} {s} {x} {r} v =
    rw (v.fifo.0.0, ready_pop)
      (
        refl,
        record {
          limit = v.limit;
          fifo = (
            Chain-frame s.slots (set_state (set_next s.slots x none) x running) _ r
                (λ i h. ground (arith, ready-Distinct v x)) v.fifo.0.1,
            popped_tail s.slots _ s.ready_tail x r v.fifo.0.1 v.fifo.1,
          );
          member = λ i. ground (arith, v.member i, ready-Distinct v i, ready-Distinct v x);
          counted = ground (arith, v.counted, length-le v, v.limit);
          beyond = λ i k. ground (arith, v.beyond i k, v.member x, v.beyond x);
        },
      )
