-- ===== src/Timers/Due.antt =====
-- `process_due_timers` of scheduler.h wakes every due timer, in the order of the deadlines, and
-- nothing else.
use simple_await.Base.{
  ℕ, zero, suc, ◌+◌, ◌≤◌, ◌<◌, ◌≡◌, ◌≢◌, refl, sym, ◌∙◌, true, false, none, some, List, [], ◌∷◌,
  ◌++◌, arith, count, bit, subst, tally, tally-le, tally_change, append-nil, append_assoc, ◌&&◌,
  if◌then◌else◌, ltb, ◌==◌, Bool-cases, inl, inr,
}
use native.Mathlib.Decide.{ℕ_discrete, dec_lt}
use simple_await.World.{Slots, Scheduler, WaitQueue, ready, waiting_timer, is_waiting_timer}
use simple_await.Scheduler.{make_ready}
use simple_await.Scheduler.Ready.{
  ReadyFifo, ready_push_rest, ready_push_members, make_ready-ReadyFifo,
}
use simple_await.Time.{uint64_max}
use simple_await.Invariant.{Parked}
use simple_await.Invariant.Wake.{make_ready-Parked}
use simple_await.Timers.{
  nearest_from, is_due, soonest_from, wake_due, recompute_nearest_deadline, process_due_timers,
}
use simple_await.Timers.Soonest.{Before, Soonest, soonest_from-Soonest}

-- Each slot of the list comes before all later ones.
abbrev pub Ordered : Slots → List ℕ → Type 0
Ordered slots [] = Unit {0}
Ordered slots (x ∷ w) = ((y : ℕ) → count y w ≢ 0 → Before slots x y) × Ordered slots w

pub Ordered-same :
    (a b : Slots) (w : List ℕ)
    → ((i : ℕ) → (a i).deadline_us ≡ (b i).deadline_us)
    → Ordered a w
    → Ordered b w
Ordered-same a b [] h o = tt
Ordered-same a b (x ∷ w) h o =
    ((λ y m. ground (arith, o.0 y m, h x, h y)), Ordered-same a b w h o.1)

-- The slots that were due are ready, behind those that were ready before, in the order in which
-- they were due.
pub record WokeDue (n : ℕ) (s : Scheduler) (r : List ℕ) (q : ℕ → WaitQueue) (ws : ℕ → List ℕ)
    (t : Scheduler) : Type 0 where
  pub due : List ℕ
  pub fifo : ReadyFifo n t (r ++ due)
  pub parked : Parked t q ws
  pub exactly : (i : ℕ) → count i due ≡ bit (is_due s.slots s.now i)
  pub ordered : Ordered s.slots due
  pub others : (i : ℕ) → is_due s.slots s.now i ≡ false → (t.slots i).state ≡ (s.slots i).state

-- One round of the outer loop.
module _ (x : ℕ) (s : Scheduler) where
  round_deadline : (i : ℕ) → ((make_ready x s).slots i).deadline_us ≡ (s.slots i).deadline_us
  unfolding make_ready
  round_deadline i = (ready_push_rest x _ i).3 ∙ ground arith

  round_state :
      (i : ℕ) → ((make_ready x s).slots i).state ≡ (if i == x then ready else (s.slots i).state)
  unfolding make_ready
  round_state i = (ready_push_rest x _ i).0 ∙ ground arith

  round_now : (make_ready x s).now ≡ s.now
  unfolding make_ready
  round_now = (ready_push_members x _).6

  round_due :
      (i : ℕ)
      → is_due (make_ready x s).slots (make_ready x s).now i
        ≡ (if i == x then false else is_due s.slots s.now i)
  unfolding is_due
  round_due i = rw (round_state i, round_deadline i, round_now) (ground arith)

module _ {n : ℕ} {s : Scheduler} {r : List ℕ} {q : ℕ → WaitQueue} {ws : ℕ → List ℕ}
    (v : ReadyFifo n s r) (p : Parked s q ws) where
  due-lt : (i : ℕ) → is_due s.slots s.now i ≡ true → i < n
  unfolding is_due
  due-lt i h = elim (dec_lt i n) [ yes l ↦ l | no g ↦ absurd (ground (arith, v.beyond i)) ]

  due-timer : (i : ℕ) → is_due s.slots s.now i ≡ true → (s.slots i).state ≡ waiting_timer
  unfolding is_due
  due-timer i h = ground arith

  none_due : ((j : ℕ) → j < n → is_due s.slots s.now j ≡ false) → WokeDue n s r q ws s
  none_due h = record {
    due = [];
    fifo = subst (ReadyFifo n s) (sym (append-nil r)) v;
    parked = p;
    exactly = λ i. elim (Bool-cases (is_due s.slots s.now i)) [
      | inl d ↦ absurd (ground (arith, h i (due-lt i d)))
      | inr d ↦ rw d
    ];
    ordered = tt;
    others = λ i d. refl;
  }

  one_round : (x : ℕ) → is_due s.slots s.now x ≡ true → ReadyFifo n (make_ready x s) (r ++ x ∷ [])
  one_round x d = make_ready-ReadyFifo v x (due-lt x d) (rw (due-timer x d))

  one_round-Parked : (x : ℕ) → is_due s.slots s.now x ≡ true → Parked (make_ready x s) q ws
  one_round-Parked x d = make_ready-Parked v p x (λ e. ground (arith, p.waiting e x, due-timer x d))

  -- Each round leaves one due timer less.
  fewer :
      (x : ℕ)
      → is_due s.slots s.now x ≡ true
      → tally n (is_due (make_ready x s).slots (make_ready x s).now) + 1
        ≡ tally n (is_due s.slots s.now)
  fewer x d = ground (
    arith,
    round_due x s x,
    tally_change n x (is_due s.slots s.now) (is_due (make_ready x s).slots (make_ready x s).now)
        (due-lt x d) (λ i ne. ground (arith, round_due x s i)),
  )

  and_then :
      (x : ℕ) {t : Scheduler}
      → is_due s.slots s.now x ≡ true
      → ((j : ℕ) → j < n → is_due s.slots s.now j ≡ true → j ≢ x → Before s.slots x j)
      → WokeDue n (make_ready x s) (r ++ x ∷ []) q ws t
      → WokeDue n s r q ws t
  and_then x {t} d first k = record {
    due = x ∷ k.due;
    fifo = subst (ReadyFifo n t) (append_assoc r (x ∷ []) k.due) k.fifo;
    parked = k.parked;
    exactly = λ i. ground (arith, k.exactly i, round_due x s i, d);
    ordered = (
      (λ y m. let w = later y m in first y (due-lt y w.0) w.0 w.1),
      Ordered-same (make_ready x s).slots s.slots k.due (round_deadline x s) k.ordered,
    );
    others = λ i e. ground (arith, k.others i, round_due x s i, round_state x s i, d);
  }
    where
      later : (y : ℕ) → count y k.due ≢ 0 → (is_due s.slots s.now y ≡ true) × (y ≢ x)
      later y m = ground (arith, k.exactly y, round_due x s y)

wake_due-WokeDue :
    (fuel : ℕ) {n : ℕ} {s : Scheduler} {r : List ℕ} {q : ℕ → WaitQueue} {ws : ℕ → List ℕ}
    → ReadyFifo n s r
    → Parked s q ws
    → tally n (is_due s.slots s.now) < fuel
    → WokeDue n s r q ws (wake_due fuel n s)
unfolding wake_due
wake_due-WokeDue zero v p h = elim h [ ]
wake_due-WokeDue (suc fuel) {n} {s} {r} {q} {ws} v p h =
    (elim (soonest_from n 0 s.slots s.now none)
        as (λ o.
          Soonest n s.slots s.now o
          → WokeDue n s r q ws (elim o [ none ↦ s | some x ↦ wake_due fuel n (make_ready x s) ])) [
            | none ↦ λ f. none_due v p f
            | some x ↦ λ f. and_then v p x f.1 f.2 (
                wake_due-WokeDue fuel (one_round v p x f.1) (one_round-Parked v p x f.1)
                  (omega (arith, fewer v p x f.1)))
          ])
      (soonest_from-Soonest n s.slots s.now)

-- The cached deadline is no later than any timer's.
abbrev pub IsNearest : Scheduler → Type 0
IsNearest s =
    (i : ℕ) → (s.slots i).state ≡ waiting_timer → s.nearest_deadline ≤ (s.slots i).deadline_us

module _ (slots : Slots) where
  nearest_from-le :
      (k i m : ℕ)
      → (nearest_from k i slots m ≤ m)
        × ((j : ℕ)
            → i ≤ j
            → j < i + k
            → (slots j).state ≡ waiting_timer
            → nearest_from k i slots m ≤ (slots j).deadline_us)
  unfolding nearest_from
  nearest_from-le zero i m = (omega arith, λ j l u. absurd (omega arith))
  nearest_from-le (suc k) i m =
      let m' : ℕ =
        if is_waiting_timer (slots i).state && ltb (slots i).deadline_us m
        then (slots i).deadline_us
        else m in
      let rest = nearest_from-le k (suc i) m' in
      let smaller : m' ≤ m = ground arith in
      let own : (slots i).state ≡ waiting_timer → m' ≤ (slots i).deadline_us = λ g. ground arith in
      (
        omega (arith, rest.0, smaller),
        λ j l u e. elim (ℕ_discrete i j) [
          | yes same ↦
              subst
                (λ t.
                  (slots t).state ≡ waiting_timer
                  → nearest_from k (suc i) slots m' ≤ (slots t).deadline_us)
                same (λ g. omega (arith, rest.0, own g)) e
          | no other ↦ rest.1 j (omega arith) (omega arith) e
        ],
      )

due-le : (slots : Slots) (now i : ℕ) → is_due slots now i ≡ true → (slots i).deadline_us ≤ now
unfolding is_due
due-le slots now i h = ground arith

recomputed :
    {n : ℕ} {s t : Scheduler} {r : List ℕ} {q : ℕ → WaitQueue} {ws : ℕ → List ℕ}
    → WokeDue n s r q ws t
    → WokeDue n s r q ws (recompute_nearest_deadline n t)
unfolding recompute_nearest_deadline
recomputed k = record {
  due = k.due;
  fifo = record {
    limit = k.fifo.limit;
    fifo = k.fifo.fifo;
    member = k.fifo.member;
    counted = k.fifo.counted;
    beyond = k.fifo.beyond;
  };
  parked = record { fifo = k.parked.fifo; waiting = k.parked.waiting; apart = k.parked.apart };
  exactly = k.exactly;
  ordered = k.ordered;
  others = k.others;
}

recomputed-IsNearest :
    {n : ℕ} {t : Scheduler} {r : List ℕ}
    → ReadyFifo n t r
    → IsNearest (recompute_nearest_deadline n t)
unfolding recompute_nearest_deadline
recomputed-IsNearest {n} {t} v = λ i e. elim (dec_lt i n) [
  | yes l ↦ (nearest_from-le t.slots n 0 uint64_max).1 i (omega arith) (omega arith) e
  | no g ↦ absurd (ground (arith, v.beyond i))
]

-- From any state of the invariant in which the cached deadline is no later than any timer's,
-- `process_due_timers` appends to the ready FIFO exactly the slots whose deadline has come, in the
-- order of the deadlines and, among equals, of the slots; every other slot keeps its state, the
-- invariant holds again, and so does the bound of the cached deadline.
pub process_due_timers-WokeDue :
    {n : ℕ} {s : Scheduler} {r : List ℕ} {q : ℕ → WaitQueue} {ws : ℕ → List ℕ}
    → ReadyFifo n s r
    → Parked s q ws
    → IsNearest s
    → WokeDue n s r q ws (process_due_timers n s) × IsNearest (process_due_timers n s)
unfolding process_due_timers
process_due_timers-WokeDue {n} {s} v p near = elim (Bool-cases (ltb s.now s.nearest_deadline)) [
  | inl early ↦ rw early (none_due v p (λ j l. not_yet j early), near)
  | inr late ↦
      let k = wake_due-WokeDue (suc n) v p (omega (arith, tally-le n (is_due s.slots s.now))) in
      rw late (recomputed k, recomputed-IsNearest k.fifo)
]
  where
    not_yet : (j : ℕ) → ltb s.now s.nearest_deadline ≡ true → is_due s.slots s.now j ≡ false
    not_yet j early = elim (Bool-cases (is_due s.slots s.now j)) [
      | inl d ↦ absurd (ground (arith, near j (due-timer v p j d), due-le s.slots s.now j d))
      | inr idle ↦ idle
    ]
