-- ===== src/Pass/Signals.antt =====
-- The signalled flags of threadsafeflag.h in a pass of scheduler.h: their slots go behind the ready ones.
use simple_await.Base.{
  ℕ, ◌≡◌, ◌≢◌, refl, sym, ◌∙◌, ap, subst, Option, none, some, List, [], ◌∷◌, ◌++◌, arith, count,
  append-nil, append_assoc, Bool-cases, Option-cases, inl, inr, if◌then◌else◌, ◌==◌,
}
use simple_await.World.{ready, waiting_local, is_waiting_timer, Scheduler, WaitQueue}
use simple_await.Scheduler.{make_ready}
use simple_await.Scheduler.Fifo.{Distinct}
use simple_await.Scheduler.Ready.{
  ReadyFifo, make_ready-ReadyFifo, ready_push_rest, ready_push_members, in_range,
}
use simple_await.Waits.{wake_slot}
use simple_await.Timers.{is_due}
use simple_await.Timers.Due.{IsNearest}
use simple_await.Flag.Armed.{Flags, resolvable, wake_signaled}
use simple_await.Invariant.{Parked}
use simple_await.Invariant.Wake.{make_ready-Parked}

abbrev pub waiter_list : Option ℕ → List ℕ
waiter_list none = []
waiter_list (some y) = y ∷ []

-- The slots that wait for the signalled flags among `l`.
abbrev pub signaled_slots : Flags → List ℕ → List ℕ
signaled_slots flags [] = []
signaled_slots flags (f ∷ l) =
    if resolvable (flags f)
    then waiter_list (flags f).waiter ++ signaled_slots flags l
    else signaled_slots flags l

abbrev pub make_all_ready : List ℕ → Scheduler → Scheduler
make_all_ready [] s = s
make_all_ready (y ∷ ys) s = make_all_ready ys (make_ready y s)

pub wake_signaled_lem :
    (flags : Flags) (l : List ℕ) (s : Scheduler)
    → wake_signaled flags l s ≡ make_all_ready (signaled_slots flags l) s
unfolding wake_slot
wake_signaled_lem flags [] s = refl
wake_signaled_lem flags (f ∷ l) s = elim (Bool-cases (resolvable (flags f))) [
  | inr off ↦ rw off (wake_signaled_lem flags l s)
  | inl on ↦ elim (Option-cases (flags f).waiter) [
    | inl e ↦ absurd (ground (arith, on, e))
    | inr (y, e) ↦ rw on (rw e (wake_signaled_lem flags l (make_ready y s)))
  ]
]

-- The slots `ys` wait, each once, and for no event.
pub record Sleeping (s : Scheduler) (ws : ℕ → List ℕ) (ys : List ℕ) : Type 0 where
  pub distinct : Distinct ys
  pub waiting : (i : ℕ) → count i ys ≢ 0 → (s.slots i).state ≡ waiting_local
  pub unparked : (e i : ℕ) → count i ys ≢ 0 → count i (ws e) ≡ 0

-- The slots `ys` are ready behind `r`, and the timers are as they were.
pub record Signaled (n : ℕ) (s : Scheduler) (r : List ℕ) (q : ℕ → WaitQueue) (ws : ℕ → List ℕ)
    (ys : List ℕ) (t : Scheduler) : Type 0 where
  pub fifo : ReadyFifo n t (r ++ ys)
  pub parked : Parked t q ws
  pub timers : (i : ℕ) → is_waiting_timer (t.slots i).state ≡ is_waiting_timer (s.slots i).state
  pub deadlines : (i : ℕ) → (t.slots i).deadline_us ≡ (s.slots i).deadline_us
  pub now : t.now ≡ s.now
  pub nearest : t.nearest_deadline ≡ s.nearest_deadline

readied_state :
    (y i : ℕ) (s : Scheduler)
    → ((make_ready y s).slots i).state ≡ (if i == y then ready else (s.slots i).state)
unfolding make_ready
readied_state y i s = (ready_push_rest y _ i).0 ∙ ground arith

readied_rest :
    (y : ℕ) (s : Scheduler)
    → ((i : ℕ) → ((make_ready y s).slots i).deadline_us ≡ (s.slots i).deadline_us)
      × ((make_ready y s).now ≡ s.now)
      × ((make_ready y s).nearest_deadline ≡ s.nearest_deadline)
unfolding make_ready
readied_rest y s = (
  (λ i. (ready_push_rest y _ i).3 ∙ ground arith),
  (ready_push_members y _).6,
  (ready_push_members y _).7,
)

module _ {n : ℕ} {q : ℕ → WaitQueue} {ws : ℕ → List ℕ} where
  pub make_all_ready-Signaled :
      (ys : List ℕ) {s : Scheduler} {r : List ℕ}
      → ReadyFifo n s r
      → Parked s q ws
      → Sleeping s ws ys
      → Signaled n s r q ws ys (make_all_ready ys s)
  make_all_ready-Signaled [] {s} {r} v p k = record {
    fifo = subst (ReadyFifo n s) (sym (append-nil r)) v;
    parked = p;
    timers = λ i. refl;
    deadlines = λ i. refl;
    now = refl;
    nearest = refl;
  }
  make_all_ready-Signaled (y ∷ ys) {s} {r} v p k =
      let here = k.waiting y (ground arith) in
      let v' =
        make_ready-ReadyFifo v y (in_range v y (λ z. ground (arith, here)))
          (ground (arith, here)) in
      let p' = make_ready-Parked v p y (λ e. k.unparked e y (ground arith)) in
      let o = make_all_ready-Signaled ys v' p' (record {
        distinct = λ i. omega (arith, k.distinct i);
        waiting = λ i h. readied_state y i s ∙ ground (arith, k.waiting i, k.distinct i);
        unparked = λ e i h. k.unparked e i (omega (arith, h));
      }) in
      let rest = readied_rest y s in
      record {
        fifo = subst (ReadyFifo n (make_all_ready (y ∷ ys) s)) (append_assoc r (y ∷ []) ys) o.fifo;
        parked = o.parked;
        timers = λ i. o.timers i ∙ ap is_waiting_timer (readied_state y i s) ∙ ground (arith, here);
        deadlines = λ i. o.deadlines i ∙ rest.0 i;
        now = o.now ∙ rest.1;
        nearest = o.nearest ∙ rest.2;
      }

module _ {n : ℕ} {s : Scheduler} {r : List ℕ} {q : ℕ → WaitQueue} {ws : ℕ → List ℕ} {ys : List ℕ}
    {t : Scheduler} (k : Signaled n s r q ws ys t) where
  pub signaled_due : (now i : ℕ) → is_due t.slots now i ≡ is_due s.slots now i
  unfolding is_due
  signaled_due now i = rw (k.timers i, k.deadlines i) refl

  pub Signaled-IsNearest : IsNearest s → IsNearest t
  Signaled-IsNearest near i e = ground (arith, k.nearest, k.deadlines i, near i, k.timers i)
