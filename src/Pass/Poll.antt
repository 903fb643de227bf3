-- ===== src/Pass/Poll.antt =====
-- A whole `poll` of scheduler.h: the signals, the due timers and the pass over the ready slots.
use mathlib.Core.List.{reverse}
use simple_await.Base.{
  ℕ, ◌≤◌, ◌≡◌, refl, sym, ◌∙◌, ap, subst, Bool, true, false, List, [], ◌++◌, count, bit, length,
  append_assoc, Bool-cases, inl, inr, if◌then◌else◌,
}
use simple_await.Error.{scheduler_reentry}
use simple_await.World.{World, Coroutines, on_error}
use simple_await.Scheduler.Fifo.{IsFifo}
use simple_await.Timers.{is_due, process_due_timers}
use simple_await.Timers.Due.{Ordered, Ordered-same, IsNearest, process_due_timers-WokeDue}
use simple_await.Flag.{poll_external_signals}
use simple_await.Flag.Arming.{Arming, poll_external_signals-Arming}
use simple_await.Invariant.{Inv, queues}
use simple_await.Invariant.Effects.{Grown}
use simple_await.Pass.{run_pass, run_poll_pass, poll}
use simple_await.Pass.Nearest.{run_pass-IsNearest}
use simple_await.Invariant.Active.{is_occupied, Counted}
use simple_await.Pass.Counts.{run_pass-Counted, process_due_timers-Counted, make_all_ready-Counted}
use simple_await.Pass.Contract.{Cooperative}
use simple_await.Pass.Run.{run_pass-Passed}
use simple_await.Pass.Signals.{
  signaled_slots, make_all_ready, wake_signaled_lem, Sleeping, Signaled, make_all_ready-Signaled,
  signaled_due, Signaled-IsNearest,
}

-- The slots that a poll wakes for the armed flags `l`.
abbrev pub signals : World → List ℕ → List ℕ
signals w l = if w.pending then signaled_slots w.flags l else []

-- The flags' part of a poll changes the scheduler by these wakeups only.
record FlagsPolled (n : ℕ) (w u : World) (l : List ℕ) : Type 0 where
  sched : u.sched ≡ make_all_ready (signals w l) w.sched
  queues_same : (e : ℕ) → queues u e ≡ queues w e
  resumed : u.resumed ≡ w.resumed

no_signal : (n : ℕ) (w : World) → w.pending ≡ false → poll_external_signals n w ≡ w
unfolding poll_external_signals
no_signal n w e = simp e refl

poll_flags :
    (n : ℕ) {w : World} {l : List ℕ}
    → Arming w l
    → length l ≤ n
    → FlagsPolled n w (poll_external_signals n w) l
poll_flags n {w} {l} a h = elim (Bool-cases w.pending) [
  | inl on ↦
      let k = (poll_external_signals-Arming n a h on).0 in
      let u = poll_external_signals n w in
      record {
        sched =
            k.sched
            ∙ wake_signaled_lem w.flags l w.sched
            ∙ ap (λ (b : Bool). make_all_ready (if b then signaled_slots w.flags l else []) w.sched)
                (sym on);
        queues_same = λ e. ap (λ (x : World). queues x e) k.rest;
        resumed = ap (λ (x : World). x.resumed) k.rest;
      }
  | inr off ↦
      let idle = no_signal n w off in
      record {
        sched =
            ap (λ (x : World). x.sched) idle
            ∙ ap (λ (b : Bool). make_all_ready (if b then signaled_slots w.flags l else []) w.sched)
                (sym off);
        queues_same = λ e. ap (λ (x : World). queues x e) idle;
        resumed = ap (λ (x : World). x.resumed) idle;
      }
]

-- The member writes of `run_poll_pass`.
abbrev pub entered : ℕ → World → World
entered clock w = record w { sched = record (w.sched) { in_poll = true; now = clock } }

abbrev pub left_poll : World → World
left_poll w = record w { sched = record (w.sched) { in_poll = false } }

entered-Inv :
    {n : ℕ} {w : World} {r : List ℕ} {ws : ℕ → List ℕ} (clock : ℕ)
    → Inv n w r ws
    → Inv n (entered clock w) r ws
entered-Inv clock v = record {
  fifo = record {
    limit = v.fifo.limit;
    fifo = v.fifo.fifo;
    member = v.fifo.member;
    counted = v.fifo.counted;
    beyond = v.fifo.beyond;
  };
  parked = record { fifo = v.parked.fifo; waiting = v.parked.waiting; apart = v.parked.apart };
}

left_poll-Grown : {n : ℕ} {w : World} {r : List ℕ} → Grown n w r → Grown n (left_poll w) r
left_poll-Grown g = record {
  extra = g.extra;
  ws = g.ws;
  inv = record {
    fifo = record {
      limit = g.inv.fifo.limit;
      fifo = g.inv.fifo.fifo;
      member = g.inv.fifo.member;
      counted = g.inv.fifo.counted;
      beyond = g.inv.fifo.beyond;
    };
    parked = record {
      fifo = g.inv.parked.fifo;
      waiting = g.inv.parked.waiting;
      apart = g.inv.parked.apart;
    };
  };
}

-- What a poll at the time `clock` does.
pub record Polled (n clock : ℕ) (w u : World) (r l : List ℕ) : Type 0 where
  pub due : List ℕ
  pub exactly : (i : ℕ) → count i due ≡ bit (is_due w.sched.slots clock i)
  pub ordered : Ordered w.sched.slots due
  pub resumed : u.resumed ≡ reverse (r ++ (signals w l ++ due)) ++ w.resumed
  pub grown : Grown n u []
  pub near : IsNearest u.sched
  pub counted : Counted n w.sched → Counted n u.sched
  pub closed : u.sched.in_poll ≡ false

-- The phases of a poll that is not refused.
abbrev signaled_world : ℕ → ℕ → World → World
signaled_world n clock w = poll_external_signals n (entered clock w)

abbrev timed_world : ℕ → ℕ → World → World
timed_world n clock w =
    let u = signaled_world n clock w in record u { sched = process_due_timers n u.sched }

-- A poll, by the two guards of `run_poll_pass`.
abbrev poll_by : ℕ → Coroutines → ℕ → World → Bool → Bool → World
poll_by n c clock w down busy =
    let o : Bool × World =
      if down
      then (false, w)
      else if busy
      then (false, on_error scheduler_reentry w)
      else (true, left_poll (run_pass c (timed_world n clock w))) in
    o.1

module _ (n : ℕ) (c : Coroutines) (clock : ℕ) (w : World) where
  guarded : poll c n clock w ≡ poll_by n c clock w w.sched.shutting_down w.sched.in_poll
  unfolding poll run_poll_pass
  guarded = refl

  pub phases :
      w.sched.shutting_down ≡ false
      → w.sched.in_poll ≡ false
      → poll c n clock w ≡ left_poll (run_pass c (timed_world n clock w))
  phases up idle =
      guarded
      ∙ ap (λ (down : Bool). poll_by n c clock w down w.sched.in_poll) up
      ∙ ap (poll_by n c clock w false) idle

  pub refused_poll : w.sched.shutting_down ≡ true → poll c n clock w ≡ w
  refused_poll e = guarded ∙ ap (λ (down : Bool). poll_by n c clock w down w.sched.in_poll) e

  pub reentered_poll :
      w.sched.shutting_down ≡ false
      → w.sched.in_poll ≡ true
      → poll c n clock w ≡ on_error scheduler_reentry w
  reentered_poll up busy =
      guarded
      ∙ ap (λ (down : Bool). poll_by n c clock w down w.sched.in_poll) up
      ∙ ap (poll_by n c clock w false) busy

module _ (n : ℕ) (c : Coroutines) (clock : ℕ) (w : World) (r l : List ℕ) (ws : ℕ → List ℕ)
    (v : Inv n w r ws) (a : Arming w l) (h : length l ≤ n)
    (k : Sleeping w.sched ws (signals w l)) where
  world-Signaled :
      FlagsPolled n (entered clock w) (signaled_world n clock w) l
      × Signaled n
          (entered clock w).sched
          r
          (queues w)
          ws
          (signals w l)
          (signaled_world n clock w).sched
  world-Signaled =
      let f =
        poll_flags n {w = entered clock w} (record { linked = a.linked; member = a.member }) h in
      let i = entered-Inv clock v in
      let k' : Sleeping (entered clock w).sched ws (signals w l) = record {
        distinct = k.distinct;
        waiting = k.waiting;
        unparked = k.unparked;
      } in
      (
        f,
        subst (Signaled n (entered clock w).sched r (queues w) ws (signals w l)) (sym f.sched)
            (make_all_ready-Signaled (signals w l) i.fifo i.parked k'),
      )

  polled :
      Cooperative n c
      → IsNearest w.sched
      → Polled n clock w (left_poll (run_pass c (timed_world n clock w))) r l
  polled coop near =
      let (f, g) = world-Signaled in
      let u = signaled_world n clock w in
      let (d, near_due) =
        process_due_timers-WokeDue g.fifo g.parked (Signaled-IsNearest g (λ i e. near i e)) in
      let rs = (r ++ signals w l) ++ d.due in
      let i : Inv n (timed_world n clock w) rs ws = record {
        fifo = d.fifo;
        parked = record {
          fifo = λ e.
              subst (λ x. IsFifo (process_due_timers n u.sched).slots x.head x.tail (ws e))
                (sym (f.queues_same e)) (d.parked.fifo e);
          waiting = d.parked.waiting;
          apart = d.parked.apart;
        };
      } in
      let ran = run_pass-Passed c rs coop i in
      record {
        due = d.due;
        exactly = λ j.
            d.exactly j
            ∙ ap bit (ap (λ (t : ℕ). is_due u.sched.slots t j) g.now ∙ signaled_due g clock j);
        ordered = Ordered-same u.sched.slots w.sched.slots d.due g.deadlines d.ordered;
        resumed =
            ran.resumed
            ∙ ap (λ (m : List ℕ). reverse rs ++ m) f.resumed
            ∙ ap (λ (m : List ℕ). reverse m ++ w.resumed) (append_assoc r (signals w l) d.due);
        grown = left_poll-Grown ran.grown;
        counted = λ m. run_pass-Counted c rs coop i (
            process_due_timers-Counted n u.sched (
              subst (Counted n) (sym f.sched) (
                make_all_ready-Counted n (signals w l) (entered clock w).sched
                  (λ j q. ap is_occupied (k.waiting j q)) m)));
        near = λ j. run_pass-IsNearest c coop (timed_world n clock w) near_due j;
        closed = refl;
      }

-- With user code that uses the scheduler through its operations only, outside a poll and a teardown, from
-- any state of the invariant with the ready FIFO `r`, in which the cached deadline is no later than any
-- timer's and the armed flags `l`, at most `n`, are those with a waiting slot, where the slots of the
-- signalled flags wait for no other flag and no event: one `poll` at the time `clock` resumes
-- exactly the slots of `r`, then those of the signalled flags, and then those whose deadline has come, in the
-- order of the deadlines; the invariant and the bound by the cached deadline hold again,
-- `active_count_` is again the number of slots that hold a task if it was, and no poll is under way.
pub poll-Polled :
    {n : ℕ} (c : Coroutines) (clock : ℕ) {w : World} {r l : List ℕ} {ws : ℕ → List ℕ}
    → Cooperative n c
    → Inv n w r ws
    → IsNearest w.sched
    → Arming w l
    → length l ≤ n
    → Sleeping w.sched ws (signals w l)
    → w.sched.shutting_down ≡ false
    → w.sched.in_poll ≡ false
    → Polled n clock w (poll c n clock w) r l
poll-Polled {n} c clock {w} {r} {l} {ws} coop v near a h k up idle =
    subst (λ u. Polled n clock w u r l) (sym (phases n c clock w up idle))
      (polled n c clock w r l ws v a h k coop near)
