-- ===== src/Pass/Slot.antt =====
-- One round of the loop of `run_pass` in scheduler.h keeps the invariant.
use simple_await.Base.{
  ℕ, ◌≡◌, refl, ◌∙◌, true, false, Option, none, some, List, [], ◌∷◌, arith, Bool-cases, update, inl,
  inr,
}
use simple_await.World.{
  running, suspended, completed, is_running, is_waiting_child, World, Coroutines, destroy,
  set_state, decrement,
}
use simple_await.Scheduler.Ready.{begin_run, make_ready-ReadyFifo, in_range}
use simple_await.Pass.{resume_slot, retire_slot, wake_parent, complete_slot, run_slot, is_done}
use simple_await.Invariant.{Inv}
use simple_await.Invariant.Wake.{make_ready-Parked}
use simple_await.Invariant.Effects.{Effects, Grown, Grown-same, Grown-trans}
use simple_await.Invariant.Suspend.{idle_change}
use simple_await.Pass.Contract.{stopped}
use simple_await.Pass.Body.{destroyed-Grown}

-- The world in which slot `x` starts to run.
abbrev pub begun : ℕ → World → World
begun x w = record w { sched = begin_run x w.sched; resumed = x ∷ w.resumed }

pub stopped-Inv :
    {n : ℕ} {u : World} {r : List ℕ} {ws : ℕ → List ℕ} → Inv n u r ws → Inv n (stopped u) r ws
stopped-Inv v = record {
  fifo = record {
    limit = v.fifo.limit;
    fifo = v.fifo.fifo;
    member = v.fifo.member;
    counted = v.fifo.counted;
    beyond = v.fifo.beyond;
  };
  parked = record { fifo = v.parked.fifo; waiting = v.parked.waiting; apart = v.parked.apart };
}

pub stopped-Grown : {n : ℕ} {u : World} {r : List ℕ} → Grown n u r → Grown n (stopped u) r
stopped-Grown g = record { extra = g.extra; ws = g.ws; inv = stopped-Inv g.inv }

pub resume_slot-some :
    (c : Coroutines) (x frame : ℕ) (w : World)
    → (w.sched.slots x).handle ≡ some frame
    → resume_slot c x w ≡ stopped (c.resume frame (begun x w))
unfolding resume_slot
resume_slot-some c x frame w h = ground (arith, h)

pub resume_slot-none :
    (c : Coroutines) (x : ℕ) (w : World)
    → (w.sched.slots x).handle ≡ none
    → resume_slot c x w ≡ stopped (begun x w)
unfolding resume_slot
resume_slot-none c x w h = ground (arith, h)

-- The three ends of a round, by what the slot looks like after the resumption.
module _ (c : Coroutines) (x : ℕ) (w : World) where
  abbrev after : World
  after = resume_slot c x w

  pub run_slot-done :
      is_done c (after.sched.slots x).handle after ≡ true → run_slot c x w ≡ complete_slot c x after
  unfolding run_slot
  run_slot-done h = simp h

  pub run_slot-bare :
      is_done c (after.sched.slots x).handle after ≡ false
      → is_running (after.sched.slots x).state ≡ true
      → run_slot c x w ≡ record after {
        sched = record (after.sched) { slots = set_state after.sched.slots x suspended };
      }
  unfolding run_slot
  run_slot-bare h k = simp (h, k)

  pub run_slot-waits :
      is_done c (after.sched.slots x).handle after ≡ false
      → is_running (after.sched.slots x).state ≡ false
      → run_slot c x w ≡ after
  unfolding run_slot
  run_slot-waits h k = simp (h, k)

-- The world after the frame of slot `x` is destroyed and the slot is marked completed.
abbrev pub finished : Coroutines → ℕ → ℕ → World → World
finished c frame x u =
    let released = destroy c frame u in
    let s = released.sched in
    record released {
      sched = record s {
        slots =
            update s.slots x
              (record (s.slots x) { handle = none; parent = none; state = completed });
        active_count = decrement s.active_count;
      };
    }

pub retire_slot_lem :
    (c : Coroutines) (x frame : ℕ) (u : World)
    → (u.sched.slots x).handle ≡ some frame
    → retire_slot c x u ≡ finished c frame x u
unfolding retire_slot
retire_slot_lem c x frame u h = ground (arith, h)

module _ {n : ℕ} {u : World} {r : List ℕ} {ws : ℕ → List ℕ} (c : Coroutines) (frame : ℕ) (x : ℕ)
    (releases : (f : ℕ) (k : World) → Effects n k (c.release f k)) (v : Inv n u r ws)
    (active : (u.sched.slots x).state ≡ running) where
  -- Completion keeps the invariant.
  finished-Grown : Grown n (finished c frame x u) r
  finished-Grown =
      let (g, k) = destroyed-Grown c frame releases v active in
      let (f, p) =
        idle_change g.inv.fifo g.inv.parked x k.state (finished c frame x u).sched refl refl refl
          (λ i h. ground arith) (ground arith) in
      Grown-trans g.extra (Grown-same (record { fifo = f; parked = p }))

  finished-resumed : (finished c frame x u).resumed ≡ u.resumed
  finished-resumed = (destroyed-Grown c frame releases v active).1.resumed

wake_parent-Grown :
    {n : ℕ} {f : World} {r : List ℕ} (parent : Option ℕ)
    → Grown n f r
    → Grown n (wake_parent parent f) r
unfolding wake_parent
wake_parent-Grown none g = g
wake_parent-Grown {n} {f} {r} (some p) g =
    elim (Bool-cases (is_waiting_child (f.sched.slots p).state)) [
      | inl h ↦ simp h (
          Grown-trans g.extra (record {
            extra = p ∷ [];
            ws = g.ws;
            inv = record {
              fifo =
                  make_ready-ReadyFifo g.inv.fifo p (in_range g.inv.fifo p (λ k. ground arith))
                    (ground arith);
              parked =
                  make_ready-Parked g.inv.fifo g.inv.parked p
                    (λ e. ground (arith, g.inv.parked.waiting e p));
            };
          }))
      | inr h ↦ simp h g
    ]

wake_parent-resumed : (parent : Option ℕ) (f : World) → (wake_parent parent f).resumed ≡ f.resumed
unfolding wake_parent
wake_parent-resumed none f = refl
wake_parent-resumed (some p) f = ground arith

module _ {n : ℕ} {u : World} {r : List ℕ} {ws : ℕ → List ℕ} (c : Coroutines) (frame x : ℕ)
    (releases : (f : ℕ) (k : World) → Effects n k (c.release f k)) (v : Inv n u r ws)
    (active : (u.sched.slots x).state ≡ running) (h : (u.sched.slots x).handle ≡ some frame) where
  pub complete_slot-Grown :
      Grown n (complete_slot c x u) r × ((complete_slot c x u).resumed ≡ u.resumed)
  unfolding complete_slot
  complete_slot-Grown = rw (retire_slot_lem c x frame u h) (
    wake_parent-Grown _ (finished-Grown c frame x releases v active),
    wake_parent-resumed _ (finished c frame x u) ∙ finished-resumed c frame x releases v active,
  )

-- What one round does: it resumes the slot once, keeps the invariant, and only appends to the FIFO.
pub record Round (n x : ℕ) (w u : World) (r : List ℕ) : Type 0 where
  pub grown : Grown n u r
  pub resumed : u.resumed ≡ x ∷ w.resumed
