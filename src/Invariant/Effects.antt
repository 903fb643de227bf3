-- ===== src/Invariant/Effects.antt =====
-- What the body of a coroutine does to the world between two suspensions, and that it keeps the
-- invariant and only appends to the ready FIFO.
use simple_await.Base.{
  ℕ, ◌≡◌, ◌≢◌, refl, sym, ◌∙◌, ap, Option, none, some, List, [], ◌∷◌, ◌++◌, arith, count,
  append-nil, append_assoc, update, subst,
}
use simple_await.World.{running, waiting_local, Scheduler, World}
use simple_await.Scheduler.{make_ready, bump}
use simple_await.Scheduler.Fifo.{IsFifo}
use simple_await.Scheduler.Ready.{
  ReadyFifo, make_ready-ReadyFifo, ready_push_rest, ready_push_members, in_range,
}
use simple_await.Scheduler.Acquire.{Took}
use simple_await.Tasks.{Task, TaskHandle, adopt, schedule}
use simple_await.Tasks.Schedule.{
  ScheduleResult, schedule-ScheduleResult, refused, no_frame, no_slot, scheduled,
}
use simple_await.Waits.{wake_slot}
use simple_await.Event
use simple_await.Invariant.{Inv, queues}
use simple_await.Invariant.Wake.{make_ready-Parked}
use simple_await.Invariant.Events.{set-Inv, woke_all}
use simple_await.Invariant.Adopt.{adopt-Adopted, adopt-ReadyFifo, adopt-Parked}

-- One call that a running body, a destructor or a callback makes of the library and that does not
-- suspend: scheduling a task, setting an event, waking a slot parked by a flag or a queue, and
-- everything that touches neither the scheduler nor a waiter FIFO (clearing an event, setting a
-- flag, a refused call that reports an error, the log of a destroyed frame).
pub data Effect (n : ℕ) (w : World) : World → Type 0 where
  schedules : (task : Task) → Effect n w (schedule n task w).2
  sets : (e : ℕ) → Effect n w (Event.set n e w)
  wakes :
      (y : ℕ)
      → (w.sched.slots y).state ≡ waiting_local
      → ((e : ℕ) (l : List ℕ)
          → IsFifo w.sched.slots (queues w e).head (queues w e).tail l
          → count y l ≡ 0)
      → Effect n w (record w { sched = wake_slot (some y) w.sched })
  quiet :
      (u : World)
      → u.sched ≡ w.sched
      → ((e : ℕ) → queues u e ≡ queues w e)
      → u.resumed ≡ w.resumed
      → Effect n w u

pub data Effects (n : ℕ) (w : World) : World → Type 0 where
  here : Effects n w w
  next : {u t : World} → Effects n w u → Effect n u t → Effects n w t

-- The running slot is left as it was.
pub record Steady (x : ℕ) (w u : World) : Type 0 where
  pub state : (u.sched.slots x).state ≡ running
  pub handle : (u.sched.slots x).handle ≡ (w.sched.slots x).handle
  pub current : u.sched.current ≡ w.sched.current
  pub resumed : u.resumed ≡ w.resumed

-- The invariant holds with some slots more behind the ready FIFO `r`.
pub record Grown (n : ℕ) (u : World) (r : List ℕ) : Type 0 where
  pub extra : List ℕ
  pub ws : ℕ → List ℕ
  pub inv : Inv n u (r ++ extra) ws

pub Grown-same : {n : ℕ} {u : World} {r : List ℕ} {ws : ℕ → List ℕ} → Inv n u r ws → Grown n u r
Grown-same {n} {u} {r} {ws} v = record {
  extra = [];
  ws = ws;
  inv = subst (λ l. Inv n u l ws) (sym (append-nil r)) v;
}

pub Grown-trans : {n : ℕ} {u : World} {r : List ℕ} (l : List ℕ) → Grown n u (r ++ l) → Grown n u r
Grown-trans {n} {u} {r} l g = record {
  extra = l ++ g.extra;
  ws = g.ws;
  inv = subst (λ k. Inv n u k g.ws) (append_assoc r l g.extra) g.inv;
}

-- A world with the same scheduler and the same waiter FIFOs.
pub quiet-Inv :
    {n : ℕ} {w : World} {r : List ℕ} {ws : ℕ → List ℕ} (u : World)
    → u.sched ≡ w.sched
    → ((e : ℕ) → queues u e ≡ queues w e)
    → Inv n w r ws
    → Inv n u r ws
quiet-Inv {n} {w} {r} {ws} u s q v = record {
  fifo = subst (λ t. ReadyFifo n t r) (sym s) v.fifo;
  parked = record {
    fifo = λ e. rw (s, q e) (v.parked.fifo e);
    waiting = λ e i. rw s (v.parked.waiting e i);
    apart = v.parked.apart;
  };
}

module _ {n : ℕ} {w : World} {r : List ℕ} {ws : ℕ → List ℕ} (v : Inv n w r ws) where
  adopted-Grown :
      (y frame : ℕ) (parent : Option ℕ) {t : Scheduler}
      → Took n w.sched y t
      → Grown n (record w { sched = adopt y frame parent (bump y w.sched) }) r
  adopted-Grown y frame parent k = record {
    extra = y ∷ [];
    ws = ws;
    inv = record {
      fifo = adopt-ReadyFifo v.fifo v.parked frame parent k;
      parked = adopt-Parked v.fifo v.parked frame parent k;
    };
  }

  scheduled-Grown : (task : Task) → Grown n (schedule n task w).2 r
  scheduled-Grown task = by_result (schedule n task w) (schedule-ScheduleResult n task w)
    where
      by_result : (out : TaskHandle × Task × World) → ScheduleResult n task w out → Grown n out.2 r
      by_result out (refused d e) = rw e (Grown-same v)
      by_result out (no_frame d f e) = rw e (Grown-same (quiet-Inv _ refl (λ i. refl) v))
      by_result out (no_slot frame d f x e) = rw e (Grown-same (quiet-Inv _ refl (λ i. refl) v))
      by_result out (scheduled frame y d f k e) = rw e (adopted-Grown y frame none k)

  -- One effect keeps the invariant and appends to the ready FIFO.
  pub called-Grown : {u : World} → Effect n w u → Grown n u r
  unfolding wake_slot make_ready Event.set
  called-Grown (schedules task) = scheduled-Grown task
  called-Grown (sets e) = record { extra = ws e; ws = update ws e []; inv = set-Inv v e }
  called-Grown (wakes y local alone) = record {
    extra = y ∷ [];
    ws = ws;
    inv = record {
      fifo = make_ready-ReadyFifo v.fifo y (in_range v.fifo y (λ k. ground arith)) (ground arith);
      parked = make_ready-Parked v.fifo v.parked y (λ e. alone e (ws e) (v.parked.fifo e));
    };
  }
  called-Grown (quiet u s q m) = Grown-same (quiet-Inv u s q v)

module _ {n : ℕ} {x : ℕ} {w : World} {r : List ℕ} {ws : ℕ → List ℕ} (v : Inv n w r ws)
    (active : (w.sched.slots x).state ≡ running) where
  same_Steady : (u : World) → u.sched ≡ w.sched → u.resumed ≡ w.resumed → Steady x w u
  same_Steady u s m = record {
    state = ap (λ (t : Scheduler). (t.slots x).state) s ∙ active;
    handle = ap (λ (t : Scheduler). (t.slots x).handle) s;
    current = ap (λ (t : Scheduler). t.current) s;
    resumed = m;
  }

  pub quiet-Grown :
      (u : World)
      → u.sched ≡ w.sched
      → ((e : ℕ) → queues u e ≡ queues w e)
      → u.resumed ≡ w.resumed
      → Grown n u r × Steady x w u
  quiet-Grown u s q m = (Grown-same (quiet-Inv u s q v), same_Steady u s m)

  pub adopts-Grown :
      (y frame : ℕ) (parent : Option ℕ) {t : Scheduler}
      → Took n w.sched y t
      → let u = record w { sched = adopt y frame parent (bump y w.sched) } in
        Grown n u r × Steady x w u
  adopts-Grown y frame parent k =
      let a = adopt-Adopted w.sched y frame parent in
      let ne : x ≢ y = λ e. ground (arith, k.lowest) in
      (
        adopted-Grown v y frame parent k,
        record {
          state = a.state_out x ne ∙ active;
          handle = a.handle_out x ne;
          current = a.current;
          resumed = refl;
        },
      )

  schedules-Grown : (task : Task) → let u = (schedule n task w).2 in Grown n u r × Steady x w u
  schedules-Grown task = by_result (schedule n task w) (schedule-ScheduleResult n task w)
    where
      by_result :
          (out : TaskHandle × Task × World)
          → ScheduleResult n task w out
          → Grown n out.2 r × Steady x w out.2
      by_result out (refused d e) = rw e (quiet-Grown w refl (λ i. refl) refl)
      by_result out (no_frame d f e) = rw e (quiet-Grown _ refl (λ i. refl) refl)
      by_result out (no_slot frame d f x e) = rw e (quiet-Grown _ refl (λ i. refl) refl)
      by_result out (scheduled frame y d f k e) = rw e (adopts-Grown y frame none k)

  sets-Grown : (e : ℕ) → let u = Event.set n e w in Grown n u r × Steady x w u
  unfolding Event.set
  sets-Grown e =
      let k = (woke_all v e).woken in
      (
        called-Grown v (sets e),
        record {
          state = k.state_out x (ground (arith, v.parked.waiting e x)) ∙ active;
          handle = k.handle x;
          current = k.current;
          resumed = refl;
        },
      )

  wakes-Grown :
      (y : ℕ)
      → (w.sched.slots y).state ≡ waiting_local
      → ((e : ℕ) (l : List ℕ)
          → IsFifo w.sched.slots (queues w e).head (queues w e).tail l
          → count y l ≡ 0)
      → let u = record w { sched = wake_slot (some y) w.sched } in Grown n u r × Steady x w u
  unfolding wake_slot make_ready
  wakes-Grown y local alone = (
    called-Grown v (wakes y local alone),
    record {
      state = (ready_push_rest y _ x).0 ∙ ground arith;
      handle = (ready_push_rest y _ x).1 ∙ ground arith;
      current = (ready_push_members y _).3;
      resumed = refl;
    },
  )

  -- One effect keeps the invariant, appends to the ready FIFO, and leaves the running slot alone.
  pub Effect-Grown : {u : World} → Effect n w u → Grown n u r × Steady x w u
  Effect-Grown (schedules task) = schedules-Grown task
  Effect-Grown (sets e) = sets-Grown e
  Effect-Grown (wakes y local alone) = wakes-Grown y local alone
  Effect-Grown (quiet u s q m) = quiet-Grown u s q m

-- So do any number of them.
pub Effects-Grown :
    {n x : ℕ} {w u : World} {r : List ℕ} {ws : ℕ → List ℕ}
    → Inv n w r ws
    → (w.sched.slots x).state ≡ running
    → Effects n w u
    → Grown n u r × Steady x w u
Effects-Grown v active here = quiet-Grown v active _ refl (λ e. refl) refl
Effects-Grown v active (next s e) =
    let (g, k) = Effects-Grown v active s in
    let (g', k') = Effect-Grown g.inv k.state e in
    (
      Grown-trans g.extra g',
      record {
        state = k'.state;
        handle = k'.handle ∙ k.handle;
        current = k'.current ∙ k.current;
        resumed = k'.resumed ∙ k.resumed;
      },
    )
