-- ===== src/Pass/Body.antt =====
-- A suspension of the running slot in scheduler.h keeps the invariant.
use simple_await.Base.{
  ℕ, ◌≡◌, ◌≢◌, refl, ◌∙◌, ap, true, false, Option, none, some, List, [], ◌∷◌, ◌++◌, ◌⊎◌, arith,
  subst, ◌==◌, Bool-cases, inl, inr,
}
use simple_await.Error.{ErrorLog, task_limit}
use simple_await.World.{
  State, running, waiting_child, waiting_local, is_ready, Scheduler, World, Coroutines, on_error,
  destroy, set_state,
}
use simple_await.Scheduler.{make_ready, acquire_slot, bump}
use simple_await.Scheduler.Ready.{make_ready-ReadyFifo, ready_push_rest}
use simple_await.Scheduler.Acquire.{Took, AcquireResult, acquire_slot-AcquireResult}
use simple_await.Scheduler.Fifo.{push_back_rest}
use simple_await.Time.{compute_deadline}
use simple_await.Tasks.{start_child_await, adopt}
use simple_await.Waits.{yield_current, park_running, wait_on}
use simple_await.Timers.{arm_current_timer, set_timer}
use simple_await.Event
use simple_await.Invariant.{Inv, queues}
use simple_await.Invariant.Wake.{make_ready-Parked}
use simple_await.Invariant.Effects.{
  Effects, Steady, Grown, Grown-same, Grown-trans, quiet-Inv, Effects-Grown, adopts-Grown,
}
use simple_await.Invariant.Suspend.{idle_change, not_waiting, active-lt, parked_on, parked_on-Inv}
use simple_await.Pass.Contract.{
  Suspension, yields, delays, awaits_child, awaits_event, parks, bare, Cooperative,
}

-- The invariant after a suspension; the slot keeps its frame.
pub record Suspended (n x : ℕ) (w u : World) (r : List ℕ) : Type 0 where
  pub grown : Grown n u r
  pub handle : (u.sched.slots x).handle ≡ (w.sched.slots x).handle
  pub resumed : u.resumed ≡ w.resumed

-- The world after `start_child_await` without and with a slot for the child.
abbrev pub exhausted_child : Coroutines → ℕ → ℕ → World → World
exhausted_child c child x w =
    let w' = destroy c child w in on_error task_limit (record w' { sched = make_ready x w'.sched })

abbrev pub adopted_child : ℕ → ℕ → ℕ → World → World
adopted_child child x y w =
    let s = adopt y child (some x) (bump y w.sched) in
    record w { sched = record s { slots = set_state s.slots x waiting_child } }

-- The two ways in which a child await suspends.
pub child_cases :
    {n x : ℕ} {w : World}
    → w.sched.current ≡ some x
    → (c : Coroutines) (child awaiting : ℕ) {u : World} (o : Option ℕ × Scheduler)
    → acquire_slot n w.sched ≡ o
    → AcquireResult n w.sched o
    → start_child_await c n child awaiting w ≡ (true, u)
    → (u ≡ exhausted_child c child x w)
      ⊎ ((y : ℕ) × Took n w.sched y (bump y w.sched) × (u ≡ adopted_child child x y w))
unfolding start_child_await
child_cases at c child awaiting {u} (none, t) p a h = inl (ground (arith, a.unchanged))
child_cases {n} {w = w} at c child awaiting {u} (some y, t) p a h =
    inr (y, subst (Took n w.sched y) a.bumped a, ground (arith, a.bumped))

module _ {n : ℕ} {w : World} {r : List ℕ} {ws : ℕ → List ℕ} (v : Inv n w r ws) (x : ℕ)
    (at : w.sched.current ≡ some x) (active : (w.sched.slots x).state ≡ running) where
  pub readied :
      (u : World)
      → u.sched ≡ make_ready x w.sched
      → ((e : ℕ) → queues u e ≡ queues w e)
      → u.resumed ≡ w.resumed
      → Suspended n x w u r
  unfolding make_ready
  readied u s q m = record {
    grown = record {
      extra = x ∷ [];
      ws = ws;
      inv = quiet-Inv {w = record w { sched = make_ready x w.sched }} u s q (record {
        fifo = make_ready-ReadyFifo v.fifo x (active-lt v.fifo v.parked x active) (ground arith);
        parked = make_ready-Parked v.fifo v.parked x (not_waiting v.fifo v.parked x active);
      });
    };
    handle = ap (λ t. (t.slots x).handle) s ∙ (ready_push_rest x _ x).1 ∙ ground arith;
    resumed = m;
  }

  -- Only the slot's own record changes, to a state that is not `ready`.
  pub set_aside :
      (u : World)
      → u.sched.ready_head ≡ w.sched.ready_head
      → u.sched.ready_tail ≡ w.sched.ready_tail
      → u.sched.ready_count ≡ w.sched.ready_count
      → ((i : ℕ) → i ≢ x → u.sched.slots i ≡ w.sched.slots i)
      → is_ready (u.sched.slots x).state ≡ false
      → ((e : ℕ) → queues u e ≡ queues w e)
      → Grown n u r
  set_aside u h t a same idle q =
      let (f, p) = idle_change v.fifo v.parked x active u.sched h t a same idle in
      Grown-same
        (quiet-Inv {w = record w { sched = u.sched }} u refl q (record { fifo = f; parked = p }))

  pub arm_cases :
      (d : ℕ)
      → ((calls : ErrorLog) × (arm_current_timer d w
            ≡ record w { sched = make_ready x w.sched; errors = calls }))
        ⊎ ((deadline : ℕ) × (arm_current_timer d w
              ≡ record w { sched = set_timer x deadline w.sched }))
  unfolding arm_current_timer yield_current
  arm_cases d = elim (Bool-cases (d == 0)) [
    | inl z ↦ inl (w.errors, ground arith)
    | inr nz ↦ elim (Bool-cases (compute_deadline w.sched.now d 0).0) [
      | inl fits ↦ inr ((compute_deadline w.sched.now d 0).1, ground arith)
      | inr over ↦ inl ((compute_deadline w.sched.now d 0).2 ++ w.errors, ground arith)
    ]
  ]

  timed : (deadline : ℕ) → Suspended n x w (record w { sched = set_timer x deadline w.sched }) r
  unfolding set_timer
  timed deadline = record {
    grown = set_aside _ refl refl refl (λ i h. ground arith) (ground arith) (λ e. refl);
    handle = ground arith;
    resumed = refl;
  }

  parked_slot :
      (u : World)
      → u.sched ≡ (park_running w.sched).1
      → ((e : ℕ) → queues u e ≡ queues w e)
      → u.resumed ≡ w.resumed
      → Suspended n x w u r
  unfolding park_running
  parked_slot u s q m =
      let s' : u.sched ≡ record (w.sched) { slots = set_state w.sched.slots x waiting_local } =
        s ∙ ground arith in
      record {
        grown = Grown-same (
            quiet-Inv
              {w = record w {
                sched = record (w.sched) { slots = set_state w.sched.slots x waiting_local };
              }}
              u s' q (aside waiting_local refl));
        handle = ap (λ t. (t.slots x).handle) s' ∙ ground arith;
        resumed = m;
      }
    where
      aside :
          (k : State)
          → is_ready k ≡ false
          → Inv n
              (record w { sched = record (w.sched) { slots = set_state w.sched.slots x k } })
              r
              ws
      aside k idle =
          let (f, p) =
            idle_change v.fifo v.parked x active
              (record (w.sched) { slots = set_state w.sched.slots x k }) refl refl refl
              (λ i h. ground arith) (ground (arith, idle)) in
          record { fifo = f; parked = p }

  on_event :
      (e awaiting : ℕ) {u : World} → Event.wait e awaiting w ≡ (true, u) → Suspended n x w u r
  unfolding Event.wait wait_on
  on_event e awaiting {u} h = rw (← taken) (record {
    grown = Grown-same (parked_on-Inv v x e active);
    handle =
        (push_back_rest (set_state w.sched.slots x waiting_local) (queues w e) x x).1
        ∙ ground arith;
    resumed = refl;
  })
    where
      taken : parked_on e x w ≡ u
      taken = ground arith

-- Destroying a frame keeps the invariant and the running slot.
pub destroyed-Grown :
    {n : ℕ} {w : World} {r : List ℕ} {ws : ℕ → List ℕ} {x : ℕ} (c : Coroutines) (frame : ℕ)
    → ((f : ℕ) (k : World) → Effects n k (c.release f k))
    → Inv n w r ws
    → (w.sched.slots x).state ≡ running
    → Grown n (destroy c frame w) r × Steady x w (destroy c frame w)
destroyed-Grown {w = w} c frame releases v active =
    let logged : World = record w { destroyed = frame ∷ w.destroyed } in
    let (g, k) =
      Effects-Grown (quiet-Inv {w = w} logged refl (λ e. refl) v) active (releases frame logged) in
    (g, record { state = k.state; handle = k.handle; current = k.current; resumed = k.resumed })

module _ {n : ℕ} {w : World} {r : List ℕ} {ws : ℕ → List ℕ} (v : Inv n w r ws) (x : ℕ)
    (at : w.sched.current ≡ some x) (active : (w.sched.slots x).state ≡ running) where
  no_room :
      (c : Coroutines) (child : ℕ)
      → ((frame : ℕ) (k : World) → Effects n k (c.release frame k))
      → Suspended n x w (exhausted_child c child x w) r
  no_room c child releases =
      let (g, k) = destroyed-Grown c child releases v active in
      let s =
        readied g.inv x (k.current ∙ at) k.state (exhausted_child c child x w) refl (λ e. refl)
          refl in
      record {
        grown = Grown-trans g.extra s.grown;
        handle = s.handle ∙ k.handle;
        resumed = s.resumed ∙ k.resumed;
      }

  adopted :
      (child y : ℕ)
      → Took n w.sched y (bump y w.sched)
      → Suspended n x w (adopted_child child x y w) r
  adopted child y took =
      let (g, k) = adopts-Grown v active y child (some x) took in
      record {
        grown = Grown-trans g.extra (
            set_aside g.inv x (k.current ∙ at) k.state (adopted_child child x y w) refl refl refl
              (λ i h. ground arith) (ground arith) (λ e. refl));
        handle = ground (arith, k.handle);
        resumed = refl;
      }

  on_child :
      (c : Coroutines) (child awaiting : ℕ) {u : World}
      → ((frame : ℕ) (k : World) → Effects n k (c.release frame k))
      → start_child_await c n child awaiting w ≡ (true, u)
      → Suspended n x w u r
  on_child c child awaiting {u} releases h =
      elim (child_cases at c child awaiting (acquire_slot n w.sched) refl
        (acquire_slot-AcquireResult n w.sched) h) [
          | inl e ↦ rw e (no_room c child releases)
          | inr (y, took, e) ↦ rw e (adopted child y took)
        ]

  -- From a state of the invariant in which slot `x` runs, and with user code that uses the scheduler
  -- through its operations only: after each way to suspend, the invariant holds with the ready FIFO
  -- as before or with slots added behind it, and the slot keeps its frame.
  pub Suspension-Suspended :
      (c : Coroutines) {u : World} → Cooperative n c → Suspension n c w u → Suspended n x w u r
  unfolding yield_current
  Suspension-Suspended c k (yields e) =
      rw e (readied v x at active _ (ground arith) (λ i. refl) refl)
  Suspension-Suspended c k (delays d e) = elim (arm_cases v x at active d) [
    | inl (calls, h) ↦ rw (e, h) (readied v x at active _ refl (λ i. refl) refl)
    | inr (deadline, h) ↦ rw (e, h) (timed v x at active deadline)
  ]
  Suspension-Suspended c k (awaits_child child awaiting e) = on_child c child awaiting k.releases e
  Suspension-Suspended c k (awaits_event e awaiting h) = on_event v x at active e awaiting h
  Suspension-Suspended c k (parks s q m) = parked_slot v x at active _ s q m
  Suspension-Suspended c k (bare e) =
      rw e (record { grown = Grown-same v; handle = refl; resumed = refl })
