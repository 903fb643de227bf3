-- ===== src/Device/Poll.antt =====
-- `poll_external_signals` (threadsafeflag.h) with the steps of other contexts: against the same without
-- them, and against the invariant.
use simple_await.Base.{
  ℕ, suc, ◌≤◌, ◌≡◌, ◌≢◌, refl, ◌∙◌, ap, Bool, true, false, none, List, [], is_some, arith, count,
  length, inl, inr, Bool-cases,
}
use simple_await.World.{World}
use simple_await.Flag.Arming.{Arming-Distinct}
use simple_await.Device.{
  Semaphore, IsBinary, Device, Signal, interrupted, resolve_interrupted, poll_interrupted,
}
use simple_await.Device.Signals.{marks, interrupted-marks, Signaled, interrupted-Signaled}
use simple_await.Device.Scan.{Guarded, Scanning, Signaled-Guarded}
use simple_await.Device.Served.{wake_flags, wake_flags-same, Drained, others_left}
use simple_await.Device.Drain.{resolve_interrupted-Drained}

module _ {S : Type 0} (b : Semaphore S) (strict : Bool) (law : IsBinary b) (max_tasks : ℕ)
    (calls : ℕ → List Signal) (asked : ℕ → Type 0)
    (asks : (k i : ℕ) → marks i (calls k) ≡ true → asked i) {l : List ℕ} {d : Device S}
    (g : Guarded b false d l) (ready : strict ≡ true → is_some d.scheduler_wake ≡ true) where
  abbrev start : Device S
  start = interrupted b (calls 0) d

  came : Signaled b d start
  came = interrupted-Signaled b law (calls 0) d

  start-Guarded : Guarded b false start l
  start-Guarded = Signaled-Guarded b false d start came l g

  unsignaled :
      start.world.pending ≡ false → (i : ℕ) → count i l ≢ 0 → (start.world.flags i).signaled ≡ false
  unsignaled off i m = elim (Bool-cases (start.world.flags i).signaled) [
    | inr e ↦ e
    | inl e ↦
        let w : is_some (start.world.flags i).waiter ≡ true =
          ground (arith, start-Guarded.arming.member i) in
        absurd (ground (arith, off, start-Guarded.covered i w e))
  ]

  quiet : start.world.pending ≡ false → Drained b strict asked [] l d start
  quiet off = record {
    served = [];
    left = l;
    split = λ i. omega arith;
    served_signaled = λ i m. absurd (m refl);
    signaled_served = λ i m h. absurd (ground (arith, came.raises i h, unsignaled off i m));
    sched = ap (λ (w : World). w.sched) came.rest;
    guarded = record {
      arming = start-Guarded.arming;
      prepared = λ q. came.prepared ∙ ready q;
      covered = λ f w h. absurd (ground (arith, off, start-Guarded.covered f w h));
    };
    rest = ap (λ (w : World). others_left (record d { world = w }) start) came.rest;
  }

  abbrev cleared : Device S
  cleared = record start { world = record (start.world) { pending = false } }

  cleared-Scanning : Scanning b strict cleared [] l start.world.armed_head none
  cleared-Scanning = record {
    distinct = Arming-Distinct start-Guarded.arming;
    last = refl;
    behind = refl;
    ahead = start-Guarded.arming.linked;
    member = start-Guarded.arming.member;
    prepared = λ q. came.prepared ∙ ready q;
    covered = λ i m h. absurd (m refl);
  }

  loud : (e : Device S) → Drained b strict asked [] l cleared e → Drained b strict asked [] l d e
  loud e k = record {
    served = k.served;
    left = k.left;
    split = k.split;
    signaled_served = λ i m h. k.signaled_served i m (came.raises i h);
    served_signaled = λ i m. elim (k.served_signaled i m) [
      | inr h ↦ inr h
      | inl h ↦ elim (interrupted-marks b (calls 0) d i h) [
        | inl n ↦ inl n
        | inr n ↦ inr (asks 0 i n)
      ]
    ];
    sched =
        k.sched
        ∙ wake_flags-same d.world.flags start.world.flags k.served start.world.sched
            (λ i h. (came.waits i).0)
        ∙ ap (λ (w : World). wake_flags d.world.flags k.served w.sched) came.rest;
    guarded = k.guarded;
    rest = k.rest ∙ ap (λ (w : World). others_left (record d { world = w }) e) came.rest;
  }

  quiet_step : start.world.pending ≡ false → poll_interrupted b max_tasks calls d ≡ start
  unfolding poll_interrupted
  quiet_step off = simp off refl

  loud_step :
      start.world.pending ≡ true
      → poll_interrupted b max_tasks calls d
        ≡ resolve_interrupted b
            (suc max_tasks)
            (λ k. calls (suc k))
            none
            start.world.armed_head
            cleared
  unfolding poll_interrupted
  loud_step on = simp on refl

  drains :
      length l ≤ max_tasks → Drained b strict asked [] l d (poll_interrupted b max_tasks calls d)
  drains h = elim (Bool-cases start.world.pending) [
    | inr off ↦ rw (quiet_step off) (quiet off)
    | inl on ↦ rw (loud_step on) (
        loud _ (
          resolve_interrupted-Drained b strict asked law (suc max_tasks) (λ k. calls (suc k)) [] l
            start.world.armed_head none cleared (λ k. asks (suc k)) cleared-Scanning (omega arith)))
  ]

-- Some steps of other contexts among `calls` mark flag `i`.
abbrev pub MarkedIn : (ℕ → List Signal) → ℕ → Type 0
MarkedIn calls i = (k : ℕ) × (marks i (calls k) ≡ true)

-- With a binary semaphore, which exists if `strict`, from a state in which the armed flags `l`, at most
-- `max_tasks`, are those with a waiting slot, and an armed flag that is signalled has left a pending
-- mark, with any steps of other contexts before and after each critical section:
-- `poll_external_signals` wakes the waiter of every flag that was armed and signalled when it began,
-- and of no flag that neither was signalled then nor is marked by those steps. The rest stay armed; of
-- these, one that is signalled by now has left a pending mark and, if `strict`, a token or a caller
-- of `set` that is about to give one.
pub poll_interrupted-Drained :
    {S : Type 0} (b : Semaphore S) (strict : Bool) (max_tasks : ℕ) (calls : ℕ → List Signal)
    {l : List ℕ} {d : Device S}
    → IsBinary b
    → Guarded b false d l
    → (strict ≡ true → is_some d.scheduler_wake ≡ true)
    → length l ≤ max_tasks
    → Drained b strict (MarkedIn calls) [] l d (poll_interrupted b max_tasks calls d)
poll_interrupted-Drained b strict max_tasks calls law g ready h =
    drains b strict law max_tasks calls (MarkedIn calls) (λ k i m. (k, m)) g ready h
