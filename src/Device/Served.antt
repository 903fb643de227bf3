-- ===== src/Device/Served.antt =====
-- What the rounds of `poll_external_signals` (threadsafeflag.h) have done while other contexts call
-- `set`.
use simple_await.Base.{
  ℕ, ◌+◌, ◌≡◌, ◌≢◌, refl, ◌∙◌, ap, subst, Bool, true, false, Option, List, [], ◌∷◌, ◌++◌, arith,
  count, count-append, append_assoc, append-nil, ◌⊎◌, inl, inr, if◌then◌else◌,
}
use native.Mathlib.Decide.{ℕ_discrete}
use simple_await.World.{World, Scheduler}
use simple_await.Waits.{wake_slot}
use simple_await.Flag.Armed.{Flags, Linked}
use simple_await.Device.{Semaphore, Device}
use simple_await.Device.Scan.{Guarded, Scanning}

-- The waiters of the flags `l` are woken in the order of the list.
abbrev pub wake_flags : Flags → List ℕ → Scheduler → Scheduler
wake_flags flags [] s = s
wake_flags flags (f ∷ l) s = wake_flags flags l (wake_slot (flags f).waiter s)

pub wake_flags-same :
    (flags flags' : Flags) (l : List ℕ) (s : Scheduler)
    → ((i : ℕ) → count i l ≢ 0 → (flags' i).waiter ≡ (flags i).waiter)
    → wake_flags flags' l s ≡ wake_flags flags l s
wake_flags-same flags flags' [] s same = refl
wake_flags-same flags flags' (f ∷ l) s same =
    rw (same f (ground arith))
      (wake_flags-same flags flags' l (wake_slot (flags f).waiter s) (λ i h. same i (omega arith)))

-- From `d` with the flags `l` to look at behind `kept`, the rounds end in `e`: the waiters of the
-- flags `served` are woken, those of `left` stay armed.
pub record Drained {S : Type 0} (b : Semaphore S) (strict : Bool) (asked : ℕ → Type 0)
    (kept l : List ℕ) (d e : Device S) : Type 0 where
  pub served : List ℕ
  pub left : List ℕ
  pub split : (i : ℕ) → count i l ≡ count i served + count i left
  pub signaled_served :
      (i : ℕ) → count i l ≢ 0 → (d.world.flags i).signaled ≡ true → count i served ≢ 0
  pub served_signaled : (i : ℕ) → count i served ≢ 0 → ((d.world.flags i).signaled ≡ true) ⊎ asked i
  pub sched : e.world.sched ≡ wake_flags d.world.flags served d.world.sched
  pub guarded : Guarded b strict e (kept ++ left)
  pub rest : e.world ≡ record (d.world) {
    sched = e.world.sched;
    flags = e.world.flags;
    armed_head = e.world.armed_head;
    pending = e.world.pending;
  }

abbrev pub others_left : {S : Type 0} → Device S → Device S → World
others_left d e = record (d.world) {
  sched = e.world.sched;
  flags = e.world.flags;
  armed_head = e.world.armed_head;
  pending = e.world.pending;
}

-- What a round at flag `f` leaves, before the rounds for `l`.
pub record Passed {S : Type 0} (asked : ℕ → Type 0) (f : ℕ) (l : List ℕ) (d u : Device S)
    (woken : Bool) : Type 0 where
  pub waiters : (i : ℕ) → count i l ≢ 0 → (u.world.flags i).waiter ≡ (d.world.flags i).waiter
  pub raises :
      (i : ℕ)
      → count i l ≢ 0
      → (d.world.flags i).signaled ≡ true
      → (u.world.flags i).signaled ≡ true
  pub lowers :
      (i : ℕ)
      → count i l ≢ 0
      → (u.world.flags i).signaled ≡ true
      → ((d.world.flags i).signaled ≡ true) ⊎ asked i
  pub sched :
      u.world.sched
      ≡ (if woken then wake_slot (d.world.flags f).waiter d.world.sched else d.world.sched)
  pub rest : u.world ≡ others_left d u

module _ {S : Type 0} (b : Semaphore S) (strict : Bool) (asked : ℕ → Type 0) where
  pub Drained-wake :
      (kept : List ℕ) (f : ℕ) (l : List ℕ) (d u e : Device S)
      → ((d.world.flags f).signaled ≡ true) ⊎ asked f
      → Passed asked f l d u true
      → Drained b strict asked kept l u e
      → Drained b strict asked kept (f ∷ l) d e
  Drained-wake kept f l d u e a p k = record {
    served = f ∷ k.served;
    left = k.left;
    split = λ i. ground (arith, k.split i);
    signaled_served = λ i m h. elim (ℕ_discrete i f) [
      | yes q ↦ ground arith
      | no q ↦
          let n : count i l ≢ 0 = λ z. ground arith in
          let c = k.signaled_served i n (p.raises i n h) in λ z. ground arith
    ];
    served_signaled = λ i m. elim (ℕ_discrete i f) [
      | yes q ↦ rw q a
      | no q ↦
          let n : count i k.served ≢ 0 = λ z. m (ground arith) in
          elim (k.served_signaled i n) [
            | inl h ↦ p.lowers i (omega (arith, k.split i)) h
            | inr h ↦ inr h
          ]
    ];
    sched =
        k.sched
        ∙ wake_flags-same d.world.flags u.world.flags k.served u.world.sched
            (λ i h. p.waiters i (omega (arith, k.split i)))
        ∙ ap (wake_flags d.world.flags k.served) p.sched;
    guarded = k.guarded;
    rest = k.rest ∙ ap (λ (w : World). others_left (record d { world = w }) e) p.rest;
  }

  pub Drained-keep :
      (kept : List ℕ) (f : ℕ) (l : List ℕ) (d u e : Device S)
      → (d.world.flags f).signaled ≡ false
      → Passed asked f l d u false
      → Drained b strict asked (kept ++ f ∷ []) l u e
      → Drained b strict asked kept (f ∷ l) d e
  Drained-keep kept f l d u e off p k = record {
    served = k.served;
    left = f ∷ k.left;
    split = λ i. ground (arith, k.split i);
    signaled_served = λ i m h. elim (ℕ_discrete i f) [
      | yes q ↦ absurd (ground arith)
      | no q ↦ let n : count i l ≢ 0 = λ z. ground arith in k.signaled_served i n (p.raises i n h)
    ];
    served_signaled = λ i m. elim (k.served_signaled i m) [
      | inl h ↦ p.lowers i (omega (arith, k.split i)) h
      | inr h ↦ inr h
    ];
    sched =
        k.sched
        ∙ wake_flags-same d.world.flags u.world.flags k.served u.world.sched
            (λ i h. p.waiters i (omega (arith, k.split i)))
        ∙ ap (wake_flags d.world.flags k.served) p.sched;
    guarded = subst (Guarded b strict e) (append_assoc kept (f ∷ []) k.left) k.guarded;
    rest = k.rest ∙ ap (λ (w : World). others_left (record d { world = w }) e) p.rest;
  }

  pub Drained-nil :
      (kept : List ℕ) (p prev : Option ℕ) (d : Device S)
      → Scanning b strict d kept [] p prev
      → Drained b strict asked kept [] d d
  Drained-nil kept p prev d g = record {
    served = [];
    left = [];
    split = λ i. refl;
    signaled_served = λ i m h. absurd (m refl);
    served_signaled = λ i m. absurd (m refl);
    sched = refl;
    guarded = record {
      arming = record {
        linked =
            rw append-nil (subst (Linked d.world.flags d.world.armed_head kept) g.ahead g.behind);
        member = g.member;
      };
      prepared = g.prepared;
      covered = λ f m h. g.covered f (λ z. ground (arith, g.member f, count-append f kept [], z)) h;
    };
    rest = refl;
  }
