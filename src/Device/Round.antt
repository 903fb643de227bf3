-- ===== src/Device/Round.antt =====
-- One round of the loop of `poll_external_signals` (threadsafeflag.h) that other contexts interrupt.
use simple_await.Base.{
  ℕ, suc, ◌≡◌, ◌≢◌, refl, sym, ◌∙◌, ap, subst, Bool, true, false, Option, none, some, List, [], ◌∷◌,
  ◌++◌, is_some, arith, count, count-append, count-last, append_assoc, get_last?, get_last?-append,
  ◌+◌, ◌≤◌, update,
}
use native.Mathlib.Decide.{ℕ_discrete}
use simple_await.World.{World, ThreadSafeFlag}
use simple_await.Scheduler.Fifo.{Distinct, get_last?-none}
use simple_await.Waits.{wake_slot}
use simple_await.Flag.{put_flag, write_link}
use simple_await.Flag.Armed.{Linked, Linked-frame, Linked-append, Linked-relink}
use simple_await.Device.{Semaphore, Device}
use simple_await.Device.Signals.{alert}
use simple_await.Device.Scan.{Scanning}

-- The world behind the round that wakes the waiter of flag `f`.
abbrev pub freed : ℕ → World → World
freed f w = record w {
  sched = wake_slot (w.flags f).waiter w.sched;
  flags = update w.flags f (record (w.flags f) { waiter = none; armed_next = none });
}

abbrev pub freed_at : Option ℕ → ℕ → World → World
freed_at prev f w = write_link prev (w.flags f).armed_next (freed f w)

pub freed_at-flags :
    (prev : Option ℕ) (f i : ℕ) (w : World)
    → prev ≢ some f
    → (((freed_at prev f w).flags i).signaled ≡ (w.flags i).signaled)
      × (i ≢ f → ((freed_at prev f w).flags i).waiter ≡ (w.flags i).waiter)
      × (i ≢ f → prev ≢ some i → (freed_at prev f w).flags i ≡ w.flags i)
      × (((freed_at prev f w).flags f).waiter ≡ none)
freed_at-flags none f i w h = (ground arith, ground arith, ground arith, ground arith)
freed_at-flags (some g) f i w h =
    (ground arith, (λ k. ground arith), (λ k l. ground arith), ground arith)

pub freed_at-rest :
    (prev : Option ℕ) (f : ℕ) (w : World)
    → freed_at prev f w ≡ record w {
      sched = wake_slot (w.flags f).waiter w.sched;
      flags = (freed_at prev f w).flags;
      armed_head = (freed_at prev f w).armed_head;
    }
freed_at-rest none f w = refl
freed_at-rest (some g) f w = refl

freed_at-Linked :
    (kept : List ℕ) (prev : Option ℕ) (f : ℕ) (w : World)
    → Distinct kept
    → count f kept ≡ 0
    → get_last? kept ≡ prev
    → Linked w.flags w.armed_head kept (some f)
    → Linked (freed_at prev f w).flags (freed_at prev f w).armed_head kept (w.flags f).armed_next
freed_at-Linked kept none f w d out e c = rw (get_last?-none kept e) refl
freed_at-Linked kept (some t) f w d out e c =
    let u = freed_at (some t) f w in
    let written : (u.flags t).armed_next ≡ (w.flags f).armed_next = ground arith in
    subst (Linked u.flags w.armed_head kept) written (
      Linked-relink w.flags u.flags w.armed_head kept (some f) t d e (λ i h k. ground (arith, out))
        c)

module _ {S : Type 0} (b : Semaphore S) (strict : Bool) (kept : List ℕ) (f : ℕ) (l : List ℕ)
    (p prev : Option ℕ) (d : Device S) (g : Scanning b strict d kept (f ∷ l) p prev) where
  pub apart : (count f kept ≡ 0) × (count f l ≡ 0)
  apart = omega (arith, g.distinct f, count-append f kept (f ∷ l), here)
    where
      here : count f (f ∷ l) ≡ suc (count f l)
      here = ground arith

  pub not_last : (i : ℕ) → count i kept ≡ 0 → prev ≢ some i
  not_last i z q = ground (arith, count-last kept i (g.last ∙ q))

  pub has_waiter : is_some (d.world.flags f).waiter ≡ true
  has_waiter = ground (arith, g.member f, count-append f kept (f ∷ l))

  counts :
      (i : ℕ)
      → (count i (kept ++ f ∷ l) ≡ count i kept + count i (f ∷ l))
        × (count i (kept ++ l) ≡ count i kept + count i l)
        × (count i l ≤ count i (f ∷ l))
  counts i = (count-append i kept (f ∷ l), count-append i kept l, ground arith)

  passed : (i : ℕ) → i ≢ f → count i (kept ++ f ∷ l) ≡ count i (kept ++ l)
  passed i q = omega (arith, counts i, skipped)
    where
      skipped : count i (f ∷ l) ≡ count i l
      skipped = ground arith

  pub others : (i : ℕ) → count i l ≢ 0 → (i ≢ f) × (count i kept ≡ 0)
  others i h = ((λ q. ground (arith, apart.1)), omega (arith, g.distinct i, counts i))

  abbrev taken : World
  taken = put_flag f (record (d.world.flags f) { signaled = false }) d.world

  -- The critical section on `f` takes its signal.
  pub taken-Scanning : Scanning b strict (record d { world = taken }) kept (f ∷ l) p prev
  taken-Scanning = record {
    distinct = g.distinct;
    last = g.last;
    behind =
        Linked-frame d.world.flags taken.flags d.world.armed_head kept p (λ i h. ground arith)
          g.behind;
    ahead = Linked-frame d.world.flags taken.flags p (f ∷ l) none (λ i h. ground arith) g.ahead;
    member = λ i. ground (arith, g.member i);
    prepared = g.prepared;
    covered = λ i m h. g.covered i m (ground (arith, apart.0));
  }

  abbrev out : World
  out = freed_at prev f d.world

  pub freed_flags :
      (i : ℕ)
      → ((out.flags i).signaled ≡ (d.world.flags i).signaled)
        × (i ≢ f → (out.flags i).waiter ≡ (d.world.flags i).waiter)
        × (i ≢ f → prev ≢ some i → out.flags i ≡ d.world.flags i)
        × ((out.flags f).waiter ≡ none)
  freed_flags i = freed_at-flags prev f i d.world (not_last f apart.0)

  freed_alert : alert b strict (record d { world = out }) ≡ alert b strict d
  freed_alert =
      ap (λ (w : World). alert b strict (record d { world = w })) (freed_at-rest prev f d.world)

  -- The waiter of `f` is woken, and `f` is out of the list.
  pub freed-Scanning :
      Scanning b strict (record d { world = out }) kept l (d.world.flags f).armed_next prev
  freed-Scanning = record {
    distinct = λ i. omega (arith, g.distinct i, counts i);
    last = g.last;
    behind =
        freed_at-Linked kept prev f d.world (λ i. omega (arith, g.distinct i, counts i)) apart.0
          g.last (subst (Linked d.world.flags d.world.armed_head kept) g.ahead.0 g.behind);
    ahead =
        Linked-frame d.world.flags out.flags (d.world.flags f).armed_next l none
          (λ i h.
            ap (λ (v : ThreadSafeFlag). v.armed_next)
              ((freed_flags i).2 (others i h).0 (not_last i (others i h).1)))
          g.ahead.1;
    member = λ i. elim (ℕ_discrete i f) [
      | yes q ↦ rw (q, (freed_flags f).3) (omega (arith, apart, counts f))
      | no q ↦ rw ((freed_flags i).1 q) (sym (passed i q) ∙ g.member i)
    ];
    prepared = g.prepared;
    covered = λ i m h. freed_alert ∙ g.covered i m (sym (freed_flags i).0 ∙ h);
  }

  -- The flag `f` stays, if a signal that it has by now keeps the scheduler from sleeping.
  pub kept-Scanning :
      ((d.world.flags f).signaled ≡ true → alert b strict d ≡ true)
      → Scanning b strict d (kept ++ f ∷ []) l (d.world.flags f).armed_next (some f)
  kept-Scanning h = record {
    distinct = subst Distinct (sym (append_assoc kept (f ∷ []) l)) g.distinct;
    last = get_last?-append kept f;
    behind =
        Linked-append d.world.flags d.world.armed_head kept f
          (subst (Linked d.world.flags d.world.armed_head kept) g.ahead.0 g.behind);
    ahead = g.ahead.1;
    member = λ i. ap (count i) (append_assoc kept (f ∷ []) l) ∙ g.member i;
    prepared = g.prepared;
    covered = λ i m k. elim (ℕ_discrete i f) [
      | yes q ↦ h (subst (λ y. (d.world.flags y).signaled ≡ true) q k)
      | no q ↦ g.covered i (before i q m) k
    ];
  }
    where
      before : (i : ℕ) → i ≢ f → count i (kept ++ f ∷ []) ≢ 0 → count i kept ≢ 0
      before i q m z = m (count-append i kept (f ∷ []) ∙ ground (arith, z, q))
