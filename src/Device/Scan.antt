-- ===== src/Device/Scan.antt =====
-- The invariant between the scheduler and the callers of `ThreadSafeFlag::set`, and what holds of it
-- in the midst of `poll_external_signals` (threadsafeflag.h).
use simple_await.Base.{
  ℕ, ◌≡◌, ◌≢◌, sym, ◌∙◌, ap, subst, Bool, true, Option, none, List, ◌++◌, is_some, bit, count,
  get_last?, inl, inr, Bool-cases,
}
use simple_await.World.{World}
use simple_await.Scheduler.Fifo.{Distinct}
use simple_await.Flag.Armed.{Linked, Linked-frame}
use simple_await.Flag.Arming.{Arming}
use simple_await.Device.{Semaphore, Device}
use simple_await.Device.Signals.{alert, Signaled}

-- The armed flags are `l`, those with a waiting slot; one of them that is signalled keeps the
-- scheduler from sleeping.
pub record Guarded {S : Type 0} (b : Semaphore S) (strict : Bool) (d : Device S) (l : List ℕ)
    : Type 0 where
  pub arming : Arming d.world l
  pub prepared : strict ≡ true → is_some d.scheduler_wake ≡ true
  pub covered :
      (f : ℕ)
      → is_some (d.world.flags f).waiter ≡ true
      → (d.world.flags f).signaled ≡ true
      → alert b strict d ≡ true

-- The same while the flags `l`, from link `p` on, are still to be looked at.
pub record Scanning {S : Type 0} (b : Semaphore S) (strict : Bool) (d : Device S) (kept l : List ℕ)
    (p prev : Option ℕ) : Type 0 where
  pub distinct : Distinct (kept ++ l)
  pub last : get_last? kept ≡ prev
  pub behind : Linked d.world.flags d.world.armed_head kept p
  pub ahead : Linked d.world.flags p l none
  pub member : (i : ℕ) → count i (kept ++ l) ≡ bit (is_some (d.world.flags i).waiter)
  pub prepared : strict ≡ true → is_some d.scheduler_wake ≡ true
  pub covered :
      (i : ℕ) → count i kept ≢ 0 → (d.world.flags i).signaled ≡ true → alert b strict d ≡ true

module _ {S : Type 0} (b : Semaphore S) (strict : Bool) where
  module _ (d e : Device S) (k : Signaled b d e) where
    pub Signaled-head : e.world.armed_head ≡ d.world.armed_head
    Signaled-head = ap (λ (w : World). w.armed_head) k.rest

    still_Linked :
        (p : Option ℕ) (l : List ℕ) (q : Option ℕ)
        → Linked d.world.flags p l q
        → Linked e.world.flags p l q
    still_Linked p l q = Linked-frame d.world.flags e.world.flags p l q (λ i h. (k.waits i).1)

    still_alert :
        (i : ℕ)
        → (strict ≡ true → is_some d.scheduler_wake ≡ true)
        → ((d.world.flags i).signaled ≡ true → alert b strict d ≡ true)
        → (e.world.flags i).signaled ≡ true
        → alert b strict e ≡ true
    still_alert i p c h = elim (Bool-cases (d.world.flags i).signaled) [
      | inl on ↦ k.alerts strict p (c on)
      | inr off ↦ k.raised strict i off h p
    ]

    pub Signaled-Guarded : (l : List ℕ) → Guarded b strict d l → Guarded b strict e l
    Signaled-Guarded l g = record {
      arming = record {
        linked =
            still_Linked e.world.armed_head l none
              (subst (λ p. Linked d.world.flags p l none) (sym Signaled-head) g.arming.linked);
        member = λ i. rw ((k.waits i).0) (g.arming.member i);
      };
      prepared = λ q. k.prepared ∙ g.prepared q;
      covered =
          λ f m h. still_alert f g.prepared (g.covered f (ap is_some (sym (k.waits f).0) ∙ m)) h;
    }

    pub Signaled-Scanning :
        (kept l : List ℕ) (p prev : Option ℕ)
        → Scanning b strict d kept l p prev
        → Scanning b strict e kept l p prev
    Signaled-Scanning kept l p prev g = record {
      distinct = g.distinct;
      last = g.last;
      behind =
          still_Linked e.world.armed_head kept p
            (subst (λ q. Linked d.world.flags q kept p) (sym Signaled-head) g.behind);
      ahead = still_Linked p l none g.ahead;
      member = λ i. rw ((k.waits i).0) (g.member i);
      prepared = λ q. k.prepared ∙ g.prepared q;
      covered = λ i m h. still_alert i g.prepared (g.covered i m) h;
    }
