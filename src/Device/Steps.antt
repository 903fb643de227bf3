-- ===== src/Device/Steps.antt =====
-- What the scheduler's context and the others do between two polls for external signals: the
-- operations of threadsafeflag.h in any order, with steps of other contexts between them.
use simple_await.Base.{
  ℕ, ◌<◌, ◌≡◌, refl, sym, ◌∙◌, ap, Bool, true, false, none, List, is_some, length, inl, inr,
  Bool-cases,
}
use simple_await.World.{World}
use simple_await.Flag.{new_flag, put_flag, clear, consume, park, destroy_flag}
use simple_await.Flag.Arming.{Arming}
use simple_await.Device.{Semaphore, IsBinary, Device, Signal, signal, interrupted, wait_interrupted}
use simple_await.Device.Signals.{signal-Signaled, interrupted-Signaled}
use simple_await.Device.Scan.{Guarded, Signaled-Guarded}
use simple_await.Device.Park.{lowered-Guarded, constructed-Guarded, destroyed-Guarded, park-Guarded}

-- One step. Whatever else the scheduler and user code do leaves the flags, the list of armed ones
-- and the pending mark.
pub data Step {S : Type 0} (b : Semaphore S) : Device S → Device S → Type 0 where
  signals : (s : Signal) (d : Device S) → Step b d (signal b s d)
  clears : (f : ℕ) (d : Device S) → Step b d (record d { world = clear f d.world })
  waits :
      (f awaiting : ℕ) (calls : List Signal) (d : Device S)
      → Step b d (wait_interrupted b f awaiting calls d).1
  constructs :
      (f : ℕ) (d : Device S)
      → (d.world.flags f).waiter ≡ none
      → Step b d (record d { world = put_flag f new_flag d.world })
  destroys :
      (fuel f : ℕ) (d : Device S)
      → ((l : List ℕ) → Arming d.world l → length l < fuel)
      → Step b d (record d { world = destroy_flag fuel f d.world })
  elsewhere :
      (d : Device S) (w : World)
      → w.flags ≡ d.world.flags
      → w.armed_head ≡ d.world.armed_head
      → w.pending ≡ d.world.pending
      → Step b d (record d { world = w })

-- Any number of steps.
pub data Steps {S : Type 0} (b : Semaphore S) : Device S → Device S → Type 0 where
  done : (d : Device S) → Steps b d d
  after : {d e u : Device S} → Steps b d e → Step b e u → Steps b d u

-- The armed flags are those with a waiting slot, and one that is signalled keeps the scheduler from
-- sleeping.
abbrev pub IsGuarded : {S : Type 0} → Semaphore S → Bool → Device S → Type 0
IsGuarded b strict d = (l : List ℕ) × Guarded b strict d l

module _ {S : Type 0} (b : Semaphore S) (strict : Bool) (law : IsBinary b) where
  signals-Guarded :
      (s : Signal) (d : Device S) → IsGuarded b strict d → IsGuarded b strict (signal b s d)
  signals-Guarded s d (l, g) =
      (l, Signaled-Guarded b strict d (signal b s d) (signal-Signaled b law s d) l g)

  interrupted-Guarded :
      (calls : List Signal) (d : Device S)
      → IsGuarded b strict d
      → IsGuarded b strict (interrupted b calls d)
  interrupted-Guarded calls d (l, g) =
      (l, Signaled-Guarded b strict d _ (interrupted-Signaled b law calls d) l g)

  taken_wait :
      (f awaiting : ℕ) (calls : List Signal) (d : Device S)
      → (d.world.flags f).signaled ≡ true
      → (wait_interrupted b f awaiting calls d).1
        ≡ interrupted b calls (record d {
          world = put_flag f (record (d.world.flags f) { signaled = false }) d.world;
        })
  unfolding wait_interrupted consume
  taken_wait f awaiting calls d on = simp on refl

  parked_wait :
      (f awaiting : ℕ) (calls : List Signal) (d : Device S)
      → (d.world.flags f).signaled ≡ false
      → (wait_interrupted b f awaiting calls d).1 ≡ record (interrupted b calls d) {
        world = (park f awaiting (interrupted b calls d).world).1;
      }
  unfolding wait_interrupted consume
  parked_wait f awaiting calls d off = simp off refl

  waits-Guarded :
      (f awaiting : ℕ) (calls : List Signal) (d : Device S)
      → IsGuarded b strict d
      → IsGuarded b strict (wait_interrupted b f awaiting calls d).1
  waits-Guarded f awaiting calls d (l, g) = elim (Bool-cases (d.world.flags f).signaled) [
    | inl on ↦
        rw (taken_wait f awaiting calls d on)
          (interrupted-Guarded calls _ (l, lowered-Guarded b strict d f l g))
    | inr off ↦
        let k = interrupted-Signaled b law calls d in
        let e = interrupted b calls d in
        rw (parked_wait f awaiting calls d off) (
          park-Guarded b strict e f awaiting l (Signaled-Guarded b strict d e k l g)
            (λ h. k.raised strict f off h g.prepared))
  ]

  elsewhere-Guarded :
      (d : Device S) (w : World)
      → w.flags ≡ d.world.flags
      → w.armed_head ≡ d.world.armed_head
      → w.pending ≡ d.world.pending
      → IsGuarded b strict d
      → IsGuarded b strict (record d { world = w })
  elsewhere-Guarded d w e h p (l, g) = (
    l,
    record {
      arming = record {
        linked = rw (e, h) g.arming.linked;
        member = λ f. rw e (g.arming.member f);
      };
      prepared = g.prepared;
      covered = λ f n s. rw p (
          g.covered f (ap (λ v. is_some (v f).waiter) (sym e) ∙ n)
            (ap (λ v. (v f).signaled) (sym e) ∙ s));
    },
  )

  Step-Guarded : {d e : Device S} → Step b d e → IsGuarded b strict d → IsGuarded b strict e
  unfolding clear
  Step-Guarded (signals s d) g = signals-Guarded s d g
  Step-Guarded (clears f d) (l, g) = (l, lowered-Guarded b strict d f l g)
  Step-Guarded (waits f awaiting calls d) g = waits-Guarded f awaiting calls d g
  Step-Guarded (constructs f d free) (l, g) = (l, constructed-Guarded b strict d f l free g)
  Step-Guarded (destroys fuel f d h) (l, g) = destroyed-Guarded b strict d fuel f l (h l g.arming) g
  Step-Guarded (elsewhere d w e h p) g = elsewhere-Guarded d w e h p g

  -- With a binary semaphore: if the armed flags are those with a waiting slot, and each signalled one
  -- of them has left a pending mark (and, if `strict`, a token or a caller of `set` that will give
  -- one), then the same holds after any number of steps: signals of other contexts, `clear`, `wait`
  -- interrupted behind its critical section, constructions, destructions, and code that leaves flags,
  -- armed list and mark alone.
  pub Steps-Guarded : {d e : Device S} → Steps b d e → IsGuarded b strict d → IsGuarded b strict e
  Steps-Guarded (done d) g = g
  Steps-Guarded (after ss s) g = Step-Guarded s (Steps-Guarded ss g)
