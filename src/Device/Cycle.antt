-- ===== src/Device/Cycle.antt =====
-- `poll_and_wait` of scheduler.h with other contexts: the preparation of the wait, the passes, and the
-- waits that take the token.
use simple_await.Base.{
  Segment-unique, ℕ, ◌≤◌, ◌≡◌, refl, subst, Bool, true, false, Option, none, some, List, [],
  is_some, arith, length, inl, inr, Bool-cases,
}
use simple_await.Flag.{new_flag}
use simple_await.Flag.Armed.{armed_links}
use simple_await.Flag.Arming.{Arming}
use simple_await.Device.{
  Semaphore, IsBinary, Device, Signal, platform_prepare_scheduler_wait, poll_interrupted,
}
use simple_await.Device.Poll.{poll_interrupted-Drained}
use simple_await.Device.Steps.{Step, done, after, IsGuarded, Steps-Guarded}

-- At most `max_tasks` flags are armed: each of them has a slot of its own.
abbrev pub Fits : {S : Type 0} → ℕ → Device S → Type 0
Fits max_tasks d = (l : List ℕ) → Arming d.world l → length l ≤ max_tasks

-- One list shows it, since a device has only one.
pub Arming-Fits :
    {S : Type 0} (max_tasks : ℕ) (d : Device S) (l : List ℕ)
    → Arming d.world l
    → length l ≤ max_tasks
    → Fits max_tasks d
Arming-Fits max_tasks d l a h k c =
    subst (λ m. length m ≤ max_tasks)
      (Segment-unique (armed_links d.world.flags) d.world.armed_head l k a.linked c.linked) h

module _ {S : Type 0} (b : Semaphore S) (max_tasks : ℕ) where
  -- The devices that a program reaches from one without armed flags: by steps of its contexts, polls
  -- for external signals, preparations of the wait, and waits that take the token.
  pub data Reached : Device S → Type 0 where
    starts :
        (d : Device S)
        → d.world.armed_head ≡ none
        → ((f : ℕ) → d.world.flags f ≡ new_flag)
        → Reached d
    steps : {d e : Device S} → Step b d e → Reached d → Reached e
    polls :
        {d : Device S} (calls : ℕ → List Signal)
        → Fits max_tasks d
        → Reached d
        → Reached (poll_interrupted b max_tasks calls d)
    prepares : {d : Device S} → Reached d → Reached (platform_prepare_scheduler_wait b d)
    takes :
        {d : Device S} (s : S)
        → d.scheduler_wake ≡ some s
        → Reached d
        → Reached (record d { scheduler_wake = some (b.take s) })

module _ {S : Type 0} (b : Semaphore S) (law : IsBinary b) where
  -- The invariant but for the token does not depend on the semaphore.
  rewaked :
      (d : Device S) (o : Option S) (k : ℕ)
      → IsGuarded b false d
      → IsGuarded b false (record d { scheduler_wake = o; waking = k })
  rewaked d o k (l, g) = (
    l,
    record {
      arming = g.arming;
      prepared = λ q. absurd (ground arith);
      covered = λ f n s. ground (arith, g.covered f n s);
    },
  )

  pub prepared-Guarded :
      (d : Device S)
      → IsGuarded b false d
      → IsGuarded b false (platform_prepare_scheduler_wait b d)
        × (is_some (platform_prepare_scheduler_wait b d).scheduler_wake ≡ true)
        × ((platform_prepare_scheduler_wait b d).world ≡ d.world)
  unfolding platform_prepare_scheduler_wait
  prepared-Guarded d g = elim (Bool-cases (is_some d.scheduler_wake)) [
    | inl e ↦ rw e (g, e, refl)
    | inr e ↦ rw e (rewaked d (some b.create) d.waking g, refl, refl)
  ]

  pub polled-Guarded :
      (strict : Bool) (max_tasks : ℕ) (calls : ℕ → List Signal) (d : Device S)
      → IsGuarded b false d
      → (strict ≡ true → is_some d.scheduler_wake ≡ true)
      → Fits max_tasks d
      → IsGuarded b strict (poll_interrupted b max_tasks calls d)
  polled-Guarded strict max_tasks calls d (l, g) ready fits =
      let k = poll_interrupted-Drained b strict max_tasks calls law g ready (fits l g.arming) in
      (k.left, k.guarded)

  pub Reached-Guarded : (max_tasks : ℕ) {d : Device S} → Reached b max_tasks d → IsGuarded b false d
  Reached-Guarded max_tasks (starts d none_armed fresh) = (
    [],
    record {
      arming = record { linked = none_armed; member = λ f. rw (fresh f) refl };
      prepared = λ q. absurd (ground arith);
      covered = λ f n s. absurd (ground (arith, fresh f));
    },
  )
  Reached-Guarded max_tasks (steps s r) =
      Steps-Guarded b false law (after (done _) s) (Reached-Guarded max_tasks r)
  Reached-Guarded max_tasks (polls {d} calls fits r) =
      polled-Guarded false max_tasks calls d (Reached-Guarded max_tasks r)
        (λ q. absurd (ground arith)) fits
  Reached-Guarded max_tasks (prepares {d} r) = (prepared-Guarded d (Reached-Guarded max_tasks r)).0
  Reached-Guarded max_tasks (takes {d} s e r) =
      rewaked d (some (b.take s)) d.waking (Reached-Guarded max_tasks r)
