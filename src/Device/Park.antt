-- ===== src/Device/Park.antt =====
-- `consume`, `park` and `destroy_flag` of threadsafeflag.h against the invariant between the
-- scheduler and the callers of `set`.
use simple_await.Base.{
  ℕ, zero, suc, ◌<◌, ◌≡◌, refl, sym, ◌∙◌, Bool, true, false, Option, none, some, List, ◌∷◌, is_some,
  arith, length, remove, inl, inr, Bool-cases, Option-cases, ◌==◌,
}
use native.Mathlib.Decide.{ℕ_discrete}
use simple_await.Error.{Error, invalid_task, multiple_flag_waiters, object_destroyed_with_waiters}
use simple_await.World.{World, on_error}
use simple_await.Tasks.{is_current}
use simple_await.Tasks.Children.{nobody}
use simple_await.Waits.{running_is, park_running}
use simple_await.Flag.{
  new_flag, put_flag, arm, park, read_link, write_link, unlink, unarm, destroy_flag,
}
use simple_await.Flag.Armed.{Agree, Linked-frame}
use simple_await.Flag.Arming.{Arming, parked_world, parked-Arming, consumed-Arming}
use simple_await.Flag.Unarm.{unlink_step, unlink_end, unarm-Arming}
use simple_await.Device.{Semaphore, Device}
use simple_await.Device.Signals.{alert}
use simple_await.Device.Scan.{Guarded}

-- What `park` returns.
data ParkCase (f : ℕ) (w : World) (out : World) : Type 0 where
  reports : (e : Error) → out ≡ on_error e w → ParkCase f w out
  parks : (x : ℕ) → (w.flags f).waiter ≡ none → out ≡ parked_world f x w → ParkCase f w out

park-ParkCase : (f awaiting : ℕ) (w : World) → ParkCase f w (park f awaiting w).1
unfolding park running_is park_running
park-ParkCase f awaiting w = elim (Bool-cases (is_current w.sched awaiting)) [
  | inr other ↦ reports invalid_task (simp other refl)
  | inl own ↦ elim (Option-cases (w.flags f).waiter) [
    | inr (y, busy) ↦ reports multiple_flag_waiters (simp (own, busy) refl)
    | inl free ↦ elim (Option-cases w.sched.current) [
      | inl e ↦ absurd (nobody w.sched awaiting e own)
      | inr (x, at) ↦ parks x free (simp (own, free, at) refl)
    ]
  ]
]

-- `unlink` writes links only.
unlink-links :
    (fuel : ℕ) (link : Option ℕ) (f : ℕ) (w : World)
    → ((unlink fuel link f w).pending ≡ w.pending)
      × ((i : ℕ) → Agree w.flags (unlink fuel link f w).flags i)
unfolding unlink
unlink-links zero link f w = (refl, λ i. (refl, refl))
unlink-links (suc fuel) link f w = elim (Option-cases (read_link link w)) [
  | inl e ↦ rw (unlink_end fuel link f w e) (refl, λ i. (refl, refl))
  | inr (g, e) ↦ elim (Bool-cases (g == f)) [
    | inl here ↦ rw (unlink_step fuel link f g w e, here) (written link (w.flags f).armed_next)
    | inr other ↦ rw (unlink_step fuel link f g w e, other) (unlink-links fuel (some g) f w)
  ]
]
  where
    written :
        (o p : Option ℕ)
        → ((write_link o p w).pending ≡ w.pending)
          × ((i : ℕ) → Agree w.flags (write_link o p w).flags i)
    written none p = (refl, λ i. (refl, refl))
    written (some g) p = (refl, λ i. ground arith)

unarm-flags :
    (fuel f : ℕ) (w : World)
    → ((unarm fuel f w).pending ≡ w.pending)
      × ((i : ℕ) → ((unarm fuel f w).flags i).signaled ≡ (w.flags i).signaled)
      × ((i : ℕ)
          → is_some ((unarm fuel f w).flags i).waiter ≡ true
          → is_some (w.flags i).waiter ≡ true)
unfolding unarm
unarm-flags fuel f w =
    let k = unlink-links fuel none f w in
    (k.0, (λ i. ground (arith, (k.1 i).0)), λ i h. ground (arith, (k.1 i).1))

module _ {S : Type 0} (b : Semaphore S) (strict : Bool) where
  -- Fewer signals on waited-for flags, and the same marks.
  lowered :
      (d : Device S) (w : World) (l m : List ℕ)
      → Guarded b strict d l
      → Arming w m
      → w.pending ≡ d.world.pending
      → ((i : ℕ)
          → is_some (w.flags i).waiter ≡ true
          → (w.flags i).signaled ≡ true
          → (is_some (d.world.flags i).waiter ≡ true) × ((d.world.flags i).signaled ≡ true))
      → Guarded b strict (record d { world = w }) m
  lowered d w l m g a p h = record {
    arming = a;
    prepared = g.prepared;
    covered = λ i n s. rw p (g.covered i (h i n s).0 (h i n s).1);
  }

  pub lowered-Guarded :
      (d : Device S) (f : ℕ) (l : List ℕ)
      → Guarded b strict d l
      → Guarded b strict
          (record d { world = put_flag f (record (d.world.flags f) { signaled = false }) d.world })
          l
  lowered-Guarded d f l g =
      lowered d _ l l g (consumed-Arming g.arming f) refl (λ i n s. (ground arith, ground arith))

  pub constructed-Guarded :
      (d : Device S) (f : ℕ) (l : List ℕ)
      → (d.world.flags f).waiter ≡ none
      → Guarded b strict d l
      → Guarded b strict (record d { world = put_flag f new_flag d.world }) l
  constructed-Guarded d f l free g =
      lowered d w l l g
        (record {
          linked =
              Linked-frame d.world.flags w.flags d.world.armed_head l none
                (λ i h. ground (arith, g.arming.member f)) g.arming.linked;
          member = λ i. ground (arith, g.arming.member i);
        })
        refl (λ i n s. (ground arith, ground arith))
    where
      w : World
      w = put_flag f new_flag d.world

  pub destroyed-Guarded :
      (d : Device S) (fuel f : ℕ) (l : List ℕ)
      → length l < fuel
      → Guarded b strict d l
      → (m : List ℕ) × Guarded b strict (record d { world = destroy_flag fuel f d.world }) m
  unfolding destroy_flag
  destroyed-Guarded d fuel f l h g = elim (Bool-cases (is_some (d.world.flags f).waiter)) [
    | inr free ↦ (l, rw free g)
    | inl busy ↦
        let k = unarm-flags fuel f d.world in
        let a = (unarm-Arming fuel f g.arming h).0 in
        (
          remove f l,
          rw busy (
              lowered d (on_error object_destroyed_with_waiters (unarm fuel f d.world)) l
                (remove f l) g (record { linked = a.linked; member = a.member }) k.0
                (λ i n s. (k.2 i n, sym (k.1 i) ∙ s))),
        )
  ]

  parked-Guarded :
      (d : Device S) (f x : ℕ) (l : List ℕ)
      → (d.world.flags f).waiter ≡ none
      → Guarded b strict d l
      → ((d.world.flags f).signaled ≡ true → alert b strict d ≡ true)
      → Guarded b strict (record d { world = parked_world f x d.world }) (f ∷ l)
  unfolding arm
  parked-Guarded d f x l free g h = record {
    arming = parked-Arming g.arming f x free;
    prepared = g.prepared;
    covered = λ i n s. elim (ℕ_discrete i f) [
      | yes q ↦ h (ground arith)
      | no q ↦ g.covered i (ground arith) (ground arith)
    ];
  }

  -- `park` when a signal that the flag has by now keeps the scheduler from sleeping.
  pub park-Guarded :
      (d : Device S) (f awaiting : ℕ) (l : List ℕ)
      → Guarded b strict d l
      → ((d.world.flags f).signaled ≡ true → alert b strict d ≡ true)
      → (m : List ℕ) × Guarded b strict (record d { world = (park f awaiting d.world).1 }) m
  park-Guarded d f awaiting l g h = elim (park-ParkCase f awaiting d.world) [
    | reports e q ↦ (
      l,
      rw q (
          lowered d (on_error e d.world) l l g
            (record { linked = g.arming.linked; member = g.arming.member }) refl (λ i n s. (n, s))),
    )
    | parks x free q ↦ (f ∷ l, rw q (parked-Guarded d f x l free g h))
  ]
